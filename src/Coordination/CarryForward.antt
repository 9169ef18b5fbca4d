-- ===== src/Coordination/CarryForward.antt =====
-- danus/coordination/store.py: a generation starts with the tasks of the one before.
use danus.Base.{
  ℕ, ◌+◌, String, true, false, ◌||◌, not, Option, none, some, List, [], ◌∷◌, ◌++◌, ◌==◌, ◌≡◌, refl,
  arith, Bool-cases, inl, inr, eq_iff, ◌=?◌,
}
use danus.Base.Assoc.{lookup}
use danus.Base.Result.{
  ok, Holds, Holds-ok, Holds-err, Holds-bind, Holds-require, Holds-if, or_raise-eq-ok,
}
use danus.Coordination.Rows.{
  Phase, reasoning, critic_review, owner_action_required, phase_eq, Review, Store, Text, find_task,
}
use danus.Coordination.Advance.{
  advance_generation_if_ready, has_overlay, is_round_over, active_review, end_phase, copy_forward,
}
use danus.Coordination.Rows.{any, Task}
use danus.Coordination.Advance.{open_critic_phase, next_generation, close_unconfirmed, carried}

find_task-absent :
    (worker : String) (g : ℕ) (rows new : List Task)
    → any (λ row. row.generation =? g) rows ≡ false
    → find_task worker g (rows ++ new) ≡ find_task worker g new
unfolding find_task any
find_task-absent worker g [] new e = refl
find_task-absent worker g (r ∷ rows) new e = ground (arith, e, find_task-absent worker g rows new)

-- The task of a worker in a generation and its copy in the next.
abbrev pub IsCarried : String → String → ℕ → List Task → List Task → Type 0
IsCarried worker lane g old new =
    (a : Task) × (b : Task) × (find_task worker g old ≡ some a)
    × (find_task worker (g + 1) new ≡ some b)
    × (b.task ≡ a.task)
    × (b.lane ≡ lane)
    × (b.frozen_at ≡ none)

carried-IsCarried :
    (s : Store) (g now : ℕ) (required : List (String × String)) (worker lane : String)
    → lookup worker required ≡ some lane
    → Holds (λ rows. IsCarried worker lane g s.tasks rows) (carried s g now required)
unfolding carried lookup
carried-IsCarried s g now [] worker lane h = cc
carried-IsCarried s g now ((w, l) ∷ required) worker lane h = Holds-bind _ (λ row er.
    Holds-bind (carried s g now required) (λ rest es. Holds-ok (elim (Bool-cases (w == worker)) [
      | inl same ↦ (
        row,
        record {
          worker = w;
          generation = g + 1;
          lane = l;
          task = row.task;
          staged_at = now;
          frozen_at = none;
        },
        ground (arith, or_raise-eq-ok _ _ row er, same, eq_iff w worker),
        ground (arith, same),
        refl,
        ground (arith, h, same),
        refl,
      )
      | inr other ↦
          let (a, b, ea, eb, et, el, ef) =
            (carried-IsCarried s g now required worker lane (ground (arith, h, other))).at rest
              es in
          (a, b, ea, ground (arith, eb, other), et, el, ef)
    ])))

module _ (lib : Text) (worker lane : String) (now : ℕ) where
  copy_forward-IsCarried :
      (s : Store) (g : ℕ)
      → lookup worker s.lanes ≡ some lane
      → Holds (λ t. IsCarried worker lane g s.tasks t.tasks) (copy_forward lib s g now)
  unfolding copy_forward
  copy_forward-IsCarried s g h = Holds-bind _ (λ source _. Holds-require _ _ (λ _.
      Holds-require _ _ (λ free. Holds-bind (carried s g now s.lanes) (λ rows er. Holds-ok (
        let (a, b, ea, eb, et, el, ef) =
          (carried-IsCarried s g now s.lanes worker lane h).at rows er in
        (
          a,
          b,
          ea,
          ground (arith, eb, find_task-absent worker (g + 1) s.tasks rows, free),
          et,
          el,
          ef,
        ))))))

  next_generation-IsCarried :
      (s : Store)
      → lookup worker s.lanes ≡ some lane
      → Holds
          (λ t. IsCarried worker lane s.project.generation s.tasks t.tasks)
          (next_generation lib s now)
  unfolding next_generation
  next_generation-IsCarried s h = Holds-bind _ (λ t e.
      Holds-require _ _ (λ _. Holds-ok ((copy_forward-IsCarried s s.project.generation h).at t e)))

close_unconfirmed-tasks :
    (s : Store) (now : ℕ) (r : Option Review)
    → Holds
        (λ u. (u.project ≡ s.project) × (u.tasks ≡ s.tasks) × (u.lanes ≡ s.lanes))
        (close_unconfirmed s now r)
unfolding close_unconfirmed
close_unconfirmed-tasks s now none = Holds-err
close_unconfirmed-tasks s now (some r) =
    Holds-require _ _ (λ _. Holds-require _ _ (λ _. Holds-ok (refl, refl, refl)))

module _ (lib : Text) (worker lane : String) (s : Store) (now : ℕ)
    (h : lookup worker s.lanes ≡ some lane) where
  abbrev Carries : Store → Type 0
  Carries t =
      t.project.generation ≡ s.project.generation + 1
      → IsCarried worker lane s.project.generation s.tasks t.tasks

  starts-Carries : Holds Carries (next_generation lib s now)
  starts-Carries = record {
    at = λ t e _. (next_generation-IsCarried lib worker lane now s h).at t e;
  }

  end_phase-Carries : (p : Phase) (r : Option Review) → Holds Carries (end_phase lib s now p r)
  unfolding end_phase open_critic_phase
  end_phase-Carries reasoning (some r) =
      Holds-require _ _ (λ _. Holds-require _ _ (λ _. Holds-ok (λ e. absurd (omega (arith, e)))))
  end_phase-Carries reasoning none = starts-Carries
  end_phase-Carries critic_review r = Holds-bind (close_unconfirmed s now r) (λ u e.
      let (ep, et, el) = (close_unconfirmed-tasks s now r).at u e in
      record {
        at = λ t f _.
            let (a, b, ea, eb, same, lanes, free) =
              (next_generation-IsCarried lib worker lane now u (ground (arith, el, h))).at t f in
            (a, b, ground (arith, ea, ep, et), ground (arith, eb, ep), same, lanes, free);
      })
  end_phase-Carries owner_action_required r = starts-Carries

  advance-Carries : Holds (λ r. r.0 ≡ true → Carries r.1) (advance_generation_if_ready lib s now)
  unfolding advance_generation_if_ready
  advance-Carries =
      Holds-if (phase_eq s.project.phase owner_action_required || has_overlay s)
        (λ _. Holds-ok (λ e. cc (e)))
        (λ _.
          Holds-if (not (is_round_over s)) (λ _. Holds-ok (λ e. cc (e)))
            (λ _. Holds-bind (active_review s) (λ r _.
              Holds-bind (end_phase lib s now s.project.phase r)
                (λ t e. Holds-ok (λ _. (end_phase-Carries s.project.phase r).at t e)))))

-- When the generation advances, every worker of the roster had a task in the generation that ends
-- and has one in the next: the same text, for its lane, not frozen yet. So the next admission of the
-- worker finds its task.
pub tasks_carry_forward :
    (lib : Text) (s t : Store) (now : ℕ) (worker lane : String)
    → advance_generation_if_ready lib s now ≡ ok (true, t)
    → t.project.generation ≡ s.project.generation + 1
    → lookup worker s.lanes ≡ some lane
    → IsCarried worker lane s.project.generation s.tasks t.tasks
tasks_carry_forward lib s t now worker lane h next there =
    (advance-Carries lib worker lane s now there).at (true, t) h refl next
