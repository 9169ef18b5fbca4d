-- ===== src/Coordination/Evolution/Phases.antt =====
-- danus/coordination/store.py: the end of a phase lets the store evolve.
use danus.Base.{ℕ, String, ◌||◌, not, Option, none, some, ◌≡◌, refl, sym, subst, arith}
use danus.Base.Result.{Holds, Holds-bind, Holds-require, Holds-if, Holds-ok, Holds-err}
use danus.Coordination.Rows.{
  Phase, reasoning, critic_review, owner_action_required, phase_eq, Review, Store, Text,
}
use danus.Coordination.Binding.{write_worker_state}
use danus.Coordination.Advance.{
  copy_forward, task_staging, carried, open_critic_phase, next_generation, close_unconfirmed,
  end_phase, advance_generation_if_ready, active_review, has_overlay, is_round_over,
}
use danus.Coordination.History.{Succeeds, Succeeds-refl}
use danus.Coordination.Evolution.{Evolves, Evolves-same, Evolves-refl, Evolves-trans}

pub write-Evolves :
    (worker lane state : String) (g : ℕ) (phase : Phase) (now : ℕ) (s : Store)
    → Evolves s (write_worker_state worker lane state g phase now s)
unfolding write_worker_state
write-Evolves worker lane state g phase now s =
    Evolves-same s _ refl refl refl (omega arith) (Succeeds-refl s.candidates)

-- A copy that differs in its tasks alone, and what the copying returns is one.
abbrev IsCopy : Store → Store → Type 0
IsCopy s t =
    (t.candidates ≡ s.candidates)
    × (t.slots ≡ s.slots)
    × (t.lanes ≡ s.lanes)
    × (t.max_paid_workers ≡ s.max_paid_workers)

module _ (lib : Text) (s : Store) (now : ℕ) where
  copy_forward-IsCopy : (g : ℕ) → Holds (IsCopy s) (copy_forward lib s g now)
  unfolding copy_forward
  copy_forward-IsCopy g = Holds-bind (task_staging lib s g) (λ source _. Holds-require _ _ (λ _.
      Holds-require _ _
        (λ _. Holds-bind (carried s g now s.lanes) (λ rows _. Holds-ok (refl, refl, refl, refl)))))

  open_critic_phase-Evolves : (r : Review) → Holds (Evolves s) (open_critic_phase s now r)
  unfolding open_critic_phase
  open_critic_phase-Evolves r = Holds-require _ _ (λ _.
      Holds-require _ _ (λ _.
        Holds-ok (Evolves-same s _ refl refl refl (omega arith) (Succeeds-refl s.candidates))))

  next_generation-Evolves : Holds (Evolves s) (next_generation lib s now)
  unfolding next_generation
  next_generation-Evolves = Holds-bind (copy_forward lib s s.project.generation now) (λ t e.
      let (same, slots, lanes, limit) = (copy_forward-IsCopy s.project.generation).at t e in
      Holds-require _ _ (λ _. Holds-ok (
        Evolves-same s _ slots lanes limit (omega arith)
          (subst (Succeeds s.candidates) (sym same) (Succeeds-refl s.candidates)))))

  close_unconfirmed-Evolves : (r : Option Review) → Holds (Evolves s) (close_unconfirmed s now r)
  unfolding close_unconfirmed
  close_unconfirmed-Evolves none = Holds-err
  close_unconfirmed-Evolves (some r) = Holds-require _ _ (λ _.
      Holds-require _ _ (λ _.
        Holds-ok (Evolves-same s _ refl refl refl (omega arith) (Succeeds-refl s.candidates))))

module _ (lib : Text) (s : Store) (now : ℕ) where
  end_phase-Evolves : (p : Phase) (r : Option Review) → Holds (Evolves s) (end_phase lib s now p r)
  unfolding end_phase
  end_phase-Evolves reasoning (some r) = open_critic_phase-Evolves lib s now r
  end_phase-Evolves reasoning none = next_generation-Evolves lib s now
  end_phase-Evolves critic_review r = Holds-bind (close_unconfirmed s now r) (λ t e. record {
    at = λ u e2.
        Evolves-trans s t u ((close_unconfirmed-Evolves lib s now r).at t e)
          ((next_generation-Evolves lib t now).at u e2);
  })
  end_phase-Evolves owner_action_required r = next_generation-Evolves lib s now

  pub advance-Evolves : Holds (λ r. Evolves s r.1) (advance_generation_if_ready lib s now)
  unfolding advance_generation_if_ready
  advance-Evolves =
      Holds-if (phase_eq s.project.phase owner_action_required || has_overlay s)
        (λ _. Holds-ok (Evolves-refl s))
        (λ _.
          Holds-if (not (is_round_over s)) (λ _. Holds-ok (Evolves-refl s))
            (λ _. Holds-bind (active_review s) (λ r _.
              Holds-bind (end_phase lib s now s.project.phase r)
                (λ t e. Holds-ok ((end_phase-Evolves s.project.phase r).at t e)))))
