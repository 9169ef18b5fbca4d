-- ===== src/Coordination/PhaseEnds/Ready.antt =====
-- danus/coordination/store.py: when a phase may end, and the tests of the code for it.
use danus.Base.{
  ℕ, String, true, false, ◌||◌, not, some, List, ◌≡◌, ◌≢◌, refl, arith, get_elem?, eq_iff, eq_refl,
}
use danus.Base.Result.{Holds, Holds-ok, Holds-bind, Holds-if}
use danus.Coordination.Rows.{
  Phase, reasoning, critic_review, owner_action_required, phase_eq, Slot, terminal, Store, Text,
}
use danus.Coordination.Searches.{
  any-eq-true, any-of, all-lanes, all_lanes-of, phase_eq_iff, phase_eq_refl, is_open-eq-false,
  IsClear, has_overlay-eq-false, IsClear-has_overlay,
}
use danus.Coordination.Advance.{
  advance_generation_if_ready, has_overlay, all, is_completed, required, is_round_over,
  active_review, end_phase,
}

-- A lane has a terminal slot of the generation and the phase.
abbrev pub IsDone : ℕ → Phase → List Slot → String → Type 0
IsDone g p slots lane =
    (i : ℕ) × (r : Slot) × (get_elem? slots i ≡ some r)
    × (r.lane ≡ lane)
    × (r.generation ≡ g)
    × (r.phase ≡ p)
    × (r.state ≡ terminal)

-- Every lane that the phase waits for is done: the critic's in its review, each paid one otherwise.
pub record IsOver (g : ℕ) (p : Phase) (lanes : List (String × String)) (slots : List Slot)
    : Type 0 where
  pub critic : p ≡ critic_review → IsDone g p slots "critic"
  pub others :
      p ≢ critic_review
      → (i : ℕ) (worker lane : String) → get_elem? lanes i ≡ some (worker, lane)
      → IsDone g p slots lane

-- What must hold for a phase to end: the owner is not asked, no candidate is in flight, and every
-- lane that the phase waits for is done.
pub record IsReady (s : Store) : Type 0 where
  pub unasked : s.project.phase ≢ owner_action_required
  pub clear : IsClear s
  pub over : IsOver s.project.generation s.project.phase s.lanes s.slots

module _ (g : ℕ) (p : Phase) (slots : List Slot) where
  is_completed-IsDone : (lane : String) → is_completed g p lane slots ≡ true → IsDone g p slots lane
  unfolding is_completed
  is_completed-IsDone lane h =
      let (i, r, at, is) = any-eq-true _ slots h in
      (
        i,
        r,
        at,
        ground (arith, is, eq_iff r.lane lane),
        ground (arith, is),
        phase_eq_iff r.phase p (ground (arith, is)),
        is_open-eq-false r.state (ground (arith, is)),
      )

  IsDone-is_completed : (lane : String) → IsDone g p slots lane → is_completed g p lane slots ≡ true
  unfolding is_completed
  IsDone-is_completed lane (i, r, at, l, gen, ph, done) =
      any-of _ slots i r at (ground (arith, l, gen, ph, done, eq_refl lane, phase_eq_refl p))

  -- The test of the code, for the phase and the roster.
  abbrev PassesTest : Store → Type 0
  PassesTest s = all (λ lane. is_completed g p lane slots) (required p s) ≡ true

all_required-IsOver :
    (s : Store) (g : ℕ) (p : Phase) (slots : List Slot)
    → PassesTest g p slots s
    → IsOver g p s.lanes slots
unfolding all
all_required-IsOver s g critic_review slots h = record {
  critic = λ _. is_completed-IsDone g critic_review slots "critic" (ground (arith, h));
  others = λ other. absurd (other refl);
}
all_required-IsOver s g reasoning slots h = record {
  critic = λ e. cc (e);
  others = λ _ i worker lane at.
      is_completed-IsDone g reasoning slots lane (all-lanes _ s.lanes i worker lane h at);
}
all_required-IsOver s g owner_action_required slots h = record {
  critic = λ e. cc (e);
  others = λ _ i worker lane at.
      is_completed-IsDone g owner_action_required slots lane
        (all-lanes _ s.lanes i worker lane h at);
}

IsOver-all_required :
    (s : Store) (g : ℕ) (p : Phase) (slots : List Slot)
    → IsOver g p s.lanes slots
    → PassesTest g p slots s
unfolding all
IsOver-all_required s g critic_review slots h =
    ground (arith, IsDone-is_completed g critic_review slots "critic" (h.critic refl))
IsOver-all_required s g reasoning slots h = all_lanes-of _ s.lanes (λ i worker lane at.
    IsDone-is_completed g reasoning slots lane (h.others (λ e. cc (e)) i worker lane at))
IsOver-all_required s g owner_action_required slots h = all_lanes-of _ s.lanes (λ i worker lane at.
    IsDone-is_completed g owner_action_required slots lane
      (h.others (λ e. cc (e)) i worker lane at))

is_round_over-IsOver :
    (s : Store)
    → is_round_over s ≡ true
    → IsOver s.project.generation s.project.phase s.lanes s.slots
unfolding is_round_over
is_round_over-IsOver s h = all_required-IsOver s s.project.generation s.project.phase s.slots h

IsOver-is_round_over :
    (s : Store)
    → IsOver s.project.generation s.project.phase s.lanes s.slots
    → is_round_over s ≡ true
unfolding is_round_over
IsOver-is_round_over s h = IsOver-all_required s s.project.generation s.project.phase s.slots h

-- The call ends a phase exactly when it may.
pub advance-IsReady :
    (lib : Text) (s : Store) (now : ℕ)
    → Holds
        (λ r. (r.0 ≡ true → IsReady s) × (r.0 ≡ false → (r.1 ≡ s) × ¬ IsReady s))
        (advance_generation_if_ready lib s now)
unfolding advance_generation_if_ready
advance-IsReady lib s now =
    Holds-if (phase_eq s.project.phase owner_action_required || has_overlay s)
      (λ early. Holds-ok (
        (λ e. cc (e)),
        λ _. (
          refl,
          λ ready. absurd (
              ground (
                arith,
                early,
                ready.unasked,
                IsClear-has_overlay s ready.clear,
                phase_eq_iff s.project.phase owner_action_required,
              )),
        ),
      ))
      (λ still.
        Holds-if (not (is_round_over s))
          (λ early. Holds-ok (
            (λ e. cc (e)),
            λ _. (refl, λ ready. absurd (ground (arith, early, IsOver-is_round_over s ready.over))),
          ))
          (λ over. Holds-bind (active_review s) (λ r _.
            Holds-bind (end_phase lib s now s.project.phase r) (λ t e. Holds-ok (
              (λ _. record {
                unasked = λ p. absurd (ground (arith, still, p));
                clear = has_overlay-eq-false s (ground (arith, still));
                over = is_round_over-IsOver s (ground (arith, over));
              }),
              λ f. cc (f),
            )))))
