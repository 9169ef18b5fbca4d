-- ===== src/Coordination/PhaseEnds.antt =====
-- danus/coordination/store.py: when and how a phase ends.
pub mod Ready
pub mod Closing
use danus.Base.{
  ℕ, ◌+◌, String, Bool, true, false, ◌&&◌, ◌||◌, not, Option, none, some, List, ◌==◌, ◌=?◌, ◌≡◌,
  ◌≢◌, refl, sym, subst, arith, inl, inr, ◌⊎◌, get_elem?, is_some, Bool-cases, eq_iff, eq_refl,
}
use danus.Base.Result.{ok, Holds, Holds-ok, Holds-err, Holds-bind, Holds-require, Holds-if}
use danus.Coordination.Rows.{
  Phase, reasoning, critic_review, owner_action_required, phase_eq, Slot, terminal, is_open, Review,
  ReviewState, is_active, Store, Text, find_review,
}
use danus.Coordination.Searches.{
  any-eq-true, any-of, all-lanes, all_lanes-of, phase_eq_iff, phase_eq_refl, is_open-eq-false,
  IsClear, IsPointed, active_review-IsPointed, has_overlay-eq-false, IsClear-has_overlay,
  find_review-id, find_review-update,
}
use danus.Coordination.Advance.{
  advance_generation_if_ready, has_overlay, all, is_completed, required, is_round_over,
  active_review, end_phase, copy_forward, task_staging, carried,
}
use danus.Coordination.Advance.{open_critic_phase, next_generation, close_unconfirmed}
use danus.Coordination.Searches.{active_review-IsPointed, active_review-none}
use danus.Coordination.PhaseEnds.Ready.{IsReady, advance-IsReady}
use danus.Coordination.PhaseEnds.Closing.{IsClosed, advance-IsClosed}

-- How a phase ends: a review that the reasoning phase leaves is the critic's in the same generation,
-- and otherwise a new generation starts.
abbrev pub IsNext : ℕ → Store → Store → Type 0
IsNext now s t =
    (t.project.phase_deadline_at ≡ now + s.phase_timeout)
    × (((t.project.generation ≡ s.project.generation)
          × (s.project.phase ≡ reasoning)
          × (t.project.phase ≡ critic_review)
          × (s.project.active_review_id ≢ none))
        ⊎ ((t.project.generation ≡ s.project.generation + 1)
            × (t.project.phase ≡ reasoning)
            × (t.project.active_review_id ≡ none)
            × (s.project.phase ≡ reasoning → s.project.active_review_id ≡ none)))

next_generation-IsNext :
    (lib : Text) (s u : Store) (now : ℕ)
    → u.project ≡ s.project
    → u.phase_timeout ≡ s.phase_timeout
    → (s.project.phase ≡ reasoning → s.project.active_review_id ≡ none)
    → Holds (IsNext now s) (next_generation lib u now)
unfolding next_generation
next_generation-IsNext lib s u now h k q = Holds-bind _ (λ t _.
    Holds-require _ _
      (λ _. Holds-ok (ground (arith, h, k), inr (ground (arith, h), refl, refl, q))))

close-project :
    (s : Store) (now : ℕ) (r : Option Review)
    → Holds
        (λ u. (u.project ≡ s.project) × (u.phase_timeout ≡ s.phase_timeout))
        (close_unconfirmed s now r)
unfolding close_unconfirmed
close-project s now none = Holds-err
close-project s now (some r) =
    Holds-require _ _ (λ _. Holds-require _ _ (λ _. Holds-ok (refl, refl)))

end_phase-IsNext :
    (lib : Text) (s : Store) (now : ℕ) (p : Phase) (r : Option Review)
    → active_review s ≡ ok r
    → s.project.phase ≡ p
    → Holds (IsNext now s) (end_phase lib s now p r)
unfolding end_phase open_critic_phase
end_phase-IsNext lib s now reasoning (some r) e h =
    let (id, at, _) = active_review-IsPointed s (some r) e r refl in
    Holds-require _ _ (λ _.
      Holds-require _ _ (λ _. Holds-ok (refl, inl (refl, h, refl, λ absent. cc (at, absent)))))
end_phase-IsNext lib s now reasoning none e h =
    next_generation-IsNext lib s s now refl refl (λ _. active_review-none s e)
end_phase-IsNext lib s now critic_review r e h = Holds-bind (close_unconfirmed s now r) (λ u eu.
    let same = (close-project s now r).at u eu in
    next_generation-IsNext lib s u now same.0 same.1 (λ q. cc (h, q)))
end_phase-IsNext lib s now owner_action_required r e h =
    next_generation-IsNext lib s s now refl refl (λ q. cc (h, q))

advance-IsNext :
    (lib : Text) (s : Store) (now : ℕ)
    → Holds (λ r. r.0 ≡ true → IsNext now s r.1) (advance_generation_if_ready lib s now)
unfolding advance_generation_if_ready
advance-IsNext lib s now =
    Holds-if (phase_eq s.project.phase owner_action_required || has_overlay s)
      (λ _. Holds-ok (λ e. cc (e)))
      (λ _.
        Holds-if (not (is_round_over s)) (λ _. Holds-ok (λ e. cc (e)))
          (λ _. Holds-bind (active_review s) (λ r er.
            Holds-bind (end_phase lib s now s.project.phase r) (λ t e.
              Holds-ok (λ _. (end_phase-IsNext lib s now s.project.phase r er refl).at t e)))))

-- Let the test for the end of a phase return. It says that the phase has ended exactly when the
-- owner is not being asked, no candidate is in flight, and every lane that the phase waits for has a
-- terminal slot of the generation and the phase: the critic's in its review, every paid one
-- otherwise. If it has not ended, the store is unchanged. If it has, the deadline is a full timeout
-- from now, and either the reasoning phase leaves a review and is followed by the critic's in the
-- same generation, or the generation is one more, in the reasoning phase and with no review, and no
-- reasoning phase left one; and at the end of the critic's review the review was active, without a
-- confirmation, and is then stored as not confirmed.
pub phase_end_conditions :
    (lib : Text) (s t : Store) (now : ℕ) (ended : Bool)
    → advance_generation_if_ready lib s now ≡ ok (ended, t)
    → (ended ≡ false → (t ≡ s) × ¬ IsReady s)
      × (ended ≡ true
          → IsReady s × IsNext now s t × (s.project.phase ≡ critic_review → IsClosed now s t))
phase_end_conditions lib s t now ended h =
    let (ready, still) = (advance-IsReady lib s now).at (ended, t) h in
    (
      still,
      λ e. (
        ready e,
        (advance-IsNext lib s now).at (ended, t) h e,
        (advance-IsClosed lib s now).at (ended, t) h e,
      ),
    )
