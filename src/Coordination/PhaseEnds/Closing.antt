-- ===== src/Coordination/PhaseEnds/Closing.antt =====
-- danus/coordination/store.py: the critic's review at the end of its phase.
use danus.Base.{ℕ, String, true, ◌||◌, not, Option, none, some, ◌≡◌, refl, arith, is_some}
use danus.Base.Result.{ok, Holds, Holds-ok, Holds-err, Holds-bind, Holds-require, Holds-if}
use danus.Coordination.Rows.{
  Phase, reasoning, critic_review, owner_action_required, phase_eq, Review, ReviewState, is_active,
  Store, Text, find_review,
}
use danus.Coordination.Searches.{active_review-IsPointed, find_review-id, find_review-update}
use danus.Coordination.Advance.{
  advance_generation_if_ready, has_overlay, is_round_over, active_review, end_phase, copy_forward,
  task_staging, carried,
}
use danus.Coordination.Advance.{open_critic_phase, next_generation, close_unconfirmed}

-- An end of the critic's review: the review that the project points at was active and without a
-- confirmation, and is not confirmed now.
abbrev pub IsClosed : ℕ → Store → Store → Type 0
IsClosed now s t =
    (id : String) × (r : Review) × (s.project.active_review_id ≡ some id)
    × (find_review id s.reviews ≡ some r)
    × (r.state ≡ ReviewState.active)
    × (r.confirmation_entry_id ≡ none)
    × (find_review id t.reviews
        ≡ some (record r { state = ReviewState.not_confirmed; terminal_at = some now }))

is_active-eq : (x : ReviewState) → is_active x ≡ true → x ≡ ReviewState.active
is_active-eq ReviewState.active h = refl
is_active-eq ReviewState.pending h = cc (h)
is_active-eq ReviewState.confirmed h = cc (h)
is_active-eq ReviewState.not_confirmed h = cc (h)
is_active-eq ReviewState.resolved h = cc (h)

none-of : {A : Type 0} (o : Option A) → not (is_some o) ≡ true → o ≡ none
none-of none h = refl
none-of (some a) h = cc (h)

close-IsClosed :
    (s : Store) (now : ℕ) (o : Option Review)
    → active_review s ≡ ok o
    → Holds (IsClosed now s) (close_unconfirmed s now o)
unfolding close_unconfirmed
close-IsClosed s now none e = Holds-err
close-IsClosed s now (some r) e = Holds-require _ _ (λ is. Holds-require _ _ (λ blank.
    let (id, at, there) = active_review-IsPointed s (some r) e r refl in
    Holds-ok (
      id,
      r,
      at,
      there,
      is_active-eq r.state is,
      none-of r.confirmation_entry_id blank,
      find_review-update id r.review_id _ s.reviews r (find_review-id id s.reviews r there)
          (λ a. refl) there,
    )))

next_generation-reviews :
    (lib : Text) (s : Store) (now : ℕ)
    → Holds (λ t. t.reviews ≡ s.reviews) (next_generation lib s now)
unfolding next_generation copy_forward
next_generation-reviews lib s now =
    Holds-bind (copy_forward lib s s.project.generation now)
      (λ u e. Holds-require _ _ (λ _. Holds-ok (copied.at u e)))
  where
    copied : Holds (λ u. u.reviews ≡ s.reviews) (copy_forward lib s s.project.generation now)
    copied = Holds-bind (task_staging lib s s.project.generation) (λ source _.
        Holds-require _ _ (λ _.
          Holds-require _ _ (λ _.
            Holds-bind (carried s s.project.generation now s.lanes) (λ rows _. Holds-ok refl))))

end_phase-IsClosed :
    (lib : Text) (s : Store) (now : ℕ) (p : Phase) (o : Option Review)
    → active_review s ≡ ok o
    → Holds (λ t. p ≡ critic_review → IsClosed now s t) (end_phase lib s now p o)
unfolding end_phase open_critic_phase
end_phase-IsClosed lib s now critic_review o e = Holds-bind (close_unconfirmed s now o) (λ u eu.
    record {
      at = λ t et _.
          let (id, r, at, there, is, blank, closed) = (close-IsClosed s now o e).at u eu in
          (
            id,
            r,
            at,
            there,
            is,
            blank,
            ground (arith, closed, (next_generation-reviews lib u now).at t et),
          );
    })
end_phase-IsClosed lib s now reasoning o e = record { at = λ t et h. cc (h) }
end_phase-IsClosed lib s now owner_action_required o e = record { at = λ t et h. cc (h) }

pub advance-IsClosed :
    (lib : Text) (s : Store) (now : ℕ)
    → Holds
        (λ r. r.0 ≡ true → s.project.phase ≡ critic_review → IsClosed now s r.1)
        (advance_generation_if_ready lib s now)
unfolding advance_generation_if_ready
advance-IsClosed lib s now =
    Holds-if (phase_eq s.project.phase owner_action_required || has_overlay s)
      (λ _. Holds-ok (λ e. cc (e)))
      (λ _.
        Holds-if (not (is_round_over s)) (λ _. Holds-ok (λ e. cc (e)))
          (λ _. Holds-bind (active_review s) (λ o eo.
            Holds-bind (end_phase lib s now s.project.phase o)
              (λ t e. Holds-ok (λ _. (end_phase-IsClosed lib s now s.project.phase o eo).at t e)))))
