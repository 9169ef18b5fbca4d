-- ===== src/Coordination/Searches.antt =====
-- danus/coordination/store.py: what the tests of the queries say, row by row.
use danus.Base.{
  ℕ, zero, suc, String, Bool, true, false, Option, none, some, List, [], ◌∷◌, ◌==◌, ◌≡◌, ◌≢◌, refl,
  map, arith, Bool-cases, inl, inr, get_elem?, eq_iff,
}
use danus.Coordination.Rows.{
  Phase, reasoning, critic_review, owner_action_required, phase_eq, SlotState, prepared, active,
  ambiguous, terminal, is_open, Candidate, CandidateState, is_overlay, Review, Store, find_review,
  any, update_where,
}
use danus.Base.Result.{ok}
use danus.Coordination.Advance.{all, has_overlay, live_review, pointed_review, active_review}

module _ {ℓ} {A : Type ℓ} (p : A → Bool) where
  pub any-eq-false :
      (xs : List A) (i : ℕ) (x : A) → any p xs ≡ false → get_elem? xs i ≡ some x → p x ≡ false
  unfolding any
  any-eq-false [] i x h e = cc (e)
  any-eq-false (y ∷ xs) zero x h e = ground (arith, h, e)
  any-eq-false (y ∷ xs) (suc i) x h e = any-eq-false xs i x (ground (arith, h)) e

  pub any-eq-true :
      (xs : List A) → any p xs ≡ true → (i : ℕ) × (x : A) × (get_elem? xs i ≡ some x) × (p x ≡ true)
  unfolding any
  any-eq-true [] h = cc (h)
  any-eq-true (y ∷ xs) h = elim (Bool-cases (p y)) [
    | inl e ↦ (0, y, refl, e)
    | inr e ↦ let (i, x, at, holds) = any-eq-true xs (ground (arith, h, e)) in (suc i, x, at, holds)
  ]

  pub any-of :
      (xs : List A) (i : ℕ) (x : A) → get_elem? xs i ≡ some x → p x ≡ true → any p xs ≡ true
  unfolding any
  any-of xs i x e h = elim (Bool-cases (any p xs)) [
    | inl is ↦ is
    | inr not_any ↦ absurd (ground (arith, h, any-eq-false xs i x not_any e))
  ]

-- A lane's test holds of every lane of the roster.
pub all-lanes :
    (p : String → Bool) (lanes : List (String × String)) (i : ℕ) (worker lane : String)
    → all p (map (λ l. l.1) lanes) ≡ true
    → get_elem? lanes i ≡ some (worker, lane)
    → p lane ≡ true
unfolding all
all-lanes p [] i worker lane h e = cc (e)
all-lanes p ((w, l) ∷ lanes) zero worker lane h e = ground (arith, h, e)
all-lanes p ((w, l) ∷ lanes) (suc i) worker lane h e =
    all-lanes p lanes i worker lane (ground (arith, h)) e

pub all_lanes-of :
    (p : String → Bool) (lanes : List (String × String))
    → ((i : ℕ) (worker lane : String) → get_elem? lanes i ≡ some (worker, lane) → p lane ≡ true)
    → all p (map (λ l. l.1) lanes) ≡ true
unfolding all
all_lanes-of p [] h = refl
all_lanes-of p ((w, l) ∷ lanes) h =
    ground (arith, h 0 w l refl, all_lanes-of p lanes (λ i a b e. h (suc i) a b e))

pub phase_eq_iff : (a b : Phase) → phase_eq a b ≡ true → a ≡ b
phase_eq_iff reasoning reasoning h = refl
phase_eq_iff critic_review critic_review h = refl
phase_eq_iff owner_action_required owner_action_required h = refl
phase_eq_iff reasoning critic_review h = cc (h)
phase_eq_iff reasoning owner_action_required h = cc (h)
phase_eq_iff critic_review reasoning h = cc (h)
phase_eq_iff critic_review owner_action_required h = cc (h)
phase_eq_iff owner_action_required reasoning h = cc (h)
phase_eq_iff owner_action_required critic_review h = cc (h)

pub phase_eq_refl : (a : Phase) → phase_eq a a ≡ true
phase_eq_refl reasoning = refl
phase_eq_refl critic_review = refl
phase_eq_refl owner_action_required = refl

pub is_open-eq-false : (x : SlotState) → is_open x ≡ false → x ≡ terminal
is_open-eq-false terminal h = refl
is_open-eq-false prepared h = cc (h)
is_open-eq-false active h = cc (h)
is_open-eq-false ambiguous h = cc (h)

-- No candidate is active or of unknown outcome.
abbrev pub IsClear : Store → Type 0
IsClear s =
    (i : ℕ) (c : Candidate)
    → get_elem? s.candidates i ≡ some c
    → (c.state ≢ CandidateState.active) × (c.state ≢ CandidateState.outcome_unknown)

pub has_overlay-eq-false : (s : Store) → has_overlay s ≡ false → IsClear s
unfolding has_overlay
has_overlay-eq-false s h i c at =
    let idle = any-eq-false (λ x. is_overlay x.state) s.candidates i c h at in
    (λ e. cc (e, idle), λ e. cc (e, idle))

is_overlay-cases :
    (x : CandidateState)
    → x ≢ CandidateState.active
    → x ≢ CandidateState.outcome_unknown
    → is_overlay x ≡ false
is_overlay-cases CandidateState.active a b = absurd (a refl)
is_overlay-cases CandidateState.outcome_unknown a b = absurd (b refl)
is_overlay-cases CandidateState.observed a b = refl
is_overlay-cases CandidateState.promising a b = refl
is_overlay-cases CandidateState.rejected a b = refl
is_overlay-cases CandidateState.selected a b = refl
is_overlay-cases CandidateState.terminal a b = refl

pub IsClear-has_overlay : (s : Store) → IsClear s → has_overlay s ≡ false
unfolding has_overlay
IsClear-has_overlay s h = elim (Bool-cases (has_overlay s)) [
  | inr e ↦ e
  | inl e ↦
      let (i, c, at, is) = any-eq-true (λ x. is_overlay x.state) s.candidates e in
      let (a, b) = h i c at in absurd (cc (is, is_overlay-cases c.state a b))
]

-- The row of a review's id, and what an update of it leaves.
pub find_review-id :
    (id : String) (rows : List Review) (a : Review)
    → find_review id rows ≡ some a
    → a.review_id ≡ id
unfolding find_review
find_review-id id [] a e = cc
find_review-id id (r ∷ rows) a e =
    ground (arith, e, eq_iff r.review_id id, find_review-id id rows a)

pub find_review-update :
    (id k : String) (f : Review → Review) (rows : List Review) (a : Review)
    → k ≡ id
    → ((r : Review) → (f r).review_id ≡ r.review_id)
    → find_review id rows ≡ some a
    → find_review id (update_where (λ r. r.review_id == k) f rows) ≡ some (f a)
unfolding find_review update_where
find_review-update id k f [] a same h e = cc (e)
find_review-update id k f (r ∷ rows) a same h e =
    ground (arith, h r, e, same, find_review-update id k f rows a same h)

-- The review that the project points at.
abbrev pub IsPointed : Store → Review → Type 0
IsPointed s r =
    (id : String) × (s.project.active_review_id ≡ some id) × (find_review id s.reviews ≡ some r)

live_review-some : (o : Option Review) (r : Review) → live_review o ≡ ok (some r) → o ≡ some r
unfolding live_review
live_review-some none r h = cc (h)
live_review-some (some a) r h = ground (arith, h)

pointed_review-some :
    (o : Option String) (rows : List Review) (r : Review)
    → pointed_review o rows ≡ ok (some r)
    → (id : String) × (o ≡ some id) × (find_review id rows ≡ some r)
unfolding pointed_review
pointed_review-some none rows r h = cc (h)
pointed_review-some (some id) rows r h = (id, refl, live_review-some _ r h)

pub active_review-IsPointed :
    (s : Store) (o : Option Review)
    → active_review s ≡ ok o
    → (r : Review) → o ≡ some r
    → IsPointed s r
unfolding active_review
active_review-IsPointed s o h r e =
    pointed_review-some s.project.active_review_id s.reviews r (cc (h, e))

live_review-ne : (o : Option Review) → live_review o ≢ ok none
unfolding live_review
live_review-ne none h = cc (h)
live_review-ne (some a) h = ground (arith, h)

pointed_review-none :
    (o : Option String) (rows : List Review) → pointed_review o rows ≡ ok none → o ≡ none
unfolding pointed_review
pointed_review-none none rows h = refl
pointed_review-none (some id) rows h = absurd (live_review-ne _ h)

pub active_review-none : (s : Store) → active_review s ≡ ok none → s.project.active_review_id ≡ none
unfolding active_review
active_review-none s h = pointed_review-none s.project.active_review_id s.reviews h
