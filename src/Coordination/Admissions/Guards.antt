-- ===== src/Coordination/Admissions/Guards.antt =====
-- danus/coordination/store.py: what must hold for a new slot, and the tests of the code for it.
use danus.Base.{
  ℕ, ◌<◌, String, true, false, ◌||◌, Option, none, some, ◌⊎◌, inl, inr, Option-cases, Bool-cases,
  ◌==◌, ◌≡◌, ◌≢◌, refl, arith, eq_refl, eq_iff, get_elem?,
}
use danus.Base.Assoc.{lookup}
use danus.Base.Result.{ok}
use danus.Coordination.Rows.{
  Slot, critic_review, owner_action_required, phase_eq, Review, ReviewState, is_live, is_pending,
  is_active, terminal, Store,
}
use danus.Coordination.Advance.{live_review, pointed_review, active_review}
use danus.Coordination.Admit.{open_count, lane_of, may_review, lane_eligible, already_terminal}
use danus.Coordination.Searches.{
  IsPointed, active_review-IsPointed, any-eq-false, any-eq-true, is_open-eq-false, phase_eq_iff,
  phase_eq_refl, IsClear,
}

-- Who may work in the phase: the critic while its own review is pending or active, and otherwise
-- whoever has a lane.
pub record CanWork (s : Store) (worker : String) : Type 0 where
  pub paid : s.project.phase ≢ critic_review → (lane : String) × (lookup worker s.lanes ≡ some lane)
  pub critic :
      s.project.phase ≡ critic_review
      → (lookup worker s.lanes ≡ some "critic")
        × ((r : Review) × IsPointed s r
            × ((r.state ≡ ReviewState.pending) ⊎ (r.state ≡ ReviewState.active))
            × (r.critic_worker ≡ worker)
            × (r.generation ≡ s.project.generation))

lane_of-critic :
    (s : Store) (worker : String)
    → lane_of s worker == "critic" ≡ true
    → lookup worker s.lanes ≡ some "critic"
unfolding lane_of
lane_of-critic s worker h = found (lookup worker s.lanes) h
  where
    found :
        (o : Option String)
        → (elim o [ none ↦ "observer" | some lane ↦ lane ]) == "critic" ≡ true
        → o ≡ some "critic"
    found none h = cc (h)
    found (some lane) h = ground (arith, h, eq_iff lane "critic")

review_state :
    (x : ReviewState)
    → is_pending x || is_active x ≡ true
    → (x ≡ ReviewState.pending) ⊎ (x ≡ ReviewState.active)
review_state ReviewState.pending h = inl refl
review_state ReviewState.active h = inr refl
review_state ReviewState.confirmed h = cc (h)
review_state ReviewState.not_confirmed h = cc (h)
review_state ReviewState.resolved h = cc (h)

pub lane_eligible-CanWork :
    (s : Store) (worker : String) (o : Option Review)
    → active_review s ≡ ok o
    → lane_eligible s worker (lane_of s worker) o ≡ true
    → CanWork s worker
unfolding lane_eligible may_review
lane_eligible-CanWork s worker none e h = record {
  paid = λ other. elim (Option-cases (lookup worker s.lanes)) [
    | inl absent ↦ absurd (ground (arith, h, absent, phase_eq_iff s.project.phase critic_review))
    | inr (lane, there) ↦ (lane, there)
  ];
  critic = λ here. absurd (ground (arith, h, here));
}
lane_eligible-CanWork s worker (some r) e h = record {
  paid = λ other. elim (Option-cases (lookup worker s.lanes)) [
    | inl absent ↦
        absurd (ground (arith, h, absent, other, phase_eq_iff s.project.phase critic_review))
    | inr (lane, there) ↦ (lane, there)
  ];
  critic = λ here. (
    lane_of-critic s worker (ground (arith, h, here)),
    (
      r,
      active_review-IsPointed s (some r) e r refl,
      review_state r.state (ground (arith, h, here)),
      ground (arith, h, here, eq_iff r.critic_worker worker),
      ground (arith, h, here),
    ),
  );
}

-- The worker has a terminal slot of the generation and the phase.
abbrev HasDone : Store → String → Type 0
HasDone s worker =
    (i : ℕ) × (r : Slot) × (get_elem? s.slots i ≡ some r)
    × (r.worker ≡ worker)
    × (r.generation ≡ s.project.generation)
    × (r.phase ≡ s.project.phase)
    × (r.state ≡ terminal)

pub already_terminal-undone :
    (s : Store) (worker : String) → already_terminal s worker ≡ false → ¬ HasDone s worker
unfolding already_terminal
already_terminal-undone s worker h (i, r, at, w, g, p, done) = absurd (
    ground (
      arith,
      any-eq-false _ s.slots i r h at,
      w,
      g,
      p,
      done,
      eq_refl worker,
      phase_eq_refl s.project.phase,
    ))

-- What must hold for a new slot.
pub record MayReserve (s : Store) (worker : String) (now : ℕ) : Type 0 where
  pub can : CanWork s worker
  pub unasked : s.project.phase ≢ owner_action_required
  pub clear : IsClear s
  pub early : now < s.project.phase_deadline_at
  pub undone : ¬ HasDone s worker
  pub room : open_count s < s.max_paid_workers

is_critic :
    (s : Store) (worker : String)
    → lookup worker s.lanes ≡ some "critic"
    → lane_of s worker == "critic" ≡ true
unfolding lane_of
is_critic s worker h = rw (h, lane_of) (eq_refl "critic")

-- A pending or active review admits its critic.
may_review-of :
    (s : Store) (worker lane : String) (r : Review)
    → lane == "critic" ≡ true
    → (r.state ≡ ReviewState.pending) ⊎ (r.state ≡ ReviewState.active)
    → r.critic_worker ≡ worker
    → r.generation ≡ s.project.generation
    → may_review s worker lane (some r) ≡ true
unfolding may_review
may_review-of s worker lane r is (inl st) w g = ground (arith, is, st, w, g, eq_refl worker)
may_review-of s worker lane r is (inr st) w g = ground (arith, is, st, w, g, eq_refl worker)

pointed-live :
    (s : Store) (o : Option Review) (r : Review)
    → IsPointed s r
    → is_live r.state ≡ true
    → active_review s ≡ ok o
    → o ≡ some r
unfolding active_review pointed_review live_review
pointed-live s o r (id, at, there) live h = ground (arith, at, there, live, h)

pub CanWork-lane_eligible :
    (s : Store) (worker : String) (o : Option Review)
    → active_review s ≡ ok o
    → CanWork s worker
    → lane_eligible s worker (lane_of s worker) o ≡ true
unfolding lane_eligible
CanWork-lane_eligible s worker o e h = elim (Bool-cases (phase_eq s.project.phase critic_review)) [
  | inr other ↦
      let (lane, there) = h.paid (λ p. absurd (ground (arith, other, p))) in
      ground (arith, other, there)
  | inl here ↦
      let (look, (r, pointed, st, w, g)) =
        h.critic (phase_eq_iff s.project.phase critic_review here) in
      let same = pointed-live s o r pointed (live_state r.state st) e in
      ground (
        arith,
        here,
        same,
        may_review-of s worker (lane_of s worker) r (is_critic s worker look) st w g,
      )
]
  where
    live_state :
        (x : ReviewState) → (x ≡ ReviewState.pending) ⊎ (x ≡ ReviewState.active) → is_live x ≡ true
    live_state x (inl e) = ground (arith, e)
    live_state x (inr e) = ground (arith, e)

pub undone-already_terminal :
    (s : Store) (worker : String) → ¬ HasDone s worker → already_terminal s worker ≡ false
unfolding already_terminal
undone-already_terminal s worker h = elim (Bool-cases (already_terminal s worker)) [
  | inr e ↦ e
  | inl e ↦
      let (i, r, at, is) = any-eq-true _ s.slots e in
      absurd (
        h (
          i,
          r,
          at,
          ground (arith, is, eq_iff r.worker worker),
          ground (arith, is),
          phase_eq_iff r.phase s.project.phase (ground (arith, is)),
          is_open-eq-false r.state (ground (arith, is)),
        ))
]
