-- ===== src/Coordination/Admit.antt =====
-- danus/coordination/store.py: `admit`, the reservation of a paid slot for a worker.
use danus.Base.{
  ℕ, String, Bool, true, false, ◌&&◌, ◌||◌, not, Option, none, some, [], ◌∷◌, ◌++◌, ◌==◌, ◌=?◌, leb,
  is_some, count_p, if◌then◌else◌,
}
use danus.Base.Assoc.{lookup}
use danus.Base.Result.{Result, ok, ◌>>=◌, ◌>>◌, require, or_raise}
use danus.Coordination.Rows.{
  Phase, critic_review, owner_action_required, phase_eq, Slot, prepared, is_open, is_prepared,
  Review, ReviewState, is_pending, is_active, Store, Text, find_slot, open_slot, find_task, any,
  update_where,
}
use danus.Coordination.Directive.{coordination_directive}
use danus.Coordination.Binding.{validate_generation_task_row, write_worker_state}
use danus.Coordination.Advance.{has_overlay, active_review}
use danus.Coordination.Transactions.{
  Admission, Transaction, admission, terminalize_expired_prepared,
}

-- admit, for a worker that has an open slot
unfoldable pub resume : Text → Store → String → String → ℕ → Slot → Transaction (Option Admission)
unfolding terminalize_expired_prepared write_worker_state admission
resume lib s worker lane now existing =
    if leb s.project.phase_deadline_at now && is_prepared existing.state
    then (terminalize_expired_prepared lib s existing now >>= λ t. ok (ok none, t))
    else (admission lib
          (write_worker_state worker lane "admitted" existing.generation existing.phase now s)
          existing true
        >>= λ a. ok (
          ok (some a),
          write_worker_state worker lane "admitted" existing.generation existing.phase now s,
        ))

unfoldable pub may_review : Store → String → String → Option Review → Bool
may_review s worker lane none = false
may_review s worker lane (some r) =
    (lane == "critic")
    && (is_pending r.state || is_active r.state)
    && (r.critic_worker == worker)
    && (r.generation =? s.project.generation)

unfoldable pub lane_eligible : Store → String → String → Option Review → Bool
unfolding may_review
lane_eligible s worker lane review =
    if phase_eq s.project.phase critic_review
    then may_review s worker lane review
    else is_some (lookup worker s.lanes)

abbrev pub open_count : Store → ℕ
open_count s = count_p (λ r. is_open r.state) s.slots

unfoldable pub already_terminal : Store → String → Bool
unfolding any
already_terminal s worker =
    any
      (λ r.
        (r.worker == worker)
        && (r.generation =? s.project.generation)
        && phase_eq r.phase s.project.phase
        && not (is_open r.state))
      s.slots

-- the constraints of round_slots that an INSERT can break
unfoldable pub insert_slot : Slot → Store → Result Store
unfolding any
insert_slot row s = do
  require (not (any (λ r. r.slot_id == row.slot_id) s.slots))
      "UNIQUE constraint failed: round_slots.slot_id"
  require
      (not (
        any
          (λ r.
            (r.worker == row.worker)
            && (r.generation =? row.generation)
            && phase_eq r.phase row.phase)
          s.slots))
      "UNIQUE constraint failed: round_slots.worker, generation, phase"
  require (not (any (λ r. (r.lane == row.lane) && is_open r.state) s.slots))
      "UNIQUE constraint failed: one_open_slot_per_lane"
  ok (record s { slots = s.slots ++ row ∷ [] })

unfoldable pub freeze : String → ℕ → ℕ → Store → Store
unfolding update_where
freeze worker generation now s = record s {
  tasks =
      update_where
        (λ r. (r.worker == worker) && (r.generation =? generation) && not (is_some r.frozen_at))
        (λ r. record r { frozen_at = some now }) s.tasks;
}

-- the review's part of an admission
unfoldable pub claim_review : String → ℕ → Option Review → Store → Result Store
unfolding update_where
claim_review slot_id now none s = ok s
claim_review slot_id now (some review) s = do
  require (is_pending review.state && not (is_some review.critic_slot_id))
      "critic review admission lost its CAS"
  ok (record s {
    reviews =
        update_where (λ r. r.review_id == review.review_id)
          (λ r. record r {
            state = ReviewState.active;
            critic_slot_id = some slot_id;
            activated_at = some now;
          })
          s.reviews;
  })

abbrev pub slot_review : Phase → Option Review → Option Review
slot_review critic_review review = review
slot_review _ review = none

abbrev pub new_slot : String → Store → String → String → String → ℕ → Option Review → Slot
new_slot id s worker lane task now review = record {
  slot_id = id;
  worker = worker;
  lane = lane;
  generation = s.project.generation;
  phase = s.project.phase;
  state = prepared;
  task = task;
  prompt = none;
  created_at = now;
  activated_at = none;
  terminal_at = none;
  outcome = none;
  review_id = elim review [ none ↦ none | some r ↦ some r.review_id ];
  designated_root_entry_id = elim review [ none ↦ none | some r ↦ some r.root_entry_id ];
}

-- admit, past every test; `id` is the uuid
unfoldable pub reserve :
    Text → Store → String → String → ℕ → String → Option Review → Transaction (Option Admission)
unfolding validate_generation_task_row find_task freeze coordination_directive insert_slot
    claim_review write_worker_state admission find_slot
reserve lib s worker lane now id review = do
  row ←
      or_raise (find_task worker s.project.generation s.tasks)
        "current generation has no durable task assignment for worker"
  validate_generation_task_row lib s row
  require (row.lane == lane) "current generation task lane conflicts with admission"
  _ ←
      coordination_directive lib lane s.project.generation s.project.phase
        (new_slot id s worker lane row.task now review).review_id
        (new_slot id s worker lane row.task now review).designated_root_entry_id
  t ←
      insert_slot (new_slot id s worker lane row.task now review)
        (freeze worker s.project.generation now s)
  u ← claim_review id now review t
  made ← or_raise (find_slot id u.slots) "admitted round slot disappeared"
  a ←
      admission lib
        (write_worker_state worker lane "admitted" s.project.generation s.project.phase now u) made
        false
  ok (
    ok (some a),
    write_worker_state worker lane "admitted" s.project.generation s.project.phase now u,
  )

abbrev pub waiting_state : Store → ℕ → String
waiting_state s now =
    if leb s.project.phase_deadline_at now then "phase_expired" else "waiting_admission"

-- admit, for a worker without an open slot
unfoldable pub admit_new :
    Text → Store → String → String → ℕ → String → Transaction (Option Admission)
unfolding active_review has_overlay lane_eligible already_terminal write_worker_state reserve
admit_new lib s worker lane now id = do
  review ← active_review s
  if not (lane_eligible s worker lane review)
        || phase_eq s.project.phase owner_action_required
        || has_overlay s
        || leb s.project.phase_deadline_at now
      then ok (
        ok none,
        write_worker_state worker lane (waiting_state s now) s.project.generation s.project.phase
            now s,
      )
      else if already_terminal s worker || leb s.max_paid_workers (open_count s)
      then ok (
        ok none,
        write_worker_state worker lane "waiting_admission" s.project.generation s.project.phase now
            s,
      )
      else reserve lib s worker lane now id (slot_review s.project.phase review)

unfoldable pub lane_of : Store → String → String
lane_of s worker = elim (lookup worker s.lanes) [ none ↦ "observer" | some lane ↦ lane ]

unfoldable pub admit : Text → Store → String → ℕ → String → Transaction (Option Admission)
unfolding lane_of open_slot resume admit_new
admit lib s worker now id = do
  require (lib.is_identifier worker) "worker is not a bounded identifier"
  elim (open_slot worker s.slots) [
    | some existing ↦ resume lib s worker (lane_of s worker) now existing
    | none ↦ admit_new lib s worker (lane_of s worker) now id
  ]
