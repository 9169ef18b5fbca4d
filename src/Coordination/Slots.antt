-- ===== src/Coordination/Slots.antt =====
-- danus/coordination/store.py: what happens to a slot that is reserved: its prompt is pinned, it
-- is activated, marked ambiguous and completed. The report of the project's status that `complete`
-- returns is left out.
use danus.Base.{
  ℕ, String, Bool, ◌&&◌, ◌||◌, not, Option, none, some, ◌==◌, leb, is_some, if◌then◌else◌,
}
use danus.Base.Result.{Result, ok, err, ◌>>=◌, ◌>>◌, require, or_raise}
use danus.Coordination.Rows.{
  Phase, critic_review, Slot, active, ambiguous, terminal, is_open, is_prepared, Review, is_live,
  is_pending, is_active, Store, Text, opt_eq, find_slot, any, update_where,
}
use danus.Coordination.Binding.{
  validate_slot_task_binding, has_markers, write_worker_state, max_pinned_prompt_bytes,
}
use danus.Coordination.Advance.{advance_generation_if_ready}
use danus.Coordination.Transactions.{
  Admission, Transaction, set_slot, admission, terminalize_expired_prepared,
}

abbrev pub max_outcome_bytes : ℕ
max_outcome_bytes = 512

-- `SELECT * FROM round_slots WHERE slot_id=?`, open
unfoldable pub read_open : String → Store → String → Result Slot
unfolding find_slot
read_open id s e = do row ← or_raise (find_slot id s.slots) e; require (is_open row.state) e; ok row

-- `WHERE slot_id=? AND prompt IS NULL`
abbrev pub pin : String → Slot → Slot
pin text r = record r { prompt = elim r.prompt [ none ↦ some text | some p ↦ some p ] }

unfoldable pub pin_prompt : Text → Store → String → String → Transaction Admission
unfolding read_open validate_slot_task_binding has_markers set_slot find_slot admission
pin_prompt lib s id text = do
  require (lib.is_identifier id) "slot_id is not a bounded identifier"
  require (not (text == "")) "pinned prompt must be non-empty"
  require (leb (lib.size text) max_pinned_prompt_bytes) "pinned prompt exceeds its hard limit"
  row ← read_open id s "round slot is not prompt-pinnable"
  validate_slot_task_binding lib s row
  require (has_markers lib text row)
      "pinned prompt does not bind exact slot/generation/task identity"
  joined ←
      or_raise (find_slot id (set_slot id (pin text) s).slots)
        "round slot disappeared while pinning prompt"
  a ← admission lib (set_slot id (pin text) s) joined (is_some row.prompt)
  ok (ok a, set_slot id (pin text) s)

-- `WHERE slot_id=? AND state='prepared'`
abbrev pub start_work : ℕ → Slot → Slot
start_work now r =
    if is_prepared r.state then record r { state = active; activated_at = some now } else r

-- activate, in time or resumed
unfoldable pub dispatch : Text → Store → String → ℕ → Slot → Transaction Admission
unfolding set_slot find_slot admission
dispatch lib s id now row = do
  joined ←
      or_raise (find_slot id (set_slot id (start_work now) s).slots)
        "round slot disappeared during activation"
  a ← admission lib (set_slot id (start_work now) s) joined (not (is_prepared row.state))
  ok (ok a, set_slot id (start_work now) s)

unfoldable pub activate : Text → Store → String → ℕ → Transaction Admission
unfolding read_open validate_slot_task_binding terminalize_expired_prepared dispatch
activate lib s id now = do
  require (lib.is_identifier id) "slot_id is not a bounded identifier"
  row ← read_open id s "round slot is not activatable"
  validate_slot_task_binding lib s row
  require (is_some row.prompt) "round slot has no pinned prompt"
  if is_prepared row.state && leb s.project.phase_deadline_at now
      then (terminalize_expired_prepared lib s row now >>= λ t.
          ok (err "phase deadline exceeded before paid slot activation", t))
      else dispatch lib s id now row

abbrev pub obscure : Slot → Slot
obscure r = if is_open r.state then record r { state = ambiguous } else r

unfoldable pub mark_ambiguous : Text → Store → String → ℕ → Transaction (Unit {0})
unfolding read_open validate_slot_task_binding set_slot write_worker_state
mark_ambiguous lib s id now = do
  require (lib.is_identifier id) "slot_id is not a bounded identifier"
  row ← read_open id s "round slot is not ambiguity-preservable"
  validate_slot_task_binding lib s row
  ok (
    ok tt,
    write_worker_state row.worker row.lane "ambiguous" row.generation row.phase now
        (set_slot id obscure s),
  )

-- `state IN ('active','confirmed') AND critic_slot_id=?`
abbrev pub is_reviewed_by : String → Review → Bool
is_reviewed_by id r =
    (is_active r.state || (is_live r.state && not (is_pending r.state)))
    && opt_eq r.critic_slot_id (some id)

-- complete's update of the review of a critic slot
unfoldable pub end_review : String → ℕ → Phase → Option String → Store → Result Store
unfolding any update_where
end_review id now critic_review (some review_id) s = do
  require (any (λ r. (r.review_id == review_id) && is_reviewed_by id r) s.reviews)
      "critic review terminal receipt conflicts with review identity"
  ok (record s {
    reviews =
        update_where (λ r. (r.review_id == review_id) && is_reviewed_by id r)
          (λ r. record r {
            terminal_at = elim r.terminal_at [ none ↦ some now | some at ↦ some at ];
          })
          s.reviews;
  })
end_review id now _ _ s = ok s

abbrev pub finish : ℕ → String → Slot → Slot
finish now outcome r = record r { state = terminal; terminal_at = some now; outcome = some outcome }

-- complete, for an open slot
unfoldable pub release : Text → Store → String → String → ℕ → Slot → Transaction (Unit {0})
unfolding set_slot end_review write_worker_state advance_generation_if_ready
release lib s id outcome now slot = do
  t ← end_review id now slot.phase slot.review_id (set_slot id (finish now outcome) s)
  (_, u) ←
      advance_generation_if_ready lib
        (write_worker_state slot.worker slot.lane "terminal" slot.generation slot.phase now t) now
  ok (ok tt, u)

unfoldable pub complete : Text → Store → String → String → ℕ → Transaction (Unit {0})
unfolding find_slot validate_slot_task_binding release
complete lib s id outcome now = do
  require (lib.is_identifier id) "slot_id is not a bounded identifier"
  require (not (outcome == "")) "round outcome must be non-empty"
  require (leb (lib.size outcome) max_outcome_bytes) "round outcome exceeds its hard limit"
  slot ← or_raise (find_slot id s.slots) "round slot does not exist"
  validate_slot_task_binding lib s slot
  if is_open slot.state
      then release lib s id outcome now slot
      else (require (opt_eq slot.outcome (some outcome)) "round terminal outcome conflicts"
          >> ok (ok tt, s))
