-- ===== src/Coordination/Transactions.antt =====
-- danus/coordination/store.py: what a transaction on the slots does: its body returns what it
-- commits, or the error with which it rolls back.
use danus.Base.{ℕ, String, Bool, some, ◌==◌}
use danus.Base.Result.{Result, ok, err, ◌>>=◌, ◌>>◌, require}
use danus.Coordination.Rows.{Slot, terminal, is_prepared, Store, Text, update_where}
use danus.Coordination.Directive.{Directive, coordination_directive}
use danus.Coordination.Binding.{validate_slot_task_binding, write_worker_state}
use danus.Coordination.Advance.{advance_generation_if_ready}

pub record Admission : Type 0 where
  pub slot : Slot
  pub directive : Directive
  pub resumed : Bool
  pub phase_deadline_at : ℕ
  pub hard_timeout : ℕ

-- What a transaction does: it commits, and returns or raises, or it rolls back and raises.
abbrev pub Transaction : Type 0 → Type 0
Transaction A = Result (Result A × Store)

unfoldable pub transact : {A : Type 0} → Store → Transaction A → Result A × Store
transact s (ok r) = r
transact s (err e) = (err e, s)

unfoldable pub set_slot : String → (Slot → Slot) → Store → Store
unfolding update_where
set_slot id f s = record s { slots = update_where (λ r. r.slot_id == id) f s.slots }

unfoldable pub admission : Text → Store → Slot → Bool → Result Admission
unfolding validate_slot_task_binding coordination_directive
admission lib s row resumed = do
  validate_slot_task_binding lib s row
  d ←
      coordination_directive lib row.lane row.generation row.phase row.review_id
        row.designated_root_entry_id
  ok (record {
    slot = row;
    directive = d;
    resumed = resumed;
    phase_deadline_at = s.project.phase_deadline_at;
    hard_timeout = s.phase_timeout;
  })

unfoldable pub terminalize_expired_prepared : Text → Store → Slot → ℕ → Result Store
unfolding validate_slot_task_binding set_slot write_worker_state advance_generation_if_ready
terminalize_expired_prepared lib s slot now = do
  require (is_prepared slot.state) "only a prepared slot is expiry-terminalizable"
  validate_slot_task_binding lib s slot
  (_, t) ←
      advance_generation_if_ready lib
        (write_worker_state slot.worker slot.lane "phase_expired_not_dispatched" slot.generation
          slot.phase now
          (set_slot slot.slot_id
            (λ r. record r {
              state = terminal;
              terminal_at = some now;
              outcome = some "phase_deadline_known_not_dispatched";
            })
            s))
        now
  ok t
