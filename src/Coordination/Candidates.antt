-- ===== src/Coordination/Candidates.antt =====
-- danus/coordination/store.py: the candidate facts that a paid slot sends to the verifier. One that is
-- active, or whose outcome is unknown, holds the generation back.
use danus.Base.{
  ℕ, String, Bool, true, false, not, ◌&&◌, ◌||◌, Option, none, some, [], ◌∷◌, ◌++◌, ◌==◌, ◌=?◌,
  if◌then◌else◌,
}
use danus.Base.Result.{Result, ok, ◌>>=◌, ◌>>◌, require, or_raise}
use danus.Coordination.Rows.{
  SlotState, active, ambiguous, terminal, Slot, is_prepared, CandidateState, Candidate, is_overlay,
  is_final, Store, Text, opt_eq, find_slot, find_candidate,
}
use danus.Coordination.Binding.{validate_slot_task_binding}
use danus.Coordination.Advance.{has_overlay}
use danus.Coordination.Transactions.{Transaction}
use danus.Coordination.Admit.{lane_of}

-- What the store uses of regular expressions, JSON and hashing: whether a text is 16, or 64,
-- lowercase hex digits, and the SHA-256 of the JSON of a receipt's material and of an exact reuse's.
pub record Receipts : Type 0 where
  pub is_hex16 : String → Bool
  pub is_sha256 : String → Bool
  pub receipt_digest : String → String → String → Option String → String → String
  pub reuse_digest : String → String → String → Option String → String

-- What a caller says of a candidate.
pub record Submission : Type 0 where
  pub worker : String
  pub slot_id : String
  pub candidate_fact_id : String
  pub candidate_fact_identity : String
  pub source_id : Option String
  pub context_digest : String

abbrev pub is_source : Receipts → Option String → Bool
is_source rc none = true
is_source rc (some id) = rc.is_hex16 id

unfoldable pub candidate_receipt_id : Text → Receipts → Submission → Result String
candidate_receipt_id lib rc c = do
  require (lib.is_identifier c.slot_id) "slot_id is not a bounded identifier"
  require (rc.is_hex16 c.candidate_fact_id) "candidate_fact_id must be 16 lowercase hex"
  require (is_source rc c.source_id) "source_id must be null or 16 lowercase hex"
  require (rc.is_sha256 c.candidate_fact_identity)
      "candidate_fact_identity must be 64 lowercase hex"
  require (rc.is_sha256 c.context_digest) "context_digest must be 64 lowercase hex"
  ok (
      rc.receipt_digest c.slot_id c.candidate_fact_id c.candidate_fact_identity c.source_id
        c.context_digest)

-- `state IN ('active','ambiguous')`
abbrev pub is_dispatched : SlotState → Bool
is_dispatched active = true
is_dispatched ambiguous = true
is_dispatched _ = false

-- `WHERE worker=? AND slot_id=? AND` a test of the state; the slot's id is the key
unfoldable pub slot_of : (SlotState → Bool) → String → Option Slot → Option Slot
slot_of test worker none = none
slot_of test worker (some r) = if (r.worker == worker) && test r.state then some r else none

unfoldable pub canonical_paid_slot : Text → Store → String → String → Result Slot
unfolding slot_of find_slot lane_of validate_slot_task_binding
canonical_paid_slot lib s worker slot_id = do
  require (lib.is_identifier worker) "worker is not a bounded identifier"
  require (lib.is_identifier slot_id) "slot_id is not a bounded identifier"
  row ←
      or_raise (slot_of is_dispatched worker (find_slot slot_id s.slots))
        "worker has no matching canonical paid slot"
  require ((row.generation =? s.project.generation) && (row.lane == lane_of s worker))
      "paid slot is not in the current canonical phase"
  validate_slot_task_binding lib s row
  ok row

unfoldable pub canonical_candidate_slot : Text → Store → String → String → Bool → Result Slot
unfolding slot_of find_slot lane_of
canonical_candidate_slot lib s worker slot_id require_current_generation = do
  require (lib.is_identifier worker) "worker is not a bounded identifier"
  require (lib.is_identifier slot_id) "slot_id is not a bounded identifier"
  row ←
      or_raise (slot_of (λ state. not (is_prepared state)) worker (find_slot slot_id s.slots))
        "candidate has no matching canonical slot"
  require
      ((row.lane == lane_of s worker)
        && (not require_current_generation || (row.generation =? s.project.generation)))
      "candidate slot is not in the canonical generation"
  ok row

-- the row of an INSERT, with the columns that it leaves null
abbrev pub inserted :
    String → Submission → Slot → CandidateState → Option String → ℕ → Option ℕ → Candidate
inserted receipt c slot state outcome now terminal_at = record {
  candidate_id = receipt;
  generation = slot.generation;
  slot_id = c.slot_id;
  candidate_fact_id = c.candidate_fact_id;
  candidate_fact_identity = c.candidate_fact_identity;
  source_id = c.source_id;
  context_digest = c.context_digest;
  worker = c.worker;
  lane = slot.lane;
  state = state;
  outcome = outcome;
  created_at = now;
  updated_at = now;
  terminal_at = terminal_at;
  owner_resolution = none;
  owner_acknowledged_unknown = none;
  candidate_fact_active_at_resolution = none;
  owner_resolved_at = none;
}

abbrev pub insert_candidate : Candidate → Store → Store
insert_candidate row s = record s { candidates = s.candidates ++ row ∷ [] }

-- `observed == identity`
unfoldable pub has_identity : Candidate → Submission → Slot → Bool
has_identity row c slot =
    (row.generation =? slot.generation)
    && (row.slot_id == c.slot_id)
    && (row.candidate_fact_id == c.candidate_fact_id)
    && (row.candidate_fact_identity == c.candidate_fact_identity)
    && opt_eq row.source_id c.source_id
    && (row.context_digest == c.context_digest)
    && (row.worker == c.worker)
    && (row.lane == slot.lane)

-- `state in {"active", "outcome_unknown", "terminal"}`
abbrev pub is_registered : CandidateState → Bool
is_registered state = is_overlay state || is_final state

-- register_candidate, from the row of the receipt on
unfoldable pub register_as :
    Text → Store → String → Submission → ℕ → Option Candidate → Transaction Candidate
unfolding canonical_paid_slot canonical_candidate_slot has_overlay has_identity
register_as lib s receipt c now none = do
  slot ← canonical_paid_slot lib s c.worker c.slot_id
  require (not (has_overlay s)) "another candidate overlay is already active"
  ok (
    ok (inserted receipt c slot active none now none),
    insert_candidate (inserted receipt c slot active none now none) s,
  )
register_as lib s receipt c now (some row) = do
  slot ← canonical_candidate_slot lib s c.worker c.slot_id (not (is_final row.state))
  require (has_identity row c slot && is_registered row.state)
      "candidate receipt conflicts with prior coordination state"
  ok (ok row, s)

unfoldable pub register_candidate :
    Text → Receipts → Store → String → Submission → ℕ → Transaction Candidate
unfolding candidate_receipt_id register_as find_candidate
register_candidate lib rc s receipt c now = do
  expected ← candidate_receipt_id lib rc c
  require (receipt == expected) "candidate receipt does not bind its exact identity"
  register_as lib s receipt c now (find_candidate receipt s.candidates)

-- record_exact_fact_reuse, from the row of the receipt on
unfoldable pub reuse_as :
    Text → Store → String → Submission → ℕ → Option Candidate → Transaction Candidate
unfolding canonical_paid_slot canonical_candidate_slot has_identity
reuse_as lib s receipt c now none = do
  slot ← canonical_paid_slot lib s c.worker c.slot_id
  ok (
    ok (inserted receipt c slot terminal (some "correct") now (some now)),
    insert_candidate (inserted receipt c slot terminal (some "correct") now (some now)) s,
  )
reuse_as lib s receipt c now (some row) = do
  slot ← canonical_candidate_slot lib s c.worker c.slot_id false
  require (has_identity row c slot && is_final row.state && opt_eq row.outcome (some "correct"))
      "exact-reuse receipt conflicts with prior candidate state"
  ok (ok row, s)

-- The context digest of the submission is not read: the reuse has its own.
unfoldable pub record_exact_fact_reuse :
    Text → Receipts → Store → Submission → ℕ → Transaction Candidate
unfolding candidate_receipt_id reuse_as find_candidate
record_exact_fact_reuse lib rc s given now =
    let c = record given {
      context_digest =
          rc.reuse_digest given.slot_id given.candidate_fact_id given.candidate_fact_identity
            given.source_id;
    } in
    do
      require (lib.is_identifier given.slot_id) "slot_id is not a bounded identifier"
      receipt ← candidate_receipt_id lib rc c
      reuse_as lib s receipt c now (find_candidate receipt s.candidates)
