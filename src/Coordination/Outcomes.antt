-- ===== src/Coordination/Outcomes.antt =====
-- danus/coordination/store.py: how a candidate ends: by the verifier's outcome, or by the owner's
-- resolution of one whose outcome is unknown.
use danus.Base.{
  ℕ, String, Bool, true, false, not, ◌&&◌, ◌||◌, Option, none, some, ◌==◌, if◌then◌else◌,
}
use danus.Base.Result.{Result, ok, err, ◌>>=◌, ◌>>◌, require, or_raise}
use danus.Coordination.Rows.{
  active, terminal, Slot, is_open, CandidateState, outcome_unknown, Candidate, is_overlay, is_final,
  Store, Text, opt_eq, find_slot, find_candidate, update_where,
}
use danus.Coordination.Advance.{advance_generation_if_ready}
use danus.Coordination.Transactions.{Transaction}
use danus.Coordination.Candidates.{Receipts, canonical_candidate_slot, is_registered}

-- `outcome in CANDIDATE_OUTCOMES`
abbrev pub is_outcome : String → Bool
is_outcome o =
    (o == "correct")
    || (o == "wrong")
    || (o == "needs_context")
    || (o == "error")
    || (o == "promotion_unknown")
    || (o == "outcome_unknown")

unfoldable pub candidate_outcome_releases : String → Result Bool
candidate_outcome_releases outcome = do
  require (is_outcome outcome) "candidate outcome is unsupported"
  ok (not (outcome == "outcome_unknown"))

unfoldable pub set_candidate :
    String → (CandidateState → Bool) → (Candidate → Candidate) → Store → Store
unfolding update_where
set_candidate id test f s = record s {
  candidates = update_where (λ r. (r.candidate_id == id) && test r.state) f s.candidates;
}

abbrev pub is_running : CandidateState → Bool
is_running active = true
is_running _ = false

-- the columns that the UPDATE of terminalize_candidate sets
abbrev pub ended : String → ℕ → Candidate → Candidate
ended outcome now r =
    if outcome == "outcome_unknown"
    then record r {
      state = outcome_unknown;
      outcome = some outcome;
      updated_at = now;
      terminal_at = none;
    }
    else record r {
      state = terminal;
      outcome = some outcome;
      updated_at = now;
      terminal_at = some now;
    }

-- the branches on the state of the row
unfoldable pub settle : Store → Candidate → CandidateState → String → ℕ → Result Store
unfolding set_candidate
settle s row outcome_unknown outcome now = do
  require ((outcome == "outcome_unknown") && opt_eq row.outcome (some outcome))
      "outcome-unknown candidate requires explicit owner resolution"
  ok s
settle s row terminal outcome now = do
  require (opt_eq row.outcome (some outcome)) "candidate terminal outcome conflicts"
  ok s
settle s row _ outcome now = ok (set_candidate row.candidate_id is_running (ended outcome now) s)

-- `if releases_overlay`
unfoldable pub release : Text → Store → Bool → ℕ → Result Store
unfolding advance_generation_if_ready
release lib s false now = ok s
release lib s true now = advance_generation_if_ready lib s now >>= λ r. ok r.1

-- `row is None or row["state"] != "terminal"`
abbrev pub is_current : Option Candidate → Bool
is_current none = true
is_current (some row) = not (is_final row.state)

unfoldable pub terminalize_candidate :
    Text → Receipts → Store → String → String → String → String → ℕ → Transaction Candidate
unfolding candidate_outcome_releases find_candidate canonical_candidate_slot settle release
terminalize_candidate lib rc s worker receipt slot_id outcome now = do
  require (rc.is_sha256 receipt) "candidate_receipt_id must be 64 lowercase hex"
  releases ← candidate_outcome_releases outcome
  slot ←
      canonical_candidate_slot lib s worker slot_id
        (is_current (find_candidate receipt s.candidates))
  row ←
      or_raise (find_candidate receipt s.candidates) "candidate is not terminalizable by this slot"
  require ((row.worker == worker) && (row.slot_id == slot_id) && is_registered row.state)
      "candidate is not terminalizable by this slot"
  t ← settle s row row.state outcome now
  u ← release lib t releases now
  ok (or_raise (find_candidate receipt u.candidates) "terminal candidate disappeared", u)

-- the columns that the UPDATE of resolve_candidate_outcome_unknown sets
abbrev pub resolved_by_owner : String → Bool → ℕ → Candidate → Candidate
resolved_by_owner resolution fact_active now r = record r {
  state = terminal;
  outcome = some "outcome_unknown";
  updated_at = now;
  terminal_at = some now;
  owner_resolution = some resolution;
  owner_acknowledged_unknown = some true;
  candidate_fact_active_at_resolution = some fact_active;
  owner_resolved_at = some now;
}

-- `slot is not None and slot["state"] == "terminal"`
abbrev pub source_is_over : Option Slot → Bool
source_is_over none = false
source_is_over (some slot) = not (is_open slot.state)

-- `bool(value)`, and false for NULL
abbrev pub truth : Option Bool → Bool
truth none = false
truth (some b) = b

abbrev pub same_bool : Bool → Bool → Bool
same_bool true b = b
same_bool false b = not b

unfoldable pub resolve_row : Store → Candidate → String → Bool → ℕ → Result Store
unfolding find_slot set_candidate
resolve_row s row resolution fact_active now =
    if is_overlay row.state
    then (require (source_is_over (find_slot row.slot_id s.slots))
          "candidate source slot is not terminal; first fail-stop and reconcile the paid turn"
        >> ok (
            set_candidate row.candidate_id is_overlay (resolved_by_owner resolution fact_active now)
              s))
    else elim row.owner_resolution [
      | none ↦ err "a known terminal candidate does not need owner resolution"
      | some before ↦
          if is_final row.state
          then (require
                ((before == resolution)
                  && truth row.owner_acknowledged_unknown
                  && same_bool (truth row.candidate_fact_active_at_resolution) fact_active)
                "candidate owner resolution conflicts"
              >> ok s)
          else err "a known terminal candidate does not need owner resolution"
    ]

unfoldable pub resolve_candidate_outcome_unknown :
    Text → Receipts → Store → String → String → Bool → Bool → ℕ → Transaction Candidate
unfolding find_candidate resolve_row advance_generation_if_ready
resolve_candidate_outcome_unknown lib rc s receipt resolution acknowledged fact_active now = do
  require (rc.is_sha256 receipt) "candidate_receipt_id must be 64 lowercase hex"
  require ((resolution == "known_no_promotion") || (resolution == "abandon_unknown"))
      "candidate owner resolution is unsupported"
  require acknowledged "owner must acknowledge that the paid candidate outcome is unknown"
  require (not ((resolution == "known_no_promotion") && fact_active))
      "known-no-promotion cannot resolve an active candidate fact"
  row ← or_raise (find_candidate receipt s.candidates) "candidate receipt does not exist"
  t ← resolve_row s row resolution fact_active now
  (_, u) ← advance_generation_if_ready lib t now
  ok (or_raise (find_candidate receipt u.candidates) "owner-resolved candidate disappeared", u)
