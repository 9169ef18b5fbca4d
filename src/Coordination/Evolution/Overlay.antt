-- ===== src/Coordination/Evolution/Overlay.antt =====
-- danus/coordination/store.py: each transaction on the candidates lets the store evolve.
use danus.Base.{
  ℕ, ◌≤◌, String, Bool, true, false, not, ◌&&◌, Option, none, some, List, ◌==◌, ◌≡◌, refl, arith,
}
use danus.Base.Result.{Holds, Holds-ok, Holds-err, Holds-bind, Holds-require, Holds-if}
use danus.Coordination.Rows.{
  CandidateState, observed, promising, rejected, selected, active, outcome_unknown, terminal,
  Candidate, is_overlay, is_final, Store, Text, find_candidate,
}
use danus.Coordination.History.{stage, Later, Succeeds, update-Succeeds, insert-Succeeds}
use danus.Coordination.Advance.{has_overlay, advance_generation_if_ready}
use danus.Coordination.Candidates.{
  Receipts, Submission, candidate_receipt_id, canonical_paid_slot, canonical_candidate_slot,
  inserted, register_as, register_candidate, reuse_as, record_exact_fact_reuse,
}
use danus.Coordination.Outcomes.{
  candidate_outcome_releases, set_candidate, is_running, ended, settle, release,
  terminalize_candidate, resolved_by_owner, resolve_row, resolve_candidate_outcome_unknown,
}
use danus.Coordination.Evolution.{Evolves, Evolves-same, Evolves-refl, Evolves-trans}
use danus.Coordination.Evolution.Phases.{advance-Evolves}
use danus.Coordination.Evolution.Operations.{Commits}

candidates-Evolves :
    (s : Store) (cs : List Candidate)
    → Succeeds s.candidates cs
    → Evolves s (record s { candidates = cs })
candidates-Evolves s cs h = Evolves-same s _ refl refl refl (omega arith) h

module _ (lib : Text) (s : Store) (receipt : String) (c : Submission) (now : ℕ) where
  register_as-Evolves :
      (o : Option Candidate)
      → find_candidate receipt s.candidates ≡ o
      → Commits s (register_as lib s receipt c now o)
  unfolding register_as has_overlay
  register_as-Evolves none e = Holds-bind (canonical_paid_slot lib s c.worker c.slot_id) (λ slot _.
      Holds-require _ _ (λ free. Holds-ok (
        candidates-Evolves s _ (
          insert-Succeeds (inserted receipt c slot active none now none) s.candidates e
            (ground (arith, free))))))
  register_as-Evolves (some row) e =
      Holds-bind (canonical_candidate_slot lib s c.worker c.slot_id (not (is_final row.state)))
        (λ slot _. Holds-require _ _ (λ _. Holds-ok (Evolves-refl s)))

  reuse_as-Evolves :
      (o : Option Candidate)
      → find_candidate receipt s.candidates ≡ o
      → Commits s (reuse_as lib s receipt c now o)
  unfolding reuse_as
  reuse_as-Evolves none e = Holds-bind (canonical_paid_slot lib s c.worker c.slot_id) (λ slot _.
      Holds-ok (
        candidates-Evolves s _ (
          insert-Succeeds (inserted receipt c slot terminal (some "correct") now (some now))
            s.candidates e (ground arith))))
  reuse_as-Evolves (some row) e =
      Holds-bind (canonical_candidate_slot lib s c.worker c.slot_id false)
        (λ slot _. Holds-require _ _ (λ _. Holds-ok (Evolves-refl s)))

pub register-Evolves :
    (lib : Text) (rc : Receipts) (s : Store) (receipt : String) (c : Submission) (now : ℕ)
    → Commits s (register_candidate lib rc s receipt c now)
unfolding register_candidate
register-Evolves lib rc s receipt c now =
    Holds-bind (candidate_receipt_id lib rc c)
      (λ expected _. Holds-require _ _ (λ _. register_as-Evolves lib s receipt c now _ refl))

pub reuse-Evolves :
    (lib : Text) (rc : Receipts) (s : Store) (c : Submission) (now : ℕ)
    → Commits s (record_exact_fact_reuse lib rc s c now)
unfolding record_exact_fact_reuse
reuse-Evolves lib rc s c now =
    Holds-require _ _ (λ _. Holds-bind _ (λ receipt _. reuse_as-Evolves lib s receipt _ now _ refl))

stage-le : (x : CandidateState) → stage x ≤ 2
stage-le observed = omega arith
stage-le promising = omega arith
stage-le rejected = omega arith
stage-le selected = omega arith
stage-le active = omega arith
stage-le outcome_unknown = omega arith
stage-le terminal = omega arith

overlay_is_not_final : (x : CandidateState) → is_overlay x ≡ true → is_final x ≡ false
overlay_is_not_final terminal h = cc
overlay_is_not_final observed h = refl
overlay_is_not_final promising h = refl
overlay_is_not_final rejected h = refl
overlay_is_not_final selected h = refl
overlay_is_not_final active h = refl
overlay_is_not_final outcome_unknown h = refl

running : (x : CandidateState) → is_running x ≡ true → x ≡ active
running active h = refl
running terminal h = cc
running observed h = cc
running promising h = cc
running rejected h = cc
running selected h = cc
running outcome_unknown h = cc

-- A row that is not final takes a later state, and new columns of its end.
ended-Later :
    (outcome : String) (now : ℕ) (a : Candidate)
    → is_running a.state ≡ true
    → Later a (ended outcome now a)
ended-Later outcome now a h = record {
  id = ground arith;
  generation = ground arith;
  slot = ground arith;
  fact = ground arith;
  identity = ground arith;
  source = ground arith;
  context = ground arith;
  worker = ground arith;
  lane = ground arith;
  state = ground (arith, running a.state h);
  settled = λ e. cc (e, running a.state h);
}

resolved-Later :
    (resolution : String) (fact_active : Bool) (now : ℕ) (a : Candidate)
    → is_overlay a.state ≡ true
    → Later a (resolved_by_owner resolution fact_active now a)
resolved-Later resolution fact_active now a h = record {
  id = refl;
  generation = refl;
  slot = refl;
  fact = refl;
  identity = refl;
  source = refl;
  context = refl;
  worker = refl;
  lane = refl;
  state = stage-le a.state;
  settled = λ e. cc (e, overlay_is_not_final a.state h);
}

ended-Evolves :
    (s : Store) (id outcome : String) (now : ℕ)
    → Evolves s (set_candidate id is_running (ended outcome now) s)
unfolding set_candidate
ended-Evolves s id outcome now = candidates-Evolves s _ (
    update-Succeeds (λ r. (r.candidate_id == id) && is_running r.state) (ended outcome now)
      (λ r h. ended-Later outcome now r (ground (arith, h)))
      (λ r h. ground (arith, running r.state, h)) s.candidates)

resolved-Evolves :
    (s : Store) (id resolution : String) (fact_active : Bool) (now : ℕ)
    → Evolves s (set_candidate id is_overlay (resolved_by_owner resolution fact_active now) s)
unfolding set_candidate
resolved-Evolves s id resolution fact_active now = candidates-Evolves s _ (
    update-Succeeds (λ r. (r.candidate_id == id) && is_overlay r.state)
      (resolved_by_owner resolution fact_active now)
      (λ r h. resolved-Later resolution fact_active now r (ground (arith, h)))
      (λ r h. ground (arith, h)) s.candidates)

settle-Evolves :
    (s : Store) (row : Candidate) (x : CandidateState) (outcome : String) (now : ℕ)
    → Holds (Evolves s) (settle s row x outcome now)
unfolding settle
settle-Evolves s row outcome_unknown outcome now =
    Holds-require _ _ (λ _. Holds-ok (Evolves-refl s))
settle-Evolves s row terminal outcome now = Holds-require _ _ (λ _. Holds-ok (Evolves-refl s))
settle-Evolves s row active outcome now = Holds-ok (ended-Evolves s row.candidate_id outcome now)
settle-Evolves s row observed outcome now = Holds-ok (ended-Evolves s row.candidate_id outcome now)
settle-Evolves s row promising outcome now = Holds-ok (ended-Evolves s row.candidate_id outcome now)
settle-Evolves s row rejected outcome now = Holds-ok (ended-Evolves s row.candidate_id outcome now)
settle-Evolves s row selected outcome now = Holds-ok (ended-Evolves s row.candidate_id outcome now)

release-Evolves :
    (lib : Text) (s : Store) (b : Bool) (now : ℕ) → Holds (Evolves s) (release lib s b now)
unfolding release
release-Evolves lib s false now = Holds-ok (Evolves-refl s)
release-Evolves lib s true now =
    Holds-bind (advance_generation_if_ready lib s now)
      (λ r e. Holds-ok ((advance-Evolves lib s now).at r e))

resolve_row-Evolves :
    (s : Store) (row : Candidate) (resolution : String) (fact_active : Bool) (now : ℕ)
    → (o : Option String) → row.owner_resolution ≡ o
    → Holds (Evolves s) (resolve_row s row resolution fact_active now)
unfolding resolve_row
resolve_row-Evolves s row resolution fact_active now none e =
    Holds-if (is_overlay row.state)
      (λ _.
        Holds-require _ _
          (λ _. Holds-ok (resolved-Evolves s row.candidate_id resolution fact_active now)))
      (λ _. rw e Holds-err)
resolve_row-Evolves s row resolution fact_active now (some before) e =
    Holds-if (is_overlay row.state)
      (λ _.
        Holds-require _ _
          (λ _. Holds-ok (resolved-Evolves s row.candidate_id resolution fact_active now)))
      (λ _. rw e (
        Holds-if (is_final row.state) (λ _. Holds-require _ _ (λ _. Holds-ok (Evolves-refl s)))
          (λ _. Holds-err)))

pub terminalize-Evolves :
    (lib : Text) (rc : Receipts) (s : Store) (worker receipt slot_id outcome : String) (now : ℕ)
    → Commits s (terminalize_candidate lib rc s worker receipt slot_id outcome now)
unfolding terminalize_candidate
terminalize-Evolves lib rc s worker receipt slot_id outcome now = Holds-require _ _ (λ _.
    Holds-bind (candidate_outcome_releases outcome) (λ releases _. Holds-bind _ (λ slot _.
      Holds-bind _ (λ row _. Holds-require _ _ (λ _.
        Holds-bind (settle s row row.state outcome now) (λ t first.
          Holds-bind (release lib t releases now) (λ u last. Holds-ok (
            Evolves-trans s t u ((settle-Evolves s row row.state outcome now).at t first)
              ((release-Evolves lib t releases now).at u last)))))))))

pub resolve-Evolves :
    (lib : Text) (rc : Receipts) (s : Store) (receipt resolution : String)
    (acknowledged fact_active : Bool) (now : ℕ)
    → Commits s
        (resolve_candidate_outcome_unknown lib rc s receipt resolution acknowledged fact_active now)
unfolding resolve_candidate_outcome_unknown
resolve-Evolves lib rc s receipt resolution acknowledged fact_active now = Holds-require _ _ (λ _.
    Holds-require _ _ (λ _. Holds-require _ _ (λ _. Holds-require _ _ (λ _. Holds-bind _ (λ row _.
      Holds-bind (resolve_row s row resolution fact_active now) (λ t first.
        Holds-bind (advance_generation_if_ready lib t now) (λ r last. Holds-ok (
          Evolves-trans s t r.1
            ((resolve_row-Evolves s row resolution fact_active now _ refl).at t first)
            ((advance-Evolves lib t now).at r last)))))))))
