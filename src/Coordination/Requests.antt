-- ===== src/Coordination/Requests.antt =====
-- danus/coordination/store.py: any sequence of transactions on the slots and the candidates of
-- one database, and what holds of it.
use danus.Base.{ℕ, Bool, ◌≤◌, String, some, List, [], ◌∷◌, ◌≡◌, refl, arith}
use danus.Base.Result.{ok, err}
use danus.Coordination.Rows.{Slot, Store, Text, find_slot}
use danus.Coordination.Transactions.{Transaction, transact}
use danus.Coordination.Admit.{admit, open_count}
use danus.Coordination.Slots.{pin_prompt, activate, mark_ambiguous, complete}
use danus.Coordination.History.{IsReceipted, overlay_count}
use danus.Coordination.Candidates.{
  Receipts, Submission, register_candidate, record_exact_fact_reuse,
}
use danus.Coordination.Outcomes.{terminalize_candidate, resolve_candidate_outcome_unknown}
use danus.Coordination.Evolution.Overlay.{
  register-Evolves, reuse-Evolves, terminalize-Evolves, resolve-Evolves,
}
use danus.Coordination.Evolution.{IsKeyed, Evolves, Evolves-refl, Evolves-trans, Follows}
use danus.Coordination.Evolution.Operations.{Commits}
use danus.Coordination.Evolution.Runs.{
  pin_prompt-Evolves, activate-Evolves, mark_ambiguous-Evolves, complete-Evolves, admit-Evolves,
}

pub data Request : Type 0 where
  admitting : String → ℕ → String → Request
  pinning : String → String → Request
  activating : String → ℕ → Request
  marking : String → ℕ → Request
  completing : String → String → ℕ → Request
  registering : String → Submission → ℕ → Request
  reusing : Submission → ℕ → Request
  ending : String → String → String → String → ℕ → Request
  resolving : String → String → Bool → Bool → ℕ → Request

-- The database after a request.
unfoldable pub serve : Text → Receipts → Store → Request → Store
unfolding transact admit pin_prompt activate mark_ambiguous complete register_candidate
    record_exact_fact_reuse terminalize_candidate resolve_candidate_outcome_unknown
serve lib rc s (admitting worker now id) = (transact s (admit lib s worker now id)).1
serve lib rc s (pinning id text) = (transact s (pin_prompt lib s id text)).1
serve lib rc s (activating id now) = (transact s (activate lib s id now)).1
serve lib rc s (marking id now) = (transact s (mark_ambiguous lib s id now)).1
serve lib rc s (completing id outcome now) = (transact s (complete lib s id outcome now)).1
serve lib rc s (registering receipt c now) =
    (transact s (register_candidate lib rc s receipt c now)).1
serve lib rc s (reusing c now) = (transact s (record_exact_fact_reuse lib rc s c now)).1
serve lib rc s (ending worker receipt id outcome now) =
    (transact s (terminalize_candidate lib rc s worker receipt id outcome now)).1
serve lib rc s (resolving receipt resolution acknowledged fact_active now) =
    (transact s (
      resolve_candidate_outcome_unknown lib rc s receipt resolution acknowledged fact_active now)).1

unfoldable pub serve_all : Text → Receipts → Store → List Request → Store
unfolding serve
serve_all lib rc s [] = s
serve_all lib rc s (r ∷ rs) = serve_all lib rc (serve lib rc s r) rs

transact-Evolves :
    {A : Type 0} (s : Store) (m : Transaction A) → Commits s m → Evolves s (transact s m).1
unfolding transact
transact-Evolves s (ok r) h = h.at r refl
transact-Evolves s (err e) h = Evolves-refl s

serve-Evolves :
    (lib : Text) (rc : Receipts) (s : Store) (r : Request)
    → IsKeyed s.slots
    → Evolves s (serve lib rc s r)
unfolding serve
serve-Evolves lib rc s (admitting worker now id) k =
    transact-Evolves s _ (admit-Evolves lib s worker id now k)
serve-Evolves lib rc s (pinning id text) k = transact-Evolves s _ (pin_prompt-Evolves lib s id text)
serve-Evolves lib rc s (activating id now) k = transact-Evolves s _ (activate-Evolves lib s id now)
serve-Evolves lib rc s (marking id now) k =
    transact-Evolves s _ (mark_ambiguous-Evolves lib s id now)
serve-Evolves lib rc s (completing id outcome now) k =
    transact-Evolves s _ (complete-Evolves lib s id outcome now)
serve-Evolves lib rc s (registering receipt c now) k =
    transact-Evolves s _ (register-Evolves lib rc s receipt c now)
serve-Evolves lib rc s (reusing c now) k = transact-Evolves s _ (reuse-Evolves lib rc s c now)
serve-Evolves lib rc s (ending worker receipt id outcome now) k =
    transact-Evolves s _ (terminalize-Evolves lib rc s worker receipt id outcome now)
serve-Evolves lib rc s (resolving receipt resolution acknowledged fact_active now) k =
    transact-Evolves s _ (resolve-Evolves lib rc s receipt resolution acknowledged fact_active now)

serve_all-Evolves :
    (lib : Text) (rc : Receipts) (s : Store) (rs : List Request)
    → IsKeyed s.slots
    → Evolves s (serve_all lib rc s rs)
unfolding serve_all
serve_all-Evolves lib rc s [] k = Evolves-refl s
serve_all-Evolves lib rc s (r ∷ rs) k =
    let f = serve-Evolves lib rc s r k in
    Evolves-trans s (serve lib rc s r) _ f
      (serve_all-Evolves lib rc (serve lib rc s r) rs (f.keyed k))

-- If the slot ids of a database are distinct and at most `max_paid_workers` slots are open, then so
-- it is after any sequence of admissions, pins, activations, marks and completions, and of
-- registrations, reuses, ends and resolutions of candidates, whether each commits or fails.
pub paid_slots_bounded :
    (lib : Text) (rc : Receipts) (s : Store) (rs : List Request)
    → IsKeyed s.slots
    → open_count s ≤ s.max_paid_workers
    → IsKeyed (serve_all lib rc s rs).slots
      × (open_count (serve_all lib rc s rs) ≤ (serve_all lib rc s rs).max_paid_workers)
paid_slots_bounded lib rc s rs k h =
    let f = serve_all-Evolves lib rc s rs k in (f.keyed k, ground (arith, f.limit, f.paid h))

-- Where slot ids are distinct, no sequence of requests removes a slot: a later row of it has the
-- same worker, lane, generation, phase and task, keeps a prompt once pinned, and is not in an
-- earlier state; a terminal row is never written again.
pub slots_never_regress :
    (lib : Text) (rc : Receipts) (s : Store) (rs : List Request) (id : String) (a : Slot)
    → IsKeyed s.slots
    → find_slot id s.slots ≡ some a
    → (b : Slot) × (find_slot id (serve_all lib rc s rs).slots ≡ some b) × Follows a b
slots_never_regress lib rc s rs id a k here = (serve_all-Evolves lib rc s rs k).slot id a here

-- If the receipts of a database are distinct and at most one candidate is active or of unknown
-- outcome, then so it is after any sequence of requests, where slot ids are distinct.
pub one_candidate_in_flight :
    (lib : Text) (rc : Receipts) (s : Store) (rs : List Request)
    → IsKeyed s.slots
    → IsReceipted s.candidates
    → overlay_count s.candidates ≤ 1
    → IsReceipted (serve_all lib rc s rs).candidates
      × (overlay_count (serve_all lib rc s rs).candidates ≤ 1)
one_candidate_in_flight lib rc s rs k unique few =
    let f = (serve_all-Evolves lib rc s rs k).candidates in (f.receipted unique, f.overlay few)
