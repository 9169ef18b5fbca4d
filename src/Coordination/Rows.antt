-- ===== src/Coordination/Rows.antt =====
-- danus/coordination/store.py: the rows of the coordination database. A column that is computed
-- from another (a digest, a byte count, a directive's text) is computed here where it is read, and
-- times are natural numbers.
use danus.Base.{
  ℕ, String, Bool, true, false, ◌&&◌, ◌||◌, Option, none, some, List, [], ◌∷◌, ◌==◌, ◌=?◌,
  if◌then◌else◌,
}

-- `phase` of project_state and of a slot
pub data Phase : Type 0 where
  reasoning critic_review owner_action_required : Phase

abbrev pub phase_eq : Phase → Phase → Bool
phase_eq reasoning reasoning = true
phase_eq critic_review critic_review = true
phase_eq owner_action_required owner_action_required = true
phase_eq _ _ = false

pub data SlotState : Type 0 where
  prepared active ambiguous terminal : SlotState

-- `state IN ('prepared','active','ambiguous')`
abbrev pub is_open : SlotState → Bool
is_open terminal = false
is_open _ = true

abbrev pub is_prepared : SlotState → Bool
is_prepared prepared = true
is_prepared _ = false

-- round_slots
pub record Slot : Type 0 where
  pub slot_id : String
  pub worker : String
  pub lane : String
  pub generation : ℕ
  pub phase : Phase
  pub state : SlotState
  pub task : String
  pub prompt : Option String
  pub created_at : ℕ
  pub activated_at : Option ℕ
  pub terminal_at : Option ℕ
  pub outcome : Option String
  pub review_id : Option String
  pub designated_root_entry_id : Option String

-- project_state
pub record Project : Type 0 where
  pub generation : ℕ
  pub phase : Phase
  pub phase_started_at : ℕ
  pub phase_deadline_at : ℕ
  pub recommendation_id : Option String
  pub active_review_id : Option String
  pub updated_at : ℕ

pub data ReviewState : Type 0 where
  pending active confirmed not_confirmed resolved : ReviewState

-- `state IN ('pending','active','confirmed')`
abbrev pub is_live : ReviewState → Bool
is_live pending = true
is_live active = true
is_live confirmed = true
is_live _ = false

abbrev pub is_pending : ReviewState → Bool
is_pending pending = true
is_pending _ = false

abbrev pub is_active : ReviewState → Bool
is_active active = true
is_active _ = false

-- obstacle_reviews
pub record Review : Type 0 where
  pub review_id : String
  pub generation : ℕ
  pub root_entry_id : String
  pub root_slot_id : String
  pub critic_worker : String
  pub critic_slot_id : Option String
  pub confirmation_entry_id : Option String
  pub state : ReviewState
  pub activated_at : Option ℕ
  pub terminal_at : Option ℕ

pub data CandidateState : Type 0 where
  observed promising rejected selected active outcome_unknown terminal : CandidateState

abbrev pub is_final : CandidateState → Bool
is_final terminal = true
is_final _ = false

-- candidates
pub record Candidate : Type 0 where
  pub candidate_id : String
  pub generation : ℕ
  pub slot_id : String
  pub candidate_fact_id : String
  pub candidate_fact_identity : String
  pub source_id : Option String
  pub context_digest : String
  pub worker : String
  pub lane : String
  pub state : CandidateState
  pub outcome : Option String
  pub created_at : ℕ
  pub updated_at : ℕ
  pub terminal_at : Option ℕ
  pub owner_resolution : Option String
  pub owner_acknowledged_unknown : Option Bool
  pub candidate_fact_active_at_resolution : Option Bool
  pub owner_resolved_at : Option ℕ

-- `state IN ('active','outcome_unknown')`
abbrev pub is_overlay : CandidateState → Bool
is_overlay active = true
is_overlay outcome_unknown = true
is_overlay _ = false

-- generation_tasks
pub record Task : Type 0 where
  pub worker : String
  pub generation : ℕ
  pub lane : String
  pub task : String
  pub staged_at : ℕ
  pub frozen_at : Option ℕ

-- worker_states
pub record WorkerState : Type 0 where
  pub lane : String
  pub state : String
  pub generation : ℕ
  pub phase : Phase
  pub updated_at : ℕ

-- The database, with the roster and the configuration that the store was opened with. `lanes` is
-- `roster.lanes`, in the order in which the workers were chosen.
pub record Store : Type 0 where
  pub max_paid_workers : ℕ
  pub phase_timeout : ℕ
  pub lanes : List (String × String)
  pub project : Project
  pub slots : List Slot
  pub reviews : List Review
  pub candidates : List Candidate
  pub tasks : List Task
  pub workers : List (String × WorkerState)

-- What the store uses of Python's text: the lines of a text, its UTF-8 size, its SHA-256 digest,
-- the decimal form of a number, whether `strip` leaves something, and whether `_IDENTIFIER_RE`
-- matches it in full.
pub record Text : Type 0 where
  pub lines : String → List String
  pub size : String → ℕ
  pub sha256 : String → String
  pub decimal : ℕ → String
  pub has_content : String → Bool
  pub is_identifier : String → Bool

abbrev pub opt_eq : Option String → Option String → Bool
opt_eq none none = true
opt_eq (some a) (some b) = a == b
opt_eq _ _ = false

-- Rows by key; a key stands in one row at most.
unfoldable pub find_slot : String → List Slot → Option Slot
find_slot id [] = none
find_slot id (r ∷ rs) = if r.slot_id == id then some r else find_slot id rs

unfoldable pub open_slot : String → List Slot → Option Slot
open_slot worker [] = none
open_slot worker (r ∷ rs) =
    if (r.worker == worker) && is_open r.state then some r else open_slot worker rs

unfoldable pub find_review : String → List Review → Option Review
find_review id [] = none
find_review id (r ∷ rs) = if r.review_id == id then some r else find_review id rs

unfoldable pub find_candidate : String → List Candidate → Option Candidate
find_candidate id [] = none
find_candidate id (c ∷ cs) = if c.candidate_id == id then some c else find_candidate id cs

unfoldable pub find_task : String → ℕ → List Task → Option Task
find_task worker g [] = none
find_task worker g (r ∷ rs) =
    if (r.worker == worker) && (r.generation =? g) then some r else find_task worker g rs

unfoldable pub any {ℓ} : {A : Type ℓ} → (A → Bool) → List A → Bool
any p [] = false
any p (x ∷ xs) = p x || any p xs

-- `UPDATE … WHERE` a test holds
unfoldable pub update_where {ℓ} : {A : Type ℓ} → (A → Bool) → (A → A) → List A → List A
update_where p f [] = []
update_where p f (x ∷ xs) = (if p x then f x else x) ∷ update_where p f xs
