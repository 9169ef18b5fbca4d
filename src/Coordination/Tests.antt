-- ===== src/Coordination/Tests.antt =====
-- danus/coordination/: one worker's round at concrete requests.
use danus.Base.{
  ℕ, take, map, ◌≤◌, String, true, false, not, none, some, List, [], ◌∷◌, ◌==◌, ◌≡◌, refl, arith,
  ◌⊎◌,
}
use danus.Base.Assoc.{lookup, put}
use danus.Base.Result.{ok, err, ◌>>=◌, ◌>>◌, require, or_raise}
use danus.Coordination.Rows.{
  Slot, reasoning, critic_review, prepared, active, terminal, Store, Text, Task, find_slot,
  open_slot, Candidate, CandidateState, outcome_unknown, find_candidate,
}
use danus.Coordination.Directive.{root_reasoning}
use danus.Coordination.Transactions.{Admission, transact}
use danus.Coordination.Advance.{advance_generation_if_ready}
use danus.Coordination.Admit.{admit, open_count}
use danus.Coordination.Slots.{activate}
use danus.Coordination.Evolution.{IsKeyed, Follows}
use danus.Coordination.History.{IsReceipted, overlay_count}
use danus.Coordination.Candidates.{Receipts, Submission}
use danus.Coordination.Outcomes.{terminalize_candidate, is_outcome}
use danus.Coordination.CandidateEnds.{HasEnded, ended_candidate_has_outcome}
use danus.Coordination.Requests.{
  Request, admitting, pinning, activating, completing, registering, ending, resolving, serve_all,
  paid_slots_bounded, one_candidate_in_flight, slots_never_regress,
}
use danus.Coordination.PhaseEnds.Ready.{IsReady}
use danus.Coordination.PhaseEnds.Closing.{IsClosed}
use danus.Coordination.PhaseEnds.{IsNext, phase_end_conditions}
use danus.Coordination.CarryForward.{IsCarried, tasks_carry_forward}
use danus.Coordination.Admissions.{Decides, admission_is_guarded}
use danus.Coordination.OpenSlots.{
  expired, HolderOutcome, late_activation_raises, admission_keeps_slot,
}

abbrev text : Text
text = record {
  lines = λ t. "coordination_slot_id=s1" ∷ "generation=1" ∷ "task_sha256=h" ∷ [];
  size = λ t. 10;
  sha256 = λ t. "h";
  decimal = λ n. "1";
  has_content = λ t. not (t == "");
  is_identifier = λ t. true;
}

abbrev receipts : Receipts
receipts = record {
  is_hex16 = λ t. true;
  is_sha256 = λ t. true;
  receipt_digest = λ slot fact identity source context. "r1";
  reuse_digest = λ slot fact identity source. "u1";
}

abbrev first_task : Task
first_task = record {
  worker = "w";
  generation = 1;
  lane = "root";
  task = "prove it";
  staged_at = 0;
  frozen_at = none;
}

-- One paid worker, whose task is staged.
abbrev idle : Store
idle = record {
  max_paid_workers = 1;
  phase_timeout = 50;
  lanes = ("w", "root") ∷ [];
  project = record {
    generation = 1;
    phase = reasoning;
    phase_started_at = 0;
    phase_deadline_at = 50;
    recommendation_id = none;
    active_review_id = none;
    updated_at = 0;
  };
  slots = [];
  reviews = [];
  candidates = [];
  tasks = first_task ∷ [];
  workers = [];
}

abbrev slot : Slot
slot = record {
  slot_id = "s1";
  worker = "w";
  lane = "root";
  generation = 1;
  phase = reasoning;
  state = prepared;
  task = "prove it";
  prompt = none;
  created_at = 1;
  activated_at = none;
  terminal_at = none;
  outcome = none;
  review_id = none;
  designated_root_entry_id = none;
}

-- The store with that slot, and when it is over.
abbrev busy : Store
busy = record idle { slots = slot ∷ []; tasks = record first_task { frozen_at = some 1 } ∷ [] }

abbrev over : Store
over = record busy {
  slots = record slot { state = terminal; terminal_at = some 3; outcome = some "done" } ∷ [];
}

abbrev round : List Request
round =
    admitting "w" 1 "s1" ∷ pinning "s1" "prompt" ∷ activating "s1" 2 ∷ completing "s1" "done" 3 ∷ []

-- After the round its slot is terminal and the next generation has begun.
round_ends :
    (find_slot "s1" (serve_all text receipts idle round).slots
      ≡ some (record slot {
        state = terminal;
        prompt = some "prompt";
        activated_at = some 2;
        terminal_at = some 3;
        outcome = some "done";
      }))
    × ((serve_all text receipts idle round).project.generation ≡ 2)
unfolding serve_all find_slot ◌>>=◌ ◌>>◌ require or_raise lookup put
round_ends = (refl, refl)

idle-IsKeyed : IsKeyed idle.slots
idle-IsKeyed = tt

paid_slots_bounded_example :
    IsKeyed (serve_all text receipts idle round).slots
    × (open_count (serve_all text receipts idle round)
        ≤ (serve_all text receipts idle round).max_paid_workers)
paid_slots_bounded_example = paid_slots_bounded text receipts idle round idle-IsKeyed (omega arith)

busy-IsKeyed : IsKeyed busy.slots
unfolding find_slot
busy-IsKeyed = (refl, tt)

busy_slot : find_slot "s1" busy.slots ≡ some slot
unfolding find_slot
busy_slot = refl

abbrev rest : List Request
rest = pinning "s1" "prompt" ∷ completing "s1" "done" 3 ∷ []

slots_never_regress_example :
    (b : Slot) × (find_slot "s1" (serve_all text receipts busy rest).slots ≡ some b)
    × Follows slot b
slots_never_regress_example =
    slots_never_regress text receipts busy rest "s1" slot busy-IsKeyed busy_slot

-- The store when the generation has advanced.
abbrev next : Store
next = record over {
  project = record over.project {
    generation = 2;
    phase_started_at = 3;
    phase_deadline_at = 53;
    updated_at = 3;
  };
  tasks =
      record first_task { frozen_at = some 1 }
      ∷ record first_task { generation = 2; staged_at = 3 }
      ∷ [];
}

over_advances : advance_generation_if_ready text over 3 ≡ ok (true, next)
unfolding advance_generation_if_ready ◌>>=◌ ◌>>◌ require or_raise lookup
over_advances = refl

phase_end_conditions_example :
    (true ≡ false → (next ≡ over) × ¬ IsReady over)
    × (true ≡ true
        → IsReady over
          × IsNext 3 over next
          × (over.project.phase ≡ critic_review → IsClosed 3 over next))
phase_end_conditions_example = phase_end_conditions text over next 3 true over_advances

over_roster : lookup "w" over.lanes ≡ some "root"
unfolding lookup
over_roster = refl

tasks_carry_forward_example : IsCarried "w" "root" 1 over.tasks next.tasks
tasks_carry_forward_example =
    tasks_carry_forward text over next 3 "w" "root" over_advances refl over_roster

idle_worker : open_slot "w" idle.slots ≡ none
unfolding open_slot
idle_worker = refl

abbrev granted : Admission
granted = record {
  slot = slot;
  directive = record { lane = "root"; generation = 1; phase = reasoning; body = root_reasoning };
  resumed = false;
  phase_deadline_at = 50;
  hard_timeout = 50;
}

abbrev admitted : ℕ → Store
admitted now = record busy {
  workers =
      (
        "w",
        record {
          lane = "root";
          state = "admitted";
          generation = 1;
          phase = reasoning;
          updated_at = now;
        },
      )
      ∷ [];
}

idle_admits : admit text idle "w" 1 "s1" ≡ ok (ok (some granted), admitted 1)
unfolding admit ◌>>=◌ ◌>>◌ require or_raise lookup put
idle_admits = refl

admission_is_guarded_example : Decides idle "w" "s1" 1 (some granted) (admitted 1)
admission_is_guarded_example =
    admission_is_guarded text idle (admitted 1) "w" "s1" 1 (some granted) idle_worker idle_admits

busy_worker : open_slot "w" busy.slots ≡ some slot
unfolding open_slot
busy_worker = refl

admission_keeps_slot_example :
    HolderOutcome busy 60 slot (transact busy (admit text busy "w" 60 "s2"))
admission_keeps_slot_example =
    admission_keeps_slot text busy "w" "s2" 60 slot busy-IsKeyed busy_worker

-- The slot, its prompt pinned.
abbrev pinned : Slot
pinned = record slot { prompt = some "prompt" }

abbrev ready : Store
ready = record busy { slots = pinned ∷ [] }

ready_slot : find_slot "s1" ready.slots ≡ some pinned
unfolding find_slot
ready_slot = refl

-- Activated late, it is over.
late_activation :
    map (λ r. r.state) (transact ready (activate text ready "s1" 60)).1.slots ≡ terminal ∷ []
unfolding find_slot ◌>>=◌ ◌>>◌ require or_raise lookup put transact activate
late_activation = refl

late_activation_raises_example :
    ((e : String) × ((transact ready (activate text ready "s1" 60)).0 ≡ err e))
    × (((transact ready (activate text ready "s1" 60)).1 ≡ ready)
        ⊎ (find_slot "s1" (transact ready (activate text ready "s1" 60)).1.slots
            ≡ some (expired 60 pinned)))
late_activation_raises_example =
    late_activation_raises text ready "s1" 60 pinned ready_slot refl (omega arith)

-- A candidate of the slot, and the requests from its registration to the end of the round.
abbrev submission : Submission
submission = record {
  worker = "w";
  slot_id = "s1";
  candidate_fact_id = "f";
  candidate_fact_identity = "i";
  source_id = none;
  context_digest = "c";
}

abbrev verified_round : List Request
verified_round =
    admitting "w" 1 "s1"
    ∷ pinning "s1" "prompt"
    ∷ activating "s1" 2
    ∷ registering "r1" submission 3
    ∷ registering "r2" submission 3
    ∷ completing "s1" "done" 4
    ∷ ending "w" "r1" "s1" "correct" 5
    ∷ []

abbrev verified : Candidate
verified = record {
  candidate_id = "r1";
  generation = 1;
  slot_id = "s1";
  candidate_fact_id = "f";
  candidate_fact_identity = "i";
  source_id = none;
  context_digest = "c";
  worker = "w";
  lane = "root";
  state = terminal;
  outcome = some "correct";
  created_at = 3;
  updated_at = 5;
  terminal_at = some 5;
  owner_resolution = none;
  owner_acknowledged_unknown = none;
  candidate_fact_active_at_resolution = none;
  owner_resolved_at = none;
}

-- The generation waits for the candidate, whose end begins the next one.
verified_round_ends :
    ((serve_all text receipts idle verified_round).candidates ≡ verified ∷ [])
    × ((serve_all text receipts idle (take 6 verified_round)).project.generation ≡ 1)
    × ((serve_all text receipts idle verified_round).project.generation ≡ 2)
unfolding serve_all find_slot find_candidate ◌>>=◌ ◌>>◌ require or_raise lookup put
verified_round_ends = (refl, refl, refl)

one_candidate_in_flight_example :
    IsReceipted (serve_all text receipts idle verified_round).candidates
    × (overlay_count (serve_all text receipts idle verified_round).candidates ≤ 1)
one_candidate_in_flight_example =
    one_candidate_in_flight text receipts idle verified_round idle-IsKeyed tt (omega arith)

-- A candidate of unknown outcome is resolved by the owner.
abbrev unknown : Candidate
unknown = record verified {
  state = outcome_unknown;
  outcome = some "outcome_unknown";
  terminal_at = none;
}

unknown_resolves :
    map
      (λ c. c.state)
      (serve_all text receipts
        (record over { candidates = unknown ∷ [] })
        (resolving "r1" "abandon_unknown" true false 6 ∷ [])).candidates
    ≡ CandidateState.terminal ∷ []
unfolding serve_all find_slot find_candidate ◌>>=◌ ◌>>◌ require or_raise lookup put
unknown_resolves = refl

-- The round is over, but for a candidate that is active; and when that has ended.
abbrev running : Store
running = record over {
  candidates =
      record verified { state = active; outcome = none; updated_at = 3; terminal_at = none } ∷ [];
}

abbrev ended_candidate : Candidate
ended_candidate = record verified { updated_at = 3; terminal_at = some 3 }

abbrev ended_store : Store
ended_store = record next { candidates = ended_candidate ∷ [] }

verified_ends :
    terminalize_candidate text receipts running "w" "r1" "s1" "correct" 3
    ≡ ok (ok ended_candidate, ended_store)
unfolding terminalize_candidate find_slot find_candidate ◌>>=◌ ◌>>◌ require or_raise lookup put
verified_ends = refl

ended_candidate_has_outcome_example :
    HasEnded "r1" "correct" ended_store ended_candidate × (is_outcome "correct" ≡ true)
ended_candidate_has_outcome_example =
    ended_candidate_has_outcome text receipts running ended_store "w" "r1" "s1" "correct" 3
      ended_candidate verified_ends
