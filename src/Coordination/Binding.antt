-- ===== src/Coordination/Binding.antt =====
-- danus/coordination/store.py: a slot and the task of its generation. The rows are those written
-- by this version of the store: `legacy_task_binding` is 0.
use Prim.Native.String.{◌++◌ as ◌+++◌}
use danus.Base.{
  ℕ, String, Bool, true, false, ◌&&◌, not, Option, none, some, List, ◌==◌, leb, is_some,
}
use danus.Base.Assoc.{lookup, put}
use danus.Base.Result.{Result, ok, ◌>>=◌, ◌>>◌, require, or_raise}
use danus.Coordination.Rows.{
  Phase, Slot, SlotState, active, ambiguous, Task, Store, Text, opt_eq, find_task, any,
}

abbrev pub max_task_bytes : ℕ
max_task_bytes = 131072

abbrev pub max_pinned_prompt_bytes : ℕ
max_pinned_prompt_bytes = 131072

unfoldable pub task_identity : Text → String → Result (Unit {0})
task_identity lib task = do
  require (lib.has_content task) "task assignment must be non-empty text"
  require (leb (lib.size task) max_task_bytes) "task assignment exceeds its hard limit"

unfoldable pub freeze_order : ℕ → Option ℕ → Result (Unit {0})
freeze_order staged_at none = ok tt
freeze_order staged_at (some frozen_at) =
    require (leb staged_at frozen_at) "generation task freeze predates its durable staging"

unfoldable pub validate_generation_task_row : Text → Store → Task → Result (Unit {0})
unfolding task_identity freeze_order
validate_generation_task_row lib s row = do
  require (opt_eq (lookup row.worker s.lanes) (some row.lane))
      "generation task is outside the protected paid-lane roster"
  require (leb 1 row.generation) "generation task has an invalid generation"
  task_identity lib row.task
  freeze_order row.staged_at row.frozen_at

abbrev pub contains : List String → String → Bool
contains lines text = any (λ line. line == text) lines

-- `all(marker in prompt_lines for marker in markers)`
unfoldable pub has_markers : Text → String → Slot → Bool
unfolding any
has_markers lib prompt slot =
    let lines = lib.lines prompt in
    contains lines ("coordination_slot_id=" +++ slot.slot_id)
    && contains lines ("generation=" +++ lib.decimal slot.generation)
    && contains lines ("task_sha256=" +++ lib.sha256 slot.task)

abbrev pub is_dispatched : SlotState → Bool
is_dispatched active = true
is_dispatched ambiguous = true
is_dispatched _ = false

unfoldable pub validate_prompt : Text → Slot → Option String → Result (Unit {0})
unfolding has_markers
validate_prompt lib slot none =
    require (not (is_dispatched slot.state)) "dispatched round slot has no pinned prompt"
validate_prompt lib slot (some prompt) = do
  require (not (prompt == "")) "round slot has an invalid pinned prompt"
  require (leb (lib.size prompt) max_pinned_prompt_bytes && has_markers lib prompt slot)
      "round slot prompt conflicts with its task/slot/generation binding"

unfoldable pub validate_slot_task_binding : Text → Store → Slot → Result (Unit {0})
unfolding task_identity validate_generation_task_row validate_prompt
validate_slot_task_binding lib s slot = do
  task_identity lib slot.task
  assignment ←
      or_raise (find_task slot.worker slot.generation s.tasks)
        "round slot has no matching durable generation task"
  validate_generation_task_row lib s assignment
  require
      ((assignment.lane == slot.lane)
        && (assignment.task == slot.task)
        && is_some assignment.frozen_at)
      "round slot conflicts with its durable generation task"
  validate_prompt lib slot slot.prompt

unfoldable pub write_worker_state : String → String → String → ℕ → Phase → ℕ → Store → Store
write_worker_state worker lane state generation phase now s = record s {
  workers =
      put worker
        (record {
          lane = lane;
          state = state;
          generation = generation;
          phase = phase;
          updated_at = now;
        })
        s.workers;
}
