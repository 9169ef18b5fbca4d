-- ===== src/Core/Graph/Add.antt =====
-- danus/core/factgraph.py: the addition of a fact, as steps on the disk, and its recovery. A process
-- can end between any two of them. The full identity of a fact and the format of its fields are not
-- tested here: a fact comes with its id and with its file.
pub mod Undone
mod Kept
pub mod Stages
pub mod Plans
pub mod Atomic
pub mod Effect
use danus.Base.{
  ℕ, String, Bool, true, false, not, ◌&&◌, ◌||◌, Option, none, some, List, [], ◌∷◌, ◌++◌, ◌==◌,
  if◌then◌else◌, is_some,
}
use danus.Base.Assoc.{lookup, erase}
use danus.Base.Names.{contains}
use danus.Base.Result.{Result, ok, err, ◌>>=◌, ◌>>◌, is_ok, require, or_raise}
use danus.Core.Graph.Disk.{
  Glossary, FactFile, Directory, PreparedAdd, CommittedAdd, AbortedAdd, Disk, exists, write,
}
use danus.Core.Graph.Glossaries.{prepare_glossary_merge, read_project_glossary, sorted_items}

pub data AddStep : Type 0 where
  write_prepared : PreparedAdd → AddStep
  write_fact : String → FactFile → AddStep
  write_project_glossary : Glossary → AddStep
  write_commit : CommittedAdd → AddStep
  write_abort : AbortedAdd → AddStep
  restore_fact restore_glossary : PreparedAdd → AddStep
  unlink_prepared unlink_commit unlink_abort : AddStep

-- the first part of `_restore_pending_add_snapshot_unlocked`
unfoldable pub restore : String → Option FactFile → Directory → Directory
unfolding write erase
restore id none facts = erase id facts
restore id (some previous) facts = write id previous facts

unfoldable pub apply : AddStep → Disk → Disk
unfolding restore
apply (write_prepared p) d = record d { pending_add = some p }
apply (write_fact id file) d = record d { facts = write id file d.facts }
apply (write_project_glossary g) d = record d { glossary = some g }
apply (write_commit c) d = record d { pending_add_commit = some c }
apply (write_abort a) d = record d { pending_add_abort = some a }
apply (restore_fact p) d = record d { facts = restore p.fact_id p.previous_fact d.facts }
apply (restore_glossary p) d = record d { glossary = p.previous_glossary }
apply unlink_prepared d = record d { pending_add = none }
apply unlink_commit d = record d { pending_add_commit = none }
apply unlink_abort d = record d { pending_add_abort = none }

unfoldable pub apply_all : List AddStep → Disk → Disk
unfolding apply
apply_all [] d = d
apply_all (s ∷ steps) d = apply_all steps (apply s d)

-- Equal bytes of the glossary's file.
unfoldable pub same_glossary : Option Glossary → Option Glossary → Bool
same_glossary none none = true
same_glossary (some []) (some []) = true
same_glossary (some ((k, v) ∷ g)) (some ((j, w) ∷ h)) =
    (k == j) && (v == w) && same_glossary (some g) (some h)
same_glossary _ _ = false

-- `prepared` and `committed` agree
unfoldable pub agrees : Option PreparedAdd → CommittedAdd → Bool
unfolding same_glossary
agrees none c = true
agrees (some p) c =
    (p.transaction_id == c.transaction_id)
    && (p.fact_id == c.fact_id)
    && (p.expected_fact.raw == c.expected_fact.raw)
    && same_glossary p.expected_glossary c.expected_glossary

unfoldable pub holds_fact : Option FactFile → CommittedAdd → Bool
holds_fact none c = false
holds_fact (some file) c = file.raw == c.expected_fact.raw

-- a glossary that is expected can be read
unfoldable pub can_read : Glossary → Option Glossary → Option Glossary → Bool
unfolding read_project_glossary
can_read global none file = true
can_read global (some _) file = is_ok (read_project_glossary global file)

-- Of the integrity test of the fact, that it is not revoked too.
unfoldable pub validate_committed_add : Glossary → Disk → CommittedAdd → Result (Unit {0})
unfolding agrees exists holds_fact same_glossary can_read lookup
validate_committed_add global d c =
    require
      (agrees d.pending_add c
        && holds_fact (lookup c.fact_id d.facts) c
        && not (exists c.fact_id d.revoked)
        && same_glossary d.glossary c.expected_glossary
        && can_read global c.expected_glossary d.glossary)
      "fact_graph_recovery_required: committed add state is not exact"

unfoldable pub is_snapshot_of : AbortedAdd → PreparedAdd → Bool
is_snapshot_of a p = (p.transaction_id == a.transaction_id) && (p.fact_id == a.fact_id)

-- `_recover_aborted_add_unlocked`
unfoldable pub aborted_steps : AbortedAdd → Option PreparedAdd → Result (List AddStep)
unfolding is_snapshot_of
aborted_steps a none = err "fact_graph_recovery_required: add rollback snapshot is unavailable"
aborted_steps a (some p) = do
  require (is_snapshot_of a p) "fact_graph_recovery_required: add rollback snapshot is unavailable"
  ok (unlink_commit ∷ restore_fact p ∷ restore_glossary p ∷ unlink_abort ∷ unlink_prepared ∷ [])

-- the end of `_rollback_pending_add_unlocked`
unfoldable pub prepared_steps : Option PreparedAdd → List AddStep
prepared_steps none = []
prepared_steps (some p) = restore_fact p ∷ restore_glossary p ∷ unlink_prepared ∷ []

-- The steps of `_rollback_pending_add_unlocked`.
unfoldable pub rollback_steps :
    Glossary → Disk → Option AbortedAdd → Option CommittedAdd → Result (List AddStep)
unfolding aborted_steps validate_committed_add prepared_steps
rollback_steps global d (some a) commit = aborted_steps a d.pending_add
rollback_steps global d none (some c) = do
  validate_committed_add global d c
  ok (unlink_prepared ∷ unlink_commit ∷ [])
rollback_steps global d none none = ok (prepared_steps d.pending_add)

unfoldable pub rollback_pending_add : Glossary → Disk → Result Disk
unfolding rollback_steps apply_all
rollback_pending_add global d =
    rollback_steps global d d.pending_add_abort d.pending_add_commit >>= λ steps.
    ok (apply_all steps d)

-- A fact that was verified: its id and its file.
pub record NewFact : Type 0 where
  pub fact_id : String
  pub file : FactFile

-- `len(predecessors) != len(set(predecessors))`
unfoldable pub has_duplicates : List String → Bool
unfolding contains
has_duplicates [] = false
has_duplicates (p ∷ ps) = contains p ps || has_duplicates ps

-- each predecessor is known and not revoked
unfoldable pub check_predecessors : List String → Disk → Result (Unit {0})
unfolding exists
check_predecessors [] d = ok tt
check_predecessors (p ∷ ps) d = do
  require (not (exists p d.revoked)) "predecessor_revoked"
  require (exists p d.facts) "predecessor_unknown"
  check_predecessors ps d

abbrev pub prepared : String → NewFact → Disk → Option Glossary → PreparedAdd
prepared transaction_id new d expected = record {
  transaction_id = transaction_id;
  fact_id = new.fact_id;
  previous_fact = lookup new.fact_id d.facts;
  previous_glossary = d.glossary;
  expected_fact = new.file;
  expected_glossary = expected;
}

abbrev pub committed : String → NewFact → Option Glossary → CommittedAdd
committed transaction_id new expected = record {
  transaction_id = transaction_id;
  fact_id = new.fact_id;
  expected_fact = new.file;
  expected_glossary = expected;
}

-- written after an error in the write of the commit marker, which may be visible
abbrev pub aborted : String → NewFact → AbortedAdd
aborted transaction_id new = record { transaction_id = transaction_id; fact_id = new.fact_id }

-- the glossary after the fact: unchanged if it introduces nothing
abbrev pub expected_glossary : Glossary → Glossary → Option Glossary → Option Glossary
expected_glossary [] merged before = before
expected_glossary (_ ∷ _) merged before = some (sorted_items merged)

abbrev pub glossary_step : Glossary → Glossary → List AddStep → List AddStep
glossary_step [] merged steps = steps
glossary_step (_ ∷ _) merged steps = write_project_glossary (sorted_items merged) ∷ steps

unfoldable pub add_steps : String → NewFact → Glossary → Disk → List AddStep
unfolding sorted_items lookup
add_steps transaction_id new merged d =
    let expected = expected_glossary new.file.glossary_introduces merged d.glossary in
    write_prepared (prepared transaction_id new d expected)
    ∷ write_fact new.fact_id new.file
    ∷ glossary_step new.file.glossary_introduces merged (
        write_commit (committed transaction_id new expected) ∷ unlink_prepared ∷ unlink_commit ∷ [])

-- The tests of `_add_unlocked` on the graph, and its steps; none for a fact that is active already.
unfoldable pub plan_add : Glossary → String → NewFact → Disk → Result (List AddStep)
unfolding has_duplicates check_predecessors exists prepare_glossary_merge add_steps
plan_add global transaction_id new d = do
  require (not (has_duplicates new.file.predecessors)) "duplicate predecessor fact_id"
  check_predecessors new.file.predecessors d
  require (not (exists new.fact_id d.revoked)) "fact_revoked"
  if exists new.fact_id d.facts
      then ok []
      else (prepare_glossary_merge global d.glossary new.file.glossary_introduces >>= λ merged.
          ok (add_steps transaction_id new merged d))

unfoldable pub add_unlocked : Glossary → String → NewFact → Disk → Result (String × Disk)
unfolding plan_add apply_all
add_unlocked global transaction_id new d =
    plan_add global transaction_id new d >>= λ steps. ok (new.fact_id, apply_all steps d)
