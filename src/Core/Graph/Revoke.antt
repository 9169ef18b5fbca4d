-- ===== src/Core/Graph/Revoke.antt =====
-- danus/core/factgraph.py: the revocation of a fact with all that depends on it, as steps on the
-- disk. A process can end between any two of them.
mod Steps
mod Replay
mod Rebuilt
pub mod Markers
pub mod Resume
pub mod Effect
pub mod Returns
use danus.Base.{
  ℕ, String, Bool, true, false, not, ◌&&◌, Option, none, some, List, [], ◌∷◌, ◌++◌, ◌==◌,
  if◌then◌else◌, is_some, map,
}
use danus.Base.Assoc.{lookup, erase}
use danus.Base.Names.{contains}
use danus.Base.Result.{Result, ok, err, ◌>>=◌, ◌>>◌, require, or_raise}
use danus.Core.Graph.Disk.{
  Glossary, FactFile, Directory, LogEntry, PendingRevocation, Disk, exists, write,
}
use danus.Core.Graph.Descendants.{descendants_unchecked}
use danus.Core.Graph.Glossaries.{active_glossary_excluding, sorted_items}

pub data Step : Type 0 where
  write_pending_revocation : PendingRevocation → Step
  write_glossary : Glossary → Step
  move_fact : String → Step
  write_log : PendingRevocation → Step
  unlink_pending_revocation : Step

-- the ids that the log names
abbrev pub logged_ids : List LogEntry → List String
logged_ids log = map (λ e. e.fact_id) log

abbrev pub entry : PendingRevocation → String → LogEntry
entry p id = record {
  timestamp_utc = p.timestamp_utc;
  fact_id = id;
  reason = p.reason;
  revoked_as_dependent_of = if id == p.root_fact_id then none else some p.root_fact_id;
  revocation_id = p.revocation_id;
}

-- the loop of `_write_revocation_log_atomic`
unfoldable pub add_entries : PendingRevocation → List String → List LogEntry → List LogEntry
unfolding contains
add_entries p [] log = log
add_entries p (id ∷ ids) log =
    add_entries p ids (if contains id (logged_ids log) then log else log ++ entry p id ∷ [])

-- the body of the loop over the journalled ids
unfoldable pub move : String → Option FactFile → Bool → Disk → Result Disk
unfolding erase write
move id (some file) true d = err "fact_integrity_error: exists in active and revoked stores"
move id (some file) false d =
    ok (record d { facts = erase id d.facts; revoked = write id file d.revoked })
move id none true d = ok d
move id none false d = err "fact_graph_recovery_error: pending fact disappeared"

unfoldable pub perform : Step → Disk → Result Disk
unfolding move lookup exists add_entries
perform (write_pending_revocation p) d = ok (record d { pending_revocation = some p })
perform (write_glossary g) d = ok (record d { glossary = some g })
perform (move_fact id) d = move id (lookup id d.facts) (exists id d.revoked) d
perform (write_log p) d =
    ok (record d { revocation_log = add_entries p p.fact_ids d.revocation_log })
perform unlink_pending_revocation d = ok (record d { pending_revocation = none })

unfoldable pub run : List Step → Disk → Result Disk
unfolding perform
run [] d = ok d
run (s ∷ steps) d = perform s d >>= run steps

-- the steps of a revocation, from the rebuilt glossary on
unfoldable pub cascade : PendingRevocation → Glossary → List Step
cascade p g =
    write_glossary g ∷ map move_fact p.fact_ids ++ write_log p ∷ unlink_pending_revocation ∷ []

-- The steps of `_resume_pending_revocation_unlocked`.
unfoldable pub resume_steps : Disk → Option PendingRevocation → Result (List Step)
unfolding active_glossary_excluding sorted_items cascade
resume_steps d none = ok []
resume_steps d (some p) = do
  g ← active_glossary_excluding p.fact_ids d.facts d.revoked
  ok (cascade p (sorted_items g))

unfoldable pub resume_pending_revocation : Disk → Result Disk
unfolding resume_steps run
resume_pending_revocation d = resume_steps d d.pending_revocation >>= λ steps. run steps d

-- `[entry for entry in entries if …]`
unfoldable pub entries_where : (LogEntry → Bool) → List LogEntry → List LogEntry
entries_where test [] = []
entries_where test (e ∷ es) = let rest = entries_where test es in if test e then e ∷ rest else rest

-- root_entries[-1]
unfoldable pub last : List LogEntry → Option LogEntry
last [] = none
last (e ∷ []) = some e
last (e ∷ f ∷ es) = last (f ∷ es)

unfoldable pub completed_revocation_ids : List LogEntry → String → List String
unfolding entries_where last
completed_revocation_ids log fact_id =
    elim (last (
      entries_where (λ e. (e.fact_id == fact_id) && not (is_some e.revoked_as_dependent_of)) log)) [
        | none ↦ []
        | some root ↦ logged_ids (entries_where (λ e. e.revocation_id == root.revocation_id) log)
      ]

-- what `_revoke_unlocked` returns for a fact that is not active
unfoldable pub repeat : List String → Result (List String)
repeat [] = err "unknown fact_id"
repeat (id ∷ ids) = ok (id ∷ ids)

abbrev pub journal : String → String → String → String → List String → PendingRevocation
journal revocation_id timestamp fact_id reason ids = record {
  revocation_id = revocation_id;
  timestamp_utc = timestamp;
  root_fact_id = fact_id;
  reason = reason;
  fact_ids = ids;
}

-- The uuid and the time are arguments.
unfoldable pub revoke_unlocked :
    String → String → String → String → Disk → Result (List String × Disk)
unfolding exists descendants_unchecked resume_pending_revocation completed_revocation_ids repeat
revoke_unlocked revocation_id timestamp fact_id reason d =
    if exists fact_id d.facts
    then (or_raise (descendants_unchecked d.facts fact_id) "" >>= λ out.
        (resume_pending_revocation (record d {
          pending_revocation =
              some (journal revocation_id timestamp fact_id reason (fact_id ∷ out));
        })
          >>= λ e. ok (fact_id ∷ out, e)))
    else if exists fact_id d.revoked
    then (repeat (completed_revocation_ids d.revocation_log fact_id) >>= λ ids. ok (ids, d))
    else err "unknown fact_id"
