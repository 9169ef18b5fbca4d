-- ===== src/Core/Graph/Tests.antt =====
-- Concrete graphs of facts for danus/core/factgraph.py.
use danus.Base.{
  String, true, false, ◌≡◌, refl, Option, none, some, List, [], ◌∷◌, ◌==◌, take, arith, eq_iff,
  is_some, if◌then◌else◌,
}
use danus.Base.Assoc.{lookup, erase, put}
use danus.Base.Names.{contains}
use danus.Base.Result.{ok, ◌>>=◌, ◌>>◌, require, or_raise}
use danus.Core.Graph.Disk.{
  Glossary, FactFile, Directory, LogEntry, Disk, IsAtRest, exists, write, predecessors,
}
use danus.Core.Graph.Descendants.{
  targets, add_edges, reverse_edges, visit, scan, loop, descendants_unchecked,
}
use danus.Core.Graph.Descendants.Correct.{descendants_end, descendants-eq-some}
use danus.Core.Graph.Descendants.Edges.{Depends}
use danus.Core.Graph.Glossaries.{
  active_glossary_excluding, rebuild, merge_local, redefines, sorted_items, insert_item,
  prepare_glossary_merge, read_project_glossary, has_conflict, update,
}
use danus.Core.Graph.Revoke.{
  resume_pending_revocation, resume_steps, cascade, run, perform, move, add_entries,
  revoke_unlocked,
}
use danus.Core.Graph.Revoke.Resume
use danus.Core.Graph.Revoke.Resume.{revocation_survives_crashes}
use danus.Core.Graph.Revoke.Returns.{revoke_returns}
use danus.Core.Graph.Revoke.Effect.{IsClosed, HasRevoked, some_journal, revoke_takes_dependents}
use danus.Core.Graph.Add.{
  AddStep, NewFact, apply, apply_all, rollback_pending_add, check_predecessors, has_duplicates,
  add_steps, plan_add, add_unlocked, rollback_steps, prepared_steps,
}
use danus.Core.Graph.Add.Undone
use danus.Core.Graph.Add.Stages.{has_committed}
use danus.Core.Graph.Add.Plans.{steps_of}
use danus.Core.Graph.Add.Atomic.{abort, add_is_all_or_nothing, aborted_add_is_undone}
use danus.Core.Graph.Add.Effect.{add_takes_effect}
use danus.Core.Graph.Operations.{recover_pending_transactions, add}
use danus.Core.Graph.Operations.Sound.{IsSound}
use danus.Core.Graph.Operations.Crashes.{
  Reached, start, next, added, crashed_in_revoke, Reached-IsSound,
}

abbrev fact : String → List String → Glossary → FactFile
fact raw ps g = record { raw = raw; predecessors = ps; glossary_introduces = g }

-- `b` rests on `a`, `c` on `b`, and `d` on nothing.
abbrev four : Directory
four =
    ("a", fact "A" [] (("g", "group") ∷ []))
    ∷ ("b", fact "B" ("a" ∷ []) [])
    ∷ ("c", fact "C" ("b" ∷ []) (("h", "subgroup") ∷ []))
    ∷ ("d", fact "D" [] [])
    ∷ []

abbrev disk : Disk
disk = record {
  facts = four;
  revoked = [];
  glossary = some (("g", "group") ∷ ("h", "subgroup") ∷ []);
  pending_add = none;
  pending_add_commit = none;
  pending_add_abort = none;
  pending_revocation = none;
  revocation_log = [];
}

abbrev empty_disk : Disk
empty_disk = record disk { facts = []; glossary = none }

descendants_of_a : descendants_unchecked four "a" ≡ some ("b" ∷ "c" ∷ [])
unfolding descendants_unchecked loop scan visit targets reverse_edges add_edges predecessors lookup
    put contains
descendants_of_a = refl

descendants_end_example : (out : List String) × (descendants_unchecked four "a" ≡ some out)
descendants_end_example = descendants_end four "a"

descendants-eq-some_example :
    (contains "c" ("b" ∷ "c" ∷ []) ≡ true → ("a" == "c" ≡ false) × Depends four "a" "c")
    × ("a" == "c" ≡ false → Depends four "a" "c" → contains "c" ("b" ∷ "c" ∷ []) ≡ true)
descendants-eq-some_example = descendants-eq-some four "a" ("b" ∷ "c" ∷ []) descendants_of_a "c"

four-IsClosed : IsClosed four
unfolding exists predecessors lookup contains
four-IsClosed p x (active, names) = ground (
  arith,
  active,
  names,
  eq_iff "a" x,
  eq_iff "b" x,
  eq_iff "c" x,
  eq_iff "d" x,
  eq_iff "a" p,
  eq_iff "b" p,
)

-- the disk after the revocation of `b`
abbrev entry_of : String → Option String → LogEntry
entry_of id root = record {
  timestamp_utc = "t";
  fact_id = id;
  reason = "wrong";
  revoked_as_dependent_of = root;
  revocation_id = "r";
}

abbrev revoked_disk : Disk
revoked_disk = record disk {
  facts = ("a", fact "A" [] (("g", "group") ∷ [])) ∷ ("d", fact "D" [] []) ∷ [];
  revoked =
      ("b", fact "B" ("a" ∷ []) []) ∷ ("c", fact "C" ("b" ∷ []) (("h", "subgroup") ∷ [])) ∷ [];
  glossary = some (("g", "group") ∷ []);
  revocation_log = entry_of "b" none ∷ entry_of "c" (some "b") ∷ [];
}

abbrev journalled_disk : Disk
journalled_disk = some_journal "r" "t" "b" "wrong" ("b" ∷ "c" ∷ []) disk

resumed_b : resume_pending_revocation journalled_disk ≡ ok revoked_disk
unfolding resume_pending_revocation resume_steps active_glossary_excluding rebuild merge_local
    redefines sorted_items insert_item cascade run perform move add_entries exists lookup put erase
    write contains ◌>>=◌ ◌>>◌ require or_raise
resumed_b = refl

revoked_b : revoke_unlocked "r" "t" "b" "wrong" disk ≡ ok ("b" ∷ "c" ∷ [], revoked_disk)
unfolding revoke_unlocked descendants_unchecked loop scan visit targets reverse_edges add_edges
    predecessors resume_pending_revocation resume_steps active_glossary_excluding rebuild
    merge_local redefines sorted_items insert_item cascade run perform move add_entries exists
    lookup put erase write contains ◌>>=◌ ◌>>◌ require or_raise
revoked_b = refl

-- The process has ended after two steps, and its recovery after three.
abbrev crashed_disk : Disk
crashed_disk = record revoked_disk {
  pending_revocation = journalled_disk.pending_revocation;
  revocation_log = [];
}

crashed_b : Resume.interrupt_all (2 ∷ 3 ∷ []) journalled_disk ≡ ok crashed_disk
unfolding Resume.interrupt_all Resume.interrupt resume_steps active_glossary_excluding rebuild
    merge_local redefines sorted_items insert_item cascade run perform move add_entries exists
    lookup put erase write contains ◌>>=◌ ◌>>◌ require or_raise
crashed_b = refl

revocation_survives_crashes_example : resume_pending_revocation crashed_disk ≡ ok revoked_disk
revocation_survives_crashes_example =
    revocation_survives_crashes (2 ∷ 3 ∷ []) journalled_disk crashed_disk revoked_disk resumed_b
      crashed_b

active_b : exists "b" four ≡ true
unfolding exists lookup
active_b = refl

revoke_takes_dependents_example :
    HasRevoked ("b" ∷ "c" ∷ []) disk revoked_disk
    × ((x : String)
        → (contains x ("b" ∷ "c" ∷ []) ≡ true → Depends four "b" x)
          × (Depends four "b" x → contains x ("b" ∷ "c" ∷ []) ≡ true))
revoke_takes_dependents_example =
    revoke_takes_dependents "r" "t" "b" "wrong" disk revoked_disk ("b" ∷ "c" ∷ []) active_b
      revoked_b

-- A fact that rests on `a` and introduces a symbol.
abbrev new_fact : NewFact
new_fact = record { fact_id = "e"; file = fact "E" ("a" ∷ []) (("k", "kernel") ∷ []) }

abbrev merged : Glossary
merged = ("g", "group") ∷ ("h", "subgroup") ∷ ("k", "kernel") ∷ []

abbrev steps_e : List AddStep
steps_e = steps_of "t" new_fact (("k", "kernel") ∷ []) merged disk

planned_e : plan_add [] "t" new_fact disk ≡ ok steps_e
unfolding plan_add add_steps has_duplicates contains check_predecessors exists lookup
    prepare_glossary_merge read_project_glossary has_conflict redefines update put sorted_items
    insert_item ◌>>=◌ ◌>>◌ require
planned_e = refl

add_is_all_or_nothing_example :
    Undone.interrupt_all [] (1 ∷ 0 ∷ []) (apply_all (take 4 steps_e) disk)
      >>= rollback_pending_add []
    ≡ ok (if has_committed (take 4 steps_e) then apply_all steps_e disk else disk)
add_is_all_or_nothing_example =
    add_is_all_or_nothing [] "t" new_fact disk steps_e 4 (1 ∷ 0 ∷ []) (refl, refl, refl) planned_e

journal_e : is_some (apply_all (take 4 steps_e) disk).pending_add ≡ true
unfolding apply_all apply
journal_e = refl

aborted_add_is_undone_example :
    Undone.interrupt_all [] (2 ∷ 1 ∷ []) (abort "t" new_fact (apply_all (take 4 steps_e) disk))
      >>= rollback_pending_add []
    ≡ ok disk
aborted_add_is_undone_example =
    aborted_add_is_undone [] "t" new_fact disk steps_e 4 (2 ∷ 1 ∷ []) (refl, refl, refl) planned_e
      journal_e

add_takes_effect_example :
    (exists "e" (apply_all steps_e disk).facts ≡ true)
    × (exists "e" disk.facts ≡ true → apply_all steps_e disk ≡ disk)
    × ((x : String)
        → exists "e" disk.facts ≡ false
        → lookup x (apply_all steps_e disk).facts
          ≡ (if "e" == x then some new_fact.file else lookup x disk.facts))
    × ((apply_all steps_e disk).revoked ≡ [])
    × IsAtRest (apply_all steps_e disk)
    × ((p : String)
        → contains p ("a" ∷ []) ≡ true
        → (exists p disk.facts ≡ true) × (exists p disk.revoked ≡ false))
add_takes_effect_example =
    add_takes_effect [] "t" new_fact disk steps_e (refl, refl, refl) planned_e

disk-IsSound : IsSound disk
unfolding exists lookup
disk-IsSound = record {
  closed = four-IsClosed;
  separate = λ x a. refl;
  at_rest = (refl, refl, refl);
  over = refl;
}

recovered_b : recover_pending_transactions [] crashed_disk ≡ ok revoked_disk
unfolding recover_pending_transactions rollback_pending_add rollback_steps prepared_steps apply_all
    resume_pending_revocation resume_steps active_glossary_excluding rebuild merge_local redefines
    sorted_items insert_item cascade run perform move add_entries exists lookup put erase write
    contains ◌>>=◌ ◌>>◌ require or_raise
recovered_b = refl

abbrev last_disk : Disk
last_disk =
    apply_all
      (steps_of "t" new_fact (("k", "kernel") ∷ []) (("g", "group") ∷ ("k", "kernel") ∷ [])
        revoked_disk)
      revoked_disk

added_e : add [] "t" new_fact revoked_disk ≡ ok ("e", last_disk)
unfolding add recover_pending_transactions rollback_pending_add rollback_steps prepared_steps
    resume_pending_revocation resume_steps run add_unlocked plan_add add_steps has_duplicates
    contains check_predecessors exists lookup prepare_glossary_merge read_project_glossary
    has_conflict redefines update put sorted_items insert_item apply_all ◌>>=◌ ◌>>◌ require
added_e = refl

-- The process ends within the revocation of `b` and within its recovery; then `e` is added.
last_is_reached : Reached [] disk last_disk
last_is_reached =
    next
      (next start (
        crashed_in_revoke "r" "t" "b" "wrong" ("b" ∷ "c" ∷ []) (2 ∷ 3 ∷ []) active_b revoked_b
          crashed_b recovered_b))
      (added "t" new_fact "e" added_e)

Reached-IsSound_example : IsSound last_disk
Reached-IsSound_example = Reached-IsSound [] disk last_disk disk-IsSound last_is_reached

descendants_of_b : descendants_unchecked four "b" ≡ some ("c" ∷ [])
unfolding descendants_unchecked loop scan visit targets reverse_edges add_edges predecessors lookup
    put contains
descendants_of_b = refl

rebuilt_b : active_glossary_excluding ("b" ∷ "c" ∷ []) four [] ≡ ok (("g", "group") ∷ [])
unfolding active_glossary_excluding rebuild merge_local redefines sorted_items insert_item exists
    lookup put contains ◌>>=◌ ◌>>◌ require or_raise
rebuilt_b = refl

revoke_returns_example :
    (e : Disk) × (revoke_unlocked "r" "t" "b" "wrong" disk ≡ ok ("b" ∷ "c" ∷ [], e))
revoke_returns_example =
    revoke_returns "r" "t" "b" "wrong" disk ("c" ∷ []) (("g", "group") ∷ []) disk-IsSound.separate
      active_b descendants_of_b rebuilt_b
