-- ===== src/Core/Graph/Glossaries.antt =====
-- danus/core/factgraph.py: the project's glossary, and how it is rebuilt from the active facts.
-- `global` is the glossary of all projects, a file that is read.
pub mod Merge
use Prim.Native.String.{compare}
use text.Mathlib.Text.{is_le}
use danus.Base.{
  String, Bool, true, false, not, ◌&&◌, ◌||◌, Option, none, some, List, [], ◌∷◌, ◌==◌,
  if◌then◌else◌, is_some,
}
use danus.Base.Assoc.{lookup, put}
use danus.Base.Names.{contains}
use danus.Base.Result.{Result, ok, err, ◌>>=◌, ◌>>◌, require, or_raise}
use danus.Core.Graph.Disk.{Glossary, Directory, exists, names}

-- sorted(d.items()): the keys are distinct
unfoldable pub insert_item : String → String → Glossary → Glossary
insert_item k v [] = (k, v) ∷ []
insert_item k v ((j, w) ∷ m) =
    if is_le (compare k j) then (k, v) ∷ (j, w) ∷ m else (j, w) ∷ insert_item k v m

unfoldable pub sorted_items : Glossary → Glossary
unfolding insert_item
sorted_items [] = []
sorted_items ((k, v) ∷ m) = insert_item k v (sorted_items m)

-- `term in current and current[term] != definition`
unfoldable pub redefines : String → String → Glossary → Bool
unfolding lookup
redefines term definition current = elim (lookup term current) [
  | none ↦ false
  | some known ↦ not (known == definition)
]

-- `bool(_glossary_conflicts_against(current, new))`
unfoldable pub has_conflict : Glossary → Glossary → Glossary → Bool
unfolding redefines
has_conflict global current [] = false
has_conflict global current ((term, definition) ∷ new) =
    redefines term definition current
    || redefines term definition global
    || has_conflict global current new

-- `_read_project_glossary(strict=True)`
unfoldable pub read_project_glossary : Glossary → Option Glossary → Result Glossary
unfolding has_conflict
read_project_glossary global none = ok []
read_project_glossary global (some loaded) = do
  require (not (has_conflict global [] loaded))
      "glossary_integrity_error: project glossary conflicts with global terms"
  ok loaded

-- merged.update(new)
unfoldable pub update : Glossary → Glossary → Glossary
unfolding put
update merged [] = merged
update merged ((term, definition) ∷ new) = update (put term definition merged) new

unfoldable pub prepare_glossary_merge : Glossary → Option Glossary → Glossary → Result Glossary
unfolding read_project_glossary has_conflict update
prepare_glossary_merge global file new = do
  current ← read_project_glossary global file
  require (not (has_conflict global current new))
      "glossary_conflict: refusing to redefine project terms"
  ok (update current new)

-- the inner loop of `_active_glossary_excluding`
unfoldable pub merge_local : Glossary → Glossary → Result Glossary
unfolding redefines put
merge_local [] rebuilt = ok rebuilt
merge_local ((term, definition) ∷ local) rebuilt = do
  require (not (redefines term definition rebuilt))
      "glossary_integrity_error: conflicting active definitions"
  merge_local local (put term definition rebuilt)

-- The outer loop. Of the integrity test of a file, that it is not revoked too.
unfoldable pub rebuild :
    List String → Directory → Directory → List String → Glossary → Result Glossary
unfolding contains lookup exists merge_local sorted_items
rebuild excluded facts revoked [] rebuilt = ok rebuilt
rebuild excluded facts revoked (id ∷ ids) rebuilt =
    if contains id excluded
    then rebuild excluded facts revoked ids rebuilt
    else (or_raise (lookup id facts) "fact_integrity_error: missing active fact" >>= λ file.
        (require (not (exists id revoked))
            "fact_integrity_error: exists in both active and revoked stores"
          >> (merge_local (sorted_items file.glossary_introduces) rebuilt >>= λ more.
              rebuild excluded facts revoked ids more)))

unfoldable pub active_glossary_excluding : List String → Directory → Directory → Result Glossary
unfolding rebuild
active_glossary_excluding excluded facts revoked = rebuild excluded facts revoked (names facts) []
