-- ===== src/Core/Graph/Glossaries/Merge.antt =====
-- danus/core/factgraph.py: what a merge of glossaries keeps.
use danus.Base.{String, true, false, not, ◌||◌, ◌≡◌, refl, Option, none, some, [], ◌∷◌, arith, ◌∙◌}
use danus.Base.Assoc.{lookup, put}
use danus.Base.Result.{ok, is_ok, ◌>>=◌, ◌>>◌, require, Holds, Holds-ok, Holds-bind, Holds-require}
use danus.Core.Graph.Disk.{Glossary}
use danus.Core.Graph.Glossaries.{
  redefines, has_conflict, read_project_glossary, update, insert_item, sorted_items,
  prepare_glossary_merge,
}

conflict-any :
    (global current new : Glossary)
    → has_conflict global current new ≡ false
    → has_conflict global [] new ≡ false
unfolding has_conflict redefines lookup
conflict-any global current [] h = refl
conflict-any global current ((term, definition) ∷ new) h =
    ground (arith, h, conflict-any global current new)

conflict-put :
    (global m : Glossary) (k v : String)
    → has_conflict global [] m ≡ false
    → redefines k v global ≡ false
    → has_conflict global [] (put k v m) ≡ false
unfolding has_conflict put redefines lookup
conflict-put global [] k v h n = ground (arith, n)
conflict-put global ((j, w) ∷ m) k v h n = ground (arith, h, n, conflict-put global m k v)

conflict-update :
    (global m new : Glossary)
    → has_conflict global [] m ≡ false
    → has_conflict global [] new ≡ false
    → has_conflict global [] (update m new) ≡ false
unfolding update has_conflict redefines lookup
conflict-update global m [] h n = h
conflict-update global m ((k, v) ∷ new) h n =
    conflict-update global (put k v m) new (conflict-put global m k v h (ground (arith, n)))
      (ground (arith, n))

conflict-insert :
    (global m : Glossary) (k v : String)
    → has_conflict global [] (insert_item k v m) ≡ redefines k v global || has_conflict global [] m
unfolding has_conflict insert_item redefines lookup
conflict-insert global [] k v = refl
conflict-insert global ((j, w) ∷ m) k v = ground (arith, conflict-insert global m k v)

conflict-sorted :
    (global m : Glossary) → has_conflict global [] (sorted_items m) ≡ has_conflict global [] m
unfolding sorted_items has_conflict redefines lookup
conflict-sorted global [] = refl
conflict-sorted global ((k, v) ∷ m) =
    ground (arith, conflict-insert global (sorted_items m) k v, conflict-sorted global m)

reads :
    (global m : Glossary)
    → has_conflict global [] m ≡ false
    → read_project_glossary global (some m) ≡ ok m
unfolding read_project_glossary ◌>>◌ require
reads global m h = rw h refl

read_lem :
    (global : Glossary) (file : Option Glossary)
    → Holds (λ m. has_conflict global [] m ≡ false) (read_project_glossary global file)
unfolding read_project_glossary has_conflict
read_lem global none = Holds-ok refl
read_lem global (some m) =
    Holds-require (not (has_conflict global [] m)) _ (λ h. Holds-ok (ground (arith, h)))

merge_lem :
    (global : Glossary) (file : Option Glossary) (new : Glossary)
    → Holds
        (λ merged. has_conflict global [] merged ≡ false)
        (prepare_glossary_merge global file new)
unfolding prepare_glossary_merge
merge_lem global file new = Holds-bind (read_project_glossary global file) (λ m h.
    Holds-require (not (has_conflict global m new)) _ (λ c. Holds-ok (
      conflict-update global m new ((read_lem global file).at m h)
        (conflict-any global m new (ground (arith, c))))))

-- A merged glossary passes the conflict test that reading makes.
pub prepare_glossary_merge-readable :
    (global : Glossary) (file : Option Glossary) (new merged : Glossary)
    → prepare_glossary_merge global file new ≡ ok merged
    → read_project_glossary global (some (sorted_items merged)) ≡ ok (sorted_items merged)
prepare_glossary_merge-readable global file new merged h =
    reads global (sorted_items merged)
      (conflict-sorted global merged ∙ (merge_lem global file new).at merged h)

-- What is merged with could be read.
pub merge_reads :
    (global : Glossary) (file : Option Glossary) (new merged : Glossary)
    → prepare_glossary_merge global file new ≡ ok merged
    → is_ok (read_project_glossary global file) ≡ true
unfolding prepare_glossary_merge ◌>>=◌
merge_reads global file new merged h = ground (arith, h)
