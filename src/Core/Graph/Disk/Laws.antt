-- ===== src/Core/Graph/Disk/Laws.antt =====
-- danus/core/factgraph.py: the laws of a directory.
use danus.Base.{
  String, true, false, ◌≡◌, refl, none, some, [], ◌∷◌, ◌==◌, eq_iff, eq_refl, if◌then◌else◌, arith,
}
use danus.Base.Assoc.{lookup, erase, lookup-erase, erase_absent}
use danus.Core.Graph.Disk.{FactFile, Directory, write, exists}

pub lookup-write :
    (k j : String) (f : FactFile) (files : Directory)
    → lookup j (write k f files) ≡ (if k == j then some f else lookup j files)
unfolding lookup write
lookup-write k j f [] = refl
lookup-write k j f ((i, g) ∷ files) =
    ground (arith, eq_iff k j, eq_iff i k, eq_iff i j, lookup-write k j f files)

pub exists-write :
    (k j : String) (f : FactFile) (files : Directory)
    → exists j (write k f files) ≡ (if k == j then true else exists j files)
unfolding exists
exists-write k j f files = ground (arith, lookup-write k j f files)

pub exists-erase :
    (k j : String) (files : Directory)
    → exists j (erase k files) ≡ (if k == j then false else exists j files)
unfolding exists
exists-erase k j files = ground (arith, lookup-erase k j files)

-- A file that is new is gone again after it is unlinked.
pub erase-write :
    (k : String) (f : FactFile) (files : Directory)
    → lookup k files ≡ none
    → erase k (write k f files) ≡ files
unfolding lookup write erase
erase-write k f [] h = ground (arith, eq_refl k)
erase-write k f ((i, g) ∷ files) h =
    ground (arith, h, eq_iff i k, eq_refl k, erase-write k f files, erase_absent k files)

pub lookup_absent :
    (id : String) (files : Directory) → exists id files ≡ false → lookup id files ≡ none
unfolding exists
lookup_absent id files h = ground (arith, h)
