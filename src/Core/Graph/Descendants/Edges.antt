-- ===== src/Core/Graph/Descendants/Edges.antt =====
-- danus/core/factgraph.py: what depends on a fact, and the edges that the search reads.
use danus.Base.{
  String, true, false, ◌&&◌, ◌||◌, ◌≡◌, refl, List, [], ◌∷◌, ◌++◌, length, arith, ◌==◌, eq_iff,
  if◌then◌else◌,
}
use danus.Base.Assoc.{lookup, put, lookup-put}
use danus.Base.Names.{contains, contains-append}
use danus.Core.Graph.Disk.{Directory, names, predecessors, exists}
use danus.Core.Graph.Descendants.{Edges, targets, add_edges, reverse_edges}

-- `fid` names `p` among its predecessors.
abbrev pub DependsDirectly : Directory → String → String → Type 0
DependsDirectly files fid p =
    (exists fid files ≡ true) × (contains p (predecessors fid files) ≡ true)

-- What depends on `root`, over any number of steps.
pub data Depends (files : Directory) (root : String) : String → Type 0 where
  here : Depends files root root
  step :
      {p fid : String} → Depends files root p → DependsDirectly files fid p → Depends files root fid

targets-put :
    (p q id : String) (edges : Edges) (ids : List String)
    → contains id (targets q (put p ids edges))
      ≡ (if p == q then contains id ids else contains id (targets q edges))
unfolding targets
targets-put p q id edges ids = ground (arith, lookup-put p q ids edges)

targets-add_edges :
    (p id fid : String) (ps : List String) (edges : Edges)
    → contains fid (targets p (add_edges id ps edges))
      ≡ contains fid (targets p edges) || ((id == fid) && contains p ps)
unfolding add_edges contains
targets-add_edges p id fid [] edges = ground arith
targets-add_edges p id fid (q ∷ ps) edges = ground (
  arith,
  targets-add_edges p id fid ps (put q (targets q edges ++ id ∷ []) edges),
  eq_iff q p,
  targets-put q p fid edges (targets q edges ++ id ∷ []),
  contains-append fid (targets q edges) (id ∷ []),
)

targets-reverse_edges :
    (files : Directory) (p fid : String) (ids : List String) (edges : Edges)
    → contains fid (targets p (reverse_edges files ids edges))
      ≡ contains fid (targets p edges) || (contains fid ids && contains p (predecessors fid files))
unfolding reverse_edges contains
targets-reverse_edges files p fid [] edges = ground arith
targets-reverse_edges files p fid (id ∷ ids) edges = ground (
  arith,
  targets-reverse_edges files p fid ids (add_edges id (predecessors id files) edges),
  targets-add_edges p id fid (predecessors id files) edges,
  eq_iff id fid,
)

pub contains-names :
    (fid : String) (files : Directory) → contains fid (names files) ≡ exists fid files
unfolding contains exists lookup
contains-names fid [] = refl
contains-names fid ((k, f) ∷ files) = ground (arith, contains-names fid files)

pub length-names : (files : Directory) → length (names files) ≡ length files
length-names [] = refl
length-names (f ∷ files) = omega (arith, length-names files)

-- The edges say who names whom.
abbrev pub edges_of : Directory → Edges
edges_of files = reverse_edges files (names files) []

no_targets : (p fid : String) → contains fid (targets p []) ≡ false
unfolding targets lookup contains
no_targets p fid = refl

pub targets-edges_of :
    (files : Directory) (p fid : String)
    → contains fid (targets p (edges_of files))
      ≡ exists fid files && contains p (predecessors fid files)
targets-edges_of files p fid = ground (
  arith,
  targets-reverse_edges files p fid (names files) [],
  contains-names fid files,
  no_targets p fid,
)
