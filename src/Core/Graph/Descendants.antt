-- ===== src/Core/Graph/Descendants.antt =====
-- danus/core/factgraph.py: `_descendants_unchecked`, the facts that depend on a fact.
pub mod Edges
mod Rounds
pub mod Correct
use danus.Base.{
  ℕ, zero, suc, ◌+◌, String, Bool, true, false, Option, none, some, List, [], ◌∷◌, ◌++◌, length,
  if◌then◌else◌,
}
use danus.Base.Assoc.{lookup, put}
use danus.Base.Names.{contains}
use danus.Core.Graph.Disk.{Directory, names, predecessors}

abbrev pub Edges : Type 0
Edges = List (String × List String)

-- reverse_edges.get(cur, [])
unfoldable pub targets : String → Edges → List String
unfolding lookup
targets cur edges = elim (lookup cur edges) [ none ↦ [] | some ids ↦ ids ]

-- reverse_edges.setdefault(predecessor_id, []).append(active_id), for each predecessor
unfoldable pub add_edges : String → List String → Edges → Edges
unfolding targets put
add_edges id [] edges = edges
add_edges id (p ∷ ps) edges = add_edges id ps (put p (targets p edges ++ id ∷ []) edges)

unfoldable pub reverse_edges : Directory → List String → Edges → Edges
unfolding add_edges predecessors
reverse_edges files [] edges = edges
reverse_edges files (id ∷ ids) edges =
    reverse_edges files ids (add_edges id (predecessors id files) edges)

-- The top of the stack is the head of `frontier`.
pub record Search : Type 0 where
  pub out : List String
  pub seen : List String
  pub frontier : List String

-- the body of the `for`, and the `for`
unfoldable pub visit : String → Search → Search
unfolding contains
visit fid s =
    if contains fid s.seen
    then s
    else record { out = s.out ++ fid ∷ []; seen = fid ∷ s.seen; frontier = fid ∷ s.frontier }

unfoldable pub scan : List String → Search → Search
unfolding visit
scan [] s = s
scan (fid ∷ fids) s = scan fids (visit fid s)

-- The `while`; `none` if it has not ended within the fuel.
unfoldable pub loop : ℕ → Edges → Search → Option (List String)
unfolding targets scan
loop zero edges s = none
loop (suc fuel) edges s = elim s.frontier [
  | [] ↦ some s.out
  | cur ∷ rest ↦ loop fuel edges (scan (targets cur edges) (record s { frontier = rest }))
]

abbrev pub start : String → Search
start fact_id = record { out = []; seen = fact_id ∷ []; frontier = fact_id ∷ [] }

-- A round takes one id from the stack, and each fact enters it once at most.
unfoldable pub descendants_unchecked : Directory → String → Option (List String)
unfolding reverse_edges loop
descendants_unchecked files fact_id =
    loop (length files + 2) (reverse_edges files (names files) []) (start fact_id)
