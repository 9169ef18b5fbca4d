-- ===== src/Core/Graph/Descendants/Rounds.antt =====
-- danus/core/factgraph.py: the rounds of the search, and how many are left.
use danus.Base.{
  ℕ, zero, suc, ◌+◌, ◌≤◌, ◌<◌, String, true, false, not, ◌&&◌, ◌||◌, ◌≡◌, inl, inr, some, List, [],
  ◌∷◌, length, count_p, arith, eq_iff, eq_refl, List-cases, ap,
}
use danus.Base.Names.{contains, contains-append}
use danus.Core.Graph.Disk.{Directory, names}
use danus.Core.Graph.Descendants.{Edges, targets, Search, visit, scan, loop}
use danus.Core.Graph.Descendants.Edges.{contains-names, edges_of, targets-edges_of}

-- What a round does to the marks, to the stack and to the result.
pub seen-scan :
    (x : String) (fids : List String) (s : Search)
    → contains x (scan fids s).seen ≡ contains x s.seen || contains x fids
unfolding scan visit contains
seen-scan x [] s = ground arith
seen-scan x (fid ∷ fids) s = ground (arith, seen-scan x fids (visit fid s), eq_iff fid x)

pub frontier-scan :
    (x : String) (fids : List String) (s : Search)
    → contains x (scan fids s).frontier
      ≡ contains x s.frontier || (contains x fids && not (contains x s.seen))
unfolding scan visit contains
frontier-scan x [] s = ground arith
frontier-scan x (fid ∷ fids) s = ground (arith, frontier-scan x fids (visit fid s), eq_iff fid x)

pub out-scan :
    (x : String) (fids : List String) (s : Search)
    → contains x (scan fids s).out
      ≡ contains x s.out || (contains x fids && not (contains x s.seen))
unfolding scan visit contains
out-scan x [] s = ground arith
out-scan x (fid ∷ fids) s =
    ground (arith, out-scan x fids (visit fid s), eq_iff fid x, contains-append x s.out (fid ∷ []))

-- How many of the ids are not marked yet.
abbrev unseen : List String → List String → ℕ
unseen ids seen = count_p (λ x. not (contains x seen)) ids

unseen-cons-le : (fid : String) (ids seen : List String) → unseen ids (fid ∷ seen) ≤ unseen ids seen
unfolding contains
unseen-cons-le fid [] seen = omega arith
unseen-cons-le fid (x ∷ ids) seen = ground (arith, unseen-cons-le fid ids seen)

unseen-cons-lt :
    (fid : String) (ids seen : List String)
    → contains fid ids ≡ true
    → contains fid seen ≡ false
    → unseen ids (fid ∷ seen) + 1 ≤ unseen ids seen
unfolding contains
unseen-cons-lt fid [] seen h k = cc
unseen-cons-lt fid (x ∷ ids) seen h k = ground (
  arith,
  h,
  k,
  unseen-cons-lt fid ids seen,
  unseen-cons-le fid ids seen,
  eq_iff fid x,
  eq_iff x fid,
)

-- The rounds that are left at most.
abbrev work : List String → Search → ℕ
work ids s = unseen ids s.seen + length s.frontier

contains-head : (x : String) (xs : List String) → contains x (x ∷ xs) ≡ true
unfolding contains
contains-head x xs = ground (arith, eq_refl x)

contains-tail :
    (x y : String) (xs : List String) → contains x xs ≡ true → contains x (y ∷ xs) ≡ true
unfolding contains
contains-tail x y xs e = ground (arith, e)

work-scan :
    (ids fids : List String) (s : Search)
    → ((x : String) → contains x fids ≡ true → contains x ids ≡ true)
    → work ids (scan fids s) ≤ work ids s
unfolding scan visit
work-scan ids [] s h = omega arith
work-scan ids (fid ∷ fids) s h = ground (
  arith,
  work-scan ids fids (visit fid s) (λ x e. h x (contains-tail x fid fids e)),
  unseen-cons-lt fid ids s.seen (h fid (contains-head fid fids)),
)

module _ (edges : Edges) (ids : List String)
    (inside : (p x : String) → contains x (targets p edges) ≡ true → contains x ids ≡ true) where
  pub loop_ends :
      (fuel : ℕ) (s : Search)
      → work ids s < fuel
      → (out : List String) × (loop fuel edges s ≡ some out)
  unfolding loop
  loop_ends zero s h = absurd (omega arith)
  loop_ends (suc fuel) s h = elim (List-cases s.frontier) [
    | inl e ↦ (s.out, rw e)
    | inr (cur, rest, e) ↦
        let next = scan (targets cur edges) (record s { frontier = rest }) in
        let (out, ends) = loop_ends fuel next (
          omega (
            arith,
            work-scan ids (targets cur edges) (record s { frontier = rest }) (inside cur),
            ap length e,
            h,
          )) in
        (out, rw e ends)
  ]

-- An invariant of the rounds holds at the end, where the stack is empty.
pub loop_rule {ℓ} :
    (edges : Edges) (P : Search → Type ℓ)
    → ((s : Search) (cur : String) (rest : List String)
        → s.frontier ≡ cur ∷ rest
        → P s
        → P (scan (targets cur edges) (record s { frontier = rest })))
    → (fuel : ℕ) (s : Search) (out : List String) → P s
    → loop fuel edges s ≡ some out
    → (t : Search) × P t × (t.frontier ≡ []) × (t.out ≡ out)
unfolding loop
loop_rule edges P keep zero s out p h = cc
loop_rule edges P keep (suc fuel) s out p h = elim (List-cases s.frontier) [
  | inl e ↦ (s, p, e, ground (arith, h, e))
  | inr (cur, rest, e) ↦
      loop_rule edges P keep fuel (scan (targets cur edges) (record s { frontier = rest })) out
        (keep s cur rest e p) (ground (arith, h, e))
]

pub nothing : (x : String) → contains x [] ≡ true → ⊥
unfolding contains
nothing x e = cc

pub unseen-le : (ids seen : List String) → unseen ids seen ≤ length ids
unseen-le [] seen = omega arith
unseen-le (x ∷ ids) seen = ground (arith, unseen-le ids seen)

pub edges-inside :
    (files : Directory) (p x : String)
    → contains x (targets p (edges_of files)) ≡ true
    → contains x (names files) ≡ true
edges-inside files p x e = ground (arith, e, targets-edges_of files p x, contains-names x files)
