-- ===== src/Core/Graph/Descendants/Correct.antt =====
-- danus/core/factgraph.py: the search ends, with exactly the facts that depend on the first one.
use danus.Base.{
  ◌+◌, String, true, false, ◌||◌, ◌≡◌, ◌⊎◌, inl, inr, refl, some, List, [], ◌∷◌, length, arith,
  ◌==◌, eq_iff, eq_refl, Bool-cases, subst,
}
use danus.Base.Names.{contains}
use danus.Core.Graph.Disk.{Directory, names}
use danus.Core.Graph.Descendants.{targets, Search, scan, start, descendants_unchecked}
use danus.Core.Graph.Descendants.Edges.{
  DependsDirectly, Depends, here, step, length-names, edges_of, targets-edges_of,
}
use danus.Core.Graph.Descendants.Rounds.{
  loop_ends, seen-scan, frontier-scan, out-scan, loop_rule, nothing, unseen-le, edges-inside,
}

module _ (files : Directory) (root : String) where
  -- What holds between the rounds.
  record Inv (s : Search) : Type 0 where
    source : contains root s.seen ≡ true
    result : (x : String) → contains x s.seen ≡ (root == x) || contains x s.out
    apart : contains root s.out ≡ false
    queued : (x : String) → contains x s.frontier ≡ true → contains x s.seen ≡ true
    sound : (x : String) → contains x s.seen ≡ true → Depends files root x
    closed :
        (p x : String)
        → contains p s.seen ≡ true
        → DependsDirectly files x p
        → (contains p s.frontier ≡ true) ⊎ (contains x s.seen ≡ true)

  Inv-start : Inv (start root)
  unfolding contains
  Inv-start = record {
    source = ground (arith, eq_refl root);
    result = λ x. refl;
    apart = refl;
    queued = λ x q. q;
    sound = λ x m. subst (Depends files root) (ground (arith, m, eq_iff root x)) here;
    closed = λ p x m e. inl m;
  }

  Inv-scan :
      (s : Search) (cur : String) (rest : List String)
      → s.frontier ≡ cur ∷ rest
      → Inv s
      → Inv (scan (targets cur (edges_of files)) (record s { frontier = rest }))
  unfolding contains
  Inv-scan s cur rest e h =
      let s' = record s { frontier = rest } in
      let fids = targets cur (edges_of files) in
      let to_cur = h.sound cur (h.queued cur (ground (arith, e, eq_refl cur))) in
      record {
        source = ground (arith, seen-scan root fids s', h.source);
        result = λ x. ground (arith, seen-scan x fids s', out-scan x fids s', h.result x);
        apart = ground (arith, out-scan root fids s', h.apart, h.source);
        queued =
            λ x q. ground (arith, q, frontier-scan x fids s', seen-scan x fids s', h.queued x, e);
        sound = λ x m. elim (Bool-cases (contains x s.seen)) [
          | inl was ↦ h.sound x was
          | inr new ↦
              step to_cur
                (ground (arith, new, m, seen-scan x fids s', targets-edges_of files cur x))
        ];
        closed = λ p x m d. elim (Bool-cases (contains p s.seen)) [
          | inl was ↦ elim (h.closed p x was d) [
            | inl waits ↦ ground (
              arith,
              waits,
              e,
              d,
              frontier-scan p fids s',
              seen-scan x fids s',
              targets-edges_of files cur x,
              eq_iff cur p,
            )
            | inr marked ↦ inr (ground (arith, marked, seen-scan x fids s'))
          ]
          | inr new ↦ inl (ground (arith, new, m, seen-scan p fids s', frontier-scan p fids s'))
        ];
      }

  -- With an empty stack the marks are closed, so they hold all that depends on the root.
  complete :
      (t : Search)
      → Inv t
      → t.frontier ≡ []
      → {x : String} → Depends files root x
      → contains x t.seen ≡ true
  complete t h e here = h.source
  complete t h e (step {p} {fid} d direct) = elim (h.closed p fid (complete t h e d) direct) [
    | inl waits ↦ absurd (nothing p (ground (arith, waits, e)))
    | inr marked ↦ marked
  ]

-- The search for the facts that depend on a fact ends.
pub descendants_end :
    (files : Directory) (root : String)
    → (out : List String) × (descendants_unchecked files root ≡ some out)
unfolding descendants_unchecked
descendants_end files root =
    loop_ends (edges_of files) (names files) (edges-inside files) (length files + 2) (start root)
      (omega (arith, unseen-le (names files) (root ∷ []), length-names files))

-- It returns exactly the facts, other than the first, that depend on it over some number of steps.
pub descendants-eq-some :
    (files : Directory) (root : String) (out : List String)
    → descendants_unchecked files root ≡ some out
    → (x : String)
    → (contains x out ≡ true → (root == x ≡ false) × Depends files root x)
      × (root == x ≡ false → Depends files root x → contains x out ≡ true)
unfolding descendants_unchecked
descendants-eq-some files root out h x =
    let (t, inv, empty, same) =
      loop_rule (edges_of files) (Inv files root)
        (λ s cur rest e v. Inv-scan files root s cur rest e v) (length files + 2) (start root) out
        (Inv-start files root) h in
    (
      λ m. (
        ground (arith, m, same, inv.apart, eq_iff root x),
        inv.sound x (ground (arith, m, same, inv.result x)),
      ),
      λ other d. ground (arith, same, other, inv.result x, complete files root t inv empty d),
    )

member-Depends :
    (files : Directory) (root : String) (out : List String) (p : String)
    → (contains p out ≡ true → (root == p ≡ false) × Depends files root p)
    → contains p (root ∷ out) ≡ true
    → Depends files root p
unfolding contains
member-Depends files root out p h m = elim (Bool-cases (root == p)) [
  | inl same ↦ subst (Depends files root) (ground (arith, same, eq_iff root p)) here
  | inr other ↦ (h (ground (arith, m, other))).1
]

-- Nothing that depends on a fact is missing, so what is outside names nobody inside.
pub descendants-IsClosed :
    (files : Directory) (root : String) (out : List String)
    → descendants_unchecked files root ≡ some out
    → (p x : String) → contains p (root ∷ out) ≡ true
    → DependsDirectly files x p
    → contains x (root ∷ out) ≡ true
unfolding contains
descendants-IsClosed files root out h p x m d =
    let from : Depends files root p =
      member-Depends files root out p (λ e. (descendants-eq-some files root out h p).0 e) m in
    let to : Depends files root x = step from d in
    elim (Bool-cases (root == x)) [
      | inl same ↦ ground (arith, same)
      | inr other ↦ ground (arith, (descendants-eq-some files root out h x).1 other to)
    ]

pub cons-Depends :
    (files : Directory) (root : String) (out : List String)
    → descendants_unchecked files root ≡ some out
    → (x : String)
    → (contains x (root ∷ out) ≡ true → Depends files root x)
      × (Depends files root x → contains x (root ∷ out) ≡ true)
unfolding contains
cons-Depends files root out h x = (
  member-Depends files root out x (λ e. (descendants-eq-some files root out h x).0 e),
  λ d. elim (Bool-cases (root == x)) [
    | inl same ↦ ground (arith, same)
    | inr other ↦ ground (arith, (descendants-eq-some files root out h x).1 other d)
  ],
)
