-- ===== src/Base/Assoc.antt =====
-- Python's dict with text keys, as an association list in insertion order.
use danus.Base.{
  ◌+◌, ◌≤◌, String, ◌≡◌, refl, Option, none, some, List, [], ◌∷◌, ◌++◌, arith, ◌==◌, eq_iff,
  eq_refl, length, if◌then◌else◌,
}

module _ {ℓ} {V : Type ℓ} where
  -- d.get(k)
  unfoldable pub lookup : String → List (String × V) → Option V
  lookup k [] = none
  lookup k ((j, v) ∷ m) = if j == k then some v else lookup k m

  -- d.pop(k, None)
  unfoldable pub erase : String → List (String × V) → List (String × V)
  erase k [] = []
  erase k ((j, v) ∷ m) = let rest = erase k m in if j == k then rest else (j, v) ∷ rest

  -- d[k] = v: a key that is there keeps its place
  unfoldable pub put : String → V → List (String × V) → List (String × V)
  put k v [] = (k, v) ∷ []
  put k v ((j, w) ∷ m) = if j == k then (k, v) ∷ m else (j, w) ∷ put k v m

  pub lookup-erase :
      (k j : String) (m : List (String × V))
      → lookup j (erase k m) ≡ (if k == j then none else lookup j m)
  unfolding lookup erase
  lookup-erase k j [] = ground arith
  lookup-erase k j ((i, v) ∷ m) =
      ground (arith, lookup-erase k j m, eq_iff i k, eq_iff i j, eq_iff k j)

  pub lookup-put :
      (k j : String) (v : V) (m : List (String × V))
      → lookup j (put k v m) ≡ (if k == j then some v else lookup j m)
  unfolding lookup put
  lookup-put k j v [] = refl
  lookup-put k j v ((i, w) ∷ m) =
      ground (arith, eq_iff k j, eq_iff i k, eq_iff i j, lookup-put k j v m)

  pub lookup-append :
      (j : String) (m n : List (String × V))
      → lookup j (m ++ n) ≡ (elim (lookup j m) [ none ↦ lookup j n | some v ↦ some v ])
  unfolding lookup
  lookup-append j [] n = refl
  lookup-append j ((i, v) ∷ m) n = ground (arith, lookup-append j m n)

  pub length-erase-le : (k : String) (m : List (String × V)) → length (erase k m) ≤ length m
  unfolding erase
  length-erase-le k [] = omega arith
  length-erase-le k ((j, v) ∷ m) = ground (arith, length-erase-le k m)

  pub length-erase-lt :
      (k : String) (m : List (String × V)) (v : V)
      → lookup k m ≡ some v
      → length (erase k m) + 1 ≤ length m
  unfolding lookup erase
  length-erase-lt k [] v h = ground arith
  length-erase-lt k ((j, w) ∷ m) v h = ground (arith, length-erase-lt k m v, length-erase-le k m)

  pub erase_absent : (k : String) (m : List (String × V)) → lookup k m ≡ none → erase k m ≡ m
  unfolding lookup erase
  erase_absent k [] h = refl
  erase_absent k ((j, v) ∷ m) h = ground (arith, erase_absent k m)

module _ {ℓ} {V : Type ℓ} where
  -- No key stands twice, as in any dict.
  abbrev pub Unique : List (String × V) → Type ℓ
  Unique [] = Unit
  Unique ((k, v) ∷ m) = (lookup k m ≡ none) × Unique m

  pub erase-Unique : (k : String) (m : List (String × V)) → Unique m → Unique (erase k m)
  unfolding erase
  erase-Unique k [] u = u
  erase-Unique k ((j, v) ∷ m) u =
      ground (arith, u, erase-Unique k m u.1, lookup-erase k j m, eq_iff k j)

  pub append-Unique :
      (k : String) (v : V) (m : List (String × V))
      → lookup k m ≡ none
      → Unique m
      → Unique (m ++ (k, v) ∷ [])
  unfolding lookup
  append-Unique k v [] h u = (refl, u)
  append-Unique k v ((j, w) ∷ m) h u =
      ground
        (arith, u, append-Unique k v m, lookup-append j m ((k, v) ∷ []), eq_iff k j, eq_iff j k)

  pub replaced-Unique :
      (k : String) (v : V) (m : List (String × V)) → Unique m → Unique (erase k m ++ (k, v) ∷ [])
  replaced-Unique k v m u =
      append-Unique k v (erase k m) (ground (arith, lookup-erase k k m, eq_refl k))
        (erase-Unique k m u)
