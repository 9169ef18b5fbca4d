-- ===== src/Base/Lists.antt =====
-- Lists measured, indexed and searched by native numbers, under the library's names.
use Prim.Native.Nat.{ℕ, zero, suc, ◌+◌, ◌≤◌, ◌<◌}
use mathlib.Core.Path.{◌≡◌, refl}
use mathlib.Core.Logic.{◌≢◌}
use mathlib.Core.Bool.{Bool}
use mathlib.Core.List.{List, [], ◌∷◌, ◌++◌}
use mathlib.Core.Option.{Option, none, some}
use native.Mathlib.Omega.{arith}
use danus.Base.Tests.{one_if, ◌=?◌, if◌then◌else◌}

module _ {ℓ} {A : Type ℓ} where
  abbrev pub length : List A → ℕ
  length [] = 0
  length (x ∷ xs) = suc (length xs)

  abbrev pub take : ℕ → List A → List A
  take zero xs = []
  take (suc k) [] = []
  take (suc k) (x ∷ xs) = x ∷ take k xs

  pub take_nil : (k : ℕ) → take k [] ≡ []
  take_nil zero = refl
  take_nil (suc k) = refl

  abbrev pub get_elem? : List A → ℕ → Option A
  get_elem? [] i = none
  get_elem? (x ∷ xs) zero = some x
  get_elem? (x ∷ xs) (suc i) = get_elem? xs i

  -- A write out of bounds changes nothing.
  abbrev pub set : List A → ℕ → A → List A
  set [] i v = []
  set (x ∷ xs) zero v = v ∷ xs
  set (x ∷ xs) (suc i) v = x ∷ set xs i v

  -- How many elements pass the test.
  abbrev pub count_p : (A → Bool) → List A → ℕ
  count_p p [] = 0
  count_p p (x ∷ xs) = one_if (p x) + count_p p xs

  abbrev pub All {κ} : (A → Type κ) → List A → Type κ
  All P [] = Unit
  All P (x ∷ xs) = P x × All P xs

module _ {ℓ} {A : Type ℓ} where
  pub length-append : (xs ys : List A) → length (xs ++ ys) ≡ length xs + length ys
  length-append [] ys = omega arith
  length-append (x ∷ xs) ys = omega (arith, length-append xs ys)

  pub length-set : (xs : List A) (i : ℕ) (v : A) → length (set xs i v) ≡ length xs
  length-set [] i v = refl
  length-set (x ∷ xs) zero v = refl
  length-set (x ∷ xs) (suc i) v = omega (arith, length-set xs i v)

  pub get_elem?-set_self :
      (xs : List A) (i : ℕ) (u v : A) → get_elem? xs i ≡ some u → get_elem? (set xs i v) i ≡ some v
  get_elem?-set_self [] i u v h = ground arith
  get_elem?-set_self (x ∷ xs) zero u v h = refl
  get_elem?-set_self (x ∷ xs) (suc i) u v h = get_elem?-set_self xs i u v h

  pub get_elem?-set_ne :
      (xs : List A) (i j : ℕ) (v : A) → i ≢ j → get_elem? (set xs i v) j ≡ get_elem? xs j
  get_elem?-set_ne [] i j v h = refl
  get_elem?-set_ne (x ∷ xs) zero zero v h = absurd (h refl)
  get_elem?-set_ne (x ∷ xs) zero (suc j) v h = refl
  get_elem?-set_ne (x ∷ xs) (suc i) zero v h = refl
  get_elem?-set_ne (x ∷ xs) (suc i) (suc j) v h = get_elem?-set_ne xs i j v (λ e. h (omega arith))

  -- A write at a filled place exchanges one element for another.
  pub count_p-set :
      (p : A → Bool) (xs : List A) (i : ℕ) (u v : A)
      → get_elem? xs i ≡ some u
      → count_p p (set xs i v) + one_if (p u) ≡ count_p p xs + one_if (p v)
  count_p-set p [] i u v h = ground arith
  count_p-set p (x ∷ xs) zero u v h = ground arith
  count_p-set p (x ∷ xs) (suc i) u v h = omega (arith, count_p-set p xs i u v h)

  pub count_p-append :
      (p : A → Bool) (xs ys : List A) → count_p p (xs ++ ys) ≡ count_p p xs + count_p p ys
  count_p-append p [] ys = omega arith
  count_p-append p (x ∷ xs) ys = omega (arith, count_p-append p xs ys)

  pub count_p-get_elem? :
      (p : A → Bool) (xs : List A) (i : ℕ) (u : A)
      → get_elem? xs i ≡ some u
      → one_if (p u) ≤ count_p p xs
  count_p-get_elem? p [] i u h = ground arith
  count_p-get_elem? p (x ∷ xs) zero u h = ground arith
  count_p-get_elem? p (x ∷ xs) (suc i) u h = omega (arith, count_p-get_elem? p xs i u h)

  pub get_elem?-append_left :
      (xs ys : List A) (i : ℕ) (u : A) → get_elem? xs i ≡ some u → get_elem? (xs ++ ys) i ≡ some u
  get_elem?-append_left [] ys i u h = ground arith
  get_elem?-append_left (x ∷ xs) ys zero u h = h
  get_elem?-append_left (x ∷ xs) ys (suc i) u h = get_elem?-append_left xs ys i u h

  pub get_elem?-append_self : (xs : List A) (u : A) → get_elem? (xs ++ u ∷ []) (length xs) ≡ some u
  get_elem?-append_self [] u = refl
  get_elem?-append_self (x ∷ xs) u = get_elem?-append_self xs u

  pub get_elem?-lt : (xs : List A) (i : ℕ) (u : A) → get_elem? xs i ≡ some u → i < length xs
  get_elem?-lt [] i u h = ground arith
  get_elem?-lt (x ∷ xs) zero u h = omega arith
  get_elem?-lt (x ∷ xs) (suc i) u h = omega (arith, get_elem?-lt xs i u h)

  pub All-append {κ} : (P : A → Type κ) (xs ys : List A) → All P xs → All P ys → All P (xs ++ ys)
  All-append P [] ys hx hy = hy
  All-append P (x ∷ xs) ys hx hy = (hx.0, All-append P xs ys hx.1 hy)

  pub get_elem?-set :
      (xs : List A) (i : ℕ) (u v : A) (j : ℕ)
      → get_elem? xs i ≡ some u
      → get_elem? (set xs i v) j ≡ (if i =? j then some v else get_elem? xs j)
  get_elem?-set [] i u v j h = ground arith
  get_elem?-set (x ∷ xs) zero u v zero h = refl
  get_elem?-set (x ∷ xs) zero u v (suc j) h = ground arith
  get_elem?-set (x ∷ xs) (suc i) u v zero h = ground arith
  get_elem?-set (x ∷ xs) (suc i) u v (suc j) h = ground (arith, get_elem?-set xs i u v j h)

  pub get_elem?-append :
      (xs : List A) (u : A) (j : ℕ)
      → get_elem? (xs ++ u ∷ []) j ≡ (if length xs =? j then some u else get_elem? xs j)
  get_elem?-append [] u zero = refl
  get_elem?-append [] u (suc j) = ground arith
  get_elem?-append (x ∷ xs) u zero = ground arith
  get_elem?-append (x ∷ xs) u (suc j) = ground (arith, get_elem?-append xs u j)

  pub get_elem?_end : (xs : List A) → get_elem? xs (length xs) ≡ none
  get_elem?_end [] = refl
  get_elem?_end (x ∷ xs) = get_elem?_end xs

  pub set_self : (xs : List A) (i : ℕ) (u : A) → get_elem? xs i ≡ some u → set xs i u ≡ xs
  set_self [] i u h = refl
  set_self (x ∷ xs) zero u h = ground arith
  set_self (x ∷ xs) (suc i) u h = rw (set_self xs i u h)
