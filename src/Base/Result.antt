-- ===== src/Base/Result.antt =====
-- What a function returns or raises: an error is its message.
use danus.Base.{String, Bool, true, false, Option, none, some, ◌≡◌, refl, subst, if◌then◌else◌}

-- The message of what is raised, or what is returned.
pub data Result {ℓ} (A : Type ℓ) : Type ℓ where
  err : (message : String) → Result A
  ok : (returned : A) → Result A

module _ {κ} {B : Type κ} where
  infixl 5 ◌>>=◌ ◌>>◌
  unfoldable pub ◌>>=◌ {ℓ} : {A : Type ℓ} → Result A → (A → Result B) → Result B
  err raised >>= next = err raised
  ok x >>= next = next x

  -- A call for its errors alone.
  unfoldable pub ◌>>◌ : Result (Unit {0}) → Result B → Result B
  err raised >> next = err raised
  ok _ >> next = next

abbrev pub is_ok {ℓ} : {A : Type ℓ} → Result A → Bool
is_ok (err raised) = false
is_ok (ok x) = true

-- `if not test: raise …`
unfoldable pub require : (test : Bool) → (message : String) → Result (Unit {0})
require test message = if test then ok tt else err message

-- `if row is None: raise …`
unfoldable pub or_raise {ℓ} : {A : Type ℓ} → Option A → (message : String) → Result A
or_raise (some row) message = ok row
or_raise none message = err message

-- What holds of a result, if it is returned.
pub record Holds {ℓ κ} {A : Type ℓ} (P : A → Type κ) (r : Result A) : Type (ℓ ⊔ κ) where
  pub at : (a : A) → r ≡ ok a → P a

module _ {ℓ κ} {A : Type ℓ} {P : A → Type κ} where
  pub Holds-ok : {a : A} → P a → Holds P (ok a)
  Holds-ok {a} h = record { at = λ b e. subst P (cc e) h }

  pub Holds-err : {e : String} → Holds P (err e)
  Holds-err = record { at = λ a h. cc }

  pub Holds-bind {μ} :
      {B : Type μ} (m : Result B) {f : B → Result A}
      → ((b : B) → m ≡ ok b → Holds P (f b))
      → Holds P (m >>= f)
  unfolding ◌>>=◌
  Holds-bind (ok b) h = h b refl
  Holds-bind (err e) h = Holds-err

  pub Holds-then :
      (m : Result (Unit {0})) {n : Result A} → (m ≡ ok tt → Holds P n) → Holds P (m >> n)
  unfolding ◌>>◌ ◌>>=◌
  Holds-then (ok u) h = h refl
  Holds-then (err e) h = Holds-err

  pub Holds-require :
      (b : Bool) (e : String) {m : Result A} → (b ≡ true → Holds P m) → Holds P (require b e >> m)
  unfolding ◌>>◌ ◌>>=◌ require
  Holds-require true e h = h refl
  Holds-require false e h = Holds-err

  pub Holds-if :
      (b : Bool) {m n : Result A}
      → (b ≡ true → Holds P m)
      → (b ≡ false → Holds P n)
      → Holds P (if b then m else n)
  Holds-if true hm hn = hm refl
  Holds-if false hm hn = hn refl

pub or_raise-eq-ok {ℓ} :
    {A : Type ℓ} (o : Option A) (e : String) (a : A) → or_raise o e ≡ ok a → o ≡ some a
unfolding or_raise
or_raise-eq-ok none e a h = cc
or_raise-eq-ok (some b) e a h = cc

pub require-eq-ok : (test : Bool) (message : String) → require test message ≡ ok tt → test ≡ true
unfolding require
require-eq-ok true message h = refl
require-eq-ok false message h = cc

-- A chain that returns has a first part that does.
pub >>=-eq-ok {ℓ κ} :
    {A : Type ℓ} {B : Type κ} (m : Result A) (next : A → Result B) {b : B}
    → m >>= next ≡ ok b
    → (a : A) × (m ≡ ok a) × (next a ≡ ok b)
unfolding ◌>>=◌
>>=-eq-ok (err e) next h = cc
>>=-eq-ok (ok a) next h = (a, refl, h)

pub >>-eq-ok {κ} :
    {B : Type κ} (m : Result (Unit {0})) (n : Result B) {b : B}
    → m >> n ≡ ok b
    → (m ≡ ok tt) × (n ≡ ok b)
unfolding ◌>>◌
>>-eq-ok (err e) n h = cc
>>-eq-ok (ok tt) n h = (refl, h)

-- What follows a test that passed.
pub require-then-eq-ok {κ} :
    {B : Type κ} (test : Bool) (message : String) (n : Result B) {b : B}
    → require test message >> n ≡ ok b
    → (test ≡ true) × (n ≡ ok b)
require-then-eq-ok test message n h =
    let (passed, rest) = >>-eq-ok (require test message) n h in
    (require-eq-ok test message passed, rest)

-- Chains with the same first part agree where their rests do.
pub bind_cong {ℓ κ} :
    {A : Type ℓ} {B : Type κ} (m : Result A) {f g : A → Result B}
    → ((a : A) → f a ≡ g a)
    → m >>= f ≡ m >>= g
unfolding ◌>>=◌
bind_cong (err e) h = refl
bind_cong (ok a) h = h a

pub then_cong {κ} : {B : Type κ} (m : Result (Unit {0})) {n p : Result B} → n ≡ p → m >> n ≡ m >> p
then_cong m h = rw h

pub ok_injective {ℓ} : {A : Type ℓ} {a b : A} → ok a ≡ ok b → a ≡ b
ok_injective h = cc (h)

pub some_injective {ℓ} : {A : Type ℓ} {a b : A} → some a ≡ some b → a ≡ b
some_injective h = cc (h)
