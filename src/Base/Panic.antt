-- ===== src/Base/Panic.antt =====
-- Code that may panic: `none` is a panic. `Returns P r` says that `r` does not panic and that its
-- result has the property `P`.
use mathlib.Core.Path.{◌≡◌, refl}
use mathlib.Core.Bool.{Bool, true, false}
use mathlib.Core.Option.{Option, none, some}

module _ {ℓ κ} {A : Type ℓ} {B : Type κ} where
  infixl 5 ◌>>=◌
  abbrev pub ◌>>=◌ : Option A → (A → Option B) → Option B
  some a >>= f = f a
  none >>= f = none

infixl 5 ◌>>◌
abbrev pub ◌>>◌ {ℓ} : {B : Type ℓ} → Option (Unit {0}) → Option B → Option B
m >> k = m >>= λ _. k

-- `assert!`
abbrev pub assert : Bool → Option (Unit {0})
assert true = some tt
assert false = none

-- `Result<A, ()>`
pub data Result {ℓ} (A : Type ℓ) : Type ℓ where
  ok : A → Result A
  err : Result A

abbrev pub unwrap {ℓ} : {A : Type ℓ} → Result A → Option A
unwrap (ok a) = some a
unwrap err = none

pub data Returns {ℓ κ} {A : Type ℓ} (P : A → Type κ) : Option A → Type (ℓ ⊔ κ) where
  returns : {a : A} → P a → Returns P (some a)

module _ {ℓ κ} {A : Type ℓ} {P : A → Type κ} where
  -- The result, for a later use.
  pub Returns-result : {r : Option A} → Returns P r → (a : A) × (r ≡ some a) × P a
  Returns-result (returns {a} p) = (a, refl, p)

  pub Returns-of_eq : {r : Option A} {a : A} → r ≡ some a → P a → Returns P r
  Returns-of_eq e p = rw e (returns p)

  pub Returns-mono {κ'} :
      {Q : A → Type κ'} {r : Option A} → Returns P r → ((a : A) → P a → Q a) → Returns Q r
  Returns-mono (returns p) weaken = returns (weaken _ p)

  pub Returns-bind {ℓ' κ'} :
      {B : Type ℓ'} {Q : B → Type κ'} {r : Option A} {f : A → Option B}
      → Returns P r
      → ((a : A) → P a → Returns Q (f a))
      → Returns Q (r >>= f)
  Returns-bind (returns p) next = next _ p

  pub Returns-branch :
      (b : Bool) {x y : Option A}
      → (b ≡ true → Returns P x)
      → (b ≡ false → Returns P y)
      → Returns P (elim b [ true ↦ x | false ↦ y ])
  Returns-branch true left right = left refl
  Returns-branch false left right = right refl

  pub Returns-bind_bind {ℓ' κ' ℓ''} :
      {B : Type ℓ'} {C : Type ℓ''} {Q : B → Type κ'} (m : Option C) (f : C → Option A)
      {k : A → Option B}
      → Returns P (m >>= f)
      → ((a : A) → P a → Returns Q (k a))
      → Returns Q (m >>= λ c. f c >>= k)
  Returns-bind_bind (some c) f h next = Returns-bind h next
  Returns-bind_bind none f h next = elim h [ ]
