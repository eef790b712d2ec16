-- ===== src/Base/Exceptions.antt =====
-- A Python function that may raise returns a `Result`; the error is the model's name of the
-- exception. `guard` is `if not test: raise`.
use mathlib.Core.Path.{◌≡◌, refl}
use mathlib.Core.Bool.{Bool, true, false}
use mathlib.Core.Logic.{◌⊎◌, inl, inr}
use mathlib.Core.Option.{Option, none, some}

-- An exception that ends a computation, or its value.
pub data Result {ℓ κ} (E : Type ℓ) (A : Type κ) : Type (ℓ ⊔ κ) where
  err : E → Result E A
  ok : A → Result E A

module _ {ℓ κ ι} {E : Type ℓ} {A : Type κ} {B : Type ι} where
  infixl 5 ◌>>=◌
  abbrev pub ◌>>=◌ : Result E A → (A → Result E B) → Result E B
  r >>= next = elim r [ err e ↦ err e | ok a ↦ next a ]

  pub bind-ok :
      (r : Result E A) (next : A → Result E B) {b : B}
      → (r >>= next) ≡ ok b
      → (a : A) × (r ≡ ok a) × (next a ≡ ok b)
  bind-ok (err e) next h = cc
  bind-ok (ok a) next h = (a, refl, h)

module _ {ℓ κ} {E : Type ℓ} {A : Type κ} where
  infixl 5 ◌>>◌
  abbrev pub ◌>>◌ : Result E (Unit {0}) → Result E A → Result E A
  check >> rest = elim check [ err e ↦ err e | ok _ ↦ rest ]

  pub then-ok :
      (check : Result E (Unit {0})) (rest : Result E A) {a : A}
      → (check >> rest) ≡ ok a
      → (check ≡ ok tt) × (rest ≡ ok a)
  then-ok (err e) rest h = cc
  then-ok (ok tt) rest h = (refl, h)

  pub ok-injective : {a b : A} → ◌≡◌ {A = Result E A} (ok a) (ok b) → a ≡ b
  ok-injective h = cc

  -- `if value is None: raise e`
  abbrev pub or_raise : Option A → E → Result E A
  or_raise found e = elim found [ some a ↦ ok a | none ↦ err e ]

  pub Result-cases : (r : Result E A) → ((e : E) × (r ≡ err e)) ⊎ ((a : A) × (r ≡ ok a))
  Result-cases (err e) = inl (e, refl)
  Result-cases (ok a) = inr (a, refl)

module _ {ℓ} {E : Type ℓ} where
  abbrev pub guard : Bool → E → Result E (Unit {0})
  guard test e = elim test [ true ↦ ok tt | false ↦ err e ]

  pub guard-ok : (test : Bool) (e : E) → guard test e ≡ ok tt → test ≡ true
  guard-ok false e h = cc
  guard-ok true e h = refl
