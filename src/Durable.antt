-- ===== src/Durable.antt =====
-- Code that writes durable state on a machine which may stop between any two writes (`os.fsync`,
-- `os.rename` and `os.replace` in appliance/lib/*.py are the points where it matters).
-- `power` is the number of durable writes before the machine stops; a program then ends as
-- `halted`, and the disk keeps what was written. An exception keeps it too.
pub mod Keeps
use mindflayer_elderbrain.Base.{
  ℕ, zero, suc, ◌≡◌, refl, Bool, true, false, List, [], ◌∷◌, Result, ok, err,
}

pub data Outcome (E A : Type 0) : Type 0 where
  done : A → Outcome E A
  raised : E → Outcome E A
  halted : Outcome E A

pub record Machine (S : Type 0) : Type 0 where
  pub disk : S
  pub power : ℕ

abbrev pub Action : Type 0 → Type 0 → Type 0 → Type 0
Action E S A = Machine S → Outcome E A × Machine S

module _ {E S A : Type 0} where
  abbrev pub pure : A → Action E S A
  pure a m = (done a, m)

  abbrev pub raise : E → Action E S A
  raise e m = (raised e, m)

  abbrev pub gets : (S → A) → Action E S A
  gets f m = (done (f m.disk), m)

  abbrev pub lift : Result E A → Action E S A
  lift (ok a) m = (done a, m)
  lift (err e) m = (raised e, m)

abbrev pub proceed :
    {E S A B : Type 0} → Outcome E A × Machine S → (A → Action E S B) → Outcome E B × Machine S
proceed (done a, m) f = f a m
proceed (raised e, m) f = (raised e, m)
proceed (halted, m) f = (halted, m)

infixl 5 ◌>>=◌ ◌>>◌
abbrev pub ◌>>=◌ : {E S A B : Type 0} → Action E S A → (A → Action E S B) → Action E S B
◌>>=◌ a f m = proceed (a m) f

abbrev pub ◌>>◌ : {E S A B : Type 0} → Action E S A → Action E S B → Action E S B
a >> b = a >>= λ _. b

module _ {E S : Type 0} where
  -- One durable write, if the machine still runs.
  abbrev pub spend : ℕ → (S → S) → S → Outcome E (Unit {0}) × Machine S
  spend zero f s = (halted, record { disk = s; power = zero })
  spend (suc p) f s = (done tt, record { disk = f s; power = p })

  abbrev pub write : (S → S) → Action E S (Unit {0})
  write f m = spend m.power f m.disk

  abbrev pub require : Bool → E → Action E S (Unit {0})
  require true e m = (done tt, m)
  require false e m = (raised e, m)

-- `for x in xs: body(x)`.
unfoldable pub for_each :
    {E S A : Type 0} → List A → (A → Action E S (Unit {0})) → Action E S (Unit {0})
for_each [] body = pure tt
for_each (x ∷ xs) body = let rest = for_each xs body in body x >> rest

-- The rest of a program runs where the first part ended `done`.
pub proceed_done :
    {E S A B : Type 0} (x : Outcome E A × Machine S) (f : A → Action E S B) (a : A)
    → x.0 ≡ done a
    → proceed x f ≡ f a x.1
proceed_done (done b, m) f a e = cc
proceed_done (raised b, m) f a e = cc
proceed_done (halted, m) f a e = cc

-- What holds of the machine after the first part, and is kept by the rest, holds at the end.
pub proceed_keeps :
    {E S A B : Type 0} (P : Machine S → Type 0) (x : Outcome E A × Machine S) (f : A → Action E S B)
    → P x.1
    → ((a : A) → x.0 ≡ done a → P x.1 → P (f a x.1).1)
    → P (proceed x f).1
proceed_keeps P (done a, m) f h k = k a refl h
proceed_keeps P (raised e, m) f h k = h
proceed_keeps P (halted, m) f h k = h

pub proceed_ends :
    {E S A B : Type 0} (x : Outcome E A × Machine S) (f : A → Action E S B) (b : B)
    → (proceed x f).0 ≡ done b
    → (a : A) × (x.0 ≡ done a) × ((f a x.1).0 ≡ done b)
proceed_ends (done a, m) f b h = (a, refl, h)
proceed_ends (raised e, m) f b h = cc
proceed_ends (halted, m) f b h = cc

pub require_keeps :
    {E S A : Type 0} (P : Machine S → Type 0) (b : Bool) (e : E) (rest : Action E S A)
    (m : Machine S)
    → P m
    → P (rest m).1
    → P ((require b e >> rest) m).1
require_keeps P true e rest m h k = k
require_keeps P false e rest m h k = h
