-- ===== src/Base/Names.antt =====
-- Membership of texts in a list, as the Boolean test `has_name`.
use Prim.Native.String.{String}
use mathlib.Core.Path.{◌≡◌, refl, sym, ap, ◌∙◌}
use mathlib.Core.Bool.{Bool, true, false, ◌||◌}
use mathlib.Core.List.{List, [], ◌∷◌, ◌++◌}
use mathlib.Core.Logic.{◌≢◌, inl, inr}
use native.Mathlib.Omega.{arith}
use text.Mathlib.Text.{◌==◌ as str_eq}
use text.Mathlib.TextEquality.{eq_iff}
use mindflayer_elderbrain.Base.Tests.{Bool-cases}
use mindflayer_elderbrain.Base.Lists.{select}
use mindflayer_elderbrain.Base.Json.{has_name}

pub str_eq-true : (a b : String) → str_eq a b ≡ true → a ≡ b
str_eq-true a b h = (eq_iff a b).0 h

pub str_eq_self : (a : String) → str_eq a a ≡ true
str_eq_self a = (eq_iff a a).1 refl

pub str_eq-false : (a b : String) → a ≢ b → str_eq a b ≡ false
str_eq-false a b h = ground (arith, eq_iff a b)

pub has_name-append :
    (k : String) (xs ys : List String) → has_name k (xs ++ ys) ≡ (has_name k xs || has_name k ys)
has_name-append k [] ys = refl
has_name-append k (x ∷ xs) ys = ground (arith, has_name-append k xs ys)

pub has_name-select :
    (p : String → Bool) (k : String) (xs : List String)
    → has_name k (select p xs) ≡ true
    → (p k ≡ true) × (has_name k xs ≡ true)
has_name-select p k [] h = cc
has_name-select p k (x ∷ xs) h = elim (Bool-cases (str_eq x k)) [
  | inl same ↦ ground (arith, eq_iff x k, has_name-select p k xs)
  | inr differ ↦ ground (arith, has_name-select p k xs)
]

pub has_name-ne :
    (k j : String) (xs : List String) → has_name k xs ≡ true → has_name j xs ≡ false → k ≢ j
has_name-ne k j xs h n e = ground arith

pub has_name-select_intro :
    (p : String → Bool) (k : String) (xs : List String)
    → has_name k xs ≡ true
    → p k ≡ true
    → has_name k (select p xs) ≡ true
has_name-select_intro p k [] h e = cc
has_name-select_intro p k (x ∷ xs) h e = elim (Bool-cases (str_eq x k)) [
  | inl same ↦ let kept = ap p (str_eq-true x k same) ∙ e in rw kept (rw same refl)
  | inr differ ↦
      let later = has_name-select_intro p k xs (sym (rw differ refl) ∙ h) e in
      elim (Bool-cases (p x)) [ inl t ↦ rw t (rw differ later) | inr t ↦ rw t later ]
]
