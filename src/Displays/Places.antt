-- ===== src/Displays/Places.antt =====
-- The outputs that a one-to-one layout has for each view, and which of them the loop of `plan` takes.
use mindflayer_elderbrain.Base.{
  ℕ, ◌≡◌, refl, sym, ap, ◌∙◌, Bool, true, false, not, ◌&&◌, inl, inr, ◌⊎◌, Option, none, some, List,
  [], ◌∷◌, String, str_eq_self, if◌then◌else◌, Bool-cases, some-injective, and_true, arith, ◌==◌,
  ==_iff, has_name,
}
use mathlib.Core.Path.{subst}
use mindflayer_elderbrain.Displays.Assignment.{Placing, placed_outputs, is_placed, is_free}
use mindflayer_elderbrain.Displays.Placings.{IsOneToOne}
use mindflayer_elderbrain.Displays.Plan.{placing_of, usable}

pub if-some :
    {A : Type 0} (b : Bool) (x y : A) (o : Option A)
    → (if b then some x else o) ≡ some y
    → ((b ≡ true) × (x ≡ y)) ⊎ ((b ≡ false) × (o ≡ some y))
if-some true x y o e = inl (refl, some-injective e)
if-some false x y o e = inr (refl, e)

pub placing_of-placed :
    (connected : List String) (i : ℕ) (placings : List Placing)
    → IsOneToOne connected placings
    → is_placed i placings ≡ true
    → (s : String) × (placing_of i placings ≡ some s) × (has_name s connected ≡ true)
placing_of-placed connected i [] h e = cc
placing_of-placed connected i (p ∷ rest) (_, _, known, others) e =
    elim (Bool-cases (p.index == i)) [
      | inl same ↦ (p.output, rw same refl, known)
      | inr other ↦
          let (s, found, k) = placing_of-placed connected i rest others (sym (rw other refl) ∙ e) in
          (s, rw other found, k)
    ]

placing_of-output :
    (i : ℕ) (s : String) (placings : List Placing)
    → placing_of i placings ≡ some s
    → has_name s (placed_outputs placings) ≡ true
placing_of-output i s [] e = cc
placing_of-output i s (p ∷ rest) e =
    elim (if-some (p.index == i) p.output s (placing_of i rest) e) [
      | inl (_, same) ↦ rw same (rw (str_eq_self s) refl)
      | inr (_, found) ↦ let later = placing_of-output i s rest found in ground arith
    ]

taken_twice :
    (connected : List String) (i : ℕ) (s : String) (p : Placing) (rest : List Placing)
    → is_free rest p.output ≡ true
    → p.output ≡ s
    → placing_of i rest ≡ some s
    → true ≡ false
taken_twice connected i s p rest free same found =
    let taken = placing_of-output i s rest found in
    let open_for = subst (λ r. is_free rest r ≡ true) same free in ground arith

-- No two views have one output.
pub placing_of-injective :
    (connected : List String) (i j : ℕ) (s : String) (placings : List Placing)
    → IsOneToOne connected placings
    → placing_of i placings ≡ some s
    → placing_of j placings ≡ some s
    → i ≡ j
placing_of-injective connected i j s [] h a b = cc
placing_of-injective connected i j s (p ∷ rest) (_, free, _, others) a b =
    elim (if-some (p.index == i) p.output s (placing_of i rest) a) [
      | inl (here_i, same) ↦ elim (if-some (p.index == j) p.output s (placing_of j rest) b) [
        | inl (here_j, _) ↦ sym ((==_iff p.index i).0 here_i) ∙ (==_iff p.index j).0 here_j
        | inr (_, found) ↦ let wrong = taken_twice connected j s p rest free same found in cc
      ]
      | inr (_, found) ↦ elim (if-some (p.index == j) p.output s (placing_of j rest) b) [
        | inl (_, same) ↦ let wrong = taken_twice connected i s p rest free same found in cc
        | inr (_, later) ↦ placing_of-injective connected i j s rest others found later
      ]
    ]

pub usable-some :
    (connected used : List String) (o : Option String) (s : String)
    → usable connected used o ≡ some s
    → (o ≡ some s) × (has_name s connected ≡ true) × (has_name s used ≡ false)
usable-some connected used none s e = cc
usable-some connected used (some r) s e =
    elim (if-some (has_name r connected && not (has_name r used)) r s none e) [
      | inl (tests, same) ↦
          let (known, new) = and_true tests in
          (
            ap (λ x. some x) same,
            subst (λ x. has_name x connected ≡ true) same known,
            subst (λ x. has_name x used ≡ false) same (ground arith),
          )
      | inr (_, absent) ↦ cc
    ]

pub usable-new :
    (connected used : List String) (s : String)
    → has_name s connected ≡ true
    → has_name s used ≡ false
    → usable connected used (some s) ≡ some s
usable-new connected used s known new = rw (known, new) refl
