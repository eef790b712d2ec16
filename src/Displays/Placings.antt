-- ===== src/Displays/Placings.antt =====
-- `assigned_outputs` gives different views different outputs, all of them connected.
use mindflayer_elderbrain.Base.{
  ℕ, suc, ◌<◌, ◌≡◌, refl, Bool, true, false, inl, inr, Option, none, some, List, [], ◌∷◌, String,
  Bool-cases, str_eq_self, arith, select, has_name, has_name-select,
}
use mindflayer_elderbrain.Displays.Assignment.{
  Wish, Placing, is_placed, is_free, free_names, put, keep, first, or_else,
}

-- Each view stands once and has an output of its own, one that is connected.
abbrev pub IsOneToOne : List String → List Placing → Type 0
IsOneToOne connected [] = Unit
IsOneToOne connected (p ∷ rest) =
    (is_placed p.index rest ≡ false)
    × (is_free rest p.output ≡ true)
    × (has_name p.output connected ≡ true)
    × IsOneToOne connected rest

abbrev pub IsBelow : ℕ → List Placing → Type 0
IsBelow n [] = Unit
IsBelow n (p ∷ rest) = (p.index < n) × IsBelow n rest

-- What may be given to a view: nothing, or a connected output that is free.
abbrev pub IsFit : List String → List Placing → Option String → Type 0
IsFit connected placings none = Unit
IsFit connected placings (some s) = (is_free placings s ≡ true) × (has_name s connected ≡ true)

pub IsBelow-unplaced :
    (n : ℕ) (placings : List Placing) → IsBelow n placings → is_placed n placings ≡ false
IsBelow-unplaced n [] h = refl
IsBelow-unplaced n (p ∷ rest) (low, others) =
    let later = IsBelow-unplaced n rest others in ground arith

pub IsBelow-suc : (n : ℕ) (placings : List Placing) → IsBelow n placings → IsBelow (suc n) placings
IsBelow-suc n [] h = tt
IsBelow-suc n (p ∷ rest) (low, others) = (omega arith, IsBelow-suc n rest others)

pub put-IsBelow :
    (n i : ℕ) (output : Option String) (placings : List Placing)
    → i < n
    → IsBelow n placings
    → IsBelow n (put i output placings)
put-IsBelow n i none placings low h = h
put-IsBelow n i (some s) placings low h = (low, h)

pub put-IsOneToOne :
    (connected : List String) (i : ℕ) (output : Option String) (placings : List Placing)
    → is_placed i placings ≡ false
    → IsFit connected placings output
    → IsOneToOne connected placings
    → IsOneToOne connected (put i output placings)
put-IsOneToOne connected i none placings new fit h = h
put-IsOneToOne connected i (some s) placings new (free, known) h = (new, free, known, h)

pub keep-IsFit :
    (connected : List String) (placings : List Placing) (p : String → Bool) (output : Option String)
    → ((s : String) → output ≡ some s → p s ≡ true → IsFit connected placings (some s))
    → IsFit connected placings (keep p output)
keep-IsFit connected placings p none h = tt
keep-IsFit connected placings p (some s) h = elim (Bool-cases (p s)) [
  | inl k ↦ rw k (h s refl k)
  | inr k ↦ rw k tt
]

pub or_else-IsFit :
    (connected : List String) (placings : List Placing) (a b : Option String)
    → IsFit connected placings a
    → IsFit connected placings b
    → IsFit connected placings (or_else a b)
or_else-IsFit connected placings none b h k = k
or_else-IsFit connected placings (some s) b h k = h

pub first-IsFit :
    (connected : List String) (placings : List Placing) (names : List String)
    → ((s : String) → has_name s names ≡ true → IsFit connected placings (some s))
    → IsFit connected placings (first names)
first-IsFit connected placings [] h = tt
first-IsFit connected placings (s ∷ rest) h = h s (rw (str_eq_self s) refl)

pub free-IsFit :
    (connected : List String) (placings : List Placing) (s : String)
    → has_name s (free_names connected placings) ≡ true
    → IsFit connected placings (some s)
free-IsFit connected placings s h = has_name-select (is_free placings) s connected h

pub like-IsFit :
    (connected : List String) (placings : List Placing) (p : String → Bool) (s : String)
    → has_name s (select p (free_names connected placings)) ≡ true
    → IsFit connected placings (some s)
like-IsFit connected placings p s h =
    free-IsFit connected placings s (has_name-select p s (free_names connected placings) h).1

-- The output of the monitor that a view is for is a connected one.
abbrev pub IsKnown : List String → Wish → Type 0
IsKnown connected w = (s : String) → w.monitor ≡ some s → has_name s connected ≡ true

-- Wishes in their order, from `n` on.
abbrev pub IsNumbered : List String → ℕ → List Wish → Type 0
IsNumbered connected n [] = Unit
IsNumbered connected n (w ∷ rest) =
    (w.index ≡ n) × IsKnown connected w × IsNumbered connected (suc n) rest

-- The views placed are among the first `n`.
abbrev pub IsLayout : List String → ℕ → List Placing → Type 0
IsLayout connected n placings = IsOneToOne connected placings × IsBelow n placings
