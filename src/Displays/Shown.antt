-- ===== src/Displays/Shown.antt =====
-- Where an output is connected, `assigned_outputs` gives one to the administration.
use mindflayer_elderbrain.Base.{
  ℕ, ◌<◌, ◌≤◌, ◌≡◌, refl, ap, true, false, inl, inr, ◌⊎◌, Option, none, some, List, [], ◌∷◌, String,
  eq_iff, Bool-cases, str_eq_self, arith, length, select, has_name, has_name-select_intro,
}
use mathlib.Core.Path.{subst}
use mindflayer_elderbrain.Displays.Assignment.{
  Wish, Placing, is_placed, is_free, free_names, put, or_else, first, claim_all, first_admin,
  is_like, take_only, admin_choice, place_admin, spare, fill, fill_all, assign,
}
use mindflayer_elderbrain.Displays.Placings.{IsBelow, IsNumbered, IsLayout}
use mindflayer_elderbrain.Displays.Layout.{claim_all-IsLayout, first_admin-low}

abbrev pub Differ : List String → Type 0
Differ [] = Unit
Differ (s ∷ rest) = (has_name s rest ≡ false) × Differ rest

-- With one of two views without an output, at most one view has one.
one_other :
    (connected : List String) (i : ℕ) (placings : List Placing)
    → i < 2
    → IsLayout connected 2 placings
    → is_placed i placings ≡ false
    → (placings ≡ []) ⊎ ((p : Placing) × (placings ≡ p ∷ []))
one_other connected i [] low h new = inl refl
one_other connected i (p ∷ []) low h new = inr (p, refl)
one_other connected i (p ∷ q ∷ rest) low ((differ, _, _, more), (below, (lower, _))) new =
    ground arith

none_free :
    (connected : List String) (placings : List Placing) (s : String)
    → free_names connected placings ≡ []
    → has_name s connected ≡ true
    → is_free placings s ≡ false
none_free connected placings s h e = elim (Bool-cases (is_free placings s)) [
  | inl k ↦
      let found = has_name-select_intro (is_free placings) s connected e k in
      let lost = ap (has_name s) h in cc
  | inr k ↦ k
]

put_placed :
    (i : ℕ) (s : Option String) (t : String) (placings : List Placing)
    → is_placed i (put i (or_else s (some t)) placings) ≡ true
put_placed i none t placings = ground arith
put_placed i (some s) t placings = ground arith

-- Two different outputs cannot both be the only one that is taken.
take_only_lem :
    (connected : List String) (p : Placing) (i : ℕ) (s : String) (rest : List String)
    → Differ (s ∷ rest)
    → free_names (s ∷ rest) (p ∷ []) ≡ []
    → is_placed i (take_only i (s ∷ rest) (p ∷ [])) ≡ true
take_only_lem connected p i s [] differ h = ground arith
take_only_lem connected p i s (r ∷ rest) (differ, _) h =
    let a = none_free (s ∷ r ∷ rest) (p ∷ []) s h (rw (str_eq_self s) refl) in
    let b = none_free (s ∷ r ∷ rest) (p ∷ []) r h (ground (arith, str_eq_self r)) in
    ground (arith, eq_iff p.output s, eq_iff p.output r, eq_iff r s)

admin_choice_placed :
    (connected : List String) (w : Wish) (placings : List Placing) (s : String) (rest : List String)
    → connected ≡ s ∷ rest
    → Differ connected
    → w.index < 2
    → IsLayout connected 2 placings
    → is_placed w.index placings ≡ false
    → (free : List String) → free_names connected placings ≡ free
    → is_placed w.index (admin_choice connected w free placings) ≡ true
admin_choice_placed connected w placings s rest e differ low layout new (f ∷ free) h =
    put_placed w.index (first (select (is_like w.asked) (f ∷ free))) f placings
admin_choice_placed connected w placings s rest e differ low layout new [] h =
    elim (one_other connected w.index placings low layout new) [
      | inl k ↦
          let taken = none_free connected placings s h (rw e (rw (str_eq_self s) refl)) in
          let free = ap (λ l. is_free l s) k in cc
      | inr (p, k) ↦
          rw (k, e)
            (take_only_lem connected p w.index s rest (subst Differ e differ) (
              subst (λ l. free_names l (p ∷ []) ≡ []) e
                (subst (λ l. free_names connected l ≡ []) k h)))
    ]

place_admin_placed :
    (connected : List String) (w : Wish) (placings : List Placing) (s : String) (rest : List String)
    → connected ≡ s ∷ rest
    → Differ connected
    → w.index < 2
    → IsLayout connected 2 placings
    → is_placed w.index (place_admin connected (some w) placings) ≡ true
place_admin_placed connected w placings s rest e differ low layout =
    elim (Bool-cases (is_placed w.index placings)) [
      | inl k ↦ rw k k
      | inr k ↦ rw k (
          admin_choice_placed connected w placings s rest e differ low layout k
            (free_names connected placings) refl)
    ]

put_keeps :
    (i j : ℕ) (s : Option String) (placings : List Placing)
    → is_placed i placings ≡ true
    → is_placed i (put j s placings) ≡ true
put_keeps i j none placings h = h
put_keeps i j (some s) placings h = ground arith

fill_keeps :
    (connected : List String) (i : ℕ) (w : Wish) (placings : List Placing)
    → is_placed i placings ≡ true
    → is_placed i (fill connected w placings) ≡ true
fill_keeps connected i w placings h = elim (Bool-cases (is_placed w.index placings)) [
  | inl k ↦ rw k h
  | inr k ↦ rw k (put_keeps i w.index (spare connected placings w) placings h)
]

fill_all_keeps :
    (connected : List String) (i : ℕ) (all : List Wish) (placings : List Placing)
    → is_placed i placings ≡ true
    → is_placed i (fill_all connected all placings) ≡ true
fill_all_keeps connected i [] placings h = h
fill_all_keeps connected i (w ∷ rest) placings h =
    fill_all_keeps connected i rest (fill connected w placings)
      (fill_keeps connected i w placings h)

IsBelow-mono : (n m : ℕ) (placings : List Placing) → n ≤ m → IsBelow n placings → IsBelow m placings
IsBelow-mono n m [] h low = tt
IsBelow-mono n m (p ∷ rest) h (low, others) = (omega arith, IsBelow-mono n m rest h others)

pub assign_shows_admin :
    (connected : List String) (all : List Wish) (w : Wish) (s : String) (rest : List String)
    → connected ≡ s ∷ rest
    → Differ connected
    → length all ≤ 2
    → IsNumbered connected 0 all
    → first_admin all ≡ some w
    → is_placed w.index (assign connected all) ≡ true
assign_shows_admin connected all w s rest e differ few numbered first' =
    let (one, low) =
      claim_all-IsLayout connected 0 (length all) all [] (omega arith) numbered tt tt in
    let below = first_admin-low connected 0 (length all) all w (omega arith) numbered first' in
    fill_all_keeps connected w.index all _ (
      rw first' (
        place_admin_placed connected w (claim_all connected all []) s rest e differ (omega arith)
          (one, IsBelow-mono (length all) 2 (claim_all connected all []) few low)))
