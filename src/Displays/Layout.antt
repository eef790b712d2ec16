-- ===== src/Displays/Layout.antt =====
-- Every step of `assigned_outputs` keeps the layout one to one.
use mindflayer_elderbrain.Base.{
  ℕ, suc, ◌+◌, ◌<◌, ◌≡◌, refl, true, false, inl, inr, some, List, [], ◌∷◌, String, if◌then◌else◌,
  Bool-cases, Option-cases, str_eq_self, and_true, some-injective, arith, length, has_name,
  has_name-select,
}
use mathlib.Core.Path.{subst}
use mindflayer_elderbrain.Displays.Assignment.{
  Wish, Placing, is_placed, free_names, claim, claim_all, first_admin, is_like, is_set, take_only,
  admin_choice, place_admin, spare, fill, fill_all, assign,
}
use mindflayer_elderbrain.Displays.Placings.{
  IsOneToOne, IsBelow, IsFit, IsKnown, IsNumbered, IsLayout, IsBelow-unplaced, IsBelow-suc,
  put-IsBelow, put-IsOneToOne, keep-IsFit, or_else-IsFit, first-IsFit, free-IsFit, like-IsFit,
}

claim-IsFit :
    (connected : List String) (placings : List Placing) (w : Wish)
    → IsKnown connected w
    → IsFit connected placings (claim connected placings w)
claim-IsFit connected placings w known =
    or_else-IsFit connected placings _ _
      (keep-IsFit connected placings _ w.monitor (λ s e h. ((and_true h).1, known s e)))
      (keep-IsFit connected placings _ w.asked
        (λ s e h. let (here', free) = and_true h in (free, here')))

pub claim_all-IsLayout :
    (connected : List String) (n m : ℕ) (all : List Wish) (placings : List Placing)
    → n + length all ≡ m
    → IsNumbered connected n all
    → IsOneToOne connected placings
    → IsBelow n placings
    → IsLayout connected m (claim_all connected all placings)
claim_all-IsLayout connected n m [] placings size numbered one low =
    (one, subst (λ k. IsBelow k placings) (omega arith) low)
claim_all-IsLayout connected n m (w ∷ rest) placings size (number, known, others) one low =
    claim_all-IsLayout connected (suc n) m rest _ (omega arith) others
      (put-IsOneToOne connected w.index (claim connected placings w) placings
        (rw number (IsBelow-unplaced n placings low)) (claim-IsFit connected placings w known) one)
      (put-IsBelow (suc n) w.index (claim connected placings w) placings (omega arith)
        (IsBelow-suc n placings low))

take_only-IsOneToOne :
    (i : ℕ) (connected : List String) (placings : List Placing)
    → IsOneToOne connected placings
    → IsOneToOne connected (take_only i connected placings)
take_only-IsOneToOne i [] placings h = h
take_only-IsOneToOne i (s ∷ []) placings h = (refl, refl, rw (str_eq_self s) refl, tt)
take_only-IsOneToOne i (s ∷ r ∷ rest) placings h = h

take_only-IsBelow :
    (n i : ℕ) (connected : List String) (placings : List Placing)
    → i < n
    → IsBelow n placings
    → IsBelow n (take_only i connected placings)
take_only-IsBelow n i [] placings low h = h
take_only-IsBelow n i (s ∷ []) placings low h = (low, tt)
take_only-IsBelow n i (s ∷ r ∷ rest) placings low h = h

admin_choice-IsOneToOne :
    (connected : List String) (w : Wish) (free : List String) (placings : List Placing)
    → ((s : String) → has_name s free ≡ true → IsFit connected placings (some s))
    → is_placed w.index placings ≡ false
    → IsOneToOne connected placings
    → IsOneToOne connected (admin_choice connected w free placings)
admin_choice-IsOneToOne connected w [] placings fits new h =
    take_only-IsOneToOne w.index connected placings h
admin_choice-IsOneToOne connected w (s ∷ rest) placings fits new h =
    put-IsOneToOne connected w.index _ placings new
      (or_else-IsFit connected placings _ _
        (first-IsFit connected placings _
          (λ r k. fits r (has_name-select (is_like w.asked) r (s ∷ rest) k).1))
        (fits s (rw (str_eq_self s) refl)))
      h

admin_choice-IsBelow :
    (n : ℕ) (connected : List String) (w : Wish) (free : List String) (placings : List Placing)
    → w.index < n
    → IsBelow n placings
    → IsBelow n (admin_choice connected w free placings)
admin_choice-IsBelow n connected w [] placings low h =
    take_only-IsBelow n w.index connected placings low h
admin_choice-IsBelow n connected w (s ∷ rest) placings low h =
    put-IsBelow n w.index _ placings low h

pub place_admin-IsLayout :
    (connected : List String) (n : ℕ) (w : Wish) (placings : List Placing)
    → w.index < n
    → IsLayout connected n placings
    → IsLayout connected n (place_admin connected (some w) placings)
place_admin-IsLayout connected n w placings low (one, h) =
    elim (Bool-cases (is_placed w.index placings)) [
      | inl k ↦ rw k (one, h)
      | inr k ↦ rw k (
        admin_choice-IsOneToOne connected w (free_names connected placings) placings
            (free-IsFit connected placings) k one,
        admin_choice-IsBelow n connected w (free_names connected placings) placings low h,
      )
    ]

spare-IsFit :
    (connected : List String) (placings : List Placing) (w : Wish)
    → IsFit connected placings (spare connected placings w)
spare-IsFit connected placings w = elim (Bool-cases (is_set w.asked)) [
  | inl h ↦
      rw h (first-IsFit connected placings _ (like-IsFit connected placings (is_like w.asked)))
  | inr h ↦ rw h (first-IsFit connected placings _ (free-IsFit connected placings))
]

fill-IsLayout :
    (connected : List String) (n : ℕ) (w : Wish) (placings : List Placing)
    → w.index < n
    → IsLayout connected n placings
    → IsLayout connected n (fill connected w placings)
fill-IsLayout connected n w placings low (one, h) = elim (Bool-cases (is_placed w.index placings)) [
  | inl k ↦ rw k (one, h)
  | inr k ↦ rw k (
    put-IsOneToOne connected w.index _ placings k (spare-IsFit connected placings w) one,
    put-IsBelow n w.index _ placings low h,
  )
]

pub fill_all-IsLayout :
    (connected : List String) (n m : ℕ) (all : List Wish) (placings : List Placing)
    → n + length all ≡ m
    → IsNumbered connected n all
    → IsLayout connected m placings
    → IsLayout connected m (fill_all connected all placings)
fill_all-IsLayout connected n m [] placings size numbered h = h
fill_all-IsLayout connected n m (w ∷ rest) placings size (number, known, others) h =
    fill_all-IsLayout connected (suc n) m rest (fill connected w placings) (omega arith) others
      (fill-IsLayout connected m w placings (omega arith) h)

-- The first administration's view is one of the wishes.
pub first_admin-low :
    (connected : List String) (n m : ℕ) (all : List Wish) (w : Wish)
    → n + length all ≡ m
    → IsNumbered connected n all
    → first_admin all ≡ some w
    → w.index < m
first_admin-low connected n m [] w size numbered e = cc
first_admin-low connected n m (v ∷ rest) w size (number, known, others) e =
    elim (Bool-cases v.is_admin) [
      | inl h ↦
          let found = subst (λ b. (if b then some v else first_admin rest) ≡ some w) h e in
          subst (λ u. u.index < m) (some-injective found) (omega arith)
      | inr h ↦
          first_admin-low connected (suc n) m rest w (omega arith) others
            (subst (λ b. (if b then some v else first_admin rest) ≡ some w) h e)
    ]

pub assign-IsLayout :
    (connected : List String) (all : List Wish)
    → IsNumbered connected 0 all
    → IsLayout connected (length all) (assign connected all)
assign-IsLayout connected all numbered =
    let claimed = claim_all-IsLayout connected 0 (length all) all [] (omega arith) numbered tt tt in
    fill_all-IsLayout connected 0 (length all) all _ (omega arith) numbered
      (elim (Option-cases (first_admin all)) [
        | inl e ↦ rw e claimed
        | inr (w, e) ↦ rw e (
            place_admin-IsLayout connected (length all) w (claim_all connected all [])
              (first_admin-low connected 0 (length all) all w (omega arith) numbered e) claimed)
      ])
