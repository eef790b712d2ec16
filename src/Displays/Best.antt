-- ===== src/Displays/Best.antt =====
-- Which mode of an output is preferred (`output_modes` and `preferred_mode` of browser-session.py).
use mindflayer_elderbrain.Base.{
  ℕ, ◌≤◌, ◌≡◌, refl, sym, ap, Bool, true, false, ◌⊎◌, inl, inr, Option, none, some, List, [], ◌∷◌,
  ◌++◌, if◌then◌else◌, Bool-cases, Option-cases, some-injective, and_true, arith, between, take,
  select, some_of, In, here, there, In-cases, Value, list?, int?, get, ok,
}
use mathlib.Core.Path.{subst}
use mindflayer_elderbrain.Displays.Modes.{
  Mode, make_mode, read_mode, add_mode, mode_eq, collect, output_modes, modes_of, max_by, slower,
  area, smaller, has_size, fastest, prefer, prefer_of, read_size, preferred_mode,
}
use mindflayer_elderbrain.Displays.Greatest.{
  max_by_lem, slower_irreflexive, slower_transitive, slower_splits, smaller_irreflexive,
  smaller_transitive, smaller_splits, In-select, In-select_intro,
}

-- The mode that is chosen has the size that was asked for and the highest rate among those that have
-- it, or no mode has that size and none is larger.
abbrev pub IsLargest : List Mode → Mode → Type 0
IsLargest modes m =
    (x : Mode) → In x modes → (area x ≤ area m) × (area x ≡ area m → x.width ≤ m.width)

pub data IsBest (modes : List Mode) (m : Mode) : Option (ℕ × ℕ) → Type 0 where
  fits :
      (size : ℕ × ℕ)
      → has_size size m ≡ true
      → ((x : Mode) → In x modes → has_size size x ≡ true → x.refresh ≤ m.refresh)
      → IsBest modes m (some size)
  falls_back :
      (size : ℕ × ℕ)
      → ((x : Mode) → In x modes → has_size size x ≡ false)
      → IsLargest modes m
      → IsBest modes m (some size)
  unasked : IsLargest modes m → IsBest modes m none

-- The mode stands among the first 256 that the output advertises, and is in range.
pub record IsAdvertised (modes : Option Value) (m : Mode) : Type 0 where
  pub raw : List Value
  pub is_list : list? modes ≡ some raw
  pub source : Value
  pub stands : In source (take 256 raw)
  pub reads : read_mode source ≡ some m
  pub width_in_range : between 320 32768 m.width ≡ true
  pub height_in_range : between 200 32768 m.height ≡ true
  pub refresh_in_range : between 1000 1000000 m.refresh ≡ true

largest_lem :
    (m : Mode) (rest : List Mode)
    → In (max_by smaller m rest) (m ∷ rest) × IsLargest (m ∷ rest) (max_by smaller m rest)
largest_lem m rest =
    let best = max_by_lem smaller smaller_irreflexive smaller_transitive smaller_splits m rest in
    (best.0, λ x i. let h = best.1 x i in (ground arith, λ e. ground arith))

-- Each mode that is collected was read of one of the values, or was there before.
abbrev Collected : List Mode → List Value → Mode → Type 0
Collected seen values m = In m seen ⊎ ((v : Value) × In v values × (read_mode v ≡ some m))

In-append : (m x : Mode) (xs : List Mode) → In m (xs ++ (x ∷ [])) → In m xs ⊎ (m ≡ x)
In-append m x [] i = In-cases m x [] i (λ e. inr e) (λ j. elim j [ ])
In-append m x (y ∷ ys) i =
    In-cases m y (ys ++ (x ∷ [])) i (λ e. inl (here y ys e))
      (λ j. elim (In-append m x ys j) [ inl k ↦ inl (there y ys k) | inr e ↦ inr e ])

In-add_mode :
    (m : Mode) (seen : List Mode) (new : Option Mode)
    → In m (add_mode seen new)
    → In m seen ⊎ (new ≡ some m)
In-add_mode m seen none i = inl i
In-add_mode m seen (some x) i = elim (Bool-cases (some_of (mode_eq x) seen)) [
  | inl h ↦ inl (subst (λ b. In m (if b then seen else seen ++ (x ∷ []))) h i)
  | inr h ↦
      elim (In-append m x seen (subst (λ b. In m (if b then seen else seen ++ (x ∷ []))) h i)) [
        | inl j ↦ inl j
        | inr e ↦ inr (ap (λ y. some y) (sym e))
      ]
]

In-collect :
    (m : Mode) (seen : List Mode) (values : List Value)
    → In m (collect seen values)
    → Collected seen values m
In-collect m seen [] i = inl i
In-collect m seen (v ∷ rest) i = elim (In-collect m (add_mode seen (read_mode v)) rest i) [
  | inl j ↦ elim (In-add_mode m seen (read_mode v) j) [
    | inl k ↦ inl k
    | inr e ↦ inr (v, here v rest refl, e)
  ]
  | inr (u, k, e) ↦ inr (u, there v rest k, e)
]

abbrev IsInRange : Mode → Type 0
IsInRange m =
    (between 320 32768 m.width ≡ true)
    × (between 200 32768 m.height ≡ true)
    × (between 1000 1000000 m.refresh ≡ true)

guarded : (b : Bool) (x m : Mode) → (if b then some x else none) ≡ some m → (b ≡ true) × (x ≡ m)
guarded true x m e = (refl, some-injective e)
guarded false x m e = cc

make_mode-IsInRange : (w h r : Option ℕ) (m : Mode) → make_mode w h r ≡ some m → IsInRange m
make_mode-IsInRange (some w) (some h) (some r) m e =
    let (tests, same) = guarded _ _ m e in
    let (front, fast) = and_true tests in
    let (wide, high) = and_true front in subst IsInRange same (wide, high, fast)
make_mode-IsInRange none h r m e = cc
make_mode-IsInRange (some w) none r m e = cc
make_mode-IsInRange (some w) (some h) none m e = cc

output_modes-IsAdvertised :
    (modes : Option Value) (m : Mode) → In m (output_modes modes) → IsAdvertised modes m
unfolding output_modes read_mode
output_modes-IsAdvertised modes m i = elim (Option-cases (list? modes)) [
  | inl h ↦ elim (subst (λ l. In m (modes_of l)) h i) [ ]
  | inr (raw, h) ↦ elim (In-collect m [] (take 256 raw) (subst (λ l. In m (modes_of l)) h i)) [
    | inl none_yet ↦ elim none_yet [ ]
    | inr (v, stands, reads) ↦
        let (wide, high, fast) =
          make_mode-IsInRange (int? (get "width" v)) (int? (get "height" v))
            (int? (get "refresh" v)) m reads in
        record {
          raw = raw;
          is_list = h;
          source = v;
          stands = stands;
          reads = reads;
          width_in_range = wide;
          height_in_range = high;
          refresh_in_range = fast;
        }
  ]
]

fastest_lem :
    (size : ℕ × ℕ) (m : Mode) (rest fitting : List Mode)
    → select (has_size size) (m ∷ rest) ≡ fitting
    → (best : Mode) × (fastest (m ∷ rest) fitting ≡ some best)
      × In best (m ∷ rest)
      × IsBest (m ∷ rest) best (some size)
fastest_lem size m rest [] h =
    let (stands, most) = largest_lem m rest in
    (
      max_by smaller m rest,
      refl,
      stands,
      falls_back size
          (λ x i. elim (Bool-cases (has_size size x)) [
            | inl k ↦
                elim (subst (λ l. In x l) h (In-select_intro (has_size size) x (m ∷ rest) i k)) [ ]
            | inr k ↦ k
          ])
          most,
    )
fastest_lem size m rest (x ∷ others) h =
    let (stands, most) =
      max_by_lem slower slower_irreflexive slower_transitive slower_splits x others in
    let best = max_by slower x others in
    let (found, right) =
      In-select (has_size size) best (m ∷ rest) (subst (λ l. In best l) (sym h) stands) in
    (
      best,
      refl,
      found,
      fits size right (λ y i k.
          let slow =
            most y (subst (λ l. In y l) h (In-select_intro (has_size size) y (m ∷ rest) i k)) in
          ground arith),
    )

prefer_lem :
    (size : Option (ℕ × ℕ)) (m : Mode) (rest : List Mode)
    → (best : Mode) × (prefer size (m ∷ rest) ≡ some best)
      × In best (m ∷ rest)
      × IsBest (m ∷ rest) best size
prefer_lem none m rest =
    let (stands, most) = largest_lem m rest in (max_by smaller m rest, refl, stands, unasked most)
prefer_lem (some size) m rest = fastest_lem size m rest (select (has_size size) (m ∷ rest)) refl

choice_lem :
    (resolution modes : Option Value) (size : Option (ℕ × ℕ)) (all : List Mode)
    → read_size resolution ≡ ok size
    → output_modes modes ≡ all
    → ((all ≡ []) × (preferred_mode resolution modes ≡ ok none))
      ⊎ ((m : Mode) × (preferred_mode resolution modes ≡ ok (some m))
          × IsAdvertised modes m
          × IsBest all m size)
unfolding preferred_mode
choice_lem resolution modes size [] reads e =
    inl (refl, ap (λ l. prefer_of (read_size resolution) l) e)
choice_lem resolution modes size (x ∷ rest) reads e =
    let (m, chosen, stands, best) = prefer_lem size x rest in
    inr (
      m,
      rw (reads, e, chosen) refl,
      output_modes-IsAdvertised modes m (subst (λ l. In m l) (sym e) stands),
      best,
    )

-- For a resolution that can be read, a mode is chosen unless the output advertises none. It is one of the
-- first 256 that the output advertises, with width, height and rate in range. If some mode has the size
-- that was asked for, it has that size and the highest rate of those; else none has a larger area, and
-- none of the same area is wider.
pub preferred_mode-IsBest :
    (resolution modes : Option Value) (size : Option (ℕ × ℕ))
    → read_size resolution ≡ ok size
    → ((output_modes modes ≡ []) × (preferred_mode resolution modes ≡ ok none))
      ⊎ ((m : Mode) × (preferred_mode resolution modes ≡ ok (some m))
          × IsAdvertised modes m
          × IsBest (output_modes modes) m size)
preferred_mode-IsBest resolution modes size reads =
    choice_lem resolution modes size (output_modes modes) reads refl
