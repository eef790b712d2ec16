-- ===== src/Displays/Greatest.antt =====
-- `max` with a key, the order of the modes, and what a selection holds.
use mindflayer_elderbrain.Base.{
  ℕ, ◌≡◌, refl, sym, ap, ◌∙◌, Bool, true, false, ◌||◌, inl, inr, List, [], ◌∷◌, if◌then◌else◌,
  Bool-cases, arith, select, In, here, there, In-cases,
}
use mathlib.Core.Path.{subst}
use mindflayer_elderbrain.Displays.Modes.{Mode, max_by, slower, area, precedes, smaller}

-- `max_by` finds one of the greatest of a strict weak order.
abbrev pub IsGreatest : {A : Type 0} → (A → A → Bool) → List A → A → Type 0
IsGreatest {A = A} less xs m = In m xs × ((x : A) → In x xs → less m x ≡ false)

abbrev pub keep_later :
    {A : Type 0} (a m x : A) (rest : List A) → In a (m ∷ rest) → In a (m ∷ x ∷ rest)
keep_later a m x rest i =
    In-cases a m rest i (λ e. here m (x ∷ rest) e) (λ j. there m (x ∷ rest) (there x rest j))

module _ {A : Type 0} (less : A → A → Bool) (irreflexive : (a : A) → less a a ≡ false)
    (transitive : (a b c : A) → less a b ≡ true → less b c ≡ true → less a c ≡ true)
    (splits : (a b c : A) → less a c ≡ true → (less a b || less b c) ≡ true) where
  loser_first :
      (m x : A) (rest : List A) (r : A)
      → less m x ≡ true
      → IsGreatest less (x ∷ rest) r
      → IsGreatest less (m ∷ x ∷ rest) r
  loser_first m x rest r h (i, most) = (
    there m (x ∷ rest) i,
    λ y k.
        In-cases y m (x ∷ rest) k
          (λ e.
            let beaten = most x (here x rest refl) in
            subst (λ z. less r z ≡ false) (sym e) (ground (arith, transitive r m x)))
          (λ j. most y j),
  )

  loser_second :
      (m x : A) (rest : List A) (r : A)
      → less m x ≡ false
      → IsGreatest less (m ∷ rest) r
      → IsGreatest less (m ∷ x ∷ rest) r
  loser_second m x rest r h (i, most) = (
    keep_later r m x rest i,
    λ y k.
        In-cases y m (x ∷ rest) k (λ e. most y (here m rest e))
          (λ j.
            In-cases y x rest j
              (λ e.
                let beaten = most m (here m rest refl) in
                subst (λ z. less r z ≡ false) (sym e) (ground (arith, splits r m x)))
              (λ l. most y (there m rest l))),
  )

  pub max_by_lem : (m : A) (xs : List A) → IsGreatest less (m ∷ xs) (max_by less m xs)
  max_by_lem m [] = (
    here m [] refl,
    λ y k.
        In-cases y m [] k (λ e. subst (λ z. less m z ≡ false) (sym e) (irreflexive m))
          (λ i. elim i [ ]),
  )
  max_by_lem m (x ∷ rest) = elim (Bool-cases (less m x)) [
    | inl h ↦
        subst (λ b. IsGreatest less (m ∷ x ∷ rest) (max_by less (if b then x else m) rest)) (sym h)
          (loser_first m x rest (max_by less x rest) h (max_by_lem x rest))
    | inr h ↦
        subst (λ b. IsGreatest less (m ∷ x ∷ rest) (max_by less (if b then x else m) rest)) (sym h)
          (loser_second m x rest (max_by less m rest) h (max_by_lem m rest))
  ]

pub slower_irreflexive : (a : Mode) → slower a a ≡ false
slower_irreflexive a = ground arith

pub slower_transitive : (a b c : Mode) → slower a b ≡ true → slower b c ≡ true → slower a c ≡ true
slower_transitive a b c h k = ground arith

pub slower_splits : (a b c : Mode) → slower a c ≡ true → (slower a b || slower b c) ≡ true
slower_splits a b c h = ground arith

pub smaller_irreflexive : (a : Mode) → smaller a a ≡ false
smaller_irreflexive a = ground arith

precedes_transitive :
    (a b c : ℕ) (p q r : Bool)
    → (p ≡ true → q ≡ true → r ≡ true)
    → precedes a b p ≡ true
    → precedes b c q ≡ true
    → precedes a c r ≡ true
precedes_transitive a b c p q r h k l = ground arith

precedes_splits :
    (a b c : ℕ) (p q r : Bool)
    → (r ≡ true → (p || q) ≡ true)
    → precedes a c r ≡ true
    → (precedes a b p || precedes b c q) ≡ true
precedes_splits a b c p q r h k = ground arith

pub smaller_transitive :
    (a b c : Mode) → smaller a b ≡ true → smaller b c ≡ true → smaller a c ≡ true
smaller_transitive a b c = precedes_transitive (area a) (area b) (area c) _ _ _ (
    precedes_transitive a.width b.width c.width _ _ _
      (precedes_transitive a.height b.height c.height _ _ _ (slower_transitive a b c)))

pub smaller_splits : (a b c : Mode) → smaller a c ≡ true → (smaller a b || smaller b c) ≡ true
smaller_splits a b c = precedes_splits (area a) (area b) (area c) _ _ _ (
    precedes_splits a.width b.width c.width _ _ _
      (precedes_splits a.height b.height c.height _ _ _ (slower_splits a b c)))

pub In-select :
    (p : Mode → Bool) (x : Mode) (xs : List Mode) → In x (select p xs) → In x xs × (p x ≡ true)
In-select p x [] i = elim i [ ]
In-select p x (y ∷ ys) i = elim (Bool-cases (p y)) [
  | inl h ↦
      In-cases x y (select p ys)
        (subst (λ b. In x (if b then y ∷ select p ys else select p ys)) h i)
        (λ e. (here y ys e, ap p e ∙ h))
        (λ j. let found = In-select p x ys j in (there y ys found.0, found.1))
  | inr h ↦
      let found =
        In-select p x ys (subst (λ b. In x (if b then y ∷ select p ys else select p ys)) h i) in
      (there y ys found.0, found.1)
]

pub In-select_intro :
    (p : Mode → Bool) (x : Mode) (xs : List Mode) → In x xs → p x ≡ true → In x (select p xs)
In-select_intro p x [] i h = elim i [ ]
In-select_intro p x (y ∷ ys) i h =
    In-cases x y ys i (λ e. rw (sym (ap p e) ∙ h) (here y (select p ys) e))
      (λ j.
        let found = In-select_intro p x ys j h in
        elim (Bool-cases (p y)) [ inl k ↦ rw k (there y (select p ys) found) | inr k ↦ rw k found ])
