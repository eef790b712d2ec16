-- ===== src/Displays/Connected.antt =====
-- The connected outputs that `plan` works with: the names of the active outputs, each once; and the
-- identities of monitors are those of connected outputs.
use Prim.Native.String.{compare}
use Prim.Native.Nat.{Ordering}
use mindflayer_elderbrain.Base.{
  ◌≡◌, refl, ap, ◌∙◌, true, false, ◌||◌, inl, inr, List, [], ◌∷◌, String, str_eq, str_eq-true,
  eq_iff, Bool-cases, arith, has_name,
}
use mathlib.Core.Path.{subst}
use mindflayer_elderbrain.Displays.Outputs.{
  Output, insert_at, insert, sorted, unique, active, names, connected_names,
}
use mindflayer_elderbrain.Displays.Shown.{Differ}

has_name-insert_at :
    (o : Ordering) (k name first : String) (rest more : List String)
    → has_name k more ≡ (str_eq name k || has_name k rest)
    → has_name k (insert_at o name first rest more)
      ≡ (str_eq name k || (str_eq first k || has_name k rest))
has_name-insert_at Ordering.lt k name first rest more h = refl
has_name-insert_at Ordering.eq k name first rest more h = refl
has_name-insert_at Ordering.gt k name first rest more h = ground arith

has_name-insert :
    (k name : String) (xs : List String)
    → has_name k (insert name xs) ≡ (str_eq name k || has_name k xs)
has_name-insert k name [] = refl
has_name-insert k name (x ∷ xs) =
    has_name-insert_at (compare name x) k name x xs (insert name xs) (has_name-insert k name xs)

has_name-sorted : (k : String) (xs : List String) → has_name k (sorted xs) ≡ has_name k xs
has_name-sorted k [] = refl
has_name-sorted k (x ∷ xs) =
    has_name-insert k x (sorted xs) ∙ ap (λ b. str_eq x k || b) (has_name-sorted k xs)

has_name-unique : (k : String) (xs : List String) → has_name k (unique xs) ≡ has_name k xs
has_name-unique k [] = refl
has_name-unique k (x ∷ xs) =
    let later = has_name-unique k xs in
    elim (Bool-cases (has_name x (unique xs))) [
      | inl h ↦ rw h (elim (Bool-cases (str_eq x k)) [
        | inl e ↦
            let seen = subst (λ s. has_name s (unique xs) ≡ true) (str_eq-true x k e) h in
            ground arith
        | inr e ↦ ground arith
      ])
      | inr h ↦ rw h (ap (λ b. str_eq x k || b) later)
    ]

insert-Differ :
    (name : String) (xs : List String)
    → has_name name xs ≡ false
    → Differ xs
    → Differ (insert name xs)
insert-Differ name [] h d = (refl, tt)
insert-Differ name (x ∷ xs) h (new, d) = elim (Bool-cases (str_eq name x)) [
  | inl e ↦ ground (arith, eq_iff name x, eq_iff x name)
  | inr e ↦
      inserted (compare name x) (has_name-insert x name xs ∙ ground arith)
        (insert-Differ name xs (ground arith) d)
]
  where
    inserted :
        (o : Ordering)
        → has_name x (insert name xs) ≡ false
        → Differ (insert name xs)
        → Differ (insert_at o name x xs (insert name xs))
    inserted Ordering.lt k l = (h, (new, d))
    inserted Ordering.eq k l = (h, (new, d))
    inserted Ordering.gt k l = (k, l)

sorted-Differ : (xs : List String) → Differ xs → Differ (sorted xs)
sorted-Differ [] d = tt
sorted-Differ (x ∷ xs) (new, d) =
    insert-Differ x (sorted xs) (has_name-sorted x xs ∙ new) (sorted-Differ xs d)

unique-Differ : (xs : List String) → Differ (unique xs)
unique-Differ [] = tt
unique-Differ (x ∷ xs) = elim (Bool-cases (has_name x (unique xs))) [
  | inl h ↦ rw h (unique-Differ xs)
  | inr h ↦ rw h (h, unique-Differ xs)
]

pub connected_names-Differ : (outputs : List Output) → Differ (connected_names outputs)
unfolding connected_names
connected_names-Differ outputs =
    sorted-Differ (unique (names (active outputs))) (unique-Differ (names (active outputs)))

pub has_name-connected_names :
    (k : String) (outputs : List Output)
    → has_name k (connected_names outputs) ≡ has_name k (names (active outputs))
unfolding connected_names
has_name-connected_names k outputs =
    has_name-sorted k (unique (names (active outputs))) ∙ has_name-unique k (names (active outputs))
