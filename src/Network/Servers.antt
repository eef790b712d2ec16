-- ===== src/Network/Servers.antt =====
-- The list of DNS servers that `request` of appliance/lib/network_config.py makes, each once.
use mindflayer_elderbrain.Base.{
  ℕ, ◌≡◌, ◌≢◌, ap, ◌∙◌, Bool, true, not, inl, inr, List, [], ◌∷◌, ◌==◌, Bool-cases, arith, select,
  In, here, there, In-cases, Distinct,
}
use mindflayer_elderbrain.Network.Settings.{first_of_each}

In-select : (p : ℕ → Bool) (a : ℕ) (xs : List ℕ) → In a (select p xs) → (p a ≡ true) × In a xs
In-select p a [] i = elim i [ ]
In-select p a (x ∷ xs) i = elim (Bool-cases (p x)) [
  | inl keeps ↦
      In-cases a x (select p xs) (rw keeps at i) (λ e. (ap p e ∙ keeps, here x xs e))
        (λ j. let (holds, k) = In-select p a xs j in (holds, there x xs k))
  | inr drops ↦ let (holds, k) = In-select p a xs (rw drops at i) in (holds, there x xs k)
]

Distinct-select : (p : ℕ → Bool) (xs : List ℕ) → Distinct xs → Distinct (select p xs)
Distinct-select p [] d = tt
Distinct-select p (x ∷ xs) (new, d) = elim (Bool-cases (p x)) [
  | inl keeps ↦ rw keeps ((λ i. new (In-select p x xs i).1), Distinct-select p xs d)
  | inr drops ↦ rw drops (Distinct-select p xs d)
]

self_differs : (a : ℕ) → not (a == a) ≢ true
self_differs a h = ground arith

pub first_of_each-Distinct : (xs : List ℕ) → Distinct (first_of_each xs)
first_of_each-Distinct [] = tt
first_of_each-Distinct (a ∷ rest) = (
  (λ i. self_differs a (In-select (λ b. not (b == a)) a (first_of_each rest) i).0),
  Distinct-select (λ b. not (b == a)) (first_of_each rest) (first_of_each-Distinct rest),
)

pub In-first_of_each : (a : ℕ) (xs : List ℕ) → In a (first_of_each xs) → In a xs
In-first_of_each a [] i = elim i [ ]
In-first_of_each a (x ∷ rest) i =
    In-cases a x _ i (λ e. here x rest e)
      (λ j.
        there x rest
          (In-first_of_each a rest (In-select (λ b. not (b == x)) a (first_of_each rest) j).1))
