-- ===== src/Release/Chunks.antt =====
-- The loop of `verify_artifact` (appliance/lib/appliance_release.py) reads as many bytes as the artifact
-- has, whatever the size of its chunks.
use mindflayer_elderbrain.Base.{
  ℕ, zero, suc, ◌+◌, ◌-◌, ◌≤◌, ◌<◌, ◌≡◌, refl, sym, ap, ◌∙◌, inl, inr, List, [], ◌∷◌, ◌++◌, leb,
  leb→le, Bool-cases, length, take, drop, arith, Result, ok, err,
}
use mindflayer_elderbrain.Release.Errors.{Error, truncated}
use mindflayer_elderbrain.Release.Verify.{chunk_limit, minimum, unless_empty, read_chunks}

pub length-take-drop :
    {A : Type 0} (n : ℕ) (xs : List A) → length (take n xs) + length (drop n xs) ≡ length xs
length-take-drop zero xs = omega arith
length-take-drop (suc n) [] = omega arith
length-take-drop (suc n) (x ∷ xs) = omega (arith, length-take-drop n xs)

pub length-take : {A : Type 0} (n : ℕ) (xs : List A) → n ≤ length xs → length (take n xs) ≡ n
length-take zero xs h = refl
length-take (suc n) [] h = omega arith
length-take (suc n) (x ∷ xs) h = omega (arith, length-take n xs (omega arith))

pub take-length : {A : Type 0} (xs : List A) → take (length xs) xs ≡ xs
take-length [] = refl
take-length (x ∷ xs) = ap (λ l. x ∷ l) (take-length xs)

append_nil : {A : Type 0} (xs : List A) → (xs ++ []) ≡ xs
append_nil [] = refl
append_nil (x ∷ xs) = ap (λ l. x ∷ l) (append_nil xs)

append_assoc : {A : Type 0} (xs ys zs : List A) → ((xs ++ ys) ++ zs) ≡ (xs ++ (ys ++ zs))
append_assoc [] ys zs = refl
append_assoc (x ∷ xs) ys zs = ap (λ l. x ∷ l) (append_assoc xs ys zs)

take_nil : {A : Type 0} (n : ℕ) → ◌≡◌ {A = List A} (take n []) []
take_nil zero = refl
take_nil (suc n) = refl

drop_nil : {A : Type 0} (n : ℕ) → ◌≡◌ {A = List A} (drop n []) []
drop_nil zero = refl
drop_nil (suc n) = refl

-- A prefix in two parts.
take_parts :
    {A : Type 0} (m k n : ℕ) (xs : List A)
    → m + k ≡ n
    → (take m xs ++ take k (drop m xs)) ≡ take n xs
take_parts zero k n xs e = ap (λ j. take j xs) (omega arith)
take_parts (suc m) k n [] e = take_nil k ∙ sym (take_nil n)
take_parts (suc m) k zero (x ∷ xs) e = absurd (omega arith)
take_parts (suc m) k (suc n) (x ∷ xs) e = ap (λ l. x ∷ l) (take_parts m k n xs (omega arith))

drop_parts : {A : Type 0} (m k n : ℕ) (xs : List A) → m + k ≡ n → drop k (drop m xs) ≡ drop n xs
drop_parts zero k n xs e = ap (λ j. drop j xs) (omega arith)
drop_parts (suc m) k n [] e = drop_nil k ∙ sym (drop_nil n)
drop_parts (suc m) k zero (x ∷ xs) e = absurd (omega arith)
drop_parts (suc m) k (suc n) (x ∷ xs) e = drop_parts m k n xs (omega arith)

read_eq :
    {a b c d : List ℕ}
    → a ≡ b
    → c ≡ d
    → ◌≡◌ {A = Result Error (List ℕ × List ℕ)} (ok (a, c)) (ok (b, d))
read_eq p q = rw (p, q) refl

minimum_lem : (n : ℕ) → (1 ≤ minimum chunk_limit (suc n)) × (minimum chunk_limit (suc n) ≤ suc n)
minimum_lem n = elim (Bool-cases (leb chunk_limit (suc n))) [
  | inl small ↦ rw small (omega arith, leb→le chunk_limit (suc n) small)
  | inr large ↦ rw large (omega arith, omega arith)
]

unless_empty_lem :
    (c : List ℕ) (rest : Result Error (List ℕ × List ℕ)) → 1 ≤ length c → unless_empty c rest ≡ rest
unless_empty_lem [] rest h = absurd (omega arith)
unless_empty_lem (b ∷ bs) rest h = refl

-- With enough bytes the loop takes the first `n` of them.
pub read_chunks-take :
    (fuel n : ℕ) (bytes seen : List ℕ)
    → n ≤ fuel
    → n ≤ length bytes
    → read_chunks fuel n bytes seen ≡ ok (seen ++ take n bytes, drop n bytes)
unfolding read_chunks
read_chunks-take fuel zero bytes seen f h = read_eq (sym (append_nil seen)) refl
read_chunks-take zero (suc n) bytes seen f h = absurd (omega arith)
read_chunks-take (suc fuel) (suc n) bytes seen f h =
    let m = minimum chunk_limit (suc n) in
    let (low, high) = minimum_lem n in
    let size = length-take m bytes (omega arith) in
    let chunk = take m bytes in
    let k = suc n - length chunk in
    let both = length-take-drop m bytes in
    let next =
      read_chunks-take fuel k (drop m bytes) (seen ++ chunk) (omega (arith, size, low))
        (omega (arith, both)) in
    unless_empty_lem chunk _ (omega (arith, size, low))
    ∙ next
    ∙ read_eq
        (append_assoc seen chunk (take k (drop m bytes))
          ∙ ap (λ l. seen ++ l) (take_parts m k (suc n) bytes (omega (arith, size, high))))
        (drop_parts m k (suc n) bytes (omega (arith, size, high)))

short_round :
    (c : List ℕ) (rest : Result Error (List ℕ × List ℕ))
    → rest ≡ err truncated
    → unless_empty c rest ≡ err truncated
short_round [] rest h = refl
short_round (b ∷ bs) rest h = h

-- With too few it fails.
pub read_chunks-short :
    (fuel n : ℕ) (bytes seen : List ℕ)
    → length bytes < n
    → read_chunks fuel n bytes seen ≡ err truncated
unfolding read_chunks
read_chunks-short fuel zero bytes seen h = absurd (omega arith)
read_chunks-short zero (suc n) bytes seen h = refl
read_chunks-short (suc fuel) (suc n) bytes seen h =
    let m = minimum chunk_limit (suc n) in
    short_round (take m bytes) _ (
      read_chunks-short fuel (suc n - length (take m bytes)) (drop m bytes) (seen ++ take m bytes)
        (omega (arith, length-take-drop m bytes)))
