-- ===== src/Snapshots/Retention/Newest.antt =====
-- What `retention_candidates` never names.
use mathlib.Core.List.{reverse}
use mindflayer_elderbrain.Base.{
  ℕ, zero, suc, ◌≤◌, ◌<◌, ◌≡◌, refl, inl, inr, Bool, true, false, not, List, [], ◌∷◌, String, arith,
  leb, length, select, take, In, In-cases, here, there, eq_iff, every, is_identity, has_name,
  Bool-cases, ok, guard, then-ok, has_name-append, has_name-select, between, ok-injective, or_false,
  sym, ◌∙◌,
}
use mindflayer_elderbrain.Snapshots.Store.{Checkpoint, bad_keep, bad_protected}
use mindflayer_elderbrain.Snapshots.Retention.{
  is_after, insert, newest_first, ids, retained, retention_candidates,
}

abbrev pub is_as_new : Checkpoint → Checkpoint → Bool
is_as_new c d = leb c.created_at d.created_at

-- How many of the checkpoints are as new as `c`, `c` itself among them.
abbrev pub as_new : Checkpoint → List Checkpoint → ℕ
as_new c rs = length (select (is_as_new c) rs)

abbrev Above : ℕ → List Checkpoint → Type 0
Above n [] = Unit
Above n (x ∷ xs) = (x.created_at ≤ n) × Above n xs

abbrev Descending : List Checkpoint → Type 0
Descending [] = Unit
Descending (x ∷ xs) = Above x.created_at xs × Descending xs

Above-le : (a b : ℕ) (rs : List Checkpoint) → a ≤ b → Above a rs → Above b rs
Above-le a b [] h u = tt
Above-le a b (x ∷ xs) h (le, u) = (omega arith, Above-le a b xs h u)

insert-Above :
    (n : ℕ) (c : Checkpoint) (rs : List Checkpoint)
    → c.created_at ≤ n
    → Above n rs
    → Above n (insert c rs)
insert-Above n c [] h u = (h, tt)
insert-Above n c (r ∷ rs) h (le, u) = elim (Bool-cases (is_after r c)) [
  | inl after ↦ rw after (le, insert-Above n c rs h u)
  | inr before ↦ rw before (h, (le, u))
]

after-le : (a b : Checkpoint) → is_after a b ≡ true → b.created_at ≤ a.created_at
after-le a b h = ground arith

before-le : (a b : Checkpoint) → is_after a b ≡ false → a.created_at ≤ b.created_at
before-le a b h = ground arith

insert-Descending :
    (c : Checkpoint) (rs : List Checkpoint) → Descending rs → Descending (insert c rs)
insert-Descending c [] h = (tt, tt)
insert-Descending c (r ∷ rs) (above, rest) = elim (Bool-cases (is_after r c)) [
  | inl after ↦
      rw after
        (insert-Above r.created_at c rs (after-le r c after) above, insert-Descending c rs rest)
  | inr before ↦
      let le = before-le r c before in
      rw before ((le, Above-le r.created_at c.created_at rs le above), (above, rest))
]

newest_first-Descending : (rs : List Checkpoint) → Descending (newest_first rs)
unfolding newest_first
newest_first-Descending [] = tt
newest_first-Descending (c ∷ rs) =
    insert-Descending c (newest_first rs) (newest_first-Descending rs)

insert-In : (d c : Checkpoint) (rs : List Checkpoint) → In d (c ∷ rs) → In d (insert c rs)
insert-In d c [] i = i
insert-In d c (r ∷ rs) i = elim (Bool-cases (is_after r c)) [
  | inl after ↦ rw after (
      In-cases d c (r ∷ rs) i (λ e. there _ _ (insert-In d c rs (here _ _ e)))
        (λ j.
          In-cases d r rs j (λ e. here _ _ e) (λ k. there _ _ (insert-In d c rs (there _ _ k)))))
  | inr before ↦ rw before i
]

pub newest_first-In : (d : Checkpoint) (rs : List Checkpoint) → In d rs → In d (newest_first rs)
unfolding newest_first
newest_first-In d [] i = i
newest_first-In d (c ∷ rs) i =
    insert-In d c (newest_first rs)
      (In-cases d c rs i (λ e. here _ _ e) (λ j. there _ _ (newest_first-In d rs j)))

as_new-insert :
    (d c : Checkpoint) (rs : List Checkpoint) → as_new d (insert c rs) ≡ as_new d (c ∷ rs)
as_new-insert d c [] = refl
as_new-insert d c (r ∷ rs) = ground (arith, as_new-insert d c rs)

pub as_new-newest_first :
    (d : Checkpoint) (rs : List Checkpoint) → as_new d (newest_first rs) ≡ as_new d rs
unfolding newest_first
as_new-newest_first d [] = refl
as_new-newest_first d (c ∷ rs) =
    ground (arith, as_new-insert d c (newest_first rs), as_new-newest_first d rs)

Above-In : (n : ℕ) (c : Checkpoint) (rs : List Checkpoint) → Above n rs → In c rs → c.created_at ≤ n
Above-In n c [] u i = elim i [ ]
Above-In n c (r ∷ rs) (le, u) i = In-cases c r rs i (λ e. rw e le) (λ j. Above-In n c rs u j)

as_new_pos : (c : Checkpoint) (rs : List Checkpoint) → In c rs → 0 < as_new c rs
as_new_pos c [] i = elim i [ ]
as_new_pos c (r ∷ rs) i =
    In-cases c r rs i (λ e. rw e (ground arith)) (λ j. ground (arith, as_new_pos c rs j))

-- A checkpoint that is not among the first `keep` of the sorted list has `keep` others as new.
not_taken :
    (keep : ℕ) (c : Checkpoint) (rs : List Checkpoint)
    → Descending rs
    → In c rs
    → has_name c.id (ids (take keep rs)) ≡ false
    → keep < as_new c rs
not_taken zero c rs h i n = as_new_pos c rs i
not_taken (suc k) c [] h i n = elim i [ ]
not_taken (suc k) c (r ∷ rs) (above, rest) i n =
    In-cases c r rs i (λ e. absurd (taken_head e))
      λ j.
        let le = Above-In r.created_at c rs above j in
        ground (arith, not_taken k c rs rest j (later n))
  where
    taken_head : ¬ (c ≡ r)
    taken_head e = let same : c.id ≡ r.id = λ t. (e t).id in ground (arith, eq_iff r.id c.id)

    later :
        has_name c.id (ids (take (suc k) (r ∷ rs))) ≡ false
        → has_name c.id (ids (take k rs)) ≡ false
    later n = ground arith

not_retained :
    (kept : List String) (k : String) (all chosen : List String)
    → select (λ j. not (has_name j kept)) all ≡ chosen
    → has_name k chosen ≡ true
    → has_name k kept ≡ false
not_retained kept k all chosen e h =
    let x = (has_name-select (λ j. not (has_name j kept)) k all (rw e h)).0 in ground arith

-- What is named is neither among the newest nor protected.
pub candidate_unprotected :
    (records : List Checkpoint) (keep : ℕ) (protected candidates : List String) (k : String)
    → retention_candidates records keep protected ≡ ok candidates
    → has_name k candidates ≡ true
    → (has_name k (ids (take keep (newest_first records))) ≡ false) × (has_name k protected ≡ false)
unfolding retention_candidates
candidate_unprotected records keep protected candidates k h named =
    let (a, h') = then-ok (guard (between 1 1000 keep) bad_keep) _ h in
    let (b, h'') = then-ok (guard (every is_identity protected) bad_protected) _ h' in
    let ordered = newest_first records in
    let out =
      not_retained (retained ordered keep protected) k (reverse (ids ordered)) candidates
        (ok-injective h'') named in
    or_false (sym (has_name-append k (ids (take keep ordered)) protected) ∙ out)

-- A checkpoint that `retention_candidates` names is not protected, and more than `keep` checkpoints
-- (itself counted) are as new as it.
pub retention_keeps_newest :
    (records : List Checkpoint) (keep : ℕ) (protected candidates : List String)
    → retention_candidates records keep protected ≡ ok candidates
    → (c : Checkpoint) → In c records
    → has_name c.id candidates ≡ true
    → (has_name c.id protected ≡ false) × (keep < as_new c records)
retention_keeps_newest records keep protected candidates h c i named =
    let (fresh, free) = candidate_unprotected records keep protected candidates c.id h named in
    let sorted = newest_first-Descending records in
    (
      free,
      rw (← as_new-newest_first c records)
          (not_taken keep c (newest_first records) sorted (newest_first-In c records i) fresh),
    )
