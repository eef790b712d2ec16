-- ===== src/Restore/Disjoint.antt =====
-- What the constructor of `RestoreTransaction` accepts.
use mindflayer_elderbrain.Base
use mindflayer_elderbrain.Base.{
  ℕ, ◌≡◌, ◌≢◌, refl, Bool, true, false, not, ◌&&◌, ◌||◌, ◌⊎◌, inl, inr, List, [], ◌∷◌, String,
  str_eq, eq_iff, arith, In, here, there, some_of, if◌then◌else◌, Bool-cases, ok, err, Result, ap,
  sym,
}
use mathlib.Core.Path.{subst₂}
use mindflayer_elderbrain.Restore.Slot.{Error, unsafe_target, targets_overlap, journal_in_target}
use mindflayer_elderbrain.Restore.Transaction.{
  FilePath, Targets, Host, Transaction, create, check_target, check_targets, is_unsafe, overlaps,
  path_eq, is_relative_to,
}

some_of-false {ℓ} :
    {A : Type ℓ} (p : A → Bool) (xs : List A) (a : A) → some_of p xs ≡ false → In a xs → p a ≡ false
some_of-false p [] a h i = elim i [ ]
some_of-false p (x ∷ xs) a h (here _ _ e) = rw e (ground arith)
some_of-false p (x ∷ xs) a h (there _ _ i) = some_of-false p xs a (ground arith) i

-- What is asked of each target, said of the paths.
pub record IsSafe (h : Host) (journal : FilePath) (all : Targets) (key : String) (target : FilePath)
    : Type 0 where
  pub canonical : h.is_canonical target ≡ true
  pub parent : h.has_parent_dir target ≡ true
  pub unmounted : h.is_mount target ≡ false
  pub apart :
      (other : String) (path : FilePath)
      → In (other, path) all
      → other ≢ key
      → (path_eq target path ≡ false) × (is_relative_to target path ≡ false)
  pub journal_outside : is_relative_to journal target ≡ false

or_false : {a b : Bool} → (a || b) ≡ false → (a ≡ false) × (b ≡ false)
or_false {a = true} {b = b} h = cc
or_false {a = false} {b = b} h = (refl, h)

accepted :
    (x y z : Error) (a b c : Bool)
    → (let r : Result Error (Unit {0}) =
          if a then err x else if b then err y else if c then err z else ok tt in
        r)
      ≡ ok tt
    → (a ≡ false) × (b ≡ false) × (c ≡ false)
accepted x y z true b c h = cc
accepted x y z false true c h = cc
accepted x y z false false true h = cc
accepted x y z false false false h = (refl, refl, refl)

not-true : {a : Bool} → not a ≡ false → a ≡ true
not-true {a = true} h = refl
not-true {a = false} h = cc

apart_lem :
    (key : String) (target : FilePath) (other : String) (path : FilePath)
    → other ≢ key
    → (not (str_eq other key) && (path_eq target path || is_relative_to target path)) ≡ false
    → (path_eq target path || is_relative_to target path) ≡ false
apart_lem key target other path ne h = elim (Bool-cases (str_eq other key)) [
  | inl same ↦ absurd (ne ((eq_iff other key).0 same))
  | inr differ ↦ rw differ at h
]

check_target-IsSafe :
    (h : Host) (journal : FilePath) (all : Targets) (key : String) (target : FilePath)
    → check_target h journal all key target ≡ ok tt
    → IsSafe h journal all key target
unfolding check_target
check_target-IsSafe h journal all key target e =
    let (safe, apart, outside) =
      accepted unsafe_target targets_overlap journal_in_target (is_unsafe h key target)
        (overlaps all key target) (is_relative_to journal target) e in
    record {
      canonical = ground arith;
      parent = ground arith;
      unmounted = ground arith;
      apart = λ other path i ne.
          or_false (apart_lem key target other path ne (some_of-false _ all (other, path) apart i));
      journal_outside = outside;
    }

check_targets-IsSafe :
    (h : Host) (journal : FilePath) (all rest : Targets)
    → check_targets h journal all rest ≡ ok tt
    → (key : String) (target : FilePath) → In (key, target) rest
    → IsSafe h journal all key target
unfolding check_targets
check_targets-IsSafe h journal all [] e key target i = elim i [ ]
check_targets-IsSafe h journal all ((k, p) ∷ rest) e key target (here _ _ q) =
    subst₂ (λ x y. IsSafe h journal all x y) (sym (ap (λ x. x.0) q)) (sym (ap (λ x. x.1) q))
      (check_target-IsSafe h journal all k p
        (Base.then-ok (check_target h journal all k p) (check_targets h journal all rest) e).0)
check_targets-IsSafe h journal all ((k, p) ∷ rest) e key target (there _ _ i) =
    check_targets-IsSafe h journal all rest
      (Base.then-ok (check_target h journal all k p) (check_targets h journal all rest) e).1 key
      target i

-- A transaction is created only for targets each of which is canonical, stands in a directory, is
-- no mount point, does not hold the journal, and is neither equal to nor below the target of
-- another key.
pub create-IsSafe :
    (h : Host) (journal : FilePath) (targets : Targets) (t : Transaction)
    → create h journal targets ≡ ok t
    → (t.targets ≡ targets)
      × (t.journal ≡ journal)
      × ((key : String) (target : FilePath)
          → In (key, target) targets
          → IsSafe h journal targets key target)
unfolding create
create-IsSafe h journal [] t e = cc
create-IsSafe h journal (x ∷ xs) t e =
    let (u, checked, same) = Base.bind-ok (check_targets h journal (x ∷ xs) (x ∷ xs)) _ e in
    (ground arith, ground arith, check_targets-IsSafe h journal (x ∷ xs) (x ∷ xs) checked)
