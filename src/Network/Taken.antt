-- ===== src/Network/Taken.antt =====
-- The changes that `stage` of appliance/lib/network_transaction.py records of the files that stand.
use Prim.Native.String.{count}
use mindflayer_elderbrain.Base.{
  some-injective, ◌≡◌, refl, sym, ap, ◌∙◌, Bool, true, false, ◌||◌, Option, if◌then◌else◌, arith,
  none, some, List, [], ◌∷◌, String, ltb, In, In-cases, Result, ok, err,
}
use mathlib.Core.Path.{subst}
use mindflayer_elderbrain.Durable.{
  Machine, Outcome, done, pure, raise, lift, require, proceed, proceed_done, proceed_ends, ◌>>=◌,
  ◌>>◌,
}
use mindflayer_elderbrain.Network.Files.{
  Error, bad_filename, source_changed, bad_candidate, no_file, DirEntry, missing, special, regular,
  Saved, size_limit, is_filename, opt_eq, Directory, saved?, entry_of,
}
use mindflayer_elderbrain.Network.Transaction.{Change, Files, World, Net, found, read_file}
use mindflayer_elderbrain.Network.Request.{Edit, is_some}
use mindflayer_elderbrain.Network.Staging.{is_candidate, record_change, stage_file, stage_files}
use mindflayer_elderbrain.Network.Revert.{Fits}

pub done-injective : {A : Type 0} {a b : A} → ◌≡◌ {A = Outcome Error A} (done a) (done b) → a ≡ b
done-injective h = cc

-- A file that was read is the one that stands there.
regular_lem :
    (big : Bool) (b : String) (t s : Saved)
    → big ≡ ltb size_limit (count b)
    → (if big then none else some (record t { bytes = some b })) ≡ some s
    → (entry_of s ≡ regular b t.mode t.uid t.gid) × Fits s.bytes
regular_lem true b t s e h = cc
regular_lem false b t s e h =
    subst (λ z. (entry_of z ≡ regular b t.mode t.uid t.gid) × Fits z.bytes) (some-injective h)
      (refl, sym e)

entry_lem : (e : DirEntry) (s : Saved) → saved? e ≡ some s → (entry_of s ≡ e) × Fits s.bytes
entry_lem missing s h =
    subst (λ z. (entry_of z ≡ missing) × Fits z.bytes) (some-injective h) (refl, tt)
entry_lem special s h = cc
entry_lem (regular b m u g) s h =
    regular_lem (ltb size_limit (count b)) b (record { bytes = none; mode = m; uid = u; gid = g }) s
      refl h

-- A change as `stage` records it from a directory.
pub record IsTaken (dir : Directory) (n : String) (c : Change) : Type 0 where
  pub name : is_filename n ≡ true
  pub old : entry_of c.before ≡ dir n
  pub old_fits : Fits c.before.bytes
  pub new_fits : Fits c.after

module _ {B : Type 0} where
  pub lift_ends :
      {A : Type 0} (r : Result Error A) (f : A → Net B) (m : Machine World) (b : B)
      → (proceed (lift r m) f).0 ≡ done b
      → (a : A) × (r ≡ ok a) × (proceed (lift r m) f ≡ f a m)
  lift_ends (ok a) f m b h = (a, refl, refl)
  lift_ends (err e) f m b h = cc

  require_ends :
      (t : Bool) (e : Error) (rest : Net B) (m : Machine World) (b : B)
      → ((require t e >> rest) m).0 ≡ done b
      → (t ≡ true) × ((require t e >> rest) m ≡ rest m)
  require_ends true e rest m b h = (refl, refl)
  require_ends false e rest m b h = cc

found_lem :
    (o : Option Saved) (m : Machine World) (s : Saved)
    → (found o m).0 ≡ done s
    → (o ≡ some s) × ((found o m).1 ≡ m)
found_lem none m s h = cc
found_lem (some t) m s h = (cc, refl)

read_at :
    (good : Bool) (o : Option Saved) (m : Machine World) (s : Saved)
    → (if good then found o m else raise bad_filename m).0 ≡ done s
    → (good ≡ true) × (o ≡ some s) × ((if good then found o m else raise bad_filename m).1 ≡ m)
read_at true o m s h = let (e, same) = found_lem o m s h in (refl, e, same)
read_at false o m s h = cc

read_file_ends :
    (n : String) (m : Machine World) (s : Saved)
    → (read_file n m).0 ≡ done s
    → (is_filename n ≡ true) × (saved? (m.disk.directory n) ≡ some s) × ((read_file n m).1 ≡ m)
unfolding read_file
read_file_ends n m s h = read_at (is_filename n) (saved? (m.disk.directory n)) m s h

is_candidate-Fits : (o : Option String) → is_candidate o ≡ true → Fits o
is_candidate-Fits none h = tt
is_candidate-Fits (some b) h = ground arith

-- One file that was taken, and the machine is as it was.
record IsRound (n : String) (m : Machine World) (f : String × Change)
    (x : Outcome Error (String × Change) × Machine World) : Type 0 where
  same : x.1 ≡ m
  name : f.0 ≡ n
  taken : IsTaken m.disk.directory f.0 f.1

record_change_ends :
    (n : String) (e : Edit) (s : Saved) (m : Machine World) (f : String × Change)
    → (record_change n e s m).0 ≡ done f
    → (is_candidate e.after ≡ true)
      × (record_change n e s m ≡ (done (n, record { before = s; after = e.after }), m))
unfolding record_change
record_change_ends n e s m f h =
    let made : String × Change = (n, record { before = s; after = e.after }) in
    let (_, step₁) = require_ends (opt_eq s.bytes e.before) source_changed _ m f h in
    let h₁ = subst (λ x. x.0 ≡ done f) step₁ h in
    let (fits, step₂) = require_ends (is_candidate e.after) bad_candidate _ m f h₁ in
    let h₂ = subst (λ x. x.0 ≡ done f) step₂ h₁ in
    let (_, step₃) = require_ends (is_some s.bytes || is_some e.after) no_file (pure made) m f h₂ in
    (fits, step₁ ∙ step₂ ∙ step₃)

round :
    (n : String) (e : Edit) (s : Saved) (m : Machine World) (f : String × Change)
    (x : Outcome Error (String × Change) × Machine World)
    → is_filename n ≡ true
    → saved? (m.disk.directory n) ≡ some s
    → is_candidate e.after ≡ true
    → x ≡ (done (n, record { before = s; after = e.after }), m)
    → x.0 ≡ done f
    → IsRound n m f x
round n e s m f x name at fits ends h =
    let (old, old_fits) = entry_lem (m.disk.directory n) s at in
    let made : f ≡ (n, record { before = s; after = e.after }) =
      done-injective (sym h ∙ ap (λ y. y.0) ends) in
    record {
      same = ap (λ y. y.1) ends;
      name = ap (λ y. y.0) made;
      taken =
          subst (λ y. IsTaken m.disk.directory y.0 y.1) (sym made)
            (record {
              name = name;
              old = old;
              old_fits = old_fits;
              new_fits = is_candidate-Fits e.after fits;
            });
    }

stage_file_lem :
    (n : String) (e : Edit) (m : Machine World) (f : String × Change)
    → (stage_file (n, e) m).0 ≡ done f
    → IsRound n m f (stage_file (n, e) m)
unfolding stage_file
stage_file_lem n e m f h =
    let (s, read, rest) = proceed_ends (read_file n m) (record_change n e) f h in
    let (name, at, same) = read_file_ends n m s read in
    let ends =
      proceed_done (read_file n m) (record_change n e) s read ∙ ap (record_change n e s) same in
    let rest' = subst (λ y. (record_change n e s y).0 ≡ done f) same rest in
    let (fits, whole) = record_change_ends n e s m f rest' in
    round n e s m f (stage_file (n, e) m) name at fits (ends ∙ whole) h

abbrev pub names : Files → List String
names [] = []
names (f ∷ rest) = f.0 ∷ names rest

abbrev pub edited : List (String × Edit) → List String
edited [] = []
edited (x ∷ rest) = x.0 ∷ edited rest

-- The files that were taken, by the names that were asked for.
pub record IsTakenAll (asked : List String) (m : Machine World) (files : Files)
    (x : Outcome Error Files × Machine World) : Type 0 where
  pub same : x.1 ≡ m
  pub names : names files ≡ asked
  pub taken : (n : String) (c : Change) → In (n, c) files → IsTaken m.disk.directory n c

taken_more :
    (n : String) (f : String × Change) (files : Files) (rest : List String) (m : Machine World)
    (x : Outcome Error (String × Change) × Machine World) (y : Outcome Error Files × Machine World)
    → IsRound n m f x
    → IsTakenAll rest m files y
    → IsTakenAll (n ∷ rest) m (f ∷ files) (done (f ∷ files), y.1)
taken_more n f files rest m x y one all = record {
  same = all.same;
  names = rw (one.name, all.names);
  taken = λ k c i.
      In-cases (k, c) f files i
        (λ e. subst (λ z. IsTaken m.disk.directory z.0 z.1) (sym e) one.taken) (all.taken k c);
}

pub stage_files_lem :
    (xs : List (String × Edit)) (m : Machine World) (files : Files)
    → (stage_files xs m).0 ≡ done files
    → IsTakenAll (edited xs) m files (stage_files xs m)
unfolding stage_files
stage_files_lem [] m files h =
    subst (λ z. IsTakenAll [] m z (done [], m)) (done-injective h)
      (record { same = refl; names = refl; taken = λ n c i. elim i [ ] })
stage_files_lem ((n, e) ∷ xs) m files h =
    let next : (String × Change) → Net Files = λ f. stage_files xs >>= λ fs. pure (f ∷ fs) in
    let (f, first, h₁) = proceed_ends (stage_file (n, e) m) next files h in
    let one = stage_file_lem n e m f first in
    let h₂ = subst (λ y. (next f y).0 ≡ done files) one.same h₁ in
    let (fs, others, h₃) = proceed_ends (stage_files xs m) (λ fs. pure (f ∷ fs)) files h₂ in
    let all =
      taken_more n f fs (edited xs) m (stage_file (n, e) m) (stage_files xs m) one
        (stage_files_lem xs m fs others) in
    let whole =
      proceed_done (stage_file (n, e) m) next f first
      ∙ ap (next f) one.same
      ∙ proceed_done (stage_files xs m) (λ fs. pure (f ∷ fs)) fs others in
    subst (λ x. IsTakenAll (n ∷ edited xs) m files x) (sym whole)
      (subst (λ z. IsTakenAll (n ∷ edited xs) m z (done (f ∷ fs), (stage_files xs m).1))
        (done-injective h₃) all)
