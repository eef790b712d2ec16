-- ===== src/Network/Interrupted.antt =====
-- `_tick` of network_transaction.py keeps an unconfirmed change guarded.
use mindflayer_elderbrain.Base.{
  ◌≡◌, refl, ◌∙◌, Bool, true, false, Option, none, some, List, [], ◌∷◌, inl, inr, String, In, here,
  there, if◌then◌else◌, Bool-cases,
}
use mindflayer_elderbrain.Durable.{
  Machine, Outcome, done, raised, halted, pure, raise, for_each, proceed, proceed_ends,
  proceed_keeps, ◌>>◌,
}
use mindflayer_elderbrain.Network.Files.{
  Error, Directory, is_filename, saved?, saved_eq, Saved, source_changed,
}
use mindflayer_elderbrain.Network.Transaction.{
  Change, Files, State, World, Net, activate, answer, read_file, restore, found,
}
use mindflayer_elderbrain.Network.Operations.{check_unchanged, put_new, apply_new}
use mindflayer_elderbrain.Network.Revert.{
  IsHeld, IsPlan, IsChange, IsOpen, IsGuarded, open_change, put_new_lem, IsHeld-new,
}
use mindflayer_elderbrain.Network.Guard.{restore_lem}

module _ (orig new : Directory) where
  abbrev pub Guards : {A : Type 0} → Outcome Error A × Machine World → Type 0
  Guards x = IsGuarded orig new x.1.disk

  -- `restore(record)` and an exception.
  pub restore-raise :
      (A : Type 0) (e : Error) (r : State) (m : Machine World)
      → IsOpen orig new r m.disk
      → Guards ((restore r >> raise {A = A} e) m)
  restore-raise A e r m h =
      proceed_keeps (λ n. IsGuarded orig new n.disk) (restore r m) _
        (restore_lem orig new r m h).guarded (λ _ _ g. g)

  -- A step that leaves the machine alone where it ends.
  pub record IsCheck {A : Type 0} (m : Machine World) (x : Outcome Error A × Machine World)
      : Type 0 where
    pub guarded : Guards x
    pub same : (a : A) → x.0 ≡ done a → x.1 ≡ m

  found_same : (o : Option Saved) (m : Machine World) → (found o m).1 ≡ m
  found_same none m = refl
  found_same (some s) m = refl

  read_file_same : (n : String) (m : Machine World) → (read_file n m).1 ≡ m
  unfolding read_file
  read_file_same n m = elim (Bool-cases (is_filename n)) [
    | inl good ↦ rw good (found_same (saved? (m.disk.directory n)) m)
    | inr bad ↦ rw bad
  ]

  -- `if test: go on; else: restore(record); raise e`
  pub guarded_test :
      (test : Bool) (e : Error) (r : State) (m : Machine World)
      → IsOpen orig new r m.disk
      → IsCheck m ((if test then pure tt else (restore r >> raise e)) m)
  guarded_test true e r m h = record { guarded = open_change r h; same = λ a d. refl }
  guarded_test false e r m h = record {
    guarded = restore-raise (Unit {0}) e r m h;
    same = λ a d. let (s, x, y) = proceed_ends (restore r m) (λ _. raise e) a d in cc y;
  }

  IsCheck-then :
      {A : Type 0} (r : State) (m : Machine World) (x : Outcome Error A × Machine World)
      (f : A → Net (Unit {0}))
      → IsOpen orig new r m.disk
      → x.1 ≡ m
      → ((a : A) → IsCheck m (f a m))
      → IsCheck m (proceed x f)
  IsCheck-then r m (done a, n) f h e k = rw e (k a)
  IsCheck-then r m (raised b, n) f h e k = record {
    guarded = rw e (open_change r h);
    same = λ a d. cc;
  }
  IsCheck-then r m (halted, n) f h e k = record {
    guarded = rw e (open_change r h);
    same = λ a d. cc;
  }

  pub then-IsCheck :
      (r : State) (m : Machine World) (x : Outcome Error (Unit {0}) × Machine World)
      (rest : Net (Unit {0}))
      → IsCheck m x
      → IsCheck m (rest m)
      → IsCheck m (proceed x (λ _. rest))
  then-IsCheck r m (done a, n) rest h k = rw (h.same a refl) k
  then-IsCheck r m (raised b, n) rest h k = record { guarded = h.guarded; same = λ a d. cc }
  then-IsCheck r m (halted, n) rest h k = record { guarded = h.guarded; same = λ a d. cc }

  check_unchanged_lem :
      (r : State) (n : String) (c : Change) (m : Machine World)
      → IsOpen orig new r m.disk
      → IsCheck m (check_unchanged r (n, c) m)
  unfolding check_unchanged
  check_unchanged_lem r n c m h =
      IsCheck-then r m (read_file n m) _ h (read_file_same n m)
        (λ s. guarded_test (saved_eq s c.before) source_changed r m h)

  pub unchanged_loop :
      (r : State) (fs : Files) (m : Machine World)
      → IsOpen orig new r m.disk
      → IsCheck m (for_each fs (check_unchanged r) m)
  unfolding for_each
  unchanged_loop r [] m h = record { guarded = open_change r h; same = λ a d. refl }
  unchanged_loop r ((n, c) ∷ fs) m h =
      then-IsCheck r m (check_unchanged r (n, c) m) (for_each fs (check_unchanged r))
        (check_unchanged_lem r n c m h) (unchanged_loop r fs m h)

  new_loop :
      (fs : Files) (m : Machine World) (st : Option State)
      → ((n : String) (c : Change) → In (n, c) fs → IsChange orig new n c)
      → m.disk.state ≡ st
      → IsHeld orig new m.disk.directory
      → let x = for_each fs put_new m in (x.1.disk.state ≡ st) × IsHeld orig new x.1.disk.directory
  unfolding for_each put_new
  new_loop [] m st h s held = (s, held)
  new_loop ((n, c) ∷ fs) m st h s held =
      let p = put_new_lem orig new n c m.disk m.power (h n c (here (n, c) fs refl)) held in
      proceed_keeps (λ k. (k.disk.state ≡ st) × IsHeld orig new k.disk.directory) (put_new (n, c) m)
        _ (p.state ∙ s, IsHeld-new orig new m.disk (put_new (n, c) m).1.disk p.others held)
        (λ _ _ k. new_loop fs _ st (λ j d i. h j d (there (n, c) fs i)) k.0 k.1)

  answer_keeps :
      (l : List Bool) (m : Machine World)
      → ((answer l m).1.disk.state ≡ m.disk.state)
        × ((answer l m).1.disk.directory ≡ m.disk.directory)
  answer_keeps [] m = (refl, refl)
  answer_keeps (false ∷ l) m = (refl, refl)
  answer_keeps (true ∷ l) m = (refl, refl)

  pub apply_new_lem :
      (r : State) (m : Machine World) (st : Option State)
      → IsPlan orig new r
      → m.disk.state ≡ st
      → IsHeld orig new m.disk.directory
      → let x = apply_new r m in (x.1.disk.state ≡ st) × IsHeld orig new x.1.disk.directory
  unfolding apply_new activate
  apply_new_lem r m st plan s held =
      proceed_keeps (λ k. (k.disk.state ≡ st) × IsHeld orig new k.disk.directory)
        (for_each r.files put_new m) _ (new_loop r.files m st plan.changes s held)
        (λ _ _ k.
          let a =
            answer_keeps (for_each r.files put_new m).1.disk.replies
              (for_each r.files put_new m).1 in
          (a.0 ∙ k.0, rw a.1 k.1))
