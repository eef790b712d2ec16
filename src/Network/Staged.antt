-- ===== src/Network/Staged.antt =====
-- What `stage` of appliance/lib/network_transaction.py records is what the rollback needs: a change that
-- was staged and that nobody confirms leaves the files as they were.
use mindflayer_elderbrain.Base.{
  some-injective, ℕ, zero, suc, ◌+◌, ◌≤◌, ◌≡◌, ◌≢◌, refl, sym, ap, ◌∙◌, Bool, true, false, Option,
  none, not, ◌&&◌, is_digest, guard, guard-ok, then-ok, ok, ◌⊎◌, inl, inr, some, List, [], ◌∷◌,
  String, str_eq, str_eq-true, str_eq-false, str_eq_self, In, here, there, In-cases, Distinct,
  Bool-cases,
}
use mathlib.Core.Path.{subst}
use mindflayer_elderbrain.Durable.{Machine, Outcome, done, lift, proceed_done, proceed_ends, ◌>>=◌}
use mindflayer_elderbrain.Durable.Keeps.{lift_at}
use mindflayer_elderbrain.Network.Files.{
  Error, identity_used, in_progress, cleanup_pending, hierarchy_changed, Directory, put_file,
  entry_of,
}
use mindflayer_elderbrain.Network.Transaction.{
  staged, rolled_back, is_terminal, Change, Confirmation, Files, State, World, Verifiers, Net,
}
use mindflayer_elderbrain.Network.Request.{
  Request, check_request, check_confirmation, none_or, used, is_clean, check_free, check_current,
}
use mindflayer_elderbrain.Network.Staging.{Public, stage_files, new_record, save_new, stage}
use mindflayer_elderbrain.Network.Taken.{
  IsTaken, IsTakenAll, names, edited, stage_files_lem, lift_ends,
}
use mindflayer_elderbrain.Network.Operations.{recover_boot}
use mindflayer_elderbrain.Network.Revert.{new_saved, IsOpen}
use mindflayer_elderbrain.Network.Events.{
  Setting, Event, begin, history, changes_left, unconfirmed_change_rolls_back,
}

-- The directory with the changes applied.
abbrev pub with_changes : Files → Directory → Directory
with_changes [] dir = dir
with_changes ((n, c) ∷ rest) dir = put_file n (entry_of (new_saved c)) (with_changes rest dir)

name_of : (n : String) (c : Change) (files : Files) → In (n, c) files → In n (names files)
name_of n c [] i = elim i [ ]
name_of n c (f ∷ rest) i =
    In-cases (n, c) f rest i (λ e. here _ _ (ap (λ z. z.0) e)) (λ j. there _ _ (name_of n c rest j))

changed_lem :
    (n : String) (c : Change) (files : Files) (dir : Directory)
    → Distinct (names files)
    → In (n, c) files
    → with_changes files dir n ≡ entry_of (new_saved c)
changed_lem n c [] dir distinct i = elim i [ ]
changed_lem n c ((k, d) ∷ rest) dir distinct i =
    In-cases (n, c) (k, d) rest i
      (λ e.
        rw ((ap (λ z. str_eq z k) (ap (λ z. z.0) e) ∙ str_eq_self k))
          (ap (λ z. entry_of (new_saved z.1)) (sym e)))
      (λ j.
        rw
          (str_eq-false n k
            (λ e. distinct.0 (subst (λ z. In z (names rest)) e (name_of n c rest j))))
          (changed_lem n c rest dir distinct.1 j))

covered :
    (files : Files) (dir : Directory) (n : String)
    → ((c : Change) × In (n, c) files) ⊎ (with_changes files dir n ≡ dir n)
covered [] dir n = inr refl
covered ((k, d) ∷ rest) dir n = elim (Bool-cases (str_eq n k)) [
  | inl same ↦ inl (d, here _ _ (ap (λ z. (z, d)) (str_eq-true n k same)))
  | inr other ↦ elim (covered rest dir n) [
    | inl (c, i) ↦ inl (c, there _ _ i)
    | inr e ↦ inr (rw other e)
  ]
]

-- The record that `stage` saves is open over the directory.
save_at :
    (r : State) (d : World) (p : ℕ) (a : Public)
    → Distinct (names r.files)
    → r.phase ≡ staged
    → ((n : String) (c : Change) → In (n, c) r.files → IsTaken d.directory n c)
    → (save_new r (record { disk = d; power = p })).0 ≡ done a
    → IsOpen d.directory
        (with_changes r.files d.directory)
        r
        (save_new r (record { disk = d; power = p })).1.disk
save_at r d zero a distinct phase taken h = cc
save_at r d (suc p) a distinct phase taken h = record {
  plan = record {
    changes = λ n c i.
        let t = taken n c i in
        record {
          name = t.name;
          old = t.old;
          changed = sym (changed_lem n c r.files d.directory distinct i);
          old_fits = t.old_fits;
          new_fits = t.new_fits;
        };
    covers = covered r.files d.directory;
  };
  state = refl;
  held = λ n. inl refl;
  staged_intact = λ e n. refl;
  unfinished = rw phase refl;
}

-- A call of `stage` that returns.
record IsNew (q : Request) (v : Verifiers) (m : Machine World) (r : State)
    (x : Outcome Error Public × Machine World) : Type 0 where
  phase : r.phase ≡ staged
  taken : IsTakenAll (edited q.changes) m r.files (done r.files, m)
  free : check_current v q m.disk.state ≡ ok tt
  whole : x ≡ save_new r m

stage_ends :
    (v : Verifiers) (fresh : String) (q : Request) (m : Machine World) (a : Public)
    → (stage v fresh q m).0 ≡ done a
    → (r : State) × IsNew q v m r (stage v fresh q m)
unfolding stage
stage_ends v fresh q m a h =
    let last : Option Confirmation → Files → Net Public =
      λ c files n. save_new (new_record fresh q c files n.disk) n in
    let third : Option Confirmation → Net Public = λ c. stage_files q.changes >>= last c in
    let second : Option Confirmation → Net Public =
      λ c. (λ n. lift (check_current v q n.disk.state) n) >>= λ _. third c in
    let first : Net Public = lift (check_confirmation q.confirmation) >>= second in
    let (_, _, e₁) = lift_ends (check_request q) (λ _. first) m a h in
    let (c, _, e₂) =
      lift_ends (check_confirmation q.confirmation) second m a (subst (λ x. x.0 ≡ done a) e₁ h) in
    let h₂ = subst (λ x. x.0 ≡ done a) (e₁ ∙ e₂) h in
    let (_, free, e₃) = lift_ends (check_current v q m.disk.state) (λ _. third c) m a h₂ in
    let h₃ = subst (λ x. x.0 ≡ done a) e₃ h₂ in
    let (files, took, h₄) = proceed_ends (stage_files q.changes m) (last c) a h₃ in
    let all = stage_files_lem q.changes m files took in
    let ends =
      proceed_done (stage_files q.changes m) (last c) files took ∙ ap (last c files) all.same in
    (
      new_record fresh q c files m.disk,
      record {
        phase = refl;
        taken = record { same = refl; names = all.names; taken = all.taken };
        free = free;
        whole = e₁ ∙ e₂ ∙ e₃ ∙ ends;
      },
    )

-- What is staged and not confirmed is rolled back. Let `stage` return for changes of distinct files; then let
-- any ticks, boots, cancels and confirmations without proof happen, with any clocks and answers of
-- callbacks, each cut short at any durable write. A boot that has the power to write each of the
-- record's files once and two records more, and whose `apply` returns, leaves the change rolled back
-- and every file of the directory as it was when `stage` was called.
pub staged_change_rolls_back :
    (v : Verifiers) (fresh : String) (q : Request) (m : Machine World) (a : Public)
    (es : List (Setting × Event)) (t : Setting) (rest : List Bool) (hook : Bool)
    → Distinct (edited q.changes)
    → (stage v fresh q m).0 ≡ done a
    → t.replies ≡ true ∷ rest
    → changes_left (history es (stage v fresh q m).1.disk) + 2 ≤ t.power
    → let end = (recover_boot hook (begin t (history es (stage v fresh q m).1.disk))).1.disk in
      (s : State) × (end.state ≡ some s)
      × (s.phase ≡ rolled_back)
      × ((n : String) → end.directory n ≡ m.disk.directory n)
staged_change_rolls_back v fresh q m a es t rest hook distinct h e big =
    let (r, new) = stage_ends v fresh q m a h in
    let saved = subst (λ x. x.0 ≡ done a) new.whole h in
    let opened =
      save_at r m.disk m.power a (subst Distinct (sym new.taken.names) distinct) new.phase
        new.taken.taken saved in
    unconfirmed_change_rolls_back m.disk.directory (with_changes r.files m.disk.directory) r
      (stage v fresh q m).1.disk es t rest hook
      (subst (λ x. IsOpen m.disk.directory (with_changes r.files m.disk.directory) r x.1.disk)
        (sym new.whole) opened)
      e big

-- The record holds a change that has not ended, or whose owner's cleanup is still to do.
abbrev pub IsBusy : State → Type 0
IsBusy r =
    (is_terminal r.phase ≡ false)
    ⊎ ((owner : String) × (r.restore_owner ≡ some owner) × (r.cleanup_complete ≡ false))

busy_lem : (identifier : Option String) (r : State) → IsBusy r → check_free identifier r ≢ ok tt
unfolding check_free
busy_lem identifier r busy h =
    let (_, h₁) = then-ok (guard (not (used identifier r)) identity_used) _ h in
    let (h₂, h₃) = then-ok (guard (is_terminal r.phase) in_progress) _ h₁ in
    let over = guard-ok (is_terminal r.phase) in_progress h₂ in
    let clean = guard-ok (is_clean r) cleanup_pending h₃ in
    elim busy [ inl going ↦ cc | inr (o, e, dirty) ↦ cc (rw (e, dirty) at clean) ]

busy_current :
    (v : Verifiers) (q : Request) (current : Option State) (r : State)
    → current ≡ some r
    → IsBusy r
    → check_current v q current ≢ ok tt
unfolding check_current
busy_current v q none r e busy h = cc
busy_current v q (some s) r e busy h =
    let (_, free) =
      then-ok (guard (none_or (λ f. is_digest f && v.sources f) q.fingerprint) hierarchy_changed) _
        h in
    busy_lem q.identifier s (subst IsBusy (sym (some-injective e)) busy) free

-- A change that waits for its end is not displaced. While the record holds a change that has not ended,
-- or whose owner's cleanup is still to do, `stage` does not return, whatever it is asked, and leaves the
-- disk as it was.
pub busy_change_is_kept :
    (v : Verifiers) (fresh : String) (q : Request) (m : Machine World) (r : State)
    → m.disk.state ≡ some r
    → IsBusy r
    → ((a : Public) → (stage v fresh q m).0 ≢ done a) × ((stage v fresh q m).1.disk ≡ m.disk)
unfolding stage
busy_change_is_kept v fresh q m r st busy =
    let stuck = busy_current v q m.disk.state r st busy in
    let Same : World → Type 0 = λ d. d ≡ m.disk in
    (
      (λ a h. let (_, new) = stage_ends v fresh q m a h in stuck new.free),
      lift_at Same (check_request q) _ m refl (λ _ _.
          lift_at Same (check_confirmation q.confirmation) _ m refl (λ c _.
            lift_at Same (check_current v q m.disk.state) _ m refl
              (λ _ free. absurd (stuck free)))),
    )
