-- ===== src/Pending/Keeping.antt =====
-- Each part of `retry` (appliance/lib/backup_pending.py) keeps what is not uploaded, wherever it ends.
use mindflayer_elderbrain.Base.{
  ℕ, zero, suc, ◌≡◌, refl, Bool, true, false, List, [], ◌∷◌, String, str_eq_self, has_name,
}
use mathlib.Core.Path.{subst}
use mindflayer_elderbrain.Durable.{
  Machine, Outcome, done, raised, halted, spend, write, require, gets, pure, proceed, ◌>>=◌, ◌>>◌,
}
use mindflayer_elderbrain.Pending.Store.{
  Error, State, checkpoint_ready, pending_upload, uploaded, completed, Backup, Pin, World,
  find_record, is_completed, is_uploaded, is_pin_of, has_record,
}
use mindflayer_elderbrain.Pending.Store as Store
use mindflayer_elderbrain.Pending.Operations.{
  Pend, reply, try_call, call, write_record, make_archive, ready, name_archive, with_archive, sent,
  note_upload, transfer, transfer_after, attempt,
}
use mindflayer_elderbrain.Pending.Safe.{
  is_finished, IsTrue, IsSafe, save-IsSafe, upload-IsSafe, archive-IsSafe,
}

uploaded_finished : (s : State) → is_uploaded s ≡ true → is_finished s ≡ true
uploaded_finished checkpoint_ready e = cc
uploaded_finished pending_upload e = cc
uploaded_finished uploaded e = refl
uploaded_finished completed e = refl

done-injective : {A : Type 0} {a c : A} → ◌≡◌ {A = Outcome Error A} (done a) (done c) → a ≡ c
done-injective e = cc

module _ (b : World) where
  -- What was there at `b` is safe, and where the program ended with a value, that and the disk fit.
  abbrev pub After : {A : Type 0} → (A → World → Type 0) → Outcome Error A × Machine World → Type 0
  After {A = A} P x = IsSafe b x.1.disk × ((a : A) → x.0 ≡ done a → P a x.1.disk)

  abbrev pub Any : {A : Type 0} → A → World → Type 0
  Any a w = Unit

  pub After-done :
      {A : Type 0} (P : A → World → Type 0) (a : A) (m : Machine World)
      → IsSafe b m.disk
      → P a m.disk
      → After P (done a, m)
  After-done P a m safe p = (safe, λ c e. subst (λ d. P d m.disk) (done-injective e) p)

  pub After-bind :
      {A C : Type 0} (P : A → World → Type 0) (Q : C → World → Type 0)
      (x : Outcome Error A × Machine World) (f : A → Pend C)
      → After P x
      → ((a : A) (m : Machine World) → IsSafe b m.disk → P a m.disk → After Q (f a m))
      → After Q (proceed x f)
  After-bind P Q (done a, m) f (safe, post) next = next a m safe (post a refl)
  After-bind P Q (raised e, m) f (safe, post) next = (safe, λ c k. cc)
  After-bind P Q (halted, m) f (safe, post) next = (safe, λ c k. cc)

  spend-After :
      (P : Unit {0} → World → Type 0) (f : World → World) (p : ℕ) (w : World)
      → IsSafe b w
      → IsSafe b (f w)
      → P tt (f w)
      → After P (let x : Outcome Error (Unit {0}) × Machine World = spend p f w in x)
  spend-After P f zero w safe new post = (safe, λ c k. cc)
  spend-After P f (suc p) w safe new post = (new, λ c k. post)

  -- What is known of the uploads stays true over a call.
  abbrev pub Still : {A : Type 0} → (List String → Type 0) → A → World → Type 0
  Still P a w = P w.uploaded

  reply-After :
      (P : List String → Type 0) (l : List Bool) (m : Machine World)
      → IsSafe b m.disk
      → P m.disk.uploaded
      → After {A = Bool} (Still P) (reply l m)
  reply-After P [] m safe h = (safe, λ c k. h)
  reply-After P (r ∷ rest) m safe h = (safe, λ c k. h)

  pub require-After :
      (P : List String → Type 0) (test : Bool) (e : Error) (m : Machine World)
      → IsSafe b m.disk
      → P m.disk.uploaded
      → After {A = Unit {0}}
          (Still P)
          (let x : Outcome Error (Unit {0}) × Machine World = require test e m in x)
  require-After P true e m safe h = (safe, λ c k. h)
  require-After P false e m safe h = (safe, λ c k. h)

  pub call-After :
      (P : List String → Type 0) (m : Machine World)
      → IsSafe b m.disk
      → P m.disk.uploaded
      → After {A = Unit {0}} (Still P) (call m)
  call-After P m safe h =
      After-bind (Still P) (Still P) (try_call m) (λ r. require r Error.call_failed)
        (reply-After P m.disk.replies m safe h)
        (λ r n kept k. require-After P r Error.call_failed n kept k)

  -- A write that keeps what is safe, under what holds before it and is left as it is.
  pub write-After :
      (P : World → Type 0) (f : World → World) (m : Machine World)
      → IsSafe b m.disk
      → IsSafe b (f m.disk)
      → P (f m.disk)
      → After {A = Unit {0}}
          (λ _. P)
          (let x : Outcome Error (Unit {0}) × Machine World = write f m in x)
  write-After P f m safe new post = spend-After (λ _. P) f m.power m.disk safe new post

  -- The record that is at hand says the truth, and the backup was uploaded where it is to be so.
  abbrev pub Result : Bool × Backup → World → Type 0
  Result (false, r) w = IsTrue w.uploaded r
  Result (true, r) w = has_name r.id w.uploaded ≡ true

  abbrev pub HasArchive : Bool × Backup → World → Type 0
  HasArchive (works, r) w = IsTrue w.uploaded r

  make_archive-After :
      (there : Bool) (r : Backup) (m : Machine World)
      → IsSafe b m.disk
      → After {A = Unit {0}} Any (make_archive there r m)
  make_archive-After true r m safe = (safe, λ c k. tt)
  make_archive-After false r m safe =
      write-After (λ w. Unit) (λ w. record w { archives = r.id ∷ w.archives }) m safe
        (archive-IsSafe b r.id m.disk safe) tt

  pub save-After :
      (P : World → Type 0) (r : Backup) (m : Machine World)
      → IsSafe b m.disk
      → IsTrue m.disk.uploaded r
      → P (record m.disk { records = Store.save r m.disk.records })
      → After {A = Unit {0}} (λ _. P) (write_record r m)
  save-After P r m safe new post =
      write-After P (λ w. record w { records = Store.save r w.records }) m safe
        (save-IsSafe b r m.disk new safe) post

  name_archive-After :
      (works : Bool) (r : Backup) (m : Machine World)
      → IsSafe b m.disk
      → IsTrue m.disk.uploaded r
      → After HasArchive (name_archive works r m)
  name_archive-After false r m safe true_r = After-done HasArchive (false, r) m safe true_r
  name_archive-After true r m safe true_r =
      After-bind Any HasArchive (make_archive (has_name r.id m.disk.archives) r m)
        (λ _. write_record (ready r) >> pure (true, ready r))
        (make_archive-After (has_name r.id m.disk.archives) r m safe)
        (λ _ n kept _.
          After-bind Any HasArchive (write_record (ready r) n) (λ _. pure (true, ready r))
            (save-After (λ w. Unit) (ready r) n kept (λ e. cc) tt)
            (λ _ o still _. After-done HasArchive (true, ready r) o still (λ e. cc)))

  with_archive-After :
      (has : Bool) (r : Backup) (m : Machine World)
      → IsSafe b m.disk
      → IsTrue m.disk.uploaded r
      → After HasArchive (with_archive has r m)
  with_archive-After true r m safe true_r = After-done HasArchive (true, r) m safe true_r
  with_archive-After false r m safe true_r =
      After-bind (Still (λ u. IsTrue u r)) HasArchive (try_call m) (λ works. name_archive works r)
        (reply-After (λ u. IsTrue u r) m.disk.replies m safe true_r)
        (λ works n kept k. name_archive-After works r n kept k)

  note_upload-After :
      (works : Bool) (r : Backup) (m : Machine World)
      → IsSafe b m.disk
      → IsTrue m.disk.uploaded r
      → After Result (note_upload works r m)
  note_upload-After false r m safe true_r = After-done Result (false, r) m safe true_r
  note_upload-After true r m safe true_r =
      let rest : Unit {0} → Pend (Bool × Backup) =
        λ _. gets (λ w. sent w.now r) >>= λ s. write_record s >> pure (true, s) in
      After-bind (λ _ w. has_name r.id w.uploaded ≡ true) Result
        (write (λ w. record w { uploaded = r.id ∷ w.uploaded }) m) rest
        (write-After (λ w. has_name r.id w.uploaded ≡ true)
          (λ w. record w { uploaded = r.id ∷ w.uploaded }) m safe (upload-IsSafe b r.id m.disk safe)
          (rw (str_eq_self r.id) refl))
        (λ _ n kept known.
          After-bind (λ _ w. has_name r.id w.uploaded ≡ true) Result
            (write_record (sent n.disk.now r) n) (λ _. pure (true, sent n.disk.now r))
            (save-After (λ w. has_name r.id w.uploaded ≡ true) (sent n.disk.now r) n kept
              (λ e. known) known)
            (λ _ o still k. After-done Result (true, sent n.disk.now r) o still k))

  transfer-After :
      (uploaded_before : Bool) (r : Backup) (m : Machine World)
      → is_uploaded r.state ≡ uploaded_before
      → IsSafe b m.disk
      → IsTrue m.disk.uploaded r
      → After Result (transfer uploaded_before r m)
  transfer-After true r m e safe true_r =
      After-done Result (true, r) m safe (true_r (uploaded_finished r.state e))
  transfer-After false r m e safe true_r =
      After-bind (Still (λ u. IsTrue u r)) Result (try_call m) (λ works. note_upload works r)
        (reply-After (λ u. IsTrue u r) m.disk.replies m safe true_r)
        (λ works n kept k. note_upload-After works r n kept k)

  transferred-After :
      (x : Bool × Backup) (m : Machine World)
      → IsSafe b m.disk
      → HasArchive x m.disk
      → After Result (transfer_after x m)
  transferred-After (false, r) m safe h = After-done Result (false, r) m safe h
  transferred-After (true, r) m safe h = transfer-After (is_uploaded r.state) r m refl safe h

  pub attempt-After :
      (r : Backup) (m : Machine World)
      → IsSafe b m.disk
      → IsTrue m.disk.uploaded r
      → After Result (attempt r m)
  attempt-After r m safe true_r =
      After-bind HasArchive Result (with_archive r.has_archive r m) transfer_after
        (with_archive-After r.has_archive r m safe true_r)
        (λ x n kept h. transferred-After x n kept h)
