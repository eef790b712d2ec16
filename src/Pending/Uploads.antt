-- ===== src/Pending/Uploads.antt =====
-- `retry` and the first `capture` of an owner (appliance/lib/backup_pending.py) keep what is not uploaded.
use mindflayer_elderbrain.Base.{
  sym, Bool, true, false, inl, inr, Option, some, List, [], ◌∷◌, String, Option-cases,
}
use mathlib.Core.Path.{subst}
use mindflayer_elderbrain.Durable.{Machine, write, require, gets, pure, for_each, ◌>>=◌, ◌>>◌}
use mindflayer_elderbrain.Pending.Store.{
  Error, Backup, Pin, World, find_record, is_completed, has_record,
}
use mindflayer_elderbrain.Pending.Operations.{
  call, write_record, pinned_records, new_record, write_missing, recover_one, recover_pin,
  continue_unless, stored_or, retry_record, retry_given, capture_new,
}
use mindflayer_elderbrain.Pending.Safe.{IsTrue, IsHonest, IsSafe, find_record-IsTrue, pin-IsSafe}
use mindflayer_elderbrain.Pending.Keeping.{
  After, Any, Still, After-done, After-bind, require-After, call-After, write-After, save-After,
}
use mindflayer_elderbrain.Pending.Retrying.{pinned-After, continue-After}

module _ (b : World) where
  continue_unless-After :
      (completed : Bool) (r : Backup) (m : Machine World)
      → IsSafe b m.disk
      → IsTrue m.disk.uploaded r
      → After b {A = Backup} (Any b) (continue_unless completed r m)
  continue_unless-After true r m safe h = After-done b (Any b) r m safe tt
  continue_unless-After false r m safe h = continue-After b r m safe h

  stored_or-IsTrue :
      (r : Backup) (records : List Backup) (uploads : List String)
      → IsHonest records uploads
      → IsTrue uploads r
      → IsTrue uploads (stored_or r (find_record r.id records))
  stored_or-IsTrue r records uploads honest h = elim (Option-cases (find_record r.id records)) [
    | inl e ↦ subst (λ o. IsTrue uploads (stored_or r o)) (sym e) h
    | inr (s, e) ↦
        subst (λ o. IsTrue uploads (stored_or r o)) (sym e)
          (find_record-IsTrue r.id records uploads s honest e)
  ]

  retry_record-After :
      (r : Backup) (m : Machine World)
      → IsSafe b m.disk
      → IsTrue m.disk.uploaded r
      → After b {A = Backup} (Any b) (retry_record r m)
  unfolding retry_record
  retry_record-After r m safe h =
      let s = stored_or r (find_record r.id m.disk.records) in
      continue_unless-After (is_completed s.state) s m safe
        (stored_or-IsTrue r m.disk.records m.disk.uploaded safe.0 h)

  write_missing-After :
      (P : List String → Type 0) (there : Bool) (p : Pin) (m : Machine World)
      → IsSafe b m.disk
      → P m.disk.uploaded
      → After b {A = Unit {0}} (Still b P) (write_missing there p m)
  write_missing-After P true p m safe h = (safe, λ c k. h)
  write_missing-After P false p m safe h =
      save-After b (λ w. P w.uploaded) (new_record p.owner p.checkpoint p.made_at) m safe (λ e. cc)
        h

  recover_all-After :
      (P : List String → Type 0) (existing : List Backup) (pinned : List Pin) (m : Machine World)
      → IsSafe b m.disk
      → P m.disk.uploaded
      → After b {A = Unit {0}} (Still b P) (for_each pinned (recover_one existing) m)
  unfolding for_each
  recover_all-After P existing [] m safe h = (safe, λ c k. h)
  recover_all-After P existing (p ∷ rest) m safe h =
      After-bind b (Still b P) (Still b P) (recover_one existing p m)
        (λ _. for_each rest (recover_one existing))
        (After-bind b (Still b P) (Still b P) (require p.at_shutdown Error.no_shutdown_checkpoint m)
          (λ _. write_missing (has_record p existing) p)
          (require-After b P p.at_shutdown Error.no_shutdown_checkpoint m safe h)
          (λ _ n kept k. write_missing-After P (has_record p existing) p n kept k))
        (λ _ n kept k. recover_all-After P existing rest n kept k)

  pub recover_pin-After :
      (P : List String → Type 0) (m : Machine World)
      → IsSafe b m.disk
      → P m.disk.uploaded
      → After b {A = Unit {0}} (Still b P) (recover_pin m)
  unfolding recover_pin
  recover_pin-After P m safe h =
      After-bind b (Still b P) (Still b P) (pinned_records m)
        (λ pinned. gets (λ w. w.records) >>= λ existing. for_each pinned (recover_one existing))
        (pinned-After b P m safe h)
        (λ pinned n kept k. recover_all-After P n.disk.records pinned n kept k)

  pub retry_given-After :
      (r : Backup) (m : Machine World)
      → IsSafe b m.disk
      → IsTrue m.disk.uploaded r
      → After b {A = Option Backup} (Any b) (retry_given r m)
  retry_given-After r m safe h =
      After-bind b (Still b (λ u. IsTrue u r)) (Any b) (recover_pin m)
        (λ _. retry_record r >>= λ s. pure (some s)) (recover_pin-After (λ u. IsTrue u r) m safe h)
        (λ _ n kept k.
          After-bind b (Any b) (Any b) (retry_record r n) (λ s. pure (some s))
            (retry_record-After r n kept k)
            (λ s o still _. After-done b (Any b) (some s) o still tt))

  pub capture_new-After :
      (owner fresh : String) (m : Machine World)
      → IsSafe b m.disk
      → After b {A = Option Backup} (Any b) (capture_new owner fresh m)
  capture_new-After owner fresh m safe =
      let pins : World → World = λ w. record w {
        pins =
            record { owner = owner; checkpoint = fresh; at_shutdown = true; made_at = w.now }
            ∷ w.pins;
      } in
      After-bind b (Still b (λ u. Unit)) (Any b) (call m)
        (λ _. gets (λ w. new_record owner fresh w.now) >>= λ r.
          write pins >> (write_record r >> retry_given r))
        (call-After b (λ u. Unit) m safe tt)
        (λ _ n kept _.
          let r = new_record owner fresh n.disk.now in
          After-bind b (Any b) (Any b) (write pins n) (λ _. write_record r >> retry_given r)
            (write-After b (λ w. Unit) pins n kept
              (pin-IsSafe b
                (record {
                  owner = owner;
                  checkpoint = fresh;
                  at_shutdown = true;
                  made_at = n.disk.now;
                })
                n.disk kept)
              tt)
            (λ _ o still _.
              After-bind b (Any b) (Any b) (write_record r o) (λ _. retry_given r)
                (save-After b (λ w. Unit) r o still (λ e. cc) tt)
                (λ _ q on _. retry_given-After r q on (λ e. cc))))
