-- ===== src/Pending/Retrying.antt =====
-- `retry`, `capture` and `protect` (appliance/lib/backup_pending.py) keep what is not uploaded.
use mindflayer_elderbrain.Base.{
  ◌≡◌, Bool, true, false, not, List, [], ◌∷◌, String, str_eq, select, has_name,
}
use mindflayer_elderbrain.Durable.{Machine, write, require, gets, pure, ◌>>=◌, ◌>>◌}
use mindflayer_elderbrain.Pending.Store.{Error, Backup, Pin, World, is_uploaded, is_pin_of}
use mindflayer_elderbrain.Pending.Operations.{
  Pend, call, write_record, pinned_records, attempt, unpin, finished, remove_archive, failed,
  conclude, is_none_or_one, continue_with,
}
use mindflayer_elderbrain.Pending.Safe.{IsTrue, IsSafe, unpin-IsSafe, remove-IsSafe}
use mindflayer_elderbrain.Pending.Keeping.{
  After, Any, Still, Result, After-done, After-bind, require-After, call-After, write-After,
  save-After, attempt-After,
}

module _ (b : World) where
  abbrev Sent : String → List String → Type 0
  Sent id uploads = has_name id uploads ≡ true

  unpin-After :
      (matches : List Pin) (r : Backup) (m : Machine World)
      → IsSafe b m.disk
      → Sent r.id m.disk.uploaded
      → After b {A = Unit {0}} (Still b (Sent r.id)) (unpin matches r m)
  unpin-After [] r m safe sent = (safe, λ c k. sent)
  unpin-After (p ∷ rest) r m safe sent =
      After-bind b (Still b (Sent r.id)) (Still b (Sent r.id)) (call m)
        (λ _.
          write (λ w. record w { pins = select (λ q. not (is_pin_of r.id r.checkpoint q)) w.pins }))
        (call-After b (Sent r.id) m safe sent)
        (λ _ n kept known.
          write-After b (λ w. has_name r.id w.uploaded ≡ true)
            (λ w. record w { pins = select (λ q. not (is_pin_of r.id r.checkpoint q)) w.pins }) n
            kept (unpin-IsSafe b r.id r.checkpoint n.disk known kept) known)

  remove_archive-After :
      (has : Bool) (r : Backup) (m : Machine World)
      → IsSafe b m.disk
      → Sent r.id m.disk.uploaded
      → After b {A = Unit {0}} (Any b) (remove_archive has r m)
  remove_archive-After false r m safe sent = (safe, λ c k. tt)
  remove_archive-After true r m safe sent =
      write-After b (λ w. Unit)
        (λ w. record w { archives = select (λ s. not (str_eq s r.id)) w.archives }) m safe
        (remove-IsSafe b r.id m.disk sent safe) tt

  conclude-After :
      (matches : List Pin) (x : Bool × Backup) (m : Machine World)
      → IsSafe b m.disk
      → Result b x m.disk
      → After b {A = Backup} (Any b) (conclude matches x m)
  conclude-After matches (false, r) m safe true_r =
      After-bind b (Any b) (Any b) (write_record (failed m.disk.now r) m)
        (λ _. pure (failed m.disk.now r))
        (save-After b (λ w. Unit) (failed m.disk.now r) m safe true_r tt)
        (λ _ n kept _. After-done b (Any b) (failed m.disk.now r) n kept tt)
  conclude-After matches (true, r) m safe sent =
      let rest : Unit {0} → Pend Backup = λ _. gets (λ w. finished w.now r) >>= λ s.
      write_record s >> (remove_archive s.has_archive s >> pure s) in
      After-bind b (Still b (Sent r.id)) (Any b) (unpin matches r m) rest
        (unpin-After matches r m safe sent)
        (λ _ n kept known.
          let s = finished n.disk.now r in
          After-bind b (λ _ w. has_name r.id w.uploaded ≡ true) (Any b) (write_record s n)
            (λ _. remove_archive s.has_archive s >> pure s)
            (save-After b (λ w. has_name r.id w.uploaded ≡ true) s n kept (λ e. known) known)
            (λ _ o still k.
              After-bind b (Any b) (Any b) (remove_archive s.has_archive s o) (λ _. pure s)
                (remove_archive-After s.has_archive s o still k)
                (λ _ q last _. After-done b (Any b) s q last tt)))

  pub pinned-After :
      (P : List String → Type 0) (m : Machine World)
      → IsSafe b m.disk
      → P m.disk.uploaded
      → After b {A = List Pin} (Still b P) (pinned_records m)
  pinned-After P m safe h =
      After-bind b (Still b P) (Still b P) (call m) (λ _. gets (λ w. w.pins))
        (call-After b P m safe h) (λ _ n kept k. After-done b (Still b P) n.disk.pins n kept k)

  pub continue-After :
      (r : Backup) (m : Machine World)
      → IsSafe b m.disk
      → IsTrue m.disk.uploaded r
      → After b {A = Backup} (Any b) (continue_with r m)
  continue-After r m safe true_r =
      let P : List String → Type 0 = λ u. IsTrue u r in
      let finish : List Pin → Pend Backup = λ matches. attempt r >>= conclude matches in
      After-bind b (Still b P) (Any b) (pinned_records m)
        (λ pinned.
          let matches = select (is_pin_of r.id r.checkpoint) pinned in
          require (is_none_or_one (is_uploaded r.state) matches) Error.no_matching_pin
          >> (call >> finish matches))
        (pinned-After P m safe true_r)
        (λ pinned n kept known.
          let matches = select (is_pin_of r.id r.checkpoint) pinned in
          After-bind b (Still b P) (Any b)
            (require (is_none_or_one (is_uploaded r.state) matches) Error.no_matching_pin n)
            (λ _. call >> finish matches)
            (require-After b P (is_none_or_one (is_uploaded r.state) matches) Error.no_matching_pin
              n kept known)
            (λ _ o still k.
              After-bind b (Still b P) (Any b) (call o) (λ _. finish matches)
                (call-After b P o still k)
                (λ _ q on t.
                  After-bind b (Result b) (Any b) (attempt r q) (conclude matches)
                    (attempt-After b r q on t)
                    (λ x s safe_s res. conclude-After matches x s safe_s res))))
