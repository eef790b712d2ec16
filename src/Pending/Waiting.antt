-- ===== src/Pending/Waiting.antt =====
-- A backup that waits is kept until it is uploaded, over all that backup_pending.py does.
use mindflayer_elderbrain.Base.{
  ℕ, sym, Bool, true, false, not, ◌||◌, inl, inr, Option, none, some, List, [], ◌∷◌, String,
  if◌then◌else◌, Option-cases, arith, select, is_identity,
}
use mathlib.Core.Path.{subst}
use mindflayer_elderbrain.Durable.{Machine, require, gets, pure, ◌>>=◌}
use mindflayer_elderbrain.Pending.Store.{
  Error, Backup, World, find_record, is_completed, read_record, oldest, newest, or_newest,
  is_before,
}
use mindflayer_elderbrain.Pending.Operations.{
  Pend, call, recover_pin, retry_given, capture_over, capture, retry_if, retry_at_boot, protect,
}
use mindflayer_elderbrain.Pending.Safe.{
  IsTrue, IsHonest, IsSafe, IsHonest-select, find_record-IsTrue,
}
use mindflayer_elderbrain.Pending.Keeping.{
  After, Any, Still, After-done, After-bind, require-After, call-After,
}
use mindflayer_elderbrain.Pending.Uploads.{recover_pin-After, retry_given-After, capture_new-After}

abbrev IsTrueIf : List String → Option Backup → Type 0
IsTrueIf uploads none = Unit
IsTrueIf uploads (some r) = IsTrue uploads r

either-IsTrueIf :
    (uploads : List String) (test : Bool) (s r : Backup)
    → IsTrue uploads s
    → IsTrue uploads r
    → IsTrueIf uploads (if test then some s else some r)
either-IsTrueIf uploads true s r h k = h
either-IsTrueIf uploads false s r h k = k

oldest-IsTrueIf :
    (records : List Backup) (uploads : List String)
    → IsHonest records uploads
    → IsTrueIf uploads (oldest records)
oldest-IsTrueIf [] uploads h = tt
oldest-IsTrueIf (r ∷ rest) uploads (h, others) =
    compared (oldest rest) (oldest-IsTrueIf rest uploads others)
  where
    compared :
        (o : Option Backup)
        → IsTrueIf uploads o
        → IsTrueIf uploads
            (elim o [ none ↦ some r | some s ↦ if is_before s r then some s else some r ])
    compared none k = h
    compared (some s) k = either-IsTrueIf uploads (is_before s r) s r k h

newest-IsTrueIf :
    (records : List Backup) (uploads : List String)
    → IsHonest records uploads
    → IsTrueIf uploads (newest records)
newest-IsTrueIf [] uploads h = tt
newest-IsTrueIf (r ∷ rest) uploads (h, others) =
    compared (newest rest) (newest-IsTrueIf rest uploads others)
  where
    compared :
        (o : Option Backup)
        → IsTrueIf uploads o
        → IsTrueIf uploads
            (elim o [ none ↦ some r | some s ↦ if is_before r s then some s else some r ])
    compared none k = h
    compared (some s) k = either-IsTrueIf uploads (is_before r s) s r k h

or_newest-IsTrueIf :
    (o : Option Backup) (records : List Backup) (uploads : List String)
    → IsHonest records uploads
    → IsTrueIf uploads o
    → IsTrueIf uploads (or_newest o records)
or_newest-IsTrueIf none records uploads h k = newest-IsTrueIf records uploads h
or_newest-IsTrueIf (some r) records uploads h k = k

read_record-IsTrueIf :
    (records : List Backup) (uploads : List String)
    → IsHonest records uploads
    → IsTrueIf uploads (read_record records)
unfolding read_record
read_record-IsTrueIf records uploads h =
    let waiting = select (λ r. not (is_completed r.state)) records in
    or_newest-IsTrueIf (oldest waiting) records uploads h (
      oldest-IsTrueIf waiting uploads
        (IsHonest-select (λ r. not (is_completed r.state)) records uploads h))

module _ (b : World) where
  capture_over-After :
      (owner fresh : String) (found : Option Backup) (m : Machine World)
      → IsSafe b m.disk
      → IsTrueIf m.disk.uploaded found
      → After b {A = Option Backup} (Any b) (capture_over owner fresh found m)
  capture_over-After owner fresh none m safe h = capture_new-After b owner fresh m safe
  capture_over-After owner fresh (some r) m safe h =
      After-bind b (Still b (λ u. IsTrue u r)) (Any b)
        (require (not (is_completed r.state)) Error.already_completed m) (λ _. retry_given r)
        (require-After b (λ u. IsTrue u r) (not (is_completed r.state)) Error.already_completed m
          safe h)
        (λ _ n kept k. retry_given-After b r n kept k)

  found-IsTrueIf :
      (id : String) (records : List Backup) (uploads : List String)
      → IsHonest records uploads
      → IsTrueIf uploads (find_record id records)
  found-IsTrueIf id records uploads h = elim (Option-cases (find_record id records)) [
    | inl e ↦ subst (IsTrueIf uploads) (sym e) tt
    | inr (r, e) ↦ subst (IsTrueIf uploads) (sym e) (find_record-IsTrue id records uploads r h e)
  ]

  capture-After :
      (owner fresh : String) (m : Machine World)
      → IsSafe b m.disk
      → After b {A = Option Backup} (Any b) (capture owner fresh m)
  unfolding capture
  capture-After owner fresh m safe =
      After-bind b (Still b (λ u. Unit)) (Any b) (require (is_identity owner) Error.bad_owner m)
        (λ _. gets (λ w. find_record owner w.records) >>= λ found. capture_over owner fresh found)
        (require-After b (λ u. Unit) (is_identity owner) Error.bad_owner m safe tt)
        (λ _ n kept _.
          capture_over-After owner fresh (find_record owner n.disk.records) n kept
            (found-IsTrueIf owner n.disk.records n.disk.uploaded kept.0))

  retry_if-After :
      (configured : Bool) (found : Option Backup) (m : Machine World)
      → IsSafe b m.disk
      → IsTrueIf m.disk.uploaded found
      → After b {A = Option Backup} (Any b) (retry_if configured found m)
  retry_if-After configured none m safe h = After-done b (Any b) none m safe tt
  retry_if-After configured (some r) m safe h = chosen (is_completed r.state || not configured)
    where
      chosen :
          (test : Bool)
          → After b {A = Option Backup} (Any b) ((if test then pure none else retry_given r) m)
      chosen true = After-done b (Any b) none m safe tt
      chosen false = retry_given-After b r m safe h

  retry_at_boot-After :
      (configured : Bool) (m : Machine World)
      → IsSafe b m.disk
      → After b {A = Option Backup} (Any b) (retry_at_boot configured m)
  unfolding retry_at_boot
  retry_at_boot-After configured m safe =
      After-bind b (Still b (λ u. Unit)) (Any b) (recover_pin m)
        (λ _. gets (λ w. read_record w.records) >>= λ found. retry_if configured found)
        (recover_pin-After b (λ u. Unit) m safe tt)
        (λ _ n kept _.
          retry_if-After configured (read_record n.disk.records) n kept
            (read_record-IsTrueIf n.disk.records n.disk.uploaded kept.0))

  protect-After :
      (configured : Bool) (owner fresh : String) (m : Machine World)
      → IsSafe b m.disk
      → After b {A = Option Backup} (Any b) (protect configured owner fresh m)
  unfolding protect
  protect-After true owner fresh m safe = capture-After owner fresh m safe
  protect-After false owner fresh m safe =
      After-bind b (Still b (λ u. Unit)) (Any b) (call m) (λ _. pure none)
        (call-After b (λ u. Unit) m safe tt) (λ _ n kept _. After-done b (Any b) none n kept tt)

-- What may happen: the power is to go, or the machine boots.
pub data Action : Type 0 where
  shuts_down : Bool → String → String → Action
  boots : Bool → Action

-- With the clock and the answers of the calls, and the writes that the machine lives for.
pub record Event : Type 0 where
  pub action : Action
  pub now : ℕ
  pub replies : List Bool
  pub power : ℕ

abbrev perform : Action → Pend (Option Backup)
perform (shuts_down configured owner fresh) = protect configured owner fresh
perform (boots configured) = retry_at_boot configured

abbrev pub happens : Event → World → World
happens e w =
    (perform e.action
      (record { disk = record w { now = e.now; replies = e.replies }; power = e.power })).1.disk

abbrev pub history : List Event → World → World
history [] w = w
history (e ∷ rest) w = history rest (happens e w)

happens-IsSafe : (b : World) (e : Event) (w : World) → IsSafe b w → IsSafe b (happens e w)
happens-IsSafe b e w safe =
    performed e.action
      (record { disk = record w { now = e.now; replies = e.replies }; power = e.power }) safe
  where
    performed : (a : Action) (m : Machine World) → IsSafe b m.disk → IsSafe b (perform a m).1.disk
    performed (shuts_down configured owner fresh) m kept =
        (protect-After b configured owner fresh m kept).0
    performed (boots configured) m kept = (retry_at_boot-After b configured m kept).0

history-IsSafe :
    (b : World) (events : List Event) (w : World) → IsSafe b w → IsSafe b (history events w)
history-IsSafe b [] w safe = safe
history-IsSafe b (e ∷ rest) w safe = history-IsSafe b rest (happens e w) (happens-IsSafe b e w safe)

-- A backup that waits is kept until it is uploaded. Where every record that says so was uploaded, let the
-- machine shut down and boot any number of times, with any answers of the calls, each time cut short at
-- any durable write: every pin and every local archive of before is still there, unless the repository
-- has taken the archive of its backup; and every record that says so was uploaded.
pub waiting_backup_is_kept :
    (w : World) (events : List Event) → IsHonest w.records w.uploaded → IsSafe w (history events w)
waiting_backup_is_kept w events honest =
    history-IsSafe w events w (honest, (λ o c h. ground arith), (λ i h. ground arith), (λ i h. h))
