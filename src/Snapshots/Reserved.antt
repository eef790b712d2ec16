-- ===== src/Snapshots/Reserved.antt =====
-- A checkpoint that is made for an operation is pinned before it is listed.
use mindflayer_elderbrain.Base.{
  ℕ, zero, suc, ◌≡◌, refl, ◌⊎◌, inl, inr, true, false, not, Option, none, some, List, [], ◌∷◌,
  String, str_eq, arith, has_name, str_eq_self, Bool-cases, Value, Result, ok, err,
}
use mindflayer_elderbrain.Durable.{
  Machine, done, pure, lift, write, proceed, proceed_keeps, ◌>>=◌, ◌>>◌,
}
use mindflayer_elderbrain.Durable.Keeps.{
  Keeps, Leads, then-Leads, require_then-Leads, lift-Leads, write_then-Leads, then_keeps,
}
use mindflayer_elderbrain.Snapshots.Store.{
  Error, World, Pin, File, Metadata, Checkpoint, Retention, reasons, bad_reason, read_only,
  command_failed, file_exists, validate_pin, read_pin, read_pins,
}
use mindflayer_elderbrain.Snapshots.Deleting.{
  ask_keeps, finish_deletions_keeps, apply_retention_keeps,
}
use mindflayer_elderbrain.Snapshots.Pruning.{has_name-drop_name}
use mindflayer_elderbrain.Snapshots.Pinning.{write_pin_keeps}
use mindflayer_elderbrain.Snapshots.Events.{survey_keeps}
use mindflayer_elderbrain.Snapshots.Operations.{
  file_names, ask, find_pin, same_pin, pin_ids, pin_file, keep_or_write, write_pin, snapshots,
  publishes, publish, capture, survey, check_owner, create, finish_deletions, apply_retention,
  moves,
}

-- All pins are valid, and one of them holds `k`.
abbrev pub IsPinned : String → World → Type 0
IsPinned k w = (ps : List Pin) × (read_pins w ≡ ok ps) × (has_name k (pin_ids ps) ≡ true)

abbrev Unlisted : String → World → Type 0
Unlisted k w = has_name k (file_names w.records) ≡ false

abbrev IsReserved : String → World → Type 0
IsReserved k w = IsPinned k w ⊎ Unlisted k w

find_pin_lem :
    (k owner : String) (ps : List Pin) (p : Pin)
    → find_pin k owner ps ≡ some p
    → has_name k (pin_ids ps) ≡ true
find_pin_lem k owner [] p h = cc
find_pin_lem k owner (q ∷ ps) p h = elim (Bool-cases (same_pin k owner q)) [
  | inl same ↦ ground arith
  | inr other ↦ ground (arith, find_pin_lem k owner ps p (rw other at h))
]

-- What is written is read back as a valid pin.
read_pin-pin_file :
    (k owner purpose : String)
    → validate_pin k owner purpose ≡ ok tt
    → read_pin (pin_file k owner purpose) ≡ ok (record { id = k; owner = owner; purpose = purpose })
unfolding read_pin
read_pin-pin_file k owner purpose h = rw (h, str_eq_self k, str_eq_self owner) refl

written :
    (k owner purpose : String) (w : World) (ps : List Pin)
    → validate_pin k owner purpose ≡ ok tt
    → read_pins w ≡ ok ps
    → IsPinned k (record w { pins = pin_file k owner purpose ∷ w.pins })
unfolding read_pins
written k owner purpose w ps v r = (
  record { id = k; owner = owner; purpose = purpose } ∷ ps,
  rw (read_pin-pin_file k owner purpose v, r) refl,
  rw (str_eq_self k) refl,
)

-- Where `write_pin` returns, the checkpoint is pinned.
keep_or_write_ends :
    (k owner purpose : String) (w : World) (power : ℕ) (ps : List Pin) (o : Option Pin)
    → validate_pin k owner purpose ≡ ok tt
    → read_pins w ≡ ok ps
    → find_pin k owner ps ≡ o
    → let x = keep_or_write k owner purpose o (record { disk = w; power = power }) in
      x.0 ≡ done tt → IsPinned k x.1.disk
keep_or_write_ends k owner purpose w power ps (some p) v r f e =
    elim (Bool-cases (str_eq p.purpose purpose)) [
      | inl same ↦ rw same (ps, r, find_pin_lem k owner ps p f)
      | inr other ↦ cc (rw other at e)
    ]
keep_or_write_ends k owner purpose w zero ps none v r f e = cc
keep_or_write_ends k owner purpose w (suc power) ps none v r f e = written k owner purpose w ps v r

module _ (k owner purpose : String) (m : Machine World) where
  over_pins :
      (r : Result Error (List Pin))
      → validate_pin k owner purpose ≡ ok tt
      → read_pins m.disk ≡ r
      → let x = proceed (lift r m) (λ ps. keep_or_write k owner purpose (find_pin k owner ps)) in
        x.0 ≡ done tt → IsPinned k x.1.disk
  over_pins (err x) v e h = cc
  over_pins (ok ps) v e h =
      keep_or_write_ends k owner purpose m.disk m.power ps (find_pin k owner ps) v e refl h

  over_check :
      (v : Result Error (Unit {0}))
      → validate_pin k owner purpose ≡ v
      → let x = proceed (lift v m) λ _. (λ n. lift (read_pins n.disk) n) >>= λ ps.
          keep_or_write k owner purpose (find_pin k owner ps) in
        x.0 ≡ done tt → IsPinned k x.1.disk
  over_check (err x) e h = cc
  over_check (ok u) e h = over_pins (read_pins m.disk) e refl h

  write_pin_ends :
      (write_pin k owner purpose m).0 ≡ done tt → IsPinned k (write_pin k owner purpose m).1.disk
  unfolding write_pin
  write_pin_ends = over_check (validate_pin k owner purpose) refl

-- Retention after that takes neither the pin away, nor a checkpoint from it.
moves-IsReserved :
    (k : String) (f : File Metadata) (j : String) (w : World)
    → f.name ≡ j
    → IsReserved k w
    → IsReserved k (moves f j w)
unfolding read_pins
moves-IsReserved k f j w e (inl p) = inl p
moves-IsReserved k f j w e (inr n) = inr (has_name-drop_name k j w.records n)

finish_deletions-IsReserved : (k : String) → Keeps (IsReserved k) finish_deletions
unfolding read_pins
finish_deletions-IsReserved k =
    finish_deletions_keeps (IsReserved k) (λ j. Unit) (λ w l h. h) (λ j w o h. h) (λ j w h. h)
      (λ w ps f h r i free. tt)

apply_retention-IsReserved :
    (k : String) (r : Retention) (j : String) → Keeps (IsReserved k) (apply_retention r j)
unfolding read_pins
apply_retention-IsReserved k =
    apply_retention_keeps (IsReserved k) (λ w l h. h) (finish_deletions-IsReserved k)
      (moves-IsReserved k)

module _ (c : Checkpoint) (owner purpose : String) where
  abbrev Reserved : World → Type 0
  Reserved = IsReserved c.id

  publish-Reserved : Leads (IsPinned c.id) Reserved (publish c)
  unfolding publish read_pins
  publish-Reserved m h =
      require_then-Leads (IsPinned c.id) Reserved (λ w x. inl x)
        (not (has_name c.id (file_names m.disk.records))) file_exists
        (write (publishes c) >> pure c)
        (λ _.
          write_then-Leads (IsPinned c.id) Reserved (λ w x. inl x) Reserved (publishes c) (pure c)
            (λ w x. inl x) (λ n x. x))
        m h

  pin_then_publish : Leads (Unlisted c.id) Reserved (write_pin c.id owner purpose >> publish c)
  pin_then_publish m h =
      let kept = write_pin_keeps (Unlisted c.id) (λ w l x. x) (λ w l x. x) c.id owner purpose m h in
      proceed_keeps (λ n. Reserved n.disk) (write_pin c.id owner purpose m) (λ _. publish c)
        (inr kept)
        λ u e g.
          publish-Reserved (write_pin c.id owner purpose m).1
            (write_pin_ends c.id owner purpose m e)

  lift_end :
      (m : Machine World) (r : Result Error (Unit {0}))
      → Unlisted c.id m.disk
      → Unlisted c.id (lift r m).1.disk
  lift_end m (ok u) h = h
  lift_end m (err e) h = h

  capture-Reserved : Leads (Unlisted c.id) Reserved (capture (some (owner, purpose)) c)
  unfolding capture
  capture-Reserved =
      write_then-Leads (Unlisted c.id) Reserved (λ w x. inr x) (Unlisted c.id) (snapshots c.id) _
        (λ w x. x)
        (then-Leads (Unlisted c.id) Reserved (λ w x. inr x)
          (λ m. lift (read_only (m.disk.subvolume c.id)) m) _
          (λ m h. lift_end m (read_only (m.disk.subvolume c.id)) h)
          (then-Leads (Unlisted c.id) Reserved (λ w x. inr x) (ask command_failed) _
            (ask_keeps (Unlisted c.id) command_failed (λ w l h. h)) pin_then_publish))

create-IsReserved :
    (reason owner purpose : String) (compatibility : Option Value) (nested : List String)
    (k : String) (now : ℕ)
    → Leads
        (Unlisted k)
        (IsReserved k)
        (create reason (some (owner, purpose)) compatibility nested k now)
unfolding create
create-IsReserved reason owner purpose compatibility nested k now =
    require_then-Leads (Unlisted k) (IsReserved k) (λ w x. inr x) (has_name reason reasons)
      bad_reason _
      λ _.
        lift-Leads (Unlisted k) (IsReserved k) (λ w x. inr x)
          (λ _. check_owner (some (owner, purpose))) _
          λ u m h.
            let surveyed = survey_keeps (Unlisted k) (λ w l x. x) compatibility nested k m h in
            proceed_keeps (λ n. IsReserved k n.disk) (survey compatibility nested k m) _
              (inr surveyed)
              λ found e x. captured found (survey compatibility nested k m).1 surveyed
  where
    captured :
        (found : Retention × Option Value)
        → let new : Checkpoint = record {
          id = k;
          created_at = now;
          reason = reason;
          compatibility = found.1;
        } in
          Leads (Unlisted k) (IsReserved k) (
            capture (some (owner, purpose)) new
            >> (apply_retention found.0 k >> pure {E = Error} new))
    captured found n fresh =
        let new : Checkpoint = record {
          id = k;
          created_at = now;
          reason = reason;
          compatibility = found.1;
        } in
        let taken = capture (some (owner, purpose)) new n in
        proceed_keeps (λ o. IsReserved k o.disk) taken _
          (capture-Reserved new owner purpose n fresh)
          λ y e z.
            then_keeps (IsReserved k) (apply_retention found.0 k) (pure new)
              (apply_retention-IsReserved k found.0 k) (λ o w. w) taken.1 z

-- A checkpoint made for an operation is never listed without a pin: if no record of the drawn identity
-- stands there before, then however `create` with an owner ends, and wherever it is cut short, a record
-- of that identity comes with valid pins, one of which holds it. The retention that `create` may run at
-- its end is included.
pub created_is_pinned :
    (reason owner purpose : String) (compatibility : Option Value) (nested : List String)
    (k : String) (now : ℕ) (m : Machine World)
    → has_name k (file_names m.disk.records) ≡ false
    → let w = (create reason (some (owner, purpose)) compatibility nested k now m).1.disk in
      has_name k (file_names w.records) ≡ true
      → (ps : List Pin) × (read_pins w ≡ ok ps) × (has_name k (pin_ids ps) ≡ true)
created_is_pinned reason owner purpose compatibility nested k now m fresh listed =
    elim (create-IsReserved reason owner purpose compatibility nested k now m fresh) [
      | inl pinned ↦ pinned
      | inr unlisted ↦ cc (listed, unlisted)
    ]
