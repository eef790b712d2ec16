-- ===== src/Installer/Verified.antt =====
-- What the installer and the appliance know of a data volume before they write to it.
use mindflayer_elderbrain.Base.{
  ◌≡◌, refl, Bool, true, false, not, ◌&&◌, Option, some, List, String, str_eq, eq_iff, arith,
  has_name, Value, Result, ok, guard, or_raise, bind-ok, then-ok, guard-ok,
}
use mindflayer_elderbrain.Installer.Plan.{Error, no_mount, bad_mount, bad_marker, only}
use mindflayer_elderbrain.Installer.Identity.{
  Identity, Mount, validate_identity, same_identity, verify_mount, check,
}
use mindflayer_elderbrain.Installer.Preserved.{or_raise-ok}

-- A mount of the data volume: the only one at its place, writable, the whole of a Btrfs volume of this
-- UUID.
pub record IsDataMount (mounts : Option (List Mount)) (uuid target : String) : Type 0 where
  pub m : Mount
  pub found : List Mount
  pub listed : mounts ≡ some found
  pub alone : only found ≡ some m
  pub place : m.target ≡ target
  pub btrfs : m.fstype ≡ "btrfs"
  pub volume : m.uuid ≡ uuid
  pub whole : m.fsroot ≡ "/"
  pub writable : has_name "rw" m.options ≡ true
  pub not_read_only : has_name "ro" m.options ≡ false

mount_tests :
    (m : Mount) (uuid target : String) (a b : Bool)
    → (str_eq m.target target
        && str_eq m.fstype "btrfs"
        && str_eq m.uuid uuid
        && str_eq m.fsroot "/"
        && a
        && not b)
      ≡ true
    → (m.target ≡ target)
      × (m.fstype ≡ "btrfs")
      × (m.uuid ≡ uuid)
      × (m.fsroot ≡ "/")
      × (a ≡ true)
      × (b ≡ false)
mount_tests m uuid target a b h = ground (
  arith,
  eq_iff m.target target,
  eq_iff m.fstype "btrfs",
  eq_iff m.uuid uuid,
  eq_iff m.fsroot "/",
)

same_identity_lem : (a b : Identity) → same_identity a b ≡ true → a ≡ b
same_identity_lem a b h = ground (
  arith,
  eq_iff a.appliance_id b.appliance_id,
  eq_iff a.data_uuid b.data_uuid,
  eq_iff a.disk_serial b.disk_serial,
)

verify_mount_lem :
    (mounts : Option (List Mount)) (expected actual : Identity) (target : String)
    → verify_mount mounts expected actual target ≡ ok tt
    → IsDataMount mounts expected.data_uuid target × (actual ≡ expected)
unfolding verify_mount
verify_mount_lem mounts expected actual target h =
    let (found, listed, h1) = bind-ok (or_raise mounts no_mount) _ h in
    let (m, alone, h2) = bind-ok (or_raise (only found) no_mount) _ h1 in
    let (tests, marker) =
      then-ok (guard _ bad_mount) (guard (same_identity actual expected) bad_marker) h2 in
    let (place, btrfs, volume, whole, writable, not_read_only) =
      mount_tests m expected.data_uuid target _ _ (guard-ok _ bad_mount tests) in
    (
      record {
        m = m;
        found = found;
        listed = or_raise-ok mounts no_mount listed;
        alone = or_raise-ok (only found) no_mount alone;
        place = place;
        btrfs = btrfs;
        volume = volume;
        whole = whole;
        writable = writable;
        not_read_only = not_read_only;
      },
      same_identity_lem actual expected
          (guard-ok (same_identity actual expected) bad_marker marker),
    )

-- Where the storage guard lets the appliance start, the installed identity and the marker on the volume
-- are valid and the same, the mountpoint is no symbolic link, and what is mounted there is the only
-- mount, writable, the whole Btrfs volume whose UUID the identity names.
pub guarded_start :
    (installed : Result Error Value) (mounts : Option (List Mount)) (is_symlink : Bool)
    (marker : Result Error Value) (target : String)
    → check installed mounts is_symlink marker target ≡ ok tt
    → (v w : Value) × (identity : Identity) × (installed ≡ ok v)
      × (marker ≡ ok w)
      × (validate_identity v ≡ ok identity)
      × (validate_identity w ≡ ok identity)
      × (is_symlink ≡ false)
      × IsDataMount mounts identity.data_uuid target
unfolding check
guarded_start installed mounts is_symlink marker target h =
    let (v, given, h1) = bind-ok installed _ h in
    let (expected, valid, h2) = bind-ok (validate_identity v) _ h1 in
    let (mounted, h3) = then-ok (verify_mount mounts expected expected target) _ h2 in
    let (plain, h4) = then-ok (guard (not is_symlink) bad_mount) _ h3 in
    let (w, read, h5) = bind-ok marker _ h4 in
    let (actual, valid', h6) = bind-ok (validate_identity w) _ h5 in
    let (mount, same) = verify_mount_lem mounts expected actual target h6 in
    (
      v,
      w,
      expected,
      given,
      read,
      valid,
      rw same at valid',
      not_true is_symlink (guard-ok (not is_symlink) bad_mount plain),
      mount,
    )
  where
    not_true : (b : Bool) → not b ≡ true → b ≡ false
    not_true true h = cc
    not_true false h = refl
