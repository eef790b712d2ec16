-- ===== src/Installer/Identity.antt =====
-- appliance/lib/storage_guard.py: the data volume is checked before any writer of the appliance starts.
use mindflayer_elderbrain.Base.{
  Bool, not, ◌&&◌, Option, none, some, List, String, str_eq, has_name, Value, get, text_is, Result,
  ok, err, guard, or_raise, ◌>>=◌, ◌>>◌,
}
use mindflayer_elderbrain.Installer.Plan.{
  Error, bad_identity, bad_identity_uuid, no_mount, bad_mount, bad_marker, unsafe_inspection,
  is_uuid, is_blank, text_of, number_of, number_is, only,
}

-- `{field: value[field] for field in IDENTITY_FIELDS}`, of a validated value; product and layout version
-- have one value each.
pub record Identity : Type 0 where
  pub appliance_id : String
  pub data_uuid : String
  pub disk_serial : String

abbrev pub identity_of : Option String → Option String → Option String → Result Error Identity
identity_of (some appliance) (some uuid) (some serial) = do
  guard (not (is_blank serial)) bad_identity
  guard (is_uuid appliance && is_uuid uuid) bad_identity_uuid
  ok (record { appliance_id = appliance; data_uuid = uuid; disk_serial = serial })
identity_of _ _ none = err bad_identity
identity_of _ _ (some serial) = err bad_identity_uuid

-- `validate_identity`
unfoldable pub validate_identity : Value → Result Error Identity
validate_identity v = do
  guard
      (text_is "mindflayer-elderbrain" (get "product" v)
        && number_is 1 (number_of "layout_version" v))
      bad_identity
  identity_of (text_of "appliance_id" v) (text_of "data_uuid" v) (text_of "disk_serial" v)

abbrev pub same_identity : Identity → Identity → Bool
same_identity a b =
    str_eq a.appliance_id b.appliance_id
    && str_eq a.data_uuid b.data_uuid
    && str_eq a.disk_serial b.disk_serial

-- One entry of findmnt's document, with its options at the commas.
pub record Mount : Type 0 where
  pub target : String
  pub fstype : String
  pub uuid : String
  pub fsroot : String
  pub options : List String

-- `verify_mount`, on identities that are valid.
unfoldable pub verify_mount :
    Option (List Mount) → Identity → Identity → String → Result Error (Unit {0})
verify_mount mounts expected actual target = do
  found ← or_raise mounts no_mount
  m ← or_raise (only found) no_mount
  guard
      (str_eq m.target target
        && str_eq m.fstype "btrfs"
        && str_eq m.uuid expected.data_uuid
        && str_eq m.fsroot "/"
        && has_name "rw" m.options
        && not (has_name "ro" m.options))
      bad_mount
  guard (same_identity actual expected) bad_marker

-- `check`: the identity installed on the system disk, the mounts, whether the mountpoint is a symbolic
-- link, and the marker at the root of the volume. The marker is read after the mount is verified.
unfoldable pub check :
    Result Error Value
    → Option (List Mount)
    → Bool
    → Result Error Value
    → String
    → Result Error (Unit {0})
unfolding verify_mount
check installed mounts is_symlink marker target = do
  v ← installed
  expected ← validate_identity v
  verify_mount mounts expected expected target
  guard (not is_symlink) bad_mount
  a ← marker
  actual ← validate_identity a
  verify_mount mounts expected actual target

-- `verify_read_mount` of iso/storage_existing.py.
unfoldable pub verify_read_mount : Option (List Mount) → String → String → Result Error (Unit {0})
verify_read_mount mounts target uuid = do
  found ← or_raise mounts no_mount
  m ← or_raise (only found) no_mount
  guard
      (str_eq m.target target
        && str_eq m.fstype "btrfs"
        && str_eq m.fsroot "/"
        && str_eq m.uuid uuid
        && has_name "ro" m.options
        && has_name "nosuid" m.options
        && has_name "nodev" m.options
        && has_name "noexec" m.options
        && not (has_name "rw" m.options))
      unsafe_inspection
