-- ===== src/Snapshots/Store.antt =====
-- The snapshot directory of appliance/lib/local_snapshots.py, and what `records` and `pins` read of it.
-- A time is a number of clock ticks. A JSON document is the fields that are read of it, `none` where a
-- field is missing or of another type.
use Prim.Native.String.{slice, len}
use text.Mathlib.Text.{starts_with, find?}
use mindflayer_elderbrain.Base.{
  ℕ, ◌+◌, Bool, true, false, ◌&&◌, ◌||◌, Option, none, some, List, [], ◌∷◌, String, str_eq, ◌==◌,
  Regex, seq, times, up_to, one, letter, digit, hex, literal, fullmatch, is_identity, is_digest,
  has_name, has_keys, Value, object, Fields, field, end, get, int?, text?, field_names, every,
  Result, ok, err, guard, or_raise, ◌>>=◌, ◌>>◌, between,
}

pub data Error : Type 0 where
  bad_identifier bad_purpose bad_retention bad_keep bad_protected bad_reason bad_compatibility :
      Error
  unexpected_metadata unsafe_metadata bad_metadata not_subvolume not_read_only : Error
  unsafe_pin bad_pin pin_mismatch other_purpose no_checkpoint unsafe_retention : Error
  conflicting_pin bad_deletion nested_volume : Error
  not_private command_failed no_space file_exists unguarded : Error

pub record Metadata : Type 0 where
  pub version : Option ℕ
  pub id : Option String
  pub created_at : Option ℕ
  pub reason : Option String
  pub compatibility : Option Value

pub record Reservation : Type 0 where
  pub version : Option ℕ
  pub id : Option String
  pub owner : Option String
  pub purpose : Option String

pub record Retention : Type 0 where
  pub enabled : Bool
  pub keep : ℕ

-- A file of the directory: its name with no suffix, whether it is a private regular file of root and
-- small enough, and the document in it, if that is an object.
pub record File (A : Type 0) : Type 0 where
  pub name : String
  pub is_private : Bool
  pub contents : Option A

-- The same of a pin, whose name is `<first>.<second>.pin`.
pub record PinFile : Type 0 where
  pub first : String
  pub second : String
  pub is_private : Bool
  pub contents : Option Reservation

-- What stands at a checkpoint's place; a volume with whether it is read-only.
pub data Node : Type 0 where
  missing other : Node
  volume : Bool → Node

-- `replies` says of each further command, guard or callback whether it succeeds.
pub record World : Type 0 where
  pub records : List (File Metadata)
  pub deleting : List (File Metadata)
  pub pins : List PinFile
  pub subvolume : String → Node
  pub retention : Option (File Retention)
  pub replies : List Bool

-- What `records` makes public.
pub record Checkpoint : Type 0 where
  pub id : String
  pub created_at : ℕ
  pub reason : String
  pub compatibility : Option Value

pub record Pin : Type 0 where
  pub id : String
  pub owner : String
  pub purpose : String

abbrev pub purposes : List String
purposes = "update" ∷ "restore" ∷ "pending-backup" ∷ []

abbrev pub reasons : List String
reasons = "manual" ∷ "before-update" ∷ "before-restore" ∷ "before-shutdown" ∷ []

abbrev pub one_version : Option ℕ → Bool
one_version none = false
one_version (some n) = n == 1

-- `validate_pin`
unfoldable pub validate_pin : String → String → String → Result Error (Unit {0})
validate_pin identifier owner purpose = do
  guard (is_identity identifier && is_identity owner) bad_identifier
  guard (has_name purpose purposes) bad_purpose

-- One line of `validate_nested`: only the subvolumes of the store itself may be nested.
abbrev nested_pattern : Regex
nested_pattern = seq (literal "snapshots/") (times 32 (one hex))

unfoldable pub is_nested_snapshot : String → Bool
unfolding fullmatch
is_nested_snapshot line = elim (find? line " path ") [
  | none ↦ false
  | some i ↦
      starts_with (slice line 0 i) "ID " && fullmatch nested_pattern (slice line (i + 6) (len line))
]

-- `validate_nested`, on the lines of the command's output.
unfoldable pub validate_nested : List String → Result Error (Unit {0})
validate_nested lines = guard (every is_nested_snapshot lines) nested_volume

-- `validate_retention`, on the two fields of their types.
unfoldable pub validate_retention : Retention → Result Error Retention
validate_retention r = do guard (between 1 1000 r.keep) bad_retention; ok r

-- checkpoint_compatibility.py
abbrev services : List String
services = "elderbrain-setup" ∷ "mindflayer-server" ∷ "foundry" ∷ "traefik" ∷ []

abbrev version_char : ℕ → Bool
version_char c = letter c || digit c || c == b'.' || c == b'_' || c == b'+' || c == b'-'

abbrev appliance_version_pattern : Regex
appliance_version_pattern = seq (one version_char) (up_to 127 (one version_char))

abbrev image_pattern : Regex
image_pattern = seq (literal "sha256:") (times 64 (one hex))

unfoldable pub is_appliance_version : String → Bool
unfolding fullmatch
is_appliance_version s = fullmatch appliance_version_pattern s

unfoldable pub is_image : String → Bool
unfolding fullmatch
is_image s = fullmatch image_pattern s

abbrev holds : Option String → (String → Bool) → Bool
holds none p = false
holds (some s) p = p s

abbrev each_is_image : Fields → Bool
each_is_image end = true
each_is_image (field k v rest) = holds (text? (some v)) is_image && each_is_image rest

abbrev known_services : List String → Bool
known_services [] = true
known_services (k ∷ rest) = has_name k services && known_services rest

abbrev are_images : Option Value → Bool
are_images (some (object fields)) = known_services (field_names fields) && each_is_image fields
are_images _ = false

unfoldable pub is_compatibility : Value → Bool
is_compatibility v =
    has_keys ("schema" ∷ "applianceVersion" ∷ "composeSha256" ∷ "images" ∷ []) v
    && one_version (int? (get "schema" v))
    && holds (text? (get "applianceVersion" v)) is_appliance_version
    && holds (text? (get "composeSha256" v)) is_digest
    && are_images (get "images" v)

unfoldable pub validate_compatibility : Option Value → Result Error (Option Value)
validate_compatibility none = ok none
validate_compatibility (some v) = do guard (is_compatibility v) bad_compatibility; ok (some v)

abbrev pub id_is : String → Option String → Bool
id_is name none = false
id_is name (some s) = str_eq s name

-- The fields of a record that `records` needs, each of its type.
abbrev pub public_record :
    String → Option ℕ → Option String → Option Value → Result Error Checkpoint
public_record name (some t) (some reason) compatibility = do
  guard (has_name reason reasons) bad_metadata
  c ← validate_compatibility compatibility
  ok (record { id = name; created_at = t; reason = reason; compatibility = c })
public_record name _ _ compatibility = err bad_metadata

abbrev pub read_only : Node → Result Error (Unit {0})
read_only missing = err not_subvolume
read_only other = err not_subvolume
read_only (volume ro) = guard ro not_read_only

-- The document of one record, as `records` validates it.
unfoldable pub read_metadata : File Metadata → Result Error Checkpoint
read_metadata f = do
  guard (is_identity f.name) unexpected_metadata
  guard f.is_private unsafe_metadata
  meta ← or_raise f.contents bad_metadata
  guard (one_version meta.version && id_is f.name meta.id) bad_metadata
  public_record f.name meta.created_at meta.reason meta.compatibility

-- One round of the loop of `records`.
unfoldable pub read_checkpoint : World → File Metadata → Result Error Checkpoint
read_checkpoint w f = do c ← read_metadata f; read_only (w.subvolume f.name); ok c

abbrev pub collect : {E A B : Type 0} → (A → Result E B) → List A → Result E (List B)
collect f [] = ok []
collect f (a ∷ rest) = let others = collect f rest in do b ← f a; bs ← others; ok (b ∷ bs)

-- The contents of a pin.
abbrev pub public_pin : Option String → Option String → Option String → Result Error Pin
public_pin (some identifier) (some owner) (some purpose) = do
  validate_pin identifier owner purpose
  ok (record { id = identifier; owner = owner; purpose = purpose })
public_pin _ _ _ = err bad_pin

-- One round of the loop of `pins`.
unfoldable pub read_pin : PinFile → Result Error Pin
read_pin f = do
  guard f.is_private unsafe_pin
  r ← or_raise f.contents bad_pin
  guard (one_version r.version) bad_pin
  p ← public_pin r.id r.owner r.purpose
  guard (str_eq f.first p.id && str_eq f.second p.owner) pin_mismatch
  ok p

-- `pins`
unfoldable pub read_pins : World → Result Error (List Pin)
unfolding read_pin
read_pins w = collect read_pin w.pins

-- `read_retention`
unfoldable pub read_retention : World → Result Error Retention
read_retention w = elim w.retention [
  | none ↦ ok (record { enabled = false; keep = 10 })
  | some f ↦ (do
    guard f.is_private unsafe_retention
    r ← or_raise f.contents bad_retention
    validate_retention r)
]
