-- ===== src/Release/Manifest.antt =====
-- `validate` and `validate_dependencies` of appliance/lib/appliance_release.py. The code returns the value
-- that it checked; here it is returned as a record of the fields that it read.
use Prim.Native.String.{count}
use mindflayer_elderbrain.Base.{
  ℕ, suc, ◌+◌, ◌*◌, ◌-◌, ◌^◌, Bool, true, false, not, ◌&&◌, ◌||◌, Option, none, some, List, [], ◌∷◌,
  String, str_eq, if◌then◌else◌, leb, ltb, ◌==◌, between, Value, object, Fields, field, end, text?,
  int?, text_is, is_version, is_digest, Result, ok, guard, or_raise, ◌>>=◌, ◌>>◌,
}
use mindflayer_elderbrain.Release.Errors.{
  Error, unsupported_format, unsupported_platform, unsupported_artifact_name, incompatible_host_api,
  bad_notes, unsupported_abi, bad_inventory, bad_filename, unsupported_scope, bad_archive_contents,
}
use mindflayer_elderbrain.Release.Fields.{
  at, keys, number, pattern, is_image_reference, is_wheel, is_node, has_nul,
}

pub record Artifact : Type 0 where
  pub size : ℕ
  pub digest : String

pub record Host : Type 0 where
  pub version : String
  pub api : ℕ
  pub artifact : Artifact

pub record Setup : Type 0 where
  pub version : String
  pub image : String
  pub min_api : ℕ
  pub max_api : ℕ

pub data Kind : Type 0 where
  wheel node inventory : Kind

-- A file of the archive of dependencies.
pub record Entry : Type 0 where
  pub kind : Kind
  pub size : ℕ
  pub digest : String

pub record Dependencies : Type 0 where
  pub artifact : Artifact
  pub files : List Entry

pub record Release : Type 0 where
  pub format : ℕ
  pub version : String
  pub sequence : ℕ
  pub recovery_api : ℕ
  pub host : Host
  pub setup : Setup
  pub schema : ℕ
  pub downtime : ℕ
  pub dependencies : Option Dependencies

abbrev pub host_limit : ℕ
host_limit = 8 * 1024 ^ 3

abbrev pub size_limit : ℕ
size_limit = 512 * 1024 ^ 2

abbrev pub file_limit : ℕ
file_limit = 64 * 1024 ^ 2

abbrev pub total_limit : ℕ
total_limit = 256 * 1024 ^ 2

abbrev pub sequence_limit : ℕ
sequence_limit = 2 ^ 63 - 1

-- An artifact of this name and of at most this size.
unfoldable pub read_artifact : String → ℕ → Option Value → Result Error Artifact
read_artifact name limit v = do
  keys ("file" ∷ "size" ∷ "sha256" ∷ []) v
  guard (text_is name (at "file" v)) unsupported_artifact_name
  size ← number 1 limit (at "size" v)
  digest ← pattern is_digest (at "sha256" v)
  ok (record { size = size; digest = digest })

abbrev pub is_platform : Option Value → Bool
is_platform v =
    text_is "ubuntu" (at "os" v)
    && text_is "26.04" (at "release" v)
    && text_is "amd64" (at "architecture" v)

unfoldable pub check_platform : Option Value → Result Error (Unit {0})
check_platform v = do
  keys ("os" ∷ "release" ∷ "architecture" ∷ []) v
  guard (is_platform v) unsupported_platform

unfoldable pub read_host : Option Value → Result Error Host
unfolding read_artifact
read_host v = do
  keys ("version" ∷ "apiVersion" ∷ "artifact" ∷ []) v
  version ← pattern is_version (at "version" v)
  api ← number 1 65535 (at "apiVersion" v)
  artifact ← read_artifact "elderbrain-host.tar.zst" host_limit (at "artifact" v)
  ok (record { version = version; api = api; artifact = artifact })

unfoldable pub read_setup : Option Value → Result Error Setup
read_setup v = do
  keys ("version" ∷ "image" ∷ "hostApi" ∷ []) v
  version ← pattern is_version (at "version" v)
  image ← pattern is_image_reference (at "image" v)
  keys ("min" ∷ "max" ∷ []) (at "hostApi" v)
  low ← number 1 65535 (at "min" (at "hostApi" v))
  high ← number low 65535 (at "max" (at "hostApi" v))
  ok (record { version = version; image = image; min_api = low; max_api = high })

unfoldable pub check_image_values : Fields → Result Error (Unit {0})
check_image_values end = ok tt
check_image_values (field k v rest) =
    let others = check_image_values rest in pattern is_image_reference (some v) >>= λ _. others

abbrev pub fields_of : Option Value → Fields
fields_of (some (object fields)) = fields
fields_of _ = end

unfoldable pub check_images : Option Value → Result Error (Unit {0})
unfolding check_image_values
check_images v = do
  keys ("traefik" ∷ "mindflayer-server" ∷ "foundry" ∷ []) v
  check_image_values (fields_of v)

unfoldable pub check_notes : Option Value → Result Error (Unit {0})
check_notes v = do
  s ← or_raise (text? v) bad_notes
  guard (leb (count s) 16000 && not (has_nul s)) bad_notes

-- What a file of the archive is, by its name.
abbrev pub kind? : String → Option Kind
kind? name =
    if is_wheel name
    then some wheel
    else if is_node name
    then some node
    else if str_eq name "dependencies.json"
    then some inventory
    else none

-- One round of the loop over the files.
unfoldable pub read_entry : String → Value → Result Error Entry
read_entry name v = do
  guard (leb (count name) 240) bad_filename
  kind ← or_raise (kind? name) unsupported_scope
  keys ("size" ∷ "sha256" ∷ []) (some v)
  size ← number 1 file_limit (at "size" (some v))
  digest ← pattern is_digest (at "sha256" (some v))
  ok (record { kind = kind; size = size; digest = digest })

unfoldable pub read_entries : Fields → Result Error (List Entry)
unfolding read_entry
read_entries end = ok []
read_entries (field name v rest) =
    let others = read_entries rest in read_entry name v >>= λ e. others >>= λ es. ok (e ∷ es)

-- `wheel_count`, `node_count` and `total` at the end of the loop.
abbrev pub wheels : List Entry → ℕ
wheels [] = 0
wheels (e ∷ rest) = elim e.kind [ wheel ↦ suc (wheels rest) | _ ↦ wheels rest ]

abbrev pub nodes : List Entry → ℕ
nodes [] = 0
nodes (e ∷ rest) = elim e.kind [ node ↦ suc (nodes rest) | _ ↦ nodes rest ]

abbrev pub total : List Entry → ℕ
total [] = 0
total (e ∷ rest) = e.size + total rest

abbrev pub has_inventory : Fields → Bool
has_inventory end = false
has_inventory (field name v rest) = str_eq name "dependencies.json" || has_inventory rest

abbrev pub file_count : Fields → ℕ
file_count end = 0
file_count (field name v rest) = suc (file_count rest)

abbrev pub is_inventory : Option Value → Bool
is_inventory (some (object fields)) = between 3 256 (file_count fields) && has_inventory fields
is_inventory _ = false

abbrev pub is_complete : List Entry → Bool
is_complete es = ltb 0 (wheels es) && nodes es == 1 && leb (total es) total_limit

-- `validate_dependencies`
unfoldable pub read_dependencies : Option Value → Result Error Dependencies
unfolding read_artifact read_entries
read_dependencies v = do
  keys ("artifact" ∷ "pythonAbi" ∷ "files" ∷ []) v
  guard (text_is "cp314" (at "pythonAbi" v)) unsupported_abi
  artifact ← read_artifact "elderbrain-dependencies.tar.zst" size_limit (at "artifact" v)
  guard (is_inventory (at "files" v)) bad_inventory
  files ← read_entries (fields_of (at "files" v))
  guard (is_complete files) bad_archive_contents
  ok (record { artifact = artifact; files = files })

-- Only format 2 has dependencies.
abbrev pub maybe_dependencies : Bool → Option Value → Result Error (Option Dependencies)
maybe_dependencies false v = ok none
maybe_dependencies true v = read_dependencies v >>= λ d. ok (some d)

abbrev pub is_two : Option Value → Bool
is_two v = elim (int? v) [ some n ↦ n == 2 | none ↦ false ]

abbrev pub manifest_keys : Bool → List String
manifest_keys two =
    let base =
      "format" ∷ "kind" ∷ "version" ∷ "releaseSequence" ∷ "recoveryApi" ∷ "platform" ∷ "host"
      ∷ "setup" ∷ "images" ∷ "configurationSchema" ∷ "notes" ∷ "downtimeSeconds" ∷ [] in
    if two then "dependencies" ∷ base else base

unfoldable pub read_format : Option Value → Result Error ℕ
read_format v = do
  n ← or_raise (int? (at "format" v)) unsupported_format
  guard ((n == 1 || n == 2) && text_is "mindflayer-elderbrain-release" (at "kind" v))
      unsupported_format
  ok n

abbrev pub is_supported : Host → Setup → Bool
is_supported host setup = between setup.min_api setup.max_api host.api

-- `validate`
unfoldable pub validate : Option Value → Result Error Release
unfolding read_format check_platform read_host read_setup check_images check_notes read_dependencies
validate v = do
  keys (manifest_keys (is_two (at "format" v))) v
  format ← read_format v
  version ← pattern is_version (at "version" v)
  sequence ← number 1 sequence_limit (at "releaseSequence" v)
  recovery_api ← number 1 65535 (at "recoveryApi" v)
  check_platform (at "platform" v)
  host ← read_host (at "host" v)
  setup ← read_setup (at "setup" v)
  guard (is_supported host setup) incompatible_host_api
  check_images (at "images" v)
  schema ← number 1 65535 (at "configurationSchema" v)
  downtime ← number 0 86400 (at "downtimeSeconds" v)
  check_notes (at "notes" v)
  dependencies ← maybe_dependencies (format == 2) (at "dependencies" v)
  ok (record {
    format = format;
    version = version;
    sequence = sequence;
    recovery_api = recovery_api;
    host = host;
    setup = setup;
    schema = schema;
    downtime = downtime;
    dependencies = dependencies;
  })
