-- ===== src/Release/Verify.antt =====
-- `verify`, `verify_artifact` and `require_compatible` of appliance/lib/appliance_release.py. A file's bytes
-- are a list. What `openssl dgst -verify` says of a manifest, a signature and a key, and the SHA-256 of a
-- file, are parameters.
use Prim.Native.String.{count}
use mindflayer_elderbrain.Base.{
  ℕ, zero, suc, ◌-◌, ◌*◌, Bool, true, false, not, ◌&&◌, ◌||◌, Option, none, some, List, [], ◌∷◌,
  ◌++◌, String, str_eq, if◌then◌else◌, leb, ◌==◌, between, length, take, drop, has_name, Value,
  array, object, Fields, field, end, Items, item, stop, field_names, has_keys, int?, Result, ok,
  err, guard, or_raise, ◌>>=◌, ◌>>◌,
}
use mindflayer_elderbrain.Release.Errors.{
  Error, duplicate_field, not_json, bad_manifest_size, bad_signature_size, bad_key_size,
  bad_signature, unsupported_component, size_mismatch, truncated, checksum_mismatch,
  schema_migration, incompatible_installed_api,
}
use mindflayer_elderbrain.Release.Fields.{number as read_number}
use mindflayer_elderbrain.Release.Manifest.{Artifact, Release, is_platform, validate}

-- The bytes of a manifest, and what `json.loads` makes of them before its hook.
pub record Document : Type 0 where
  pub text : String
  pub value : Option Value

abbrev pub distinct : List String → Bool
distinct [] = true
distinct (k ∷ rest) = not (has_name k rest) && distinct rest

-- `unique`: no object has a field twice.
unfoldable mutual
  pub unique : Value → Bool
  unique (object fields) = distinct (field_names fields) && unique_fields fields
  unique (array items) = unique_items items
  unique _ = true

  pub unique_fields : Fields → Bool
  unique_fields end = true
  unique_fields (field k v rest) = unique v && unique_fields rest

  pub unique_items : Items → Bool
  unique_items stop = true
  unique_items (item v rest) = unique v && unique_items rest

abbrev pub manifest_limit : ℕ
manifest_limit = 65536

-- `verify`
unfoldable pub verify :
    (String → String → String → Bool) → Document → String → String → Result Error Release
unfolding unique
verify signed manifest signature public_key = do
  guard (between 1 manifest_limit (count manifest.text)) bad_manifest_size
  guard (between 1 1024 (count signature)) bad_signature_size
  guard (between 1 16384 (count public_key)) bad_key_size
  guard (signed manifest.text signature public_key) bad_signature
  value ← or_raise manifest.value not_json
  guard (unique value) duplicate_field
  validate (some value)

pub data Component : Type 0 where
  host dependencies : Component

-- `component not in release`, and its artifact.
abbrev pub artifact_of : Component → Release → Option Artifact
artifact_of host r = some r.host.artifact
artifact_of dependencies r = elim r.dependencies [ none ↦ none | some d ↦ some d.artifact ]

-- What is opened: its type and size by `fstat`, and the bytes that are read then, which may differ.
pub record Opened : Type 0 where
  pub is_regular : Bool
  pub size : ℕ
  pub bytes : List ℕ

abbrev pub chunk_limit : ℕ
chunk_limit = 1024 * 1024

abbrev pub minimum : ℕ → ℕ → ℕ
minimum a b = if leb a b then a else b

-- `if not chunk: raise`
abbrev pub unless_empty : List ℕ → Result Error (List ℕ × List ℕ) → Result Error (List ℕ × List ℕ)
unless_empty [] rest = err truncated
unless_empty (b ∷ bs) rest = rest

-- The loop over the chunks, on fuel: what was read, and what is left.
unfoldable pub read_chunks : ℕ → ℕ → List ℕ → List ℕ → Result Error (List ℕ × List ℕ)
read_chunks fuel zero bytes seen = ok (seen, bytes)
read_chunks zero (suc n) bytes seen = err truncated
read_chunks (suc fuel) (suc n) bytes seen =
    let chunk = take (minimum chunk_limit (suc n)) bytes in
    let rest =
      read_chunks fuel (suc n - length chunk) (drop (minimum chunk_limit (suc n)) bytes)
        (seen ++ chunk) in
    unless_empty chunk rest

abbrev pub is_empty : List ℕ → Bool
is_empty [] = true
is_empty (b ∷ bs) = false

-- `verify_artifact`
unfoldable pub verify_artifact :
    (List ℕ → String) → Opened → Option Value → Component → Result Error Artifact
unfolding read_chunks
verify_artifact sha256 source release component = do
  r ← validate release
  artifact ← or_raise (artifact_of component r) unsupported_component
  guard (source.is_regular && source.size == artifact.size) size_mismatch
  read ← read_chunks artifact.size artifact.size source.bytes []
  guard (is_empty read.1 && str_eq (sha256 read.0) artifact.digest) checksum_mismatch
  ok artifact

abbrev pub is_this_platform : Value → Bool
is_this_platform v = has_keys ("os" ∷ "release" ∷ "architecture" ∷ []) v && is_platform (some v)

-- The installed host's API is one that the setup of the release takes.
abbrev pub serves : Release → Option Value → Bool
serves r installed = elim (int? installed) [
  | none ↦ false
  | some n ↦ between r.setup.min_api r.setup.max_api n
]

-- `require_compatible`
unfoldable pub require_compatible :
    Option Value → Value → Option Value → Option Value → Bool → Result Error (Unit {0})
require_compatible release platform schema installed setup_only = do
  r ← validate release
  n ← read_number 1 65535 schema
  guard (is_this_platform platform && r.schema == n) schema_migration
  guard (not setup_only || serves r installed) incompatible_installed_api
