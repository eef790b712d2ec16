-- ===== src/Release/ManifestTests.antt =====
-- A release manifest (appliance/lib/appliance_release.py) at concrete values.
use mindflayer_elderbrain.Base.{
  ℕ, ◌≡◌, ◌↔◌, refl, Bool, ◌&&◌, true, some, int?, [], ◌∷◌, List, String, str_eq, Value, object,
  field, end, number, string, ok, err, is_digest, is_version,
}
use mindflayer_elderbrain.Release.Errors.{
  incompatible_host_api, truncated, incompatible_installed_api,
}
use mindflayer_elderbrain.Release.Fields as Fields
use mindflayer_elderbrain.Release.Fields.{
  keys, pattern, is_image_reference, is_wheel, is_node, has_nul,
}
use mindflayer_elderbrain.Release.Manifest.{
  Release, wheel, node, inventory, read_artifact, check_platform, read_host, read_setup,
  check_image_values, check_images, check_notes, read_entry, read_entries, read_dependencies,
  read_format, validate,
}
use mindflayer_elderbrain.Release.Verify.{
  Document, host, Opened, read_chunks, verify_artifact, is_this_platform, require_compatible,
}
use mindflayer_elderbrain.Release.Policy.{save_record, read_record, require_new}
use mindflayer_elderbrain.Release.Validated.{valid_release_is_let_in}
use mindflayer_elderbrain.Release.Parts.{Within}
use mindflayer_elderbrain.Release.Verified.{
  IsExact, verify_artifact-IsExact, compatible_release_fits,
}
use mindflayer_elderbrain.Release.Tests.{digest_a, accepted}

abbrev image : String
image = "setup@sha256:aaaaaaaaaaaaaaaaaaaaaaaaaaaaaaaaaaaaaaaaaaaaaaaaaaaaaaaaaaaaaaaa"

abbrev artifact_value : String → ℕ → Value
artifact_value name size =
    object (
      field "file" (string name)
        (field "size" (number size) (field "sha256" (string digest_a) end)))

abbrev platform : Value
platform = object (
    field "os" (string "ubuntu")
      (field "release" (string "26.04") (field "architecture" (string "amd64") end)))

abbrev host_value : ℕ → Value
host_value api = object (
    field "version" (string "1.4.0") (
      field "apiVersion" (number api)
        (field "artifact" (artifact_value "elderbrain-host.tar.zst" 3) end)))

abbrev setup_value : Value
setup_value = object (
    field "version" (string "1.4.0") (
      field "image" (string image)
        (field "hostApi" (object (field "min" (number 2) (field "max" (number 4) end))) end)))

abbrev images : Value
images = object (
    field "traefik" (string image)
      (field "mindflayer-server" (string image) (field "foundry" (string image) end)))

abbrev entry : Value
entry = object (field "size" (number 10) (field "sha256" (string digest_a) end))

abbrev dependencies_value : Value
dependencies_value = object (
    field "artifact" (artifact_value "elderbrain-dependencies.tar.zst" 40) (
      field "pythonAbi" (string "cp314") (
        field "files"
          (object (
            field "dependencies.json" entry
              (field "wheels/a-1.whl" entry (field "node/playwright-core-1.4.0.tgz" entry end))))
          end)))

abbrev manifest : ℕ → Value
manifest api = object (
    field "format" (number 2) (
      field "kind" (string "mindflayer-elderbrain-release") (
        field "version" (string "1.4.0") (
          field "releaseSequence" (number 8) (
            field "recoveryApi" (number 1) (
              field "platform" platform (
                field "host" (host_value api) (
                  field "setup" setup_value (
                    field "images" images (
                      field "configurationSchema" (number 1) (
                        field "notes" (string "Notes.") (
                          field "downtimeSeconds" (number 60)
                            (field "dependencies" dependencies_value end)))))))))))))

abbrev release : Release
release = record {
  format = 2;
  version = "1.4.0";
  sequence = 8;
  recovery_api = 1;
  host = record { version = "1.4.0"; api = 3; artifact = record { size = 3; digest = digest_a } };
  setup = record { version = "1.4.0"; image = image; min_api = 2; max_api = 4 };
  schema = 1;
  downtime = 60;
  dependencies = some (record {
    artifact = record { size = 40; digest = digest_a };
    files =
        record { kind = inventory; size = 10; digest = digest_a }
        ∷ record { kind = wheel; size = 10; digest = digest_a }
        ∷ record { kind = node; size = 10; digest = digest_a }
        ∷ [];
  });
}

valid : validate (some (manifest 3)) ≡ ok release
unfolding validate keys pattern Fields.number is_image_reference is_wheel is_node has_nul
    read_artifact check_platform read_host read_setup check_image_values check_images check_notes
    read_entry read_entries read_dependencies read_format is_digest is_version
valid = refl

-- The host's API is above what the setup takes.
unsupported : validate (some (manifest 5)) ≡ err incompatible_host_api
unfolding validate keys pattern Fields.number is_image_reference is_wheel is_node has_nul
    read_artifact check_platform read_host read_setup check_image_values check_images check_notes
    read_entry read_entries read_dependencies read_format is_digest is_version
unsupported = refl

abbrev signed : String → String → String → Bool
signed text signature key = str_eq signature "signature" && str_eq key "key"

abbrev document : Document
document = record { text = "{...}"; value = some (manifest 3) }

valid_release_is_let_in_example : require_new (save_record (accepted 7 "1.3.0")) (manifest 3) ≡ ok 8
unfolding read_record is_digest is_version
valid_release_is_let_in_example =
    valid_release_is_let_in (manifest 3) release (save_record (accepted 7 "1.3.0"))
      (some (accepted 7 "1.3.0")) valid refl

abbrev sha256 : List ℕ → String
sha256 [] = "none"
sha256 (b ∷ bs) = digest_a

abbrev opened : List ℕ → Opened
opened bytes = record { is_regular = true; size = 3; bytes = bytes }

verify_artifact-IsExact_example :
    (verify_artifact sha256 (opened (1 ∷ 2 ∷ 3 ∷ [])) (some (manifest 3)) host
      ≡ ok release.host.artifact)
    ↔ IsExact sha256 (opened (1 ∷ 2 ∷ 3 ∷ [])) release.host.artifact
verify_artifact-IsExact_example =
    verify_artifact-IsExact sha256 (opened (1 ∷ 2 ∷ 3 ∷ [])) (some (manifest 3)) release host
      release.host.artifact valid refl

-- A file that shrinks while it is read, and a setup for an older host.
shrunk : verify_artifact sha256 (opened (1 ∷ 2 ∷ [])) (some (manifest 3)) host ≡ err truncated
unfolding verify_artifact read_chunks
shrunk = rw valid refl

older_host :
    require_compatible (some (manifest 3)) platform (some (number 1)) (some (number 1)) true
    ≡ err incompatible_installed_api
unfolding require_compatible Fields.number
older_host = rw valid refl

newer_host :
    require_compatible (some (manifest 3)) platform (some (number 1)) (some (number 2)) true ≡ ok tt
unfolding require_compatible Fields.number
newer_host = rw valid refl

compatible_release_fits_example :
    (r : Release) × (validate (some (manifest 3)) ≡ ok r)
    × (is_this_platform platform ≡ true)
    × (int? (some (number 1)) ≡ some r.schema)
    × (true ≡ true
        → (n : ℕ) × (int? (some (number 2)) ≡ some n) × Within r.setup.min_api r.setup.max_api n)
compatible_release_fits_example =
    compatible_release_fits (some (manifest 3)) platform (some (number 1)) (some (number 2)) true
      newer_host
