-- ===== src/Installer/Tests.antt =====
-- Runs of the storage plan, of its preparation and of the storage guard at concrete inputs.
use mindflayer_elderbrain.Base.{
  ℕ, ◌+◌, ◌*◌, ◌≡◌, refl, true, false, Option, some, List, [], ◌∷◌, String, length, Value, Fields,
  object, array, string, number, bool, field, end, item, stop, get, text_is, Result, ok,
}
use mindflayer_elderbrain.Installer.Plan.{
  Error, preserve, mib, root_size, min_data_size, plan, build, select_disk, check_uuid, is_uuid,
  is_blank, only, with_serial, with_uuid, is_target, partitions_of, by_number, marker_matches,
}
use mindflayer_elderbrain.Installer.Identity.{Identity, Mount, validate_identity, check}
use mindflayer_elderbrain.Installer.Preserved.{AreHarmless, preserving_plan_is_harmless}
use mindflayer_elderbrain.Installer.Verified.{IsDataMount, guarded_start}

abbrev uuid : String
uuid = "01234567-89ab-cdef-0123-456789abcdef"

abbrev appliance : String
appliance = "11111111-2222-3333-4444-555555555555"

abbrev part : ℕ → ℕ → String → Fields → Value
part n size fstype more =
    object
      (field "number" (number n) (field "size" (number size) (field "fstype" (string fstype) more)))

abbrev disk_value : Value
disk_value = object (
    field "serial" (string "S1") (
      field "type" (string "disk") (
        field "removable" (bool false) (
          field "read_only" (bool false) (
            field "in_use" (bool false) (
              field "size" (number (root_size + min_data_size + 600 * mib)) (
                field "ptable" (string "gpt") (
                  field "partitions"
                    (array (
                      item (part 1 mib "" (field "flag" (string "bios_grub") end)) (
                        item (part 2 (512 * mib) "vfat" (field "flag" (string "boot") end)) (
                          item (part 3 root_size "ext4" end) (
                            item
                              (part 4 min_data_size "btrfs" (
                                field "uuid" (string uuid) (field "path" (string "/dev/sda4") end)))
                              stop)))))
                    end))))))))

abbrev marker_value : Value
marker_value = object (
    field "product" (string "mindflayer-elderbrain") (
      field "layout_version" (number 1) (
        field "data_uuid" (string uuid)
          (field "disk_serial" (string "S1") (field "appliance_id" (string appliance) end)))))

abbrev inventory : List Value
inventory = disk_value ∷ []

preserving_run :
    plan inventory preserve "S1" false (some uuid) marker_value true
    ≡ ok (build "S1" true true (some min_data_size))
unfolding plan select_disk check_uuid is_uuid is_blank
preserving_run = refl

preserving_plan_is_harmless_example :
    (target : Value) × (only (with_serial "S1" inventory) ≡ some target)
    × (is_target target ≡ true)
    × AreHarmless target "S1" (build "S1" true true (some min_data_size))
    × (u : String) × (some uuid ≡ some u)
    × (marker_matches marker_value u "S1" ≡ true)
    × (length (with_uuid u inventory) ≡ 1)
    × (v : Value) × (by_number 4 (partitions_of target) ≡ some v)
    × (text_is u (get "uuid" v) ≡ true)
preserving_plan_is_harmless_example =
    preserving_plan_is_harmless inventory "S1" false (some uuid) marker_value true
      (build "S1" true true (some min_data_size)) preserving_run

abbrev reader : String → String → Result Error Value
reader path u = ok marker_value

abbrev mounts : Option (List Mount)
mounts = some (
    record {
      target = "/data";
      fstype = "btrfs";
      uuid = uuid;
      fsroot = "/";
      options = "rw" ∷ "noatime" ∷ [];
    }
    ∷ [])

abbrev found_marker : Result Error Value
found_marker = ok marker_value

guarded_run : check found_marker mounts false found_marker "/data" ≡ ok tt
unfolding check validate_identity is_uuid is_blank
guarded_run = refl

guarded_start_example :
    (v w : Value) × (identity : Identity) × (found_marker ≡ ok v)
    × (found_marker ≡ ok w)
    × (validate_identity v ≡ ok identity)
    × (validate_identity w ≡ ok identity)
    × (false ≡ false)
    × IsDataMount mounts identity.data_uuid "/data"
guarded_start_example = guarded_start found_marker mounts false found_marker "/data" guarded_run
