-- ===== src/Installer/Plan.antt =====
-- iso/storage_plan.py. The inventory is what the probe's JSON says; a plan is a list of Curtin actions.
use mindflayer_elderbrain.Base.{
  ℕ, ◌+◌, ◌*◌, ◌^◌, Bool, true, false, not, ◌&&◌, ◌||◌, Option, none, some, List, [], ◌∷◌, ◌++◌,
  String, str_eq, if◌then◌else◌, leb, ◌==◌, length, select, every, Regex, seq, times, many, char,
  one, hex, is_space, fullmatch, Value, get, bool, text?, int?, list?, text_is, Result, ok, err,
  guard, or_raise, ◌>>=◌, ◌>>◌,
}

pub data Error : Type 0 where
  no_uuid bad_uuid no_serial ambiguous_serial unsafe_target too_small : Error
  bad_mode not_confirmed bad_metadata bad_layout bad_numbers bad_flags bad_sizes bad_filesystems :
      Error
  ambiguous_uuid : Error
  bad_identity bad_identity_uuid no_mount bad_mount bad_marker : Error
  unsafe_inspection changed_disk bad_device : Error

abbrev pub mib : ℕ
mib = 1024 ^ 2

abbrev pub gib : ℕ
gib = 1024 ^ 3

abbrev pub root_size : ℕ
root_size = 48 * gib

abbrev pub min_data_size : ℕ
min_data_size = 24 * gib

-- `str(UUID(value)) == value`: the canonical lowercase form.
abbrev uuid_pattern : Regex
uuid_pattern = seq (times 8 (one hex)) (
    seq (char b'-') (
      seq (times 4 (one hex)) (
        seq (char b'-') (
          seq (times 4 (one hex))
            (seq (char b'-') (seq (times 4 (one hex)) (seq (char b'-') (times 12 (one hex)))))))))

unfoldable pub is_uuid : String → Bool
unfolding fullmatch
is_uuid s = fullmatch uuid_pattern s

-- `_uuid`
unfoldable pub check_uuid : Option String → Result Error String
check_uuid none = err no_uuid
check_uuid (some s) = do guard (is_uuid s) bad_uuid; ok s

-- `not value.strip()`
unfoldable pub is_blank : String → Bool
unfolding fullmatch
is_blank s = fullmatch (many (one is_space)) s

abbrev pub text_of : String → Value → Option String
text_of key v = text? (get key v)

abbrev pub number_of : String → Value → Option ℕ
number_of key v = int? (get key v)

abbrev is_false : Option Value → Bool
is_false (some (bool false)) = true
is_false _ = false

abbrev pub same_text : Option String → Option String → Bool
same_text none none = true
same_text (some a) (some b) = str_eq a b
same_text _ _ = false

abbrev pub number_is : ℕ → Option ℕ → Bool
number_is n none = false
number_is n (some m) = m == n

abbrev at_least : ℕ → Option ℕ → Bool
at_least n none = false
at_least n (some m) = leb n m

-- `[disk for disk in inventory if disk.get('serial') == serial]`
abbrev pub with_serial : String → List Value → List Value
with_serial serial = select (λ d. text_is serial (get "serial" d))

abbrev pub only {ℓ} : {A : Type ℓ} → List A → Option A
only (x ∷ []) = some x
only _ = none

-- An unused, writable, non-removable disk.
abbrev pub is_target : Value → Bool
is_target d =
    text_is "disk" (get "type" d)
    && is_false (get "removable" d)
    && is_false (get "read_only" d)
    && is_false (get "in_use" d)

-- `select_disk`
unfoldable pub select_disk : List Value → String → Result Error Value
select_disk inventory serial = do
  guard (not (is_blank serial)) no_serial
  target ← or_raise (only (with_serial serial inventory)) ambiguous_serial
  guard (is_target target) unsafe_target
  guard (at_least (root_size + min_data_size + 515 * mib) (number_of "size" target)) too_small
  ok target

pub data Mode : Type 0 where
  fresh preserve : Mode

-- `size` is `none` for -1, the rest of the disk.
pub record Partition : Type 0 where
  pub number : ℕ
  pub size : Option ℕ
  pub flag : Option String

-- The actions of the plan; `wipe` is whether the disk's action has `'wipe': 'superblock-recursive'`.
pub data Action : Type 0 where
  disk : String → (preserve grub_device wipe : Bool) → Action
  partition : Partition → (preserve grub_device : Bool) → Action
  format : ℕ → String → (preserve : Bool) → Action
  mount : ℕ → String → Action

abbrev pub layout : Option ℕ → List Partition
layout data_size =
    record { number = 1; size = some mib; flag = some "bios_grub" }
    ∷ record { number = 2; size = some (512 * mib); flag = some "boot" }
    ∷ record { number = 3; size = some root_size; flag = none }
    ∷ record { number = 4; size = data_size; flag = none }
    ∷ []

-- The persistent filesystem's marker names this appliance, this filesystem and this disk.
abbrev pub marker_matches : Value → String → String → Bool
marker_matches metadata uuid serial =
    text_is "mindflayer-elderbrain" (get "product" metadata)
    && number_is 1 (number_of "layout_version" metadata)
    && text_is uuid (get "data_uuid" metadata)
    && text_is serial (get "disk_serial" metadata)

abbrev pub partitions_of : Value → List Value
partitions_of d = elim (list? (get "partitions" d)) [ none ↦ [] | some ps ↦ ps ]

abbrev pub by_number : ℕ → List Value → Option Value
by_number n [] = none
by_number n (p ∷ rest) = if number_is n (number_of "number" p) then some p else by_number n rest

-- `sorted(p.get('number', 0) for p in existing) == [1, 2, 3, 4]`, of four partitions.
abbrev pub has_numbers : List Value → Bool
has_numbers ps =
    every (λ n. length (select (λ p. number_is n (number_of "number" p)) ps) == 1)
      (1 ∷ 2 ∷ 3 ∷ 4 ∷ [])

-- One round of the loop over the expected partitions.
abbrev pub check_partition : List Value → Partition → Result Error (Unit {0})
check_partition existing expected = do
  actual ← or_raise (by_number expected.number existing) bad_numbers
  guard (same_text (text_of "flag" actual) expected.flag) bad_flags
  guard
      (expected.number == 4
        || elim expected.size [ none ↦ true | some n ↦ number_is n (number_of "size" actual) ])
      bad_sizes

abbrev pub each : {E A : Type 0} → (A → Result E (Unit {0})) → List A → Result E (Unit {0})
each f [] = ok tt
each f (a ∷ rest) = let others = each f rest in f a >> others

abbrev pub has_fstype : String → Option Value → Bool
has_fstype fstype none = false
has_fstype fstype (some p) = text_is fstype (get "fstype" p)

-- `[p for d in inventory for p in d.get('partitions', []) if p.get('uuid') == data_uuid]`
abbrev pub with_uuid : String → List Value → List Value
with_uuid uuid [] = []
with_uuid uuid (d ∷ rest) =
    select (λ p. text_is uuid (get "uuid" p)) (partitions_of d) ++ with_uuid uuid rest

abbrev pub filesystems_match : List Value → String → Value → ℕ → Bool
filesystems_match existing u data_partition size =
    leb min_data_size size
    && text_is "btrfs" (get "fstype" data_partition)
    && text_is u (get "uuid" data_partition)
    && has_fstype "vfat" (by_number 2 existing)
    && has_fstype "ext4" (by_number 3 existing)

-- The checks of the preserve branch; the size of the data partition is returned.
unfoldable pub check_preserved :
    List Value → Value → String → Option String → Value → Result Error ℕ
check_preserved inventory target serial uuid metadata = do
  u ← check_uuid uuid
  guard (marker_matches metadata u serial) bad_metadata
  appliance ← check_uuid (text_of "appliance_id" metadata)
  let existing = partitions_of target
  guard (text_is "gpt" (get "ptable" target) && length existing == 4) bad_layout
  guard (has_numbers existing) bad_numbers
  each (check_partition existing) (layout none)
  data_partition ← or_raise (by_number 4 existing) bad_numbers
  size ← or_raise (number_of "size" data_partition) bad_filesystems
  guard (filesystems_match existing u data_partition size) bad_filesystems
  guard (length (with_uuid u inventory) == 1) ambiguous_uuid
  ok size

abbrev pub partition_actions : Bool → Bool → List Partition → List Action
partition_actions keep uefi [] = []
partition_actions keep uefi (p ∷ rest) =
    partition p keep (p.number == 2 && uefi) ∷ partition_actions keep uefi rest

abbrev pub data_mount : String
data_mount = "/var/lib/mindflayer-elderbrain"

abbrev pub filesystem_actions : Bool → List Action
filesystem_actions keep =
    format 2 "fat32" keep
    ∷ mount 2 "/boot/efi"
    ∷ format 3 "ext4" false
    ∷ mount 3 "/"
    ∷ format 4 "btrfs" keep
    ∷ mount 4 data_mount
    ∷ []

-- The end of `plan`.
unfoldable pub build : String → Bool → Bool → Option ℕ → List Action
build serial keep uefi data_size =
    disk serial keep (not uefi) (not keep)
    ∷ (partition_actions keep uefi (layout data_size) ++ filesystem_actions keep)

-- `plan`
unfoldable pub plan :
    List Value → Mode → String → Bool → Option String → Value → Bool → Result Error (List Action)
unfolding build check_preserved
plan inventory fresh serial erase_confirmed uuid metadata uefi = do
  d ← select_disk inventory serial
  guard erase_confirmed not_confirmed
  ok (build serial false uefi none)
plan inventory preserve serial erase_confirmed uuid metadata uefi = do
  d ← select_disk inventory serial
  size ← check_preserved inventory d serial uuid metadata
  ok (build serial true uefi (some size))
