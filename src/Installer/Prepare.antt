-- ===== src/Installer/Prepare.antt =====
-- iso/storage_prepare.py: a plan comes only after the identity on the disk was read. The probe of the
-- disks runs twice, and `marker_reader` reads the marker of a partition.
use mindflayer_elderbrain.Base.{
  Bool, true, false, ◌&&◌, Option, none, some, List, [], ◌∷◌, String, str_eq, ◌==◌, length,
  if◌then◌else◌, Value, Fields, Items, null, array, object, string, real, number, negative, bool,
  field, end, item, stop, lookup_field, field_names, Result, ok, guard, or_raise, ◌>>=◌, ◌>>◌,
}
use mindflayer_elderbrain.Installer.Plan.{
  Error, ambiguous_serial, bad_numbers, bad_device, changed_disk, Mode, fresh, preserve, Action,
  plan, check_uuid, with_serial, partitions_of, by_number, text_of, only,
}

-- Python's `==` on what `json` reads: the order of an object's fields does not count, and `True == 1`.
-- A float is compared by its text.
unfoldable mutual
  pub same_value : Value → Value → Bool
  same_value null v = elim v [ null ↦ true | _ ↦ false ]
  same_value (array xs) v = elim v [ array ys ↦ same_items xs ys | _ ↦ false ]
  same_value (object fs) v = elim v [
    | object gs ↦ length (field_names fs) == length (field_names gs) && fields_in fs gs
    | _ ↦ false
  ]
  same_value (string s) v = elim v [ string t ↦ str_eq s t | _ ↦ false ]
  same_value (real s) v = elim v [ real t ↦ str_eq s t | _ ↦ false ]
  same_value (number n) v = elim v [
    | number m ↦ n == m
    | bool b ↦ n == (if b then 1 else 0)
    | _ ↦ false
  ]
  same_value (negative n) v = elim v [ negative m ↦ n == m | _ ↦ false ]
  same_value (bool true) v = elim v [ bool b ↦ b | number n ↦ n == 1 | _ ↦ false ]
  same_value (bool false) v = elim v [
    | bool b ↦ (if b then false else true)
    | number n ↦ n == 0
    | _ ↦ false
  ]

  pub fields_in : Fields → Fields → Bool
  fields_in end gs = true
  fields_in (field k v rest) gs =
      elim (lookup_field k gs) [ none ↦ false | some w ↦ same_value v w ] && fields_in rest gs

  pub same_items : Items → Items → Bool
  same_items stop ys = elim ys [ stop ↦ true | _ ↦ false ]
  same_items (item x xs) ys = elim ys [
    | stop ↦ false
    | item y r ↦ same_value x y && same_items xs r
  ]

abbrev pub first {ℓ} : {A : Type ℓ} → List A → Option A
first [] = none
first (x ∷ xs) = some x

-- `dict(product='mindflayer-elderbrain', ...)`: it stands in for the marker until that is read.
abbrev pub geometry_marker : String → String → Value
geometry_marker uuid serial = object (
    field "product" (string "mindflayer-elderbrain") (
      field "layout_version" (number 1) (
        field "data_uuid" (string uuid) (
          field "disk_serial" (string serial)
            (field "appliance_id" (string "00000000-0000-0000-0000-000000000000") end)))))

abbrev pub unchanged : List Value → Value → Bool
unchanged found selected = elim (only found) [ none ↦ false | some d ↦ same_value d selected ]

-- `prepare`: `before` and `after` are what the probe returns at its two calls.
unfoldable pub prepare :
    Mode
    → String
    → List Value
    → List Value
    → (String → String → Result Error Value)
    → Bool
    → Option String
    → Bool
    → Result Error (List Action × Option Value)
prepare fresh serial before after marker_reader erase_confirmed uuid uefi = do
  storage ← plan before fresh serial erase_confirmed none null uefi
  ok (storage, none)
prepare preserve serial before after marker_reader erase_confirmed uuid uefi = do
  u ← check_uuid uuid
  geometry ← plan before preserve serial false (some u) (geometry_marker u serial) uefi
  selected ← or_raise (first (with_serial serial before)) ambiguous_serial
  data_partition ← or_raise (by_number 4 (partitions_of selected)) bad_numbers
  path ← or_raise (text_of "path" data_partition) bad_device
  identity ← marker_reader path u
  guard (unchanged (with_serial serial after) selected) changed_disk
  storage ← plan after preserve serial false (some u) identity uefi
  ok (storage, some identity)
