-- ===== src/Snapshots/Tests.antt =====
-- Runs of the snapshot store at concrete inputs.
use mindflayer_elderbrain.Base.{
  ℕ, ◌≡◌, refl, Bool, true, none, some, List, [], ◌∷◌, String, here, there, has_name, ok,
  is_identity, arith,
}
use mindflayer_elderbrain.Durable.{done, for_each}
use mindflayer_elderbrain.Snapshots.Store.{
  Metadata, File, missing, volume, World, Checkpoint, Pin, read_metadata, read_checkpoint,
  read_pins, collect, validate_pin, validate_compatibility, validate_nested, read_retention,
}
use mindflayer_elderbrain.Snapshots.Retention.{newest_first, retention_candidates, list_records}
use mindflayer_elderbrain.Snapshots.Operations.{
  file_names, pin_ids, find_name, prune, prune_locked, prune_one, finish_deletions, finish_one,
  delete_volume, mark_deleting, ask, pin_file, create, survey, capture, publish, write_pin,
}
use mindflayer_elderbrain.Snapshots.Spared.{by_pin, by_age, prune_spares}
use mindflayer_elderbrain.Snapshots.Events.{creates, perform, empty_store}
use mindflayer_elderbrain.Snapshots.Reserved.{created_is_pinned}

abbrev a : String
a = "aaaaaaaaaaaaaaaaaaaaaaaaaaaaaaaa"

abbrev b : String
b = "bbbbbbbbbbbbbbbbbbbbbbbbbbbbbbbb"

abbrev c : String
c = "cccccccccccccccccccccccccccccccc"

abbrev owner : String
owner = "0123456789abcdef0123456789abcdef"

abbrev file : String → ℕ → File Metadata
file k t = record {
  name = k;
  is_private = true;
  contents = some (record {
    version = some 1;
    id = some k;
    created_at = some t;
    reason = some "manual";
    compatibility = none;
  });
}

abbrev found : String → ℕ → Checkpoint
found k t = record { id = k; created_at = t; reason = "manual"; compatibility = none }

abbrev yes_replies : List Bool
yes_replies = true ∷ true ∷ true ∷ true ∷ true ∷ true ∷ true ∷ true ∷ true ∷ true ∷ true ∷ true ∷ []

-- Three checkpoints, the oldest of them pinned.
abbrev store : World
store = record {
  records = file b 2 ∷ file c 3 ∷ file a 1 ∷ [];
  deleting = [];
  pins = pin_file a owner "restore" ∷ [];
  subvolume = λ k. volume true;
  retention = none;
  replies = yes_replies;
}

store_pins : read_pins store ≡ ok (record { id = a; owner = owner; purpose = "restore" } ∷ [])
unfolding read_pins validate_pin is_identity
store_pins = refl

store_records : collect read_metadata store.records ≡ ok (found b 2 ∷ found c 3 ∷ found a 1 ∷ [])
unfolding read_metadata is_identity validate_compatibility
store_records = refl

-- Keeping one, `prune` deletes the middle checkpoint and no other.
prune_middle : (prune 1 [] (record { disk = store; power = 9 })).0 ≡ done (b ∷ [])
unfolding prune prune_locked finish_deletions finish_one delete_volume ask read_pins validate_pin
    is_identity list_records read_checkpoint read_metadata validate_compatibility newest_first
    retention_candidates for_each prune_one mark_deleting
prune_middle = refl

middle_deleted : (prune 1 [] (record { disk = store; power = 9 })).1.disk.subvolume b ≡ missing
unfolding prune prune_locked finish_deletions finish_one delete_volume ask read_pins validate_pin
    is_identity list_records read_checkpoint read_metadata validate_compatibility newest_first
    retention_candidates for_each prune_one mark_deleting
middle_deleted = refl

prune_spares_example :
    let v = (prune 1 [] (record { disk = store; power = 2 })).1.disk in
    (v.subvolume a ≡ volume true)
    × (find_name a v.records ≡ some (file a 1))
    × (v.pins ≡ store.pins)
prune_spares_example =
    prune_spares store 1 [] (record { id = a; owner = owner; purpose = "restore" } ∷ [])
      (found b 2 ∷ found c 3 ∷ found a 1 ∷ []) a store_pins store_records (by_pin refl) 2

prune_spares_newest :
    let v = (prune 1 [] (record { disk = store; power = 2 })).1.disk in
    (v.subvolume c ≡ volume true)
    × (find_name c v.records ≡ some (file c 3))
    × (v.pins ≡ store.pins)
prune_spares_newest =
    prune_spares store 1 [] (record { id = a; owner = owner; purpose = "restore" } ∷ [])
      (found b 2 ∷ found c 3 ∷ found a 1 ∷ []) c store_pins store_records
      (by_age (found c 3) refl refl (there _ _ (here _ _ refl)) (omega arith)) 2

-- A checkpoint is made, and a prune is cut short.
abbrev lived : World
lived =
    perform (creates "before-update" (some (owner, "update")) none [] a 5)
      (record { disk = record empty_store { replies = yes_replies }; power = 9 })

lived_listed : has_name a (file_names lived.records) ≡ true
unfolding create survey capture publish write_pin ask read_retention validate_pin is_identity
    validate_compatibility validate_nested read_pins
lived_listed = refl

created_is_pinned_example :
    (ps : List Pin) × (read_pins lived ≡ ok ps) × (has_name a (pin_ids ps) ≡ true)
created_is_pinned_example =
    created_is_pinned "before-update" owner "update" none [] a 5
      (record { disk = record empty_store { replies = yes_replies }; power = 9 }) refl lived_listed
