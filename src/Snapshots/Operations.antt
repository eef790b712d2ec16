-- ===== src/Snapshots/Operations.antt =====
-- The operations of `class Snapshots` (appliance/lib/local_snapshots.py). The lock makes each run alone;
-- the machine may stop at any write. A command, the guard and `quiesce` succeed or raise.
use mindflayer_elderbrain.Base.{
  ℕ, Bool, true, false, not, ◌&&◌, Option, none, some, List, [], ◌∷◌, ◌++◌, String, str_eq,
  if◌then◌else◌, select, is_identity, has_name, Value, Result, ok, err,
}
use mindflayer_elderbrain.Durable.{
  Action, done, raised, pure, raise, lift, write, for_each, require, ◌>>=◌, ◌>>◌,
}
use mindflayer_elderbrain.Snapshots.Store.{
  Error, bad_reason, no_checkpoint, other_purpose, conflicting_pin, bad_deletion, not_private,
  command_failed, no_space, file_exists, unguarded, Metadata, Retention, File, PinFile, Node,
  missing, volume, World, Checkpoint, Pin, reasons, one_version, id_is, validate_pin,
  validate_retention, validate_compatibility, read_pins, read_retention, read_only, validate_nested,
}
use mindflayer_elderbrain.Snapshots.Retention.{retention_candidates, ids, list_records}

abbrev pub Store : Type 0 → Type 0
Store A = Action Error World A

abbrev pub file_names : List (File Metadata) → List String
file_names [] = []
file_names (f ∷ rest) = f.name ∷ file_names rest

-- A call that succeeds or raises, by the next reply; with no reply left it raises.
abbrev pub answer : Error → List Bool → Store (Unit {0})
answer e [] m = raise e m
answer e (false ∷ rest) m =
    (raised e, record { disk = record m.disk { replies = rest }; power = m.power })
answer e (true ∷ rest) m =
    (done tt, record { disk = record m.disk { replies = rest }; power = m.power })

unfoldable pub ask : Error → Store (Unit {0})
ask e m = answer e m.disk.replies m

-- `self.guard()`
abbrev pub check_guard : Store (Unit {0})
check_guard = ask unguarded

-- `prepare`: the guard, and the checks of the directory.
abbrev pub prepare : Store (Unit {0})
prepare = check_guard >> ask not_private

-- A result that is read of the disk.
abbrev pub reads : {A : Type 0} → (World → Result Error A) → Store A
reads f m = lift (f m.disk) m

abbrev pub drop_name : {A : Type 0} → String → List (File A) → List (File A)
drop_name name = select (λ f. not (str_eq f.name name))

abbrev pub find_name : {A : Type 0} → String → List (File A) → Option (File A)
find_name name [] = none
find_name name (f ∷ rest) = if str_eq f.name name then some f else find_name name rest

abbrev pub set_node : String → Node → (String → Node) → String → Node
set_node name n nodes j = if str_eq j name then n else nodes j

abbrev pub pin_ids : List Pin → List String
pin_ids [] = []
pin_ids (p ∷ rest) = p.id ∷ pin_ids rest

abbrev pub deletes : String → World → World
deletes name w = record w { subvolume = set_node name missing w.subvolume }

abbrev pub clears : String → World → World
clears name w = record w { deleting = drop_name name w.deleting }

abbrev pub intent_matches : String → Option Metadata → Bool
intent_matches name none = false
intent_matches name (some meta) = id_is name meta.id && one_version meta.version

-- The subvolume of an intent goes, unless it went before.
unfoldable pub delete_volume : String → Node → Store (Unit {0})
unfolding ask
delete_volume name missing = pure tt
delete_volume name node = do lift (read_only node); ask command_failed; write (deletes name)

-- One round of the loop of `finish_deletions`.
unfoldable pub finish_one : List String → File Metadata → Store (Unit {0})
unfolding delete_volume
finish_one protected f = do
  require (not (has_name f.name protected)) conflicting_pin
  require (is_identity f.name) bad_deletion
  require f.is_private bad_deletion
  require (intent_matches f.name f.contents) bad_deletion
  check_guard
  λ m. delete_volume f.name (m.disk.subvolume f.name) m
  write (clears f.name)

-- `finish_deletions`
unfoldable pub finish_deletions : Store (Unit {0})
unfolding finish_one
finish_deletions = do
  pins ← reads read_pins
  λ m. for_each m.disk.deleting (finish_one (pin_ids pins)) m

-- `recover`
unfoldable pub recover : Store (Unit {0})
recover = do prepare; finish_deletions

abbrev pub moves : File Metadata → String → World → World
moves f name w = record w {
  records = drop_name name w.records;
  deleting = f ∷ drop_name name w.deleting;
}

abbrev pub move_found : Option (File Metadata) → String → Store (Unit {0})
move_found none name = raise command_failed
move_found (some f) name = write (moves f name)

-- `os.rename(root / (identifier + '.json'), root / (identifier + '.deleting'))`
unfoldable pub mark_deleting : String → Store (Unit {0})
mark_deleting name m = move_found (find_name name m.disk.records) name m

unfoldable pub prune_one : String → Store (Unit {0})
unfolding mark_deleting
prune_one name = do check_guard; mark_deleting name; finish_deletions

-- `prune_locked`
unfoldable pub prune_locked : ℕ → List String → Store (List String)
unfolding prune_one
prune_locked keep protected = do
  finish_deletions
  records ← reads list_records
  pins ← reads read_pins
  candidates ← lift (retention_candidates records keep (protected ++ pin_ids pins))
  for_each candidates prune_one
  pure candidates

-- `prune`
unfoldable pub prune : ℕ → List String → Store (List String)
prune keep protected = do prepare; prune_locked keep protected

abbrev pub same_pin : String → String → Pin → Bool
same_pin identifier owner p = str_eq p.id identifier && str_eq p.owner owner

abbrev pub find_pin : String → String → List Pin → Option Pin
find_pin identifier owner [] = none
find_pin identifier owner (p ∷ rest) =
    if same_pin identifier owner p then some p else find_pin identifier owner rest

abbrev pub pin_file : String → String → String → PinFile
pin_file identifier owner purpose = record {
  first = identifier;
  second = owner;
  is_private = true;
  contents = some (record {
    version = some 1;
    id = some identifier;
    owner = some owner;
    purpose = some purpose;
  });
}

abbrev pub keep_or_write : String → String → String → Option Pin → Store (Unit {0})
keep_or_write identifier owner purpose (some p) = require (str_eq p.purpose purpose) other_purpose
keep_or_write identifier owner purpose none =
    write (λ w. record w { pins = pin_file identifier owner purpose ∷ w.pins })

-- `write_pin`
unfoldable pub write_pin : String → String → String → Store (Unit {0})
write_pin identifier owner purpose = do
  lift (validate_pin identifier owner purpose)
  pins ← reads read_pins
  keep_or_write identifier owner purpose (find_pin identifier owner pins)

-- `pin`
unfoldable pub pin : String → String → String → Store (Unit {0})
pin identifier owner purpose = do
  lift (validate_pin identifier owner purpose)
  prepare
  records ← reads list_records
  require (has_name identifier (ids records)) no_checkpoint
  write_pin identifier owner purpose

abbrev pub is_file_of : String → String → PinFile → Bool
is_file_of identifier owner f = str_eq f.first identifier && str_eq f.second owner

abbrev pub unlinks_pin : String → String → World → World
unlinks_pin identifier owner w = record w {
  pins = select (λ f. not (is_file_of identifier owner f)) w.pins;
}

abbrev pub remove_pin : String → String → String → Option Pin → Store (Unit {0})
remove_pin identifier owner purpose none = pure tt
remove_pin identifier owner purpose (some p) = do
  require (str_eq p.purpose purpose) other_purpose
  write (unlinks_pin identifier owner)

-- `unpin`
unfoldable pub unpin : String → String → String → Store (Unit {0})
unpin identifier owner purpose = do
  lift (validate_pin identifier owner purpose)
  prepare
  pins ← reads read_pins
  remove_pin identifier owner purpose (find_pin identifier owner pins)

abbrev pub is_owned : String → String → Pin → Bool
is_owned owner purpose p = str_eq p.owner owner && str_eq p.purpose purpose

unfoldable pub release_one : String → String → Pin → Store (Unit {0})
release_one owner purpose p =
    if is_owned owner purpose p then write (unlinks_pin p.id owner) else pure tt

-- `unpin_owner`
unfoldable pub unpin_owner : String → String → Store (Unit {0})
unfolding release_one
unpin_owner owner purpose = do
  lift (validate_pin "00000000000000000000000000000000" owner purpose)
  prepare
  pins ← reads read_pins
  for_each pins (release_one owner purpose)

abbrev pub is_missing : Node → Bool
is_missing missing = true
is_missing _ = false

abbrev pub snapshots : String → World → World
snapshots name w = record w { subvolume = set_node name (volume true) w.subvolume }

abbrev pub publishes : Checkpoint → World → World
publishes c w = record w {
  records =
      record {
        name = c.id;
        is_private = true;
        contents = some (record {
          version = some 1;
          id = some c.id;
          created_at = some c.created_at;
          reason = some c.reason;
          compatibility = c.compatibility;
        });
      }
      ∷ w.records;
}

abbrev pub pin_new : String → Option (String × String) → Store (Unit {0})
pin_new name none = pure tt
pin_new name (some (owner, purpose)) = write_pin name owner purpose

abbrev pub apply_retention : Retention → String → Store (Unit {0})
apply_retention r name =
    if r.enabled then (do prune_locked r.keep (name ∷ []); pure tt) else pure tt

-- The part of `create` before the snapshot: `prepare`, the guards, the settings and the checks. A reply
-- each: the free space, `quiesce`, and the commands that list and sync.
unfoldable pub survey : Option Value → List String → String → Store (Retention × Option Value)
survey compatibility nested identifier = do
  prepare
  check_guard
  r ← reads read_retention
  ask no_space
  ask command_failed
  check_guard
  c ← lift (validate_compatibility compatibility)
  lift (validate_nested nested)
  ask command_failed
  λ m. require (is_missing (m.disk.subvolume identifier)) command_failed m
  pure (r, c)

-- The record is made last, by an exclusive creation.
unfoldable pub publish : Checkpoint → Store Checkpoint
publish new = do
  λ m. require (not (has_name new.id (file_names m.disk.records))) file_exists m
  write (publishes new)
  pure new

-- The snapshot, its pin and its record, in this order.
unfoldable pub capture : Option (String × String) → Checkpoint → Store Checkpoint
unfolding publish
capture owner new = do
  write (snapshots new.id)
  λ m. lift (read_only (m.disk.subvolume new.id)) m
  ask command_failed
  pin_new new.id owner
  publish new

abbrev pub check_owner : Option (String × String) → Result Error (Unit {0})
check_owner none = ok tt
check_owner (some (owner, purpose)) = validate_pin "00000000000000000000000000000000" owner purpose

-- `create`, with the lines that list the nested subvolumes and what `secrets.token_hex` and `time.time`
-- return.
unfoldable pub create :
    String → Option (String × String) → Option Value → List String → String → ℕ → Store Checkpoint
unfolding survey capture
create reason owner compatibility nested identifier now = do
  require (has_name reason reasons) bad_reason
  lift (check_owner owner)
  found ← survey compatibility nested identifier
  let new : Checkpoint = record {
    id = identifier;
    created_at = now;
    reason = reason;
    compatibility = found.1;
  }
  capture owner new
  apply_retention found.0 identifier
  pure new

abbrev pub sets : Retention → World → World
sets value w = record w {
  retention = some (record { name = ""; is_private = true; contents = some value });
}

-- `retention`, with a value to set.
unfoldable pub set_retention : Retention → Store Retention
set_retention value = do
  lift (validate_retention value)
  prepare
  reads read_retention
  write (sets value)
  pure value

abbrev pub find_checkpoint : String → List Checkpoint → Option Checkpoint
find_checkpoint identifier [] = none
find_checkpoint identifier (c ∷ rest) =
    if str_eq c.id identifier then some c else find_checkpoint identifier rest

abbrev pub pin_checkpoints :
    String → List Checkpoint → List Pin → Result Error (List (Pin × Checkpoint))
pin_checkpoints purpose records [] = ok []
pin_checkpoints purpose records (p ∷ rest) =
    let others = pin_checkpoints purpose records rest in
    if str_eq p.purpose purpose
    then elim (find_checkpoint p.id records) [
      | none ↦ err no_checkpoint
      | some c ↦ elim others [ err e ↦ err e | ok found ↦ ok ((p, c) ∷ found) ]
    ]
    else others

-- `pinned_records`
unfoldable pub pinned_records : String → Store (List (Pin × Checkpoint))
pinned_records purpose = do
  prepare
  records ← reads list_records
  pins ← reads read_pins
  lift (pin_checkpoints purpose records pins)
