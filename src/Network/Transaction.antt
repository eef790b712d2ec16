-- ===== src/Network/Transaction.antt =====
-- `class NetworkTransaction` of appliance/lib/network_transaction.py, run as root. The lock makes each
-- operation run alone; a reboot may cut it short at any durable write.
use mindflayer_elderbrain.Base.{
  ℕ, Bool, true, false, not, ◌||◌, Option, none, some, List, [], ◌∷◌, String, str_eq, if◌then◌else◌,
  leb,
}
use mindflayer_elderbrain.Durable.{
  Action, done, raised, pure, raise, write, for_each, ◌>>=◌, ◌>>◌, require,
}
use mindflayer_elderbrain.Network.Files.{
  Error, bad_filename, bad_source, unsafe_source, external_edit, activation_failed, DirEntry,
  missing, special, regular, Saved, is_filename, opt_eq, Directory, saved?, put_file,
}

pub data Phase : Type 0 where
  staged applying pending rolling_back rolled_back confirmed : Phase

abbrev pub is_terminal : Phase → Bool
is_terminal confirmed = true
is_terminal rolled_back = true
is_terminal _ = false

-- One file's change: what stood there, and the new contents, `none` to remove the file.
pub record Change : Type 0 where
  pub before : Saved
  pub after : Option String

pub data Mode : Type 0 where
  static dhcp : Mode

pub record Confirmation : Type 0 where
  pub digest : String
  pub mode : Mode
  pub address : Option String

abbrev pub Files : Type 0
Files = List (String × Change)

-- The durable record, state.json. `files` is taken out of it at the end.
pub record State : Type 0 where
  pub identifier : String
  pub phase : Phase
  pub interface : String
  pub deadline : ℕ
  pub expires : ℕ
  pub boot : String
  pub files : Files
  pub fingerprint : Option String
  pub confirmation : Option Confirmation
  pub restore_owner : Option String
  pub cleanup_complete : Bool

-- The disk and the clocks. `replies` says of each further call of `apply`, `generate` or `on_terminal`
-- whether it returns; a call with no reply left raises.
pub record World : Type 0 where
  pub state : Option State
  pub directory : Directory
  pub now : ℕ
  pub monotonic : ℕ
  pub boot_id : String
  pub replies : List Bool

-- The verifiers that the constructor takes.
pub record Verifiers : Type 0 where
  pub sources : String → Bool
  pub proof : String → State → Bool

abbrev pub Net : Type 0 → Type 0
Net A = Action Error World A

-- `self.write(record)`
abbrev pub save : State → Net (Unit {0})
save r = write (λ w. record w { state = some r })

-- `self.apply()` and the other callbacks.
abbrev pub answer : List Bool → Net (Unit {0})
answer [] m = raise activation_failed m
answer (false ∷ rest) m =
    (raised activation_failed, record { disk = record m.disk { replies = rest }; power = m.power })
answer (true ∷ rest) m =
    (done tt, record { disk = record m.disk { replies = rest }; power = m.power })

unfoldable pub activate : Net (Unit {0})
activate m = answer m.disk.replies m

abbrev pub found : Option Saved → Net Saved
found none = raise bad_source
found (some s) = pure s

-- `file`
unfoldable pub read_file : String → Net Saved
read_file name m =
    if is_filename name then found (saved? (m.disk.directory name)) m else raise bad_filename m

abbrev pub write_file : String → DirEntry → Net (Unit {0})
write_file name e = write (λ w. record w { directory = put_file name e w.directory })

abbrev pub unlink : String → DirEntry → Net (Unit {0})
unlink name missing = pure tt
unlink name special = raise unsafe_source
unlink name (regular b m u g) = write_file name missing

abbrev pub replace_by : String → Option String → Saved → Net (Unit {0})
replace_by name none meta m = unlink name (m.disk.directory name) m
replace_by name (some bytes) meta m = write_file name (regular bytes meta.mode meta.uid meta.gid) m

-- `replace`
unfoldable pub replace : String → Option String → Saved → Net (Unit {0})
replace name content meta m =
    if is_filename name then replace_by name content meta m else raise bad_filename m

-- `expired`
abbrev pub expired : World → State → Bool
expired w r = not (str_eq r.boot w.boot_id) || leb r.deadline w.now || leb r.expires w.monotonic

-- The end of a change: `record.pop('files'); record.pop('confirmation', None)`.
abbrev pub close : Phase → State → State
close p r = record r { phase = p; files = []; confirmation = none }

abbrev pub no_conflict : Change → Saved → Bool
no_conflict c s = opt_eq s.bytes c.before.bytes || opt_eq s.bytes c.after

unfoldable pub check_conflict : String × Change → Net (Unit {0})
unfolding read_file
check_conflict (name, c) = do
  current ← read_file name
  require (no_conflict c current) external_edit

unfoldable pub put_back : String × Change → Net (Unit {0})
unfolding replace
put_back (name, c) = replace name c.before.bytes c.before

-- The part of `restore` for a change that may have been applied.
unfoldable pub revert : State → Net State
revert r = do
  save (record r { phase = rolling_back })
  for_each r.files check_conflict
  for_each r.files put_back
  activate
  save (close rolled_back r)
  pure (close rolled_back r)

-- `restore`; the record that it leaves is returned.
unfoldable pub restore_phase : Phase → State → Net State
restore_phase staged r = do save (close rolled_back r); pure (close rolled_back r)
restore_phase _ r = revert r

unfoldable pub restore : State → Net State
unfolding restore_phase
restore r = restore_phase r.phase r
