-- ===== src/Network/Files.antt =====
-- The Netplan directory as network_transaction.py reads and writes it.
-- A file's contents are a text with one character for each byte.
use Prim.Native.String.{count}
use mindflayer_elderbrain.Base.{
  ℕ, ◌*◌, Bool, true, false, not, ◌&&◌, ◌||◌, Option, none, some, String, str_eq, if◌then◌else◌,
  ltb, ◌==◌, Regex, seq, one, literal, letter, digit, some_many, fullmatch,
}
use text.Mathlib.Text.{starts_with}

pub data Error : Type 0 where
  bad_identity bad_owner bad_interface bad_transaction bad_confirmation bad_address : Error
  hierarchy_changed identity_used in_progress cleanup_pending source_changed bad_candidate no_file :
      Error
  bad_filename bad_source unsafe_source : Error
  bad_settings bad_servers bad_prefix bad_subnet bad_gateway : Error
  external_edit activation_failed : Error
  no_pending expired_confirmation wrong_address changed_sources no_matching terminal_failed : Error

-- What stands at a name: nothing, a regular file, or anything else.
pub data DirEntry : Type 0 where
  missing special : DirEntry
  regular : String → ℕ → ℕ → ℕ → DirEntry

-- `{'bytes': ..., 'mode': ..., 'uid': ..., 'gid': ...}`; `none` is a file that does not exist.
pub record Saved : Type 0 where
  pub bytes : Option String
  pub mode : ℕ
  pub uid : ℕ
  pub gid : ℕ

abbrev pub absent : Saved
absent = record { bytes = none; mode = 0o600; uid = 0; gid = 0 }

abbrev pub size_limit : ℕ
size_limit = 2 * 1024 * 1024

abbrev name_char : ℕ → Bool
name_char c = letter c || digit c || c == b'_' || c == b'.' || c == b'-'

abbrev pub filename_pattern : Regex
filename_pattern = seq (some_many (one name_char)) (literal ".yaml")

-- `filename`
unfoldable pub is_filename : String → Bool
unfolding fullmatch
is_filename name = fullmatch filename_pattern name && not (starts_with name ".")

abbrev pub opt_eq : Option String → Option String → Bool
opt_eq none none = true
opt_eq (some a) (some b) = str_eq a b
opt_eq _ _ = false

abbrev pub saved_eq : Saved → Saved → Bool
saved_eq a b = opt_eq a.bytes b.bytes && a.mode == b.mode && a.uid == b.uid && a.gid == b.gid

-- The Netplan files by name.
abbrev pub Directory : Type 0
Directory = String → DirEntry

abbrev pub saved? : DirEntry → Option Saved
saved? missing = some absent
saved? special = none
saved? (regular bytes mode uid gid) =
    if ltb size_limit (count bytes)
    then none
    else some (record { bytes = some bytes; mode = mode; uid = uid; gid = gid })

abbrev pub put_file : String → DirEntry → Directory → Directory
put_file name e dir j = if str_eq j name then e else dir j

-- The file that `saved` describes.
abbrev pub entry_of : Saved → DirEntry
entry_of s = elim s.bytes [ none ↦ missing | some b ↦ regular b s.mode s.uid s.gid ]
