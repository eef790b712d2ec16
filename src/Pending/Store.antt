-- ===== src/Pending/Store.antt =====
-- What backup_pending.py keeps on disk: the records of pending-backup/, each valid and under its own
-- identity; the pins of the purpose pending-backup that the store of snapshots lists, each with its
-- checkpoint; and the local archives, each named by the identity of its backup. `uploaded` has the
-- identities whose archive the repository took. Times are counts of ticks. A call of the snapshots, of
-- the archive's code or of the repository succeeds or raises, by the next of `replies`.
use Prim.Native.Nat.{Ordering}
use Prim.Native.String.{compare}
use mindflayer_elderbrain.Base.{
  ℕ, Bool, true, false, not, ◌&&◌, ◌||◌, Option, none, some, List, [], ◌∷◌, String, str_eq,
  if◌then◌else◌, ltb, ◌==◌, select, some_of,
}

pub data Error : Type 0 where
  bad_owner already_completed no_shutdown_checkpoint no_matching_pin call_failed : Error

pub data State : Type 0 where
  checkpoint_ready pending_upload uploaded completed : State

pub record Backup : Type 0 where
  pub id : String
  pub checkpoint : String
  pub state : State
  pub created_at : ℕ
  -- Whether the record names its archive, which is always elderbrain-<id>.tar.zst.
  pub has_archive : Bool
  pub last_failure : Option ℕ
  pub uploaded_at : Option ℕ
  pub completed_at : Option ℕ

pub record Pin : Type 0 where
  pub owner : String
  pub checkpoint : String
  -- The reason of the checkpoint is before-shutdown.
  pub at_shutdown : Bool
  pub made_at : ℕ

pub record World : Type 0 where
  pub records : List Backup
  pub pins : List Pin
  pub archives : List String
  pub uploaded : List String
  pub replies : List Bool
  pub now : ℕ

abbrev pub is_completed : State → Bool
is_completed completed = true
is_completed _ = false

abbrev pub is_uploaded : State → Bool
is_uploaded uploaded = true
is_uploaded _ = false

abbrev pub find_record : String → List Backup → Option Backup
find_record id [] = none
find_record id (r ∷ rest) =
    let later = find_record id rest in if str_eq r.id id then some r else later

-- `write`: the record's file is replaced.
abbrev pub save : Backup → List Backup → List Backup
save r records = r ∷ select (λ s. not (str_eq s.id r.id)) records

abbrev pub is_less : Ordering → Bool
is_less Ordering.lt = true
is_less _ = false

-- The order of `read_records`.
abbrev pub is_before : Backup → Backup → Bool
is_before a b =
    ltb a.created_at b.created_at || (a.created_at == b.created_at && is_less (compare a.id b.id))

abbrev pub oldest : List Backup → Option Backup
oldest [] = none
oldest (r ∷ rest) = elim (oldest rest) [
  | none ↦ some r
  | some s ↦ if is_before s r then some s else some r
]

abbrev pub newest : List Backup → Option Backup
newest [] = none
newest (r ∷ rest) = elim (newest rest) [
  | none ↦ some r
  | some s ↦ if is_before r s then some s else some r
]

abbrev pub or_newest : Option Backup → List Backup → Option Backup
or_newest none records = newest records
or_newest (some r) records = some r

-- `read_record`: the oldest that is not completed, or else the newest.
unfoldable pub read_record : List Backup → Option Backup
read_record records = or_newest (oldest (select (λ r. not (is_completed r.state)) records)) records

abbrev pub is_pin_of : String → String → Pin → Bool
is_pin_of owner checkpoint p = str_eq p.owner owner && str_eq p.checkpoint checkpoint

abbrev pub is_record_of : Pin → Backup → Bool
is_record_of p r = str_eq r.id p.owner && str_eq r.checkpoint p.checkpoint

abbrev pub has_record : Pin → List Backup → Bool
has_record p = some_of (is_record_of p)
