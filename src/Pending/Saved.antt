-- ===== src/Pending/Saved.antt =====
-- A record that `write` saves is valid, and read back as it was (appliance/lib/backup_pending.py).
use mindflayer_elderbrain.Base.{
  ℕ, ◌≡◌, Bool, true, false, Option, none, some, String, Value, string, number, Fields, end, get,
  text?,
}
use mindflayer_elderbrain.Pending.Store.{Backup}
use mindflayer_elderbrain.Pending.Json.{archive_name, state_name, time_field}

abbrev time_value : Option ℕ → Option Value
time_value none = none
time_value (some n) = some (number n)

module _ (r : Backup) where
  abbrev last_fields : Fields
  last_fields = time_field "completedAt" r.completed_at end

  abbrev middle_fields : Fields
  middle_fields = time_field "uploadedAt" r.uploaded_at last_fields

  abbrev time_fields : Fields
  time_fields = time_field "lastFailureAt" r.last_failure middle_fields

abbrev pub archive_value : Bool → String → Option Value
archive_value false id = none
archive_value true id = some (string (archive_name id))

-- What is read of a value, field by field, is the record.
pub record ReadsBack (r : Backup) (v : Value) : Type 0 where
  pub format : get "format" v ≡ some (number 1)
  pub id : text? (get "id" v) ≡ some r.id
  pub checkpoint : text? (get "checkpoint" v) ≡ some r.checkpoint
  pub state : text? (get "state" v) ≡ some (state_name r.state)
  pub created_at : get "createdAt" v ≡ some (number r.created_at)
  pub archive : get "archive" v ≡ archive_value r.has_archive r.id
  pub last_failure : get "lastFailureAt" v ≡ time_value r.last_failure
  pub uploaded_at : get "uploadedAt" v ≡ time_value r.uploaded_at
  pub completed_at : get "completedAt" v ≡ time_value r.completed_at
