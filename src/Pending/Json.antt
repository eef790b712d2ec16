-- ===== src/Pending/Json.antt =====
-- `validate_record` of appliance/lib/backup_pending.py, and a record as `write` saves it. `is_finite`
-- stands for `math.isfinite` of a float, by its text.
use Prim.Native.String.{◌++◌ as append}
use mindflayer_elderbrain.Base.{
  ℕ, Bool, true, false, ◌&&◌, Option, none, some, [], ◌∷◌, String, str_eq, ◌==◌, is_identity,
  has_name, Value, null, string, number, negative, real, bool, object, Fields, field, end, get,
  text?,
}
use mindflayer_elderbrain.Pending.Store.{
  State, checkpoint_ready, pending_upload, uploaded, completed, Backup,
}

abbrev pub is_id : Option String → Bool
is_id none = false
is_id (some s) = is_identity s

abbrev pub is_state : Option String → Bool
is_state none = false
is_state (some s) =
    has_name s ("checkpoint-ready" ∷ "pending-upload" ∷ "uploaded" ∷ "completed" ∷ [])

abbrev pub archive_name : String → String
archive_name id = append "elderbrain-" (append id ".tar.zst")

abbrev pub is_archive : Option Value → Option String → Bool
is_archive none id = true
is_archive (some null) id = true
is_archive (some (string s)) (some id) = str_eq s (archive_name id)
is_archive (some _) id = false

-- Python's True is 1 too.
abbrev pub is_format : Option Value → Bool
is_format (some (number n)) = n == 1
is_format (some (bool b)) = b
is_format _ = false

module _ (is_finite : String → Bool) where
  -- A finite int or float.
  abbrev pub is_time : Value → Bool
  is_time (number n) = true
  is_time (negative n) = true
  is_time (real s) = is_finite s
  is_time _ = false

  abbrev pub has_time : Option Value → Bool
  has_time none = false
  has_time (some v) = is_time v

  abbrev pub time_or_missing : Option Value → Bool
  time_or_missing none = true
  time_or_missing (some v) = is_time v

  -- `validate_record`, of a value whose identities are texts; the float 1.0, which is 1 too, is refused.
  unfoldable pub validate_record : Value → Bool
  validate_record v =
      is_format (get "format" v)
      && is_id (text? (get "id" v))
      && is_id (text? (get "checkpoint" v))
      && is_state (text? (get "state" v))
      && has_time (get "createdAt" v)
      && time_or_missing (get "lastFailureAt" v)
      && time_or_missing (get "uploadedAt" v)
      && time_or_missing (get "completedAt" v)
      && is_archive (get "archive" v) (text? (get "id" v))

abbrev pub state_name : State → String
state_name checkpoint_ready = "checkpoint-ready"
state_name pending_upload = "pending-upload"
state_name uploaded = "uploaded"
state_name completed = "completed"

abbrev pub time_field : String → Option ℕ → Fields → Fields
time_field key none rest = rest
time_field key (some n) rest = field key (number n) rest

abbrev pub archive_field : Bool → String → Fields → Fields
archive_field false id rest = rest
archive_field true id rest = field "archive" (string (archive_name id)) rest

-- What `write` saves.
unfoldable pub saved_value : Backup → Value
saved_value r = object (
    field "format" (number 1) (
      field "id" (string r.id) (
        field "checkpoint" (string r.checkpoint) (
          field "state" (string (state_name r.state)) (
            field "createdAt" (number r.created_at) (
              archive_field r.has_archive r.id (
                time_field "lastFailureAt" r.last_failure (
                  time_field "uploadedAt" r.uploaded_at
                    (time_field "completedAt" r.completed_at end)))))))))
