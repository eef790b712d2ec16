-- ===== src/Jobs/Record.antt =====
-- The record of a host job (appliance/lib/host_jobs.py), and what a dead worker leaves of it.
use mindflayer_elderbrain.Base.{
  ℕ, Bool, true, false, not, ◌&&◌, Option, none, some, [], ◌∷◌, String, str_eq, if◌then◌else◌,
  Regex, seq, times, one, hex, char, fullmatch, has_name, all_in, Value, Fields, field, end,
  field_names, get, dict?, has_keys, text?, text_is,
}

-- The keys of `COMMANDS`.
pub data Kind : Type 0 where
  backup backup_recover restore_recover restore_preview restore : Kind
  borg_init borg_test borg_list borg_backup borg_fetch borg_recovery_kit : Kind
  backup_encrypted restore_preview_encrypted keypad_install keypad_provision : Kind
  snapshot_create snapshot_recover snapshot_restore network_snapshot_restore update power : Kind

pub data State : Type 0 where
  queued running completed failed interrupted rolled_back : State

pub data Action : Type 0 where
  reboot shutdown : Action

-- The request that a record keeps: of the power, of an update by version and digest, or another.
pub data Request : Type 0 where
  power_request : Action → Request
  update_request : String → String → Request
  other_request : Request

-- What `result` shows.
pub data Report : Type 0 where
  power_report : Action → Value → Report
  update_report : String → State → String → Report
  other_report : Value → Report

-- The messages that `error` may hold.
pub data Message : Type 0 where
  not_activated stopped_activating worker_stopped keypad_stopped not_started operation_failed
        keypad_failed :
      Message

pub record Job : Type 0 where
  pub identity : String
  pub kind : Kind
  pub state : State
  pub stage : Option String
  pub request : Request
  pub created_at : ℕ
  pub finished_at : Option ℕ
  pub result : Option Report
  pub error : Option Message

-- `ACTIVE`
abbrev pub is_active : State → Bool
is_active queued = true
is_active running = true
is_active _ = false

abbrev pub is_update : Kind → Bool
is_update update = true
is_update _ = false

abbrev pub is_power : Kind → Bool
is_power power = true
is_power _ = false

-- `PRE_ACTIVATION`
abbrev pub is_before_activation : Option String → Bool
is_before_activation none = true
is_before_activation (some s) = has_name s (
    "verifying-release" ∷ "downloading-host" ∷ "downloading-dependencies" ∷ "preparing-runtime"
    ∷ "preparing-recovery" ∷ "activating" ∷ [])

abbrev pub action_name : Action → String
action_name reboot = "reboot"
action_name shutdown = "shutdown"

-- `[a-f0-9]{8}(?:-[a-f0-9]{4}){3}-[a-f0-9]{12}`
abbrev pub boot_pattern : Regex
boot_pattern =
    seq (times 8 (one hex))
      (seq (times 3 (seq (char b'-') (times 4 (one hex)))) (seq (char b'-') (times 12 (one hex))))

unfoldable pub is_boot_id : String → Bool
unfolding fullmatch
is_boot_id s = fullmatch boot_pattern s

abbrev pub holds : Option String → (String → Bool) → Bool
holds none p = false
holds (some s) p = p s

abbrev pub is_text : Value → Bool
is_text v = elim (text? (some v)) [ none ↦ false | some s ↦ true ]

abbrev pub all_text : Fields → Bool
all_text end = true
all_text (field k v rest) = is_text v && all_text rest

-- The backup of a power record: a state, perhaps a checkpoint, all of them texts.
abbrev pub backup? : Value → Option Value
backup? asked = elim (get "backup" asked) [
  | none ↦ none
  | some v ↦ elim (dict? v) [
    | none ↦ none
    | some fields ↦
        if all_in (field_names fields) ("state" ∷ "checkpoint" ∷ [])
          && has_name "state" (field_names fields)
          && all_text fields
        then some v
        else none
  ]
]

-- The power record asks for this job's action, in another boot than the present one.
abbrev pub is_request_of : String → String → Action → Value → Bool
is_request_of boot identity action asked =
    has_keys ("state" ∷ "action" ∷ "bootId" ∷ "backup" ∷ "jobId" ∷ []) asked
    && text_is "requested" (get "state" asked)
    && text_is identity (get "jobId" asked)
    && text_is (action_name action) (get "action" asked)
    && holds (text? (get "bootId" asked)) (λ b. is_boot_id b && not (str_eq b boot))

abbrev pub report_power : Bool → Action → Option Value → Option Report
report_power true action (some protection) = some (power_report action protection)
report_power _ action _ = none

-- `_completed_power`, for a job of that kind.
unfoldable pub completed_power : String → Job → Option Value → Option Report
completed_power boot j none = none
completed_power boot j (some asked) = elim j.request [
  | power_request action ↦
      report_power (is_request_of boot j.identity action asked) action (backup? asked)
  | other ↦ none
]

-- `_has_update_maintenance`
unfoldable pub has_update_maintenance : Job → Option Value → Bool
has_update_maintenance j none = false
has_update_maintenance j (some maintenance) = elim j.request [
  | update_request version digest ↦
      text_is "update" (get "operation" maintenance)
      && text_is j.identity (get "jobId" maintenance)
      && text_is version (get "version" maintenance)
      && text_is digest (get "manifestSha256" maintenance)
  | other ↦ false
]
