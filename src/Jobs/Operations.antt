-- ===== src/Jobs/Operations.antt =====
-- `submit`, `reconcile_update` and `worker` of appliance/lib/host_jobs.py.
use mindflayer_elderbrain.Base.{
  ℕ, Bool, true, false, not, ◌&&◌, ◌||◌, Option, none, some, List, ◌∷◌, select, String, str_eq,
  if◌then◌else◌, some_of, has_name, is_identity, is_digest, Value, get, text?, text_is, Result, ok,
  err,
}
use mindflayer_elderbrain.Jobs.Record.{
  Kind, keypad_install, keypad_provision, update, power, State, queued, running, completed, failed,
  interrupted, rolled_back, Request, update_request, Report, update_report, other_report, Message,
  operation_failed, keypad_failed, Job, is_active, is_update, holds,
}
use mindflayer_elderbrain.Jobs.Record as Record
use mindflayer_elderbrain.Jobs.Store.{
  Error, power_is_pending, job_is_running, job_exists, not_started, not_queued, no_job, World,
  find_job, update_job, ends, settle_all,
}
use mindflayer_elderbrain.Jobs.Requests.{read_request}

-- `pending` of power_service.py
unfoldable pub is_power_pending : World → Bool
is_power_pending w = elim w.power_record [
  | none ↦ false
  | some v ↦
      (text_is "protecting" (get "state" v) || text_is "requested" (get "state" v))
      && text_is w.boot_id (get "bootId" v)
]

abbrev pub is_busy : Job → Bool
is_busy j = is_active j.state

abbrev pub exists : String → List Job → Bool
exists identity = some_of (λ j. str_eq j.identity identity)

abbrev pub new_job : String → Kind → Request → ℕ → Job
new_job identity kind request now = record {
  identity = identity;
  kind = kind;
  state = queued;
  stage = none;
  request = request;
  created_at = now;
  finished_at = none;
  result = none;
  error = none;
}

-- The record is saved while the lock is held; the worker inherits the lock, if it is started.
abbrev pub start_worker : Bool → Job → World → Result Error Job × World
start_worker true j w = (ok j, record w { jobs = j ∷ w.jobs; held = j.identity ∷ w.held })
start_worker false j w =
    (err not_started, record w { jobs = ends failed w.now Record.not_started j ∷ w.jobs })

-- With the records settled: no active job, and a fresh lock file.
abbrev pub admit_idle : Kind → Request → String → Bool → World → Result Error Job × World
admit_idle kind request fresh spawned w =
    if some_of is_busy w.jobs
    then (err job_is_running, w)
    else if exists fresh w.jobs
    then (err job_exists, w)
    else start_worker spawned (new_job fresh kind request w.now) w

-- The part of `submit` under the admission lock.
unfoldable pub admit : Kind → Request → String → Bool → World → Result Error Job × World
unfolding is_power_pending
admit kind request fresh spawned w =
    if is_power_pending w
    then (err power_is_pending, w)
    else admit_idle kind request fresh spawned (settle_all w)

abbrev pub admit_request :
    Kind → String → Bool → Result Error Request × World → Result Error Job × World
admit_request kind fresh spawned (err e, w) = (err e, w)
admit_request kind fresh spawned (ok request, w) = admit kind request fresh spawned w

-- `submit`; `fresh` is what `uuid.uuid4` returns, and `spawned` whether the worker's process starts.
unfoldable pub submit :
    (Kind → Option Value → Bool)
    → Kind
    → Option Value
    → String
    → Bool
    → World
    → Result Error Job × World
unfolding admit
submit accepts kind source fresh spawned w =
    admit_request kind fresh spawned (read_request accepts kind source w)

-- `os.close` of the lock, or the end of the process.
unfoldable pub release : String → World → World
release identity w = record w { held = select (λ i. not (str_eq i identity)) w.held }

abbrev pub first_stage : Kind → Option String → Option String
first_stage power stage = some "requesting-power"
first_stage _ stage = stage

abbrev pub is_queued : State → Bool
is_queued queued = true
is_queued _ = false

abbrev pub begins : Job → Job
begins j =
    if is_queued j.state
    then record j { state = running; stage = first_stage j.kind j.stage }
    else j

abbrev pub begin_found : String → World → Option Job → Result Error (Unit {0}) × World
begin_found identity w none = (err no_job, w)
begin_found identity w (some j) =
    if is_queued j.state
    then (ok tt, record w { jobs = update_job identity begins w.jobs })
    else (err not_queued, w)

-- The start of `worker`.
unfoldable pub begin_work : String → World → Result Error (Unit {0}) × World
begin_work identity w = begin_found identity w (find_job identity w.jobs)

abbrev pub is_running : State → Bool
is_running running = true
is_running _ = false

-- `progress`
abbrev pub advances : String → Job → Job
advances stage j = if is_running j.state then record j { stage = some stage } else j

unfoldable pub progress : String → String → World → World
progress identity stage w = record w { jobs = update_job identity (advances stage) w.jobs }

-- How the operation of a worker ends.
pub data Ending : Type 0 where
  succeeds : Report → Ending
  fails : Ending

abbrev pub failure : Kind → Message
failure keypad_install = keypad_failed
failure keypad_provision = keypad_failed
failure _ = operation_failed

abbrev pub concludes : ℕ → Ending → Job → Job
concludes now (succeeds report) j =
    if is_running j.state
    then record j { state = completed; finished_at = some now; result = some report }
    else j
concludes now fails j = if is_running j.state then ends failed now (failure j.kind) j else j

-- The end of `worker`, before the lock is released.
unfoldable pub end_work : String → Ending → World → World
end_work identity ending w = record w { jobs = update_job identity (concludes w.now ending) w.jobs }

abbrev pub end_state? : Option String → Option State
end_state? none = none
end_state? (some s) =
    if str_eq s "completed"
    then some completed
    else if str_eq s "rolled-back"
    then some rolled_back
    else none

-- What `reconcile_update` takes of the outcome of a recovery.
pub record Outcome : Type 0 where
  pub state : State
  pub identity : String
  pub operation : String
  pub version : Option String
  pub digest : String

abbrev pub make_outcome :
    Option State → Option String → Option String → Option String → Option String → Option Outcome
make_outcome (some s) (some identity) (some operation) version (some digest) =
    if is_identity identity && is_identity operation && is_digest digest
    then some (record {
      state = s;
      identity = identity;
      operation = operation;
      version = version;
      digest = digest;
    })
    else none
make_outcome _ _ _ _ _ = none

unfoldable pub read_outcome : Value → Option Outcome
read_outcome v =
    if text_is "update" (get "operation" v)
    then make_outcome (end_state? (text? (get "state" v))) (text? (get "jobId" v))
        (text? (get "id" v)) (text? (get "version" v)) (text? (get "manifestSha256" v))
    else none

abbrev pub is_unresolved : State → Bool
is_unresolved completed = false
is_unresolved rolled_back = false
is_unresolved _ = true

abbrev pub asks_for : Option String → String → Request → Bool
asks_for version digest (update_request v d) = holds version (λ s. str_eq s v) && str_eq d digest
asks_for version digest _ = false

-- The job is the update that the outcome is of.
abbrev pub is_outcome_of : Outcome → Job → Bool
is_outcome_of o j =
    is_update j.kind && is_unresolved j.state && asks_for o.version o.digest j.request

abbrev pub version_of : Option String → String
version_of none = ""
version_of (some s) = s

abbrev pub resolves : Outcome → ℕ → Job → Job
resolves o now j =
    if is_outcome_of o j
    then record j {
      state = o.state;
      stage = some "recovery-finished";
      finished_at = some now;
      result = some (update_report o.operation o.state (version_of o.version));
      error = none;
    }
    else j

abbrev pub reconcile_with : Outcome → World → Option Job → Bool × World
reconcile_with o w none = (false, w)
reconcile_with o w (some j) =
    if not (has_name o.identity w.held) && is_outcome_of o j
    then (true, record w { jobs = update_job o.identity (resolves o w.now) w.jobs })
    else (false, w)

abbrev pub reconcile_outcome : World → Option Outcome → Bool × World
reconcile_outcome w none = (false, w)
reconcile_outcome w (some o) = reconcile_with o w (find_job o.identity w.jobs)

-- `reconcile_update`
unfoldable pub reconcile_update : Value → World → Bool × World
unfolding read_outcome
reconcile_update v w = reconcile_outcome w (read_outcome v)
