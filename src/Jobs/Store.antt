-- ===== src/Jobs/Store.antt =====
-- `JobStore` of appliance/lib/host_jobs.py: `read`, `list` and what they make of a dead worker's record.
-- A lock that is held stands for a live process; the admission lock makes each operation run alone.
use mindflayer_elderbrain.Base.{
  ℕ, not, ◌&&◌, Option, none, some, List, [], ◌∷◌, map, String, str_eq, if◌then◌else◌, ltb,
  has_name, is_identity, Value, Result, ok, err,
}
use mindflayer_elderbrain.Jobs.Record.{
  Kind, keypad_install, keypad_provision, State, completed, failed, interrupted, Report, Message,
  not_activated, stopped_activating, worker_stopped, keypad_stopped, Job, is_active, is_update,
  is_power, is_before_activation, completed_power, has_update_maintenance,
}

pub data Error : Type 0 where
  bad_identity no_job unsupported_source power_is_pending job_is_running job_exists not_started
        not_queued :
      Error

-- The directory of the jobs, the identities whose lock is held, power.json and maintenance.json, the boot
-- and the clock.
pub record World : Type 0 where
  pub jobs : List Job
  pub held : List String
  pub power_record : Option Value
  pub maintenance : Option Value
  pub boot_id : String
  pub now : ℕ

abbrev pub find_job : String → List Job → Option Job
find_job identity [] = none
find_job identity (j ∷ rest) = if str_eq j.identity identity then some j else find_job identity rest

-- The file of that identity is written again.
abbrev pub rewrite : String → (Job → Job) → Job → Job
rewrite identity f j = if str_eq j.identity identity then f j else j

abbrev pub update_job : String → (Job → Job) → List Job → List Job
update_job identity f = map (rewrite identity f)

abbrev pub ends : State → ℕ → Message → Job → Job
ends s now m j = record j { state = s; finished_at = some now; error = some m }

abbrev pub keypad_message : Kind → Message
keypad_message keypad_install = keypad_stopped
keypad_message keypad_provision = keypad_stopped
keypad_message _ = worker_stopped

-- An update whose worker died: by its stage, and by whether it reached the maintenance record.
unfoldable pub settle_update : World → Job → Job
settle_update w j =
    if is_before_activation j.stage
    then if has_update_maintenance j w.maintenance
      then ends interrupted w.now stopped_activating j
      else record (ends failed w.now not_activated j) { stage = some "failed-before-activation" }
    else ends interrupted w.now worker_stopped j

unfoldable pub settle_power : World → Job → Option Report → Job
settle_power w j none = ends interrupted w.now worker_stopped j
settle_power w j (some report) = record j {
  state = completed;
  stage = some "power-requested";
  finished_at = some w.now;
  result = some report;
}

-- The record of an active job whose lock nobody holds.
unfoldable pub settle : World → Job → Job
unfolding settle_update settle_power
settle w j =
    if is_power j.kind
    then settle_power w j (completed_power w.boot_id j w.power_record)
    else if is_update j.kind
    then settle_update w j
    else ends interrupted w.now (keypad_message j.kind) j

-- What `read` makes of a record.
unfoldable pub settled : World → Job → Job
unfolding settle
settled w j = if is_active j.state && not (has_name j.identity w.held) then settle w j else j

abbrev pub read_found : Option Job → World → Result Error Job × World
read_found none w = (err no_job, w)
read_found (some j) w =
    (ok (settled w j), record w { jobs = update_job j.identity (settled w) w.jobs })

-- `read`
unfoldable pub read_job : String → World → Result Error Job × World
read_job identity w =
    if is_identity identity then read_found (find_job identity w.jobs) w else (err bad_identity, w)

abbrev pub insert : Job → List Job → List Job
insert j [] = j ∷ []
insert j (k ∷ rest) = if ltb j.created_at k.created_at then k ∷ insert j rest else j ∷ k ∷ rest

-- `sorted(..., key=..., reverse=True)`, which is stable.
unfoldable pub newest_first : List Job → List Job
newest_first [] = []
newest_first (j ∷ rest) = insert j (newest_first rest)

-- Each record is read by itself.
abbrev pub settle_all : World → World
settle_all w = record w { jobs = map (settled w) w.jobs }

-- `list`
unfoldable pub list_jobs : World → List Job × World
unfolding newest_first
list_jobs w = (newest_first (settle_all w).jobs, settle_all w)
