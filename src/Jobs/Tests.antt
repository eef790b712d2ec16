-- ===== src/Jobs/Tests.antt =====
-- Runs of the host jobs (appliance/lib/host_jobs.py) at concrete inputs.
use mindflayer_elderbrain.Base.{
  ◌≡◌, refl, Bool, true, false, none, some, List, [], ◌∷◌, String, Option, has_name, Value, object,
  field, end, string, ok, err,
}
use mindflayer_elderbrain.Jobs.Record.{
  Kind, backup, power, State, queued, running, interrupted, reboot, Action, Request, power_request,
  other_request, worker_stopped, Job, is_boot_id, is_power, is_request_of, completed_power,
}
use mindflayer_elderbrain.Jobs.Store.{job_is_running, World, settle_power, settle, settled}
use mindflayer_elderbrain.Jobs.Requests.{request_of, read_request}
use mindflayer_elderbrain.Jobs.Operations.{is_power_pending, admit, submit}
use mindflayer_elderbrain.Jobs.Dead.{dead_job_is_completed_on_proof}

abbrev id_a : String
id_a = "aaaaaaaaaaaaaaaaaaaaaaaaaaaaaaaa"

abbrev id_b : String
id_b = "bbbbbbbbbbbbbbbbbbbbbbbbbbbbbbbb"

abbrev digest : String
digest = "aaaaaaaaaaaaaaaaaaaaaaaaaaaaaaaaaaaaaaaaaaaaaaaaaaaaaaaaaaaaaaaa"

abbrev boot_a : String
boot_a = "01234567-89ab-cdef-0123-456789abcdef"

abbrev boot_b : String
boot_b = "11234567-89ab-cdef-0123-456789abcdef"

abbrev job : Kind → State → Request → Job
job kind state request = record {
  identity = id_a;
  kind = kind;
  state = state;
  stage = none;
  request = request;
  created_at = 5;
  finished_at = none;
  result = none;
  error = none;
}

abbrev world : List Job → List String → World
world jobs held = record {
  jobs = jobs;
  held = held;
  power_record = none;
  maintenance = none;
  boot_id = boot_b;
  now = 9;
}

abbrev accepts : Kind → Option Value → Bool
accepts kind none = true
accepts kind (some v) = false

abbrev waiting : World
waiting = world (job backup queued other_request ∷ []) (id_a ∷ [])

submitted :
    submit accepts backup none id_a true (record waiting { jobs = []; held = []; now = 5 })
    ≡ (ok (job backup queued other_request), record waiting { now = 5 })
unfolding submit read_request request_of admit is_power_pending
submitted = refl

-- A second job is refused while the worker lives, and admitted when it died.
refused : (submit accepts backup none id_b true waiting).0 ≡ err job_is_running
unfolding submit read_request request_of admit is_power_pending settled
refused = refl

-- The worker begins, the machine boots, the jobs are listed.
abbrev started : World
started = world (job backup running other_request ∷ []) (id_a ∷ [])

abbrev booted : World
booted = record started { held = []; boot_id = boot_a }

abbrev listed : World
listed = record booted {
  jobs =
      record (job backup interrupted other_request) {
        finished_at = some 9;
        error = some worker_stopped;
      }
      ∷ [];
}

abbrev asked : Value
asked = object (
    field "state" (string "requested") (
      field "action" (string "reboot") (
        field "bootId" (string boot_a) (
          field "backup" (object (field "state" (string "local-checkpoint") end))
            (field "jobId" (string id_a) end)))))

abbrev rebooted : World
rebooted = record (world [] []) { power_record = some asked }

dead_job_is_completed_on_proof_example :
    let j = job power running (power_request reboot) in
    (has_name id_a rebooted.held ≡ false)
    × (is_power power ≡ true)
    × (a : Action) × (v : Value) × (j.request ≡ power_request a)
    × (rebooted.power_record ≡ some v)
    × (is_request_of boot_b id_a a v ≡ true)
unfolding settled settle settle_power completed_power is_boot_id
dead_job_is_completed_on_proof_example =
    dead_job_is_completed_on_proof rebooted (job power running (power_request reboot)) refl refl
