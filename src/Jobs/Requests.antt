-- ===== src/Jobs/Requests.antt =====
-- What a job is asked for: `request` of appliance/lib/power_service.py and appliance/lib/update_request.py,
-- and the first part of `submit` of appliance/lib/host_jobs.py.
use Prim.Native.String.{count}
use mindflayer_elderbrain.Base.{
  ℕ, Bool, true, false, ◌&&◌, ◌||◌, Option, none, some, [], ◌∷◌, String, str_eq, if◌then◌else◌, leb,
  ◌==◌, Regex, seq, one, up_to, letter, digit, literal, fullmatch, is_version, is_digest, Value,
  bool, get, has_keys, text?, Result, ok, err, guard, or_raise, ◌>>=◌, ◌>>◌,
}
use mindflayer_elderbrain.Jobs.Record.{
  Kind, restore_preview, restore, borg_fetch, restore_preview_encrypted, update, power, State,
  completed, Action, reboot, shutdown, Request, power_request, update_request, other_request, Job,
}
use mindflayer_elderbrain.Jobs.Store.{Error, unsupported_source, World, read_job}

abbrev pub is_confirmed : Option Value → Bool
is_confirmed (some (bool b)) = b
is_confirmed _ = false

abbrev pub action? : Option String → Option Action
action? none = none
action? (some s) =
    if str_eq s "reboot" then some reboot else if str_eq s "shutdown" then some shutdown else none

-- `request` of power_service.py
unfoldable pub read_power_request : Value → Result Error Request
read_power_request v = do
  guard (has_keys ("action" ∷ "confirmPower" ∷ []) v) unsupported_source
  action ← or_raise (action? (text? (get "action" v))) unsupported_source
  guard (is_confirmed (get "confirmPower" v)) unsupported_source
  ok (power_request action)

-- `request` of update_request.py
unfoldable pub read_update_request : Value → Result Error Request
read_update_request v = do
  guard (has_keys ("version" ∷ "manifestSha256" ∷ "confirmUpdate" ∷ "confirmDowntime" ∷ []) v)
      unsupported_source
  version ← or_raise (text? (get "version" v)) unsupported_source
  guard (leb (count version) 128 && is_version version) unsupported_source
  digest ← or_raise (text? (get "manifestSha256" v)) unsupported_source
  guard (is_digest digest) unsupported_source
  guard (is_confirmed (get "confirmUpdate" v) && is_confirmed (get "confirmDowntime" v))
      unsupported_source
  ok (update_request version digest)

abbrev archive_char : ℕ → Bool
archive_char c =
    letter c || digit c || c == b'_' || c == b'.' || c == b':' || c == b'+' || c == b'-'

-- `elderbrain-[A-Za-z0-9_.:+-]{1,200}`
abbrev pub archive_pattern : Regex
archive_pattern =
    seq (literal "elderbrain-") (seq (one archive_char) (up_to 199 (one archive_char)))

unfoldable pub is_archive_name : String → Bool
unfolding fullmatch
is_archive_name s = fullmatch archive_pattern s

abbrev pub is_preview : Kind → Bool
is_preview restore_preview = true
is_preview restore_preview_encrypted = true
is_preview borg_fetch = true
is_preview _ = false

abbrev pub is_completed : State → Bool
is_completed completed = true
is_completed _ = false

abbrev pub check_preview : Result Error Job → Result Error Request
check_preview (err e) = err e
check_preview (ok j) = do
  guard (is_preview j.kind && is_completed j.state) unsupported_source
  ok other_request

abbrev pub given : Option Value → (Value → Result Error Request) → Result Error Request
given v f = or_raise v unsupported_source >>= f

-- A restore names a preview, whose record is read, and perhaps settled.
unfoldable pub read_preview : Option String → World → Result Error Request × World
read_preview none w = (err unsupported_source, w)
read_preview (some identity) w = let (found, w') = read_job identity w in (check_preview found, w')

-- The request of a job, by its kind; `accepts` are the validators of the keypad, snapshot and upload
-- requests, in other files of the repository.
unfoldable pub request_of :
    (Kind → Option Value → Bool) → Kind → Option Value → Result Error Request
unfolding read_power_request read_update_request
request_of accepts power source = given source read_power_request
request_of accepts update source = given source read_update_request
request_of accepts borg_fetch source = do
  name ← or_raise (text? source) unsupported_source
  guard (is_archive_name name) unsupported_source
  ok other_request
request_of accepts kind source = do guard (accepts kind source) unsupported_source; ok other_request

abbrev pub is_restore : Kind → Bool
is_restore restore = true
is_restore _ = false

unfoldable pub read_request :
    (Kind → Option Value → Bool) → Kind → Option Value → World → Result Error Request × World
unfolding request_of read_preview
read_request accepts kind source w =
    if is_restore kind then read_preview (text? source) w else (request_of accepts kind source, w)
