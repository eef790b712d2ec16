-- ===== src/Release/Policy.antt =====
-- `ReleasePolicy` of appliance/lib/release_policy.py: the highest accepted release, in a private file.
pub mod Laws
use mindflayer_elderbrain.Base.{
  ℕ, ◌-◌, ◌^◌, ◌≡◌, Bool, true, false, not, ◌&&◌, ◌||◌, Option, none, some, List, [], ◌∷◌, String,
  str_eq, if◌then◌else◌, Result, ok, err, guard, or_raise, ◌>>=◌, ◌>>◌, ltb, leb, ◌==◌, between,
  Value, object, field, end, number, string, get, dict?, has_keys, text?, int?, is_version,
  is_digest,
}
use mindflayer_elderbrain.Release.Errors.{
  Error, not_json, not_private, bad_policy_state, bad_sequence, not_newer, bad_acceptance_record,
  rollback_refused, identity_conflict,
}

abbrev pub max_sequence : ℕ
max_sequence = 2 ^ 63 - 1

-- The record that the file holds, `format` aside, which is 1.
pub record Accepted : Type 0 where
  pub sequence : ℕ
  pub version : String
  pub digest : String

abbrev pub accepted_value : Accepted → Value
accepted_value a = object (
    field "format" (number 1) (
      field "highestSequence" (number a.sequence)
        (field "version" (string a.version) (field "manifestSha256" (string a.digest) end))))

-- The file: `is_private` is what `_record` asks of its path, owner and mode. The contents are what
-- `read_regular` and `json.loads` make of it, `none` if it is too large, empty or no JSON.
pub record PolicyFile : Type 0 where
  pub is_private : Bool
  pub contents : Option Value

abbrev pub matches : Option String → (String → Bool) → Bool
matches none p = false
matches (some s) p = p s

-- `1 <= value <= MAX_SEQUENCE` of an int, and the two patterns.
abbrev pub is_accepted : ℕ → String → String → Bool
is_accepted sequence version digest =
    between 1 max_sequence sequence && is_version version && is_digest digest

-- The three fields that a record needs, if each has its type.
abbrev pub accept : Error → Option ℕ → Option String → Option String → Result Error Accepted
accept e (some sequence) (some version) (some digest) =
    if is_accepted sequence version digest
    then ok (record { sequence = sequence; version = version; digest = digest })
    else err e
accept e _ _ _ = err e

abbrev is_one : Option ℕ → Bool
is_one none = false
is_one (some n) = n == 1

-- `_record` on the parsed contents.
unfoldable pub parse_record : Value → Result Error Accepted
parse_record value =
    if has_keys ("format" ∷ "highestSequence" ∷ "version" ∷ "manifestSha256" ∷ []) value
      && is_one (int? (get "format" value))
    then accept bad_policy_state (int? (get "highestSequence" value)) (text? (get "version" value))
        (text? (get "manifestSha256" value))
    else err bad_policy_state

unfoldable pub read_record : Option PolicyFile → Result Error (Option Accepted)
unfolding parse_record
read_record none = ok none
read_record (some f) = do
  guard f.is_private not_private
  value ← or_raise f.contents not_json
  a ← parse_record value
  ok (some a)

abbrev pub highest : Option Accepted → ℕ
highest none = 0
highest (some a) = a.sequence

-- `require_new`
unfoldable pub require_new : Option PolicyFile → Value → Result Error ℕ
require_new file release = do
  sequence ← or_raise (int? (get "releaseSequence" release)) bad_sequence
  guard (between 1 max_sequence sequence) bad_sequence
  current ← read_record file
  guard (ltb (highest current) sequence) not_newer
  ok sequence

-- `selected`
unfoldable pub selected : Value → Result Error Accepted
selected (object fields) =
    accept bad_acceptance_record (int? (get "releaseSequence" (object fields)))
      (text? (get "version" (object fields))) (text? (get "manifestSha256" (object fields)))
selected _ = err bad_acceptance_record

-- `save_record` replaces the file by a private one.
abbrev pub save_record : Accepted → Option PolicyFile
save_record a = some (record { is_private = true; contents = some (accepted_value a) })

abbrev pub same_accepted : Accepted → Accepted → Bool
same_accepted a b =
    a.sequence == b.sequence && str_eq a.version b.version && str_eq a.digest b.digest

-- `commit`, on the record that the file holds: the new file, and what is returned.
abbrev pub commit_over :
    Option PolicyFile → Option Accepted → Accepted → Result Error (Accepted × Option PolicyFile)
commit_over file none new = ok (new, save_record new)
commit_over file (some current) new =
    if ltb new.sequence current.sequence
    then err rollback_refused
    else if new.sequence == current.sequence
    then (if same_accepted current new then ok (current, file) else err identity_conflict)
    else ok (new, save_record new)

unfoldable pub commit : Value → Option PolicyFile → Result Error (Accepted × Option PolicyFile)
commit request file = do
  new ← selected request
  current ← read_record file
  commit_over file current new

-- `install_baseline`
unfoldable pub install_baseline : Value → Result Error (Accepted × Option PolicyFile)
install_baseline request = do new ← selected request; ok (new, save_record new)
