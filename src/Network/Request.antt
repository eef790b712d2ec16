-- ===== src/Network/Request.antt =====
-- The arguments of `stage` (appliance/lib/network_transaction.py) and their checks. The changes come as a
-- list, in the order of the dictionary, whose keys are distinct.
use mindflayer_elderbrain.Base.{
  ℕ, Bool, true, false, not, ◌&&◌, ◌||◌, Option, none, some, List, [], ◌∷◌, String, str_eq,
  if◌then◌else◌, ◌==◌, between, length, Regex, one, seq, up_to, letter, digit, fullmatch,
  is_identity, is_digest, Value, null, get, has_keys, text?, Result, ok, ◌>>=◌, ◌>>◌, guard,
  or_raise,
}
use mindflayer_elderbrain.Network.Files.{
  Error, bad_identity, bad_owner, bad_interface, bad_transaction, bad_confirmation, bad_address,
  hierarchy_changed, identity_used, in_progress, cleanup_pending,
}
use mindflayer_elderbrain.Network.Transaction.{
  is_terminal, Mode, static, dhcp, Confirmation, State, Verifiers,
}
use mindflayer_elderbrain.Network.Address.{unicast}

-- What a change is asked to do to a file; `none` is a file that does not exist.
pub record Edit : Type 0 where
  pub before : Option String
  pub after : Option String

-- The arguments of `stage`.
pub record Request : Type 0 where
  pub changes : List (String × Edit)
  pub interface : String
  pub seconds : ℕ
  pub fingerprint : Option String
  pub confirmation : Option Value
  pub restore_owner : Option String
  pub identifier : Option String

abbrev interface_char : ℕ → Bool
interface_char c = letter c || digit c || c == b'_' || c == b'.' || c == b':' || c == b'-'

-- `[A-Za-z0-9_.:-]{1,15}`
abbrev pub interface_pattern : Regex
interface_pattern = seq (one interface_char) (up_to 14 (one interface_char))

unfoldable pub is_interface : String → Bool
unfolding fullmatch
is_interface s = fullmatch interface_pattern s

abbrev pub none_or : (String → Bool) → Option String → Bool
none_or p none = true
none_or p (some s) = p s

-- The checks of the arguments before the confirmation's.
unfoldable pub check_request : Request → Result Error (Unit {0})
check_request q = do
  guard (none_or is_identity q.identifier) bad_identity
  guard (none_or is_identity q.restore_owner) bad_owner
  guard (is_interface q.interface) bad_interface
  guard (between 15 180 q.seconds && between 1 64 (length q.changes)) bad_transaction

abbrev pub mode? : Option String → Option Mode
mode? none = none
mode? (some s) =
    if str_eq s "static" then some static else if str_eq s "dhcp" then some dhcp else none

abbrev pub is_null : Option Value → Bool
is_null (some null) = true
is_null _ = false

-- A static address is checked; DHCP has none.
abbrev pub check_address : Mode → Option Value → Result Error (Unit {0})
check_address static address = do a ← unicast address; ok tt
check_address dhcp address = guard (is_null address) bad_address

unfoldable pub check_confirmation : Option Value → Result Error (Option Confirmation)
check_confirmation none = ok none
check_confirmation (some value) = do
  guard (has_keys ("digest" ∷ "mode" ∷ "address" ∷ []) value) bad_confirmation
  digest ← or_raise (text? (get "digest" value)) bad_confirmation
  guard (is_digest digest) bad_confirmation
  mode ← or_raise (mode? (text? (get "mode" value))) bad_confirmation
  check_address mode (get "address" value)
  ok (some (record { digest = digest; mode = mode; address = text? (get "address" value) }))

abbrev pub used : Option String → State → Bool
used none r = false
used (some i) r = str_eq r.identifier i

abbrev pub is_some : Option String → Bool
is_some none = false
is_some (some s) = true

abbrev pub is_clean : State → Bool
is_clean r = not (is_some r.restore_owner && not r.cleanup_complete)

-- The checks of the record that stands, under the lock.
unfoldable pub check_free : Option String → State → Result Error (Unit {0})
check_free identifier r = do
  guard (not (used identifier r)) identity_used
  guard (is_terminal r.phase) in_progress
  guard (is_clean r) cleanup_pending

unfoldable pub check_current : Verifiers → Request → Option State → Result Error (Unit {0})
check_current v q current = do
  guard (none_or (λ f. is_digest f && v.sources f) q.fingerprint) hierarchy_changed
  elim current [ none ↦ ok tt | some r ↦ check_free q.identifier r ]
