-- ===== src/Release/Fields.antt =====
-- The checks of one field of a release manifest: `keys`, `number` and `pattern` of
-- appliance/lib/appliance_release.py, and its patterns.
use Prim.Native.Char.{code}
use Prim.Native.String.{count}
use mindflayer_elderbrain.Base.{
  ℕ, ◌≡◌, refl, err, Bool, true, false, ◌&&◌, ◌||◌, Option, none, some, List, String, leb, ◌==◌,
  between, Regex, one, seq, many, optional, some_many, char, literal, digit, letter, range,
  digest_pattern, fullmatch, Value, get, has_keys, text?, int?, Result, ok, guard, or_raise, ◌>>=◌,
  ◌>>◌,
}
use mindflayer_elderbrain.Release.Errors.{Error, unsupported_fields, bad_integer, bad_pattern}

-- `value[key]` of a value that may be missing.
abbrev pub at : String → Option Value → Option Value
at k none = none
at k (some v) = get k v

-- `keys`
unfoldable pub keys : List String → Option Value → Result Error (Unit {0})
keys names none = err unsupported_fields
keys names (some v) = guard (has_keys names v) unsupported_fields

-- `number`; the integer is returned.
unfoldable pub number : ℕ → ℕ → Option Value → Result Error ℕ
number lower upper value = do
  n ← or_raise (int? value) bad_integer
  guard (between lower upper n) bad_integer
  ok n

-- `pattern`; the text is returned.
unfoldable pub pattern : (String → Bool) → Option Value → Result Error String
pattern p value = do
  s ← or_raise (text? value) bad_pattern
  guard (leb (count s) 512 && p s) bad_pattern
  ok s

abbrev lower_digit : ℕ → Bool
lower_digit c = range b'a' b'z' c || digit c

abbrev name_char : ℕ → Bool
name_char c = lower_digit c || c == b'.' || c == b'/' || c == b'_' || c == b'-'

abbrev tag_char : ℕ → Bool
tag_char c = letter c || digit c || c == b'_' || c == b'.' || c == b'-'

-- `IMAGE`
abbrev image_pattern : Regex
image_pattern = seq (one lower_digit) (
    seq (many (one name_char)) (
      seq (optional (seq (char b':') (some_many (one tag_char))))
        (seq (literal "@sha256:") digest_pattern)))

unfoldable pub is_image_reference : String → Bool
unfolding fullmatch
is_image_reference s = fullmatch image_pattern s

abbrev wheel_char : ℕ → Bool
wheel_char c = letter c || digit c || c == b'_' || c == b'.' || c == b'+' || c == b'-'

-- `wheels/[A-Za-z0-9_][A-Za-z0-9_.+-]*\.whl`
abbrev wheel_pattern : Regex
wheel_pattern = seq (literal "wheels/") (
    seq (one (λ c. letter c || digit c || c == b'_'))
      (seq (many (one wheel_char)) (literal ".whl")))

unfoldable pub is_wheel : String → Bool
unfolding fullmatch
is_wheel s = fullmatch wheel_pattern s

-- `node/playwright-core-[0-9]+\.[0-9]+\.[0-9]+\.tgz`
abbrev node_pattern : Regex
node_pattern =
    let digits = some_many (one digit) in
    seq (literal "node/playwright-core-")
      (seq digits (seq (char b'.') (seq digits (seq (char b'.') (seq digits (literal ".tgz"))))))

unfoldable pub is_node : String → Bool
unfolding fullmatch
is_node s = fullmatch node_pattern s

-- `'\0' in value`
unfoldable pub has_nul : String → Bool
has_nul String.[] = false
has_nul (String.◌∷◌ c s) = code c == 0 || has_nul s

image_test :
    is_image_reference
      "traefik:v3.1@sha256:aaaaaaaaaaaaaaaaaaaaaaaaaaaaaaaaaaaaaaaaaaaaaaaaaaaaaaaaaaaaaaaa"
    ≡ true
unfolding is_image_reference
image_test = refl

file_tests :
    (is_wheel "wheels/bcrypt-4.2.0.whl" ≡ true)
    × (is_wheel "wheels/.whl" ≡ false)
    × (is_node "node/playwright-core-1.49.0.tgz" ≡ true)
unfolding is_wheel is_node
file_tests = (refl, refl, refl)
