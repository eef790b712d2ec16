-- ===== src/Base/Patterns.antt =====
-- Python's `re.fullmatch`, for the patterns that the appliance uses: a regular expression is data,
-- and a text is matched by taking the derivative at each of its characters.
use Prim.Native.Nat.{ℕ, zero, suc}
use Prim.Native.Char.{code}
use Prim.Native.String.{String}
use mathlib.Core.Path.{◌≡◌, refl}
use mathlib.Core.Bool.{Bool, true, false, ◌&&◌, ◌||◌}
use mindflayer_elderbrain.Base.Tests.{◌==◌, between, if◌then◌else◌}

pub data Regex : Type 0 where
  fail : Regex
  nothing : Regex
  one : (ℕ → Bool) → Regex
  seq : Regex → Regex → Regex
  alt : Regex → Regex → Regex
  many : Regex → Regex

nullable : Regex → Bool
nullable fail = false
nullable nothing = true
nullable (one p) = false
nullable (seq r s) = nullable r && nullable s
nullable (alt r s) = nullable r || nullable s
nullable (many r) = true

-- `seq` and `alt`, with the cases that keep the derivatives small.
seq' : Regex → Regex → Regex
seq' fail s = fail
seq' nothing s = s
seq' r s = seq r s

alt' : Regex → Regex → Regex
alt' fail s = s
alt' r fail = r
alt' r s = alt r s

derivative : ℕ → Regex → Regex
unfolding nullable seq' alt'
derivative c fail = fail
derivative c nothing = fail
derivative c (one p) = if p c then nothing else fail
derivative c (seq r s) =
    let left = seq' (derivative c r) s in
    elim (nullable r) [ true ↦ alt' left (derivative c s) | false ↦ left ]
derivative c (alt r s) = alt' (derivative c r) (derivative c s)
derivative c (many r) = seq' (derivative c r) (many r)

unfoldable pub fullmatch : Regex → String → Bool
unfolding derivative
fullmatch r String.[] = nullable r
fullmatch r (String.◌∷◌ c s) = fullmatch (derivative (code c) r) s

-- `r{n}`, `r{0,n}`, `r?`, `r+`
abbrev pub times : ℕ → Regex → Regex
times zero r = nothing
times (suc n) r = seq r (times n r)

abbrev pub up_to : ℕ → Regex → Regex
up_to zero r = nothing
up_to (suc n) r = alt nothing (seq r (up_to n r))

abbrev pub optional : Regex → Regex
optional r = alt r nothing

abbrev pub some_many : Regex → Regex
some_many r = seq r (many r)

abbrev pub char : ℕ → Regex
char c = one (λ x. x == c)

abbrev pub range : ℕ → ℕ → ℕ → Bool
range low high c = between low high c

-- A text taken literally.
abbrev pub literal : String → Regex
literal String.[] = nothing
literal (String.◌∷◌ c s) = seq (char (code c)) (literal s)

abbrev pub digit : ℕ → Bool
digit c = range b'0' b'9' c

abbrev pub letter : ℕ → Bool
letter c = range b'a' b'z' c || range b'A' b'Z' c

-- The characters that Python's `strip` removes.
abbrev pub is_space : ℕ → Bool
is_space c =
    between 9 13 c
    || between 28 32 c
    || c == 0x85
    || c == 0xa0
    || c == 0x1680
    || between 0x2000 0x200a c
    || c == 0x2028
    || c == 0x2029
    || c == 0x202f
    || c == 0x205f
    || c == 0x3000

-- `[a-f0-9]`
abbrev pub hex : ℕ → Bool
hex c = range b'a' b'f' c || digit c

-- `[a-f0-9]{32}` and `[a-f0-9]{64}`: operation identities and SHA-256 digests.
abbrev pub identity_pattern : Regex
identity_pattern = times 32 (one hex)

abbrev pub digest_pattern : Regex
digest_pattern = times 64 (one hex)

-- `0|[1-9][0-9]*`
abbrev pub decimal : Regex
decimal = alt (char b'0') (seq (one (range b'1' b'9')) (many (one digit)))

-- `VERSION` of appliance_release.py: three decimals without leading zeros.
abbrev pub version_pattern : Regex
version_pattern = seq decimal (seq (char b'.') (seq decimal (seq (char b'.') decimal)))

-- The three patterns as tests, which stay shut in proofs.
unfoldable pub is_identity : String → Bool
unfolding fullmatch
is_identity s = fullmatch identity_pattern s

unfoldable pub is_digest : String → Bool
unfolding fullmatch
is_digest s = fullmatch digest_pattern s

unfoldable pub is_version : String → Bool
unfolding fullmatch
is_version s = fullmatch version_pattern s

versions : (is_version "1.20.3" && is_version "0.0.0") ≡ true
unfolding is_version
versions = refl

bad_versions : (is_version "1.02.3" || is_version "1.2" || is_version "1.2.3a") ≡ false
unfolding is_version
bad_versions = refl

identity_test : is_identity "0123456789abcdef0123456789abcdef" ≡ true
unfolding is_identity
identity_test = refl
