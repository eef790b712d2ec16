-- ===== src/Network/Address.antt =====
-- `unicast` of appliance/lib/network_config.py, with what `ipaddress.IPv4Address` reads: four decimal
-- octets of at most 255, without leading zeros. An address is the number of its 32 bits.
use Prim.Native.Char.{code}
use mindflayer_elderbrain.Base.{
  ℕ, zero, suc, ◌+◌, ◌-◌, ◌*◌, Bool, true, false, not, ◌&&◌, ◌||◌, Option, none, some, String, ltb,
  leb, ◌==◌, between, digit, Result, ok, ◌>>=◌, ◌>>◌, guard, or_raise, Value, text?,
}
use mindflayer_elderbrain.Network.Files.{Error, bad_address}

-- What one character is to the octet that is read: a digit with its value, the end, or an error.
pub data Step : Type 0 where
  next : ℕ → Step
  stop wrong : Step

abbrev pub digit_step : Bool → ℕ → Step
digit_step fits octet = elim fits [ true ↦ next octet | false ↦ wrong ]

-- `octet` is what was read of it, by `digits` characters.
abbrev pub step : ℕ → ℕ → ℕ → Step
step octet digits c = elim (digit c) [
  | true ↦
      let value = octet * 10 + (c - b'0') in
      digit_step (leb value 255 && not (ltb 0 digits && octet == 0)) value
  | false ↦ elim (c == b'.' && ltb 0 digits) [ true ↦ stop | false ↦ wrong ]
]

-- The address whose octets before this one are `high`; `left` octets follow.
unfoldable pub octets : ℕ → ℕ → ℕ → ℕ → String → Option ℕ
octets high left octet digits String.[] = elim (left == 0 && ltb 0 digits) [
  | true ↦ some (high * 256 + octet)
  | false ↦ none
]
octets high left octet digits (String.◌∷◌ c s) = elim (step octet digits (code c)) [
  | next value ↦ octets high left value (suc digits) s
  | stop ↦ elim left [ zero ↦ none | suc n ↦ octets (high * 256 + octet) n 0 0 s ]
  | wrong ↦ none
]

unfoldable pub parse_address : String → Option ℕ
unfolding octets
parse_address s = octets 0 3 0 0 s

-- 0.0.0.0, 224.0.0.0/4, 127.0.0.0/8 and 255.255.255.255.
abbrev pub is_lan : ℕ → Bool
is_lan a = not (
    a == 0 || between 0xe0000000 0xefffffff a || between 0x7f000000 0x7fffffff a || a == 0xffffffff)

-- `unicast`
unfoldable pub unicast : Option Value → Result Error ℕ
unicast value = or_raise (text? value) bad_address >>= λ s.
    or_raise (parse_address s) bad_address >>= λ a. guard (is_lan a) bad_address >> ok a
