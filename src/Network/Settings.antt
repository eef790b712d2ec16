-- ===== src/Network/Settings.antt =====
-- `request` of appliance/lib/network_config.py: the IPv4 settings that a user asks for. An address is the
-- number of its 32 bits; a float counts as true.
use mindflayer_elderbrain.Base.{
  ℕ, ◌+◌, ◌-◌, ◌*◌, ◌/◌, ◌^◌, Bool, true, false, not, ◌&&◌, ◌||◌, Option, none, some, List, [], ◌∷◌,
  String, str_eq, if◌then◌else◌, ltb, leb, ◌==◌, between, length, select, Value, null, array,
  object, string, number, bool, stop, end, get, dict?, field_names, all_in, text?, int?, list?,
  Result, ok, guard, or_raise, ◌>>=◌, ◌>>◌,
}
use mindflayer_elderbrain.Network.Files.{
  Error, bad_interface, bad_settings, bad_servers, bad_prefix, bad_subnet, bad_gateway,
}
use mindflayer_elderbrain.Network.Transaction.{Mode, static, dhcp}
use mindflayer_elderbrain.Network.Address.{unicast}
use mindflayer_elderbrain.Network.Request.{is_interface, mode?}

pub record StaticAddress : Type 0 where
  pub address : ℕ
  pub prefix : ℕ
  pub gateway : Option ℕ

-- What `request` returns; DHCP has no static part.
pub record Settings : Type 0 where
  pub interface : String
  pub servers : List ℕ
  pub fixed : Option StaticAddress

abbrev pub subnet_size : ℕ → ℕ
subnet_size prefix = 2 ^ (32 - prefix)

abbrev pub network_address : ℕ → ℕ → ℕ
network_address prefix a = a / subnet_size prefix * subnet_size prefix

abbrev pub broadcast_address : ℕ → ℕ → ℕ
broadcast_address prefix a = network_address prefix a + (subnet_size prefix - 1)

-- A subnet of more than two addresses has two that name no host.
abbrev pub is_host : ℕ → ℕ → Bool
is_host prefix a =
    not (ltb prefix 31 && (a == network_address prefix a || a == broadcast_address prefix a))

-- The gateway is a different host of the subnet.
abbrev pub is_neighbour : ℕ → ℕ → ℕ → Bool
is_neighbour prefix address gateway =
    network_address prefix gateway == network_address prefix address && not (gateway == address)

-- `if gateway`
abbrev pub is_true : Option Value → Bool
is_true none = false
is_true (some null) = false
is_true (some (bool b)) = b
is_true (some (string s)) = not (str_eq s "")
is_true (some (number n)) = not (n == 0)
is_true (some (array stop)) = false
is_true (some (object end)) = false
is_true (some v) = true

unfoldable pub read_gateway : ℕ → ℕ → Option Value → Result Error (Option ℕ)
read_gateway prefix address v =
    if is_true v
    then (do
      g ← unicast v
      guard (is_neighbour prefix address g) bad_gateway
      guard (is_host prefix g) bad_gateway
      ok (some g))
    else ok none

unfoldable pub read_static : Value → Result Error StaticAddress
unfolding read_gateway
read_static v = do
  address ← unicast (get "address" v)
  prefix ← or_raise (int? (get "prefix" v)) bad_prefix
  guard (between 1 32 prefix) bad_prefix
  guard (is_host prefix address) bad_subnet
  gateway ← read_gateway prefix address (get "gateway" v)
  ok (record { address = address; prefix = prefix; gateway = gateway })

unfoldable pub read_addresses : List Value → Result Error (List ℕ)
read_addresses [] = ok []
read_addresses (v ∷ rest) =
    let others = read_addresses rest in unicast (some v) >>= λ a. others >>= λ more. ok (a ∷ more)

-- `dict.fromkeys`: each address stays where it came first.
abbrev pub first_of_each : List ℕ → List ℕ
first_of_each [] = []
first_of_each (a ∷ rest) = a ∷ select (λ b. not (b == a)) (first_of_each rest)

-- `value.get('dns', [])`
abbrev pub servers_of : Option Value → Option (List Value)
servers_of none = some []
servers_of (some v) = list? (some v)

unfoldable pub read_servers : Option Value → Result Error (List ℕ)
unfolding read_addresses
read_servers v = do
  values ← or_raise (servers_of v) bad_servers
  guard (leb (length values) 6) bad_servers
  addresses ← read_addresses values
  ok (first_of_each addresses)

abbrev pub read_fixed : Mode → Value → Result Error (Option StaticAddress)
read_fixed dhcp v = ok none
read_fixed static v = read_static v >>= λ s. ok (some s)

abbrev pub known_settings : List String
known_settings = "interface" ∷ "mode" ∷ "address" ∷ "prefix" ∷ "gateway" ∷ "dns" ∷ []

-- `request`
unfoldable pub request : Value → Result Error Settings
unfolding read_servers read_static
request v = do
  fields ← or_raise (dict? v) bad_settings
  guard (all_in (field_names fields) known_settings) bad_settings
  interface ← or_raise (text? (get "interface" v)) bad_interface
  guard (is_interface interface && not (str_eq interface "lo")) bad_interface
  mode ← or_raise (mode? (text? (get "mode" v))) bad_settings
  servers ← read_servers (get "dns" v)
  fixed ← read_fixed mode v
  ok (record { interface = interface; servers = servers; fixed = fixed })
