-- ===== src/Network/Reachable.antt =====
-- The settings that `request` of appliance/lib/network_config.py accepts are those of a reachable host.
use mindflayer_elderbrain.Base.{ℕ, ◌≤◌, ◌<◌, ◌≡◌, ◌≢◌, true, some}
use mindflayer_elderbrain.Network.Address.{is_lan}
use mindflayer_elderbrain.Network.Settings.{
  StaticAddress, Settings, network_address, broadcast_address,
}

-- An address that may name a host of its subnet.
abbrev pub NamesHost : ℕ → ℕ → Type 0
NamesHost prefix a = prefix < 31 → (a ≢ network_address prefix a) × (a ≢ broadcast_address prefix a)

-- What a gateway is to the host that uses it.
pub record IsGateway (t : StaticAddress) (g : ℕ) : Type 0 where
  pub lan : is_lan g ≡ true
  pub subnet : network_address t.prefix g ≡ network_address t.prefix t.address
  pub other : g ≢ t.address
  pub host : NamesHost t.prefix g

pub record IsReachable (t : StaticAddress) : Type 0 where
  pub lan : is_lan t.address ≡ true
  pub prefix : (1 ≤ t.prefix) × (t.prefix ≤ 32)
  pub host : NamesHost t.prefix t.address
  pub gateway : (g : ℕ) → t.gateway ≡ some g → IsGateway t g
