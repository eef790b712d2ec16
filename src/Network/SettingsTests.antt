-- ===== src/Network/SettingsTests.antt =====
-- Runs of `request` of appliance/lib/network_config.py at concrete settings.
use mindflayer_elderbrain.Base.{
  ◌≡◌, refl, some, String, [], ◌∷◌, Value, array, object, string, number, item, stop, field, end,
  err,
}
use mindflayer_elderbrain.Network.Files.{bad_gateway, bad_subnet}
use mindflayer_elderbrain.Network.Address.{parse_address, unicast}
use mindflayer_elderbrain.Network.Request.{is_interface}
use mindflayer_elderbrain.Network.Settings.{
  Settings, read_gateway, read_static, read_addresses, read_servers, request,
}

abbrev settings : String → String → Value
settings address gateway = object (
    field "interface" (string "enp1s0") (
      field "mode" (string "static") (
        field "address" (string address) (
          field "prefix" (number 24) (
            field "gateway" (string gateway) (
              field "dns" (array (item (string "9.9.9.9") (item (string "9.9.9.9") stop))) end))))))

abbrev accepted : Settings
accepted = record {
  interface = "enp1s0";
  servers = 151587081 ∷ [];
  fixed = some (record { address = 3232235796; prefix = 24; gateway = some 3232235777 });
}

other_subnet : request (settings "192.168.1.20" "192.168.2.1") ≡ err bad_gateway
unfolding request read_servers read_addresses read_static read_gateway unicast parse_address
    is_interface
other_subnet = refl

broadcast : request (settings "192.168.1.255" "") ≡ err bad_subnet
unfolding request read_servers read_addresses read_static read_gateway unicast parse_address
    is_interface
broadcast = refl
