-- ===== src/Network/StagedTests.antt =====
-- Runs of `stage` of appliance/lib/network_transaction.py at concrete inputs, and of what follows.
use mindflayer_elderbrain.Base.{
  ◌≡◌, ◌≢◌, refl, true, some, none, [], ◌∷◌, inl, String, null, object, field, end, string, err,
  arith, is_identity, is_digest,
}
use mindflayer_elderbrain.Durable.{Machine, done, for_each}
use mindflayer_elderbrain.Network.Files.{is_filename, bad_address}
use mindflayer_elderbrain.Network.Transaction.{
  staged, rolled_back, State, World, activate, read_file, replace,
}
use mindflayer_elderbrain.Network.Address.{parse_address, unicast}
use mindflayer_elderbrain.Network.Request.{
  Request, is_interface, check_request, check_confirmation, check_current,
}
use mindflayer_elderbrain.Network.Staging.{Public, record_change, stage_file, stage_files, stage}
use mindflayer_elderbrain.Network.Operations.{
  check_unchanged, put_new, apply_new, check_sources, apply_guarded, apply_staged, tick_phase,
  tick_from, tick_state, tick, recover_boot,
}
use mindflayer_elderbrain.Network.Events.{happen, history, begin}
use mindflayer_elderbrain.Network.Staged.{staged_change_rolls_back, busy_change_is_kept}
use mindflayer_elderbrain.Network.Tests.{before, name, world, record_in, verifiers, setting, events}

addresses : parse_address "192.168.1.20" ≡ some 3232235796
unfolding parse_address
addresses = refl

no_addresses :
    (parse_address "192.168.01.20" ≡ none)
    × (parse_address "192.168.1" ≡ none)
    × (parse_address "192.168.1.256" ≡ none)
    × (parse_address "192.168.1.2." ≡ none)
unfolding parse_address
no_addresses = (refl, refl, refl, refl)

loopback : unicast (some (string "127.0.0.1")) ≡ err bad_address
unfolding unicast parse_address
loopback = refl

abbrev request : Request
request = record {
  changes = (name, record { before = some "old"; after = some "new" }) ∷ [];
  interface = "enp1s0";
  seconds = 120;
  fingerprint = none;
  confirmation = some (
      object (
        field "digest" (string "0123456789abcdef0123456789abcdef0123456789abcdef0123456789abcdef")
          (field "mode" (string "dhcp") (field "address" null end))));
  restore_owner = none;
  identifier = none;
}

abbrev idle : Machine World
idle = record { disk = record (world staged before) { state = none }; power = 1 }

abbrev fresh : String
fresh = "fedcba9876543210fedcba9876543210"

-- `stage` makes the record of the change.
run :
    (stage verifiers fresh request idle).0
    ≡ done (record { identifier = fresh; phase = staged; deadline = 220; interface = "enp1s0" })
unfolding stage stage_files stage_file record_change check_request check_confirmation check_current
    is_interface is_identity is_digest is_filename read_file
run = refl

staged_change_rolls_back_example :
    let end =
      (recover_boot true
        (begin (setting 3) (history events (stage verifiers fresh request idle).1.disk))).1.disk in
    (s : State) × (end.state ≡ some s)
    × (s.phase ≡ rolled_back)
    × ((n : String) → end.directory n ≡ before n)
unfolding history happen tick tick_state tick_from tick_phase apply_staged check_sources
    check_unchanged apply_guarded apply_new put_new activate read_file replace is_filename for_each
    stage stage_files stage_file record_change check_request check_confirmation check_current
    is_interface is_identity is_digest
staged_change_rolls_back_example =
    staged_change_rolls_back verifiers fresh request idle
      (record { identifier = fresh; phase = staged; deadline = 220; interface = "enp1s0" }) events
      (setting 3) [] true ((λ i. elim i [ ]), tt) run refl (omega arith)

abbrev waiting : Machine World
waiting = record { disk = world staged before; power = 1 }

busy_change_is_kept_example :
    ((a : Public) → (stage verifiers fresh request waiting).0 ≢ done a)
    × ((stage verifiers fresh request waiting).1.disk ≡ waiting.disk)
busy_change_is_kept_example =
    busy_change_is_kept verifiers fresh request waiting (record_in staged) refl (inl refl)
