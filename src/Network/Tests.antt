-- ===== src/Network/Tests.antt =====
-- Runs of the network transaction at concrete inputs.
use mindflayer_elderbrain.Base.{
  ℕ, ◌≡◌, refl, sym, ap, true, false, some, none, [], ◌∷◌, List, inl, inr, String, eq_iff, here,
  In-cases, Bool-cases, str_eq, arith,
}
use mathlib.Core.Path.{subst}
use mindflayer_elderbrain.Durable.{Machine, done, for_each}
use mindflayer_elderbrain.Network.Files.{missing, Directory, put_file, is_filename, entry_of}
use mindflayer_elderbrain.Network.Transaction.{
  Phase, staged, pending, rolled_back, confirmed, Change, State, World, Verifiers, close, activate,
  read_file, replace,
}
use mindflayer_elderbrain.Network.Operations.{
  check_unchanged, put_new, apply_new, check_sources, apply_guarded, apply_staged, tick_phase,
  tick_from, tick_state, check_applied, confirm_record, confirm_from, confirm_state, tick,
  recover_boot,
}
use mindflayer_elderbrain.Network.Revert.{IsChange, IsOpen, new_saved}
use mindflayer_elderbrain.Network.Events.{
  Setting, Event, ticked, happen, history, unconfirmed_change_rolls_back, begin,
}
use mindflayer_elderbrain.Network.Confirmed.{confirm_needs_proof, IsConfirmed}

abbrev pub name : String
name = "90-wired.yaml"

abbrev change : Change
change = record {
  before = record { bytes = some "old"; mode = 0o600; uid = 0; gid = 0 };
  after = some "new";
}

abbrev nothing : Directory
nothing n = missing

abbrev pub before : Directory
before = put_file name (entry_of change.before) nothing

abbrev after : Directory
after = put_file name (entry_of (new_saved change)) nothing

abbrev pub record_in : Phase → State
record_in p = record {
  identifier = "0123456789abcdef0123456789abcdef";
  phase = p;
  interface = "enp1s0";
  deadline = 220;
  expires = 320;
  boot = "boot-1";
  files = (name, change) ∷ [];
  fingerprint = none;
  confirmation = none;
  restore_owner = none;
  cleanup_complete = false;
}

abbrev pub world : Phase → Directory → World
world p dir = record {
  state = some (record_in p);
  directory = dir;
  now = 100;
  monotonic = 200;
  boot_id = "boot-1";
  replies = true ∷ [];
}

abbrev pub verifiers : Verifiers
verifiers = record { sources = λ _. true; proof = λ p r. str_eq p "proof" }

abbrev pub setting : ℕ → Setting
setting n = record {
  power = n;
  now = 110;
  monotonic = 210;
  boot_id = "boot-1";
  replies = true ∷ [];
}

change-IsChange :
    (n : String) (c : Change)
    → (◌≡◌ {A = String × Change} (n, c) (name, change))
    → IsChange before after n c
unfolding is_filename
change-IsChange n c e =
    subst (λ z. IsChange before after z.0 z.1) (sym e)
      (record { name = refl; old = refl; changed = refl; old_fits = refl; new_fits = refl })

staged-IsOpen : IsOpen before after (record_in staged) (world staged before)
staged-IsOpen = record {
  plan = record {
    changes = λ n c i. In-cases (n, c) (name, change) [] i (change-IsChange n c) (λ j. elim j [ ]);
    covers = λ n. elim (Bool-cases (str_eq n name)) [
      | inl same ↦
          inl (change, here (name, change) [] (ap (λ z. (z, change)) ((eq_iff n name).0 same)))
      | inr other ↦ inr (rw other)
    ];
  };
  state = refl;
  held = λ n. inl refl;
  staged_intact = λ e n. refl;
  unfinished = refl;
}

-- The tick loses power when it has written the new file, and the machine starts again.
abbrev pub events : List (Setting × Event)
events = (setting 2, ticked true verifiers) ∷ []

cut_short : (history events (world staged before)).directory name ≡ entry_of (new_saved change)
unfolding history happen tick tick_state tick_from tick_phase apply_staged check_sources
    check_unchanged apply_guarded apply_new put_new activate read_file replace is_filename for_each
cut_short = refl

unconfirmed_change_rolls_back_example :
    let end =
      (recover_boot true (begin (setting 3) (history events (world staged before)))).1.disk in
    (s : State) × (end.state ≡ some s)
    × (s.phase ≡ rolled_back)
    × ((n : String) → end.directory n ≡ before n)
unfolding history happen tick tick_state tick_from tick_phase apply_staged check_sources
    check_unchanged apply_guarded apply_new put_new activate read_file replace is_filename for_each
unconfirmed_change_rolls_back_example =
    unconfirmed_change_rolls_back before after (record_in staged) (world staged before) events
      (setting 3) [] true staged-IsOpen refl (omega arith)

abbrev applied : Machine World
applied = record { disk = world pending after; power = 1 }

confirmed_run :
    (confirm_state verifiers "0123456789abcdef0123456789abcdef" "proof" applied).0
    ≡ done (close confirmed (record_in pending))
unfolding confirm_state confirm_from confirm_record check_applied read_file is_filename for_each
confirmed_run = refl

confirm_needs_proof_example :
    (r : State) × IsConfirmed verifiers "0123456789abcdef0123456789abcdef" "proof" r
      (world pending after)
      (close confirmed (record_in pending))
      (confirm_state verifiers "0123456789abcdef0123456789abcdef" "proof" applied).1.disk
confirm_needs_proof_example =
    confirm_needs_proof verifiers "0123456789abcdef0123456789abcdef" "proof" applied
      (close confirmed (record_in pending)) confirmed_run
