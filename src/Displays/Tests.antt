-- ===== src/Displays/Tests.antt =====
-- Runs of the layout of the displays on two outputs, and the theorems at work there.
use mindflayer_elderbrain.Base.{
  ℕ, ◌≡◌, refl, true, ◌⊎◌, Option, none, some, List, [], ◌∷◌, String, has_name, In, Value, field,
  end, item, stop, object, array, string, number, ok, err,
}
use mindflayer_elderbrain.Displays.Modes.{
  Mode, parse_resolution, is_empty, read_size, read_mode, output_modes, preferred_mode,
  bad_resolution,
}
use mindflayer_elderbrain.Displays.Best.{IsAdvertised, IsBest, preferred_mode-IsBest}
use mindflayer_elderbrain.Displays.Outputs.{
  Output, active, names, connector_family, monitor_id, is_output_name, connected_names, identities,
}
use mindflayer_elderbrain.Displays.Assignment.{View, renumbered_outputs, assigned_outputs}
use mindflayer_elderbrain.Displays.Plan.{
  Url, admin, player, Config, Planned, is_safe_url, setup_page, plan,
}
use mindflayer_elderbrain.Displays.Administration.{administration_is_shown}

abbrev mode_value : ℕ → ℕ → ℕ → Value
mode_value w h r =
    object (field "width" (number w) (field "height" (number h) (field "refresh" (number r) end)))

abbrev some_modes : Option Value
some_modes = some (
    array (
      item (mode_value 1920 1080 60000)
        (item (mode_value 3840 2160 30000) (item (mode_value 1920 1080 75000) stop))))

abbrev full_hd : Option Value
full_hd = some (string "1920x1080")

abbrev full_hd_mode : Mode
full_hd_mode = record { width = 1920; height = 1080; refresh = 75000 }

abbrev largest_mode : Mode
largest_mode = record { width = 3840; height = 2160; refresh = 30000 }

prefers_size : preferred_mode full_hd some_modes ≡ ok (some full_hd_mode)
unfolding preferred_mode read_size parse_resolution is_empty output_modes read_mode
prefers_size = refl

prefers_largest : preferred_mode (some (string "800x600")) some_modes ≡ ok (some largest_mode)
unfolding preferred_mode read_size parse_resolution is_empty output_modes read_mode
prefers_largest = refl

refuses_size : preferred_mode (some (string "800 x 600")) some_modes ≡ err bad_resolution
unfolding preferred_mode read_size parse_resolution is_empty output_modes read_mode
refuses_size = refl

preferred_mode-IsBest_example :
    ((output_modes some_modes ≡ []) × (preferred_mode full_hd some_modes ≡ ok none))
    ⊎ ((m : Mode) × (preferred_mode full_hd some_modes ≡ ok (some m))
        × IsAdvertised some_modes m
        × IsBest (output_modes some_modes) m (some (1920, 1080)))
unfolding read_size parse_resolution is_empty
preferred_mode-IsBest_example = preferred_mode-IsBest full_hd some_modes (some (1920, 1080)) refl

abbrev output : String → String → Output
output name serial = record {
  name = name;
  is_active = true;
  make = some "Maker";
  model = some " Model ";
  serial = some serial;
  modes = some_modes;
}

abbrev two_outputs : List Output
two_outputs = output "HDMI-A-2" "11" ∷ output "DP-2" "12" ∷ []

abbrev view : String → String → String → View
view name mode url = record {
  output = some name;
  display_id = none;
  mode = some (string mode);
  resolution = full_hd;
  url = some (string url);
  tabs = none;
}

abbrev config : Config
config = record {
  is_configured = true;
  views = some (view "DP-1" "player" "https://one" ∷ view "HDMI-A-1" "admin" "https://two" ∷ []);
}

abbrev any_url : String → Option Url
any_url s =
    some (record { scheme = "https"; hostname = some "host"; username = none; password = none })

abbrev same_digest : List ℕ → String
same_digest l = "0"

abbrev planned : List Planned
planned =
    record {
      index = 0;
      output = "DP-2";
      resolution = full_hd;
      role = player;
      urls = "https://one" ∷ [];
    }
    ∷ record {
      index = 1;
      output = "HDMI-A-2";
      resolution = full_hd;
      role = admin;
      urls = setup_page "token" ∷ "https://two" ∷ [];
    }
    ∷ []

-- Both connectors were renumbered.
planned_run : plan any_url same_digest config two_outputs "token" ≡ ok planned
unfolding plan connected_names identities assigned_outputs renumbered_outputs connector_family
    monitor_id is_output_name is_safe_url read_size parse_resolution is_empty
planned_run = refl

has_output : has_name "DP-2" (names (active two_outputs)) ≡ true
unfolding is_output_name
has_output = refl

administration_is_shown_example : (p : Planned) × In p planned × (p.role ≡ admin)
administration_is_shown_example =
    administration_is_shown any_url same_digest config two_outputs "token" planned "DP-2"
      planned_run has_output refl
