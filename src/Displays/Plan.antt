-- ===== src/Displays/Plan.antt =====
-- `safe_url` and `plan` of browser-session.py.
-- `split_url` stands for `urllib.parse.urlsplit`, which gives nothing where it raises a ValueError.
use Prim.Native.String.{◌++◌ as append}
use mindflayer_elderbrain.Base.{
  ℕ, suc, Bool, true, false, not, ◌&&◌, ◌||◌, Option, none, some, List, [], ◌∷◌, String, str_eq,
  if◌then◌else◌, leb, ◌==◌, between, length, every, has_name, Value, string, array, items, text?,
  Result, ok, err, guard, or_raise, ◌>>=◌, ◌>>◌,
}
use mindflayer_elderbrain.Displays.Modes.{
  Error, bad_views, bad_mode, bad_resolution, bad_url, bad_tabs, codes, read_size,
}
use mindflayer_elderbrain.Displays.Outputs.{Output, connected_names, identities}
use mindflayer_elderbrain.Displays.Assignment.{View, Placing, is_set, assigned_outputs}

abbrev pub setup_url : String
setup_url = "https://127.0.0.1/elderbrain/"

abbrev pub default_url : String
default_url = "https://foundry.elderbrain.local"

-- What the code reads of the result of `urlsplit`.
pub record Url : Type 0 where
  pub scheme : String
  pub hostname : Option String
  pub username : Option String
  pub password : Option String

-- `[\x00-\x20\x7f]`
abbrev is_control : ℕ → Bool
is_control c = leb c 0x20 || c == 0x7f

abbrev is_web : Url → Bool
is_web u =
    has_name u.scheme ("http" ∷ "https" ∷ [])
    && is_set u.hostname
    && not (is_set u.username)
    && not (is_set u.password)

abbrev is_web_url : Option Url → Bool
is_web_url none = false
is_web_url (some u) = is_web u

unfoldable pub is_safe_url : (String → Option Url) → String → Bool
is_safe_url split_url s =
    leb (length (codes s)) 2048
    && every (λ c. not (is_control c)) (codes s)
    && is_web_url (split_url s)

-- `safe_url`
abbrev pub safe_url : (String → Option Url) → Option Value → Result Error String
safe_url split_url v = do
  s ← or_raise (text? v) bad_url
  guard (is_safe_url split_url s) bad_url
  ok s

abbrev pub safe_urls : (String → Option Url) → List Value → Result Error (List String)
safe_urls split_url [] = ok []
safe_urls split_url (v ∷ rest) = do
  s ← safe_url split_url (some v)
  others ← safe_urls split_url rest
  ok (s ∷ others)

pub data Role : Type 0 where
  admin player : Role

abbrev pub is_player : Role → Bool
is_player player = true
is_player admin = false

abbrev pub role_of : String → Option Role
role_of s = if str_eq s "admin" then some admin else if str_eq s "player" then some player else none

-- A view without a mode is a player's.
abbrev pub read_role : Option Value → Result Error Role
read_role none = ok player
read_role (some (string s)) = or_raise (role_of s) bad_mode
read_role (some _) = err bad_mode

abbrev pub is_display_size : Option (ℕ × ℕ) → Bool
is_display_size none = true
is_display_size (some (w, h)) = between 320 32768 w && between 200 32768 h

abbrev pub read_tabs : Option Value → Result Error (List Value)
read_tabs none = ok []
read_tabs (some (array tabs)) = do guard (leb (length (items tabs)) 10) bad_tabs; ok (items tabs)
read_tabs (some _) = err bad_tabs

-- A view as it is to be shown.
pub record Planned : Type 0 where
  pub index : ℕ
  pub output : String
  pub resolution : Option Value
  pub role : Role
  pub urls : List String

abbrev pub setup_page : String → String
setup_page token = append setup_url (append "#kiosk-keyboard=" token)

abbrev pub pages : String → Role → String → List String → List String
pages token admin target extras = setup_page token ∷ target ∷ extras
pages token player target extras =
    (if str_eq target setup_url then setup_page token else target) ∷ []

abbrev pub read_pages : (String → Option Url) → String → Role → View → Result Error (List String)
read_pages split_url token role v = do
  target ← safe_url split_url v.url
  tabs ← read_tabs v.tabs
  extras ← safe_urls split_url tabs
  ok (pages token role target extras)

abbrev pub make_planned : ℕ → String → View → Role → List String → Planned
make_planned i output v role urls = record {
  index = i;
  output = output;
  resolution = v.resolution;
  role = role;
  urls = urls;
}

-- The body of the loop, for a view that has an output.
abbrev pub plan_view : (String → Option Url) → String → ℕ → String → View → Result Error Planned
plan_view split_url token i output v = do
  role ← read_role v.mode
  size ← read_size v.resolution
  guard (is_display_size size) bad_resolution
  urls ← read_pages split_url token role v
  ok (make_planned i output v role urls)

abbrev pub placing_of : ℕ → List Placing → Option String
placing_of i [] = none
placing_of i (p ∷ rest) =
    let later = placing_of i rest in if p.index == i then some p.output else later

-- The output of a view, unless it is not connected or another view has it.
abbrev pub usable : List String → List String → Option String → Option String
usable connected used none = none
usable connected used (some s) =
    if has_name s connected && not (has_name s used) then some s else none

abbrev pub plan_views :
    (String → Option Url)
    → String
    → List String
    → List Placing
    → List String
    → ℕ
    → List View
    → Result Error (List Planned)
plan_views split_url token connected placings used i [] = ok []
plan_views split_url token connected placings used i (v ∷ rest) =
    elim (usable connected used (placing_of i placings)) [
      | none ↦ plan_views split_url token connected placings used (suc i) rest
      | some output ↦ do
        shown ← plan_view split_url token i output v
        others ← plan_views split_url token connected placings (output ∷ used) (suc i) rest
        ok (shown ∷ others)
    ]

abbrev pub first_view : View
first_view = record {
  output = some "";
  display_id = none;
  mode = some (string "admin");
  resolution = none;
  url = some (string default_url);
  tabs = none;
}

-- The configuration: `none` where it has no views, or null.
pub record Config : Type 0 where
  pub is_configured : Bool
  pub views : Option (List View)

abbrev pub saved_views : Config → List View
saved_views c = elim c.views [
  | none ↦ first_view ∷ []
  | some [] ↦ if c.is_configured then [] else first_view ∷ []
  | some (v ∷ rest) ↦ v ∷ rest
]

abbrev pub plan_layout :
    (String → Option Url)
    → String
    → List View
    → List String
    → List (String × String)
    → Result Error (List Planned)
plan_layout split_url token views connected known = do
  guard (between 1 2 (length views)) bad_views
  plan_views split_url token connected (assigned_outputs views connected known) [] 0 views

-- `plan`
unfoldable pub plan :
    (String → Option Url)
    → (List ℕ → String)
    → Config
    → List Output
    → String
    → Result Error (List Planned)
unfolding connected_names identities
plan split_url sha256 config outputs token =
    plan_layout split_url token (saved_views config) (connected_names outputs)
      (identities sha256 outputs)
