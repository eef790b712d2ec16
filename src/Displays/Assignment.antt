-- ===== src/Displays/Assignment.antt =====
-- `renumbered_outputs` and `assigned_outputs` of browser-session.py: which view takes which output. A
-- view is what the setup saved: `output` and `displayId` are texts, if they are there.
use mindflayer_elderbrain.Base.{
  ℕ, suc, Bool, true, false, not, ◌&&◌, ◌||◌, Option, none, some, List, [], ◌∷◌, String, str_eq,
  if◌then◌else◌, ◌==◌, length, select, every, some_of, has_name, Value, text_is,
}
use mindflayer_elderbrain.Displays.Outputs.{connector_family, equal, sorted}

pub record View : Type 0 where
  pub output : Option String
  pub display_id : Option String
  pub mode : Option Value
  pub resolution : Option Value
  pub url : Option Value
  pub tabs : Option Value

abbrev pub is_set : Option String → Bool
is_set none = false
is_set (some s) = not (str_eq s "")

-- What is set of the outputs of the views.
abbrev pub texts : List (Option String) → List String
texts [] = []
texts (none ∷ rest) = texts rest
texts (some s ∷ rest) = s ∷ texts rest

abbrev pub outputs_of : List View → List (Option String)
outputs_of [] = []
outputs_of (v ∷ rest) = v.output ∷ outputs_of rest

abbrev pub same_families : List String → List String → Bool
same_families [] [] = true
same_families (a ∷ xs) (b ∷ ys) =
    equal (connector_family a) (connector_family b) && same_families xs ys
same_families _ _ = false

-- `dict(zip(previous, current))`, as pairs in the order of the keys.
abbrev pub zip : List String → List String → List (String × String)
zip (a ∷ xs) (b ∷ ys) = (a, b) ∷ zip xs ys
zip _ _ = []

-- The connectors before and after a complete renumbering; nothing where it is no such thing.
unfoldable pub renumbered_outputs : List View → List String → List (String × String)
unfolding connector_family
renumbered_outputs views connected =
    let configured = outputs_of views in
    if not (length configured == length connected)
      || not (every is_set configured)
      || some_of (λ name. has_name name connected) (texts configured)
      || not (same_families (sorted (texts configured)) (sorted connected))
    then []
    else zip (sorted (texts configured)) (sorted connected)

abbrev pub or_else : Option String → Option String → Option String
or_else none other = other
or_else (some name) other = some name

-- The last value of a key.
abbrev pub find : String → List (String × String) → Option String
find key [] = none
find key ((k, value) ∷ rest) = or_else (find key rest) (if str_eq k key then some value else none)

abbrev pub find_set : Option String → List (String × String) → Option String
find_set none pairs = none
find_set (some key) pairs = find key pairs

-- `renumbered.get(output, output)`
abbrev pub renumber : List (String × String) → Option String → Option String
renumber pairs output = elim (find_set output pairs) [ some new ↦ some new | none ↦ output ]

-- A view with its place in the list, the output that has its monitor, and the output that it asks for.
pub record Wish : Type 0 where
  pub index : ℕ
  pub is_admin : Bool
  pub monitor : Option String
  pub asked : Option String

abbrev pub wishes : List (String × String) → List (String × String) → ℕ → List View → List Wish
wishes renumbered identities i [] = []
wishes renumbered identities i (v ∷ rest) =
    record {
      index = i;
      is_admin = text_is "admin" v.mode;
      monitor = find_set v.display_id identities;
      asked = renumber renumbered v.output;
    }
    ∷ wishes renumbered identities (suc i) rest

pub record Placing : Type 0 where
  pub index : ℕ
  pub output : String

abbrev pub placed_outputs : List Placing → List String
placed_outputs [] = []
placed_outputs (p ∷ rest) = p.output ∷ placed_outputs rest

abbrev pub is_placed : ℕ → List Placing → Bool
is_placed i [] = false
is_placed i (p ∷ rest) = p.index == i || is_placed i rest

abbrev pub is_free : List Placing → String → Bool
is_free placings name = not (has_name name (placed_outputs placings))

abbrev pub free_names : List String → List Placing → List String
free_names connected placings = select (is_free placings) connected

abbrev pub put : ℕ → Option String → List Placing → List Placing
put i none placings = placings
put i (some name) placings = record { index = i; output = name } ∷ placings

abbrev pub keep : (String → Bool) → Option String → Option String
keep p none = none
keep p (some s) = if p s then some s else none

abbrev pub first : List String → Option String
first [] = none
first (name ∷ rest) = some name

-- The output that a view takes at first: the one with its monitor, or the one that it asks for.
abbrev pub claim : List String → List Placing → Wish → Option String
claim connected placings w =
    or_else (keep (λ s. not (str_eq s "") && is_free placings s) w.monitor)
      (keep (λ s. has_name s connected && is_free placings s) w.asked)

abbrev pub claim_all : List String → List Wish → List Placing → List Placing
claim_all connected [] placings = placings
claim_all connected (w ∷ rest) placings =
    claim_all connected rest (put w.index (claim connected placings w) placings)

abbrev pub first_admin : List Wish → Option Wish
first_admin [] = none
first_admin (w ∷ rest) = let later = first_admin rest in if w.is_admin then some w else later

abbrev pub is_like : Option String → String → Bool
is_like none name = false
is_like (some s) name = not (str_eq s "") && equal (connector_family name) (connector_family s)

-- With no output free, the only output that is connected shows the administration.
abbrev pub take_only : ℕ → List String → List Placing → List Placing
take_only i (name ∷ []) placings = record { index = i; output = name } ∷ []
take_only i connected placings = placings

abbrev pub admin_choice : List String → Wish → List String → List Placing → List Placing
admin_choice connected w [] placings = take_only w.index connected placings
admin_choice connected w (name ∷ rest) placings =
    put w.index (or_else (first (select (is_like w.asked) (name ∷ rest))) (some name)) placings

abbrev pub place_admin : List String → Option Wish → List Placing → List Placing
place_admin connected none placings = placings
place_admin connected (some w) placings =
    if is_placed w.index placings
    then placings
    else admin_choice connected w (free_names connected placings) placings

-- The output that a view takes where nothing was found for it.
abbrev pub spare : List String → List Placing → Wish → Option String
spare connected placings w =
    let free = free_names connected placings in
    first (if is_set w.asked then select (is_like w.asked) free else free)

abbrev pub fill : List String → Wish → List Placing → List Placing
fill connected w placings =
    if is_placed w.index placings
    then placings
    else put w.index (spare connected placings w) placings

abbrev pub fill_all : List String → List Wish → List Placing → List Placing
fill_all connected [] placings = placings
fill_all connected (w ∷ rest) placings = fill_all connected rest (fill connected w placings)

abbrev pub assign : List String → List Wish → List Placing
assign connected all =
    fill_all connected all (place_admin connected (first_admin all) (claim_all connected all []))

-- `assigned_outputs`
unfoldable pub assigned_outputs : List View → List String → List (String × String) → List Placing
unfolding renumbered_outputs
assigned_outputs views connected identities =
    assign connected (wishes (renumbered_outputs views connected) identities 0 views)
