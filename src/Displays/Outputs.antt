-- ===== src/Displays/Outputs.antt =====
-- The outputs that Sway lists, and what browser-session.py makes of their names: `connector_family`,
-- `monitor_id` and the sorted names. Sway gives each output a name, and texts or nothing for the maker,
-- the model and the serial number. `sha256` stands for the digest of a text, by its characters.
use Prim.Native.String.{compare, ◌++◌ as append}
use Prim.Native.Nat.{Ordering}
use mindflayer_elderbrain.Base.{
  ℕ, suc, Bool, true, false, ◌&&◌, ◌||◌, Option, none, some, List, [], ◌∷◌, ◌++◌, String, str_eq,
  if◌then◌else◌, ◌==◌, take, select, every, map, digit, is_space, one, letter, up_to, seq,
  fullmatch, has_name, Value,
}
use mindflayer_elderbrain.Displays.Modes.{codes}

pub record Output : Type 0 where
  pub name : String
  pub is_active : Bool
  pub make : Option String
  pub model : Option String
  pub serial : Option String
  pub modes : Option Value

abbrev pub is_nil {ℓ} : {A : Type ℓ} → List A → Bool
is_nil [] = true
is_nil (x ∷ rest) = false

abbrev pub drop_while : (ℕ → Bool) → List ℕ → List ℕ
drop_while p [] = []
drop_while p (c ∷ rest) = let back = drop_while p rest in if p c then back else c ∷ rest

abbrev pub drop_end : (ℕ → Bool) → List ℕ → List ℕ
drop_end p [] = []
drop_end p (c ∷ rest) = let back = drop_end p rest in if p c && is_nil back then [] else c ∷ back

abbrev pub equal : List ℕ → List ℕ → Bool
equal [] [] = true
equal (a ∷ xs) (b ∷ ys) = a == b && equal xs ys
equal _ _ = false

-- The characters up to the end, or up to a line's end that stands last, where `$` matches too.
abbrev pub ends_line : List ℕ → Bool
ends_line [] = false
ends_line (c ∷ []) = c == 10
ends_line (c ∷ d ∷ rest) = ends_line (d ∷ rest)

abbrev pub drop_last : List ℕ → List ℕ
drop_last [] = []
drop_last (c ∷ []) = []
drop_last (c ∷ d ∷ rest) = c ∷ drop_last (d ∷ rest)

-- `connector_family`, as characters: the name without the ASCII digits at its end.
unfoldable pub connector_family : String → List ℕ
connector_family name =
    let whole = codes name in
    if ends_line whole then drop_end digit (drop_last whole) ++ (10 ∷ []) else drop_end digit whole

-- `str(value or '').strip()[:128]`
abbrev pub part : Option String → List ℕ
part none = []
part (some s) = take 128 (drop_end is_space (drop_while is_space (codes s)))

abbrev pub is_zero : ℕ → Bool
is_zero c = c == 0

-- `monitor_id`; `none` stands for the empty text.
unfoldable pub monitor_id : (List ℕ → String) → Output → Option String
monitor_id sha256 o =
    let identity = part o.make ++ (0 ∷ part o.model) ++ (0 ∷ part o.serial) in
    if every is_zero identity then none else some (append "monitor-" (sha256 identity))

-- `[A-Za-z0-9_.:-]`
abbrev name_char : ℕ → Bool
name_char c = letter c || digit c || c == b'_' || c == b'.' || c == b':' || c == b'-'

unfoldable pub is_output_name : String → Bool
unfolding fullmatch
is_output_name s = fullmatch (seq (one name_char) (up_to 127 (one name_char))) s

abbrev pub insert_at : Ordering → String → String → List String → List String → List String
insert_at Ordering.gt name first rest inserted = first ∷ inserted
insert_at _ name first rest inserted = name ∷ first ∷ rest

abbrev pub insert : String → List String → List String
insert name [] = name ∷ []
insert name (first ∷ rest) = insert_at (compare name first) name first rest (insert name rest)

-- `sorted`, by the code points of the characters.
abbrev pub sorted : List String → List String
sorted [] = []
sorted (name ∷ rest) = insert name (sorted rest)

-- The elements of `set`.
abbrev pub unique : List String → List String
unique [] = []
unique (name ∷ rest) =
    let others = unique rest in if has_name name others then others else name ∷ others

abbrev pub active : List Output → List Output
active outputs = select (λ o. o.is_active && is_output_name o.name) outputs

abbrev pub names : List Output → List String
names [] = []
names (o ∷ rest) = o.name ∷ names rest

unfoldable pub connected_names : List Output → List String
connected_names outputs = sorted (unique (names (active outputs)))

abbrev pub count : String → List (Option String) → ℕ
count identity [] = 0
count identity (none ∷ rest) = count identity rest
count identity (some other ∷ rest) =
    let others = count identity rest in if str_eq other identity then suc others else others

abbrev pub add_identity :
    Option String → String → List (Option String) → List (String × String) → List (String × String)
add_identity none name observed others = others
add_identity (some identity) name observed others =
    if count identity observed == 1 then (identity, name) ∷ others else others

-- The identities that one active output alone has, each with the name of that output.
abbrev pub identified :
    (List ℕ → String) → List (Option String) → List Output → List (String × String)
identified sha256 observed [] = []
identified sha256 observed (o ∷ rest) =
    add_identity (monitor_id sha256 o) o.name observed (identified sha256 observed rest)

unfoldable pub identities : (List ℕ → String) → List Output → List (String × String)
identities sha256 outputs =
    identified sha256 (map (monitor_id sha256) (active outputs)) (active outputs)
