-- ===== src/Displays/Modes.antt =====
-- `output_modes` and `preferred_mode` of browser-session.py, with the resolution of a view.
use Prim.Native.Char.{code}
use mindflayer_elderbrain.Base.{
  ℕ, ◌+◌, ◌-◌, ◌*◌, Bool, true, false, not, ◌&&◌, ◌||◌, Option, none, some, List, [], ◌∷◌, ◌++◌,
  String, str_eq, if◌then◌else◌, ltb, ◌==◌, between, take, select, some_of, Regex, seq, alt, many,
  times, up_to, optional, one, char, digit, fullmatch, Value, get, null, string, array, object,
  number, bool, real, stop, end, int?, list?, Result, ok, err,
}

pub data Error : Type 0 where
  bad_views bad_mode bad_resolution bad_url bad_tabs : Error

abbrev pub codes : String → List ℕ
codes String.[] = []
codes (String.◌∷◌ c s) = code c ∷ codes s

abbrev pub read_decimal : ℕ → List ℕ → ℕ
read_decimal n [] = n
read_decimal n (c ∷ rest) = read_decimal (n * 10 + (c - b'0')) rest

abbrev pub before : ℕ → List ℕ → List ℕ
before mark [] = []
before mark (c ∷ rest) = let front = before mark rest in if c == mark then [] else c ∷ front

abbrev pub after : ℕ → List ℕ → List ℕ
after mark [] = []
after mark (c ∷ rest) = let back = after mark rest in if c == mark then rest else back

-- `\d{2,5}`, with ASCII digits.
abbrev dimension : Regex
dimension = seq (times 2 (one digit)) (up_to 3 (one digit))

abbrev resolution_pattern : Regex
resolution_pattern = seq dimension (seq (char b'x') dimension)

-- The width and the height of a text such as `1920x1080`.
unfoldable pub parse_resolution : String → Option (ℕ × ℕ)
unfolding fullmatch
parse_resolution s =
    if fullmatch resolution_pattern s
    then some (read_decimal 0 (before b'x' (codes s)), read_decimal 0 (after b'x' (codes s)))
    else none

-- A float that is zero, as JSON writes it.
abbrev zero_pattern : Regex
zero_pattern = seq (optional (char b'-')) (
    seq (many (alt (char b'0') (char b'.')))
      (optional (seq (alt (char b'e') (char b'E')) (many (one (λ c. true))))))

-- `not value`; a field that is missing is its default, the empty text.
unfoldable pub is_empty : Option Value → Bool
unfolding fullmatch
is_empty none = true
is_empty (some null) = true
is_empty (some (string s)) = str_eq s ""
is_empty (some (array stop)) = true
is_empty (some (object end)) = true
is_empty (some (number n)) = n == 0
is_empty (some (bool b)) = not b
is_empty (some (real s)) = fullmatch zero_pattern s
is_empty (some _) = false

abbrev pub size_of : Option Value → Option (ℕ × ℕ)
size_of (some (string s)) = parse_resolution s
size_of _ = none

-- The size that a view asks for, if it asks for one.
unfoldable pub read_size : Option Value → Result Error (Option (ℕ × ℕ))
read_size v =
    if is_empty v
    then ok none
    else elim (size_of v) [ none ↦ err bad_resolution | some size ↦ ok (some size) ]

pub record Mode : Type 0 where
  pub width : ℕ
  pub height : ℕ
  pub refresh : ℕ

abbrev pub make_mode : Option ℕ → Option ℕ → Option ℕ → Option Mode
make_mode (some w) (some h) (some r) =
    if between 320 32768 w && between 200 32768 h && between 1000 1000000 r
    then some (record { width = w; height = h; refresh = r })
    else none
make_mode _ _ _ = none

unfoldable pub read_mode : Value → Option Mode
read_mode v = make_mode (int? (get "width" v)) (int? (get "height" v)) (int? (get "refresh" v))

abbrev pub mode_eq : Mode → Mode → Bool
mode_eq a b = a.width == b.width && (a.height == b.height && a.refresh == b.refresh)

abbrev pub add_mode : List Mode → Option Mode → List Mode
add_mode modes none = modes
add_mode modes (some m) = if some_of (mode_eq m) modes then modes else modes ++ (m ∷ [])

abbrev pub collect : List Mode → List Value → List Mode
collect modes [] = modes
collect modes (v ∷ rest) = collect (add_mode modes (read_mode v)) rest

abbrev pub modes_of : Option (List Value) → List Mode
modes_of none = []
modes_of (some raw) = collect [] (take 256 raw)

-- `output_modes`, of the field `modes` of an output.
unfoldable pub output_modes : Option Value → List Mode
output_modes modes = modes_of (list? modes)

-- `max` with a key: the first of the greatest.
abbrev pub max_by {ℓ} : {A : Type ℓ} → (A → A → Bool) → A → List A → A
max_by less m [] = m
max_by less m (x ∷ rest) = max_by less (if less m x then x else m) rest

abbrev pub slower : Mode → Mode → Bool
slower a b = ltb a.refresh b.refresh

abbrev pub area : Mode → ℕ
area m = m.width * m.height

-- Tuples are compared by what comes first, and by the rest where that is equal.
abbrev pub precedes : ℕ → ℕ → Bool → Bool
precedes a b rest = ltb a b || (a == b && rest)

-- The tuples (area, width, height, refresh), compared.
abbrev pub smaller : Mode → Mode → Bool
smaller a b =
    precedes (area a) (area b) (precedes a.width b.width (precedes a.height b.height (slower a b)))

abbrev pub has_size : ℕ × ℕ → Mode → Bool
has_size (w, h) m = m.width == w && m.height == h

abbrev pub largest : List Mode → Option Mode
largest [] = none
largest (m ∷ rest) = some (max_by smaller m rest)

abbrev pub fastest : List Mode → List Mode → Option Mode
fastest modes [] = largest modes
fastest modes (m ∷ rest) = some (max_by slower m rest)

abbrev pub prefer : Option (ℕ × ℕ) → List Mode → Option Mode
prefer none modes = largest modes
prefer (some size) modes = fastest modes (select (has_size size) modes)

abbrev pub prefer_of : Result Error (Option (ℕ × ℕ)) → List Mode → Result Error (Option Mode)
prefer_of size [] = ok none
prefer_of (err e) modes = err e
prefer_of (ok size) modes = ok (prefer size modes)

-- `preferred_mode`, of the field `resolution` of a planned view and the field `modes` of its output.
unfoldable pub preferred_mode : Option Value → Option Value → Result Error (Option Mode)
preferred_mode resolution modes = prefer_of (read_size resolution) (output_modes modes)
