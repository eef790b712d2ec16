-- ===== src/Displays/Wishes.antt =====
-- The views as wishes, in their order, and the outputs of the monitors that they are for.
use mindflayer_elderbrain.Base.{
  ℕ, suc, ◌+◌, ◌≡◌, refl, sym, ap, ◌∙◌, Bool, true, false, inl, inr, ◌⊎◌, Option, none, some, List,
  [], ◌∷◌, map, String, str_eq, str_eq_self, if◌then◌else◌, Bool-cases, some-injective, arith, ◌==◌,
  length, has_name, get_elem?, some_of, text_is,
}
use mathlib.Core.Path.{subst}
use mindflayer_elderbrain.Displays.Outputs.{
  Output, active, names, connected_names, count, add_identity, identified, identities, monitor_id,
}
use mindflayer_elderbrain.Displays.Assignment.{
  View, Wish, wishes, find, find_set, or_else, renumber, first_admin,
}
use mindflayer_elderbrain.Displays.Placings.{IsNumbered}
use mindflayer_elderbrain.Displays.Connected.{has_name-connected_names}

-- Every pair leads to a connected output.
abbrev pub AllKnown : List String → List (String × String) → Type 0
AllKnown connected [] = Unit
AllKnown connected ((k, value) ∷ rest) = (has_name value connected ≡ true) × AllKnown connected rest

or_else-cases :
    (a b : Option String) (s : String) → or_else a b ≡ some s → (a ≡ some s) ⊎ (b ≡ some s)
or_else-cases none b s e = inr e
or_else-cases (some r) b s e = inl e

find-known :
    (connected : List String) (key s : String) (pairs : List (String × String))
    → AllKnown connected pairs
    → find key pairs ≡ some s
    → has_name s connected ≡ true
find-known connected key s [] h e = cc
find-known connected key s ((k, value) ∷ rest) (known, others) e =
    elim (or_else-cases (find key rest) _ s e) [
      | inl later ↦ find-known connected key s rest others later
      | inr here' ↦ matched (str_eq k key) here'
    ]
  where
    matched : (b : Bool) → (if b then some value else none) ≡ some s → has_name s connected ≡ true
    matched true same = subst (λ v. has_name v connected ≡ true) (some-injective same) known
    matched false absent = cc

add_identity-known :
    (connected : List String) (identity : Option String) (name : String)
    (observed : List (Option String)) (others : List (String × String))
    → has_name name connected ≡ true
    → AllKnown connected others
    → AllKnown connected (add_identity identity name observed others)
add_identity-known connected none name observed others known h = h
add_identity-known connected (some identity) name observed others known h =
    elim (Bool-cases (count identity observed == 1)) [
      | inl alone ↦ rw alone (known, h)
      | inr shared ↦ rw shared h
    ]

identified-known :
    (connected : List String) (sha256 : List ℕ → String) (observed : List (Option String))
    (outputs : List Output)
    → ((k : String) → has_name k (names outputs) ≡ true → has_name k connected ≡ true)
    → AllKnown connected (identified sha256 observed outputs)
identified-known connected sha256 observed [] h = tt
identified-known connected sha256 observed (o ∷ rest) h =
    add_identity-known connected (monitor_id sha256 o) o.name observed
      (identified sha256 observed rest) (h o.name (rw (str_eq_self o.name) refl))
      (identified-known connected sha256 observed rest (λ k e. h k (ground arith)))

pub identities-known :
    (sha256 : List ℕ → String) (outputs : List Output)
    → AllKnown (connected_names outputs) (identities sha256 outputs)
unfolding identities
identities-known sha256 outputs =
    identified-known (connected_names outputs) sha256 (map (monitor_id sha256) (active outputs))
      (active outputs) (λ k e. has_name-connected_names k outputs ∙ e)

monitor-known :
    (connected : List String) (pairs : List (String × String)) (key : Option String) (s : String)
    → AllKnown connected pairs
    → find_set key pairs ≡ some s
    → has_name s connected ≡ true
monitor-known connected pairs none s h e = cc
monitor-known connected pairs (some key) s h e = find-known connected key s pairs h e

pub wishes-IsNumbered :
    (connected : List String) (renumbered known : List (String × String)) (n : ℕ)
    (views : List View)
    → AllKnown connected known
    → IsNumbered connected n (wishes renumbered known n views)
wishes-IsNumbered connected renumbered known n [] h = tt
wishes-IsNumbered connected renumbered known n (v ∷ rest) h = (
  refl,
  (λ s e. monitor-known connected known v.display_id s h e),
  wishes-IsNumbered connected renumbered known (suc n) rest h,
)

pub length-wishes :
    (renumbered known : List (String × String)) (n : ℕ) (views : List View)
    → length (wishes renumbered known n views) ≡ length views
length-wishes renumbered known n [] = refl
length-wishes renumbered known n (v ∷ rest) = ap suc (length-wishes renumbered known (suc n) rest)

-- The first view for the administration, and its wish.
pub record FirstAdmin (renumbered known : List (String × String)) (n : ℕ) (views : List View)
    : Type 0 where
  pub place : ℕ
  pub view : View
  pub wish : Wish
  pub is_first : first_admin (wishes renumbered known n views) ≡ some wish
  pub index_lem : wish.index ≡ n + place
  pub stands : get_elem? views place ≡ some view
  pub is_admin : text_is "admin" view.mode ≡ true

pub find_admin :
    (renumbered known : List (String × String)) (n : ℕ) (views : List View)
    → some_of (λ v. text_is "admin" v.mode) views ≡ true
    → FirstAdmin renumbered known n views
find_admin renumbered known n [] h = cc
find_admin renumbered known n (v ∷ rest) h = elim (Bool-cases (text_is "admin" v.mode)) [
  | inl here_it_is ↦ record {
    place = 0;
    view = v;
    wish = record {
      index = n;
      is_admin = text_is "admin" v.mode;
      monitor = find_set v.display_id known;
      asked = renumber renumbered v.output;
    };
    is_first = rw here_it_is refl;
    index_lem = omega arith;
    stands = refl;
    is_admin = here_it_is;
  }
  | inr other ↦
      let later = find_admin renumbered known (suc n) rest (sym (rw other refl) ∙ h) in
      record {
        place = suc later.place;
        view = later.view;
        wish = later.wish;
        is_first = rw other later.is_first;
        index_lem = (let e = later.index_lem in omega arith);
        stands = later.stands;
        is_admin = later.is_admin;
      }
]
