-- ===== src/Displays/Administration.antt =====
-- The administration is among the views that `plan` returns.
use mindflayer_elderbrain.Base.{
  ℕ, suc, zero, ◌+◌, ◌≤◌, ◌<◌, ◌≡◌, refl, sym, ap, ◌∙◌, true, inl, inr, Option, none, some, List,
  [], ◌∷◌, String, str_eq, str_eq-true, Bool-cases, some-injective, arith, length, get_elem?,
  some_of, has_name, In, here, there, Value, null, array, object, string, real, number, negative,
  bool, text_is, ok,
}
use mathlib.Core.Path.{subst}
use mindflayer_elderbrain.Displays.Outputs.{Output, active, names, connected_names, identities}
use mindflayer_elderbrain.Displays.Assignment.{
  View, wishes, Placing, is_placed, assign, assigned_outputs, renumbered_outputs,
}
use mindflayer_elderbrain.Displays.Placings.{IsOneToOne}
use mindflayer_elderbrain.Displays.Layout.{assign-IsLayout}
use mindflayer_elderbrain.Displays.Shown.{Differ, assign_shows_admin}
use mindflayer_elderbrain.Displays.Connected.{connected_names-Differ, has_name-connected_names}
use mindflayer_elderbrain.Displays.Wishes.{
  AllKnown, identities-known, wishes-IsNumbered, length-wishes, find_admin,
}
use mindflayer_elderbrain.Displays.Plan.{
  Url, Role, admin, Config, saved_views, read_role, Planned, plan, placing_of, usable,
}
use mindflayer_elderbrain.Displays.Steps.{IsShown}
use mindflayer_elderbrain.Displays.Places.{
  placing_of-placed, placing_of-injective, usable-some, usable-new,
}
use mindflayer_elderbrain.Displays.Views.{Passes, finishes, skips, shows, plan-Passes}

module _ (split_url : String → Option Url) (token : String) (connected : List String)
    (placings : List Placing) where
  -- The outputs used so far belong to views before the `i`th.
  abbrev IsEarlier : List String → ℕ → Type 0
  IsEarlier used i =
      (s : String) → has_name s used ≡ true → (j : ℕ) × (j < i) × (placing_of j placings ≡ some s)

  later_still : (used : List String) (i : ℕ) → IsEarlier used i → IsEarlier used (suc i)
  later_still used i early s h = let (j, low, e) = early s h in (j, omega arith, e)

  also_taken :
      (used : List String) (i : ℕ) (s : String)
      → IsEarlier used i
      → placing_of i placings ≡ some s
      → IsEarlier (s ∷ used) (suc i)
  also_taken used i s early e r h = elim (Bool-cases (str_eq s r)) [
    | inl same ↦ (i, omega arith, e ∙ ap (λ x. some x) (str_eq-true s r same))
    | inr other ↦ later_still used i early r (sym (rw other refl) ∙ h)
  ]

  Passes-shows :
      (used : List String) (i k : ℕ) (views : List View) (planned : List Planned) (v : View)
      → Passes split_url token connected placings used i views planned
      → IsOneToOne connected placings
      → IsEarlier used i
      → get_elem? views k ≡ some v
      → is_placed (i + k) placings ≡ true
      → (p : Planned) × In p planned × (p.index ≡ i + k) × IsShown split_url token v p
  Passes-shows used i k [] planned v (finishes _ _) one early e placed = cc
  Passes-shows used i zero (v ∷ rest) planned u (skips _ _ _ _ _ h later) one early e placed =
      let (s, found, known) =
        placing_of-placed connected i placings one
          (subst (λ n. is_placed n placings ≡ true) (omega arith) placed) in
      elim (Bool-cases (has_name s used)) [
        | inl taken ↦
            let (j, low, same) = early s taken in
            let one_place = placing_of-injective connected i j s placings one found same in
            let wrong : ⊥ = omega arith in elim wrong [ ]
        | inr new ↦
            let fits = usable-new connected used s known new in
            let lost = subst (λ o. usable connected used o ≡ none) found h in cc
      ]
  Passes-shows used i (suc k) (v ∷ rest) planned u (skips _ _ _ _ _ h later) one early e placed =
      let (p, stands, index, shown) =
        Passes-shows used (suc i) k rest planned u later one (later_still used i early) e
          (subst (λ n. is_placed n placings ≡ true) (omega arith) placed) in
      (p, stands, index ∙ omega arith, shown)
  Passes-shows used i zero (v ∷ rest) (p ∷ planned) u
        (shows _ _ _ _ s _ _ h index output shown later) one early e placed =
      (
        p,
        here p planned refl,
        index ∙ omega arith,
        subst (λ w. IsShown split_url token w p) (some-injective e) shown,
      )
  Passes-shows used i (suc k) (v ∷ rest) (p ∷ planned) u
        (shows _ _ _ _ s _ _ h index output shown later) one early e placed =
      let (q, stands, place, is_shown) =
        Passes-shows (s ∷ used) (suc i) k rest planned u later one
          (also_taken used i s early (usable-some connected used (placing_of i placings) s h).0) e
          (subst (λ n. is_placed n placings ≡ true) (omega arith) placed) in
      (q, there p planned stands, place ∙ omega arith, is_shown)

is_administration : (m : Option Value) → text_is "admin" m ≡ true → read_role m ≡ ok admin
is_administration none e = cc
is_administration (some (string s)) e = rw e refl
is_administration (some null) e = cc
is_administration (some (array l)) e = cc
is_administration (some (object f)) e = cc
is_administration (some (real s)) e = cc
is_administration (some (number n)) e = cc
is_administration (some (negative n)) e = cc
is_administration (some (bool b)) e = cc

non_empty :
    (s : String) (xs : List String)
    → has_name s xs ≡ true
    → (x : String) × ((rest : List String) × (xs ≡ x ∷ rest))
non_empty s [] h = cc
non_empty s (x ∷ xs) h = (x, (xs, refl))

same_role :
    (m : Option Value) (p : Role) → read_role m ≡ ok p → text_is "admin" m ≡ true → p ≡ admin
same_role m p e h = let is_admin = is_administration m h in cc

-- `assigned_outputs` and the loop of `plan`, on what is connected and known.
assigned-IsOneToOne :
    (views : List View) (connected : List String) (known : List (String × String))
    → AllKnown connected known
    → IsOneToOne connected (assigned_outputs views connected known)
unfolding assigned_outputs
assigned-IsOneToOne views connected known h =
    let numbered =
      wishes-IsNumbered connected (renumbered_outputs views connected) known 0 views h in
    (assign-IsLayout connected (wishes (renumbered_outputs views connected) known 0 views)
      numbered).0

assigned_admin :
    (views : List View) (connected : List String) (known : List (String × String)) (s : String)
    → has_name s connected ≡ true
    → Differ connected
    → length views ≤ 2
    → AllKnown connected known
    → some_of (λ v. text_is "admin" v.mode) views ≡ true
    → (k : ℕ) × ((v : View) × (get_elem? views k ≡ some v)
        × (text_is "admin" v.mode ≡ true)
        × (is_placed (0 + k) (assigned_outputs views connected known) ≡ true))
unfolding assigned_outputs
assigned_admin views connected known s h differ few all_known e =
    let renumbered = renumbered_outputs views connected in
    let found = find_admin renumbered known 0 views e in
    let (x, (rest, same)) = non_empty s connected h in
    let placed =
      assign_shows_admin connected (wishes renumbered known 0 views) found.wish x rest same differ
        (subst (λ n. n ≤ 2) (sym (length-wishes renumbered known 0 views)) few)
        (wishes-IsNumbered connected renumbered known 0 views all_known) found.is_first in
    (
      found.place,
      (
        found.view,
        found.stands,
        found.is_admin,
        subst (λ n. is_placed n (assign connected (wishes renumbered known 0 views)) ≡ true)
            found.index_lem placed,
      ),
    )

-- The administration is always shown. If some output is active under a valid name, and one of the views is
-- for the administration, then what `plan` returns has a view for it.
pub administration_is_shown :
    (split_url : String → Option Url) (sha256 : List ℕ → String) (config : Config)
    (outputs : List Output) (token : String) (planned : List Planned) (name : String)
    → plan split_url sha256 config outputs token ≡ ok planned
    → has_name name (names (active outputs)) ≡ true
    → some_of (λ v. text_is "admin" v.mode) (saved_views config) ≡ true
    → (p : Planned) × In p planned × (p.role ≡ admin)
administration_is_shown split_url sha256 config outputs token planned name e h some_admin =
    let views = saved_views config in
    let connected = connected_names outputs in
    let known = identities sha256 outputs in
    let all_known = identities-known sha256 outputs in
    let (few, passes) = plan-Passes split_url sha256 config outputs token planned e in
    let (k, (v, stands, is_admin, placed)) =
      assigned_admin views connected known name (has_name-connected_names name outputs ∙ h)
        (connected_names-Differ outputs) few all_known some_admin in
    let (p, found, index, shown) =
      Passes-shows split_url token connected (assigned_outputs views connected known) [] 0 k views
        planned v passes (assigned-IsOneToOne views connected known all_known) (λ s none_used. cc)
        stands placed in
    (p, found, same_role v.mode p.role shown.role_lem is_admin)
