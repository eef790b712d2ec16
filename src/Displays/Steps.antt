-- ===== src/Displays/Steps.antt =====
-- What one pass through the loop of `plan` makes of a view, and the loop as a whole.
use mindflayer_elderbrain.Base.{
  ℕ, suc, ◌≤◌, ◌≡◌, refl, sym, ap, true, false, inl, inr, Option, none, some, List, [], ◌∷◌, String,
  str_eq, Bool-cases, arith, leb, length, every, items, Value, array, null, object, string, real,
  number, negative, bool, text?, Result, ok, bind-ok, then-ok, guard, guard-ok, ◌>>=◌, ◌>>◌, leb→le,
  ok-injective, or_raise,
}
use mathlib.Core.Path.{subst}
use mindflayer_elderbrain.Displays.Modes.{Error, bad_resolution, bad_url, bad_tabs, read_size}
use mindflayer_elderbrain.Displays.Assignment.{View}
use mindflayer_elderbrain.Displays.Plan.{
  Url, Role, admin, player, is_safe_url, safe_url, safe_urls, read_role, is_display_size, read_tabs,
  Planned, setup_url, setup_page, pages, read_pages, make_planned, plan_view,
}

module _ (split_url : String → Option Url) (token : String) where
  abbrev pub IsSafe : String → Type 0
  IsSafe s = is_safe_url split_url s ≡ true

  -- What a view opens: the administration's the page of the setup with its token, its own address and
  -- at most ten more, all of them safe; a player's its own address, a safe one, or the page of the
  -- setup where that is its address.
  pub data Opens : Role → List String → Type 0 where
    opens_admin :
        (target : String) (extras : List String)
        → IsSafe target
        → every (is_safe_url split_url) extras ≡ true
        → length extras ≤ 10
        → Opens admin (setup_page token ∷ target ∷ extras)
    opens_setup : Opens player (setup_page token ∷ [])
    opens_page :
        (target : String)
        → IsSafe target
        → str_eq target setup_url ≡ false
        → Opens player (target ∷ [])

  -- A planned view is as the saved one says, on an output of its own.
  pub record IsShown (v : View) (p : Planned) : Type 0 where
    pub role_lem : read_role v.mode ≡ ok p.role
    pub resolution_lem : p.resolution ≡ v.resolution
    pub size : Option (ℕ × ℕ)
    pub size_lem : read_size p.resolution ≡ ok size
    pub size_in_range : is_display_size size ≡ true
    pub opens : Opens p.role p.urls

  safe_url-IsSafe : (v : Option Value) (s : String) → safe_url split_url v ≡ ok s → IsSafe s
  safe_url-IsSafe v s e =
      let checked : String → Result Error String =
        λ r. guard (is_safe_url split_url r) bad_url >> ok r in
      let (r, read, next) = bind-ok (or_raise (text? v) bad_url) checked e in
      let (safe, last) = then-ok (guard (is_safe_url split_url r) bad_url) (ok r) next in
      subst IsSafe (ok-injective last) (guard-ok (is_safe_url split_url r) bad_url safe)

  safe_urls-IsSafe :
      (values : List Value) (urls : List String)
      → safe_urls split_url values ≡ ok urls
      → (every (is_safe_url split_url) urls ≡ true) × (length urls ≡ length values)
  safe_urls-IsSafe [] urls e =
      subst (λ l. (every (is_safe_url split_url) l ≡ true) × (length l ≡ 0)) (ok-injective e)
        (refl, refl)
  safe_urls-IsSafe (v ∷ rest) urls e =
      let (s, read, next) =
        bind-ok (safe_url split_url (some v))
          (λ s. safe_urls split_url rest >>= λ others. ok (s ∷ others)) e in
      let (others, more, last) = bind-ok (safe_urls split_url rest) (λ l. ok (s ∷ l)) next in
      let (safe, size) = safe_urls-IsSafe rest others more in
      let first' = safe_url-IsSafe (some v) s read in
      subst (λ l. (every (is_safe_url split_url) l ≡ true) × (length l ≡ suc (length rest)))
        (ok-injective last) (rw first' safe, ap suc size)

  read_tabs-few : (v : Option Value) (tabs : List Value) → read_tabs v ≡ ok tabs → length tabs ≤ 10
  read_tabs-few none tabs e = subst (λ l. length l ≤ 10) (ok-injective e) (omega arith)
  read_tabs-few (some (array l)) tabs e =
      let (fits, same) = then-ok (guard (leb (length (items l)) 10) bad_tabs) (ok (items l)) e in
      subst (λ k. length k ≤ 10) (ok-injective same)
        (leb→le (length (items l)) 10 (guard-ok (leb (length (items l)) 10) bad_tabs fits))
  read_tabs-few (some null) tabs e = cc
  read_tabs-few (some (object f)) tabs e = cc
  read_tabs-few (some (string s)) tabs e = cc
  read_tabs-few (some (real s)) tabs e = cc
  read_tabs-few (some (number n)) tabs e = cc
  read_tabs-few (some (negative n)) tabs e = cc
  read_tabs-few (some (bool b)) tabs e = cc

  pages-Opens :
      (role : Role) (target : String) (extras : List String)
      → IsSafe target
      → every (is_safe_url split_url) extras ≡ true
      → length extras ≤ 10
      → Opens role (pages token role target extras)
  pages-Opens admin target extras safe more few = opens_admin target extras safe more few
  pages-Opens player target extras safe more few = elim (Bool-cases (str_eq target setup_url)) [
    | inl same ↦ rw same opens_setup
    | inr other ↦ rw other (opens_page target safe other)
  ]

  read_pages-Opens :
      (role : Role) (v : View) (urls : List String)
      → read_pages split_url token role v ≡ ok urls
      → Opens role urls
  read_pages-Opens role v urls e =
      let finish : String → List String → Result Error (List String) =
        λ target extras. ok (pages token role target extras) in
      let (target, safe, next) =
        bind-ok (safe_url split_url v.url)
          (λ target. read_tabs v.tabs >>= λ tabs. safe_urls split_url tabs >>= finish target) e in
      let (tabs, few, last) =
        bind-ok (read_tabs v.tabs) (λ tabs. safe_urls split_url tabs >>= finish target) next in
      let (extras, read, same) = bind-ok (safe_urls split_url tabs) (finish target) last in
      let (all_safe, size) = safe_urls-IsSafe tabs extras read in
      subst (Opens role) (ok-injective same) (
        pages-Opens role target extras (safe_url-IsSafe v.url target safe) all_safe
          (subst (λ n. n ≤ 10) (sym size) (read_tabs-few v.tabs tabs few)))

  pub plan_view-IsShown :
      (i : ℕ) (output : String) (v : View) (p : Planned)
      → plan_view split_url token i output v ≡ ok p
      → (p.index ≡ i) × (p.output ≡ output) × IsShown v p
  plan_view-IsShown i output v p e =
      let finish : Role → Result Error Planned = λ role.
        read_pages split_url token role v >>= λ urls. ok (make_planned i output v role urls) in
      let (role, is_role, next) =
        bind-ok (read_role v.mode)
          (λ role. read_size v.resolution >>= λ size.
            guard (is_display_size size) bad_resolution >> finish role)
          e in
      let (size, is_size, more) =
        bind-ok (read_size v.resolution)
          (λ size. guard (is_display_size size) bad_resolution >> finish role) next in
      let (fits, rest) = then-ok (guard (is_display_size size) bad_resolution) (finish role) more in
      let (urls, opened, same) =
        bind-ok (read_pages split_url token role v) (λ urls. ok (make_planned i output v role urls))
          rest in
      subst (λ q. (q.index ≡ i) × (q.output ≡ output) × IsShown v q) (ok-injective same)
        (
          refl,
          refl,
          record {
            role_lem = is_role;
            resolution_lem = refl;
            size = size;
            size_lem = is_size;
            size_in_range = guard-ok (is_display_size size) bad_resolution fits;
            opens = read_pages-Opens role v urls opened;
          },
        )
