-- ===== src/Displays/Views.antt =====
-- The views that `plan` returns: each on an output of its own, and the administration among them.
use mindflayer_elderbrain.Base.{
  ℕ, suc, ◌≤◌, ◌≡◌, true, false, inl, inr, Option, none, some, List, [], ◌∷◌, String, Option-cases,
  and_true, length, between, leb→le, has_name, Result, ok, ◌>>=◌, bind-ok, then-ok, guard, guard-ok,
  ok-injective,
}
use mathlib.Core.Path.{subst}
use mindflayer_elderbrain.Displays.Modes.{Error, bad_views}
use mindflayer_elderbrain.Displays.Outputs.{Output, connected_names, identities}
use mindflayer_elderbrain.Displays.Assignment.{View, Placing, assigned_outputs}
use mindflayer_elderbrain.Displays.Plan.{
  Url, Config, saved_views, Planned, plan_view, plan_views, plan, placing_of, usable,
}
use mindflayer_elderbrain.Displays.Steps.{IsShown, plan_view-IsShown}

abbrev pub planned_outputs : List Planned → List String
planned_outputs [] = []
planned_outputs (p ∷ rest) = p.output ∷ planned_outputs rest

-- The planned views stand in the order of the saved ones, each one once.
abbrev pub IsAscending : ℕ → List Planned → Type 0
IsAscending i [] = Unit
IsAscending i (p ∷ rest) = (i ≤ p.index) × IsAscending (suc p.index) rest

abbrev IsApart : List String → List String → List Planned → Type 0
IsApart connected used [] = Unit
IsApart connected used (p ∷ rest) =
    (has_name p.output connected ≡ true)
    × (has_name p.output used ≡ false)
    × IsApart connected (p.output ∷ used) rest

module _ (split_url : String → Option Url) (token : String) (connected : List String)
    (placings : List Placing) where
  -- What the loop makes of the views from `i` on, with the outputs `used` before.
  pub data Passes : List String → ℕ → List View → List Planned → Type 0 where
    finishes : (used : List String) (i : ℕ) → Passes used i [] []
    skips :
        (used : List String) (i : ℕ) (v : View) (rest : List View) (planned : List Planned)
        → usable connected used (placing_of i placings) ≡ none
        → Passes used (suc i) rest planned
        → Passes used i (v ∷ rest) planned
    shows :
        (used : List String) (i : ℕ) (v : View) (rest : List View) (s : String) (p : Planned)
        (planned : List Planned)
        → usable connected used (placing_of i placings) ≡ some s
        → p.index ≡ i
        → p.output ≡ s
        → IsShown split_url token v p
        → Passes (s ∷ used) (suc i) rest planned
        → Passes used i (v ∷ rest) (p ∷ planned)

  pub plan_views-Passes :
      (used : List String) (i : ℕ) (views : List View) (planned : List Planned)
      → plan_views split_url token connected placings used i views ≡ ok planned
      → Passes used i views planned
  plan_views-Passes used i [] planned e =
      subst (Passes used i []) (ok-injective e) (finishes used i)
  plan_views-Passes used i (v ∷ rest) planned e =
      let go : Option String → Result Error (List Planned) = λ o. elim o [
        | none ↦ plan_views split_url token connected placings used (suc i) rest
        | some output ↦ plan_view split_url token i output v >>= λ shown.
            plan_views split_url token connected placings (output ∷ used) (suc i) rest >>= λ others.
            ok (shown ∷ others)
      ] in
      elim (Option-cases (usable connected used (placing_of i placings))) [
        | inl h ↦
            skips used i v rest planned h
              (plan_views-Passes used (suc i) rest planned (subst (λ o. go o ≡ ok planned) h e))
        | inr (s, h) ↦
            let (p, read, next) =
              bind-ok (plan_view split_url token i s v)
                (λ shown.
                  plan_views split_url token connected placings (s ∷ used) (suc i) rest
                  >>= λ others. ok (shown ∷ others))
                (subst (λ o. go o ≡ ok planned) h e) in
            let (others, later, same) =
              bind-ok (plan_views split_url token connected placings (s ∷ used) (suc i) rest)
                (λ others. ok (p ∷ others)) next in
            let (index, output, shown) = plan_view-IsShown split_url token i s v p read in
            subst (Passes used i (v ∷ rest)) (ok-injective same) (
              shows used i v rest s p others h index output shown
                (plan_views-Passes (s ∷ used) (suc i) rest others later))
      ]

pub plan-Passes :
    (split_url : String → Option Url) (sha256 : List ℕ → String) (config : Config)
    (outputs : List Output) (token : String) (planned : List Planned)
    → plan split_url sha256 config outputs token ≡ ok planned
    → (length (saved_views config) ≤ 2)
      × Passes split_url token
          (connected_names outputs)
          (assigned_outputs
            (saved_views config)
            (connected_names outputs)
            (identities sha256 outputs))
          []
          0
          (saved_views config)
          planned
unfolding plan
plan-Passes split_url sha256 config outputs token planned e =
    let views = saved_views config in
    let connected = connected_names outputs in
    let placings = assigned_outputs views connected (identities sha256 outputs) in
    let (few, made) =
      then-ok (guard (between 1 2 (length views)) bad_views)
        (plan_views split_url token connected placings [] 0 views) e in
    let (some_view, most) = and_true (guard-ok (between 1 2 (length views)) bad_views few) in
    (
      leb→le (length views) 2 most,
      plan_views-Passes split_url token connected placings [] 0 views planned made,
    )
