-- ===== src/Network/Confirmed.antt =====
-- `_confirm` of network_transaction.py keeps a change only with proof of its new address, in time.
use mindflayer_elderbrain.Base.{
  ℕ, zero, suc, ◌≡◌, refl, sym, ap, ◌∙◌, Bool, true, false, ◌&&◌, Option, none, some, [], ◌∷◌, inl,
  inr, String, str_eq, eq_iff, if◌then◌else◌, In, In-cases, Bool-cases,
}
use mathlib.Core.Path.{subst}
use mindflayer_elderbrain.Durable.{
  Machine, done, pure, raise, require, for_each, proceed, proceed_ends, ◌>>◌,
}
use mindflayer_elderbrain.Network.Files.{
  Error, Saved, saved?, is_filename, opt_eq, no_pending, expired_confirmation, wrong_address,
  changed_sources,
}
use mindflayer_elderbrain.Network.Transaction.{
  Phase, staged, applying, pending, confirmed, rolled_back, rolling_back, Change, Files, State,
  World, Net, Verifiers, save, close, expired, found, read_file, restore,
}
use mindflayer_elderbrain.Network.Operations.{
  check_applied, is_pending, confirm_record, confirm_from, confirm_state,
}

-- The file `n` holds what the change `c` puts there.
abbrev pub IsApplied : World → String → Change → Type 0
IsApplied w n c = (s : Saved) × (saved? (w.directory n) ≡ some s) × (s.bytes ≡ c.after)

opt_eq_lem : (a b : Option String) → opt_eq a b ≡ true → a ≡ b
opt_eq_lem none none e = refl
opt_eq_lem (some a) (some b) e = ap some ((eq_iff a b).0 e)
opt_eq_lem none (some b) e = cc
opt_eq_lem (some a) none e = cc

and_parts : (a b : Bool) → (a && b) ≡ true → (a ≡ true) × (b ≡ true)
and_parts true b e = (refl, e)
and_parts false b e = cc

require_passes :
    {A : Type 0} (b : Bool) (e : Error) (rest : Net A) (m : Machine World) (a : A)
    → ((require b e >> rest) m).0 ≡ done a
    → (b ≡ true) × ((require b e >> rest) m ≡ rest m)
require_passes true e rest m a h = (refl, refl)
require_passes false e rest m a h = cc

in_time :
    {A : Type 0} (late : Bool) (r : State) (rest : Net A) (m : Machine World) (a : A)
    → (((if late then (restore r >> raise expired_confirmation) else pure tt) >> rest) m).0 ≡ done a
    → (late ≡ false)
      × (((if late then (restore r >> raise expired_confirmation) else pure tt) >> rest) m ≡ rest m)
in_time true r rest m a h =
    let (u, x, y) =
      proceed_ends ((restore r >> raise {A = Unit {0}} expired_confirmation) m) (λ _. rest) a h in
    let (s, z, k) =
      proceed_ends (restore r m) (λ _. raise {A = Unit {0}} expired_confirmation) u x in
    cc k
in_time false r rest m a h = (refl, refl)

found_file :
    (o : Option Saved) (m : Machine World) (c : Change) (u : Unit {0})
    → (proceed (found o m) (λ s. require (opt_eq s.bytes c.after) changed_sources)).0 ≡ done u
    → ((s : Saved) × (o ≡ some s) × (s.bytes ≡ c.after))
      × (proceed (found o m) (λ s. require (opt_eq s.bytes c.after) changed_sources) ≡ (done tt, m))
found_file none m c u h = cc
found_file (some s) m c u h = elim (Bool-cases (opt_eq s.bytes c.after)) [
  | inl same ↦ rw same ((s, refl, opt_eq_lem s.bytes c.after same), refl)
  | inr other ↦ cc (rw other at h)
]

check_applied_lem :
    (n : String) (c : Change) (m : Machine World) (u : Unit {0})
    → (check_applied (n, c) m).0 ≡ done u
    → IsApplied m.disk n c × (check_applied (n, c) m ≡ (done tt, m))
unfolding check_applied read_file
check_applied_lem n c m u h = elim (Bool-cases (is_filename n)) [
  | inl good ↦ rw good (found_file (saved? (m.disk.directory n)) m c u (rw good at h))
  | inr bad ↦ cc (rw bad at h)
]

applied_loop :
    (fs : Files) (m : Machine World) (u : Unit {0})
    → (for_each fs check_applied m).0 ≡ done u
    → ((n : String) (c : Change) → In (n, c) fs → IsApplied m.disk n c)
      × (for_each fs check_applied m ≡ (done tt, m))
unfolding for_each
applied_loop [] m u h = ((λ n c i. elim i [ ]), refl)
applied_loop ((n, c) ∷ fs) m u h =
    let (v, x, y) = proceed_ends (check_applied (n, c) m) (λ _. for_each fs check_applied) u h in
    let (fact, same) = check_applied_lem n c m v x in
    let whole = ap (λ z. proceed z (λ _. for_each fs check_applied)) same in
    let (facts, left) = applied_loop fs m u (sym (ap (λ z. z.0) whole) ∙ h) in
    (
      (λ j d i.
          In-cases (j, d) (n, c) fs i (λ e. subst (λ z. IsApplied m.disk z.0 z.1) (sym e) fact)
            (facts j d)),
      whole ∙ left,
    )

save_closed :
    (r : State) (d : World) (power : ℕ) (s : State)
    → ((save (close confirmed r) >> pure (close confirmed r))
        (record { disk = d; power = power })).0
      ≡ done s
    → (s ≡ close confirmed r)
      × (((save (close confirmed r) >> pure (close confirmed r))
            (record { disk = d; power = power })).1.disk
          ≡ record d { state = some (close confirmed r) })
save_closed r d zero s h = cc
save_closed r d (suc p) s h = (cc, refl)

pending_only : (p : Phase) → is_pending p ≡ true → p ≡ pending
pending_only pending e = refl
pending_only staged e = cc
pending_only applying e = cc
pending_only rolling_back e = cc
pending_only rolled_back e = cc
pending_only confirmed e = cc

-- What a confirmation that succeeds says of the record `r`, and what it leaves.
pub record IsConfirmed (v : Verifiers) (identifier proof : String) (r : State) (w : World)
    (s : State) (end : World) : Type 0 where
  pub recorded : w.state ≡ some r
  pub identity : r.identifier ≡ identifier
  pub phase : r.phase ≡ pending
  pub timely : expired w r ≡ false
  pub proved : v.proof proof r ≡ true
  pub applied : (n : String) (c : Change) → In (n, c) r.files → IsApplied w n c
  pub returned : s ≡ close confirmed r
  pub saved : end ≡ record w { state = some (close confirmed r) }

confirm_record_lem :
    (v : Verifiers) (identifier proof : String) (r : State) (m : Machine World) (s : State)
    → m.disk.state ≡ some r
    → (confirm_record v m.disk identifier proof r m).0 ≡ done s
    → IsConfirmed v identifier proof r m.disk s
        (confirm_record v m.disk identifier proof r m).1.disk
unfolding confirm_record
confirm_record_lem v identifier proof r m s st h =
    let (named, a) =
      require_passes (str_eq r.identifier identifier && is_pending r.phase) no_pending _ m s h in
    let (timely, b) = in_time (expired m.disk r) r _ m s (sym (ap (λ z. z.0) a) ∙ h) in
    let (proved, c) =
      require_passes (v.proof proof r) wrong_address _ m s (sym (ap (λ z. z.0) (a ∙ b)) ∙ h) in
    let ending = save (close confirmed r) >> pure (close confirmed r) in
    let (u, x, y) =
      proceed_ends (for_each r.files check_applied m) (λ _. ending) s
        (sym (ap (λ z. z.0) (a ∙ b ∙ c)) ∙ h) in
    let (applied, d) = applied_loop r.files m u x in
    let whole = a ∙ b ∙ c ∙ ap (λ z. proceed z (λ _. ending)) d in
    let (returned, saved) = save_closed r m.disk m.power s (sym (ap (λ z. z.0) whole) ∙ h) in
    record {
      recorded = st;
      identity = (eq_iff r.identifier identifier).0 ((and_parts _ _ named).0);
      phase = pending_only r.phase ((and_parts _ _ named).1);
      timely = timely;
      proved = proved;
      applied = applied;
      returned = returned;
      saved = ap (λ z. z.1.disk) whole ∙ saved;
    }

confirm_from_lem :
    (v : Verifiers) (identifier proof : String) (o : Option State) (m : Machine World) (s : State)
    → m.disk.state ≡ o
    → (confirm_from v m.disk identifier proof o m).0 ≡ done s
    → (r : State) × IsConfirmed v identifier proof r m.disk s
        (confirm_from v m.disk identifier proof o m).1.disk
unfolding confirm_from
confirm_from_lem v identifier proof none m s st h = cc
confirm_from_lem v identifier proof (some r) m s st h =
    (r, confirm_record_lem v identifier proof r m s st h)

-- A confirmation that returns found a pending record of that identity before its deadline, a verified
-- proof, and every file of the change still as the change wrote it. It closes that record as confirmed
-- and changes nothing else.
pub confirm_needs_proof :
    (v : Verifiers) (identifier proof : String) (m : Machine World) (s : State)
    → (confirm_state v identifier proof m).0 ≡ done s
    → (r : State) × IsConfirmed v identifier proof r m.disk s
        (confirm_state v identifier proof m).1.disk
unfolding confirm_state
confirm_needs_proof v identifier proof m s h =
    confirm_from_lem v identifier proof m.disk.state m s refl h
