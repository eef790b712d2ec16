-- ===== src/Network/Events.antt =====
-- What may happen to the appliance while a change of its network waits for its confirmation: the timer's
-- `tick`, `recover_boot` at each boot, `cancel`, and `confirm` without proof of the new address
-- (appliance/lib/network_transaction.py), each with any clock, any answers of the callbacks, and a loss
-- of power after any durable write.
use mindflayer_elderbrain.Base.{
  ℕ, ◌+◌, ◌≤◌, ◌≡◌, refl, sym, Bool, true, false, none, some, List, [], ◌∷◌, String, length,
}
use mathlib.Core.Path.{subst}
use mindflayer_elderbrain.Durable.{
  Machine, Outcome, pure, proceed, proceed_done, proceed_keeps, ◌>>=◌, ◌>>◌,
}
use mindflayer_elderbrain.Network.Files.{Error, Directory}
use mindflayer_elderbrain.Network.Transaction.{
  rolled_back, State, World, Net, Verifiers, close, restore,
}
use mindflayer_elderbrain.Network.Operations.{
  tick_state, recover_from, recover_state, cancel_state, confirm_state, finalize, tick,
  recover_boot, confirm, cancel,
}
use mindflayer_elderbrain.Network.Revert.{IsOpen, IsGuarded, open_change, closed}
use mindflayer_elderbrain.Network.Guard.{restore_lem, guard_env}
use mindflayer_elderbrain.Network.Interrupted.{Guards}
use mindflayer_elderbrain.Network.Unconfirmed.{
  tick_state_lem, recover_state_lem, recover_over, cancel_state_lem, refused_lem,
}
use mindflayer_elderbrain.Network.Finalizing.{IsShut, finalize_lem, finalize_shut}

-- The circumstances of one event.
pub record Setting : Type 0 where
  pub power : ℕ
  pub now : ℕ
  pub monotonic : ℕ
  pub boot_id : String
  pub replies : List Bool

pub data Event : Type 0 where
  ticked : Bool → Verifiers → Event
  booted : Bool → Event
  cancelled : Bool → String → Event
  refused : Bool → Verifiers → String → String → Event

abbrev unproved : Verifiers → Verifiers
unproved v = record v { proof = λ _ _. false }

unfoldable pub happen : Event → Net (Unit {0})
happen (ticked hook v) = do s ← tick hook v; pure tt
happen (booted hook) = do s ← recover_boot hook; pure tt
happen (cancelled hook identifier) = do s ← cancel hook identifier; pure tt
happen (refused hook v identifier proof) = do
  s ← confirm hook (unproved v) identifier proof
  pure tt

abbrev pub begin : Setting → World → Machine World
begin t w = record {
  disk = record w {
    now = t.now;
    monotonic = t.monotonic;
    boot_id = t.boot_id;
    replies = t.replies;
  };
  power = t.power;
}

unfoldable pub history : List (Setting × Event) → World → World
unfolding happen
history [] w = w
history ((t, e) ∷ rest) w = history rest (happen e (begin t w)).1.disk

abbrev pub changes_left : World → ℕ
changes_left w = elim w.state [ none ↦ 0 | some s ↦ length s.files ]

module _ (orig new : Directory) where
  ended :
      {A B : Type 0} (hook : Bool) (x : Outcome Error A × Machine World) (b : A → B)
      → Guards orig new x
      → Guards orig new (proceed (proceed x (λ a. finalize hook >> pure a)) (λ a. pure (b a)))
  ended hook x b g =
      proceed_keeps (λ n. IsGuarded orig new n.disk) (proceed x (λ a. finalize hook >> pure a)) _
        (proceed_keeps (λ n. IsGuarded orig new n.disk) x _ g
          (λ a _ k.
            proceed_keeps (λ n. IsGuarded orig new n.disk) (finalize hook x.1) _
              (finalize_lem orig new hook x.1 k) (λ _ _ j. j)))
        (λ _ _ k. k)

  happen_lem :
      (e : Event) (m : Machine World) → IsGuarded orig new m.disk → Guards orig new (happen e m)
  unfolding happen tick recover_boot cancel confirm
  happen_lem (ticked hook v) m g =
      ended hook (tick_state v m) (λ _. tt) (tick_state_lem orig new v m g)
  happen_lem (booted hook) m g =
      ended hook (recover_state m) (λ _. tt) (recover_state_lem orig new m g)
  happen_lem (cancelled hook identifier) m g =
      ended hook (cancel_state identifier m) (λ _. tt) (cancel_state_lem orig new identifier m g)
  happen_lem (refused hook v identifier proof) m g =
      ended hook (confirm_state (unproved v) identifier proof m) (λ _. tt)
        (refused_lem orig new (unproved v) identifier proof m (λ _. refl) g)

  pub history_lem :
      (es : List (Setting × Event)) (w : World)
      → IsGuarded orig new w
      → IsGuarded orig new (history es w)
  unfolding history
  history_lem [] w g = g
  history_lem ((t, e) ∷ rest) w g =
      history_lem rest _
        (happen_lem e (begin t w) (guard_env orig new w t.now t.monotonic t.boot_id t.replies g))

  -- The change was rolled back.
  abbrev Settled : {A : Type 0} → Outcome Error A × Machine World → Type 0
  Settled x = IsShut orig new x.1.disk

  -- `_recover_boot` with time to finish ends the change.
  recovered_from :
      (r : State) (m : Machine World) (rest : List Bool)
      → IsOpen orig new r m.disk
      → m.disk.replies ≡ true ∷ rest
      → length r.files + 2 ≤ m.power
      → Settled (recover_from (some r) m)
  unfolding recover_from
  recovered_from r m rest h e big =
      let x = restore_lem orig new r m h in
      let finished = x.total rest e big in
      rw h.unfinished (
        subst Settled
          (sym (proceed_done (restore r m) (λ s. pure (some s)) (close rolled_back r) finished))
          (close rolled_back r, (x.ends (close rolled_back r) finished).1))

  recovered :
      (m : Machine World) (rest : List Bool)
      → IsGuarded orig new m.disk
      → m.disk.replies ≡ true ∷ rest
      → changes_left m.disk + 2 ≤ m.power
      → Settled (recover_state m)
  unfolding recover_state
  recovered m rest (open_change r h) e big =
      subst (λ o. Settled (recover_from o m)) (sym h.state)
        (recovered_from r m rest h e
          (subst (λ o. elim o [ none ↦ 0 | some s ↦ length s.files ] + 2 ≤ m.power) h.state big))
  recovered m rest (closed r h) e big =
      subst (λ o. Settled (recover_from o m)) (sym h.state)
        (subst Settled (sym (recover_over orig new r m h.phase)) (r, h))

  boot_from :
      {A : Type 0} (hook : Bool) (x : Outcome Error A × Machine World)
      → Settled x
      → IsShut orig new (proceed x (λ a. finalize hook >> pure a)).1.disk
  boot_from hook x shut =
      proceed_keeps (λ n. IsShut orig new n.disk) x (λ a. finalize hook >> pure a) shut
        (λ b _ k.
          proceed_keeps (λ n. IsShut orig new n.disk) (finalize hook x.1) _
            (finalize_shut orig new hook x.1 k) (λ _ _ j. j))

  -- A change that nobody confirms through the new address is rolled back. From a staged or an applied
  -- change, let any ticks, boots, cancels and confirmations without proof happen, with any clocks and
  -- answers of callbacks, each cut short at any durable write. Then a boot that has the power to write
  -- each of the record's files once and two records more, and whose `apply` returns, leaves the change
  -- rolled back and every file of the directory as it was before the change.
  pub unconfirmed_change_rolls_back :
      (r : State) (w : World) (es : List (Setting × Event)) (t : Setting) (rest : List Bool)
      (hook : Bool)
      → IsOpen orig new r w
      → t.replies ≡ true ∷ rest
      → changes_left (history es w) + 2 ≤ t.power
      → let end = (recover_boot hook (begin t (history es w))).1.disk in
        (s : State) × (end.state ≡ some s)
        × (s.phase ≡ rolled_back)
        × ((n : String) → end.directory n ≡ orig n)
  unfolding recover_boot
  unconfirmed_change_rolls_back r w es t rest hook h e big =
      let guard =
        guard_env orig new (history es w) t.now t.monotonic t.boot_id t.replies
          (history_lem es w (open_change r h)) in
      let (s, shut) =
        boot_from hook (recover_state (begin t (history es w)))
          (recovered (begin t (history es w)) rest guard e big) in
      (s, shut.state, shut.phase, shut.intact)
