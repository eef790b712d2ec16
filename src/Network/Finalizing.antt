-- ===== src/Network/Finalizing.antt =====
-- `finalize` of network_transaction.py leaves an open change alone, and a change that was rolled back
-- as it was.
use mindflayer_elderbrain.Base.{
  ℕ, zero, suc, ◌≡◌, refl, sym, ap, ◌∙◌, Bool, true, false, not, ◌&&◌, Option, none, some, List, [],
  ◌∷◌, String, if◌then◌else◌,
}
use mathlib.Core.Path.{subst}
use mindflayer_elderbrain.Durable.{Machine, Outcome, done, pure, proceed_keeps, ◌>>◌}
use mindflayer_elderbrain.Network.Files.{Error, Directory}
use mindflayer_elderbrain.Network.Transaction.{
  rolled_back, is_terminal, State, World, save, activate, answer,
}
use mindflayer_elderbrain.Network.Operations.{mark, mark_owned, finish, finalize, same_change}
use mindflayer_elderbrain.Network.Revert.{IsClosed, IsGuarded, open_change, closed}
use mindflayer_elderbrain.Network.Interrupted.{Guards}

module _ (orig new : Directory) where
  -- The change was rolled back.
  abbrev pub IsShut : World → Type 0
  IsShut w = (s : State) × IsClosed orig new s w

  abbrev Shuts : {A : Type 0} → Outcome Error A × Machine World → Type 0
  Shuts x = IsShut x.1.disk

  save_mark :
      (c : State) (d : World) (power : ℕ)
      → c.phase ≡ rolled_back
      → ((n : String) → d.directory n ≡ orig n)
      → IsShut d
      → Shuts (save (record c { cleanup_complete = true }) (record { disk = d; power = power }))
  save_mark c d zero over back g = g
  save_mark c d (suc p) over back g =
      (record c { cleanup_complete = true }, record { state = refl; phase = over; intact = back })

  some_eq : {a b : State} → some a ≡ some b → a ≡ b
  some_eq {a} e = ap (λ o. elim o [ none ↦ a | some x ↦ x ]) e

  marked :
      (c : State) (m : Machine World) (test : Bool)
      → m.disk.state ≡ some c
      → IsShut m.disk
      → Shuts ((if test then save (record c { cleanup_complete = true }) else pure tt) m)
  marked c m false st g = g
  marked c m true st (r, o) =
      save_mark c m.disk m.power (ap (λ s. s.phase) (some_eq (sym st ∙ o.state)) ∙ o.phase) o.intact
        (r, o)

  mark_lem :
      (r : State) (o : Option State) (m : Machine World)
      → m.disk.state ≡ o
      → IsShut m.disk
      → Shuts (mark r o m)
  unfolding mark
  mark_lem r none m st g = g
  mark_lem r (some c) m st g = marked c m (same_change c r) st g

  mark_owned_lem :
      (r : State) (owner : Option String) (m : Machine World)
      → IsShut m.disk
      → Shuts (mark_owned r owner m)
  unfolding mark_owned
  mark_owned_lem r none m g = g
  mark_owned_lem r (some owner) m g = mark_lem r m.disk.state m refl g

  replied : (w : World) (l : List Bool) → IsShut w → IsShut (record w { replies = l })
  replied w l (s, h) = (s, record { state = h.state; phase = h.phase; intact = h.intact })

  answer_shut : (m : Machine World) (l : List Bool) → IsShut m.disk → Shuts (answer l m)
  answer_shut m [] g = g
  answer_shut m (false ∷ l) g = replied m.disk l g
  answer_shut m (true ∷ l) g = replied m.disk l g

  cleaned :
      (r : State) (m : Machine World) (test : Bool)
      → IsShut m.disk
      → Shuts ((if test then (activate >> mark_owned r r.restore_owner) else pure tt) m)
  unfolding activate
  cleaned r m false g = g
  cleaned r m true g =
      proceed_keeps (λ n. IsShut n.disk) (answer m.disk.replies m) _
        (answer_shut m m.disk.replies g) (λ _ _ k. mark_owned_lem r r.restore_owner _ k)

  finish_lem :
      (hook : Bool) (o : Option State) (m : Machine World) → IsShut m.disk → Shuts (finish hook o m)
  unfolding finish
  finish_lem hook none m g = g
  finish_lem hook (some r) m g =
      cleaned r m (is_terminal r.phase && not r.cleanup_complete && hook) g

  pub finalize_shut : (hook : Bool) (m : Machine World) → IsShut m.disk → Shuts (finalize hook m)
  unfolding finalize
  finalize_shut hook m g = finish_lem hook m.disk.state m g

  finish_open :
      (hook : Bool) (r : State) (m : Machine World)
      → is_terminal r.phase ≡ false
      → finish hook (some r) m ≡ (done tt, m)
  unfolding finish
  finish_open hook r m h = rw h

  pub finalize_lem :
      (hook : Bool) (m : Machine World)
      → IsGuarded orig new m.disk
      → Guards orig new (finalize hook m)
  unfolding finalize
  finalize_lem hook m (open_change r h) =
      subst (λ o. Guards orig new (finish hook o m)) (sym h.state)
        (subst (λ x. Guards orig new x) (sym (finish_open hook r m h.unfinished)) (open_change r h))
  finalize_lem hook m (closed r h) = let (s, g) = finalize_shut hook m (r, h) in closed s g
