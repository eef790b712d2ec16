-- ===== src/Network/Unconfirmed.antt =====
-- `_tick`, `_recover_boot` and `_cancel` of network_transaction.py keep a change that waits for its
-- confirmation guarded, wherever a reboot cuts them short.
use mindflayer_elderbrain.Base.{
  ℕ, zero, suc, ◌≡◌, ◌≢◌, refl, sym, true, false, not, ◌&&◌, inl, inr, none, some, String, str_eq,
  Bool-cases,
}
use mathlib.Core.Path.{subst}
use mindflayer_elderbrain.Durable.{
  Machine, Outcome, done, raised, halted, pure, raise, for_each, proceed, proceed_ends,
  proceed_keeps, require_keeps, ◌>>◌,
}
use mindflayer_elderbrain.Network.Files.{
  Error, Directory, hierarchy_changed, no_matching, no_pending, expired_confirmation,
}
use mindflayer_elderbrain.Network.Transaction.{
  Phase, staged, applying, pending, confirmed, rolled_back, rolling_back, is_terminal, State, World,
  Net, Verifiers, save, expired, restore,
}
use mindflayer_elderbrain.Network.Operations.{
  recover, check_sources, check_unchanged, apply_new, apply_guarded, apply_staged, tick_phase,
  tick_from, tick_state, recover_from, recover_state, cancel_from, cancel_state, is_pending,
  confirm_record, confirm_from, confirm_state,
}
use mindflayer_elderbrain.Network.Revert.{IsHeld, IsPlan, IsOpen, IsGuarded, open_change, closed}
use mindflayer_elderbrain.Network.Guard.{restore_lem}
use mindflayer_elderbrain.Network.Interrupted.{
  Guards, restore-raise, IsCheck, guarded_test, unchanged_loop, apply_new_lem,
}

module _ (orig new : Directory) where
  opened :
      (phase : Phase) (r : State) (w : World)
      → phase ≢ staged
      → is_terminal phase ≡ false
      → IsPlan orig new r
      → w.state ≡ some (record r { phase = phase })
      → IsHeld orig new w.directory
      → IsOpen orig new (record r { phase = phase }) w
  opened phase r w other going plan st held = record {
    plan = record { changes = plan.changes; covers = plan.covers };
    state = st;
    held = held;
    staged_intact = λ e. absurd (other e);
    unfinished = going;
  }

  save_pending :
      (r : State) (d : World) (power : ℕ)
      → IsPlan orig new r
      → d.state ≡ some (record r { phase = applying })
      → IsHeld orig new d.directory
      → Guards orig new (
          (save (record r { phase = pending }) >> pure (record r { phase = pending }))
            (record { disk = d; power = power }))
  save_pending r d zero plan st held =
      open_change (record r { phase = applying }) (opened applying r d (λ e. cc) refl plan st held)
  save_pending r d (suc p) plan st held =
      open_change (record r { phase = pending }) (opened pending r _ (λ e. cc) refl plan refl held)

  caught :
      (r : State) (x : Outcome Error (Unit {0}) × Machine World)
      → IsPlan orig new r
      → x.1.disk.state ≡ some (record r { phase = applying })
      → IsHeld orig new x.1.disk.directory
      → Guards orig new (
          proceed
            (recover x (λ e. restore (record r { phase = applying }) >> raise e))
            (λ _. save (record r { phase = pending }) >> pure (record r { phase = pending })))
  caught r (done u, m) plan st held = save_pending r m.disk m.power plan st held
  caught r (halted, m) plan st held =
      open_change (record r { phase = applying })
        (opened applying r m.disk (λ e. cc) refl plan st held)
  caught r (raised e, m) plan st held =
      proceed_keeps (λ n. IsGuarded orig new n.disk)
        ((restore (record r { phase = applying }) >> raise e) m) _
        (restore-raise orig new (Unit {0}) e (record r { phase = applying }) m
          (opened applying r m.disk (λ e. cc) refl plan st held))
        (λ a e' g.
          let (s, x, y) =
            proceed_ends (restore (record r { phase = applying }) m) (λ _. raise e) a e' in
          cc y)

  apply_guarded_at :
      (r : State) (d : World) (power : ℕ)
      → IsOpen orig new r d
      → Guards orig new (apply_guarded r (record { disk = d; power = power }))
  unfolding apply_guarded
  apply_guarded_at r d zero h = open_change r h
  apply_guarded_at r d (suc p) h =
      let m : Machine World = record {
        disk = record d { state = some (record r { phase = applying }) };
        power = p;
      } in
      let (st, held) =
        apply_new_lem orig new r m (some (record r { phase = applying })) h.plan refl h.held in
      caught r (apply_new r m) h.plan st held

  check_sources_lem :
      (v : Verifiers) (r : State) (m : Machine World)
      → IsOpen orig new r m.disk
      → IsCheck orig new m (check_sources v r m)
  unfolding check_sources
  check_sources_lem v r m h =
      guarded_test orig new (elim r.fingerprint [ none ↦ true | some f ↦ v.sources f ])
        hierarchy_changed r m h

  then-Guards :
      (A : Type 0) (m : Machine World) (x : Outcome Error (Unit {0}) × Machine World) (rest : Net A)
      → IsCheck orig new m x
      → Guards orig new (rest m)
      → Guards orig new (proceed x (λ _. rest))
  then-Guards A m (done a, n) rest h g = rw (h.same a refl) g
  then-Guards A m (raised b, n) rest h g = h.guarded
  then-Guards A m (halted, n) rest h g = h.guarded

  apply_staged_lem :
      (v : Verifiers) (r : State) (m : Machine World)
      → IsOpen orig new r m.disk
      → Guards orig new (apply_staged v r m)
  unfolding apply_staged
  apply_staged_lem v r m h =
      then-Guards State m (check_sources v r m) _ (check_sources_lem v r m h) (
        then-Guards State m (for_each r.files (check_unchanged r) m) _
          (unchanged_loop orig new r r.files m h) (apply_guarded_at r m.disk m.power h))

  tick_phase_lem :
      (v : Verifiers) (w : World) (p : Phase) (r : State) (m : Machine World)
      → IsOpen orig new r m.disk
      → Guards orig new (tick_phase v w p r m)
  unfolding tick_phase
  tick_phase_lem v w confirmed r m h = open_change r h
  tick_phase_lem v w rolled_back r m h = open_change r h
  tick_phase_lem v w applying r m h = (restore_lem orig new r m h).guarded
  tick_phase_lem v w rolling_back r m h = (restore_lem orig new r m h).guarded
  tick_phase_lem v w staged r m h = elim (Bool-cases (expired w r)) [
    | inl late ↦ rw late (restore_lem orig new r m h).guarded
    | inr soon ↦ rw soon (apply_staged_lem v r m h)
  ]
  tick_phase_lem v w pending r m h = elim (Bool-cases (expired w r)) [
    | inl late ↦ rw late (restore_lem orig new r m h).guarded
    | inr soon ↦ rw soon (open_change r h)
  ]

  tick_from_lem :
      (v : Verifiers) (w : World) (m : Machine World) (r : State)
      → Guards orig new (tick_phase v w r.phase r m)
      → Guards orig new (tick_from v w (some r) m)
  unfolding tick_from
  tick_from_lem v w m r h =
      proceed_keeps (λ n. IsGuarded orig new n.disk) (tick_phase v w r.phase r m) _ h (λ _ _ g. g)

  still_shut :
      (v : Verifiers) (w : World) (r : State) (m : Machine World)
      → r.phase ≡ rolled_back
      → (tick_phase v w r.phase r m).1 ≡ m
  unfolding tick_phase
  still_shut v w r m h = rw h

  pub tick_state_lem :
      (v : Verifiers) (m : Machine World)
      → IsGuarded orig new m.disk
      → Guards orig new (tick_state v m)
  unfolding tick_state
  tick_state_lem v m (open_change r h) =
      subst (λ o. Guards orig new (tick_from v m.disk o m)) (sym h.state)
        (tick_from_lem v m.disk m r (tick_phase_lem v m.disk r.phase r m h))
  tick_state_lem v m (closed r h) =
      subst (λ o. Guards orig new (tick_from v m.disk o m)) (sym h.state)
        (tick_from_lem v m.disk m r (
          subst (λ k. IsGuarded orig new k.disk) (sym (still_shut v m.disk r m h.phase))
            (closed r h)))

  recover_from_lem :
      (r : State) (m : Machine World)
      → Guards orig new (restore r m)
      → IsGuarded orig new m.disk
      → Guards orig new (recover_from (some r) m)
  unfolding recover_from
  recover_from_lem r m h g = elim (Bool-cases (is_terminal r.phase)) [
    | inl over ↦ rw over g
    | inr going ↦
        rw going (proceed_keeps (λ n. IsGuarded orig new n.disk) (restore r m) _ h (λ _ _ k. k))
  ]

  pub recover_over :
      (r : State) (m : Machine World)
      → r.phase ≡ rolled_back
      → recover_from (some r) m ≡ (done (some r), m)
  unfolding recover_from
  recover_over r m h = rw h

  pub recover_state_lem :
      (m : Machine World) → IsGuarded orig new m.disk → Guards orig new (recover_state m)
  unfolding recover_state
  recover_state_lem m (open_change r h) =
      subst (λ o. Guards orig new (recover_from o m)) (sym h.state)
        (recover_from_lem r m (restore_lem orig new r m h).guarded (open_change r h))
  recover_state_lem m (closed r h) =
      subst (λ o. Guards orig new (recover_from o m)) (sym h.state)
        (subst (λ x. Guards orig new x) (sym (recover_over r m h.phase)) (closed r h))

  cancel_over :
      (identifier : String) (r : State) (m : Machine World)
      → r.phase ≡ rolled_back
      → cancel_from identifier (some r) m ≡ (raised no_matching, m)
  unfolding cancel_from
  cancel_over identifier r m h = elim (Bool-cases (str_eq r.identifier identifier)) [
    | inl same ↦ rw (h, same)
    | inr other ↦ rw (h, other)
  ]

  cancel_from_lem :
      (identifier : String) (r : State) (m : Machine World)
      → IsOpen orig new r m.disk
      → Guards orig new (cancel_from identifier (some r) m)
  unfolding cancel_from
  cancel_from_lem identifier r m h =
      require_keeps (λ n. IsGuarded orig new n.disk)
        (str_eq r.identifier identifier && not (is_terminal r.phase)) no_matching (restore r) m
        (open_change r h) (restore_lem orig new r m h).guarded

  pub cancel_state_lem :
      (identifier : String) (m : Machine World)
      → IsGuarded orig new m.disk
      → Guards orig new (cancel_state identifier m)
  unfolding cancel_state
  cancel_state_lem identifier m (open_change r h) =
      subst (λ o. Guards orig new (cancel_from identifier o m)) (sym h.state)
        (cancel_from_lem identifier r m h)
  cancel_state_lem identifier m (closed r h) =
      subst (λ o. Guards orig new (cancel_from identifier o m)) (sym h.state)
        (subst (λ x. Guards orig new x) (sym (cancel_over identifier r m h.phase)) (closed r h))

  confirm_over :
      (v : Verifiers) (w : World) (identifier proof : String) (r : State) (m : Machine World)
      → r.phase ≡ rolled_back
      → confirm_record v w identifier proof r m ≡ (raised no_pending, m)
  unfolding confirm_record
  confirm_over v w identifier proof r m h = elim (Bool-cases (str_eq r.identifier identifier)) [
    | inl same ↦ rw (h, same)
    | inr other ↦ rw (h, other)
  ]

  refused_from :
      (v : Verifiers) (w : World) (identifier proof : String) (r : State) (m : Machine World)
      → v.proof proof r ≡ false
      → IsOpen orig new r m.disk
      → Guards orig new (confirm_record v w identifier proof r m)
  unfolding confirm_record
  refused_from v w identifier proof r m no_proof h =
      require_keeps (λ n. IsGuarded orig new n.disk)
        (str_eq r.identifier identifier && is_pending r.phase) no_pending _ m (open_change r h)
        (elim (Bool-cases (expired w r)) [
          | inl late ↦ rw late (
              proceed_keeps (λ n. IsGuarded orig new n.disk)
                ((restore r >> raise {A = Unit {0}} expired_confirmation) m) _
                (restore-raise orig new (Unit {0}) expired_confirmation r m h)
                (λ a e g.
                  let (s, x, y) =
                    proceed_ends (restore r m) (λ _. raise expired_confirmation) a e in
                  cc y))
          | inr soon ↦ rw (soon, no_proof) (open_change r h)
        ])

  -- A confirmation without proof of the new address.
  pub refused_lem :
      (v : Verifiers) (identifier proof : String) (m : Machine World)
      → ((r : State) → v.proof proof r ≡ false)
      → IsGuarded orig new m.disk
      → Guards orig new (confirm_state v identifier proof m)
  unfolding confirm_state confirm_from
  refused_lem v identifier proof m no_proof (open_change r h) =
      subst (λ o. Guards orig new (confirm_from v m.disk identifier proof o m)) (sym h.state)
        (refused_from v m.disk identifier proof r m (no_proof r) h)
  refused_lem v identifier proof m no_proof (closed r h) =
      subst (λ o. Guards orig new (confirm_from v m.disk identifier proof o m)) (sym h.state)
        (subst (λ x. Guards orig new x) (sym (confirm_over v m.disk identifier proof r m h.phase))
          (closed r h))
