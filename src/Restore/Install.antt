-- ===== src/Restore/Install.antt =====
-- The loops of `prepare` and `apply`, which go forward.
use mindflayer_elderbrain.Base.{
  ℕ, ◌+◌, ◌*◌, ◌≤◌, ◌≡◌, refl, sym, ◌∙◌, Bool, Option, some, List, [], ◌∷◌, String, eq_iff, arith,
  length, In, here, there, In-cases, Distinct,
}
use mathlib.Core.Path.{subst}
use mindflayer_elderbrain.Durable.{Machine, done, for_each, proceed_done, proceed_keeps}
use mindflayer_elderbrain.Restore.Slot.{Tree, Slot, exists, apply_one}
use mindflayer_elderbrain.Restore.Phases.{Phase, IsReady, apply_one_total, apply_one-Phase}
use mindflayer_elderbrain.Restore.Transaction.{Disk, at_target}
use mindflayer_elderbrain.Restore.Loops.{at_target-every, at_target-other, Agrees, Phases}

module _ (o : String → Option Tree) (existed : String → Bool) where
  abbrev pub AllReady : List String → Machine Disk → Type 0
  AllReady ks m = (k : String) → In k ks → IsReady (o k) (m.disk.slots k)

  apply_step-Phases :
      (k : String) (m : Machine Disk)
      → existed k ≡ exists (o k)
      → IsReady (o k) (m.disk.slots k)
      → Phases o existed m
      → Phases o existed (at_target k (apply_one (existed k)) m).1
  apply_step-Phases k m agree r h =
      at_target-every (λ j s. Phase (o j) s) k (apply_one (existed k)) m h
        (rw agree (apply_one-Phase (o k) (m.disk.slots k) m.power r))

  others_ready :
      (k : String) (ks : List String) (m : Machine Disk)
      → ¬ In k ks
      → AllReady ks m
      → AllReady ks (at_target k (apply_one (existed k)) m).1
  others_ready k ks m fresh r j i =
      rw (at_target-other k j (apply_one (existed k)) m (λ e. fresh (subst (λ x. In x ks) e i)))
        (r j i)

  -- Wherever the machine stops, an `apply` loop over ready targets leaves each in one of the phases.
  pub apply_loop-Phases :
      (ks : List String) (m : Machine Disk)
      → Distinct ks
      → Agrees o existed ks
      → AllReady ks m
      → Phases o existed m
      → Phases o existed (for_each ks (λ k. at_target k (apply_one (existed k))) m).1
  unfolding for_each
  apply_loop-Phases [] m dis agree r h = h
  apply_loop-Phases (k ∷ ks) m dis agree r h =
      proceed_keeps (Phases o existed) (at_target k (apply_one (existed k)) m) _
        (apply_step-Phases k m (agree k (here k ks refl)) (r k (here k ks refl)) h)
        (λ _ _ h'.
          apply_loop-Phases ks _ dis.1 (λ j i. agree j (there k ks i))
            (others_ready k ks m dis.0 (λ j i. r j (there k ks i))) h')

  module _ (new : String → Tree) where
    abbrev pub Waiting : List String → Machine Disk → Type 0
    Waiting ks m = (k : String) → In k ks → (m.disk.slots k).incoming ≡ some (new k)

    -- The new tree is live, and what stood there is kept aside.
    pub record IsInstalled (k : String) (s : Slot) : Type 0 where
      pub target : s.target ≡ some (new k)
      pub previous : s.previous ≡ o k

    abbrev pub AllInstalled : List String → Machine Disk → Type 0
    AllInstalled ks m = (k : String) → In k ks → IsInstalled k (m.disk.slots k)

    apply_step :
        (k : String) (m : Machine Disk)
        → existed k ≡ exists (o k)
        → IsReady (o k) (m.disk.slots k)
        → (m.disk.slots k).incoming ≡ some (new k)
        → 2 ≤ m.power
        → let (r, n) = at_target k (apply_one (existed k)) m in
          (r ≡ done tt) × (m.power ≤ n.power + 2) × IsInstalled k (n.disk.slots k)
    unfolding at_target
    apply_step k m agree r w e =
        let d = apply_one_total (o k) (new k) (m.disk.slots k) m.power r w e in
        rw (agree, (eq_iff k k).1 refl) (d.0, d.3, record { target = d.1; previous = d.2 })

    apply_loop_other :
        (ks : List String) (j : String) (m : Machine Disk)
        → ¬ In j ks
        → (for_each ks (λ k. at_target k (apply_one (existed k))) m).1.disk.slots j ≡ m.disk.slots j
    unfolding for_each
    apply_loop_other [] j m out = refl
    apply_loop_other (k ∷ ks) j m out =
        let step = at_target-other k j (apply_one (existed k)) m (λ e. out (here k ks e)) in
        proceed_keeps (λ n. n.disk.slots j ≡ m.disk.slots j) (at_target k (apply_one (existed k)) m)
          _ step (λ _ _ h. apply_loop_other ks j _ (λ i. out (there k ks i)) ∙ h)

    -- With power for two writes at each target, an `apply` loop installs every target.
    pub apply_loop_done :
        (ks : List String) (m : Machine Disk) (q : ℕ)
        → Distinct ks
        → Agrees o existed ks
        → AllReady ks m
        → Waiting ks m
        → 2 * length ks + q ≤ m.power
        → let (r, n) = for_each ks (λ k. at_target k (apply_one (existed k))) m in
          (r ≡ done tt) × (q ≤ n.power) × AllInstalled ks n
    unfolding for_each
    apply_loop_done [] m q dis agree r w e = (refl, omega arith, λ k i. elim i [ ])
    apply_loop_done (k ∷ ks) m q dis agree r w e =
        let step =
          apply_step k m (agree k (here k ks refl)) (r k (here k ks refl)) (w k (here k ks refl))
            (omega arith) in
        let n = (at_target k (apply_one (existed k)) m).1 in
        let rest =
          apply_loop_done ks n q dis.1 (λ j i. agree j (there k ks i))
            (others_ready k ks m dis.0 (λ j i. r j (there k ks i)))
            (λ j i.
              rw
                (at_target-other k j (apply_one (existed k)) m
                  (λ e. dis.0 (subst (λ x. In x ks) e i)))
                (w j (there k ks i)))
            (omega (arith, step.1)) in
        rw (proceed_done (at_target k (apply_one (existed k)) m) _ tt step.0) (
          rest.0,
          rest.1,
          λ j i.
              In-cases j k ks i
                (λ e.
                  subst
                    (λ x.
                      IsInstalled x
                        ((for_each ks (λ k. at_target k (apply_one (existed k))) n).1.disk.slots x))
                    (sym e) (rw (apply_loop_other ks k n dis.0) step.2))
                (rest.2 j),
        )
