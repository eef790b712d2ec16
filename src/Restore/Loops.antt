-- ===== src/Restore/Loops.antt =====
-- The loops over the targets, from what the bodies do at one target.
use mindflayer_elderbrain.Base.{
  ℕ, ◌+◌, ◌*◌, ◌≤◌, ◌≡◌, ◌≢◌, refl, sym, ◌∙◌, Bool, Option, List, [], ◌∷◌, inl, inr, String, str_eq,
  eq_iff, arith, Bool-cases, length, In, here, there, In-cases,
}
use mathlib.Core.Path.{subst}
use mindflayer_elderbrain.Durable.{
  Machine, Action, done, for_each, proceed_done, proceed_keeps, proceed_ends,
}
use mindflayer_elderbrain.Restore.Slot.{Error, Tree, Slot, exists, rollback_one}
use mindflayer_elderbrain.Restore.Phases.{
  Phase, IsHome, rollback_one-Phase, rollback_one_total, rollback_one_ends, rollback_one_home,
}
use mindflayer_elderbrain.Restore.Transaction.{Disk, at_target}

-- What holds at every target, and at `k` after an action on `k`, holds at every target then.
pub at_target-every :
    (P : String → Slot → Type 0) (k : String) (a : Action Error Slot (Unit {0})) (m : Machine Disk)
    → ((j : String) → P j (m.disk.slots j))
    → P k (a (record { disk = m.disk.slots k; power = m.power })).1.disk
    → (j : String) → P j ((at_target k a m).1.disk.slots j)
unfolding at_target
at_target-every P k a m every new j = elim (Bool-cases (str_eq j k)) [
  | inl same ↦ rw same (
      subst (λ i. P i (a (record { disk = m.disk.slots k; power = m.power })).1.disk)
        (sym ((eq_iff j k).0 same)) new)
  | inr other ↦ rw other (every j)
]

pub at_target_self :
    (k : String) (a : Action Error Slot (Unit {0})) (m : Machine Disk)
    → (at_target k a m).1.disk.slots k
      ≡ (a (record { disk = m.disk.slots k; power = m.power })).1.disk
unfolding at_target
at_target_self k a m = rw ((eq_iff k k).1 refl)

pub at_target-other :
    (k j : String) (a : Action Error Slot (Unit {0})) (m : Machine Disk)
    → j ≢ k
    → (at_target k a m).1.disk.slots j ≡ m.disk.slots j
unfolding at_target
at_target-other k j a m ne = ground (arith, eq_iff j k)

pub journal-at_target :
    (k : String) (a : Action Error Slot (Unit {0})) (m : Machine Disk)
    → (at_target k a m).1.disk.journal ≡ m.disk.journal
unfolding at_target
journal-at_target k a m = refl

-- No loop over the targets writes the journal.
pub journal-for_each :
    (ks : List String) (body : String → Action Error Slot (Unit {0})) (m : Machine Disk)
    → (for_each ks (λ k. at_target k (body k)) m).1.disk.journal ≡ m.disk.journal
unfolding for_each
journal-for_each [] body m = refl
journal-for_each (k ∷ ks) body m =
    proceed_keeps (λ n. n.disk.journal ≡ m.disk.journal) (at_target k (body k) m) _
      (journal-at_target k (body k) m)
      (λ _ _ h. journal-for_each ks body (at_target k (body k) m).1 ∙ h)

module _ (o : String → Option Tree) (existed : String → Bool) where
  -- `existed` is what the journal says of the targets in the list.
  abbrev pub Agrees : List String → Type 0
  Agrees ks = (k : String) → In k ks → existed k ≡ exists (o k)

  abbrev pub Phases : Machine Disk → Type 0
  Phases m = (k : String) → Phase (o k) (m.disk.slots k)

  rollback_step-Phases :
      (k : String) (m : Machine Disk)
      → existed k ≡ exists (o k)
      → Phases m
      → Phases (at_target k (rollback_one (existed k)) m).1
  rollback_step-Phases k m agree h =
      at_target-every (λ j s. Phase (o j) s) k (rollback_one (existed k)) m h
        (rw agree (rollback_one-Phase (o k) (m.disk.slots k) m.power (h k)))

  -- Wherever the machine stops, a rollback loop leaves each target in one of the three phases.
  pub rollback_loop-Phases :
      (ks : List String) (m : Machine Disk)
      → Agrees ks
      → Phases m
      → Phases (for_each ks (λ k. at_target k (rollback_one (existed k))) m).1
  unfolding for_each
  rollback_loop-Phases [] m agree h = h
  rollback_loop-Phases (k ∷ ks) m agree h =
      proceed_keeps Phases (at_target k (rollback_one (existed k)) m) _
        (rollback_step-Phases k m (agree k (here k ks refl)) h)
        (λ _ _ h'. rollback_loop-Phases ks _ (λ j i. agree j (there k ks i)) h')

  abbrev pub AllHome : List String → Machine Disk → Type 0
  AllHome ks m = (k : String) → In k ks → IsHome (o k) (m.disk.slots k)

  -- Nothing that stood as before is moved.
  abbrev pub KeepsHome : Machine Disk → Machine Disk → Type 0
  KeepsHome m n = (j : String) → IsHome (o j) (m.disk.slots j) → IsHome (o j) (n.disk.slots j)

  rollback_step_home :
      (k : String) (m : Machine Disk)
      → existed k ≡ exists (o k)
      → KeepsHome m (at_target k (rollback_one (existed k)) m).1
  rollback_step_home k m agree =
      at_target-every (λ j s. IsHome (o j) (m.disk.slots j) → IsHome (o j) s) k
        (rollback_one (existed k)) m (λ j x. x)
        (λ h. rw (agree, rollback_one_home (o k) (m.disk.slots k) m.power h) h)

  rollback_step :
      (k : String) (m : Machine Disk)
      → existed k ≡ exists (o k)
      → Phases m
      → 2 ≤ m.power
      → let (r, n) = at_target k (rollback_one (existed k)) m in
        (r ≡ done tt) × (m.power ≤ n.power + 2) × IsHome (o k) (n.disk.slots k)
  unfolding at_target
  rollback_step k m agree h e =
      let d = rollback_one_total (o k) (m.disk.slots k) m.power (h k) e in
      rw (agree, (eq_iff k k).1 refl) (d.0, d.2, d.1)

  -- With power for two writes at each target, a rollback loop ends with every target as it stood.
  pub rollback_loop_done :
      (ks : List String) (m : Machine Disk) (q : ℕ)
      → Agrees ks
      → Phases m
      → 2 * length ks + q ≤ m.power
      → let (r, n) = for_each ks (λ k. at_target k (rollback_one (existed k))) m in
        (r ≡ done tt) × (q ≤ n.power) × AllHome ks n × KeepsHome m n
  unfolding for_each
  rollback_loop_done [] m q agree h e = (refl, omega arith, (λ k i. elim i [ ]), λ j x. x)
  rollback_loop_done (k ∷ ks) m q agree h e =
      let step = rollback_step k m (agree k (here k ks refl)) h (omega arith) in
      let rest =
        rollback_loop_done ks (at_target k (rollback_one (existed k)) m).1 q
          (λ j i. agree j (there k ks i)) (rollback_step-Phases k m (agree k (here k ks refl)) h)
          (omega (arith, step.1)) in
      rw (proceed_done (at_target k (rollback_one (existed k)) m) _ tt step.0) (
        rest.0,
        rest.1,
        (λ j i. In-cases j k ks i (λ e. rw e (rest.3 k step.2)) (rest.2 j)),
        (λ j x. rest.3 j (rollback_step_home k m (agree k (here k ks refl)) j x)),
      )

  rollback_step_ends :
      (k : String) (m : Machine Disk)
      → existed k ≡ exists (o k)
      → Phases m
      → (at_target k (rollback_one (existed k)) m).0 ≡ done tt
      → IsHome (o k) ((at_target k (rollback_one (existed k)) m).1.disk.slots k)
  unfolding at_target
  rollback_step_ends k m agree h e =
      rw (agree, (eq_iff k k).1 refl)
        (rollback_one_ends (o k) (m.disk.slots k) m.power (h k) (rw agree at e))

  rollback_loop_keeps :
      (ks : List String) (m : Machine Disk)
      → Agrees ks
      → KeepsHome m (for_each ks (λ k. at_target k (rollback_one (existed k))) m).1
  unfolding for_each
  rollback_loop_keeps [] m agree = λ j x. x
  rollback_loop_keeps (k ∷ ks) m agree =
      proceed_keeps (KeepsHome m) (at_target k (rollback_one (existed k)) m) _
        (rollback_step_home k m (agree k (here k ks refl)))
        (λ _ _ h j x. rollback_loop_keeps ks _ (λ j i. agree j (there k ks i)) j (h j x))

  -- A rollback loop that ended left every target as it stood.
  pub rollback_loop_ends :
      (ks : List String) (m : Machine Disk)
      → Agrees ks
      → Phases m
      → (for_each ks (λ k. at_target k (rollback_one (existed k))) m).0 ≡ done tt
      → AllHome ks (for_each ks (λ k. at_target k (rollback_one (existed k))) m).1
  unfolding for_each
  rollback_loop_ends [] m agree h e = λ k i. elim i [ ]
  rollback_loop_ends (k ∷ ks) m agree h e =
      let n = (at_target k (rollback_one (existed k)) m).1 in
      let ended = proceed_ends (at_target k (rollback_one (existed k)) m) _ tt e in
      let later = λ (j : String) (i : In j ks). agree j (there k ks i) in
      rw (proceed_done (at_target k (rollback_one (existed k)) m) _ tt ended.1) (λ j i.
        In-cases j k ks i
          (λ e. rw e (
            rollback_loop_keeps ks n later k
              (rollback_step_ends k m (agree k (here k ks refl)) h ended.1)))
          (rollback_loop_ends ks n later (rollback_step-Phases k m (agree k (here k ks refl)) h)
            ended.2 j))
