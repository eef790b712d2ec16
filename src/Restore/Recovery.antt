-- ===== src/Restore/Recovery.antt =====
-- A restore that a stopped machine cuts short anywhere can be rolled back: the theorems on
-- `prepare`, `apply` and `rollback` of restore_transaction.py as whole operations.
use mindflayer_elderbrain.Base.{
  ℕ, zero, suc, ◌+◌, ◌*◌, ◌≤◌, ◌≡◌, ◌≢◌, refl, ap, ◌∙◌, Option, some, List, [], ◌∷◌, ◌++◌, ◌⊎◌, inl,
  inr, String, arith, length, In, here, there, In-cases, Distinct,
}
use mindflayer_elderbrain.Durable.{
  Machine, Outcome, done, pure, require, for_each, proceed, proceed_done, proceed_keeps, ◌>>◌,
}
use mindflayer_elderbrain.Restore.Slot.{Error, not_ready, Tree, rollback_one, apply_one}
use mindflayer_elderbrain.Restore.Phases.{Phase, IsReady, IsHome}
use mindflayer_elderbrain.Restore.Transaction.{
  Disk, Entry, State, Transaction, at_target, names, read, existed_at, save, reversed, install,
  apply, undo, rollback_from, rollback, is_state,
}
use mindflayer_elderbrain.Restore.Loops.{
  rollback_loop-Phases, rollback_loop_done, rollback_loop_ends, journal-for_each,
}
use mindflayer_elderbrain.Restore.Install.{apply_loop-Phases}
use mindflayer_elderbrain.Restore.Copying.{IsEntry}

module _ (t : Transaction) (o : String → Option Tree) (r : Entry) where
  -- A disk from which the trees `o` can be restored.
  pub record IsRecoverable (d : Disk) : Type 0 where
    pub state : State
    pub journal : d.journal ≡ some (record r { state = state })
    pub phases : (k : String) → Phase (o k) (d.slots k)
    pub waiting :
        state ≡ State.ready → (k : String) → In k (names t.targets) → IsReady (o k) (d.slots k)
    pub restored :
        state ≡ State.rolled_back → (k : String) → In k (names t.targets) → IsHome (o k) (d.slots k)
    pub open_ended : state ≢ State.committed

  -- A valid journal is read back.
  pub read_recoverable :
      (m : Machine Disk) (e : IsEntry t o r) (s : State)
      → m.disk.journal ≡ some (record r { state = s })
      → read t m ≡ (done (record r { state = s }), m)
  unfolding read
  read_recoverable m e s j = rw (j, e.valid s)

  abbrev at_state : State → Entry
  at_state s = record r { state = s }

  -- A state that asks nothing more of the targets.
  pub midway :
      (d : Disk) (s : State)
      → (s ≡ State.rolling_back)
        ⊎ (s ≡ State.installing)
        ⊎ (s ≡ State.installed)
        ⊎ (s ≡ State.preparing)
      → d.journal ≡ some (at_state s)
      → ((k : String) → Phase (o k) (d.slots k))
      → IsRecoverable d
  midway d s w j h = record {
    state = s;
    journal = j;
    phases = h;
    waiting = λ e. ground arith;
    restored = λ e. ground arith;
    open_ended = λ e. ground arith;
  }

  undo_tail : Entry → Machine Disk → Outcome Error Entry × Machine Disk
  undo_tail e = save e State.rolled_back >> pure (record e { state = State.rolled_back })

  undo_tail-IsRecoverable :
      (e : Entry) (d : Disk) (p : ℕ)
      → record e { state = State.rolled_back } ≡ at_state State.rolled_back
      → IsRecoverable d
      → ((k : String) → In k (names t.targets) → IsHome (o k) (d.slots k))
      → IsRecoverable (undo_tail e (record { disk = d; power = p })).1.disk
  unfolding undo_tail
  undo_tail-IsRecoverable e d zero same h all = h
  undo_tail-IsRecoverable e d (suc p) same h all = record {
    state = State.rolled_back;
    journal = ap some same;
    phases = h.phases;
    waiting = λ e. cc;
    restored = λ e. all;
    open_ended = λ e. cc;
  }

  undo_tail_done :
      (e : Entry) (d : Disk) (p : ℕ)
      → 1 ≤ p
      → ((k : String) → In k (names t.targets) → IsHome (o k) (d.slots k))
      → let (x, n) = undo_tail e (record { disk = d; power = p }) in
        (x ≡ done (record e { state = State.rolled_back }))
        × ((k : String) → In k (names t.targets) → IsHome (o k) (n.disk.slots k))
  unfolding undo_tail
  undo_tail_done e d zero big all = absurd (omega arith)
  undo_tail_done e d (suc p) big all = (refl, all)

  apply_tail : Entry → Machine Disk → Outcome Error Entry × Machine Disk
  apply_tail e = save e State.installed >> pure (record e { state = State.installed })

  apply_tail-IsRecoverable :
      (e : Entry) (d : Disk) (p : ℕ)
      → record e { state = State.installed } ≡ at_state State.installed
      → IsRecoverable d
      → IsRecoverable (apply_tail e (record { disk = d; power = p })).1.disk
  unfolding apply_tail
  apply_tail-IsRecoverable e d zero same h = h
  apply_tail-IsRecoverable e d (suc p) same h =
      midway (record d { journal = some (record e { state = State.installed }) }) State.installed
        (inr (inr (inl refl))) (ap some same) h.phases

In-append : (k : String) (xs ys : List String) → In k ys → In k (xs ++ ys)
In-append k [] ys i = i
In-append k (x ∷ xs) ys i = there x (xs ++ ys) (In-append k xs ys i)

In-append_left : (k : String) (xs ys : List String) → In k xs → In k (xs ++ ys)
In-append_left k [] ys i = elim i [ ]
In-append_left k (x ∷ xs) ys (here _ _ e) = here x (xs ++ ys) e
In-append_left k (x ∷ xs) ys (there _ _ i) = there x (xs ++ ys) (In-append_left k xs ys i)

In-reversed : (k : String) (ks : List String) → In k ks → In k (reversed ks)
In-reversed k [] i = elim i [ ]
In-reversed k (x ∷ ks) (here _ _ e) = In-append k (reversed ks) (x ∷ []) (here x [] e)
In-reversed k (x ∷ ks) (there _ _ i) = In-append_left k (reversed ks) (x ∷ []) (In-reversed k ks i)

In-append-cases : (k x : String) (xs : List String) → In k (xs ++ (x ∷ [])) → In k (x ∷ xs)
In-append-cases k x [] i = i
In-append-cases k x (y ∷ xs) (here _ _ e) = there x (y ∷ xs) (here y xs e)
In-append-cases k x (y ∷ xs) (there _ _ i) =
    In-cases k x xs (In-append-cases k x xs i) (λ e. here x (y ∷ xs) e)
      (λ j. there x (y ∷ xs) (there y xs j))

reversed-In : (k : String) (ks : List String) → In k (reversed ks) → In k ks
reversed-In k [] i = elim i [ ]
reversed-In k (x ∷ ks) i =
    In-cases k x (reversed ks) (In-append-cases k x (reversed ks) i) (λ e. here x ks e)
      (λ j. there x ks (reversed-In k ks j))

length-append_one {ℓ} :
    {A : Type ℓ} (xs : List A) (x : A) → length (xs ++ (x ∷ [])) ≡ suc (length xs)
length-append_one [] x = refl
length-append_one (y ∷ xs) x = ap suc (length-append_one xs x)

length-reversed {ℓ} : {A : Type ℓ} (xs : List A) → length (reversed xs) ≡ length xs
length-reversed [] = refl
length-reversed (x ∷ xs) = length-append_one (reversed xs) x ∙ ap suc (length-reversed xs)

module _ {t : Transaction} {o : String → Option Tree} {r : Entry} where
  undo_lem :
      (d : Disk) (p : ℕ) (s : State)
      → IsEntry t o r
      → IsRecoverable t o r d
      → IsRecoverable t o r
          (undo t (record r { state = s }) (record { disk = d; power = p })).1.disk
  unfolding undo
  undo_lem d zero s e h = h
  undo_lem d (suc p) s e h =
      let ks = reversed (names t.targets) in
      let m : Machine Disk = record {
        disk = record d { journal = some (record r { state = State.rolling_back }) };
        power = p;
      } in
      let agree = λ (k : String) (i : In k ks). e.agrees k (reversed-In k (names t.targets) i) in
      proceed_keeps (λ n. IsRecoverable t o r n.disk)
        (for_each ks (λ k. at_target k (rollback_one (existed_at r k))) m) _
        (midway t o r _ State.rolling_back (inl refl)
          (journal-for_each ks (λ k. rollback_one (existed_at r k)) m)
          (rollback_loop-Phases o (existed_at r) ks m agree h.phases))
        (λ _ ended h'.
          unfold undo_tail in
          undo_tail-IsRecoverable t o r (record r { state = s }) _ _ refl h'
            (λ k i.
              rollback_loop_ends o (existed_at r) ks m agree h.phases ended k
                (In-reversed k (names t.targets) i)))

  rollback_from-IsRecoverable :
      (m : Machine Disk) (s : State)
      → IsEntry t o r
      → IsRecoverable t o r m.disk
      → IsRecoverable t o r (rollback_from t (record r { state = s }) s m).1.disk
  unfolding rollback_from
  rollback_from-IsRecoverable m State.committed e h = h
  rollback_from-IsRecoverable m State.rolled_back e h = h
  rollback_from-IsRecoverable m s e h = undo_lem m.disk m.power s e h

  -- However far a rollback gets, the disk stays one from which `o` can be restored.
  pub rollback-IsRecoverable :
      (m : Machine Disk)
      → IsEntry t o r
      → IsRecoverable t o r m.disk
      → IsRecoverable t o r (rollback t m).1.disk
  unfolding rollback
  rollback-IsRecoverable m e h =
      rw (read_recoverable t o r m e h.state h.journal) (rollback_from-IsRecoverable m h.state e h)

  install_lem :
      (d : Disk) (p : ℕ)
      → Distinct (names t.targets)
      → IsEntry t o r
      → IsRecoverable t o r d
      → ((k : String) → In k (names t.targets) → IsReady (o k) (d.slots k))
      → IsRecoverable t o r
          (install t (record r { state = State.ready }) (record { disk = d; power = p })).1.disk
  unfolding install
  install_lem d zero dis e h ready = h
  install_lem d (suc p) dis e h ready =
      let ks = names t.targets in
      let m : Machine Disk = record {
        disk = record d { journal = some (record r { state = State.installing }) };
        power = p;
      } in
      proceed_keeps (λ n. IsRecoverable t o r n.disk)
        (for_each ks (λ k. at_target k (apply_one (existed_at r k))) m) _
        (midway t o r _ State.installing (inr (inl refl))
          (journal-for_each ks (λ k. apply_one (existed_at r k)) m)
          (apply_loop-Phases o (existed_at r) ks m dis e.agrees ready h.phases))
        (λ _ _ h'.
          unfold apply_tail in
          apply_tail-IsRecoverable t o r (record r { state = State.ready }) _ _ refl h')

  apply_from :
      (m : Machine Disk) (s : State)
      → Distinct (names t.targets)
      → IsEntry t o r
      → IsRecoverable t o r m.disk
      → (s ≡ State.ready → (k : String) → In k (names t.targets) → IsReady (o k) (m.disk.slots k))
      → IsRecoverable t o r
          (proceed
            (require (is_state s State.ready) not_ready m)
            (λ _. install t (record r { state = s }))).1.disk
  apply_from m State.ready dis e h ready = install_lem m.disk m.power dis e h (ready refl)
  apply_from m State.preparing dis e h ready = h
  apply_from m State.installing dis e h ready = h
  apply_from m State.installed dis e h ready = h
  apply_from m State.rolling_back dis e h ready = h
  apply_from m State.rolled_back dis e h ready = h
  apply_from m State.committed dis e h ready = h

  -- However far an `apply` gets, the disk stays one from which `o` can be restored.
  pub apply-IsRecoverable :
      (m : Machine Disk)
      → Distinct (names t.targets)
      → IsEntry t o r
      → IsRecoverable t o r m.disk
      → IsRecoverable t o r (apply t m).1.disk
  unfolding apply
  apply-IsRecoverable m dis e h =
      rw (read_recoverable t o r m e h.state h.journal) (apply_from m h.state dis e h h.waiting)

  undo_done :
      (d : Disk) (p q : ℕ) (s : State)
      → IsEntry t o r
      → IsRecoverable t o r d
      → 2 * length (reversed (names t.targets)) + (2 + q) ≤ p
      → let (x, n) = undo t (record r { state = s }) (record { disk = d; power = p }) in
        (x ≡ done (record r { state = State.rolled_back }))
        × ((k : String) → In k (names t.targets) → IsHome (o k) (n.disk.slots k))
  unfolding undo
  undo_done d zero q s e h big = absurd (omega arith)
  undo_done d (suc p) q s e h big =
      let ks = reversed (names t.targets) in
      let m : Machine Disk = record {
        disk = record d { journal = some (record r { state = State.rolling_back }) };
        power = p;
      } in
      let agree = λ (k : String) (i : In k ks). e.agrees k (reversed-In k (names t.targets) i) in
      let loop = rollback_loop_done o (existed_at r) ks m (1 + q) agree h.phases (omega arith) in
      rw
        (proceed_done (for_each ks (λ k. at_target k (rollback_one (existed_at r k))) m) _ tt
          loop.0)
        (unfold undo_tail in
          undo_tail_done t o r (record r { state = s }) _ _ (omega (arith, loop.1))
            (λ k i. loop.2 k (In-reversed k (names t.targets) i)))

  rollback_from_done :
      (m : Machine Disk) (s : State)
      → IsEntry t o r
      → IsRecoverable t o r m.disk
      → s ≢ State.committed
      → (s ≡ State.rolled_back
          → (k : String) → In k (names t.targets)
          → IsHome (o k) (m.disk.slots k))
      → 2 * length (names t.targets) + 2 ≤ m.power
      → let (x, n) = rollback_from t (record r { state = s }) s m in
        (x ≡ done (record r { state = State.rolled_back }))
        × ((k : String) → In k (names t.targets) → IsHome (o k) (n.disk.slots k))
  unfolding rollback_from
  rollback_from_done m State.committed e h ne all big = absurd (ne refl)
  rollback_from_done m State.rolled_back e h ne all big = (refl, all refl)
  rollback_from_done m s e h ne all big =
      undo_done m.disk m.power 0 s e h (omega (arith, big, length-reversed (names t.targets)))

  -- With power for two writes at each target and two for the journal, a rollback ends, and every
  -- target then stands as it stood before the restore.
  pub rollback_restores :
      (m : Machine Disk)
      → IsEntry t o r
      → IsRecoverable t o r m.disk
      → 2 * length (names t.targets) + 2 ≤ m.power
      → let (x, n) = rollback t m in
        (x ≡ done (record r { state = State.rolled_back }))
        × ((k : String) → In k (names t.targets) → IsHome (o k) (n.disk.slots k))
  unfolding rollback
  rollback_restores m e h big =
      rw (read_recoverable t o r m e h.state h.journal)
        (rollback_from_done m h.state e h h.open_ended h.restored big)
