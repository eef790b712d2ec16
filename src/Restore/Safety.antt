-- ===== src/Restore/Safety.antt =====
-- A whole restore, cut short at any points, from the disk that it begins with.
use mindflayer_elderbrain.Base.{
  ℕ, zero, suc, ◌+◌, ◌*◌, ◌≤◌, ◌≡◌, refl, true, Option, none, some, List, [], ◌∷◌, ◌⊎◌, inl, inr,
  String, length, In, Distinct, is_identity,
}
use mindflayer_elderbrain.Durable.{
  Machine, done, pure, require_keeps, for_each, proceed_keeps, ◌>>◌,
}
use mindflayer_elderbrain.Restore.Slot.{Tree, Source, prepare_one, journal_exists, wrong_sources}
use mindflayer_elderbrain.Restore.Phases.{home, IsReady, IsHome}
use mindflayer_elderbrain.Restore.Transaction.{
  Disk, Entry, State, Transaction, at_target, get_key, names, same_names, read, check_entry,
  first_entry, save, is_absent, copy_sources, prepare, apply, rollback,
}
use mindflayer_elderbrain.Restore.Loops.{journal-for_each}
use mindflayer_elderbrain.Restore.Copying.{
  IsEntry, first_entry-IsEntry, prepare_loop_home, prepare_loop_ends,
}
use mindflayer_elderbrain.Restore.Recovery.{
  IsRecoverable, midway, rollback-IsRecoverable, apply-IsRecoverable, rollback_restores,
}

-- What stands at each target.
abbrev pub live : Disk → String → Option Tree
live d k = (d.slots k).target

-- A disk on which no restore is under way: no journal, and no tree of this transaction's id.
pub record IsClean (d : Disk) : Type 0 where
  pub journal : d.journal ≡ none
  pub previous : (k : String) → (d.slots k).previous ≡ none
  pub rejected : (k : String) → (d.slots k).rejected ≡ none

-- An operation after a start of the machine, with the writes until the machine stops again.
pub data Attempt : Type 0 where
  apply_until rollback_until : ℕ → Attempt

unfoldable pub attempt : Transaction → Attempt → Disk → Disk
attempt t (apply_until p) d = (apply t (record { disk = d; power = p })).1.disk
attempt t (rollback_until p) d = (rollback t (record { disk = d; power = p })).1.disk

unfoldable pub attempts : Transaction → List Attempt → Disk → Disk
attempts t [] d = d
attempts t (a ∷ rest) d = attempts t rest (attempt t a d)

module _ (t : Transaction) (d : Disk) (identity : String) (clean : IsClean d)
    (dis : Distinct (names t.targets)) where
  copy_tail :
      (e : Disk) (p : ℕ)
      → IsRecoverable t (live d) (first_entry t identity d.slots) e
      → ((k : String) → In k (names t.targets) → IsReady (live d k) (e.slots k))
      → IsRecoverable t
          (live d)
          (first_entry t identity d.slots)
          ((save (first_entry t identity d.slots) State.ready
              >> pure (record (first_entry t identity d.slots) { state = State.ready }))
            (record { disk = e; power = p })).1.disk
  copy_tail e zero h ready = h
  copy_tail e (suc p) h ready = record {
    state = State.ready;
    journal = refl;
    phases = h.phases;
    waiting = λ _. ready;
    restored = λ e. cc;
    open_ended = λ e. cc;
  }

  clean-IsHome : (k : String) → IsHome (live d k) (d.slots k)
  clean-IsHome k = record { previous = clean.previous k; target = refl }

  copied :
      (partial : Tree → Tree) (sources : List (String × Source)) (p : ℕ)
      → let e =
          (copy_sources partial t
            (first_entry t identity d.slots)
            sources
            (record { disk = d; power = p })).1.disk in
        (e ≡ d) ⊎ IsRecoverable t (live d) (first_entry t identity d.slots) e
  unfolding copy_sources
  copied partial sources zero = inl refl
  copied partial sources (suc p) =
      let ks = names t.targets in
      let r = first_entry t identity d.slots in
      let m : Machine Disk = record { disk = record d { journal = some r }; power = p } in
      let homes = prepare_loop_home (live d) partial sources ks m clean-IsHome in
      inr (
        proceed_keeps (λ n. IsRecoverable t (live d) r n.disk)
          (for_each ks (λ k. at_target k (prepare_one partial (get_key k sources))) m) _
          (midway t (live d) r _ State.preparing (inr (inr (inr refl)))
            (journal-for_each ks (λ k. prepare_one partial (get_key k sources)) m)
            (λ k. home (homes k).previous (homes k).target))
          (λ _ ended h. copy_tail _ _ h (
            prepare_loop_ends (live d) partial sources ks m dis clean-IsHome
              (λ k _. clean.rejected k) ended)))

  -- After `prepare`, however far it got, the disk is as it was, or everything can be restored.
  prepared :
      (partial : Tree → Tree) (sources : List (String × Source)) (p : ℕ)
      → let e = (prepare partial t identity sources (record { disk = d; power = p })).1.disk in
        (e ≡ d) ⊎ IsRecoverable t (live d) (first_entry t identity d.slots) e
  unfolding prepare
  prepared partial sources p =
      require_keeps
        (λ n. (n.disk ≡ d) ⊎ IsRecoverable t (live d) (first_entry t identity d.slots) n.disk)
        (is_absent d.journal) journal_exists _ (record { disk = d; power = p }) (inl refl)
        (require_keeps
          (λ n. (n.disk ≡ d) ⊎ IsRecoverable t (live d) (first_entry t identity d.slots) n.disk)
          (same_names (names sources) (names t.targets)) wrong_sources _
          (record { disk = d; power = p }) (inl refl) (copied partial sources p))

  -- Without a journal nothing is done.
  attempt_clean : (a : Attempt) → attempt t a d ≡ d
  unfolding attempt apply rollback read check_entry
  attempt_clean (apply_until p) = rw clean.journal
  attempt_clean (rollback_until p) = rw clean.journal

  attempts_clean : (l : List Attempt) → attempts t l d ≡ d
  unfolding attempts
  attempts_clean [] = refl
  attempts_clean (a ∷ l) = rw attempt_clean (attempts_clean l)

module _ {t : Transaction} {o : String → Option Tree} {r : Entry} (dis : Distinct (names t.targets))
    (e : IsEntry t o r) where
  attempt-IsRecoverable :
      (a : Attempt) (d : Disk) → IsRecoverable t o r d → IsRecoverable t o r (attempt t a d)
  unfolding attempt
  attempt-IsRecoverable (apply_until p) d h =
      apply-IsRecoverable (record { disk = d; power = p }) dis e h
  attempt-IsRecoverable (rollback_until p) d h =
      rollback-IsRecoverable (record { disk = d; power = p }) e h

  attempts-IsRecoverable :
      (l : List Attempt) (d : Disk) → IsRecoverable t o r d → IsRecoverable t o r (attempts t l d)
  unfolding attempts
  attempts-IsRecoverable [] d h = h
  attempts-IsRecoverable (a ∷ l) d h =
      attempts-IsRecoverable l (attempt t a d) (attempt-IsRecoverable a d h)

-- Every target holds what it held.
abbrev pub AllLive : Transaction → (String → Option Tree) → Disk → Type 0
AllLive t o d = (k : String) → In k (names t.targets) → live d k ≡ o k

-- What a rollback has to achieve on a disk: where the transaction has a journal it ends without an
-- exception, in the state rolled-back, and in any case every target then holds `o`.
pub record IsRestoredBy (t : Transaction) (o : String → Option Tree) (d : Disk) (p : ℕ)
    : Type 0 where
  pub targets : AllLive t o (rollback t (record { disk = d; power = p })).1.disk
  pub ends :
      (d.journal ≡ none)
      ⊎ ((r : Entry) × ((rollback t (record { disk = d; power = p })).0
            ≡ done (record r { state = State.rolled_back })))

restored_clean :
    (t : Transaction) (d : Disk) (q : ℕ) → d.journal ≡ none → IsRestoredBy t (live d) d q
unfolding rollback read check_entry
restored_clean t d q j = record { targets = λ k i. rw j; ends = inl j }

restored_open :
    {t : Transaction} {o : String → Option Tree} {r : Entry}
    → Distinct (names t.targets)
    → IsEntry t o r
    → (d : Disk) (q : ℕ) → IsRecoverable t o r d
    → 2 * length (names t.targets) + 2 ≤ q
    → IsRestoredBy t o d q
restored_open {r = r} dis e d q h big =
    let x = rollback_restores (record { disk = d; power = q }) e h big in
    record { targets = λ k i. (x.1 k i).target; ends = inr (r, x.0) }

-- Begin a restore on a clean disk with `prepare`, let the machine stop at any durable write, and let any
-- number of `apply` and `rollback` calls follow, each cut short at any durable write. A rollback
-- with power for two writes at each target and two more then ends with state rolled-back (if `prepare`
-- got as far as a journal), and every target holds the tree that it held before `prepare`.
pub interrupted_restore_rolls_back :
    (partial : Tree → Tree) (t : Transaction) (identity : String) (sources : List (String × Source))
    (d : Disk)
    → IsClean d
    → Distinct (names t.targets)
    → is_identity identity ≡ true
    → (p : ℕ) (l : List Attempt) (q : ℕ) → 2 * length (names t.targets) + 2 ≤ q
    → IsRestoredBy t
        (live d)
        (attempts t l (prepare partial t identity sources (record { disk = d; power = p })).1.disk)
        q
interrupted_restore_rolls_back partial t identity sources d clean dis hex p l q big =
    elim (prepared t d identity clean dis partial sources p) [
      | inl same ↦
          rw (same, attempts_clean t d identity clean dis l) (restored_clean t d q clean.journal)
      | inr h ↦
          let e = first_entry-IsEntry t identity d.slots (live d) dis hex (λ k. refl) in
          restored_open dis e _ q (attempts-IsRecoverable dis e l _ h) big
    ]
