-- ===== src/Restore/Progress.antt =====
-- A restore that the machine does not cut short.
use mindflayer_elderbrain.Base.{
  ℕ, zero, suc, ◌+◌, ◌*◌, ◌≤◌, ◌≡◌, refl, true, false, Option, some, List, String, arith, length,
  In, Distinct, is_identity,
}
use mindflayer_elderbrain.Durable.{
  Machine, Outcome, done, raised, pure, for_each, proceed_done, ◌>>=◌, ◌>>◌,
}
use mindflayer_elderbrain.Restore.Slot.{
  Error, Tree, Source, tree, apply_one, prepare_one, already_committed,
}
use mindflayer_elderbrain.Restore.Phases.{IsReady}
use mindflayer_elderbrain.Restore.Transaction.{
  Disk, Entry, State, Transaction, at_target, get_key, names, same_names, existed_at, first_entry,
  save, copy_sources, prepare, apply, rollback, install, commit, rollback_from,
}
use mindflayer_elderbrain.Restore.Install.{IsInstalled, apply_loop_done}
use mindflayer_elderbrain.Restore.Copying.{
  IsEntry, IsPrepared, first_entry-IsEntry, prepare_loop_done,
}
use mindflayer_elderbrain.Restore.Recovery.{read_recoverable}
use mindflayer_elderbrain.Restore.Safety.{IsClean, live}

-- `a`, then `b` if it ended without an exception.
unfoldable pub restore :
    (Tree → Tree)
    → Transaction
    → String
    → List (String × Source)
    → Machine Disk
    → Outcome Error Entry × Machine Disk
restore partial t identity sources =
    prepare partial t identity sources >>= λ _. (apply t >>= λ _. commit t)

save_done :
    (r : Entry) (s : State) (m : Machine Disk) (p q : ℕ)
    → m.power ≡ p
    → 1 + q ≤ p
    → let (x, n) = (save r s >> pure (record r { state = s })) m in
      (x ≡ done (record r { state = s }))
      × (n.disk.journal ≡ some (record r { state = s }))
      × (q ≤ n.power)
      × (n.disk.slots ≡ m.disk.slots)
save_done r s m zero q e big = absurd (omega arith)
save_done r s m (suc p) q e big = rw e (refl, refl, omega arith, refl)

module _ (t : Transaction) (o : String → Option Tree) (new : String → Tree) (r : Entry)
    (e : IsEntry t o r) (dis : Distinct (names t.targets)) where
  install_done :
      (d : Disk) (p q : ℕ)
      → ((k : String) → In k (names t.targets) → IsReady (o k) (d.slots k))
      → ((k : String) → In k (names t.targets) → (d.slots k).incoming ≡ some (new k))
      → 2 * length (names t.targets) + (2 + q) ≤ p
      → let (x, n) =
          install t (record r { state = State.ready }) (record { disk = d; power = p }) in
        (x ≡ done (record r { state = State.installed }))
        × (n.disk.journal ≡ some (record r { state = State.installed }))
        × (q ≤ n.power)
        × ((k : String)
            → In k (names t.targets)
            → IsInstalled o (existed_at r) new k (n.disk.slots k))
  unfolding install
  install_done d zero q ready waiting big = absurd (omega arith)
  install_done d (suc p) q ready waiting big =
      let ks = names t.targets in
      let m : Machine Disk = record {
        disk = record d { journal = some (record r { state = State.installing }) };
        power = p;
      } in
      let loop =
        apply_loop_done o (existed_at r) new ks m (1 + q) dis e.agrees ready waiting
          (omega arith) in
      rw (proceed_done (for_each ks (λ k. at_target k (apply_one (existed_at r k))) m) _ tt loop.0)
        (let tail =
            save_done (record r { state = State.ready }) State.installed
              (for_each ks (λ k. at_target k (apply_one (existed_at r k))) m).1 _ q refl loop.1 in
          (tail.0, tail.1, tail.2, λ k i. rw tail.3 (loop.2 k i)))

  apply_done :
      (m : Machine Disk) (q : ℕ)
      → m.disk.journal ≡ some (record r { state = State.ready })
      → ((k : String) → In k (names t.targets) → IsReady (o k) (m.disk.slots k))
      → ((k : String) → In k (names t.targets) → (m.disk.slots k).incoming ≡ some (new k))
      → 2 * length (names t.targets) + (2 + q) ≤ m.power
      → let (x, n) = apply t m in
        (x ≡ done (record r { state = State.installed }))
        × (n.disk.journal ≡ some (record r { state = State.installed }))
        × (q ≤ n.power)
        × ((k : String)
            → In k (names t.targets)
            → IsInstalled o (existed_at r) new k (n.disk.slots k))
  unfolding apply
  apply_done m q j ready waiting big =
      rw (read_recoverable t o r m e State.ready j)
        (install_done m.disk m.power q ready waiting big)

  commit_done :
      (m : Machine Disk) (q : ℕ)
      → m.disk.journal ≡ some (record r { state = State.installed })
      → 1 + q ≤ m.power
      → let (x, n) = commit t m in
        (x ≡ done (record r { state = State.committed }))
        × (n.disk.journal ≡ some (record r { state = State.committed }))
        × (n.disk.slots ≡ m.disk.slots)
  unfolding commit
  commit_done m q j big =
      let tail =
        save_done (record r { state = State.installed }) State.committed m m.power q refl big in
      rw (read_recoverable t o r m e State.installed j) (tail.0, tail.1, tail.3)

  -- A committed restore is not rolled back, and stays as it is.
  rollback_refused :
      (m : Machine Disk)
      → m.disk.journal ≡ some (record r { state = State.committed })
      → rollback t m ≡ (raised already_committed, m)
  unfolding rollback rollback_from
  rollback_refused m j = rw (read_recoverable t o r m e State.committed j) refl

module _ (t : Transaction) (identity : String) (sources : List (String × Source))
    (new : String → Tree) (d : Disk) (clean : IsClean d) (dis : Distinct (names t.targets))
    (hex : is_identity identity ≡ true)
    (unlocated : (k : String) → In k (names t.targets) → (d.slots k).located ≡ false)
    (same : same_names (names sources) (names t.targets) ≡ true)
    (given : (k : String) → In k (names t.targets) → get_key k sources ≡ some (tree (new k))) where
  abbrev first : Entry
  first = first_entry t identity d.slots

  is_entry : IsEntry t (live d) first
  is_entry = first_entry-IsEntry t identity d.slots (live d) dis hex (λ k. refl)

  copy_done :
      (partial : Tree → Tree) (p q : ℕ)
      → 3 * length (names t.targets) + (2 + q) ≤ p
      → let (x, n) = copy_sources partial t first sources (record { disk = d; power = p }) in
        (x ≡ done (record first { state = State.ready }))
        × (n.disk.journal ≡ some (record first { state = State.ready }))
        × (q ≤ n.power)
        × ((k : String)
            → In k (names t.targets)
            → IsPrepared (live d) partial sources new k (n.disk.slots k))
  unfolding copy_sources
  copy_done partial zero q big = absurd (omega arith)
  copy_done partial (suc p) q big =
      let ks = names t.targets in
      let m : Machine Disk = record { disk = record d { journal = some first }; power = p } in
      let loop =
        prepare_loop_done (live d) partial sources new ks m (1 + q) dis given
          (λ k. record { previous = clean.previous k; target = refl })
          (λ k i. record { located = unlocated k i; rejected = clean.rejected k }) (omega arith) in
      rw
        (proceed_done (for_each ks (λ k. at_target k (prepare_one partial (get_key k sources))) m) _
          tt loop.0)
        (let tail =
            save_done first State.ready
              (for_each ks (λ k. at_target k (prepare_one partial (get_key k sources))) m).1 _ q
              refl loop.1 in
          (tail.0, tail.1, tail.2, λ k i. rw tail.3 (loop.2 k i)))

  prepare_done :
      (partial : Tree → Tree) (p : ℕ)
      → prepare partial t identity sources (record { disk = d; power = p })
        ≡ copy_sources partial t first sources (record { disk = d; power = p })
  unfolding prepare
  prepare_done partial p = simp (clean.journal, same)

  -- What `restore` leaves on the disk when it is not cut short: the new trees are live, the old
  -- ones are kept in `previous`, and the journal says committed.
  pub record IsReplaced (n : Disk) : Type 0 where
    pub journal : n.journal ≡ some (record first { state = State.committed })
    pub target : (k : String) → In k (names t.targets) → live n k ≡ some (new k)
    pub kept : (k : String) → In k (names t.targets) → (n.slots k).previous ≡ live d k

  restore_lem :
      (partial : Tree → Tree) (p : ℕ)
      → 5 * length (names t.targets) + 5 ≤ p
      → let (x, n) = restore partial t identity sources (record { disk = d; power = p }) in
        (x ≡ done (record first { state = State.committed })) × IsReplaced n.disk
  unfolding restore
  restore_lem partial p big =
      let start : Machine Disk = record { disk = d; power = p } in
      let c = copy_done partial p (2 * length (names t.targets) + 3) (omega arith) in
      let m = (copy_sources partial t first sources start).1 in
      let a =
        apply_done t (live d) new first is_entry dis m 1 c.1 (λ k i. (c.3 k i).is_ready)
          (λ k i. (c.3 k i).incoming) (omega (arith, c.2)) in
      let k =
        commit_done t (live d) new first is_entry dis (apply t m).1 0 a.1 (omega (arith, a.2)) in
      rw
        (
          prepare_done partial p,
          proceed_done (copy_sources partial t first sources start) _
              (record first { state = State.ready }) c.0,
          proceed_done (apply t m) _ (record first { state = State.installed }) a.0,
        )
        (
          k.0,
          record {
            journal = k.1;
            target = λ j i. rw (k.2, live) (a.3 j i).target;
            kept = λ j i. rw k.2 (a.3 j i).previous;
          },
        )

-- On a clean disk, with a source for exactly the targets and power for all writes, `prepare`,
-- `apply` and `commit` in turn end in the state committed; every target then holds its source, the
-- tree that stood there is kept in `previous`, and `rollback` is refused and changes nothing.
pub restore_completes :
    (t : Transaction) (identity : String) (sources : List (String × Source)) (new : String → Tree)
    (d : Disk) (clean : IsClean d) (dis : Distinct (names t.targets))
    (hex : is_identity identity ≡ true)
    (unlocated : (k : String) → In k (names t.targets) → (d.slots k).located ≡ false)
    (same : same_names (names sources) (names t.targets) ≡ true)
    (given : (k : String) → In k (names t.targets) → get_key k sources ≡ some (tree (new k)))
    (partial : Tree → Tree) (p : ℕ)
    → 5 * length (names t.targets) + 5 ≤ p
    → let (x, n) = restore partial t identity sources (record { disk = d; power = p }) in
      (x ≡ done (record (first_entry t identity d.slots) { state = State.committed }))
      × ((k : String) → In k (names t.targets) → live n.disk k ≡ some (new k))
      × ((k : String) → In k (names t.targets) → (n.disk.slots k).previous ≡ live d k)
      × (rollback t n ≡ (raised already_committed, n))
restore_completes t identity sources new d clean dis hex unlocated same given partial p big =
    let x = restore_lem t identity sources new d clean dis hex unlocated same given partial p big in
    (
      x.0,
      x.1.target,
      x.1.kept,
      rollback_refused t (live d) new (first_entry t identity d.slots)
          (first_entry-IsEntry t identity d.slots (live d) dis hex (λ k. refl)) dis
          (restore partial t identity sources (record { disk = d; power = p })).1 x.1.journal,
    )
