-- ===== src/Restore/Phases.antt =====
-- The three situations of a target during a restore, and what each loop body of
-- restore_transaction.py makes of them.
use mindflayer_elderbrain.Base.{
  ℕ, zero, suc, ◌+◌, ◌≤◌, ◌≡◌, ◌≢◌, true, false, Option, none, some, arith, refl,
}
use mindflayer_elderbrain.Durable.{done}
use mindflayer_elderbrain.Restore.Slot.{
  Tree, Slot, Source, tree, symlink, special, exists, prepare_one, apply_one, rollback_one,
}

-- `o` is what stood at the target before the transaction.
pub data Phase (o : Option Tree) (s : Slot) : Type 0 where
  home : s.previous ≡ none → s.target ≡ o → Phase o s
  aside : s.previous ≡ o → o ≢ none → s.target ≡ none → s.located ≡ true → Phase o s
  replaced :
      s.previous ≡ o
      → s.target ≢ none
      → s.incoming ≡ none
      → s.rejected ≡ none
      → s.located ≡ true
      → Phase o s

-- The target stands as it did, and its replacement waits in `incoming`.
pub record IsReady (o : Option Tree) (s : Slot) : Type 0 where
  pub previous : s.previous ≡ none
  pub target : s.target ≡ o
  pub incoming : s.incoming ≢ none
  pub rejected : s.rejected ≡ none
  pub located : s.located ≡ true

pub record IsHome (o : Option Tree) (s : Slot) : Type 0 where
  pub previous : s.previous ≡ none
  pub target : s.target ≡ o

pub apply_one-Phase :
    (o : Option Tree) (s : Slot) (p : ℕ)
    → IsReady o s
    → Phase o (apply_one (exists o) (record { disk = s; power = p })).1.disk
unfolding apply_one
apply_one-Phase none s zero r = home (ground arith) (ground arith)
apply_one-Phase none s (suc p) r =
    replaced (ground arith) (ground arith) (ground arith) (ground arith) (ground arith)
apply_one-Phase (some t) s zero r = home (ground arith) (ground arith)
apply_one-Phase (some t) s (suc zero) r =
    aside (ground arith) (ground arith) (ground arith) (ground arith)
apply_one-Phase (some t) s (suc (suc p)) r =
    replaced (ground arith) (ground arith) (ground arith) (ground arith) (ground arith)

-- With power for two writes, `apply` swaps one target.
pub apply_one_done :
    (o : Option Tree) (t : Tree) (s : Slot) (p : ℕ)
    → IsReady o s
    → s.incoming ≡ some t
    → let (r, m) = apply_one (exists o) (record { disk = s; power = suc (suc p) }) in
      (r ≡ done tt) × (m.disk.target ≡ some t) × (m.disk.previous ≡ o) × (p ≤ m.power)
unfolding apply_one
apply_one_done none t s p r e = (ground arith, ground arith, ground arith, ground arith)
apply_one_done (some u) t s p r e = (ground arith, ground arith, ground arith, ground arith)

pub rollback_one-Phase :
    (o : Option Tree) (s : Slot) (p : ℕ)
    → Phase o s
    → Phase o (rollback_one (exists o) (record { disk = s; power = p })).1.disk
unfolding rollback_one
rollback_one-Phase none s p (home a b) = home (ground arith) (ground arith)
rollback_one-Phase (some t) s p (home a b) = home (ground arith) (ground arith)
rollback_one-Phase none s p (aside a b c d) = absurd (b refl)
rollback_one-Phase (some t) s zero (aside a b c d) =
    aside (ground arith) b (ground arith) (ground arith)
rollback_one-Phase (some t) s (suc p) (aside a b c d) = home (ground arith) (ground arith)
rollback_one-Phase none s zero (replaced a b c d e) =
    replaced (ground arith) (ground arith) (ground arith) (ground arith) (ground arith)
rollback_one-Phase none s (suc p) (replaced a b c d e) = home (ground arith) (ground arith)
rollback_one-Phase (some t) s zero (replaced a b c d e) =
    replaced (ground arith) (ground arith) (ground arith) (ground arith) (ground arith)
rollback_one-Phase (some t) s (suc zero) (replaced a b c d e) =
    aside (ground arith) (ground arith) (ground arith) (ground arith)
rollback_one-Phase (some t) s (suc (suc p)) (replaced a b c d e) =
    home (ground arith) (ground arith)

-- With power for two writes, `rollback` ends at the tree that stood there first.
pub rollback_one_done :
    (o : Option Tree) (s : Slot) (p : ℕ)
    → Phase o s
    → let (r, m) = rollback_one (exists o) (record { disk = s; power = suc (suc p) }) in
      (r ≡ done tt) × (m.disk.previous ≡ none) × (m.disk.target ≡ o) × (p ≤ m.power)
unfolding rollback_one
rollback_one_done none s p (home a b) = (ground arith, ground arith, ground arith, ground arith)
rollback_one_done (some t) s p (home a b) = (ground arith, ground arith, ground arith, ground arith)
rollback_one_done none s p (aside a b c d) = absurd (b refl)
rollback_one_done (some t) s p (aside a b c d) =
    (ground arith, ground arith, ground arith, ground arith)
rollback_one_done none s p (replaced a b c d e) =
    (ground arith, ground arith, ground arith, ground arith)
rollback_one_done (some t) s p (replaced a b c d e) =
    (ground arith, ground arith, ground arith, ground arith)

-- Once home, a target is left alone by another `rollback`.
pub rollback_one_home :
    (o : Option Tree) (s : Slot) (p : ℕ)
    → IsHome o s
    → rollback_one (exists o) (record { disk = s; power = p })
      ≡ (done tt, record { disk = s; power = p })
unfolding rollback_one
rollback_one_home none s p h = ground arith
rollback_one_home (some t) s p h = ground arith

pub prepare_one-IsHome :
    (partial : Tree → Tree) (source : Option Source) (o : Option Tree) (s : Slot) (p : ℕ)
    → IsHome o s
    → IsHome o (prepare_one partial source (record { disk = s; power = p })).1.disk
unfolding prepare_one
prepare_one-IsHome partial none o s zero h = ground arith
prepare_one-IsHome partial none o s (suc p) h = ground arith
prepare_one-IsHome partial (some symlink) o s zero h = ground arith
prepare_one-IsHome partial (some symlink) o s (suc p) h = ground arith
prepare_one-IsHome partial (some special) o s zero h = ground arith
prepare_one-IsHome partial (some special) o s (suc p) h = ground arith
prepare_one-IsHome partial (some (tree t)) o s zero h = ground arith
prepare_one-IsHome partial (some (tree t)) o s (suc zero) h = ground arith
prepare_one-IsHome partial (some (tree t)) o s (suc (suc zero)) h = ground arith
prepare_one-IsHome partial (some (tree t)) o s (suc (suc (suc p))) h = ground arith

-- With power for three writes, `prepare` leaves a copy of the source beside the target.
pub prepare_one_done :
    (partial : Tree → Tree) (t : Tree) (o : Option Tree) (s : Slot) (p : ℕ)
    → IsHome o s
    → s.located ≡ false
    → s.rejected ≡ none
    → let (r, m) =
        prepare_one partial (some (tree t)) (record { disk = s; power = suc (suc (suc p)) }) in
      (r ≡ done tt) × IsReady o m.disk × (m.disk.incoming ≡ some t) × (m.power ≡ p)
unfolding prepare_one
prepare_one_done partial t o s p h l r = (ground arith, ground arith, ground arith, ground arith)

pub rollback_one_total :
    (o : Option Tree) (s : Slot) (p : ℕ)
    → Phase o s
    → 2 ≤ p
    → let (r, m) = rollback_one (exists o) (record { disk = s; power = p }) in
      (r ≡ done tt) × IsHome o m.disk × (p ≤ m.power + 2)
rollback_one_total o s zero h e = absurd (omega arith)
rollback_one_total o s (suc zero) h e = absurd (omega arith)
rollback_one_total o s (suc (suc p)) h e =
    let d = rollback_one_done o s p h in
    (d.0, record { previous = d.1; target = d.2 }, omega (arith, d.3))

pub apply_one_total :
    (o : Option Tree) (t : Tree) (s : Slot) (p : ℕ)
    → IsReady o s
    → s.incoming ≡ some t
    → 2 ≤ p
    → let (r, m) = apply_one (exists o) (record { disk = s; power = p }) in
      (r ≡ done tt) × (m.disk.target ≡ some t) × (m.disk.previous ≡ o) × (p ≤ m.power + 2)
apply_one_total o t s zero h i e = absurd (omega arith)
apply_one_total o t s (suc zero) h i e = absurd (omega arith)
apply_one_total o t s (suc (suc p)) h i e =
    let d = apply_one_done o t s p h i in (d.0, d.1, d.2, omega (arith, d.3))

pub prepare_one_total :
    (partial : Tree → Tree) (t : Tree) (o : Option Tree) (s : Slot) (p : ℕ)
    → IsHome o s
    → s.located ≡ false
    → s.rejected ≡ none
    → 3 ≤ p
    → let (r, m) = prepare_one partial (some (tree t)) (record { disk = s; power = p }) in
      (r ≡ done tt) × IsReady o m.disk × (m.disk.incoming ≡ some t) × (p ≤ m.power + 3)
prepare_one_total partial t o s zero h l r e = absurd (omega arith)
prepare_one_total partial t o s (suc zero) h l r e = absurd (omega arith)
prepare_one_total partial t o s (suc (suc zero)) h l r e = absurd (omega arith)
prepare_one_total partial t o s (suc (suc (suc p))) h l r e =
    let d = prepare_one_done partial t o s p h l r in (d.0, d.1, d.2, omega (arith, d.3))

-- A rollback that ended at a target left it as it stood.
pub rollback_one_ends :
    (o : Option Tree) (s : Slot) (p : ℕ)
    → Phase o s
    → (rollback_one (exists o) (record { disk = s; power = p })).0 ≡ done tt
    → IsHome o (rollback_one (exists o) (record { disk = s; power = p })).1.disk
unfolding rollback_one
rollback_one_ends none s p (home a b) e = ground arith
rollback_one_ends (some t) s p (home a b) e = ground arith
rollback_one_ends none s p (aside a b c d) e = absurd (b refl)
rollback_one_ends (some t) s zero (aside a b c d) e = ground arith
rollback_one_ends (some t) s (suc p) (aside a b c d) e = ground arith
rollback_one_ends none s zero (replaced a b c d e) x = ground arith
rollback_one_ends none s (suc p) (replaced a b c d e) x = ground arith
rollback_one_ends (some t) s zero (replaced a b c d e) x = ground arith
rollback_one_ends (some t) s (suc zero) (replaced a b c d e) x = ground arith
rollback_one_ends (some t) s (suc (suc p)) (replaced a b c d e) x = ground arith

-- A copy that ended left the replacement waiting.
pub prepare_one_ends :
    (partial : Tree → Tree) (source : Option Source) (o : Option Tree) (s : Slot) (p : ℕ)
    → IsHome o s
    → s.rejected ≡ none
    → (prepare_one partial source (record { disk = s; power = p })).0 ≡ done tt
    → IsReady o (prepare_one partial source (record { disk = s; power = p })).1.disk
unfolding prepare_one
prepare_one_ends partial none o s zero h r e = ground arith
prepare_one_ends partial none o s (suc p) h r e = ground arith
prepare_one_ends partial (some symlink) o s zero h r e = ground arith
prepare_one_ends partial (some symlink) o s (suc p) h r e = ground arith
prepare_one_ends partial (some special) o s zero h r e = ground arith
prepare_one_ends partial (some special) o s (suc p) h r e = ground arith
prepare_one_ends partial (some (tree t)) o s zero h r e = ground arith
prepare_one_ends partial (some (tree t)) o s (suc zero) h r e = ground arith
prepare_one_ends partial (some (tree t)) o s (suc (suc zero)) h r e = ground arith
prepare_one_ends partial (some (tree t)) o s (suc (suc (suc p))) h r e = ground arith
