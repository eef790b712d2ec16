-- ===== src/Network/Guard.antt =====
-- What `restore` leaves behind, wherever it ends: an unconfirmed change stays guarded.
use mindflayer_elderbrain.Base.{
  ℕ, zero, suc, ◌+◌, ◌≤◌, ◌≡◌, refl, ◌∙◌, Bool, true, false, some, List, [], ◌∷◌, inl, inr, String,
  arith, In, length,
}
use mindflayer_elderbrain.Durable.{
  Machine, Outcome, done, raised, halted, pure, for_each, proceed, ◌>>◌,
}
use mindflayer_elderbrain.Network.Files.{Error, Directory}
use mindflayer_elderbrain.Network.Transaction.{
  Phase, staged, rolled_back, rolling_back, is_terminal, Change, State, World, Net, save, activate,
  answer, close, put_back, revert, restore, restore_phase,
}
use mindflayer_elderbrain.Network.Revert.{
  IsHeld, IsPlan, IsOpen, IsClosed, IsGuarded, open_change, closed, IsPutBack, check_loop, put_loop,
}

module _ (orig new : Directory) where
  -- What a call of `restore` for the record `r` leaves, begun in `w` with power `p`.
  pub record IsReverted (r : State) (w : World) (p : ℕ) (x : Outcome Error State × Machine World)
      : Type 0 where
    pub guarded : IsGuarded orig new x.1.disk
    pub ends :
        (s : State)
        → x.0 ≡ done s
        → (s ≡ close rolled_back r) × IsClosed orig new (close rolled_back r) x.1.disk
    pub total :
        (rest : List Bool)
        → w.replies ≡ true ∷ rest
        → length r.files + 2 ≤ p
        → x.0 ≡ done (close rolled_back r)

  all_back :
      (r : State) (w : World)
      → IsPlan orig new r
      → IsHeld orig new w.directory
      → ((n : String) (c : Change) → In (n, c) r.files → w.directory n ≡ orig n)
      → (n : String) → w.directory n ≡ orig n
  all_back r w plan held back n = elim (plan.covers n) [
    | inl (c, i) ↦ back n c i
    | inr e ↦ elim (held n) [ inl old ↦ old | inr fresh ↦ fresh ∙ e ]
  ]

  abbrev ending : State → Net State
  ending r = save (close rolled_back r) >> pure (close rolled_back r)

  -- Time, a reboot and the answers of callbacks change nothing.
  pub guard_env :
      (w : World) (now monotonic : ℕ) (boot_id : String) (replies : List Bool)
      → IsGuarded orig new w
      → IsGuarded orig new
          (record w { now = now; monotonic = monotonic; boot_id = boot_id; replies = replies })
  guard_env w a b c d (open_change r h) = open_change r (record {
    plan = h.plan;
    state = h.state;
    held = h.held;
    staged_intact = h.staged_intact;
    unfinished = h.unfinished;
  })
  guard_env w a b c d (closed r h) =
      closed r (record { state = h.state; phase = h.phase; intact = h.intact })

  answer_lem :
      (r : State) (w : World) (p : ℕ) (l : List Bool) (q : ℕ)
      → IsGuarded orig new w
      → ((n : String) → w.directory n ≡ orig n)
      → q ≤ p
      → let x = proceed (answer l (record { disk = w; power = p })) (λ _. ending r) in
        IsGuarded orig new x.1.disk
        × ((s : State)
            → x.0 ≡ done s
            → (s ≡ close rolled_back r) × IsClosed orig new (close rolled_back r) x.1.disk)
        × ((rest : List Bool) → l ≡ true ∷ rest → 1 ≤ q → x.0 ≡ done (close rolled_back r))
  answer_lem r w p [] q g back big = (g, (λ s e. cc), λ rest e b. cc)
  answer_lem r w p (false ∷ l) q g back big =
      (guard_env w w.now w.monotonic w.boot_id l g, (λ s e. cc), λ rest e b. cc)
  answer_lem r w zero (true ∷ l) q g back big =
      (guard_env w w.now w.monotonic w.boot_id l g, (λ s e. cc), λ rest e b. absurd (omega arith))
  answer_lem r w (suc p) (true ∷ l) q g back big =
      let shut : IsClosed orig new (close rolled_back r)
          (record w { state = some (close rolled_back r); replies = l }) =
        record { state = refl; phase = refl; intact = back } in
      (closed (close rolled_back r) shut, (λ s e. (cc, shut)), λ rest e b. refl)

  rolling :
      (r : State)
      → IsPlan orig new r
      → (w : World) → w.state ≡ some (record r { phase = rolling_back })
      → IsHeld orig new w.directory
      → IsGuarded orig new w
  rolling r plan w st held =
      open_change (record r { phase = rolling_back })
        (record {
          plan = record { changes = plan.changes; covers = plan.covers };
          state = st;
          held = held;
          staged_intact = λ e. cc;
          unfinished = refl;
        })

  -- The end of `revert`, after the loop that puts the files back.
  back_then :
      (r : State) (w : World) (p : ℕ) (m : Machine World)
      (x : Outcome Error (Unit {0}) × Machine World)
      → IsPlan orig new r
      → is_terminal r.phase ≡ false
      → m.disk.state ≡ some (record r { phase = rolling_back })
      → m.disk.replies ≡ w.replies
      → m.power + 1 ≡ p
      → IsPutBack orig new r.files m x
      → IsReverted r w p (proceed x (λ _. activate >> ending r))
  back_then r w p m (done u, k) plan open' st rep pow b =
      let a =
        answer_lem r k.disk k.power k.disk.replies k.power
          (rolling r plan k.disk (b.state ∙ st) b.held)
          (all_back r k.disk plan b.held (b.puts refl)) (omega arith) in
      unfold activate in
      record {
        guarded = a.0;
        ends = a.1;
        total = λ rest e big. a.2 rest (b.replies ∙ rep ∙ e) ((b.finishes 1 (omega arith)).1);
      }
  back_then r w p m (raised e, k) plan open' st rep pow b = record {
    guarded = rolling r plan k.disk (b.state ∙ st) b.held;
    ends = λ s e. cc;
    total = λ rest e big. cc ((b.finishes 1 (omega arith)).0);
  }
  back_then r w p m (halted, k) plan open' st rep pow b = record {
    guarded = rolling r plan k.disk (b.state ∙ st) b.held;
    ends = λ s e. cc;
    total = λ rest e big. cc ((b.finishes 1 (omega arith)).0);
  }

  revert_lem :
      (r : State) (w : World) (p : ℕ)
      → IsPlan orig new r
      → is_terminal r.phase ≡ false
      → IsHeld orig new w.directory
      → IsGuarded orig new w
      → IsReverted r w p (revert r (record { disk = w; power = p }))
  unfolding revert
  revert_lem r w zero plan unfinished held g = record {
    guarded = g;
    ends = λ s e. cc;
    total = λ rest e big. absurd (omega arith);
  }
  revert_lem r w (suc p) plan unfinished held g =
      let m : Machine World = record {
        disk = record w { state = some (record r { phase = rolling_back }) };
        power = p;
      } in
      rw (check_loop orig new r.files m plan.changes held) (
        back_then r w (suc p) m (for_each r.files put_back m) plan unfinished refl refl
          (omega arith) (put_loop orig new r.files m plan.changes held))

  staged_lem :
      (r : State) (w : World) (p : ℕ)
      → ((n : String) → w.directory n ≡ orig n)
      → IsGuarded orig new w
      → IsReverted r w p (
          (save (close rolled_back r) >> pure (close rolled_back r))
            (record { disk = w; power = p }))
  staged_lem r w zero back g = record {
    guarded = g;
    ends = λ s e. cc;
    total = λ rest e big. absurd (omega arith);
  }
  staged_lem r w (suc p) back g =
      let shut : IsClosed orig new (close rolled_back r)
          (record w { state = some (close rolled_back r) }) =
        record { state = refl; phase = refl; intact = back } in
      record {
        guarded = closed (close rolled_back r) shut;
        ends = λ s e. (cc, shut);
        total = λ rest e big. refl;
      }

  restore_phase_lem :
      (phase : Phase) (r : State) (w : World) (p : ℕ)
      → IsPlan orig new r
      → is_terminal r.phase ≡ false
      → IsHeld orig new w.directory
      → (phase ≡ staged → (n : String) → w.directory n ≡ orig n)
      → IsGuarded orig new w
      → IsReverted r w p (restore_phase phase r (record { disk = w; power = p }))
  unfolding restore_phase
  restore_phase_lem staged r w p plan unfinished held intact g = staged_lem r w p (intact refl) g
  restore_phase_lem _ r w p plan unfinished held intact g = revert_lem r w p plan unfinished held g

  -- `restore` of a record that is open in `w`.
  pub restore_lem :
      (r : State) (m : Machine World)
      → IsOpen orig new r m.disk
      → IsReverted r m.disk m.power (restore r m)
  unfolding restore
  restore_lem r m h =
      restore_phase_lem r.phase r m.disk m.power h.plan h.unfinished h.held h.staged_intact
        (open_change r h)
