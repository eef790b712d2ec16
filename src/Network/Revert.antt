-- ===== src/Network/Revert.antt =====
-- `restore` of network_transaction.py puts every file back, wherever it is cut short.
use mindflayer_elderbrain.Base.{
  ℕ, zero, suc, ◌+◌, ◌≤◌, ◌≡◌, ◌≢◌, refl, sym, ap, ◌∙◌, Bool, true, false, ◌||◌, Option, none, some,
  [], ◌∷◌, ◌⊎◌, inl, inr, String, str_eq, eq_iff, ltb, arith, In, here, there, In-cases, Bool-cases,
  length,
}
use mathlib.Core.Path.{subst}
use Prim.Native.String.{count}
use mindflayer_elderbrain.Durable.{Machine, Outcome, done, raised, halted, for_each, proceed}
use mindflayer_elderbrain.Network.Files.{
  Error, absent, DirEntry, missing, special, regular, Saved, size_limit, is_filename, opt_eq,
  Directory, saved?, entry_of,
}
use mindflayer_elderbrain.Network.Transaction.{
  staged, rolled_back, is_terminal, Change, Files, State, World, Net, found, read_file, replace,
  replace_by, unlink, write_file, no_conflict, check_conflict, put_back,
}

abbrev pub Fits : Option String → Type 0
Fits none = Unit
Fits (some b) = ltb size_limit (count b) ≡ false

abbrev pub new_saved : Change → Saved
new_saved c = record c.before { bytes = c.after; mode = 0o600 }

-- A file is read as what it was written from.
saved_at :
    (b : Option String) (s : Saved)
    → s.bytes ≡ b
    → Fits b
    → (t : Saved) × (saved? (entry_of s) ≡ some t) × (t.bytes ≡ b)
saved_at none s e f = (absent, rw e, refl)
saved_at (some b) s e f = (record s { bytes = some b }, rw (e, f), refl)

read_file_lem :
    (n : String) (e : DirEntry) (t : Saved) (m : Machine World)
    → is_filename n ≡ true
    → m.disk.directory n ≡ e
    → saved? e ≡ some t
    → read_file n m ≡ (done t, m)
unfolding read_file
read_file_lem n e t m name at s = rw name (ap (λ o. found o m) (ap saved? at ∙ s))

opt_eq_self : (a : Option String) → opt_eq a a ≡ true
opt_eq_self none = refl
opt_eq_self (some a) = (eq_iff a a).1 refl

or_true : (a : Bool) → (a || true) ≡ true
or_true true = refl
or_true false = refl

held_no_conflict :
    (c : Change) (t : Saved)
    → (t.bytes ≡ c.before.bytes) ⊎ (t.bytes ≡ c.after)
    → no_conflict c t ≡ true
held_no_conflict c t (inl e) = rw (e, opt_eq_self c.before.bytes)
held_no_conflict c t (inr e) = rw (e, opt_eq_self c.after) (or_true (opt_eq c.after c.before.bytes))

entry_plain : (b : Option String) (s : Saved) → s.bytes ≡ b → entry_of s ≢ special
entry_plain none s e h = cc (rw e at h)
entry_plain (some b) s e h = cc (rw e at h)

-- What writing one name leaves, where `goal` has the entry that is to stand there: every other name
-- keeps what it had, and the journal is not touched.
pub record IsPlaced (goal : Directory) (n : String) (w : World)
    (x : Outcome Error (Unit {0}) × Machine World) (p : ℕ) : Type 0 where
  pub state : x.1.disk.state ≡ w.state
  pub replies : x.1.disk.replies ≡ w.replies
  pub others :
      (k : String) → (x.1.disk.directory k ≡ w.directory k) ⊎ (x.1.disk.directory k ≡ goal k)
  pub finishes : 1 ≤ p → (x.0 ≡ done tt) × (p ≤ x.1.power + 1)
  pub puts : x.0 ≡ done tt → x.1.disk.directory n ≡ goal n

write_file_lem :
    (goal : Directory) (n : String) (e : DirEntry) (w : World) (p : ℕ)
    → e ≡ goal n
    → IsPlaced goal n w (write_file n e (record { disk = w; power = p })) p
write_file_lem goal n e w zero h = record {
  state = refl;
  replies = refl;
  others = λ k. inl refl;
  finishes = λ b. absurd (omega arith);
  puts = λ d. cc;
}
write_file_lem goal n e w (suc p) h = record {
  state = refl;
  replies = refl;
  others = λ k. elim (Bool-cases (str_eq k n)) [
    | inl same ↦ inr (rw same (h ∙ ap goal (sym ((eq_iff k n).0 same))))
    | inr other ↦ inl (rw other)
  ];
  finishes = λ b. (refl, omega arith);
  puts = λ d. rw ((eq_iff n n).1 refl) h;
}

unlink_lem :
    (goal : Directory) (n : String) (e : DirEntry) (w : World) (p : ℕ)
    → w.directory n ≡ e
    → e ≢ special
    → missing ≡ goal n
    → IsPlaced goal n w (unlink n e (record { disk = w; power = p })) p
unlink_lem goal n missing w p at plain h = record {
  state = refl;
  replies = refl;
  others = λ k. inl refl;
  finishes = λ b. (refl, omega arith);
  puts = λ d. at ∙ h;
}
unlink_lem goal n special w p at plain h = absurd (plain refl)
unlink_lem goal n (regular b m u g) w p at plain h = write_file_lem goal n missing w p h

abbrev described : Option String → Saved → DirEntry
described none meta = missing
described (some b) meta = regular b meta.mode meta.uid meta.gid

described_lem : (b : Option String) (s : Saved) → s.bytes ≡ b → described s.bytes s ≡ entry_of s
described_lem none s e = rw e
described_lem (some b) s e = rw e

new_described :
    (b : Option String) (s : Saved)
    → described b (record s { mode = 0o600 }) ≡ entry_of (record s { bytes = b; mode = 0o600 })
new_described none s = refl
new_described (some b) s = refl

replace_by_lem :
    (goal : Directory) (n : String) (content : Option String) (meta : Saved) (w : World) (p : ℕ)
    → described content meta ≡ goal n
    → w.directory n ≢ special
    → IsPlaced goal n w (replace_by n content meta (record { disk = w; power = p })) p
replace_by_lem goal n none meta w p h plain = unlink_lem goal n (w.directory n) w p refl plain h
replace_by_lem goal n (some b) meta w p h plain =
    write_file_lem goal n (regular b meta.mode meta.uid meta.gid) w p h

pub replace_lem :
    (goal : Directory) (n : String) (content : Option String) (meta : Saved) (w : World) (p : ℕ)
    → is_filename n ≡ true
    → described content meta ≡ goal n
    → w.directory n ≢ special
    → IsPlaced goal n w (replace n content meta (record { disk = w; power = p })) p
unfolding replace
replace_lem goal n content meta w p name h plain =
    rw name (replace_by_lem goal n content meta w p h plain)

module _ (orig new : Directory) where
  -- A change whose two sides are the original and the new file.
  pub record IsChange (n : String) (c : Change) : Type 0 where
    pub name : is_filename n ≡ true
    pub old : entry_of c.before ≡ orig n
    pub changed : entry_of (new_saved c) ≡ new n
    pub old_fits : Fits c.before.bytes
    pub new_fits : Fits c.after

  abbrev pub IsHeld : Directory → Type 0
  IsHeld dir = (n : String) → (dir n ≡ orig n) ⊎ (dir n ≡ new n)

  -- The record's changes are such, and are all that the two directories differ in.
  pub record IsPlan (r : State) : Type 0 where
    pub changes : (n : String) (c : Change) → In (n, c) r.files → IsChange n c
    pub covers : (n : String) → ((c : Change) × In (n, c) r.files) ⊎ (new n ≡ orig n)

  read_held :
      (n : String) (c : Change) (m : Machine World)
      → IsChange n c
      → IsHeld m.disk.directory
      → check_conflict (n, c) m ≡ (done tt, m)
  unfolding check_conflict
  read_held n c m h held = elim (held n) [
    | inl old ↦
        let (t, seen, bytes) = saved_at c.before.bytes c.before refl h.old_fits in
        rw (
          read_file_lem n (entry_of c.before) t m h.name (old ∙ sym h.old) seen,
          held_no_conflict c t (inl bytes),
        )
    | inr fresh ↦
        let (t, seen, bytes) = saved_at c.after (new_saved c) refl h.new_fits in
        rw (
          read_file_lem n (entry_of (new_saved c)) t m h.name (fresh ∙ sym h.changed) seen,
          held_no_conflict c t (inr bytes),
        )
  ]

  pub check_loop :
      (fs : Files) (m : Machine World)
      → ((n : String) (c : Change) → In (n, c) fs → IsChange n c)
      → IsHeld m.disk.directory
      → for_each fs check_conflict m ≡ (done tt, m)
  unfolding for_each
  check_loop [] m h held = refl
  check_loop ((n, c) ∷ fs) m h held =
      rw (read_held n c m (h n c (here (n, c) fs refl)) held)
        (check_loop fs m (λ k d i. h k d (there (n, c) fs i)) held)

  pub held_plain :
      (n : String) (c : Change) (w : World)
      → IsChange n c
      → IsHeld w.directory
      → w.directory n ≢ special
  held_plain n c w h held e = elim (held n) [
    | inl old ↦ entry_plain c.before.bytes c.before refl (h.old ∙ sym old ∙ e)
    | inr fresh ↦ entry_plain c.after (new_saved c) refl (h.changed ∙ sym fresh ∙ e)
  ]

  put_back_lem :
      (n : String) (c : Change) (w : World) (p : ℕ)
      → IsChange n c
      → IsHeld w.directory
      → IsPlaced orig n w (put_back (n, c) (record { disk = w; power = p })) p
  unfolding put_back
  put_back_lem n c w p h held =
      replace_lem orig n c.before.bytes c.before w p h.name
        (described_lem c.before.bytes c.before refl ∙ h.old) (held_plain n c w h held)

  -- What putting a list of files back leaves, from the machine `m`.
  pub record IsPutBack (fs : Files) (m : Machine World)
      (x : Outcome Error (Unit {0}) × Machine World) : Type 0 where
    pub state : x.1.disk.state ≡ m.disk.state
    pub replies : x.1.disk.replies ≡ m.disk.replies
    pub held : IsHeld x.1.disk.directory
    pub keeps : (k : String) → m.disk.directory k ≡ orig k → x.1.disk.directory k ≡ orig k
    pub finishes : (q : ℕ) → length fs + q ≤ m.power → (x.0 ≡ done tt) × (q ≤ x.1.power)
    pub puts :
        x.0 ≡ done tt → (n : String) (c : Change) → In (n, c) fs → x.1.disk.directory n ≡ orig n

  IsHeld-others :
      (w v : World)
      → ((k : String) → (v.directory k ≡ w.directory k) ⊎ (v.directory k ≡ orig k))
      → IsHeld w.directory
      → IsHeld v.directory
  IsHeld-others w v others held k = elim (others k) [
    | inr back ↦ inl back
    | inl same ↦ elim (held k) [ inl old ↦ inl (same ∙ old) | inr fresh ↦ inr (same ∙ fresh) ]
  ]

  keeps_others :
      (w v : World)
      → ((k : String) → (v.directory k ≡ w.directory k) ⊎ (v.directory k ≡ orig k))
      → (k : String) → w.directory k ≡ orig k
      → v.directory k ≡ orig k
  keeps_others w v others k e = elim (others k) [ inr back ↦ back | inl same ↦ same ∙ e ]

  put_then :
      (n : String) (c : Change) (fs : Files) (m : Machine World)
      (x : Outcome Error (Unit {0}) × Machine World) (rest : Net (Unit {0}))
      → IsHeld m.disk.directory
      → IsPlaced orig n m.disk x m.power
      → ((k : Machine World) → IsHeld k.disk.directory → IsPutBack fs k (rest k))
      → IsPutBack ((n, c) ∷ fs) m (proceed x (λ _. rest))
  put_then n c fs m (done u, k) rest held step later =
      let l = later k (IsHeld-others m.disk k.disk step.others held) in
      record {
        state = l.state ∙ step.state;
        replies = l.replies ∙ step.replies;
        held = l.held;
        keeps = λ j e. l.keeps j (keeps_others m.disk k.disk step.others j e);
        finishes =
            λ q big. let (v, left) = step.finishes (omega arith) in l.finishes q (omega arith);
        puts = λ ended j d i.
            In-cases (j, d) (n, c) fs i
              (λ e.
                l.keeps j (
                  subst (λ z. k.disk.directory z ≡ orig z) (sym (ap (λ z. z.0) e))
                    (step.puts refl)))
              (l.puts ended j d);
      }
  put_then n c fs m (raised e, k) rest held step later = record {
    state = step.state;
    replies = step.replies;
    held = IsHeld-others m.disk k.disk step.others held;
    keeps = keeps_others m.disk k.disk step.others;
    finishes = λ q big. cc ((step.finishes (omega arith)).0);
    puts = λ ended. cc;
  }
  put_then n c fs m (halted, k) rest held step later = record {
    state = step.state;
    replies = step.replies;
    held = IsHeld-others m.disk k.disk step.others held;
    keeps = keeps_others m.disk k.disk step.others;
    finishes = λ q big. cc ((step.finishes (omega arith)).0);
    puts = λ ended. cc;
  }

  pub put_loop :
      (fs : Files) (m : Machine World)
      → ((n : String) (c : Change) → In (n, c) fs → IsChange n c)
      → IsHeld m.disk.directory
      → IsPutBack fs m (for_each fs put_back m)
  unfolding for_each
  put_loop [] m h held = record {
    state = refl;
    replies = refl;
    held = held;
    keeps = λ k e. e;
    finishes = λ q big. (refl, omega arith);
    puts = λ ended n c i. elim i [ ];
  }
  put_loop ((n, c) ∷ fs) m h held =
      put_then n c fs m (put_back (n, c) m) (for_each fs put_back) held
        (put_back_lem n c m.disk m.power (h n c (here (n, c) fs refl)) held)
        (λ k held'. put_loop fs k (λ j d i. h j d (there (n, c) fs i)) held')

  -- A change that is not over: each file is the original or the new one, and a staged change has
  -- touched nothing.
  pub record IsOpen (r : State) (w : World) : Type 0 where
    pub plan : IsPlan r
    pub state : w.state ≡ some r
    pub held : IsHeld w.directory
    pub staged_intact : r.phase ≡ staged → (n : String) → w.directory n ≡ orig n
    pub unfinished : is_terminal r.phase ≡ false

  -- A change that was rolled back, with every file as it was.
  pub record IsClosed (r : State) (w : World) : Type 0 where
    pub state : w.state ≡ some r
    pub phase : r.phase ≡ rolled_back
    pub intact : (n : String) → w.directory n ≡ orig n

  -- An unconfirmed change is open, or was rolled back.
  pub data IsGuarded (w : World) : Type 0 where
    open_change : (r : State) → IsOpen r w → IsGuarded w
    closed : (r : State) → IsClosed r w → IsGuarded w

  -- Writing the new files keeps each the original or the new one.
  pub put_new_lem :
      (n : String) (c : Change) (w : World) (p : ℕ)
      → IsChange n c
      → IsHeld w.directory
      → IsPlaced new n w
          (replace n c.after (record c.before { mode = 0o600 }) (record { disk = w; power = p }))
          p
  put_new_lem n c w p h held =
      replace_lem new n c.after (record c.before { mode = 0o600 }) w p h.name
        (new_described c.after c.before ∙ h.changed) (held_plain n c w h held)

  pub IsHeld-new :
      (w v : World)
      → ((k : String) → (v.directory k ≡ w.directory k) ⊎ (v.directory k ≡ new k))
      → IsHeld w.directory
      → IsHeld v.directory
  IsHeld-new w v others held k = elim (others k) [
    | inr fresh ↦ inr fresh
    | inl same ↦ elim (held k) [ inl old ↦ inl (same ∙ old) | inr fresh ↦ inr (same ∙ fresh) ]
  ]
