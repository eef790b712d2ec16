-- ===== src/Restore/Copying.antt =====
-- The loop of `prepare`, and the journal entry that it writes.
use mindflayer_elderbrain.Base.{
  ℕ, ◌+◌, ◌*◌, ◌≤◌, ◌≡◌, refl, ap, sym, ◌∙◌, true, false, Option, none, some, List, [], ◌∷◌, map,
  inl, inr, String, str_eq, eq_iff, arith, length, In, here, there, In-cases, Distinct, has_name,
  all_in, every, is_identity, ok, Bool-cases,
}
use mathlib.Core.Path.{subst}
use mindflayer_elderbrain.Durable.{
  Machine, done, for_each, proceed_done, proceed_ends, proceed_keeps,
}
use mindflayer_elderbrain.Restore.Slot.{Tree, Slot, Source, tree, exists, prepare_one}
use mindflayer_elderbrain.Restore.Phases.{
  IsReady, IsHome, prepare_one-IsHome, prepare_one_total, prepare_one_ends,
}
use mindflayer_elderbrain.Restore.Transaction.{
  Disk, Entry, State, Transaction, FilePath, Targets, at_target, get_key, names, same_names,
  same_targets, path_eq, check_entry, existed_at, first_entry,
}
use mindflayer_elderbrain.Restore.Loops.{at_target-every, at_target-other, Agrees}

module _ (o : String → Option Tree) (partial : Tree → Tree) (sources : List (String × Source)) where
  abbrev pub EveryHome : Machine Disk → Type 0
  EveryHome m = (j : String) → IsHome (o j) (m.disk.slots j)

  prepare_step_home :
      (k : String) (m : Machine Disk)
      → EveryHome m
      → EveryHome (at_target k (prepare_one partial (get_key k sources)) m).1
  prepare_step_home k m h =
      at_target-every (λ j s. IsHome (o j) s) k (prepare_one partial (get_key k sources)) m h
        (prepare_one-IsHome partial (get_key k sources) (o k) (m.disk.slots k) m.power (h k))

  -- `prepare` moves no live tree, wherever it ends.
  pub prepare_loop_home :
      (ks : List String) (m : Machine Disk)
      → EveryHome m
      → EveryHome (for_each ks (λ k. at_target k (prepare_one partial (get_key k sources))) m).1
  unfolding for_each
  prepare_loop_home [] m h = h
  prepare_loop_home (k ∷ ks) m h =
      proceed_keeps EveryHome (at_target k (prepare_one partial (get_key k sources)) m) _
        (prepare_step_home k m h) (λ _ _ h'. prepare_loop_home ks _ h')

  prepare_step_ends :
      (k : String) (m : Machine Disk)
      → IsHome (o k) (m.disk.slots k)
      → (m.disk.slots k).rejected ≡ none
      → (at_target k (prepare_one partial (get_key k sources)) m).0 ≡ done tt
      → IsReady (o k) ((at_target k (prepare_one partial (get_key k sources)) m).1.disk.slots k)
  unfolding at_target
  prepare_step_ends k m h u e =
      rw ((eq_iff k k).1 refl)
        (prepare_one_ends partial (get_key k sources) (o k) (m.disk.slots k) m.power h u e)

  prepare_loop_other :
      (ks : List String) (j : String) (m : Machine Disk)
      → ¬ In j ks
      → (for_each ks (λ k. at_target k (prepare_one partial (get_key k sources))) m).1.disk.slots j
        ≡ m.disk.slots j
  unfolding for_each
  prepare_loop_other [] j m out = refl
  prepare_loop_other (k ∷ ks) j m out =
      let step =
        at_target-other k j (prepare_one partial (get_key k sources)) m (λ e. out (here k ks e)) in
      proceed_keeps (λ n. n.disk.slots j ≡ m.disk.slots j)
        (at_target k (prepare_one partial (get_key k sources)) m) _ step
        (λ _ _ h. prepare_loop_other ks j _ (λ i. out (there k ks i)) ∙ h)

  -- A `prepare` loop that ended left every target ready to be replaced.
  pub prepare_loop_ends :
      (ks : List String) (m : Machine Disk)
      → Distinct ks
      → EveryHome m
      → ((k : String) → In k ks → (m.disk.slots k).rejected ≡ none)
      → (for_each ks (λ k. at_target k (prepare_one partial (get_key k sources))) m).0 ≡ done tt
      → (k : String) → In k ks
      → IsReady (o k) (
          (for_each ks (λ k. at_target k (prepare_one partial (get_key k sources))) m).1.disk.slots
            k)
  unfolding for_each
  prepare_loop_ends [] m dis h u e = λ k i. elim i [ ]
  prepare_loop_ends (k ∷ ks) m dis h u e =
      let n = (at_target k (prepare_one partial (get_key k sources)) m).1 in
      let ended = proceed_ends (at_target k (prepare_one partial (get_key k sources)) m) _ tt e in
      rw (proceed_done (at_target k (prepare_one partial (get_key k sources)) m) _ tt ended.1)
        (λ j i.
          In-cases j k ks i
            (λ e.
              subst
                (λ x. IsReady (o x) (
                  (for_each ks (λ k. at_target k (prepare_one partial (get_key k sources)))
                      n).1.disk.slots
                    x))
                (sym e)
                (rw (prepare_loop_other ks k n dis.0)
                  (prepare_step_ends k m (h k) (u k (here k ks refl)) ended.1)))
            (prepare_loop_ends ks n dis.1 (prepare_step_home k m h)
              (λ j i.
                rw
                  (at_target-other k j (prepare_one partial (get_key k sources)) m
                    (λ e. dis.0 (subst (λ x. In x ks) e i)))
                  (u j (there k ks i)))
              ended.2 j))

  module _ (new : String → Tree) where
    pub record IsPrepared (k : String) (s : Slot) : Type 0 where
      pub is_ready : IsReady (o k) s
      pub incoming : s.incoming ≡ some (new k)

    -- No directory of this transaction exists yet.
    pub record IsUnused (s : Slot) : Type 0 where
      pub located : s.located ≡ false
      pub rejected : s.rejected ≡ none

    prepare_step :
        (k : String) (m : Machine Disk)
        → get_key k sources ≡ some (tree (new k))
        → IsHome (o k) (m.disk.slots k)
        → IsUnused (m.disk.slots k)
        → 3 ≤ m.power
        → let (r, n) = at_target k (prepare_one partial (get_key k sources)) m in
          (r ≡ done tt) × (m.power ≤ n.power + 3) × IsPrepared k (n.disk.slots k)
    unfolding at_target
    prepare_step k m src h u e =
        let d =
          prepare_one_total partial (new k) (o k) (m.disk.slots k) m.power h u.located u.rejected
            e in
        rw (src, (eq_iff k k).1 refl) (d.0, d.3, record { is_ready = d.1; incoming = d.2 })

    -- With power for three writes at each target, `prepare` copies every source.
    pub prepare_loop_done :
        (ks : List String) (m : Machine Disk) (q : ℕ)
        → Distinct ks
        → ((k : String) → In k ks → get_key k sources ≡ some (tree (new k)))
        → EveryHome m
        → ((k : String) → In k ks → IsUnused (m.disk.slots k))
        → 3 * length ks + q ≤ m.power
        → let (r, n) = for_each ks (λ k. at_target k (prepare_one partial (get_key k sources))) m in
          (r ≡ done tt) × (q ≤ n.power) × ((k : String) → In k ks → IsPrepared k (n.disk.slots k))
    unfolding for_each
    prepare_loop_done [] m q dis src h u e = (refl, omega arith, λ k i. elim i [ ])
    prepare_loop_done (k ∷ ks) m q dis src h u e =
        let step =
          prepare_step k m (src k (here k ks refl)) (h k) (u k (here k ks refl)) (omega arith) in
        let n = (at_target k (prepare_one partial (get_key k sources)) m).1 in
        let rest =
          prepare_loop_done ks n q dis.1 (λ j i. src j (there k ks i)) (prepare_step_home k m h)
            (λ j i.
              rw
                (at_target-other k j (prepare_one partial (get_key k sources)) m
                  (λ e. dis.0 (subst (λ x. In x ks) e i)))
                (u j (there k ks i)))
            (omega (arith, step.1)) in
        rw (proceed_done (at_target k (prepare_one partial (get_key k sources)) m) _ tt step.0) (
          rest.0,
          rest.1,
          λ j i.
              In-cases j k ks i
                (λ e.
                  subst
                    (λ x. IsPrepared x (
                      (for_each ks (λ k. at_target k (prepare_one partial (get_key k sources)))
                          n).1.disk.slots
                        x))
                    (sym e) (rw (prepare_loop_other ks k n dis.0) step.2))
                (rest.2 j),
        )

-- Dicts.
path_eq_refl : (p : FilePath) → path_eq p p ≡ true
path_eq_refl [] = refl
path_eq_refl (a ∷ p) = rw ((eq_iff a a).1 refl, path_eq_refl p)

has_name-In : (k : String) (ks : List String) → In k ks → has_name k ks ≡ true
has_name-In k [] i = elim i [ ]
has_name-In k (j ∷ ks) (here _ _ e) = ground (arith, eq_iff j k)
has_name-In k (j ∷ ks) (there _ _ i) = ground (arith, has_name-In k ks i)

all_in-sub : (xs ys : List String) → ((k : String) → In k xs → In k ys) → all_in xs ys ≡ true
all_in-sub [] ys sub = refl
all_in-sub (x ∷ xs) ys sub =
    rw (has_name-In x ys (sub x (here x xs refl)), all_in-sub xs ys (λ k i. sub k (there x xs i)))

pub same_names_refl : (xs : List String) → same_names xs xs ≡ true
same_names_refl xs = rw (all_in-sub xs xs (λ k i. i))

In-names : (k : String) (p : FilePath) (d : Targets) → In (k, p) d → In k (names d)
In-names k p [] i = elim i [ ]
In-names k p (e ∷ d) (here _ _ q) = here e.0 (names d) (ap (λ x. x.0) q)
In-names k p (e ∷ d) (there _ _ i) = there e.0 (names d) (In-names k p d i)

get_key-In :
    (k : String) (p : FilePath) (d : Targets)
    → Distinct (names d)
    → In (k, p) d
    → get_key k d ≡ some p
get_key-In k p [] dis i = elim i [ ]
get_key-In k p ((j, r) ∷ d) dis (here _ _ q) =
    rw ((eq_iff j k).1 (sym (ap (λ x. x.0) q))) (ap some (sym (ap (λ x. x.1) q)))
get_key-In k p ((j, r) ∷ d) dis (there _ _ i) = elim (Bool-cases (str_eq j k)) [
  | inl same ↦
      absurd (dis.0 (subst (λ x. In x (names d)) (sym ((eq_iff j k).0 same)) (In-names k p d i)))
  | inr other ↦ rw other (get_key-In k p d dis.1 i)
]

every_maps :
    (d e : Targets)
    → ((k : String) (p : FilePath) → In (k, p) e → get_key k d ≡ some p)
    → every (λ x. elim (get_key (x.0) d) [ some q ↦ path_eq q (x.1) | none ↦ false ]) e ≡ true
every_maps d [] h = refl
every_maps d ((k, p) ∷ e) h =
    rw (
      h k p (here (k, p) e refl),
      path_eq_refl p,
      every_maps d e (λ j q i. h j q (there (k, p) e i)),
    )

pub same_targets_refl : (d : Targets) → Distinct (names d) → same_targets d d ≡ true
same_targets_refl d dis =
    rw (same_names_refl (names d), every_maps d d (λ k p i. get_key-In k p d dis i))

-- `{key: f(key) for key in targets}`
names-map {ℓ} :
    {B : Type ℓ} (f : String → B) (d : Targets) → names (map (λ e. (e.0, f (e.0))) d) ≡ names d
names-map f [] = refl
names-map f ((k, p) ∷ d) = ap (λ x. k ∷ x) (names-map f d)

get_key-map {ℓ} :
    {B : Type ℓ} (f : String → B) (k : String) (d : Targets)
    → In k (names d)
    → get_key k (map (λ e. (e.0, f (e.0))) d) ≡ some (f k)
get_key-map f k [] i = elim i [ ]
get_key-map f k ((j, p) ∷ d) i = elim (Bool-cases (str_eq j k)) [
  | inl same ↦ rw same (ap (λ x. some (f x)) ((eq_iff j k).0 same))
  | inr other ↦
      rw other
        (In-cases k j (names d) i (λ e. cc (other, (eq_iff j k).1 (sym e))) (get_key-map f k d))
]

-- What the entry of a transaction says of its targets, whatever its state.
pub record IsEntry (t : Transaction) (o : String → Option Tree) (r : Entry) : Type 0 where
  pub valid :
      (s : State) → check_entry t (some (record r { state = s })) ≡ ok (record r { state = s })
  pub agrees : Agrees o (existed_at r) (names t.targets)

pub first_entry-IsEntry :
    (t : Transaction) (identity : String) (slots : String → Slot) (o : String → Option Tree)
    → Distinct (names t.targets)
    → is_identity identity ≡ true
    → ((k : String) → (slots k).target ≡ o k)
    → IsEntry t o (first_entry t identity slots)
unfolding check_entry
first_entry-IsEntry t identity slots o dis hex same = record {
  valid = λ s. rw (
    same_targets_refl t.targets dis,
    hex,
    names-map (λ k. exists (slots k).target) t.targets,
    same_names_refl (names t.targets),
  );
  agrees = λ k i.
      rw (get_key-map (λ j. exists (slots j).target) k t.targets i, existed_at)
        (ap exists (same k));
}
