-- ===== src/Snapshots/Pruning.antt =====
-- What retention and recovery never delete, wherever they are cut short.
use mindflayer_elderbrain.Base.{
  ◌≡◌, ◌≢◌, refl, sym, ◌∙◌, ap, ◌⊎◌, inl, inr, Bool, true, false, Option, none, some, List, [], ◌∷◌,
  String, eq_iff, arith, In, In-cases, has_name, str_eq-false, ok, ok-injective,
}
use mindflayer_elderbrain.Durable.{Machine, for_each}
use mindflayer_elderbrain.Durable.Keeps.{Keeps, then_keeps, write_keeps, for_each_keeps}
use mindflayer_elderbrain.Snapshots.Store.{Error, Metadata, File, World, Pin, read_pins, unguarded}
use mindflayer_elderbrain.Snapshots.Deleting.{
  ask_keeps, finish_deletions_keeps, recover_keeps, find_name_lem,
}
use mindflayer_elderbrain.Snapshots.Operations.{
  file_names, check_guard, drop_name, find_name, pin_ids, deletes, clears, finish_deletions,
  recover, moves, move_found, mark_deleting, prune_one,
}

find_name-drop_name :
    (name k : String) (fs : List (File Metadata))
    → k ≢ name
    → find_name name (drop_name k fs) ≡ find_name name fs
find_name-drop_name name k [] ne = refl
find_name-drop_name name k (f ∷ fs) ne =
    ground (arith, eq_iff f.name k, eq_iff f.name name, find_name-drop_name name k fs ne)

pub has_name-drop_name :
    (name k : String) (fs : List (File Metadata))
    → has_name name (file_names fs) ≡ false
    → has_name name (file_names (drop_name k fs)) ≡ false
has_name-drop_name name k [] h = refl
has_name-drop_name name k (f ∷ fs) h = ground (arith, has_name-drop_name name k fs)

not_named :
    (name : String) (fs : List (File Metadata)) (f : File Metadata)
    → In f fs
    → has_name name (file_names fs) ≡ false
    → f.name ≢ name
not_named name [] f i h = elim i [ ]
not_named name (g ∷ fs) f i h =
    In-cases f g fs i (λ e. rw e (λ s. ground (arith, eq_iff g.name name)))
      (λ j. not_named name fs f j (ground arith))

not-In :
    (name : String) (ks : List String) (k : String) → In k ks → has_name name ks ≡ false → k ≢ name
not-In name [] k i h = elim i [ ]
not-In name (j ∷ ks) k i h =
    In-cases k j ks i (λ e. rw e (λ s. ground (arith, eq_iff j name)))
      (λ l. not-In name ks k l (ground arith))

-- A checkpoint that the deletions in progress do not concern: its subvolume, its record and all pins
-- stand as they did in `first`; a pin holds it, or no intent names it.
pub record IsSpared (first : World) (name : String) (ps : List Pin) (w : World) : Type 0 where
  pub subvolume : w.subvolume name ≡ first.subvolume name
  pub found : find_name name w.records ≡ find_name name first.records
  pub pins : w.pins ≡ first.pins
  pub held : (has_name name (pin_ids ps) ≡ true) ⊎ (has_name name (file_names w.deleting) ≡ false)

module _ (first : World) (name : String) (ps : List Pin) (pinned : read_pins first ≡ ok ps) where
  abbrev Spared : World → Type 0
  Spared = IsSpared first name ps

  pub reply : (w : World) (l : List Bool) → Spared w → Spared (record w { replies = l })
  reply w l s = record { subvolume = s.subvolume; found = s.found; pins = s.pins; held = s.held }

  deletes-Spared : (k : String) (w : World) → k ≢ name → Spared w → Spared (deletes k w)
  deletes-Spared k w ne s = record {
    subvolume = ground (arith, eq_iff name k, s.subvolume);
    found = s.found;
    pins = s.pins;
    held = s.held;
  }

  clears-Spared : (k : String) (w : World) → Spared w → Spared (clears k w)
  clears-Spared k w s = record {
    subvolume = s.subvolume;
    found = s.found;
    pins = s.pins;
    held = elim s.held [ inl p ↦ inl p | inr n ↦ inr (has_name-drop_name name k w.deleting n) ];
  }

  moves-Spared :
      (k : String) (f : File Metadata)
      → f.name ≡ k
      → k ≢ name
      → (w : World) → Spared w
      → Spared (moves f k w)
  moves-Spared k f e ne w s = record {
    subvolume = s.subvolume;
    found = find_name-drop_name name k w.records ne ∙ s.found;
    pins = s.pins;
    held = elim s.held [
      | inl p ↦ inl p
      | inr n ↦ inr (
          rw (str_eq-false f.name name (λ x. ne (sym e ∙ x)))
            (has_name-drop_name name k w.deleting n))
    ];
  }

  same_pins : (w : World) (qs : List Pin) → Spared w → read_pins w ≡ ok qs → qs ≡ ps
  unfolding read_pins
  same_pins w qs s r = ok-injective (sym r ∙ rw s.pins pinned)

  concerns_other :
      (w : World) (f : File Metadata)
      → Spared w
      → In f w.deleting
      → has_name f.name (pin_ids ps) ≡ false
      → f.name ≢ name
  concerns_other w f s i free = elim s.held [
    | inl p ↦ λ e. cc (p, ap (λ k. has_name k (pin_ids ps)) e, free)
    | inr n ↦ not_named name w.deleting f i n
  ]

  pub finish_deletions-Spared : Keeps Spared finish_deletions
  finish_deletions-Spared =
      finish_deletions_keeps Spared (λ k. k ≢ name) reply deletes-Spared clears-Spared
        λ w qs f s r i. rw (same_pins w qs s r) (concerns_other w f s i)

  move_found-Spared :
      (k : String) (o : Option (File Metadata)) (m : Machine World)
      → find_name k m.disk.records ≡ o
      → k ≢ name
      → Spared m.disk
      → Spared (move_found o k m).1.disk
  move_found-Spared k none m e ne s = s
  move_found-Spared k (some f) m e ne s =
      write_keeps Error Spared (moves f k) (moves-Spared k f (find_name_lem k m.disk.records e) ne)
        m s

  prune_one-Spared : (k : String) → k ≢ name → Keeps Spared (prune_one k)
  unfolding prune_one mark_deleting
  prune_one-Spared k ne = then_keeps Spared check_guard _ (ask_keeps Spared unguarded reply) (
      then_keeps Spared (mark_deleting k) finish_deletions
        (λ m s. move_found-Spared k (find_name k m.disk.records) m refl ne s)
        finish_deletions-Spared)

  pub prune_loop-Spared :
      (candidates : List String)
      → has_name name candidates ≡ false
      → Keeps Spared (for_each candidates prune_one)
  prune_loop-Spared candidates free =
      for_each_keeps Spared candidates prune_one
        λ k i. prune_one-Spared k (not-In name candidates k i free)

  pub recover-Spared : Keeps Spared recover
  recover-Spared =
      recover_keeps Spared (λ k. k ≢ name) reply deletes-Spared clears-Spared
        finish_deletions-Spared
