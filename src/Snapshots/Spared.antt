-- ===== src/Snapshots/Spared.antt =====
-- Which checkpoints a call of `prune` leaves alone, wherever it is cut short.
use mindflayer_elderbrain.Base.{
  ℕ, ◌≤◌, ◌≡◌, refl, sym, ◌∙◌, ap, inl, inr, Bool, true, false, List, [], ◌∷◌, ◌++◌, String, arith,
  In, has_name, has_name-append, Bool-cases, ok, ok-injective, bind-ok, then-ok,
}
use mindflayer_elderbrain.Durable.{
  Machine, pure, lift, for_each, proceed, proceed_keeps, ◌>>=◌, ◌>>◌,
}
use mindflayer_elderbrain.Durable.Keeps.{Keeps, then_keeps, lift_keeps, lift_at}
use mindflayer_elderbrain.Snapshots.Store.{
  Metadata, File, World, Checkpoint, Pin, read_metadata, read_checkpoint, read_pins, collect,
  read_only,
}
use mindflayer_elderbrain.Snapshots.Retention.{retention_candidates, newest_first, list_records}
use mindflayer_elderbrain.Snapshots.Retention.Newest.{
  retention_keeps_newest, as_new, candidate_unprotected, newest_first-In, as_new-newest_first,
}
use mindflayer_elderbrain.Snapshots.Deleting.{prepare_keeps, finish_deletions_keeps}
use mindflayer_elderbrain.Snapshots.Operations.{
  file_names, find_name, pin_ids, prepare, finish_deletions, prune_locked, prune_one, prune,
}
use mindflayer_elderbrain.Snapshots.Pruning.{
  IsSpared, finish_deletions-Spared, prune_loop-Spared, reply,
}

collect-metadata :
    (w : World) (fs : List (File Metadata)) (cs : List Checkpoint)
    → collect (read_checkpoint w) fs ≡ ok cs
    → collect read_metadata fs ≡ ok cs
unfolding read_checkpoint
collect-metadata w [] cs h = h
collect-metadata w (f ∷ fs) cs h =
    let (c, hc, h') = bind-ok (read_checkpoint w f) _ h in
    let (rest, hr, h'') = bind-ok (collect (read_checkpoint w) fs) _ h' in
    let (d, hd, k) = bind-ok (read_metadata f) _ hc in
    let (u, k') = then-ok (read_only (w.subvolume f.name)) _ k in
    let same : d ≡ c = ok-injective k' in rw (hd, collect-metadata w fs rest hr, same) h''

-- `list_records` is the sorted list of what the documents say.
list_records-metadata :
    (w : World) (rs cs : List Checkpoint)
    → collect read_metadata w.records ≡ ok rs
    → list_records w ≡ ok cs
    → cs ≡ newest_first rs
unfolding list_records
list_records-metadata w rs cs h l =
    let (all, e, l') = bind-ok (collect (read_checkpoint w) w.records) _ l in
    let same : all ≡ rs = ok-injective (sym (collect-metadata w w.records all e) ∙ h) in
    sym (ok-injective l') ∙ ap newest_first same

-- Why a checkpoint is kept: a valid pin holds it; or no deletion of it is in progress, and it is
-- protected by the caller or among the `keep` newest.
pub data IsKept (w : World) (keep : ℕ) (protected : List String) (ps : List Pin)
    (rs : List Checkpoint) (name : String) : Type 0 where
  by_pin : has_name name (pin_ids ps) ≡ true → IsKept w keep protected ps rs name
  by_caller :
      has_name name (file_names w.deleting) ≡ false
      → has_name name protected ≡ true
      → IsKept w keep protected ps rs name
  by_age :
      (c : Checkpoint)
      → has_name name (file_names w.deleting) ≡ false
      → c.id ≡ name
      → In c rs
      → as_new c rs ≤ keep
      → IsKept w keep protected ps rs name

module _ (w : World) (keep : ℕ) (protected : List String) (ps : List Pin) (rs : List Checkpoint)
    (name : String) (pinned : read_pins w ≡ ok ps)
    (listed : collect read_metadata w.records ≡ ok rs)
    (kept : IsKept w keep protected ps rs name) where
  -- No candidate is a checkpoint that is kept.
  not_candidate :
      (candidates : List String)
      → retention_candidates (newest_first rs) keep (protected ++ pin_ids ps) ≡ ok candidates
      → has_name name candidates ≡ true
      → ⊥
  not_candidate candidates chosen named = elim kept [
    | by_pin held ↦ cc (free, join held)
    | by_caller quiet held ↦ cc (free, caller held)
    | by_age c quiet e i few ↦
        let (f, more) =
          retention_keeps_newest (newest_first rs) keep (protected ++ pin_ids ps) candidates chosen
            c (newest_first-In c rs i) (rw e named) in
        omega (arith, as_new-newest_first c rs)
  ]
    where
      free : has_name name (protected ++ pin_ids ps) ≡ false
      free =
          (candidate_unprotected (newest_first rs) keep (protected ++ pin_ids ps) candidates name
            chosen named).1

      join : has_name name (pin_ids ps) ≡ true → has_name name (protected ++ pin_ids ps) ≡ true
      join held = rw (has_name-append name protected (pin_ids ps), held) (ground arith)

      caller : has_name name protected ≡ true → has_name name (protected ++ pin_ids ps) ≡ true
      caller held = rw (has_name-append name protected (pin_ids ps), held) refl

  -- What the loop over the candidates starts from.
  record IsReady (v : World) : Type 0 where
    spared : IsSpared w name ps v
    records : v.records ≡ w.records

  start : IsReady w
  start = record {
    spared = record {
      subvolume = refl;
      found = refl;
      pins = refl;
      held = elim kept [
        | by_pin held ↦ inl held
        | by_caller quiet held ↦ inr quiet
        | by_age c quiet e i few ↦ inr quiet
      ];
    };
    records = refl;
  }

  same_records : Keeps (λ v. v.records ≡ w.records) finish_deletions
  same_records =
      finish_deletions_keeps (λ v. v.records ≡ w.records) (λ k. Unit) (λ v l h. h) (λ k v o h. h)
        (λ k v h. h) (λ v qs f s r i free. tt)

  ready : Keeps IsReady finish_deletions
  ready m h = record {
    spared = finish_deletions-Spared w name ps pinned m h.spared;
    records = same_records m h.records;
  }

  IsReady-reply : (v : World) (l : List Bool) → IsReady v → IsReady (record v { replies = l })
  IsReady-reply v l r = record { spared = reply w name ps pinned v l r.spared; records = r.records }

  abbrev Good : World → Type 0
  Good v = IsSpared w name ps v

  same_pins : (v : World) (qs : List Pin) → Good v → read_pins v ≡ ok qs → qs ≡ ps
  unfolding read_pins
  same_pins v qs s r = ok-injective (sym r ∙ rw s.pins pinned)

  same_listed :
      (v : World) (cs : List Checkpoint) → IsReady v → list_records v ≡ ok cs → cs ≡ newest_first rs
  same_listed v cs r l = list_records-metadata v rs cs (rw r.records listed) l

  loop :
      (candidates : List String)
      → retention_candidates (newest_first rs) keep (protected ++ pin_ids ps) ≡ ok candidates
      → Keeps Good (for_each candidates prune_one >> pure candidates)
  loop candidates chosen =
      then_keeps Good (for_each candidates prune_one) (pure candidates)
        (prune_loop-Spared w name ps pinned candidates (no_name candidates chosen)) (λ m h. h)
    where
      no_name :
          (candidates : List String)
          → retention_candidates (newest_first rs) keep (protected ++ pin_ids ps) ≡ ok candidates
          → has_name name candidates ≡ false
      no_name candidates chosen = elim (Bool-cases (has_name name candidates)) [
        | inl named ↦ absurd (not_candidate candidates chosen named)
        | inr e ↦ e
      ]

  selection :
      (cs : List Checkpoint) (qs : List Pin)
      → cs ≡ newest_first rs
      → qs ≡ ps
      → Keeps Good (
          lift (retention_candidates cs keep (protected ++ pin_ids qs)) >>= λ candidates.
          (for_each candidates prune_one >> pure candidates))
  selection cs qs e e' =
      lift_keeps Good (λ _. retention_candidates cs keep (protected ++ pin_ids qs)) _
        λ candidates m chosen h. loop candidates (rw (e, e') at chosen) m h

  choose :
      (m : Machine World)
      → IsReady m.disk
      → Good
          (proceed (lift (list_records m.disk) m) λ cs. (λ n. lift (read_pins n.disk) n) >>= λ qs.
            lift (retention_candidates cs keep (protected ++ pin_ids qs)) >>= λ candidates.
            (for_each candidates prune_one >> pure candidates)).1.disk
  choose m h = lift_at Good (list_records m.disk) _ m h.spared λ cs l.
      lift_at Good (read_pins m.disk) _ m h.spared λ qs r.
        selection cs qs (same_listed m.disk cs h l) (same_pins m.disk qs h.spared r) m h.spared

  locked : (m : Machine World) → IsReady m.disk → Good (prune_locked keep protected m).1.disk
  unfolding prune_locked
  locked m h =
      proceed_keeps (λ n. Good n.disk) (finish_deletions m) _ (ready m h).spared
        λ u e g. choose (finish_deletions m).1 (ready m h)

  pub prune-IsSpared :
      (power : ℕ)
      → IsSpared w name ps (prune keep protected (record { disk = w; power = power })).1.disk
  unfolding prune
  prune-IsSpared power =
      let m : Machine World = record { disk = w; power = power } in
      let open_store = prepare_keeps IsReady IsReady-reply m start in
      proceed_keeps (λ n. Good n.disk) (prepare m) _ open_store.spared
        λ u e g. locked (prepare m).1 open_store

-- A checkpoint that a pin holds, or that is among the newest or protected by the caller while no
-- deletion of it is in progress, loses neither its subvolume nor its record to a `prune`, wherever that
-- is cut short, and no pin changes.
pub prune_spares :
    (w : World) (keep : ℕ) (protected : List String) (ps : List Pin) (rs : List Checkpoint)
    (name : String)
    → read_pins w ≡ ok ps
    → collect read_metadata w.records ≡ ok rs
    → IsKept w keep protected ps rs name
    → (power : ℕ)
    → let v = (prune keep protected (record { disk = w; power = power })).1.disk in
      (v.subvolume name ≡ w.subvolume name)
      × (find_name name v.records ≡ find_name name w.records)
      × (v.pins ≡ w.pins)
prune_spares w keep protected ps rs name pinned listed kept power =
    let s = prune-IsSpared w keep protected ps rs name pinned listed kept power in
    (s.subvolume, s.found, s.pins)
