-- ===== src/Snapshots/Deleting.antt =====
-- An invariant of the store that each write of a deletion keeps, `finish_deletions` keeps, wherever it is
-- cut short. `Ok` says of which names a subvolume may go.
use mindflayer_elderbrain.Base.{
  ℕ, ◌≡◌, refl, Option, none, some, ◌++◌, eq_iff, inl, inr, Bool-cases, Bool, true, false, not,
  List, [], ◌∷◌, String, str_eq, arith, In, has_name, is_identity, ok,
}
use mindflayer_elderbrain.Durable.{Machine, pure, write, lift, for_each, ◌>>◌}
use mindflayer_elderbrain.Durable.Keeps.{
  Keeps, then_keeps, lift_keeps, require_then_keeps, write_keeps, for_each_keeps,
}
use mindflayer_elderbrain.Snapshots.Store.{
  Error, Metadata, File, Node, missing, other, volume, World, Pin, Retention, read_pins,
  command_failed, conflicting_pin, bad_deletion, read_only, unguarded, not_private,
}
use mindflayer_elderbrain.Snapshots.Retention.{retention_candidates, list_records}
use mindflayer_elderbrain.Snapshots.Operations.{
  answer, ask, check_guard, prepare, pin_ids, deletes, clears, intent_matches, delete_volume,
  finish_one, finish_deletions, recover, moves, move_found, mark_deleting, prune_one, prune_locked,
  prune, find_name, apply_retention,
}

-- A call that answers changes only the replies.
answer_keeps :
    (P : World → Type 0) (e : Error) (l : List Bool) (m : Machine World)
    → P m.disk
    → ((l : List Bool) → P (record m.disk { replies = l }))
    → P (answer e l m).1.disk
answer_keeps P e [] m h k = h
answer_keeps P e (false ∷ l) m h k = k l
answer_keeps P e (true ∷ l) m h k = k l

pub ask_keeps :
    (P : World → Type 0) (e : Error)
    → ((w : World) (l : List Bool) → P w → P (record w { replies = l }))
    → Keeps P (ask e)
unfolding ask
ask_keeps P e k m h = answer_keeps P e m.disk.replies m h (λ l. k m.disk l h)

pub prepare_keeps :
    (P : World → Type 0)
    → ((w : World) (l : List Bool) → P w → P (record w { replies = l }))
    → Keeps P prepare
prepare_keeps P k =
    then_keeps P check_guard (ask not_private) (ask_keeps P unguarded k) (ask_keeps P not_private k)

module _ (P : World → Type 0) (Ok : String → Type 0)
    (reply : (w : World) (l : List Bool) → P w → P (record w { replies = l }))
    (deleted : (k : String) (w : World) → Ok k → P w → P (deletes k w))
    (cleared : (k : String) (w : World) → P w → P (clears k w)) where
  delete_some :
      (k : String) (n : Node)
      → Ok k
      → Keeps P ((λ m. lift (read_only n) m) >> (ask command_failed >> write (deletes k)))
  delete_some k n o =
      lift_keeps P (λ _. read_only n) (λ _. ask command_failed >> write (deletes k))
        (λ u m r h.
          then_keeps P (ask command_failed) (write (deletes k)) (ask_keeps P command_failed reply)
            (write_keeps Error P (deletes k) (λ w. deleted k w o)) m h)

  delete_volume_keeps : (k : String) (n : Node) → Ok k → Keeps P (delete_volume k n)
  unfolding delete_volume
  delete_volume_keeps k missing o = λ m h. h
  delete_volume_keeps k other o = delete_some k other o
  delete_volume_keeps k (volume ro) o = delete_some k (volume ro) o

  pub finish_one_keeps :
      (protected : List String) (f : File Metadata)
      → (has_name f.name protected ≡ false → Ok f.name)
      → Keeps P (finish_one protected f)
  unfolding finish_one
  finish_one_keeps protected f o =
      require_then_keeps P (not (has_name f.name protected)) conflicting_pin _ λ free.
        require_then_keeps P (is_identity f.name) bad_deletion _ λ _.
          require_then_keeps P f.is_private bad_deletion _ λ _.
            require_then_keeps P (intent_matches f.name f.contents) bad_deletion _ λ _.
              then_keeps P check_guard _ (ask_keeps P unguarded reply) (
                then_keeps P (λ m. delete_volume f.name (m.disk.subvolume f.name) m)
                  (write (clears f.name))
                  (λ m h.
                    delete_volume_keeps f.name (m.disk.subvolume f.name) (o (ground arith)) m h)
                  (write_keeps Error P (clears f.name) (cleared f.name)))

  pub finish_deletions_keeps :
      ((w : World) (pins : List Pin) (f : File Metadata)
        → P w
        → read_pins w ≡ ok pins
        → In f w.deleting
        → has_name f.name (pin_ids pins) ≡ false
        → Ok f.name)
      → Keeps P finish_deletions
  unfolding finish_deletions
  finish_deletions_keeps may =
      lift_keeps P read_pins (λ pins m. for_each m.disk.deleting (finish_one (pin_ids pins)) m)
        (λ pins m r h.
          for_each_keeps P m.disk.deleting (finish_one (pin_ids pins))
            (λ f i. finish_one_keeps (pin_ids pins) f (may m.disk pins f h r i)) m h)

  pub recover_keeps : Keeps P finish_deletions → Keeps P recover
  unfolding recover
  recover_keeps k = then_keeps P prepare finish_deletions (prepare_keeps P reply) k

pub find_name_lem :
    (k : String) (fs : List (File Metadata)) {f : File Metadata}
    → find_name k fs ≡ some f
    → f.name ≡ k
find_name_lem k [] h = cc
find_name_lem k (g ∷ fs) {f} h = elim (Bool-cases (str_eq g.name k)) [
  | inl same ↦ ground (arith, eq_iff g.name k)
  | inr differ ↦ find_name_lem k fs (rw differ at h)
]

-- The same of `prune`, whose only other write moves a record to the intents.
module _ (P : World → Type 0)
    (reply : (w : World) (l : List Bool) → P w → P (record w { replies = l }))
    (finished : Keeps P finish_deletions)
    (moved : (f : File Metadata) (k : String) (w : World)
      → f.name ≡ k
      → P w
      → P (moves f k w)) where
  move_found_keeps :
      (k : String) (o : Option (File Metadata)) (m : Machine World)
      → find_name k m.disk.records ≡ o
      → P m.disk
      → P (move_found o k m).1.disk
  move_found_keeps k none m e h = h
  move_found_keeps k (some f) m e h =
      write_keeps Error P (moves f k) (λ w. moved f k w (find_name_lem k m.disk.records e)) m h

  prune_one_keeps : (k : String) → Keeps P (prune_one k)
  unfolding prune_one mark_deleting
  prune_one_keeps k = then_keeps P check_guard _ (ask_keeps P unguarded reply) (
      then_keeps P (mark_deleting k) finish_deletions
        (λ m h. move_found_keeps k (find_name k m.disk.records) m refl h) finished)

  pub prune_locked_keeps :
      (keep : ℕ) (protected : List String) → Keeps P (prune_locked keep protected)
  unfolding prune_locked
  prune_locked_keeps keep protected = then_keeps P finish_deletions _ finished (
      lift_keeps P list_records _ λ cs m e h.
        lift_keeps P read_pins _
          (λ qs m' e' h'.
            lift_keeps P (λ _. retention_candidates cs keep (protected ++ pin_ids qs)) _
              (λ chosen m'' e'' h''.
                then_keeps P (for_each chosen prune_one) (pure chosen)
                  (for_each_keeps P chosen prune_one (λ k i. prune_one_keeps k)) (λ n x. x) m'' h'')
              m' h')
          m h)

  pub prune_keeps : (keep : ℕ) (protected : List String) → Keeps P (prune keep protected)
  unfolding prune
  prune_keeps keep protected =
      then_keeps P prepare _ (prepare_keeps P reply) (prune_locked_keeps keep protected)

  pub apply_retention_keeps : (r : Retention) (k : String) → Keeps P (apply_retention r k)
  apply_retention_keeps r k m h = elim (Bool-cases r.enabled) [
    | inl e ↦ rw e (
        then_keeps P (prune_locked r.keep (k ∷ [])) (pure tt) (prune_locked_keeps r.keep (k ∷ []))
          (λ n x. x) m h)
    | inr e ↦ rw e h
  ]
