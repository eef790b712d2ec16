-- ===== src/Snapshots/Complete.antt =====
-- Every record of the store stands for a whole read-only subvolume: what each operation does to that.
use mathlib.Core.Bool.{false≢true}
use mindflayer_elderbrain.Base.{
  ℕ, ◌≡◌, ◌≢◌, refl, sym, ◌∙◌, inl, inr, ◌||◌, In-cases, Bool, true, false, List, [], ◌∷◌, String,
  str_eq, eq_iff, arith, In, has_name, has_name-ne, str_eq-true, str_eq-false, Bool-cases,
}
use mindflayer_elderbrain.Durable.Keeps.{Keeps, then_keeps}
use mindflayer_elderbrain.Snapshots.Store.{Metadata, File, volume, World, Retention}
use mindflayer_elderbrain.Snapshots.Deleting.{
  prepare_keeps, finish_deletions_keeps, prune_keeps, apply_retention_keeps,
}
use mindflayer_elderbrain.Snapshots.Pruning.{has_name-drop_name}
use mindflayer_elderbrain.Snapshots.Operations.{
  file_names, prepare, drop_name, deletes, clears, finish_deletions, recover, moves, prune,
  apply_retention,
}

-- What stands behind the record `k`: a read-only subvolume, which no intent names.
abbrev pub IsWhole : World → String → Type 0
IsWhole w k = (w.subvolume k ≡ volume true) × (has_name k (file_names w.deleting) ≡ false)

abbrev pub IsComplete : World → Type 0
IsComplete w = (k : String) → has_name k (file_names w.records) ≡ true → IsWhole w k

pub reply-IsComplete :
    (w : World) (l : List Bool) → IsComplete w → IsComplete (record w { replies = l })
reply-IsComplete w l h = h

-- While `finish_deletions` runs, the records stay as they are.
abbrev Fixed : List (File Metadata) → World → Type 0
Fixed fs w = IsComplete w × (w.records ≡ fs)

deletes-Fixed :
    (fs : List (File Metadata)) (k : String) (w : World)
    → has_name k (file_names fs) ≡ false
    → Fixed fs w
    → Fixed fs (deletes k w)
deletes-Fixed fs k w free (h, e) = (
  (λ j listed.
      let (whole, quiet) = h j listed in
      (rw (str_eq-false j k (has_name-ne j k (file_names fs) (rw e at listed) free)) whole, quiet)),
  e,
)

clears-Fixed :
    (fs : List (File Metadata)) (k : String) (w : World) → Fixed fs w → Fixed fs (clears k w)
clears-Fixed fs k w (h, e) = (
  (λ j listed. let (whole, quiet) = h j listed in (whole, has_name-drop_name j k w.deleting quiet)),
  e,
)

In-names :
    (f : File Metadata) (fs : List (File Metadata))
    → In f fs
    → has_name f.name (file_names fs) ≡ true
In-names f [] i = elim i [ ]
In-names f (g ∷ fs) i =
    In-cases f g fs i (λ e. ground (arith, eq_iff g.name f.name))
      (λ j. ground (arith, In-names f fs j))

intent_unlisted :
    (w : World) (f : File Metadata)
    → IsComplete w
    → In f w.deleting
    → has_name f.name (file_names w.records) ≡ false
intent_unlisted w f h i = elim (Bool-cases (has_name f.name (file_names w.records))) [
  | inl listed ↦ cc ((h f.name listed).1, In-names f w.deleting i)
  | inr e ↦ e
]

pub finish_deletions-IsComplete : Keeps IsComplete finish_deletions
finish_deletions-IsComplete m h =
    (finish_deletions_keeps (Fixed m.disk.records)
      (λ k. has_name k (file_names m.disk.records) ≡ false) (λ w l x. x)
      (deletes-Fixed m.disk.records) (clears-Fixed m.disk.records)
      (λ w qs f x r i free. rw (← x.1) (intent_unlisted w f x.0 i)) m (h, refl)).0

pub recover-IsComplete : Keeps IsComplete recover
unfolding recover
recover-IsComplete =
    then_keeps IsComplete prepare finish_deletions (prepare_keeps IsComplete reply-IsComplete)
      finish_deletions-IsComplete

other_head :
    (j k : String) (f : File Metadata) (fs : List (File Metadata))
    → str_eq f.name k ≡ false
    → (has_name j (file_names (drop_name k fs)) ≡ true
        → (j ≢ k) × (has_name j (file_names fs) ≡ true))
    → (str_eq f.name j || has_name j (file_names (drop_name k fs))) ≡ true
    → (j ≢ k) × ((str_eq f.name j || has_name j (file_names fs)) ≡ true)
other_head j k f fs differ ih h = elim (Bool-cases (str_eq f.name j)) [
  | inl same ↦ (
    (λ e. absurd (false≢true (sym differ ∙ (eq_iff f.name k).1 (str_eq-true f.name j same ∙ e)))),
    rw same refl,
  )
  | inr other ↦ let (ne, i) = ih (rw other at h) in (ne, ground arith)
]

drop_name-other :
    (j k : String) (fs : List (File Metadata))
    → has_name j (file_names (drop_name k fs)) ≡ true
    → (j ≢ k) × (has_name j (file_names fs) ≡ true)
drop_name-other j k [] h = cc
drop_name-other j k (f ∷ fs) h = elim (Bool-cases (str_eq f.name k)) [
  | inl same ↦ let (ne, i) = drop_name-other j k fs (rw same at h) in (ne, ground arith)
  | inr differ ↦ other_head j k f fs differ (drop_name-other j k fs) (rw differ at h)
]

moves-IsComplete :
    (f : File Metadata) (k : String) (w : World)
    → f.name ≡ k
    → IsComplete w
    → IsComplete (moves f k w)
moves-IsComplete f k w e h j listed =
    let (ne, old) = drop_name-other j k w.records listed in
    let (whole, quiet) = h j old in
    (
      whole,
      rw (str_eq-false f.name j (λ x. ne (sym x ∙ e))) (has_name-drop_name j k w.deleting quiet),
    )

pub prune-IsComplete :
    (keep : ℕ) (protected : List String) → Keeps IsComplete (prune keep protected)
prune-IsComplete =
    prune_keeps IsComplete reply-IsComplete finish_deletions-IsComplete moves-IsComplete

pub apply_retention-IsComplete :
    (r : Retention) (k : String) → Keeps IsComplete (apply_retention r k)
apply_retention-IsComplete =
    apply_retention_keeps IsComplete reply-IsComplete finish_deletions-IsComplete moves-IsComplete
