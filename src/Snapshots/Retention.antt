-- ===== src/Snapshots/Retention.antt =====
-- `retention_candidates` of appliance/lib/local_snapshots.py: which checkpoints retention removes.
pub mod Newest
use Prim.Native.String.{compare}
use text.Mathlib.Text.{is_lt}
use mathlib.Core.List.{reverse}
use mindflayer_elderbrain.Base.{
  ℕ, Bool, true, false, not, ◌&&◌, ◌||◌, List, [], ◌∷◌, ◌++◌, map, String, if◌then◌else◌, ltb, ◌==◌,
  between, every, select, take, is_identity, has_name, Result, ok, guard, ◌>>=◌, ◌>>◌,
}
use mindflayer_elderbrain.Snapshots.Store.{
  Error, bad_keep, bad_protected, Checkpoint, World, collect, read_checkpoint,
}

-- `(a['createdAt'], a['id']) > (b['createdAt'], b['id'])`
abbrev pub is_after : Checkpoint → Checkpoint → Bool
is_after a b =
    ltb b.created_at a.created_at || (a.created_at == b.created_at && is_lt (compare b.id a.id))

abbrev pub insert : Checkpoint → List Checkpoint → List Checkpoint
insert c [] = c ∷ []
insert c (d ∷ rest) = if is_after d c then d ∷ insert c rest else c ∷ d ∷ rest

-- `sorted(records, key=..., reverse=True)`: the newest first.
unfoldable pub newest_first : List Checkpoint → List Checkpoint
newest_first [] = []
newest_first (c ∷ rest) = insert c (newest_first rest)

abbrev pub ids : List Checkpoint → List String
ids [] = []
ids (c ∷ rest) = c.id ∷ ids rest

-- `{value['id'] for value in ordered[:keep]} | set(protected)`
abbrev pub retained : List Checkpoint → ℕ → List String → List String
retained ordered keep protected = ids (take keep ordered) ++ protected

unfoldable pub retention_candidates : List Checkpoint → ℕ → List String → Result Error (List String)
retention_candidates records keep protected = do
  guard (between 1 1000 keep) bad_keep
  guard (every is_identity protected) bad_protected
  ok (
      select (λ k. not (has_name k (retained (newest_first records) keep protected)))
        (reverse (ids (newest_first records))))

-- `records`
unfoldable pub list_records : World → Result Error (List Checkpoint)
unfolding read_checkpoint
list_records w = do all ← collect (read_checkpoint w) w.records; ok (newest_first all)
