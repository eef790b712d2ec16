-- ===== src/Restore/Slot.antt =====
-- The place that one restore target has on the disk (appliance/lib/restore_transaction.py): the
-- live tree, and the three trees in its directory `.elderbrain-restore-<id>-<name>`.
use mindflayer_elderbrain.Base.{
  ℕ, Bool, true, false, Option, none, some, List, [], if◌then◌else◌, not, ◌&&◌,
}
use mindflayer_elderbrain.Durable.{Action, pure, raise, write, ◌>>◌}

pub data Error : Type 0 where
  no_targets unsafe_target targets_overlap journal_in_target : Error
  no_journal journal_exists mapping_changed bad_identity bad_record wrong_sources : Error
  missing_file file_exists symlink_source special_source missing_key : Error
  not_ready not_installed already_committed : Error

-- A file by its bytes, or a folder by what stands below it in some serialisation; `folder []` is
-- the empty folder.
pub data Tree : Type 0 where
  file folder : List ℕ → Tree

pub record Slot : Type 0 where
  pub target : Option Tree
  pub located : Bool
  pub incoming : Option Tree
  pub previous : Option Tree
  pub rejected : Option Tree

pub data Place : Type 0 where
  target incoming previous rejected : Place

abbrev pub look : Place → Slot → Option Tree
look Place.target s = s.target
look Place.incoming s = s.incoming
look Place.previous s = s.previous
look Place.rejected s = s.rejected

abbrev pub put : Place → Option Tree → Slot → Slot
put Place.target t s = record s { target = t }
put Place.incoming t s = record s { incoming = t }
put Place.previous t s = record s { previous = t }
put Place.rejected t s = record s { rejected = t }

-- `path.exists()`
abbrev pub exists : Option Tree → Bool
exists none = false
exists (some t) = true

-- POSIX `rename` replaces a file by a file, and an empty folder by a folder.
abbrev pub replaces : Tree → Option Tree → Bool
replaces t none = true
replaces (file a) (some (file b)) = true
replaces (folder a) (some (folder [])) = true
replaces _ _ = false

abbrev pub has_parent : Place → Slot → Bool
has_parent Place.target s = true
has_parent _ s = s.located

abbrev rename_tree : Place → Place → Option Tree → Action Error Slot (Unit {0})
rename_tree a b none m = raise missing_file m
rename_tree a b (some t) m =
    if has_parent b m.disk && replaces t (look b m.disk)
    then write (λ s. put a none (put b (some t) s)) m
    else raise file_exists m

-- `os.rename(a, b)`
abbrev pub rename : Place → Place → Action Error Slot (Unit {0})
rename a b m = rename_tree a b (look a m.disk) m

-- `location.mkdir(mode=0o700)`
abbrev pub mkdir : Action Error Slot (Unit {0})
mkdir m = if m.disk.located then raise file_exists m else write (λ s. record s { located = true }) m

-- What `copy_owned` may be given: a symbolic link, a file or folder, or anything else.
pub data Source : Type 0 where
  symlink : Source
  tree : Tree → Source
  special : Source

-- `copy_owned(source, location / "incoming")`: a machine that stops while the copy runs leaves part
-- of it, `partial t`.
unfoldable pub copy_owned : (Tree → Tree) → Source → Action Error Slot (Unit {0})
copy_owned partial symlink = raise symlink_source
copy_owned partial special = raise special_source
copy_owned partial (tree t) =
    write (λ s. record s { incoming = some (partial t) })
    >> write (λ s. record s { incoming = some t })

-- The body of the loop of `prepare`.
unfoldable pub prepare_one : (Tree → Tree) → Option Source → Action Error Slot (Unit {0})
unfolding copy_owned
prepare_one partial none = mkdir >> raise missing_key
prepare_one partial (some source) = mkdir >> copy_owned partial source

-- The body of the loop of `apply`, for a target that existed or did not.
unfoldable pub apply_one : Bool → Action Error Slot (Unit {0})
apply_one true = rename Place.target Place.previous >> rename Place.incoming Place.target
apply_one false = rename Place.incoming Place.target

-- The body of the loop of `rollback`.
unfoldable pub rollback_one : Bool → Action Error Slot (Unit {0})
rollback_one existed m =
    if exists m.disk.previous
    then (if exists m.disk.target
        then (rename Place.target Place.rejected >> rename Place.previous Place.target) m
        else rename Place.previous Place.target m)
    else (if not existed && not (exists m.disk.incoming) && exists m.disk.target
        then rename Place.target Place.rejected m
        else (pure tt m))
