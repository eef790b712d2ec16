-- ===== src/Restore/Transaction.antt =====
-- `class RestoreTransaction` of appliance/lib/restore_transaction.py.
-- A path is its list of parts below `/`. The disk holds the journal and one `Slot` for each key.
use mindflayer_elderbrain.Base.{
  ℕ, ◌≡◌, Bool, true, false, not, ◌&&◌, ◌||◌, Option, none, some, List, [], ◌∷◌, ◌++◌, map, String,
  str_eq, if◌then◌else◌, Result, ok, err, guard, length, ltb, every, some_of, has_name, all_in,
  is_identity,
}
use mindflayer_elderbrain.Base
use mindflayer_elderbrain.Durable.{
  Action, pure, raise, gets, lift, write, require, for_each, ◌>>=◌, ◌>>◌,
}
use mindflayer_elderbrain.Restore.Slot.{
  Error, no_targets, unsafe_target, targets_overlap, journal_in_target, no_journal, journal_exists,
  mapping_changed, bad_identity, bad_record, wrong_sources, not_ready, not_installed,
  already_committed, Tree, Slot, Source, exists, prepare_one, apply_one, rollback_one,
}

abbrev pub FilePath : Type 0
FilePath = List String

abbrev pub path_eq : FilePath → FilePath → Bool
path_eq [] [] = true
path_eq (a ∷ p) (b ∷ q) = str_eq a b && path_eq p q
path_eq _ _ = false

-- `path.is_relative_to(folder)`
abbrev pub is_relative_to : FilePath → FilePath → Bool
is_relative_to path [] = true
is_relative_to [] (b ∷ folder) = false
is_relative_to (a ∷ path) (b ∷ folder) = str_eq a b && is_relative_to path folder

-- What the constructor asks the file system: `target.resolve() == target`,
-- `target.parent.is_dir()` and `target.is_mount()`.
pub record Host : Type 0 where
  pub is_canonical : FilePath → Bool
  pub has_parent_dir : FilePath → Bool
  pub is_mount : FilePath → Bool

abbrev pub Targets : Type 0
Targets = List (String × FilePath)

pub record Transaction : Type 0 where
  pub journal : FilePath
  pub targets : Targets

-- `len(target.parts) < 3` counts the root.
abbrev pub is_unsafe : Host → String → FilePath → Bool
is_unsafe h key target =
    str_eq key ""
    || ltb (length target) 2
    || not (h.is_canonical target)
    || not (h.has_parent_dir target)
    || h.is_mount target

abbrev pub overlaps : Targets → String → FilePath → Bool
overlaps all key target =
    some_of (λ e. not (str_eq (e.0) key) && (path_eq target (e.1) || is_relative_to target (e.1)))
      all

unfoldable pub check_target :
    Host → FilePath → Targets → String → FilePath → Result Error (Unit {0})
check_target h journal all key target =
    if is_unsafe h key target
    then err unsafe_target
    else if overlaps all key target
    then err targets_overlap
    else if is_relative_to journal target
    then err journal_in_target
    else ok tt

unfoldable pub check_targets : Host → FilePath → Targets → Targets → Result Error (Unit {0})
check_targets h journal all [] = ok tt
check_targets h journal all ((key, target) ∷ rest) =
    Base.◌>>◌ (check_target h journal all key target) (check_targets h journal all rest)

-- `__init__`
unfoldable pub create : Host → FilePath → Targets → Result Error Transaction
unfolding check_target check_targets
create h journal [] = err no_targets
create h journal (t ∷ ts) =
    Base.◌>>=◌ (check_targets h journal (t ∷ ts) (t ∷ ts))
      λ _. ok (record { journal = journal; targets = t ∷ ts })

pub data State : Type 0 where
  preparing ready installing installed rolling_back rolled_back committed : State

abbrev pub is_state : State → State → Bool
is_state preparing preparing = true
is_state ready ready = true
is_state installing installing = true
is_state installed installed = true
is_state rolling_back rolling_back = true
is_state rolled_back rolled_back = true
is_state committed committed = true
is_state _ _ = false

-- The journal's record.
pub record Entry : Type 0 where
  pub identity : String
  pub state : State
  pub targets : Targets
  pub existed : List (String × Bool)

pub record Disk : Type 0 where
  pub journal : Option Entry
  pub slots : String → Slot

abbrev pub names {ℓ} : {A : Type ℓ} → List (String × A) → List String
names [] = []
names ((k, a) ∷ rest) = k ∷ names rest

abbrev pub get_key {ℓ} : {A : Type ℓ} → String → List (String × A) → Option A
get_key k [] = none
get_key k ((j, a) ∷ rest) = if str_eq j k then some a else get_key k rest

abbrev pub same_names : List String → List String → Bool
same_names xs ys = all_in xs ys && all_in ys xs

-- Equality of two dicts: the same keys, and the same path at each.
abbrev maps_to : Targets → String → FilePath → Bool
maps_to d k p = elim (get_key k d) [ some q ↦ path_eq q p | none ↦ false ]

abbrev pub same_targets : Targets → Targets → Bool
same_targets xs ys = same_names (names xs) (names ys) && every (λ e. maps_to ys (e.0) (e.1)) xs

unfoldable pub check_entry : Transaction → Option Entry → Result Error Entry
check_entry t none = err no_journal
check_entry t (some r) =
    if not (same_targets r.targets t.targets)
    then err mapping_changed
    else if not (is_identity r.identity)
    then err bad_identity
    else if not (same_names (names r.existed) (names t.targets))
    then err bad_record
    else ok r

unfoldable pub read : Transaction → Action Error Disk Entry
read t m = lift (check_entry t m.disk.journal) m

-- `record["state"] = state; save_record(self.journal, record)`: `save_record` writes a temporary
-- file and replaces the journal by it, which is one durable write.
abbrev pub save : Entry → State → Action Error Disk (Unit {0})
save r state = write (λ d. record d { journal = some (record r { state = state }) })

-- An action on the place of one target.
abbrev pub set_slot : String → Slot → (String → Slot) → String → Slot
set_slot k s slots j = if str_eq j k then s else slots j

unfoldable pub at_target : String → Action Error Slot (Unit {0}) → Action Error Disk (Unit {0})
at_target k a m =
    let (r, n) = a (record { disk = m.disk.slots k; power = m.power }) in
    (r, record { disk = record m.disk { slots = set_slot k n.disk m.disk.slots }; power = n.power })

abbrev pub existed_at : Entry → String → Bool
existed_at r k = elim (get_key k r.existed) [ some b ↦ b | none ↦ false ]

-- The entry that `prepare` writes.
abbrev pub first_entry : Transaction → String → (String → Slot) → Entry
first_entry t identity slots = record {
  identity = identity;
  state = preparing;
  targets = t.targets;
  existed = map (λ e. (e.0, exists (slots (e.0)).target)) t.targets;
}

unfoldable pub copy_sources :
    (Tree → Tree) → Transaction → Entry → List (String × Source) → Action Error Disk Entry
copy_sources partial t r sources = do
  save r preparing
  for_each (names t.targets) (λ k. at_target k (prepare_one partial (get_key k sources)))
  save r ready
  pure (record r { state = ready })

abbrev pub is_absent : Option Entry → Bool
is_absent none = true
is_absent (some r) = false

unfoldable pub prepare :
    (Tree → Tree) → Transaction → String → List (String × Source) → Action Error Disk Entry
prepare partial t identity sources = do
  journal ← gets (λ d. d.journal)
  require (is_absent journal) journal_exists
  require (same_names (names sources) (names t.targets)) wrong_sources
  slots ← gets (λ d. d.slots)
  copy_sources partial t (first_entry t identity slots) sources

unfoldable pub install : Transaction → Entry → Action Error Disk Entry
install t r = do
  save r installing
  for_each (names t.targets) (λ k. at_target k (apply_one (existed_at r k)))
  save r installed
  pure (record r { state = installed })

unfoldable pub apply : Transaction → Action Error Disk Entry
apply t = do r ← read t; require (is_state r.state ready) not_ready; install t r

abbrev pub reversed {ℓ} : {A : Type ℓ} → List A → List A
reversed [] = []
reversed (x ∷ xs) = reversed xs ++ (x ∷ [])

unfoldable pub undo : Transaction → Entry → Action Error Disk Entry
undo t r = do
  save r rolling_back
  for_each (reversed (names t.targets)) (λ k. at_target k (rollback_one (existed_at r k)))
  save r rolled_back
  pure (record r { state = rolled_back })

unfoldable pub rollback_from : Transaction → Entry → State → Action Error Disk Entry
rollback_from t r committed = raise already_committed
rollback_from t r rolled_back = pure r
rollback_from t r _ = undo t r

unfoldable pub rollback : Transaction → Action Error Disk Entry
rollback t = do r ← read t; rollback_from t r r.state

unfoldable pub commit : Transaction → Action Error Disk Entry
commit t = do
  r ← read t
  require (is_state r.state installed) not_installed
  save r committed
  pure (record r { state = committed })
