-- ===== src/Restore/Tests.antt =====
-- Runs of a restore at concrete inputs.
use mindflayer_elderbrain.Base.{
  ◌≡◌, refl, true, false, none, some, List, [], ◌∷◌, String, str_eq, eq_iff, arith, In, here, there,
  ok, is_identity, Distinct, if◌then◌else◌,
}
use mindflayer_elderbrain.Durable.{for_each, done, raised}
use mindflayer_elderbrain.Restore.Slot.{
  Tree, Slot, Source, tree, file, folder, already_committed, prepare_one, apply_one,
}
use mindflayer_elderbrain.Restore.Transaction.{
  Disk, Transaction, State, Host, Targets, create, first_entry, names, prepare, apply, rollback,
  read, check_entry, copy_sources, at_target, install, get_key,
}
use mindflayer_elderbrain.Restore.Safety.{
  IsClean, IsRestoredBy, Attempt, apply_until, rollback_until, attempt, attempts, live,
  interrupted_restore_rolls_back,
}
use mindflayer_elderbrain.Restore.Progress.{restore, restore_completes}
use mindflayer_elderbrain.Restore.Disjoint.{IsSafe, create-IsSafe}

abbrev targets : Targets
targets = ("foundry", "srv" ∷ "foundry" ∷ []) ∷ ("host", "srv" ∷ "host" ∷ []) ∷ []

abbrev transaction : Transaction
transaction = record { journal = "var" ∷ "journal.json" ∷ []; targets = targets }

abbrev no_slot : Slot
no_slot = record {
  target = none;
  located = false;
  incoming = none;
  previous = none;
  rejected = none;
}

-- One target exists, the other does not.
abbrev disk : Disk
disk = record {
  journal = none;
  slots = λ k.
      if str_eq k "foundry" then record no_slot { target = some (folder (1 ∷ [])) } else no_slot;
}

abbrev sources : List (String × Source)
sources = ("foundry", tree (folder (2 ∷ []))) ∷ ("host", tree (file (3 ∷ []))) ∷ []

abbrev new_tree : String → Tree
new_tree k = if str_eq k "foundry" then folder (2 ∷ []) else file (3 ∷ [])

abbrev identity : String
identity = "0123456789abcdef0123456789abcdef"

abbrev torn : Tree → Tree
torn t = folder []

disk-IsClean : IsClean disk
disk-IsClean = record { journal = refl; previous = λ k. ground arith; rejected = λ k. ground arith }

targets-Distinct : Distinct (names targets)
targets-Distinct = (λ i. apart i, (λ i. elim i [ ], tt))
  where
    apart : In {A = String} "foundry" ("host" ∷ []) → ⊥
    apart (here _ _ e) = ground (arith, eq_iff "foundry" "host")
    apart (there _ _ i) = elim i [ ]

identity_hex : is_identity identity ≡ true
unfolding is_identity
identity_hex = refl

abbrev cut_short : List Attempt
cut_short = apply_until 2 ∷ rollback_until 1 ∷ apply_until 9 ∷ rollback_until 2 ∷ []

interrupted_restore_rolls_back_example :
    IsRestoredBy transaction
      (live disk)
      (attempts transaction cut_short
        (prepare torn transaction identity sources (record { disk = disk; power = 20 })).1.disk)
      6
interrupted_restore_rolls_back_example =
    interrupted_restore_rolls_back torn transaction identity sources disk disk-IsClean
      targets-Distinct identity_hex 20 cut_short 6 (omega arith)

given : (k : String) → In k (names targets) → get_key k sources ≡ some (tree (new_tree k))
given k (here _ _ e) = ground (arith, eq_iff "foundry" k, eq_iff k "foundry")
given k (there _ _ (here _ _ e)) =
    ground (arith, eq_iff "host" k, eq_iff "foundry" k, eq_iff k "foundry", eq_iff "host" "foundry")
given k (there _ _ (there _ _ i)) = elim i [ ]

restore_completes_example :
    let (x, n) = restore torn transaction identity sources (record { disk = disk; power = 15 }) in
    (x ≡ done (record (first_entry transaction identity disk.slots) { state = State.committed }))
    × ((k : String) → In k (names targets) → live n.disk k ≡ some (new_tree k))
    × ((k : String) → In k (names targets) → (n.disk.slots k).previous ≡ live disk k)
    × (rollback transaction n ≡ (raised already_committed, n))
restore_completes_example =
    restore_completes transaction identity sources new_tree disk disk-IsClean targets-Distinct
      identity_hex (λ k i. ground arith) refl given torn 15 (omega arith)

-- A host on which every path is canonical, every parent a directory, and nothing mounted.
abbrev host : Host
host = record { is_canonical = λ p. true; has_parent_dir = λ p. true; is_mount = λ p. false }

created : create host ("var" ∷ "journal.json" ∷ []) targets ≡ ok transaction
unfolding create
created = refl

create-IsSafe_example :
    (transaction.targets ≡ targets)
    × (transaction.journal ≡ "var" ∷ "journal.json" ∷ [])
    × ((key : String) (target : List String)
        → In (key, target) targets
        → IsSafe host ("var" ∷ "journal.json" ∷ []) targets key target)
create-IsSafe_example = create-IsSafe host ("var" ∷ "journal.json" ∷ []) targets transaction created

-- Cut short by `apply` between its two renames, the live tree is missing until the rollback.
mid_apply :
    live
      (attempts transaction
        (apply_until 2 ∷ [])
        (prepare torn transaction identity sources (record { disk = disk; power = 20 })).1.disk)
      "foundry"
    ≡ none
unfolding attempts attempt prepare apply read check_entry copy_sources for_each at_target
    prepare_one is_identity install apply_one
mid_apply = refl
