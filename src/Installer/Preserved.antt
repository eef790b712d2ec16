-- ===== src/Installer/Preserved.antt =====
-- What a storage plan does to the disk.
use mathlib.Core.Path.{subst}
use mindflayer_elderbrain.Base.{
  ℕ, ◌*◌, ◌≡◌, ◌≢◌, refl, ◌∙◌, ap, ◌⊎◌, inl, inr, Bool, true, false, not, ◌&&◌, ◌||◌, Option, none,
  some, List, [], ◌∷◌, String, eq_iff, leb, ◌==◌, ==_iff, length, Value, get, text_is, ok, guard,
  or_raise, bind-ok, then-ok, guard-ok, ok-injective, In, In-cases, here, there,
}
use mindflayer_elderbrain.Installer.Plan.{
  is_uuid, bad_uuid, no_serial, ambiguous_serial, unsafe_target, too_small, bad_metadata,
  bad_layout, bad_numbers, bad_flags, bad_sizes, bad_filesystems, ambiguous_uuid, preserve,
  Partition, Action, disk, partition, format, mount, layout, mib, root_size, min_data_size,
  is_target, is_blank, select_disk, with_serial, only, partitions_of, by_number, number_of, text_of,
  number_is, same_text, marker_matches, has_numbers, check_partition, each, has_fstype,
  filesystems_match, with_uuid, check_uuid, check_preserved, build, plan,
}

-- The partition that stands on the disk under this number has this size and this flag.
abbrev pub Stands : Value → Partition → Type 0
Stands target p =
    (existing : Value) × (by_number p.number (partitions_of target) ≡ some existing)
    × (number_of "size" existing ≡ p.size)
    × (text_of "flag" existing ≡ p.flag)

-- An action that keeps what is on the disk; only the root file system is made anew.
abbrev pub IsHarmless : Value → String → Action → Type 0
IsHarmless target serial (disk s keep grub wipe) = (s ≡ serial) × (keep ≡ true) × (wipe ≡ false)
IsHarmless target serial (partition p keep grub) = (keep ≡ true) × Stands target p
IsHarmless target serial (format n fstype keep) = (n ≡ 3) ⊎ (keep ≡ true)
IsHarmless target serial (mount n path) = Unit

abbrev pub AreHarmless : Value → String → List Action → Type 0
AreHarmless target serial [] = Unit
AreHarmless target serial (a ∷ rest) = IsHarmless target serial a × AreHarmless target serial rest

pub or_raise-ok {ℓ} :
    {E A : Type ℓ} (o : Option A) (e : E) {a : A} → or_raise o e ≡ ok a → o ≡ some a
or_raise-ok none e h = cc
or_raise-ok (some b) e h = cc

number_is-true : (n : ℕ) (o : Option ℕ) → number_is n o ≡ true → o ≡ some n
number_is-true n none h = cc
number_is-true n (some m) h = ap some ((==_iff m n).0 h)

pub check_uuid-ok : (o : Option String) {u : String} → check_uuid o ≡ ok u → o ≡ some u
unfolding check_uuid
check_uuid-ok none h = cc
check_uuid-ok (some s) h = ap some (ok-injective (then-ok (guard (is_uuid s) bad_uuid) _ h).1)

same_text-true : (a b : Option String) → same_text a b ≡ true → a ≡ b
same_text-true none none h = refl
same_text-true none (some b) h = cc
same_text-true (some a) none h = cc
same_text-true (some a) (some b) h = ap some ((eq_iff a b).0 h)

sized :
    (last : Bool) (expected actual : Option ℕ) (n : ℕ)
    → last ≡ false
    → expected ≡ some n
    → guard (last || elim expected [ none ↦ true | some k ↦ number_is k actual ]) bad_sizes ≡ ok tt
    → actual ≡ expected
sized true expected actual n small given g = cc
sized false none actual n small given g = cc
sized false (some k) actual n small given g =
    number_is-true k actual (guard-ok (number_is k actual) bad_sizes g)

check_partition_lem :
    (existing : List Value) (p : Partition)
    → check_partition existing p ≡ ok tt
    → (v : Value) × (by_number p.number existing ≡ some v)
      × (text_of "flag" v ≡ p.flag)
      × ((n : ℕ) → p.size ≡ some n → (p.number == 4) ≡ false → number_of "size" v ≡ p.size)
check_partition_lem existing p h =
    let (v, found, h') = bind-ok (or_raise (by_number p.number existing) bad_numbers) _ h in
    let (flags, sizes) = then-ok (guard (same_text (text_of "flag" v) p.flag) bad_flags) _ h' in
    (
      v,
      or_raise-ok (by_number p.number existing) bad_numbers found,
      same_text-true (text_of "flag" v) p.flag
          (guard-ok (same_text (text_of "flag" v) p.flag) bad_flags flags),
      λ n size small. sized (p.number == 4) p.size (number_of "size" v) n small size sizes,
    )

module _ (target : Value) (size : ℕ)
    (checked : each (check_partition (partitions_of target)) (layout none) ≡ ok tt)
    (data_partition : Value) (found : by_number 4 (partitions_of target) ≡ some data_partition)
    (data_size : number_of "size" data_partition ≡ some size) where
  abbrev existing : List Value
  existing = partitions_of target

  small_Stands :
      (p : Partition) (n : ℕ)
      → p.size ≡ some n
      → (p.number == 4) ≡ false
      → check_partition existing p ≡ ok tt
      → Stands target p
  small_Stands p n given small h =
      let (v, here_, flag, sizes) = check_partition_lem existing p h in
      (v, here_, sizes n given small, flag)

  each_ends :
      (ps : List Partition) (p : Partition)
      → each (check_partition existing) ps ≡ ok tt
      → In p ps
      → check_partition existing p ≡ ok tt
  each_ends [] p h i = elim i [ ]
  each_ends (q ∷ ps) p h i =
      let (first, rest) = then-ok (check_partition existing q) _ h in
      In-cases p q ps i (λ e. rw e first) (λ j. each_ends ps p rest j)

  data_Stands : Stands target (record { number = 4; size = some size; flag = none })
  data_Stands =
      let last : Partition = record { number = 4; size = none; flag = none } in
      let (v, here_, flag, sizes) = check_partition_lem existing last (
        each_ends (layout none) last checked (there _ _ (there _ _ (there _ _ (here _ _ refl))))) in
      let same : v ≡ data_partition = cc (here_, found) in
      (data_partition, found, data_size, rw same at flag)

  numbered :
      (q : Partition) (n : ℕ)
      → q.size ≡ some n
      → (q.number == 4) ≡ false
      → In q (layout none)
      → Stands target q
  numbered q n given small i = small_Stands q n given small (each_ends (layout none) q checked i)

  pub build-AreHarmless :
      (serial : String) (uefi : Bool)
      → AreHarmless target serial (build serial true uefi (some size))
  unfolding build
  build-AreHarmless serial uefi = (
    (refl, refl, refl),
    (
      (refl, numbered _ mib refl refl (here _ _ refl)),
      (
        (refl, numbered _ (512 * mib) refl refl (there _ _ (here _ _ refl))),
        (
          (refl, numbered _ root_size refl refl (there _ _ (there _ _ (here _ _ refl)))),
          ((refl, data_Stands), (inr refl, (tt, (inl refl, (tt, (inr refl, (tt, tt))))))),
        ),
      ),
    ),
  )

third : (a b c d e : Bool) → (a && b && c && d && e) ≡ true → c ≡ true
third true true true d e h = refl
third true true false d e h = cc
third true false c d e h = cc
third false b c d e h = cc

filesystems-uuid :
    (existing : List Value) (u : String) (v : Value) (n : ℕ)
    → filesystems_match existing u v n ≡ true
    → text_is u (get "uuid" v) ≡ true
filesystems-uuid existing u v n =
    third (leb min_data_size n) (text_is "btrfs" (get "fstype" v)) (text_is u (get "uuid" v))
      (has_fstype "vfat" (by_number 2 existing)) (has_fstype "ext4" (by_number 3 existing))

-- What the checks of the preserve branch establish.
check_preserved_lem :
    (inventory : List Value) (target : Value) (serial : String) (uuid : Option String)
    (metadata : Value) (size : ℕ) (uefi : Bool)
    → check_preserved inventory target serial uuid metadata ≡ ok size
    → AreHarmless target serial (build serial true uefi (some size))
      × (u : String) × (uuid ≡ some u)
      × (marker_matches metadata u serial ≡ true)
      × (length (with_uuid u inventory) ≡ 1)
      × (v : Value) × (by_number 4 (partitions_of target) ≡ some v)
      × (text_is u (get "uuid" v) ≡ true)
unfolding check_preserved
check_preserved_lem inventory target serial uuid metadata size uefi h =
    let (u, given, h1) = bind-ok (check_uuid uuid) _ h in
    let (marked, h2) = then-ok (guard (marker_matches metadata u serial) bad_metadata) _ h1 in
    let (a, appliance, h3) = bind-ok (check_uuid (text_of "appliance_id" metadata)) _ h2 in
    let (gpt, h4) =
      then-ok
        (guard (text_is "gpt" (get "ptable" target) && length (partitions_of target) == 4)
          bad_layout)
        _ h3 in
    let (numbers, h5) = then-ok (guard (has_numbers (partitions_of target)) bad_numbers) _ h4 in
    let (checked, h6) =
      then-ok (each (check_partition (partitions_of target)) (layout none)) _ h5 in
    let (v, found, h7) = bind-ok (or_raise (by_number 4 (partitions_of target)) bad_numbers) _ h6 in
    let (n, sized', h8) = bind-ok (or_raise (number_of "size" v) bad_filesystems) _ h7 in
    let (systems, h9) =
      then-ok (guard (filesystems_match (partitions_of target) u v n) bad_filesystems) _ h8 in
    let (unique, h10) = then-ok (guard (length (with_uuid u inventory) == 1) ambiguous_uuid) _ h9 in
    let same : n ≡ size = ok-injective h10 in
    let found' = or_raise-ok (by_number 4 (partitions_of target)) bad_numbers found in
    let size' = or_raise-ok (number_of "size" v) bad_filesystems sized' ∙ ap some same in
    let all = guard-ok (filesystems_match (partitions_of target) u v n) bad_filesystems systems in
    (
      build-AreHarmless target size checked v found' size' serial uefi,
      u,
      check_uuid-ok uuid given,
      guard-ok (marker_matches metadata u serial) bad_metadata marked,
      (==_iff _ 1).0 (guard-ok (length (with_uuid u inventory) == 1) ambiguous_uuid unique),
      v,
      found',
      filesystems-uuid (partitions_of target) u v n all,
    )

-- A disk that `select_disk` returns is the only one of that serial in the inventory.
select_disk_lem :
    (inventory : List Value) (serial : String) (target : Value)
    → select_disk inventory serial ≡ ok target
    → (only (with_serial serial inventory) ≡ some target) × (is_target target ≡ true)
unfolding select_disk
select_disk_lem inventory serial target h =
    let (a, h1) = then-ok (guard (not (is_blank serial)) no_serial) _ h in
    let (d, found, h2) =
      bind-ok (or_raise (only (with_serial serial inventory)) ambiguous_serial) _ h1 in
    let (safe, h3) = then-ok (guard (is_target d) unsafe_target) _ h2 in
    let (b, h4) = then-ok (guard _ too_small) _ h3 in
    let same : d ≡ target = ok-injective h4 in
    (
      or_raise-ok (only (with_serial serial inventory)) ambiguous_serial found ∙ ap some same,
      rw (← same) (guard-ok (is_target d) unsafe_target safe),
    )

-- A preserving plan is for the one disk of this serial, an unused and writable one, and keeps what is on
-- it: no disk is wiped; every partition is kept, with the number, the size and the flag that it has; no
-- file system is made but the root's. The persistent partition has the requested UUID, which no other
-- partition of any disk has, and the marker names this appliance, the UUID and the serial.
pub preserving_plan_is_harmless :
    (inventory : List Value) (serial : String) (erase_confirmed : Bool) (uuid : Option String)
    (metadata : Value) (uefi : Bool) (actions : List Action)
    → plan inventory preserve serial erase_confirmed uuid metadata uefi ≡ ok actions
    → (target : Value) × (only (with_serial serial inventory) ≡ some target)
      × (is_target target ≡ true)
      × AreHarmless target serial actions
      × (u : String) × (uuid ≡ some u)
      × (marker_matches metadata u serial ≡ true)
      × (length (with_uuid u inventory) ≡ 1)
      × (v : Value) × (by_number 4 (partitions_of target) ≡ some v)
      × (text_is u (get "uuid" v) ≡ true)
unfolding plan
preserving_plan_is_harmless inventory serial erase_confirmed uuid metadata uefi actions h =
    let (target, chosen, h1) = bind-ok (select_disk inventory serial) _ h in
    let (size, kept, h2) = bind-ok (check_preserved inventory target serial uuid metadata) _ h1 in
    let (only_one, safe) = select_disk_lem inventory serial target chosen in
    let (harmless, u, given, marked, unique, v, found, named) =
      check_preserved_lem inventory target serial uuid metadata size uefi kept in
    (
      target,
      only_one,
      safe,
      subst (AreHarmless target serial) (ok-injective h2) harmless,
      u,
      given,
      marked,
      unique,
      v,
      found,
      named,
    )

-- An action that destroys data which may stand on the disk.
abbrev pub Destroys : Action → Type 0
Destroys (disk s keep grub wipe) = (keep ≡ false) ⊎ (wipe ≡ true)
Destroys (partition p keep grub) = keep ≡ false
Destroys (format n fstype keep) = (n ≢ 3) × (keep ≡ false)
Destroys (mount n path) = ⊥
