-- ===== src/Pending/Safe.antt =====
-- What a backup that waits for its upload may not lose (appliance/lib/backup_pending.py): each write
-- keeps the checkpoint and the archive, unless the repository has taken them.
use mindflayer_elderbrain.Base.{
  ◌≡◌, refl, sym, ap, ◌∙◌, Bool, true, false, not, ◌||◌, inl, inr, some, List, [], ◌∷◌, String,
  str_eq, str_eq-true, str_eq-false, has_name-select_intro, eq_iff, if◌then◌else◌, Bool-cases,
  some-injective, and_true, arith, select, some_of, has_name,
}
use mathlib.Core.Path.{subst}
use mindflayer_elderbrain.Pending.Store.{
  State, uploaded, completed, Backup, Pin, World, find_record, save, is_pin_of,
}

abbrev pub is_finished : State → Bool
is_finished uploaded = true
is_finished completed = true
is_finished _ = false

-- A record says that it was uploaded only if it was.
abbrev pub IsTrue : List String → Backup → Type 0
IsTrue uploads r = is_finished r.state ≡ true → has_name r.id uploads ≡ true

abbrev pub IsHonest : List Backup → List String → Type 0
IsHonest [] uploads = Unit
IsHonest (r ∷ rest) uploads = IsTrue uploads r × IsHonest rest uploads

abbrev pub is_pinned : String → String → List Pin → Bool
is_pinned owner checkpoint = some_of (is_pin_of owner checkpoint)

-- Every pin and every archive of `b` is still there, or its backup was uploaded.
abbrev pub Safe : World → List Backup → List Pin → List String → List String → Type 0
Safe b records pins archives uploads =
    IsHonest records uploads
    × ((owner checkpoint : String)
        → is_pinned owner checkpoint b.pins ≡ true
        → (is_pinned owner checkpoint pins || has_name owner uploads) ≡ true)
    × ((id : String)
        → has_name id b.archives ≡ true
        → (has_name id archives || has_name id uploads) ≡ true)
    × ((id : String) → has_name id b.uploaded ≡ true → has_name id uploads ≡ true)

abbrev pub IsSafe : World → World → Type 0
IsSafe b w = Safe b w.records w.pins w.archives w.uploaded

pub IsHonest-still :
    (id : String) (records : List Backup) (uploads : List String)
    → IsHonest records uploads
    → IsHonest records (id ∷ uploads)
IsHonest-still id [] uploads h = tt
IsHonest-still id (r ∷ rest) uploads (h, others) =
    ((λ e. let known = h e in ground arith), IsHonest-still id rest uploads others)

pub IsHonest-select :
    (p : Backup → Bool) (records : List Backup) (uploads : List String)
    → IsHonest records uploads
    → IsHonest (select p records) uploads
IsHonest-select p [] uploads h = tt
IsHonest-select p (r ∷ rest) uploads (h, others) = elim (Bool-cases (p r)) [
  | inl k ↦
      subst (λ b. IsHonest (if b then r ∷ select p rest else select p rest) uploads) (sym k)
        (h, IsHonest-select p rest uploads others)
  | inr k ↦
      subst (λ b. IsHonest (if b then r ∷ select p rest else select p rest) uploads) (sym k)
        (IsHonest-select p rest uploads others)
]

pub find_record-IsTrue :
    (id : String) (records : List Backup) (uploads : List String) (r : Backup)
    → IsHonest records uploads
    → find_record id records ≡ some r
    → IsTrue uploads r
find_record-IsTrue id [] uploads r h e = cc
find_record-IsTrue id (s ∷ rest) uploads r (h, others) e = elim (Bool-cases (str_eq s.id id)) [
  | inl k ↦
      subst (IsTrue uploads)
        (some-injective (subst (λ b. (if b then some s else find_record id rest) ≡ some r) k e)) h
  | inr k ↦
      find_record-IsTrue id rest uploads r others
        (subst (λ b. (if b then some s else find_record id rest) ≡ some r) k e)
]

unpinned :
    (owner checkpoint gone_owner gone : String) (pins : List Pin)
    → is_pinned owner checkpoint pins ≡ true
    → (is_pinned owner checkpoint (select (λ q. not (is_pin_of gone_owner gone q)) pins)
        || str_eq gone_owner owner)
      ≡ true
unpinned owner checkpoint gone_owner gone [] h = cc
unpinned owner checkpoint gone_owner gone (q ∷ rest) h =
    elim (Bool-cases (str_eq gone_owner owner)) [
      | inl same ↦ ground arith
      | inr other ↦ elim (Bool-cases (is_pin_of owner checkpoint q)) [
        | inl this ↦
            let owned = (and_true this).0 in
            let kept = ap (λ o. str_eq gone_owner o) (str_eq-true q.owner owner owned) ∙ other in
            rw (not_gone q kept) (rw this refl)
        | inr differs ↦
            let later =
              unpinned owner checkpoint gone_owner gone rest (sym (rw differs refl) ∙ h) in
            elim (Bool-cases (is_pin_of gone_owner gone q)) [
              | inl k ↦ rw k later
              | inr k ↦ rw k (rw differs later)
            ]
      ]
    ]
  where
    not_gone : (q : Pin) → str_eq gone_owner q.owner ≡ false → is_pin_of gone_owner gone q ≡ false
    not_gone q k = ground (arith, eq_iff gone_owner q.owner, eq_iff q.owner gone_owner)

module _ (b : World) where
  pub save-IsSafe :
      (r : Backup) (w : World)
      → IsTrue w.uploaded r
      → IsSafe b w
      → IsSafe b (record w { records = save r w.records })
  save-IsSafe r w new (honest, pins, archives, uploads) = (
    (new, IsHonest-select (λ s. not (str_eq s.id r.id)) w.records w.uploaded honest),
    pins,
    archives,
    uploads,
  )

  pub upload-IsSafe :
      (id : String) (w : World) → IsSafe b w → IsSafe b (record w { uploaded = id ∷ w.uploaded })
  upload-IsSafe id w (honest, pins, archives, uploads) = (
    IsHonest-still id w.records w.uploaded honest,
    (λ owner checkpoint e. let kept = pins owner checkpoint e in ground arith),
    (λ i e. let kept = archives i e in ground arith),
    (λ i e. let kept = uploads i e in ground arith),
  )

  pub archive-IsSafe :
      (id : String) (w : World) → IsSafe b w → IsSafe b (record w { archives = id ∷ w.archives })
  archive-IsSafe id w (honest, pins, archives, uploads) =
      (honest, pins, (λ i e. let kept = archives i e in ground arith), uploads)

  pub pin-IsSafe : (p : Pin) (w : World) → IsSafe b w → IsSafe b (record w { pins = p ∷ w.pins })
  pin-IsSafe p w (honest, pins, archives, uploads) = (
    honest,
    (λ owner checkpoint e. let kept = pins owner checkpoint e in ground arith),
    archives,
    uploads,
  )

  pub unpin-IsSafe :
      (owner checkpoint : String) (w : World)
      → has_name owner w.uploaded ≡ true
      → IsSafe b w
      → IsSafe b (record w { pins = select (λ q. not (is_pin_of owner checkpoint q)) w.pins })
  unpin-IsSafe owner checkpoint w sent (honest, pins, archives, uploads) = (
    honest,
    (λ o c e. elim (Bool-cases (has_name o w.uploaded)) [
      | inl k ↦ ground arith
      | inr k ↦
          let still : is_pinned o c w.pins ≡ true = (let kept = pins o c e in ground arith) in
          let either = unpinned o c owner checkpoint w.pins still in
          let other =
            str_eq-false owner o
              (λ same. let lost = subst (λ s. has_name s w.uploaded ≡ true) same sent in cc) in
          ground arith
    ]),
    archives,
    uploads,
  )

  pub remove-IsSafe :
      (id : String) (w : World)
      → has_name id w.uploaded ≡ true
      → IsSafe b w
      → IsSafe b (record w { archives = select (λ s. not (str_eq s id)) w.archives })
  remove-IsSafe id w sent (honest, pins, archives, uploads) = (
    honest,
    pins,
    (λ i e. elim (Bool-cases (str_eq i id)) [
      | inl same ↦
          let known =
            subst (λ s. has_name s w.uploaded ≡ true) (sym (str_eq-true i id same)) sent in
          ground arith
      | inr other ↦
          let kept = archives i e in
          elim (Bool-cases (has_name i w.archives)) [
            | inl there ↦
                let stays =
                  has_name-select_intro (λ s. not (str_eq s id)) i w.archives there
                    (rw other refl) in
                ground arith
            | inr gone ↦ ground arith
          ]
    ]),
    uploads,
  )
