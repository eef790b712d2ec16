-- ===== src/Pending/Completes.antt =====
-- `retry` completes a backup whose calls succeed (appliance/lib/backup_pending.py).
use mindflayer_elderbrain.Base.{
  ℕ, suc, ◌≡◌, refl, Bool, true, false, not, inl, inr, none, some, List, [], ◌∷◌, String, str_eq,
  str_eq_self, Bool-cases, select, has_name,
}
use mindflayer_elderbrain.Durable.{Machine, Outcome, done, pure, proceed, ◌>>=◌, ◌>>◌}
use mindflayer_elderbrain.Pending.Store.{
  Error, State, checkpoint_ready, pending_upload, uploaded, completed, Backup, Pin, World,
  find_record, is_completed, is_pin_of, save,
}
use mindflayer_elderbrain.Pending.Operations.{
  Pend, write_record, make_archive, ready, sent, transfer, transfer_after, attempt, conclude,
  continue_with, retry_record,
}
use mindflayer_elderbrain.Pending.Safe.{
  is_pinned, is_finished, IsTrue, IsHonest, find_record-IsTrue,
}

-- The backup is completed: its record is stored so, it was uploaded, and its checkpoint and archive
-- are let go.
pub record IsDone (id checkpoint : String) (x : Outcome Error Backup × Machine World) : Type 0 where
  pub result : Backup
  pub returns : x.0 ≡ done result
  pub same_id : result.id ≡ id
  pub state_lem : result.state ≡ completed
  pub stored : find_record id x.1.disk.records ≡ some result
  pub was_sent : has_name id x.1.disk.uploaded ≡ true
  pub let_go : is_pinned id checkpoint x.1.disk.pins ≡ false
  pub removed : has_name id x.1.disk.archives ≡ false

is_pinned-select :
    (o c : String) (pins : List Pin)
    → is_pinned o c (select (λ q. not (is_pin_of o c q)) pins) ≡ false
is_pinned-select o c [] = refl
is_pinned-select o c (p ∷ rest) = elim (Bool-cases (is_pin_of o c p)) [
  | inl h ↦ rw h (is_pinned-select o c rest)
  | inr h ↦ rw h (rw (h, is_pinned-select o c rest) refl)
]

has_name-gone :
    (id : String) (xs : List String) → has_name id (select (λ s. not (str_eq s id)) xs) ≡ false
has_name-gone id [] = refl
has_name-gone id (x ∷ xs) = elim (Bool-cases (str_eq x id)) [
  | inl h ↦ rw h (has_name-gone id xs)
  | inr h ↦ rw h (rw (h, has_name-gone id xs) refl)
]

-- Once the attempt is over, with an uploaded record that names its archive.
concluded :
    (p : Pin) (pins : List Pin) (r : Backup) (w : World) (replies : List Bool) (power : ℕ)
    → has_name r.id w.uploaded ≡ true
    → IsDone r.id r.checkpoint (
        conclude
          (p ∷ pins)
          (true, record r { has_archive = true })
          (record { disk = record w { replies = true ∷ replies }; power = suc (suc (suc power)) }))
concluded p pins r w replies power sent_before = record {
  result = record r {
    state = completed;
    completed_at = some w.now;
    last_failure = none;
    has_archive = true;
  };
  returns = refl;
  same_id = refl;
  state_lem = refl;
  stored = rw (str_eq_self r.id) refl;
  was_sent = sent_before;
  let_go = is_pinned-select r.id r.checkpoint w.pins;
  removed = has_name-gone r.id w.archives;
}

-- Enough answers for every call, and enough power for every write.
abbrev pub supplied : World → List Bool → ℕ → Machine World
supplied w replies power = record {
  disk = record w { replies = true ∷ true ∷ true ∷ true ∷ true ∷ replies };
  power = suc (suc (suc (suc (suc (suc (suc power))))));
}

-- The attempt and what follows it, where the checkpoint's pin was found.
abbrev tried : Backup → Pin → Pend Backup
tried r p = attempt r >>= conclude (p ∷ [])

transferred :
    (r : Backup) (p : Pin) (w : World) (replies : List Bool) (power : ℕ)
    → IsDone r.id r.checkpoint (
        proceed
          (transfer false
            (record r { has_archive = true })
            (record {
              disk = record w { replies = true ∷ true ∷ replies };
              power = suc (suc (suc (suc (suc power))));
            }))
          (conclude (p ∷ [])))
transferred r p w replies power =
    concluded p [] (sent w.now r)
      (record w {
        uploaded = r.id ∷ w.uploaded;
        records = save (sent w.now (record r { has_archive = true })) w.records;
      })
      replies power (rw (str_eq_self r.id) refl)

archived :
    (there : Bool) (r : Backup) (p : Pin) (w : World) (replies : List Bool) (power : ℕ)
    → IsDone r.id r.checkpoint (
        proceed
          (proceed
            ((make_archive there r >> (write_record (ready r) >> pure (true, ready r))) (record {
              disk = record w { replies = true ∷ true ∷ replies };
              power = suc (suc (suc (suc (suc (suc (suc power))))));
            }))
            transfer_after)
          (conclude (p ∷ [])))
archived true r p w replies power =
    transferred (ready r) p (record w { records = save (ready r) w.records }) replies (suc power)
archived false r p w replies power =
    transferred (ready r) p
      (record w { archives = r.id ∷ w.archives; records = save (ready r) w.records }) replies power

tried_lem :
    (has : Bool) (s : State) (r : Backup) (p : Pin) (w : World) (replies : List Bool) (power : ℕ)
    → is_completed s ≡ false
    → (is_finished s ≡ true → has_name r.id w.uploaded ≡ true)
    → IsDone r.id r.checkpoint (
        tried
          (record r { has_archive = has; state = s })
          p
          (record {
            disk = record w { replies = true ∷ true ∷ true ∷ replies };
            power = suc (suc (suc (suc (suc (suc (suc power))))));
          }))
tried_lem has completed r p w replies power e sent_before = cc
tried_lem true uploaded r p w replies power e sent_before =
    concluded p [] (record r { state = uploaded }) w (true ∷ true ∷ replies)
      (suc (suc (suc (suc power)))) (sent_before refl)
tried_lem true checkpoint_ready r p w replies power e sent_before =
    transferred (record r { state = checkpoint_ready }) p w (true ∷ replies) (suc (suc power))
tried_lem true pending_upload r p w replies power e sent_before =
    transferred (record r { state = pending_upload }) p w (true ∷ replies) (suc (suc power))
tried_lem false uploaded r p w replies power e sent_before =
    archived (has_name r.id w.archives) (record r { state = uploaded; has_archive = false }) p w
      replies power
tried_lem false checkpoint_ready r p w replies power e sent_before =
    archived (has_name r.id w.archives) (record r { state = checkpoint_ready; has_archive = false })
      p w replies power
tried_lem false pending_upload r p w replies power e sent_before =
    archived (has_name r.id w.archives) (record r { state = pending_upload; has_archive = false }) p
      w replies power

continued :
    (w : World) (r : Backup) (p : Pin) (replies : List Bool) (power : ℕ)
    → is_completed r.state ≡ false
    → select (is_pin_of r.id r.checkpoint) w.pins ≡ p ∷ []
    → p.at_shutdown ≡ true
    → IsTrue w.uploaded r
    → IsDone r.id r.checkpoint (continue_with r (supplied w replies power))
continued w r p replies power e pinned at_shutdown sent_before =
    rw (pinned, at_shutdown) (tried_lem r.has_archive r.state r p w replies power e sent_before)

-- A retry whose calls all succeed completes the backup. Take a stored record that is not completed and tells
-- the truth, with the one pin of its checkpoint, a complete one of the shutdown. With answers for five
-- calls and power for seven writes, `retry` under the record's lock returns it completed, and stored so;
-- the archive was uploaded, and the pin and the local archive are gone.
pub retry_completes :
    (w : World) (r : Backup) (p : Pin) (replies : List Bool) (power : ℕ)
    → find_record r.id w.records ≡ some r
    → is_completed r.state ≡ false
    → select (is_pin_of r.id r.checkpoint) w.pins ≡ p ∷ []
    → p.at_shutdown ≡ true
    → IsHonest w.records w.uploaded
    → IsDone r.id r.checkpoint (retry_record r (supplied w replies power))
unfolding retry_record
retry_completes w r p replies power found open_state pinned at_shutdown honest =
    rw (found, open_state)
      (continued w r p replies power open_state pinned at_shutdown
        (find_record-IsTrue r.id w.records w.uploaded r honest found))
