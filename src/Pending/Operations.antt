-- ===== src/Pending/Operations.antt =====
-- The operations of `class PendingBackup`, `protect` and `retry` of appliance/lib/backup_pending.py. The
-- lock of a record is free, since the operations run one after another. What validates, creates and
-- transfers an archive, and the store of snapshots, succeed or raise.
use mindflayer_elderbrain.Base.{
  ℕ, Bool, true, false, not, ◌||◌, Option, none, some, List, [], ◌∷◌, String, str_eq, if◌then◌else◌,
  select, has_name, is_identity,
}
use mindflayer_elderbrain.Durable.{Action, done, pure, gets, write, require, for_each, ◌>>=◌, ◌>>◌}
use mindflayer_elderbrain.Pending.Store.{
  Error, bad_owner, already_completed, no_shutdown_checkpoint, no_matching_pin, call_failed, Backup,
  checkpoint_ready, pending_upload, Pin, World, is_completed, is_uploaded, find_record, save,
  read_record, is_pin_of, has_record,
}
use mindflayer_elderbrain.Pending.Store as Store

abbrev pub Pend : Type 0 → Type 0
Pend A = Action Error World A

-- Whether the next call succeeds; with no reply left it does not.
abbrev pub reply : List Bool → Pend Bool
reply [] m = (done false, m)
reply (b ∷ rest) m = (done b, record { disk = record m.disk { replies = rest }; power = m.power })

abbrev pub try_call : Pend Bool
try_call m = reply m.disk.replies m

-- A call that is not caught.
abbrev pub call : Pend (Unit {0})
call = try_call >>= λ b. require b call_failed

-- `self.write(record)`
abbrev pub write_record : Backup → Pend (Unit {0})
write_record r = write (λ w. record w { records = save r w.records })

-- `self.snapshots.pinned_records("pending-backup")`
abbrev pub pinned_records : Pend (List Pin)
pinned_records = call >> gets (λ w. w.pins)

abbrev pub new_record : String → String → ℕ → Backup
new_record owner checkpoint now = record {
  id = owner;
  checkpoint = checkpoint;
  state = checkpoint_ready;
  created_at = now;
  has_archive = false;
  last_failure = none;
  uploaded_at = none;
  completed_at = none;
}

abbrev pub write_missing : Bool → Pin → Pend (Unit {0})
write_missing true p = pure tt
write_missing false p = write_record (new_record p.owner p.checkpoint p.made_at)

abbrev pub recover_one : List Backup → Pin → Pend (Unit {0})
recover_one existing p =
    require p.at_shutdown no_shutdown_checkpoint >> write_missing (has_record p existing) p

-- `recover_pin`
unfoldable pub recover_pin : Pend (Unit {0})
recover_pin = pinned_records >>= λ pinned.
    gets (λ w. w.records) >>= λ existing. for_each pinned (recover_one existing)

-- An archive of this backup that is there is validated, and else one is made.
abbrev pub make_archive : Bool → Backup → Pend (Unit {0})
make_archive true r = pure tt
make_archive false r = write (λ w. record w { archives = r.id ∷ w.archives })

abbrev pub ready : Backup → Backup
ready r = record r { state = pending_upload; has_archive = true }

abbrev pub name_archive : Bool → Backup → Pend (Bool × Backup)
name_archive false r = pure (false, r)
name_archive true r = gets (λ w. has_name r.id w.archives) >>= λ there.
    make_archive there r >> (write_record (ready r) >> pure (true, ready r))

-- The first part of what `retry` tries: whether the record has its archive, and the record.
abbrev pub with_archive : Bool → Backup → Pend (Bool × Backup)
with_archive true r = pure (true, r)
with_archive false r = try_call >>= λ works. name_archive works r

abbrev pub sent : ℕ → Backup → Backup
sent now r = record r { state = Store.uploaded; uploaded_at = some now }

abbrev pub note_upload : Bool → Backup → Pend (Bool × Backup)
note_upload false r = pure (false, r)
note_upload true r =
    write (λ w. record w { uploaded = r.id ∷ w.uploaded })
    >> (gets (λ w. sent w.now r) >>= λ s. write_record s >> pure (true, s))

-- The second part, which transfers the archive unless that is done.
abbrev pub transfer : Bool → Backup → Pend (Bool × Backup)
transfer true r = pure (true, r)
transfer false r = try_call >>= λ works. note_upload works r

abbrev pub transfer_after : Bool × Backup → Pend (Bool × Backup)
transfer_after (false, r) = pure (false, r)
transfer_after (true, r) = transfer (is_uploaded r.state) r

abbrev pub attempt : Backup → Pend (Bool × Backup)
attempt r = with_archive r.has_archive r >>= transfer_after

abbrev pub unpin : List Pin → Backup → Pend (Unit {0})
unpin [] r = pure tt
unpin (p ∷ rest) r =
    call
    >> write (λ w. record w { pins = select (λ q. not (is_pin_of r.id r.checkpoint q)) w.pins })

abbrev pub finished : ℕ → Backup → Backup
finished now r = record r { state = Store.completed; completed_at = some now; last_failure = none }

abbrev pub remove_archive : Bool → Backup → Pend (Unit {0})
remove_archive false r = pure tt
remove_archive true r =
    write (λ w. record w { archives = select (λ s. not (str_eq s r.id)) w.archives })

abbrev pub failed : ℕ → Backup → Backup
failed now r = record r { last_failure = some now }

-- What follows the attempt: the failure is noted, or the checkpoint and the archive are let go.
abbrev pub conclude : List Pin → Bool × Backup → Pend Backup
conclude matches (false, r) = gets (λ w. failed w.now r) >>= λ s. write_record s >> pure s
conclude matches (true, r) =
    unpin matches r
    >> (gets (λ w. finished w.now r) >>= λ s.
        write_record s >> (remove_archive s.has_archive s >> pure s))

abbrev pub is_none_or_one : Bool → List Pin → Bool
is_none_or_one done_before [] = done_before
is_none_or_one done_before (p ∷ []) = p.at_shutdown
is_none_or_one done_before (p ∷ q ∷ rest) = false

abbrev pub continue_with : Backup → Pend Backup
continue_with r = pinned_records >>= λ pinned.
    let matches = select (is_pin_of r.id r.checkpoint) pinned in
    require (is_none_or_one (is_uploaded r.state) matches) no_matching_pin
    >> (call >> (attempt r >>= conclude matches))

abbrev pub continue_unless : Bool → Backup → Pend Backup
continue_unless true r = pure r
continue_unless false r = continue_with r

abbrev pub stored_or : Backup → Option Backup → Backup
stored_or r none = r
stored_or r (some s) = s

-- `retry` under the lock of the record.
unfoldable pub retry_record : Backup → Pend Backup
retry_record r = gets (λ w. stored_or r (find_record r.id w.records)) >>= λ s.
    continue_unless (is_completed s.state) s

-- `retry` of a record that was read.
abbrev pub retry_given : Backup → Pend (Option Backup)
retry_given r = recover_pin >> (retry_record r >>= λ s. pure (some s))

abbrev pub capture_new : String → String → Pend (Option Backup)
capture_new owner fresh =
    call
    >> (gets (λ w. new_record owner fresh w.now) >>= λ r.
        write (λ w. record w {
          pins =
              record { owner = owner; checkpoint = fresh; at_shutdown = true; made_at = w.now }
              ∷ w.pins;
        })
        >> (write_record r >> retry_given r))

abbrev pub capture_over : String → String → Option Backup → Pend (Option Backup)
capture_over owner fresh none = capture_new owner fresh
capture_over owner fresh (some r) =
    require (not (is_completed r.state)) already_completed >> retry_given r

-- `capture`; `fresh` is the identity that the store of snapshots draws.
unfoldable pub capture : String → String → Pend (Option Backup)
unfolding recover_pin retry_record
capture owner fresh =
    require (is_identity owner) bad_owner
    >> (gets (λ w. find_record owner w.records) >>= λ found. capture_over owner fresh found)

abbrev pub retry_if : Bool → Option Backup → Pend (Option Backup)
retry_if configured none = pure none
retry_if configured (some r) =
    if is_completed r.state || not configured then pure none else retry_given r

-- The function `retry`, at each boot.
unfoldable pub retry_at_boot : Bool → Pend (Option Backup)
unfolding recover_pin read_record retry_record
retry_at_boot configured =
    recover_pin >> (gets (λ w. read_record w.records) >>= λ found. retry_if configured found)

-- `protect`, where a backup is configured for the shutdown or not.
unfoldable pub protect : Bool → String → String → Pend (Option Backup)
unfolding capture
protect configured owner fresh = if configured then capture owner fresh else (call >> pure none)
