-- ===== src/Pending/Tests.antt =====
-- Runs of a backup that waits: a shutdown that is cut short, boots, and the theorems at work there.
use mindflayer_elderbrain.Base.{
  ◌≡◌, refl, Bool, true, none, some, List, [], ◌∷◌, map, String, is_identity,
}
use mindflayer_elderbrain.Durable.{for_each}
use mindflayer_elderbrain.Pending.Store.{
  State, pending_upload, completed, Backup, Pin, World, read_record,
}
use mindflayer_elderbrain.Pending.Operations.{
  recover_pin, retry_record, capture, protect, retry_at_boot,
}
use mindflayer_elderbrain.Pending.Safe.{IsSafe}
use mindflayer_elderbrain.Pending.Waiting.{
  Event, shuts_down, boots, history, waiting_backup_is_kept,
}
use mindflayer_elderbrain.Pending.Completes.{IsDone, supplied, retry_completes}

abbrev owner : String
owner = "0123456789abcdef0123456789abcdef"

abbrev checkpoint : String
checkpoint = "00000000000000000000000000000001"

abbrev waiting : Backup
waiting = record {
  id = owner;
  checkpoint = checkpoint;
  state = pending_upload;
  created_at = 3;
  has_archive = true;
  last_failure = some 4;
  uploaded_at = none;
  completed_at = none;
}

abbrev pin : Pin
pin = record { owner = owner; checkpoint = checkpoint; at_shutdown = true; made_at = 3 }

abbrev empty : World
empty = record { records = []; pins = []; archives = []; uploaded = []; replies = []; now = 0 }

abbrev with_waiting : World
with_waiting = record empty { records = waiting ∷ []; pins = pin ∷ []; archives = owner ∷ [] }

abbrev all_well : List Bool
all_well = true ∷ true ∷ true ∷ true ∷ true ∷ true ∷ true ∷ []

-- The power goes once the checkpoint is pinned; the next boot makes its record and uploads it.
abbrev events : List Event
events =
    record { action = shuts_down true owner checkpoint; now = 3; replies = all_well; power = 1 }
    ∷ record { action = boots true; now = 5; replies = all_well; power = 20 }
    ∷ []

abbrev states : List Backup → List State
states = map (λ r. r.state)

recovers : states (history events empty).records ≡ completed ∷ []
unfolding protect capture retry_at_boot retry_record recover_pin read_record for_each is_identity
recovers = refl

lets_go : (history events empty).pins ≡ []
unfolding protect capture retry_at_boot retry_record recover_pin read_record for_each is_identity
lets_go = refl

waiting_backup_is_kept_example : IsSafe with_waiting (history events with_waiting)
waiting_backup_is_kept_example = waiting_backup_is_kept with_waiting events ((λ e. cc), tt)

retry_completes_example :
    IsDone owner checkpoint (retry_record waiting (supplied with_waiting [] 0))
retry_completes_example =
    retry_completes with_waiting waiting pin [] 0 refl refl refl refl ((λ e. cc), tt)
