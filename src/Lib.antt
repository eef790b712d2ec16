-- ===== src/Lib.antt =====
-- A verification library of the appliance "Mindflayer Elderbrain": the programs that change its disk,
-- its network and its accepted release, and what makes them correct.
--
-- The parts, each in the module of its name, with the code it is about:
-- - Base: what the modules share. Base/Tests has Boolean tests, Base/Lists the list helpers over the
--   native ℕ, Base/Patterns regular expressions over text (Python's `re.fullmatch`), Base/Json the
--   values that `json` reads, Base/Exceptions exceptions as values.
-- - Durable: a machine whose disk survives and which stops after `power` durable writes. A program
--   ends as `done` with a value, `raised` with an exception or `halted` by a loss of power; the disk
--   keeps what was written in each case.
-- - Restore (appliance/lib/restore_transaction.py): the class RestoreTransaction. Restore/Slot is
--   one target with its siblings .incoming, .previous and .rejected; Restore/Transaction has the
--   constructor (`create`), `read`, `prepare`, `apply`, `rollback` and `commit` over all targets and
--   the journal. Restore/Phases, Loops, Install, Copying and Recovery have the lemmas of each step,
--   Restore/Safety, Progress and Disjoint the theorems.
-- - Network (appliance/lib/network_transaction.py): the class NetworkTransaction. Network/Files has
--   the Netplan directory and `file`, Network/Transaction the record, `replace`, `expired` and
--   `restore`, Network/Request the arguments of `stage` and their checks, Network/Staging `stage` and
--   `public`, Network/Operations `_tick`, `_recover_boot`, `_confirm`, `_cancel`, `finalize` and the
--   public operations around them. Network/Events has the events that a waiting change may meet,
--   Network/Staged the theorems about `stage`. Of appliance/lib/network_config.py, Network/Address has
--   `unicast` and Network/Settings `request`, and Network/Reachable their theorem.
-- - Release (appliance/lib/release_policy.py and appliance/lib/appliance_release.py): Release/Policy
--   has the policy file, `require_new`, `commit`, `selected` and `install_baseline`; Release/Fields
--   the checks of one field of a manifest, Release/Manifest `validate` and `validate_dependencies`,
--   Release/Verify `verify`, `verify_artifact` and `require_compatible`. Release/Parts and Chunks have
--   lemmas, Policy/Laws, Validated and Verified the theorems.
-- - Snapshots (appliance/lib/local_snapshots.py, and `validate` of checkpoint_compatibility.py): the
--   class Snapshots. Snapshots/Store has the directory with its records, pins, intents and subvolumes,
--   and what `records` and `pins` read of it; Snapshots/Retention `retention_candidates`;
--   Snapshots/Operations the public operations. Deleting, Pruning, Complete and Pinning have the
--   lemmas of each step; Retention/Newest, Spared, Events and Reserved the theorems.
-- - Installer (iso/storage_plan.py, iso/storage_prepare.py, `verify_read_mount` of
--   iso/storage_existing.py and appliance/lib/storage_guard.py): Installer/Plan has the storage plan
--   of an installation, Installer/Prepare what comes before it, Installer/Identity the storage guard;
--   Preserved and Verified have the theorems.
-- - Jobs (appliance/lib/host_jobs.py, `request` of appliance/lib/update_request.py, `pending` of
--   appliance/lib/power_service.py): Jobs/Record is one host job, Jobs/Store the job records with the
--   locks that workers hold, and what `settle` makes of the record of a dead worker; Jobs/Requests
--   reads a request, Jobs/Operations has `submit`, `reconcile_update` and the steps of `worker`;
--   Jobs/Diagram is the diagram of a job's states, Jobs/Events what may happen to the store. Changes
--   has the lemmas; Single, Dead and Admission have the theorems.
-- - Displays (provisioning/graphics/browser-session.py): Displays/Modes has `output_modes` and
--   `preferred_mode`, Displays/Outputs what `plan` reads of the outputs that Sway lists,
--   Displays/Assignment `renumbered_outputs` and `assigned_outputs`, Displays/Plan `safe_url` and
--   `plan`. Greatest, Placings, Layout, Shown, Connected, Wishes, Steps and Places have the lemmas of
--   each step; Best, Views and Administration the theorems.
-- - Pending (appliance/lib/backup_pending.py): backups that wait for their upload. Pending/Store is
--   what is kept on disk and `read_record`, Pending/Json `validate_record` and what `write` saves,
--   Pending/Operations has `recover_pin`, `capture` and `retry` of the class PendingBackup, `protect`
--   and the `retry` of each boot. Safe, Keeping, Retrying and Uploads have the lemmas of each part;
--   Waiting, Completes and Saved the theorems.
--
-- How they interact: a restore and a network change each hold one record on disk, written before
-- anything else changes; the programs read it again at boot. The release policy is read and written
-- under the lock of the release programs; a manifest that `validate` accepts is what `require_new`
-- takes. A pending backup holds a pin on a checkpoint of the store of snapshots until its archive is
-- uploaded; a host job is the record of what a worker does with the other parts.
--
-- State and operations: a Python object's attributes and its files on disk are one record, an
-- exception is an error value, and a method is a function from the machine to an outcome and the
-- machine that it leaves. A lock makes each operation run alone, so the operations of a class are
-- steps one after another. Callbacks of a constructor (`apply`, `generate`, `on_terminal`) are a list
-- of answers, taken one at a time, and verifiers are functions; no theorem assumes anything of a
-- verifier.
--
-- Bounds: loops are recursion on the list that the code goes over. Only the loop over the chunks of an
-- artifact runs on fuel, as much as the artifact has bytes, which is enough since no chunk is empty
-- (Release/Chunks). Power is the other bound: the theorems about interruption hold for every power,
-- and those that say that a program completes ask for as many writes as it makes.
--
-- Not modelled: ownership, modes and symbolic links beyond the checks named in each file; the order in
-- which a file system makes renames durable; two processes at once; text is read as characters, and a
-- file's bytes as a text with one character for each byte. Commands of the store of snapshots succeed
-- or fail by a list of replies, and times are counts of ticks. What openssl says of a signature, and
-- the SHA-256 of a file, are parameters, of which no theorem assumes anything. Of the browser's
-- session, what `urlsplit` reads of an address is a parameter, digits are ASCII, and its windows,
-- processes and commands are left out. Of the pending backups, the records are valid ones, and what
-- makes, validates and transfers an archive succeeds or raises. Of the host jobs, what a worker runs
-- and the requests of the kinds other than an update are parameters or left out. The setup
-- application, the installer's dialogue and commands, provisioning, the archives of backups and the
-- programs that run docker, systemd and other commands are not modelled.
pub mod Base
pub mod Displays
pub mod Durable
pub mod Installer
pub mod Jobs
pub mod Network
pub mod Pending
pub mod Release
pub mod Restore
pub mod Snapshots
