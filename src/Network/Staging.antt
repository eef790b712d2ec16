-- ===== src/Network/Staging.antt =====
-- `stage` and `public` of appliance/lib/network_transaction.py.
use Prim.Native.String.{count}
use mindflayer_elderbrain.Base.{
  ℕ, ◌+◌, Bool, true, false, not, ◌||◌, Option, none, some, List, [], ◌∷◌, String, ltb,
}
use mindflayer_elderbrain.Durable.{pure, lift, require, ◌>>=◌, ◌>>◌}
use mindflayer_elderbrain.Network.Files.{
  source_changed, bad_candidate, no_file, Saved, size_limit, opt_eq,
}
use mindflayer_elderbrain.Network.Transaction.{
  Phase, staged, Change, Confirmation, Files, State, World, Verifiers, Net, save, read_file,
}
use mindflayer_elderbrain.Network.Request.{
  Edit, Request, is_some, check_request, check_confirmation, check_current,
}

-- What is shown of a record.
pub record Public : Type 0 where
  pub identifier : String
  pub phase : Phase
  pub deadline : ℕ
  pub interface : String

-- `public`, of a record.
abbrev pub public : State → Public
public r = record {
  identifier = r.identifier;
  phase = r.phase;
  deadline = r.deadline;
  interface = r.interface;
}

abbrev pub is_candidate : Option String → Bool
is_candidate none = true
is_candidate (some bytes) = not (ltb size_limit (count bytes))

-- The checks of a file that was read: it is what the change was prepared for.
unfoldable pub record_change : String → Edit → Saved → Net (String × Change)
record_change name e original = do
  require (opt_eq original.bytes e.before) source_changed
  require (is_candidate e.after) bad_candidate
  require (is_some original.bytes || is_some e.after) no_file
  pure (name, record { before = original; after = e.after })

-- One round of the loop.
unfoldable pub stage_file : String × Edit → Net (String × Change)
unfolding record_change
stage_file (name, e) = do original ← read_file name; record_change name e original

unfoldable pub stage_files : List (String × Edit) → Net Files
unfolding stage_file
stage_files [] = pure []
stage_files (x ∷ rest) =
    let others = stage_files rest in do f ← stage_file x; files ← others; pure (f ∷ files)

-- The new record; `fresh` is what `secrets.token_hex` returns.
abbrev pub new_record : String → Request → Option Confirmation → Files → World → State
new_record fresh q confirmation files w = record {
  identifier = elim q.identifier [ none ↦ fresh | some i ↦ i ];
  phase = staged;
  interface = q.interface;
  deadline = w.now + q.seconds;
  expires = w.monotonic + q.seconds;
  boot = w.boot_id;
  files = files;
  fingerprint = q.fingerprint;
  confirmation = confirmation;
  restore_owner = q.restore_owner;
  cleanup_complete = false;
}

abbrev pub save_new : State → Net Public
save_new r = do save r; pure (public r)

-- `stage`
unfoldable pub stage : Verifiers → String → Request → Net Public
unfolding stage_files
stage v fresh q = do
  lift (check_request q)
  confirmation ← lift (check_confirmation q.confirmation)
  λ m. lift (check_current v q m.disk.state) m
  files ← stage_files q.changes
  λ m. save_new (new_record fresh q confirmation files m.disk) m
