-- ===== src/Network/Operations.antt =====
-- The operations of `NetworkTransaction` (appliance/lib/network_transaction.py) over `restore`.
use mindflayer_elderbrain.Base.{
  Bool, true, false, not, ◌&&◌, Option, none, some, String, str_eq, if◌then◌else◌,
}
use mindflayer_elderbrain.Durable.{
  Machine, Outcome, done, raised, halted, pure, raise, for_each, ◌>>=◌, ◌>>◌, require,
}
use mindflayer_elderbrain.Network.Files.{
  Error, hierarchy_changed, source_changed, no_pending, expired_confirmation, wrong_address,
  changed_sources, no_matching, opt_eq, saved_eq,
}
use mindflayer_elderbrain.Network.Transaction.{
  Phase, staged, applying, pending, rolling_back, rolled_back, confirmed, is_terminal, Change,
  State, World, Verifiers, Net, save, activate, read_file, replace, expired, close, restore,
}

-- Runs `handler` on an exception of the first part.
abbrev pub recover :
    {A : Type 0}
    → Outcome Error A × Machine World
    → (Error → Net A)
    → Outcome Error A × Machine World
recover (done a, m) handler = (done a, m)
recover (raised e, m) handler = handler e m
recover (halted, m) handler = (halted, m)

infix 1 try◌catch◌
abbrev pub try◌catch◌ : {A : Type 0} → Net A → (Error → Net A) → Net A
try body catch handler = λ m. recover (body m) handler

-- The checks of one change in `_tick`: the source is as it was when the change was staged.
unfoldable pub check_unchanged : State → String × Change → Net (Unit {0})
unfolding read_file
check_unchanged r (name, c) = do
  current ← read_file name
  if saved_eq current c.before then pure tt else do restore r; raise source_changed

-- `metadata = {**change['before'], 'mode': 0o600}`
unfoldable pub put_new : String × Change → Net (Unit {0})
unfolding replace
put_new (name, c) = replace name c.after (record c.before { mode = 0o600 })

unfoldable pub apply_new : State → Net (Unit {0})
apply_new r = do for_each r.files put_new; activate

unfoldable pub check_sources : Verifiers → State → Net (Unit {0})
check_sources v r =
    if elim r.fingerprint [ none ↦ true | some f ↦ v.sources f ]
    then pure tt
    else (do restore r; raise hierarchy_changed)

unfoldable pub apply_guarded : State → Net State
apply_guarded r = do
  save (record r { phase = applying })
  try apply_new r catch (λ e. do restore (record r { phase = applying }); raise e)
  save (record r { phase = pending })
  pure (record r { phase = pending })

unfoldable pub apply_staged : Verifiers → State → Net State
apply_staged v r = do check_sources v r; for_each r.files (check_unchanged r); apply_guarded r

unfoldable pub tick_phase : Verifiers → World → Phase → State → Net State
tick_phase v w confirmed r = pure r
tick_phase v w rolled_back r = pure r
tick_phase v w applying r = restore r
tick_phase v w rolling_back r = restore r
tick_phase v w staged r = if expired w r then restore r else apply_staged v r
tick_phase v w pending r = if expired w r then restore r else pure r

unfoldable pub tick_from : Verifiers → World → Option State → Net (Option State)
tick_from v w none = pure none
tick_from v w (some r) = do s ← tick_phase v w r.phase r; pure (some s)

-- `_tick`; `none` is the idle state.
unfoldable pub tick_state : Verifiers → Net (Option State)
tick_state v m = tick_from v m.disk m.disk.state m

unfoldable pub recover_from : Option State → Net (Option State)
recover_from none = pure none
recover_from (some r) =
    if is_terminal r.phase then pure (some r) else do s ← restore r; pure (some s)

-- `_recover_boot`
unfoldable pub recover_state : Net (Option State)
recover_state m = recover_from m.disk.state m

unfoldable pub check_applied : String × Change → Net (Unit {0})
unfolding read_file
check_applied (name, c) = do
  current ← read_file name
  require (opt_eq current.bytes c.after) changed_sources

abbrev pub is_pending : Phase → Bool
is_pending pending = true
is_pending _ = false

unfoldable pub confirm_record : Verifiers → World → String → String → State → Net State
confirm_record v w identifier proof r = do
  require (str_eq r.identifier identifier && is_pending r.phase) no_pending
  if expired w r then (do restore r; raise expired_confirmation) else pure tt
  require (v.proof proof r) wrong_address
  for_each r.files check_applied
  save (close confirmed r)
  pure (close confirmed r)

unfoldable pub confirm_from : Verifiers → World → String → String → Option State → Net State
confirm_from v w identifier proof none = raise no_pending
confirm_from v w identifier proof (some r) = confirm_record v w identifier proof r

-- `_confirm`
unfoldable pub confirm_state : Verifiers → String → String → Net State
confirm_state v identifier proof m = confirm_from v m.disk identifier proof m.disk.state m

unfoldable pub cancel_from : String → Option State → Net State
cancel_from identifier none = raise no_matching
cancel_from identifier (some r) = do
  require (str_eq r.identifier identifier && not (is_terminal r.phase)) no_matching
  restore r

-- `_cancel`
unfoldable pub cancel_state : String → Net State
cancel_state identifier m = cancel_from identifier m.disk.state m

abbrev same_end : Phase → Phase → Bool
same_end confirmed confirmed = true
same_end rolled_back rolled_back = true
same_end _ _ = false

abbrev pub same_change : State → State → Bool
same_change a b = str_eq a.identifier b.identifier && same_end a.phase b.phase

-- The record read again is marked only if it is the same change in the same state.
unfoldable pub mark : State → Option State → Net (Unit {0})
mark r none = pure tt
mark r (some c) = if same_change c r then save (record c { cleanup_complete = true }) else pure tt

unfoldable pub mark_owned : State → Option String → Net (Unit {0})
unfolding mark
mark_owned r none m = pure tt m
mark_owned r (some owner) m = mark r m.disk.state m

unfoldable pub finish : Bool → Option State → Net (Unit {0})
unfolding mark_owned
finish hook none = pure tt
finish hook (some r) =
    if is_terminal r.phase && not r.cleanup_complete && hook
    then (do activate; mark_owned r r.restore_owner)
    else pure tt

-- `finalize`, with whether there is an `on_terminal`. The callback runs outside the lock.
unfoldable pub finalize : Bool → Net (Unit {0})
unfolding finish
finalize hook m = finish hook m.disk.state m

unfoldable pub tick : Bool → Verifiers → Net (Option State)
tick hook v = do result ← tick_state v; finalize hook; pure result

unfoldable pub recover_boot : Bool → Net (Option State)
recover_boot hook = do result ← recover_state; finalize hook; pure result

unfoldable pub confirm : Bool → Verifiers → String → String → Net State
confirm hook v identifier proof = do
  result ← confirm_state v identifier proof
  finalize hook
  pure result

unfoldable pub cancel : Bool → String → Net State
cancel hook identifier = do result ← cancel_state identifier; finalize hook; pure result
