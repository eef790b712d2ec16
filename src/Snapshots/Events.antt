-- ===== src/Snapshots/Events.antt =====
-- A store over its whole life: any operations one after another, each cut short anywhere.
use mindflayer_elderbrain.Base.{
  ℕ, ◌≡◌, Bool, false, Option, none, List, [], String, has_name, Value,
}
use mindflayer_elderbrain.Durable.{Machine, pure}
use mindflayer_elderbrain.Durable.Keeps.{Keeps, then_keeps, lift_keeps, require_then_keeps}
use mindflayer_elderbrain.Snapshots.Store.{
  World, Retention, missing, read_retention, validate_compatibility, validate_nested, unguarded,
  no_space, command_failed,
}
use mindflayer_elderbrain.Snapshots.Deleting.{ask_keeps, prepare_keeps}
use mindflayer_elderbrain.Snapshots.Complete.{IsComplete, IsWhole}
use mindflayer_elderbrain.Snapshots.Operations.{
  file_names, ask, prepare, check_guard, recover, prune, pin, unpin, unpin_owner, set_retention,
  create, is_missing, survey,
}

-- Before the new subvolume is made, no intent names it; afterwards it is whole.
abbrev Fresh : String → World → Type 0
Fresh k w = IsComplete w × (has_name k (file_names w.deleting) ≡ false)

abbrev Made : String → World → Type 0
Made k w = IsComplete w × IsWhole w k

module _ (P : World → Type 0)
    (reply : (w : World) (l : List Bool) → P w → P (record w { replies = l })) where
  pub survey_keeps :
      (compatibility : Option Value) (nested : List String) (k : String)
      → Keeps P (survey compatibility nested k)
  unfolding survey
  survey_keeps compatibility nested k = then_keeps P prepare _ (prepare_keeps P reply) (
      then_keeps P check_guard _ (ask_keeps P unguarded reply) (
        lift_keeps P read_retention _ λ r m e h.
          then_keeps P (ask no_space) _ (ask_keeps P no_space reply)
            (then_keeps P (ask command_failed) _ (ask_keeps P command_failed reply) (
              then_keeps P check_guard _ (ask_keeps P unguarded reply) (
                lift_keeps P (λ _. validate_compatibility compatibility) _
                  λ c n e' h'.
                    lift_keeps P (λ _. validate_nested nested) _
                      (λ u o e'' h''.
                        then_keeps P (ask command_failed) _ (ask_keeps P command_failed reply)
                          (λ q x.
                            require_then_keeps P (is_missing (q.disk.subvolume k)) command_failed
                              (pure (r, c)) (λ _ y z. z) q x)
                          o h'')
                      n h')))
            m h))

-- What may happen to a store: the time between two operations may bring other replies and other power.
pub data Event : Type 0 where
  recovers : Event
  prunes : ℕ → List String → Event
  pins unpins : String → String → String → Event
  unpins_owner : String → String → Event
  sets_retention : Retention → Event
  creates : String → Option (String × String) → Option Value → List String → String → ℕ → Event

-- `secrets.token_hex` returns no name that a deletion in progress uses.
abbrev IsPossible : Event → World → Type 0
IsPossible (creates reason owner compatibility nested k now) w =
    has_name k (file_names w.deleting) ≡ false
IsPossible e w = Unit

abbrev pub perform : Event → Machine World → World
perform recovers m = (recover m).1.disk
perform (prunes keep protected) m = (prune keep protected m).1.disk
perform (pins k owner purpose) m = (pin k owner purpose m).1.disk
perform (unpins k owner purpose) m = (unpin k owner purpose m).1.disk
perform (unpins_owner owner purpose) m = (unpin_owner owner purpose m).1.disk
perform (sets_retention r) m = (set_retention r m).1.disk
perform (creates reason owner compatibility nested k now) m =
    (create reason owner compatibility nested k now m).1.disk

pub data Happens (start : World) : World → Type 0 where
  nothing : Happens start start
  event :
      (v : World) (e : Event) (replies : List Bool) (power : ℕ)
      → Happens start v
      → IsPossible e v
      → Happens start (perform e (record { disk = record v { replies = replies }; power = power }))

abbrev pub empty_store : World
empty_store = record {
  records = [];
  deleting = [];
  pins = [];
  subvolume = λ k. missing;
  retention = none;
  replies = [];
}
