-- ===== src/Snapshots/Pinning.antt =====
-- The operations on pins change nothing but the pins.
use mindflayer_elderbrain.Base.{
  Bool, Option, none, some, List, String, str_eq, inl, inr, Bool-cases, has_name, ◌∷◌,
}
use mindflayer_elderbrain.Durable.Keeps.{
  Keeps, then_keeps, lift_keeps, require_keeps, require_then_keeps, write_keeps, for_each_keeps,
}
use mindflayer_elderbrain.Snapshots.Store.{
  Error, PinFile, World, Pin, read_pins, validate_pin, other_purpose, no_checkpoint,
}
use mindflayer_elderbrain.Snapshots.Retention.{list_records, ids}
use mindflayer_elderbrain.Snapshots.Deleting.{prepare_keeps}
use mindflayer_elderbrain.Snapshots.Operations.{
  prepare, find_pin, pin_file, keep_or_write, write_pin, pin, unlinks_pin, remove_pin, unpin,
  is_owned, release_one, unpin_owner,
}

-- What changes no record, no intent and no subvolume keeps the invariant.
module _ (P : World → Type 0)
    (reply : (w : World) (l : List Bool) → P w → P (record w { replies = l }))
    (pins : (w : World) (l : List PinFile) → P w → P (record w { pins = l })) where
  keep_or_write_keeps :
      (identifier owner purpose : String) (o : Option Pin)
      → Keeps P (keep_or_write identifier owner purpose o)
  keep_or_write_keeps identifier owner purpose (some p) =
      require_keeps P (str_eq p.purpose purpose) other_purpose
  keep_or_write_keeps identifier owner purpose none =
      write_keeps Error P _ (λ w. pins w (pin_file identifier owner purpose ∷ w.pins))

  pub write_pin_keeps :
      (identifier owner purpose : String) → Keeps P (write_pin identifier owner purpose)
  unfolding write_pin
  write_pin_keeps identifier owner purpose =
      lift_keeps P (λ _. validate_pin identifier owner purpose) _
        λ u m e h.
          lift_keeps P read_pins _
            (λ ps n e' h'.
              keep_or_write_keeps identifier owner purpose (find_pin identifier owner ps) n h')
            m h

  pub pin_keeps : (identifier owner purpose : String) → Keeps P (pin identifier owner purpose)
  unfolding pin
  pin_keeps identifier owner purpose =
      lift_keeps P (λ _. validate_pin identifier owner purpose) _
        λ u m e h.
          then_keeps P prepare _ (prepare_keeps P reply)
            (lift_keeps P list_records _ λ cs n e' h'.
              require_then_keeps P (has_name identifier (ids cs)) no_checkpoint _
                (λ _. write_pin_keeps identifier owner purpose) n h')
            m h

  remove_pin_keeps :
      (identifier owner purpose : String) (o : Option Pin)
      → Keeps P (remove_pin identifier owner purpose o)
  remove_pin_keeps identifier owner purpose none = λ m h. h
  remove_pin_keeps identifier owner purpose (some p) =
      require_then_keeps P (str_eq p.purpose purpose) other_purpose _
        λ _. write_keeps Error P (unlinks_pin identifier owner) (λ w. pins w _)

  pub unpin_keeps : (identifier owner purpose : String) → Keeps P (unpin identifier owner purpose)
  unfolding unpin
  unpin_keeps identifier owner purpose =
      lift_keeps P (λ _. validate_pin identifier owner purpose) _
        λ u m e h.
          then_keeps P prepare _ (prepare_keeps P reply)
            (lift_keeps P read_pins _ λ ps n e' h'.
              remove_pin_keeps identifier owner purpose (find_pin identifier owner ps) n h')
            m h

  release_one_keeps : (owner purpose : String) (p : Pin) → Keeps P (release_one owner purpose p)
  unfolding release_one
  release_one_keeps owner purpose p m h = elim (Bool-cases (is_owned owner purpose p)) [
    | inl e ↦ rw (e, release_one) (write_keeps Error P (unlinks_pin p.id owner) (λ w. pins w _) m h)
    | inr e ↦ rw (e, release_one) h
  ]

  pub unpin_owner_keeps : (owner purpose : String) → Keeps P (unpin_owner owner purpose)
  unfolding unpin_owner
  unpin_owner_keeps owner purpose =
      lift_keeps P (λ _. validate_pin "00000000000000000000000000000000" owner purpose) _
        λ u m e h.
          then_keeps P prepare _ (prepare_keeps P reply)
            (lift_keeps P read_pins _ λ ps n e' h'.
              for_each_keeps P ps (release_one owner purpose)
                (λ p i. release_one_keeps owner purpose p) n h')
            m h
