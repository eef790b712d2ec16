-- ===== src/Jobs/Dead.antt =====
-- What `read` and `list` of appliance/lib/host_jobs.py say of a job whose worker died.
use mindflayer_elderbrain.Base.{
  ◌≡◌, ◌≢◌, refl, Bool, true, false, inl, inr, Option, none, some, Bool-cases, has_name, Value,
}
use mathlib.Core.Path.{subst}
use mindflayer_elderbrain.Jobs.Record.{
  completed, Action, Request, power_request, update_request, other_request, Report, Job, is_active,
  is_update, is_power, is_before_activation, is_request_of, report_power, backup?, completed_power,
  has_update_maintenance,
}
use mindflayer_elderbrain.Jobs.Store.{World, settle_update, settle_power, settle, settled}

-- The power record shows that the request of a job was carried out.
record IsProved (w : World) (j : Job) : Type 0 where
  pub action : Action
  pub asked : Value
  pub request : j.request ≡ power_request action
  pub recorded : w.power_record ≡ some asked
  pub matching : is_request_of w.boot_id j.identity action asked ≡ true

reported :
    (b : Bool) (action : Action) (o : Option Value) (r : Report)
    → report_power b action o ≡ some r
    → b ≡ true
reported true action o r h = refl
reported false action none r h = cc
reported false action (some v) r h = cc

shown_by_proof :
    (w : World) (j : Job) (q : Request) (o : Option Value) (r : Report)
    → j.request ≡ q
    → w.power_record ≡ o
    → completed_power w.boot_id (record j { request = q }) o ≡ some r
    → IsProved w j
unfolding completed_power
shown_by_proof w j q none r e f h = cc
shown_by_proof w j (power_request action) (some asked) r e f h = record {
  action = action;
  asked = asked;
  request = e;
  recorded = f;
  matching = reported _ action (backup? asked) r h;
}
shown_by_proof w j (update_request v d) (some asked) r e f h = cc
shown_by_proof w j other_request (some asked) r e f h = cc

proved :
    (w : World) (j : Job) (o : Option Report)
    → completed_power w.boot_id j w.power_record ≡ o
    → (settle_power w j o).state ≡ completed
    → IsProved w j
unfolding settle_power
proved w j none e h = cc
proved w j (some r) e h = shown_by_proof w j j.request w.power_record r refl refl e

not_completed : (w : World) (j : Job) → (settle_update w j).state ≢ completed
unfolding settle_update
not_completed w j h = elim (Bool-cases (is_before_activation j.stage)) [
  | inr late ↦ cc (rw late at h)
  | inl early ↦ elim (Bool-cases (has_update_maintenance j w.maintenance)) [
    | inl reached ↦ cc (rw (early, reached) at h)
    | inr unreached ↦ cc (rw (early, unreached) at h)
  ]
]

settle_completed :
    (w : World) (j : Job) → (settle w j).state ≡ completed → (is_power j.kind ≡ true) × IsProved w j
unfolding settle
settle_completed w j h = elim (Bool-cases (is_power j.kind)) [
  | inl asks ↦ (asks, proved w j (completed_power w.boot_id j w.power_record) refl (rw asks at h))
  | inr other ↦ elim (Bool-cases (is_update j.kind)) [
    | inl updates ↦ absurd (not_completed w j (rw (other, updates) at h))
    | inr neither ↦ cc (rw (other, neither) at h)
  ]
]

-- A dead worker's job is called completed only on proof. Where `read` completes an active job, it is a power
-- job, and power.json records the request of this very job, for the same action, as made in another
-- boot than the present one.
pub dead_job_is_completed_on_proof :
    (w : World) (j : Job)
    → is_active j.state ≡ true
    → (settled w j).state ≡ completed
    → (has_name j.identity w.held ≡ false)
      × (is_power j.kind ≡ true)
      × (a : Action) × (v : Value) × (j.request ≡ power_request a)
      × (w.power_record ≡ some v)
      × (is_request_of w.boot_id j.identity a v ≡ true)
unfolding settled
dead_job_is_completed_on_proof w j active h = elim (Bool-cases (has_name j.identity w.held)) [
  | inl alive ↦
      let ended : j.state ≡ completed = rw (active, alive) at h in
      cc (subst (λ s. is_active s ≡ true) ended active)
  | inr dead ↦
      let (kind, p) = settle_completed w j (rw (active, dead) at h) in
      (dead, kind, p.action, p.asked, p.request, p.recorded, p.matching)
]
