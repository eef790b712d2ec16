-- ===== src/Jobs/Events.antt =====
-- What may happen to the host jobs (appliance/lib/host_jobs.py): submissions, reads, the steps of live
-- workers, their deaths, reboots, recoveries, and what other programs write.
use mindflayer_elderbrain.Base.{
  ℕ, ◌≡◌, refl, Bool, true, not, ◌&&◌, inl, inr, Option, none, some, some-injective, [], String,
  str_eq, Bool-cases, has_name, is_identity, is_digest, Value, get, text?, text_is,
}
use mathlib.Core.Path.{subst}
use mindflayer_elderbrain.Jobs.Record.{Kind, State, Job}
use mindflayer_elderbrain.Jobs.Store.{World, find_job, read_job, list_jobs}
use mindflayer_elderbrain.Jobs.Operations.{
  submit, release, begins, begin_found, begin_work, is_queued, advances, progress, Ending,
  concludes, end_work, end_state?, Outcome, make_outcome, read_outcome, resolves, is_outcome_of,
  reconcile_with, reconcile_outcome, reconcile_update,
}
use mindflayer_elderbrain.Jobs.Diagram.{
  IsEnd, is_completed, is_rolled_back, begins_lem, advances_lem, concludes_lem, resolves_lem,
}
use mindflayer_elderbrain.Jobs.Changes.{
  Changes, nothing, settle_all_lem, update_lem, read_job-Changes, submit-Changes,
}

-- A worker's steps are those of a process that holds the lock of its job.
pub data Step (w u : World) : Type 0 where
  submits :
      (accepts : Kind → Option Value → Bool) (kind : Kind) (source : Option Value) (fresh : String)
      (spawned : Bool)
      → u ≡ (submit accepts kind source fresh spawned w).1
      → Step w u
  reads : (identity : String) → u ≡ (read_job identity w).1 → Step w u
  lists : u ≡ (list_jobs w).1 → Step w u
  reconciles : (outcome : Value) → u ≡ (reconcile_update outcome w).1 → Step w u
  begins_working :
      (identity : String)
      → has_name identity w.held ≡ true
      → u ≡ (begin_work identity w).1
      → Step w u
  progresses :
      (identity stage : String)
      → has_name identity w.held ≡ true
      → u ≡ progress identity stage w
      → Step w u
  ends_working :
      (identity : String) (ending : Ending)
      → has_name identity w.held ≡ true
      → u ≡ end_work identity ending w
      → Step w u
  exits : (identity : String) → u ≡ release identity w → Step w u
  boots : (boot : String) → u ≡ record w { held = []; boot_id = boot } → Step w u
  elsewhere :
      (power_record maintenance : Option Value) (now : ℕ)
      → u ≡ record w { power_record = power_record; maintenance = maintenance; now = now }
      → Step w u

pub data Reach (w : World) : World → Type 0 where
  unmoved : Reach w w
  moved : {u v : World} → Reach w u → Step u v → Reach w v

begin_lem :
    (identity : String) (w : World) (o : Option Job)
    → Changes w.jobs (begin_found identity w o).1.jobs
begin_lem identity w none = nothing w.jobs
begin_lem identity w (some j) = elim (Bool-cases (is_queued j.state)) [
  | inl yet ↦ rw yet (update_lem identity begins w.jobs begins_lem)
  | inr other ↦ rw other (nothing w.jobs)
]

-- The state of an outcome is an end.
end_state-IsEnd : (o : Option String) (s : State) → end_state? o ≡ some s → IsEnd s
end_state-IsEnd none s h = cc
end_state-IsEnd (some t) s h = elim (Bool-cases (str_eq t "completed")) [
  | inl done ↦ subst IsEnd (some-injective (rw done at h)) is_completed
  | inr other ↦ elim (Bool-cases (str_eq t "rolled-back")) [
    | inl back ↦ subst IsEnd (some-injective (rw (other, back) at h)) is_rolled_back
    | inr neither ↦ cc (rw (other, neither) at h)
  ]
]

make_outcome-IsEnd :
    (s : Option State) (i p v d : Option String) (o : Outcome)
    → ((t : State) → s ≡ some t → IsEnd t)
    → make_outcome s i p v d ≡ some o
    → IsEnd o.state
make_outcome-IsEnd (some s) (some i) (some p) v (some d) o end h =
    elim (Bool-cases (is_identity i && is_identity p && is_digest d)) [
      | inl good ↦ subst (λ z. IsEnd z.state) (some-injective (rw good at h)) (end s refl)
      | inr bad ↦ cc (rw bad at h)
    ]
make_outcome-IsEnd (some s) (some i) (some p) v none o end h = cc
make_outcome-IsEnd (some s) (some i) none v d o end h = cc
make_outcome-IsEnd (some s) none p v d o end h = cc
make_outcome-IsEnd none i p v d o end h = cc

read_outcome-IsEnd : (v : Value) (o : Outcome) → read_outcome v ≡ some o → IsEnd o.state
unfolding read_outcome
read_outcome-IsEnd v o h = elim (Bool-cases (text_is "update" (get "operation" v))) [
  | inl update ↦
      make_outcome-IsEnd (end_state? (text? (get "state" v))) _ _ _ _ o
        (end_state-IsEnd (text? (get "state" v))) (rw update at h)
  | inr other ↦ cc (rw other at h)
]

reconcile_with_lem :
    (o : Outcome) (w : World) (j : Option Job)
    → IsEnd o.state
    → Changes w.jobs (reconcile_with o w j).1.jobs
reconcile_with_lem o w none end = nothing w.jobs
reconcile_with_lem o w (some j) end =
    elim (Bool-cases (not (has_name o.identity w.held) && is_outcome_of o j)) [
      | inl fits ↦
          rw fits
            (update_lem o.identity (resolves o w.now) w.jobs (λ k. resolves_lem o w.now k end))
      | inr other ↦ rw other (nothing w.jobs)
    ]

reconcile_outcome_lem :
    (w : World) (x : Option Outcome)
    → ((o : Outcome) → x ≡ some o → IsEnd o.state)
    → Changes w.jobs (reconcile_outcome w x).1.jobs
reconcile_outcome_lem w none end = nothing w.jobs
reconcile_outcome_lem w (some o) end =
    reconcile_with_lem o w (find_job o.identity w.jobs) (end o refl)

reconcile_update-Changes : (v : Value) (w : World) → Changes w.jobs (reconcile_update v w).1.jobs
unfolding reconcile_update
reconcile_update-Changes v w = reconcile_outcome_lem w (read_outcome v) (read_outcome-IsEnd v)

pub Step-Changes : (w u : World) → Step w u → Changes w.jobs u.jobs
unfolding list_jobs begin_work progress end_work release
Step-Changes w u (submits accepts kind source fresh spawned e) =
    rw e (submit-Changes accepts kind source fresh spawned w)
Step-Changes w u (reads identity e) = rw e (read_job-Changes identity w)
Step-Changes w u (lists e) = rw e (settle_all_lem w)
Step-Changes w u (reconciles outcome e) = rw e (reconcile_update-Changes outcome w)
Step-Changes w u (begins_working identity holds e) =
    rw e (begin_lem identity w (find_job identity w.jobs))
Step-Changes w u (progresses identity stage holds e) =
    rw e (update_lem identity (advances stage) w.jobs (advances_lem stage))
Step-Changes w u (ends_working identity ending holds e) =
    rw e (update_lem identity (concludes w.now ending) w.jobs (concludes_lem w.now ending))
Step-Changes w u (exits identity e) = rw e (nothing w.jobs)
Step-Changes w u (boots boot e) = rw e (nothing w.jobs)
Step-Changes w u (elsewhere power_record maintenance now e) = rw e (nothing w.jobs)
