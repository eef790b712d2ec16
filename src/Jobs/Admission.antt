-- ===== src/Jobs/Admission.antt =====
-- What `submit` of appliance/lib/host_jobs.py admits.
use mindflayer_elderbrain.Base.{◌≡◌, true, false, String, In, has_name}
use mindflayer_elderbrain.Jobs.Record.{Kind, queued, Job}
use mindflayer_elderbrain.Jobs.Store.{World}
use mindflayer_elderbrain.Jobs.Operations.{is_power_pending}
use mindflayer_elderbrain.Jobs.Changes.{actives}

-- A job that was admitted: it waits, its worker holds its lock, no other job is active, its identity is
-- fresh, and no power operation waited.
record IsAdmitted (w u : World) (kind : Kind) (fresh : String) (j : Job) : Type 0 where
  pub identity : j.identity ≡ fresh
  pub kind_of : j.kind ≡ kind
  pub state : j.state ≡ queued
  pub saved : In j u.jobs
  pub alone : actives u.jobs ≡ 1
  pub live : has_name fresh u.held ≡ true
  pub power : is_power_pending w ≡ false
