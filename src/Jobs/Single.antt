-- ===== src/Jobs/Single.antt =====
-- The job store (appliance/lib/host_jobs.py) keeps its order: one active job, whole records, fixed states.
use mindflayer_elderbrain.Base.{
  ◌≤◌, ◌≡◌, refl, List, [], ◌∷◌, map, In, here, there, In-cases, Distinct,
}
use mindflayer_elderbrain.Jobs.Record.{Job}
use mindflayer_elderbrain.Jobs.Diagram as Diagram
use mindflayer_elderbrain.Jobs.Diagram.{IsWhole, ◌⟶*◌}
use mindflayer_elderbrain.Jobs.Changes.{Changes, actives, identities}

-- The store in order: at most one active job, no identity twice, and whole records.
pub record IsInOrder (jobs : List Job) : Type 0 where
  pub one_active : actives jobs ≤ 1
  pub no_twins : Distinct (identities jobs)
  pub whole : (j : Job) → In j jobs → IsWhole j

pub In-map :
    (f : Job → Job) (k : Job) (jobs : List Job)
    → In k (map f jobs)
    → (j : Job) × In j jobs × (k ≡ f j)
In-map f k [] i = elim i [ ]
In-map f k (j ∷ rest) i =
    In-cases k (f j) (map f rest) i (λ e. (j, here j rest refl, e))
      (λ i'. let (j', i'', e) = In-map f k rest i' in (j', there j rest i'', e))

-- What a job becomes: the record of its identity goes on along the diagram.
record IsLater (j : Job) (jobs : List Job) : Type 0 where
  job : Job
  there_is : In job jobs
  identity : job.identity ≡ j.identity
  states : j.state ⟶* job.state
