-- ===== src/Jobs/Changes.antt =====
-- Each operation of the job store (appliance/lib/host_jobs.py) goes over the records one by one, and adds
-- at most one.
use mindflayer_elderbrain.Base.{
  ℕ, ◌+◌, ◌≡◌, refl, sym, ap, ◌∙◌, Bool, true, false, inl, inr, Option, none, some, List, [], ◌∷◌,
  map, String, if◌then◌else◌, Bool-cases, or_false, arith, some_of, is_identity, Value, text?,
  Result, ok, err,
}
use mathlib.Core.Path.{subst}
use mindflayer_elderbrain.Jobs.Record.{Kind, power, State, Request, Job, is_active, queued, failed}
use mindflayer_elderbrain.Jobs.Record as Record
use mindflayer_elderbrain.Jobs.Store.{
  Error, World, find_job, update_job, rewrite, settled, settle_all, ends, read_found, read_job,
}
use mindflayer_elderbrain.Jobs.Requests.{is_restore, read_preview, read_request}
use mindflayer_elderbrain.Jobs.Operations.{
  is_power_pending, is_busy, exists, new_job, start_worker, admit_idle, admit, admit_request,
  submit,
}
use mindflayer_elderbrain.Jobs.Diagram.{IsWhole, IsNext, same, next_next, settled_lem, rewrite_lem}

-- The number of active jobs.
abbrev pub actives : List Job → ℕ
actives [] = 0
actives (j ∷ rest) = (if is_busy j then 1 else 0) + actives rest

abbrev pub identities : List Job → List String
identities [] = []
identities (j ∷ rest) = j.identity ∷ identities rest

-- What may become of the records: each goes on by `f`, and a new one may come while none is active.
pub data Changes (before after : List Job) : Type 0 where
  kept :
      (f : Job → Job) → ((j : Job) → IsNext j (f j)) → after ≡ map f before → Changes before after
  added :
      (f : Job → Job) (new : Job)
      → ((j : Job) → IsNext j (f j))
      → IsWhole new
      → actives (map f before) ≡ 0
      → exists new.identity (map f before) ≡ false
      → after ≡ new ∷ map f before
      → Changes before after

map_same : {A : Type 0} (xs : List A) → map (λ x. x) xs ≡ xs
map_same [] = refl
map_same (x ∷ xs) = ap (λ l. x ∷ l) (map_same xs)

map-map : {A : Type 0} (f g : A → A) (xs : List A) → map g (map f xs) ≡ map (λ x. g (f x)) xs
map-map f g [] = refl
map-map f g (x ∷ xs) = ap (λ l. g (f x) ∷ l) (map-map f g xs)

pub nothing : (jobs : List Job) → Changes jobs jobs
nothing jobs = kept (λ j. j) same (sym (map_same jobs))

-- A change after one that only goes over the records.
pub after_map :
    (f : Job → Job) (before after : List Job)
    → ((j : Job) → IsNext j (f j))
    → Changes (map f before) after
    → Changes before after
after_map f before after next (kept g more e) =
    kept (λ j. g (f j)) (λ j. next_next (next j) (more (f j))) (e ∙ map-map f g before)
after_map f before after next (added g new more whole idle fresh e) =
    added (λ j. g (f j)) new (λ j. next_next (next j) (more (f j))) whole
      (subst (λ l. actives l ≡ 0) (map-map f g before) idle)
      (subst (λ l. exists new.identity l ≡ false) (map-map f g before) fresh)
      (e ∙ ap (λ l. new ∷ l) (map-map f g before))

pub settle_all_lem : (w : World) → Changes w.jobs (settle_all w).jobs
settle_all_lem w = kept (settled w) (settled_lem w) refl

pub update_lem :
    (identity : String) (f : Job → Job) (jobs : List Job)
    → ((j : Job) → IsNext j (f j))
    → Changes jobs (update_job identity f jobs)
update_lem identity f jobs next =
    kept (rewrite identity f) (λ j. rewrite_lem identity f j (next j)) refl

-- A part of an operation that changes no more than records that it read.
record IsRead (w u : World) : Type 0 where
  f : Job → Job
  next : (j : Job) → IsNext j (f j)
  jobs : u.jobs ≡ map f w.jobs

unread : (w : World) → IsRead w w
unread w = record { f = λ j. j; next = same; jobs = sym (map_same w.jobs) }

read_found_lem : (o : Option Job) (w : World) → IsRead w (read_found o w).1
read_found_lem none w = unread w
read_found_lem (some j) w = record {
  f = rewrite j.identity (settled w);
  next = λ k. rewrite_lem j.identity (settled w) k (settled_lem w k);
  jobs = refl;
}

read_job_lem : (identity : String) (w : World) → IsRead w (read_job identity w).1
unfolding read_job
read_job_lem identity w = elim (Bool-cases (is_identity identity)) [
  | inl good ↦ rw good (read_found_lem (find_job identity w.jobs) w)
  | inr bad ↦ rw bad (unread w)
]

pub read_job-Changes : (identity : String) (w : World) → Changes w.jobs (read_job identity w).1.jobs
read_job-Changes identity w = let read = read_job_lem identity w in kept read.f read.next read.jobs

read_preview_lem : (o : Option String) (w : World) → IsRead w (read_preview o w).1
unfolding read_preview
read_preview_lem none w = unread w
read_preview_lem (some identity) w = read_job_lem identity w

-- No job is busy exactly if none is counted.
pub idle_lem : (jobs : List Job) → some_of is_busy jobs ≡ false → actives jobs ≡ 0
idle_lem [] h = refl
idle_lem (j ∷ rest) h =
    let (idle, others) = or_false {a = is_busy j} {b = some_of is_busy rest} h in
    rw idle (omega (arith, idle_lem rest others))

start_worker_lem :
    (spawned : Bool) (identity : String) (kind : Kind) (request : Request) (w : World)
    → some_of is_busy w.jobs ≡ false
    → exists identity w.jobs ≡ false
    → Changes w.jobs (start_worker spawned (new_job identity kind request w.now) w).1.jobs
start_worker_lem true identity kind request w idle fresh =
    added (λ j. j) (new_job identity kind request w.now) same (refl, refl, refl)
      (subst (λ l. actives l ≡ 0) (sym (map_same w.jobs)) (idle_lem w.jobs idle))
      (subst (λ l. exists identity l ≡ false) (sym (map_same w.jobs)) fresh)
      (ap (λ l. new_job identity kind request w.now ∷ l) (sym (map_same w.jobs)))
start_worker_lem false identity kind request w idle fresh =
    let new = ends failed w.now Record.not_started (new_job identity kind request w.now) in
    added (λ j. j) new same ((w.now, refl), (Record.not_started, refl))
      (subst (λ l. actives l ≡ 0) (sym (map_same w.jobs)) (idle_lem w.jobs idle))
      (subst (λ l. exists identity l ≡ false) (sym (map_same w.jobs)) fresh)
      (ap (λ l. new ∷ l) (sym (map_same w.jobs)))

admit_idle_lem :
    (kind : Kind) (request : Request) (fresh : String) (spawned : Bool) (w : World)
    → Changes w.jobs (admit_idle kind request fresh spawned w).1.jobs
admit_idle_lem kind request fresh spawned w = elim (Bool-cases (some_of is_busy w.jobs)) [
  | inl busy ↦ rw busy (nothing w.jobs)
  | inr idle ↦ elim (Bool-cases (exists fresh w.jobs)) [
    | inl used ↦ rw (idle, used) (nothing w.jobs)
    | inr free ↦ rw (idle, free) (start_worker_lem spawned fresh kind request w idle free)
  ]
]

pub admit_lem :
    (kind : Kind) (request : Request) (fresh : String) (spawned : Bool) (w : World)
    → Changes w.jobs (admit kind request fresh spawned w).1.jobs
unfolding admit
admit_lem kind request fresh spawned w = elim (Bool-cases (is_power_pending w)) [
  | inl waits ↦ rw waits (nothing w.jobs)
  | inr free ↦ rw free (
      after_map (settled w) w.jobs _ (settled_lem w)
        (admit_idle_lem kind request fresh spawned (settle_all w)))
]

read_request_lem :
    (accepts : Kind → Option Value → Bool) (kind : Kind) (source : Option Value) (w : World)
    → IsRead w (read_request accepts kind source w).1
unfolding read_request
read_request_lem accepts kind source w = elim (Bool-cases (is_restore kind)) [
  | inl restores ↦ rw restores (read_preview_lem (text? source) w)
  | inr other ↦ rw other (unread w)
]

admit_request_lem :
    (kind : Kind) (fresh : String) (spawned : Bool) (x : Result Error Request × World) (w : World)
    → IsRead w x.1
    → Changes w.jobs (admit_request kind fresh spawned x).1.jobs
admit_request_lem kind fresh spawned (err e, u) w read = kept read.f read.next read.jobs
admit_request_lem kind fresh spawned (ok request, u) w read = after_map read.f w.jobs _ read.next (
    subst (λ l. Changes l (admit kind request fresh spawned u).1.jobs) read.jobs
      (admit_lem kind request fresh spawned u))

pub submit-Changes :
    (accepts : Kind → Option Value → Bool) (kind : Kind) (source : Option Value) (fresh : String)
    (spawned : Bool) (w : World)
    → Changes w.jobs (submit accepts kind source fresh spawned w).1.jobs
unfolding submit
submit-Changes accepts kind source fresh spawned w =
    admit_request_lem kind fresh spawned (read_request accepts kind source w) w
      (read_request_lem accepts kind source w)
