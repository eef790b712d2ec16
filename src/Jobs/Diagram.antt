-- ===== src/Jobs/Diagram.antt =====
-- The states of a job, and what each operation of appliance/lib/host_jobs.py may make of a record.
use mindflayer_elderbrain.Base.{
  ℕ, ◌≡◌, refl, sym, true, not, ◌&&◌, inl, inr, Option, none, some, String, str_eq, Bool-cases,
  has_name, and_true,
}
use mathlib.Core.Path.{subst}
use mindflayer_elderbrain.Jobs.Record.{
  State, queued, running, completed, failed, interrupted, rolled_back, Report, Message, Job,
  is_active, is_power, is_update, is_before_activation, completed_power, has_update_maintenance,
  not_activated, stopped_activating, worker_stopped,
}
use mindflayer_elderbrain.Jobs.Store.{
  World, rewrite, ends, keypad_message, settle_update, settle_power, settle, settled,
}
use mindflayer_elderbrain.Jobs.Operations.{
  is_queued, is_running, is_unresolved, begins, advances, Ending, succeeds, fails, concludes,
  failure, Outcome, is_outcome_of, resolves,
}

infix 40 ◌⟶◌ ◌⟶*◌
pub data ◌⟶◌ : State → State → Type 0 where
  start : queued ⟶ running
  complete : {s : State} → is_active s ≡ true → s ⟶ completed
  fail : {s : State} → is_active s ≡ true → s ⟶ failed
  interrupt : {s : State} → is_active s ≡ true → s ⟶ interrupted
  recover : {s : State} → is_unresolved s ≡ true → s ⟶ completed
  roll_back : {s : State} → is_unresolved s ≡ true → s ⟶ rolled_back

pub data ◌⟶*◌ : State → State → Type 0 where
  here : {s : State} → s ⟶* s
  onward : {s t u : State} → s ⟶ t → t ⟶* u → s ⟶* u

pub follow : {s t u : State} → s ⟶* t → t ⟶* u → s ⟶* u
follow here r = r
follow (onward a p) r = onward a (follow p r)

-- What a record of each state holds.
abbrev pub IsWholeAs : State → Job → Type 0
IsWholeAs queued j = (j.finished_at ≡ none) × (j.result ≡ none) × (j.error ≡ none)
IsWholeAs running j = (j.finished_at ≡ none) × (j.result ≡ none) × (j.error ≡ none)
IsWholeAs completed j =
    ((t : ℕ) × (j.finished_at ≡ some t)) × ((r : Report) × (j.result ≡ some r)) × (j.error ≡ none)
IsWholeAs rolled_back j =
    ((t : ℕ) × (j.finished_at ≡ some t)) × ((r : Report) × (j.result ≡ some r)) × (j.error ≡ none)
IsWholeAs failed j = ((t : ℕ) × (j.finished_at ≡ some t)) × ((m : Message) × (j.error ≡ some m))
IsWholeAs interrupted j =
    ((t : ℕ) × (j.finished_at ≡ some t)) × ((m : Message) × (j.error ≡ some m))

-- An active job has no result, error or end; an ended one has its end, and a result or an error.
abbrev pub IsWhole : Job → Type 0
IsWhole j = IsWholeAs j.state j

-- What may become of a record.
pub record IsNext (j k : Job) : Type 0 where
  pub identity : k.identity ≡ j.identity
  pub whole : IsWhole j → IsWhole k
  pub states : j.state ⟶* k.state

pub same : (j : Job) → IsNext j j
same j = record { identity = refl; whole = λ h. h; states = here }

pub next_next : {j k l : Job} → IsNext j k → IsNext k l → IsNext j l
next_next a b = record {
  identity = cc (a.identity, b.identity);
  whole = λ h. b.whole (a.whole h);
  states = follow a.states b.states;
}

-- An active record has no error.
no_error : (s : State) (j : Job) → is_active s ≡ true → IsWholeAs s j → j.error ≡ none
no_error queued j a h = h.2
no_error running j a h = h.2
no_error completed j a h = cc
no_error failed j a h = cc
no_error interrupted j a h = cc
no_error rolled_back j a h = cc

pub fails_lem :
    (now : ℕ) (m : Message) (j : Job) → is_active j.state ≡ true → IsNext j (ends failed now m j)
fails_lem now m j a = record {
  identity = refl;
  whole = λ h. ((now, refl), (m, refl));
  states = onward (fail a) here;
}

interrupts_lem :
    (now : ℕ) (m : Message) (j : Job)
    → is_active j.state ≡ true
    → IsNext j (ends interrupted now m j)
interrupts_lem now m j a = record {
  identity = refl;
  whole = λ h. ((now, refl), (m, refl));
  states = onward (interrupt a) here;
}

settle_update_lem : (w : World) (j : Job) → is_active j.state ≡ true → IsNext j (settle_update w j)
unfolding settle_update
settle_update_lem w j a = elim (Bool-cases (is_before_activation j.stage)) [
  | inr late ↦ rw late (interrupts_lem w.now worker_stopped j a)
  | inl early ↦ elim (Bool-cases (has_update_maintenance j w.maintenance)) [
    | inl reached ↦ rw (early, reached) (interrupts_lem w.now stopped_activating j a)
    | inr unreached ↦
        rw (early, unreached)
          (record {
            identity = refl;
            whole = λ h. ((w.now, refl), (not_activated, refl));
            states = onward (fail a) here;
          })
  ]
]

settle_power_lem :
    (w : World) (j : Job) (o : Option Report)
    → is_active j.state ≡ true
    → IsNext j (settle_power w j o)
unfolding settle_power
settle_power_lem w j none a = interrupts_lem w.now worker_stopped j a
settle_power_lem w j (some report) a = record {
  identity = refl;
  whole = λ h. ((w.now, refl), (report, refl), no_error j.state j a h);
  states = onward (complete a) here;
}

settle_lem : (w : World) (j : Job) → is_active j.state ≡ true → IsNext j (settle w j)
unfolding settle
settle_lem w j a = elim (Bool-cases (is_power j.kind)) [
  | inl power ↦ rw power (settle_power_lem w j (completed_power w.boot_id j w.power_record) a)
  | inr other ↦ elim (Bool-cases (is_update j.kind)) [
    | inl update ↦ rw (other, update) (settle_update_lem w j a)
    | inr neither ↦ rw (other, neither) (interrupts_lem w.now (keypad_message j.kind) j a)
  ]
]

pub settled_lem : (w : World) (j : Job) → IsNext j (settled w j)
unfolding settled
settled_lem w j = elim (Bool-cases (is_active j.state && not (has_name j.identity w.held))) [
  | inl dead ↦ rw dead (settle_lem w j (and_true dead).0)
  | inr alive ↦ rw alive (same j)
]

-- A record that is running, or queued, has nothing of an end.
queued_lem : (s : State) → is_queued s ≡ true → s ≡ queued
queued_lem queued h = refl
queued_lem running h = cc
queued_lem completed h = cc
queued_lem failed h = cc
queued_lem interrupted h = cc
queued_lem rolled_back h = cc

running_lem : (s : State) → is_running s ≡ true → s ≡ running
running_lem queued h = cc
running_lem running h = refl
running_lem completed h = cc
running_lem failed h = cc
running_lem interrupted h = cc
running_lem rolled_back h = cc

pub begins_lem : (j : Job) → IsNext j (begins j)
begins_lem j = elim (Bool-cases (is_queued j.state)) [
  | inr other ↦ rw other (same j)
  | inl yet ↦ rw yet (record {
    identity = refl;
    whole = λ h. subst (λ s. IsWholeAs s j) (queued_lem j.state yet) h;
    states = subst (λ s. s ⟶* running) (sym (queued_lem j.state yet)) (onward start here);
  })
]

pub advances_lem : (stage : String) (j : Job) → IsNext j (advances stage j)
advances_lem stage j = elim (Bool-cases (is_running j.state)) [
  | inr other ↦ rw other (same j)
  | inl works ↦ rw works (record {
    identity = refl;
    whole = λ h.
        subst (λ s. IsWholeAs s (record j { stage = some stage })) (sym (running_lem j.state works))
          (subst (λ s. IsWholeAs s j) (running_lem j.state works) h);
    states = here;
  })
]

running_active : (s : State) → is_running s ≡ true → is_active s ≡ true
running_active s h = rw (running_lem s h) refl

pub concludes_lem : (now : ℕ) (ending : Ending) (j : Job) → IsNext j (concludes now ending j)
concludes_lem now fails j = elim (Bool-cases (is_running j.state)) [
  | inr other ↦ rw other (same j)
  | inl works ↦ rw works (fails_lem now (failure j.kind) j (running_active j.state works))
]
concludes_lem now (succeeds report) j = elim (Bool-cases (is_running j.state)) [
  | inr other ↦ rw other (same j)
  | inl works ↦ rw works (record {
    identity = refl;
    whole = λ h. ((now, refl), (report, refl), no_error j.state j (running_active j.state works) h);
    states = onward (complete (running_active j.state works)) here;
  })
]

-- The outcome of a recovery is one of two states.
pub data IsEnd : State → Type 0 where
  is_completed : IsEnd completed
  is_rolled_back : IsEnd rolled_back

resolved :
    (s : State) (j k : Job)
    → IsEnd s
    → is_unresolved j.state ≡ true
    → k.identity ≡ j.identity
    → k.state ≡ s
    → ((t : ℕ) × (k.finished_at ≡ some t)) × ((r : Report) × (k.result ≡ some r)) × (k.error ≡ none)
    → IsNext j k
resolved queued j k end open_yet same_id e whole = elim end [ ]
resolved running j k end open_yet same_id e whole = elim end [ ]
resolved failed j k end open_yet same_id e whole = elim end [ ]
resolved interrupted j k end open_yet same_id e whole = elim end [ ]
resolved completed j k is_completed open_yet same_id e whole = record {
  identity = same_id;
  whole = λ h. subst (λ s. IsWholeAs s k) (sym e) whole;
  states = subst (λ s. j.state ⟶* s) (sym e) (onward (recover open_yet) here);
}
resolved rolled_back j k is_rolled_back open_yet same_id e whole = record {
  identity = same_id;
  whole = λ h. subst (λ s. IsWholeAs s k) (sym e) whole;
  states = subst (λ s. j.state ⟶* s) (sym e) (onward (roll_back open_yet) here);
}

pub resolves_lem : (o : Outcome) (now : ℕ) (j : Job) → IsEnd o.state → IsNext j (resolves o now j)
resolves_lem o now j end = elim (Bool-cases (is_outcome_of o j)) [
  | inr other ↦ rw other (same j)
  | inl fits ↦ rw fits (
      resolved o.state j _ end (and_true (and_true fits).0).1 refl refl
        ((now, refl), (_, refl), refl))
]

-- One record is written again, and the others stay.
pub rewrite_lem :
    (identity : String) (f : Job → Job) (j : Job) → IsNext j (f j) → IsNext j (rewrite identity f j)
rewrite_lem identity f j next = elim (Bool-cases (str_eq j.identity identity)) [
  | inl found ↦ rw found next
  | inr other ↦ rw other (same j)
]
