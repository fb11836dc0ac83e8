-- ===== src/Run/Wait/Laws.antt =====
-- The states of a wait step, as a step relation, and the branch of Reconcile that runs it.
use kubezap_operator.Base.{String, ◌≡◌, refl, inl, inr, true, Option, none, some, arith, Bool-cases}
use kubezap_operator.Base.Int.{ℤ, pos, ◌+ℤ◌, ◌-ℤ◌, ltb_ℤ, ◌≤ℤ◌, ◌<ℤ◌, -ℤ_parts}
use kubezap_operator.Api.Flow.{FlowStep, FlowSpec, WaitAction}
use kubezap_operator.Api.FlowRun.{FlowRun, StepRunStatus, waiting, succeeded, failed}
use kubezap_operator.Run.Steps.{find_step_status}
use kubezap_operator.Run.Plan.{Plan, write, status_update}
use kubezap_operator.Run.Runtime.{Runtime}
use kubezap_operator.Run.Wait.{
  WaitResult, wait_error, remaining, resume_of, wait_until, parsed_wait, wait_action,
  execute_wait_step, put, wait_status, failed_wait, finish_wait, waited, run_wait,
}

-- The wait step has that duration.
abbrev pub Waits : (String → Option ℤ) → FlowStep → ℤ → Type 0
Waits parse step d = (w : WaitAction) × (step.action.wait ≡ some w) × (parse w.duration ≡ some d)

-- From the ResumeAfter of the old status, if any, to the new status, at the time `now`.
pub data WaitStep (now : ℤ) (parse : String → Option ℤ) (step : FlowStep)
    : Option ℤ → StepRunStatus → Type 0 where
  starts :
      (new : StepRunStatus) (d : ℤ)
      → Waits parse step d
      → pos 0 <ℤ d
      → new.phase ≡ waiting
      → new.resume_after ≡ some (now +ℤ d)
      → WaitStep now parse step none new
  passes :
      (new : StepRunStatus) (d : ℤ)
      → Waits parse step d
      → d ≤ℤ pos 0
      → new.phase ≡ succeeded
      → new.resume_after ≡ some (now +ℤ d)
      → WaitStep now parse step none new
  sleeps :
      (new : StepRunStatus) (d resume : ℤ)
      → Waits parse step d
      → now <ℤ resume
      → new.phase ≡ waiting
      → new.resume_after ≡ some resume
      → WaitStep now parse step (some resume) new
  wakes :
      (new : StepRunStatus) (d resume : ℤ)
      → Waits parse step d
      → resume ≤ℤ now
      → new.phase ≡ succeeded
      → new.resume_after ≡ none
      → WaitStep now parse step (some resume) new
  breaks :
      (old : Option ℤ) (new : StepRunStatus)
      → ((d : ℤ) → ¬ Waits parse step d)
      → new.phase ≡ failed
      → new.resume_after ≡ none
      → WaitStep now parse step old new

not_elapsed : (now resume : ℤ) → ltb_ℤ now resume ≡ true → ¬ (resume -ℤ now ≤ℤ pos 0)
not_elapsed now resume t le = ground (arith, -ℤ_parts resume now)

-- The status that a wait step that is over has.
abbrev over : ℤ → StepRunStatus → StepRunStatus
over now ss = record ss { phase = succeeded; completion_time = some now }

module _ (rt : Runtime) (flow : FlowSpec) (f : FlowRun) (step : FlowStep) where
  open rt use {now, parse_duration}

  abbrev Step : Option ℤ → StepRunStatus → Type 0
  Step = WaitStep now parse_duration step

  -- What executeWaitStep returns fits the relation, once Reconcile has acted on it.
  abbrev Fits : Option ℤ → WaitResult → Type 0
  Fits old (wait_error m) = (d : ℤ) → ¬ Waits parse_duration step d
  Fits old (remaining d ss) =
      (ss.name ≡ step.name) × (pos 0 <ℤ d → Step old ss) × (d ≤ℤ pos 0 → Step old (over now ss))

  until-Fits :
      (d : ℤ) (old : Option ℤ) (ss : StepRunStatus)
      → Waits parse_duration step d
      → ss.name ≡ step.name
      → ss.resume_after ≡ none
      → Fits old (wait_until now d old ss)
  unfolding wait_until
  until-Fits d none ss w n c =
      (n, λ less. starts _ d w less refl refl, λ le. passes _ d w le refl refl)
  until-Fits d (some resume) ss w n c = elim (Bool-cases (ltb_ℤ now resume)) [
    | inl t ↦ rw t (
      n,
      (λ less. sleeps _ d resume w (ground arith) refl refl),
      λ le. absurd (not_elapsed now resume t le),
    )
    | inr t ↦
        rw t (n, (λ less. absurd (omega arith)), λ le. wakes _ d resume w (ground arith) refl c)
  ]

  parsed-Fits :
      (w : WaitAction) (o old : Option ℤ) (ss : StepRunStatus)
      → step.action.wait ≡ some w
      → parse_duration w.duration ≡ o
      → ss.name ≡ step.name
      → ss.resume_after ≡ none
      → Fits old (parsed_wait now step.name w.duration o old ss)
  unfolding parsed_wait
  parsed-Fits w none old ss e p n c = λ d (w', e', p'). cc (e, e', p, p')
  parsed-Fits w (some d) old ss e p n c = until-Fits d old ss (w, e, p) n c

  action-Fits :
      (o : Option WaitAction) (old : Option ℤ) (ss : StepRunStatus)
      → step.action.wait ≡ o
      → ss.name ≡ step.name
      → ss.resume_after ≡ none
      → Fits old (wait_action now parse_duration step.name o old ss)
  unfolding wait_action
  action-Fits none old ss e n c = λ d (w', e', p'). cc (e, e')
  action-Fits (some w) old ss e n c = parsed-Fits w (parse_duration w.duration) old ss e refl n c

  -- The first write, and the status that it has of the step.
  abbrev Writes : Option ℤ → Plan → Type 0
  Writes old plan =
      (new : StepRunStatus) × (rest : Plan) × (plan ≡ write (status_update (put f new)) rest)
      × (new.name ≡ step.name)
      × Step old new

  finish-Writes :
      (old : Option ℤ) (r : WaitResult) → Fits old r → Writes old (finish_wait rt flow f step r)
  unfolding finish_wait
  finish-Writes old (wait_error m) h =
      (failed_wait rt flow f step m, _, refl, refl, breaks old _ h refl refl)
  finish-Writes old (remaining d ss) (n, sleeping, done) = elim (Bool-cases (ltb_ℤ (pos 0) d)) [
    | inl t ↦ rw t (ss, _, refl, n, sleeping (ground arith))
    | inr t ↦ rw t (over now ss, _, refl, n, done (ground arith))
  ]

  -- A wait step that Reconcile runs has its status written, and that status follows from the ResumeAfter
  -- of the old one by a transition of WaitStep. Without one it waits until now and its duration, or has
  -- Succeeded if that is not positive; with one it waits, and keeps it, until it has come, and then has
  -- Succeeded, with none. It has Failed, with none, only without a valid duration.
  pub run_wait-WaitStep :
      (new : StepRunStatus) × (rest : Plan) × (run_wait rt flow f step
        ≡ write (status_update (put f new)) rest)
      × (new.name ≡ step.name)
      × WaitStep now parse_duration step (resume_of (find_step_status f.status.steps step.name)) new
  unfolding run_wait execute_wait_step
  run_wait-WaitStep =
      let old = resume_of (find_step_status f.status.steps step.name) in
      finish-Writes old (waited rt flow f step)
        (action-Fits step.action.wait old (wait_status now f.status.steps step) refl refl refl)
