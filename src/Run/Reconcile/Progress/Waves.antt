-- ===== src/Run/Reconcile/Progress/Waves.antt =====
-- An inline transition, a wait step that is over and a wave each make a step done.
use kubezap_operator.Base.{
  ◌<◌, ◌≤◌, ◌≡◌, refl, sym, subst, Bool, true, false, Option, none, some, List, [], ◌∷◌, arith, All,
  any, is_empty,
}
use kubezap_operator.Base.Int.{pos, ltb_ℤ}
use kubezap_operator.Api.Flow.{FlowStep, FlowSpec}
use kubezap_operator.Api.FlowRun.{FlowRun, StepRunStatus, Message, step_terminal}
use kubezap_operator.Run.Steps.{find_step_status, upsert_step_status}
use kubezap_operator.Run.Plan.{Plan}
use kubezap_operator.Run.Runtime.{Runtime, StepResults, Params}
use kubezap_operator.Run.Wait.{
  put, continues, WaitResult, wait_error, remaining, finish_wait, failed_wait,
}
use kubezap_operator.Run.Wave.{is_done}
use kubezap_operator.Run.Wave.Inline.{
  Decision, leave, skip, fail_on, fail_stop, decide, round, inline_loop,
}
use kubezap_operator.Run.Wave.Batch.{
  step_result, timed, apply_results, run_all, after_wave, run_wave,
}
use kubezap_operator.Run.Wave.Batch.Laws.{unreached, run_wave_lem}
use kubezap_operator.Run.Reconcile.Kept.{Undone, WaitNamed}
use kubezap_operator.Run.Reconcile.Stable.{Opens, decide-Opens}
use kubezap_operator.Run.Reconcile.Progress.Measure.{
  undone, In, Extends, undone_less, upsert-Extends,
}
use kubezap_operator.Run.Reconcile.Progress.Steps.{
  Finishes, Advances, if-Advances, fail-Advances, put-lower, Closes, decide-Closes, AllIn, DoneAs,
  timed-DoneAs,
}

module _ (rt : Runtime) (flow : FlowSpec) (l : List StepRunStatus)
    (finishes : (step : FlowStep) (f : FlowRun) (results : StepResults) (params : Params)
      → Finishes step.name (rt.execute_step step f results params).result) where
  abbrev pub Adv : List StepRunStatus → Plan → Type 0
  Adv m plan = Advances flow.steps l m plan

  -- Nothing is lost, and something is won once the flag is set.
  abbrev pub Won : FlowRun → Bool → Type 0
  Won g c =
      (undone flow.steps g.status.steps ≤ undone flow.steps l)
      × (c ≡ true → undone flow.steps g.status.steps < undone flow.steps l)

  put-Won :
      (f : FlowRun) (s : StepRunStatus) (step : FlowStep) (b : Bool)
      → In step flow.steps
      → (s.name ≡ step.name) × (step_terminal s.phase ≡ true)
      → Undone f.status.steps s.name
      → Won f b
      → Won (put f s) true
  put-Won f s step b i (n, t) u (le, won) =
      let less =
        put-lower flow.steps l f s step i n t (subst (λ x. Undone f.status.steps x) n u) le in
      (omega arith, λ c. less)

  round-Adv :
      (results : StepResults) (params : Params) (f : FlowRun) (step : FlowStep) (d : Decision)
      (b : Bool) (m : List StepRunStatus) (again : FlowRun → Bool → Plan)
      → In step flow.steps
      → Opens f.status.steps d
      → Closes step.name d
      → Won f b
      → ((g : FlowRun) (c : Bool) (m : List StepRunStatus) → Won g c → Adv m (again g c))
      → Adv m (round rt flow results params f d b again)
  unfolding round
  round-Adv results params f step leave b m again i o c w k = k f b m w
  round-Adv results params f step (skip s) b m again i o c w k =
      k (put f s) true m (put-Won f s step b i c o w)
  round-Adv results params f step (fail_on s) b m again i o c w k =
      k (put f s) true _ (put-Won f s step b i c o w)
  round-Adv results params f step (fail_stop s msg) b m again i o c w k =
      fail-Advances flow.steps l rt _ (put f s) msg

  pub inline_loop-Adv :
      (results : StepResults) (params : Params) (f : FlowRun) (rest : List FlowStep) (b : Bool)
      (m : List StepRunStatus) (next : FlowRun → Bool → Plan)
      → AllIn flow.steps rest
      → Won f b
      → ((g : FlowRun) (c : Bool) (m : List StepRunStatus) → Won g c → Adv m (next g c))
      → Adv m (inline_loop rt flow results params f rest b next)
  unfolding inline_loop
  inline_loop-Adv results params f [] b m next i w k = k f b m w
  inline_loop-Adv results params f (step ∷ rest) b m next (i, is) w k =
      round-Adv results params f step (decide rt flow results params f step) b m
        (λ g c. inline_loop rt flow results params g rest c next) i
        (decide-Opens rt flow results params f step) (decide-Closes rt flow results params f step) w
        (λ g c m' v. inline_loop-Adv results params g rest c m' next is v k)

  pub finish_wait-Adv :
      (f : FlowRun) (step : FlowStep) (r : WaitResult) (m : List StepRunStatus)
      → WaitNamed step.name r
      → In step flow.steps
      → Undone f.status.steps step.name
      → undone flow.steps f.status.steps ≤ undone flow.steps l
      → Adv m (finish_wait rt flow f step r)
  unfolding finish_wait
  finish_wait-Adv f step (wait_error msg) m n i u le =
      if-Advances flow.steps l (continues step flow) _ _ _
        (λ c. put-lower flow.steps l f (failed_wait rt flow f step msg) step i refl refl u le)
        (λ c. fail-Advances flow.steps l rt _ (put f (failed_wait rt flow f step msg)) _)
  finish_wait-Adv f step (remaining d ss) m n i u le =
      if-Advances flow.steps l (ltb_ℤ (pos 0) d) _ _ _ (λ c. tt)
        (λ c. put-lower flow.steps l f _ step i n refl u le)

  abbrev status_after : FlowRun → StepResults → Params → FlowStep → StepRunStatus
  status_after f results params step =
      let e = rt.execute_step step f results params in
      timed (step_result flow step e.result e.duration)

  AllDone : FlowRun → StepResults → Params → List FlowStep → Type 0
  AllDone f results params wave =
      All (λ step. DoneAs step.name (status_after f results params step)) wave

  reached-AllDone :
      (f : FlowRun) (results : StepResults) (params : Params) (wave : List FlowStep)
      → any (unreached rt flow results params f) wave ≡ false
      → AllDone f results params wave
  unfolding AllDone
  reached-AllDone f results params [] h = tt
  reached-AllDone f results params (step ∷ rest) h =
      let e = rt.execute_step step f results params in
      (
        timed-DoneAs flow step e.result e.duration (finishes step f results params) (ground arith),
        reached-AllDone f results params rest (ground arith),
      )

  apply-Extends :
      (f : FlowRun) (results : StepResults) (params : Params) (wave : List FlowStep)
      (m : List StepRunStatus)
      → AllDone f results params wave
      → Extends m (apply_results m (run_all rt flow results params f wave))
  unfolding AllDone apply_results run_all
  apply-Extends f results params [] m h n d = d
  apply-Extends f results params (step ∷ rest) m ((same, t), h) n d =
      apply-Extends f results params rest _ h n
        ((upsert-Extends m (status_after f results params step) t).0 n d)

  run_wave-lower :
      (f : FlowRun) (results : StepResults) (params : Params) (step : FlowStep)
      (rest : List FlowStep)
      → In step flow.steps
      → Undone f.status.steps step.name
      → AllDone f results params (step ∷ rest)
      → undone flow.steps f.status.steps ≤ undone flow.steps l
      → undone flow.steps
          (apply_results f.status.steps (run_all rt flow results params f (step ∷ rest)))
        < undone flow.steps l
  unfolding AllDone apply_results run_all
  run_wave-lower f results params step rest i u ((same, t), h) le =
      let s = status_after f results params step in
      let m = upsert_step_status f.status.steps s in
      let now_done =
        subst (λ x. is_done (find_step_status m x) ≡ true) same
          (upsert-Extends f.status.steps s t).1 in
      ground (
        arith,
        undone_less flow.steps f.status.steps _ step i
            (apply-Extends f results params (step ∷ rest) f.status.steps ((same, t), h)) u
            (apply-Extends f results params rest m h step.name now_done),
      )

  after_wave-Adv :
      (f g : FlowRun) (results : StepResults) (params : Params) (o : Option Message)
      → undone flow.steps g.status.steps < undone flow.steps l
      → Adv g.status.steps (after_wave rt flow results params g o)
  unfolding after_wave
  after_wave-Adv f g results params none h = h
  after_wave-Adv f g results params (some msg) h = fail-Advances flow.steps l rt _ g msg

  pub run_wave-Adv :
      (f : FlowRun) (results : StepResults) (params : Params) (wave : List FlowStep)
      (m : List StepRunStatus)
      → is_empty wave ≡ false
      → AllIn flow.steps wave
      → All (λ step. Undone f.status.steps step.name) wave
      → undone flow.steps f.status.steps ≤ undone flow.steps l
      → Adv m (run_wave rt flow results params f wave)
  run_wave-Adv f results params [] m some_step i u le = ground arith
  run_wave-Adv f results params (step ∷ rest) m some_step (i, is) (u, us) le =
      subst (λ plan. Adv m plan) (sym (run_wave_lem rt flow results params f (step ∷ rest)))
        (if-Advances flow.steps l (any (unreached rt flow results params f) (step ∷ rest)) m _ _
          (λ c. tt)
          (λ c. after_wave-Adv f _ results params _ (
            run_wave-lower f results params step rest i u
              (reached-AllDone f results params (step ∷ rest) c) le)))
