-- ===== src/Executor/Verdict.antt =====
-- The verdict on a job one of whose actions fails.
use aline_engine.Base.{
  ℕ, ◌-◌, ◌≡◌, refl, ap, ◌∙◌, ◌⊎◌, true, Option, none, some, List, [], ◌∷◌, arith, length, inl, inr,
  drop,
}
use aline_engine.Base.Int.{int_eq}
use aline_engine.Base.Text.{Text, text_eq_refl}
use aline_engine.Model.ActionResult.{ActionResult}
use aline_engine.Model.Job.{Step, StageDetail}
use aline_engine.Model.Status.{status_running, status_fail, status_success}
use aline_engine.Executor.Action.{ActionKind, choose_action}
use aline_engine.Executor.Run.{
  pre_ok, pre_err, hook_returns, Handler, HandlerId, action_of, World, Run, save, execute_action,
  modify, modify_step, pop_all, step_status, log_event, context_cancelled,
}
use aline_engine.Executor.Loop.{
  begin_step, end_step, run_step, start_env, run_steps, begin_stage, end_stage, run_stages,
  begin_run, run_job, after_steps, finish,
}
use aline_engine.Executor.Cleanup.{pop_all-stages}
use aline_engine.Executor.Failure.{
  begin_step-status, end_step-status, begin_stage-status, end_stage-status, run_steps_plain,
  run_steps_masked, run_stages_over,
}

-- The handler ends with the error `e`: in `Pre`, or in `Hook` behind a `Pre` that went well.
abbrev pub Fails : Handler → Text → Type 0
Fails b e =
    (b.pre ≡ pre_err e)
    ⊎ ((result : Option ActionResult) × (b.pre ≡ pre_ok) × (b.hook ≡ hook_returns result (some e)))

execute_action-Fails :
    (h : HandlerId) (b : Handler) (e : Text) (r : Run)
    → int_eq r.status status_running ≡ true
    → Fails b e
    → ((execute_action (some (h, b)) r).0 ≡ some e)
      × ((execute_action (some (h, b)) r).1.status ≡ status_fail)
unfolding execute_action
execute_action-Fails h b e r running (inl refused) = rw running (rw refused (refl, refl))
execute_action-Fails h b e r running (inr (result, went, failed)) =
    rw running (rw (went, failed) (refl, refl))

run_job_stage :
    (w : World) (d : StageDetail) (ds : List StageDetail) (p : Option Text × Run)
    → run_steps w 0 0 d.stage.steps w.mkdir_error (begin_stage w 0 (begin_run w (d ∷ ds))) ≡ p
    → run_job w (d ∷ ds) ≡ finish w (after_steps w 0 p (run_stages w 1 ds none))
unfolding run_job run_stages
run_job_stage w d ds p e = ap (λ q. finish w (after_steps w 0 q (run_stages w 1 ds none))) e

finish-none :
    (w : World) (p : Option Text × Run)
    → p.0 ≡ none
    → ((finish w p).0 ≡ none) × ((finish w p).1.status ≡ status_success)
unfolding save
finish-none w (none, r) e = (refl, refl)
finish-none w (some x, r) e = cc

drop-modify :
    (f : StageDetail → StageDetail) (l : List StageDetail) → drop 1 (modify 0 f l) ≡ drop 1 l
drop-modify f [] = refl
drop-modify f (d ∷ l) = refl

execute_action-stages :
    (ah : Option (HandlerId × Handler)) (r : Run) → (execute_action ah r).1.stages ≡ r.stages
unfolding execute_action
execute_action-stages ah r = ground arith

modify_step-stages :
    (j : ℕ) (f : Step → Step) (r : Run) → drop 1 (modify_step 0 j f r).stages ≡ drop 1 r.stages
modify_step-stages j f r = drop-modify _ r.stages

run_steps_end :
    (w : World) (i j : ℕ) (err : Option Text) (r : Run) → run_steps w i j [] err r ≡ (err, r)
unfolding run_steps
run_steps_end w i j err r = refl

begin_step-stages :
    (w : World) (j : ℕ) (r : Run) → drop 1 (begin_step w 0 j r).stages ≡ drop 1 r.stages
unfolding begin_step save
begin_step-stages w j r = drop-modify _ r.stages

end_step-stages :
    (w : World) (j : ℕ) (err : Option Text) (r : Run)
    → drop 1 (end_step w 0 j err r).stages ≡ drop 1 r.stages
unfolding end_step save
end_step-stages w j err r =
    let measured = λ (s : Step). record s { duration = w.step_end 0 j - w.step_start 0 j } in
    let timed : Run = modify_step 0 j measured r in
    let height : ℕ = length timed.stack.elements in
    modify_step-stages j (λ s. record s { status = step_status err }) (pop_all height timed)
    ∙ ap (drop 1) (pop_all-stages height timed)
    ∙ modify_step-stages j measured r

-- A step of the first stage leaves the later stages as they are.
run_step-stages :
    (w : World) (j : ℕ) (step : Step) (r : Run)
    → drop 1 (run_step w 0 j step r).1.stages ≡ drop 1 r.stages
unfolding run_step
run_step-stages w j step r =
    end_step-stages w j _ _
    ∙ ap (drop 1) (execute_action-stages _ (begin_step w 0 j r))
    ∙ begin_step-stages w j r

begin_stage-stages : (w : World) (r : Run) → drop 1 (begin_stage w 0 r).stages ≡ drop 1 r.stages
unfolding begin_stage save
begin_stage-stages w r = drop-modify _ r.stages

end_stage-stages :
    (w : World) (err : Option Text) (r : Run)
    → drop 1 (end_stage w 0 err r).stages ≡ drop 1 r.stages
unfolding end_stage save
end_stage-stages w err r = drop-modify _ r.stages

finish-some :
    (w : World) (e : Text) (r : Run)
    → let (err, r') = finish w (some e, r) in
      (err ≡ some e) × (r'.status ≡ status_fail) × (r'.error ≡ e) × (r'.stages ≡ r.stages)
unfolding save
finish-some w e r = (refl, refl, refl, refl)

module _ (w : World) (step : Step) (kind : ActionKind) (e : Text)
    (chosen : choose_action step.uses ≡ some kind) (bare : step.runs_on ≡ []) where
  run_step-Fails :
      (i j : ℕ) (r : Run)
      → int_eq r.status status_running ≡ true
      → Fails (w.behaviour (action_of i j) (some kind)) e
      → ((run_step w i j step r).0 ≡ some e) × ((run_step w i j step r).1.status ≡ status_fail)
  unfolding run_step
  run_step-Fails i j r running f =
      let b = w.behaviour (action_of i j) (some kind) in
      let (err, status) =
        execute_action-Fails (action_of i j) b e (begin_step w i j r)
          (rw (begin_step-status w i j r) running) f in
      rw chosen (err, end_step-status w i j _ _ ∙ status)

  start_env_bare : (i j : ℕ) (r : Run) → start_env w i j step r ≡ (none, r)
  unfolding start_env
  start_env_bare i j r = rw bare (rw (text_eq_refl []))

  -- A job is reported as successful although its first action fails: where the first stage has a
  -- second step, no error comes back and the job's status is "success", whatever the other steps
  -- and stages do. The first step has no container and names a known action.
  pub run_job_masked :
      (d : StageDetail) (ds : List StageDetail) (next : Step) (steps : List Step)
      → d.stage.steps ≡ step ∷ next ∷ steps
      → Fails (w.behaviour (action_of 0 0) (some kind)) e
      → ((run_job w (d ∷ ds)).0 ≡ none) × ((run_job w (d ∷ ds)).1.status ≡ status_success)
  run_job_masked d ds next steps shape f =
      let stages = d ∷ ds in
      let begun = begin_stage w 0 (begin_run w stages) in
      let running : int_eq begun.status status_running ≡ true =
        rw (begin_stage-status w 0 (begin_run w stages)) refl in
      let (step_err, failed) = run_step-Fails 0 0 begun running f in
      let (masked, status) =
        run_steps_masked w 0 0 step next steps w.mkdir_error begun (start_env_bare 0 0 begun)
          (rw failed refl) in
      let steps : (run_steps w 0 0 d.stage.steps w.mkdir_error begun).0 ≡ none =
        ap (λ l. (run_steps w 0 0 l w.mkdir_error begun).0) shape ∙ masked in
      let dead =
        ap (λ l. (run_steps w 0 0 l w.mkdir_error begun).1.status) shape ∙ status ∙ failed in
      let r' = (run_steps w 0 0 d.stage.steps w.mkdir_error begun).1 in
      rw (run_job_stage w d ds (none, r') (λ i. (steps i, r'))) (
        finish-none w (run_stages w 1 ds none (end_stage w 0 none r')) (
          run_stages_over w 1 ds (end_stage w 0 none r')
            (rw (end_stage-status w 0 none r') (rw dead refl))))

  -- Where the step is the only one of the first stage and its action fails, the error comes back,
  -- the job has the status "fail" and that error, and the later stages are left as they were. The
  -- step has no container and names a known action.
  pub run_job-Fails :
      (d : StageDetail) (ds : List StageDetail)
      → d.stage.steps ≡ step ∷ []
      → Fails (w.behaviour (action_of 0 0) (some kind)) e
      → let (err, r) = run_job w (d ∷ ds) in
        (err ≡ some e) × (r.status ≡ status_fail) × (r.error ≡ e) × (drop 1 r.stages ≡ ds)
  run_job-Fails d ds shape f =
      let stages = d ∷ ds in
      let begun = begin_stage w 0 (begin_run w stages) in
      let running : int_eq begun.status status_running ≡ true =
        rw (begin_stage-status w 0 (begin_run w stages)) refl in
      let (step_err, failed) = run_step-Fails 0 0 begun running f in
      let r' = (run_step w 0 0 step begun).1 in
      let steps : run_steps w 0 0 d.stage.steps w.mkdir_error begun ≡ (some e, r') =
        ap (λ l. run_steps w 0 0 l w.mkdir_error begun) shape
        ∙ run_steps_plain w 0 0 step [] w.mkdir_error begun (start_env_bare 0 0 begun)
        ∙ run_steps_end w 0 1 _ r'
        ∙ (λ i. (step_err i, r')) in
      let ended = log_event context_cancelled (end_stage w 0 (some e) r') in
      let (err, status, error, same) = finish-some w e ended in
      rw (run_job_stage w d ds (some e, r') steps) (
        err,
        status,
        error,
        ap (drop 1) same
            ∙ end_stage-stages w (some e) r'
            ∙ run_step-stages w 0 step begun
            ∙ begin_stage-stages w (begin_run w stages),
      )
