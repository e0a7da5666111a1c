-- ===== src/Executor/Loop.antt =====
-- executor/executor.go: the loops of `Execute` over the stages of a job and their steps. The
-- goroutine that saves the durations every two seconds, and the log file, are not part of it.
use aline_engine.Base.{ℕ, ◌+◌, ◌-◌, Option, none, some, List, [], ◌∷◌, if◌then◌else◌, length}
use aline_engine.Base.Text.{Text, text_eq}
use aline_engine.Model.ActionResult.{no_results}
use aline_engine.Model.Job.{Step, StageDetail}
use aline_engine.Model.Status.{status_running, status_fail, status_success}
use aline_engine.Executor.Action.{ActionKind, choose_action}
use aline_engine.Executor.Run.{
  Handler, HandlerId, env_of, action_of, context_cancelled, World, Run, save, log_event,
  execute_action, pop_all, modify_stage, modify_step, step_status,
}

module _ (w : World) where
  abbrev handler : HandlerId → Option ActionKind → Option (HandlerId × Handler)
  handler h kind = some (h, w.behaviour h kind)

  -- `ah` before the chain of `else if`: the container of the step, or nil.
  abbrev env_handler : ℕ → ℕ → Step → Option (HandlerId × Handler)
  env_handler i j step = if text_eq step.runs_on [] then none else handler (env_of i j) none

  abbrev step_handler :
      ℕ → ℕ → Option ActionKind → Option (HandlerId × Handler) → Option (HandlerId × Handler)
  step_handler i j none env = env
  step_handler i j (some kind) env = handler (action_of i j) (some kind)

  -- The step's start: its time and its status, and the job's file.
  unfoldable pub begin_step : ℕ → ℕ → Run → Run
  begin_step i j r =
      save (
        modify_step i j (λ s. record s { start_time = w.step_start i j; status = status_running })
          r)

  -- Behind the action: the duration, the clean-up, the status and the job's file.
  unfoldable pub end_step : ℕ → ℕ → Option Text → Run → Run
  end_step i j err r =
      let timed =
        modify_step i j (λ s. record s { duration = w.step_end i j - w.step_start i j }) r in
      let cleaned = pop_all (length timed.stack.elements) timed in
      save (modify_step i j (λ s. record s { status = step_status err }) cleaned)

  -- The body of the loop over the steps, from the start time on.
  unfoldable pub run_step : ℕ → ℕ → Step → Run → Option Text × Run
  run_step i j step r =
      let ah = step_handler i j (choose_action step.uses) (env_handler i j step) in
      let (err, r1) = execute_action ah (begin_step i j r) in (err, end_step i j err r1)

  -- The container of the step first; its error leaves the loop.
  unfoldable pub start_env : ℕ → ℕ → Step → Run → Option Text × Run
  start_env i j step r =
      if text_eq step.runs_on [] then (none, r) else execute_action (env_handler i j step) r

  abbrev pub unless_failed : Option Text × Run → (Run → Option Text × Run) → Option Text × Run
  unless_failed (some e, r) rest = (some e, r)
  unless_failed (none, r) rest = rest r

  -- The loop over the steps of stage `i`, from step `j`; `err` is the error so far.
  unfoldable pub run_steps : ℕ → ℕ → List Step → Option Text → Run → Option Text × Run
  run_steps i j [] err r = (err, r)
  run_steps i j (step ∷ steps) err r =
      unless_failed (start_env i j step r)
        (λ r1. let (step_err, r2) = run_step i j step r1 in run_steps i (j + 1) steps step_err r2)

  unfoldable pub begin_stage : ℕ → Run → Run
  begin_stage i r =
      save
        (modify_stage i (λ d. record d { status = status_running; start_time = w.stage_start i }) r)

  unfoldable pub end_stage : ℕ → Option Text → Run → Run
  end_stage i err r = save (
      modify_stage i
        (λ d. record d { status = step_status err; duration = w.stage_end i - w.stage_start i }) r)

  -- Behind the steps of stage `i`: an error cancels the context and leaves the loop.
  abbrev pub after_steps : ℕ → Option Text × Run → (Run → Option Text × Run) → Option Text × Run
  after_steps i (some e, r) rest = (some e, log_event context_cancelled (end_stage i (some e) r))
  after_steps i (none, r) rest = rest (end_stage i none r)

  -- The loop over the stages, from stage `i`.
  unfoldable pub run_stages : ℕ → List StageDetail → Option Text → Run → Option Text × Run
  run_stages i [] err r = (err, r)
  run_stages i (d ∷ ds) err r =
      after_steps i (run_steps i 0 d.stage.steps err (begin_stage i r)) (run_stages (i + 1) ds none)

  abbrev pub finish : Option Text × Run → Option Text × Run
  finish (none, r) =
      (none, save (record r { status = status_success; duration = w.job_end - w.job_start }))
  finish (some e, r) = (
    some e,
    save (record r { status = status_fail; error = e; duration = w.job_end - w.job_start }),
  )

  abbrev pub begin_run : List StageDetail → Run
  begin_run stages = record {
    status = status_running;
    stages = stages;
    start_time = w.job_start;
    duration = 0;
    error = [];
    results = no_results;
    stack = record { elements = [] };
    events = [];
  }

  -- The part of `Execute` behind the sorting of the stages.
  unfoldable pub run_job : List StageDetail → Option Text × Run
  run_job stages = finish (run_stages 0 stages w.mkdir_error (begin_run stages))
