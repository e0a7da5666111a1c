-- ===== src/Examples/Runs.antt =====
-- An executor in a world where the first action of the first stage fails.
use aline_engine.Base.{ℕ, ◌≡◌, refl, inl, true, none, some, [], ◌∷◌, drop}
use aline_engine.Base.Int.{pos}
use aline_engine.Base.Map.{Map, lookup, erase}
use aline_engine.Base.Text.{codes, text_eq, text_eq_refl}
use aline_engine.Model.ActionResult.{no_results}
use aline_engine.Model.Job.{Step, Stage, StageDetail, Job, new_stage_detail}
use aline_engine.Model.StageSort.{sorted_stages, stage_sort}
use aline_engine.Model.Status.{status_notrun, status_running, status_fail, status_success}
use aline_engine.Executor.Action.{shell, choose_action}
use aline_engine.Executor.Run.{
  pre_ok, pre_err, hook_returns, env_of, action_of, post_called, World, Run, pop_all,
}
use aline_engine.Executor.Loop.{run_job}
use aline_engine.Executor.Cleanup.{pop_all_lem}
use aline_engine.Executor.Verdict.{run_job_masked, run_job-Fails}
use aline_engine.Executor.Jobs.{
  Executor, cancel_key, execute, get_job_status, check_timers, is_timeout,
}
use aline_engine.Executor.Jobs.Laws.{IsStopped, get_job_status-execute, check_timers-timeout}
use aline_engine.Utils.Keys.{format_job_to_string}

abbrev pub failing : World
failing = record {
  behaviour = λ h kind. elim h [
    | env_of i j ↦ record { pre = pre_ok; hook = hook_returns none none }
    | action_of i j ↦ record { pre = pre_err (codes "no disk"); hook = hook_returns none none }
  ];
  mkdir_error = none;
  job_start = 100;
  job_end = 900;
  stage_start = λ i. 200;
  stage_end = λ i. 800;
  step_start = λ i j. 300;
  step_end = λ i j. 700;
}

abbrev shell_step : Step
shell_step = record {
  name = codes "compile";
  id = [];
  uses = [];
  with = [];
  runs_on = [];
  volumes = [];
  run = codes "make";
  status = status_notrun;
  start_time = 0;
  duration = 0;
}

abbrev pub one_step : StageDetail
one_step = new_stage_detail (codes "build") (record { steps = shell_step ∷ []; needs = [] })

abbrev two_steps : StageDetail
two_steps =
    new_stage_detail (codes "build") (record { steps = shell_step ∷ shell_step ∷ []; needs = [] })

shell_chosen : choose_action shell_step.uses ≡ some shell
unfolding choose_action text_eq
shell_chosen = refl

one_step_shape : one_step.stage.steps ≡ shell_step ∷ []
unfolding new_stage_detail
one_step_shape = refl

two_steps_shape : two_steps.stage.steps ≡ shell_step ∷ shell_step ∷ []
unfolding new_stage_detail
two_steps_shape = refl

run_job_masked_example :
    ((run_job failing (two_steps ∷ [])).0 ≡ none)
    × ((run_job failing (two_steps ∷ [])).1.status ≡ status_success)
run_job_masked_example =
    run_job_masked failing shell_step shell (codes "no disk") shell_chosen refl two_steps []
      shell_step [] two_steps_shape (inl refl)

run_job-Fails_example :
    let (err, r) = run_job failing (one_step ∷ two_steps ∷ []) in
    (err ≡ some (codes "no disk"))
    × (r.status ≡ status_fail)
    × (r.error ≡ codes "no disk")
    × (drop 1 r.stages ≡ two_steps ∷ [])
run_job-Fails_example =
    run_job-Fails failing shell_step shell (codes "no disk") shell_chosen refl one_step
      (two_steps ∷ []) one_step_shape (inl refl)

abbrev pub site : Job
site = record {
  version = codes "1.0";
  name = codes "site";
  stages = (codes "build", record { steps = shell_step ∷ []; needs = [] }) ∷ [];
  parameter = [];
  user_id = [];
}

abbrev pub as_listed : ℕ → Map Stage → Map Stage
as_listed r m = m

pub site_sorted : stage_sort as_listed site ≡ sorted_stages (one_step ∷ [])
unfolding stage_sort lookup text_eq erase
site_sorted = refl

abbrev pub idle : Executor
idle = record { cancel_map = []; status_chan = []; step_timer_map = [] }

get_job_status-execute_example :
    get_job_status (codes "site") (pos 1) (execute as_listed failing (pos 1) site idle).1
    ≡ (status_running, true)
get_job_status-execute_example =
    get_job_status-execute as_listed failing (pos 1) site idle (one_step ∷ []) site_sorted

-- The job "site" runs with the number 1.
abbrev site_running : Executor
site_running = record {
  cancel_map = (cancel_key (codes "site") (pos 1), tt) ∷ [];
  status_chan = [];
  step_timer_map = (format_job_to_string (codes "site") (pos 1), 5) ∷ [];
}

was_running : get_job_status (codes "site") (pos 1) site_running ≡ (status_running, true)
unfolding get_job_status lookup
was_running = rw (text_eq_refl (cancel_key (codes "site") (pos 1))) refl

late : is_timeout 9000000 5 ≡ true
unfolding is_timeout
late = refl

check_timers-timeout_example :
    IsStopped
      (codes "site")
      (pos 1)
      site_running
      (check_timers 9000000 site_running.step_timer_map site_running)
check_timers-timeout_example =
    check_timers-timeout 9000000 5 (codes "site") (pos 1) site_running late refl

abbrev two_handlers : Run
two_handlers = record {
  status = status_running;
  stages = [];
  start_time = 0;
  duration = 0;
  error = [];
  results = no_results;
  stack = record { elements = env_of 0 0 ∷ action_of 0 0 ∷ [] };
  events = [];
}

pop_all_lem_example : pop_all 2 two_handlers ≡ record two_handlers {
  stack = record { elements = [] };
  events = post_called (action_of 0 0) ∷ post_called (env_of 0 0) ∷ [];
}
pop_all_lem_example = pop_all_lem two_handlers
