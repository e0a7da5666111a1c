-- ===== src/Executor/Run.antt =====
-- executor/executor.go: the state of a running job and the hooks of one action.
--
-- What the actions do is an argument: `World` gives, for the step `j` of stage `i`, how the hooks of
-- its action and of its container behave, and what the clock reads at each place where the source
-- reads it.
use aline_engine.Base.{ℕ, zero, suc, Option, none, some, List, [], ◌∷◌, ◌++◌, if◌then◌else◌}
use aline_engine.Base.Int.{int_eq}
use aline_engine.Base.Text.{Text, codes, text_eq}
use aline_engine.Model.ActionResult.{ActionResult}
use aline_engine.Model.Job.{Step, StageDetail}
use aline_engine.Model.Status.{Status, status_running, status_fail, status_success}
use aline_engine.Utils.Stack.{Stack, push, pop}
use aline_engine.Executor.Action.{ActionKind}

-- How `Pre` ends. A panic is a runtime error of Go or any other value.
pub data PreOutcome : Type 0 where
  pre_ok : PreOutcome
  pre_err : Text → PreOutcome
  pre_runtime_panic : Text → PreOutcome
  pre_panic : PreOutcome

-- How `Hook` ends: with a result, which may be nil, and an error, which may be nil.
pub data HookOutcome : Type 0 where
  hook_returns : Option ActionResult → Option Text → HookOutcome
  hook_runtime_panic : Text → HookOutcome
  hook_panic : HookOutcome

pub record Handler : Type 0 where
  pub pre : PreOutcome
  pub hook : HookOutcome

-- A handler by its place: the container or the action of a step of a stage.
pub data HandlerId : Type 0 where
  env_of : ℕ → ℕ → HandlerId
  action_of : ℕ → ℕ → HandlerId

-- What happens to the handlers, to the context of the job and to the job's file.
pub data Event : Type 0 where
  pre_called hook_called post_called : HandlerId → Event
  context_cancelled : Event
  detail_saved : Status → List StageDetail → Event

pub record World : Type 0 where
  pub behaviour : HandlerId → Option ActionKind → Handler
  pub mkdir_error : Option Text
  pub job_start : ℕ
  pub job_end : ℕ
  pub stage_start : ℕ → ℕ
  pub stage_end : ℕ → ℕ
  pub step_start : ℕ → ℕ → ℕ
  pub step_end : ℕ → ℕ → ℕ

-- The fields of `JobDetail` that running a job changes, the stack of handlers, and the events.
pub record Run : Type 0 where
  pub status : Status
  pub stages : List StageDetail
  pub start_time : ℕ
  pub duration : ℕ
  pub error : Text
  pub results : ActionResult
  pub stack : Stack HandlerId
  pub events : List Event

unfoldable pub save : Run → Run
save r = record r { events = r.events ++ (detail_saved r.status r.stages ∷ []) }

abbrev pub log_event : Event → Run → Run
log_event e r = record r { events = r.events ++ (e ∷ []) }

-- The results that a hook hands back are added to those of the job.
unfoldable pub merge_results : Option ActionResult → ActionResult → ActionResult
merge_results none r = r
merge_results (some a) r = record {
  code_info = if text_eq a.code_info.commit_id [] then r.code_info else a.code_info;
  artifactorys = r.artifactorys ++ a.artifactorys;
  reports = r.reports ++ a.reports;
  deploys = r.deploys ++ a.deploys;
  build_data = r.build_data ++ a.build_data;
  meta_scan_data = r.meta_scan_data ++ a.meta_scan_data;
}

abbrev pub runtime_error : Text → Text
runtime_error e = codes "runtime error: " ++ e

-- The error that comes back, and the state. A recovered panic that is no runtime error leaves the
-- named result `err` as it was, nil.
abbrev pub after_hook : HookOutcome → Run → Option Text × Run
after_hook (hook_returns result none) r =
    (none, record r { results = merge_results result r.results })
after_hook (hook_returns result (some e)) r =
    (some e, record r { results = merge_results result r.results; status = status_fail })
after_hook (hook_runtime_panic e) r = (some (runtime_error e), r)
after_hook hook_panic r = (none, r)

abbrev pub after_pre : PreOutcome → HandlerId → HookOutcome → Run → Option Text × Run
after_pre pre_ok h hook r =
    after_hook hook (log_event (hook_called h) (record r { stack = push h r.stack }))
after_pre (pre_err e) h hook r = (some e, record r { status = status_fail })
after_pre (pre_runtime_panic e) h hook r = (some (runtime_error e), r)
after_pre pre_panic h hook r = (none, r)

-- `ah`: nil, or a handler with its behaviour.
abbrev pub run_handler : Option (HandlerId × Handler) → Run → Option Text × Run
run_handler none r = (none, r)
run_handler (some (h, b)) r = after_pre b.pre h b.hook (log_event (pre_called h) r)

-- The closure `executeAction`.
unfoldable pub execute_action : Option (HandlerId × Handler) → Run → Option Text × Run
execute_action ah r = if int_eq r.status status_running then run_handler ah r else (none, r)

-- `for !stack.IsEmpty() { ah, _ := stack.Pop(); _ = ah.Post() }`, with fuel for the stack's height.
unfoldable pub pop_all : ℕ → Run → Run
pop_all zero r = r
pop_all (suc fuel) r = elim (pop r.stack) [
  | none ↦ r
  | some (h, rest) ↦ pop_all fuel (log_event (post_called h) (record r { stack = rest }))
]

-- `l[i] = f(l[i])`
abbrev pub modify {ℓ} : {A : Type ℓ} → ℕ → (A → A) → List A → List A
modify i f [] = []
modify zero f (x ∷ l) = f x ∷ l
modify (suc i) f (x ∷ l) = x ∷ modify i f l

abbrev pub modify_stage : ℕ → (StageDetail → StageDetail) → Run → Run
modify_stage i f r = record r { stages = modify i f r.stages }

-- The steps of a stage are shared by the loop's copy of the stage, the job and its detail.
abbrev pub modify_step : ℕ → ℕ → (Step → Step) → Run → Run
modify_step i j f =
    modify_stage i
      (λ d. let st = d.stage in record d { stage = record st { steps = modify j f st.steps } })

abbrev pub step_status : Option Text → Status
step_status none = status_success
step_status (some e) = status_fail
