-- ===== src/Executor/Jobs.antt =====
-- executor/executor.go and executor/client.go: the executor's maps of running jobs and of step
-- timers, its channel of status messages, and the queue of a worker. The channel is the list of
-- the messages sent so far. A value of `cancelMap` is a function of Go, of which only the presence
-- is kept. A timer is the time at which the current step began; `execute` is one step here, so the
-- timers that it sets and deletes show only as the deletion.
pub mod Laws
use aline_engine.Base.{
  ℕ, ◌*◌, ◌-◌, Bool, true, false, Option, none, some, List, [], ◌∷◌, ◌++◌, if◌then◌else◌, ltb,
}
use aline_engine.Base.Int.{ℤ}
use aline_engine.Base.Map.{Map, lookup, insert, erase, is_some}
use aline_engine.Base.Text.{Text, codes}
use aline_engine.Model.Job.{Stage, StageDetail, Job}
use aline_engine.Model.Message.{
  StatusChangeMessage, new_status_change_msg, QueueMessage, Command, command_start, command_stop,
}
use aline_engine.Model.StageSort.{
  SortResult, sorted_stages, cannot_resolve, out_of_fuel, stage_sort,
}
use aline_engine.Model.Status.{
  Status, status_notrun, status_running, status_fail, status_success, status_stop,
}
use aline_engine.Utils.Decimal.{itoa}
use aline_engine.Utils.Keys.{format_job_to_string, get_job_name_and_id_from_format_string}
use aline_engine.Executor.Run.{World, Run}
use aline_engine.Executor.Loop.{run_job}

pub record Executor : Type 0 where
  pub cancel_map : Map (Unit {0})
  pub status_chan : List StatusChangeMessage
  pub step_timer_map : Map ℕ

-- `strings.Join([]string{jobName, strconv.Itoa(id)}, "/")`
pub cancel_key : Text → ℤ → Text
cancel_key name id = name ++ (b'/' ∷ itoa id)

abbrev send_status : Text → ℤ → Status → Executor → Executor
send_status name id status e = record e {
  status_chan = e.status_chan ++ (new_status_change_msg name id status ∷ []);
}

-- The deferred function of `Execute`.
pub report : Text → ℤ → Status → Executor → Executor
report name id status e = record (send_status name id status e) {
  step_timer_map = erase (format_job_to_string name id) e.step_timer_map;
}

-- The error, and the state. `delete(e.cancelMap, job.Name)` names another key than the insertion.
pub execute : (ℕ → Map Stage → Map Stage) → World → ℤ → Job → Executor → Option Text × Executor
execute order w id job e = elim (stage_sort order job) [
  | sorted_stages stages ↦
      let (err, run) = run_job w stages in
      let started = insert (cancel_key job.name id) tt e.cancel_map in
      (err, report job.name id run.status (record e { cancel_map = erase job.name started }))
  | cannot_resolve left ↦
      (some (codes "cannot resolve dependency"), report job.name id status_notrun e)
  | out_of_fuel ↦ (some [], e)
]

pub cancel : Text → ℤ → Executor → Executor
cancel name id e = send_status name id status_stop (
    if is_some (lookup (cancel_key name id) e.cancel_map)
    then record e { cancel_map = erase (cancel_key name id) e.cancel_map }
    else e)

-- The status, and whether the job was found.
unfoldable pub get_job_status : Text → ℤ → Executor → Status × Bool
get_job_status name id e =
    if is_some (lookup (cancel_key name id) e.cancel_map)
    then (status_running, true)
    else (status_notrun, false)

-- `time.Since(t.startTime) > time.Minute*consts.STEP_TIMEOUT_MINUTE`, in milliseconds.
unfoldable pub is_timeout : ℕ → ℕ → Bool
is_timeout now start_time = ltb (30 * 60 * 1000) (now - start_time)

abbrev pub cancel_named : Text → Option (Text × ℤ) → Executor → Executor
cancel_named key none e = e
cancel_named key (some (name, id)) e =
    let e' = cancel name id e in record e' { step_timer_map = erase key e'.step_timer_map }

-- One round of `handleTimerListener` over the timers, in the order in which they are visited.
pub check_timers : ℕ → Map ℕ → Executor → Executor
check_timers now [] e = e
check_timers now ((key, start_time) ∷ timers) e = check_timers now timers (
    if is_timeout now start_time
    then cancel_named key (get_job_name_and_id_from_format_string key) e
    else e)

-- A job that ends with an error is reported once more.
abbrev pub report_again : Text → ℤ → Option Text × Executor → Executor
report_again name id (none, e) = e
report_again name id (some x, e) = send_status name id status_fail e

-- `load` saves the job's file and reads the job from it; `none` is an error of either.
abbrev start_job :
    (ℕ → Map Stage → Map Stage) → World → QueueMessage → Option Job → Executor → Executor
start_job order w msg none e = e
start_job order w msg (some job) e =
    report_again msg.job_name msg.job_id (execute order w msg.job_id job e)

-- One message of the queue. The goroutine that executes the job runs to its end here.
pub handle_job :
    (Text → Text → Option Job)
    → (ℕ → Map Stage → Map Stage)
    → World
    → QueueMessage
    → Executor
    → Executor
handle_job load order w msg e = elim msg.command [
  | command_stop ↦ cancel msg.job_name msg.job_id e
  | command_start ↦ start_job order w msg (load msg.job_name msg.job_content) e
]
