-- ===== src/Executor/Jobs/Laws.antt =====
-- What the executor reports of its jobs.
use aline_engine.Base.{
  ℕ, ◌≡◌, ◌≢◌, refl, ap, sym, ◌∙◌, true, false, Option, none, some, List, [], ◌∷◌, ◌++◌, arith,
  length, length-append, ◌==◌, Option-cases, Bool, Bool-cases, inl, inr,
}
use aline_engine.Base.Int.{ℤ}
use aline_engine.Base.Map.{
  Map, lookup, insert, lookup-insert_self, lookup-erase_ne, lookup-erase_self,
}
use aline_engine.Base.Text.{Text}
use aline_engine.Model.Job.{Stage, StageDetail, Job}
use aline_engine.Model.Message.{
  StatusChangeMessage, QueueMessage, command_start, new_status_change_msg,
}
use aline_engine.Model.StageSort.{sorted_stages, stage_sort}
use aline_engine.Model.Status.{
  status_success, status_fail, status_running, status_notrun, status_stop,
}
use aline_engine.Utils.Keys.{format_job_to_string}
use aline_engine.Utils.Keys.Laws.{get_job_name_and_id-format_job}
use aline_engine.Utils.Strings.{count}
use aline_engine.Utils.Decimal.{fits_int}
use aline_engine.Executor.Run.{World, Run, step_status, save}
use aline_engine.Executor.Loop.{run_job, finish, run_stages, begin_run}
use mathlib.Core.List.{append_assoc}
use aline_engine.Executor.Jobs.{
  handle_job, report_again, Executor, cancel_key, execute, get_job_status, report, check_timers,
  is_timeout, cancel, cancel_named,
}

finish-status :
    (w : World) (p : Option Text × Run) → (finish w p).1.status ≡ step_status (finish w p).0
unfolding save
finish-status w (none, r) = refl
finish-status w (some e, r) = refl

-- The status of a finished job says whether an error came back.
run_job-status :
    (w : World) (stages : List StageDetail)
    → (run_job w stages).1.status ≡ step_status (run_job w stages).0
unfolding run_job
run_job-status w stages = finish-status w (run_stages w 0 stages w.mkdir_error (begin_run w stages))

-- A job whose stages could be sorted sends exactly one status message when it ends: "success" if no
-- error comes back from it, and "fail" if one does.
pub execute-status_chan :
    (order : ℕ → Map Stage → Map Stage) (w : World) (id : ℤ) (job : Job) (e : Executor)
    (stages : List StageDetail)
    → stage_sort order job ≡ sorted_stages stages
    → let (err, e') = execute order w id job e in
      e'.status_chan ≡ e.status_chan ++ new_status_change_msg job.name id (step_status err) ∷ []
unfolding execute report
execute-status_chan order w id job e stages sorted =
    rw (sorted, execute)
      (ap (λ s. e.status_chan ++ new_status_change_msg job.name id s ∷ [])
        (run_job-status w stages))

append-ne_self : (s t : Text) (c : ℕ) → s ++ c ∷ t ≢ s
append-ne_self s t c e = omega (arith, ap length e, length-append s (c ∷ t))

-- A job that has ended is still reported as running, whether or not it failed: the entry that
-- `Execute` makes in the map of running jobs is not the one that it deletes. The stages of the job
-- could be sorted, and it is not cancelled while it runs.
pub get_job_status-execute :
    (order : ℕ → Map Stage → Map Stage) (w : World) (id : ℤ) (job : Job) (e : Executor)
    (stages : List StageDetail)
    → stage_sort order job ≡ sorted_stages stages
    → get_job_status job.name id (execute order w id job e).1 ≡ (status_running, true)
unfolding get_job_status execute report
get_job_status-execute order w id job e stages sorted =
    let key = cancel_key job.name id in
    let other : job.name ≢ key =
      unfold cancel_key in λ same. append-ne_self job.name _ _ (sym same) in
    rw (sorted, execute)
      (rw (
        lookup-erase_ne job.name key (insert key tt e.cancel_map) other
        ∙ lookup-insert_self key tt e.cancel_map))

-- After a cancellation the job counts as not running, and a message "stop" is sent, whether or not
-- the job was running.
pub cancel_lem :
    (name : Text) (id : ℤ) (e : Executor)
    → (get_job_status name id (cancel name id e) ≡ (status_notrun, false))
      × ((cancel name id e).status_chan
          ≡ e.status_chan ++ new_status_change_msg name id status_stop ∷ [])
unfolding cancel get_job_status
cancel_lem name id e = ground (arith, lookup-erase_self (cancel_key name id) e.cancel_map)

-- What a round over the timers does to a job that has run for too long: the message "stop" is sent
-- behind the others, the job counts as not running, its entry is gone from the map of running jobs
-- and its timer from the timers, and the other entries of both maps stay.
pub record IsStopped (name : Text) (id : ℤ) (e e' : Executor) : Type 0 where
  pub message_sent :
      e'.status_chan ≡ e.status_chan ++ new_status_change_msg name id status_stop ∷ []
  pub status_is : get_job_status name id e' ≡ (status_notrun, false)
  pub entry_gone : lookup (cancel_key name id) e'.cancel_map ≡ none
  pub other_entries :
      (key : Text) → cancel_key name id ≢ key → lookup key e'.cancel_map ≡ lookup key e.cancel_map
  pub timer_gone : lookup (format_job_to_string name id) e'.step_timer_map ≡ none
  pub other_timers :
      (key : Text)
      → format_job_to_string name id ≢ key
      → lookup key e'.step_timer_map ≡ lookup key e.step_timer_map

cancel-status_chan :
    (name : Text) (id : ℤ) (e : Executor)
    → (cancel name id e).status_chan
      ≡ e.status_chan ++ new_status_change_msg name id status_stop ∷ []
unfolding cancel
cancel-status_chan name id e = ground arith

-- The entry of the job is gone, and the timers are as they were.
cancel-cancel_map :
    (name : Text) (id : ℤ) (e : Executor)
    → (lookup (cancel_key name id) (cancel name id e).cancel_map ≡ none)
      × ((key : Text)
          → cancel_key name id ≢ key
          → lookup key (cancel name id e).cancel_map ≡ lookup key e.cancel_map)
      × ((cancel name id e).step_timer_map ≡ e.step_timer_map)
unfolding cancel
cancel-cancel_map name id e =
    let key = cancel_key name id in
    elim (Option-cases (lookup key e.cancel_map)) [
      | inl h ↦ rw h (h, λ k other. refl, refl)
      | inr (a, h) ↦ rw h (
        lookup-erase_self key e.cancel_map,
        λ k other. lookup-erase_ne key k e.cancel_map other,
        refl,
      )
    ]

cancel_named-IsStopped :
    (name : Text) (id : ℤ) (e : Executor)
    → IsStopped name id e (cancel_named (format_job_to_string name id) (some (name, id)) e)
unfolding get_job_status
cancel_named-IsStopped name id e =
    let timer = format_job_to_string name id in
    let (gone, others, timers) = cancel-cancel_map name id e in
    record {
      message_sent = cancel-status_chan name id e;
      status_is = (cancel_lem name id e).0;
      entry_gone = gone;
      other_entries = others;
      timer_gone = lookup-erase_self timer (cancel name id e).step_timer_map;
      other_timers = λ key other.
          lookup-erase_ne timer key (cancel name id e).step_timer_map other
          ∙ ap (λ m. lookup key m) timers;
    }

-- The job is stopped, or nothing changes.
abbrev pub StoppedIf : Bool → Text → ℤ → Executor → Executor → Type 0
StoppedIf true name id e e' = IsStopped name id e e'
StoppedIf false name id e e' = e' ≡ e

-- A job whose step ran longer than 30 minutes is stopped by the next round over the timers, if its
-- name has no opening bracket: the message "stop" is sent, its entry is gone from the map of running
-- jobs and its timer from the timers, and the entries of other jobs stay. For a job whose name has
-- such a bracket the round changes nothing, so it is left running. Its timer is the one that is
-- visited, and the id is a value of Go's `int`.
pub check_timers-timeout :
    (now start_time : ℕ) (name : Text) (id : ℤ) (e : Executor)
    → is_timeout now start_time ≡ true
    → fits_int id ≡ true
    → StoppedIf
        (count b'(' name == 0)
        name
        id
        e
        (check_timers now ((format_job_to_string name id, start_time) ∷ []) e)
unfolding check_timers
check_timers-timeout now start_time name id e late fits =
    rw (late, get_job_name_and_id-format_job name id fits)
      (elim (Bool-cases (count b'(' name == 0)) [
        | inl plain ↦ rw plain (cancel_named-IsStopped name id e)
        | inr bracket ↦ rw bracket refl
      ])

-- What the worker reports of a job that it runs to its end.
abbrev pub reports_of : Text → ℤ → Option Text → List StatusChangeMessage
reports_of name id none = new_status_change_msg name id status_success ∷ []
reports_of name id (some x) =
    new_status_change_msg name id status_fail ∷ new_status_change_msg name id status_fail ∷ []

report_again-reports :
    (name : Text) (id : ℤ) (chan : List StatusChangeMessage) (p : Option Text × Executor)
    → p.1.status_chan ≡ chan ++ new_status_change_msg name id (step_status p.0) ∷ []
    → (report_again name id p).status_chan ≡ chan ++ reports_of name id p.0
report_again-reports name id chan (none, e) h = h
report_again-reports name id chan (some x, e) h =
    ap (λ l. l ++ new_status_change_msg name id status_fail ∷ []) h
    ∙ append_assoc chan (new_status_change_msg name id status_fail ∷ [])
        (new_status_change_msg name id status_fail ∷ [])

execute-error :
    (order : ℕ → Map Stage → Map Stage) (w : World) (id : ℤ) (job : Job) (e : Executor)
    (stages : List StageDetail)
    → stage_sort order job ≡ sorted_stages stages
    → (execute order w id job e).0 ≡ (run_job w stages).0
unfolding execute
execute-error order w id job e stages sorted = rw (sorted, execute) refl

-- A job from the queue that succeeds is reported once, and one that fails is reported twice, both
-- times as failed. The job's file was saved and read, it names the job as the message does, and its
-- stages could be sorted.
pub handle_job-execute :
    (load : Text → Text → Option Job) (order : ℕ → Map Stage → Map Stage) (w : World)
    (msg : QueueMessage) (job : Job) (e : Executor) (stages : List StageDetail)
    → msg.command ≡ command_start
    → load msg.job_name msg.job_content ≡ some job
    → job.name ≡ msg.job_name
    → stage_sort order job ≡ sorted_stages stages
    → (handle_job load order w msg e).status_chan
      ≡ e.status_chan ++ reports_of msg.job_name msg.job_id (run_job w stages).0
unfolding handle_job
handle_job-execute load order w msg job e stages start loaded named sorted =
    let ran = execute order w msg.job_id job e in
    rw (start, loaded)
      (report_again-reports msg.job_name msg.job_id e.status_chan ran (
          execute-status_chan order w msg.job_id job e stages sorted
          ∙ ap (λ n. e.status_chan ++ new_status_change_msg n msg.job_id (step_status ran.0) ∷ [])
              named)
        ∙ ap (λ o. e.status_chan ++ reports_of msg.job_name msg.job_id o)
            (execute-error order w msg.job_id job e stages sorted))
