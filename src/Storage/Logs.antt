-- ===== src/Storage/Logs.antt =====
-- job/job.go: what is read of the log of a run, whole, by stage and by step. `scan` is what the
-- package bufio makes of a file, its lines; `order` is the order in which the stages' map is visited.
-- The name in the text of an error is left out.
use aline_engine.Base.{
  ℕ, leb, Bool, false, ◌||◌, Option, none, some, List, [], ◌∷◌, length, drop, if◌then◌else◌,
}
use aline_engine.Base.Int.{ℤ, pos, int_eq}
use aline_engine.Base.Map.{Map}
use aline_engine.Base.Text.{Text, codes, text_eq}
use aline_engine.Model.Detail.{JobDetail, JobLog, JobStageLog}
use aline_engine.Model.Job.{StageDetail}
use aline_engine.Model.Status.{status_success, status_fail}
use aline_engine.Output.Parse.{
  Times, LogData, LogStage, LogStep, parse_log_lines, parse_stage_steps, join_with,
}
use aline_engine.Storage.Details.{get_job_detail}
use aline_engine.Storage.Files.{get_job_detail_log_path}
use aline_engine.Storage.Os.{Os, Fallible, ok, failed, Codec}
use aline_engine.Utils.Paths.{FilePath}

-- The lines from `start` on; out of range there are none.
unfoldable pub lines_from : ℤ → List Text → List Text
lines_from (pos n) lines = if leb n (length lines) then drop n lines else []
lines_from _ lines = []

-- The first step of a name.
pub find_step : Text → List LogStep → Option LogStep
find_step name [] = none
find_step name (step ∷ steps) =
    let rest = find_step name steps in if text_eq step.name name then some step else rest

-- A stage of the name without the step does not end the search.
abbrev pub or_else : Option LogStep → Option LogStep → Option LogStep
or_else (some step) rest = some step
or_else none rest = rest

pub step_in_stages : Text → Text → List LogStage → Option LogStep
unfolding find_step parse_stage_steps
step_in_stages stage_name step_name [] = none
step_in_stages stage_name step_name (stage ∷ stages) =
    let rest = step_in_stages stage_name step_name stages in
    if text_eq stage.name stage_name
    then or_else (find_step step_name (parse_stage_steps stage)) rest
    else rest

-- The first stage of a name in the log.
pub find_log_stage : Text → List LogStage → Option LogStage
find_log_stage name [] = none
find_log_stage name (stage ∷ stages) =
    let rest = find_log_stage name stages in if text_eq stage.name name then some stage else rest

-- Whether the last stage of a name has ended, by its status; without one its status is zero.
pub stage_ended_in : Text → List StageDetail → Bool → Bool
stage_ended_in name [] ended = ended
stage_ended_in name (d ∷ ds) ended = stage_ended_in name ds (
    if text_eq d.name name
    then int_eq d.status status_success || int_eq d.status status_fail
    else ended)

abbrev pub job_log : Fallible LogData → Fallible JobLog
job_log (ok log) = ok (record {
  start_time = log.start_time;
  duration = log.duration;
  content = join_with (13 ∷ []) log.lines;
  last_line = length log.lines;
})
job_log (failed e) = failed e

abbrev pub stage_log : Bool → ℤ → LogStage → JobStageLog
stage_log ended start stage = record {
  start_time = stage.start_time;
  duration = stage.duration;
  content = join_with (13 ∷ []) (lines_from start stage.lines);
  last_line = length stage.lines;
  end = ended;
}

abbrev pub found_stage_log : Bool → ℤ → Option LogStage → Fallible JobStageLog
found_stage_log ended start none = failed (codes "stage not found")
found_stage_log ended start (some stage) = ok (stage_log ended start stage)

module _ (os : Os) (codec : Codec) (config : FilePath) (scan : Text → List Text)
    (order : Map (List Text) → Map (List Text)) (times : Times) where
  abbrev pub scanned : Fallible Text → Fallible (List Text)
  scanned (ok t) = ok (scan t)
  scanned (failed e) = failed e

  pub read_file_lines : FilePath → os.Files → Fallible (List Text)
  read_file_lines p s = scanned (os.read_file p s)

  abbrev pub parsed : Fallible (List Text) → Fallible LogData
  parsed (ok lines) = ok (parse_log_lines order times lines)
  parsed (failed e) = failed e

  pub parse_log_file : FilePath → os.Files → Fallible LogData
  unfolding read_file_lines
  parse_log_file p s = parsed (read_file_lines p s)

  unfoldable pub get_job_log : Text → ℤ → os.Files → Fallible JobLog
  unfolding parse_log_file
  get_job_log name id s = job_log (parse_log_file (get_job_detail_log_path config name id) s)

  abbrev pub step_log : Text → Text → Fallible LogData → Fallible (Option LogStep)
  step_log stage_name step_name (ok log) = ok (step_in_stages stage_name step_name log.stages)
  step_log stage_name step_name (failed e) = failed e

  unfoldable pub get_job_step_log : Text → ℤ → Text → Text → os.Files → Fallible (Option LogStep)
  unfolding parse_log_file step_in_stages
  get_job_step_log name id stage_name step_name s =
      step_log stage_name step_name (parse_log_file (get_job_detail_log_path config name id) s)

  abbrev pub stage_log_of : Text → ℤ → Fallible LogData → Fallible JobDetail → Fallible JobStageLog
  stage_log_of stage_name start (failed e) detail = failed e
  stage_log_of stage_name start (ok log) (failed e) = failed e
  stage_log_of stage_name start (ok log) (ok detail) =
      found_stage_log (stage_ended_in stage_name detail.stages false) start
        (find_log_stage stage_name log.stages)

  unfoldable pub get_job_stage_log : ℕ → Text → ℤ → Text → ℤ → os.Files → Fallible JobStageLog
  unfolding parse_log_file stage_ended_in find_log_stage
  get_job_stage_log now name id stage_name start s =
      stage_log_of stage_name start (parse_log_file (get_job_detail_log_path config name id) s)
        (get_job_detail os codec config now name id s)
