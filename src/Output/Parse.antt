-- ===== src/Output/Parse.antt =====
-- output/output.go: the log of a job parsed back into stages (`parseLogLines`) and a stage into steps
-- (`ParseStageSteps`). How Go parses times and durations is the argument `Times`; what it returns
-- with an error is the zero value.
pub mod Steps
pub mod Stages
pub mod Timed
use aline_engine.Base.{
  ℕ, ◌+◌, ltb, Bool, true, false, ◌||◌, Option, none, some, List, [], ◌∷◌, ◌++◌, length, drop,
  last?, get_elem?, map, if◌then◌else◌,
}
use aline_engine.Base.Map.{Map, lookup, insert}
use aline_engine.Base.Text.{Text, codes, text_eq, has_prefix}
use aline_engine.Utils.Strings.{split, trim_prefix}

-- `time.Parse(time.RFC3339, s)` and `time.ParseDuration(s)`.
pub record Times : Type 0 where
  pub parse_time : Text → ℕ
  pub parse_duration : Text → ℕ

pub record LogStage : Type 0 where
  pub start_time : ℕ
  pub end_time : ℕ
  pub duration : ℕ
  pub name : Text
  pub lines : List Text

pub record LogData : Type 0 where
  pub start_time : ℕ
  pub end_time : ℕ
  pub duration : ℕ
  pub stages : List LogStage
  pub lines : List Text

pub record LogStep : Type 0 where
  pub name : Text
  pub lines : List Text
  pub content : Text

-- A nil slice and a missing key are empty.
abbrev pub or_empty : Option (List Text) → List Text
or_empty none = []
or_empty (some l) = l

-- The parts of "time, Duration: d".
abbrev first_part : List Text → Text
first_part [] = []
first_part (t ∷ ts) = t

abbrev duration_part : Times → List Text → ℕ → ℕ
duration_part times (t ∷ d ∷ ts) old = times.parse_duration (trim_prefix d (codes " Duration: "))
duration_part times _ old = old

-- The local variables of the first loop.
pub record LogState : Type 0 where
  pub log : LogData
  pub stage_name : Text
  pub stage_names : List Text
  pub stage_output : Map (List Text)

abbrev job_started : Times → Text → LogData → LogData
job_started times line log =
    if has_prefix line (codes "[Job] Started on ")
    then record log { start_time = times.parse_time (trim_prefix line (codes "[Job] Started on ")) }
    else log

abbrev job_finished : Times → Text → LogData → LogData
job_finished times line log =
    if has_prefix line (codes "[Job] Finished on ")
    then (let parts = split b',' (trim_prefix line (codes "[Job] Finished on ")) in
        record log {
          end_time = times.parse_time (first_part parts);
          duration = duration_part times parts log.duration;
        })
    else log

-- A heading starts the lines of its stage anew.
abbrev stage_heading : Text → LogState → LogState
stage_heading line s =
    if has_prefix line (codes "[Pipeline] Stage: ")
    then (let name = trim_prefix line (codes "[Pipeline] Stage: ") in
        record s {
          stage_name = name;
          stage_names = s.stage_names ++ (name ∷ []);
          stage_output = insert name [] s.stage_output;
        })
    else s

abbrev stage_line : Text → LogState → LogState
stage_line line s =
    let lines = or_empty (lookup s.stage_name s.stage_output) in
    record s { stage_output = insert s.stage_name (lines ++ (line ∷ [])) s.stage_output }

-- Lines of the job, and empty lines.
abbrev is_job_line : Text → Bool
is_job_line line = has_prefix line (codes "[Job]") || (text_eq line (10 ∷ []) || text_eq line [])

-- The body of the first loop of `parseLogLines`.
pub read_log_line : Times → Text → LogState → LogState
read_log_line times line s =
    if is_job_line line
    then record s { log = job_finished times line (job_started times line s.log) }
    else stage_line line (stage_heading line s)

pub read_log_lines : Times → List Text → LogState → LogState
unfolding read_log_line
read_log_lines times [] s = s
read_log_lines times (line ∷ lines) s = read_log_lines times lines (read_log_line times line s)

abbrev stage_started : Times → Text → LogStage → LogStage
stage_started times line stage =
    if has_prefix line (codes "[TimeConsuming] StartTime: ")
    then record stage {
      start_time = times.parse_time (trim_prefix line (codes "[TimeConsuming] StartTime: "));
    }
    else stage

abbrev stage_ended : Times → Text → LogStage → LogStage
stage_ended times line stage =
    if has_prefix line (codes "[TimeConsuming] EndTime: ")
    then (let parts = split b',' (trim_prefix line (codes "[TimeConsuming] EndTime: ")) in
        record stage {
          end_time = times.parse_time (first_part parts);
          duration = duration_part times parts stage.duration;
        })
    else stage

-- The loop over the lines of a stage.
pub read_stage_times : Times → List Text → LogStage → LogStage
read_stage_times times [] stage = stage
read_stage_times times (line ∷ lines) stage =
    read_stage_times times lines (stage_ended times line (stage_started times line stage))

pub stage_of : Times → Text → List Text → LogStage
unfolding read_stage_times
stage_of times name lines =
    read_stage_times times lines
      (record { start_time = 0; end_time = 0; duration = 0; name = name; lines = lines })

-- The inner loop over `stageNameList`.
pub stages_named : Times → Text → List Text → List Text → List LogStage
unfolding stage_of
stages_named times name lines [] = []
stages_named times name lines (n ∷ names) =
    let rest = stages_named times name lines names in
    if text_eq n name then stage_of times name lines ∷ rest else rest

pub stages_of : Times → List Text → Map (List Text) → List LogStage
unfolding stages_named
stages_of times names [] = []
stages_of times names ((name, lines) ∷ visited) =
    stages_named times name lines names ++ stages_of times names visited

abbrev pub log_start : List Text → LogState
log_start lines = record {
  log = record { start_time = 0; end_time = 0; duration = 0; stages = []; lines = lines };
  stage_name = codes "unknown";
  stage_names = [];
  stage_output = [];
}

-- `order` is the order in which the second loop visits the map of the stages.
pub parse_log_lines : (Map (List Text) → Map (List Text)) → Times → List Text → LogData
unfolding read_log_lines stages_of
parse_log_lines order times lines =
    let s = read_log_lines times lines (log_start lines) in
    let log = s.log in record log { stages = stages_of times s.stage_names (order s.stage_output) }

-- The local variables `stepNameList` and `stepMap` of `ParseStageSteps`.
pub record StepsState : Type 0 where
  pub names : List Text
  pub steps : Map (List Text)

abbrev pub step_mark : Text
step_mark = codes "[Pipeline] Step: "

abbrev pub time_mark : Text
time_mark = codes "[TimeConsuming]"

abbrev pub add_line : Text → Option Text → StepsState → StepsState
add_line line none s = s
add_line line (some name) s = record s {
  steps = insert name (or_empty (lookup name s.steps) ++ (line ∷ [])) s.steps;
}

abbrev pub add_step : Text → StepsState → StepsState
add_step name s = record { names = s.names ++ (name ∷ []); steps = insert name [] s.steps }

pub read_step_line : Text → StepsState → StepsState
read_step_line line s =
    if has_prefix line time_mark
    then s
    else if has_prefix line step_mark
    then add_step (trim_prefix line step_mark) s
    else add_line line (last? s.names) s

pub read_step_lines : List Text → StepsState → StepsState
unfolding read_step_line
read_step_lines [] s = s
read_step_lines (line ∷ lines) s = read_step_lines lines (read_step_line line s)

-- `strings.Join(lines, sep)`
unfoldable pub join_with : Text → List Text → Text
join_with sep [] = []
join_with sep (line ∷ lines) =
    let rest = join_with sep lines in elim lines [ [] ↦ line | l ∷ ls ↦ line ++ (sep ++ rest) ]

abbrev pub step_of : Text → List Text → LogStep
step_of name lines = record { name = name; lines = lines; content = join_with (10 ∷ []) lines }

-- The last loops: a name stands once in the map, so each name of the list gives its step.
abbrev pub steps_of : List Text → Map (List Text) → List LogStep
steps_of names steps = map (λ name. step_of name (or_empty (lookup name steps))) names

unfoldable pub parse_stage_steps : LogStage → List LogStep
unfolding read_step_lines
parse_stage_steps stage =
    let s = read_step_lines stage.lines (record { names = []; steps = [] }) in
    steps_of s.names s.steps
