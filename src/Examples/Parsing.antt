-- ===== src/Examples/Parsing.antt =====
-- The log of a stage with two steps, and one of two stages, read back.
use aline_engine.Base.{List, [], ◌∷◌, length}
use aline_engine.Base.Map.{Map}
use aline_engine.Base.Text.{Text, codes}
use aline_engine.Output.Parse.{LogStage, Times}
use aline_engine.Output.Parse.Timed.{StageText}
use aline_engine.Output.Parse.Steps.{written_steps}

abbrev two_steps : Map (List Text)
two_steps =
    (codes "compile", codes "make" ∷ codes "ok" ∷ []) ∷ (codes "test", codes "2 passed" ∷ []) ∷ []

abbrev stage : LogStage
stage = record {
  start_time = 0;
  end_time = 0;
  duration = 0;
  name = codes "build";
  lines = written_steps two_steps;
}

-- Times and durations are read as their numbers of bytes.
abbrev times : Times
times = record { parse_time = length; parse_duration = length }

abbrev two_stages : List StageText
two_stages =
    record {
      name = codes "build";
      started = codes "noon";
      lines = codes "make" ∷ [];
      ended = codes "later";
      lasted = codes "1h";
    }
    ∷ record {
      name = codes "deploy";
      started = codes "later";
      lines = codes "copied" ∷ [];
      ended = codes "midnight";
      lasted = codes "11h";
    }
    ∷ []

abbrev in_order : Map (List Text) → Map (List Text)
in_order m = m
