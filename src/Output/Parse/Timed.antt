-- ===== src/Output/Parse/Timed.antt =====
-- The stages of a log that has the lines of times, as `NewStage` and `Done` write them.
use aline_engine.Base.{◌≡◌, false, List, [], ◌∷◌, ◌++◌, map}
use aline_engine.Base.Map.{Map}
use aline_engine.Base.Text.{Text, codes, has_prefix}
use aline_engine.Output.Parse.{Times, LogStage}
use aline_engine.Output.Parse.Stages.{IsBody}
use aline_engine.Utils.Strings.{count}

-- A stage as the log shows it: when it started and ended and how long it lasted, as texts, and the
-- lines between.
pub record StageText : Type 0 where
  pub name : Text
  pub started : Text
  pub lines : List Text
  pub ended : Text
  pub lasted : Text

abbrev start_text : Text → Text
start_text started = codes "[TimeConsuming] StartTime: " ++ started

abbrev end_text : Text → Text → Text
end_text ended lasted =
    codes "[TimeConsuming] EndTime: " ++ (ended ++ (codes ", Duration: " ++ lasted))

abbrev pub stage_lines : StageText → List Text
stage_lines s = start_text s.started ∷ (s.lines ++ (end_text s.ended s.lasted ∷ []))

-- Lines that say no time.
abbrev pub AreUntimed : List Text → Type 0
AreUntimed [] = Unit {0}
AreUntimed (line ∷ lines) =
    (has_prefix line (codes "[TimeConsuming] StartTime: ") ≡ false)
    × (has_prefix line (codes "[TimeConsuming] EndTime: ") ≡ false)
    × AreUntimed lines

-- The lines belong to the stage and say no time, and the texts of the end have no comma.
abbrev pub AreTimed : List StageText → Type 0
AreTimed [] = Unit {0}
AreTimed (s ∷ ss) =
    IsBody s.lines
    × AreUntimed s.lines
    × (count b',' s.ended ≡ 0)
    × (count b',' s.lasted ≡ 0)
    × AreTimed ss

abbrev pub as_map : List StageText → Map (List Text)
as_map = map (λ s. (s.name, stage_lines s))

-- The stages as they are to be read.
abbrev pub timed_stages : Times → List StageText → List LogStage
timed_stages times = map (λ s. record {
  start_time = times.parse_time s.started;
  end_time = times.parse_time s.ended;
  duration = times.parse_duration s.lasted;
  name = s.name;
  lines = (codes "[Pipeline] Stage: " ++ s.name) ∷ stage_lines s;
})
