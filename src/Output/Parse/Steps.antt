-- ===== src/Output/Parse/Steps.antt =====
-- The steps of a stage's log are read back as they were written.
use aline_engine.Base.{◌≡◌, ◌≢◌, false, some, List, [], ◌∷◌, ◌++◌}
use aline_engine.Base.Map.{Map, lookup, keys, or_else}
use aline_engine.Base.Text.{Text, has_prefix}
use aline_engine.Output.Parse.{LogStep, StepsState, step_mark, time_mark}

-- A line that is neither a heading nor a line of times.
abbrev pub IsPlain : List Text → Type 0
IsPlain [] = Unit
IsPlain (line ∷ lines) =
    (has_prefix line time_mark ≡ false) × (has_prefix line step_mark ≡ false) × IsPlain lines

-- The steps as they are written: a heading and the lines of the step.
abbrev pub written_steps : Map (List Text) → List Text
written_steps [] = []
written_steps ((name, lines) ∷ steps) = (step_mark ++ name) ∷ (lines ++ written_steps steps)

abbrev pub ArePlain : Map (List Text) → Type 0
ArePlain [] = Unit
ArePlain ((name, lines) ∷ steps) = IsPlain lines × ArePlain steps

-- What plain lines behind the heading of the step `name` leave.
abbrev Follows : List Text → Text → List Text → StepsState → StepsState → Type 0
Follows lines name old s s' =
    (s'.names ≡ s.names)
    × (lookup name s'.steps ≡ some (old ++ lines))
    × ((k : Text) → name ≢ k → lookup k s'.steps ≡ lookup k s.steps)

-- What reading the steps of a list leaves.
abbrev Reads : Map (List Text) → StepsState → StepsState → Type 0
Reads steps s s' =
    (s'.names ≡ s.names ++ keys steps)
    × ((k : Text) → lookup k s'.steps ≡ or_else (lookup k steps) (lookup k s.steps))

-- Each line behind a newline.
abbrev pub newline_before : List Text → Text
newline_before [] = []
newline_before (line ∷ lines) = (10 ∷ line) ++ newline_before lines

-- The lines with newlines between.
abbrev pub in_lines : List Text → Text
in_lines [] = []
in_lines (line ∷ lines) = line ++ newline_before lines

-- The steps that the log shows.
abbrev pub logged : Map (List Text) → List LogStep
logged [] = []
logged ((name, lines) ∷ steps) =
    record { name = name; lines = lines; content = in_lines lines } ∷ logged steps
