-- ===== src/Output.antt =====
-- output/output.go `Output`: the log of a job, which is written to a buffer and from there, by a
-- goroutine, to a file. Only the goroutine's test of `Done` is under the lock, so a round has three
-- steps, between which other calls may come: the test, the flush, and the move of the cursor. Each
-- step and each call is one step here, and writing to the open file succeeds. The file is opened with
-- O_APPEND, so it keeps what it holds.
-- Times are numbers that enter as arguments; how Go prints times and durations is the argument
-- `Clock`.
pub mod Writes
pub mod Closed
pub mod Log
pub mod Readers
pub mod Parse
use aline_engine.Base.{
  ℕ, ◌-◌, Bool, true, false, Option, none, some, List, [], ◌∷◌, ◌++◌, length, take, drop, leb,
  if◌then◌else◌, last?, ◌==◌,
}
use aline_engine.Base.Map.{Map, insert}
use aline_engine.Base.Text.{Text, codes}

-- `Format(time.RFC3339)` and `Duration.String`.
pub record Clock : Type 0 where
  pub format_time : ℕ → Text
  pub format_duration : ℕ → Text

pub record TimeConsuming : Type 0 where
  pub done : Bool
  pub start_time : ℕ
  pub end_time : ℕ
  pub duration : ℕ

-- Where the goroutine of `timedWriteFile` is: before its test, behind it, behind a flush up to a
-- place in the buffer, or at its end.
pub data WriterRound : Type 0 where
  waiting tested stopped : WriterRound
  flushed : ℕ → WriterRound

-- The file with its lines, while it is open and after it is closed; it may not have been opened.
pub data LogFile : Type 0 where
  no_file : LogFile
  opened closed : List Text → LogFile

-- `end_index` and `round` are the goroutine's.
pub record Output : Type 0 where
  pub buffer : List Text
  pub file : LogFile
  pub file_cursor : ℕ
  pub buffer_cursor : ℕ
  pub end_index : ℕ
  pub round : WriterRound
  pub stage_time_consuming : Map TimeConsuming
  pub time_consuming : TimeConsuming

abbrev ends_line : Option ℕ → Bool
ends_line none = false
ends_line (some c) = c == 10

abbrev pub with_newline : Text → Text
with_newline line = if ends_line (last? line) then line else line ++ (10 ∷ [])

unfoldable pub write_line_with_no_time : Text → Output → Output
write_line_with_no_time line o = record o { buffer = o.buffer ++ (with_newline line ∷ []) }

abbrev stamp : Clock → ℕ → Text
stamp clock now = codes "[" ++ clock.format_time now ++ codes "] "

unfoldable pub write_line : Clock → ℕ → Text → Output → Output
write_line clock now line o = record o {
  buffer = o.buffer ++ ((stamp clock now ++ with_newline line) ∷ []);
}

pub write_command_line : Clock → ℕ → Text → Output → Output
write_command_line clock now line o = write_line clock now (codes "> " ++ line) o

-- `strings.Join(lines, "")`
pub join : List Text → Text
join [] = []
join (line ∷ lines) = line ++ join lines

pub content : Output → Text × Output
content o = (join o.buffer, record o { buffer_cursor = length o.buffer })

unfoldable pub new_content : Output → Text × Output
new_content o =
    if leb (length o.buffer) o.buffer_cursor
    then ([], o)
    else (join (drop o.buffer_cursor o.buffer), record o { buffer_cursor = length o.buffer })

abbrev pub finished : ℕ → TimeConsuming → TimeConsuming
finished now t = record t { end_time = now; duration = now - t.start_time; done = true }

-- The line of a stage that ends.
abbrev pub end_line : Clock → ℕ → TimeConsuming → Text
end_line clock now t =
    codes "[TimeConsuming] EndTime: "
    ++ clock.format_time now
    ++ codes ", Duration: "
    ++ clock.format_duration (now - t.start_time)

-- A stage that is not done is marked as done.
unfoldable pub finish_stage : Clock → ℕ → Text → TimeConsuming → Output → Output
unfolding write_line_with_no_time
finish_stage clock now name t o =
    if t.done
    then o
    else write_line_with_no_time (end_line clock now t)
        (record o { stage_time_consuming = insert name (finished now t) o.stage_time_consuming })

-- The loop over the earlier stages, in the order of `range`.
unfoldable pub finish_stages : Clock → ℕ → Map TimeConsuming → Output → Output
unfolding finish_stage
finish_stages clock now [] o = o
finish_stages clock now ((name, t) ∷ visited) o =
    finish_stages clock now visited (finish_stage clock now name t o)

-- `order` is the order in which `range` visits the entries. One time stands for those that are read
-- in the loop and behind it.
unfoldable pub new_stage :
    (Map TimeConsuming → Map TimeConsuming) → Clock → ℕ → Text → Output → Output
new_stage order clock now name o =
    let ended = finish_stages clock now (order o.stage_time_consuming) o in
    let headed =
      write_line_with_no_time (codes "[TimeConsuming] StartTime: " ++ clock.format_time now) (
        write_line_with_no_time (codes "[Pipeline] Stage: " ++ name)
          (write_line_with_no_time (10 ∷ []) ended)) in
    record headed {
      stage_time_consuming =
          insert name (record { done = false; start_time = now; end_time = 0; duration = 0 })
            headed.stage_time_consuming;
    }

unfoldable pub new_step : Text → Output → Output
new_step name o = write_line_with_no_time (codes "[Pipeline] Step: " ++ name) o

unfoldable pub flush : List Text → Output → Output
flush lines o = elim o.file [
  | no_file ↦ o
  | opened written ↦ record o { file = opened (written ++ lines) }
  | closed written ↦ o
]

-- The lines behind the cursor go to the file; the cursor moves in the next step.
unfoldable pub write_new : Output → Output
unfolding flush
write_new o =
    let end = length o.buffer in
    record (flush (take (end - o.file_cursor) (drop o.file_cursor o.buffer)) o) {
      end_index = end;
      round = flushed end;
    }

-- The next step of the goroutine from where it is; it ends when the output is done.
unfoldable pub round_step : WriterRound → Output → Output
unfolding write_new
round_step waiting o =
    if o.time_consuming.done then record o { round = stopped } else record o { round = tested }
round_step tested o =
    if leb (length o.buffer) o.end_index then record o { round = waiting } else write_new o
round_step (flushed end) o = record o { file_cursor = end; round = waiting }
round_step stopped o = o

-- A step of the goroutine of `timedWriteFile`.
unfoldable pub timed_write : Output → Output
unfolding round_step
timed_write o = round_step o.round o

abbrev pub last_line : Clock → ℕ → Output → Text
last_line clock now o =
    codes "\n[Job] Finished on "
    ++ clock.format_time now
    ++ codes ", Duration: "
    ++ clock.format_duration (now - o.time_consuming.start_time)
    ++ codes "\n\n"

-- What is written to a closed file is lost.
abbrev close_file : LogFile → LogFile
close_file no_file = no_file
close_file (opened written) = closed written
close_file (closed written) = closed written

pub finish : (Map TimeConsuming → Map TimeConsuming) → Clock → ℕ → Output → Output
finish order clock now o =
    let ended = finish_stages clock now (order o.stage_time_consuming) o in
    let stopped = record ended { time_consuming = finished now ended.time_consuming } in
    let written =
      flush (last_line clock now o ∷ [])
        (flush (drop stopped.file_cursor stopped.buffer) stopped) in
    record written { file = close_file written.file }

abbrev unwritten : ℕ → LogFile → Output
unwritten now file = record {
  buffer = [];
  file = file;
  file_cursor = 0;
  buffer_cursor = 0;
  end_index = 0;
  round = waiting;
  stage_time_consuming = [];
  time_consuming = record { done = false; start_time = now; end_time = 0; duration = 0 };
}

-- The lines that the file held before enter, if it could be opened; the first line is written, and
-- the goroutine started, only then.
unfoldable pub new : Clock → ℕ → Option (List Text) → Output
new clock now none = record (unwritten now no_file) { round = stopped }
new clock now (some before) =
    write_line_with_no_time (codes "[Job] Started on " ++ clock.format_time now)
      (unwritten now (opened before))
