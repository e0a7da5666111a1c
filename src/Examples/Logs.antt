-- ===== src/Examples/Logs.antt =====
-- A log with a stage, a step and a line, flushed to the file twice while the job runs.
use aline_engine.Base.{◌≡◌, refl, false, some, List, [], ◌∷◌, ◌++◌}
use aline_engine.Base.Map.{Map}
use aline_engine.Base.Text.{Text, codes}
use aline_engine.Output.{
  Clock, TimeConsuming, closed, finish, last_line, new, new_content, content, timed_write,
  round_step, write_new, flush, new_stage, new_step, finish_stages, finish_stage,
  write_line_with_no_time, write_line,
}
use aline_engine.Output.Readers.{reads_of, reads_of-new_content}
use aline_engine.Output.Log.{finish-file, is_flushed}
use aline_engine.Output.Writes.{Write, lines, stages, steps, reads, timer, write, writes}

abbrev clock : Clock
clock = record { format_time = λ n. codes "noon"; format_duration = λ n. codes "1s" }

abbrev as_listed : Map TimeConsuming → Map TimeConsuming
as_listed m = m

abbrev script : List Write
script =
    stages as_listed 3 (codes "build")
    ∷ steps (codes "compile")
    ∷ timer
    ∷ timer
    ∷ lines 4 (codes "done")
    ∷ timer
    ∷ reads
    ∷ timer
    ∷ timer
    ∷ timer
    ∷ []

newline : codes "\n" ≡ 10 ∷ []
newline = refl

-- What an earlier run with the same number left in the file.
abbrev earlier : List Text
earlier = codes "old\n" ∷ []

moved : is_flushed (writes clock script (new clock 2 (some earlier))).round ≡ false
unfolding writes write timed_write round_step write_new flush new_stage new_step finish_stages
    finish_stage new write_line_with_no_time write_line new_content
moved = refl

finish-file_example :
    let o = writes clock script (new clock 2 (some earlier)) in
    let o' = finish as_listed clock 9 o in
    (writes clock (timer ∷ timer ∷ []) o').file
    ≡ closed (earlier ++ (o'.buffer ++ last_line clock 9 o ∷ []))
finish-file_example = finish-file earlier clock 2 9 as_listed script (timer ∷ timer ∷ []) moved

reads_of-new_content_example :
    let o = writes clock script (new clock 2 (some earlier)) in
    reads_of clock script (new clock 2 (some earlier)) ++ (new_content o).0 ≡ (content o).0
reads_of-new_content_example = reads_of-new_content clock 2 (some earlier) script
