-- ===== src/Output/Closed.antt =====
-- Nothing is written to the file of a log once it is closed.
use aline_engine.Base.{
  ◌≡◌, refl, ap, ◌∙◌, Bool, true, false, List, [], ◌∷◌, length, leb, if◌then◌else◌, Bool-cases, inl,
  inr,
}
use aline_engine.Base.Text.{Text}
use aline_engine.Output.{
  Clock, LogFile, WriterRound, waiting, tested, stopped, flushed, closed, round_step, Output,
  write_command_line, new_content, new_step, flush, write_new, timed_write,
}
use aline_engine.Output.Writes.{
  Write, lines, commands, stages, steps, reads, timer, write, writes,
  write_line_with_no_time-Extends, write_line-Extends, new_stage-Extends,
}

flush-closed :
    (added written : List Text) (o : Output) → o.file ≡ closed written → flush added o ≡ o
unfolding flush
flush-closed added written o h = rw h refl

either_file :
    {file : LogFile} (b : Bool) (o x y : Output)
    → x.file ≡ file
    → y.file ≡ file
    → (if b then x else y).file ≡ file
either_file true o x y h k = h
either_file false o x y h k = k

round_step-closed :
    (x : WriterRound) (written : List Text) (o : Output)
    → o.file ≡ closed written
    → (round_step x o).file ≡ closed written
unfolding round_step write_new
round_step-closed waiting written o h = either_file o.time_consuming.done o _ _ h h
round_step-closed tested written o h =
    either_file (leb (length o.buffer) o.end_index) o _ (write_new o) h
      (ap (λ (p : Output). p.file) (flush-closed _ written o h) ∙ h)
round_step-closed (flushed end) written o h = h
round_step-closed stopped written o h = h

new_content-file : (o : Output) → (new_content o).1.file ≡ o.file
unfolding new_content
new_content-file o = elim (Bool-cases (leb (length o.buffer) o.buffer_cursor)) [
  | inl e ↦ rw e refl
  | inr e ↦ rw e refl
]

write-closed :
    (clock : Clock) (x : Write) (written : List Text) (o : Output)
    → o.file ≡ closed written
    → (write clock x o).file ≡ closed written
unfolding write write_command_line new_step timed_write
write-closed clock (lines now line) written o h = (write_line-Extends clock now line o).1 ∙ h
write-closed clock (commands now line) written o h = (write_line-Extends clock now _ o).1 ∙ h
write-closed clock (stages order now name) written o h =
    (new_stage-Extends order clock now name o).1 ∙ h
write-closed clock (steps name) written o h = (write_line_with_no_time-Extends _ o).1 ∙ h
write-closed clock reads written o h = new_content-file o ∙ h
write-closed clock timer written o h = round_step-closed o.round written o h

-- No call and no step of the goroutine changes a closed file.
pub writes-closed :
    (clock : Clock) (xs : List Write) (written : List Text) (o : Output)
    → o.file ≡ closed written
    → (writes clock xs o).file ≡ closed written
unfolding writes
writes-closed clock [] written o h = h
writes-closed clock (x ∷ xs) written o h =
    writes-closed clock xs written (write clock x o) (write-closed clock x written o h)
