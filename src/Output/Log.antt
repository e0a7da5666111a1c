-- ===== src/Output/Log.antt =====
-- What reaches the file of a job's log.
use aline_engine.Base.{
  take-append-drop, ℕ, zero, suc, ◌-◌, ◌≤◌, ◌≡◌, refl, ap, sym, ◌∙◌, Bool, true, false, some, List,
  [], ◌∷◌, ◌++◌, arith, length, length-append, take, drop, leb, if◌then◌else◌, Bool-cases, inl, inr,
}
use mathlib.Core.List.{append_assoc, append-nil}
use aline_engine.Base.Map.{Map}
use aline_engine.Base.Text.{Text}
use aline_engine.Output.{
  Clock, TimeConsuming, WriterRound, waiting, tested, stopped, flushed, opened, closed, round_step,
  Output, write_line_with_no_time, write_command_line, new_content, finish_stages, new_step, flush,
  write_new, timed_write, finish, new, last_line,
}
use aline_engine.Output.Writes.{
  Write, lines, commands, stages, steps, reads, timer, write, writes, Extends, take-append_le,
  write_line_with_no_time-Extends, write_line-Extends, new_stage-Extends, finish_stages-Extends,
}
use aline_engine.Output.Closed.{writes-closed}

-- How many lines of the buffer have gone to the file: up to the cursor, or in the middle of a round up
-- to the end of its flush.
abbrev pub round_end : WriterRound → ℕ → ℕ
round_end (flushed end) cursor = end
round_end waiting cursor = cursor
round_end tested cursor = cursor
round_end stopped cursor = cursor

abbrev pub flushed_to : Output → ℕ
flushed_to o = round_end o.round o.file_cursor

-- Behind what it held before, the file holds the first lines of the buffer.
pub record IsFlushed (before : List Text) (o : Output) : Type 0 where
  pub written : o.file ≡ opened (before ++ take (flushed_to o) o.buffer)
  pub cursor_in : flushed_to o ≤ length o.buffer

sub_zero : (n : ℕ) → n - 0 ≡ n
sub_zero n = omega arith

take-drop_all {ℓ} :
    {A : Type ℓ} (n : ℕ) (xs : List A)
    → n ≤ length xs
    → take n xs ++ take (length xs - n) (drop n xs) ≡ take (length xs) xs
take-drop_all zero xs h = ap (λ n. take n xs) (sub_zero (length xs))
take-drop_all (suc n) [] h = absurd (omega arith)
take-drop_all (suc n) (x ∷ xs) h =
    ap (λ k. x ∷ (take n xs ++ take k (drop n xs))) (omega arith)
    ∙ ap (◌∷◌ x) (take-drop_all n xs (omega arith))

-- Lines behind those of the buffer change nothing in the file.
more-IsFlushed :
    (before : List Text) (o o' : Output) (more : List Text)
    → o'.file ≡ o.file
    → flushed_to o' ≡ flushed_to o
    → o'.buffer ≡ o.buffer ++ more
    → IsFlushed before o
    → IsFlushed before o'
more-IsFlushed before o o' more f c b h = record {
  written =
      f
      ∙ h.written
      ∙ ap (λ l. opened (before ++ l))
          (sym (take-append_le (flushed_to o) o.buffer more h.cursor_in)
            ∙ (λ i. take (sym c i) (sym b i)));
  cursor_in = omega (arith, h.cursor_in, c, ap length b, length-append o.buffer more);
}

module _ (before : List Text) where
  extended-IsFlushed : (o o' : Output) → Extends o o' → IsFlushed before o → IsFlushed before o'
  extended-IsFlushed o o' (more, f, c, b, t, r) h =
      more-IsFlushed before o o' more f (λ i. round_end (r i) (c i)) b h

  either-IsFlushed :
      (b : Bool) (x y : Output)
      → IsFlushed before x
      → IsFlushed before y
      → IsFlushed before (if b then x else y)
  either-IsFlushed true x y h k = h
  either-IsFlushed false x y h k = k

  -- The goroutine goes on, with as many lines in the file.
  moved-IsFlushed :
      (x : WriterRound) (cursor : ℕ) (o : Output)
      → round_end x cursor ≡ flushed_to o
      → IsFlushed before o
      → IsFlushed before (record o { file_cursor = cursor; round = x })
  moved-IsFlushed x cursor o e h = record {
    written = h.written ∙ ap (λ n. opened (before ++ take n o.buffer)) (sym e);
    cursor_in = omega (arith, e, h.cursor_in);
  }

  write_new-IsFlushed :
      (o : Output)
      → flushed_to o ≡ o.file_cursor
      → IsFlushed before o
      → IsFlushed before (write_new o)
  unfolding write_new flush
  write_new-IsFlushed o e h =
      let there : o.file ≡ opened (before ++ take o.file_cursor o.buffer) =
        h.written ∙ ap (λ n. opened (before ++ take n o.buffer)) e in
      let inside : o.file_cursor ≤ length o.buffer = omega (arith, e, h.cursor_in) in
      record {
        written = rw there (
            ap opened (
              append_assoc before (take o.file_cursor o.buffer)
                (take (length o.buffer - o.file_cursor) (drop o.file_cursor o.buffer))
              ∙ ap (λ l. before ++ l) (take-drop_all o.file_cursor o.buffer inside)));
        cursor_in = rw (there, flush) (omega arith);
      }

  round_step-IsFlushed :
      (x : WriterRound) (o : Output)
      → o.round ≡ x
      → IsFlushed before o
      → IsFlushed before (round_step x o)
  unfolding round_step
  round_step-IsFlushed waiting o e h =
      let same = ap (λ x. round_end x o.file_cursor) (sym e) in
      either-IsFlushed o.time_consuming.done _ _ (moved-IsFlushed stopped o.file_cursor o same h)
        (moved-IsFlushed tested o.file_cursor o same h)
  round_step-IsFlushed tested o e h =
      either-IsFlushed (leb (length o.buffer) o.end_index) _ (write_new o)
        (moved-IsFlushed waiting o.file_cursor o (ap (λ x. round_end x o.file_cursor) (sym e)) h)
        (write_new-IsFlushed o (ap (λ x. round_end x o.file_cursor) e) h)
  round_step-IsFlushed (flushed end) o e h =
      moved-IsFlushed waiting end o (ap (λ x. round_end x o.file_cursor) (sym e)) h
  round_step-IsFlushed stopped o e h = h

  new_content-IsFlushed : (o : Output) → IsFlushed before o → IsFlushed before (new_content o).1
  unfolding new_content
  new_content-IsFlushed o h = elim (Bool-cases (leb (length o.buffer) o.buffer_cursor)) [
    | inl e ↦ rw e h
    | inr e ↦ rw e (record { written = h.written; cursor_in = h.cursor_in })
  ]

  write-IsFlushed :
      (clock : Clock) (x : Write) (o : Output)
      → IsFlushed before o
      → IsFlushed before (write clock x o)
  unfolding write write_command_line new_step timed_write
  write-IsFlushed clock (lines now line) o h =
      extended-IsFlushed o _ (write_line-Extends clock now line o) h
  write-IsFlushed clock (commands now line) o h =
      extended-IsFlushed o _ (write_line-Extends clock now _ o) h
  write-IsFlushed clock (stages order now name) o h =
      extended-IsFlushed o _ (new_stage-Extends order clock now name o) h
  write-IsFlushed clock (steps name) o h =
      extended-IsFlushed o _ (write_line_with_no_time-Extends _ o) h
  write-IsFlushed clock reads o h = new_content-IsFlushed o h
  write-IsFlushed clock timer o h = round_step-IsFlushed o.round o refl h

  writes-IsFlushed :
      (clock : Clock) (xs : List Write) (o : Output)
      → IsFlushed before o
      → IsFlushed before (writes clock xs o)
  unfolding writes
  writes-IsFlushed clock [] o h = h
  writes-IsFlushed clock (x ∷ xs) o h = writes-IsFlushed clock xs _ (write-IsFlushed clock x o h)

  new-IsFlushed : (clock : Clock) (now : ℕ) → IsFlushed before (new clock now (some before))
  unfolding new write_line_with_no_time
  new-IsFlushed clock now = record {
    written = ap opened (sym (append-nil before));
    cursor_in = omega arith;
  }

-- The goroutine is between its flush and the move of the cursor.
abbrev pub is_flushed : WriterRound → Bool
is_flushed (flushed end) = true
is_flushed waiting = false
is_flushed tested = false
is_flushed stopped = false

round_end-cursor :
    (x : WriterRound) (cursor : ℕ) → is_flushed x ≡ false → round_end x cursor ≡ cursor
round_end-cursor waiting cursor h = refl
round_end-cursor tested cursor h = refl
round_end-cursor stopped cursor h = refl
round_end-cursor (flushed end) cursor h = cc

-- The file at the end, wherever the goroutine is: `Done` starts at the cursor, so the lines between the
-- cursor and the end of a flush whose cursor has not moved yet are there twice.
pub finish-flushed_to :
    (before : List Text) (clock : Clock) (start end : ℕ)
    (order : Map TimeConsuming → Map TimeConsuming) (xs : List Write)
    → let o = writes clock xs (new clock start (some before)) in
      let o' = finish order clock end o in
      o'.file
      ≡ closed (
          ((before ++ take (flushed_to o) o'.buffer) ++ drop o.file_cursor o'.buffer)
          ++ last_line clock end o ∷ [])
unfolding finish flush
finish-flushed_to before clock start end order xs =
    let o = writes clock xs (new clock start (some before)) in
    let ended = finish_stages clock end (order o.stage_time_consuming) o in
    let more = finish_stages-Extends clock end (order o.stage_time_consuming) o in
    let (added, f, c, b, t, r) = more in
    let h =
      extended-IsFlushed before o ended more
        (writes-IsFlushed before clock xs _ (new-IsFlushed before clock start)) in
    rw h.written (λ i. closed (
      ((before ++ take (round_end (r i) (c i)) ended.buffer) ++ drop (c i) ended.buffer)
      ++ last_line clock end o ∷ []))

-- The file of a job's log is complete: behind what it held before, it holds at the end every line of
-- the buffer once and in order, and then the line that says when the job finished, whatever was
-- written to the log and whenever the goroutine ran, and no call and no step of the goroutine after
-- `Done` changes it. The file could be opened, and `Done` does not come between a flush of the
-- goroutine and the move of its cursor, where no lock keeps it out.
pub finish-file :
    (before : List Text) (clock : Clock) (start end : ℕ)
    (order : Map TimeConsuming → Map TimeConsuming) (xs later : List Write)
    → is_flushed (writes clock xs (new clock start (some before))).round ≡ false
    → let o = writes clock xs (new clock start (some before)) in
      let o' = finish order clock end o in
      (writes clock later o').file ≡ closed (before ++ (o'.buffer ++ last_line clock end o ∷ []))
finish-file before clock start end order xs later idle =
    let o = writes clock xs (new clock start (some before)) in
    let buffer = (finish order clock end o).buffer in
    let last = last_line clock end o ∷ [] in
    writes-closed clock later (before ++ (buffer ++ last)) (finish order clock end o) (
      finish-flushed_to before clock start end order xs
      ∙ ap (λ n. closed (((before ++ take n buffer) ++ drop o.file_cursor buffer) ++ last))
          (round_end-cursor o.round o.file_cursor idle)
      ∙ ap (λ l. closed (l ++ last))
          (append_assoc before (take o.file_cursor buffer) (drop o.file_cursor buffer)
            ∙ ap (λ l. before ++ l) (take-append-drop o.file_cursor buffer))
      ∙ ap closed (append_assoc before buffer last))
