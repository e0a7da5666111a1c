-- ===== src/Output/Readers.antt =====
-- What a reader of a running job's log sees.
use aline_engine.Base.{
  take-append-drop, ℕ, zero, suc, ◌≤◌, ◌≡◌, refl, ap, sym, ◌∙◌, Bool, true, false, List, [], ◌∷◌,
  ◌++◌, arith, length, length-append, take, drop, leb, if◌then◌else◌, Bool-cases, inl, inr, Option,
  none, some,
}
use mathlib.Core.List.{append_assoc, append-nil}
use aline_engine.Base.Text.{Text}
use aline_engine.Output.{
  LogFile, no_file, opened, closed, Clock, Output, write_command_line, join, content, new_content,
  new_step, flush, timed_write, write_new, new, write_line_with_no_time, WriterRound, waiting,
  tested, stopped, flushed, round_step,
}
use aline_engine.Output.Writes.{
  Write, lines, commands, stages, steps, reads, timer, write, writes, Extends, write_line-Extends,
  write_line_with_no_time-Extends, new_stage-Extends, take-append_le,
}

-- What one of the calls returns, and the calls of a list one after the other.
abbrev pub shown : Write → Output → Text
shown (lines now line) o = []
shown (commands now line) o = []
shown (stages order now name) o = []
shown (steps name) o = []
shown reads o = (new_content o).0
shown timer o = []

pub reads_of : Clock → List Write → Output → Text
reads_of clock [] o = []
reads_of clock (x ∷ xs) o = shown x o ++ reads_of clock xs (write clock x o)

-- The text in front of the reader's cursor.
abbrev seen : Output → Text
seen o = join (take o.buffer_cursor o.buffer)

join-append : (xs ys : List Text) → join (xs ++ ys) ≡ join xs ++ join ys
unfolding join
join-append [] ys = refl
join-append (x ∷ xs) ys =
    ap (λ t. x ++ t) (join-append xs ys) ∙ sym (append_assoc x (join xs) (join ys))

take-all {ℓ} : {A : Type ℓ} (n : ℕ) (xs : List A) → length xs ≤ n → take n xs ≡ xs
take-all zero [] h = refl
take-all zero (x ∷ xs) h = absurd (omega arith)
take-all (suc n) [] h = refl
take-all (suc n) (x ∷ xs) h = ap (◌∷◌ x) (take-all n xs (omega arith))

le_of_leb : (a b : ℕ) → leb a b ≡ true → a ≤ b
le_of_leb a b h = ground arith

-- A read shows what was not seen, and moves the cursor to the end.
new_content_lem :
    (o : Output)
    → o.buffer_cursor ≤ length o.buffer
    → (seen o ++ (new_content o).0 ≡ join o.buffer)
      × (seen (new_content o).1 ≡ join o.buffer)
      × ((new_content o).1.buffer_cursor ≤ length (new_content o).1.buffer)
unfolding new_content
new_content_lem o h = elim (Bool-cases (leb (length o.buffer) o.buffer_cursor)) [
  | inl e ↦
      let all : seen o ≡ join o.buffer =
        ap join (take-all o.buffer_cursor o.buffer (le_of_leb _ _ e)) in
      rw e (append-nil (seen o) ∙ all, all, h)
  | inr e ↦ rw e (
    sym (join-append (take o.buffer_cursor o.buffer) (drop o.buffer_cursor o.buffer))
        ∙ ap join (take-append-drop o.buffer_cursor o.buffer),
    ap join (take-all (length o.buffer) o.buffer (omega arith)),
    omega arith,
  )
]

-- The calls other than a read leave what was seen as it is.
abbrev Keeps : Output → Output → Type 0
Keeps o o' = (seen o' ≡ seen o) × (o'.buffer_cursor ≤ length o'.buffer)

extended-Keeps : (o o' : Output) → o.buffer_cursor ≤ length o.buffer → Extends o o' → Keeps o o'
extended-Keeps o o' h (more, f, c, b, r, g) = (
  ap join ((λ i. take (r i) (b i)) ∙ take-append_le o.buffer_cursor o.buffer more h),
  omega (arith, ap length b, length-append o.buffer more),
)

flush-Keeps :
    (added : List Text) (file : LogFile) (o : Output)
    → o.file ≡ file
    → o.buffer_cursor ≤ length o.buffer
    → Keeps o (flush added o)
unfolding flush
flush-Keeps added no_file o e h = rw (e, flush) (refl, h)
flush-Keeps added (opened written) o e h = rw (e, flush) (refl, h)
flush-Keeps added (closed written) o e h = rw (e, flush) (refl, h)

write_new-Keeps : (o : Output) → o.buffer_cursor ≤ length o.buffer → Keeps o (write_new o)
unfolding write_new
write_new-Keeps o h = flush-Keeps _ o.file o refl h

either-Keeps : (b : Bool) (o x y : Output) → Keeps o x → Keeps o y → Keeps o (if b then x else y)
either-Keeps true o x y h k = h
either-Keeps false o x y h k = k

round_step-Keeps :
    (x : WriterRound) (o : Output) → o.buffer_cursor ≤ length o.buffer → Keeps o (round_step x o)
unfolding round_step
round_step-Keeps waiting o h = either-Keeps o.time_consuming.done o _ _ (refl, h) (refl, h)
round_step-Keeps tested o h =
    either-Keeps (leb (length o.buffer) o.end_index) o _ (write_new o) (refl, h)
      (write_new-Keeps o h)
round_step-Keeps (flushed end) o h = (refl, h)
round_step-Keeps stopped o h = (refl, h)

timed_write-Keeps : (o : Output) → o.buffer_cursor ≤ length o.buffer → Keeps o (timed_write o)
unfolding timed_write
timed_write-Keeps o h = round_step-Keeps o.round o h

silent :
    (o o' : Output) → Keeps o o' → (seen o' ≡ seen o ++ []) × (o'.buffer_cursor ≤ length o'.buffer)
silent o o' (s, c) = (s ∙ sym (append-nil (seen o)), c)

-- Each call shows what the reader had not seen.
write-seen :
    (clock : Clock) (x : Write) (o : Output)
    → o.buffer_cursor ≤ length o.buffer
    → (seen (write clock x o) ≡ seen o ++ shown x o)
      × ((write clock x o).buffer_cursor ≤ length (write clock x o).buffer)
unfolding write write_command_line new_step
write-seen clock (lines now line) o h =
    silent o (write clock (lines now line) o)
      (extended-Keeps o (write clock (lines now line) o) h (write_line-Extends clock now line o))
write-seen clock (commands now line) o h =
    silent o (write clock (commands now line) o)
      (extended-Keeps o (write clock (commands now line) o) h (write_line-Extends clock now _ o))
write-seen clock (stages order now name) o h = silent o (write clock (stages order now name) o) (
    extended-Keeps o (write clock (stages order now name) o) h
      (new_stage-Extends order clock now name o))
write-seen clock (steps name) o h =
    silent o (write clock (steps name) o)
      (extended-Keeps o (write clock (steps name) o) h (write_line_with_no_time-Extends _ o))
write-seen clock reads o h = let (s, e, c) = new_content_lem o h in (e ∙ sym s, c)
write-seen clock timer o h = silent o (timed_write o) (timed_write-Keeps o h)

reads_of-seen :
    (clock : Clock) (xs : List Write) (o : Output)
    → o.buffer_cursor ≤ length o.buffer
    → seen o ++ (reads_of clock xs o ++ (new_content (writes clock xs o)).0)
      ≡ join (writes clock xs o).buffer
unfolding writes reads_of
reads_of-seen clock [] o h = (new_content_lem o h).0
reads_of-seen clock (x ∷ xs) o h =
    let o' = write clock x o in
    let (s, c) = write-seen clock x o h in
    let rest = (new_content (writes clock xs o')).0 in
    ap (λ t. seen o ++ t) (append_assoc (shown x o) (reads_of clock xs o') rest)
    ∙ sym (append_assoc (seen o) (shown x o) (reads_of clock xs o' ++ rest))
    ∙ ap (λ t. t ++ (reads_of clock xs o' ++ rest)) (sym s)
    ∙ reads_of-seen clock xs o' c

-- A reader that calls only `NewContent` misses nothing and reads nothing twice: what its calls
-- return, one after the other, and one more call at the end, is the whole content of the log. Calls of
-- `WriteLine`, `WriteCommandLine`, `NewStage` and `NewStep` and steps of the goroutine come in any
-- order between, and `Content`, which moves the reader's cursor, and `Done` do not.
pub reads_of-new_content :
    (clock : Clock) (start : ℕ) (opened : Option (List Text)) (xs : List Write)
    → let o = writes clock xs (new clock start opened) in
      reads_of clock xs (new clock start opened) ++ (new_content o).0 ≡ (content o).0
unfolding content new write_line_with_no_time join
reads_of-new_content clock start (some before) xs =
    reads_of-seen clock xs (new clock start (some before)) (omega arith)
reads_of-new_content clock start none xs =
    reads_of-seen clock xs (new clock start none) (omega arith)
