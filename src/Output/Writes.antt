-- ===== src/Output/Writes.antt =====
-- The calls that write to the log of a job, and the steps of its goroutine; what a call adds to the
-- buffer.
use aline_engine.Base.{
  ℕ, zero, suc, ◌≤◌, ◌≡◌, refl, ap, sym, ◌∙◌, List, [], ◌∷◌, ◌++◌, arith, length, take, Bool-cases,
  inl, inr,
}
use mathlib.Core.List.{append_assoc, append-nil}
use aline_engine.Base.Map.{Map}
use aline_engine.Base.Text.{Text}
use aline_engine.Output.{
  Clock, TimeConsuming, Output, write_line, write_line_with_no_time, write_command_line,
  new_content, finish_stages, new_stage, new_step, timed_write, end_line, with_newline,
  finish_stage,
}

-- What writes to the log while a job runs, and the goroutine's rounds.
pub data Write : Type 0 where
  lines commands : ℕ → Text → Write
  stages : (Map TimeConsuming → Map TimeConsuming) → ℕ → Text → Write
  steps : Text → Write
  reads timer : Write

unfoldable pub write : Clock → Write → Output → Output
write clock (lines now line) o = write_line clock now line o
write clock (commands now line) o = write_command_line clock now line o
write clock (stages order now name) o = new_stage order clock now name o
write clock (steps name) o = new_step name o
write clock reads o = (new_content o).1
write clock timer o = timed_write o

unfoldable pub writes : Clock → List Write → Output → Output
writes clock [] o = o
writes clock (x ∷ xs) o = writes clock xs (write clock x o)

pub take-append_le {ℓ} :
    {A : Type ℓ} (n : ℕ) (xs ys : List A) → n ≤ length xs → take n (xs ++ ys) ≡ take n xs
take-append_le zero xs ys h = refl
take-append_le (suc n) [] ys h = absurd (omega arith)
take-append_le (suc n) (x ∷ xs) ys h = ap (◌∷◌ x) (take-append_le n xs ys (omega arith))

-- The second log is the first with more lines in the buffer.
abbrev pub Extends : Output → Output → Type 0
Extends o o' =
    (more : List Text) × (o'.file ≡ o.file)
    × (o'.file_cursor ≡ o.file_cursor)
    × (o'.buffer ≡ o.buffer ++ more)
    × (o'.buffer_cursor ≡ o.buffer_cursor)
    × (o'.round ≡ o.round)

Extends-refl : (o : Output) → Extends o o
Extends-refl o = ([], refl, refl, sym (append-nil o.buffer), refl, refl)

Extends-trans : (o o' o'' : Output) → Extends o o' → Extends o' o'' → Extends o o''
Extends-trans o o' o'' (more, f, c, b, t, r) (more', f', c', b', t', r') = (
  more ++ more',
  f' ∙ f,
  c' ∙ c,
  b' ∙ ap (λ l. l ++ more') b ∙ append_assoc o.buffer more more',
  t' ∙ t,
  r' ∙ r,
)

pub write_line_with_no_time-Extends :
    (line : Text) (o : Output) → Extends o (write_line_with_no_time line o)
unfolding write_line_with_no_time
write_line_with_no_time-Extends line o = (_, refl, refl, refl, refl, refl)

pub write_line-Extends :
    (clock : Clock) (now : ℕ) (line : Text) (o : Output) → Extends o (write_line clock now line o)
unfolding write_line
write_line-Extends clock now line o = (_, refl, refl, refl, refl, refl)

finish_stage-Extends :
    (clock : Clock) (now : ℕ) (name : Text) (t : TimeConsuming) (o : Output)
    → Extends o (finish_stage clock now name t o)
unfolding finish_stage write_line_with_no_time
finish_stage-Extends clock now name t o = elim (Bool-cases t.done) [
  | inl e ↦ rw e (Extends-refl o)
  | inr e ↦ rw e (with_newline (end_line clock now t) ∷ [], refl, refl, refl, refl, refl)
]

pub finish_stages-Extends :
    (clock : Clock) (now : ℕ) (visited : Map TimeConsuming) (o : Output)
    → Extends o (finish_stages clock now visited o)
unfolding finish_stages
finish_stages-Extends clock now [] o = Extends-refl o
finish_stages-Extends clock now ((name, t) ∷ visited) o =
    let next = finish_stage clock now name t o in
    Extends-trans o next (finish_stages clock now visited next)
      (finish_stage-Extends clock now name t o) (finish_stages-Extends clock now visited next)

three_lines-Extends :
    (a b c : Text) (o : Output)
    → Extends o
        (write_line_with_no_time a (write_line_with_no_time b (write_line_with_no_time c o)))
three_lines-Extends a b c o =
    let first = write_line_with_no_time c o in
    let second = write_line_with_no_time b first in
    Extends-trans o first (write_line_with_no_time a second) (write_line_with_no_time-Extends c o) (
      Extends-trans first second (write_line_with_no_time a second)
        (write_line_with_no_time-Extends b first) (write_line_with_no_time-Extends a second))

pub new_stage-Extends :
    (order : Map TimeConsuming → Map TimeConsuming) (clock : Clock) (now : ℕ) (name : Text)
    (o : Output)
    → Extends o (new_stage order clock now name o)
unfolding new_stage
new_stage-Extends order clock now name o =
    let ended = finish_stages clock now (order o.stage_time_consuming) o in
    Extends-trans o ended (new_stage order clock now name o)
      (finish_stages-Extends clock now (order o.stage_time_consuming) o)
      (three_lines-Extends _ _ _ ended)
