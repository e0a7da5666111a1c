-- ===== src/Checks/Lines.antt =====
-- What the loops of the actions read with `bufio.Reader.ReadLine`, whose second result they drop: a
-- line without its end, or a piece of 4096 bytes of a longer one.
use mathlib.Core.List.{append_assoc, append-nil}
use aline_engine.Base.{
  ℕ, ◌+◌, ◌<◌, ◌≡◌, refl, Bool, true, false, Option, none, some, List, [], ◌∷◌, ◌++◌, arith, length,
  length-append, ◌==◌, if◌then◌else◌, last?, init,
}
use aline_engine.Base.Text.{Text}
use aline_engine.Utils.Strings.{count}

abbrev is_return : Option ℕ → Bool
is_return none = false
is_return (some c) = c == 13

-- A line ends in "\n" or in "\r\n".
abbrev pub without_return : Text → Text
without_return line = if is_return (last? line) then init line else line

-- The rest of the text behind the bytes `line`, which are read. A full buffer is a piece; a "\r" at
-- its end stays for the next one.
unfoldable pub read_lines_from : Text → Text → List Text
read_lines_from line [] = elim line [ [] ↦ [] | b ∷ l ↦ (b ∷ l) ∷ [] ]
read_lines_from line (b ∷ s) = elim (b == 10) [
  | true ↦ without_return line ∷ read_lines_from [] s
  | false ↦ elim (length line == 4095) [
    | false ↦ read_lines_from (line ++ (b ∷ [])) s
    | true ↦ elim (b == 13) [
      | true ↦ line ∷ read_lines_from (b ∷ []) s
      | false ↦ (line ++ (b ∷ [])) ∷ read_lines_from [] s
    ]
  ]
]

unfoldable pub lines_of : Text → List Text
unfolding read_lines_from
lines_of text = read_lines_from [] text

-- A line that is read back as it is.
pub record IsLine (line : Text) : Type 0 where
  pub no_newline : count 10 line ≡ 0
  pub no_return : is_return (last? line) ≡ false
  pub short : length line < 4096

-- The lines as a text, each with its end.
abbrev pub written_lines : List Text → Text
written_lines [] = []
written_lines (line ∷ lines) = line ++ (10 ∷ written_lines lines)

abbrev pub AreLines : List Text → Type 0
AreLines [] = Unit {0}
AreLines (line ∷ lines) = IsLine line × AreLines lines

read_lines_from-line :
    (l line rest : Text)
    → count 10 line ≡ 0
    → length l + length line < 4096
    → is_return (last? (l ++ line)) ≡ false
    → read_lines_from l (line ++ (10 ∷ rest)) ≡ (l ++ line) ∷ read_lines_from [] rest
unfolding read_lines_from
read_lines_from-line l [] rest h short e = rw (rw (append-nil l) at e, append-nil l) refl
read_lines_from-line l (b ∷ line) rest h short e =
    let tail = read_lines_from-line (l ++ (b ∷ [])) line rest in
    ground (arith, tail, append_assoc l (b ∷ []) line, length-append l (b ∷ []))

-- Lines that are written are read back.
pub lines_of-written_lines :
    (lines : List Text) → AreLines lines → lines_of (written_lines lines) ≡ lines
unfolding lines_of read_lines_from
lines_of-written_lines [] h = refl
lines_of-written_lines (line ∷ lines) (h, hs) =
    rw
      (
        read_lines_from-line [] line (written_lines lines) h.no_newline (omega (arith, h.short))
            h.no_return,
        lines_of-written_lines lines hs,
      )
      refl
