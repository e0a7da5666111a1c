-- ===== src/Checks/SolHint/Table.antt =====
-- The findings of solhint as it prints them: a row of a table has its columns between two spaces.
use mathlib.Core.List.{append_assoc, append-nil}
use aline_engine.Base.{
  ◌≡◌, refl, ap, ◌∙◌, Bool, true, false, ◌&&◌, not, Option, some, List, [], ◌∷◌, ◌++◌, arith, ◌==◌,
}
use aline_engine.Base.Text.{Text, codes, has_prefix}
use aline_engine.Checks.SolHint.{finding_of, read_findings}
use aline_engine.Checks.Types.{StyleGuideDetails}
use aline_engine.Output.Parse.{join_with}
use aline_engine.Utils.Strings.{count, split_absent, split-append}
use aline_engine.Utils.Texts.{has_text, split_on, split_from, trim_space, index_of}

abbrev gap : Text
gap = b' ' ∷ b' ' ∷ []

-- No two spaces beside each other, and none at the end.
abbrev pub no_gap : Text → Bool
no_gap [] = true
no_gap (b ∷ []) = not (b == b' ')
no_gap (b ∷ c ∷ s) = not ((b == b' ') && (c == b' ')) && no_gap (c ∷ s)

split-cell :
    (t rest : Text)
    → no_gap t ≡ true
    → split_on gap (t ++ (b' ' ∷ b' ' ∷ rest)) ≡ t ∷ split_on gap rest
unfolding split_from has_prefix
split-cell [] rest h = refl
split-cell (b ∷ []) rest h = ground arith
split-cell (b ∷ c ∷ s) rest h = ground (arith, split-cell (c ∷ s) rest)

split-last_cell : (t : Text) → no_gap t ≡ true → split_on gap t ≡ t ∷ []
unfolding split_from has_prefix
split-last_cell [] h = refl
split-last_cell (b ∷ []) h = ground arith
split-last_cell (b ∷ c ∷ s) h = ground (arith, split-last_cell (c ∷ s))

-- The columns of a finding.
pub record Finding : Type 0 where
  pub line : Text
  pub column : Text
  pub level : Text
  pub note : Text
  pub rule : Text

abbrev pub place_text : Finding → Text
place_text f = f.line ++ (b':' ∷ f.column)

abbrev pub finding_text : Finding → Text
finding_text f =
    b' '
    ∷ b' '
    ∷ (place_text f
        ++ (b' ' ∷ b' ' ∷ (f.level ++ (b' ' ∷ b' ' ∷ (f.note ++ (b' ' ∷ b' ' ∷ f.rule))))))

pub record IsFinding (f : Finding) : Type 0 where
  pub line_whole : count b':' f.line ≡ 0
  pub column_whole : count b':' f.column ≡ 0
  pub place_trimmed : trim_space (place_text f) ≡ place_text f
  pub place_cell : no_gap (place_text f) ≡ true
  pub level_cell : no_gap f.level ≡ true
  pub note_cell : no_gap f.note ≡ true
  pub rule_cell : no_gap f.rule ≡ true

abbrev pub details_of_finding : Finding → StyleGuideDetails
details_of_finding f = record {
  line = f.line;
  column = f.column;
  level = f.level;
  original_text = [];
  note = f.note;
  tool = codes "solhint";
}

split-finding_text :
    (f : Finding)
    → IsFinding f
    → split_on gap (finding_text f) ≡ [] ∷ place_text f ∷ f.level ∷ f.note ∷ f.rule ∷ []
split-finding_text f h =
    let behind_note = f.note ++ (b' ' ∷ b' ' ∷ f.rule) in
    let behind_level = f.level ++ (b' ' ∷ b' ' ∷ behind_note) in
    split-cell [] (place_text f ++ (b' ' ∷ b' ' ∷ behind_level)) refl
    ∙ ap (◌∷◌ []) (
        split-cell (place_text f) behind_level h.place_cell
        ∙ ap (◌∷◌ (place_text f)) (
            split-cell f.level behind_note h.level_cell
            ∙ ap (◌∷◌ f.level) (
                split-cell f.note f.rule h.note_cell
                ∙ ap (◌∷◌ f.note) (split-last_cell f.rule h.rule_cell))))

finding_of-split :
    (f : Finding)
    → IsFinding f
    → finding_of (split_on gap (finding_text f)) ≡ some (details_of_finding f)
unfolding finding_of join_with
finding_of-split f h =
    ap finding_of (split-finding_text f h)
    ∙ rw
        (
          h.place_trimmed,
          split-append b':' f.line f.column h.line_whole,
          split_absent b':' f.column h.column_whole,
        )
        refl

-- A line of what solhint prints: a finding, or another line, which has no gap.
pub data Row : Type 0 where
  finding_row : Finding → Row
  other_row : Text → Row

abbrev pub row_text : Row → Text
row_text (finding_row f) = finding_text f
row_text (other_row t) = t

abbrev pub row_texts : List Row → List Text
row_texts [] = []
row_texts (x ∷ xs) = row_text x ∷ row_texts xs

abbrev pub IsRow : Row → Type 0
IsRow (finding_row f) = IsFinding f
IsRow (other_row t) = has_text t gap ≡ false

abbrev pub AreRows : List Row → Type 0
AreRows [] = Unit {0}
AreRows (x ∷ xs) = IsRow x × AreRows xs

-- The findings among the rows, and whether there are none.
abbrev pub details_in : List Row → List StyleGuideDetails
details_in [] = []
details_in (finding_row f ∷ xs) = details_of_finding f ∷ details_in xs
details_in (other_row t ∷ xs) = details_in xs

abbrev pub is_clean : List Row → Bool
is_clean [] = true
is_clean (finding_row f ∷ xs) = false
is_clean (other_row t ∷ xs) = is_clean xs

has_gap : (f : Finding) → has_text (finding_text f) gap ≡ true
unfolding index_of has_prefix
has_gap f = refl

found_step :
    (s : Text) (lines : List Text) (found : List StyleGuideDetails) (success : Bool)
    (d : StyleGuideDetails)
    → has_text s gap ≡ true
    → finding_of (split_on gap s) ≡ some d
    → read_findings (s ∷ lines) found success ≡ read_findings lines (found ++ (d ∷ [])) false
unfolding read_findings
found_step s lines found success d e1 e2 = rw (read_findings, e1, e2) refl

other_step :
    (s : Text) (lines : List Text) (found : List StyleGuideDetails) (success : Bool)
    → has_text s gap ≡ false
    → read_findings (s ∷ lines) found success ≡ read_findings lines found success
unfolding read_findings
other_step s lines found success e = rw (read_findings, e) refl

appended :
    (d : StyleGuideDetails) (found more : List StyleGuideDetails) (b c : Bool)
    → ◌≡◌ {A = Option (List StyleGuideDetails × Bool)}
        (some ((found ++ (d ∷ [])) ++ more, false && b))
        (some (found ++ (d ∷ more), c && false))
appended d found more b c = ground (arith, append_assoc found (d ∷ []) more)

-- The loop over the lines finds the findings among the rows, and nothing else.
pub read_findings-row_texts :
    (xs : List Row) (found : List StyleGuideDetails) (success : Bool)
    → AreRows xs
    → read_findings (row_texts xs) found success
      ≡ some (found ++ details_in xs, success && is_clean xs)
read_findings-row_texts [] found success h =
    unfold read_findings in ground (arith, append-nil found)
read_findings-row_texts (finding_row f ∷ xs) found success (h, hs) =
    found_step (finding_text f) (row_texts xs) found success (details_of_finding f) (has_gap f)
      (finding_of-split f h)
    ∙ (read_findings-row_texts xs (found ++ (details_of_finding f ∷ [])) false hs
        ∙ appended (details_of_finding f) found (details_in xs) (is_clean xs) success)
read_findings-row_texts (other_row t ∷ xs) found success (h, hs) =
    other_step t (row_texts xs) found success h ∙ read_findings-row_texts xs found success hs
