-- ===== src/Checks/Eslint/Totals.antt =====
-- The totals of action/action_eslint.go.
use mathlib.Core.List.{append_assoc, append-nil}
use aline_engine.Base.{
  ℕ, ◌+◌, ◌≡◌, ◌∙◌, ap, length-append, refl, List, [], ◌∷◌, ◌++◌, length, arith, map, if◌then◌else◌,
}
use aline_engine.Checks.Eslint.{
  EslintMessage, EslintResult, EslintFiles, add_messages, details_of_message, details_of_messages,
  add_eslint_result, gather_eslint,
}
use aline_engine.Base.Int.{int_eq, pos}
use aline_engine.Base.Text.{Text, codes}
use aline_engine.Checks.Types.{EslintDetails}
use aline_engine.Utils.Decimal.{itoa}

-- A message as the report shows it.
abbrev pub shown_message : EslintMessage → EslintDetails
shown_message x = record {
  line = itoa x.line;
  column = itoa x.column;
  level = if int_eq x.severity (pos 1) then codes "error" else codes "waring";
  original_text = [];
  note = x.message;
  tool = x.rule_id;
}

-- The file of a result, if it has messages.
abbrev pub file_of : Text → List EslintMessage → EslintFiles
file_of path [] = []
file_of path (y ∷ ys) =
    record {
      name = path;
      issue = length (y ∷ ys);
      gas_limit = [];
      message = map shown_message (y ∷ ys);
    }
    ∷ []

abbrev pub files_with_messages : List EslintResult → EslintFiles
files_with_messages [] = []
files_with_messages (x ∷ xs) = file_of x.file_path x.messages ++ files_with_messages xs

abbrev pub all_messages : List EslintResult → List EslintMessage
all_messages [] = []
all_messages (x ∷ xs) = x.messages ++ all_messages xs

details_of_messages_lem :
    (messages : List EslintMessage) → details_of_messages messages ≡ map shown_message messages
unfolding details_of_messages details_of_message
details_of_messages_lem [] = refl
details_of_messages_lem (y ∷ ys) = ap (◌∷◌ (shown_message y)) (details_of_messages_lem ys)

add_messages_lem :
    (path : Text) (messages : List EslintMessage) (details : EslintFiles) (total : ℕ)
    → add_messages path messages (details, total)
      ≡ (details ++ file_of path messages, total + length messages)
unfolding add_messages
add_messages_lem path [] details total = ground (arith, append-nil details)
add_messages_lem path (y ∷ ys) details total =
    ap
      (λ (l : List EslintDetails). (
        details
            ++ (record { name = path; issue = length (y ∷ ys); gas_limit = []; message = l } ∷ []),
        total + length (y ∷ ys),
      ))
      (details_of_messages_lem (y ∷ ys))

gather_eslint_from :
    (xs : List EslintResult) (details : EslintFiles) (total : ℕ)
    → gather_eslint xs (details, total)
      ≡ (details ++ files_with_messages xs, total + length (all_messages xs))
unfolding gather_eslint add_eslint_result
gather_eslint_from [] details total = ground (arith, append-nil details)
gather_eslint_from (x ∷ xs) details total =
    rw
      (
        add_messages_lem x.file_path x.messages details total,
        gather_eslint_from xs (details ++ file_of x.file_path x.messages)
            (total + length x.messages),
      )
      (ground (
        arith,
        append_assoc details (file_of x.file_path x.messages) (files_with_messages xs),
        length-append x.messages (all_messages xs),
      ))

-- The files with messages are listed in their order, each with its path, the number of its messages
-- and all of them in order, and the total is the number of all messages. A message is shown with
-- its line, column, text and rule; a severity of 1 is shown as an error, and another as "waring".
pub gather_eslint_lem :
    (xs : List EslintResult)
    → gather_eslint xs ([], 0) ≡ (files_with_messages xs, length (all_messages xs))
gather_eslint_lem xs = gather_eslint_from xs [] 0 ∙ ground arith
