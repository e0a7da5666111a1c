-- ===== src/Checks/Eslint.antt =====
-- action/action_eslint.go. The packages json, gjson and the patterns of package path are parameters.
-- The fields of any type, which nothing reads, are left out.
pub mod Totals
use aline_engine.Base.{
  ℕ, suc, ◌+◌, ◌≡◌, Bool, true, false, ◌||◌, Option, none, some, List, [], ◌∷◌, ◌++◌, length, drop,
  if◌then◌else◌,
}
use aline_engine.Base.Int.{ℤ, pos, int_eq}
use aline_engine.Base.Map.{Map}
use aline_engine.Base.Text.{Text, codes, text_eq}
use aline_engine.Checks.Gather.{save_result}
use aline_engine.Checks.Machine.{
  Machine, Action, pure, raise, ◌>>=◌, from_stack, from_result, CheckContext, write_output,
  ensure_dir, execute_command, run_number, check_dir, check_report,
}
use aline_engine.Checks.MythRil.{output_unless_silent}
use aline_engine.Checks.Types.{
  EslintDetails, ContractCheckResult, ContractCheckResultDetails, new_contract_check_result,
  front_end_report, check_success,
}
use aline_engine.MetaScan.Run.{with_of}
use aline_engine.Model.ActionResult.{ActionResult}
use aline_engine.Storage.Os.{Fallible, ok, failed}
use aline_engine.Utils.Decimal.{itoa}
use aline_engine.Utils.Paths.{FilePath, join, render}
use aline_engine.Utils.Texts.{has_text, index_of, fields, path_of}

pub record EslintMessage : Type 0 where
  pub rule_id : Text
  pub severity : ℤ
  pub message : Text
  pub line : ℤ
  pub column : ℤ
  pub message_id : Text

pub record EslintResult : Type 0 where
  pub file_path : Text
  pub messages : List EslintMessage
  pub error_count : ℤ
  pub fatal_error_count : ℤ
  pub warning_count : ℤ
  pub fixable_error_count : ℤ
  pub fixable_warning_count : ℤ

pub record Eslint : Type 0 where
  pub path : Text

unfoldable pub new_eslint : Map Text → Eslint
new_eslint args = record { path = with_of args (codes "path") }

pub details_of_message : EslintMessage → EslintDetails
unfolding itoa
details_of_message x = record {
  line = itoa x.line;
  column = itoa x.column;
  level = if int_eq x.severity (pos 1) then codes "error" else codes "waring";
  original_text = [];
  note = x.message;
  tool = x.rule_id;
}

pub details_of_messages : List EslintMessage → List EslintDetails
unfolding details_of_message
details_of_messages [] = []
details_of_messages (x ∷ xs) = details_of_message x ∷ details_of_messages xs

abbrev pub EslintFiles : Type 0
EslintFiles = List (ContractCheckResultDetails (List EslintDetails))

-- A file without messages is left out.
pub add_messages : Text → List EslintMessage → EslintFiles × ℕ → EslintFiles × ℕ
unfolding details_of_messages
add_messages path [] g = g
add_messages path (y ∷ ys) (details, total) = (
  details
      ++ (record {
        name = path;
        issue = length (y ∷ ys);
        gas_limit = [];
        message = details_of_messages (y ∷ ys);
      }
          ∷ []),
  total + length (y ∷ ys),
)

pub add_eslint_result : EslintResult → EslintFiles × ℕ → EslintFiles × ℕ
unfolding add_messages
add_eslint_result x g = add_messages x.file_path x.messages g

pub gather_eslint : List EslintResult → EslintFiles × ℕ → EslintFiles × ℕ
unfolding add_eslint_result
gather_eslint [] g = g
gather_eslint (x ∷ xs) g = gather_eslint xs (add_eslint_result x g)

abbrev pub eslint_report : EslintFiles × ℕ → ContractCheckResult (List EslintDetails)
eslint_report (details, total) =
    new_contract_check_result front_end_report check_success (codes "ESLint") details total

-- What stands behind the first newline, or all of it.
pub after_line : Text → Text
unfolding index_of
after_line s = elim (index_of (10 ∷ []) s) [ none ↦ s | some i ↦ drop (suc i) s ]

-- `lint` is `scripts.lint` of package.json, if it is there; `is_eslintrc` whether a name matches
-- `.eslintrc.*`.
module _ (m : Machine) (lint : Text → Option Text) (is_eslintrc : Text → Bool) where
  -- The flags of the loop over the names.
  pub find_config : List Text → Bool × Bool → Bool × Bool
  unfolding text_eq
  find_config [] flags = flags
  find_config (name ∷ names) (eslint, has_package) =
      find_config names
        (is_eslintrc name || eslint, text_eq name (codes "package.json") || has_package)

  -- A folder that cannot be read has no names.
  abbrev pub names_in : Text → Action m (List Text)
  names_in workdir r = elim (m.os.read_dir (path_of workdir) r.files) [
    | ok l ↦ pure l r
    | failed e ↦ pure [] r
  ]

  abbrev pub demand : Bool → Text → Action m (Unit {0})
  demand true e = pure tt
  demand false e = raise e

  abbrev pub demand_json : Option Text → Action m (Unit {0})
  demand_json none = raise (codes "lint cli not exist")
  demand_json (some cli) =
      demand (has_text cli (codes "json")) (codes "please add '- f json' in 'lint' cli")

  abbrev pub read_package : Text → Action m Text
  read_package workdir r =
      from_result (m.os.read_file (join (path_of workdir) (codes "package.json" ∷ [])) r.files) r

  unfoldable pub eslint_pre : CheckContext → Action m (Unit {0})
  unfolding find_config index_of
  eslint_pre ctx = do
    workdir ← from_stack ctx.workdir (codes "workdir is empty")
    names ← names_in workdir
    configured ← demand (find_config names (false, false)).0 (codes ".eslintrc.* not exist")
    packaged ← demand (find_config names (false, false)).1 (codes "package.json not exist")
    text ← read_package workdir
    demand_json (lint text)

module _ (m : Machine) where
  -- The first four lines are those of npm.
  unfoldable pub eslint_hook : Eslint → CheckContext → Action m (ActionResult × Eslint)
  unfolding ensure_dir execute_command after_line run_number check_dir render
  eslint_hook a ctx = do
    workdir ← from_stack ctx.workdir (codes "workdir is empty")
    name ← from_stack ctx.name (codes "get job name error")
    id ← from_stack ctx.id (codes "get job id error")
    made ← ensure_dir (check_dir m name id (codes "eslint"))
    x ← execute_command (fields (codes "npm run lint")) (path_of workdir)
    printed ← unless_silent x.out x.error
    written ←
        write_output (join (check_dir m name id (codes "eslint")) (codes "eslint.txt" ∷ []))
          (after_line (after_line (after_line (after_line x.out))))
    number ← run_number id
    pure (check_report number [], record { path = render (check_dir m name id (codes "eslint")) })
    where
      unless_silent : Text → Option Text → Action m (Unit {0})
      unless_silent [] (some e) = raise e
      unless_silent _ _ = pure tt

  abbrev pub parsed_results : Fallible (List EslintResult) → Action m (List EslintResult)
  parsed_results (ok l) = pure l
  parsed_results (failed e) = raise (codes "get check result is fail")

  abbrev pub eslint_text : FilePath → Action m Text
  eslint_text dir r = elim (m.os.read_file (join dir (codes "eslint.txt" ∷ [])) r.files) [
    | ok t ↦ pure t r
    | failed e ↦ raise (codes "check result path is err") r
  ]

  unfoldable pub eslint_post :
      (Text → Fallible (List EslintResult))
      → (ContractCheckResult (List EslintDetails) → Fallible Text)
      → Eslint
      → Action m (Unit {0})
  unfolding gather_eslint save_result
  eslint_post unmarshal marshal a = do
    text ← eslint_text (path_of a.path)
    results ← parsed_results (unmarshal text)
    elim results [
      | [] ↦ pure tt
      | x ∷ xs ↦
          save_result marshal (path_of a.path) (eslint_report (gather_eslint (x ∷ xs) ([], 0)))
    ]
