-- ===== src/Checks/SolHint.antt =====
-- action/action_solhint.go
pub mod Verdict
pub mod Table
pub mod Folder
use aline_engine.Base.{
  ◌≡◌, Bool, true, false, Option, none, some, List, [], ◌∷◌, ◌++◌, length, drop, if◌then◌else◌, ◌+◌,
  init,
}
use aline_engine.Base.Map.{Map}
use aline_engine.Base.Text.{Text, codes}
use aline_engine.Checks.Gather.{
  Gathered, nothing, add_details, gathered_result, opened_names, gather_files, save_result,
}
use aline_engine.Checks.Machine.{
  Machine, Run, Action, pure, ◌>>=◌, from_stack, Executed, CheckContext, write_output, ensure_dir,
  execute_command, for_each, run_number, check_dir, check_report, raise,
}
use aline_engine.Utils.Texts.{
  split_on, has_text, trim_space, index_of, replace_first, fields, path_of, filename_only,
}
use aline_engine.Checks.Types.{StyleGuideDetails, ContractCheckResult, style_guide_report}
use aline_engine.Checks.Walk.{get_suffix_files}
use aline_engine.MetaScan.Run.{with_of}
use aline_engine.Model.ActionResult.{ActionResult}
use aline_engine.Output.Parse.{join_with}
use aline_engine.Storage.Os.{Fallible}
use aline_engine.Utils.Paths.{FilePath, join, render}
use aline_engine.Utils.Strings.{split}

pub record SolHint : Type 0 where
  pub path : Text
  pub file_path : List Text
  pub base_path : Text

unfoldable pub new_solhint : Map Text → SolHint
new_solhint args = record { path = with_of args (codes "path"); file_path = []; base_path = [] }

abbrev pub position : List Text → Text → Text → Option StyleGuideDetails
position (line ∷ column ∷ rest) level note = some (record {
  line = line;
  column = column;
  level = level;
  original_text = [];
  note = note;
  tool = codes "solhint";
})
position _ level note = none

-- `none` is the panic on a line of less than four columns, or on one without a position.
pub finding_of : List Text → Option StyleGuideDetails
unfolding split join_with
finding_of (s0 ∷ s1 ∷ s2 ∷ s3 ∷ more) =
    position (split b':' (trim_space s1)) s2 (join_with (codes " ") (init (s3 ∷ more)))
finding_of _ = none

-- The loop over the lines: the findings, and the flag.
pub read_findings :
    List Text → List StyleGuideDetails → Bool → Option (List StyleGuideDetails × Bool)
unfolding finding_of
read_findings [] found success = some (found, success)
read_findings (s ∷ lines) found success = elim (has_text s (codes "  ")) [
  | false ↦ read_findings lines found success
  | true ↦ elim (finding_of (split_on (codes "  ") s)) [
    | none ↦ none
    | some d ↦ read_findings lines (found ++ (d ∷ [])) false
  ]
]

-- The loop over the paths that were checked.
pub find_name : List Text → Text → Text → Text
unfolding index_of
find_name [] base name = name
find_name (s ∷ paths) base name = elim (has_text s name) [
  | false ↦ find_name paths base name
  | true ↦ elim (index_of (base ++ codes "/") s) [
    | none ↦ find_name paths base name
    | some i ↦ drop (i + length (base ++ codes "/")) s
  ]
]

abbrev pub sol_name : Text → Text
sol_name name = replace_first (codes ".txt") (codes ".sol") name

-- A round of the loop over the files.
pub add_solhint_file :
    SolHint → Text → List Text → Gathered StyleGuideDetails → Option (Gathered StyleGuideDetails)
unfolding read_findings find_name add_details replace_first
add_solhint_file a name lines g = elim (read_findings lines [] g.success) [
  | none ↦ none
  | some (found, success) ↦
      some (add_details (find_name a.file_path a.base_path (sol_name name)) found success g)
]

-- consts.SolHintCheckRule
abbrev pub solhint_check_rule : Text
solhint_check_rule =
    codes "{\n"
    ++ codes "  \"extends\": \"solhint:recommended\",\n"
    ++ codes "  \"rules\": {\n"
    ++ codes "    \"code-complexity\": [\"warn\",7],\n"
    ++ codes "    \"function-max-lines\": [\"warn\",50],\n"
    ++ codes "    \"max-states-count\": [\"warn\",15],\n"
    ++ codes "    \"no-empty-blocks\": \"off\",\n"
    ++ codes "    \"no-unused-vars\": \"warn\",\n"
    ++ codes "    \"payable-fallback\": \"warn\",\n"
    ++ codes "    \"reason-string\": [\"warn\",{\"maxLength\":64}],\n"
    ++ codes "    \"constructor-syntax\": \"warn\",\n"
    ++ codes "    \"avoid-call-value\": \"warn\",\n"
    ++ codes "    \"avoid-low-level-calls\": \"warn\",\n"
    ++ codes "    \"avoid-throw\": \"warn\",\n"
    ++ codes "    \"compiler-version\": [\"off\",\"^0.8.13\"],\n"
    ++ codes "    \"avoid-tx-origin\": \"warn\",\n"
    ++ codes "    \"multiple-sends\": \"warn\",\n"
    ++ codes "    \"reentrancy\": \"warn\",\n"
    ++ codes "    \"not-rely-on-block-hash\": \"warn\",\n"
    ++ codes "    \"not-rely-on-time\": \"warn\",\n"
    ++ codes "    \"state-visibility\": \"warn\",\n"
    ++ codes "    \"quotes\": [\"warn\",\"double\"],\n"
    ++ codes "    \"visibility-modifier-order\": \"warn\"\n"
    ++ codes "  }\n"
    ++ codes "}\n"

module _ (m : Machine) where
  unfoldable pub solhint_pre : CheckContext → Action m (Unit {0})
  unfolding write_output
  solhint_pre ctx = do
    workdir ← from_stack ctx.workdir (codes "workdir is empty")
    write_output (join (path_of workdir) (codes ".solhint.json" ∷ [])) solhint_check_rule

  abbrev pub output_unless_error : FilePath → Executed → Action m (Unit {0})
  output_unless_error dest x = elim x.error [ none ↦ write_output dest x.out | some e ↦ raise e ]

  -- A round of the loop of `Hook`.
  pub solhint_file : Text → FilePath → Text → Action m (Unit {0})
  unfolding execute_command filename_only write_output
  solhint_file workdir dir path = do
    x ← execute_command (fields (codes "solhint -f stylish " ++ path)) (path_of workdir)
    output_unless_error (join dir ((filename_only path ++ codes ".txt") ∷ [])) x

  abbrev pub sol_paths : Text → Text → Run m → List Text
  sol_paths workdir path r =
      let base = join (path_of workdir) (path ∷ []) in
      get_suffix_files (render base) (codes ".sol") (m.tree base r.files) []

  abbrev pub sol_files : Text → Text → Action m (List Text)
  sol_files workdir path r = pure (sol_paths workdir path r) r

  -- A hook that fails before its end leaves `path` and `file_path` as they were.
  unfoldable pub solhint_hook : SolHint → CheckContext → Action m (ActionResult × SolHint)
  unfolding get_suffix_files ensure_dir for_each solhint_file run_number check_dir render
  solhint_hook a ctx = do
    workdir ← from_stack ctx.workdir (codes "workdir is empty")
    name ← from_stack ctx.name (codes "get job name error")
    id ← from_stack ctx.id (codes "get job id error")
    paths ← sol_files workdir a.path
    made ← ensure_dir (check_dir m name id (codes "solhint"))
    checked ← for_each (solhint_file workdir (check_dir m name id (codes "solhint"))) paths
    number ← run_number id
    pure (
      check_report number [],
      record {
        path = render (check_dir m name id (codes "solhint"));
        file_path = paths;
        base_path = workdir;
      },
    )

  pub solhint_post :
      (ContractCheckResult (List StyleGuideDetails) → Fallible Text) → SolHint → Action m (Unit {0})
  unfolding opened_names gather_files add_solhint_file save_result gathered_result
  solhint_post marshal a = do
    names ← opened_names (path_of a.path)
    g ← gather_files (add_solhint_file a) (path_of a.path) names nothing
    save_result marshal (path_of a.path) (gathered_result style_guide_report (codes "Solhint") g)
