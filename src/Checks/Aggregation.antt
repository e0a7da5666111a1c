-- ===== src/Checks/Aggregation.antt =====
-- action/action_check_aggregation.go: the results of all checks of a run in one file. A
-- `json.RawMessage` is its text.
pub mod Collect
pub mod Hook
use aline_engine.Base.{
  Bool, true, false, ◌||◌, Option, none, some, List, [], ◌∷◌, ◌++◌, if◌then◌else◌, ◌≡◌,
}
use aline_engine.Base.Text.{Text, codes}
use aline_engine.Checks.Machine.{
  Machine, Action, pure, raise, ◌>>=◌, from_stack, from_result, CheckContext, write_output,
  ensure_dir, run_number, run_check_dir, check_report,
}
use aline_engine.Checks.Types.{
  ContractCheckResult, ContractCheckResultDetails, StyleGuideDetails, MethodsPropertiesDetails,
  EslintDetails, methods_properties_report, style_guide_report, security_analysis_report,
  front_end_report, eth_gas_report, formal_report,
}
use aline_engine.Checks.Walk.{get_same_file_name_files}
use aline_engine.Model.ActionResult.{ActionResult}
use aline_engine.Storage.Os.{Fallible, ok, failed}
use aline_engine.Utils.Paths.{FilePath, join, render}
use aline_engine.Utils.Texts.{has_text, path_of, replace_all, index_of}

-- What the hook uses of package json.
pub record ResultJson : Type 0 where
  pub unmarshal_methods : Text → Fallible (ContractCheckResult (List MethodsPropertiesDetails))
  pub unmarshal_style : Text → Fallible (ContractCheckResult (List StyleGuideDetails))
  pub unmarshal_eslint : Text → Fallible (ContractCheckResult (List EslintDetails))
  pub unmarshal_raw : Text → Fallible (ContractCheckResult Text)
  pub marshal_methods : List MethodsPropertiesDetails → Fallible Text
  pub marshal_style : List StyleGuideDetails → Fallible Text
  pub marshal_eslint : List EslintDetails → Fallible Text
  pub marshal_results : List (ContractCheckResult Text) → Fallible Text

module _ {T : Type 0} (marshal : T → Fallible Text) where
  abbrev pub add_raw :
      ContractCheckResultDetails T
      → Fallible Text
      → List (ContractCheckResultDetails Text)
      → List (ContractCheckResultDetails Text)
  add_raw d (failed e) rest = rest
  add_raw d (ok t) rest =
      record { name = d.name; issue = d.issue; gas_limit = []; message = t } ∷ rest

  -- Details that cannot be printed are left out.
  unfoldable pub raw_details :
      List (ContractCheckResultDetails T) → List (ContractCheckResultDetails Text)
  raw_details [] = []
  raw_details (d ∷ ds) = add_raw d (marshal d.message) (raw_details ds)

  unfoldable pub raw_result : Fallible (ContractCheckResult T) → Fallible (ContractCheckResult Text)
  unfolding raw_details
  raw_result (failed e) = failed e
  raw_result (ok x) = ok (record {
    name = x.name;
    result = x.result;
    tool = x.tool;
    solc_version = [];
    details = raw_details x.details;
    total = x.total;
  })

abbrev pub without_escape : Fallible Text → Fallible Text
without_escape (ok t) = ok (replace_all t (codes "\\u001b") [])
without_escape (failed e) = failed e

-- One of the tests of the loop: a text that names the report but cannot be read ends the round.
abbrev pub add_named :
    Bool
    → Fallible (ContractCheckResult Text)
    → (List (ContractCheckResult Text) → List (ContractCheckResult Text))
    → List (ContractCheckResult Text)
    → List (ContractCheckResult Text)
add_named false r next l = next l
add_named true (failed e) next l = l
add_named true (ok x) next l = next (l ++ (x ∷ []))

module _ (json : ResultJson) where
  -- A round of the loop over the files.
  unfoldable pub add_report :
      Text → List (ContractCheckResult Text) → List (ContractCheckResult Text)
  unfolding raw_result index_of
  add_report text =
      add_named (has_text text methods_properties_report)
        (raw_result (λ (t : List MethodsPropertiesDetails). without_escape (json.marshal_methods t))
          (json.unmarshal_methods text))
        (add_named (has_text text style_guide_report)
          (raw_result json.marshal_style (json.unmarshal_style text))
          (add_named (has_text text security_analysis_report || has_text text formal_report)
            (raw_result json.marshal_style (json.unmarshal_style text))
            (add_named (has_text text front_end_report)
              (raw_result json.marshal_eslint (json.unmarshal_eslint text))
              (add_named (has_text text eth_gas_report) (json.unmarshal_raw text)
                (λ (l : List (ContractCheckResult Text)). l)))))

module _ (m : Machine) (json : ResultJson) where
  -- The loop over the files.
  unfoldable pub read_reports :
      List Text → List (ContractCheckResult Text) → Action m (List (ContractCheckResult Text))
  unfolding add_report
  read_reports [] l r = some (ok l, r)
  read_reports (path ∷ paths) l r = elim (m.os.read_file (path_of path) r.files) [
    | failed e ↦ some (failed (codes "file open fail"), r)
    | ok text ↦ read_reports paths (add_report json text l) r
  ]

  abbrev pub result_files : FilePath → Action m (List Text)
  result_files dir r =
      pure
        (get_same_file_name_files (render dir) (codes "total_result.txt") (m.tree dir r.files) []) r

  abbrev pub aggregation_path : Text → Text → FilePath
  aggregation_path name id =
      join (run_check_dir m name id) (codes "check_aggregation_result.txt" ∷ [])

  unfoldable pub aggregation_hook : CheckContext → Action m ActionResult
  unfolding read_reports ensure_dir write_output run_number run_check_dir render
  aggregation_hook ctx = do
    name ← from_stack ctx.name (codes "get job name error")
    id ← from_stack ctx.id (codes "get job id error")
    paths ← result_files (run_check_dir m name id)
    made ← ensure_dir (run_check_dir m name id)
    results ← read_reports paths []
    created ← write_output (aggregation_path name id) []
    text ← from_result (json.marshal_results results)
    written ← write_output (aggregation_path name id) text
    number ← run_number id
    pure (check_report number (render (aggregation_path name id)))
