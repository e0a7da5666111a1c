-- ===== src/Checks/SolProfiler.antt =====
-- action/action_sol_profiler.go
pub mod Silent
use aline_engine.Base.{
  ◌≡◌, Bool, true, false, ◌||◌, not, Option, none, some, List, [], ◌∷◌, ◌++◌, take, if◌then◌else◌,
}
use aline_engine.Base.Map.{Map}
use aline_engine.Base.Text.{Text, codes}
use aline_engine.Checks.Gather.{
  Gathered, nothing, add_details, gathered_result, opened_names, gather_files, save_result,
}
use aline_engine.Checks.Machine.{
  Machine, Action, pure, ◌>>=◌, from_stack, CheckContext, ensure_dir, execute_command, for_each,
  run_number, check_dir, check_report,
}
use aline_engine.Checks.SolHint.{output_unless_error, sol_files, sol_name}
use aline_engine.Utils.Texts.{
  split_on, has_text, trim_space, index_of, fields, path_of, filename_only,
}
use aline_engine.Checks.Types.{
  MethodsPropertiesDetails, no_methods_properties, ContractCheckResult, methods_properties_report,
}
use aline_engine.MetaScan.Run.{with_of}
use aline_engine.Model.ActionResult.{ActionResult}
use aline_engine.Storage.Os.{Fallible}
use aline_engine.Utils.Paths.{FilePath, join, render}

pub record SolProfiler : Type 0 where
  pub path : Text

unfoldable pub new_sol_profiler : Map Text → SolProfiler
new_sol_profiler args = record { path = with_of args (codes "path") }

-- The bytes of "┌─", "├─", "└─" and "│".
abbrev pub top_corner : Text
top_corner = 226 ∷ 148 ∷ 140 ∷ 226 ∷ 148 ∷ 128 ∷ []

abbrev pub side_corner : Text
side_corner = 226 ∷ 148 ∷ 156 ∷ 226 ∷ 148 ∷ 128 ∷ []

abbrev pub bottom_corner : Text
bottom_corner = 226 ∷ 148 ∷ 148 ∷ 226 ∷ 148 ∷ 128 ∷ []

abbrev pub bar : Text
bar = 226 ∷ 148 ∷ 130 ∷ []

-- A line of the border or of the heading, or one without columns.
abbrev pub is_frame : Text → Bool
is_frame s =
    has_text s top_corner
    || (has_text s side_corner
        || (has_text s bottom_corner
            || (has_text s (codes "Contract/Library/Interface") || not (has_text s bar))))

-- The contract and its category.
pub with_contract : Text → MethodsPropertiesDetails
unfolding index_of
with_contract t = elim (index_of (codes "(library)") t) [
  | some i ↦ record no_methods_properties {
    contract = trim_space (take i t);
    category = codes "library";
  }
  | none ↦ record no_methods_properties { contract = t; category = codes "Contract" }
]

-- The other columns. The fourth is assigned to the field of the third, too.
pub with_columns : List Text → MethodsPropertiesDetails → Option MethodsPropertiesDetails
with_columns (s2 ∷ s3 ∷ s4 ∷ s5 ∷ s6 ∷ more) d = some (record d {
  function = trim_space s2;
  visibility = trim_space s4;
  returns = trim_space s5;
  modifiers = trim_space s6;
})
with_columns _ d = none

-- A row is added unless its first column is blank; `none` is the panic on a row of fewer columns.
pub add_named_row :
    Text → List Text → List MethodsPropertiesDetails → Option (List MethodsPropertiesDetails)
unfolding with_contract with_columns
add_named_row [] rest found = some found
add_named_row (c ∷ t) rest found = elim (with_columns rest (with_contract (c ∷ t))) [
  | none ↦ none
  | some d ↦ some (found ++ (d ∷ []))
]

pub add_row : List Text → List MethodsPropertiesDetails → Option (List MethodsPropertiesDetails)
unfolding add_named_row
add_row (s0 ∷ s1 ∷ rest) found = add_named_row (trim_space s1) rest found
add_row _ found = none

-- `strip` is `ReplaceAllString` of the regular expression `\[.{1,2}m`, with nothing.
module _ (strip : Text → Text) where
  pub read_rows : List Text → List MethodsPropertiesDetails → Option (List MethodsPropertiesDetails)
  unfolding add_row
  read_rows [] found = some found
  read_rows (line ∷ lines) found = elim (is_frame (strip line)) [
    | true ↦ read_rows lines found
    | false ↦ elim (add_row (split_on bar (strip line)) found) [
      | none ↦ none
      | some found' ↦ read_rows lines found'
    ]
  ]

  -- The number of issues is always 0.
  pub add_profiler_file :
      Text
      → List Text
      → Gathered MethodsPropertiesDetails
      → Option (Gathered MethodsPropertiesDetails)
  unfolding read_rows
  add_profiler_file name lines g = elim (read_rows lines []) [
    | none ↦ none
    | some found ↦ some (record g {
      details =
          g.details
          ++ (record { name = sol_name name; issue = 0; gas_limit = []; message = found } ∷ []);
      total = g.total;
    })
  ]

  pub sol_profiler_post :
      (m : Machine)
      → (ContractCheckResult (List MethodsPropertiesDetails) → Fallible Text)
      → SolProfiler
      → Action m (Unit {0})
  unfolding opened_names gather_files add_profiler_file save_result gathered_result
  sol_profiler_post m marshal a = do
    names ← opened_names (path_of a.path)
    g ← gather_files add_profiler_file (path_of a.path) names nothing
    save_result marshal (path_of a.path) (
        gathered_result methods_properties_report (codes "sol-profiler")
          (record g { success = true }))

module _ (m : Machine) where
  pub sol_profiler_file : Text → FilePath → Text → Action m (Unit {0})
  unfolding execute_command filename_only
  sol_profiler_file workdir dir path = do
    x ← execute_command (fields (codes "sol-profiler " ++ path)) (path_of workdir)
    output_unless_error m (join dir ((filename_only path ++ codes ".txt") ∷ [])) x

  unfoldable pub sol_profiler_hook :
      SolProfiler → CheckContext → Action m (ActionResult × SolProfiler)
  unfolding ensure_dir for_each sol_profiler_file run_number check_dir render
  sol_profiler_hook a ctx = do
    workdir ← from_stack ctx.workdir (codes "workdir is empty")
    name ← from_stack ctx.name (codes "get job name error")
    id ← from_stack ctx.id (codes "get job id error")
    paths ← sol_files m workdir a.path
    made ← ensure_dir (check_dir m name id (codes "sol_profiler"))
    checked ←
        for_each (sol_profiler_file workdir (check_dir m name id (codes "sol_profiler"))) paths
    number ← run_number id
    pure (
      check_report number [],
      record { path = render (check_dir m name id (codes "sol_profiler")) },
    )
