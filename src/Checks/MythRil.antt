-- ===== src/Checks/MythRil.antt =====
-- action/action_mythril.go
pub mod Verdict
use aline_engine.Base.{
  ℕ, ◌+◌, ◌≡◌, Bool, true, false, ◌||◌, Option, none, some, List, [], ◌∷◌, ◌++◌, length, drop, ltb,
  leb, init, if◌then◌else◌,
}
use aline_engine.Base.Map.{Map}
use aline_engine.Base.Text.{Text, codes, has_prefix}
use aline_engine.Checks.Gather.{
  Gathered, nothing, add_details, gathered_result, opened_names, gather_files, save_result,
}
use aline_engine.Checks.Machine.{
  Machine, Action, pure, raise, ◌>>=◌, from_stack, from_result, unless_panic, Executed,
  CheckContext, write_output, ensure_dir, execute_command, for_each, run_number, check_dir,
  check_report,
}
use aline_engine.Checks.SolHint.{sol_files, sol_name}
use aline_engine.Utils.Texts.{has_text, index_of, fields, path_of, filename_only, replace_all}
use aline_engine.Checks.Types.{
  StyleGuideDetails, no_style_guide, ContractCheckResult, security_analysis_report,
}
use aline_engine.Checks.Walk.{Entries, end, file, folder, get_redundant_path}
use aline_engine.MetaScan.Run.{with_of}
use aline_engine.Model.ActionResult.{ActionResult}
use aline_engine.Output.Parse.{join_with}
use aline_engine.Storage.Os.{Fallible}
use aline_engine.Utils.Paths.{FilePath, join, render}
use aline_engine.Utils.Strings.{split}

pub record MythRil : Type 0 where
  pub path : Text
  pub solc_version : Text

unfoldable pub new_mythril : Map Text → MythRil
new_mythril args = record {
  path = with_of args (codes "path");
  solc_version = with_of args (codes "solc-version");
}

-- The folders of `node_modules`.
abbrev pub folder_names : Entries → List Text
folder_names end = []
folder_names (file name es) = folder_names es
folder_names (folder name inner es) = name ∷ folder_names es

-- consts.MythRilSolcJsonReMappings with the name of a module.
abbrev pub remapping : Text → Text
remapping name = codes "\"" ++ name ++ codes "/=node_modules/" ++ name ++ codes "/\""

abbrev pub remappings : List Text → List Text
remappings [] = []
remappings (name ∷ names) = remapping name ∷ remappings names

-- consts.MythRilSolcJson; without modules the list is empty.
pub solc_json : List Text → Text
unfolding join_with
solc_json names =
    codes "{\n  \"remappings\": [" ++ join_with (codes ",") (remappings names) ++ codes "]\n}"

-- The text behind the first ":"; `none` is the panic on a line that ends there.
unfoldable pub note_of : Text → Option Text
unfolding index_of
note_of s =
    if has_text s (codes "Error:") || has_text s (codes "Note:")
    then elim (index_of (codes ":") s) [
      | none ↦ some (drop 1 s)
      | some i ↦ if leb (i + 2) (length s) then some (drop (i + 2) s) else none
    ]
    else some []

-- Line and column of a position; `none` goes on with the next line.
abbrev pub position_in : List Text → Option (Text × Text)
position_in (s0 ∷ line ∷ column ∷ rest) = some (line, column)
position_in _ = none

unfoldable pub position_of : Text → Option (Text × Text)
unfolding index_of split
position_of s = if has_text s (codes "-->") then position_in (split b':' s) else some ([], [])

-- The last finding gets the position.
unfoldable pub place_last : Text → Text → List StyleGuideDetails → List StyleGuideDetails
place_last line column [] = []
place_last line column (d ∷ []) = record d { line = line; column = column } ∷ []
place_last line column (d ∷ e ∷ l) = d ∷ place_last line column (e ∷ l)

abbrev pub mythril_finding : Text → Text → Text → StyleGuideDetails
mythril_finding note line column = record no_style_guide {
  line = line;
  column = column;
  note = note;
  tool = codes "mythril";
}

-- The findings and the flag, after a line with this note and position.
unfoldable pub add_mythril_line :
    Text → Text × Text → List StyleGuideDetails × Bool → List StyleGuideDetails × Bool
unfolding place_last
add_mythril_line [] ([], column) (found, success) = (found, success)
add_mythril_line [] (c ∷ line, column) (d ∷ found, success) =
    (place_last (c ∷ line) column (d ∷ found), false)
add_mythril_line note (line, column) (found, success) =
    (found ++ (mythril_finding note line column ∷ []), false)

abbrev pub is_last_line : Text → Bool
is_last_line s =
    has_text s (codes "The analysis was completed successfully") || has_text s (codes "====")

unfoldable pub read_mythril :
    List Text → List StyleGuideDetails × Bool → Option (List StyleGuideDetails × Bool)
unfolding note_of position_of add_mythril_line
read_mythril [] g = some g
read_mythril (s ∷ lines) g = elim (is_last_line s) [
  | true ↦ some g
  | false ↦ elim (note_of s) [
    | none ↦ none
    | some note ↦ elim (position_of s) [
      | none ↦ read_mythril lines g
      | some position ↦ read_mythril lines (add_mythril_line note position g)
    ]
  ]
]

unfoldable pub add_mythril_file :
    Text → List Text → Gathered StyleGuideDetails → Option (Gathered StyleGuideDetails)
unfolding read_mythril add_details
add_mythril_file name lines g = elim (read_mythril lines ([], g.success)) [
  | none ↦ none
  | some (found, success) ↦ some (add_details (sol_name name) found success g)
]

-- `path.Join` of a path and one below it that does not climb out of it.
pub join_relative : Text → Text → Text
unfolding render has_prefix
join_relative path rest =
    let joined = render (join [] (path ∷ rest ∷ [])) in
    if has_prefix path (codes "/") then joined else drop 1 joined

module _ (m : Machine) where
  unfoldable pub mythril_pre : CheckContext → Action m (Unit {0})
  unfolding write_output solc_json
  mythril_pre ctx = do
    workdir ← from_stack ctx.workdir (codes "workdir is empty")
    λ r.
        let modules = m.tree (join (path_of workdir) (codes "node_modules" ∷ [])) r.files in
        write_output (join (path_of workdir) (codes ".myhril.json" ∷ []))
          (solc_json (folder_names modules)) r

  -- A command that prints something counts as run, even with an error.
  abbrev pub output_unless_silent : FilePath → Executed → Action m (Unit {0})
  output_unless_silent dest x = elim x.out [
    | c ∷ out ↦ write_output dest (c ∷ out)
    | [] ↦ elim x.error [ none ↦ write_output dest [] | some e ↦ raise e ]
  ]

  -- consts.MythRilCheck
  pub mythril_command : MythRil → Text → Text → Text
  unfolding join_relative
  mythril_command a workdir redundant =
      codes "docker run --rm -v "
      ++ workdir
      ++ codes ":/tmp -w /tmp mythril/myth analyze /tmp/"
      ++ join_relative a.path redundant
      ++ codes " --solc-json .myhril.json --execution-timeout 15"
      ++ elim a.solc_version [ [] ↦ [] | c ∷ v ↦ codes " --solv " ++ (c ∷ v) ]

  pub mythril_file : MythRil → Text → FilePath → Text → Action m (Unit {0})
  unfolding execute_command filename_only mythril_command get_redundant_path render
  mythril_file a workdir dir path = do
    relative ←
        unless_panic (get_redundant_path (render (join (path_of workdir) (a.path ∷ []))) path)
    redundant ← from_result relative
    x ← execute_command (fields (mythril_command a workdir redundant)) (path_of workdir)
    output_unless_silent (join dir ((filename_only path ++ codes ".txt") ∷ [])) x

  unfoldable pub mythril_hook : MythRil → CheckContext → Action m (ActionResult × MythRil)
  unfolding ensure_dir for_each mythril_file run_number check_dir render
  mythril_hook a ctx = do
    workdir ← from_stack ctx.workdir (codes "workdir is empty")
    name ← from_stack ctx.name (codes "get job name error")
    id ← from_stack ctx.id (codes "get job id error")
    paths ← sol_files m workdir a.path
    made ← ensure_dir (check_dir m name id (codes "mythril"))
    checked ← for_each (mythril_file a workdir (check_dir m name id (codes "mythril"))) paths
    number ← run_number id
    pure
        (check_report number [], record a { path = render (check_dir m name id (codes "mythril")) })

  unfoldable pub mythril_post :
      (ContractCheckResult (List StyleGuideDetails) → Fallible Text) → MythRil → Action m (Unit {0})
  unfolding opened_names gather_files add_mythril_file save_result gathered_result
  mythril_post marshal a = do
    names ← opened_names (path_of a.path)
    g ← gather_files add_mythril_file (path_of a.path) names nothing
    save_result marshal (path_of a.path)
        (gathered_result security_analysis_report (codes "Mythril") g)
