-- ===== src/Checks/MoveProver.antt =====
-- action/action_move_prover.go
pub mod Verdict
use aline_engine.Base.{
  ◌≡◌, Bool, true, false, ◌&&◌, not, Option, none, some, List, [], ◌∷◌, ◌++◌, length, drop, ltb,
  if◌then◌else◌,
}
use aline_engine.Base.Map.{Map}
use aline_engine.Base.Text.{Text, codes}
use aline_engine.Checks.Gather.{
  Gathered, nothing, add_details, gathered_result, opened_names, gather_files, save_result,
}
use aline_engine.Checks.Machine.{
  Machine, Action, pure, raise, ◌>>=◌, from_stack, from_result, unless_panic, Executed,
  CheckContext, write_output, ensure_dir, execute_command, for_each, run_number, check_dir,
  check_report,
}
use aline_engine.Checks.SolProfiler.{top_corner}
use aline_engine.Utils.Texts.{
  has_text, split_on, fields, path_of, filename_only, replace_first, replace_all,
}
use aline_engine.Checks.Types.{
  StyleGuideDetails, no_style_guide, ContractCheckResult, formal_report,
}
use aline_engine.Checks.Walk.{get_suffix_files, get_redundant_path}
use aline_engine.MetaScan.Run.{with_of}
use aline_engine.Model.ActionResult.{ActionResult}
use aline_engine.Storage.Os.{Fallible, ok, failed}
use aline_engine.Utils.Aptos.{MoveToml, get_default_named_address}
use aline_engine.Utils.Paths.{FilePath, join, render}
use aline_engine.Utils.Strings.{split}

pub record MoveProver : Type 0 where
  pub path : Text
  pub cache_path : Text

unfoldable pub new_move_prover : Map Text → MoveProver
new_move_prover args = record {
  path = with_of args (codes "path");
  cache_path = with_of args (codes "cachePath");
}

abbrev pub is_error_line : Text → Bool
is_error_line s = ltb 5 (length s) && has_text s (codes "error: ")

abbrev pub error_of : Text → StyleGuideDetails
error_of s = record no_style_guide { tool = codes "Move Prove"; note = drop 6 s }

abbrev pub placed : List Text → StyleGuideDetails → Option StyleGuideDetails
placed (s0 ∷ line ∷ column ∷ more) d = some (record d { line = line; column = column })
placed _ d = none

abbrev pub place_error : List Text → StyleGuideDetails → Option StyleGuideDetails
place_error (s0 ∷ s1 ∷ more) d = placed (split b':' s1) d
place_error _ d = none

-- The line behind an error; `none` is a position that is not whole, which drops the error.
pub with_position : Text → StyleGuideDetails → Option StyleGuideDetails
unfolding split
with_position s d =
    if has_text s top_corner && has_text s (codes ":")
    then place_error (split_on top_corner s) d
    else some d

abbrev pub add_placed : List StyleGuideDetails → Option StyleGuideDetails → List StyleGuideDetails
add_placed found none = found
add_placed found (some d) = found ++ (d ∷ [])

-- An error in the last line is dropped.
pub read_errors : List Text → List StyleGuideDetails → List StyleGuideDetails
unfolding with_position
read_errors [] found = found
read_errors (s ∷ []) found = found
read_errors (s ∷ t ∷ lines) found = elim (is_error_line s) [
  | true ↦ read_errors lines (add_placed found (with_position t (error_of s)))
  | false ↦ read_errors (t ∷ lines) found
]

abbrev pub still_success : List StyleGuideDetails → Bool → Bool
still_success [] success = success
still_success (d ∷ l) success = false

abbrev pub move_name : Text → Text
move_name name = replace_first (codes ".txt") (codes ".move") name

pub add_move_file :
    Text → List Text → Gathered StyleGuideDetails → Option (Gathered StyleGuideDetails)
unfolding read_errors add_details
add_move_file name lines g =
    let found = read_errors lines [] in
    some (add_details (move_name name) found (still_success found g.success) g)

-- `strip` is `ReplaceAllString` of the regular expression `\[.{1,6}m`, with nothing; `decode` is what
-- package toml reads.
module _ (m : Machine) (strip : Text → Text) {Any : Type 0}
    (decode : Text → Fallible (MoveToml Any)) where
  abbrev pub decoded_toml : Fallible Text → Fallible (MoveToml Any)
  decoded_toml (ok t) = decode t
  decoded_toml (failed e) = failed e

  abbrev pub named_address : Text → Action m Text
  named_address workdir r =
      from_result
        (get_default_named_address
          (decoded_toml (m.os.read_file (join (path_of workdir) (codes "Move.toml" ∷ [])) r.files)))
        r

  -- The error of `GetRedundantPath` is dropped, and the path is empty then.
  abbrev pub or_empty_path : Fallible Text → Text
  or_empty_path (ok t) = t
  or_empty_path (failed e) = []

  -- consts.MoveProveCheck
  abbrev pub move_command : MoveProver → Text → Text → Text → Text
  move_command a workdir redundant named =
      codes "docker run --rm "
      ++ elim a.cache_path [ [] ↦ [] | c ∷ p ↦ codes "-v " ++ (c ∷ p) ]
      ++ codes " -v "
      ++ workdir
      ++ codes
          ":/tmp hamstershare/aptoslabs-tools:aptos-node-v1.3.3 aptos move prove --package-dir "
      ++ render (join [] (codes "/tmp" ∷ redundant ∷ []))
      ++ codes " "
      ++ elim named [ [] ↦ [] | c ∷ n ↦ codes " --named-addresses " ++ (c ∷ n) ]

  -- The output without its colours.
  abbrev pub cleaned : Text → Text
  cleaned out = replace_all (strip out) (27 ∷ []) []

  abbrev pub unless_unresolved : FilePath → Text → Action m (Unit {0})
  unless_unresolved dest out =
      if has_text out (codes "Unable to resolve packages for package")
      then raise out
      else write_output dest out

  abbrev pub cleaned_output : FilePath → Executed → Action m (Unit {0})
  cleaned_output dest x = elim x.out [
    | c ∷ out ↦ unless_unresolved dest (cleaned (c ∷ out))
    | [] ↦ elim x.error [ none ↦ unless_unresolved dest (cleaned []) | some e ↦ raise e ]
  ]

  pub move_file : MoveProver → Text → FilePath → Text → Action m (Unit {0})
  unfolding execute_command filename_only get_redundant_path get_default_named_address
  move_file a workdir dir path = do
    redundant ← unless_panic (get_redundant_path workdir path)
    named ← named_address workdir
    x ←
        execute_command (fields (move_command a workdir (or_empty_path redundant) named))
          (path_of workdir)
    cleaned_output (join dir ((filename_only path ++ codes ".txt") ∷ [])) x

  abbrev pub move_files : Text → Text → Action m (List Text)
  move_files workdir path r =
      let base = join (path_of workdir) (path ∷ []) in
      pure (get_suffix_files (render base) (codes ".move") (m.tree base r.files) []) r

  unfoldable pub move_hook : MoveProver → CheckContext → Action m (ActionResult × MoveProver)
  unfolding ensure_dir for_each move_file run_number check_dir get_suffix_files
  move_hook a ctx = do
    workdir ← from_stack ctx.workdir (codes "workdir is empty")
    name ← from_stack ctx.name (codes "get job name error")
    id ← from_stack ctx.id (codes "get job id error")
    paths ← move_files workdir a.path
    made ← ensure_dir (check_dir m name id (codes "move-prover"))
    checked ← for_each (move_file a workdir (check_dir m name id (codes "move-prover"))) paths
    number ← run_number id
    pure (
      check_report number [],
      record a { path = render (check_dir m name id (codes "move-prover")) },
    )

module _ (m : Machine) where
  pub move_post :
      (ContractCheckResult (List StyleGuideDetails) → Fallible Text)
      → MoveProver
      → Action m (Unit {0})
  unfolding opened_names gather_files add_move_file save_result gathered_result
  move_post marshal a = do
    names ← opened_names (path_of a.path)
    g ← gather_files add_move_file (path_of a.path) names nothing
    save_result marshal (path_of a.path) (gathered_result formal_report (codes "Move Prove") g)
