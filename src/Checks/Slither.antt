-- ===== src/Checks/Slither.antt =====
-- action/action_slither.go
pub mod Fresh
use aline_engine.Base.{◌≡◌, Option, none, some, List, [], ◌∷◌, ◌++◌}
use aline_engine.Base.Map.{Map}
use aline_engine.Base.Text.{Text, codes}
use aline_engine.Checks.Machine.{
  Machine, Run, Action, pure, raise, ◌>>=◌, from_stack, from_result, unless_panic, CheckContext,
  ensure_dir, execute_command, for_each, check_dir,
}
use aline_engine.Checks.SolHint.{output_unless_error, sol_files}
use aline_engine.Utils.Texts.{fields, path_of, filename_only}
use aline_engine.Checks.Walk.{get_redundant_path}
use aline_engine.MetaScan.Run.{with_of}
use aline_engine.Storage.Os.{Fallible, ok, failed, Stat, found, not_exist, stat_failed}
use aline_engine.Utils.Paths.{FilePath, join, render}

pub record Slither : Type 0 where
  pub path : Text

unfoldable pub new_slither : Map Text → Slither
new_slither args = record { path = with_of args (codes "path") }

module _ (m : Machine) where
  -- consts.SlitherCheck
  abbrev pub slither_command : Text → Text → Text
  slither_command base redundant =
      codes "docker run --rm -v "
      ++ base
      ++ codes ":/tmp bingjian/solidity_check:slither_091_1_0816 slither /tmp/"
      ++ redundant

  unfoldable pub slither_file : Slither → Text → FilePath → Text → Action m (Unit {0})
  unfolding execute_command filename_only get_redundant_path render
  slither_file a workdir dir path = do
    relative ←
        unless_panic (get_redundant_path (render (join (path_of workdir) (a.path ∷ []))) path)
    redundant ← from_result relative
    x ←
        execute_command
          (fields (slither_command (render (join (path_of workdir) (a.path ∷ []))) redundant))
          (path_of workdir)
    output_unless_error m (join dir ((filename_only path ++ codes ".txt") ∷ [])) x

  -- The variable `err` behind `os.Stat`, which no later statement assigns to.
  pub stat_result : FilePath → Run m → Fallible (Unit {0})
  stat_result dir r = elim (m.os.stat dir r.files) [
    | found ↦ ok tt
    | not_exist ↦ failed (m.stat_error dir r.files)
    | stat_failed ↦ failed (m.stat_error dir r.files)
  ]

  abbrev pub stat_of_dir : FilePath → Action m (Fallible (Unit {0}))
  stat_of_dir dir r = pure (stat_result dir r) r

  -- The result is `nil`; the error is that of `os.Stat`.
  pub slither_hook : Slither → CheckContext → Action m (Unit {0})
  unfolding ensure_dir for_each slither_file check_dir stat_result
  slither_hook a ctx = do
    workdir ← from_stack ctx.workdir (codes "workdir is empty")
    name ← from_stack ctx.name (codes "get job name error")
    id ← from_stack ctx.id (codes "get job id error")
    paths ← sol_files m workdir a.path
    err ← stat_of_dir (check_dir m name id (codes "slither"))
    made ← ensure_dir (check_dir m name id (codes "slither"))
    checked ← for_each (slither_file a workdir (check_dir m name id (codes "slither"))) paths
    from_result err
