-- ===== src/Checks/Slither/Fresh.antt =====
-- The error of the hook of action/action_slither.go on its first run.
use aline_engine.Base.{◌≡◌, ◌∙◌, ap, refl, Option, some}
use aline_engine.Base.Text.{Text, codes}
use aline_engine.Checks.Machine.{
  Machine, Run, CheckContext, next, ◌>>=◌, from_result, ensure_dir, for_each, check_dir,
}
use aline_engine.Checks.SolHint.{sol_paths}
use aline_engine.Checks.Slither.{Slither, slither_file, stat_result, slither_hook}
use aline_engine.Utils.Paths.{FilePath}
use aline_engine.Storage.Os.{Fallible, ok, failed, not_exist}

abbrev pub stack_of : Text → Text → Text → CheckContext
stack_of workdir name id = record { workdir = some workdir; name = some name; id = some id }

stat_result_fresh :
    (m : Machine) (dir : FilePath) (r : Run m)
    → m.os.stat dir r.files ≡ not_exist
    → stat_result m dir r ≡ failed (m.stat_error dir r.files)
unfolding stat_result
stat_result_fresh m dir r h = rw (stat_result, h) refl

abbrev Returned : Machine → Type 0
Returned m = Option (Fallible (Unit {0}) × Run m)

-- On the first run, whose folder does not exist yet, the hook fails with the error of
-- `os.Stat`, although the folder is made and every command succeeds and its output is written.
-- The context has the folder, the name and the number of the job.
pub slither_hook_fresh :
    (m : Machine) (a : Slither) (workdir name id : Text) (r r1 r' : Run m)
    → m.os.stat (check_dir m name id (codes "slither")) r.files ≡ not_exist
    → ensure_dir (check_dir m name id (codes "slither")) r ≡ some (ok tt, r1)
    → for_each
        (slither_file m a workdir (check_dir m name id (codes "slither")))
        (sol_paths m workdir a.path r)
        r1
      ≡ some (ok tt, r')
    → slither_hook m a (stack_of workdir name id) r
      ≡ some (failed (m.stat_error (check_dir m name id (codes "slither")) r.files), r')
unfolding slither_hook
slither_hook_fresh m a workdir name id r r1 r' fresh made checked =
    let dir = check_dir m name id (codes "slither") in
    let loop = for_each (slither_file m a workdir dir) (sol_paths m workdir a.path r) in
    ap
      (λ (y : Returned m).
        next y (λ u. loop >>= λ (v : Unit {0}). from_result (stat_result m dir r)))
      made
    ∙ (ap (λ (y : Returned m). next y (λ v. from_result (stat_result m dir r))) checked
        ∙ ap (λ (y : Fallible (Unit {0})). from_result y r') (stat_result_fresh m dir r fresh))
