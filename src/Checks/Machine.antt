-- ===== src/Checks/Machine.antt =====
-- What the hooks of the checks share: the host they run on, and steps that can fail, of which the
-- files that are written and the lines of the log stay.
use aline_engine.Base.{Bool, Option, none, some, List, [], ◌∷◌, ◌++◌}
use aline_engine.Base.Int.{ℤ}
use aline_engine.Base.Text.{Text, codes}
use aline_engine.Checks.Walk.{Entries}
use aline_engine.Model.ActionResult.{ActionResult, no_results}
use aline_engine.Output.Parse.{join_with}
use aline_engine.Storage.Os.{Os, Fallible, ok, failed, found, not_exist, stat_failed}
use aline_engine.Utils.Decimal.{atoi}
use aline_engine.Utils.Paths.{FilePath, join}

-- What `CombinedOutput` returns.
pub record Executed : Type 0 where
  pub out : Text
  pub error : Option Text

-- The host. `home` is `os.UserHomeDir` and `here` the current directory; `tree` is what is found below
-- a folder; `is_dir` is `os.Open` and the `IsDir` of what it opens. `stat_error` and `atoi_error` are
-- the texts of errors of `os.Stat` and `strconv.Atoi`.
pub record Machine : Type 1 where
  pub os : Os
  pub home : Fallible FilePath
  pub here : FilePath
  pub tree : FilePath → os.Files → Entries
  pub is_dir : FilePath → os.Files → Fallible Bool
  pub run_command : List Text → FilePath → os.Files → Executed × os.Files
  pub stat_error : FilePath → os.Files → Text
  pub atoi_error : Text → Text

-- The state of a run of a hook: the files, and the lines written to the log of the step.
pub record Run (m : Machine) : Type 0 where
  pub files : m.os.Files
  pub written : List Text

-- The values of the stack of the context; `none` is a value that is missing or no string.
pub record CheckContext : Type 0 where
  pub workdir : Option Text
  pub name : Option Text
  pub id : Option Text

-- A part of a hook: `none` is a panic.
abbrev pub Action : Machine → Type 0 → Type 0
Action m A = Run m → Option (Fallible A × Run m)

abbrev error_lines : Option Text → List Text
error_lines none = []
error_lines (some e) = e ∷ []

module _ {m : Machine} where
  abbrev pub pure : {A : Type 0} → A → Action m A
  pure a r = some (ok a, r)

  abbrev pub raise : {A : Type 0} → Text → Action m A
  raise e r = some (failed e, r)

  abbrev pub next :
      {A B : Type 0} → Option (Fallible A × Run m) → (A → Action m B) → Option (Fallible B × Run m)
  next none f = none
  next (some (failed e, r)) f = some (failed e, r)
  next (some (ok a, r)) f = f a r

  infixl 5 ◌>>=◌
  abbrev pub ◌>>=◌ : {A B : Type 0} → Action m A → (A → Action m B) → Action m B
  ◌>>=◌ x f r = next (x r) f

  abbrev pub from_result : {A : Type 0} → Fallible A → Action m A
  from_result (ok a) = pure a
  from_result (failed e) = raise e

  -- A value that can be a panic.
  abbrev pub unless_panic : {A : Type 0} → Option A → Action m A
  unless_panic none r = none
  unless_panic (some a) r = some (ok a, r)

  -- A value of the stack, or the error that stands behind the test of its type.
  abbrev pub from_stack : Option Text → Text → Action m Text
  from_stack none e = raise e
  from_stack (some t) e = pure t

  abbrev pub done_with : Option Text × m.os.Files → List Text → Option (Fallible (Unit {0}) × Run m)
  done_with (none, s) written = some (ok tt, record { files = s; written = written })
  done_with (some e, s) written = some (failed e, record { files = s; written = written })

  -- A change of the files.
  abbrev pub change : (m.os.Files → Option Text × m.os.Files) → Action m (Unit {0})
  change f r = done_with (f r.files) r.written

  -- `os.Create` and `WriteString`
  unfoldable pub write_output : FilePath → Text → Action m (Unit {0})
  write_output dest out = change (m.os.write_file dest out)

  unfoldable pub ensure_dir : FilePath → Action m (Unit {0})
  ensure_dir dest r = elim (m.os.stat dest r.files) [
    | not_exist ↦ change (m.os.mkdir_all dest) r
    | found ↦ some (ok tt, r)
    | stat_failed ↦ some (ok tt, r)
  ]

  abbrev executed :
      List Text → List Text → Executed × m.os.Files → Option (Fallible Executed × Run m)
  executed commands written (x, s) = some (
    ok x,
    record {
      files = s;
      written =
          written
          ++ ((codes "> " ++ join_with (codes " ") commands)
              ∷ (codes "> " ++ x.out)
              ∷ error_lines x.error);
    },
  )

  -- `ExecuteCommand`, which every action has for itself. What a command prints is there with its error.
  unfoldable pub execute_command : List Text → FilePath → Action m Executed
  unfolding join_with
  execute_command commands workdir r =
      executed commands r.written (m.run_command commands workdir r.files)

  -- The loop over the files that are checked.
  unfoldable pub for_each : (Text → Action m (Unit {0})) → List Text → Action m (Unit {0})
  for_each f [] r = some (ok tt, r)
  for_each f (path ∷ paths) r = next (f path r) (λ _. for_each f paths)

  -- `strconv.Atoi` of the number of the run.
  unfoldable pub run_number : Text → Action m ℤ
  unfolding atoi
  run_number id r = elim (atoi id) [
    | none ↦ some (failed (m.atoi_error id), r)
    | some i ↦ some (ok i, r)
  ]

-- `os.UserHomeDir`, or the current directory.
abbrev pub home_dir : Machine → FilePath
home_dir m = elim m.home [ ok p ↦ p | failed e ↦ m.here ]

-- The folder of the checks of a run.
unfoldable pub run_check_dir : Machine → Text → Text → FilePath
unfolding join
run_check_dir m name id =
    join (home_dir m) (codes "pipelines/jobs" ∷ name ∷ codes "/check" ∷ id ∷ [])

unfoldable pub check_dir : Machine → Text → Text → Text → FilePath
unfolding join
check_dir m name id tool =
    join (home_dir m) (codes "pipelines/jobs" ∷ name ∷ codes "/check" ∷ id ∷ tool ∷ [])

-- The result with one report, of type 2.
abbrev pub check_report : ℤ → Text → ActionResult
check_report id url = record no_results {
  reports = record { id = id; url = url; type = ℤ.pos 2; content = [] } ∷ [];
}
