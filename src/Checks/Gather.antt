-- ===== src/Checks/Gather.antt =====
-- What the methods `Post` of the checks share: the loop over the files that the hook wrote, and the
-- result that is saved beside them.
pub mod Counts
use aline_engine.Base.{
  ℕ, ◌+◌, ◌≡◌, refl, ◌↔◌, Bool, true, false, Option, none, some, List, [], ◌∷◌, ◌++◌, arith, length,
  if◌then◌else◌, All,
}
use aline_engine.Base.Text.{Text, codes}
use aline_engine.Checks.Lines.{lines_of}
use aline_engine.Checks.Machine.{
  Machine, Run, Action, pure, raise, ◌>>=◌, from_result, write_output,
}
use aline_engine.Checks.Types.{
  ContractCheckResult, ContractCheckResultDetails, new_contract_check_result,
  new_contract_check_result_details, check_success, check_fail,
}
use aline_engine.Storage.Os.{Fallible, ok, failed}
use aline_engine.Utils.Paths.{FilePath, join}

-- The variables of the loop: the details, the sum of the issues, and whether nothing was found.
pub record Gathered (D : Type 0) : Type 0 where
  pub details : List (ContractCheckResultDetails (List D))
  pub total : ℕ
  pub success : Bool

abbrev pub result_path : FilePath → FilePath
result_path dir = join dir (codes "total_result.txt" ∷ [])

abbrev pub verdict : Bool → Text
verdict success = if success then check_success else check_fail

pub verdict_success : (b : Bool) → (verdict b ≡ check_success) ↔ (b ≡ true)
verdict_success true = ground arith
verdict_success false = ground arith

module _ {D : Type 0} where
  abbrev pub nothing : Gathered D
  nothing = record { details = []; total = 0; success = true }

  -- The end of a round: the findings of one file.
  unfoldable pub add_details : Text → List D → Bool → Gathered D → Gathered D
  add_details name findings success g = record {
    details = g.details ++ (new_contract_check_result_details name (length findings) findings ∷ []);
    total = g.total + length findings;
    success = success;
  }

  unfoldable pub gathered_result : Text → Text → Gathered D → ContractCheckResult (List D)
  gathered_result name tool g =
      new_contract_check_result name (verdict g.success) tool g.details g.total

  -- The rounds over files with the given contents; `none` is a panic.
  unfoldable pub fold_files :
      (Text → List Text → Gathered D → Option (Gathered D))
      → List (Text × Text)
      → Gathered D
      → Option (Gathered D)
  unfolding lines_of
  fold_files add [] g = some g
  fold_files add ((name, text) ∷ fs) g = elim (add name (lines_of text) g) [
    | none ↦ none
    | some g' ↦ fold_files add fs g'
  ]

module _ {m : Machine} where
  -- `os.Open`, `Stat` and `Readdir`
  unfoldable pub opened_names : FilePath → Action m (List Text)
  opened_names dir r = elim (m.is_dir dir r.files) [
    | failed e ↦ some (failed e, r)
    | ok false ↦ some (failed (codes "check result path is err"), r)
    | ok true ↦ some (m.os.read_dir dir r.files, r)
  ]

module _ {m : Machine} {D : Type 0} where
  -- The loop over the files; an opened file is taken to be readable to its end.
  unfoldable pub gather_files :
      (Text → List Text → Gathered D → Option (Gathered D))
      → FilePath
      → List Text
      → Gathered D
      → Action m (Gathered D)
  unfolding lines_of
  gather_files add dir [] g r = some (ok g, r)
  gather_files add dir (name ∷ names) g r = elim (m.os.read_file (join dir (name ∷ [])) r.files) [
    | failed e ↦ some (failed (codes "file open fail"), r)
    | ok text ↦ elim (add name (lines_of text) g) [
      | none ↦ none
      | some g' ↦ gather_files add dir names g' r
    ]
  ]

module _ {m : Machine} {T : Type 0} where
  -- The file is created before the result is printed.
  unfoldable pub save_result :
      (ContractCheckResult T → Fallible Text)
      → FilePath
      → ContractCheckResult T
      → Action m (Unit {0})
  unfolding write_output
  save_result marshal dir result = do
    created ← write_output (result_path dir) []
    text ← from_result (marshal result)
    write_output (result_path dir) text
