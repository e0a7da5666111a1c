-- ===== src/Storage/Files.antt =====
-- job/util.go: files, and the paths of jobs, runs and logs. `config` is `utils.DefaultConfigDir`.
use aline_engine.Base.{Bool, true, false, Option, none, some, List, [], ◌∷◌, ◌++◌, if◌then◌else◌}
use aline_engine.Base.Int.{ℤ}
use aline_engine.Base.Text.{Text, codes, text_eq}
use aline_engine.Storage.Os.{
  Os, Fallible, failed, found, not_exist, stat_failed, WalkEntry, directory, file, walk_error,
}
use aline_engine.Utils.Decimal.{itoa}
use aline_engine.Utils.Paths.{FilePath, join, dir, base, render}
use aline_engine.Utils.Strings.{trim_prefix}

-- Equality of paths.
unfoldable pub path_eq : FilePath → FilePath → Bool
path_eq [] [] = true
path_eq (a ∷ p) (b ∷ q) = let rest = path_eq p q in if text_eq a b then rest else false
path_eq _ _ = false

abbrev pub jobs_name : Text
jobs_name = codes "jobs"

module _ (os : Os) where
  unfoldable pub is_file_exist : FilePath → os.Files → Bool
  is_file_exist p s = elim (os.stat p s) [ found ↦ true | not_exist ↦ false | stat_failed ↦ true ]

  unfoldable pub create_dir_if_not_exist : FilePath → os.Files → Option Text × os.Files
  create_dir_if_not_exist p s = if is_file_exist p s then (none, s) else os.mkdir_all p s

  -- An error ends the function; otherwise the rest of it runs.
  abbrev pub unless_error :
      Option Text × os.Files → (os.Files → Option Text × os.Files) → Option Text × os.Files
  unless_error (some e, s) rest = (some e, s)
  unless_error (none, s) rest = rest s

  unfoldable pub save_string_to_file : FilePath → Text → os.Files → Option Text × os.Files
  save_string_to_file p t s = unless_error (create_dir_if_not_exist (dir p) s) (os.write_file p t)

  unfoldable pub read_string_from_file : FilePath → os.Files → Fallible Text
  read_string_from_file p s =
      if is_file_exist p s then os.read_file p s else failed (codes "file not exist")

  unfoldable pub delete_file : FilePath → os.Files → Option Text × os.Files
  delete_file p s = if is_file_exist p s then os.remove p s else (some (codes "file not exist"), s)

  unfoldable pub rename_file : FilePath → FilePath → os.Files → Option Text × os.Files
  rename_file old new s =
      if path_eq old new
      then (none, s)
      else if is_file_exist old s
      then unless_error
          (if path_eq (dir old) (dir new) then (none, s) else os.rename (dir old) (dir new) s)
          (os.rename (join (dir new) (base old ∷ [])) new)
      else (some (codes "file not exist"), s)

  -- The function that `ListFilesAbs` hands to `filepath.Walk`: the files so far and the error.
  abbrev pub collect_files : List WalkEntry → List FilePath → List FilePath × Option Text
  collect_files [] files = (files, none)
  collect_files (directory p ∷ es) files = collect_files es files
  collect_files (file p ∷ es) files = collect_files es (files ++ (p ∷ []))
  collect_files (walk_error e ∷ es) files = (files, some e)

  unfoldable pub list_files_abs : FilePath → os.Files → List FilePath × Option Text
  list_files_abs p s = collect_files (os.walk p s) []

  -- The function of `ListFilesRel`.
  abbrev pub collect_relative : FilePath → List WalkEntry → List Text → List Text × Option Text
  collect_relative d [] files = (files, none)
  collect_relative d (directory p ∷ es) files = collect_relative d es files
  collect_relative d (file p ∷ es) files =
      collect_relative d es (files ++ (trim_prefix (render p) (render d ++ codes "/") ∷ []))
  collect_relative d (walk_error e ∷ es) files = (files, some e)

  unfoldable pub list_files_rel : FilePath → os.Files → List Text × Option Text
  list_files_rel p s = collect_relative p (os.walk p s) []

  -- `SaveFile` and `GetFileData`
  unfoldable pub save_file : FilePath → Text → os.Files → Option Text × os.Files
  save_file p t s = unless_error (create_dir_if_not_exist (dir p) s) (os.write_file p t)

  unfoldable pub get_file_data : FilePath → os.Files → Fallible Text
  get_file_data p s = os.read_file p s

module _ (config : FilePath) where
  unfoldable pub get_job_file_dir : Text → FilePath
  get_job_file_dir name = join config (jobs_name ∷ name ∷ [])

  unfoldable pub get_job_file_name : Text → Text
  get_job_file_name name = name ++ codes ".yml"

  unfoldable pub get_job_file_path : Text → FilePath
  unfolding get_job_file_dir get_job_file_name
  get_job_file_path name =
      if text_eq name []
      then get_job_file_dir []
      else join (get_job_file_dir name) (get_job_file_name name ∷ [])

  unfoldable pub get_job_detail_file_dir : Text → FilePath
  get_job_detail_file_dir name = join config (jobs_name ∷ name ∷ codes "job-details" ∷ [])

  unfoldable pub get_job_detail_file_name : ℤ → Text
  get_job_detail_file_name id = itoa id ++ codes ".yml"

  unfoldable pub get_job_detail_file_path : Text → ℤ → FilePath
  unfolding get_job_detail_file_dir get_job_detail_file_name
  get_job_detail_file_path name id =
      join (get_job_detail_file_dir name) (get_job_detail_file_name id ∷ [])

  unfoldable pub get_job_detail_log_dir : Text → FilePath
  get_job_detail_log_dir name = join config (jobs_name ∷ name ∷ codes "job-details-log" ∷ [])

  unfoldable pub get_job_detail_log_path : Text → ℤ → FilePath
  unfolding get_job_detail_log_dir
  get_job_detail_log_path name id =
      join (get_job_detail_log_dir name) ((itoa id ++ codes ".log") ∷ [])

  unfoldable pub get_jobs_dir : FilePath
  get_jobs_dir = join config (jobs_name ∷ [])
