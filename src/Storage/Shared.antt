-- ===== src/Storage/Shared.antt =====
-- job/job.go: the artifacts and the check reports of a run, which a worker reads and sends with their
-- paths below the folder of the jobs, and which the master writes there.
use aline_engine.Base.{◌+◌, Option, none, some, List, [], ◌∷◌, length, drop, if◌then◌else◌}
use aline_engine.Base.Text.{Text, codes, has_prefix}
use aline_engine.Model.Message.{File}
use aline_engine.Storage.Files.{list_files_abs, get_file_data, save_file, get_jobs_dir, jobs_name}
use aline_engine.Storage.Os.{Os, Fallible, ok, failed}
use aline_engine.Utils.Paths.{FilePath, join, render}

module _ (config : FilePath) where
  unfoldable pub get_job_artifactory_dir : Text → Text → FilePath
  get_job_artifactory_dir name id = join config (jobs_name ∷ name ∷ codes "/artifactory" ∷ id ∷ [])

  unfoldable pub get_job_check_dir : Text → Text → FilePath
  get_job_check_dir name id = join config (jobs_name ∷ name ∷ codes "/check" ∷ id ∷ [])

  -- `getRelativeJobsPath`; where the path is no longer than the folder's the source panics, and this
  -- is empty.
  unfoldable pub get_relative_jobs_path : Text → Text
  get_relative_jobs_path path =
      let jobs_dir = render (get_jobs_dir config) in
      if has_prefix path jobs_dir then drop (length jobs_dir + 1) path else path

module _ (os : Os) (config : FilePath) where
  unfoldable pub get_job_artifactory_files : Text → Text → os.Files → List FilePath × Option Text
  get_job_artifactory_files name id s = list_files_abs os (get_job_artifactory_dir config name id) s

  unfoldable pub get_job_check_files : Text → Text → os.Files → List FilePath × Option Text
  get_job_check_files name id s = list_files_abs os (get_job_check_dir config name id) s

  abbrev pub add_file : FilePath → Fallible Text → Fallible (List File) → Fallible (List File)
  add_file p (failed e) rest = failed e
  add_file p (ok t) (failed e) = failed e
  add_file p (ok t) (ok files) =
      ok (record { path = get_relative_jobs_path config (render p); content = t } ∷ files)

  -- The loop that reads the files; the first that cannot be read ends it.
  pub files_data : List FilePath → os.Files → Fallible (List File)
  files_data [] s = ok []
  files_data (p ∷ ps) s = add_file p (get_file_data os p s) (files_data ps s)

  abbrev pub listed_data : List FilePath × Option Text → os.Files → Fallible (List File)
  listed_data (files, some e) s = failed e
  listed_data (files, none) s = files_data files s

  unfoldable pub get_job_artifactory_files_data : Text → Text → os.Files → Fallible (List File)
  unfolding files_data
  get_job_artifactory_files_data name id s = listed_data (get_job_artifactory_files name id s) s

  unfoldable pub get_job_check_files_data : Text → Text → os.Files → Fallible (List File)
  unfolding files_data
  get_job_check_files_data name id s = listed_data (get_job_check_files name id s) s

  unfoldable pub write_file_to_jobs_dir : Text → Text → os.Files → Option Text × os.Files
  write_file_to_jobs_dir name content s =
      save_file os (join (get_jobs_dir config) (name ∷ [])) content s

  -- `masterEngine.saveFile`
  unfoldable pub save_received_file : File → os.Files → Option Text × os.Files
  save_received_file f s = save_file os (join (get_jobs_dir config) (f.path ∷ [])) f.content s
