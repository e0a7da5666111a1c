-- ===== src/Storage/Jobs.antt =====
-- job/job.go: the yaml file of a job. Paths in the texts of errors are left out.
use aline_engine.Base.{Option, some, if◌then◌else◌}
use aline_engine.Base.Map.{Map}
use aline_engine.Base.Text.{Text, codes}
use aline_engine.Model.Job.{Job}
use aline_engine.Storage.Os.{Os, Fallible, ok, failed, Codec}
use aline_engine.Storage.Files.{
  is_file_exist, save_string_to_file, read_string_from_file, delete_file, rename_file, unless_error,
  get_job_file_path,
}
use aline_engine.Utils.Paths.{FilePath}

-- What a function that changes files returns: it panicked, or an error, which may be nil.
pub data Done : Type 0 where
  returns : Option Text → Done
  panics : Done

module _ (os : Os) (codec : Codec) (config : FilePath) where
  unfoldable pub save_job : Text → Text → os.Files → Option Text × os.Files
  save_job name yaml s = save_string_to_file os (get_job_file_path config name) yaml s

  abbrev pub decode : Fallible Text → Fallible Job
  decode (ok t) = codec.unmarshal_job t
  decode (failed e) = failed e

  unfoldable pub get_job_object : Text → os.Files → Fallible Job
  get_job_object name s =
      let p = get_job_file_path config name in
      if is_file_exist os p s
      then decode (os.read_file p s)
      else failed (codes "get job failed, job file not exist")

  -- The job is written under the name that it holds.
  abbrev pub save_marshalled : Text → Fallible Text → os.Files → Done × os.Files
  save_marshalled name (ok t) s = let (e, s') = save_job name t s in (returns e, s')
  save_marshalled name (failed e) s = (returns (some e), s)

  abbrev pub with_params : Map Text → Fallible Job → os.Files → Done × os.Files
  with_params params (ok job) s =
      let job' = record job { parameter = params } in
      save_marshalled job'.name (codec.marshal_job job') s
  with_params params (failed e) s = (returns (some e), s)

  unfoldable pub save_job_params : Text → Map Text → os.Files → Done × os.Files
  save_job_params name params s = with_params params (get_job_object name s) s

  -- The field is set before the error is looked at, so a job that cannot be read is a nil pointer.
  abbrev pub with_user_id : Text → Fallible Job → os.Files → Done × os.Files
  with_user_id user (ok job) s =
      let job' = record job { user_id = user } in
      save_marshalled job'.name (codec.marshal_job job') s
  with_user_id user (failed e) s = (panics, s)

  unfoldable pub save_job_user_id : Text → Text → os.Files → Done × os.Files
  save_job_user_id name user s = with_user_id user (get_job_object name s) s

  unfoldable pub get_job : Text → os.Files → Fallible Text
  get_job name s = read_string_from_file os (get_job_file_path config name) s

  unfoldable pub update_job : Text → Text → Text → os.Files → Option Text × os.Files
  update_job old new yaml s =
      unless_error os
        (rename_file os (get_job_file_path config old) (get_job_file_path config new) s)
        (save_job new yaml)

  unfoldable pub delete_job : Text → os.Files → Option Text × os.Files
  delete_job name s = delete_file os (get_job_file_path config name) s
