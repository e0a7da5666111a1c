-- ===== src/Engine.antt =====
-- engine.go `engine`: the methods of the package, over a master or a worker and the folder of jobs.
-- A worker's engine has no master, and a method that used it would panic. The text of an error that
-- a role is given is left out.
pub mod Mirror
pub mod Launch
pub mod Calls
pub mod Start
use aline_engine.Base.{ℕ, Bool, true, false, Option, none, some, List, [], ◌∷◌}
use aline_engine.Base.Int.{ℤ}
use aline_engine.Base.Map.{Map}
use aline_engine.Base.Text.{Text, codes}
use aline_engine.Master.Engine.{
  Master, MasterError, Reply, reply, refused, crashed, dispatch_job, is_valid_worker, Saved,
  saved_log, saved_detail, saved_file,
}
use aline_engine.Model.ActionResult.{ActionResult, CodeInfo}
use aline_engine.Model.Detail.{JobDetail, JobPage, JobDetailPage, JobLog, JobStageLog}
use aline_engine.Model.Job.{Job, Stage}
use aline_engine.Model.Message.{File}
use aline_engine.Model.Status.{Status, status_notrun}
use aline_engine.Storage.Details.{
  create_job_detail, get_job_detail, save_job_log_string, save_string_job_detail,
  get_job_log_string, read_string_job_detail,
}
use aline_engine.Storage.Jobs.{get_job}
use aline_engine.Storage.Os.{Os, Codec, Fallible, ok, failed, value}
use aline_engine.Storage.Shared.{
  save_received_file, get_job_check_files_data, get_job_artifactory_files_data,
}
use aline_engine.Utils.Decimal.{itoa}
use aline_engine.Utils.Paths.{FilePath}
use aline_engine.Worker.{Worker, Files}

pub data Role : Type 0 where
  role_master role_worker : Role

pub record Engine (os : Os) : Type 0 where
  pub role : Role
  pub master : Option Master
  pub worker : Worker
  pub files : os.Files

-- What a method returns: a value, an error of the jobs' files, of the master, of the worker, which
-- does not know a job, or of the role.
pub data Answer (A : Type 0) : Type 0 where
  answer : A → Answer A
  file_error : Text → Answer A
  master_error : MasterError → Answer A
  unknown_job role_error panicked : Answer A

abbrev pub of_reply : {A : Type 0} → Reply A → Answer A
of_reply (reply a) = answer a
of_reply (refused e) = master_error e
of_reply crashed = panicked

-- A call of the master, which may be nil.
abbrev pub with_master :
    {A : Type 0} (os : Os)
    → (Master → Reply A × Master)
    → Option Master
    → Engine os
    → Answer A × Engine os
with_master os call none e = (panicked, e)
with_master os call (some m) e = let (r, m') = call m in (of_reply r, record e { master = some m' })

-- The guard of the methods that only a master has.
abbrev pub only_master :
    {A : Type 0} (os : Os)
    → Role
    → Engine os
    → (Engine os → Answer A × Engine os)
    → Answer A × Engine os
only_master os role_worker e call = (role_error, e)
only_master os role_master e call = call e

abbrev pub or_no_files : Fallible (List File) → List File
or_no_files (ok files) = files
or_no_files (failed e) = []

module _ (os : Os) (codec : Codec) (config : FilePath) where
  -- `jober.GetJob`, which the master reads a job with.
  abbrev pub load : os.Files → Text → Option Text
  load s name = value (get_job os codec config name s)

  -- What a worker reads of its own folder.
  abbrev pub files_of : os.Files → Files
  files_of s = record {
    job_log = λ name id. value (get_job_log_string os codec config name id s);
    job_detail = λ name id. value (read_string_job_detail os codec config name id s);
    check_files = λ name id. or_no_files (get_job_check_files_data os config name (itoa id) s);
    artifactory_files =
        λ name id. or_no_files (get_job_artifactory_files_data os config name (itoa id) s);
  }

  -- What the master saves; the errors are only logged.
  pub write_saved : Saved → os.Files → os.Files
  write_saved (saved_log name id t) s = (save_job_log_string os codec config name id t s).1
  write_saved (saved_detail name id t) s = (save_string_job_detail os codec config name id t s).1
  write_saved (saved_file f) s = (save_received_file os config f s).1

  pub write_all_saved : List Saved → os.Files → os.Files
  unfolding write_saved
  write_all_saved [] s = s
  write_all_saved (x ∷ xs) s = write_all_saved xs (write_saved x s)

  abbrev pub dispatch_on : Text → ℤ → Engine os → Answer (Unit {0}) × Engine os
  dispatch_on name id e = with_master os (dispatch_job (load e.files) name id) e.master e

  -- The run is returned with the error of the dispatch.
  abbrev pub dispatched :
      JobDetail → Answer (Unit {0}) × Engine os → Answer (JobDetail × Answer (Unit {0})) × Engine os
  dispatched d (panicked, e) = (panicked, e)
  dispatched d (r, e) = (answer (d, r), e)

  abbrev pub execute_created :
      Text
      → Fallible (JobDetail × Option Text) × os.Files
      → Engine os
      → Answer (JobDetail × Answer (Unit {0})) × Engine os
  execute_created name (failed x, s) e = (file_error x, record e { files = s })
  execute_created name (ok (d, some x), s) e = (file_error x, record e { files = s })
  execute_created name (ok (d, none), s) e =
      dispatched d (dispatch_on name d.id (record e { files = s }))

  pub execute_job :
      (ℕ → Map Stage → Map Stage)
      → ℕ
      → Text
      → ℤ
      → Engine os
      → Answer (JobDetail × Answer (Unit {0})) × Engine os
  execute_job order now name id e =
      only_master os e.role e
        (λ e. execute_created name (create_job_detail os codec config order now name id e.files) e)

  unfoldable pub execute_job_detail : Text → ℤ → Engine os → Answer (Unit {0}) × Engine os
  execute_job_detail name id e = only_master os e.role e (dispatch_on name id)

  unfoldable pub re_execute_job : Text → ℤ → Engine os → Answer (Unit {0}) × Engine os
  re_execute_job name id e = only_master os e.role e (dispatch_on name id)

  unfoldable pub cancel_job : Text → ℤ → Engine os → Answer (Unit {0}) × Engine os
  cancel_job name id e =
      only_master os e.role e
        (λ e. with_master os (aline_engine.Master.Engine.cancel_job name id) e.master e)

  pub terminal_job : Text → ℤ → Engine os → Answer (Unit {0}) × Engine os
  terminal_job name id e =
      only_master os e.role e
        (λ e. with_master os (aline_engine.Master.Engine.cancel_job name id) e.master e)

  abbrev pub code_info_of : Fallible JobDetail → Answer CodeInfo
  code_info_of (ok d) = answer d.action_result.code_info
  code_info_of (failed x) = file_error x

  unfoldable pub get_code_info : ℕ → Text → ℤ → Engine os → Answer CodeInfo
  get_code_info now name id e = code_info_of (get_job_detail os codec config now name id e.files)

  -- A job that the worker does not know is an error.
  abbrev pub worker_status : Status × Bool → Answer Status
  worker_status (status, true) = answer status
  worker_status (status, false) = unknown_job

  abbrev pub status_by_role :
      (ℕ → Master → Master) → Text → ℤ → Role → Engine os → Answer Status × Engine os
  status_by_role meanwhile name id role_worker e =
      (worker_status (aline_engine.Executor.Jobs.get_job_status name id e.worker.executor), e)
  status_by_role meanwhile name id role_master e =
      with_master os (aline_engine.Master.Engine.get_job_status meanwhile name id) e.master e

  unfoldable pub get_current_job_status :
      (ℕ → Master → Master) → Text → ℤ → Engine os → Answer Status × Engine os
  get_current_job_status meanwhile name id e = status_by_role meanwhile name id e.role e

  abbrev pub valid_by : Text → Role → Option Master → Answer Bool
  valid_by w role_worker m = answer false
  valid_by w role_master none = panicked
  valid_by w role_master (some m) = answer (is_valid_worker w m)

  unfoldable pub is_valid_worker_of : Text → Engine os → Answer Bool
  is_valid_worker_of w e = valid_by w e.role e.master
