-- ===== src/Engine/Calls.antt =====
-- The methods of engine.go that only call job/job.go, for a master and for a worker alike.
use aline_engine.Base.{ℕ, Bool, Option, List}
use aline_engine.Base.Int.{ℤ}
use aline_engine.Base.Map.{Map}
use aline_engine.Base.Text.{Text}
use aline_engine.Engine.{Engine}
use aline_engine.Model.Detail.{JobDetail, JobPage, JobDetailPage, JobLog, JobStageLog}
use aline_engine.Model.Job.{Job, Stage}
use aline_engine.Output.Parse.{Times, LogStep}
use aline_engine.Storage.Details.{create_job_detail, get_job_detail, delete_job_detail}
use aline_engine.Storage.Jobs.{
  Done, save_job, save_job_params, save_job_user_id, get_job_object, update_job, delete_job,
}
use aline_engine.Storage.Lists.{job_list, job_detail_list}
use aline_engine.Storage.Logs.{get_job_log, get_job_step_log, get_job_stage_log}
use aline_engine.Storage.Os.{Os, Codec, Fallible}
use aline_engine.Utils.Paths.{FilePath}

-- A call that changes the folder of the jobs.
abbrev pub on_files : {A : Type 0} (os : Os) → (os.Files → A × os.Files) → Engine os → A × Engine os
on_files os call e = let (a, s) = call e.files in (a, record e { files = s })

module _ (os : Os) (codec : Codec) (config : FilePath)
    (sort : (A : Type 0) → (A → A → Bool) → List A → List A) (non_finite : ℤ)
    (scan : Text → List Text) (order : Map (List Text) → Map (List Text)) (times : Times) where
  pub engine_create_job : Text → Text → Engine os → Option Text × Engine os
  engine_create_job name yaml e = on_files os (save_job os codec config name yaml) e

  pub engine_save_job_params : Text → Map Text → Engine os → Done × Engine os
  engine_save_job_params name params e = on_files os (save_job_params os codec config name params) e

  pub engine_save_job_user_id : Text → Text → Engine os → Done × Engine os
  engine_save_job_user_id name user e = on_files os (save_job_user_id os codec config name user) e

  pub engine_delete_job : Text → Engine os → Option Text × Engine os
  engine_delete_job name e = on_files os (delete_job os codec config name) e

  pub engine_update_job : Text → Text → Text → Engine os → Option Text × Engine os
  engine_update_job old new yaml e = on_files os (update_job os codec config old new yaml) e

  pub engine_get_job : Text → Engine os → Fallible Job
  engine_get_job name e = get_job_object os codec config name e.files

  pub engine_get_jobs : ℕ → Text → ℤ → ℤ → Engine os → Option (Fallible JobPage)
  engine_get_jobs now keyword page size e =
      job_list os codec config sort non_finite now keyword page size e.files

  pub engine_get_job_history : ℕ → Text → ℤ → Engine os → Fallible JobDetail
  engine_get_job_history now name id e = get_job_detail os codec config now name id e.files

  pub engine_delete_job_history : Text → ℤ → Engine os → Option Text × Engine os
  engine_delete_job_history name id e = on_files os (delete_job_detail os codec config name id) e

  pub engine_create_job_detail :
      (ℕ → Map Stage → Map Stage)
      → ℕ
      → Text
      → ℤ
      → Engine os
      → Fallible (JobDetail × Option Text) × Engine os
  engine_create_job_detail stage_order now name id e =
      on_files os (create_job_detail os codec config stage_order now name id) e

  pub engine_get_job_historys : Text → ℤ → ℤ → Engine os → Fallible JobDetailPage
  engine_get_job_historys name page size e =
      job_detail_list os codec config sort non_finite name page size e.files

  pub engine_get_job_history_log : Text → ℤ → Engine os → Fallible JobLog
  engine_get_job_history_log name id e =
      get_job_log os codec config scan order times name id e.files

  pub engine_get_job_history_stage_log : ℕ → Text → ℤ → Text → ℤ → Engine os → Fallible JobStageLog
  engine_get_job_history_stage_log now name id stage_name start e =
      get_job_stage_log os codec config scan order times now name id stage_name start e.files

  pub engine_get_job_history_step_log :
      Text → ℤ → Text → Text → Engine os → Fallible (Option LogStep)
  engine_get_job_history_step_log name id stage_name step_name e =
      get_job_step_log os codec config scan order times name id stage_name step_name e.files

  pub get_work_root_path : FilePath
  get_work_root_path = config
