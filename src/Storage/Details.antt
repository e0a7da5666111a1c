-- ===== src/Storage/Details.antt =====
-- job/job.go: the files of a job's runs and of their logs. The clock is an argument.
use aline_engine.Base.{ℕ, ◌-◌, Bool, true, false, Option, none, some, List, [], ◌∷◌, if◌then◌else◌}
use aline_engine.Base.Int.{ℤ, int_eq}
use aline_engine.Base.Text.{Text, codes}
use aline_engine.Model.ActionResult.{no_results}
use aline_engine.Model.Detail.{JobDetail}
use aline_engine.Model.Job.{Job, Stage, StageDetail}
use aline_engine.Base.Map.{Map}
use aline_engine.Model.StageSort.{
  SortResult, sorted_stages, cannot_resolve, out_of_fuel, stage_sort,
}
use aline_engine.Model.Status.{status_notrun, status_running, status_stop}
use aline_engine.Storage.Files.{
  is_file_exist, create_dir_if_not_exist, save_string_to_file, read_string_from_file, delete_file,
  get_job_detail_file_dir, get_job_detail_file_path, get_job_detail_log_path,
}
use aline_engine.Storage.Jobs.{get_job_object}
use aline_engine.Storage.Os.{Os, Fallible, ok, failed, Codec}
use aline_engine.Utils.Paths.{FilePath}

abbrev pub trigger : Text
trigger = codes "Manual trigger"

-- The loop of `GetJobDetail`: the last stage that is running gets its duration so far.
abbrev is_running : StageDetail → Bool
is_running d = int_eq d.status status_running

abbrev pub any_running : List StageDetail → Bool
any_running [] = false
any_running (d ∷ ds) = let rest = any_running ds in if is_running d then true else rest

unfoldable pub time_last_running : ℕ → List StageDetail → List StageDetail
time_last_running now [] = []
time_last_running now (d ∷ ds) =
    let rest = time_last_running now ds in
    if any_running ds
    then d ∷ rest
    else if is_running d
    then record d { duration = now - d.start_time } ∷ ds
    else d ∷ ds

module _ (os : Os) (codec : Codec) (config : FilePath) where
  -- The error of writing the file is dropped.
  abbrev pub write_detail : Text → ℤ → Fallible Text → os.Files → Option Text × os.Files
  write_detail name id (ok t) s =
      (none, (save_string_to_file os (get_job_detail_file_path config name id) t s).1)
  write_detail name id (failed e) s = (some e, s)

  unfoldable pub save_job_detail : Text → JobDetail → os.Files → Option Text × os.Files
  save_job_detail name d s =
      write_detail name d.id (codec.marshal_detail (record d { trigger_mode = trigger })) s

  unfoldable pub save_string_job_detail : Text → ℤ → Text → os.Files → Option Text × os.Files
  save_string_job_detail name id t s =
      save_string_to_file os (get_job_detail_file_path config name id) t s

  unfoldable pub read_string_job_detail : Text → ℤ → os.Files → Fallible Text
  read_string_job_detail name id s =
      read_string_from_file os (get_job_detail_file_path config name id) s

  unfoldable pub update_job_detail : Text → JobDetail → os.Files → Option Text × os.Files
  unfolding save_job_detail
  update_job_detail name d s = save_job_detail name d s

  abbrev pub timed : ℕ → Fallible JobDetail → Fallible JobDetail
  timed now (ok d) = ok (record d { stages = time_last_running now d.stages })
  timed now (failed e) = failed e

  abbrev pub decode_detail : Fallible Text → Fallible JobDetail
  decode_detail (ok t) = codec.unmarshal_detail t
  decode_detail (failed e) = failed e

  unfoldable pub get_job_detail : ℕ → Text → ℤ → os.Files → Fallible JobDetail
  get_job_detail now name id s =
      timed now
        (decode_detail (read_string_from_file os (get_job_detail_file_path config name id) s))

  unfoldable pub delete_job_detail : Text → ℤ → os.Files → Option Text × os.Files
  delete_job_detail name id s =
      let p = get_job_detail_file_path config name id in
      if is_file_exist os p s
      then delete_file os p s
      else (some (codes "delete job detail failed,job detail file not exist"), s)

  -- A new run of a job.
  abbrev pub new_detail : ℕ → ℤ → Job → List StageDetail → JobDetail
  new_detail now id job stages = record {
    id = id;
    job = job;
    status = status_notrun;
    trigger_mode = trigger;
    stages = stages;
    start_time = now;
    duration = 0;
    action_result = no_results;
    error = [];
  }

  abbrev pub save_new :
      ℕ → Text → ℤ → Job → SortResult → os.Files → Fallible (JobDetail × Option Text) × os.Files
  save_new now name id job (sorted_stages stages) s =
      let d = new_detail now id job stages in
      let (e, s') = save_job_detail name d s in (ok (d, e), s')
  save_new now name id job (cannot_resolve left) s = (failed (codes "cannot resolve dependency"), s)
  save_new now name id job out_of_fuel s = (failed [], s)

  abbrev pub with_dir :
      (ℕ → Map Stage → Map Stage)
      → ℕ
      → Text
      → ℤ
      → Job
      → Option Text × os.Files
      → Fallible (JobDetail × Option Text) × os.Files
  with_dir order now name id job (some e, s) = (failed e, s)
  with_dir order now name id job (none, s) = save_new now name id job (stage_sort order job) s

  abbrev pub with_job :
      (ℕ → Map Stage → Map Stage)
      → ℕ
      → Text
      → ℤ
      → Fallible Job
      → os.Files
      → Fallible (JobDetail × Option Text) × os.Files
  with_job order now name id (ok job) s =
      with_dir order now name id job
        (create_dir_if_not_exist os (get_job_detail_file_dir config name) s)
  with_job order now name id (failed e) s = (failed e, s)

  -- The run comes back with the error of saving it, which may be nil.
  unfoldable pub create_job_detail :
      (ℕ → Map Stage → Map Stage)
      → ℕ
      → Text
      → ℤ
      → os.Files
      → Fallible (JobDetail × Option Text) × os.Files
  create_job_detail order now name id s =
      with_job order now name id (get_job_object os codec config name s) s

  unfoldable pub get_job_log_string : Text → ℤ → os.Files → Fallible Text
  get_job_log_string name id s = read_string_from_file os (get_job_detail_log_path config name id) s

  unfoldable pub save_job_log_string : Text → ℤ → Text → os.Files → Option Text × os.Files
  save_job_log_string name id t s =
      save_string_to_file os (get_job_detail_log_path config name id) t s

  abbrev pub save_stopped :
      Text → Text → Fallible JobDetail → os.Files → Fallible (Unit {0}) × os.Files
  save_stopped name error (ok d) s =
      let (e, s') = save_job_detail name (record d { status = status_stop; error = error }) s in
      (elim e [ none ↦ ok tt | some x ↦ failed x ], s')
  save_stopped name error (failed e) s = (failed e, s)

  unfoldable pub make_job_stop : ℕ → Text → ℤ → Text → os.Files → Fallible (Unit {0}) × os.Files
  make_job_stop now name id error s = save_stopped name error (get_job_detail now name id s) s
