-- ===== src/Examples/Folders.antt =====
-- A folder of jobs in memory with the job "site" and its run 1.
use aline_engine.Base.{◌≡◌, refl, Option, none, some, List, [], ◌∷◌, if◌then◌else◌}
use aline_engine.Base.Int.{pos}
use aline_engine.Base.Text.{Text, codes, text_eq}
use aline_engine.Examples.Disks.{Disk, memory, write, memory-IsLawful}
use aline_engine.Examples.Runs.{site, idle}
use aline_engine.Model.ActionResult.{no_results}
use aline_engine.Model.Detail.{JobDetail}
use aline_engine.Model.Status.{status_running}
use aline_engine.Storage.Contract.{Command, put_job, put_detail, remove_job, run_all, contents}
use aline_engine.Storage.Details.{
  get_job_detail, make_job_stop, save_string_job_detail, timed, trigger,
}
use aline_engine.Storage.Jobs.{save_job, delete_job}
use aline_engine.Utils.Strings.{split}
use aline_engine.Utils.Decimal.{itoa, digits}
use aline_engine.Storage.Details.{time_last_running}
use aline_engine.Storage.Files.{
  read_string_from_file, delete_file, save_string_to_file, create_dir_if_not_exist,
  get_job_file_dir, get_job_file_name, get_job_detail_file_name, get_job_file_path,
  get_job_detail_file_path, path_eq, is_file_exist, get_job_detail_file_dir,
}
use aline_engine.Storage.Locations.{detail_file}
use aline_engine.Storage.Os.{Codec, ok}
use aline_engine.Storage.Refinement.{contents-run_all}
use aline_engine.Storage.Stopping.{stopped, get_job_detail-make_job_stop}
use aline_engine.Utils.Paths.{FilePath, join, enter_all, enter}
use aline_engine.Utils.Paths.Laws.{IsElement}
use aline_engine.Worker.{Worker}

abbrev pub config : FilePath
config = codes "etc" ∷ []

abbrev pub run_1 : JobDetail
run_1 = record {
  id = pos 1;
  job = site;
  status = status_running;
  trigger_mode = trigger;
  stages = [];
  start_time = 5;
  duration = 0;
  action_result = no_results;
  error = [];
}

-- The text "run" is the run, and any other text the stopped run.
abbrev pub codec : Codec
codec = record {
  marshal_job = λ j. ok j.name;
  unmarshal_job = λ t. ok site;
  marshal_detail = λ d. ok (codes "stopped");
  unmarshal_detail =
      λ t. if text_eq t (codes "run") then ok run_1 else ok (stopped (codes "lost") run_1);
  copy_job = λ j. record {
    version = j.version;
    name = j.name;
    stages = j.stages;
    status = status_running;
    start_time = 0;
    duration = 0;
    trigger_mode = [];
    pipeline_detail_id = pos 0;
    error = [];
    create_time = 0;
  };
}

abbrev pub empty_disk : Disk
empty_disk = record { texts = λ p. none; names = λ p. none }

pub site-IsElement : IsElement (codes "site")
unfolding text_eq
site-IsElement = record { plain = refl; whole = refl }

abbrev commands : List Command
commands =
    put_job (codes "site") (codes "yaml")
    ∷ put_detail (codes "site") (pos 1) (codes "run")
    ∷ remove_job (codes "site")
    ∷ []

abbrev run_commands : Option Text × Disk
run_commands = run_all memory codec config commands empty_disk

ran : (run_all memory codec config commands empty_disk).0 ≡ none
unfolding save_job save_string_job_detail delete_job delete_file save_string_to_file is_file_exist
    create_dir_if_not_exist get_job_file_path get_job_detail_file_path get_job_file_dir
    get_job_file_name get_job_detail_file_dir get_job_detail_file_name path_eq text_eq join
    enter_all enter split itoa digits
ran = refl

contents-run_all_example :
    contents memory codec config
      (run_all memory codec config commands empty_disk).1
      (detail_file (codes "site") (pos 1))
    ≡ some (codes "run")
unfolding text_eq
contents-run_all_example =
    contents-run_all memory codec config memory-IsLawful commands empty_disk
      (site-IsElement, (site-IsElement, (site-IsElement, tt))) ran
      (detail_file (codes "site") (pos 1)) site-IsElement

abbrev running_disk : Disk
running_disk =
    write (get_job_detail_file_path config (codes "site") (pos 1)) (some (codes "run")) empty_disk

running : get_job_detail memory codec config 9 (codes "site") (pos 1) running_disk ≡ ok run_1
unfolding get_job_detail read_string_from_file is_file_exist path_eq text_eq time_last_running
    get_job_detail_file_path get_job_detail_file_dir get_job_detail_file_name join enter_all enter
    split itoa digits
running = refl

saved :
    (save_string_job_detail memory codec config
      (codes "site")
      (pos 1)
      (codes "stopped")
      running_disk).0
    ≡ none
unfolding save_string_job_detail save_string_to_file create_dir_if_not_exist is_file_exist path_eq
    text_eq get_job_detail_file_path get_job_detail_file_dir get_job_detail_file_name join enter_all
    enter split itoa digits
saved = refl

get_job_detail-make_job_stop_example :
    get_job_detail memory codec config 30
      (codes "site")
      (pos 1)
      (make_job_stop memory codec config 9 (codes "site") (pos 1) (codes "lost") running_disk).1
    ≡ timed memory codec config 30 (ok (stopped (codes "lost") run_1))
unfolding text_eq
get_job_detail-make_job_stop_example =
    get_job_detail-make_job_stop memory codec config memory-IsLawful 9 30 (codes "site")
      (codes "lost") run_1 (codes "stopped") running_disk running refl refl saved

-- A disk on which every file is a run, and every folder holds two.
abbrev pub full_disk : Disk
full_disk = record {
  texts = λ p. some (codes "run");
  names = λ p. some (codes "1.yml" ∷ codes "2.yml" ∷ []);
}

abbrev pub far : Worker
far = record {
  name = codes "a";
  address = codes "x";
  executor = idle;
  queue_chan = [];
  send_chan = [];
  done_job_list = [];
  log_senders = [];
}
