-- ===== src/Examples/Launches.antt =====
-- The job "site" is executed and stopped by a master with two nodes.
use aline_engine.Base.{◌≡◌, refl, Option, none, some, [], ◌∷◌, ◌++◌}
use aline_engine.Base.Int.{pos}
use aline_engine.Base.Map.{lookup}
use aline_engine.Base.Text.{Text, codes, text_eq}
use aline_engine.Dispatcher.{job_message, cancel_job_with_node, dispatch_node}
use aline_engine.Engine.{Engine, role_master, answer, load, execute_job, terminal_job}
use aline_engine.Engine.Launch.{execute_job-terminal_job}
use aline_engine.Examples.Disks.{Disk, memory}
use aline_engine.Examples.Folders.{config, codec, full_disk, far}
use aline_engine.Examples.Masters.{master}
use aline_engine.Examples.Runs.{site, as_listed, one_step, site_sorted}
use aline_engine.Master.Engine.{Master, reply, dispatch_job, attempts}
use aline_engine.Model.Detail.{JobDetail}
use aline_engine.Model.Message.{Node, MessageType}
use aline_engine.Model.Status.{status_notrun}
use aline_engine.Storage.Details.{create_job_detail, new_detail, save_job_detail}
use aline_engine.Utils.Paths.{join, enter_all, enter}
use aline_engine.Utils.Strings.{split}
use aline_engine.Utils.Decimal.{itoa, digits}
use aline_engine.Storage.Files.{
  path_eq, get_job_file_path, get_job_file_dir, get_job_file_name, get_job_detail_file_path,
  get_job_detail_file_dir, get_job_detail_file_name, is_file_exist, create_dir_if_not_exist,
  save_string_to_file, read_string_from_file,
}
use aline_engine.Storage.Jobs.{get_job, get_job_object}
use aline_engine.Storage.Os.{Fallible, ok}

abbrev engine : Engine memory
engine = record { role = role_master; master = some master; worker = far; files = full_disk }

abbrev created : Fallible (JobDetail × Option Text) × Disk
created = create_job_detail memory codec config as_listed 5 (codes "site") (pos 1) full_disk

abbrev new_run : JobDetail
new_run = new_detail memory codec config 5 (pos 1) site (one_step ∷ [])

abbrev after : Disk
after = (save_job_detail memory codec config (codes "site") new_run full_disk).1

made : created ≡ (ok (new_run, none), after)
unfolding create_job_detail get_job_object is_file_exist create_dir_if_not_exist save_job_detail
made = rw site_sorted refl

dispatched :
    (dispatch_job (load memory codec config after) (codes "site") (pos 1) master).0 ≡ reply tt
unfolding dispatch_job attempts dispatch_node lookup text_eq get_job read_string_from_file
    is_file_exist save_job_detail save_string_to_file create_dir_if_not_exist path_eq
    get_job_file_path get_job_file_dir get_job_file_name get_job_detail_file_path
    get_job_detail_file_dir get_job_detail_file_name join enter_all enter split itoa digits
dispatched = refl

execute_job-terminal_job_example :
    (e1 : Engine memory) × (e2 : Engine memory) × (m1 : Master) × (m2 : Master) × (node : Node)
    × (yaml : Text) × (new_run.id ≡ pos 1)
    × (new_run.status ≡ status_notrun)
    × (execute_job memory codec config as_listed 5 (codes "site") (pos 1) engine
        ≡ (answer (new_run, answer tt), e1))
    × (terminal_job memory codec config (codes "site") (pos 1) e1 ≡ (answer tt, e2))
    × (e1.master ≡ some m1)
    × (e2.master ≡ some m2)
    × (load memory codec config after (codes "site") ≡ some yaml)
    × (m1.server.send_chan
        ≡ master.server.send_chan
          ++ job_message MessageType.execute (codes "site") yaml (pos 1) node ∷ [])
    × (m2.server.send_chan
        ≡ m1.server.send_chan ++ cancel_job_with_node (codes "site") (pos 1) node ∷ [])
execute_job-terminal_job_example =
    execute_job-terminal_job memory codec config as_listed 5 (codes "site") (pos 1) new_run after
      master engine refl refl made dispatched
