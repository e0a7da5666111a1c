-- ===== src/Examples/Transfers.antt =====
-- The pages of two runs, and the files of a worker on the master.
use aline_engine.Base.{◌≡◌, refl, Bool, none, some, List, [], ◌∷◌, ◌++◌, arith, length, ◌≤◌}
use mathlib.Core.List.Perm
use mathlib.Core.List.{Perm}
use aline_engine.Base.Int.{pos}
use aline_engine.Base.Text.{codes, text_eq}
use aline_engine.Engine.{files_of, write_all_saved}
use aline_engine.Engine.Mirror.{as_commands, write_all_saved-get_log_and_job_detail_message}
use aline_engine.Examples.Disks.{memory, memory-IsLawful}
use aline_engine.Examples.Masters.{master}
use aline_engine.Master.Engine.{Master, Saved, handle_message}
use aline_engine.Model.Message.{AlineMessage}
use aline_engine.Storage.Contract.{run_all, contents, apply_all}
use aline_engine.Storage.Details.{
  save_string_job_detail, get_job_log_string, read_string_job_detail,
}
use aline_engine.Utils.Strings.{split}
use aline_engine.Utils.Decimal.{itoa, digits}
use aline_engine.Storage.Details.{save_job_log_string}
use aline_engine.Storage.Files.{
  read_string_from_file, get_job_detail_log_dir, save_string_to_file, create_dir_if_not_exist,
  get_job_detail_file_name, get_job_detail_file_path, get_job_detail_log_path, get_jobs_dir,
  save_file, path_eq, is_file_exist, get_job_detail_file_dir,
}
use aline_engine.Storage.Locations.{Location, IsNamed}
use aline_engine.Storage.Pages.{shown, sorted_runs, runs_in, job_detail_list-pages_cover}
use aline_engine.Storage.Shared.{get_relative_jobs_path, save_received_file}
use aline_engine.Storage.Transfer.{save_received_file-get_relative_jobs_path}
use aline_engine.Utils.Paths.{join, enter_all, enter, render}
use aline_engine.Worker.{get_log_and_job_detail_message}
use aline_engine.Examples.Folders.{config, codec, run_1, empty_disk, full_disk, far, site-IsElement}

abbrev unsorted : (A : Type 0) → (A → A → Bool) → List A → List A
unsorted A less xs = xs

unsorted-perm : (A : Type 0) (less : A → A → Bool) (l : List A) → Perm (unsorted A less l) l
unsorted-perm A less l = Perm.refl l

two_runs :
    sorted_runs memory codec config unsorted
      (pos 0)
      (codes "site")
      (codes "1.yml" ∷ codes "2.yml" ∷ [])
      full_disk
    ≡ run_1 ∷ run_1 ∷ []
unfolding text_eq
two_runs = refl

two_pages : 1 ≤ length (run_1 ∷ run_1 ∷ [])
two_pages = omega arith

job_detail_list-pages_cover_example :
    let pages_shown = shown memory codec config unsorted (pos 0) (codes "site") 1 2 full_disk in
    let names = codes "1.yml" ∷ codes "2.yml" ∷ [] in
    (pages_shown ≡ sorted_runs memory codec config unsorted (pos 0) (codes "site") names full_disk)
    × Perm pages_shown (
        runs_in memory codec config unsorted
          (pos 0)
          (get_job_detail_file_dir config (codes "site"))
          names
          full_disk)
unfolding is_file_exist text_eq
job_detail_list-pages_cover_example =
    job_detail_list-pages_cover memory codec config unsorted (pos 0) (codes "site") 1
      (codes "1.yml" ∷ codes "2.yml" ∷ []) full_disk unsorted-perm refl refl (omega arith) two_pages

save_received_file-get_relative_jobs_path_example :
    save_received_file memory
      (codes "srv" ∷ [])
      (record {
        path =
            get_relative_jobs_path config
              (render (get_jobs_dir config ++ codes "site" ∷ codes "check" ∷ codes "1" ∷ []));
        content = codes "fine";
      })
      empty_disk
    ≡ save_file memory
        (get_jobs_dir (codes "srv" ∷ []) ++ codes "site" ∷ codes "check" ∷ codes "1" ∷ [])
        (codes "fine")
        empty_disk
unfolding text_eq
save_received_file-get_relative_jobs_path_example =
    save_received_file-get_relative_jobs_path memory config (codes "srv" ∷ []) (codes "site")
      (codes "check" ∷ codes "1" ∷ []) (codes "fine") empty_disk
      (
        site-IsElement,
        (record { plain = refl; whole = refl }, (record { plain = refl; whole = refl }, tt)),
      )

mirrored :
    (run_all memory codec config
      (as_commands (codes "site") (pos 1) (codes "run") (codes "run"))
      empty_disk).0
    ≡ none
unfolding save_job_log_string save_string_job_detail save_string_to_file create_dir_if_not_exist
    is_file_exist path_eq text_eq get_job_detail_log_path get_job_detail_log_dir
    get_job_detail_file_path get_job_detail_file_dir get_job_detail_file_name join enter_all enter
    split itoa digits
mirrored = refl

write_all_saved-get_log_and_job_detail_message_example :
    (msg : AlineMessage) × (m' : Master) × (items : List Saved) × (get_log_and_job_detail_message
        (files_of memory codec config full_disk)
        (codes "site")
        (pos 1)
        far
      ≡ some msg)
    × (handle_message 7 msg master ≡ some m')
    × (m'.saved ≡ items)
    × ((l : Location)
        → IsNamed l
        → contents memory codec config (write_all_saved memory codec config items empty_disk) l
          ≡ apply_all
              (as_commands (codes "site") (pos 1) (codes "run") (codes "run"))
              (contents memory codec config empty_disk)
              l)
unfolding get_job_log_string read_string_job_detail read_string_from_file is_file_exist
write_all_saved-get_log_and_job_detail_message_example =
    write_all_saved-get_log_and_job_detail_message memory memory codec config config 7
      (codes "site") (pos 1) (codes "run") (codes "run") far master full_disk empty_disk
      memory-IsLawful site-IsElement refl refl mirrored
