-- ===== src/Engine/Mirror.antt =====
-- The log and the run of a job go from the worker's folder to the master's.
use aline_engine.Base.{ℕ, ◌≡◌, refl, sym, ◌∙◌, ap, Option, none, some, List, [], ◌∷◌, ◌++◌}
use aline_engine.Base.Int.{ℤ}
use aline_engine.Base.Text.{Text}
use aline_engine.Engine.{files_of, write_all_saved}
use aline_engine.Master.Engine.{Master, Saved, saved_log, saved_detail, handle_message}
use aline_engine.Model.Message.{AlineMessage, MessageType}
use aline_engine.Storage.Contract.{Command, put_log, put_detail, run_all, contents, apply_all}
use aline_engine.Storage.Details.{
  get_job_log_string, read_string_job_detail, save_job_log_string, save_string_job_detail,
}
use aline_engine.Storage.Files.{unless_error}
use aline_engine.Storage.Locations.{Location, IsNamed}
use aline_engine.Storage.Os.{Os, Codec, ok, IsLawful}
use aline_engine.Storage.Refinement.{contents-run_all, first_part}
use aline_engine.Utils.Paths.{FilePath}
use aline_engine.Utils.Paths.Laws.{IsElement}
use aline_engine.Worker.{Worker, blank, get_log_and_job_detail_message}

abbrev pub received : Text → ℤ → Text → Text → List Saved
received name id log detail = saved_log name id log ∷ saved_detail name id detail ∷ []

abbrev pub as_commands : Text → ℤ → Text → Text → List Command
as_commands name id log detail = put_log name id log ∷ put_detail name id detail ∷ []

module _ (os : Os) (codec : Codec) (config : FilePath) (law : IsLawful os) where
  unless_error_last : (r : Option Text × os.Files) → (unless_error os r (λ x. (none, x))).1 ≡ r.1
  unless_error_last (none, s) = refl
  unless_error_last (some e, s) = refl

  -- Where no write fails, saving is running the commands.
  write_all_saved-run_all :
      (name : Text) (id : ℤ) (log detail : Text) (s : os.Files)
      → (run_all os codec config (as_commands name id log detail) s).0 ≡ none
      → (run_all os codec config (as_commands name id log detail) s).1
        ≡ write_all_saved os codec config (received name id log detail) s
  unfolding write_all_saved
  write_all_saved-run_all name id log detail s h =
      let first = save_job_log_string os codec config name id log s in
      let rest = λ (x : os.Files).
        unless_error os (save_string_job_detail os codec config name id detail x)
          (λ y. (none, y)) in
      ap (λ (r : Option Text × os.Files). r.1) (first_part os codec config law first rest h).1
      ∙ unless_error_last (save_string_job_detail os codec config name id detail first.1)

-- The message in which a worker sends the log and the run of a job makes the master save both, and
-- then each reads on the master as on the worker, while every other job, run and log reads there as
-- before. The job's name is a plain path element, the worker can read both files, and the master's
-- writes do not fail.
pub write_all_saved-get_log_and_job_detail_message :
    (worker_os master_os : Os) (codec : Codec) (there here : FilePath) (now : ℕ) (name : Text)
    (id : ℤ) (log detail : Text) (w : Worker) (m : Master) (t : worker_os.Files)
    (s : master_os.Files)
    → IsLawful master_os
    → IsElement name
    → get_job_log_string worker_os codec there name id t ≡ ok log
    → read_string_job_detail worker_os codec there name id t ≡ ok detail
    → (run_all master_os codec here (as_commands name id log detail) s).0 ≡ none
    → (msg : AlineMessage) × (m' : Master) × (items : List Saved) × (get_log_and_job_detail_message
          (files_of worker_os codec there t)
          name
          id
          w
        ≡ some msg)
      × (handle_message now msg m ≡ some m')
      × (m'.saved ≡ m.saved ++ items)
      × ((l : Location)
          → IsNamed l
          → contents master_os codec here (write_all_saved master_os codec here items s) l
            ≡ apply_all (as_commands name id log detail) (contents master_os codec here s) l)
unfolding get_log_and_job_detail_message handle_message
write_all_saved-get_log_and_job_detail_message worker_os master_os codec there here now name id log
      detail w m t s law h hlog hdetail written =
    (
      record (blank MessageType.log w) {
        exec_req = some (record { name = name; pipeline_file = detail; job_detail_id = id });
        log = log;
      },
      record m { saved = m.saved ++ received name id log detail },
      received name id log detail,
      rw (hlog, hdetail) refl,
      refl,
      refl,
      λ l hl.
          ap (λ (x : master_os.Files). contents master_os codec here x l)
            (sym (write_all_saved-run_all master_os codec here law name id log detail s written))
          ∙ contents-run_all master_os codec here law (as_commands name id log detail) s
              (h, (h, tt)) written l hl,
    )
