-- ===== src/Storage/Stopping.antt =====
-- job/job.go `MakeJobStop`, with which the master ends a run that its worker lost.
use aline_engine.Base.{ℕ, ◌≡◌, ◌∙◌, ap, arith, none, some}
use aline_engine.Base.Text.{Text}
use aline_engine.Model.Detail.{JobDetail}
use aline_engine.Model.Status.{status_stop}
use aline_engine.Storage.Details.{
  get_job_detail, make_job_stop, save_job_detail, save_stopped, save_string_job_detail, timed,
  trigger, write_detail, decode_detail,
}
use aline_engine.Storage.Effects.{read-save_self, value-read_string_from_file}
use aline_engine.Storage.Files.{
  save_string_to_file, read_string_from_file, get_job_detail_file_path,
}
use aline_engine.Storage.Os.{Os, Codec, Fallible, ok, failed, IsLawful, value}
use aline_engine.Utils.Paths.{FilePath}

-- What is saved of a run that is stopped.
abbrev pub stopped : Text → JobDetail → JobDetail
stopped error d = record d { status = status_stop; error = error; trigger_mode = trigger }

some_injective : {A : Type 0} {a b : A} → some a ≡ some b → a ≡ b
some_injective h = cc

from_value : {A : Type 0} (r : Fallible A) (a : A) → value r ≡ some a → r ≡ ok a
from_value (ok b) a h = ap ok (some_injective h)
from_value (failed e) a h = absurd (ground arith)

module _ (os : Os) (codec : Codec) (config : FilePath) (law : IsLawful os) where
  -- What is saved under a path is read from it.
  read-saved :
      (p : FilePath) (t : Text) (s : os.Files)
      → (save_string_to_file os p t s).0 ≡ none
      → read_string_from_file os p (save_string_to_file os p t s).1 ≡ ok t
  read-saved p t s h =
      from_value _ t
        (value-read_string_from_file os law p _ ∙ ap value (read-save_self os law p t s h))

  state_stopped :
      (now : ℕ) (name error : Text) (d : JobDetail) (t : Text) (s : os.Files)
      → get_job_detail os codec config now name d.id s ≡ ok d
      → codec.marshal_detail (stopped error d) ≡ ok t
      → (make_job_stop os codec config now name d.id error s).1
        ≡ (save_string_to_file os (get_job_detail_file_path config name d.id) t s).1
  unfolding make_job_stop save_job_detail
  state_stopped now name error d t s read print =
      ap (λ (r : Fallible JobDetail). (save_stopped os codec config name error r s).1) read
      ∙ ap (λ (r : Fallible Text). (write_detail os codec config name d.id r s).1) print

  -- A run that was read under its own id and then stopped is read with the status stop and the error.
  -- The text of the stopped run reads back as that run, and it was written without an error, which
  -- `MakeJobStop` itself does not look at.
  pub get_job_detail-make_job_stop :
      (now later : ℕ) (name error : Text) (d : JobDetail) (t : Text) (s : os.Files)
      → get_job_detail os codec config now name d.id s ≡ ok d
      → codec.marshal_detail (stopped error d) ≡ ok t
      → codec.unmarshal_detail t ≡ ok (stopped error d)
      → (save_string_job_detail os codec config name d.id t s).0 ≡ none
      → get_job_detail os codec config later name d.id
          (make_job_stop os codec config now name d.id error s).1
        ≡ timed os codec config later (ok (stopped error d))
  unfolding save_string_job_detail make_job_stop get_job_detail
  get_job_detail-make_job_stop now later name error d t s read print back saved =
      let p = get_job_detail_file_path config name d.id in
      let written = state_stopped now name error d t s read print in
      ap
        (λ (x : os.Files).
          timed os codec config later
            (decode_detail os codec config (read_string_from_file os p x)))
        written
      ∙ ap (λ (r : Fallible Text). timed os codec config later (decode_detail os codec config r))
          (read-saved p t s saved)
      ∙ ap (timed os codec config later) back
