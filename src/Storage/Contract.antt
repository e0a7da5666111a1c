-- ===== src/Storage/Contract.antt =====
-- What job/job.go promises of a folder of jobs: it is a map from jobs, runs and logs to their texts.
-- The operations that write are the commands of the map, the operations that read its lookups.
use aline_engine.Base.{Option, none, some, List, [], ◌∷◌, if◌then◌else◌}
use aline_engine.Base.Int.{ℤ}
use aline_engine.Base.Text.{Text}
use aline_engine.Storage.Details.{
  save_string_job_detail, read_string_job_detail, delete_job_detail, get_job_log_string,
  save_job_log_string,
}
use aline_engine.Storage.Files.{unless_error}
use aline_engine.Storage.Jobs.{save_job, get_job, delete_job}
use aline_engine.Storage.Locations.{Location, job_file, detail_file, log_file, location_eq, IsNamed}
use aline_engine.Storage.Os.{Os, Codec, Fallible, value}
use aline_engine.Utils.Paths.{FilePath}

pub data Command : Type 0 where
  put_job : Text → Text → Command
  put_detail put_log : Text → ℤ → Text → Command
  remove_job : Text → Command
  remove_detail : Text → ℤ → Command

-- The abstract view.
abbrev pub Store : Type 0
Store = Location → Option Text

abbrev pub target : Command → Location
target (put_job name t) = job_file name
target (put_detail name id t) = detail_file name id
target (put_log name id t) = log_file name id
target (remove_job name) = job_file name
target (remove_detail name id) = detail_file name id

abbrev pub written : Command → Option Text
written (put_job name t) = some t
written (put_detail name id t) = some t
written (put_log name id t) = some t
written (remove_job name) = none
written (remove_detail name id) = none

abbrev pub apply : Command → Store → Store
apply c store l = if location_eq l (target c) then written c else store l

abbrev pub apply_all : List Command → Store → Store
apply_all [] store = store
apply_all (c ∷ cs) store = apply_all cs (apply c store)

abbrev pub AreNamed : List Command → Type 0
AreNamed [] = Unit {0}
AreNamed (c ∷ cs) = IsNamed (target c) × AreNamed cs

module _ (os : Os) (codec : Codec) (config : FilePath) where
  abbrev pub read : Location → os.Files → Fallible Text
  read (job_file name) s = get_job os codec config name s
  read (detail_file name id) s = read_string_job_detail os codec config name id s
  read (log_file name id) s = get_job_log_string os codec config name id s

  abbrev pub run : Command → os.Files → Option Text × os.Files
  run (put_job name t) s = save_job os codec config name t s
  run (put_detail name id t) s = save_string_job_detail os codec config name id t s
  run (put_log name id t) s = save_job_log_string os codec config name id t s
  run (remove_job name) s = delete_job os codec config name s
  run (remove_detail name id) s = delete_job_detail os codec config name id s

  -- One command after the other, up to the first error.
  abbrev pub run_all : List Command → os.Files → Option Text × os.Files
  run_all [] s = (none, s)
  run_all (c ∷ cs) s = unless_error os (run c s) (run_all cs)

  -- What the operations of reading show.
  abbrev pub contents : os.Files → Store
  contents s l = value (read l s)
