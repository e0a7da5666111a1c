-- ===== src/Storage/Os.antt =====
-- What job/job.go uses of the operating system and of third-party packages, as operations over an
-- unknown state of the file system, and what the theorems assume of them.
use aline_engine.Base.{ℕ, ◌≡◌, ◌≢◌, Option, none, some, List}
use aline_engine.Base.Text.{Text}
use aline_engine.Model.Detail.{JobDetail, JobVo}
use aline_engine.Model.Job.{Job}
use aline_engine.Utils.Paths.{FilePath}

-- A result of Go: a value or an error. A function that can also panic returns an `Option` of it.
pub data Fallible (A : Type 0) : Type 0 where
  ok : A → Fallible A
  failed : Text → Fallible A

-- What `os.Stat` says.
pub data Stat : Type 0 where
  found not_exist stat_failed : Stat

-- An entry that `filepath.Walk` visits, or the error that it hands to its function.
pub data WalkEntry : Type 0 where
  directory file : FilePath → WalkEntry
  walk_error : Text → WalkEntry

pub record Os : Type 1 where
  pub Files : Type 0
  pub stat : FilePath → Files → Stat
  pub read_file : FilePath → Files → Fallible Text
  pub read_dir : FilePath → Files → Fallible (List Text)
  pub walk : FilePath → Files → List WalkEntry
  pub create_time : FilePath → Files → ℕ
  pub mkdir_all : FilePath → Files → Option Text × Files
  pub write_file : FilePath → Text → Files → Option Text × Files
  pub remove : FilePath → Files → Option Text × Files
  pub rename : FilePath → FilePath → Files → Option Text × Files

-- The content of a file, if it can be read.
abbrev pub value : {A : Type 0} → Fallible A → Option A
value (ok a) = some a
value (failed e) = none

-- What can be read of a path after a write, a removal or a new directory, where different paths are
-- different files and no other program writes to them.
pub record IsLawful (os : Os) : Type 0 where
  pub stat-read_file :
      (p : FilePath) (s : os.Files) (t : Text) → os.read_file p s ≡ ok t → os.stat p s ≡ found
  pub read_file-write_file_self :
      (p : FilePath) (t : Text) (s : os.Files)
      → (os.write_file p t s).0 ≡ none
      → os.read_file p (os.write_file p t s).1 ≡ ok t
  pub read_file-write_file_ne :
      (p q : FilePath) (t : Text) (s : os.Files)
      → p ≢ q
      → value (os.read_file q (os.write_file p t s).1) ≡ value (os.read_file q s)
  pub read_file-mkdir_all :
      (p q : FilePath) (s : os.Files)
      → value (os.read_file q (os.mkdir_all p s).1) ≡ value (os.read_file q s)
  pub read_file-remove_self :
      (p : FilePath) (s : os.Files)
      → (os.remove p s).0 ≡ none
      → value (os.read_file p (os.remove p s).1) ≡ none
  pub read_file-remove_ne :
      (p q : FilePath) (s : os.Files)
      → p ≢ q
      → value (os.read_file q (os.remove p s).1) ≡ value (os.read_file q s)

-- yaml and copier: a job and a run as text, and the fields of a job that a `JobVo` shares.
pub record Codec : Type 0 where
  pub marshal_job : Job → Fallible Text
  pub unmarshal_job : Text → Fallible Job
  pub marshal_detail : JobDetail → Fallible Text
  pub unmarshal_detail : Text → Fallible JobDetail
  pub copy_job : Job → JobVo
