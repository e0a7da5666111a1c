-- ===== src/Storage/Lists.antt =====
-- job/job.go `JobList` and `JobDetailList`. `sort` is Go's `sort.Sort` with a method `Less`. Where
-- a function returns `none`, the source panics. Paths in the texts of errors are left out.
use aline_engine.Base.{
  ℕ, Bool, true, false, ◌||◌, Option, none, some, List, [], ◌∷◌, ◌++◌, length, if◌then◌else◌,
}
use aline_engine.Base.Int.{ℤ, ltb_ℤ}
use aline_engine.Base.Text.{Text, codes, text_eq}
use aline_engine.Model.Detail.{JobDetail, JobVo, JobPage, JobDetailPage, detail_less, job_vo_less}
use aline_engine.Model.Job.{Job}
use aline_engine.Storage.Details.{get_job_detail}
use aline_engine.Storage.Files.{is_file_exist, get_job_file_path, get_job_detail_file_dir}
use aline_engine.Storage.Os.{Os, Fallible, ok, failed, Codec}
use aline_engine.Utils.Decimal.{atoi}
use aline_engine.Utils.Page.{slice_page, slice}
use aline_engine.Utils.Strings.{contains_text}
use aline_engine.Utils.Paths.{FilePath, join}

-- `name[0:strings.Index(name, ".")]`; `none` is the panic where there is no point.
pub before_point : Text → Option Text
before_point [] = none
before_point (c ∷ s) =
    let rest = before_point s in
    elim (text_eq (c ∷ []) (codes ".")) [
      | true ↦ some []
      | false ↦ elim rest [ none ↦ none | some t ↦ some (c ∷ t) ]
    ]

abbrev pub add_id : Option ℤ → List ℤ → List ℤ
add_id none ids = ids
add_id (some i) ids = i ∷ ids

-- The ids of the files in a folder of runs; a name that is no number is passed over.
pub ids_of : List Text → Option (List ℤ)
unfolding before_point
ids_of [] = some []
ids_of (name ∷ names) =
    let rest = ids_of names in
    elim (before_point name) [
      | none ↦ none
      | some t ↦ elim rest [ none ↦ none | some ids ↦ some (add_id (atoi t) ids) ]
    ]

abbrev pub id_greater : ℤ → ℤ → Bool
id_greater a b = ltb_ℤ b a

module _ (os : Os) (codec : Codec) (config : FilePath)
    (sort : (A : Type 0) → (A → A → Bool) → List A → List A) (non_finite : ℤ) where
  abbrev pub copy_latest : JobVo → Fallible JobDetail → JobVo
  copy_latest vo (ok d) = record vo {
    duration = d.duration;
    status = d.status;
    trigger_mode = d.trigger_mode;
    start_time = d.start_time;
    pipeline_detail_id = d.id;
    error = d.error;
  }
  copy_latest vo (failed e) = vo

  abbrev pub with_newest : ℕ → JobVo → List ℤ → os.Files → JobVo
  with_newest now vo [] s = vo
  with_newest now vo (id ∷ ids) s = copy_latest vo (get_job_detail os codec config now vo.name id s)

  abbrev pub with_ids : ℕ → JobVo → Option (List ℤ) → os.Files → Option JobVo
  with_ids now vo none s = none
  with_ids now vo (some ids) s = some (with_newest now vo (sort ℤ id_greater ids) s)

  abbrev pub with_runs : ℕ → JobVo → Fallible (List Text) → os.Files → Option JobVo
  with_runs now vo (ok names) s = with_ids now vo (ids_of names) s
  with_runs now vo (failed e) s = some vo

  -- `updateJobInfo`: the row of a job gets what its newest run says. Its error is dropped by
  -- `JobList`, so the row is the result.
  pub update_job_info : ℕ → JobVo → os.Files → Option JobVo
  unfolding ids_of
  update_job_info now vo s =
      let p = get_job_detail_file_dir config vo.name in
      if is_file_exist os p s then with_runs now vo (os.read_dir p s) s else some vo

  -- The rows of one file: one, or none where the job is passed over.
  abbrev pub created : FilePath → os.Files → Option JobVo → Option (List JobVo)
  created p s none = none
  created p s (some vo) = some (record vo { create_time = os.create_time p s } ∷ [])

  abbrev pub decoded : Fallible Text → Fallible Job
  decoded (ok t) = codec.unmarshal_job t
  decoded (failed e) = failed e

  abbrev pub row_of : ℕ → FilePath → Fallible Job → os.Files → Option (List JobVo)
  row_of now p (ok job) s = created p s (update_job_info now (codec.copy_job job) s)
  row_of now p (failed e) s = some []

  pub job_row : ℕ → Text → Text → os.Files → Option (List JobVo)
  unfolding update_job_info
  job_row now keyword name s =
      let p = get_job_file_path config name in
      if text_eq keyword [] || contains_text name keyword
      then (if is_file_exist os p s then row_of now p (decoded (os.read_file p s)) s else some [])
      else some []

  abbrev pub append_rows : Option (List JobVo) → Option (List JobVo) → Option (List JobVo)
  append_rows none rest = none
  append_rows (some rows) none = none
  append_rows (some rows) (some rest) = some (rows ++ rest)

  pub job_rows : ℕ → Text → List Text → os.Files → Option (List JobVo)
  unfolding job_row
  job_rows now keyword [] s = some []
  job_rows now keyword (name ∷ names) s =
      append_rows (job_row now keyword name s) (job_rows now keyword names s)

  abbrev pub job_page : ℤ → ℤ → Option (List JobVo) → Option (Fallible JobPage)
  job_page page size none = none
  job_page page size (some rows) =
      let jobs = sort JobVo job_vo_less rows in
      let p = slice_page non_finite page size (length jobs) in
      some (
        ok (record {
          data_rows = slice jobs p;
          total = length jobs;
          page = p.page;
          page_size = p.size;
        }))

  abbrev pub listed : ℕ → Text → ℤ → ℤ → Fallible (List Text) → os.Files → Option (Fallible JobPage)
  listed now keyword page size (ok names) s = job_page page size (job_rows now keyword names s)
  listed now keyword page size (failed e) s = some (failed e)

  unfoldable pub job_list : ℕ → Text → ℤ → ℤ → os.Files → Option (Fallible JobPage)
  unfolding job_rows
  job_list now keyword page size s =
      let p = get_job_file_path config [] in
      if is_file_exist os p s
      then listed now keyword page size (os.read_dir p s) s
      else some (failed (codes "jobs folder not exist"))

  abbrev pub detail_of : Fallible Text → Fallible JobDetail
  detail_of (ok t) = codec.unmarshal_detail t
  detail_of (failed e) = failed e

  abbrev pub or_skipped : Fallible JobDetail → List JobDetail
  or_skipped (ok d) = d ∷ []
  or_skipped (failed e) = []

  unfoldable pub detail_row : FilePath → os.Files → List JobDetail
  detail_row p s = if is_file_exist os p s then or_skipped (detail_of (os.read_file p s)) else []

  unfoldable pub detail_rows : FilePath → List Text → os.Files → List JobDetail
  unfolding detail_row
  detail_rows dir [] s = []
  detail_rows dir (name ∷ names) s = detail_row (join dir (name ∷ [])) s ++ detail_rows dir names s

  abbrev pub detail_page : ℤ → ℤ → List JobDetail → JobDetailPage
  detail_page page size rows =
      let details = sort JobDetail detail_less rows in
      let p = slice_page non_finite page size (length details) in
      record {
        data_rows = slice details p;
        total = length details;
        page = p.page;
        page_size = p.size;
      }

  abbrev pub listed_details :
      FilePath → ℤ → ℤ → Fallible (List Text) → os.Files → Fallible JobDetailPage
  listed_details dir page size (ok names) s = ok (detail_page page size (detail_rows dir names s))
  listed_details dir page size (failed e) s = failed e

  unfoldable pub job_detail_list : Text → ℤ → ℤ → os.Files → Fallible JobDetailPage
  unfolding detail_rows
  job_detail_list name page size s =
      let p = get_job_detail_file_dir config name in
      if is_file_exist os p s
      then listed_details p page size (os.read_dir p s) s
      else failed (codes "job-details folder does not exist")
