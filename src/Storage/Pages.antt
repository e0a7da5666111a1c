-- ===== src/Storage/Pages.antt =====
-- The pages of `JobDetailList`.
use aline_engine.Base.{
  ℕ, zero, suc, ◌≡◌, ◌+◌, ◌-◌, ◌/◌, ◌<◌, ◌≤◌, refl, ap, sym, subst, ◌∙◌, ◌⊎◌, inl, inr, Bool, true,
  Option, none, some, List, [], ◌∷◌, ◌++◌, length,
}
use mathlib.Core.List.{Perm}
use aline_engine.Base.Int.{ℤ, pos}
use aline_engine.Base.Text.{Text}
use aline_engine.Model.Detail.{JobDetail, JobDetailPage, detail_less}
use aline_engine.Storage.Files.{is_file_exist, get_job_detail_file_dir}
use aline_engine.Storage.Lists.{
  job_detail_list, detail_rows, detail_page, detail_row, or_skipped, detail_of,
}
use aline_engine.Storage.Os.{
  Os, Codec, Fallible, ok, failed, value, Stat, found, not_exist, stat_failed,
}
use aline_engine.Utils.Page.Laws.{pages, pages_cover}
use aline_engine.Utils.Paths.{FilePath, join}

-- What a page shows; nothing where there is none.
abbrev pub rows_of : Fallible JobDetailPage → List JobDetail
rows_of (ok page) = page.data_rows
rows_of (failed e) = []

abbrev or_left_out : Option JobDetail → List JobDetail → List JobDetail
or_left_out none l = l
or_left_out (some d) l = d ∷ l

Stat-cases : (x : Stat) → (x ≡ found) ⊎ (x ≡ not_exist) ⊎ (x ≡ stat_failed)
Stat-cases found = inl refl
Stat-cases not_exist = inr (inl refl)
Stat-cases stat_failed = inr (inr refl)

module _ (os : Os) (codec : Codec) (config : FilePath)
    (sort : (A : Type 0) → (A → A → Bool) → List A → List A) (non_finite : ℤ) where
  -- The runs on the pages 1 to `n`.
  abbrev pub shown : Text → ℕ → ℕ → os.Files → List JobDetail
  shown name size zero s = []
  shown name size (suc n) s =
      shown name size n s
      ++ rows_of (job_detail_list os codec config sort non_finite name (pos (suc n)) (pos size) s)

  page_shown :
      (name : Text) (size n : ℕ) (names : List Text) (s : os.Files)
      → is_file_exist os (get_job_detail_file_dir config name) s ≡ true
      → os.read_dir (get_job_detail_file_dir config name) s ≡ ok names
      → rows_of (job_detail_list os codec config sort non_finite name (pos (suc n)) (pos size) s)
        ≡ rows_of (
            ok (
              detail_page os codec config sort non_finite (pos (suc n)) (pos size) (
                detail_rows os codec config sort non_finite
                  (get_job_detail_file_dir config name)
                  names
                  s)))
  unfolding job_detail_list
  page_shown name size n names s h r = rw (h, r) refl

  shown-pages :
      (name : Text) (size n : ℕ) (names : List Text) (s : os.Files)
      → is_file_exist os (get_job_detail_file_dir config name) s ≡ true
      → os.read_dir (get_job_detail_file_dir config name) s ≡ ok names
      → shown name size n s
        ≡ pages non_finite size
            (sort JobDetail detail_less (
              detail_rows os codec config sort non_finite
                (get_job_detail_file_dir config name)
                names
                s))
            n
  shown-pages name size zero names s h r = refl
  shown-pages name size (suc n) names s h r =
      rw (shown-pages name size n names s h r, page_shown name size n names s h r) refl

  abbrev run_read : Option Text → Option JobDetail
  run_read none = none
  run_read (some t) = value (codec.unmarshal_detail t)

  of_decoded :
      (r : Fallible JobDetail) (rest : List JobDetail)
      → or_skipped os codec config sort non_finite r ++ rest ≡ or_left_out (value r) rest
  of_decoded (failed e) rest = refl
  of_decoded (ok d) rest = refl

  of_text :
      (r : Fallible Text) (rest : List JobDetail)
      → or_skipped os codec config sort non_finite (detail_of os codec config sort non_finite r)
          ++ rest
        ≡ or_left_out (run_read (value r)) rest
  of_text (failed e) rest = refl
  of_text (ok t) rest = of_decoded (codec.unmarshal_detail t) rest

  abbrev run_at : Stat → Option Text → Option JobDetail
  run_at not_exist text = none
  run_at found text = run_read text
  run_at stat_failed text = run_read text

  -- The run in a file, where the file is there and its text can be read and is that of a run.
  abbrev pub run_in : os.Files → FilePath → Option JobDetail
  run_in s p = run_at (os.stat p s) (value (os.read_file p s))

  -- The runs in the files of a folder.
  abbrev pub runs_in : FilePath → List Text → os.Files → List JobDetail
  runs_in dir [] s = []
  runs_in dir (name ∷ names) s = or_left_out (run_in s (join dir (name ∷ []))) (runs_in dir names s)

  -- A file whose text cannot be read or is no run adds nothing, and another adds its run.
  detail_row-run_in :
      (p : FilePath) (s : os.Files) (rest : List JobDetail)
      → detail_row os codec config sort non_finite p s ++ rest ≡ or_left_out (run_in s p) rest
  unfolding detail_row is_file_exist
  detail_row-run_in p s rest = elim (Stat-cases (os.stat p s)) [
    | inl here ↦ rw (here, ◌++◌) (of_text (os.read_file p s) rest)
    | inr (inl gone) ↦ rw (gone, ◌++◌) refl
    | inr (inr unknown) ↦ rw (unknown, ◌++◌) (of_text (os.read_file p s) rest)
  ]

  detail_rows-runs_in :
      (dir : FilePath) (names : List Text) (s : os.Files)
      → detail_rows os codec config sort non_finite dir names s ≡ runs_in dir names s
  unfolding detail_rows
  detail_rows-runs_in dir [] s = refl
  detail_rows-runs_in dir (name ∷ names) s =
      detail_row-run_in (join dir (name ∷ [])) s
        (detail_rows os codec config sort non_finite dir names s)
      ∙ ap (or_left_out (run_in s (join dir (name ∷ [])))) (detail_rows-runs_in dir names s)

  -- The runs of a job, as they are sorted.
  abbrev pub sorted_runs : Text → List Text → os.Files → List JobDetail
  sorted_runs name names s =
      sort JobDetail detail_less (runs_in (get_job_detail_file_dir config name) names s)

  -- The pages of the runs of a job, from the first to the last, show the runs in the order of the
  -- sort, and so each run in a file that is there and can be read and decoded as often as it is in
  -- the folder. The folder of the runs can be read, the sort gives a permutation, and the page size
  -- is at least 1 and at most the number of those runs.
  pub job_detail_list-pages_cover :
      (name : Text) (size : ℕ) (names : List Text) (s : os.Files)
      → ((A : Type 0) (less : A → A → Bool) (l : List A) → Perm (sort A less l) l)
      → is_file_exist os (get_job_detail_file_dir config name) s ≡ true
      → os.read_dir (get_job_detail_file_dir config name) s ≡ ok names
      → 0 < size
      → size ≤ length (sorted_runs name names s)
      → let pages_shown =
          shown name size ((length (sorted_runs name names s) + size - 1) / size) s in
        (pages_shown ≡ sorted_runs name names s)
        × Perm pages_shown (runs_in (get_job_detail_file_dir config name) names s)
  job_detail_list-pages_cover name size names s sorts h r low high =
      let all = sorted_runs name names s in
      let n = (length all + size - 1) / size in
      let dir = get_job_detail_file_dir config name in
      let covered : shown name size n s ≡ all =
        shown-pages name size n names s h r
        ∙ ap (λ l. pages non_finite size (sort JobDetail detail_less l) n)
            (detail_rows-runs_in dir names s)
        ∙ pages_cover non_finite size all low high in
      (
        covered,
        subst (λ l. Perm l (runs_in dir names s)) (sym covered)
            (sorts JobDetail detail_less (runs_in dir names s)),
      )
