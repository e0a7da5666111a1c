-- ===== src/Checks/Aggregation/Hook.antt =====
-- What the hook of action/action_check_aggregation.go leaves when it returns without error.
use aline_engine.Base.{
  ◌≡◌, refl, sym, ap, ◌∙◌, subst, ◌⊎◌, inl, inr, Option-cases, Option, none, some, List, [], ◌∷◌,
}
use aline_engine.Base.Int.{ℤ}
use aline_engine.Base.Text.{Text, codes, text_eq}
use aline_engine.Checks.Aggregation.{ResultJson, read_reports, aggregation_hook, aggregation_path}
use aline_engine.Checks.Aggregation.Collect.{results_of, AreRead, read_reports_ok}
use aline_engine.Checks.Gather.Counts.{next_ok, from_result_ok, write_output_ok, done_with_ok}
use aline_engine.Checks.Machine.{
  Machine, Run, CheckContext, from_result, write_output, ensure_dir, run_number, run_check_dir,
  check_report,
}
use aline_engine.Checks.Walk.{
  get_same_file_name_files, get_same_file_name_files_lem, select, all_files_below,
}
use aline_engine.Model.ActionResult.{ActionResult}
use aline_engine.Storage.Os.{Fallible, ok, IsLawful, value, Stat, found, not_exist, stat_failed}
use aline_engine.Utils.Decimal.{atoi}
use aline_engine.Utils.Paths.{FilePath, render}
use aline_engine.Utils.Texts.{path_of}

Stat-cases : (x : Stat) → (x ≡ found) ⊎ (x ≡ not_exist) ⊎ (x ≡ stat_failed)
Stat-cases found = inl refl
Stat-cases not_exist = inr (inl refl)
Stat-cases stat_failed = inr (inr refl)

module _ {m : Machine} where
  unchanged :
      (q : FilePath) (r r' : Run m)
      → r ≡ r'
      → value (m.os.read_file q r'.files) ≡ value (m.os.read_file q r.files)
  unchanged q r r' e = ap (λ (x : Run m). value (m.os.read_file q x.files)) (sym e)

  -- A folder that is made changes no file.
  ensure_dir_ok :
      (dir q : FilePath) (r r' : Run m)
      → IsLawful m.os
      → ensure_dir dir r ≡ some (ok tt, r')
      → value (m.os.read_file q r'.files) ≡ value (m.os.read_file q r.files)
  unfolding ensure_dir
  ensure_dir_ok dir q r r' lawful e = elim (Stat-cases (m.os.stat dir r.files)) [
    | inl s ↦ unchanged q r r' (cc (rw (ensure_dir, s) at e))
    | inr (inl s) ↦
        let (none_is, files_are) =
          done_with_ok (m.os.mkdir_all dir r.files) r.written r' (rw (ensure_dir, s) at e) in
        subst (λ x. value (m.os.read_file q x) ≡ value (m.os.read_file q r.files)) files_are
          (lawful.read_file-mkdir_all dir q r.files)
    | inr (inr s) ↦ unchanged q r r' (cc (rw (ensure_dir, s) at e))
  ]

  AreRead_before :
      (dir : FilePath) (paths texts : List Text) (r r' : Run m)
      → IsLawful m.os
      → ensure_dir dir r ≡ some (ok tt, r')
      → AreRead paths texts r'
      → AreRead paths texts r
  AreRead_before dir [] [] r r' lawful e h = tt
  AreRead_before dir (p ∷ ps) (t ∷ ts) r r' lawful e (h, hs) = (
    sym (ensure_dir_ok dir (path_of p) r r' lawful e) ∙ h,
    AreRead_before dir ps ts r r' lawful e hs,
  )
  AreRead_before dir [] (t ∷ ts) r r' lawful e h = h
  AreRead_before dir (p ∷ ps) [] r r' lawful e h = h

-- The files below the folder of a run that hold the result of a check, in the order of the walk.
abbrev pub result_paths : (m : Machine) → Text → Text → Run m → List Text
result_paths m name id r =
    let dir = run_check_dir m name id in
    select (λ file_name. text_eq file_name (codes "total_result.txt"))
      (all_files_below (render dir) (m.tree dir r.files))

result_paths_lem :
    (m : Machine) (name id : Text) (r : Run m)
    → let dir = run_check_dir m name id in
      get_same_file_name_files (render dir) (codes "total_result.txt") (m.tree dir r.files) []
      ≡ result_paths m name id r
result_paths_lem m name id r =
    let dir = run_check_dir m name id in
    get_same_file_name_files_lem (render dir) (codes "total_result.txt") (m.tree dir r.files) []

-- The texts of all results are read, and the file of the aggregation holds the results in them, in
-- the order of the files.
pub record Aggregated (m : Machine) (json : ResultJson) (name id : Text) (r r' : Run m)
    (result : ActionResult) : Type 0 where
  pub texts : List Text
  pub read : AreRead (result_paths m name id r) texts r
  pub printed : Text
  pub prints : json.marshal_results (results_of json texts) ≡ ok printed
  pub saved : m.os.read_file (aggregation_path m json name id) r'.files ≡ ok printed
  pub number : ℤ
  pub report_is : result ≡ check_report number (render (aggregation_path m json name id))

abbrev pub context_of : Text → Text → CheckContext
context_of name id = record { workdir = none; name = some name; id = some id }

run_number_ok :
    (m : Machine) (id : Text) (i : ℤ) (r r' : Run m) → run_number id r ≡ some (ok i, r') → r ≡ r'
unfolding run_number
run_number_ok m id i r r' e = elim (Option-cases (atoi id)) [
  | inl h ↦ absurd cc (rw (run_number, h) at e)
  | inr (j, h) ↦ cc (rw (run_number, h) at e)
]

returned_ok :
    {A : Type 0} (m : Machine) (a b : A) (r r' : Run m)
    → ◌≡◌ {A = Option (Fallible A × Run m)} (some (ok a, r)) (some (ok b, r'))
    → (b ≡ a) × (r ≡ r')
returned_ok m a b r r' e = (cc e, cc e)

-- A hook that returns a result has read every file "total_result.txt" below the folder of the run's
-- checks, and saved and reported a file with the results in these texts, in the order of the files:
-- for each of the five kinds of reports that a text names, in their order, the result that it is
-- read as, up to the first that cannot be read. The context has the name and the number of the job,
-- and the operating system keeps the laws of a file system.
pub aggregation_hook-Aggregated :
    (m : Machine) (json : ResultJson) (name id : Text) (r r' : Run m) (result : ActionResult)
    → IsLawful m.os
    → aggregation_hook m json (context_of name id) r ≡ some (ok result, r')
    → Aggregated m json name id r r' result
unfolding aggregation_hook
aggregation_hook-Aggregated m json name id r r' result lawful e =
    let dir = run_check_dir m name id in
    let (made, r1, e1, f1) = next_ok (ensure_dir dir r) _ result r' e in
    let (results, r2, e2, f2) =
      next_ok
        (read_reports m json
          (get_same_file_name_files (render dir) (codes "total_result.txt") (m.tree dir r.files) [])
          [] r1)
        _ result r' f1 in
    let e2' =
      subst (λ paths. read_reports m json paths [] r1 ≡ some (ok results, r2))
        (result_paths_lem m name id r) e2 in
    let (created, r3, e3, f3) =
      next_ok (write_output (aggregation_path m json name id) [] r2) _ result r' f2 in
    let (text, r4, e4, f4) =
      next_ok (from_result {m = m} (json.marshal_results results) r3) _ result r' f3 in
    let (written, r5, e5, f5) =
      next_ok (write_output (aggregation_path m json name id) text r4) _ result r' f4 in
    let (number, r6, e6, f6) = next_ok (run_number id r5) _ result r' f5 in
    let (texts, read, results_are, same) =
      read_reports_ok json (result_paths m name id r) [] results r1 r2 e2' in
    let (is_report, is_end) =
      returned_ok m (check_report number (render (aggregation_path m json name id))) result r6 r'
        f6 in
    record {
      texts = texts;
      read = AreRead_before dir (result_paths m name id r) texts r r1 lawful e1 read;
      printed = text;
      prints =
          subst (λ x. json.marshal_results x ≡ ok text) results_are
            (from_result_ok (json.marshal_results results) text r3 r4 e4).0;
      saved =
          subst (λ (x : Run m). m.os.read_file (aggregation_path m json name id) x.files ≡ ok text)
            (run_number_ok m id number r5 r6 e6 ∙ is_end)
            (write_output_ok lawful (aggregation_path m json name id) text r4 r5 e5);
      number = number;
      report_is = is_report;
    }
