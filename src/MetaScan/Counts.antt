-- ===== src/MetaScan/Counts.antt =====
-- What the report of the security analyzer holds, against a list of all findings.
use aline_engine.Base.{
  ◌+◌, ◌≡◌, refl, sym, ◌∙◌, ap, true, Option, none, some, List, [], ◌∷◌, ◌++◌, length, map, arith,
  if◌then◌else◌, Bool-cases, inl, inr, length-append, length-map,
}
use mathlib.Core.List.{append_assoc, append-nil}
use aline_engine.Base.Map.{Map, lookup, insert, is_some, lookup-insert_self, lookup-insert}
use aline_engine.Base.Text.{Text, text_eq, text_eq_iff}
use aline_engine.MetaScan.Analyzer.{
  SecurityAnalyzerResult, SecurityAnalyzerResponse, AffectedFile, FormatMalwareWorkflowEngine,
  FormatSecurityAnalyzerResult, Report, all_files, group_files, finding, count_severity,
  add_finding, add_findings, add_results, report_of, empty_report, entry_of, with_finding,
  or_no_group,
}
use aline_engine.MetaScan.Run.{impact_total}
use aline_engine.MetaScan.Types.{Impact}

-- The results with each of their files, in the order of the response.
abbrev pub Finding : Type 0
Finding = SecurityAnalyzerResult × AffectedFile

abbrev pub with_result : SecurityAnalyzerResult → List AffectedFile → List Finding
with_result r fs = map (λ f. (r, f)) fs

abbrev pub findings : List SecurityAnalyzerResult → List Finding
findings [] = []
findings (r ∷ rs) = with_result r r.affected_files ++ findings rs

-- The findings in a file.
abbrev pub in_file : Text → List Finding → List FormatMalwareWorkflowEngine
in_file path [] = []
in_file path ((r, f) ∷ ps) =
    let rest = in_file path ps in if text_eq f.filepath path then finding r f ∷ rest else rest

abbrev pub mwe_of : Option FormatSecurityAnalyzerResult → List FormatMalwareWorkflowEngine
mwe_of none = []
mwe_of (some entry) = entry.mwe

-- What the report holds of a file.
abbrev pub reported_in : Text → Report → List FormatMalwareWorkflowEngine
reported_in path report = mwe_of (lookup path report.result_map)

-- One finding counts once, whatever its severity.
impact_total-count_severity :
    (severity : Text) (i : Impact) → impact_total (count_severity severity i) ≡ impact_total i + 1
unfolding count_severity
impact_total-count_severity severity i = ground arith

length-with_result :
    (r : SecurityAnalyzerResult) (fs : List AffectedFile) → length (with_result r fs) ≡ length fs
length-with_result r fs = length-map {B = Finding} (λ f. (r, f)) fs

in_file-append :
    (path : Text) (ps qs : List Finding)
    → in_file path (ps ++ qs) ≡ in_file path ps ++ in_file path qs
in_file-append path [] qs = refl
in_file-append path ((r, f) ∷ ps) qs = ground (arith, in_file-append path ps qs)

some_after :
    (path k : Text) (v : List AffectedFile) (groups : Map (List AffectedFile))
    → is_some (lookup path groups) ≡ true
    → is_some (lookup path (insert k v groups)) ≡ true
some_after path k v groups h = ground (arith, lookup-insert k path v groups)

-- Every file of the response has a group.
group_files_keeps :
    (path : Text) (fs : List AffectedFile) (groups : Map (List AffectedFile))
    → is_some (lookup path groups) ≡ true
    → is_some (lookup path (group_files fs groups)) ≡ true
unfolding group_files
group_files_keeps path [] groups h = h
group_files_keeps path (f ∷ fs) groups h =
    group_files_keeps path fs
      (insert f.filepath (or_no_group (lookup f.filepath groups) ++ f ∷ []) groups)
      (some_after path f.filepath (or_no_group (lookup f.filepath groups) ++ f ∷ []) groups h)

-- Each of some files has a group.
abbrev AreGrouped : Map (List AffectedFile) → List AffectedFile → Type 0
AreGrouped groups [] = Unit {0}
AreGrouped groups (f ∷ fs) = (is_some (lookup f.filepath groups) ≡ true) × AreGrouped groups fs

group_files-AreGrouped :
    (fs : List AffectedFile) (groups : Map (List AffectedFile))
    → AreGrouped (group_files fs groups) fs
unfolding group_files
group_files-AreGrouped [] groups = tt
group_files-AreGrouped (f ∷ fs) groups =
    let groups' = insert f.filepath (or_no_group (lookup f.filepath groups) ++ f ∷ []) groups in
    (
      group_files_keeps f.filepath fs groups' (
          ap is_some (
            lookup-insert_self f.filepath (or_no_group (lookup f.filepath groups) ++ f ∷ [])
              groups)),
      group_files-AreGrouped fs groups',
    )

AreGrouped-append :
    (groups : Map (List AffectedFile)) (fs gs : List AffectedFile)
    → AreGrouped groups (fs ++ gs)
    → AreGrouped groups fs × AreGrouped groups gs
AreGrouped-append groups [] gs h = (tt, h)
AreGrouped-append groups (f ∷ fs) gs (h, hs) =
    let (a, b) = AreGrouped-append groups fs gs hs in ((h, a), b)

joined : {A : Type 0} (l a b : List A) {m c : List A} → m ≡ l ++ a → c ≡ a ++ b → m ++ b ≡ l ++ c
joined l a b h k = ap (λ x. x ++ b) h ∙ append_assoc l a b ∙ ap (λ x. l ++ x) (sym k)

module _ (file_mapping : Map Text) (groups : Map (List AffectedFile)) where
  mwe-entry_of :
      (k : Text) (o : Option FormatSecurityAnalyzerResult)
      → (entry_of file_mapping k o).mwe ≡ mwe_of o
  mwe-entry_of k none = refl
  mwe-entry_of k (some entry) = refl

  put_finding :
      (path k : Text) (x : FormatMalwareWorkflowEngine) (m : Map FormatSecurityAnalyzerResult)
      → mwe_of (lookup path (insert k (with_finding (entry_of file_mapping k (lookup k m)) x) m))
        ≡ mwe_of (lookup path m) ++ (if text_eq k path then x ∷ [] else [])
  put_finding path k x m =
      rw (lookup-insert k path (with_finding (entry_of file_mapping k (lookup k m)) x) m)
        (elim (Bool-cases (text_eq k path)) [
          | inl e ↦ rw e (
              ap (λ l. l ++ x ∷ []) (mwe-entry_of k (lookup k m))
              ∙ ap (λ j. mwe_of (lookup j m) ++ x ∷ []) ((text_eq_iff k path).0 e))
          | inr e ↦ rw e (sym (append-nil (mwe_of (lookup path m))))
        ])

  -- What one round of the loop adds.
  add_finding_lem :
      (path : Text) (r : SecurityAnalyzerResult) (f : AffectedFile) (report : Report)
      → is_some (lookup f.filepath groups) ≡ true
      → (reported_in path (add_finding file_mapping groups r f report)
          ≡ reported_in path report ++ in_file path ((r, f) ∷ []))
        × (impact_total (add_finding file_mapping groups r f report).impact
            ≡ impact_total report.impact + 1)
  unfolding add_finding
  add_finding_lem path r f report h = rw h (
    put_finding path f.filepath (finding r f) report.result_map,
    impact_total-count_severity r.mwe.severity report.impact,
  )

  add_findings_lem :
      (path : Text) (r : SecurityAnalyzerResult) (fs : List AffectedFile) (report : Report)
      → AreGrouped groups fs
      → (reported_in path (add_findings file_mapping groups r fs report)
          ≡ reported_in path report ++ in_file path (with_result r fs))
        × (impact_total (add_findings file_mapping groups r fs report).impact
            ≡ impact_total report.impact + length fs)
  unfolding add_findings
  add_findings_lem path r [] report h = (sym (append-nil (reported_in path report)), omega arith)
  add_findings_lem path r (f ∷ fs) report (h, hs) =
      let (a, b) = add_finding_lem path r f report h in
      let (c, d) = add_findings_lem path r fs (add_finding file_mapping groups r f report) hs in
      let rest : List Finding = with_result r fs in
      (
        c
            ∙ joined (reported_in path report) (in_file path ((r, f) ∷ [])) (in_file path rest) a
                (in_file-append path ((r, f) ∷ []) rest),
        omega (arith, b, d),
      )

  add_results_lem :
      (path : Text) (rs : List SecurityAnalyzerResult) (report : Report)
      → AreGrouped groups (all_files rs)
      → (reported_in path (add_results file_mapping groups rs report)
          ≡ reported_in path report ++ in_file path (findings rs))
        × (impact_total (add_results file_mapping groups rs report).impact
            ≡ impact_total report.impact + length (findings rs))
  unfolding add_results all_files
  add_results_lem path [] report h = (sym (append-nil (reported_in path report)), omega arith)
  add_results_lem path (r ∷ rs) report h =
      let (h1, h2) = AreGrouped-append groups r.affected_files (all_files rs) h in
      let (a, b) = add_findings_lem path r r.affected_files report h1 in
      let next = add_findings file_mapping groups r r.affected_files report in
      let (c, d) = add_results_lem path rs next h2 in
      let here : List Finding = with_result r r.affected_files in
      (
        c
            ∙ joined (reported_in path report) (in_file path here) (in_file path (findings rs)) a
                (in_file-append path here (findings rs)),
        omega
            (arith, b, d, length-append here (findings rs), length-with_result r r.affected_files),
      )

-- The report of the security analyzer holds, for each file, the findings in this file in the order of
-- the response, and no other. Its counters add up to the number of all findings.
pub report_of_lem :
    (response : SecurityAnalyzerResponse) (path : Text)
    → (reported_in path (report_of response) ≡ in_file path (findings response.results))
      × (impact_total (report_of response).impact ≡ length (findings response.results))
unfolding report_of lookup
report_of_lem response path =
    let groups = group_files (all_files response.results) [] in
    let (a, b) =
      add_results_lem response.file_mapping groups path response.results empty_report
        (group_files-AreGrouped (all_files response.results) []) in
    (a, omega (arith, b))
