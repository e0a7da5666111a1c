-- ===== src/MetaScan/Analyzer.antt =====
-- `formatSAData`: the findings of the security analyzer, by file, and how many there are of each
-- severity.
use aline_engine.Base.{◌+◌, Bool, Option, none, some, List, [], ◌∷◌, ◌++◌, if◌then◌else◌}
use aline_engine.Base.Int.{ℤ}
use aline_engine.Base.Map.{Map, lookup, insert, is_some}
use aline_engine.Base.Text.{Text, codes, text_eq}
use aline_engine.MetaScan.Types.{Impact, TaskResultRes}
use aline_engine.Storage.Os.{Fallible, ok, failed}

pub record MalwareWorkflowEngine : Type 0 where
  pub id : Text
  pub code : Text
  pub severity : Text
  pub title : Text
  pub confidence : Text
  pub description : Text
  pub recommendation : Text

pub record AffectedFile : Type 0 where
  pub filepath : Text
  pub filepath_relative : Text
  pub hightlights : List ℤ
  pub line_start : ℤ
  pub line_end : ℤ

pub record SecurityAnalyzerResult : Type 0 where
  pub mwe : MalwareWorkflowEngine
  pub show_title : Text
  pub affected_files : List AffectedFile

pub record SecurityAnalyzerResponse : Type 0 where
  pub success : Bool
  pub error : Text
  pub results : List SecurityAnalyzerResult
  pub file_mapping : Map Text

pub record FormatMalwareWorkflowEngine : Type 0 where
  pub engine : MalwareWorkflowEngine
  pub show_title : Text
  pub hightlights : List ℤ
  pub line_start : ℤ
  pub line_end : ℤ

pub record FormatSecurityAnalyzerResult : Type 0 where
  pub filepath : Text
  pub mwe : List FormatMalwareWorkflowEngine
  pub file_key : Text

-- A missing key of a map reads as the zero value.
abbrev pub or_no_text : Option Text → Text
or_no_text none = []
or_no_text (some t) = t

abbrev pub or_no_group : Option (List AffectedFile) → List AffectedFile
or_no_group none = []
or_no_group (some fs) = fs

-- The first loop: the files of all results, one after the other.
unfoldable pub all_files : List SecurityAnalyzerResult → List AffectedFile
all_files [] = []
all_files (r ∷ rs) = r.affected_files ++ all_files rs

-- The second loop: the files by their path.
unfoldable pub group_files : List AffectedFile → Map (List AffectedFile) → Map (List AffectedFile)
group_files [] groups = groups
group_files (f ∷ fs) groups =
    group_files fs (insert f.filepath (or_no_group (lookup f.filepath groups) ++ (f ∷ [])) groups)

-- The finding of a result in a file.
pub finding : SecurityAnalyzerResult → AffectedFile → FormatMalwareWorkflowEngine
finding r f = record {
  engine = r.mwe;
  show_title = r.show_title;
  hightlights = f.hightlights;
  line_start = f.line_start;
  line_end = f.line_end;
}

-- The counters of the loop. The severity of the lowest is compared with "LOW".
unfoldable pub count_severity : Text → Impact → Impact
count_severity severity i =
    if text_eq severity (codes "Critical")
    then record i { critical = i.critical + 1 }
    else if text_eq severity (codes "High")
    then record i { high = i.high + 1 }
    else if text_eq severity (codes "Medium")
    then record i { medium = i.medium + 1 }
    else if text_eq severity (codes "LOW")
    then record i { low = i.low + 1 }
    else record i { informational = i.informational + 1 }

-- `resultMap` and the counters.
pub record Report : Type 0 where
  pub result_map : Map FormatSecurityAnalyzerResult
  pub impact : Impact

abbrev pub entry_of :
    Map Text → Text → Option FormatSecurityAnalyzerResult → FormatSecurityAnalyzerResult
entry_of file_mapping path none = record {
  filepath = path;
  mwe = [];
  file_key = or_no_text (lookup path file_mapping);
}
entry_of file_mapping path (some entry) = entry

abbrev pub with_finding :
    FormatSecurityAnalyzerResult → FormatMalwareWorkflowEngine → FormatSecurityAnalyzerResult
with_finding entry x = record entry { mwe = entry.mwe ++ (x ∷ []) }

-- The body of the last loop.
unfoldable pub add_finding :
    Map Text → Map (List AffectedFile) → SecurityAnalyzerResult → AffectedFile → Report → Report
unfolding finding count_severity
add_finding file_mapping groups r f report =
    let entry = entry_of file_mapping f.filepath (lookup f.filepath report.result_map) in
    if is_some (lookup f.filepath groups)
    then record {
      result_map = insert f.filepath (with_finding entry (finding r f)) report.result_map;
      impact = count_severity r.mwe.severity report.impact;
    }
    else report

unfoldable pub add_findings :
    Map Text
    → Map (List AffectedFile)
    → SecurityAnalyzerResult
    → List AffectedFile
    → Report
    → Report
unfolding add_finding
add_findings file_mapping groups r [] report = report
add_findings file_mapping groups r (f ∷ fs) report =
    add_findings file_mapping groups r fs (add_finding file_mapping groups r f report)

unfoldable pub add_results :
    Map Text → Map (List AffectedFile) → List SecurityAnalyzerResult → Report → Report
unfolding add_findings
add_results file_mapping groups [] report = report
add_results file_mapping groups (r ∷ rs) report =
    add_results file_mapping groups rs (add_findings file_mapping groups r r.affected_files report)

abbrev pub no_impact : Impact
no_impact = record { critical = 0; low = 0; high = 0; medium = 0; informational = 0 }

abbrev pub empty_report : Report
empty_report = record { result_map = []; impact = no_impact }

unfoldable pub report_of : SecurityAnalyzerResponse → Report
unfolding all_files group_files add_results
report_of response =
    add_results response.file_mapping (group_files (all_files response.results) []) response.results
      empty_report

module _ (unmarshal : Text → Fallible SecurityAnalyzerResponse)
    (marshal : Map FormatSecurityAnalyzerResult → Text) where
  abbrev pub formatted : Fallible SecurityAnalyzerResponse → Fallible (Text × Impact)
  formatted (failed e) = failed e
  formatted (ok response) =
      let report = report_of response in ok (marshal report.result_map, report.impact)

  unfoldable pub format_sa_data : TaskResultRes → Fallible (Text × Impact)
  unfolding report_of
  format_sa_data result = formatted (unmarshal result.body.result)
