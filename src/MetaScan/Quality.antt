-- ===== src/MetaScan/Quality.antt =====
-- `formatCQData`: the issues of the code quality check, by file. What gjson reads of the result is the
-- record `CqResult`.
use aline_engine.Base.{Bool, Option, none, some, List, [], ◌∷◌, ◌++◌}
use aline_engine.Base.Int.{ℤ}
use aline_engine.Base.Map.{Map, lookup, insert}
use aline_engine.Base.Text.{Text}
use aline_engine.MetaScan.Analyzer.{or_no_text}
use aline_engine.MetaScan.Types.{TaskResultRes}

pub record CqFile : Type 0 where
  pub file_path : Text
  pub line : ℤ
  pub column : ℤ
  pub highlights : List ℤ

pub record CqFinding : Type 0 where
  pub code : Text
  pub category : Text
  pub severity : Text
  pub title : Text
  pub description : Text
  pub affected_files : List CqFile

pub record CqResult : Type 0 where
  pub version : Text
  pub success : Bool
  pub message : Text
  pub file_mapping : Map Text
  pub results : List CqFinding

pub record CqAffectedFile : Type 0 where
  pub line : ℤ
  pub column : ℤ
  pub highlights : List ℤ

pub record Detail : Type 0 where
  pub code : Text
  pub category : Text
  pub severity : Text
  pub title : Text
  pub description : Text
  pub affected_files : CqAffectedFile

pub record Issue : Type 0 where
  pub file_path : Text
  pub file_address : Text
  pub details : List Detail

pub record CqJson : Type 0 where
  pub version : Text
  pub success : Bool
  pub message : Text
  pub issues : Map Issue

pub detail_of : CqFinding → CqFile → Detail
detail_of v af = record {
  code = v.code;
  category = v.category;
  severity = v.severity;
  title = v.title;
  description = v.description;
  affected_files = record { line = af.line; column = af.column; highlights = af.highlights };
}

abbrev pub details_of : Option Issue → List Detail
details_of none = []
details_of (some issue) = issue.details

-- The body of the inner loop.
pub add_issue : Map Text → CqFinding → CqFile → Map Issue → Map Issue
unfolding detail_of
add_issue file_mapping v af issues =
    insert af.file_path
      (record {
        file_path = af.file_path;
        file_address = or_no_text (lookup af.file_path file_mapping);
        details = details_of (lookup af.file_path issues) ++ (detail_of v af ∷ []);
      })
      issues

pub add_file_issues : Map Text → CqFinding → List CqFile → Map Issue → Map Issue
unfolding add_issue
add_file_issues file_mapping v [] issues = issues
add_file_issues file_mapping v (af ∷ afs) issues =
    add_file_issues file_mapping v afs (add_issue file_mapping v af issues)

pub add_issues : Map Text → List CqFinding → Map Issue → Map Issue
unfolding add_file_issues
add_issues file_mapping [] issues = issues
add_issues file_mapping (v ∷ vs) issues =
    add_issues file_mapping vs (add_file_issues file_mapping v v.affected_files issues)

pub cq_json_of : CqResult → CqJson
unfolding add_issues
cq_json_of result = record {
  version = result.version;
  success = result.success;
  message = result.message;
  issues = add_issues result.file_mapping result.results [];
}

-- An error of printing is only logged.
unfoldable pub format_cq_data : (Text → CqResult) → (CqJson → Text) → TaskResultRes → Text
unfolding cq_json_of
format_cq_data parse marshal results = marshal (cq_json_of (parse results.body.result))
