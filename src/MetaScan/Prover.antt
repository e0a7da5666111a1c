-- ===== src/MetaScan/Prover.antt =====
-- `formatSPData`: the issues of the security prover, by file. A parameter of a `Poc` is a JSON value,
-- kept as its text.
use aline_engine.Base.{Bool, Option, none, some, List, [], ◌∷◌, ◌++◌}
use aline_engine.Base.Int.{ℤ}
use aline_engine.Base.Map.{Map, lookup, insert}
use aline_engine.Base.Text.{Text}
use aline_engine.MetaScan.Analyzer.{or_no_text}
use aline_engine.MetaScan.Types.{TaskResultRes}
use aline_engine.Storage.Os.{Fallible, ok, failed}

pub record Position : Type 0 where
  pub line : ℤ
  pub column : ℤ

pub record Range : Type 0 where
  pub start : Position
  pub end : Position

pub record Poc : Type 0 where
  pub function_name : Text
  pub parameters : List Text
  pub location : Text
  pub call_depth : ℤ

pub record SpFile : Type 0 where
  pub file_path : Text
  pub text : Text
  pub range : Range
  pub highlights : List Range

pub record SecurityProverResults : Type 0 where
  pub id : Text
  pub code : Text
  pub severity : Text
  pub title : Text
  pub description : Text
  pub function : Text
  pub affected_files : List SpFile
  pub poc : List Poc

pub record SecurityProverResponse : Type 0 where
  pub results : List SecurityProverResults
  pub file_mapping : Map Text
  pub success : Bool
  pub error : Text
  pub message : Text
  pub version : Text

pub record SpAffectedFiles : Type 0 where
  pub text : Text
  pub range : Range
  pub highlights : List Range

pub record SpDetail : Type 0 where
  pub id : Text
  pub code : Text
  pub severity : Text
  pub title : Text
  pub description : Text
  pub function : Text
  pub affected_files : SpAffectedFiles
  pub poc : List Poc

pub record SpIssue : Type 0 where
  pub file_path : Text
  pub file_address : Text
  pub details : List SpDetail

pub record SpJson : Type 0 where
  pub version : Text
  pub success : Bool
  pub message : Text
  pub issues : Map SpIssue

pub sp_detail_of : SecurityProverResults → SpFile → SpDetail
sp_detail_of r af = record {
  id = r.id;
  code = r.code;
  severity = r.severity;
  title = r.title;
  description = r.description;
  function = r.function;
  affected_files = record { text = af.text; range = af.range; highlights = af.highlights };
  poc = r.poc;
}

abbrev pub sp_details_of : Option SpIssue → List SpDetail
sp_details_of none = []
sp_details_of (some issue) = issue.details

-- The body of the inner loop.
pub add_sp_issue : Map Text → SecurityProverResults → SpFile → Map SpIssue → Map SpIssue
unfolding sp_detail_of
add_sp_issue file_mapping r af issues =
    insert af.file_path
      (record {
        file_path = af.file_path;
        file_address = or_no_text (lookup af.file_path file_mapping);
        details = sp_details_of (lookup af.file_path issues) ++ (sp_detail_of r af ∷ []);
      })
      issues

pub add_sp_file_issues : Map Text → SecurityProverResults → List SpFile → Map SpIssue → Map SpIssue
unfolding add_sp_issue
add_sp_file_issues file_mapping r [] issues = issues
add_sp_file_issues file_mapping r (af ∷ afs) issues =
    add_sp_file_issues file_mapping r afs (add_sp_issue file_mapping r af issues)

pub add_sp_issues : Map Text → List SecurityProverResults → Map SpIssue → Map SpIssue
unfolding add_sp_file_issues
add_sp_issues file_mapping [] issues = issues
add_sp_issues file_mapping (r ∷ rs) issues =
    add_sp_issues file_mapping rs (add_sp_file_issues file_mapping r r.affected_files issues)

pub sp_json_of : SecurityProverResponse → SpJson
unfolding add_sp_issues
sp_json_of response = record {
  version = response.version;
  success = response.success;
  message = response.message;
  issues = add_sp_issues response.file_mapping response.results [];
}

abbrev pub sp_formatted : (SpJson → Text) → Fallible SecurityProverResponse → Fallible Text
sp_formatted marshal (failed e) = failed e
sp_formatted marshal (ok response) = ok (marshal (sp_json_of response))

-- An error of printing is only logged.
unfoldable pub format_sp_data :
    (Text → Fallible SecurityProverResponse) → (SpJson → Text) → TaskResultRes → Fallible Text
unfolding sp_json_of
format_sp_data unmarshal marshal results = sp_formatted marshal (unmarshal results.body.result)
