-- ===== src/Examples/Scans.antt =====
-- A static scan by a service whose first token has run out, and which answers once that the task still
-- runs.
use aline_engine.Base.{ℕ, suc, ◌≡◌, Bool, true, false, none, some, [], ◌∷◌, ◌==◌, if◌then◌else◌}
use aline_engine.Base.Int.{pos}
use aline_engine.Base.Map.{Map, lookup}
use aline_engine.Base.Text.{Text, codes, text_eq}
use aline_engine.MetaScan.Analyzer.{
  MalwareWorkflowEngine, AffectedFile, SecurityAnalyzerResponse, report_of,
}
use aline_engine.MetaScan.Counts.{findings, in_file, reported_in, report_of_lem}
use aline_engine.MetaScan.Methods.{Json}
use aline_engine.MetaScan.Run.{impact_total}
use aline_engine.MetaScan.Types.{
  Http, MetaScan, Outcome, replied, Request, StartTaskRes, MetaProjectRes, BaseEntity,
  TaskStatusRes, TaskResultRes,
}
use aline_engine.Storage.Os.{ok, failed}

abbrev in_path : Text → AffectedFile
in_path path = record {
  filepath = path;
  filepath_relative = path;
  hightlights = [];
  line_start = pos 1;
  line_end = pos 2;
}

abbrev reentrancy : MalwareWorkflowEngine
reentrancy = record {
  id = codes "7";
  code = codes "R";
  severity = codes "High";
  title = codes "reentrancy";
  confidence = [];
  description = [];
  recommendation = [];
}

abbrev pub response : SecurityAnalyzerResponse
response = record {
  success = true;
  error = [];
  results =
      record {
        mwe = reentrancy;
        show_title = codes "Reentrancy";
        affected_files = in_path (codes "a.sol") ∷ in_path (codes "b.sol") ∷ [];
      }
      ∷ record {
        mwe = record reentrancy { severity = codes "Low" };
        show_title = codes "Naming";
        affected_files = in_path (codes "a.sol") ∷ [];
      }
      ∷ [];
  file_mapping = [];
}

report_of_lem_example :
    (reported_in (codes "a.sol") (report_of response)
      ≡ in_file (codes "a.sol") (findings response.results))
    × (impact_total (report_of response).impact ≡ 3)
report_of_lem_example = report_of_lem response (codes "a.sol")

-- The service counts how often it was asked for the state.
abbrev pub state_after : ℕ → Text
state_after n = if n == 0 then codes "RUNNING" else codes "FAILURE"

abbrev pub running_task : StartTaskRes
running_task = record {
  body = record {
    id = codes "t";
    task_state = codes "RUNNING";
    engine_tasks = record { id = codes "e" } ∷ [];
  };
  message = [];
}

abbrev pub one_project : MetaProjectRes
one_project = record {
  body = record {
    total = pos 1;
    total_pages = pos 1;
    items = record { id = codes "p"; title = codes "site" } ∷ [];
  };
  message = [];
}

abbrev no_impacts : Request → ℕ → Outcome aline_engine.MetaScan.Types.SummaryDataRes × ℕ
no_impacts r n = (
  replied 200 (record {
    body = record {
      result_overview = record {
        success = true;
        error = [];
        impact = record { critical = 0; low = 0; high = 0; medium = 0; informational = 0 };
      };
    };
    message = [];
  }),
  n,
)

-- The projects are listed for the new token only.
abbrev is_new : Map Text → Bool
is_new headers = elim (lookup (codes "Authorization") headers) [
  | none ↦ false
  | some t ↦ text_eq t (codes "Bearer new")
]

abbrev pub service : Http
service = record {
  Server = ℕ;
  get_projects = λ r n. (replied (if is_new r.headers then 200 else 401) one_project, n);
  post_project = λ r n. (
    replied 200
        (record { message = []; body = record { id = codes "p"; title = [] }; code = pos 0 }),
    n,
  );
  post_task = λ r n. (replied 200 running_task, n);
  get_state = λ r n.
      (replied 200 (record { body = record { state = state_after n }; message = [] }), suc n);
  get_summary = no_impacts;
  get_result = λ r n. (
    replied 200 (record { body = record { title = []; result = codes "json" }; message = [] }),
    n,
  );
  post_token =
      λ r n. (replied 200 (record { access_token = codes "new"; token_type = codes "Bearer" }), n);
}

abbrev pub json : Json
json = record {
  unmarshal_sa = λ t. ok response;
  marshal_sa = λ m. codes "report";
  parse_cq =
      λ t. record { version = []; success = true; message = []; file_mapping = []; results = [] };
  marshal_cq = λ j. [];
  unmarshal_sp = λ t. failed (codes "no prover");
  marshal_sp = λ j. [];
  marshal_impact = λ i. codes "impact";
}

abbrev pub scan : MetaScan
scan = record {
  engine_type = codes "STATIC";
  scan_token = codes "Bearer old";
  project_name = codes "site";
  project_url = [];
  organization_id = [];
  tool = codes "MetaTrust";
  user_id = [];
  params = [];
  written = [];
}

abbrev pub renewed : MetaScan
renewed = record scan {
  scan_token = codes "Bearer new";
  params = (codes "scanToken", codes "Bearer new") ∷ [];
}
