-- ===== src/MetaScan/Types.antt =====
-- The answers of the service and the requests that it gets. The counts of an `Impact` are not negative.
use aline_engine.Base.{ℕ, Bool, List}
use aline_engine.Base.Int.{ℤ}
use aline_engine.Base.Map.{Map}
use aline_engine.Base.Text.{Text}

pub record MetaScanProject : Type 0 where
  pub id : Text
  pub title : Text

pub record MetaProjectsData : Type 0 where
  pub total : ℤ
  pub total_pages : ℤ
  pub items : List MetaScanProject

pub record MetaProjectRes : Type 0 where
  pub body : MetaProjectsData
  pub message : Text

pub record CreateProjectRes : Type 0 where
  pub message : Text
  pub body : MetaScanProject
  pub code : ℤ

pub record BaseEntity : Type 0 where
  pub id : Text

pub record TaskData : Type 0 where
  pub id : Text
  pub task_state : Text
  pub engine_tasks : List BaseEntity

pub record StartTaskRes : Type 0 where
  pub body : TaskData
  pub message : Text

pub record TaskStatus : Type 0 where
  pub state : Text

pub record TaskStatusRes : Type 0 where
  pub body : TaskStatus
  pub message : Text

pub record Impact : Type 0 where
  pub critical : ℕ
  pub low : ℕ
  pub high : ℕ
  pub medium : ℕ
  pub informational : ℕ

pub record ResultOverview : Type 0 where
  pub success : Bool
  pub error : Text
  pub impact : Impact

pub record SummaryData : Type 0 where
  pub result_overview : ResultOverview

pub record SummaryDataRes : Type 0 where
  pub body : SummaryData
  pub message : Text

pub record TaskResult : Type 0 where
  pub title : Text
  pub result : Text

pub record TaskResultRes : Type 0 where
  pub body : TaskResult
  pub message : Text

pub record AccessToken : Type 0 where
  pub access_token : Text
  pub token_type : Text

-- The bodies of the requests.
pub record Repo : Type 0 where
  pub branch : Text
  pub commit_hash : Text

pub record TaskScan : Type 0 where
  pub sub_path : Text
  pub mode : Text
  pub ignored_paths : Text
  pub experimental_ai_scan : Text

pub record TaskEnv : Type 0 where
  pub node : Text
  pub solc : Text
  pub package_manage : Text
  pub compile_command : Text
  pub variables : Text

pub data Body : Type 0 where
  no_body : Body
  create_data : (title repo_url integration_type : Text) → Body
  scan_body : (engine_types : List Text) (repo : Repo) (scan : TaskScan) (env : TaskEnv) → Body
  form_data : Map Text → Body

pub record Request : Type 0 where
  pub url : Text
  pub query_params : Map Text
  pub path_params : Map Text
  pub headers : Map Text
  pub body : Body

-- What a request comes back with: a status code and the decoded result, or an error.
pub data Outcome (R : Type 0) : Type 0 where
  replied : ℕ → R → Outcome R
  unreachable : Text → Outcome R

pub record Http : Type 1 where
  pub Server : Type 0
  pub get_projects : Request → Server → Outcome MetaProjectRes × Server
  pub post_project : Request → Server → Outcome CreateProjectRes × Server
  pub post_task : Request → Server → Outcome StartTaskRes × Server
  pub get_state : Request → Server → Outcome TaskStatusRes × Server
  pub get_summary : Request → Server → Outcome SummaryDataRes × Server
  pub get_result : Request → Server → Outcome TaskResultRes × Server
  pub post_token : Request → Server → Outcome AccessToken × Server

-- `MetaScanCheckAction`, with the parameters of its context and the lines it has written.
pub record MetaScan : Type 0 where
  pub engine_type : Text
  pub scan_token : Text
  pub project_name : Text
  pub project_url : Text
  pub organization_id : Text
  pub tool : Text
  pub user_id : Text
  pub params : Map Text
  pub written : List Text
