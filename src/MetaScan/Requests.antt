-- ===== src/MetaScan/Requests.antt =====
-- The requests of `MetaScanCheckAction` and how each is made again with a new token.
use aline_engine.Base.{ℕ, [], ◌∷◌, ◌++◌, ◌==◌, if◌then◌else◌}
use aline_engine.Base.Int.{pos}
use aline_engine.Base.Map.{Map, insert}
use aline_engine.Base.Text.{Text, codes, text_eq}
use aline_engine.MetaScan.Types.{
  AccessToken, Request, no_body, create_data, scan_body, form_data, Http, Outcome, replied,
  unreachable, MetaScan,
}
use aline_engine.Storage.Os.{Fallible, ok, failed}
use aline_engine.Utils.Decimal.{itoa}
use aline_engine.Utils.Strings.{trim_prefix, trim_suffix}

abbrev pub org_headers : (token organization_id user_id : Text) → Map Text
org_headers token organization_id user_id =
    (codes "Authorization", token)
    ∷ (codes "X-MetaScan-Org", organization_id)
    ∷ (codes "X-MetaScan-Reference", user_id)
    ∷ []

abbrev pub json_headers : (token organization_id user_id : Text) → Map Text
json_headers token organization_id user_id =
    org_headers token organization_id user_id
    ++ ((codes "Content-Type", codes "application/json") ∷ [])

unfoldable pub get_project_list : (title token organization_id user_id : Text) → Request
get_project_list title token organization_id user_id = record {
  url = codes "https://app.metatrust.io/api/project";
  query_params = (codes "title", title) ∷ [];
  path_params = [];
  headers = org_headers token organization_id user_id;
  body = no_body;
}

unfoldable pub handle_repo_url : Text → Text
handle_repo_url url = trim_suffix (trim_prefix url (codes "https://github.com/")) (codes ".git")

pub create_meta_scan_project : (title repo_url token organization_id user_id : Text) → Request
create_meta_scan_project title repo_url token organization_id user_id = record {
  url = codes "https://app.metatrust.io/api/project";
  query_params = [];
  path_params = [];
  headers = json_headers token organization_id user_id;
  body = create_data title (handle_repo_url repo_url) (codes "github");
}

pub start_scan_task : (project_id engine_type token organization_id user_id : Text) → Request
start_scan_task project_id engine_type token organization_id user_id = record {
  url = codes "https://app.metatrust.io/api/scan/task";
  query_params = (codes "action", codes "start-scan") ∷ (codes "projectId", project_id) ∷ [];
  path_params = [];
  headers = json_headers token organization_id user_id;
  body =
      scan_body (engine_type ∷ []) (record { branch = []; commit_hash = [] })
        (record {
          sub_path = [];
          mode = [];
          ignored_paths = codes "node_modules,test,tests,mock";
          experimental_ai_scan = codes "QUICK";
        })
        (record {
          node = [];
          solc = [];
          package_manage = [];
          compile_command = [];
          variables = [];
        });
}

pub query_task_status : (task_id token organization_id user_id : Text) → Request
query_task_status task_id token organization_id user_id = record {
  url = codes "https://app.metatrust.io/api/scan/state";
  query_params = (codes "taskId", task_id) ∷ [];
  path_params = [];
  headers = org_headers token organization_id user_id;
  body = no_body;
}

pub get_engine_task_summary : (engine_task_id token organization_id user_id : Text) → Request
get_engine_task_summary engine_task_id token organization_id user_id = record {
  url = codes "https://app.metatrust.io/api/scan/engineTask/{engineTaskId}";
  query_params = [];
  path_params = (codes "engineTaskId", engine_task_id) ∷ [];
  headers = org_headers token organization_id user_id;
  body = no_body;
}

pub get_task_result : (engine_task_id token organization_id user_id : Text) → Request
get_task_result engine_task_id token organization_id user_id = record {
  url = codes "https://app.metatrust.io/api/scan/history/engine/{engineTaskId}/result";
  query_params = [];
  path_params = (codes "engineTaskId", engine_task_id) ∷ [];
  headers = org_headers token organization_id user_id;
  body = no_body;
}

-- The user and the password are variables of the environment.
pub token_request : (user password : Text) → Request
token_request user password = record {
  url = codes "https://account.metatrust.io/realms/mt/protocol/openid-connect/token";
  query_params = [];
  path_params = [];
  headers = (codes "Content-Type", codes "application/x-www-form-urlencoded") ∷ [];
  body = form_data (
      (codes "grant_type", codes "password")
      ∷ (codes "username", user)
      ∷ (codes "password", password)
      ∷ (codes "client_id", codes "webapp")
      ∷ []);
}

-- The texts in which the errors of the requests differ.
pub record Texts : Type 0 where
  pub still_refused : Text
  pub bad_status : Text
  pub code_is : Text

module _ (http : Http) (user password : Text) where
  abbrev pub token_of : Outcome AccessToken → Text
  token_of (unreachable e) = []
  token_of (replied code t) =
      if code == 200 then t.token_type ++ (codes " " ++ t.access_token) else []

  unfoldable pub meta_scan_http_request_token : http.Server → Text × http.Server
  meta_scan_http_request_token s =
      let (o, s') = http.post_token (token_request user password) s in (token_of o, s')

  abbrev pub with_new_token : Text → MetaScan → MetaScan
  with_new_token token m = record m {
    scan_token = token;
    params = insert (codes "scanToken") token m.params;
  }

  module _ {R : Type 0} (message : R → Text) (texts : Texts)
      (call : (token : Text) → http.Server → Outcome R × http.Server) where
    -- The test whether the status is 200.
    abbrev pub checked : ℕ → R → Fallible R
    checked code r =
        if code == 200
        then ok r
        else failed (texts.bad_status ++ (message r ++ (texts.code_is ++ itoa (pos code))))

    abbrev pub after_second :
        MetaScan → Outcome R × http.Server → Fallible R × MetaScan × http.Server
    after_second m (unreachable e, s) = (failed e, m, s)
    after_second m (replied code r, s) =
        if code == 401 then (failed texts.still_refused, m, s) else (checked code r, m, s)

    abbrev pub with_token : MetaScan → Text × http.Server → Fallible R × MetaScan × http.Server
    with_token m (token, s) =
        if text_eq token []
        then (failed (codes "Failed to retrieve token again"), m, s)
        else after_second (with_new_token token m) (call token s)

    abbrev pub after_first :
        MetaScan → Outcome R × http.Server → Fallible R × MetaScan × http.Server
    after_first m (unreachable e, s) = (failed e, m, s)
    after_first m (replied code r, s) =
        if code == 401
        then with_token m (meta_scan_http_request_token s)
        else (checked code r, m, s)

    -- A request, and once more with a new token where the first is not authorised.
    unfoldable pub request_with_token : MetaScan → http.Server → Fallible R × MetaScan × http.Server
    unfolding meta_scan_http_request_token
    request_with_token m s = after_first m (call m.scan_token s)
