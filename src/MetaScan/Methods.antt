-- ===== src/MetaScan/Methods.antt =====
-- The methods of `MetaScanCheckAction` that ask the service, and the report by the type of the engine.
use aline_engine.Base.{if◌then◌else◌}
use aline_engine.Base.Map.{Map}
use aline_engine.Base.Text.{Text, codes, text_eq}
use aline_engine.MetaScan.Analyzer.{
  SecurityAnalyzerResponse, FormatSecurityAnalyzerResult, format_sa_data, no_impact,
}
use aline_engine.MetaScan.Prover.{SecurityProverResponse, SpJson, format_sp_data}
use aline_engine.MetaScan.Quality.{CqResult, CqJson, format_cq_data}
use aline_engine.MetaScan.Requests.{
  get_project_list, create_meta_scan_project, start_scan_task, query_task_status,
  get_engine_task_summary, get_task_result, request_with_token,
}
use aline_engine.MetaScan.Types.{
  MetaProjectRes, CreateProjectRes, StartTaskRes, TaskStatusRes, Impact, SummaryDataRes,
  TaskResultRes, Http, MetaScan,
}
use aline_engine.Storage.Os.{Fallible, ok, failed}

-- The packages json and gjson, for the results of the service.
pub record Json : Type 0 where
  pub unmarshal_sa : Text → Fallible SecurityAnalyzerResponse
  pub marshal_sa : Map FormatSecurityAnalyzerResult → Text
  pub parse_cq : Text → CqResult
  pub marshal_cq : CqJson → Text
  pub unmarshal_sp : Text → Fallible SecurityProverResponse
  pub marshal_sp : SpJson → Text
  pub marshal_impact : Impact → Text

module _ (http : Http) (user password : Text) (json : Json) where
  abbrev pub Answered : Type 0 → Type 0
  Answered A = Fallible A × MetaScan × http.Server

  unfoldable pub meta_scan_get_projects : MetaScan → http.Server → Answered MetaProjectRes
  meta_scan_get_projects m s =
      request_with_token http user password (λ (r : MetaProjectRes). r.message)
        (record {
          still_refused = codes "No permission to obtain meta scan projects";
          bad_status = codes "get project list failed:";
          code_is = codes ",error code is ";
        })
        (λ token.
          http.get_projects (get_project_list m.project_name token m.organization_id m.user_id))
        m s

  unfoldable pub meta_scan_create_project : MetaScan → http.Server → Answered CreateProjectRes
  meta_scan_create_project m s =
      request_with_token http user password (λ (r : CreateProjectRes). r.message)
        (record {
          still_refused = codes "Again no permission to create meta scan project";
          bad_status = codes "create project failed:";
          code_is = codes ",error code is ";
        })
        (λ token.
          http.post_project (
            create_meta_scan_project m.project_name m.project_url token m.organization_id
              m.user_id))
        m s

  unfoldable pub meta_scan_start_scan_task : Text → MetaScan → http.Server → Answered StartTaskRes
  meta_scan_start_scan_task project_id m s =
      request_with_token http user password (λ (r : StartTaskRes). r.message)
        (record {
          still_refused = codes "Again no permission to start scan";
          bad_status = codes "start scan task failed:";
          code_is = codes ",error code is ";
        })
        (λ token.
          http.post_task
            (start_scan_task project_id m.engine_type token m.organization_id m.user_id))
        m s

  unfoldable pub meta_scan_query_task_status :
      Text → MetaScan → http.Server → Answered TaskStatusRes
  meta_scan_query_task_status task_id m s =
      request_with_token http user password (λ (r : TaskStatusRes). r.message)
        (record {
          still_refused = codes "Again no permission to query task status";
          bad_status = codes "query task status failed:";
          code_is = codes ", error code is ";
        })
        (λ token. http.get_state (query_task_status task_id token m.organization_id m.user_id)) m s

  unfoldable pub meta_scan_get_engine_task_summary :
      Text → MetaScan → http.Server → Answered SummaryDataRes
  meta_scan_get_engine_task_summary id m s =
      request_with_token http user password (λ (r : SummaryDataRes). r.message)
        (record {
          still_refused = codes "Again no permission to query engine task summary";
          bad_status = codes "query engine task summary failed:";
          code_is = codes ",error code is ";
        })
        (λ token. http.get_summary (get_engine_task_summary id token m.organization_id m.user_id)) m
        s

  abbrev pub no_overview : Fallible Text → Fallible (Text × Impact)
  no_overview (ok t) = ok (t, no_impact)
  no_overview (failed e) = failed e

  -- The report of a result, by the type of the engine.
  unfoldable pub report_by_type : Text → TaskResultRes → Fallible (Text × Impact)
  report_by_type engine_type r =
      if text_eq engine_type (codes "STATIC")
      then format_sa_data json.unmarshal_sa json.marshal_sa r
      else if text_eq engine_type (codes "PROVER")
      then no_overview (format_sp_data json.unmarshal_sp json.marshal_sp r)
      else if text_eq engine_type (codes "LINT")
      then ok (format_cq_data json.parse_cq json.marshal_cq r, no_impact)
      else ok (r.body.result, no_impact)

  abbrev pub reported : Answered TaskResultRes → Answered (Text × Impact)
  reported (failed e, m, s) = (failed e, m, s)
  reported (ok r, m, s) = (report_by_type m.engine_type r, m, s)

  unfoldable pub ask_task_result : Text → MetaScan → http.Server → Answered TaskResultRes
  ask_task_result id m s =
      request_with_token http user password (λ (r : TaskResultRes). r.message)
        (record {
          still_refused = codes "Again no permission to query engine task result";
          bad_status = codes "query engine task result failed:";
          code_is = codes ",error code is ";
        })
        (λ token. http.get_result (get_task_result id token m.organization_id m.user_id)) m s

  unfoldable pub meta_scan_get_task_result :
      Text → MetaScan → http.Server → Answered (Text × Impact)
  unfolding report_by_type ask_task_result
  meta_scan_get_task_result id m s = reported (ask_task_result id m s)
