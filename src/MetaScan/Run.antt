-- ===== src/MetaScan/Run.antt =====
-- `NewMetaScanCheckAction`, `Pre` and `Hook`. The loop that asks for
-- the state of the task has no bound, so it runs on fuel: `none` is a `Hook` that still asks.
use aline_engine.Base.{
  ℕ, zero, suc, ◌+◌, Bool, true, false, ◌||◌, Option, none, some, List, [], ◌∷◌, ◌++◌,
  if◌then◌else◌, ◌>>=◌,
}
use aline_engine.Base.Int.{pos}
use aline_engine.Base.Map.{Map, lookup}
use aline_engine.Base.Text.{Text, codes, text_eq}
use aline_engine.MetaScan.Analyzer.{or_no_text}
use aline_engine.MetaScan.Types.{
  MetaScanProject, CreateProjectRes, BaseEntity, Impact, SummaryDataRes, Http, MetaScan,
}
use aline_engine.Model.ActionResult.{ActionResult, no_results}
use aline_engine.Storage.Os.{ok, failed}
use aline_engine.Utils.Template.{replace_with_param}
use aline_engine.MetaScan.Methods.{
  Json, Answered, meta_scan_get_projects, meta_scan_create_project, meta_scan_start_scan_task,
  meta_scan_query_task_status, meta_scan_get_engine_task_summary, meta_scan_get_task_result,
}

-- `with_` is the map `With` of the step.
abbrev pub with_of : Map Text → Text → Text
with_of args key = or_no_text (lookup key args)

unfoldable pub new_meta_scan : Map Text → Map Text → MetaScan
new_meta_scan args params = record {
  engine_type = with_of args (codes "engine_type");
  scan_token = with_of args (codes "scan_token");
  project_name = with_of args (codes "project_name");
  project_url = with_of args (codes "project_url");
  organization_id = with_of args (codes "organization_id");
  tool = with_of args (codes "tool");
  user_id = with_of args (codes "user_id");
  params = params;
  written = [];
}

-- `none` is a panic of `ReplaceWithParam`.
unfoldable pub pre : MetaScan → Option MetaScan
pre m = do
  token ← replace_with_param m.scan_token m.params
  name ← replace_with_param m.project_name m.params
  url ← replace_with_param m.project_url m.params
  user ← replace_with_param m.user_id m.params
  some (record m { scan_token = token; project_name = name; project_url = url; user_id = user })

abbrev pub write_error : Text → MetaScan → MetaScan
write_error e m = record m { written = m.written ++ ((codes "[ERROR]: " ++ e) ∷ []) }

abbrev pub impact_total : Impact → ℕ
impact_total i = i.high + i.low + i.medium + i.informational + i.critical

-- The states in which the loop of `Hook` ends.
unfoldable pub is_finished : Text → Bool
is_finished state =
    text_eq state (codes "SUCCESS")
    || (text_eq state (codes "FAILURE")
        || (text_eq state (codes "SYS_ABORT") || text_eq state (codes "ABORT")))

module _ (http : Http) (user password : Text) (json : Json) where
  -- An error is written to the log of the step and ends `Hook`.
  abbrev pub and_then :
      {A B : Type 0}
      → Answered http user password json A
      → (A → MetaScan → http.Server → Option (Answered http user password json B))
      → Option (Answered http user password json B)
  and_then (failed e, m, s) next = some (failed e, write_error e m, s)
  and_then (ok a, m, s) next = next a m s

  abbrev pub created_id :
      Answered http user password json CreateProjectRes → Answered http user password json Text
  created_id (ok p, m, s) = (ok p.body.id, m, s)
  created_id (failed e, m, s) = (failed e, m, s)

  abbrev pub project_of :
      List MetaScanProject → MetaScan → http.Server → Answered http user password json Text
  project_of (p ∷ ps) m s = (ok p.id, m, s)
  project_of [] m s = created_id (meta_scan_create_project http user password json m s)

  -- The loop that waits for the task.
  unfoldable pub await_task :
      ℕ → Text → MetaScan → http.Server → Option (Answered http user password json (Unit {0}))
  unfolding is_finished
  await_task zero id m s = none
  await_task (suc fuel) id m s =
      and_then (meta_scan_query_task_status http user password json id m s) (λ r m' s'.
        elim (is_finished r.body.state) [
          | true ↦ some (ok tt, m', s')
          | false ↦ await_task fuel id m' s'
        ])

  abbrev pub result_of : Text → Text → Impact → ActionResult
  result_of tool check_result overview = record no_results {
    meta_scan_data =
        record {
          total = pos (impact_total overview);
          check_result = check_result;
          result_overview = json.marshal_impact overview;
          tool = tool;
        }
        ∷ [];
  }

  -- An error of the summary is written after a line that says so.
  abbrev pub summarised :
      Text
      → Answered http user password json SummaryDataRes
      → Option (Answered http user password json ActionResult)
  summarised check_result (failed e, m, s) = some (
    failed e,
    write_error e (write_error (codes "query task summary failed,save task summary failed") m),
    s,
  )
  summarised check_result (ok r, m, s) =
      some (ok (result_of m.tool check_result r.body.result_overview.impact), m, s)

  unfoldable pub collect :
      List BaseEntity
      → MetaScan
      → http.Server
      → Option (Answered http user password json ActionResult)
  collect [] m s =
      let e = codes "start engine task list is empty" in some (failed e, write_error e m, s)
  collect (task ∷ tasks) m s =
      and_then (meta_scan_get_task_result http user password json task.id m s)
        (λ (r : Text × Impact) m' s'.
          if text_eq m'.engine_type (codes "STATIC")
          then some (ok (result_of m'.tool r.0 r.1), m', s')
          else summarised r.0
              (meta_scan_get_engine_task_summary http user password json task.id m' s'))

  -- `await_task` has written its error.
  abbrev pub after_wait :
      List BaseEntity
      → Option (Answered http user password json (Unit {0}))
      → Option (Answered http user password json ActionResult)
  after_wait tasks none = none
  after_wait tasks (some (failed e, m, s)) = some (failed e, m, s)
  after_wait tasks (some (ok u, m, s)) = collect tasks m s

  unfoldable pub hook :
      ℕ → MetaScan → http.Server → Option (Answered http user password json ActionResult)
  unfolding await_task collect
  hook fuel m s = and_then (meta_scan_get_projects http user password json m s) (λ r m1 s1.
      and_then (project_of r.body.items m1 s1) (λ id m2 s2.
        and_then (meta_scan_start_scan_task http user password json id m2 s2)
          (λ task m3 s3. after_wait task.body.engine_tasks (await_task fuel task.body.id m3 s3))))
