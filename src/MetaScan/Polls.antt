-- ===== src/MetaScan/Polls.antt =====
-- `Hook` as far as the service answers: how long it asks, and the total of the report.
use aline_engine.Base.{
  ℕ, zero, suc, ◌<◌, ◌≡◌, refl, ap, ◌∙◌, true, false, some, List, [], ◌∷◌, arith, length,
  if◌then◌else◌,
}
use aline_engine.Base.Int.{pos}
use aline_engine.Base.Text.{Text, codes, text_eq}
use aline_engine.MetaScan.Analyzer.{SecurityAnalyzerResponse, report_of, format_sa_data, formatted}
use aline_engine.MetaScan.Counts.{findings, report_of_lem}
use aline_engine.MetaScan.Methods.{
  Json, meta_scan_get_projects, meta_scan_start_scan_task, meta_scan_query_task_status,
  meta_scan_get_task_result, report_by_type, ask_task_result, meta_scan_get_engine_task_summary,
}
use aline_engine.MetaScan.Run.{
  and_then, project_of, is_finished, await_task, collect, hook, result_of, impact_total, summarised,
}
use aline_engine.MetaScan.Types.{
  MetaProjectRes, StartTaskRes, TaskStatusRes, TaskResultRes, BaseEntity, Impact, Http, MetaScan,
}
use aline_engine.Model.ActionResult.{ActionResult, MetaScanReport}
use aline_engine.Storage.Os.{Fallible, ok}

module _ (http : Http) (user password : Text) (json : Json) where
  -- The service says `n` times that the task is not finished, and then that it is.
  pub data Waits (id : Text) : ℕ → MetaScan → http.Server → MetaScan → http.Server → Type 0 where
    finished :
        {m m' : MetaScan} {s s' : http.Server} (r : TaskStatusRes)
        → meta_scan_query_task_status http user password json id m s ≡ (ok r, m', s')
        → is_finished r.body.state ≡ true
        → Waits id 0 m s m' s'
    unfinished :
        {n : ℕ} {m m1 m' : MetaScan} {s s1 s' : http.Server} (r : TaskStatusRes)
        → meta_scan_query_task_status http user password json id m s ≡ (ok r, m1, s1)
        → is_finished r.body.state ≡ false
        → Waits id n m1 s1 m' s'
        → Waits id (suc n) m s m' s'

  -- More fuel than the service's answers is enough.
  await_task_enough :
      (id : Text) (n fuel : ℕ) (m m' : MetaScan) (s s' : http.Server)
      → Waits id n m s m' s'
      → n < fuel
      → await_task http user password json fuel id m s ≡ some (ok tt, m', s')
  unfolding await_task
  await_task_enough id n zero m m' s s' w h = absurd (omega arith)
  await_task_enough id n (suc fuel) m m' s s' (finished r asked e) h = rw (asked, and_then, e) refl
  await_task_enough id (suc n) (suc fuel) m m' s s' (unfinished {m1 = m1} {s1 = s1} r asked e w) h =
      rw (asked, and_then, e) (await_task_enough id n fuel m1 m' s1 s' w (omega arith))

  hook_until :
      (id : Text) (project : MetaProjectRes) (task : StartTaskRes) (n fuel : ℕ)
      (m m1 m2 m3 m4 : MetaScan) (s s1 s2 s3 s4 : http.Server)
      → meta_scan_get_projects http user password json m s ≡ (ok project, m1, s1)
      → project_of http user password json project.body.items m1 s1 ≡ (ok id, m2, s2)
      → meta_scan_start_scan_task http user password json id m2 s2 ≡ (ok task, m3, s3)
      → Waits task.body.id n m3 s3 m4 s4
      → n < fuel
      → hook http user password json fuel m s
        ≡ collect http user password json task.body.engine_tasks m4 s4
  unfolding hook
  hook_until id project task n fuel m m1 m2 m3 m4 s s1 s2 s3 s4 listed made started waits enough =
      rw
        (
          listed,
          and_then,
          made,
          and_then,
          started,
          and_then,
          await_task_enough task.body.id n fuel m3 m4 s3 s4 waits enough,
        )
        refl

  -- The report of the security analyzer's result.
  report_static :
      (id : Text) (r : TaskResultRes) (response : SecurityAnalyzerResponse) (m m' : MetaScan)
      (s s' : http.Server)
      → ask_task_result http user password json id m s ≡ (ok r, m', s')
      → m'.engine_type ≡ codes "STATIC"
      → json.unmarshal_sa r.body.result ≡ ok response
      → meta_scan_get_task_result http user password json id m s ≡ (
        ok (json.marshal_sa (report_of response).result_map, (report_of response).impact),
        m',
        s',
      )
  unfolding meta_scan_get_task_result report_by_type format_sa_data text_eq
  report_static id r response m m' s s' asked static parsed = rw asked (
      ap (λ (t : Text). (report_by_type http user password json t r, m', s')) static
      ∙ ap
          (λ (x : Fallible SecurityAnalyzerResponse).
            (formatted json.unmarshal_sa json.marshal_sa x, m', s'))
          parsed)

  collect_static :
      (task : BaseEntity) (tasks : List BaseEntity) (m m' : MetaScan) (s s' : http.Server)
      (report : Text) (impact : Impact)
      → meta_scan_get_task_result http user password json task.id m s
        ≡ (ok (report, impact), m', s')
      → m'.engine_type ≡ codes "STATIC"
      → collect http user password json (task ∷ tasks) m s
        ≡ some (ok (result_of http user password json m'.tool report impact), m', s')
  unfolding collect text_eq
  collect_static task tasks m m' s s' report impact got static =
      rw (got, and_then)
        (ap
          (λ (t : Text).
            if text_eq t (codes "STATIC")
            then some (ok (result_of http user password json m'.tool report impact), m', s')
            else summarised http user password json report
                (meta_scan_get_engine_task_summary http user password json task.id m' s'))
          static)

  -- `Hook` of a static scan ends and reports as many findings as the service found, one for each file
  -- that a result affects. The service lists or creates a project, starts a task with at least one
  -- engine task, says that the task is finished after `n` other answers, whatever its final state, and
  -- gives a result that is a report.
  pub hook_static :
      (id : Text) (project : MetaProjectRes) (task : StartTaskRes) (first : BaseEntity)
      (tasks : List BaseEntity) (r : TaskResultRes) (response : SecurityAnalyzerResponse)
      (n fuel : ℕ) (m m1 m2 m3 m4 m5 : MetaScan) (s s1 s2 s3 s4 s5 : http.Server)
      → meta_scan_get_projects http user password json m s ≡ (ok project, m1, s1)
      → project_of http user password json project.body.items m1 s1 ≡ (ok id, m2, s2)
      → meta_scan_start_scan_task http user password json id m2 s2 ≡ (ok task, m3, s3)
      → task.body.engine_tasks ≡ first ∷ tasks
      → Waits task.body.id n m3 s3 m4 s4
      → n < fuel
      → ask_task_result http user password json first.id m4 s4 ≡ (ok r, m5, s5)
      → m5.engine_type ≡ codes "STATIC"
      → json.unmarshal_sa r.body.result ≡ ok response
      → (report : MetaScanReport) × (result : ActionResult) × (hook http user password json fuel m s
          ≡ some (ok result, m5, s5))
        × (result.meta_scan_data ≡ report ∷ [])
        × (report.total ≡ pos (length (findings response.results)))
  hook_static id project task first tasks r response n fuel m m1 m2 m3 m4 m5 s s1 s2 s3 s4 s5 listed
        made started engine waits enough asked static parsed =
      let told = report_of response in
      (
        record {
          total = pos (impact_total told.impact);
          check_result = json.marshal_sa told.result_map;
          result_overview = json.marshal_impact told.impact;
          tool = m5.tool;
        },
        result_of http user password json m5.tool (json.marshal_sa told.result_map) told.impact,
        hook_until id project task n fuel m m1 m2 m3 m4 s s1 s2 s3 s4 listed made started waits
              enough
            ∙ ap (λ (ts : List BaseEntity). collect http user password json ts m4 s4) engine
            ∙ collect_static first tasks m4 m5 s4 s5 (json.marshal_sa told.result_map) told.impact
                (report_static first.id r response m4 m5 s4 s5 asked static parsed) static,
        refl,
        ap pos (report_of_lem response []).1,
      )
