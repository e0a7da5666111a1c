-- ===== src/Examples/Service.antt =====
-- The requests of the scan of Examples/Scans.antt, answered.
use aline_engine.Base.{ℕ, ◌≡◌, ◌<◌, refl, some, [], ◌∷◌, arith}
use aline_engine.Base.Int.{pos}
use aline_engine.Base.Map.{lookup, insert}
use aline_engine.Base.Text.{Text, codes, text_eq}
use aline_engine.Examples.Scans.{
  response, state_after, running_task, one_project, service, json, scan, renewed,
}
use aline_engine.MetaScan.Polls.{Waits, finished, unfinished, hook_static}
use aline_engine.MetaScan.Requests.{
  request_with_token, Texts, meta_scan_http_request_token, get_project_list,
}
use aline_engine.MetaScan.Methods.{
  meta_scan_get_projects, meta_scan_start_scan_task, meta_scan_query_task_status, ask_task_result,
}
use aline_engine.MetaScan.Run.{hook, is_finished}
use aline_engine.MetaScan.Tokens.{request_with_token-answer}
use aline_engine.MetaScan.Types.{
  MetaProjectRes, Outcome, replied, TaskStatusRes, TaskResultRes, BaseEntity,
}
use aline_engine.Model.ActionResult.{ActionResult, MetaScanReport}
use aline_engine.Storage.Os.{ok}

abbrev texts : Texts
texts = record { still_refused = []; bad_status = []; code_is = [] }

abbrev message_of : MetaProjectRes → Text
message_of r = r.message

abbrev list_projects : Text → ℕ → Outcome MetaProjectRes × ℕ
list_projects token = service.get_projects (get_project_list (codes "site") token [] [])

renewed_once :
    request_with_token service [] [] message_of texts list_projects scan 0
    ≡ (ok one_project, renewed, 0)
unfolding request_with_token meta_scan_http_request_token lookup insert text_eq get_project_list
renewed_once = refl

request_with_token-answer_example :
    (s0 : ℕ) × (list_projects renewed.scan_token s0 ≡ (replied 200 one_project, 0))
request_with_token-answer_example =
    request_with_token-answer service [] [] message_of texts list_projects scan renewed 0 0
      one_project renewed_once

listed : meta_scan_get_projects service [] [] json scan 0 ≡ (ok one_project, renewed, 0)
unfolding meta_scan_get_projects request_with_token meta_scan_http_request_token lookup insert
    text_eq get_project_list
listed = refl

started :
    meta_scan_start_scan_task service [] [] json (codes "p") renewed 0
    ≡ (ok running_task, renewed, 0)
unfolding meta_scan_start_scan_task request_with_token
started = refl

abbrev told : ℕ → TaskStatusRes
told n = record { body = record { state = state_after n }; message = [] }

waited : Waits service [] [] json (codes "t") 1 renewed 0 renewed 2
unfolding meta_scan_query_task_status request_with_token is_finished text_eq
waited = unfinished (told 0) refl refl (finished (told 1) refl refl)

abbrev result : TaskResultRes
result = record { body = record { title = []; result = codes "json" }; message = [] }

abbrev engine_task : BaseEntity
engine_task = record { id = codes "e" }

given : ask_task_result service [] [] json (codes "e") renewed 2 ≡ (ok result, renewed, 2)
unfolding ask_task_result request_with_token
given = refl

one_poll : 1 < 2
one_poll = omega arith

hook_static_example :
    (report : MetaScanReport) × (answer : ActionResult) × (hook service [] [] json 2 scan 0
      ≡ some (ok answer, renewed, 2))
    × (answer.meta_scan_data ≡ report ∷ [])
    × (report.total ≡ pos 3)
hook_static_example =
    hook_static service [] [] json (codes "p") one_project running_task engine_task [] result
      response 1 2 scan renewed renewed renewed renewed renewed 0 0 0 0 2 2 listed refl started refl
      waited one_poll given refl refl
