-- ===== src/Model/Detail.antt =====
-- model/job.go: a run of a job (`JobDetail`), what the lists of jobs and runs show, and their order.
-- The field `Output` of `JobDetail` is left out; the model of the log is apart.
use aline_engine.Base.{ℕ, Bool, List, ltb}
use aline_engine.Base.Int.{ℤ, ltb_ℤ}
use aline_engine.Base.Map.{Map}
use aline_engine.Base.Text.{Text}
use aline_engine.Model.ActionResult.{ActionResult}
use aline_engine.Model.Job.{Job, Stage, StageDetail}
use aline_engine.Model.Status.{Status}

pub record JobDetail : Type 0 where
  pub id : ℤ
  pub job : Job
  pub status : Status
  pub trigger_mode : Text
  pub stages : List StageDetail
  pub start_time : ℕ
  pub duration : ℕ
  pub action_result : ActionResult
  pub error : Text

pub record JobVo : Type 0 where
  pub version : Text
  pub name : Text
  pub stages : Map Stage
  pub status : Status
  pub start_time : ℕ
  pub duration : ℕ
  pub trigger_mode : Text
  pub pipeline_detail_id : ℤ
  pub error : Text
  pub create_time : ℕ

pub record JobLog : Type 0 where
  pub start_time : ℕ
  pub duration : ℕ
  pub content : Text
  pub last_line : ℕ

pub record JobStageLog : Type 0 where
  pub start_time : ℕ
  pub duration : ℕ
  pub content : Text
  pub last_line : ℕ
  pub end : Bool

pub record JobPage : Type 0 where
  pub data_rows : List JobVo
  pub total : ℕ
  pub page : ℕ
  pub page_size : ℕ

pub record JobDetailPage : Type 0 where
  pub data_rows : List JobDetail
  pub total : ℕ
  pub page : ℕ
  pub page_size : ℕ

-- `JobDetailDecrement.Less` and `JobVoTimeDecrement.Less`
unfoldable pub detail_less : JobDetail → JobDetail → Bool
detail_less a b = ltb_ℤ b.id a.id

unfoldable pub job_vo_less : JobVo → JobVo → Bool
job_vo_less a b = ltb b.create_time a.create_time
