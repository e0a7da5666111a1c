-- ===== src/Model/Job.antt =====
-- model/job.go, model/stage.go and model/step.go: a job, its stages and their steps. Times are
-- milliseconds of a clock that the callers pass in; 0 is Go's zero time.
use aline_engine.Base.{ℕ, List}
use aline_engine.Base.Map.{Map}
use aline_engine.Base.Text.{Text}
use aline_engine.Model.Status.{Status, status_notrun}

pub record Step : Type 0 where
  pub name : Text
  pub id : Text
  pub uses : Text
  pub with : Map Text
  pub runs_on : Text
  pub volumes : List Text
  pub run : Text
  pub status : Status
  pub start_time : ℕ
  pub duration : ℕ

pub record Stage : Type 0 where
  pub steps : List Step
  pub needs : List Text

pub record StageDetail : Type 0 where
  pub name : Text
  pub stage : Stage
  pub status : Status
  pub start_time : ℕ
  pub duration : ℕ

pub record Job : Type 0 where
  pub version : Text
  pub name : Text
  pub stages : Map Stage
  pub parameter : Map Text
  pub user_id : Text

unfoldable pub new_stage_detail : Text → Stage → StageDetail
new_stage_detail name stage = record {
  name = name;
  stage = stage;
  status = status_notrun;
  start_time = 0;
  duration = 0;
}
