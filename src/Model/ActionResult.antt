-- ===== src/Model/ActionResult.antt =====
-- model/artifictory.go: what the hook of an action hands back, and what a job collects.
use aline_engine.Base.{List, []}
use aline_engine.Base.Int.{ℤ}
use aline_engine.Base.Text.{Text}

pub record Artifactory : Type 0 where
  pub name : Text
  pub url : Text

pub record Report : Type 0 where
  pub id : ℤ
  pub url : Text
  pub type : ℤ
  pub content : Text

pub record DeployInfo : Type 0 where
  pub name : Text
  pub cid : Text
  pub url : Text

pub record BuildInfo : Type 0 where
  pub image_name : Text

pub record MetaScanReport : Type 0 where
  pub total : ℤ
  pub check_result : Text
  pub result_overview : Text
  pub tool : Text

pub record CodeInfo : Type 0 where
  pub branch : Text
  pub commit_id : Text
  pub commit_date : Text
  pub commit_message : Text

pub record ActionResult : Type 0 where
  pub code_info : CodeInfo
  pub artifactorys : List Artifactory
  pub reports : List Report
  pub deploys : List DeployInfo
  pub build_data : List BuildInfo
  pub meta_scan_data : List MetaScanReport

abbrev pub no_code_info : CodeInfo
no_code_info = record { branch = []; commit_id = []; commit_date = []; commit_message = [] }

abbrev pub no_results : ActionResult
no_results = record {
  code_info = no_code_info;
  artifactorys = [];
  reports = [];
  deploys = [];
  build_data = [];
  meta_scan_data = [];
}
