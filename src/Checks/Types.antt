-- ===== src/Checks/Types.antt =====
-- model/contract_check.go and the names of consts/contract_check.go: what the actions that check
-- contracts find. The type of the messages is a parameter, as in the source.
use aline_engine.Base.{ℕ, List, []}
use aline_engine.Base.Text.{Text, codes}

pub record ContractCheckResultDetails (T : Type 0) : Type 0 where
  pub name : Text
  pub issue : ℕ
  pub gas_limit : Text
  pub message : T

pub record ContractCheckResult (T : Type 0) : Type 0 where
  pub name : Text
  pub result : Text
  pub tool : Text
  pub solc_version : Text
  pub details : List (ContractCheckResultDetails T)
  pub total : ℕ

module _ {T : Type 0} where
  abbrev pub new_contract_check_result :
      Text → Text → Text → List (ContractCheckResultDetails T) → ℕ → ContractCheckResult T
  new_contract_check_result name result tool details total = record {
    name = name;
    result = result;
    tool = tool;
    solc_version = [];
    details = details;
    total = total;
  }

  abbrev pub new_contract_check_result_details : Text → ℕ → T → ContractCheckResultDetails T
  new_contract_check_result_details name issue message = record {
    name = name;
    issue = issue;
    gas_limit = [];
    message = message;
  }

pub record StyleGuideDetails : Type 0 where
  pub line : Text
  pub column : Text
  pub level : Text
  pub original_text : Text
  pub note : Text
  pub tool : Text

pub record MethodsPropertiesDetails : Type 0 where
  pub contract : Text
  pub category : Text
  pub function : Text
  pub visibility : Text
  pub view_pure : Text
  pub returns : Text
  pub modifiers : Text

pub record EslintDetails : Type 0 where
  pub line : Text
  pub column : Text
  pub level : Text
  pub original_text : Text
  pub note : Text
  pub tool : Text

pub record TestResult : Type 0 where
  pub result : ℕ
  pub unit_test_title : Text

pub record UnitTestResult : Type 0 where
  pub contract_name : Text
  pub test_result_list : List TestResult

pub record IssuesInfo : Type 0 where
  pub contract_name : Text
  pub issues_info : List Text

pub record GasUsageForMethods : Type 0 where
  pub contract_name : Text
  pub method : Text
  pub min : Text
  pub max : Text
  pub avg : Text
  pub calls : Text

pub record GasUsageForDeployments : Type 0 where
  pub contract_name : Text
  pub min : Text
  pub max : Text
  pub avg : Text
  pub limit : Text

-- The zero value, to whose fields the loops assign.
abbrev pub no_style_guide : StyleGuideDetails
no_style_guide = record {
  line = [];
  column = [];
  level = [];
  original_text = [];
  note = [];
  tool = [];
}

abbrev pub no_methods_properties : MethodsPropertiesDetails
no_methods_properties = record {
  contract = [];
  category = [];
  function = [];
  visibility = [];
  view_pure = [];
  returns = [];
  modifiers = [];
}

abbrev pub check_success : Text
check_success = codes "Success"

abbrev pub check_fail : Text
check_fail = codes "Fail"

abbrev pub methods_properties_report : Text
methods_properties_report = codes "Contract Methods Properties Report"

abbrev pub style_guide_report : Text
style_guide_report = codes "Code Quality Analysis Report"

abbrev pub security_analysis_report : Text
security_analysis_report = codes "Security Analysis Report"

abbrev pub front_end_report : Text
front_end_report = codes "Static analysis report"

abbrev pub eth_gas_report : Text
eth_gas_report = codes "Gas Usage Analysis Report"

abbrev pub formal_report : Text
formal_report = codes "Formal Specification and Verification Report"
