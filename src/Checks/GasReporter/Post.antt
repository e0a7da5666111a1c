-- ===== src/Checks/GasReporter/Post.antt =====
-- The methods of action/action_eth_gas_reporter.go.
use aline_engine.Base.{◌+◌, true, none, some, List, [], ◌∷◌}
use aline_engine.Base.Map.{Map}
use aline_engine.Base.Text.{Text, codes}
use aline_engine.Checks.Aggregation.{without_escape}
use aline_engine.Checks.Gather.{verdict, result_path}
use aline_engine.Checks.GasReporter.{GasState, outside}
use aline_engine.Checks.GasReporter.Lines.{read_gas}
use aline_engine.Checks.Lines.{lines_of}
use aline_engine.Checks.Machine.{
  Machine, Action, pure, raise, ◌>>=◌, from_stack, from_result, unless_panic, Executed,
  CheckContext, write_output, ensure_dir, execute_command, run_number, check_dir, check_report,
}
use aline_engine.Checks.Types.{
  ContractCheckResult, ContractCheckResultDetails, UnitTestResult, IssuesInfo, GasUsageForMethods,
  GasUsageForDeployments, eth_gas_report,
}
use aline_engine.MetaScan.Run.{with_of}
use aline_engine.Model.ActionResult.{ActionResult}
use aline_engine.Storage.Os.{Fallible}
use aline_engine.Utils.Paths.{FilePath, join, render}
use aline_engine.Utils.Texts.{fields, path_of}

-- `NewEthGasReporterAction` does not set the path.
pub record GasReporter : Type 0 where
  pub path : Text
  pub solc_version : Text

unfoldable pub new_gas_reporter : Map Text → GasReporter
new_gas_reporter args = record { path = []; solc_version = with_of args (codes "solc-version") }

abbrev pub gas_start : GasState
gas_start = record {
  units = [];
  infos = [];
  methods = [];
  deployments = [];
  issues = 0;
  success = true;
  solc_version = [];
  gas_limit = [];
  previous = [];
}

-- What `Post` uses of package json.
pub record GasJson : Type 0 where
  pub marshal_units : List UnitTestResult → Fallible Text
  pub marshal_infos : List IssuesInfo → Fallible Text
  pub marshal_methods : List GasUsageForMethods → Fallible Text
  pub marshal_deployments : List GasUsageForDeployments → Fallible Text
  pub marshal_result : ContractCheckResult Text → Fallible Text

abbrev pub gas_details : Text → GasState → Text → ContractCheckResultDetails Text
gas_details name g message = record {
  name = name;
  issue = g.issues;
  gas_limit = g.gas_limit;
  message = message;
}

-- Each of the four lists has the number of all issues.
unfoldable pub gas_result : GasState → Text → Text → Text → Text → ContractCheckResult Text
gas_result g units infos methods deployments = record {
  name = eth_gas_report;
  result = verdict g.success;
  tool = codes "eth-gas-reporter";
  solc_version = g.solc_version;
  details =
      gas_details (codes "Unit Test Result") g units
      ∷ gas_details (codes "Issues  Info") g infos
      ∷ gas_details (codes "Gas Usage for Methods") g methods
      ∷ gas_details (codes "Gas Usage for Deployments") g deployments
      ∷ [];
  total = g.issues + g.issues + g.issues + g.issues;
}

module _ (m : Machine) where
  abbrev pub report_path : FilePath → FilePath
  report_path dir = join dir (codes "eth-gas-reporter.txt" ∷ [])

  abbrev pub unless_silent : Executed → Action m (Unit {0})
  unless_silent x = elim x.out [
    | c ∷ out ↦ pure tt
    | [] ↦ elim x.error [ none ↦ pure tt | some e ↦ raise e ]
  ]

  -- `strip` is `ReplaceAllString` of the regular expression `\[.{1,2}m`, with nothing.
  unfoldable pub gas_hook :
      (Text → Text) → GasReporter → CheckContext → Action m (ActionResult × GasReporter)
  unfolding ensure_dir execute_command write_output run_number check_dir render
  gas_hook strip a ctx = do
    workdir ← from_stack ctx.workdir (codes "workdir is empty")
    name ← from_stack ctx.name (codes "get job name error")
    id ← from_stack ctx.id (codes "get job id error")
    made ← ensure_dir (check_dir m name id (codes "eth-gas-reporter"))
    x ← execute_command (fields (codes "truffle test")) (path_of workdir)
    printed ← unless_silent x
    written ←
        write_output (report_path (check_dir m name id (codes "eth-gas-reporter"))) (strip x.out)
    number ← run_number id
    pure (
      check_report number [],
      record a { path = render (check_dir m name id (codes "eth-gas-reporter")) },
    )

  abbrev pub report_text : FilePath → Action m Text
  report_text dir r = from_result (m.os.read_file (report_path dir) r.files) r

  pub save_gas : GasJson → FilePath → GasState → Action m (Unit {0})
  unfolding gas_result write_output
  save_gas json dir g = do
    units ← from_result (json.marshal_units g.units)
    infos ← from_result (json.marshal_infos g.infos)
    methods ← from_result (json.marshal_methods g.methods)
    deployments ← from_result (json.marshal_deployments g.deployments)
    created ← write_output (result_path dir) []
    text ←
        from_result
          (without_escape (json.marshal_result (gas_result g units infos methods deployments)))
    write_output (result_path dir) text

  -- `none` is a panic on a row of too few columns, or on a heading that ends in ":".
  unfoldable pub gas_post : GasJson → GasReporter → Action m (Unit {0})
  unfolding read_gas lines_of save_gas
  gas_post json a = do
    text ← report_text (path_of a.path)
    g ← unless_panic (read_gas (lines_of text) outside gas_start)
    save_gas json (path_of a.path) g
