-- ===== src/Examples/Counts.antt =====
-- Files below a folder, the totals of eslint and of the gas reporter, a first run of slither, the
-- aggregation of one result, and two named addresses.
use aline_engine.Base.{
  ℕ, ◌*◌, ◌≡◌, refl, ◌↔◌, Option, none, some, List, [], ◌∷◌, ◌++◌, length, if◌then◌else◌,
}
use aline_engine.Base.Int.{pos}
use aline_engine.Base.Text.{Text, codes, text_eq, has_prefix}
use aline_engine.Checks.Aggregation.{
  ResultJson, aggregation_hook, read_reports, add_report, raw_result, raw_details,
}
use aline_engine.Checks.Aggregation.Hook.{Aggregated, aggregation_hook-Aggregated, context_of}
use aline_engine.Checks.Eslint.{EslintResult, EslintMessage, gather_eslint}
use aline_engine.Checks.Eslint.Totals.{files_with_messages, all_messages, gather_eslint_lem}
use aline_engine.Checks.GasReporter.{
  GasState, outside, start_unit, start_at, unit_line, unit_text, add_failure, add_success, end_unit,
  is_number, closes_number, trim_spaces, behind,
}
use aline_engine.Checks.GasReporter.Counts.{all_failures}
use aline_engine.Checks.GasReporter.Totals.{gas_result-read_gas}
use aline_engine.Checks.GasReporter.Lines.{read_gas, gas_line, outer_line}
use aline_engine.Checks.GasReporter.Post.{gas_start, gas_result}
use aline_engine.Checks.Machine.{
  Run, write_output, ensure_dir, execute_command, for_each, run_number, check_dir, run_check_dir,
  check_report,
}
use aline_engine.Checks.SolHint.{sol_paths}
use aline_engine.Checks.Slither.{Slither, slither_file, slither_hook}
use aline_engine.Checks.Slither.Fresh.{stack_of, slither_hook_fresh}
use aline_engine.Checks.Types.{ContractCheckResult, check_success, security_analysis_report}
use aline_engine.Checks.Walk.{
  Entries, end, file, folder, get_suffix_files, get_same_file_name_files, get_redundant_path,
}
use aline_engine.Examples.Disks.{Disk, memory-IsLawful}
use aline_engine.Examples.Hosts.{host, disk_with, run_on, behind_run}
use aline_engine.Output.Parse.{join_with}
use aline_engine.Storage.Files.{path_eq}
use aline_engine.Storage.Os.{Fallible, ok, failed}
use aline_engine.Utils.Aptos.{KeyValue, key_values_to_string, key_values_from_string}
use aline_engine.Utils.Aptos.RoundTrip.{IsPart, key_values_from_string-key_values_to_string}
use aline_engine.Utils.Decimal.{atoi, parse_int, scan}
use aline_engine.Utils.Paths.{join, enter_all, enter, render}
use aline_engine.Utils.Strings.{split, trim_suffix}
use aline_engine.Utils.Texts.{
  index_of, trim_left, trim_end, extension, fields_from, filename_only, file_name,
}

abbrev contracts : Entries
contracts =
    file (codes "A.sol") (folder (codes "lib") (file (codes "B.sol") end) (file (codes "C.md") end))

two_contracts :
    get_suffix_files (codes "/w") (codes ".sol") contracts []
    ≡ codes "/w/A.sol" ∷ codes "/w/lib/B.sol" ∷ []
unfolding get_suffix_files extension text_eq
two_contracts = refl

abbrev message_at : ℕ → EslintMessage
message_at n = record {
  rule_id = codes "semi";
  severity = pos 1;
  message = codes "Missing semicolon.";
  line = pos n;
  column = pos 1;
  message_id = [];
}

abbrev linted : Text → List EslintMessage → EslintResult
linted name messages = record {
  file_path = name;
  messages = messages;
  error_count = pos 0;
  fatal_error_count = pos 0;
  warning_count = pos 0;
  fixable_error_count = pos 0;
  fixable_warning_count = pos 0;
}

abbrev lint_results : List EslintResult
lint_results =
    linted (codes "a.js") (message_at 1 ∷ message_at 2 ∷ [])
    ∷ linted (codes "b.js") []
    ∷ linted (codes "c.js") (message_at 7 ∷ [])
    ∷ []

gather_eslint_lem_example :
    gather_eslint lint_results ([], 0)
    ≡ (files_with_messages lint_results, length (all_messages lint_results))
gather_eslint_lem_example = gather_eslint_lem lint_results

abbrev gas_lines : List Text
gas_lines = codes "  Contract: A" ∷ codes "    1) should pay" ∷ codes "    2) should stop" ∷ []

abbrev gas_end : Option GasState → GasState
gas_end none = gas_start
gas_end (some g) = g

gas_result-read_gas_example :
    ((gas_result (gas_end (read_gas gas_lines outside gas_start)) [] [] [] []).total
      ≡ 4 * all_failures (gas_end (read_gas gas_lines outside gas_start)).units)
    × (((gas_result (gas_end (read_gas gas_lines outside gas_start)) [] [] [] []).result
          ≡ check_success)
        ↔ (all_failures (gas_end (read_gas gas_lines outside gas_start)).units ≡ 0))
unfolding read_gas gas_line outer_line start_unit start_at unit_line unit_text add_failure
    add_success end_unit is_number closes_number trim_spaces behind has_prefix index_of trim_left
    trim_end
gas_result-read_gas_example =
    gas_result-read_gas gas_lines (gas_end (read_gas gas_lines outside gas_start)) [] [] [] [] refl

abbrev fresh_run : Run (host (codes "A.sol" ∷ []))
fresh_run = run_on (codes "A.sol" ∷ []) (disk_with (codes "x") [])

abbrev slither_w : Slither
slither_w = record { path = [] }

abbrev slither_end : Run (host (codes "A.sol" ∷ []))
slither_end =
    let m = host (codes "A.sol" ∷ []) in
    behind_run (codes "A.sol" ∷ []) fresh_run (
      for_each
        (slither_file m slither_w (codes "/w")
          (check_dir m (codes "site") (codes "1") (codes "slither")))
        (sol_paths m (codes "/w") [] fresh_run) fresh_run)

slither_hook_fresh_example :
    slither_hook
      (host (codes "A.sol" ∷ []))
      slither_w
      (stack_of (codes "/w") (codes "site") (codes "1"))
      fresh_run
    ≡ some (failed (codes "stat: no such file or directory"), slither_end)
unfolding for_each slither_file check_dir ensure_dir execute_command write_output join enter_all
    enter split render text_eq path_eq has_prefix index_of get_suffix_files extension
    get_redundant_path fields_from filename_only file_name trim_suffix join_with
slither_hook_fresh_example =
    slither_hook_fresh (host (codes "A.sol" ∷ [])) slither_w (codes "/w") (codes "site") (codes "1")
      fresh_run fresh_run slither_end refl refl refl

abbrev address : Text → Text → KeyValue
address k v = record { key = k; value = v }

address-IsPart : IsPart (codes "alice")
unfolding trim_left trim_end
address-IsPart = record { no_comma = refl; no_equals = refl; trimmed = refl }

value-IsPart : IsPart (codes "0x1")
unfolding trim_left trim_end
value-IsPart = record { no_comma = refl; no_equals = refl; trimmed = refl }

key_values_from_string-key_values_to_string_example :
    key_values_from_string (
      key_values_to_string
        (address (codes "alice") (codes "0x1") ∷ address (codes "0x1") (codes "alice") ∷ []))
    ≡ ok (address (codes "alice") (codes "0x1") ∷ address (codes "0x1") (codes "alice") ∷ [])
key_values_from_string-key_values_to_string_example =
    key_values_from_string-key_values_to_string (address (codes "alice") (codes "0x1"))
      (address (codes "0x1") (codes "alice") ∷ [])
      (address-IsPart, value-IsPart, (value-IsPart, address-IsPart, tt))

abbrev checked_disk : Disk
checked_disk = record {
  texts = λ p.
      if path_eq p
        (run_check_dir (host []) (codes "site") (codes "1") ++ (codes "total_result.txt" ∷ []))
      then some security_analysis_report
      else none;
  names = λ p. none;
}

abbrev found_result : (T : Type 0) → Text → Fallible (ContractCheckResult T)
found_result T t = ok (record {
  name = t;
  result = codes "Fail";
  tool = [];
  solc_version = [];
  details = [];
  total = 1;
})

abbrev names_of : List (ContractCheckResult Text) → Text
names_of [] = []
names_of (c ∷ cs) = c.name ++ names_of cs

-- A result is its name.
abbrev json : ResultJson
json = record {
  unmarshal_methods = found_result _;
  unmarshal_style = found_result _;
  unmarshal_eslint = found_result _;
  unmarshal_raw = found_result Text;
  marshal_methods = λ l. ok [];
  marshal_style = λ l. ok [];
  marshal_eslint = λ l. ok [];
  marshal_results = λ l. ok (names_of l);
}

abbrev checked_run : Run (host (codes "total_result.txt" ∷ []))
checked_run = run_on (codes "total_result.txt" ∷ []) checked_disk

abbrev aggregated : Run (host (codes "total_result.txt" ∷ []))
aggregated = behind_run (codes "total_result.txt" ∷ []) checked_run (
    aggregation_hook (host (codes "total_result.txt" ∷ [])) json
      (context_of (codes "site") (codes "1")) checked_run)

aggregation_hook-Aggregated_example :
    Aggregated
      (host (codes "total_result.txt" ∷ []))
      json
      (codes "site")
      (codes "1")
      checked_run
      aggregated
      (check_report
        (pos 1)
        (codes "/root/pipelines/jobs/site/check/1/check_aggregation_result.txt"))
unfolding aggregation_hook read_reports add_report raw_result raw_details run_check_dir ensure_dir
    write_output run_number atoi parse_int scan join enter_all enter split render text_eq path_eq
    has_prefix index_of get_same_file_name_files
aggregation_hook-Aggregated_example =
    aggregation_hook-Aggregated (host (codes "total_result.txt" ∷ [])) json (codes "site")
      (codes "1") checked_run aggregated
      (check_report (pos 1)
        (codes "/root/pipelines/jobs/site/check/1/check_aggregation_result.txt"))
      memory-IsLawful refl
