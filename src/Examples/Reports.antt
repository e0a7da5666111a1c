-- ===== src/Examples/Reports.antt =====
-- The results of the checks of one file.
use aline_engine.Base.{◌≡◌, arith, refl, List, [], ◌∷◌}
use aline_engine.Base.Text.{Text, codes, text_eq, has_prefix}
use aline_engine.Checks.Gather.{
  opened_names, gather_files, add_details, gathered_result, save_result, nothing,
}
use aline_engine.Checks.Gather.Counts.{Reported}
use aline_engine.Checks.Lines.{lines_of, read_lines_from, written_lines}
use aline_engine.Checks.Machine.{Run, write_output}
use aline_engine.Checks.MythRil.{
  MythRil, mythril_post, add_mythril_file, read_mythril, note_of, position_of, add_mythril_line,
  place_last,
}
use aline_engine.Checks.MythRil.Verdict.{mythril_post-Reported}
use aline_engine.Checks.SolHint.{SolHint, solhint_post}
use aline_engine.Checks.SolHint.Folder.{Table, AreTables, of_tables, solhint_post-tables}
use aline_engine.Checks.SolHint.Table.{Finding, finding_row, other_row, row_texts}
use aline_engine.Checks.Types.{ContractCheckResult, StyleGuideDetails, style_guide_report}
use aline_engine.Examples.Disks.{memory-IsLawful}
use aline_engine.Examples.Hosts.{host, disk_with, run_on, behind_run}
use aline_engine.Storage.Files.{path_eq}
use aline_engine.Storage.Os.{Fallible, ok}
use aline_engine.Utils.Paths.{join, enter_all, enter}
use aline_engine.Utils.Strings.{split}
use aline_engine.Utils.Texts.{path_of, split_from, index_of, trim_left, trim_end, replace_first}

-- A result as its verdict.
abbrev verdict_of : (T : Type 0) → ContractCheckResult T → Fallible Text
verdict_of T c = ok c.result

abbrev solhint_c : SolHint
solhint_c = record { path = codes "/c"; file_path = codes "/w/A.sol" ∷ []; base_path = codes "/w" }

abbrev pragma_missing : Finding
pragma_missing = record {
  line = codes "2";
  column = codes "1";
  level = codes "error";
  note = codes "no pragma";
  rule = codes "compiler-version";
}

abbrev table : Table
table = record {
  name = codes "A.txt";
  rows = other_row [] ∷ finding_row pragma_missing ∷ other_row (codes "1 problem") ∷ [];
}

abbrev hinted : Run (host [])
hinted = run_on [] (disk_with (codes "A.txt") (written_lines (row_texts table.rows)))

table-AreTables : AreTables (host []) (path_of (codes "/c")) (table ∷ []) hinted
unfolding join enter_all enter split text_eq path_eq has_prefix index_of trim_left trim_end
table-AreTables = (
  refl,
  (
    record { no_newline = refl; no_return = refl; short = omega arith },
    (
      record { no_newline = refl; no_return = refl; short = omega arith },
      (record { no_newline = refl; no_return = refl; short = omega arith }, tt),
    ),
  ),
  (
    refl,
    (
      record {
        line_whole = refl;
        column_whole = refl;
        place_trimmed = refl;
        place_cell = refl;
        level_cell = refl;
        note_cell = refl;
        rule_cell = refl;
      },
      (refl, tt),
    ),
  ),
  tt,
)

solhint_post-tables_example :
    solhint_post (host []) (verdict_of (List StyleGuideDetails)) solhint_c hinted
    ≡ save_result
        (verdict_of (List StyleGuideDetails))
        (path_of (codes "/c"))
        (gathered_result style_guide_report
          (codes "Solhint")
          (of_tables solhint_c (table ∷ []) nothing))
        hinted
unfolding join enter_all enter split text_eq path_eq
solhint_post-tables_example =
    solhint_post-tables (host []) (verdict_of (List StyleGuideDetails)) solhint_c (table ∷ [])
      hinted refl refl table-AreTables

abbrev analysed : Run (host [])
analysed = run_on [] (disk_with (codes "A.txt") (codes "Error: no pragma\n --> A.sol:2:1:\n"))

abbrev mythril_c : MythRil
mythril_c = record { path = codes "/c"; solc_version = [] }

mythril_post-Reported_example :
    Reported {m = host []} (verdict_of (List StyleGuideDetails)) (path_of (codes "/c")) (
      behind_run [] analysed
        (mythril_post (host []) (verdict_of (List StyleGuideDetails)) mythril_c analysed))
unfolding mythril_post add_mythril_file read_mythril note_of position_of add_mythril_line place_last
    add_details path_eq join enter_all enter split text_eq has_prefix split_from index_of trim_left
    trim_end replace_first opened_names gather_files lines_of read_lines_from save_result
    write_output gathered_result
mythril_post-Reported_example =
    mythril_post-Reported (host []) (verdict_of (List StyleGuideDetails)) mythril_c analysed
      (behind_run [] analysed
        (mythril_post (host []) (verdict_of (List StyleGuideDetails)) mythril_c analysed))
      memory-IsLawful refl
