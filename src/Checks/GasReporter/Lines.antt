-- ===== src/Checks/GasReporter/Lines.antt =====
-- The tables and the failures in the report of action/action_eth_gas_reporter.go, and the walk over
-- all its lines.
use aline_engine.Base.{
  ◌+◌, Bool, true, false, ◌||◌, ◌&&◌, Option, none, some, List, [], ◌∷◌, ◌++◌, length, drop, leb,
  if◌then◌else◌,
}
use aline_engine.Base.Text.{Text, codes, has_prefix}
use aline_engine.Checks.SolProfiler.{bar}
use aline_engine.Utils.Texts.{has_text, index_of, trim_space, split_on, replace_all}
use aline_engine.Checks.GasReporter.{
  GasState, Mode, outside, in_methods, in_unit, in_issues, middle_dot, contract_mark, is_numbered,
  is_number, trim_spaces, end_unit, start_unit, unit_line,
}

-- The columns of a row of a table.
abbrev pub columns : Text → List Text
columns s = split_on middle_dot (replace_all (replace_all s (codes "|") []) bar [])

abbrev pub method_row : List Text → GasState → Option GasState
method_row (c0 ∷ c1 ∷ c2 ∷ c3 ∷ c4 ∷ c5 ∷ rest) g = some (record g {
  methods =
      g.methods
      ++ (record {
        contract_name = trim_space c0;
        method = trim_space c1;
        min = trim_space c2;
        max = trim_space c3;
        avg = trim_space c4;
        calls = trim_space c5;
      }
          ∷ []);
})
method_row _ g = none

-- `none` is the panic on a row of too few columns.
unfoldable pub method_columns : List Text → GasState → Option GasState
unfolding index_of
method_columns (c0 ∷ c1 ∷ c2 ∷ rest) g =
    if has_text c2 (codes "Min") then some g else method_row (c0 ∷ c1 ∷ c2 ∷ rest) g
method_columns _ g = none

abbrev pub deployment_row : List Text → GasState → GasState
deployment_row (c0 ∷ c1 ∷ c2 ∷ c3 ∷ c4 ∷ rest) g = record g {
  deployments =
      g.deployments
      ++ (record {
        contract_name = trim_space c0;
        min = trim_space c1;
        max = trim_space c2;
        avg = trim_space c3;
        limit = trim_space c4;
      }
          ∷ []);
}
deployment_row _ g = g

abbrev pub versions : Text → List Text → GasState → Option GasState
versions first (c0 ∷ c1 ∷ c2 ∷ c3 ∷ rest) g = some (record g {
  solc_version = trim_space (replace_all first (codes "Solc version: ") []);
  gas_limit = trim_space (replace_all (trim_space c3) (codes "Block limit: ") []);
})
versions first _ g = none

abbrev pub first_column : List Text → Text
first_column [] = []
first_column (c ∷ rest) = trim_space c

abbrev pub outside_of : Option GasState → Option (GasState × Mode)
outside_of none = none
outside_of (some g) = some (g, outside)

-- A row of a table outside the other loops.
unfoldable pub table_line : Text → GasState → Option (GasState × Mode)
unfolding index_of
table_line s g =
    let cs = columns s in
    if has_text (first_column cs) (codes "Solc version: ")
    then outside_of (versions (first_column cs) cs g)
    else if has_text (first_column cs) (codes "Methods")
    then some (g, in_methods)
    else some (deployment_row cs g, outside)

abbrev pub methods_of : Option GasState → Option (GasState × Mode)
methods_of none = none
methods_of (some g) = some (g, in_methods)

unfoldable pub method_line : Text → GasState → Option (GasState × Mode)
unfolding method_columns
method_line s g =
    if has_text s (codes "Deployments") && has_text s (codes "% of limit")
    then some (g, outside)
    else if has_prefix s (codes "|")
    then methods_of (method_columns (columns s) g)
    else some (g, in_methods)

-- The name behind the first ":"; `none` is the panic on a line that ends there.
pub issue_name : Text → Option Text
unfolding index_of
issue_name s = elim (index_of (codes ":") s) [
  | none ↦ some (drop 1 s)
  | some i ↦ if leb (i + 2) (length s) then some (drop (i + 2) s) else none
]

abbrev pub issues_mode : Option Text → List Text → GasState → Option (GasState × Mode)
issues_mode none lines g = none
issues_mode (some name) lines g = some (g, in_issues name lines)

-- The heading of a failure: the line, or the line before, and then this one belongs to it.
unfoldable pub start_issues_at : Text → Text → GasState → Option (GasState × Mode)
unfolding issue_name
start_issues_at [] s g = issues_mode (issue_name s) [] g
start_issues_at (c ∷ p) s g = issues_mode (issue_name (c ∷ p)) (s ∷ []) (record g { previous = [] })

unfoldable pub start_issues : Text → GasState → Option (GasState × Mode)
unfolding start_issues_at
start_issues s g = start_issues_at g.previous s g

unfoldable pub end_issues : Text → List Text → GasState → GasState
end_issues name lines g = record g {
  infos = g.infos ++ (record { contract_name = name; issues_info = lines } ∷ []);
}

unfoldable pub issue_text : Text → Text → List Text → GasState → GasState × Mode
unfolding end_issues is_number
issue_text [] name lines g = (g, in_issues name lines)
issue_text (c ∷ s) name lines g =
    if is_numbered 5 (c ∷ s)
    then (record (end_issues name lines g) { previous = c ∷ s }, outside)
    else (g, in_issues name (lines ++ ((c ∷ s) ∷ [])))

unfoldable pub issue_line : Text → Text → List Text → GasState → GasState × Mode
unfolding issue_text
issue_line line name lines g = issue_text (trim_space line) name lines g

abbrev pub is_open : Text → Bool
is_open [] = false
is_open (c ∷ p) = true

abbrev pub is_blank : Text → Bool
is_blank s = elim (trim_space s) [ [] ↦ true | c ∷ t ↦ false ]

-- A round of the outer loop.
unfoldable pub outer_line : Text → GasState → Option (GasState × Mode)
unfolding start_unit table_line start_issues has_prefix
outer_line line g =
    let s = trim_spaces line in
    if is_blank s
    then some (g, outside)
    else if has_prefix s contract_mark || has_prefix g.previous contract_mark
    then some (start_unit s g)
    else if has_prefix s (codes "|")
    then table_line s g
    else if is_numbered 5 s || is_open g.previous
    then start_issues s g
    else some (g, outside)

unfoldable pub gas_line : Text → Mode → GasState → Option (GasState × Mode)
unfolding outer_line unit_line method_line issue_line
gas_line line outside g = outer_line line g
gas_line line in_methods g = method_line line g
gas_line line (in_unit name tests) g = some (unit_line line name tests g)
gas_line line (in_issues name lines) g = some (issue_line line name lines g)

-- The end of the file ends the inner loop, and then the outer one.
abbrev pub end_mode : Mode → GasState → GasState
end_mode outside g = g
end_mode in_methods g = g
end_mode (in_unit name tests) g = end_unit name tests g
end_mode (in_issues name lines) g = end_issues name lines g

unfoldable pub read_gas : List Text → Mode → GasState → Option GasState
unfolding gas_line end_unit end_issues
read_gas [] mode g = some (end_mode mode g)
read_gas (line ∷ lines) mode g = elim (gas_line line mode g) [
  | none ↦ none
  | some (g', mode') ↦ read_gas lines mode' g'
]
