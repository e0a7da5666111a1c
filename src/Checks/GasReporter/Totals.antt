-- ===== src/Checks/GasReporter/Totals.antt =====
-- The total and the verdict of the report of action/action_eth_gas_reporter.go.
use aline_engine.Base.{
  ◌*◌, ◌≡◌, refl, ◌↔◌, Option-cases, Option, none, some, List, [], ◌∷◌, arith, ◌||◌, ◌&&◌, inl, inr,
  subst, sym,
}
use aline_engine.Base.Text.{Text, codes, has_prefix}
use aline_engine.Utils.Texts.{has_text, trim_space}
use aline_engine.Checks.GasReporter.{
  contract_mark, trim_spaces, GasState, Mode, outside, in_methods, in_unit, in_issues, start_unit,
  unit_line, is_numbered,
}
use aline_engine.Checks.Gather.{verdict_success}
use aline_engine.Checks.GasReporter.Lines.{
  methods_of, start_issues_at, issue_text, outside_of, first_column, is_blank, is_open,
  method_columns, method_line, table_line, start_issues, end_issues, issue_line, outer_line,
  gas_line, read_gas, end_mode, issue_name, issues_mode, method_row, deployment_row, versions,
  columns,
}
use aline_engine.Checks.GasReporter.Post.{gas_start, gas_result}
use aline_engine.Checks.Types.{check_success}
use aline_engine.Checks.GasReporter.Counts.{
  all_failures, Counts, ModeCounts, OptionCounts, mode_failures, either, start_at-Counts,
  unit_text-Counts, end_unit-Counts,
}

issue_text-Counts :
    (s name : Text) (lines : List Text) (g : GasState)
    → Counts g 0
    → ModeCounts (issue_text s name lines g)
unfolding issue_text end_issues
issue_text-Counts [] name lines g h = h
issue_text-Counts (c ∷ s) name lines g h = either ModeCounts (is_numbered 5 (c ∷ s)) _ _ h h

issues_mode-Counts :
    (name : Option Text) (lines : List Text) (g : GasState)
    → Counts g 0
    → OptionCounts (issues_mode name lines g)
issues_mode-Counts none lines g h = tt
issues_mode-Counts (some name) lines g h = h

start_issues_at-Counts :
    (p s : Text) (g : GasState) → Counts g 0 → OptionCounts (start_issues_at p s g)
unfolding start_issues_at
start_issues_at-Counts [] s g h = issues_mode-Counts (issue_name s) [] g h
start_issues_at-Counts (c ∷ p) s g h =
    issues_mode-Counts (issue_name (c ∷ p)) (s ∷ []) (record g { previous = [] }) h

versions-Counts :
    (first : Text) (cs : List Text) (g : GasState)
    → Counts g 0
    → OptionCounts (outside_of (versions first cs g))
versions-Counts first (c0 ∷ c1 ∷ c2 ∷ c3 ∷ cs) g h = h
versions-Counts first _ g h = tt

deployment_row-Counts :
    (cs : List Text) (g : GasState) → Counts g 0 → Counts (deployment_row cs g) 0
deployment_row-Counts (c0 ∷ c1 ∷ c2 ∷ c3 ∷ c4 ∷ cs) g h = h
deployment_row-Counts _ g h = h

table_line-Counts : (s : Text) (g : GasState) → Counts g 0 → OptionCounts (table_line s g)
unfolding table_line
table_line-Counts s g h =
    either OptionCounts (has_text (first_column (columns s)) (codes "Solc version: ")) _ _
      (versions-Counts (first_column (columns s)) (columns s) g h)
      (either OptionCounts (has_text (first_column (columns s)) (codes "Methods")) _ _ h
        (deployment_row-Counts (columns s) g h))

abbrev StateCounts : Option GasState → Type 0
StateCounts none = Unit {0}
StateCounts (some g) = Counts g 0

method_row-Counts : (cs : List Text) (g : GasState) → Counts g 0 → StateCounts (method_row cs g)
method_row-Counts (c0 ∷ c1 ∷ c2 ∷ c3 ∷ c4 ∷ c5 ∷ cs) g h = h
method_row-Counts _ g h = tt

method_columns-Counts :
    (cs : List Text) (g : GasState) → Counts g 0 → StateCounts (method_columns cs g)
unfolding method_columns
method_columns-Counts (c0 ∷ c1 ∷ c2 ∷ cs) g h =
    either StateCounts (has_text c2 (codes "Min")) _ _ h (method_row-Counts (c0 ∷ c1 ∷ c2 ∷ cs) g h)
method_columns-Counts _ g h = tt

methods_of-Counts : (x : Option GasState) → StateCounts x → OptionCounts (methods_of x)
methods_of-Counts none h = tt
methods_of-Counts (some g) h = h

method_line-Counts : (s : Text) (g : GasState) → Counts g 0 → OptionCounts (method_line s g)
unfolding method_line
method_line-Counts s g h =
    either OptionCounts (has_text s (codes "Deployments") && has_text s (codes "% of limit")) _ _ h
      (either OptionCounts (has_prefix s (codes "|")) _ _
        (methods_of-Counts (method_columns (columns s) g) (method_columns-Counts (columns s) g h))
        h)

outer_line-Counts : (line : Text) (g : GasState) → Counts g 0 → OptionCounts (outer_line line g)
unfolding outer_line start_unit start_issues
outer_line-Counts line g h =
    let s = trim_spaces line in
    either OptionCounts (is_blank s) _ _ h (
      either OptionCounts (has_prefix s contract_mark || has_prefix g.previous contract_mark) _ _
        (start_at-Counts g.previous s g h)
        (either OptionCounts (has_prefix s (codes "|")) _ _ (table_line-Counts s g h) (
          either OptionCounts (is_numbered 5 s || is_open g.previous) _ _
            (start_issues_at-Counts g.previous s g h) h)))

gas_line-Counts :
    (line : Text) (mode : Mode) (g : GasState)
    → Counts g (mode_failures mode)
    → OptionCounts (gas_line line mode g)
unfolding gas_line unit_line issue_line
gas_line-Counts line outside g h = outer_line-Counts line g h
gas_line-Counts line in_methods g h = method_line-Counts line g h
gas_line-Counts line (in_unit name tests) g h = unit_text-Counts (trim_space line) name tests g h
gas_line-Counts line (in_issues name lines) g h = issue_text-Counts (trim_space line) name lines g h

end_mode-Counts :
    (mode : Mode) (g : GasState) → Counts g (mode_failures mode) → Counts (end_mode mode g) 0
unfolding end_issues
end_mode-Counts outside g h = h
end_mode-Counts in_methods g h = h
end_mode-Counts (in_unit name tests) g h = end_unit-Counts name tests g h
end_mode-Counts (in_issues name lines) g h = h

read_gas-Counts :
    (lines : List Text) (mode : Mode) (g : GasState)
    → Counts g (mode_failures mode)
    → StateCounts (read_gas lines mode g)
unfolding read_gas
read_gas-Counts [] mode g h = end_mode-Counts mode g h
read_gas-Counts (line ∷ lines) mode g h = elim (Option-cases (gas_line line mode g)) [
  | inl e ↦ subst (λ x. StateCounts (rest_of x)) (sym e) tt
  | inr ((g', mode'), e) ↦
      subst (λ x. StateCounts (rest_of x)) (sym e)
        (read_gas-Counts lines mode' g' (subst OptionCounts e (gas_line-Counts line mode g h)))
]
  where
    rest_of : Option (GasState × Mode) → Option GasState
    rest_of x = elim x [ none ↦ none | some (g', mode') ↦ read_gas lines mode' g' ]

-- What is reported of any file that does not make `Post` panic: each failed test counts four times in the
-- total, and the result is "Success" exactly if no test failed.
pub gas_result-read_gas :
    (lines : List Text) (g : GasState) (units infos methods deployments : Text)
    → read_gas lines outside gas_start ≡ some g
    → ((gas_result g units infos methods deployments).total ≡ 4 * all_failures g.units)
      × (((gas_result g units infos methods deployments).result ≡ check_success)
          ↔ (all_failures g.units ≡ 0))
unfolding gas_result
gas_result-read_gas lines g units infos methods deployments e =
    let counts : Counts g 0 =
      subst StateCounts e (read_gas-Counts lines outside gas_start (refl, refl)) in
    ground (arith, verdict_success g.success)
