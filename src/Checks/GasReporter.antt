-- ===== src/Checks/GasReporter.antt =====
-- action/action_eth_gas_reporter.go. The inner loops of `Post` read on in the same file: each is a
-- mode of one walk over the lines.
pub mod Lines
pub mod Post
pub mod Counts
pub mod Totals
use aline_engine.Base.{
  ℕ, suc, ◌+◌, ◌-◌, ◌≡◌, Bool, true, false, ◌||◌, ◌&&◌, Option, none, some, List, [], ◌∷◌, ◌++◌,
  length, drop, take, ltb, leb, ◌==◌, if◌then◌else◌,
}
use aline_engine.Base.Text.{Text, codes, has_prefix}
use aline_engine.Checks.SolProfiler.{bar}
use aline_engine.Checks.Types.{
  TestResult, UnitTestResult, IssuesInfo, GasUsageForMethods, GasUsageForDeployments,
}
use aline_engine.Utils.Texts.{has_text, index_of, trim_space, split_on, replace_all}

-- The variables of `Post`.
pub record GasState : Type 0 where
  pub units : List UnitTestResult
  pub infos : List IssuesInfo
  pub methods : List GasUsageForMethods
  pub deployments : List GasUsageForDeployments
  pub issues : ℕ
  pub success : Bool
  pub solc_version : Text
  pub gas_limit : Text
  pub previous : Text

-- The loop that reads the next line, with its own variables.
pub data Mode : Type 0 where
  outside in_methods : Mode
  in_unit : Text → List TestResult → Mode
  in_issues : Text → List Text → Mode

-- The bytes of "✓" and "·".
abbrev pub check_mark : Text
check_mark = 226 ∷ 156 ∷ 147 ∷ []

abbrev pub middle_dot : Text
middle_dot = 194 ∷ 183 ∷ []

abbrev pub contract_mark : Text
contract_mark = codes "Contract: "

abbrev is_digit : ℕ → Bool
is_digit c = leb b'0' c && leb c b'9'

-- Behind a digit, the rest of the regular expression `^\d+\)`.
unfoldable pub closes_number : Text → Bool
closes_number [] = false
closes_number (c ∷ s) = let rest = closes_number s in if is_digit c then rest else c == b')'

unfoldable pub is_number : Text → Bool
unfolding closes_number
is_number [] = false
is_number (c ∷ s) = is_digit c && closes_number s

-- `len(s) > n && r.MatchString(s[:n])`
abbrev pub is_numbered : ℕ → Text → Bool
is_numbered n s = ltb n (length s) && is_number (take n s)

-- `strings.TrimLeft(s, " ")`
unfoldable pub trim_spaces : Text → Text
trim_spaces [] = []
trim_spaces (c ∷ s) = let rest = trim_spaces s in if c == b' ' then rest else c ∷ s

-- What stands behind the first `t`, or what `s[-1 + n:]` is without one.
unfoldable pub behind : Text → ℕ → Text → Text
unfolding index_of
behind t n s = elim (index_of t s) [ none ↦ drop (n - 1) s | some i ↦ drop (i + n) s ]

abbrev pub test_result : ℕ → Text → TestResult
test_result result title = record { result = result; unit_test_title = trim_space title }

-- The tests that a line adds: a failure counts as an issue.
unfoldable pub add_failure : Text → GasState × List TestResult → GasState × List TestResult
unfolding is_number behind
add_failure s (g, tests) =
    if is_numbered 8 s
    then (
      record g { issues = g.issues + 1; success = false },
      tests ++ (test_result 0 (behind (codes ")") 1 s) ∷ []),
    )
    else (g, tests)

unfoldable pub add_success : Text → GasState × List TestResult → GasState × List TestResult
unfolding behind index_of
add_success s (g, tests) =
    if has_text s check_mark
    then (g, tests ++ (test_result 1 (behind check_mark 3 s) ∷ []))
    else (g, tests)

abbrev pub unit_mode : Text → GasState × List TestResult → GasState × Mode
unit_mode name (g, tests) = (g, in_unit name tests)

abbrev pub unit_name : Text → Text
unit_name s = trim_space (replace_all s contract_mark [])

-- The end of the loop over the tests of a contract.
unfoldable pub end_unit : Text → List TestResult → GasState → GasState
end_unit name tests g = record g {
  units = g.units ++ (record { contract_name = name; test_result_list = tests } ∷ []);
}

-- A heading of a contract: the line, or the line before, and then this one is the first test.
unfoldable pub start_at : Text → Text → GasState → GasState × Mode
unfolding add_failure add_success
start_at [] s g = (g, in_unit (unit_name s) [])
start_at (c ∷ p) s g =
    unit_mode (unit_name (c ∷ p)) (add_success s (add_failure s (record g { previous = [] }, [])))

unfoldable pub start_unit : Text → GasState → GasState × Mode
unfolding start_at
start_unit s g = start_at g.previous s g

-- A line of the loop over the tests, without the white space round it.
unfoldable pub unit_text : Text → Text → List TestResult → GasState → GasState × Mode
unfolding add_failure add_success end_unit has_prefix index_of
unit_text [] name tests g = (g, in_unit name tests)
unit_text (c ∷ s) name tests g =
    if has_prefix (c ∷ s) contract_mark
    then (record (end_unit name tests g) { previous = c ∷ s }, outside)
    else if has_text (c ∷ s) (middle_dot ++ codes "--------")
    then (end_unit name tests g, outside)
    else unit_mode name (add_success (c ∷ s) (add_failure (c ∷ s) (g, tests)))

unfoldable pub unit_line : Text → Text → List TestResult → GasState → GasState × Mode
unfolding unit_text
unit_line line name tests g = unit_text (trim_space line) name tests g
