-- ===== src/Checks/GasReporter/Counts.antt =====
-- The numbers of the report of action/action_eth_gas_reporter.go.
use aline_engine.Base.{
  ℕ, ◌+◌, ◌≡◌, Bool, true, false, Bool-cases, Option, none, some, List, [], ◌∷◌, ◌++◌, arith, inl,
  inr, ◌==◌, if◌then◌else◌,
}
use aline_engine.Base.Text.{Text, codes, has_prefix}
use aline_engine.Utils.Texts.{has_text}
use aline_engine.Checks.GasReporter.{
  start_at, unit_text, unit_name, contract_mark, middle_dot, GasState, Mode, outside, in_methods,
  in_unit, in_issues, add_failure, add_success, end_unit, is_numbered, test_result, behind,
  check_mark, unit_mode,
}
use aline_engine.Checks.Types.{TestResult, UnitTestResult}

-- The tests that failed.
abbrev pub failures : List TestResult → ℕ
failures [] = 0
failures (t ∷ ts) = (if t.result == 0 then 1 else 0) + failures ts

abbrev pub all_failures : List UnitTestResult → ℕ
all_failures [] = 0
all_failures (u ∷ us) = failures u.test_result_list + all_failures us

abbrev pub mode_failures : Mode → ℕ
mode_failures outside = 0
mode_failures in_methods = 0
mode_failures (in_unit name tests) = failures tests
mode_failures (in_issues name lines) = 0

abbrev pub Counts : GasState → ℕ → Type 0
Counts g n = (g.issues ≡ all_failures g.units + n) × (g.success ≡ (g.issues == 0))

failures-append : (ts us : List TestResult) → failures (ts ++ us) ≡ failures ts + failures us
failures-append [] us = omega arith
failures-append (t ∷ ts) us = ground (arith, failures-append ts us)

all_failures-append :
    (us vs : List UnitTestResult) → all_failures (us ++ vs) ≡ all_failures us + all_failures vs
all_failures-append [] vs = omega arith
all_failures-append (u ∷ us) vs = omega (arith, all_failures-append us vs)

abbrev PairCounts : GasState × List TestResult → Type 0
PairCounts (g, tests) = Counts g (failures tests)

abbrev pub ModeCounts : GasState × Mode → Type 0
ModeCounts (g, mode) = Counts g (mode_failures mode)

abbrev pub OptionCounts : Option (GasState × Mode) → Type 0
OptionCounts none = Unit {0}
OptionCounts (some x) = ModeCounts x

add_failure-Counts :
    (s : Text) (g : GasState) (tests : List TestResult)
    → Counts g (failures tests)
    → PairCounts (add_failure s (g, tests))
unfolding add_failure
add_failure-Counts s g tests h = elim (Bool-cases (is_numbered 8 s)) [
  | inl e ↦
      rw e (ground (arith, failures-append tests (test_result 0 (behind (codes ")") 1 s) ∷ [])))
  | inr e ↦ rw e h
]

add_success-Counts :
    (s : Text) (g : GasState) (tests : List TestResult)
    → Counts g (failures tests)
    → PairCounts (add_success s (g, tests))
unfolding add_success
add_success-Counts s g tests h = elim (Bool-cases (has_text s check_mark)) [
  | inl e ↦
      rw e (ground (arith, failures-append tests (test_result 1 (behind check_mark 3 s) ∷ [])))
  | inr e ↦ rw e h
]

pub end_unit-Counts :
    (name : Text) (tests : List TestResult) (g : GasState)
    → Counts g (failures tests)
    → Counts (end_unit name tests g) 0
unfolding end_unit
end_unit-Counts name tests g h = ground (
  arith,
  all_failures-append g.units (record { contract_name = name; test_result_list = tests } ∷ []),
)

unit_mode-ModeCounts :
    (name : Text) (x : GasState × List TestResult) → PairCounts x → ModeCounts (unit_mode name x)
unit_mode-ModeCounts name (g, tests) h = h

add_success-PairCounts :
    (s : Text) (x : GasState × List TestResult) → PairCounts x → PairCounts (add_success s x)
add_success-PairCounts s (g, tests) h = add_success-Counts s g tests h

test_line-ModeCounts :
    (s name : Text) (g : GasState) (tests : List TestResult)
    → Counts g (failures tests)
    → ModeCounts (unit_mode name (add_success s (add_failure s (g, tests))))
test_line-ModeCounts s name g tests h =
    unit_mode-ModeCounts name (add_success s (add_failure s (g, tests)))
      (add_success-PairCounts s (add_failure s (g, tests)) (add_failure-Counts s g tests h))

pub either : {A : Type 0} (P : A → Type 0) (b : Bool) (x y : A) → P x → P y → P (if b then x else y)
either P true x y h k = h
either P false x y h k = k

pub start_at-Counts : (p s : Text) (g : GasState) → Counts g 0 → ModeCounts (start_at p s g)
unfolding start_at
start_at-Counts [] s g h = h
start_at-Counts (c ∷ p) s g h =
    test_line-ModeCounts s (unit_name (c ∷ p)) (record g { previous = [] }) [] h

pub unit_text-Counts :
    (s name : Text) (tests : List TestResult) (g : GasState)
    → Counts g (failures tests)
    → ModeCounts (unit_text s name tests g)
unfolding unit_text
unit_text-Counts [] name tests g h = h
unit_text-Counts (c ∷ s) name tests g h =
    let ended = end_unit-Counts name tests g h in
    either ModeCounts (has_prefix (c ∷ s) contract_mark) _ _ ended (
      either ModeCounts (has_text (c ∷ s) (middle_dot ++ codes "--------")) _ _ ended
        (test_line-ModeCounts (c ∷ s) name g tests h))
