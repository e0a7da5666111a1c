-- ===== src/Model/StageSort/Complete.antt =====
-- When `StageSort` succeeds: always, if the needs of the stages are stages and form no cycle.
use aline_engine.Base.{
  ℕ, zero, suc, ◌+◌, ◌<◌, ◌≡◌, ◌≢◌, ◌∙◌, true, false, none, some, List, [], ◌∷◌, arith, ◌==◌,
  length, Bool-cases, inl, inr, subst, Option-cases,
}
use aline_engine.Base.Map.{Map, lookup, is_some, IsMap, contains, length-erase}
use aline_engine.Base.Text.{Text, text_eq, text_eq_refl}
use aline_engine.Model.Job.{Stage, StageDetail, Job}
use aline_engine.Model.StageSort.{
  Sorting, sorted_stages, all_contains, visit, pass, rounds, stage_sort, start,
}
use aline_engine.Model.StageSort.Fuel.{pass-le, visit-le}
use aline_engine.Model.StageSort.Places.{
  entries_of, IsSplit, ToVisit, visit-IsSplit, visit-ToVisit, first_waits, pass-IsSplit, IsRange,
  range-ToVisit, start-IsSplit,
}
use aline_engine.Model.StageSort.Order.{rounds_done, rounds_more}

-- If the inner loop finds a need that is missing, there is one.
missing_need :
    (sorted : Map Text) (needs : List Text)
    → all_contains sorted needs true ≡ false
    → (n : Text) × (contains n needs ≡ true) × (is_some (lookup n sorted) ≡ false)
unfolding all_contains
missing_need sorted [] h = cc
missing_need sorted (n ∷ needs) h = elim (Bool-cases (is_some (lookup n sorted))) [
  | inl e ↦
      let (n', stands, missing) = missing_need sorted needs (rw e at h) in
      (n', ground arith, missing)
  | inr e ↦ (n, ground (arith, text_eq_refl n), e)
]

visit_blocked :
    {all : Map Stage} (key : Text) (stage : Stage) (s : Sorting)
    → IsSplit all s
    → lookup key s.stages ≡ some stage
    → length (visit key stage s).stages ≡ length s.stages
    → (all_contains s.sorted stage.needs true ≡ false) × (visit key stage s ≡ s)
unfolding visit
visit_blocked key stage s h waits same =
    elim (Bool-cases (all_contains s.sorted stage.needs true)) [
      | inl ready ↦ absurd (
          omega
            (arith, length-erase key stage s.stages h.waiting_distinct waits, (rw ready at same)))
      | inr blocked ↦ (blocked, rw blocked)
    ]

-- A pass that places nothing found each of its stages blocked.
pass_blocked :
    {all : Map Stage} (entries : Map Stage) (s : Sorting)
    → ToVisit entries s
    → IsSplit all s
    → length (pass entries s).stages ≡ length s.stages
    → (k : Text) (stage : Stage) → lookup k entries ≡ some stage
    → all_contains s.sorted stage.needs true ≡ false
unfolding pass lookup
pass_blocked [] s v h same k stage e = cc
pass_blocked {all} ((key, st) ∷ entries) s v h same k stage e =
    let waits = first_waits key st entries s v in
    let same' : length (visit key st s).stages ≡ length s.stages =
      omega (arith, visit-le key st s, pass-le entries (visit key st s)) in
    let (blocked, unchanged) = visit_blocked key st s h waits same' in
    let rest =
      pass_blocked {all = all} entries (visit key st s) (visit-ToVisit key st entries s v)
        (visit-IsSplit key st s h waits) (omega arith) k stage in
    elim (Bool-cases (text_eq key k)) [
      | inl here ↦
          subst (λ x. all_contains s.sorted x.needs true ≡ false) (stage_eq (rw here at e)) blocked
      | inr there ↦
          subst (λ x. all_contains x.sorted stage.needs true ≡ false) unchanged
            (rest (rw there at e))
    ]
  where
    stage_eq : {a b : Stage} → some a ≡ some b → a ≡ b
    stage_eq p = cc

-- `rank` bounds how long a chain of needs can be: each need is a stage of lower rank.
abbrev pub IsRanked : (Text → ℕ) → Map Stage → Type 0
IsRanked rank all =
    (key : Text) (stage : Stage) (n : Text)
    → lookup key all ≡ some stage
    → contains n stage.needs ≡ true
    → (is_some (lookup n all) ≡ true) × (rank n < rank key)

test : {a b : ℕ} → a ≢ b → (a == b) ≡ false
test h = ground arith

first_key :
    (m : Map Stage)
    → (length m == 0) ≡ false
    → (k : Text) × (stage : Stage) × (lookup k m ≡ some stage)
unfolding lookup
first_key [] h = cc
first_key ((k, stage) ∷ m) h = (k, stage, ground (arith, text_eq_refl k))

module _ {all : Map Stage} (rank : Text → ℕ) (ranked : IsRanked rank all) where
  module _ (s : Sorting) (h : IsSplit all s)
      (stuck : (k : Text) (stage : Stage)
        → lookup k s.stages ≡ some stage
        → all_contains s.sorted stage.needs true ≡ false) where
    -- With nothing to place, no stage below any rank is waiting.
    none_waits : (r : ℕ) (k : Text) → rank k < r → lookup k s.stages ≡ none
    none_waits zero k low = absurd (omega arith)
    none_waits (suc r) k low = elim (Option-cases (lookup k s.stages)) [
      | inl e ↦ e
      | inr (stage, e) ↦
          let (n, needed, missing) = missing_need s.sorted stage.needs (stuck k stage e) in
          let placed : lookup k (entries_of s.stage_list) ≡ none = h.apart k (λ z. cc) in
          let known : lookup k all ≡ some stage = ground (arith, h.together k) in
          let (stands, lower) = ranked k stage n known needed in
          let below = none_waits r n (omega arith) in ground (arith, h.together n, h.marked n)
    ]

  round_places :
      (order : ℕ → Map Stage → Map Stage) (r : ℕ) (s : Sorting)
      → IsRange order
      → IsSplit all s
      → (length s.stages == 0) ≡ false
      → length (pass (order r s.stages) s).stages ≢ length s.stages
  round_places order r s range h more same =
      let (k, stage, e) = first_key s.stages more in
      let stuck = λ (k : Text) (stage : Stage) (e : lookup k s.stages ≡ some stage).
        pass_blocked {all = all} (order r s.stages) s (range-ToVisit order r s range h) h same k
          stage ((range r s.stages h.waiting_distinct).1 k ∙ e) in
      let gone = none_waits s h stuck (rank k + 1) k (omega arith) in cc

  rounds_complete :
      (order : ℕ → Map Stage → Map Stage) (fuel r : ℕ) (s : Sorting)
      → IsRange order
      → IsSplit all s
      → length s.stages < fuel + 1
      → (list : List StageDetail) × (rounds order fuel r s ≡ sorted_stages list)
  rounds_complete order zero r s range h fits =
      (s.stage_list, rounds_done order zero r s (ground arith))
  rounds_complete order (suc fuel) r s range h fits = elim (Bool-cases (length s.stages == 0)) [
    | inl done ↦ (s.stage_list, rounds_done order (suc fuel) r s done)
    | inr more ↦
        let after = pass (order r s.stages) s in
        let v = range-ToVisit order r s range h in
        let places = round_places order r s range h more in
        let (list, e) =
          rounds_complete order fuel (r + 1) after range (pass-IsSplit (order r s.stages) s v h)
            (omega (arith, pass-le (order r s.stages) s)) in
        (list, rounds_more order fuel r s more ∙ rw (test places) e)
  ]

-- Sorting succeeds if the needs of every stage are stages of the job and form no cycle, that is, if
-- there is a rank that falls from each stage to its needs. The job's stages have distinct keys, and
-- `range` visits each entry once, in any order.
pub stage_sort_complete :
    (order : ℕ → Map Stage → Map Stage) (job : Job) (rank : Text → ℕ)
    → IsMap job.stages
    → IsRange order
    → IsRanked rank job.stages
    → (list : List StageDetail) × (stage_sort order job ≡ sorted_stages list)
unfolding stage_sort
stage_sort_complete order job rank distinct range ranked =
    rounds_complete rank ranked order (length job.stages) 0 (start job) range
      (start-IsSplit job distinct) (omega arith)
