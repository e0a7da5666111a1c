-- ===== src/Model/StageSort.antt =====
-- model/job.go `StageSort`: the stages of a job in an order in which each stands behind the stages
-- that it needs. Go's `range` over a map visits the entries in an order that it leaves open, so
-- the order of round `r` is an argument, `order r`.
pub mod Fuel
pub mod Places
pub mod Order
pub mod Complete
use aline_engine.Base.{
  ℕ, zero, suc, ◌+◌, Bool, true, false, List, [], ◌∷◌, ◌++◌, ◌==◌, if◌then◌else◌, length,
}
use aline_engine.Base.Map.{Map, lookup, insert, erase, is_some}
use aline_engine.Base.Text.{Text}
use aline_engine.Model.Job.{Stage, StageDetail, Job, new_stage_detail}

-- The local variables `stages`, `sortedMap` and `stageList`.
pub record Sorting : Type 0 where
  pub stages : Map Stage
  pub sorted : Map Text
  pub stage_list : List StageDetail

pub data SortResult : Type 0 where
  sorted_stages : List StageDetail → SortResult
  cannot_resolve : Map Stage → SortResult
  out_of_fuel : SortResult

-- The inner loop over `stage.Needs`.
pub all_contains : Map Text → List Text → Bool → Bool
all_contains sorted [] acc = acc
all_contains sorted (n ∷ needs) acc =
    all_contains sorted needs (if is_some (lookup n sorted) then acc else false)

-- The body of the loop over the map.
pub visit : Text → Stage → Sorting → Sorting
unfolding all_contains
visit key stage s =
    if all_contains s.sorted stage.needs true
    then record {
      stages = erase key s.stages;
      sorted = insert key [] s.sorted;
      stage_list = s.stage_list ++ (new_stage_detail key stage ∷ []);
    }
    else s

pub pass : Map Stage → Sorting → Sorting
unfolding visit
pass [] s = s
pass ((key, stage) ∷ entries) s = pass entries (visit key stage s)

-- The outer loop, with fuel for the number of stages that are left.
pub rounds : (ℕ → Map Stage → Map Stage) → ℕ → ℕ → Sorting → SortResult
unfolding pass
rounds order zero r s = if length s.stages == 0 then sorted_stages s.stage_list else out_of_fuel
rounds order (suc fuel) r s =
    let after = pass (order r s.stages) s in
    let rest = rounds order fuel (r + 1) after in
    if length s.stages == 0
    then sorted_stages s.stage_list
    else if length after.stages == length s.stages
    then cannot_resolve after.stages
    else rest

abbrev pub start : Job → Sorting
start job = record { stages = job.stages; sorted = []; stage_list = [] }

unfoldable pub stage_sort : (ℕ → Map Stage → Map Stage) → Job → SortResult
unfolding rounds
stage_sort order job = rounds order (length job.stages) 0 (start job)
