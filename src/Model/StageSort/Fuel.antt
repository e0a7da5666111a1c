-- ===== src/Model/StageSort/Fuel.antt =====
-- The outer loop of `StageSort` ends: each round that goes on leaves fewer stages.
use aline_engine.Base.{ℕ, zero, suc, ◌+◌, ◌≤◌, ◌≢◌, [], ◌∷◌, arith, length}
use aline_engine.Base.Map.{Map, length-erase_le}
use aline_engine.Base.Text.{Text}
use aline_engine.Model.Job.{Stage, Job}
use aline_engine.Model.StageSort.{Sorting, out_of_fuel, visit, pass, rounds, stage_sort, start}

pub visit-le :
    (key : Text) (stage : Stage) (s : Sorting) → length (visit key stage s).stages ≤ length s.stages
unfolding visit
visit-le key stage s = ground (arith, length-erase_le key s.stages)

pub pass-le : (entries : Map Stage) (s : Sorting) → length (pass entries s).stages ≤ length s.stages
unfolding pass
pass-le [] s = omega arith
pass-le ((key, stage) ∷ entries) s =
    omega (arith, visit-le key stage s, pass-le entries (visit key stage s))

pub rounds-ne-out_of_fuel :
    (order : ℕ → Map Stage → Map Stage) (fuel r : ℕ) (s : Sorting)
    → length s.stages ≤ fuel
    → rounds order fuel r s ≢ out_of_fuel
unfolding rounds
rounds-ne-out_of_fuel order zero r s h = ground arith
rounds-ne-out_of_fuel order (suc fuel) r s h =
    let after = pass (order r s.stages) s in
    ground (arith, pass-le (order r s.stages) s, rounds-ne-out_of_fuel order fuel (r + 1) after)

-- Sorting the stages of a job ends: whatever the order of the visits, as many rounds as there are
-- stages are enough.
pub stage_sort-ne-out_of_fuel :
    (order : ℕ → Map Stage → Map Stage) (job : Job) → stage_sort order job ≢ out_of_fuel
unfolding stage_sort
stage_sort-ne-out_of_fuel order job =
    rounds-ne-out_of_fuel order (length job.stages) 0 (start job) (omega arith)
