-- ===== src/Examples/Sorting.antt =====
-- The stages "test", which needs "build", and "build", visited in the order of the list.
use aline_engine.Base.{
  ℕ, ◌≡◌, ◌≢◌, refl, sym, ◌<◌, inl, inr, ◌⊎◌, subst, arith, true, false, some, List, [], ◌∷◌,
  if◌then◌else◌,
}
use aline_engine.Base.Map.{Map, lookup, insert, erase, IsMap, contains, is_some}
use aline_engine.Base.Text.{Text, codes, text_eq, text_eq_iff}
use aline_engine.Model.Job.{Stage, StageDetail, Job, new_stage_detail}
use aline_engine.Model.StageSort.{sorted_stages, out_of_fuel, stage_sort}
use aline_engine.Model.StageSort.Places.{IsRange}
use aline_engine.Model.StageSort.Order.{stage_sort-IsPlan, IsPlan}
use aline_engine.Model.StageSort.Complete.{stage_sort_complete, IsRanked}
use aline_engine.Model.StageSort.Fuel.{stage_sort-ne-out_of_fuel}

abbrev as_listed : ℕ → Map Stage → Map Stage
as_listed r m = m

as_listed-IsRange : IsRange as_listed
as_listed-IsRange r m h = (h, λ k. refl)

abbrev build_stage : Stage
build_stage = record { steps = []; needs = [] }

abbrev test_stage : Stage
test_stage = record { steps = []; needs = codes "build" ∷ [] }

abbrev two_stages : Job
two_stages = record {
  version = codes "1.0";
  name = codes "site";
  stages = (codes "test", test_stage) ∷ (codes "build", build_stage) ∷ [];
  parameter = [];
  user_id = [];
}

abbrev sorted_list : List StageDetail
sorted_list =
    new_stage_detail (codes "build") build_stage ∷ new_stage_detail (codes "test") test_stage ∷ []

two_stages-IsMap : IsMap two_stages.stages
unfolding lookup text_eq
two_stages-IsMap = (refl, (refl, tt))

two_stages_sorted : stage_sort as_listed two_stages ≡ sorted_stages sorted_list
unfolding stage_sort lookup text_eq insert erase
two_stages_sorted = refl

abbrev rank : Text → ℕ
rank name = if text_eq name (codes "test") then 1 else 0

pub lookup_two :
    {V : Type 0} (j k key : Text) (a b v : V)
    → lookup key ((j, a) ∷ (k, b) ∷ []) ≡ some v
    → ((j ≡ key) × (a ≡ v)) ⊎ ((k ≡ key) × (b ≡ v))
unfolding lookup
lookup_two j k key a b v h = ground (arith, text_eq_iff j key, text_eq_iff k key)

contains_one : (n j : Text) → contains n (j ∷ []) ≡ true → j ≡ n
contains_one n j h = ground (arith, text_eq_iff j n)

needs_build :
    (n : Text)
    → contains n test_stage.needs ≡ true
    → (is_some (lookup n two_stages.stages) ≡ true) × (rank n < 1)
unfolding lookup text_eq
needs_build n h =
    subst (λ m. (is_some (lookup m two_stages.stages) ≡ true) × (rank m < 1)) {x = codes "build"}
      {y = n} (contains_one n (codes "build") h) (refl, omega arith)

two_stages-IsRanked : IsRanked rank two_stages.stages
unfolding text_eq
two_stages-IsRanked key stage n found needed =
    elim (lookup_two (codes "test") (codes "build") key test_stage build_stage stage found) [
      | inl (k, s) ↦
          let (stands, below) =
            needs_build n (subst (λ st. contains n st.needs ≡ true) (sym s) needed) in
          (stands, subst (λ m. rank n < rank m) k below)
      | inr (k, s) ↦
          let none_needed : false ≡ true =
            subst (λ st. contains n st.needs ≡ true) (sym s) needed in
          cc
    ]

stage_sort-IsPlan_example : IsPlan two_stages.stages sorted_list
stage_sort-IsPlan_example =
    stage_sort-IsPlan as_listed two_stages sorted_list two_stages-IsMap as_listed-IsRange
      two_stages_sorted

stage_sort_complete_example :
    (list : List StageDetail) × (stage_sort as_listed two_stages ≡ sorted_stages list)
stage_sort_complete_example =
    stage_sort_complete as_listed two_stages rank two_stages-IsMap as_listed-IsRange
      two_stages-IsRanked

stage_sort-ne-out_of_fuel_example : stage_sort as_listed two_stages ≢ out_of_fuel
stage_sort-ne-out_of_fuel_example = stage_sort-ne-out_of_fuel as_listed two_stages
