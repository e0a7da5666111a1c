-- ===== src/Model/StageSort/Order.antt =====
-- What a sorted list of stages is worth.
use aline_engine.Base.{
  ℕ, zero, suc, ◌+◌, ◌≡◌, refl, ap, sym, ◌∙◌, true, false, Option, none, some, List, [], ◌∷◌, ◌++◌,
  ◌||◌, arith, ◌==◌, if◌then◌else◌, length, Bool-cases, inl, inr, All, subst, ==_iff,
}
use aline_engine.Base.Map.{Map, lookup, is_some, IsMap, contains, contains-keys, keys, or_else}
use aline_engine.Base.Text.{Text}
use aline_engine.Model.Job.{Stage, StageDetail, Job, new_stage_detail}
use aline_engine.Model.StageSort.{
  Sorting, sorted_stages, cannot_resolve, all_contains, visit, pass, rounds, stage_sort, start,
}
use aline_engine.Model.StageSort.Places.{
  entries_of, IsSplit, ToVisit, visit-IsSplit, visit-ToVisit, first_waits, pass-IsSplit, IsRange,
  range-ToVisit, start-IsSplit,
}

-- Each stage needs only stages of `seen` and stages before it.
abbrev pub IsOrdered : List Text → List StageDetail → Type 0
IsOrdered seen [] = Unit
IsOrdered seen (x ∷ xs) =
    All (λ n. contains n seen ≡ true) x.stage.needs × IsOrdered (x.name ∷ seen) xs

All-imp :
    {P Q : Text → Type 0} (needs : List Text) → ((n : Text) → P n → Q n) → All P needs → All Q needs
All-imp [] f h = tt
All-imp (n ∷ needs) f h = (f n h.0, All-imp needs f h.1)

IsOrdered-snoc :
    (seen : List Text) (xs : List StageDetail) (x : StageDetail)
    → IsOrdered seen xs
    → All (λ n. (contains n (keys (entries_of xs)) || contains n seen) ≡ true) x.stage.needs
    → IsOrdered seen (xs ++ x ∷ [])
IsOrdered-snoc seen [] x o h = (h, tt)
IsOrdered-snoc seen (y ∷ ys) x o h =
    (o.0, IsOrdered-snoc (y.name ∷ seen) ys x o.1 (All-imp x.stage.needs (λ n e. ground arith) h))

all_contains-false :
    (sorted : Map Text) (needs : List Text) → all_contains sorted needs false ≡ false
unfolding all_contains
all_contains-false sorted [] = refl
all_contains-false sorted (n ∷ needs) = ground (arith, all_contains-false sorted needs)

-- The test of the inner loop is passed only if every need is marked as sorted.
all_contains_sound :
    (sorted : Map Text) (needs : List Text)
    → all_contains sorted needs true ≡ true
    → All (λ n. is_some (lookup n sorted) ≡ true) needs
unfolding all_contains
all_contains_sound sorted [] h = tt
all_contains_sound sorted (n ∷ needs) h = elim (Bool-cases (is_some (lookup n sorted))) [
  | inl e ↦ (e, all_contains_sound sorted needs (rw e at h))
  | inr e ↦ ground (arith, all_contains-false sorted needs)
]

visit-IsOrdered :
    {all : Map Stage} (key : Text) (stage : Stage) (s : Sorting)
    → IsSplit all s
    → IsOrdered [] s.stage_list
    → IsOrdered [] (visit key stage s).stage_list
unfolding visit new_stage_detail
visit-IsOrdered key stage s h o = elim (Bool-cases (all_contains s.sorted stage.needs true)) [
  | inl ready ↦ rw ready (
      IsOrdered-snoc [] s.stage_list (new_stage_detail key stage) o (
        All-imp stage.needs
          (λ n e. ground (arith, contains-keys n (entries_of s.stage_list), h.marked n))
          (all_contains_sound s.sorted stage.needs ready)))
  | inr blocked ↦ rw blocked o
]

pass-IsOrdered :
    {all : Map Stage} (entries : Map Stage) (s : Sorting)
    → ToVisit entries s
    → IsSplit all s
    → IsOrdered [] s.stage_list
    → IsOrdered [] (pass entries s).stage_list
unfolding pass
pass-IsOrdered [] s v h o = o
pass-IsOrdered ((key, stage) ∷ entries) s v h o =
    pass-IsOrdered entries (visit key stage s) (visit-ToVisit key stage entries s v)
      (visit-IsSplit key stage s h (first_waits key stage entries s v))
      (visit-IsOrdered key stage s h o)

-- The list holds each stage of the job once, under its key, and each stands behind its needs.
pub record IsPlan (all : Map Stage) (list : List StageDetail) : Type 0 where
  pub distinct : IsMap (entries_of list)
  pub complete : (k : Text) → lookup k (entries_of list) ≡ lookup k all
  pub ordered : IsOrdered [] list

lookup_nil : (m : Map Stage) (k : Text) → length m ≡ 0 → lookup k m ≡ none
unfolding lookup
lookup_nil [] k h = refl
lookup_nil (e ∷ m) k h = absurd (omega arith)

or_else-none : (o : Option Stage) → or_else o none ≡ o
or_else-none none = refl
or_else-none (some a) = refl

IsSplit→IsPlan :
    {all : Map Stage} (s : Sorting)
    → IsSplit all s
    → IsOrdered [] s.stage_list
    → length s.stages ≡ 0
    → IsPlan all s.stage_list
IsSplit→IsPlan s h o e = record {
  distinct = h.placed_distinct;
  complete = λ k. sym (
      h.together k
      ∙ ap (or_else (lookup k (entries_of s.stage_list))) (lookup_nil s.stages k e)
      ∙ or_else-none _);
  ordered = o;
}

pub rounds_done :
    (order : ℕ → Map Stage → Map Stage) (fuel r : ℕ) (s : Sorting)
    → (length s.stages == 0) ≡ true
    → rounds order fuel r s ≡ sorted_stages s.stage_list
unfolding rounds
rounds_done order zero r s e = rw e
rounds_done order (suc fuel) r s e = rw e

pub rounds_more :
    (order : ℕ → Map Stage → Map Stage) (fuel r : ℕ) (s : Sorting)
    → (length s.stages == 0) ≡ false
    → let after = pass (order r s.stages) s in
      rounds order (suc fuel) r s ≡ (
        if length after.stages == length s.stages
        then cannot_resolve after.stages
        else rounds order fuel (r + 1) after)
unfolding rounds
rounds_more order fuel r s e = rw e

list_eq : {l m : List StageDetail} → sorted_stages l ≡ sorted_stages m → l ≡ m
list_eq e = cc

finished :
    {all : Map Stage} (order : ℕ → Map Stage → Map Stage) (fuel r : ℕ) (s : Sorting)
    {list : List StageDetail}
    → IsSplit all s
    → IsOrdered [] s.stage_list
    → rounds order fuel r s ≡ sorted_stages list
    → (length s.stages == 0) ≡ true
    → IsPlan all list
finished {all} order fuel r s h o e done =
    subst (IsPlan all) (list_eq (sym (rounds_done order fuel r s done) ∙ e))
      (IsSplit→IsPlan s h o ((==_iff _ 0).0 done))

not_stuck :
    {all m : Map Stage} {list : List StageDetail}
    → cannot_resolve m ≡ sorted_stages list
    → IsPlan all list
not_stuck e = cc

rounds-IsPlan :
    {all : Map Stage} (order : ℕ → Map Stage → Map Stage) (fuel r : ℕ) (s : Sorting)
    {list : List StageDetail}
    → IsRange order
    → IsSplit all s
    → IsOrdered [] s.stage_list
    → rounds order fuel r s ≡ sorted_stages list
    → IsPlan all list
rounds-IsPlan {all} order zero r s range h o e = elim (Bool-cases (length s.stages == 0)) [
  | inl done ↦ finished order zero r s h o e done
  | inr more ↦ unfold rounds in ground arith
]
rounds-IsPlan {all} order (suc fuel) r s range h o e = elim (Bool-cases (length s.stages == 0)) [
  | inl done ↦ finished order (suc fuel) r s h o e done
  | inr more ↦
      let after = pass (order r s.stages) s in
      let v = range-ToVisit order r s range h in
      let next =
        rounds-IsPlan {all = all} order fuel (r + 1) after range
          (pass-IsSplit (order r s.stages) s v h) (pass-IsOrdered (order r s.stages) s v h o) in
      let e' = sym (rounds_more order fuel r s more) ∙ e in
      elim (Bool-cases (length after.stages == length s.stages)) [
        | inl stuck ↦ not_stuck (rw stuck at e')
        | inr fewer ↦ next (rw fewer at e')
      ]
]

-- A list that `StageSort` returns holds each stage of the job exactly once, under its key in the
-- job, and each stage stands behind all stages that it needs. The job's stages have distinct keys,
-- and `range` visits each entry once, in any order.
pub stage_sort-IsPlan :
    (order : ℕ → Map Stage → Map Stage) (job : Job) (list : List StageDetail)
    → IsMap job.stages
    → IsRange order
    → stage_sort order job ≡ sorted_stages list
    → IsPlan job.stages list
unfolding stage_sort
stage_sort-IsPlan order job list distinct range e =
    rounds-IsPlan order (length job.stages) 0 (start job) range (start-IsSplit job distinct) tt e
