-- ===== src/Model/StageSort/Places.antt =====
-- Where the stages of a job are while `StageSort` runs: each is waiting in `stages`, or placed in
-- `stageList`, and `sortedMap` holds the names of the placed ones.
use aline_engine.Base.{
  ℕ, ◌≡◌, ◌≢◌, refl, ap, sym, ◌∙◌, true, none, some, List, [], ◌∷◌, ◌++◌, arith, if◌then◌else◌,
  Bool-cases, inl, inr,
}
use aline_engine.Base.Map.{
  Map, lookup, insert, erase, is_some, IsMap, or_else, erase-IsMap, lookup-insert, lookup-erase,
  lookup-append, snoc-IsMap, lookup-erase_ne,
}
use aline_engine.Base.Text.{Text, text_eq, text_eq_iff}
use aline_engine.Model.Job.{Stage, StageDetail, Job, new_stage_detail}
use aline_engine.Model.StageSort.{Sorting, all_contains, visit, pass, start}

-- The stages of a list under their names.
abbrev pub entries_of : List StageDetail → Map Stage
entries_of [] = []
entries_of (x ∷ xs) = (x.name, x.stage) ∷ entries_of xs

pub entries_of-append :
    (xs ys : List StageDetail) → entries_of (xs ++ ys) ≡ entries_of xs ++ entries_of ys
entries_of-append [] ys = refl
entries_of-append (x ∷ xs) ys = ap (◌∷◌ (x.name, x.stage)) (entries_of-append xs ys)

-- Of the stages `all`, those not placed are waiting.
pub record IsSplit (all : Map Stage) (s : Sorting) : Type 0 where
  pub waiting_distinct : IsMap s.stages
  pub placed_distinct : IsMap (entries_of s.stage_list)
  pub apart : (k : Text) → lookup k s.stages ≢ none → lookup k (entries_of s.stage_list) ≡ none
  pub together :
      (k : Text) → lookup k all ≡ or_else (lookup k (entries_of s.stage_list)) (lookup k s.stages)
  pub marked :
      (k : Text) → is_some (lookup k s.sorted) ≡ is_some (lookup k (entries_of s.stage_list))

-- Placing a waiting stage.
abbrev place : Text → Stage → Sorting → Sorting
place key stage s = record {
  stages = erase key s.stages;
  sorted = insert key [] s.sorted;
  stage_list = s.stage_list ++ (new_stage_detail key stage ∷ []);
}

entries_of-place :
    (key : Text) (stage : Stage) (s : Sorting)
    → entries_of (place key stage s).stage_list ≡ entries_of s.stage_list ++ (key, stage) ∷ []
unfolding new_stage_detail
entries_of-place key stage s = entries_of-append s.stage_list (new_stage_detail key stage ∷ [])

lookup-place :
    (k key : Text) (stage : Stage) (s : Sorting)
    → lookup k (entries_of (place key stage s).stage_list)
      ≡ or_else (lookup k (entries_of s.stage_list)) (if text_eq key k then some stage else none)
unfolding lookup
lookup-place k key stage s =
    ap (lookup k) (entries_of-place key stage s)
    ∙ lookup-append k (entries_of s.stage_list) ((key, stage) ∷ [])

module _ {all : Map Stage} (key : Text) (stage : Stage) (s : Sorting) (h : IsSplit all s)
    (waits : lookup key s.stages ≡ some stage) where
  new_key : lookup key (entries_of s.stage_list) ≡ none
  new_key = h.apart key (λ e. cc)

  place_apart :
      (k : Text)
      → lookup k (erase key s.stages) ≢ none
      → lookup k (entries_of (place key stage s).stage_list) ≡ none
  place_apart k w =
      ground (arith, lookup-place k key stage s, lookup-erase key k s.stages, h.apart k)

  place_together :
      (k : Text)
      → lookup k all
        ≡ or_else
            (lookup k (entries_of (place key stage s).stage_list))
            (lookup k (erase key s.stages))
  place_together k = ground (
    arith,
    lookup-place k key stage s,
    lookup-erase key k s.stages,
    h.together k,
    text_eq_iff key k,
    new_key,
    waits,
  )

  place_marked :
      (k : Text)
      → is_some (lookup k (insert key [] s.sorted))
        ≡ is_some (lookup k (entries_of (place key stage s).stage_list))
  place_marked k = ground (
    arith,
    lookup-place k key stage s,
    lookup-insert key k [] s.sorted,
    h.marked k,
    text_eq_iff key k,
    new_key,
  )

  pub place-IsSplit : IsSplit all (place key stage s)
  place-IsSplit = record {
    waiting_distinct = erase-IsMap key s.stages h.waiting_distinct;
    placed_distinct =
        rw (entries_of-place key stage s)
          (snoc-IsMap key stage (entries_of s.stage_list) h.placed_distinct new_key);
    apart = place_apart;
    together = place_together;
    marked = place_marked;
  }

  pub visit-IsSplit : IsSplit all (visit key stage s)
  unfolding visit
  visit-IsSplit = elim (Bool-cases (all_contains s.sorted stage.needs true)) [
    | inl e ↦ rw e place-IsSplit
    | inr e ↦ rw e h
  ]

-- The entries that a pass has still to visit are waiting, and each is visited once.
pub record ToVisit (entries : Map Stage) (s : Sorting) : Type 0 where
  pub once : IsMap entries
  pub waiting :
      (k : Text) (stage : Stage) → lookup k entries ≡ some stage → lookup k s.stages ≡ some stage

module _ (key : Text) (stage : Stage) (entries : Map Stage) (s : Sorting)
    (v : ToVisit ((key, stage) ∷ entries) s) where
  pub first_waits : lookup key s.stages ≡ some stage
  unfolding lookup
  first_waits = v.waiting key stage (ground (arith, text_eq_iff key key))

  other_key : (k : Text) {st : Stage} → lookup k entries ≡ some st → key ≢ k
  other_key k e same = ground (arith, v.once, ap (λ j. lookup j entries) same)

  rest_waits : (k : Text) (st : Stage) → lookup k entries ≡ some st → lookup k s.stages ≡ some st
  unfolding lookup
  rest_waits k st e = v.waiting k st (ground (arith, text_eq_iff key k, other_key k e))

  pub visit-ToVisit : ToVisit entries (visit key stage s)
  unfolding visit
  visit-ToVisit = record {
    once = v.once.1;
    waiting = λ k st e. elim (Bool-cases (all_contains s.sorted stage.needs true)) [
      | inl ready ↦ rw ready (lookup-erase_ne key k s.stages (other_key k e) ∙ rest_waits k st e)
      | inr blocked ↦ rw blocked (rest_waits k st e)
    ];
  }

pub pass-IsSplit :
    {all : Map Stage} (entries : Map Stage) (s : Sorting)
    → ToVisit entries s
    → IsSplit all s
    → IsSplit all (pass entries s)
unfolding pass
pass-IsSplit [] s v h = h
pass-IsSplit ((key, stage) ∷ entries) s v h =
    pass-IsSplit entries (visit key stage s) (visit-ToVisit key stage entries s v)
      (visit-IsSplit key stage s h (first_waits key stage entries s v))

-- What Go promises of `range` over a map: each entry is visited, and once.
abbrev pub IsRange : (ℕ → Map Stage → Map Stage) → Type 0
IsRange order =
    (r : ℕ) (m : Map Stage)
    → IsMap m
    → IsMap (order r m) × ((k : Text) → lookup k (order r m) ≡ lookup k m)

pub range-ToVisit :
    {all : Map Stage} (order : ℕ → Map Stage → Map Stage) (r : ℕ) (s : Sorting)
    → IsRange order
    → IsSplit all s
    → ToVisit (order r s.stages) s
range-ToVisit order r s range h =
    let (once, same) = range r s.stages h.waiting_distinct in
    record { once = once; waiting = λ k st e. sym (same k) ∙ e }

pub start-IsSplit : (job : Job) → IsMap job.stages → IsSplit job.stages (start job)
unfolding lookup
start-IsSplit job distinct = record {
  waiting_distinct = distinct;
  placed_distinct = tt;
  apart = λ k w. refl;
  together = λ k. refl;
  marked = λ k. refl;
}
