-- ===== src/Checks/SolProfiler/Silent.antt =====
-- The result that the `Post` of action/action_sol_profiler.go saves.
use aline_engine.Base.{
  ◌≡◌, refl, subst, sym, ap, ◌∙◌, true, Bool-cases, Option, none, some, Option-cases, inl, inr,
  List, [], ◌∷◌, All, All-append,
}
use aline_engine.Base.Text.{Text, codes}
use aline_engine.Checks.Gather.{
  Gathered, nothing, gathered_result, gather_files, result_path, opened_names,
}
use aline_engine.Checks.Gather.Counts.{next_ok, save_result_ok, gather_files_keeps}
use aline_engine.Checks.Machine.{Machine, Run}
use aline_engine.Checks.SolProfiler.{
  SolProfiler, is_frame, bar, with_contract, with_columns, add_row, add_named_row, read_rows,
  add_profiler_file, sol_profiler_post,
}
use aline_engine.Checks.SolHint.{sol_name}
use aline_engine.Checks.Types.{
  MethodsPropertiesDetails, ContractCheckResult, ContractCheckResultDetails,
  methods_properties_report, check_success,
}
use aline_engine.Storage.Os.{Fallible, ok, IsLawful}
use aline_engine.Utils.Texts.{path_of, split_on, trim_space, index_of}

abbrev pub NoViewPure : MethodsPropertiesDetails → Type 0
NoViewPure d = d.view_pure ≡ []

-- No row of any file has a state mutability.
abbrev pub AllSilent : List (ContractCheckResultDetails (List MethodsPropertiesDetails)) → Type 0
AllSilent ds = All (λ d. All NoViewPure d.message) ds

abbrev Silent : Gathered MethodsPropertiesDetails → Type 0
Silent g = (g.total ≡ 0) × AllSilent g.details

abbrev SilentOption : Option (Gathered MethodsPropertiesDetails) → Type 0
SilentOption none = Unit {0}
SilentOption (some g) = Silent g

with_contract-NoViewPure : (t : Text) → NoViewPure (with_contract t)
unfolding with_contract
with_contract-NoViewPure t = elim (Option-cases (index_of (codes "(library)") t)) [
  | inl e ↦ rw (with_contract, e) refl
  | inr (i, e) ↦ rw (with_contract, e) refl
]

abbrev view_of : Option MethodsPropertiesDetails → Text
view_of none = []
view_of (some d) = d.view_pure

with_columns-NoViewPure :
    (cells : List Text) (d d' : MethodsPropertiesDetails)
    → NoViewPure d
    → with_columns cells d ≡ some d'
    → NoViewPure d'
unfolding with_columns
with_columns-NoViewPure (c2 ∷ c3 ∷ c4 ∷ c5 ∷ c6 ∷ more) d d' h e = sym (ap view_of e) ∙ h
with_columns-NoViewPure _ d d' h e = absurd cc

add_named_row-NoViewPure :
    (t : Text) (rest : List Text) (found found' : List MethodsPropertiesDetails)
    → All NoViewPure found
    → add_named_row t rest found ≡ some found'
    → All NoViewPure found'
unfolding add_named_row
add_named_row-NoViewPure [] rest found found' h e = subst (All NoViewPure) (cc e) h
add_named_row-NoViewPure (c ∷ t) rest found found' h e =
    elim (Option-cases (with_columns rest (with_contract (c ∷ t)))) [
      | inl e1 ↦ absurd cc (rw (add_named_row, e1) at e)
      | inr (d, e1) ↦ subst (All NoViewPure) (cc (rw (add_named_row, e1) at e)) (
          All-append NoViewPure found (d ∷ []) h (
            with_columns-NoViewPure rest (with_contract (c ∷ t)) d
                (with_contract-NoViewPure (c ∷ t)) e1,
            tt,
          ))
    ]

add_row-NoViewPure :
    (cells : List Text) (found found' : List MethodsPropertiesDetails)
    → All NoViewPure found
    → add_row cells found ≡ some found'
    → All NoViewPure found'
unfolding add_row
add_row-NoViewPure (s0 ∷ s1 ∷ rest) found found' h e =
    add_named_row-NoViewPure (trim_space s1) rest found found' h e
add_row-NoViewPure _ found found' h e = absurd cc

module _ (strip : Text → Text) where
  read_rows-NoViewPure :
      (lines : List Text) (found found' : List MethodsPropertiesDetails)
      → All NoViewPure found
      → read_rows strip lines found ≡ some found'
      → All NoViewPure found'
  unfolding read_rows
  read_rows-NoViewPure [] found found' h e = subst (All NoViewPure) (cc e) h
  read_rows-NoViewPure (line ∷ lines) found found' h e = elim (Bool-cases (is_frame (strip line))) [
    | inl e1 ↦ read_rows-NoViewPure lines found found' h (rw (read_rows, e1) at e)
    | inr e1 ↦ elim (Option-cases (add_row (split_on bar (strip line)) found)) [
      | inl e2 ↦ absurd cc (rw (read_rows, e1, e2) at e)
      | inr (found1, e2) ↦
          read_rows-NoViewPure lines found1 found'
            (add_row-NoViewPure (split_on bar (strip line)) found found1 h e2)
            (rw (read_rows, e1, e2) at e)
    ]
  ]

  add_profiler_file-Silent :
      (name : Text) (lines : List Text) (g g' : Gathered MethodsPropertiesDetails)
      → Silent g
      → add_profiler_file strip name lines g ≡ some g'
      → Silent g'
  unfolding add_profiler_file
  add_profiler_file-Silent name lines g g' h e = elim (Option-cases (read_rows strip lines [])) [
    | inl e1 ↦ absurd cc (rw (add_profiler_file, e1) at e)
    | inr (found, e1) ↦ subst SilentOption (rw (add_profiler_file, e1) at e) (
      h.0,
      All-append (λ d. All NoViewPure d.message) g.details
          (record { name = sol_name name; issue = 0; gas_limit = []; message = found } ∷ []) h.1
          (read_rows-NoViewPure lines [] found tt e1, tt),
    )
  ]

  -- A `Post` that returns without error leaves a result that says "Success" with a total of 0,
  -- whatever the files hold, and in which no method has a state mutability. The operating
  -- system keeps the laws of a file system.
  pub sol_profiler_post-Silent :
      (m : Machine) (marshal : ContractCheckResult (List MethodsPropertiesDetails) → Fallible Text)
      (a : SolProfiler) (r r' : Run m)
      → IsLawful m.os
      → sol_profiler_post strip m marshal a r ≡ some (ok tt, r')
      → (c : ContractCheckResult (List MethodsPropertiesDetails)) × (text : Text) × (marshal c
          ≡ ok text)
        × (m.os.read_file (result_path (path_of a.path)) r'.files ≡ ok text)
        × (c.result ≡ check_success)
        × (c.total ≡ 0)
        × AllSilent c.details
  unfolding sol_profiler_post gathered_result
  sol_profiler_post-Silent m marshal a r r' lawful e =
      let dir = path_of a.path in
      let (names, r1, e1, f1) = next_ok (opened_names dir r) _ tt r' e in
      let (g, r2, e2, f2) =
        next_ok (gather_files (add_profiler_file strip) dir names nothing r1) _ tt r' f1 in
      let c =
        gathered_result methods_properties_report (codes "sol-profiler")
          (record g { success = true }) in
      let (text, printed, saved) = save_result_ok marshal dir c r2 r' lawful f2 in
      let silent =
        gather_files_keeps Silent (add_profiler_file strip) dir names nothing g r1 r2
          add_profiler_file-Silent (refl, tt) e2 in
      (c, text, printed, saved, refl, silent.0, silent.1)
