-- ===== src/Checks/Gather/Counts.antt =====
-- What every result that a `Post` saves says of the findings it lists.
use aline_engine.Base.{
  ℕ, ◌+◌, ◌≡◌, refl, subst, ◌↔◌, ◌⊎◌, Bool, ◌&&◌, Option, none, some, List, [], ◌∷◌, ◌++◌, arith,
  length, ◌==◌, Option-cases, inl, inr,
}
use aline_engine.Base.Text.{Text}
use aline_engine.Checks.Gather.{
  Gathered, nothing, add_details, gathered_result, opened_names, gather_files, save_result,
  result_path, verdict_success,
}
use aline_engine.Checks.Lines.{lines_of}
use aline_engine.Checks.Machine.{
  Machine, Run, Action, ◌>>=◌, next, write_output, done_with, from_result,
}
use aline_engine.Checks.Types.{ContractCheckResult, ContractCheckResultDetails, check_success}
use aline_engine.Storage.Os.{Fallible, ok, failed, IsLawful}
use aline_engine.Utils.Paths.{FilePath, join}

module _ {A : Type 0} where
  pub Fallible-cases : (x : Fallible A) → ((a : A) × (x ≡ ok a)) ⊎ ((e : Text) × (x ≡ failed e))
  Fallible-cases (ok a) = inl (a, refl)
  Fallible-cases (failed e) = inr (e, refl)

module _ {D : Type 0} where
  -- The findings of all files.
  abbrev pub all_findings : List (ContractCheckResultDetails (List D)) → ℕ
  all_findings [] = 0
  all_findings (d ∷ ds) = length d.message + all_findings ds

  abbrev pub Counted : Gathered D → Type 0
  Counted g = (g.total ≡ all_findings g.details) × (g.success ≡ (g.total == 0))

  abbrev pub IsCounting : (Text → List Text → Gathered D → Option (Gathered D)) → Type 0
  IsCounting add =
      (name : Text) (lines : List Text) (g g' : Gathered D)
      → Counted g
      → add name lines g ≡ some g'
      → Counted g'

  all_findings-append :
      (ds es : List (ContractCheckResultDetails (List D)))
      → all_findings (ds ++ es) ≡ all_findings ds + all_findings es
  all_findings-append [] es = omega arith
  all_findings-append (d ∷ ds) es = omega (arith, all_findings-append ds es)

  -- A file whose flag falls with its first finding keeps the counts.
  pub add_details-Counted :
      (name : Text) (findings : List D) (success : Bool) (g : Gathered D)
      → Counted g
      → success ≡ (g.success && (length findings == 0))
      → Counted (add_details name findings success g)
  unfolding add_details
  add_details-Counted name findings success g h e = ground (
    arith,
    all_findings-append g.details
        (record { name = name; issue = length findings; gas_limit = []; message = findings } ∷ []),
  )

module _ {m : Machine} where
  -- A chain that returns a value has a first part that returns one.
  pub next_ok :
      {A B : Type 0} (x : Option (Fallible A × Run m)) (f : A → Action m B) (b : B) (r' : Run m)
      → next x f ≡ some (ok b, r')
      → (a : A) × (r : Run m) × (x ≡ some (ok a, r)) × (f a r ≡ some (ok b, r'))
  next_ok none f b r' h = absurd cc
  next_ok (some (failed e, r)) f b r' h = absurd cc
  next_ok (some (ok a, r)) f b r' h = (a, r, refl, h)

module _ {m : Machine} {D : Type 0} (P : Gathered D → Type 0)
    (add : Text → List Text → Gathered D → Option (Gathered D)) where
  -- What every round keeps holds behind the loop.
  pub gather_files_keeps :
      (dir : FilePath) (names : List Text) (g g' : Gathered D) (r r' : Run m)
      → ((name : Text) (lines : List Text) (h h' : Gathered D)
          → P h
          → add name lines h ≡ some h'
          → P h')
      → P g
      → gather_files add dir names g r ≡ some (ok g', r')
      → P g'
  unfolding gather_files
  gather_files_keeps dir [] g g' r r' k h e = subst P (cc e) h
  gather_files_keeps dir (name ∷ names) g g' r r' k h e =
      elim (Fallible-cases (m.os.read_file (join dir (name ∷ [])) r.files)) [
        | inr (why, e1) ↦ absurd cc (rw (gather_files, e1) at e)
        | inl (text, e1) ↦ elim (Option-cases (add name (lines_of text) g)) [
          | inl e2 ↦ absurd cc (rw (gather_files, e1, e2) at e)
          | inr (g2, e2) ↦
              gather_files_keeps dir names g2 g' r r' k (k name (lines_of text) g g2 h e2)
                (rw (gather_files, e1, e2) at e)
        ]
      ]

module _ {m : Machine} where
  pub done_with_ok :
      (x : Option Text × m.os.Files) (written : List Text) (r' : Run m)
      → done_with {m = m} x written ≡ some (ok tt, r')
      → (x.0 ≡ none) × (x.1 ≡ r'.files)
  done_with_ok (none, s) written r' h = (refl, cc h)
  done_with_ok (some e, s) written r' h = absurd cc

  pub from_result_ok :
      {A : Type 0} (x : Fallible A) (a : A) (r r' : Run m)
      → from_result {m = m} x r ≡ some (ok a, r')
      → (x ≡ ok a) × (r ≡ r')
  from_result_ok (ok b) a r r' h = (cc h, cc h)
  from_result_ok (failed e) a r r' h = absurd cc

  pub write_output_ok :
      (lawful : IsLawful m.os) (dest : FilePath) (text : Text) (r r' : Run m)
      → write_output {m = m} dest text r ≡ some (ok tt, r')
      → m.os.read_file dest r'.files ≡ ok text
  unfolding write_output
  write_output_ok lawful dest text r r' h =
      let (none_is, files_are) = done_with_ok (m.os.write_file dest text r.files) r.written r' h in
      subst (λ s. m.os.read_file dest s ≡ ok text) files_are
        (lawful.read_file-write_file_self dest text r.files none_is)

module _ {m : Machine} {T : Type 0} where
  -- What a result that was saved leaves.
  pub save_result_ok :
      (marshal : ContractCheckResult T → Fallible Text) (dir : FilePath) (c : ContractCheckResult T)
      (r r' : Run m)
      → IsLawful m.os
      → save_result marshal dir c r ≡ some (ok tt, r')
      → (text : Text) × (marshal c ≡ ok text)
        × (m.os.read_file (result_path dir) r'.files ≡ ok text)
  unfolding save_result
  save_result_ok marshal dir c r r' lawful e =
      let (a, r1, e1, f1) = next_ok (write_output (result_path dir) [] r) _ tt r' e in
      let (text, r2, e2, f2) = next_ok (from_result {m = m} (marshal c) r1) _ tt r' f1 in
      (
        text,
        (from_result_ok (marshal c) text r1 r2 e2).0,
        write_output_ok lawful (result_path dir) text r2 r' f2,
      )

module _ {m : Machine} {D : Type 0} (marshal : ContractCheckResult (List D) → Fallible Text) where
  -- The file of the result holds one whose total is the number of the findings that it lists, and that
  -- says "Success" if and only if there are none.
  pub record Reported (dir : FilePath) (r : Run m) : Type 0 where
    pub result : ContractCheckResult (List D)
    pub text : Text
    pub printed : marshal result ≡ ok text
    pub saved : m.os.read_file (result_path dir) r.files ≡ ok text
    pub total_is : result.total ≡ all_findings result.details
    pub verdict_is : (result.result ≡ check_success) ↔ (result.total ≡ 0)

  save_result-Reported :
      (dir : FilePath) (name tool : Text) (g : Gathered D) (r r' : Run m)
      → IsLawful m.os
      → Counted g
      → save_result marshal dir (gathered_result name tool g) r ≡ some (ok tt, r')
      → Reported dir r'
  unfolding gathered_result
  save_result-Reported dir name tool g r r' lawful h e =
      let (text, printed, saved) =
        save_result_ok marshal dir (gathered_result name tool g) r r' lawful e in
      record {
        result = gathered_result name tool g;
        text = text;
        printed = printed;
        saved = saved;
        total_is = h.0;
        verdict_is = ground (arith, verdict_success g.success);
      }

  -- What holds of every `Post` that gathers with a step that counts.
  pub post-Reported :
      (add : Text → List Text → Gathered D → Option (Gathered D)) (dir : FilePath)
      (name tool : Text) (r r' : Run m)
      → IsCounting add
      → IsLawful m.os
      → (opened_names dir >>= λ (names : List Text).
            gather_files add dir names nothing >>= λ (g : Gathered D).
            save_result marshal dir (gathered_result name tool g))
          r
        ≡ some (ok tt, r')
      → Reported dir r'
  post-Reported add dir name tool r r' k lawful e =
      let (names, r1, e1, f1) = next_ok (opened_names dir r) _ tt r' e in
      let (g, r2, e2, f2) = next_ok (gather_files add dir names nothing r1) _ tt r' f1 in
      save_result-Reported dir name tool g r2 r' lawful
        (gather_files_keeps Counted add dir names nothing g r1 r2 k (refl, refl) e2) f2
