-- ===== src/Checks/SolHint/Verdict.antt =====
-- The result that the `Post` of action/action_solhint.go saves.
use aline_engine.Base.{
  ◌≡◌, Bool, false, ◌&&◌, Bool-cases, some, Option-cases, inl, inr, List, [], ◌∷◌, ◌++◌, arith,
  length, length-append, ◌==◌, subst,
}
use aline_engine.Base.Text.{Text, codes}
use aline_engine.Checks.Gather.Counts.{
  Counted, IsCounting, add_details-Counted, Reported, post-Reported,
}
use aline_engine.Checks.Machine.{Machine, Run}
use aline_engine.Checks.SolHint.{
  SolHint, finding_of, read_findings, add_solhint_file, solhint_post, find_name, sol_name,
}
use aline_engine.Checks.Types.{StyleGuideDetails, ContractCheckResult, style_guide_report}
use aline_engine.Storage.Os.{Fallible, ok, IsLawful}
use aline_engine.Utils.Texts.{has_text, split_on, path_of}

-- The flag is that of the earlier files as long as nothing is found.
abbrev Flagged : Bool → List StyleGuideDetails × Bool → Type 0
Flagged b (found, success) = success ≡ (b && (length found == 0))

read_findings-Flagged :
    (b : Bool) (lines : List Text) (found : List StyleGuideDetails) (success : Bool)
    (x : List StyleGuideDetails × Bool)
    → Flagged b (found, success)
    → read_findings lines found success ≡ some x
    → Flagged b x
unfolding read_findings
read_findings-Flagged b [] found success x h e = subst (Flagged b) (cc e) h
read_findings-Flagged b (s ∷ lines) found success x h e =
    elim (Bool-cases (has_text s (codes "  "))) [
      | inr e1 ↦ read_findings-Flagged b lines found success x h (rw (read_findings, e1) at e)
      | inl e1 ↦ elim (Option-cases (finding_of (split_on (codes "  ") s))) [
        | inl e2 ↦ absurd cc (rw (read_findings, e1, e2) at e)
        | inr (d, e2) ↦
            read_findings-Flagged b lines (found ++ (d ∷ [])) false x
              (ground (arith, length-append found (d ∷ []))) (rw (read_findings, e1, e2) at e)
      ]
    ]

add_solhint_file-IsCounting : (a : SolHint) → IsCounting (add_solhint_file a)
unfolding add_solhint_file
add_solhint_file-IsCounting a name lines g g' h e =
    elim (Option-cases (read_findings lines [] g.success)) [
      | inl e1 ↦ absurd cc (rw (add_solhint_file, e1) at e)
      | inr ((found, success), e1) ↦ subst Counted (cc (rw (add_solhint_file, e1) at e)) (
          add_details-Counted (find_name a.file_path a.base_path (sol_name name)) found success g h
            (read_findings-Flagged g.success lines [] g.success (found, success) (ground arith) e1))
    ]

-- Whatever the files hold, a `Post` that returns without error leaves a result whose total is
-- the number of the findings in it, and which says "Success" if and only if there are none. The
-- operating system keeps the laws of a file system.
pub solhint_post-Reported :
    (m : Machine) (marshal : ContractCheckResult (List StyleGuideDetails) → Fallible Text)
    (a : SolHint) (r r' : Run m)
    → IsLawful m.os
    → solhint_post m marshal a r ≡ some (ok tt, r')
    → Reported marshal (path_of a.path) r'
unfolding solhint_post
solhint_post-Reported m marshal a r r' lawful e =
    post-Reported marshal (add_solhint_file a) (path_of a.path) style_guide_report (codes "Solhint")
      r r' (add_solhint_file-IsCounting a) lawful e
