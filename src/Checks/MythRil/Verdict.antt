-- ===== src/Checks/MythRil/Verdict.antt =====
-- The result that the `Post` of action/action_mythril.go saves.
use aline_engine.Base.{
  suc, ◌≡◌, refl, ap, Bool, false, ◌&&◌, Bool-cases, some, Option-cases, inl, inr, List, [], ◌∷◌,
  ◌++◌, arith, length, length-append, ◌==◌, subst,
}
use aline_engine.Base.Text.{Text, codes}
use aline_engine.Checks.Gather.Counts.{
  Counted, IsCounting, add_details-Counted, Reported, post-Reported,
}
use aline_engine.Checks.Machine.{Machine, Run}
use aline_engine.Checks.MythRil.{
  MythRil, note_of, position_of, place_last, add_mythril_line, is_last_line, read_mythril,
  add_mythril_file, mythril_post, mythril_finding,
}
use aline_engine.Checks.SolHint.{sol_name}
use aline_engine.Checks.Types.{StyleGuideDetails, ContractCheckResult, security_analysis_report}
use aline_engine.Storage.Os.{Fallible, ok, IsLawful}
use aline_engine.Utils.Texts.{path_of}

abbrev Flagged : Bool → List StyleGuideDetails × Bool → Type 0
Flagged b (found, success) = success ≡ (b && (length found == 0))

length-place_last :
    (line column : Text) (found : List StyleGuideDetails)
    → length (place_last line column found) ≡ length found
unfolding place_last
length-place_last line column [] = refl
length-place_last line column (d ∷ []) = refl
length-place_last line column (d ∷ e ∷ l) = ap suc (length-place_last line column (e ∷ l))

added-Flagged :
    (b : Bool) (found : List StyleGuideDetails) (d : StyleGuideDetails)
    → Flagged b (found ++ (d ∷ []), false)
added-Flagged b found d = ground (arith, length-append found (d ∷ []))

add_mythril_line-Flagged :
    (b : Bool) (note : Text) (position : Text × Text) (g : List StyleGuideDetails × Bool)
    → Flagged b g
    → Flagged b (add_mythril_line note position g)
unfolding add_mythril_line
add_mythril_line-Flagged b [] ([], column) (found, success) h = h
add_mythril_line-Flagged b [] (c ∷ line, column) ([], success) h =
    added-Flagged b [] (mythril_finding [] (c ∷ line) column)
add_mythril_line-Flagged b [] (c ∷ line, column) (d ∷ found, success) h =
    ground (arith, length-place_last (c ∷ line) column (d ∷ found))
add_mythril_line-Flagged b (c ∷ note) (line, column) (found, success) h =
    added-Flagged b found (mythril_finding (c ∷ note) line column)

read_mythril-Flagged :
    (b : Bool) (lines : List Text) (g x : List StyleGuideDetails × Bool)
    → Flagged b g
    → read_mythril lines g ≡ some x
    → Flagged b x
unfolding read_mythril
read_mythril-Flagged b [] g x h e = subst (Flagged b) (cc e) h
read_mythril-Flagged b (s ∷ lines) g x h e = elim (Bool-cases (is_last_line s)) [
  | inl e1 ↦ subst (Flagged b) (cc (rw (read_mythril, e1) at e)) h
  | inr e1 ↦ elim (Option-cases (note_of s)) [
    | inl e2 ↦ absurd cc (rw (read_mythril, e1, e2) at e)
    | inr (note, e2) ↦ elim (Option-cases (position_of s)) [
      | inl e3 ↦ read_mythril-Flagged b lines g x h (rw (read_mythril, e1, e2, e3) at e)
      | inr (position, e3) ↦
          read_mythril-Flagged b lines (add_mythril_line note position g) x
            (add_mythril_line-Flagged b note position g h) (rw (read_mythril, e1, e2, e3) at e)
    ]
  ]
]

add_mythril_file-IsCounting : IsCounting add_mythril_file
unfolding add_mythril_file
add_mythril_file-IsCounting name lines g g' h e =
    elim (Option-cases (read_mythril lines ([], g.success))) [
      | inl e1 ↦ absurd cc (rw (add_mythril_file, e1) at e)
      | inr ((found, success), e1) ↦ subst Counted (cc (rw (add_mythril_file, e1) at e)) (
          add_details-Counted (sol_name name) found success g h (
            read_mythril-Flagged g.success lines ([], g.success) (found, success) (ground arith)
              e1))
    ]

-- Whatever the files hold, a `Post` that returns without error leaves a result whose total is
-- the number of the findings in it, and which says "Success" if and only if there are none. The
-- operating system keeps the laws of a file system.
pub mythril_post-Reported :
    (m : Machine) (marshal : ContractCheckResult (List StyleGuideDetails) → Fallible Text)
    (a : MythRil) (r r' : Run m)
    → IsLawful m.os
    → mythril_post m marshal a r ≡ some (ok tt, r')
    → Reported marshal (path_of a.path) r'
unfolding mythril_post
mythril_post-Reported m marshal a r r' lawful e =
    post-Reported marshal add_mythril_file (path_of a.path) security_analysis_report
      (codes "Mythril") r r' add_mythril_file-IsCounting lawful e
