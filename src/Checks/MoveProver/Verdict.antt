-- ===== src/Checks/MoveProver/Verdict.antt =====
-- The result that the `Post` of action/action_move_prover.go saves.
use aline_engine.Base.{◌≡◌, Bool, ◌&&◌, some, List, [], ◌∷◌, arith, length, ◌==◌, subst}
use aline_engine.Base.Text.{Text, codes}
use aline_engine.Checks.Gather.Counts.{
  Counted, IsCounting, add_details-Counted, Reported, post-Reported,
}
use aline_engine.Checks.Machine.{Machine, Run}
use aline_engine.Checks.MoveProver.{
  MoveProver, still_success, move_name, read_errors, add_move_file, move_post,
}
use aline_engine.Checks.Types.{StyleGuideDetails, ContractCheckResult, formal_report}
use aline_engine.Storage.Os.{Fallible, ok, IsLawful}
use aline_engine.Utils.Texts.{path_of}

still_success_lem :
    (found : List StyleGuideDetails) (b : Bool) → still_success found b ≡ (b && (length found == 0))
still_success_lem [] b = ground arith
still_success_lem (d ∷ found) b = ground arith

add_move_file-IsCounting : IsCounting add_move_file
unfolding add_move_file
add_move_file-IsCounting name lines g g' h e =
    let found = read_errors lines [] in
    subst Counted (cc e) (
      add_details-Counted (move_name name) found (still_success found g.success) g h
        (still_success_lem found g.success))

-- Whatever the files hold, a `Post` that returns without error leaves a result whose total is
-- the number of the findings in it, and which says "Success" if and only if there are none. The
-- operating system keeps the laws of a file system.
pub move_post-Reported :
    (m : Machine) (marshal : ContractCheckResult (List StyleGuideDetails) → Fallible Text)
    (a : MoveProver) (r r' : Run m)
    → IsLawful m.os
    → move_post m marshal a r ≡ some (ok tt, r')
    → Reported marshal (path_of a.path) r'
unfolding move_post
move_post-Reported m marshal a r r' lawful e =
    post-Reported marshal add_move_file (path_of a.path) formal_report (codes "Move Prove") r r'
      add_move_file-IsCounting lawful e
