-- ===== src/Executor/Action.antt =====
-- executor/executor.go: which action a step runs, by the text of its field `uses`. What an action
-- does is not modelled here: its three hooks are arguments of the executor.
use aline_engine.Base.{Option, none, some, List, [], ◌∷◌, ◌||◌, ltb, if◌then◌else◌, ◌≡◌, refl}
use aline_engine.Base.Text.{Text, codes, text_eq}
use aline_engine.Utils.Strings.{count}

pub data ActionKind : Type 0 where
  shell git ipfs pinata_ipfs artifactory image_build image_push k8s_deploy k8s_ingress : ActionKind
  meta_scan_check sol_profiler sol_hint myth_ril slither check_aggregation ink eslint : ActionKind
  eth_gas_reporter move_prover workdir openai icp_build icp_deploy remote : ActionKind

-- The chain of `else if`, as a table in its order.
abbrev action_names : List (Text × ActionKind)
action_names =
    (codes "git-checkout", git)
    ∷ (codes "hamster-ipfs", ipfs)
    ∷ (codes "hamster-pinata-ipfs", pinata_ipfs)
    ∷ (codes "hamster-artifactory", artifactory)
    ∷ (codes "image-build", image_build)
    ∷ (codes "image-push", image_push)
    ∷ (codes "k8s-frontend-deploy", k8s_deploy)
    ∷ (codes "k8s-assign-domain", k8s_ingress)
    ∷ (codes "metascan_action", meta_scan_check)
    ∷ (codes "sol-profiler-check", sol_profiler)
    ∷ (codes "solhint-check", sol_hint)
    ∷ (codes "mythril-check", myth_ril)
    ∷ (codes "slither-check", slither)
    ∷ (codes "check-aggregation", check_aggregation)
    ∷ (codes "deploy-ink-contract", ink)
    ∷ (codes "frontend-check", eslint)
    ∷ (codes "eth-gas-reporter", eth_gas_reporter)
    ∷ (codes "aptos-check", move_prover)
    ∷ (codes "workdir", workdir)
    ∷ (codes "openai", openai)
    ∷ (codes "icp-build", icp_build)
    ∷ (codes "icp-deploy", icp_deploy)
    ∷ []

find_action : Text → List (Text × ActionKind) → Option ActionKind
unfolding text_eq
find_action uses [] = none
find_action uses ((name, kind) ∷ names) =
    if text_eq uses name then some kind else find_action uses names

abbrev or_remote : Text → Option ActionKind → Option ActionKind
or_remote uses (some kind) = some kind
or_remote uses none = if ltb 0 (count b'/' uses) then some remote else none

-- `none`: no branch of the chain is taken, and `ah` keeps its value.
unfoldable pub choose_action : Text → Option ActionKind
unfolding find_action text_eq
choose_action uses =
    if text_eq uses [] || text_eq uses (codes "shell")
    then some shell
    else or_remote uses (find_action uses action_names)

remote_action : choose_action (codes "owner/repository") ≡ some remote
unfolding choose_action
remote_action = refl
