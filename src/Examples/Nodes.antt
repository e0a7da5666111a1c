-- ===== src/Examples/Nodes.antt =====
-- A dispatcher with the nodes "a@x" and "bb@y".
use aline_engine.Base.{
  ℕ, ◌+◌, ◌%◌, ◌≡◌, refl, ap, sym, ◌∙◌, inl, inr, arith, true, false, some, [], ◌∷◌, length,
  get_elem?,
}
use aline_engine.Base.Map.{lookup, insert, erase, keys, is_some, contains}
use aline_engine.Base.Text.{Text, codes, text_eq}
use aline_engine.Model.Message.{Node}
use aline_engine.Examples.Sorting.{lookup_two}
use aline_engine.Utils.Keys.{get_node_key}
use aline_engine.Dispatcher.{
  NodeInfo, Dispatcher, ok, new_grpc_dispatcher, node_key, dispatch_node, register,
  unregister_with_key,
}
use aline_engine.Dispatcher.Invariant.{IsValid}
use aline_engine.Dispatcher.Run.{registers, unregisters_key, dispatches, run, run-IsValid}
use aline_engine.Dispatcher.Robin.{IsSynced, dispatched, dispatch_node_round_robin}
use aline_engine.Dispatcher.Removal.{IsKeyed, unregister_other, unregister-dispatch_node}

abbrev pub node_a : Node
node_a = record { name = codes "a"; address = codes "x" }

abbrev pub node_b : Node
node_b = record { name = codes "bb"; address = codes "y" }

abbrev pub info_a : NodeInfo
info_a = record { node = node_a; last_ping_time = 7 }

abbrev pub info_b : NodeInfo
info_b = record { node = node_b; last_ping_time = 9 }

-- The state after the two nodes have registered.
abbrev pub two_nodes : Dispatcher
two_nodes = record {
  nodes = (codes "a@x", info_a) ∷ (codes "bb@y", info_b) ∷ [];
  poller = record { index = 0; key_list = codes "a@x" ∷ codes "bb@y" ∷ [] };
  job_node_map = [];
}

two_nodes_reached : (register 9 node_b (register 7 node_a new_grpc_dispatcher).1).1 ≡ two_nodes
unfolding register new_grpc_dispatcher get_node_key lookup insert text_eq
two_nodes_reached = refl

pub two_nodes-IsValid : IsValid two_nodes
unfolding lookup text_eq
two_nodes-IsValid = record { distinct = (refl, (refl, tt)); counted = refl; index_in = inr refl }

two_nodes-IsSynced : IsSynced two_nodes
two_nodes-IsSynced = refl

pub two_nodes-IsKeyed : IsKeyed two_nodes
unfolding lookup text_eq get_node_key
two_nodes-IsKeyed key info found =
    elim (lookup_two (codes "a@x") (codes "bb@y") key info_a info_b info found) [
      | inl (k, i) ↦ ap (λ x. node_key x.node) (sym i) ∙ k
      | inr (k, i) ↦ ap (λ x. node_key x.node) (sym i) ∙ k
    ]

run-IsValid_example :
    let d =
      (run
        (registers 7 node_a ∷ registers 9 node_b ∷ dispatches ∷ unregisters_key (codes "bb@y") ∷ [])
        new_grpc_dispatcher) in
    (d.0 ≡ false) × IsValid d.1
run-IsValid_example =
    run-IsValid
      (registers 7 node_a ∷ registers 9 node_b ∷ dispatches ∷ unregisters_key (codes "bb@y") ∷ [])

dispatch_node_round_robin_example :
    ((n : ℕ)
      → (key : Text) × (info : NodeInfo) × (get_elem? (keys two_nodes.nodes) ((0 + n) % 2)
          ≡ some key)
        × (lookup key two_nodes.nodes ≡ some info)
        × ((dispatch_node (dispatched n two_nodes)).0 ≡ ok info.node))
    × (dispatched 2 two_nodes ≡ two_nodes)
dispatch_node_round_robin_example =
    dispatch_node_round_robin two_nodes two_nodes-IsValid two_nodes-IsSynced (omega arith)

chosen_a : (dispatch_node two_nodes).0 ≡ ok node_a
unfolding dispatch_node lookup text_eq
chosen_a = refl

unregister-dispatch_node_example :
    let after = unregister_with_key (codes "a@x") (dispatch_node two_nodes).1 in
    (after.0 ≡ ok tt) × (after.1.nodes ≡ erase (codes "a@x") two_nodes.nodes) × IsSynced after.1
unfolding get_node_key
unregister-dispatch_node_example =
    unregister-dispatch_node two_nodes node_a two_nodes-IsValid two_nodes-IsSynced two_nodes-IsKeyed
      chosen_a

found_a : lookup (codes "a@x") two_nodes.nodes ≡ some info_a
unfolding lookup text_eq
found_a = refl

-- The index is 0, so the key before it is "bb@y"; "a@x" is unregistered.
unregister_other_example :
    let d' = (unregister_with_key (codes "a@x") two_nodes).1 in
    (is_some (lookup (codes "bb@y") d'.nodes) ≡ true)
    × (contains (codes "bb@y") d'.poller.key_list ≡ false)
    × (is_some (lookup (codes "a@x") d'.nodes) ≡ false)
    × (contains (codes "a@x") d'.poller.key_list ≡ true)
unregister_other_example =
    unregister_other two_nodes two_nodes-IsValid two_nodes-IsSynced refl found_a
      (λ e. omega (arith, ap length e))
