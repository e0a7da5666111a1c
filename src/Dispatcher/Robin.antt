-- ===== src/Dispatcher/Robin.antt =====
-- The polling: which node `DispatchNode` chooses.
use aline_engine.Base.{
  ℕ, zero, suc, ◌+◌, ◌%◌, ◌<◌, ◌≡◌, some, [], ◌∷◌, ◌++◌, arith, length, get_elem?, get_elem?_in,
  subst, sym, ap, ◌∙◌, Option-cases, inl, inr,
}
use native.Mathlib.Nat.{mod-add-mod, mod-eq_of_lt, add-mod_right, add-zero}
use aline_engine.Base.Map.{lookup, keys, keys-insert_new, keys-insert_old, lookup_of_keys}
use aline_engine.Base.Text.{Text}
use aline_engine.Model.Message.{Node}
use aline_engine.Dispatcher.{NodeInfo, Dispatcher, ok, node_key, dispatch_node, register, ping}
use aline_engine.Dispatcher.Invariant.{IsValid}

-- The poller's keys are those of the registered nodes, in the order of their registration.
abbrev pub IsSynced : Dispatcher → Type 0
IsSynced d = d.poller.key_list ≡ keys d.nodes

pub register-IsSynced :
    (now : ℕ) (node : Node) (d : Dispatcher) → IsSynced d → IsSynced (register now node d).1
unfolding register
register-IsSynced now node d s = elim (Option-cases (lookup (node_key node) d.nodes)) [
  | inl e ↦
      let info : NodeInfo = record { node = node; last_ping_time = now } in
      rw (e, register)
        (ap (λ l. l ++ node_key node ∷ []) s ∙ sym (keys-insert_new (node_key node) info d.nodes e))
  | inr (info, e) ↦ rw (e, register) s
]

pub ping-IsSynced :
    (now : ℕ) (node : Node) (d : Dispatcher) → IsSynced d → IsSynced (ping now node d).1
unfolding ping
ping-IsSynced now node d s = elim (Option-cases (lookup (node_key node) d.nodes)) [
  | inl e ↦ rw (e, ping) s
  | inr (old, e) ↦
      let info : NodeInfo = record { node = node; last_ping_time = now } in
      rw (e, ping) (s ∙ sym (keys-insert_old (node_key node) info old d.nodes e))
]

-- The dispatcher after `n` calls of `DispatchNode`.
abbrev pub dispatched : ℕ → Dispatcher → Dispatcher
dispatched zero d = d
dispatched (suc n) d = (dispatch_node (dispatched n d)).1

abbrev pub at_index : Dispatcher → ℕ → Dispatcher
at_index d i = let p = d.poller in record d { poller = record p { index = i } }

pub dispatch_node-at_index :
    (d : Dispatcher) (i : ℕ)
    → i < length d.poller.key_list
    → (dispatch_node (at_index d i)).1 ≡ at_index d ((i + 1) % length d.poller.key_list)
unfolding dispatch_node
dispatch_node-at_index d i h = ground (arith, get_elem?_in d.poller.key_list i)

pub dispatch_node_found :
    (d : Dispatcher) (i : ℕ) (key : Text) (info : NodeInfo)
    → get_elem? d.poller.key_list i ≡ some key
    → lookup key d.nodes ≡ some info
    → (dispatch_node (at_index d i)).0 ≡ ok info.node
unfolding dispatch_node
dispatch_node_found d i key info at found = ground arith

module _ (d : Dispatcher) (v : IsValid d) (s : IsSynced d) (some_node : 0 < length d.nodes) where
  some_key : 0 < length d.poller.key_list
  some_key = omega (arith, v.counted)

  start_in : d.poller.index < length d.poller.key_list
  start_in = omega (arith, v.counted, v.index_in)

  abbrev nth_index : ℕ → ℕ
  nth_index n = (d.poller.index + n) % length d.poller.key_list

  turn : (n : ℕ) → (nth_index n + 1) % length d.poller.key_list ≡ nth_index (suc n)
  turn n =
      mod-add-mod (d.poller.index + n) (length d.poller.key_list) 1
      ∙ ap (λ t. t % length d.poller.key_list) (omega arith)

  nth_index_in : (n : ℕ) → nth_index n < length d.poller.key_list
  nth_index_in n = let h = some_key in omega (arith, h)

  start_index : nth_index 0 ≡ d.poller.index
  start_index = rw add-zero (mod-eq_of_lt start_in)

  dispatched_lem : (n : ℕ) → dispatched n d ≡ at_index d (nth_index n)
  dispatched_lem zero = ap (at_index d) (sym start_index)
  dispatched_lem (suc n) =
      ap (λ d'. (dispatch_node d').1) (dispatched_lem n)
      ∙ dispatch_node-at_index d (nth_index n) (nth_index_in n)
      ∙ ap (at_index d) (turn n)

  -- The polling is a round robin. With `m` nodes registered, call `n` of `DispatchNode` succeeds and
  -- chooses the node whose key stands at place `(index + n) % m` of the key list, and after `m`
  -- calls the dispatcher is as before. This holds of a valid dispatcher with at least one node,
  -- whose key list holds the keys of the registered nodes.
  pub dispatch_node_round_robin :
      ((n : ℕ)
        → (key : Text) × (info : NodeInfo) × (get_elem?
              (keys d.nodes)
              ((d.poller.index + n) % length d.nodes)
            ≡ some key)
          × (lookup key d.nodes ≡ some info)
          × ((dispatch_node (dispatched n d)).0 ≡ ok info.node))
      × (dispatched (length d.nodes) d ≡ d)
  dispatch_node_round_robin = (nth, round)
    where
      nth :
          (n : ℕ)
          → (key : Text) × (info : NodeInfo) × (get_elem?
                (keys d.nodes)
                ((d.poller.index + n) % length d.nodes)
              ≡ some key)
            × (lookup key d.nodes ≡ some info)
            × ((dispatch_node (dispatched n d)).0 ≡ ok info.node)
      nth n =
          let (key, at) = get_elem?_in d.poller.key_list (nth_index n) (nth_index_in n) in
          let at' = subst (λ l. get_elem? l (nth_index n) ≡ some key) s at in
          let (info, found) = lookup_of_keys d.nodes (nth_index n) key at' in
          (
            key,
            info,
            subst (λ m. get_elem? (keys d.nodes) ((d.poller.index + n) % m) ≡ some key) v.counted
                at',
            found,
            ap (λ d'. (dispatch_node d').0) (dispatched_lem n)
                ∙ dispatch_node_found d (nth_index n) key info at found,
          )

      round : dispatched (length d.nodes) d ≡ d
      round =
          dispatched_lem (length d.nodes)
          ∙ ap (at_index d) (
              ap (λ m. (d.poller.index + m) % length d.poller.key_list) (sym v.counted)
              ∙ add-mod_right d.poller.index (length d.poller.key_list)
              ∙ mod-eq_of_lt start_in)
