-- ===== src/Dispatcher/Invariant.antt =====
-- What every sequence of calls keeps of a dispatcher, and that no call panics.
use aline_engine.Base.{
  ℕ, ◌+◌, ◌-◌, ◌%◌, ◌<◌, ◌≡◌, ◌≢◌, refl, ◌⊎◌, inl, inr, none, some, [], ◌∷◌, ◌++◌, ◌==◌,
  if◌then◌else◌, length, take, drop, init, arith, length-append, length-take, length-drop,
  length-init, get_elem?_in, Option-cases,
}
use aline_engine.Base.Map.{
  Map, lookup, erase, IsMap, insert-IsMap, erase-IsMap, length-insert_new, length-insert_old,
  length-erase,
}
use aline_engine.Base.Text.{Text}
use aline_engine.Model.Message.{Node}
use aline_engine.Dispatcher.{
  NodeInfo, Poller, Dispatcher, ok, err, panic, not_exists, new_grpc_dispatcher, node_key,
  dispatch_node, register, cut_key, unregister_with_key, ping,
}

-- The key list is as long as the map of nodes, and the index points into it.
pub record IsValid (d : Dispatcher) : Type 0 where
  pub distinct : IsMap d.nodes
  pub counted : length d.poller.key_list ≡ length d.nodes
  pub index_in : (d.poller.index < length d.poller.key_list) ⊎ (d.poller.index ≡ 0)

pub new-IsValid : IsValid new_grpc_dispatcher
unfolding new_grpc_dispatcher
new-IsValid = record { distinct = tt; counted = refl; index_in = inr refl }

pub register-IsValid :
    (now : ℕ) (node : Node) (d : Dispatcher) → IsValid d → IsValid (register now node d).1
unfolding register
register-IsValid now node d v =
    let key = node_key node in
    let info : NodeInfo = record { node = node; last_ping_time = now } in
    ground (
      arith,
      insert-IsMap key info d.nodes,
      length-insert_new key info d.nodes,
      length-append d.poller.key_list (key ∷ []),
    )

pub ping-IsValid :
    (now : ℕ) (node : Node) (d : Dispatcher) → IsValid d → IsValid (ping now node d).1
unfolding ping
ping-IsValid now node d v = elim (Option-cases (lookup (node_key node) d.nodes)) [
  | inl e ↦ rw (e, ping) v
  | inr (old, e) ↦
      let key = node_key node in
      let info : NodeInfo = record { node = node; last_ping_time = now } in
      ground (arith, insert-IsMap key info d.nodes, length-insert_old key info old d.nodes e)
]

pub dispatch_node-IsValid : (d : Dispatcher) → IsValid d → IsValid (dispatch_node d).1
unfolding dispatch_node
dispatch_node-IsValid d v = ground arith

pub dispatch_node-ne-panic : (d : Dispatcher) → IsValid d → (dispatch_node d).0 ≢ panic
unfolding dispatch_node
dispatch_node-ne-panic d v = ground (arith, get_elem?_in d.poller.key_list d.poller.index)

-- The poller after a cut that does not panic.
abbrev pub cut : Poller → Poller
cut p =
    let shorter = take (p.index - 1) p.key_list ++ drop p.index p.key_list in
    if p.index == 0
    then record p { key_list = init p.key_list; index = 0 }
    else record p { key_list = shorter; index = (p.index - 1) % length shorter }

module _ (p : Poller) (some_key : 0 < length p.key_list)
    (bound : (p.index < length p.key_list) ⊎ (p.index ≡ 0)) where
  length-shorter :
      p.index ≢ 0
      → length (take (p.index - 1) p.key_list ++ drop p.index p.key_list) + 1 ≡ length p.key_list
  length-shorter h = omega (
    arith,
    length-append (take (p.index - 1) p.key_list) (drop p.index p.key_list),
    length-take (p.index - 1) p.key_list,
    length-drop p.index p.key_list,
  )

  pub cut_key_lem : cut_key p ≡ ok (cut p)
  unfolding cut_key
  cut_key_lem = ground (arith, length-shorter)

  pub length-cut : length (cut p).key_list + 1 ≡ length p.key_list
  length-cut = ground (arith, length-shorter, length-init p.key_list)

  pub cut-index_in : ((cut p).index < length (cut p).key_list) ⊎ ((cut p).index ≡ 0)
  cut-index_in = ground (arith, length-shorter)

pos_of_lookup :
    (key : Text) (info : NodeInfo) (nodes : Map NodeInfo)
    → lookup key nodes ≡ some info
    → 0 < length nodes
unfolding lookup
pos_of_lookup key info [] h = cc
pos_of_lookup key info (e ∷ nodes) h = omega arith

-- What unregistering a registered key does to a valid dispatcher.
pub unregister_with_key_lem :
    (key : Text) (info : NodeInfo) (d : Dispatcher)
    → IsValid d
    → lookup key d.nodes ≡ some info
    → unregister_with_key key d
      ≡ (ok tt, record d { nodes = erase key d.nodes; poller = cut d.poller })
unfolding unregister_with_key
unregister_with_key_lem key info d v e =
    let some_key : 0 < length d.poller.key_list =
      omega (arith, pos_of_lookup key info d.nodes e, v.counted) in
    rw (e, unregister_with_key) (rw (cut_key_lem d.poller some_key v.index_in))

pub unregister_with_key_absent :
    (key : Text) (d : Dispatcher)
    → lookup key d.nodes ≡ none
    → unregister_with_key key d ≡ (err not_exists, d)
unfolding unregister_with_key
unregister_with_key_absent key d e = rw (e, unregister_with_key)

pub unregister_with_key-IsValid :
    (key : Text) (d : Dispatcher)
    → IsValid d
    → IsValid (unregister_with_key key d).1 × ((unregister_with_key key d).0 ≢ panic)
unregister_with_key-IsValid key d v = elim (Option-cases (lookup key d.nodes)) [
  | inl e ↦ rw (unregister_with_key_absent key d e) (v, λ h. cc)
  | inr (info, e) ↦
      let some_key : 0 < length d.poller.key_list =
        omega (arith, pos_of_lookup key info d.nodes e, v.counted) in
      rw (unregister_with_key_lem key info d v e) (
        record {
          distinct = erase-IsMap key d.nodes v.distinct;
          counted = omega (
            arith,
            length-cut d.poller some_key v.index_in,
            length-erase key info d.nodes v.distinct e,
            v.counted,
          );
          index_in = cut-index_in d.poller some_key v.index_in;
        },
        λ h. cc,
      )
]
