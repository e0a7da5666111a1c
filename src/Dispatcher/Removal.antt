-- ===== src/Dispatcher/Removal.antt =====
-- What `unRegister` does to the key list: it cuts out the key before the poller's index, whichever key
-- was to be unregistered.
use aline_engine.Base.{
  ℕ, zero, suc, ◌+◌, ◌-◌, ◌%◌, ◌<◌, ◌≡◌, ◌≢◌, refl, none, some, Option, List, [], ◌∷◌, ◌++◌, arith,
  length, get_elem?, get_elem?_in, init, take, drop, if◌then◌else◌, ◌==◌, true, false, subst, sym,
  ap, ◌∙◌, Option-cases, Bool-cases, inl, inr,
}
use native.Mathlib.Nat.{mod-eq_of_lt, mod_self}
use native.Mathlib.Decide.{dec_lt}
use aline_engine.Base.Map.{
  lookup, keys, erase, keys-erase, lookup_of_keys, contains, contains-keys, is_some,
  lookup-erase_self, lookup-erase_ne, lookup-erase, erase_absent,
}
use aline_engine.Base.Text.{Text, text_eq, text_eq_iff}
use aline_engine.Model.Message.{Node}
use aline_engine.Dispatcher.{
  NodeInfo, Poller, Dispatcher, ok, node_key, dispatch_node, unregister_with_key,
}
use aline_engine.Dispatcher.Invariant.{
  IsValid, cut, dispatch_node-IsValid, unregister_with_key_lem, unregister_with_key_absent,
}
use aline_engine.Dispatcher.Robin.{IsSynced, at_index, dispatch_node-at_index, dispatch_node_found}

-- The place in the key list that `unRegister` cuts out.
abbrev cut_place : Poller → ℕ
cut_place p = if p.index == 0 then length p.key_list - 1 else p.index - 1

-- The key that stands there: the one before the index, or the last one where the index is 0. Right
-- after a dispatch it is the key of the node that was chosen.
abbrev pub key_before_index : Poller → Option Text
key_before_index p = get_elem? p.key_list (cut_place p)

init-take {ℓ} :
    {A : Type ℓ} (n : ℕ) (xs : List A) → length xs ≡ suc n → init xs ≡ take n xs ++ drop (suc n) xs
init-take n [] h = absurd (omega arith)
init-take zero (x ∷ []) h = refl
init-take zero (x ∷ y ∷ l) h = absurd (omega arith)
init-take (suc n) (x ∷ []) h = absurd (omega arith)
init-take (suc n) (x ∷ y ∷ l) h = ap (◌∷◌ x) (init-take n (y ∷ l) (omega arith))

cut_lem :
    (p : Poller)
    → 0 < length p.key_list
    → (cut p).key_list ≡ take (cut_place p) p.key_list ++ drop (suc (cut_place p)) p.key_list
cut_lem p h =
    let whole : length p.key_list ≡ suc (length p.key_list - 1) = omega arith in
    ground (
      arith,
      init-take (length p.key_list - 1) p.key_list whole,
      ap (λ i. drop i p.key_list) (index_lem p.index),
    )
  where
    index_lem : (i : ℕ) → (if i == 0 then 0 else i) ≡ (if i == 0 then 0 else suc (i - 1))
    index_lem i = ground arith

pos_of_get_elem? {ℓ} :
    {A : Type ℓ} {a : A} (xs : List A) (i : ℕ) → get_elem? xs i ≡ some a → 0 < length xs
pos_of_get_elem? [] i h = cc
pos_of_get_elem? (x ∷ xs) i h = omega arith

module _ (d : Dispatcher) (v : IsValid d) (s : IsSynced d) {last : Text}
    (place : key_before_index d.poller ≡ some last) where
  -- The cut leaves the keys of the map without the key before the index.
  cut-keys : (cut d.poller).key_list ≡ keys (erase last d.nodes)
  cut-keys =
      cut_lem d.poller (pos_of_get_elem? d.poller.key_list (cut_place d.poller) place)
      ∙ ap (λ l. take (cut_place d.poller) l ++ drop (suc (cut_place d.poller)) l) s
      ∙ sym (
          keys-erase d.nodes (cut_place d.poller) last v.distinct
            (subst (λ l. get_elem? l (cut_place d.poller) ≡ some last) s place))

  contains-cut :
      (key : Text)
      → contains key (cut d.poller).key_list ≡ is_some (lookup key (erase last d.nodes))
  contains-cut key = ap (contains key) cut-keys ∙ contains-keys key (erase last d.nodes)

  registered : (info : NodeInfo) × (lookup last d.nodes ≡ some info)
  registered =
      lookup_of_keys d.nodes (cut_place d.poller) last
        (subst (λ l. get_elem? l (cut_place d.poller) ≡ some last) s place)

  pub unregister_last :
      unregister_with_key last d
      ≡ (ok tt, record d { nodes = erase last d.nodes; poller = cut d.poller })
  unregister_last = let (info, found) = registered in unregister_with_key_lem last info d v found

  pub unregister_last-IsSynced : IsSynced (unregister_with_key last d).1
  unregister_last-IsSynced = rw unregister_last cut-keys

  -- `unRegister` cuts the wrong key out of the key list: where a registered key other than the one
  -- before the index is unregistered, the node of the key before the index stays registered and
  -- loses its place in the key list, and the unregistered key stays in the list. The key before
  -- index 0 is the last one. The dispatcher is valid and its key list holds the registered keys.
  pub unregister_other :
      {key : Text} {info : NodeInfo}
      → lookup key d.nodes ≡ some info
      → key ≢ last
      → let d' = (unregister_with_key key d).1 in
        (is_some (lookup last d'.nodes) ≡ true)
        × (contains last d'.poller.key_list ≡ false)
        × (is_some (lookup key d'.nodes) ≡ false)
        × (contains key d'.poller.key_list ≡ true)
  unregister_other {key} {info} found other =
      let (last_info, last_found) = registered in
      rw (unregister_with_key_lem key info d v found) (
        ap is_some (lookup-erase_ne key last d.nodes other ∙ last_found),
        contains-cut last ∙ ap is_some (lookup-erase_self last d.nodes),
        ap is_some (lookup-erase_self key d.nodes),
        contains-cut key
            ∙ ap is_some (lookup-erase_ne last key d.nodes (λ e. other (sym e)) ∙ found),
      )

-- The keys of the map are those of the nodes that stand there.
abbrev pub IsKeyed : Dispatcher → Type 0
IsKeyed d =
    (key : Text) (info : NodeInfo) → lookup key d.nodes ≡ some info → node_key info.node ≡ key

dispatch_node-ne-nil :
    (d : Dispatcher) {node : Node} → (dispatch_node d).0 ≡ ok node → 0 < length d.poller.key_list
unfolding dispatch_node
dispatch_node-ne-nil d h = ground arith

-- A node that the dispatcher chooses is registered.
dispatch_node_registered :
    (d : Dispatcher) (node : Node)
    → (dispatch_node d).0 ≡ ok node
    → (key : Text) × (info : NodeInfo) × (lookup key d.nodes ≡ some info) × (info.node ≡ node)
unfolding dispatch_node
dispatch_node_registered d node h =
    elim (Option-cases (get_elem? d.poller.key_list d.poller.index)) [
      | inl none_at ↦ absurd (ground (arith, none_at))
      | inr (key, at) ↦ elim (Option-cases (lookup key d.nodes)) [
        | inl gone ↦ absurd (ground (arith, at, gone))
        | inr (info, found) ↦ (key, info, found, ground (arith, at, found))
      ]
    ]

unregister_with_key-nodes :
    (key : Text) (d : Dispatcher)
    → IsValid d
    → (unregister_with_key key d).1.nodes ≡ erase key d.nodes
unregister_with_key-nodes key d v = elim (Option-cases (lookup key d.nodes)) [
  | inl gone ↦ rw (unregister_with_key_absent key d gone) (sym (erase_absent key d.nodes gone))
  | inr (info, found) ↦ rw (unregister_with_key_lem key info d v found) refl
]

-- The next node after a key was unregistered has another key.
pub dispatch_node-ne_unregistered :
    (d : Dispatcher) (gone : Text) (next : Node)
    → IsValid d
    → IsKeyed d
    → (dispatch_node (unregister_with_key gone d).1).0 ≡ ok next
    → node_key next ≢ gone
dispatch_node-ne_unregistered d gone next v k h same =
    let (key, info, found, is_next) =
      dispatch_node_registered (unregister_with_key gone d).1 next h in
    let left : lookup key (erase gone d.nodes) ≡ some info =
      ap (λ m. lookup key m) (sym (unregister_with_key-nodes gone d v)) ∙ found in
    elim (Bool-cases (text_eq gone key)) [
      | inl e ↦
          let erased : lookup key (erase gone d.nodes) ≡ none =
            lookup-erase gone key d.nodes ∙ rw e refl in
          absurd (none-ne-some (sym erased ∙ left))
      | inr e ↦
          let other : gone ≢ key = λ p. absurd (ground (arith, text_eq_iff gone key)) in
          let before = sym (lookup-erase_ne gone key d.nodes other) ∙ left in
          other (sym same ∙ ap node_key (sym is_next) ∙ k key info before)
    ]
  where
    none-ne-some : {info : NodeInfo} → none ≡ some info → ⊥
    none-ne-some e = cc

cut_place-next : (i n : ℕ) → i < n → (if (i + 1) % n == 0 then n - 1 else (i + 1) % n - 1) ≡ i
cut_place-next i n h = elim (dec_lt (i + 1) n) [
  | yes below ↦ ground (arith, mod-eq_of_lt below)
  | no last ↦ let e : i + 1 ≡ n = omega arith in rw e (rw mod_self (omega arith))
]

module _ (d : Dispatcher) (node : Node) (v : IsValid d) (s : IsSynced d) (k : IsKeyed d)
    (h : (dispatch_node d).0 ≡ ok node) where
  -- A node can be unregistered at once when a job could not be sent to it: after a dispatch that
  -- chose the node, unregistering the key of the node succeeds, takes that key alone out of the
  -- map, and leaves in the key list exactly the keys of the remaining nodes, in order. The
  -- dispatcher before is valid, its key list holds the registered keys, and each key is the
  -- node's own.
  pub unregister-dispatch_node :
      let after = unregister_with_key (node_key node) (dispatch_node d).1 in
      (after.0 ≡ ok tt) × (after.1.nodes ≡ erase (node_key node) d.nodes) × IsSynced after.1
  unregister-dispatch_node =
      let i = d.poller.index in
      let n = length d.poller.key_list in
      let some_key = dispatch_node-ne-nil d h in
      let start : i < n = omega (arith, some_key, v.index_in) in
      let (key, at) = get_elem?_in d.poller.key_list i start in
      let (info, found) =
        lookup_of_keys d.nodes i key (subst (λ l. get_elem? l i ≡ some key) s at) in
      let same : node_key node ≡ key =
        ap node_key (node_eq (sym h ∙ dispatch_node_found d i key info at found))
        ∙ k key info found in
      let d' = at_index d ((i + 1) % n) in
      let moved = dispatch_node-at_index d i start in
      let v' : IsValid d' = subst IsValid moved (dispatch_node-IsValid d v) in
      let place : key_before_index d'.poller ≡ some (node_key node) =
        ap (get_elem? d.poller.key_list) (cut_place-next i n start) ∙ at ∙ ap some (sym same) in
      rw moved (rw (unregister_last d' v' s place) (refl, refl, cut-keys d' v' s place))
    where
      node_eq : {a b : Node} → ok a ≡ ok b → a ≡ b
      node_eq e = cc
