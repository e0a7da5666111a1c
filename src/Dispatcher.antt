-- ===== src/Dispatcher.antt =====
-- dispatcher/dispatcher.go `GrpcDispatcher`. Each method is one step on the state, as under its
-- lock; it returns its result, an error or a panic, and the new state. Times are Unix seconds and
-- enter as arguments, since the source reads the clock.
pub mod Invariant
pub mod Run
pub mod Robin
pub mod Removal
pub mod Jobs
use aline_engine.Base.{
  ℕ, suc, ◌+◌, ◌-◌, ◌%◌, Bool, true, false, Option, none, some, List, [], ◌∷◌, ◌++◌, ltb, ◌==◌,
  if◌then◌else◌, length, get_elem?, take, drop, init, last?,
}
use aline_engine.Base.Int.{ℤ}
use aline_engine.Base.Map.{Map, lookup, insert, erase, is_some}
use aline_engine.Base.Text.{Text}
use aline_engine.Model.Message.{Node, AlineMessage, ExecuteReq, MessageType}
use aline_engine.Model.Status.{status_notrun}
use aline_engine.Utils.Keys.{get_node_key, format_job_to_string}

pub record NodeInfo : Type 0 where
  pub node : Node
  pub last_ping_time : ℕ

pub record Poller : Type 0 where
  pub index : ℕ
  pub key_list : List Text

pub record Dispatcher : Type 0 where
  pub nodes : Map NodeInfo
  pub poller : Poller
  pub job_node_map : Map (List Node)

pub data DispatchError : Type 0 where
  empty_list no_node already_exists not_exists job_not_found : DispatchError

pub data Result (A : Type 0) : Type 0 where
  ok : A → Result A
  err : DispatchError → Result A
  panic : Result A

unfoldable pub new_grpc_dispatcher : Dispatcher
new_grpc_dispatcher = record {
  nodes = [];
  poller = record { index = 0; key_list = [] };
  job_node_map = [];
}

abbrev pub node_key : Node → Text
node_key node = get_node_key node.name node.address

abbrev found_node : Option NodeInfo → Result Node
found_node none = err no_node
found_node (some info) = ok info.node

abbrev dispatch_key : Option Text → Dispatcher → Result Node × Dispatcher
dispatch_key none d = (panic, d)
dispatch_key (some key) d =
    let p = d.poller in
    (
      found_node (lookup key d.nodes),
      record d { poller = record p { index = (p.index + 1) % length p.key_list } },
    )

abbrev nil? : List Text → Bool
nil? [] = true
nil? (k ∷ l) = false

unfoldable pub dispatch_node : Dispatcher → Result Node × Dispatcher
dispatch_node d =
    if nil? d.poller.key_list
    then (err empty_list, d)
    else dispatch_key (get_elem? d.poller.key_list d.poller.index) d

unfoldable pub register : ℕ → Node → Dispatcher → Result (Unit {0}) × Dispatcher
register now node d =
    let key = node_key node in
    let p = d.poller in
    elim (lookup key d.nodes) [
      | none ↦ (
        ok tt,
        record d {
          nodes = insert key (record { node = node; last_ping_time = now }) d.nodes;
          poller = record p { key_list = p.key_list ++ (key ∷ []) };
        },
      )
      | some info ↦ (err already_exists, d)
    ]

-- The entry of the key list that `unRegister` cuts out: the one before the index, or the last one
-- when the index is 0. The slice expressions panic outside their bounds, and so does `% 0`.
unfoldable pub cut_key : Poller → Result Poller
cut_key p =
    let shorter = take (p.index - 1) p.key_list ++ drop p.index p.key_list in
    if p.index == 0
    then (if nil? p.key_list
        then panic
        else ok (record p { key_list = init p.key_list; index = 0 }))
    else if ltb (length p.key_list) p.index
    then panic
    else if nil? shorter
    then panic
    else ok (record p { key_list = shorter; index = (p.index - 1) % length shorter })

abbrev after_cut : Result Poller → Dispatcher → Result (Unit {0}) × Dispatcher
after_cut (ok p) d = (ok tt, record d { poller = p })
after_cut (err e) d = (err e, d)
after_cut panic d = (panic, d)

unfoldable pub unregister_with_key : Text → Dispatcher → Result (Unit {0}) × Dispatcher
unregister_with_key key d = elim (lookup key d.nodes) [
  | none ↦ (err not_exists, d)
  | some info ↦ after_cut (cut_key d.poller) (record d { nodes = erase key d.nodes })
]

pub unregister : Node → Dispatcher → Result (Unit {0}) × Dispatcher
unfolding unregister_with_key
unregister node d = unregister_with_key (node_key node) d

unfoldable pub ping : ℕ → Node → Dispatcher → Result (Unit {0}) × Dispatcher
ping now node d =
    let key = node_key node in
    elim (lookup key d.nodes) [
      | none ↦ (err not_exists, d)
      | some info ↦ (
        ok tt,
        record d { nodes = insert key (record { node = node; last_ping_time = now }) d.nodes },
      )
    ]

-- `now - lastPingTime > 3*60`; a ping later than `now` is not stale.
abbrev pub is_stale : ℕ → NodeInfo → Bool
is_stale now info = ltb 180 (now - info.last_ping_time)

-- The `Range` of `HealthcheckNode` over the entries in the order in which they are visited. The
-- result of `UnRegister` is dropped, but a panic ends the walk.
abbrev unless_panic :
    Result (Unit {0}) × Dispatcher
    → (Dispatcher → Result (Unit {0}) × Dispatcher)
    → Result (Unit {0}) × Dispatcher
unless_panic (panic, d) rest = (panic, d)
unless_panic (ok u, d) rest = rest d
unless_panic (err e, d) rest = rest d

pub healthcheck_range : ℕ → Map NodeInfo → Dispatcher → Result (Unit {0}) × Dispatcher
healthcheck_range now [] d = (ok tt, d)
healthcheck_range now ((k, info) ∷ visited) d =
    unless_panic (if is_stale now info then unregister info.node d else (ok tt, d))
      (healthcheck_range now visited)

-- `order` is the order in which `Range` visits the entries.
pub healthcheck_node :
    (Map NodeInfo → Map NodeInfo) → ℕ → Dispatcher → Result (Unit {0}) × Dispatcher
unfolding healthcheck_range
healthcheck_node order now d = healthcheck_range now (order d.nodes) d

abbrev pub job_message : MessageType → Text → Text → ℤ → Node → AlineMessage
job_message type name content id node = record {
  type = type;
  name = node.name;
  address = node.address;
  exec_req = some (record { name = name; pipeline_file = content; job_detail_id = id });
  result = none;
  log = [];
  error = [];
  file = none;
  status = status_notrun;
}

abbrev or_nil : Option (List Node) → List Node
or_nil none = []
or_nil (some l) = l

unfoldable pub send_job : Text → Text → ℤ → Node → Dispatcher → AlineMessage × Dispatcher
send_job name yaml id node d =
    let key = format_job_to_string name id in
    (
      job_message MessageType.execute name yaml id node,
      record d {
        job_node_map =
            insert key (or_nil (lookup key d.job_node_map) ++ (node ∷ [])) d.job_node_map;
      },
    )

unfoldable pub cancel_job_with_node : Text → ℤ → Node → AlineMessage
cancel_job_with_node name id node = job_message MessageType.cancel name [] id node

unfoldable pub get_job_node : Text → ℤ → Dispatcher → List Node
get_job_node name id d = or_nil (lookup (format_job_to_string name id) d.job_node_map)

abbrev or_not_found : Option Node → Result Node
or_not_found none = err job_not_found
or_not_found (some node) = ok node

unfoldable pub get_job_latest_node : Text → ℤ → Dispatcher → Result Node
unfolding get_job_node
get_job_latest_node name id d = or_not_found (last? (get_job_node name id d))

abbrev pub map_result : {A B : Type 0} → (A → B) → Result A → Result B
map_result f (ok a) = ok (f a)
map_result f (err e) = err e
map_result f panic = panic

unfoldable pub cancel_job : Text → ℤ → Dispatcher → Result AlineMessage
unfolding get_job_latest_node cancel_job_with_node
cancel_job name id d = map_result (cancel_job_with_node name id) (get_job_latest_node name id d)

unfoldable pub get_job_status : Text → ℤ → Dispatcher → Result AlineMessage
unfolding get_job_latest_node
get_job_status name id d =
    map_result (job_message MessageType.status name [] id) (get_job_latest_node name id d)

unfoldable pub is_valid_node : Text → Dispatcher → Bool
is_valid_node n d = is_some (lookup n d.nodes)
