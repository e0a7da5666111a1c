-- ===== src/Dispatcher/Run.antt =====
-- Sequences of calls of the dispatcher, as the master makes them.
use aline_engine.Base.{
  ℕ, ◌≡◌, ◌≢◌, Bool, true, false, List, [], ◌∷◌, arith, if◌then◌else◌, Bool-cases, inl, inr, refl,
}
use aline_engine.Base.Map.{Map}
use aline_engine.Base.Text.{Text}
use aline_engine.Base.Int.{ℤ}
use aline_engine.Model.Message.{Node}
use aline_engine.Dispatcher.{
  NodeInfo, Dispatcher, Result, ok, err, panic, new_grpc_dispatcher, node_key, dispatch_node,
  register, unregister_with_key, unregister, ping, healthcheck_range, healthcheck_node, send_job,
  is_stale, unless_panic,
}
use aline_engine.Dispatcher.Invariant.{
  IsValid, new-IsValid, register-IsValid, ping-IsValid, dispatch_node-IsValid,
  dispatch_node-ne-panic, unregister_with_key-IsValid,
}

-- A call that changes the dispatcher, with the time at which it is made.
pub data Call : Type 0 where
  registers pings : ℕ → Node → Call
  unregisters : Node → Call
  unregisters_key : Text → Call
  checks : ℕ → (Map NodeInfo → Map NodeInfo) → Call
  dispatches : Call
  sends : Text → Text → ℤ → Node → Call

-- Whether the call panicked, and the dispatcher after it.
abbrev panics : {A : Type 0} → Result A × Dispatcher → Bool × Dispatcher
panics (ok a, d) = (false, d)
panics (err e, d) = (false, d)
panics (panic, d) = (true, d)

pub call : Call → Dispatcher → Bool × Dispatcher
call (registers now node) d = panics (register now node d)
call (pings now node) d = panics (ping now node d)
call (unregisters node) d = panics (unregister node d)
call (unregisters_key key) d = panics (unregister_with_key key d)
call (checks now order) d = panics (healthcheck_node order now d)
call dispatches d = panics (dispatch_node d)
call (sends name yaml id node) d = (false, (send_job name yaml id node d).1)

-- A panic ends the program, so no call follows it.
pub run : List Call → Dispatcher → Bool × Dispatcher
run [] d = (false, d)
run (c ∷ cs) d =
    let (stopped, d') = call c d in elim stopped [ true ↦ (true, d') | false ↦ run cs d' ]

abbrev pub Keeps : {A : Type 0} → Result A × Dispatcher → Type 0
Keeps r = IsValid r.1 × (r.0 ≢ panic)

unless_panic-Keeps :
    (r : Result (Unit {0}) × Dispatcher) (rest : Dispatcher → Result (Unit {0}) × Dispatcher)
    → Keeps r
    → ((d : Dispatcher) → IsValid d → Keeps (rest d))
    → Keeps (unless_panic r rest)
unless_panic-Keeps (ok u, d) rest k h = h d k.0
unless_panic-Keeps (err e, d) rest k h = h d k.0
unless_panic-Keeps (panic, d) rest k h = absurd (k.1 refl)

pub unregister-Keeps : (node : Node) (d : Dispatcher) → IsValid d → Keeps (unregister node d)
unfolding unregister
unregister-Keeps node d v = unregister_with_key-IsValid (node_key node) d v

check_one-Keeps :
    (now : ℕ) (info : NodeInfo) (d : Dispatcher)
    → IsValid d
    → Keeps (if is_stale now info then unregister info.node d else (ok tt, d))
check_one-Keeps now info d v = elim (Bool-cases (is_stale now info)) [
  | inl e ↦ rw e (unregister-Keeps info.node d v)
  | inr e ↦ rw e (v, λ h. cc)
]

pub healthcheck_range-Keeps :
    (now : ℕ) (visited : Map NodeInfo) (d : Dispatcher)
    → IsValid d
    → Keeps (healthcheck_range now visited d)
unfolding healthcheck_range
healthcheck_range-Keeps now [] d v = (v, λ h. cc)
healthcheck_range-Keeps now ((k, info) ∷ visited) d v =
    unless_panic-Keeps _ (healthcheck_range now visited) (check_one-Keeps now info d v)
      (healthcheck_range-Keeps now visited)

send_job-IsValid :
    (name yaml : Text) (id : ℤ) (node : Node) (d : Dispatcher)
    → IsValid d
    → IsValid (send_job name yaml id node d).1
unfolding send_job
send_job-IsValid name yaml id node d v = record {
  distinct = v.distinct;
  counted = v.counted;
  index_in = v.index_in;
}

abbrev Fine : Bool × Dispatcher → Type 0
Fine r = (r.0 ≡ false) × IsValid r.1

panics-Fine : {A : Type 0} (r : Result A × Dispatcher) → Keeps r → Fine (panics r)
panics-Fine (ok a, d) k = (refl, k.0)
panics-Fine (err e, d) k = (refl, k.0)
panics-Fine (panic, d) k = absurd (k.1 refl)

pub call-Fine : (c : Call) (d : Dispatcher) → IsValid d → Fine (call c d)
unfolding call healthcheck_node
call-Fine (registers now node) d v =
    panics-Fine _ (register-IsValid now node d v, unfold register in ground arith)
call-Fine (pings now node) d v =
    panics-Fine _ (ping-IsValid now node d v, unfold ping in ground arith)
call-Fine (unregisters node) d v = panics-Fine _ (unregister-Keeps node d v)
call-Fine (unregisters_key key) d v = panics-Fine _ (unregister_with_key-IsValid key d v)
call-Fine (checks now order) d v = panics-Fine _ (healthcheck_range-Keeps now (order d.nodes) d v)
call-Fine dispatches d v = panics-Fine _ (dispatch_node-IsValid d v, dispatch_node-ne-panic d v)
call-Fine (sends name yaml id node) d v = (refl, send_job-IsValid name yaml id node d v)

run-Fine : (cs : List Call) (d : Dispatcher) → IsValid d → Fine (run cs d)
unfolding run
run-Fine [] d v = (refl, v)
run-Fine (c ∷ cs) d v = let (fine, v') = call-Fine c d v in rw (fine, run) (run-Fine cs _ v')

-- No sequence of calls on a new dispatcher panics, whatever the nodes, the times and the orders in
-- which the health check visits the nodes; and at its end the key list is as long as the map of
-- nodes, no key stands twice in that map, and the index is 0 or within the list.
pub run-IsValid :
    (cs : List Call)
    → ((run cs new_grpc_dispatcher).0 ≡ false) × IsValid (run cs new_grpc_dispatcher).1
run-IsValid cs = run-Fine cs new_grpc_dispatcher new-IsValid
