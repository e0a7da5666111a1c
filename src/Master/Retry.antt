-- ===== src/Master/Retry.antt =====
-- What becomes of a job whose message cannot be sent to its node.
use aline_engine.Base.{
  ℕ, zero, suc, ◌≡◌, ◌≢◌, refl, ap, ◌∙◌, sym, Option, none, some, [], ◌∷◌, ◌++◌, ◌==◌,
  if◌then◌else◌,
}
use aline_engine.Base.Int.{ℤ, int_eq_iff}
use aline_engine.Base.Map.{lookup}
use aline_engine.Base.Text.{Text, text_eq_refl}
use aline_engine.Dispatcher.{
  Dispatcher, Result, ok, err, panic, node_key, dispatch_node, unregister_with_key, send_job,
  job_message, cancel_job_with_node, get_job_latest_node,
}
use aline_engine.Dispatcher.Invariant.{IsValid, unregister_with_key-IsValid}
use aline_engine.Dispatcher.Removal.{IsKeyed, dispatch_node-ne_unregistered}
use aline_engine.Dispatcher.Jobs.{get_job_latest_node-send_job}
use aline_engine.Master.Server.{
  Server, ServerError, job_error, job_not_sent, message_key, send_first, send_message, send_next,
}
use aline_engine.Master.Engine.{
  again, put_server, with_dispatch, send_to, handle_first_error, then_dispatch, unless_crashed,
  Master, reply, put_message, attempts, dispatch_job, cancel_job, handle_error, send_round,
  error_round, then_round,
}
use aline_engine.Model.Message.{Node, MessageType, AlineMessage, type_number, SendJobError}

-- `dispatchJob` where the dispatcher chooses a node and the job's file is readable.
dispatch_job_ok :
    (load : Text → Option Text) (name yaml : Text) (id : ℤ) (node : Node) (m : Master)
    → load name ≡ some yaml
    → (attempts 2 m.dispatch).0 ≡ ok node
    → dispatch_job load name id m ≡ (
      reply tt,
      put_message
          (job_message MessageType.execute name yaml id node)
          (record m { dispatch = (send_job name yaml id node (attempts 2 m.dispatch).1).1 }),
    )
unfolding dispatch_job send_job
dispatch_job_ok load name yaml id node m stored chosen = rw (chosen, stored) refl

send_message_gone :
    (take : ℕ → AlineMessage → Option Text) (msg : AlineMessage) (s : Server)
    → lookup (message_key msg) s.conns ≡ none
    → send_message take msg s
      ≡ (if type_number msg.type == 4 then job_error msg msg.exec_req s else some s)
unfolding send_message
send_message_gone take msg s gone = rw (gone, send_message) refl

send_next_one :
    (take : ℕ → AlineMessage → Option Text) (msg : AlineMessage) (s : Server)
    → s.send_chan ≡ []
    → send_next take (record s { send_chan = s.send_chan ++ msg ∷ [] }) ≡ send_message take msg s
unfolding send_next
send_next_one take msg s idle =
    ap (λ l. send_first take (l ++ msg ∷ []) (record s { send_chan = l ++ msg ∷ [] })) idle
    ∙ ap (λ l. send_message take msg (record s { send_chan = l })) (sym idle)

-- The sender's round for the only message that waits, where its node has no connection.
send_round_gone :
    (take : ℕ → AlineMessage → Option Text) (msg : AlineMessage) (m : Master)
    → m.server.send_chan ≡ []
    → lookup (message_key msg) m.server.conns ≡ none
    → send_round take (put_message msg m)
      ≡ put_server m
          (if type_number msg.type == 4 then job_error msg msg.exec_req m.server else some m.server)
unfolding send_round
send_round_gone take msg m idle gone =
    ap (put_server m)
      (send_next_one take msg m.server idle ∙ send_message_gone take msg m.server gone)

again_ok :
    (p : Result Node × Dispatcher) (rest : Dispatcher → Result Node × Dispatcher) (node : Node)
    → p.0 ≡ ok node
    → again p rest ≡ p
again_ok (ok n, d) rest node h = refl
again_ok (err e, d) rest node h = cc
again_ok (panic, d) rest node h = cc

attempts_first :
    (n : ℕ) (d : Dispatcher) (node : Node)
    → (dispatch_node d).0 ≡ ok node
    → attempts n d ≡ dispatch_node d
unfolding attempts
attempts_first zero d node h = refl
attempts_first (suc n) d node h = again_ok (dispatch_node d) (attempts n) node h

send_to_reply :
    (r : Result Node) (yaml : Option Text) (name : Text) (id : ℤ) (m : Master)
    → (send_to r yaml name id m).0 ≡ reply tt
    → (node : Node) × (text : Text) × (r ≡ ok node) × (yaml ≡ some text)
send_to_reply (ok node) (some yaml) name id m h = (node, yaml, refl, refl)
send_to_reply (ok node) none name id m h = cc
send_to_reply (err e) yaml name id m h = cc
send_to_reply panic yaml name id m h = cc

cancel_job_ok :
    (name : Text) (id : ℤ) (node : Node) (m : Master)
    → get_job_latest_node name id m.dispatch ≡ ok node
    → cancel_job name id m ≡ (reply tt, put_message (cancel_job_with_node name id node) m)
unfolding cancel_job aline_engine.Dispatcher.cancel_job
cancel_job_ok name id node m latest = rw latest refl

error_round_one :
    (load : Text → Option Text) (e : ServerError) (m : Master)
    → m.server.error_chan ≡ []
    → error_round load
        (let s = m.server in record m { server = record s { error_chan = s.error_chan ++ e ∷ [] } })
      ≡ handle_error load e m
unfolding error_round
error_round_one load e m quiet =
    let s = m.server in
    ap
      (λ l.
        handle_first_error load (l ++ e ∷ [])
          (record m { server = record s { error_chan = l ++ e ∷ [] } }))
      quiet
    ∙ ap (λ l. handle_error load e (record m { server = record s { error_chan = l } })) (sym quiet)

with_dispatch_ok :
    {A : Type 0} (r : Result A × Dispatcher) (m : Master)
    → r.0 ≢ panic
    → with_dispatch r m ≡ some (record m { dispatch = r.1 })
with_dispatch_ok (ok a, d) m h = refl
with_dispatch_ok (err e, d) m h = refl
with_dispatch_ok (panic, d) m h = absurd (h refl)

-- A job that could not be sent goes to the next node.
handle_error_next :
    (load : Text → Option Text) (e : SendJobError) (yaml : Text) (next : Node) (m : Master)
    → (unregister_with_key e.error_node m.dispatch).0 ≢ panic
    → load e.job_name ≡ some yaml
    → (dispatch_node (unregister_with_key e.error_node m.dispatch).1).0 ≡ ok next
    → (m' : Master) × (handle_error load (job_not_sent e) m ≡ some m')
      × (m'.server.send_chan
          ≡ m.server.send_chan
            ++ job_message MessageType.execute e.job_name yaml e.job_id next ∷ [])
unfolding handle_error
handle_error_next load e yaml next m fine stored chosen =
    let d = (unregister_with_key e.error_node m.dispatch).1 in
    let sent =
      dispatch_job_ok load e.job_name yaml e.job_id next (record m { dispatch = d }) stored
        (ap (λ p. p.0) (attempts_first 2 d next chosen) ∙ chosen) in
    let sent_d = (send_job e.job_name yaml e.job_id next (attempts 2 d).1).1 in
    (
      put_message (job_message MessageType.execute e.job_name yaml e.job_id next)
          (record m { dispatch = sent_d }),
      ap (then_dispatch load e)
            (with_dispatch_ok (unregister_with_key e.error_node m.dispatch) m fine)
          ∙ ap unless_crashed sent,
      refl,
    )

-- A job is lost if its node has no connection: `dispatchJob` reports no error, and the round of the
-- sender that takes the message leaves the server as it was before, with nothing delivered and no
-- error for the goroutine that would send the job to another node. The dispatcher chose the node, the
-- job's file is readable and no other message waits.
pub dispatch_job-lost :
    (take : ℕ → AlineMessage → Option Text) (load : Text → Option Text) (name yaml : Text) (id : ℤ)
    (node : Node) (m : Master)
    → m.server.send_chan ≡ []
    → load name ≡ some yaml
    → (attempts 2 m.dispatch).0 ≡ ok node
    → lookup (node_key node) m.server.conns ≡ none
    → let (answer, m1) = dispatch_job load name id m in
      (answer ≡ reply tt) × (send_round take m1 ≡ some (record m1 { server = m.server }))
dispatch_job-lost take load name yaml id node m idle stored chosen gone =
    let e = dispatch_job_ok load name yaml id node m stored chosen in
    let d = (send_job name yaml id node (attempts 2 m.dispatch).1).1 in
    rw e (
      refl,
      send_round_gone take (job_message MessageType.execute name yaml id node)
          (record m { dispatch = d }) idle gone,
    )

-- The nodes of a job: a cancellation after `dispatchJob` goes to the node that got the job. Where
-- `dispatchJob` reports no error, there is a node to which the job's file is sent last, and the
-- cancellation is sent to the same node behind it.
pub dispatch_job-cancel_job :
    (load : Text → Option Text) (name : Text) (id : ℤ) (m : Master)
    → (dispatch_job load name id m).0 ≡ reply tt
    → let m1 = (dispatch_job load name id m).1 in
      let (answer, m2) = cancel_job name id m1 in
      (node : Node) × (yaml : Text) × (load name ≡ some yaml)
      × (m1.server.send_chan
          ≡ m.server.send_chan ++ job_message MessageType.execute name yaml id node ∷ [])
      × (answer ≡ reply tt)
      × (m2.server.send_chan ≡ m1.server.send_chan ++ cancel_job_with_node name id node ∷ [])
dispatch_job-cancel_job load name id m h =
    let (node, yaml, chosen, stored) =
      send_to_reply (attempts 2 m.dispatch).0 (load name) name id
        (record m { dispatch = (attempts 2 m.dispatch).1 }) (unfold dispatch_job in h) in
    let before = (attempts 2 m.dispatch).1 in
    let d = (send_job name yaml id node before).1 in
    let latest : get_job_latest_node name id d ≡ ok node =
      get_job_latest_node-send_job name yaml name id id node before
      ∙ rw (text_eq_refl name, (int_eq_iff id id).1 refl) refl in
    let sent = dispatch_job_ok load name yaml id node m stored chosen in
    let asked =
      cancel_job_ok name id node
        (put_message (job_message MessageType.execute name yaml id node)
          (record m { dispatch = d }))
        latest in
    (node, yaml, stored, rw sent refl, rw sent (rw asked refl), rw sent (rw asked refl))

-- A cancellation that cannot be sent starts the job again. If the job's node has no connection, the
-- round of the sender that takes the message, followed by the round that handles its error, ends
-- with a message that executes the job on a node with another key, and so on another node. The
-- dispatcher is valid, each of its keys is the node's own, it has a next node after the job's node is
-- unregistered, the job's file is readable, and no other message or error waits.
pub cancel_job-resends :
    (take : ℕ → AlineMessage → Option Text) (load : Text → Option Text) (name yaml : Text) (id : ℤ)
    (node next : Node) (m : Master)
    → IsValid m.dispatch
    → IsKeyed m.dispatch
    → m.server.send_chan ≡ []
    → m.server.error_chan ≡ []
    → get_job_latest_node name id m.dispatch ≡ ok node
    → lookup (node_key node) m.server.conns ≡ none
    → load name ≡ some yaml
    → (dispatch_node (unregister_with_key (node_key node) m.dispatch).1).0 ≡ ok next
    → (m' : Master) × (then_round (send_round take (cancel_job name id m).1) (error_round load)
        ≡ some m')
      × (m'.server.send_chan ≡ job_message MessageType.execute name yaml id next ∷ [])
      × (node_key next ≢ node_key node)
unfolding cancel_job_with_node
cancel_job-resends take load name yaml id node next m v k idle quiet latest gone stored chosen =
    let failure : SendJobError = record {
      error_node = node_key node;
      job_name = name;
      job_id = id;
    } in
    let fine = (unregister_with_key-IsValid (node_key node) m.dispatch v).1 in
    let (m', resent, waiting) = handle_error_next load failure yaml next m fine stored chosen in
    (
      m',
      ap (λ p. then_round (send_round take p.1) (error_round load))
            (cancel_job_ok name id node m latest)
          ∙ ap (λ o. then_round o (error_round load))
              (send_round_gone take (cancel_job_with_node name id node) m idle gone)
          ∙ error_round_one load (job_not_sent failure) m quiet
          ∙ resent,
      waiting ∙ ap (λ l. l ++ job_message MessageType.execute name yaml id next ∷ []) idle,
      dispatch_node-ne_unregistered m.dispatch (node_key node) next v k chosen,
    )
