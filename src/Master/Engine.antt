-- ===== src/Master/Engine.antt =====
-- engine_master.go `masterEngine`. What it saves is the list `saved`; the errors of saving are only
-- logged. A panic is `none`, or `crashed` where the method also returns an error. The pauses
-- between the retries of `dispatchJob` are left out, so its attempts are one step.
use aline_engine.Base.{ℕ, zero, suc, ◌+◌, Bool, Option, none, some, List, [], ◌∷◌, ◌++◌}
use aline_engine.Base.Int.{ℤ}
use aline_engine.Base.Map.{Map, lookup, insert, erase}
use aline_engine.Base.Text.{Text}
use aline_engine.Dispatcher.{
  Dispatcher, DispatchError, Result, ok, err, panic, dispatch_node, register, unregister,
  unregister_with_key, ping, send_job, is_valid_node,
}
use aline_engine.Master.Server.{Server, ServerError, job_not_sent, not_sent, send_next}
use aline_engine.Model.Message.{
  Node, MessageType, AlineMessage, ExecuteReq, ExecuteResult, File, StatusChangeMessage,
  new_status_change_msg, SendJobError,
}
use aline_engine.Model.Status.{Status, JobStatus, int_to_status, convert_job_status}
use aline_engine.Utils.Keys.{format_job_to_string}

pub data Saved : Type 0 where
  saved_log saved_detail : Text → ℤ → Text → Saved
  saved_file : File → Saved

pub record Master : Type 0 where
  pub dispatch : Dispatcher
  pub server : Server
  pub status_change_chan : List StatusChangeMessage
  pub job_status_map : Map JobStatus
  pub saved : List Saved

pub data MasterError : Type 0 where
  from_dispatcher : DispatchError → MasterError
  job_unreadable status_timeout : MasterError

pub data Reply (A : Type 0) : Type 0 where
  reply : A → Reply A
  refused : MasterError → Reply A
  crashed : Reply A

-- A result of the dispatcher whose error is only logged.
abbrev pub with_dispatch : {A : Type 0} → Result A × Dispatcher → Master → Option Master
with_dispatch (panic, d) m = none
with_dispatch (ok a, d) m = some (record m { dispatch = d })
with_dispatch (err e, d) m = some (record m { dispatch = d })

abbrev node_of : AlineMessage → Node
node_of msg = record { name = msg.name; address = msg.address }

abbrev pub handle_result : Option ExecuteResult → Master → Option Master
handle_result none m = none
handle_result (some r) m = some (record m {
  status_change_chan =
      m.status_change_chan
      ++ (new_status_change_msg r.job_name r.job_id (int_to_status r.job_status).0 ∷ []);
})

abbrev pub handle_log : Option ExecuteReq → Text → Master → Option Master
handle_log none log m = none
handle_log (some req) log m = some (record m {
  saved =
      m.saved
      ++ (saved_log req.name req.job_detail_id log
          ∷ saved_detail req.name req.job_detail_id req.pipeline_file
          ∷ []);
})

abbrev pub handle_file : Option File → Master → Option Master
handle_file none m = none
handle_file (some f) m = some (record m { saved = m.saved ++ (saved_file f ∷ []) })

abbrev pub handle_status : Option ExecuteReq → JobStatus → Master → Option Master
handle_status none s m = none
handle_status (some req) s m = some (record m {
  job_status_map = insert (format_job_to_string req.name req.job_detail_id) s m.job_status_map;
})

-- The body of the loop of `handleGrpcServerMessage`, at the time `now`.
unfoldable pub handle_message : ℕ → AlineMessage → Master → Option Master
handle_message now msg m = elim msg.type [
  | MessageType.register ↦ with_dispatch (register now (node_of msg) m.dispatch) m
  | MessageType.unregister ↦ with_dispatch (unregister (node_of msg) m.dispatch) m
  | MessageType.heartbeat ↦ with_dispatch (ping now (node_of msg) m.dispatch) m
  | MessageType.execute ↦ some m
  | MessageType.cancel ↦ some m
  | MessageType.result ↦ handle_result msg.result m
  | MessageType.log ↦ handle_log msg.exec_req msg.log m
  | MessageType.error ↦ some m
  | MessageType.file ↦ handle_file msg.file m
  | MessageType.status ↦ handle_status msg.exec_req msg.status m
  | MessageType.unknown n ↦ some m
]

abbrev pub again :
    Result Node × Dispatcher → (Dispatcher → Result Node × Dispatcher) → Result Node × Dispatcher
again (ok node, d) rest = (ok node, d)
again (err e, d) rest = rest d
again (panic, d) rest = (panic, d)

-- An attempt and `n` retries.
unfoldable pub attempts : ℕ → Dispatcher → Result Node × Dispatcher
attempts zero d = dispatch_node d
attempts (suc n) d = again (dispatch_node d) (attempts n)

abbrev pub put_message : AlineMessage → Master → Master
put_message msg m =
    let s = m.server in record m { server = record s { send_chan = s.send_chan ++ (msg ∷ []) } }

abbrev pub send_to : Result Node → Option Text → Text → ℤ → Master → Reply (Unit {0}) × Master
send_to (err e) yaml name id m = (refused (from_dispatcher e), m)
send_to panic yaml name id m = (crashed, m)
send_to (ok node) none name id m = (refused job_unreadable, m)
send_to (ok node) (some yaml) name id m =
    let (msg, d) = send_job name yaml id node m.dispatch in
    (reply tt, put_message msg (record m { dispatch = d }))

-- `load` reads the job's file; `none` is its error.
unfoldable pub dispatch_job : (Text → Option Text) → Text → ℤ → Master → Reply (Unit {0}) × Master
dispatch_job load name id m =
    let (node, d) = attempts 2 m.dispatch in
    send_to node (load name) name id (record m { dispatch = d })

abbrev pub request : Result AlineMessage → Master → Reply (Unit {0}) × Master
request (ok msg) m = (reply tt, put_message msg m)
request (err e) m = (refused (from_dispatcher e), m)
request panic m = (crashed, m)

unfoldable pub cancel_job : Text → ℤ → Master → Reply (Unit {0}) × Master
cancel_job name id m = request (aline_engine.Dispatcher.cancel_job name id m.dispatch) m

-- The polls of `getJobStatus`; `meanwhile i` is what the other goroutines do in the second `i`.
unfoldable pub poll_status : (ℕ → Master → Master) → Text → ℕ → ℕ → Master → Reply Status × Master
poll_status meanwhile key i zero m = (refused status_timeout, m)
poll_status meanwhile key i (suc n) m = elim (lookup key m.job_status_map) [
  | some s ↦
      (reply (convert_job_status s), record m { job_status_map = erase key m.job_status_map })
  | none ↦ poll_status meanwhile key (i + 1) n (meanwhile i m)
]

abbrev pub then_poll :
    (ℕ → Master → Master) → Text → Reply (Unit {0}) × Master → Reply Status × Master
then_poll meanwhile key (reply u, m) = poll_status meanwhile key 0 10 m
then_poll meanwhile key (refused e, m) = (refused e, m)
then_poll meanwhile key (crashed, m) = (crashed, m)

unfoldable pub get_job_status : (ℕ → Master → Master) → Text → ℤ → Master → Reply Status × Master
get_job_status meanwhile name id m =
    then_poll meanwhile (format_job_to_string name id)
      (request (aline_engine.Dispatcher.get_job_status name id m.dispatch) m)

abbrev pub unless_crashed : Reply (Unit {0}) × Master → Option Master
unless_crashed (reply u, m) = some m
unless_crashed (refused e, m) = some m
unless_crashed (crashed, m) = none

abbrev pub then_dispatch : (Text → Option Text) → SendJobError → Option Master → Option Master
then_dispatch load e none = none
then_dispatch load e (some m) = unless_crashed (dispatch_job load e.job_name e.job_id m)

-- The body of the loop of `handleGrpcServerError`.
unfoldable pub handle_error : (Text → Option Text) → ServerError → Master → Option Master
handle_error load e m = elim e [
  | job_not_sent s ↦
      then_dispatch load s (with_dispatch (unregister_with_key s.error_node m.dispatch) m)
  | not_sent x ↦ some m
]

unfoldable pub is_valid_worker : Text → Master → Bool
is_valid_worker w m = is_valid_node w m.dispatch

-- The loops of the three goroutines, one round each; a loop waits while its channel is empty.
abbrev pub put_server : Master → Option Server → Option Master
put_server m none = none
put_server m (some s) = some (record m { server = s })

unfoldable pub send_round : (ℕ → AlineMessage → Option Text) → Master → Option Master
send_round take m = put_server m (send_next take m.server)

abbrev handle_first : ℕ → List AlineMessage → Master → Option Master
handle_first now [] m = some m
handle_first now (msg ∷ msgs) m =
    let s = m.server in handle_message now msg (record m { server = record s { recv_chan = msgs } })

unfoldable pub message_round : ℕ → Master → Option Master
message_round now m = handle_first now m.server.recv_chan m

abbrev pub handle_first_error : (Text → Option Text) → List ServerError → Master → Option Master
handle_first_error load [] m = some m
handle_first_error load (e ∷ es) m =
    let s = m.server in handle_error load e (record m { server = record s { error_chan = es } })

unfoldable pub error_round : (Text → Option Text) → Master → Option Master
error_round load m = handle_first_error load m.server.error_chan m

abbrev pub then_round : Option Master → (Master → Option Master) → Option Master
then_round none next = none
then_round (some m) next = next m
