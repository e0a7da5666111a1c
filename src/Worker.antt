-- ===== src/Worker.antt =====
-- engine_worker.go `workerEngine`. The channel to the master is the list of the messages sent so
-- far, where `none` is a nil message. What the worker reads from the files of a job is an argument,
-- and the goroutines that send the log of a job are the list `log_senders`. Where a function returns
-- `none`, the source panics.
pub mod Reports
use aline_engine.Base.{
  ℕ, suc, ◌+◌, Bool, true, false, not, Option, none, some, List, [], ◌∷◌, ◌++◌, ltb, if◌then◌else◌,
  map,
}
use aline_engine.Base.Int.{ℤ}
use aline_engine.Base.Map.{Map, lookup, insert, erase, is_some}
use aline_engine.Base.Text.{Text, codes, text_eq}
use aline_engine.Executor.Jobs.{Executor}
use aline_engine.Model.Message.{
  MessageType, AlineMessage, ExecuteReq, ExecuteResult, File, QueueMessage, new_start_queue_msg,
  new_stop_queue_msg, StatusChangeMessage,
}
use aline_engine.Model.Status.{Status, status_notrun, convert_status, to_string}
use aline_engine.Utils.Keys.{format_job_to_string}

-- The goroutine of `sendLogJobDetail` for a job, with its `errorCounter`.
pub record LogSender : Type 0 where
  pub req : ExecuteReq
  pub errors : ℕ

pub record Worker : Type 0 where
  pub name : Text
  pub address : Text
  pub executor : Executor
  pub queue_chan : List QueueMessage
  pub send_chan : List (Option AlineMessage)
  pub done_job_list : Map (Unit {0})
  pub log_senders : List LogSender

-- What the worker reads from the files of a job; `none` is an error, and so is an empty list.
pub record Files : Type 0 where
  pub job_log : Text → ℤ → Option Text
  pub job_detail : Text → ℤ → Option Text
  pub check_files : Text → ℤ → List File
  pub artifactory_files : Text → ℤ → List File

abbrev pub blank : MessageType → Worker → AlineMessage
blank type w = record {
  type = type;
  name = w.name;
  address = w.address;
  exec_req = none;
  result = none;
  log = [];
  error = [];
  file = none;
  status = status_notrun;
}

abbrev send : Option AlineMessage → Worker → Worker
send msg w = record w { send_chan = w.send_chan ++ (msg ∷ []) }

unfoldable pub register_worker : Worker → Worker
register_worker w = send (some (blank MessageType.register w)) w

-- One round of `keepAlive`.
unfoldable pub keep_alive : Worker → Worker
keep_alive w = send (some (blank MessageType.heartbeat w)) w

abbrev pub is_local : Worker → Bool
is_local w = text_eq w.address (codes "127.0.0.1")

abbrev pub status_request : Text → ℤ → ExecuteReq
status_request name id = record { name = name; pipeline_file = []; job_detail_id = id }

-- A job that the executor does not know has the status "not run".
pub send_job_status : ExecuteReq → Worker → Worker
send_job_status req w =
    let (status, found) =
      aline_engine.Executor.Jobs.get_job_status req.name req.job_detail_id w.executor in
    send
      (some (record (blank MessageType.status w) {
        status = convert_status (if found then status else status_notrun);
        exec_req = some (status_request req.name req.job_detail_id);
      }))
      w

abbrev put_queue : QueueMessage → Worker → Worker
put_queue q w = record w { queue_chan = w.queue_chan ++ (q ∷ []) }

pub send_log_job_detail : ExecuteReq → Worker → Worker
send_log_job_detail req w =
    if is_local w
    then w
    else record w { log_senders = w.log_senders ++ (record { req = req; errors = 0 } ∷ []) }

abbrev with_req : Option ExecuteReq → (ExecuteReq → Worker) → Option Worker
with_req none f = none
with_req (some req) f = some (f req)

-- The body of the loop of `handleGrpcMessage`.
unfoldable pub handle_grpc_message : AlineMessage → Worker → Option Worker
unfolding send_log_job_detail send_job_status
handle_grpc_message msg w = elim msg.type [
  | MessageType.execute ↦ with_req msg.exec_req (λ req.
      send_log_job_detail req
        (put_queue (new_start_queue_msg req.name req.pipeline_file req.job_detail_id) w))
  | MessageType.cancel ↦
      with_req msg.exec_req
        (λ req. put_queue (new_stop_queue_msg req.name req.pipeline_file req.job_detail_id) w)
  | MessageType.status ↦ with_req msg.exec_req (λ req. send_job_status req w)
  | MessageType.register ↦ some w
  | MessageType.unregister ↦ some w
  | MessageType.heartbeat ↦ some w
  | MessageType.result ↦ some w
  | MessageType.log ↦ some w
  | MessageType.error ↦ some w
  | MessageType.file ↦ some w
  | MessageType.unknown n ↦ some w
]

abbrev log_message : Option Text → Option Text → Text → ℤ → Worker → Option AlineMessage
log_message (some log) (some detail) name id w = some (record (blank MessageType.log w) {
  exec_req = some (record { name = name; pipeline_file = detail; job_detail_id = id });
  log = log;
})
log_message (some log) none name id w = none
log_message none detail name id w = none

unfoldable pub get_log_and_job_detail_message : Files → Text → ℤ → Worker → Option AlineMessage
get_log_and_job_detail_message files name id w =
    log_message (files.job_log name id) (files.job_detail name id) name id w

abbrev file_messages : List File → Worker → List (Option AlineMessage)
file_messages fs w = map (λ f. some (record (blank MessageType.file w) { file = some f })) fs

-- The log, the reports and the build products of a job that is done; the log is nil on an error.
pub send_files : Files → Text → ℤ → Worker → Worker
send_files files name id w = record w {
  send_chan =
      w.send_chan
      ++ (get_log_and_job_detail_message files name id w
          ∷ (file_messages (files.check_files name id) w
              ++ file_messages (files.artifactory_files name id) w));
}

abbrev pub send_result : Text → ℤ → Status → Worker → Worker
send_result name id status w =
    send
      (some (record (blank MessageType.result w) {
        result = some (record { job_name = name; job_id = id; job_status = status; error = [] });
      }))
      w

-- The body of the loop of `handleDoneJob`; printing the status panics if it is no status.
pub handle_done_job : Files → StatusChangeMessage → Worker → Option Worker
unfolding send_files
handle_done_job files msg w =
    let key = format_job_to_string msg.job_name msg.job_id in
    let stored = record w { done_job_list = insert key tt w.done_job_list } in
    let told = if is_local w then stored else send_files files msg.job_name msg.job_id stored in
    if is_some (to_string msg.status)
    then some (send_result msg.job_name msg.job_id msg.status told)
    else none

abbrev retry_log : LogSender → Worker → Option LogSender × Worker
retry_log l w = (if ltb 10 l.errors then none else some (record l { errors = l.errors + 1 }), w)

abbrev send_log : Option AlineMessage → LogSender → Worker → Option LogSender × Worker
send_log none l w = retry_log l w
send_log (some msg) l w = (some l, send (some msg) w)

-- One round of the loop of `sendLogJobDetail`; `none` is its end.
unfoldable pub log_round : Files → LogSender → Worker → Option LogSender × Worker
log_round files l w =
    let key = format_job_to_string l.req.name l.req.job_detail_id in
    if is_some (lookup key w.done_job_list)
    then (none, record w { done_job_list = erase key w.done_job_list })
    else send_log (get_log_and_job_detail_message files l.req.name l.req.job_detail_id w) l w
