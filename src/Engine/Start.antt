-- ===== src/Engine/Start.antt =====
-- The constructors of engine.go, engine_master.go and engine_worker.go, and the goroutine of the status
-- hook. What the network says is an argument: the error of listening or of connecting, the name of the
-- host and its address. A worker's constructor panics, which is `none`, on a short address.
use aline_engine.Base.{
  ltb, Bool, Option, none, some, List, [], ◌∷◌, ◌++◌, length, take, if◌then◌else◌,
}
use aline_engine.Base.Text.{Text, codes, text_eq}
use aline_engine.Dispatcher.{new_grpc_dispatcher}
use aline_engine.Engine.{Engine, role_master, role_worker}
use aline_engine.Executor.Jobs.{Executor}
use aline_engine.Master.Engine.{Master}
use aline_engine.Master.Server.{Server}
use aline_engine.Model.Message.{StatusChangeMessage}
use aline_engine.Storage.Os.{Os, Fallible, ok, failed}
use aline_engine.Worker.{Worker, register_worker}

abbrev pub new_executor : Executor
new_executor = record { cancel_map = []; status_chan = []; step_timer_map = [] }

abbrev pub new_server : Server
new_server = record { recv_chan = []; send_chan = []; conns = []; error_chan = []; delivered = [] }

abbrev pub new_master : Master
new_master = record {
  dispatch = new_grpc_dispatcher;
  server = new_server;
  status_change_chan = [];
  job_status_map = [];
  saved = [];
}

abbrev pub new_master_engine : (listening : Option Text) → Fallible Master
new_master_engine none = ok new_master
new_master_engine (some e) = failed e

abbrev pub local_host : Text
local_host = codes "127.0.0.1"

-- `masterAddress[:9] == "127.0.0.1"`
pub is_local_master : Text → Option Bool
is_local_master address =
    if ltb (length address) 9 then none else some (text_eq (take 9 address) local_host)

abbrev pub new_worker : (host ip : Text) → Worker
new_worker host ip = record {
  name = host;
  address = ip;
  executor = new_executor;
  queue_chan = [];
  send_chan = [];
  done_job_list = [];
  log_senders = [];
}

abbrev pub connected_worker : Option Text → Worker → Fallible Worker
connected_worker none w = ok (register_worker w)
connected_worker (some e) w = failed e

abbrev pub worker_at : (host ip : Text) → Option Text → Option Bool → Option (Fallible Worker)
worker_at host ip connecting none = none
worker_at host ip connecting (some here) =
    some (connected_worker connecting (new_worker host (if here then local_host else ip)))

pub new_worker_engine :
    (host ip master_address : Text) (connecting : Option Text) → Option (Fallible Worker)
unfolding is_local_master
new_worker_engine host ip master_address connecting =
    worker_at host ip connecting (is_local_master master_address)

module _ (os : Os) where
  abbrev pub as_master :
      Fallible Master → Option (Fallible Worker) → os.Files → Option (Fallible (Engine os))
  as_master (failed e) worker s = some (failed e)
  as_master (ok m) none s = none
  as_master (ok m) (some (failed e)) s = some (failed e)
  as_master (ok m) (some (ok w)) s =
      some (ok (record { role = role_master; master = some m; worker = w; files = s }))

  -- The master's own worker connects to "127.0.0.1" at the port.
  unfoldable pub new_master_of :
      (host ip port : Text) (listening connecting : Option Text)
      → os.Files
      → Option (Fallible (Engine os))
  unfolding new_worker_engine
  new_master_of host ip port listening connecting s =
      as_master (new_master_engine listening)
        (new_worker_engine host ip (local_host ++ (codes ":" ++ port)) connecting) s

  abbrev pub as_worker : Option (Fallible Worker) → os.Files → Option (Fallible (Engine os))
  as_worker none s = none
  as_worker (some (failed e)) s = some (failed e)
  as_worker (some (ok w)) s =
      some (ok (record { role = role_worker; master = none; worker = w; files = s }))

  unfoldable pub new_worker_of :
      (host ip master_address : Text) (connecting : Option Text)
      → os.Files
      → Option (Fallible (Engine os))
  unfolding new_worker_engine
  new_worker_of host ip master_address connecting s =
      as_worker (new_worker_engine host ip master_address connecting) s

-- A round of the goroutine that calls the status hook; it waits while there is no message.
abbrev pub take_status : List StatusChangeMessage → Master → Option StatusChangeMessage × Master
take_status [] m = (none, m)
take_status (msg ∷ msgs) m = (some msg, record m { status_change_chan = msgs })

unfoldable pub hook_round : Master → Option StatusChangeMessage × Master
hook_round m = take_status m.status_change_chan m
