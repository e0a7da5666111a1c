-- ===== src/Examples/Masters.antt =====
-- A master with two nodes, neither of which has a connection, and the worker "a@x".
use aline_engine.Base.{ℕ, ◌≡◌, ◌≢◌, refl, arith, inl, true, Option, none, some, List, [], ◌∷◌, ◌++◌}
use aline_engine.Base.Int.{pos}
use aline_engine.Base.Map.{lookup, erase, is_some}
use aline_engine.Base.Text.{Text, codes, text_eq, text_eq_refl}
use aline_engine.Dispatcher.{
  Dispatcher, ok, dispatch_node, unregister_with_key, cut_key, node_key, job_message,
  cancel_job_with_node, get_job_latest_node, get_job_node,
}
use aline_engine.Dispatcher.Invariant.{IsValid}
use aline_engine.Examples.Nodes.{
  node_a, node_b, info_a, info_b, two_nodes, two_nodes-IsValid, two_nodes-IsKeyed,
}
use aline_engine.Examples.Runs.{site, failing, as_listed, idle, one_step, site_sorted}
use aline_engine.Executor.Jobs.{handle_job}
use aline_engine.Executor.Jobs.Laws.{handle_job-execute, reports_of}
use aline_engine.Executor.Loop.{run_job}
use aline_engine.Master.Server.{Server}
use aline_engine.Master.Engine.{
  Master, reply, attempts, dispatch_job, cancel_job, handle_message, send_round, error_round,
  then_round,
}
use aline_engine.Master.Retry.{dispatch_job-lost, dispatch_job-cancel_job, cancel_job-resends}
use aline_engine.Master.Answers.{Continues, handle_message-Continues}
use aline_engine.Model.Message.{
  Node, MessageType, AlineMessage, ExecuteReq, StatusChangeMessage, QueueMessage, command_start,
}
use aline_engine.Model.Status.{to_string, status_success}
use aline_engine.Utils.Keys.{get_node_key, format_job_to_string}
use aline_engine.Worker.{Worker, Files, handle_done_job}
use aline_engine.Worker.Reports.{handle_message-handle_done_job}

abbrev take_all : ℕ → AlineMessage → Option Text
take_all stream msg = none

abbrev stored : Text → Option Text
stored name = some (codes "yaml")

abbrev quiet : Server
quiet = record { recv_chan = []; send_chan = []; conns = []; error_chan = []; delivered = [] }

abbrev pub master : Master
master = record {
  dispatch = two_nodes;
  server = quiet;
  status_change_chan = [];
  job_status_map = [];
  saved = [];
}

chosen_first : (attempts 2 two_nodes).0 ≡ ok node_a
unfolding attempts dispatch_node lookup text_eq
chosen_first = refl

dispatch_job-lost_example :
    let (answer, m1) = dispatch_job stored (codes "site") (pos 1) master in
    (answer ≡ reply tt) × (send_round take_all m1 ≡ some (record m1 { server = quiet }))
unfolding lookup
dispatch_job-lost_example =
    dispatch_job-lost take_all stored (codes "site") (codes "yaml") (pos 1) node_a master refl refl
      chosen_first refl

replied : (dispatch_job stored (codes "site") (pos 1) master).0 ≡ reply tt
unfolding dispatch_job attempts dispatch_node lookup text_eq
replied = refl

dispatch_job-cancel_job_example :
    let m1 = (dispatch_job stored (codes "site") (pos 1) master).1 in
    let (answer, m2) = cancel_job (codes "site") (pos 1) m1 in
    (node : Node) × (yaml : Text) × (stored (codes "site") ≡ some yaml)
    × (m1.server.send_chan ≡ job_message MessageType.execute (codes "site") yaml (pos 1) node ∷ [])
    × (answer ≡ reply tt)
    × (m2.server.send_chan
        ≡ m1.server.send_chan ++ cancel_job_with_node (codes "site") (pos 1) node ∷ [])
dispatch_job-cancel_job_example =
    dispatch_job-cancel_job stored (codes "site") (pos 1) master replied

-- The job "site" 1 was sent to the node "a@x".
abbrev sent : Dispatcher
sent = record {
  nodes = (codes "a@x", info_a) ∷ (codes "bb@y", info_b) ∷ [];
  poller = record { index = 1; key_list = codes "a@x" ∷ codes "bb@y" ∷ [] };
  job_node_map = (format_job_to_string (codes "site") (pos 1), node_a ∷ []) ∷ [];
}

sent-IsValid : IsValid sent
unfolding lookup text_eq
sent-IsValid = record {
  distinct = (refl, (refl, tt));
  counted = refl;
  index_in = inl (omega arith);
}

latest_a : get_job_latest_node (codes "site") (pos 1) sent ≡ ok node_a
unfolding get_job_latest_node get_job_node lookup
latest_a = rw (text_eq_refl (format_job_to_string (codes "site") (pos 1))) refl

next_b : (dispatch_node (unregister_with_key (codes "a@x") sent).1).0 ≡ ok node_b
unfolding dispatch_node unregister_with_key cut_key lookup erase text_eq
next_b = refl

abbrev busy_master : Master
busy_master = record master { dispatch = sent }

cancel_job-resends_example :
    (m' : Master) × (then_round
        (send_round take_all (cancel_job (codes "site") (pos 1) busy_master).1)
        (error_round stored)
      ≡ some m')
    × (m'.server.send_chan
        ≡ job_message MessageType.execute (codes "site") (codes "yaml") (pos 1) node_b ∷ [])
    × (node_key node_b ≢ node_key node_a)
unfolding get_node_key lookup
cancel_job-resends_example =
    cancel_job-resends take_all stored (codes "site") (codes "yaml") (pos 1) node_a node_b
      busy_master sent-IsValid two_nodes-IsKeyed refl refl latest_a refl refl next_b

abbrev request : ExecuteReq
request = record { name = codes "site"; pipeline_file = []; job_detail_id = pos 1 }

abbrev status_answer : AlineMessage
status_answer = record (job_message MessageType.status (codes "site") [] (pos 1) node_a) {
  status = pos 3;
}

handle_message-Continues_example : Continues (handle_message 5 status_answer master)
handle_message-Continues_example =
    handle_message-Continues 5 status_answer master (λ e. cc) two_nodes-IsValid

abbrev worker : Worker
worker = record {
  name = codes "a";
  address = codes "x";
  executor = idle;
  queue_chan = [];
  send_chan = [];
  done_job_list = [];
  log_senders = [];
}

abbrev no_files : Files
no_files = record {
  job_log = λ name id. some (codes "log");
  job_detail = λ name id. none;
  check_files = λ name id. [];
  artifactory_files = λ name id. [];
}

abbrev succeeded : StatusChangeMessage
succeeded = record { job_name = codes "site"; job_id = pos 1; status = status_success }

known : is_some (to_string status_success) ≡ true
unfolding to_string
known = refl

handle_message-handle_done_job_example :
    (w' : Worker) × (before : List (Option AlineMessage)) × (last : AlineMessage) × (m' : Master)
    × (handle_done_job no_files succeeded worker ≡ some w')
    × (w'.send_chan ≡ before ++ some last ∷ [])
    × (handle_message 5 last master ≡ some m')
    × (m'.status_change_chan ≡ succeeded ∷ [])
handle_message-handle_done_job_example =
    handle_message-handle_done_job 5 no_files succeeded worker master known

abbrev start_site : QueueMessage
start_site = record {
  job_name = codes "site";
  job_id = pos 1;
  job_content = codes "yaml";
  command = command_start;
}

handle_job-execute_example :
    (handle_job (λ name content. some site) as_listed failing start_site idle).status_chan
    ≡ reports_of (codes "site") (pos 1) (run_job failing (one_step ∷ [])).0
handle_job-execute_example =
    handle_job-execute (λ name content. some site) as_listed failing start_site site idle
      (one_step ∷ []) refl refl refl site_sorted
