-- ===== src/Worker/Reports.antt =====
-- What reaches the master of a worker's reports.
use aline_engine.Base.{
  ℕ, ◌≡◌, refl, ap, ◌∙◌, true, Option, none, some, List, [], ◌∷◌, ◌++◌, inl, inr, Bool-cases,
  if◌then◌else◌,
}
use aline_engine.Base.Int.{ℤ}
use aline_engine.Base.Map.{lookup, insert, erase, is_some, lookup-insert_self, lookup-erase_self}
use aline_engine.Base.Text.{Text}
use aline_engine.Dispatcher.{Result, ok, get_job_latest_node, job_message}
use aline_engine.Executor.Jobs.{Executor, cancel_key}
use aline_engine.Master.Engine.{
  Master, reply, put_message, handle_message, get_job_status, poll_status,
}
use aline_engine.Model.Message.{
  Node, MessageType, AlineMessage, ExecuteReq, StatusChangeMessage, new_status_change_msg,
}
use aline_engine.Model.Status.{
  Status, JobStatus, convert_status, convert_job_status, to_string, int_to_status,
  int_to_status_known, status_notrun,
}
use aline_engine.Utils.Keys.{format_job_to_string}
use aline_engine.Worker.{
  blank, is_local, status_request, send_result, Worker, Files, send_job_status, handle_done_job,
  send_files,
}

-- The master's request for a status, where the answer is already there.
get_job_status_known :
    (meanwhile : ℕ → Master → Master) (name : Text) (id : ℤ) (s : JobStatus) (node : Node)
    (m : Master)
    → get_job_latest_node name id m.dispatch ≡ ok node
    → lookup (format_job_to_string name id) m.job_status_map ≡ some s
    → get_job_status meanwhile name id m ≡ (
      reply (convert_job_status s),
      put_message
          (job_message MessageType.status name [] id node)
          (record m { job_status_map = erase (format_job_to_string name id) m.job_status_map }),
    )
unfolding get_job_status poll_status aline_engine.Dispatcher.get_job_status
get_job_status_known meanwhile name id s node m latest known =
    rw latest (rw (known, poll_status) refl)

-- The status survives the two conversions.
told_status :
    (name : Text) (id : ℤ) (e : Executor)
    → let (status, found) = aline_engine.Executor.Jobs.get_job_status name id e in
      convert_job_status (convert_status (if found then status else status_notrun)) ≡ status
unfolding aline_engine.Executor.Jobs.get_job_status convert_job_status convert_status
told_status name id e = elim (Bool-cases (is_some (lookup (cancel_key name id) e.cancel_map))) [
  | inl running ↦ rw running refl
  | inr absent ↦ rw absent refl
]

-- A status request is answered with what the worker's executor knows of the job. The worker answers a
-- request with one message, and once the master has handled it, the next status request of the master
-- for that job returns the executor's status and uses the answer up. The dispatcher knows the job's
-- node.
pub get_job_status-send_job_status :
    (now : ℕ) (meanwhile : ℕ → Master → Master) (req : ExecuteReq) (node : Node) (w : Worker)
    (m : Master)
    → get_job_latest_node req.name req.job_detail_id m.dispatch ≡ ok node
    → (msg : AlineMessage) × (m1 : Master) × ((send_job_status req w).send_chan
        ≡ w.send_chan ++ some msg ∷ [])
      × (handle_message now msg m ≡ some m1)
      × (let (answer, m2) = get_job_status meanwhile req.name req.job_detail_id m1 in
          (answer
            ≡ reply
                (aline_engine.Executor.Jobs.get_job_status req.name req.job_detail_id w.executor).0)
          × (lookup (format_job_to_string req.name req.job_detail_id) m2.job_status_map ≡ none))
unfolding send_job_status handle_message
get_job_status-send_job_status now meanwhile req node w m latest =
    let key = format_job_to_string req.name req.job_detail_id in
    let (status, found) =
      aline_engine.Executor.Jobs.get_job_status req.name req.job_detail_id w.executor in
    let told = convert_status (if found then status else status_notrun) in
    let m1 : Master = record m { job_status_map = insert key told m.job_status_map } in
    let known =
      get_job_status_known meanwhile req.name req.job_detail_id told node m1 latest
        (lookup-insert_self key told m.job_status_map) in
    (
      record (blank MessageType.status w) {
        status = told;
        exec_req = some (status_request req.name req.job_detail_id);
      },
      m1,
      refl,
      refl,
      (
        ap (λ p. p.0) known ∙ ap reply (told_status req.name req.job_detail_id w.executor),
        ap (λ p. lookup key p.1.job_status_map) known ∙ lookup-erase_self key m1.job_status_map,
      ),
    )

-- The master passes the status of a finished job on as the executor sent it. The last message that
-- `handleDoneJob` sends for a status message makes the master hand the same status message to its
-- hook. The status is one that `ToString` prints.
pub handle_message-handle_done_job :
    (now : ℕ) (files : Files) (msg : StatusChangeMessage) (w : Worker) (m : Master)
    → is_some (to_string msg.status) ≡ true
    → (w' : Worker) × (before : List (Option AlineMessage)) × (last : AlineMessage) × (m' : Master)
      × (handle_done_job files msg w ≡ some w')
      × (w'.send_chan ≡ before ++ some last ∷ [])
      × (handle_message now last m ≡ some m')
      × (m'.status_change_chan ≡ m.status_change_chan ++ msg ∷ [])
unfolding handle_done_job handle_message new_status_change_msg
handle_message-handle_done_job now files msg w m known =
    let key = format_job_to_string msg.job_name msg.job_id in
    let stored = record w { done_job_list = insert key tt w.done_job_list } in
    let told = if is_local w then stored else send_files files msg.job_name msg.job_id stored in
    let chan = m.status_change_chan in
    let passed = λ (s : Status). chan ++ new_status_change_msg msg.job_name msg.job_id s ∷ [] in
    (
      send_result msg.job_name msg.job_id msg.status told,
      told.send_chan,
      record (blank MessageType.result told) {
        result = some (record {
          job_name = msg.job_name;
          job_id = msg.job_id;
          job_status = msg.status;
          error = [];
        });
      },
      record m { status_change_chan = passed (int_to_status msg.status).0 },
      rw known refl,
      refl,
      refl,
      ap passed (int_to_status_known msg.status known),
    )
