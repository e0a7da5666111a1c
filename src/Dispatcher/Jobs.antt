-- ===== src/Dispatcher/Jobs.antt =====
-- Which node a cancellation and a status request go to.
use aline_engine.Base.{◌≡◌, [], ◌&&◌, arith, last?-snoc, if◌then◌else◌, Bool-cases, inl, inr}
use aline_engine.Base.Map.{lookup-insert}
use aline_engine.Base.Text.{Text, text_eq, text_eq_iff}
use aline_engine.Base.Int.{ℤ, int_eq, int_eq_iff}
use aline_engine.Model.Message.{Node, MessageType}
use aline_engine.Utils.Keys.{format_job_to_string}
use aline_engine.Utils.Keys.Laws.{format_job_to_string_injective}
use aline_engine.Dispatcher.{
  Dispatcher, ok, send_job, get_job_latest_node, cancel_job, cancel_job_with_node, get_job_status,
  job_message,
}

-- The keys of two jobs are equal exactly if the names and the ids are.
key_test :
    (name name' : Text) (id id' : ℤ)
    → text_eq (format_job_to_string name id) (format_job_to_string name' id')
      ≡ (text_eq name name' && int_eq id id')
key_test name name' id id' = ground (
  arith,
  text_eq_iff (format_job_to_string name id) (format_job_to_string name' id'),
  format_job_to_string_injective name name' id id',
  text_eq_iff name name',
  int_eq_iff id id',
)

pub get_job_latest_node-send_job :
    (name yaml name' : Text) (id id' : ℤ) (node : Node) (d : Dispatcher)
    → get_job_latest_node name' id' (send_job name yaml id node d).1
      ≡ (if text_eq name name' && int_eq id id' then ok node else get_job_latest_node name' id' d)
unfolding get_job_latest_node send_job
get_job_latest_node-send_job name yaml name' id id' node d =
    rw
      (
        lookup-insert (format_job_to_string name id) (format_job_to_string name' id'),
        key_test name name' id id',
      )
      (elim (Bool-cases (text_eq name name' && int_eq id id')) [
        | inl same ↦ rw same (rw last?-snoc)
        | inr other ↦ rw other
      ])

-- After a job was sent to a node, its cancellation and its status request go to that node, and
-- those of every other job, of another name or another id, go where they went before.
cancel_job-send_job :
    (name yaml name' : Text) (id id' : ℤ) (node : Node) (d : Dispatcher)
    → let same = text_eq name name' && int_eq id id' in
      let d' = (send_job name yaml id node d).1 in
      (cancel_job name' id' d'
        ≡ (if same then ok (cancel_job_with_node name' id' node) else cancel_job name' id' d))
      × (get_job_status name' id' d' ≡ (
          if same
          then ok (job_message MessageType.status name' [] id' node)
          else get_job_status name' id' d))
unfolding cancel_job get_job_status
cancel_job-send_job name yaml name' id id' node d =
    let latest = get_job_latest_node-send_job name yaml name' id id' node d in
    ground (arith, latest)
