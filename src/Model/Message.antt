-- ===== src/Model/Message.antt =====
-- model/node.go, model/message.go, model/error.go and the messages that grpc/api generates from
-- its .proto file. A pointer field is an `Option`.
use aline_engine.Base.{ℕ, Option}
use aline_engine.Base.Int.{ℤ}
use aline_engine.Base.Text.{Text}
use aline_engine.Model.Status.{Status, JobStatus}

pub record Node : Type 0 where
  pub name : Text
  pub address : Text

-- The numbers of the enum; `unknown` is any other value on the wire.
pub data MessageType : Type 0 where
  register unregister heartbeat execute cancel result log error file status : MessageType
  unknown : ℕ → MessageType

-- `int32(msg.Type)`
abbrev pub type_number : MessageType → ℕ
type_number register = 0
type_number unregister = 1
type_number heartbeat = 2
type_number execute = 3
type_number cancel = 4
type_number result = 5
type_number log = 6
type_number error = 7
type_number file = 8
type_number status = 9
type_number (unknown n) = n

pub record ExecuteReq : Type 0 where
  pub name : Text
  pub pipeline_file : Text
  pub job_detail_id : ℤ

pub record ExecuteResult : Type 0 where
  pub job_name : Text
  pub job_id : ℤ
  pub job_status : ℤ
  pub error : Text

pub record File : Type 0 where
  pub path : Text
  pub content : Text

pub record AlineMessage : Type 0 where
  pub type : MessageType
  pub name : Text
  pub address : Text
  pub exec_req : Option ExecuteReq
  pub result : Option ExecuteResult
  pub log : Text
  pub error : Text
  pub file : Option File
  pub status : JobStatus

pub data Command : Type 0 where
  command_start command_stop : Command

pub record QueueMessage : Type 0 where
  pub job_name : Text
  pub job_id : ℤ
  pub job_content : Text
  pub command : Command

unfoldable pub new_start_queue_msg : Text → Text → ℤ → QueueMessage
new_start_queue_msg name content id = record {
  job_name = name;
  job_id = id;
  job_content = content;
  command = command_start;
}

unfoldable pub new_stop_queue_msg : Text → Text → ℤ → QueueMessage
new_stop_queue_msg name content id = record {
  job_name = name;
  job_id = id;
  job_content = content;
  command = command_stop;
}

pub record StatusChangeMessage : Type 0 where
  pub job_name : Text
  pub job_id : ℤ
  pub status : Status

unfoldable pub new_status_change_msg : Text → ℤ → Status → StatusChangeMessage
new_status_change_msg name id s = record { job_name = name; job_id = id; status = s }

-- Which node failed, and which job it was to run; without the text of the error.
pub record SendJobError : Type 0 where
  pub error_node : Text
  pub job_name : Text
  pub job_id : ℤ
