-- ===== src/Master/Server.antt =====
-- grpc/server/aline_grpc_server.go `AlineGrpcServer`. A stream is a number. Its channels are the
-- lists of the messages that wait in them, and `delivered` lists what the streams have taken.
-- Whether a stream takes a message is an argument, and `none` is the panic on a nil pointer.
use aline_engine.Base.{ℕ, Option, none, some, List, [], ◌∷◌, ◌++◌, ◌==◌, if◌then◌else◌}
use aline_engine.Base.Map.{Map, lookup, insert, erase}
use aline_engine.Base.Text.{Text}
use aline_engine.Model.Message.{AlineMessage, ExecuteReq, SendJobError, type_number}
use aline_engine.Utils.Keys.{get_node_key}

pub data ServerError : Type 0 where
  job_not_sent : SendJobError → ServerError
  not_sent : Text → ServerError

pub record Server : Type 0 where
  pub recv_chan : List AlineMessage
  pub send_chan : List AlineMessage
  pub conns : Map ℕ
  pub error_chan : List ServerError
  pub delivered : List (ℕ × AlineMessage)

abbrev pub message_key : AlineMessage → Text
message_key msg = get_node_key msg.name msg.address

-- One message from a stream in `AlineChat`.
unfoldable pub receive : ℕ → AlineMessage → Server → Server
receive stream msg s = record s {
  conns = insert (message_key msg) stream s.conns;
  recv_chan = s.recv_chan ++ (msg ∷ []);
}

-- The walk ends at the first entry of the stream.
pub delete_first : ℕ → Map ℕ → Map ℕ → Map ℕ
delete_first stream [] conns = conns
delete_first stream ((key, value) ∷ visited) conns =
    if value == stream then erase key conns else delete_first stream visited conns

-- `order` is the order in which `Range` visits the entries.
unfoldable pub delete_stream : (Map ℕ → Map ℕ) → ℕ → Server → Server
unfolding delete_first
delete_stream order stream s = record s { conns = delete_first stream (order s.conns) s.conns }

abbrev put_error : ServerError → Server → Server
put_error e s = record s { error_chan = s.error_chan ++ (e ∷ []) }

-- The `SendJobError` of a message.
abbrev pub job_error : AlineMessage → Option ExecuteReq → Server → Option Server
job_error msg none s = none
job_error msg (some req) s = some (
    put_error
      (job_not_sent
        (record { error_node = message_key msg; job_name = req.name; job_id = req.job_detail_id }))
      s)

abbrev after_send : Option Text → ℕ → AlineMessage → Server → Option Server
after_send none stream msg s = some (record s { delivered = s.delivered ++ ((stream, msg) ∷ []) })
after_send (some e) stream msg s =
    if type_number msg.type == 4
    then job_error msg msg.exec_req s
    else some (put_error (not_sent e) s)

-- The body of the loop that sends, for a message that it took from the channel. `take` is what
-- `Send` of a stream returns.
unfoldable pub send_message :
    (ℕ → AlineMessage → Option Text) → AlineMessage → Server → Option Server
send_message take msg s = elim (lookup (message_key msg) s.conns) [
  | none ↦ if type_number msg.type == 4 then job_error msg msg.exec_req s else some s
  | some stream ↦ after_send (take stream msg) stream msg s
]

-- One round of that loop; it waits while the channel is empty.
abbrev pub send_first :
    (ℕ → AlineMessage → Option Text) → List AlineMessage → Server → Option Server
send_first take [] s = some s
send_first take (msg ∷ msgs) s = send_message take msg (record s { send_chan = msgs })

unfoldable pub send_next : (ℕ → AlineMessage → Option Text) → Server → Option Server
send_next take s = send_first take s.send_chan s
