-- ===== src/Client.antt =====
-- grpc/client/aline_grpc_client.go `AlineGrpcClient`: the two goroutines of `handleMessage`, one round
-- each. Its channels are the lists of what waits in them, `sent` lists what the stream has taken, and
-- the stream's answers are arguments. A nil message, which the worker can send, is `none`.
use aline_engine.Base.{Bool, true, Option, none, some, List, [], ◌∷◌, ◌++◌}
use aline_engine.Base.Text.{Text}
use aline_engine.Model.Message.{AlineMessage}

pub record Client : Type 0 where
  pub recv_msg_chan : List AlineMessage
  pub send_msg_chan : List (Option AlineMessage)
  pub error_chan : List Text
  pub sent : List (Option AlineMessage)
  pub closed : Bool

-- What a goroutine does next.
pub data Round : Type 0 where
  continues ends panics : Round

abbrev pub put_error : Text → Client → Client
put_error e c = record c { error_chan = c.error_chan ++ (e ∷ []) }

abbrev pub send_one :
    (Option AlineMessage → Option Text) → List (Option AlineMessage) → Client → Round × Client
send_one send [] c = (continues, c)
send_one send (msg ∷ msgs) c = elim (send msg) [
  | none ↦ (continues, record c { send_msg_chan = msgs; sent = c.sent ++ (msg ∷ []) })
  | some e ↦ (panics, put_error e (record c { send_msg_chan = msgs }))
]

-- A round of the goroutine that sends; it waits while there is no message, and an error of the stream
-- ends the program.
unfoldable pub send_round : (Option AlineMessage → Option Text) → Client → Round × Client
send_round send c = send_one send c.send_msg_chan c

-- What `stream.Recv` returns.
pub data Received : Type 0 where
  message : AlineMessage → Received
  eof : Received
  recv_error : Text → Received

-- A round of the goroutine that receives.
unfoldable pub recv_round : Received → Client → Round × Client
recv_round (message msg) c = (continues, record c { recv_msg_chan = c.recv_msg_chan ++ (msg ∷ []) })
recv_round eof c = (ends, record c { closed = true })
recv_round (recv_error e) c = (ends, put_error e c)
