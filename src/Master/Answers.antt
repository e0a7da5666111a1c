-- ===== src/Master/Answers.antt =====
-- What the master does with the messages of workers.
use aline_engine.Base.{ℕ, ◌≡◌, ◌≢◌, refl, Option, none, some, arith}
use aline_engine.Base.Text.{Text}
use aline_engine.Dispatcher.{Dispatcher, Result, ok, err, panic, register, unregister, ping}
use aline_engine.Dispatcher.Invariant.{IsValid, register-IsValid, ping-IsValid}
use aline_engine.Dispatcher.Run.{unregister-Keeps, Keeps}
use aline_engine.Master.Engine.{
  Master, with_dispatch, handle_result, handle_log, handle_file, handle_status, handle_message,
}
use aline_engine.Model.Message.{Node, MessageType, AlineMessage, ExecuteReq, ExecuteResult, File}
use aline_engine.Model.Status.{JobStatus}

-- A message has the part that its type speaks of.
abbrev pub IsWhole : AlineMessage → Type 0
IsWhole msg = elim msg.type [
  | MessageType.register ↦ Unit
  | MessageType.unregister ↦ Unit
  | MessageType.heartbeat ↦ Unit
  | MessageType.execute ↦ Unit
  | MessageType.cancel ↦ Unit
  | MessageType.result ↦ msg.result ≢ none
  | MessageType.log ↦ msg.exec_req ≢ none
  | MessageType.error ↦ Unit
  | MessageType.file ↦ msg.file ≢ none
  | MessageType.status ↦ msg.exec_req ≢ none
  | MessageType.unknown n ↦ Unit
]

-- The master goes on with a valid dispatcher.
abbrev pub Continues : Option Master → Type 0
Continues o = (m : Master) × (o ≡ some m) × IsValid m.dispatch

with_dispatch-Continues :
    {A : Type 0} (r : Result A × Dispatcher) (m : Master) → Keeps r → Continues (with_dispatch r m)
with_dispatch-Continues (ok a, d) m k = (record m { dispatch = d }, refl, k.0)
with_dispatch-Continues (err e, d) m k = (record m { dispatch = d }, refl, k.0)
with_dispatch-Continues (panic, d) m k = absurd (k.1 refl)

handle_result-Continues :
    (r : Option ExecuteResult) (m : Master)
    → r ≢ none
    → IsValid m.dispatch
    → Continues (handle_result r m)
handle_result-Continues none m h v = absurd (h refl)
handle_result-Continues (some r) m h v = (_, refl, v)

handle_log-Continues :
    (req : Option ExecuteReq) (log : Text) (m : Master)
    → req ≢ none
    → IsValid m.dispatch
    → Continues (handle_log req log m)
handle_log-Continues none log m h v = absurd (h refl)
handle_log-Continues (some req) log m h v = (_, refl, v)

handle_file-Continues :
    (f : Option File) (m : Master) → f ≢ none → IsValid m.dispatch → Continues (handle_file f m)
handle_file-Continues none m h v = absurd (h refl)
handle_file-Continues (some f) m h v = (_, refl, v)

handle_status-Continues :
    (req : Option ExecuteReq) (s : JobStatus) (m : Master)
    → req ≢ none
    → IsValid m.dispatch
    → Continues (handle_status req s m)
handle_status-Continues none s m h v = absurd (h refl)
handle_status-Continues (some req) s m h v = (_, refl, v)

-- No message of a worker makes the master panic, if the message has the part that its type speaks
-- of: a result, a job or a file. The dispatcher stays valid.
pub handle_message-Continues :
    (now : ℕ) (msg : AlineMessage) (m : Master)
    → IsWhole msg
    → IsValid m.dispatch
    → Continues (handle_message now msg m)
unfolding handle_message
handle_message-Continues now msg m whole v =
    let node : Node = record { name = msg.name; address = msg.address } in
    elim msg.type
        as (λ t.
          IsWhole (record msg { type = t })
          → Continues (handle_message now (record msg { type = t }) m)) [
            | MessageType.register ↦ λ h.
                with_dispatch-Continues (register now node m.dispatch) m
                  (register-IsValid now node m.dispatch v, unfold register in ground arith)
            | MessageType.unregister ↦ λ h.
                with_dispatch-Continues (unregister node m.dispatch) m
                  (unregister-Keeps node m.dispatch v)
            | MessageType.heartbeat ↦ λ h.
                with_dispatch-Continues (ping now node m.dispatch) m
                  (ping-IsValid now node m.dispatch v, unfold ping in ground arith)
            | MessageType.execute ↦ λ h. (m, refl, v)
            | MessageType.cancel ↦ λ h. (m, refl, v)
            | MessageType.result ↦ λ h. handle_result-Continues msg.result m h v
            | MessageType.log ↦ λ h. handle_log-Continues msg.exec_req msg.log m h v
            | MessageType.error ↦ λ h. (m, refl, v)
            | MessageType.file ↦ λ h. handle_file-Continues msg.file m h v
            | MessageType.status ↦ λ h. handle_status-Continues msg.exec_req msg.status m h v
            | MessageType.unknown n ↦ λ h. (m, refl, v)
          ]
      whole
