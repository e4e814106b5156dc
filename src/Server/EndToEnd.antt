-- ===== src/Server/EndToEnd.antt =====
-- A request from the client library through the daemon and back. The connection carries the message
-- whole, and the answer goes to the caller that waits for it.
pub mod Authority
pub mod Values
pub mod Tests
use powerapi.Prelude.{
  ℕ, ◌%◌, ◌^◌, ◌≤◌, ◌<◌, ◌≡◌, refl, sym, ap, ◌∙◌, true, false, Option, none, some, List, [], ◌∷◌,
  ◌++◌, ltb, arith, ◌==◌, if◌then◌else◌, drop, take, length, get_or, inl, inr, Bool-cases, ==-false,
  lt→ltb,
}
use mathlib.Core.Path.{subst}
use powerapi.Codes.{success}
use powerapi.Operations.{
  com_request_control_auth, com_release_control_auth, cpu_get_info, cpu_get_perf_data,
  cpu_get_freq_range, sys_get_rt_power,
}
use powerapi.Msg.{PwrMsg, MsgFactory, create_req_msg, generate_rsp_msg}
use powerapi.Buffer.{pop_from_buffer_head, PwrMsgBuffer}
use powerapi.Buffer.Fifo
use powerapi.Buffer.Refine.{Holds, push_refines, pop_refines}
use powerapi.Clients.{no_client}
use powerapi.Auth.Holder.{holder, request, release, auth_refines}
use powerapi.Auth.{do_auth_request, do_auth_release}
use powerapi.Request.{
  Transfer, RspOutputParam, send_req_and_wait_for_rsp, no_room, input_data, complete, deliver,
  check_rsp, command, ask, send_req_msg_and_wait_for_rsp,
}
use powerapi.Request.Cpu
use powerapi.Socket.Pieces.{take_all}
use powerapi.Server.{
  Server, Layout, Luck, receive_req, filled, send_rsp_to_client, is_some, request_control_auth,
  release_control_auth,
}
use powerapi.Server.Answers.{IsAnswer, Queued, auth_requests_answered, received_under_own_id}
use powerapi.Server.Route.{
  Handler, get_cpuinfo_h, get_cpu_perf_data_h, get_cpu_freq_range_h, get_sys_rt_power_info_h, route,
  serve, process_req_msg,
}
use powerapi.Server.Running.{service_round, round_serves}

-- The message that the client library makes of a request without input.
abbrev pub created : MsgFactory → ℕ → ℕ → PwrMsg
created f opt_type task_no = filled (create_req_msg true f opt_type task_no 0 none).0

-- The message with the id of its connection.
abbrev pub marked : Server → ℕ → PwrMsg → PwrMsg
marked s i req = record req {
  head = record req.head { sys_id = (get_or s.clients i no_client).sys_id };
}

abbrev pub Rest : Type 0
Rest = Handler → Server → PwrMsg → Server

module _ (layout : Layout) (luck : Luck) (rest : Rest) where
  -- The daemon after it has received a request in slot `i` and its service thread has taken it.
  unfoldable pub serve_request : Server → ℕ → PwrMsg → Server
  unfolding receive_req service_round
  serve_request s i req = service_round layout luck rest (receive_req s i req)

  -- What `SendMsgSyn` then answers: the first message of the queue to send.
  unfoldable pub send_over : Server → ℕ → PwrMsg → ℕ × Option PwrMsg
  unfolding serve_request
  send_over s i req = (success, (pop_from_buffer_head (serve_request s i req).send_buff).0)

  -- `SendReqAndWaitForRsp` of a client that is connected in slot `i`.
  abbrev pub exchange : Server → ℕ → MsgFactory → Transfer
  exchange s i f = send_req_and_wait_for_rsp true true (send_over s i) f

  pub handled :
      (s : Server) (i : ℕ) (req : PwrMsg)
      → Holds s.recv_buff []
      → (buff : PwrMsgBuffer PwrMsg) × (serve_request s i req
          ≡ process_req_msg layout luck rest (record s { recv_buff = buff }) (marked s i req))
  unfolding serve_request receive_req Fifo.push Fifo.trim
  handled s i req h =
      let (buff, holds, run) =
        round_serves layout luck rest (receive_req s i req) (marked s i req) []
          (received_under_own_id s [] i req h) in
      (buff, run)

pub first_sent :
    (s : Server) (rsp : PwrMsg)
    → Holds s.send_buff (rsp ∷ [])
    → (pop_from_buffer_head s.send_buff).0 ≡ some rsp
unfolding Fifo.pop
first_sent s rsp h = (pop_refines s.send_buff (rsp ∷ []) h).0

-- What `SendReqAndWaitForRsp` makes of an answer, without an object for it and with one.
abbrev no_output : RspOutputParam
no_output = record { rsp_buff_size = none; rsp_data = none }

abbrev pub output : ℕ → List ℕ → RspOutputParam
output size old = record { rsp_buff_size = some size; rsp_data = some old }

completed :
    (syn : PwrMsg → ℕ × Option PwrMsg) (req rsp : PwrMsg)
    → syn req ≡ (success, some rsp)
    → (complete no_output (send_req_msg_and_wait_for_rsp true syn req)).0 ≡ rsp.head.rsp_code
unfolding complete deliver check_rsp send_req_msg_and_wait_for_rsp
completed syn req rsp e = elim (Bool-cases (rsp.head.rsp_code == 0)) [
  | inl ok ↦ rw (e, ok) (ground (arith, ok))
  | inr bad ↦ rw (e, bad) refl
]

-- An answer with a body that has room.
abbrev pub Got : ℕ → List ℕ → ℕ → List ℕ → ℕ × RspOutputParam → Type 0
Got size old code body result = result ≡ (
    if code == 0
    then (success, output (length body) (body ++ drop (length body) old))
    else (code, output size old))

completed-Got :
    (syn : PwrMsg → ℕ × Option PwrMsg) (req rsp : PwrMsg) (size : ℕ) (old body : List ℕ)
    → syn req ≡ (success, some rsp)
    → rsp.content ≡ some body
    → rsp.head.data_len ≡ length body
    → length body ≤ size
    → size < 2 ^ 31
    → Got size old rsp.head.rsp_code body
        (complete (output size old) (send_req_msg_and_wait_for_rsp true syn req))
unfolding complete deliver check_rsp send_req_msg_and_wait_for_rsp
completed-Got syn req rsp size old body e has len fits int =
    let dlen : (if ltb size (length body) then size else length body) ≡ length body =
      ground arith in
    let short : ltb (length body) (2 ^ 31) ≡ true = lt→ltb (length body) (2 ^ 31) (omega arith) in
    elim (Bool-cases (rsp.head.rsp_code == 0)) [
      | inl ok ↦ rw (e, ok, has, len, dlen, short, take_all (length body) body (omega arith)) refl
      | inr bad ↦ rw (e, bad) refl
    ]

pub command_of :
    (send_msg_syn : PwrMsg → ℕ × Option PwrMsg) (f : MsgFactory) (t opt_type : ℕ) (rsp : PwrMsg)
    → send_msg_syn (created f opt_type t) ≡ (success, some rsp)
    → command (send_req_and_wait_for_rsp true true send_msg_syn f) t opt_type ≡ rsp.head.rsp_code
unfolding command send_req_and_wait_for_rsp no_room input_data create_req_msg
command_of syn f t opt_type rsp e = completed syn (created f opt_type t) rsp e

pub ask_of :
    (send_msg_syn : PwrMsg → ℕ × Option PwrMsg) (f : MsgFactory) (t opt_type : ℕ) (rsp : PwrMsg)
    (size : ℕ) (old body : List ℕ)
    → send_msg_syn (created f opt_type t) ≡ (success, some rsp)
    → rsp.content ≡ some body
    → rsp.head.data_len ≡ length body
    → 0 < size
    → length body ≤ size
    → size < 2 ^ 31
    → Got size old rsp.head.rsp_code body
        (ask (send_req_and_wait_for_rsp true true send_msg_syn f) t opt_type size old)
unfolding ask send_req_and_wait_for_rsp no_room input_data create_req_msg
ask_of syn f t opt_type rsp size old body e has len given fits int =
    rw (==-false size 0 (omega arith))
      (completed-Got syn (created f opt_type t) rsp size old body e has len fits int)
