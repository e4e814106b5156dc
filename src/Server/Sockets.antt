-- ===== src/Server/Sockets.antt =====
-- What the socket thread of the daemon does with its connections: `ProcessRecvMsgFromClient`,
-- `ProcessSendMsgToClient`, `AcceptConnection` and `StopListen`, pwrapis/src/server.c. What `malloc`,
-- `recv`, `send` and `accept` answer are arguments.
pub mod Receiving
pub mod Sending
pub mod Tests
use powerapi.Prelude.{
  ℕ, zero, suc, ◌+◌, ◌-◌, ◌*◌, ◌^◌, Bool, true, false, ◌&&◌, not, Option, none, some, List, [], ◌∷◌,
  ◌++◌, ◌==◌, if◌then◌else◌, ltb, leb, length, get_or, take, replicate,
}
use powerapi.Msg.{MsgHead, PwrMsg, mt_req}
use powerapi.Buffer.{is_empty_buffer, pop_from_buffer_head}
use powerapi.Clients.{PwrClient, invalid_fd, get_fd_by_sys_id, get_idx_by_fd}
use powerapi.Socket.{
  Recv, got, error, waits, lost, received, read_msg, WriteResult, stalls, astray, broken, sent,
  write_msg, pieces,
}
use powerapi.Server.{
  Server, payload, clean_client_resource, connection_lost, accept_client, receive_req,
}

-- How the structure PwrMsg is laid out, which the compiler decides: its size, its bytes, and how to
-- read its head and whether its pointer `data` is NULL.
pub record MsgLayout : Type 0 where
  pub size : ℕ
  pub bytes_of : PwrMsg → List ℕ
  pub read_head : List ℕ → MsgHead
  pub null_data : List ℕ → Bool

-- A call ends with the tables, the threads joined, the descriptors closed and the answers of `recv`
-- that it has not used, or it waits for more answers, or what it does is undefined.
pub data RecvEnd : Type 0 where
  blocked undefined_recv : RecvEnd
  returned : Server → List ℕ → List ℕ → List Recv → RecvEnd

-- The bytes that `ReadMsg` has stored when it ends.
unfoldable pub arrived : ℕ → List Recv → List ℕ
arrived zero answers = []
arrived (suc left) [] = []
arrived (suc left) (error ∷ answers) = []
arrived (suc left) (got [] ∷ answers) = []
arrived (suc left) (got (b ∷ bytes) ∷ answers) = b ∷ bytes ++ arrived (left - length bytes) answers

-- `ReleasePwrMsg` of a message that came over a connection, before its pointer is replaced: it frees
-- the address that the client sent.
abbrev pub release_received : Bool → RecvEnd → RecvEnd
release_received true next = next
release_received false next = undefined_recv

-- What is left after `ReadMsg` has lost a connection, which is closed.
abbrev pub cleaned : Server × List ℕ × List ℕ → RecvEnd
cleaned (s, joined, closed) = returned s joined closed []

module _ (layout : MsgLayout) where
  -- From the test of the type on. The length is passed to `ReadMsg` as an int, and from there to
  -- `bzero`, which takes a negative one for more than there is memory. A message of another type is
  -- released, and then read through NULL.
  unfoldable pub receive_content : Bool → Server → ℕ → List ℕ → List Recv → RecvEnd
  unfolding receive_req connection_lost
  receive_content malloc_content s client_idx bytes answers =
      let head = layout.read_head bytes in
      let null = layout.null_data bytes in
      if not (head.msg_type == mt_req)
      then undefined_recv
      else if head.data_len == 0
      then returned (receive_req s client_idx (record { head = head; content = none })) [] []
          answers
      else if not malloc_content
      then release_received null (returned s [] [] answers)
      else if leb (2 ^ 31) head.data_len
      then undefined_recv
      else elim (read_msg head.data_len answers) [
        | waits ↦ blocked
        | lost code ↦ release_received null (cleaned (connection_lost s client_idx))
        | received content rest ↦
            returned (receive_req s client_idx (record { head = head; content = some content })) []
              [] rest
      ]

  -- `ProcessRecvMsgFromClient`.
  unfoldable pub process_recv_msg_from_client : Bool → Bool → Server → ℕ → List Recv → RecvEnd
  unfolding receive_content arrived connection_lost
  process_recv_msg_from_client malloc_msg malloc_content s client_idx answers =
      let stored = take layout.size (arrived layout.size answers ++ replicate layout.size 0) in
      if not malloc_msg then returned s [] [] answers else elim (read_msg layout.size answers) [
        | waits ↦ blocked
        | lost code ↦
            release_received (layout.null_data stored) (cleaned (connection_lost s client_idx))
        | received bytes rest ↦ receive_content malloc_content s client_idx bytes rest
      ]

-- What has gone out: the descriptor and the bytes of each call of `WriteMsg`.
abbrev pub Traffic : Type 0
Traffic = List (ℕ × List ℕ)

-- A call that sends ends with the tables and what went out, or it waits for more answers, or what it
-- does is undefined.
pub data SendEnd : Type 0 where
  stuck undefined_send : SendEnd
  done : Server → Traffic → SendEnd

abbrev pub after : ℕ → List ℕ → SendEnd → SendEnd
after fd bytes stuck = stuck
after fd bytes undefined_send = undefined_send
after fd bytes (done s traffic) = done s ((fd, bytes) ∷ traffic)

-- `send n` is what `send` answers to the n-th call of `WriteMsg`, call by call. The error that
-- `WriteMsg` returns is not looked at: the next piece follows.
unfoldable pub write_pieces : (ℕ → List (Option ℕ)) → ℕ → Server → ℕ → List (List ℕ) → SendEnd
unfolding clean_client_resource write_msg
write_pieces send n s fd [] = done s []
write_pieces send n s fd (p ∷ ps) = elim (write_msg p (length p) (send n)) [
  | stalls bytes ↦ stuck
  | astray bytes ↦ undefined_send
  | broken code bytes ↦
      after fd bytes
        (write_pieces send (suc n) (clean_client_resource s 0 (get_idx_by_fd s.clients fd)).0 fd ps)
  | sent bytes rest ↦ after fd bytes (write_pieces send (suc n) s fd ps)
]

-- `COUNT_MAX`
abbrev pub count_max : ℕ
count_max = 5

abbrev pub then_send : SendEnd → (Server → SendEnd) → SendEnd
then_send stuck next = stuck
then_send undefined_send next = undefined_send
then_send (done s traffic) next = elim (next s) [
  | stuck ↦ stuck
  | undefined_send ↦ undefined_send
  | done s' more ↦ done s' (traffic ++ more)
]

module _ (layout : MsgLayout) where
  -- The buffers that are handed to `WriteMsg` for a message.
  abbrev pub buffers : PwrMsg → List (List ℕ)
  buffers msg = elim (pieces (layout.bytes_of msg) (payload msg) msg.head.data_len) [
    | none ↦ []
    | some ps ↦ ps
  ]

  -- `send k n` is what `send` answers to the n-th call for the message popped when `k` more may be.
  unfoldable pub send_msg : (ℕ → List (Option ℕ)) → Server → Option PwrMsg → SendEnd
  unfolding write_pieces
  send_msg send s none = done s []
  send_msg send s (some msg) =
      let dst_fd = get_fd_by_sys_id s.clients msg.head.sys_id in
      if dst_fd == invalid_fd then done s [] else write_pieces send 0 s dst_fd (buffers msg)

  -- The loop of `ProcessSendMsgToClient`, which may pop so many messages more.
  unfoldable pub send_queue : (ℕ → ℕ → List (Option ℕ)) → ℕ → Server → SendEnd
  unfolding send_msg
  send_queue send zero s = done s []
  send_queue send (suc k) s =
      let (msg, buff) = pop_from_buffer_head s.send_buff in
      let first = send_msg (send k) (record s { send_buff = buff }) msg in
      if is_empty_buffer s.send_buff then done s [] else then_send first (send_queue send k)

  unfoldable pub process_send_msg_to_client : (ℕ → ℕ → List (Option ℕ)) → Server → SendEnd
  unfolding send_queue
  process_send_msg_to_client send = send_queue send count_max

-- `AcceptConnection`: `accept` answers a descriptor and the id that the address of the client ends
-- with, or fails. The descriptors closed come last.
unfoldable pub accept_connection : Option PwrClient → Server → Server × List ℕ
unfolding accept_client
accept_connection none s = (s, [])
accept_connection (some client) s = accept_client s client

-- `StopListen`, with `g_listenFd` and whether `g_listenFdLock` is held when it returns: the descriptor
-- afterwards, the lock, and the descriptor closed. `none` is a negative descriptor.
unfoldable pub stop_listen : Option ℕ → Option ℕ × Bool × List ℕ
stop_listen none = (none, true, [])
stop_listen (some fd) = (none, false, fd ∷ [])
