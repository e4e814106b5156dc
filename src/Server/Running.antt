-- ===== src/Server/Running.antt =====
-- The two threads of the daemon, one round of each, and the start and the end of them:
-- `RunServerSocketProcess`, `RunServiceProcess`, `StartServer` and `StopServer`,
-- pwrapis/src/server.c. What `select`, `socket`, `setsockopt`, `bind`, `listen` and `pthread_create`
-- answer are arguments. The mutexes, and waiting for a message, are left out.
use powerapi.Prelude.{
  ℕ, zero, suc, ◌≡◌, refl, Bool, true, false, ◌&&◌, not, Option, none, some, List, [], ◌∷◌, ◌++◌,
  ◌==◌, if◌then◌else◌, get_or,
}
use powerapi.Codes.{success, err_sys_exception}
use powerapi.Msg.{PwrMsg, MsgFactory}
use powerapi.Buffer.{PwrMsgBuffer, init_pwr_msg_buffer, pop_from_buffer_head, reset_pwr_msg_buffer}
use powerapi.Buffer.Fifo
use powerapi.Buffer.Refine.{Holds, pop_refines}
use powerapi.Clients.{PwrClient, max_client_num, no_client, init_pwr_client}
use powerapi.Thread.{ThreadInfo, init_thread_info, create_thread, fini_thread_info}
use powerapi.Tasks.Service.{init_task_service, fini_task_service, fini_all_task}
use powerapi.Socket.{Recv}
use powerapi.Server.{Server, Layout, Luck}
use powerapi.Server.Route.{Handler, process_req_msg}
use powerapi.Server.Sockets.{
  MsgLayout, RecvEnd, blocked, undefined_recv, returned, process_recv_msg_from_client, stuck,
  undefined_send, done, process_send_msg_to_client, accept_connection, stop_listen,
}

-- A round of `RunServiceProcess`.
unfoldable pub service_round :
    Layout → Luck → (Handler → Server → PwrMsg → Server) → Server → Server
unfolding process_req_msg
service_round layout luck rest s =
    let (msg, buff) = pop_from_buffer_head s.recv_buff in
    let s' = record s { recv_buff = buff } in
    elim msg [ none ↦ s' | some req ↦ process_req_msg layout luck rest s' req ]

abbrev pub then_recv : RecvEnd → (Server → RecvEnd) → RecvEnd
then_recv blocked next = blocked
then_recv undefined_recv next = undefined_recv
then_recv (returned s joined closed rest) next = elim (next s) [
  | blocked ↦ blocked
  | undefined_recv ↦ undefined_recv
  | returned s' joined' closed' rest' ↦ returned s' (joined ++ joined') (closed ++ closed') rest'
]

-- What the system answers in a round of the socket thread: `send`; `select`, the descriptors that
-- are ready or `none` where it returns no positive number; `accept`; and for each slot, whether
-- there is memory for a message and for its payload, and `recv`. A free slot is tested too, under the
-- descriptor -1.
pub record Events : Type 0 where
  pub send : ℕ → ℕ → List (Option ℕ)
  pub ready : Option (ℕ → Bool)
  pub accept : Option PwrClient
  pub malloc_msg : ℕ → Bool
  pub malloc_content : ℕ → Bool
  pub recv : ℕ → List Recv

module _ (layout : MsgLayout) (events : Events) where
  -- The loop over the slots, from slot `i` on.
  unfoldable pub recv_loop : (ℕ → Bool) → ℕ → ℕ → Server → RecvEnd
  unfolding process_recv_msg_from_client
  recv_loop ready zero i s = returned s [] [] []
  recv_loop ready (suc k) i s = elim (ready (get_or s.clients i no_client).fd) [
    | false ↦ recv_loop ready k (suc i) s
    | true ↦
        then_recv
          (process_recv_msg_from_client layout (events.malloc_msg i) (events.malloc_content i) s i
            (events.recv i))
          (recv_loop ready k (suc i))
  ]

  -- What follows the call of `select`.
  unfoldable pub after_select : ℕ → Option (ℕ → Bool) → Server → RecvEnd
  unfolding recv_loop accept_connection
  after_select listen_fd none s = returned s [] [] []
  after_select listen_fd (some ready) s =
      let (s', closed) = if ready listen_fd then accept_connection events.accept s else (s, []) in
      then_recv (returned s' [] closed []) (recv_loop ready max_client_num 0)

  -- A round of `RunServerSocketProcess`.
  unfoldable pub socket_round : ℕ → Server → RecvEnd
  unfolding after_select process_send_msg_to_client
  socket_round listen_fd s = elim (process_send_msg_to_client layout events.send s) [
    | stuck ↦ blocked
    | undefined_send ↦ undefined_recv
    | done s' traffic ↦ after_select listen_fd events.ready s'
  ]

-- The daemon with its threads and the descriptor that it listens on, `none` for a negative one.
pub record Daemon : Type 0 where
  pub server : Server
  pub factory : MsgFactory
  pub service_thread : ThreadInfo
  pub sock_proc_thread : ThreadInfo
  pub listen_fd : Option ℕ

-- `ListenStart`: the code, and `g_listenFd` afterwards. The arguments tell whether `setsockopt`,
-- `bind` and `listen` succeed.
unfoldable pub listen_start : Bool → Bool → Bool → ℕ → Option ℕ → ℕ × Option ℕ
listen_start setsockopt bind listen sock_fd listen_fd =
    if setsockopt && (bind && listen)
    then (success, some sock_fd)
    else (err_sys_exception, listen_fd)

-- `StartUnxListen`, where `socket` answers a descriptor or fails.
unfoldable pub start_unx_listen : Option ℕ → Bool → Bool → Bool → Option ℕ → ℕ × Option ℕ
unfolding listen_start
start_unx_listen none setsockopt bind listen listen_fd = (err_sys_exception, listen_fd)
start_unx_listen (some fd) setsockopt bind listen listen_fd =
    listen_start setsockopt bind listen fd listen_fd

-- `StartServer`, after the process has got its id from `getpid`. The socket thread that it starts
-- clears the table of clients.
unfoldable pub start_server :
    ℕ → (Option ℕ → ℕ × Option ℕ) → Option ℕ → Option ℕ → Daemon → ℕ × Daemon
start_server pid start_listen service sock d =
    let ready = record d {
      server = record d.server { send_buff = init_pwr_msg_buffer; recv_buff = init_pwr_msg_buffer };
      factory = record d.factory { pid = pid };
      service_thread = init_thread_info;
      sock_proc_thread = init_thread_info;
    } in
    let (code, fd) = start_listen d.listen_fd in
    let listening = record ready { listen_fd = fd } in
    let (code', service') = create_thread init_thread_info service in
    let serving = record listening { service_thread = service' } in
    let (code'', sock') = create_thread init_thread_info sock in
    let s = serving.server in
    if not (code == success)
    then (err_sys_exception, listening)
    else if not (code' == success)
    then (err_sys_exception, serving)
    else if not (code'' == success)
    then (err_sys_exception, record serving { sock_proc_thread = sock' })
    else (
      success,
      record serving {
        sock_proc_thread = sock';
        server = record s { clients = init_pwr_client; tasks = init_task_service s.tasks };
      },
    )

abbrev pub reset : PwrMsgBuffer PwrMsg → PwrMsgBuffer PwrMsg
reset smb = elim (reset_pwr_msg_buffer smb) [ none ↦ smb | some r ↦ r.0 ]

-- `StopServer`: the daemon afterwards, the threads joined and the descriptors closed by it.
unfoldable pub stop_server : Daemon → Daemon × List ℕ × List ℕ
unfolding stop_listen
stop_server d =
    let (tasks', collecting) = fini_task_service d.server.tasks in
    let (sock', first) = fini_thread_info d.sock_proc_thread in
    let (service', second) = fini_thread_info d.service_thread in
    let (fd, locked, closed) = stop_listen d.listen_fd in
    (
      record d {
        server = record d.server {
          tasks = tasks';
          send_buff = reset d.server.send_buff;
          recv_buff = reset d.server.recv_buff;
        };
        service_thread = service';
        sock_proc_thread = sock';
        listen_fd = fd;
      },
      collecting ++ (first ++ second),
      closed,
    )

-- A round of the service thread takes the oldest request from the queue, and does with it what
-- `ProcessReqMsg` does.
pub round_serves :
    (layout : Layout) (luck : Luck) (rest : Handler → Server → PwrMsg → Server) (s : Server)
    (req : PwrMsg) (q : List PwrMsg)
    → Holds s.recv_buff (req ∷ q)
    → (buff : PwrMsgBuffer PwrMsg) × Holds buff q
      × (service_round layout luck rest s
          ≡ process_req_msg layout luck rest (record s { recv_buff = buff }) req)
unfolding service_round Fifo.pop
round_serves layout luck rest s req q h =
    let (is_req, holds) = pop_refines s.recv_buff (req ∷ q) h in
    ((pop_from_buffer_head s.recv_buff).1, holds, rw (service_round, is_req) refl)

-- A daemon that starts while no collection task runs listens and has both threads; stopping it then
-- joins the socket thread and the service thread, in this order and no other thread, and closes the
-- descriptor that it listened on.
pub stop_server-start_server :
    (pid fd service sock : ℕ) (d : Daemon)
    → d.server.tasks.has_inited ≡ false
    → let (code, started) =
        start_server pid (start_unx_listen (some fd) true true true) (some service) (some sock) d in
      let (stopped, joined, closed) = stop_server started in
      (code ≡ success)
      × (started.listen_fd ≡ some fd)
      × (joined ≡ sock ∷ service ∷ [])
      × (closed ≡ fd ∷ [])
      × (stopped.listen_fd ≡ none)
unfolding start_server start_unx_listen listen_start stop_listen stop_server fini_task_service
    init_task_service fini_all_task create_thread fini_thread_info
stop_server-start_server pid fd service sock d fresh = (refl, refl, rw fresh refl, refl, refl)
