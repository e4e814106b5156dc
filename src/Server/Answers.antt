-- ===== src/Server/Answers.antt =====
-- Each request of a client is answered once, to the client that its connection belongs to.
use powerapi.Prelude.{
  ℕ, ◌%◌, ◌^◌, ◌≡◌, refl, true, none, some, List, arith, ◌==◌, get_or, inl, inr, Option-cases,
}
use mathlib.Core.Path.{subst}
use powerapi.Codes.{success}
use powerapi.Msg.{PwrMsg, mt_rsp, generate_rsp_msg}
use powerapi.Buffer.Fifo
use powerapi.Buffer.Refine.{Holds, push_refines}
use powerapi.Clients.{no_client}
use powerapi.Auth.{do_auth_request, do_auth_release}
use powerapi.Tasks.{TaskService, find_coll_task_by_type}
use powerapi.Tasks.Service.{create_task, delete_task}
use powerapi.Server.{
  Server, Layout, Luck, payload, send_rsp_to_client, request_control_auth, release_control_auth,
  create_data_coll_task, delete_data_coll_task, receive_req, is_some,
}

-- An answer to the request, with the code.
pub record IsAnswer (req rsp : PwrMsg) (code : ℕ) : Type 0 where
  pub seq_id : rsp.head.seq_id ≡ req.head.seq_id
  pub sys_id : rsp.head.sys_id ≡ req.head.sys_id
  pub opt_type : rsp.head.opt_type ≡ req.head.opt_type
  pub msg_type : rsp.head.msg_type ≡ mt_rsp
  pub rsp_code : rsp.head.rsp_code ≡ code % 2 ^ 16
  pub empty : rsp.content ≡ none

delete_task-code :
    (t : TaskService) (data_type sys_id : ℕ) → (delete_task t data_type sys_id).0 ≡ success
unfolding delete_task
delete_task-code t data_type sys_id = elim (Option-cases (find_coll_task_by_type t data_type)) [
  | inl missing ↦ rw (missing, delete_task) refl
  | inr (i, found) ↦ rw (found, delete_task) refl
]

-- The queue of messages to send has one more, an answer to the request with the code.
abbrev pub Queued : Server → List PwrMsg → PwrMsg → ℕ → Type 0
Queued s' q req code =
    (rsp : PwrMsg) × IsAnswer req rsp code × Holds s'.send_buff (Fifo.push q rsp).0

pub send_rsp-Queued :
    (s : Server) (q : List PwrMsg) (req : PwrMsg) (code : ℕ)
    → Holds s.send_buff q
    → Queued (send_rsp_to_client true s (some req) code none 0) q req code
unfolding send_rsp_to_client generate_rsp_msg is_some
send_rsp-Queued s q req code h = (
  _,
  record {
    seq_id = refl;
    sys_id = refl;
    opt_type = refl;
    msg_type = refl;
    rsp_code = refl;
    empty = refl;
  },
  (push_refines s.send_buff q _ h).1,
)

-- If there is memory for the answer, a request for the control authority and a request to release
-- it are each answered by exactly one message, under the request's sequence number, to the client
-- that asked, with the code of the operation.
pub auth_requests_answered :
    (s : Server) (q : List PwrMsg) (req : PwrMsg)
    → Holds s.send_buff q
    → Queued (request_control_auth true s req) q req (do_auth_request s.auth req.head.sys_id).0
      × Queued (release_control_auth true s req) q req (do_auth_release s.auth req.head.sys_id).0
unfolding request_control_auth release_control_auth
auth_requests_answered s q req h =
    let asked = do_auth_request s.auth req.head.sys_id in
    let given_up = do_auth_release s.auth req.head.sys_id in
    (
      send_rsp-Queued (record s { auth = asked.1 }) q req asked.0 h,
      send_rsp-Queued (record s { auth = given_up.1 }) q req given_up.0 h,
    )

-- If there is memory for the answer, a request to create a collection task that has the right
-- length is answered by exactly one message, under the request's sequence number, to the client that
-- asked, with the code of `CreateTask`.
pub create_request_answered :
    (layout : Layout) (luck : Luck) (s : Server) (q : List PwrMsg) (req : PwrMsg)
    → luck.malloc_rsp ≡ true
    → Holds s.send_buff q
    → req.head.data_len ≡ layout.info_size
    → Queued
        (create_data_coll_task layout luck s req)
        q
        req
        (create_task s.tasks
          (layout.read_info (payload req))
          req.head.sys_id
          luck.now
          luck.malloc_task
          luck.thread).0
unfolding create_data_coll_task
create_request_answered layout luck s q req memory h fits =
    let same : (req.head.data_len == layout.info_size) ≡ true = ground (arith, fits) in
    let done =
      create_task s.tasks (layout.read_info (payload req)) req.head.sys_id luck.now luck.malloc_task
        luck.thread in
    rw (memory, same) (send_rsp-Queued (record s { tasks = done.1 }) q req done.0 h)

-- If there is memory for the answer, a request to delete a collection task that has the right
-- length is answered by exactly one message, under the request's sequence number, to the client that
-- asked, with success.
pub delete_request_answered :
    (layout : Layout) (luck : Luck) (s : Server) (q : List PwrMsg) (req : PwrMsg)
    → luck.malloc_rsp ≡ true
    → Holds s.send_buff q
    → req.head.data_len ≡ layout.type_size
    → Queued (delete_data_coll_task layout luck s req) q req success
unfolding delete_data_coll_task
delete_request_answered layout luck s q req memory h fits =
    let same : (req.head.data_len == layout.type_size) ≡ true = ground (arith, fits) in
    let code = delete_task-code s.tasks (layout.read_type (payload req)) req.head.sys_id in
    let done = delete_task s.tasks (layout.read_type (payload req)) req.head.sys_id in
    rw (memory, same)
      (subst
        (λ c.
          Queued (send_rsp_to_client true (record s { tasks = done.1 }) (some req) done.0 none 0) q
            req c)
        code (send_rsp-Queued (record s { tasks = done.1 }) q req done.0 h))

-- A request that is read from a connection is queued under the id of that connection, whatever id it
-- claims, with the rest of its head and its payload as they came.
pub received_under_own_id :
    (s : Server) (q : List PwrMsg) (i : ℕ) (msg : PwrMsg)
    → Holds s.recv_buff q
    → Holds
        (receive_req s i msg).recv_buff
        (Fifo.push q (record msg {
          head = record msg.head { sys_id = (get_or s.clients i no_client).sys_id };
        })).0
unfolding receive_req
received_under_own_id s q i msg h = (push_refines s.recv_buff q _ h).1
