-- ===== src/Server.antt =====
-- The daemon's tables together, and what the service thread and the socket thread do to them:
-- pwrapis/src/server.c, with the handlers of comservice.c and taskservice.c.
-- What `malloc`, `pthread_create` and `gettimeofday` answer are arguments.
pub mod Gone
pub mod Answers
pub mod Route
pub mod Metadata
pub mod Sockets
pub mod Running
pub mod EndToEnd
pub mod SysService
pub mod Tests
use powerapi.Prelude.{
  ℕ, ◌%◌, ◌^◌, Bool, true, false, ◌&&◌, not, Option, none, some, List, [], ◌∷◌, ◌==◌, if◌then◌else◌,
  length, get_or,
}
use powerapi.Codes.{success}
use powerapi.Msg.{PwrMsg, MsgFactory, generate_rsp_msg, generate_metadata_msg, mt_req}
use powerapi.Buffer.{PwrMsgBuffer, add_to_buffer_tail}
use powerapi.Clients.{PwrClient, no_client, add_to_client_list, delete_from_client_list}
use powerapi.Auth.{Auth, do_auth_request, do_auth_release, clean_control_auth}
use powerapi.Tasks.{TaskService, BasicDcTaskInfo, Timeval}
use powerapi.Tasks.Service.{create_task, delete_task, delete_all_task_by_client}

pub record Server : Type 0 where
  pub clients : List PwrClient
  pub auth : Auth
  pub tasks : TaskService
  pub send_buff : PwrMsgBuffer PwrMsg
  pub recv_buff : PwrMsgBuffer PwrMsg

-- The first argument is the slot that the pointer points to. The threads joined and the descriptors
-- closed come last.
unfoldable pub clean_client_resource : Server → ℕ → Option ℕ → Server × List ℕ × List ℕ
clean_client_resource s pwr_client idx =
    let sys_id = (get_or s.clients pwr_client no_client).sys_id in
    let (tasks', joined) = delete_all_task_by_client s.tasks sys_id in
    let (code, clients', closed) = delete_from_client_list s.clients idx in
    (
      record s { clients = clients'; auth = clean_control_auth s.auth sys_id; tasks = tasks' },
      joined,
      closed,
    )

-- What `ReadMsg` does when the connection of a slot is lost: the pointer is `g_pwrClients`, which is
-- the first slot.
unfoldable pub connection_lost : Server → ℕ → Server × List ℕ × List ℕ
unfolding clean_client_resource
connection_lost s idx = clean_client_resource s 0 (some idx)

-- The end of `AcceptConnection`: the client that connected, and the descriptors closed.
unfoldable pub accept_client : Server → PwrClient → Server × List ℕ
accept_client s client =
    let (code, clients', closed) = add_to_client_list s.clients client in
    (record s { clients = clients' }, if code == success then closed else client.fd ∷ closed)

-- The end of `ProcessRecvMsgFromClient`: a request that has been read whole is marked with the id of
-- its connection, whatever id it claims, and queued.
unfoldable pub receive_req : Server → ℕ → PwrMsg → Server
receive_req s client_idx msg =
    let id = (get_or s.clients client_idx no_client).sys_id in
    let marked = record msg { head = record msg.head { sys_id = id } } in
    let (code, buff, freed) = add_to_buffer_tail s.recv_buff (some marked) in
    record s { recv_buff = buff }

unfoldable pub is_some : {A : Type 0} → Option A → Bool
is_some none = false
is_some (some a) = true

-- `SendRspToClient`, with `SendRspMsg`.
unfoldable pub send_rsp_to_client : Bool → Server → Option PwrMsg → ℕ → Option (List ℕ) → ℕ → Server
unfolding is_some
send_rsp_to_client malloc s none rsp_code content len = s
send_rsp_to_client malloc s (some req) rsp_code content len =
    let (ret, rsp) = generate_rsp_msg (some req) rsp_code content len in
    let (code, buff, freed) = add_to_buffer_tail s.send_buff rsp in
    if not (is_some content) && not (len == 0)
    then s
    else if malloc
    then record s { send_buff = buff }
    else s

unfoldable pub request_control_auth : Bool → Server → PwrMsg → Server
unfolding send_rsp_to_client
request_control_auth malloc s req =
    let (rsp_code, auth') = do_auth_request s.auth req.head.sys_id in
    send_rsp_to_client malloc (record s { auth = auth' }) (some req) rsp_code none 0

unfoldable pub release_control_auth : Bool → Server → PwrMsg → Server
unfolding send_rsp_to_client
release_control_auth malloc s req =
    let (rsp_code, auth') = do_auth_release s.auth req.head.sys_id in
    send_rsp_to_client malloc (record s { auth = auth' }) (some req) rsp_code none 0

-- The bytes of a payload; the handlers read them only after they have looked at the length.
abbrev pub payload : PwrMsg → List ℕ
payload req = elim req.content [ none ↦ [] | some bytes ↦ bytes ]

-- The layout of the structures that are sent, which the compiler decides: the sizes of
-- PWR_COM_BasicDcTaskInfo and PWR_COM_COL_DATATYPE, and how to read them.
pub record Layout : Type 0 where
  pub info_size : ℕ
  pub type_size : ℕ
  pub read_info : List ℕ → BasicDcTaskInfo
  pub read_type : List ℕ → ℕ

-- What the system answers while a request is handled: `malloc` for the answer, the time, `malloc`
-- for a task, and `pthread_create`.
pub record Luck : Type 0 where
  pub malloc_rsp : Bool
  pub now : Timeval
  pub malloc_task : Bool
  pub thread : Option ℕ

module _ (layout : Layout) (luck : Luck) where
  unfoldable pub create_data_coll_task : Server → PwrMsg → Server
  unfolding send_rsp_to_client
  create_data_coll_task s req =
      let (rsp_code, tasks') =
        create_task s.tasks (layout.read_info (payload req)) req.head.sys_id luck.now
          luck.malloc_task luck.thread in
      if not (req.head.data_len == layout.info_size)
      then s
      else send_rsp_to_client luck.malloc_rsp (record s { tasks = tasks' }) (some req) rsp_code none
          0

  unfoldable pub delete_data_coll_task : Server → PwrMsg → Server
  unfolding send_rsp_to_client
  delete_data_coll_task s req =
      let (rsp_code, tasks', joined) =
        delete_task s.tasks (layout.read_type (payload req)) req.head.sys_id in
      if not (req.head.data_len == layout.type_size)
      then s
      else send_rsp_to_client luck.malloc_rsp (record s { tasks = tasks' }) (some req) rsp_code none
          0

-- A message after `bzero`.
abbrev pub zero_msg : PwrMsg
zero_msg = record {
  head = record {
    major_ver = 0;
    minor_ver = 0;
    opt_type = 0;
    data_format = 0;
    msg_type = 0;
    rsp_code = 0;
    seq_id = 0;
    task_no = 0;
    crc_magic = 0;
    data_len = 0;
    sys_id = 0;
  };
  content = none;
}

-- The message as `GenerateMetadataMsg` leaves it.
abbrev pub filled : Option PwrMsg → PwrMsg
filled none = zero_msg
filled (some msg) = msg

-- `SendMetadataToClient`, with `SendMsg`. What it returns is not modelled: it has no return
-- statement at its end.
unfoldable pub send_metadata_to_client :
    Bool → Server → MsgFactory → ℕ → Option (List ℕ) → ℕ → Server × MsgFactory
unfolding is_some
send_metadata_to_client malloc s f sys_id content len =
    let (metadata, f') = generate_metadata_msg f sys_id content len in
    let (code, buff, freed) = add_to_buffer_tail s.send_buff (some (filled metadata)) in
    if not (is_some content) && not (len == 0)
    then (s, f)
    else if malloc
    then (record s { send_buff = buff }, f')
    else (s, f)
