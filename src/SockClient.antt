-- ===== src/SockClient.antt =====
-- The socket of the client library, pwrapic/src/sockclient.c: a caller that waits for its answer,
-- and what the socket thread does with the messages that it sends and receives.
-- The descriptor is `none` for INVALID_FD. Addresses of nodes are those of Waiting; what malloc and
-- the system answer is an argument. A result is `none` where a walk over the list of waiting
-- messages has no fuel left.
pub mod Members
pub mod Steps
pub mod Own
pub mod Tests
pub mod Sending
pub mod Answers
use mathlib.Core.Option
use powerapi.Prelude.{
  ℕ, zero, suc, Bool, true, false, ◌&&◌, ◌||◌, not, Option, none, some, List, [], ◌∷◌, ◌++◌, ◌==◌,
  if◌then◌else◌, ltb,
}
use powerapi.Prelude.Int.{ℤ, pos, negsuc}
use powerapi.Codes.{success, err_null_pointer, err_sys_exception, err_disconnected, err_timeout}
use powerapi.Msg.{PwrMsg, mt_rsp, clone_pwr_msg}
use powerapi.Operations.{com_callback_data}
use powerapi.Buffer.{
  PwrMsgBuffer, add_to_buffer_tail, is_empty_buffer, pop_from_buffer_head, released,
}
use powerapi.Waiting.{
  Node, WaitList, update, set_rsp, new_node, deref, ◌>>=◌, add_to_waiting_list_tail,
  find_and_move_waiting_msg, move_out_waiting_msg, release_result_waiting_msg_node,
}

-- The globals that callers and the socket thread share.
pub record SockClient : Type 0 where
  pub sock_fd : Option ℕ
  pub send_buff : PwrMsgBuffer PwrMsg
  pub wait_list : WaitList

-- `DoRspToWaitingMsg`; that it signals the node's condition is left out.
unfoldable pub do_rsp_to_waiting_msg : ℕ → ℕ
do_rsp_to_waiting_msg node = if node == 0 then err_null_pointer else success

-- What is done with an answer and the node taken out for it: the list afterwards, and the messages
-- freed.
unfoldable pub hand_over : PwrMsg → Option ℕ → WaitList → WaitList × List PwrMsg
unfolding do_rsp_to_waiting_msg
hand_over rsp none w = (w, rsp ∷ [])
hand_over rsp (some node) w = (
  record w { cells = set_rsp w.cells node (some rsp) },
  if do_rsp_to_waiting_msg node == success then [] else rsp ∷ [],
)

unfoldable pub process_rsp_msg : ℕ → WaitList → PwrMsg → Option (WaitList × List PwrMsg)
unfolding hand_over
process_rsp_msg fuel w rsp =
    Option.map (λ r. hand_over rsp r.0 r.1) (find_and_move_waiting_msg fuel w rsp.head.seq_id)

-- How the first part of `SendMsgSyn`, up to the wait, ends: it returns a code, it returns -1, or
-- the caller waits on a node.
pub data Begun : Type 0 where
  refused : ℕ → Begun
  minus_one : Begun
  waiting : ℕ → Begun

-- `CreateResultWaitingMsgNode` and the store of the request, at the address that `malloc` answers.
unfoldable pub enter_wait : WaitList → ℕ → PwrMsg → WaitList
enter_wait w node req =
    add_to_waiting_list_tail
      (record w { cells = update w.cells node (record new_node { req_msg = some req }) }) node

-- The copy is in the ring; now the node is made.
unfoldable pub begin_wait : ℕ → SockClient → PwrMsg → List PwrMsg → Begun × SockClient × List PwrMsg
unfolding enter_wait
begin_wait node s req freed =
    if node == 0
    then (refused err_sys_exception, s, freed ++ req ∷ [])
    else (waiting node, record s { wait_list = enter_wait s.wait_list node req }, freed)

-- Whether `rsp` is not NULL, what `malloc` answers for the copy and its payload, and for the node, 0
-- for NULL. The messages freed come last.
unfoldable pub begin_send :
    Bool → Bool → Bool → ℕ → SockClient → Option PwrMsg → Begun × SockClient × List PwrMsg
unfolding begin_wait
begin_send has_rsp m d node s none = (refused err_null_pointer, s, [])
begin_send false m d node s (some req) = (refused err_null_pointer, s, [])
begin_send true m d node s (some req) = elim s.sock_fd [
  | none ↦ (refused err_disconnected, s, [])
  | some fd ↦ elim (clone_pwr_msg m d (some req)) [
    | none ↦ (minus_one, s, [])
    | some copy ↦
        let (code, buff, freed) = add_to_buffer_tail s.send_buff (some copy) in
        begin_wait node (record s { send_buff = buff }) req freed
  ]
]

-- `node->reqMsg = NULL; node->rspMsg = NULL; ReleaseResultWaitingMsgNode(node);`
unfoldable pub let_go : WaitList → ℕ → WaitList
let_go w node =
    let cells = update w.cells node (record (w.cells node) { req_msg = none; rsp_msg = none }) in
    record w { cells = (release_result_waiting_msg_node cells node).0 }

-- The rest of `SendMsgSyn`, which returns SUCCESS in any case, from the code of
-- `WaitingForResponse`: what `*rsp` is afterwards, and the list.
unfoldable pub end_send : ℕ → WaitList → ℕ → ℕ → Option (Option PwrMsg × WaitList)
unfolding let_go
end_send fuel w node ret = do
  w' ← if ret == success then some w else move_out_waiting_msg fuel w node
  some ((w'.cells node).rsp_msg, let_go w' node)

-- `WaitingForResponse`, from what pthread_cond_timedwait answers, where `timed_out` is ETIMEDOUT.
unfoldable pub waiting_for_response : ℕ → ℕ → ℕ
waiting_for_response timed_out ret =
    if ret == timed_out then err_timeout else if ret == 0 then success else err_sys_exception

-- What becomes of a message that is no answer: it is dropped, its payload goes to the program's
-- function, or the call goes through a pointer that is NULL.
pub data Callback : Type 0 where
  dropped calls_null : Callback
  called : List ℕ → Callback

-- `size` is sizeof(PWR_COM_CallbackData), and `data_len_of` reads its field dataLen.
unfoldable pub do_data_callback : ℕ → (List ℕ → ℤ) → Bool → PwrMsg → Callback
do_data_callback size data_len_of has_callback msg =
    let bytes : List ℕ = elim msg.content [ none ↦ [] | some l ↦ l ] in
    if ltb msg.head.data_len size then dropped else elim (data_len_of bytes) [
      | negsuc n ↦ dropped
      | pos n ↦ if n == 0 then dropped else if has_callback then called bytes else calls_null
    ]

unfoldable pub process_other_msg : ℕ → (List ℕ → ℤ) → Bool → PwrMsg → Callback
unfolding do_data_callback
process_other_msg size data_len_of has_callback msg =
    if msg.head.opt_type == com_callback_data
    then do_data_callback size data_len_of has_callback msg
    else dropped

-- The end of `RecvMsgFromSocket`: whether the message is an answer decides.
pub data Received : Type 0 where
  answer : WaitList → List PwrMsg → Received
  other : Callback → Received

unfoldable pub dispatch : ℕ → ℕ → (List ℕ → ℤ) → Bool → WaitList → PwrMsg → Option Received
unfolding process_rsp_msg process_other_msg
dispatch fuel size data_len_of has_callback w msg =
    if msg.head.msg_type == mt_rsp
    then Option.map (λ r. answer r.0 r.1) (process_rsp_msg fuel w msg)
    else some (other (process_other_msg size data_len_of has_callback msg))

-- The messages that one call of `SendMsgToSocket` takes from the ring, in the order in which they
-- are written; `rounds` are left of MAX_PROC_NUM_IN_ONE_LOOP.
unfoldable pub send_loop : {A : Type 0} → ℕ → PwrMsgBuffer A → List A × PwrMsgBuffer A
send_loop zero buff = ([], buff)
send_loop (suc rounds) buff =
    let (msg, buff') = pop_from_buffer_head buff in
    let rest = send_loop rounds buff' in
    if is_empty_buffer buff then ([], buff) else (released msg ++ rest.0, rest.1)

abbrev pub max_proc_num_in_one_loop : ℕ
max_proc_num_in_one_loop = 5

unfoldable pub send_msg_to_socket : {A : Type 0} → PwrMsgBuffer A → List A × PwrMsgBuffer A
unfolding send_loop
send_msg_to_socket buff = send_loop max_proc_num_in_one_loop buff
