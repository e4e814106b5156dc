-- ===== src/Request.antt =====
-- Requests from the client's side: `SendReqAndWaitForRsp` and `SendReqMsgAndWaitForRsp` of
-- pwrapic/src/sockclient.c, and the functions that call it.
-- An object that is sent or received is the list of its bytes. What `SendMsgSyn` answers, which
-- puts the message on the wire and waits, is an argument: a code and the answer, `none` where the
-- pointer stays NULL. `malloc` succeeds for the copy of the input, which the source does not test.
pub mod Cpu
pub mod Devices
pub mod Net
pub mod Reply
pub mod Tests
use powerapi.Prelude.{
  ℕ, ◌+◌, ◌-◌, ◌%◌, ◌^◌, Bool, true, false, ◌&&◌, not, Option, none, some, List, [], ◌++◌, ◌==◌,
  if◌then◌else◌, ltb, take, drop, length,
}
use powerapi.Codes.{
  success, err_common, err_sys_exception, err_invalide_param, err_disconnected,
  err_wrong_response_from_server,
}
use powerapi.Msg.{PwrMsg, MsgFactory, create_req_msg}

-- `taskNo` is never set by a caller: it holds what stood in its place on the stack.
pub record ReqInputParam : Type 0 where
  pub opt_type : ℕ
  pub task_no : ℕ
  pub data_len : ℕ
  pub content : Option (List ℕ)

-- What the two pointers point to, `none` where one is NULL.
pub record RspOutputParam : Type 0 where
  pub rsp_buff_size : Option ℕ
  pub rsp_data : Option (List ℕ)

-- What `SendReqMsgAndWaitForRsp` returns: an error, or success and the answer.
pub data Answer : Type 0 where
  failed : ℕ → Answer
  answered : PwrMsg → Answer

-- The last test of `SendReqMsgAndWaitForRsp`.
unfoldable pub check_rsp : Option PwrMsg → Answer
check_rsp none = failed err_common
check_rsp (some rsp) =
    if rsp.head.rsp_code == success then answered rsp else failed rsp.head.rsp_code

-- Whether the socket is open comes first.
unfoldable pub send_req_msg_and_wait_for_rsp : Bool → (PwrMsg → ℕ × Option PwrMsg) → PwrMsg → Answer
unfolding check_rsp
send_req_msg_and_wait_for_rsp false send_msg_syn req = failed err_disconnected
send_req_msg_and_wait_for_rsp true send_msg_syn req =
    let (ret, rsp) = send_msg_syn req in
    if ret == success then check_rsp rsp else failed err_sys_exception

-- `output.rspData && (!output.rspBuffSize || *output.rspBuffSize == 0)`
unfoldable pub no_room : RspOutputParam → Bool
no_room output = elim output.rsp_data [
  | none ↦ false
  | some bytes ↦ elim output.rsp_buff_size [ none ↦ true | some size ↦ size == 0 ]
]

-- The copy of the input that becomes the payload.
unfoldable pub input_data : ReqInputParam → Option (List ℕ)
input_data input = elim input.content [
  | none ↦ none
  | some bytes ↦ if input.data_len == 0 then none else some (take input.data_len bytes)
]

-- How much of an answer is to be copied, both unsigned 32-bit numbers.
abbrev pub copied : ℕ → ℕ → ℕ
copied src_size data_len = if ltb src_size data_len then src_size else data_len

-- What `memcpy` makes of that: it is kept in an int, and one that is negative becomes, as a size_t,
-- more than there is memory.
abbrev pub as_size : ℕ → ℕ
as_size dlen = if ltb dlen (2 ^ 31) then dlen else 2 ^ 64 - 2 ^ 32 + dlen

-- What is done with the answer: the code, and what the output points to afterwards. A size that is
-- NULL has been refused before. Where the copy goes past the end of the answer and of the object, which
-- is undefined, all bytes of the answer are taken for the object, which is then no longer as long as
-- before.
unfoldable pub deliver : RspOutputParam → PwrMsg → ℕ × RspOutputParam
deliver output rsp = elim output.rsp_data [
  | none ↦ (success, output)
  | some old ↦ elim output.rsp_buff_size [
    | none ↦ (err_invalide_param, output)
    | some src_size ↦ elim rsp.content [
      | none ↦ (err_wrong_response_from_server, output)
      | some bytes ↦
          let dlen = copied src_size rsp.head.data_len in
          (
            success,
            record {
              rsp_buff_size = some dlen;
              rsp_data = some (take (as_size dlen) bytes ++ drop (as_size dlen) old);
            },
          )
    ]
  ]
]

unfoldable pub complete : RspOutputParam → Answer → ℕ × RspOutputParam
unfolding deliver
complete output (failed ret) = (ret, output)
complete output (answered rsp) = deliver output rsp

-- Whether `malloc` succeeds in `CreateReqMsg`, whether the socket is open, and `SendMsgSyn`.
unfoldable pub send_req_and_wait_for_rsp :
    Bool
    → Bool
    → (PwrMsg → ℕ × Option PwrMsg)
    → MsgFactory
    → ReqInputParam
    → RspOutputParam
    → ℕ × RspOutputParam
unfolding no_room input_data complete send_req_msg_and_wait_for_rsp
send_req_and_wait_for_rsp malloc connected send_msg_syn f input output =
    let req =
      (create_req_msg malloc f input.opt_type input.task_no input.data_len (input_data input)).0 in
    if no_room output then (err_invalide_param, output) else elim req [
      | none ↦ (err_sys_exception, output)
      | some req ↦ complete output (send_req_msg_and_wait_for_rsp connected send_msg_syn req)
    ]

-- `SendReqAndWaitForRsp` as the functions that build requests see it.
abbrev pub Transfer : Type 0
Transfer = ReqInputParam → RspOutputParam → ℕ × RspOutputParam

-- A request without input, and with an object of `size` bytes to receive the answer.
unfoldable pub ask : Transfer → ℕ → ℕ → ℕ → List ℕ → ℕ × RspOutputParam
ask transfer task_no opt_type size old =
    transfer (record { opt_type = opt_type; task_no = task_no; data_len = 0; content = none })
      (record { rsp_buff_size = some size; rsp_data = some old })

-- A request with an object to send, and with one to receive the answer.
unfoldable pub ask_about : Transfer → ℕ → ℕ → List ℕ → ℕ → List ℕ → ℕ × RspOutputParam
ask_about transfer task_no opt_type input size old =
    transfer
      (record {
        opt_type = opt_type;
        task_no = task_no;
        data_len = length input;
        content = some input;
      })
      (record { rsp_buff_size = some size; rsp_data = some old })

-- A request with an object to send, whose answer is a code only.
unfoldable pub tell : Transfer → ℕ → ℕ → List ℕ → ℕ
tell transfer task_no opt_type input =
    (transfer
      (record {
        opt_type = opt_type;
        task_no = task_no;
        data_len = length input;
        content = some input;
      })
      (record { rsp_buff_size = none; rsp_data = none })).0

-- A request that is its operation only.
unfoldable pub command : Transfer → ℕ → ℕ → ℕ
command transfer task_no opt_type =
    (transfer (record { opt_type = opt_type; task_no = task_no; data_len = 0; content = none })
      (record { rsp_buff_size = none; rsp_data = none })).0

-- What `size` and the object hold afterwards.
abbrev pub size_of : RspOutputParam → ℕ
size_of output = elim output.rsp_buff_size [ none ↦ 0 | some n ↦ n ]

abbrev pub bytes_of : RspOutputParam → List ℕ
bytes_of output = elim output.rsp_data [ none ↦ [] | some l ↦ l ]
