-- ===== src/Msg.antt =====
-- Messages, common/inc/pwrmsg.h and common/src/pwrmsg.c.
-- Numbers are the values of the C fields; a field narrower than what is stored in it truncates.
-- A payload is the list of its bytes, and `none` is the pointer NULL. What `malloc` answers is an
-- argument, `true` where it succeeds.
pub mod SeqId
pub mod Copy
use powerapi.Prelude.{
  ℕ, zero, suc, ◌+◌, ◌*◌, ◌%◌, ◌^◌, Bool, true, false, Option, none, some, List, take,
}
use powerapi.Codes.{success, err_null_pointer}

pub record MsgHead : Type 0 where
  pub major_ver : ℕ
  pub minor_ver : ℕ
  pub opt_type : ℕ
  pub data_format : ℕ
  pub msg_type : ℕ
  pub rsp_code : ℕ
  pub seq_id : ℕ
  pub task_no : ℕ
  pub crc_magic : ℕ
  pub data_len : ℕ
  pub sys_id : ℕ

-- `data` of the source is the field `content`.
pub record PwrMsg : Type 0 where
  pub head : MsgHead
  pub content : Option (List ℕ)

abbrev pub major_version : ℕ
major_version = 1

abbrev pub minor_version : ℕ
minor_version = 0

abbrev pub fmt_bin : ℕ
fmt_bin = 0

-- `enum MsgType`
abbrev pub mt_req : ℕ
mt_req = 1

abbrev pub mt_rsp : ℕ
mt_rsp = 2

abbrev pub mt_mdt : ℕ
mt_mdt = 4

-- `g_pid`, and `seed` of `GenerateSeqId`.
pub record MsgFactory : Type 0 where
  pub pid : ℕ
  pub seed : ℕ

pub generate_seq_id : MsgFactory → ℕ × MsgFactory
generate_seq_id f =
    ((f.pid * 2 ^ 16 % 2 ^ 32 + f.seed) % 2 ^ 32, record f { seed = (f.seed + 1) % 2 ^ 16 })

generate_crc_magic : ℕ
generate_crc_magic = 0

pub generate_req_msg_head : MsgFactory → ℕ → ℕ → ℕ → MsgHead × MsgFactory
unfolding generate_crc_magic
generate_req_msg_head f opt_type task_no data_len =
    let (seq_id, f') = generate_seq_id f in
    (
      record {
        major_ver = major_version;
        minor_ver = minor_version;
        opt_type = opt_type % 2 ^ 16;
        data_format = fmt_bin;
        msg_type = mt_req;
        rsp_code = 0;
        seq_id = seq_id;
        task_no = task_no;
        crc_magic = generate_crc_magic;
        data_len = data_len;
        sys_id = f.pid % 2 ^ 32;
      },
      f',
    )

unfoldable pub create_req_msg :
    Bool → MsgFactory → ℕ → ℕ → ℕ → Option (List ℕ) → Option PwrMsg × MsgFactory
unfolding generate_req_msg_head
create_req_msg false f opt_type task_no data_len content = (none, f)
create_req_msg true f opt_type task_no data_len content =
    let (head, f') = generate_req_msg_head f opt_type task_no data_len in
    (some (record { head = head; content = content }), f')

-- What `malloc` answers for the message, and for its payload. `memcpy` copies `dataLen` bytes.
pub clone_pwr_msg : Bool → Bool → Option PwrMsg → Option PwrMsg
clone_pwr_msg m d none = none
clone_pwr_msg false d (some msg) = none
clone_pwr_msg true d (some msg) = elim msg.content [
  | none ↦ some (record { head = msg.head; content = none })
  | some bytes ↦ elim d [
    | true ↦ some (record { head = msg.head; content = some (take msg.head.data_len bytes) })
    | false ↦ none
  ]
]

-- `none` is the return of ERR_NULL_POINTER. Past that test the source has no return statement, and
-- its caller does not look at the value.
unfoldable pub generate_metadata_msg :
    MsgFactory → ℕ → Option (List ℕ) → ℕ → Option PwrMsg × MsgFactory
unfolding generate_crc_magic
generate_metadata_msg f sys_id none len = (none, f)
generate_metadata_msg f sys_id (some bytes) len =
    let (seq_id, f') = generate_seq_id f in
    (
      some (record {
        head = record {
          major_ver = major_version;
          minor_ver = minor_version;
          opt_type = 12;
          data_format = fmt_bin;
          msg_type = mt_mdt;
          rsp_code = 0;
          seq_id = seq_id;
          task_no = 0;
          crc_magic = generate_crc_magic;
          data_len = len;
          sys_id = sys_id;
        };
        content = some bytes;
      }),
      f',
    )

-- The return code, and the message that `rsp` points to afterwards, if it is written.
unfoldable pub generate_rsp_msg : Option PwrMsg → ℕ → Option (List ℕ) → ℕ → ℕ × Option PwrMsg
unfolding generate_crc_magic
generate_rsp_msg none rsp_code content data_len = (err_null_pointer, none)
generate_rsp_msg (some req) rsp_code content data_len = (
  success,
  some (record {
    head = record {
      major_ver = req.head.major_ver;
      minor_ver = req.head.minor_ver;
      opt_type = req.head.opt_type;
      data_format = fmt_bin;
      msg_type = mt_rsp;
      rsp_code = rsp_code % 2 ^ 16;
      seq_id = req.head.seq_id;
      task_no = req.head.task_no;
      crc_magic = generate_crc_magic;
      data_len = data_len;
      sys_id = req.head.sys_id;
    };
    content = content;
  }),
)
