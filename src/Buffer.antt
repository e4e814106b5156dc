-- ===== src/Buffer.antt =====
-- The ring queue `PwrMsgBuffer` of common/inc/pwrbuffer.h and common/src/pwrbuffer.c.
-- `A` stands for the messages that the slots point to, and `none` is a NULL slot. A value of the
-- record is the object behind a pointer that is not NULL (the program passes the addresses of
-- static buffers only). Locking a mutex round an operation makes it one step.
-- An operation that frees messages returns them.
pub mod Fifo
pub mod Window
pub mod Refine
pub mod Reset
pub mod History
pub mod Tests
use mathlib.Core.Option
use powerapi.Prelude.{
  ◌++◌, ℕ, zero, suc, ◌+◌, ◌%◌, Bool, Option, none, some, List, [], ◌∷◌, ◌==◌, if◌then◌else◌,
  get_or, set, replicate,
}
use powerapi.Codes.{success, err_null_pointer}

-- `PWR_BUFFER_SIZE`
abbrev pub pwr_buffer_size : ℕ
pwr_buffer_size = 64

pub record PwrMsgBuffer (A : Type 0) : Type 0 where
  pub head : ℕ
  pub tail : ℕ
  pub msg_list : List (Option A)

-- What `ReleasePwrMsg` frees: nothing, if the pointer is NULL.
abbrev pub released : {A : Type 0} → Option A → List A
released none = []
released (some m) = m ∷ []

module _ {A : Type 0} where
  pub init_pwr_msg_buffer : PwrMsgBuffer A
  init_pwr_msg_buffer = record { head = 0; tail = 0; msg_list = replicate pwr_buffer_size none }

  unfoldable pub is_empty_buffer : PwrMsgBuffer A → Bool
  is_empty_buffer smb = smb.head == smb.tail

  pub is_full_buffer : PwrMsgBuffer A → Bool
  is_full_buffer smb = (smb.head + 1) % pwr_buffer_size == smb.head

  -- The buffer afterwards, and the messages freed.
  pub delete_from_head : PwrMsgBuffer A → PwrMsgBuffer A × List A
  unfolding is_empty_buffer
  delete_from_head smb =
      let t = (smb.head + 1) % pwr_buffer_size in
      if is_empty_buffer smb then (smb, []) else (
        record smb { head = t; msg_list = set smb.msg_list t none },
        released (get_or smb.msg_list t none),
      )

  make_room : PwrMsgBuffer A → PwrMsgBuffer A × List A
  unfolding delete_from_head
  make_room smb =
      if (smb.tail + 1) % pwr_buffer_size == smb.head then delete_from_head smb else (smb, [])

  -- The return code, the buffer afterwards, and the messages freed.
  unfoldable pub add_to_buffer_tail : PwrMsgBuffer A → Option A → ℕ × PwrMsgBuffer A × List A
  unfolding make_room
  add_to_buffer_tail smb none = (err_null_pointer, smb, [])
  add_to_buffer_tail smb (some new_msg) =
      let t = (smb.tail + 1) % pwr_buffer_size in
      let (room, freed) = make_room smb in
      (success, record room { tail = t; msg_list = set room.msg_list t (some new_msg) }, freed)

  pub pop_from_buffer_head : PwrMsgBuffer A → Option A × PwrMsgBuffer A
  unfolding is_empty_buffer
  pop_from_buffer_head smb =
      let t = (smb.head + 1) % pwr_buffer_size in
      if is_empty_buffer smb
      then (none, smb)
      else (get_or smb.msg_list t none, record smb { head = t; msg_list = set smb.msg_list t none })

  -- The loop of `ResetPwrMsgBuffer`, with fuel, `none` when that runs out: the slots afterwards,
  -- and the messages freed.
  pub reset_loop : ℕ → ℕ → ℕ → List (Option A) → Option (List (Option A) × List A)
  reset_loop zero i tail slots = none
  reset_loop (suc fuel) i tail slots =
      let rest = reset_loop fuel ((i + 1) % pwr_buffer_size) tail (set slots i none) in
      if i == tail
      then some (slots, [])
      else Option.map (λ r. (r.0, released (get_or slots i none) ++ r.1)) rest

  pub reset_pwr_msg_buffer : PwrMsgBuffer A → Option (PwrMsgBuffer A × List A)
  unfolding reset_loop
  reset_pwr_msg_buffer smb =
      Option.map (λ r. (record smb { msg_list = r.0 }, r.1))
        (reset_loop pwr_buffer_size smb.head smb.tail smb.msg_list)
