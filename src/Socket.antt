-- ===== src/Socket.antt =====
-- Moving bytes over a connection: `ReadMsg`, `WriteMsg` and the pieces that
-- `ProcessSendMsgToClient` sends, pwrapis/src/server.c. What `recv` and `send` answer, call by call,
-- is an argument. The length given to `ReadMsg` is below 2^31, so that an int holds it.
pub mod Stream
pub mod Pieces
pub mod Tests
use powerapi.Prelude.{
  ℕ, zero, suc, ◌+◌, ◌-◌, ◌%◌, ◌^◌, Bool, true, false, Option, none, some, List, [], ◌∷◌, ◌++◌,
  ◌==◌, if◌then◌else◌, ltb, leb, take, drop, length,
}
use mathlib.Core.Option
use powerapi.Codes.{err_sys_exception, err_disconnected}

-- An answer of `recv`: bytes, none of them if the connection is closed, or a negative number. The
-- source compares that number, and not `errno`, with EINTR, EWOULDBLOCK and EAGAIN, which are
-- positive, so that it never tries again.
pub data Recv : Type 0 where
  got : List ℕ → Recv
  error : Recv

-- The end of `ReadMsg`: it waits for more answers, it returns an error, or it has all bytes, with
-- the answers that it has not used.
pub data ReadResult : Type 0 where
  waits : ReadResult
  lost : ℕ → ReadResult
  received : List ℕ → List Recv → ReadResult

abbrev pub prepend : List ℕ → ReadResult → ReadResult
prepend bytes waits = waits
prepend bytes (lost code) = lost code
prepend bytes (received more rest) = received (bytes ++ more) rest

unfoldable pub read_msg : ℕ → List Recv → ReadResult
read_msg zero answers = received [] answers
read_msg (suc left) [] = waits
read_msg (suc left) (error ∷ answers) = lost err_sys_exception
read_msg (suc left) (got [] ∷ answers) = lost err_disconnected
read_msg (suc left) (got (b ∷ bytes) ∷ answers) =
    prepend (b ∷ bytes) (read_msg (left - length bytes) answers)

-- The end of `WriteMsg`, with the bytes that went out and, at the good end, the answers of `send`
-- that it has not used. It goes `astray` where `send` answers -1: the source keeps that in a size_t,
-- so that the test for an error is never true, and goes on from one byte before its buffer.
pub data WriteResult : Type 0 where
  stalls astray : List ℕ → WriteResult
  broken : ℕ → List ℕ → WriteResult
  sent : List ℕ → List (Option ℕ) → WriteResult

abbrev pub went_out : List ℕ → WriteResult → WriteResult
went_out bytes (stalls more) = stalls (bytes ++ more)
went_out bytes (astray more) = astray (bytes ++ more)
went_out bytes (broken code more) = broken code (bytes ++ more)
went_out bytes (sent more rest) = sent (bytes ++ more) rest

-- An answer of `send` is how many bytes it takes, `none` for -1. `left` bytes of `content` are left;
-- `send` takes no more than those.
unfoldable pub write_msg : List ℕ → ℕ → List (Option ℕ) → WriteResult
write_msg content zero answers = sent [] answers
write_msg content (suc left) [] = stalls []
write_msg content (suc left) (none ∷ answers) = astray []
write_msg content (suc left) (some zero ∷ answers) = broken err_disconnected []
write_msg content (suc left) (some (suc n) ∷ answers) =
    went_out (take (suc n) content) (write_msg (drop (suc n) content) (left - n) answers)

-- `MAX_DATA_SIZE`
abbrev pub max_data_size : ℕ
max_data_size = 4096

-- The loop over a long payload, and the piece that ends it, with fuel, `none` when that runs out.
unfoldable pub piece_loop : ℕ → List ℕ → ℕ → ℕ → Option (List (List ℕ))
piece_loop zero content data_sent left_len = none
piece_loop (suc fuel) content data_sent left_len =
    let rest = piece_loop fuel content (data_sent + max_data_size) (left_len - max_data_size) in
    if ltb max_data_size left_len
    then Option.map (λ l. take max_data_size (drop data_sent content) ∷ l) rest
    else some (take left_len (drop data_sent content) ∷ [])

-- The buffers handed to `WriteMsg` for one message: `head_bytes` are the bytes of the PwrMsg itself.
unfoldable pub pieces : List ℕ → List ℕ → ℕ → Option (List (List ℕ))
unfolding piece_loop
pieces head_bytes content data_len =
    let size = length head_bytes in
    let len = size + data_len in
    let rest = piece_loop (suc data_len) content (max_data_size - size) (len - max_data_size) in
    if leb len max_data_size
    then some ((head_bytes ++ take data_len content) ∷ [])
    else Option.map (λ l. (head_bytes ++ take (max_data_size - size) content) ∷ l) rest
