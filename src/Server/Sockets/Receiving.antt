-- ===== src/Server/Sockets/Receiving.antt =====
-- A request that arrives.
use powerapi.Prelude.{
  ℕ, ◌^◌, ◌<◌, ◌≡◌, refl, sym, true, false, some, List, [], ◌++◌, map, arith, ◌==◌, leb, length,
  get_or,
}
use powerapi.Msg.{PwrMsg, mt_req}
use powerapi.Buffer.Fifo
use powerapi.Buffer.Refine.{Holds}
use powerapi.Clients.{no_client}
use powerapi.Socket.{Recv, got, received, read_msg}
use powerapi.Socket.Stream.{Cuts, joined, read_msg_whole}
use powerapi.Server.{Server, receive_req}
use powerapi.Server.Answers.{received_under_own_id}
use powerapi.Server.Sockets.{MsgLayout, returned, process_recv_msg_from_client, receive_content}

-- The message that the bytes are, with the id of the connection.
abbrev pub own : MsgLayout → Server → ℕ → List ℕ → List ℕ → PwrMsg
own layout s i bytes content = record {
  head = record (layout.read_head bytes) { sys_id = (get_or s.clients i no_client).sys_id };
  content = some content;
}

-- If there is memory, and `recv` hands out the bytes of a request and of its payload, cut in any
-- way, then `ProcessRecvMsgFromClient` returns, has read exactly these bytes, and has queued the
-- request last, with its payload, under the id of its connection; nothing is cleaned or closed. The
-- payload is as long as the head says, not empty, and shorter than 2^31 bytes.
pub request_received :
    (layout : MsgLayout) (s : Server) (q : List PwrMsg) (i : ℕ) (head_cuts cuts : List (List ℕ))
    (rest : List Recv)
    → Holds s.recv_buff q
    → Cuts head_cuts
    → Cuts cuts
    → length (joined head_cuts) ≡ layout.size
    → (layout.read_head (joined head_cuts)).msg_type ≡ mt_req
    → (layout.read_head (joined head_cuts)).data_len ≡ length (joined cuts)
    → 0 < length (joined cuts)
    → length (joined cuts) < 2 ^ 31
    → (s' : Server) × (process_recv_msg_from_client layout true true s i
          (map got head_cuts ++ (map got cuts ++ rest))
        ≡ returned s' [] [] rest)
      × (s' ≡ record s { recv_buff = s'.recv_buff })
      × Holds s'.recv_buff (Fifo.push q (own layout s i (joined head_cuts) (joined cuts))).0
unfolding process_recv_msg_from_client receive_content receive_req
request_received layout s q i head_cuts cuts rest h ch cut size type len some_bytes short =
    let bytes = joined head_cuts in
    let head = layout.read_head bytes in
    let whole_head = read_msg_whole head_cuts (map got cuts ++ rest) ch in
    let is_req : (head.msg_type == mt_req) ≡ true = ground (arith, type) in
    let not_empty : (head.data_len == 0) ≡ false = ground (arith, len, some_bytes) in
    let fits : leb (2 ^ 31) head.data_len ≡ false = ground (arith, len, short) in
    let whole : read_msg head.data_len (map got cuts ++ rest) ≡ received (joined cuts) rest =
      rw len (read_msg_whole cuts rest cut) in
    (
      receive_req s i (record { head = head; content = some (joined cuts) }),
      rw (sym size, whole_head, is_req, not_empty, fits, whole) refl,
      refl,
      received_under_own_id s q i (record { head = head; content = some (joined cuts) }) h,
    )
