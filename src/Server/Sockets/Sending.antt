-- ===== src/Server/Sockets/Sending.antt =====
-- What the clients receive of the queue of messages to send.
use powerapi.Prelude.{
  ℕ, zero, suc, ◌≤◌, ◌≡◌, ◌≢◌, refl, sym, ap, ◌∙◌, true, false, Option, some, List, [], ◌∷◌, ◌++◌,
  map, arith, ◌==◌, if◌then◌else◌, length, take, drop, inl, inr, Bool-cases,
}
use mathlib.Core.List.{append_assoc, append-nil}
use powerapi.Msg.{PwrMsg}
use powerapi.Buffer.{PwrMsgBuffer, is_empty_buffer, pop_from_buffer_head}
use powerapi.Buffer.Fifo
use powerapi.Buffer.Refine.{Holds, Holds-length, pop_refines}
use powerapi.Clients.{PwrClient, invalid_fd, get_fd_by_sys_id}
use powerapi.Socket.{write_msg, max_data_size, sent}
use powerapi.Socket.Stream.{joined, total, Progress, write_msg_whole}
use powerapi.Socket.Pieces.{pieces_whole}
use powerapi.Server.{Server, payload}
use powerapi.Server.Sockets.{
  MsgLayout, Traffic, SendEnd, done, write_pieces, buffers, send_msg, send_queue,
  process_send_msg_to_client, count_max,
}

-- `send` takes some bytes each time, and all bytes of the piece in the end.
abbrev pub Takes : List (Option ℕ) → List ℕ → Type 0
Takes answers p =
    (taken : List ℕ) × (rest : List (Option ℕ)) × (answers ≡ map some taken ++ rest)
    × Progress taken
    × (total taken ≡ length p)

-- From the n-th call on.
abbrev pub TakesAll : (ℕ → List (Option ℕ)) → ℕ → List (List ℕ) → Type 0
TakesAll send n [] = Unit {0}
TakesAll send n (p ∷ ps) = Takes (send n) p × TakesAll send (suc n) ps

-- The bytes that went to a descriptor.
abbrev pub to_fd : ℕ → Traffic → List ℕ
to_fd fd [] = []
to_fd fd ((d, bytes) ∷ t) = if d == fd then bytes ++ to_fd fd t else to_fd fd t

-- The messages for a descriptor, whole and in their order.
abbrev pub stream : MsgLayout → List PwrClient → ℕ → List PwrMsg → List ℕ
stream layout clients fd [] = []
stream layout clients fd (m ∷ ms) =
    if get_fd_by_sys_id clients m.head.sys_id == fd
    then (layout.bytes_of m ++ payload m) ++ stream layout clients fd ms
    else stream layout clients fd ms

to_fd-append : (fd : ℕ) (t u : Traffic) → to_fd fd (t ++ u) ≡ to_fd fd t ++ to_fd fd u
to_fd-append fd [] u = refl
to_fd-append fd ((d, bytes) ∷ t) u = elim (Bool-cases (d == fd)) [
  | inl same ↦ rw (same, to_fd-append fd t u) (sym (append_assoc bytes (to_fd fd t) (to_fd fd u)))
  | inr other ↦ rw (other, to_fd-append fd t u) refl
]

abbrev to_one : ℕ → List (List ℕ) → Traffic
to_one d ps = map (λ p. (d, p)) ps

to_fd-same : (d fd : ℕ) (ps : List (List ℕ)) → (d == fd) ≡ true → to_fd fd (to_one d ps) ≡ joined ps
to_fd-same d fd [] h = refl
to_fd-same d fd (p ∷ ps) h = rw (h, to_fd-same d fd ps h) refl

to_fd-other : (d fd : ℕ) (ps : List (List ℕ)) → (d == fd) ≡ false → to_fd fd (to_one d ps) ≡ []
to_fd-other d fd [] h = refl
to_fd-other d fd (p ∷ ps) h = rw (h, to_fd-other d fd ps h) refl

write_pieces-all :
    (send : ℕ → List (Option ℕ)) (n : ℕ) (s : Server) (d : ℕ) (ps : List (List ℕ))
    → TakesAll send n ps
    → write_pieces send n s d ps ≡ done s (to_one d ps)
unfolding write_pieces
write_pieces-all send n s d [] h = refl
write_pieces-all send n s d (p ∷ ps) h =
    let (taken, rest, answers, progress, all) = h.0 in
    let first : write_msg p (length p) (send n) ≡ sent p rest =
      rw answers (write_msg_whole p taken rest progress all) in
    rw (write_pieces, first, write_pieces-all send (suc n) s d ps h.1) refl

module _ (layout : MsgLayout) where
  -- A message whose head fits in the buffer, and whose payload is as long as it says.
  abbrev pub Whole : PwrMsg → Type 0
  Whole m = (length (layout.bytes_of m) ≤ max_data_size) × (length (payload m) ≡ m.head.data_len)

  buffers-joined :
      (m : PwrMsg) → Whole m → joined (buffers layout m) ≡ layout.bytes_of m ++ payload m
  buffers-joined m (fits, same) =
      let (ps, run, all, short) =
        pieces_whole (layout.bytes_of m) (payload m) m.head.data_len fits same in
      let same_pieces : buffers layout m ≡ ps = rw (buffers, run) refl in
      ap joined same_pieces ∙ all

  send_msg-stream :
      (send : ℕ → List (Option ℕ)) (s : Server) (m : PwrMsg)
      → Whole m
      → TakesAll send 0 (buffers layout m)
      → (t : Traffic) × (send_msg layout send s (some m) ≡ done s t)
        × ((fd : ℕ) → fd ≢ invalid_fd → to_fd fd t ≡ stream layout s.clients fd (m ∷ []))
  unfolding send_msg
  send_msg-stream send s m whole taken =
      let d = get_fd_by_sys_id s.clients m.head.sys_id in
      elim (Bool-cases (d == invalid_fd)) [
        | inl gone ↦ (
          [],
          rw gone refl,
          λ fd valid. let other : (d == fd) ≡ false = ground (arith, gone, valid) in rw other refl,
        )
        | inr here ↦ (
          to_one d (buffers layout m),
          rw (here, write_pieces-all send 0 s d (buffers layout m) taken) refl,
          λ fd valid. elim (Bool-cases (d == fd)) [
            | inl same ↦ rw same (
                to_fd-same d fd (buffers layout m) same
                ∙ buffers-joined m whole
                ∙ sym (append-nil _))
            | inr other ↦ rw other (to_fd-other d fd (buffers layout m) other)
          ],
        )
      ]

  stream_uncons :
      (clients : List PwrClient) (fd : ℕ) (m : PwrMsg) (ms : List PwrMsg)
      → stream layout clients fd (m ∷ ms)
        ≡ stream layout clients fd (m ∷ []) ++ stream layout clients fd ms
  stream_uncons clients fd m ms = elim (Bool-cases (get_fd_by_sys_id clients m.head.sys_id == fd)) [
    | inl same ↦ rw same (ap (λ l. l ++ stream layout clients fd ms) (sym (append-nil _)))
    | inr other ↦ rw other refl
  ]

Holds-empty : {A : Type 0} (smb : PwrMsgBuffer A) → Holds smb [] → is_empty_buffer smb ≡ true
unfolding is_empty_buffer
Holds-empty smb h = ground (arith, h.head_in, h.tail_in, Holds-length smb [] h)

Holds-more :
    {A : Type 0} (smb : PwrMsgBuffer A) (x : A) (q : List A)
    → Holds smb (x ∷ q)
    → is_empty_buffer smb ≡ false
unfolding is_empty_buffer
Holds-more smb x q h = ground (arith, h.head_in, h.tail_in, Holds-length smb (x ∷ q) h)

-- For each message that may be popped, `send` takes all bytes of its pieces.
abbrev pub QueueTaken : MsgLayout → (ℕ → ℕ → List (Option ℕ)) → ℕ → List PwrMsg → Type 0
QueueTaken layout send zero q = Unit {0}
QueueTaken layout send (suc k) [] = Unit {0}
QueueTaken layout send (suc k) (m ∷ q) =
    Whole layout m × TakesAll (send k) 0 (buffers layout m) × QueueTaken layout send k q

-- It ends, with the messages gone from the queue and their bytes sent.
abbrev pub Sent : MsgLayout → SendEnd → ℕ → Server → List PwrMsg → Type 0
Sent layout end k s q =
    (s' : Server) × (t : Traffic) × (end ≡ done s' t)
    × (s' ≡ record s { send_buff = s'.send_buff })
    × Holds s'.send_buff (drop k q)
    × ((fd : ℕ) → fd ≢ invalid_fd → to_fd fd t ≡ stream layout s.clients fd (take k q))

send_queue-Sent :
    (layout : MsgLayout) (send : ℕ → ℕ → List (Option ℕ)) (k : ℕ) (s : Server) (q : List PwrMsg)
    → Holds s.send_buff q
    → QueueTaken layout send k q
    → Sent layout (send_queue layout send k s) k s q
unfolding send_queue Fifo.pop
send_queue-Sent layout send zero s q h taken = (s, [], refl, refl, h, λ fd valid. refl)
send_queue-Sent layout send (suc k) s [] h taken =
    (s, [], rw (Holds-empty s.send_buff h) refl, refl, h, λ fd valid. refl)
send_queue-Sent layout send (suc k) s (m ∷ q) h (whole, all, more) =
    let popped = pop_from_buffer_head s.send_buff in
    let (is_m, holds) = pop_refines s.send_buff (m ∷ q) h in
    let (t, first, one) =
      send_msg-stream layout (send k) (record s { send_buff = popped.1 }) m whole all in
    let (s', u, run, same, left, rest) =
      send_queue-Sent layout send k (record s { send_buff = popped.1 }) q holds more in
    (
      s',
      t ++ u,
      rw (Holds-more s.send_buff m q h, is_m, first, run) refl,
      same,
      left,
      λ fd valid.
          to_fd-append fd t u
          ∙ ap (λ l. l ++ to_fd fd u) (one fd valid)
          ∙ ap (λ l. stream layout s.clients fd (m ∷ []) ++ l) (rest fd valid)
          ∙ sym (stream_uncons layout s.clients fd m (take k q)),
    )

-- If `send` takes all bytes of the pieces of the first five messages, in any portions, then
-- `ProcessSendMsgToClient` ends, the queue is without these messages, nothing else of the tables has
-- changed, and each descriptor has received exactly the messages for its client, whole and in the
-- order of the queue. The head of each of them fits in the buffer of the pieces, and its payload is
-- as long as the head says.
pub messages_go_out :
    (layout : MsgLayout) (send : ℕ → ℕ → List (Option ℕ)) (s : Server) (q : List PwrMsg)
    → Holds s.send_buff q
    → QueueTaken layout send count_max q
    → Sent layout (process_send_msg_to_client layout send s) 5 s q
unfolding process_send_msg_to_client
messages_go_out layout send s q h taken = send_queue-Sent layout send count_max s q h taken
