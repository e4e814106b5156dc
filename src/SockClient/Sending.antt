-- ===== src/SockClient/Sending.antt =====
-- What one call of `SendMsgToSocket` writes, and in which order.
use powerapi.Prelude.{ℕ, zero, suc, ◌≡◌, refl, ap, true, false, List, [], ◌∷◌, arith, take, drop}
use powerapi.Buffer.{PwrMsgBuffer, is_empty_buffer, pop_from_buffer_head}
use powerapi.Buffer.Fifo
use powerapi.Buffer.Refine.{Holds, Holds-length, pop_refines}
use powerapi.SockClient.{send_loop, send_msg_to_socket}

module _ {A : Type 0} where
  empty-nil : (smb : PwrMsgBuffer A) → Holds smb [] → is_empty_buffer smb ≡ true
  unfolding is_empty_buffer
  empty-nil smb h = ground (arith, Holds-length smb [] h, h.head_in, h.tail_in)

  empty-cons :
      (smb : PwrMsgBuffer A) (x : A) (q : List A) → Holds smb (x ∷ q) → is_empty_buffer smb ≡ false
  unfolding is_empty_buffer
  empty-cons smb x q h = ground (arith, Holds-length smb (x ∷ q) h, h.head_in, h.tail_in)

  send_loop-take :
      (rounds : ℕ) (smb : PwrMsgBuffer A) (q : List A)
      → Holds smb q
      → ((send_loop rounds smb).0 ≡ take rounds q) × Holds (send_loop rounds smb).1 (drop rounds q)
  unfolding send_loop Fifo.pop
  send_loop-take zero smb q h = (refl, h)
  send_loop-take (suc n) smb [] h = rw (empty-nil smb h) (refl, h)
  send_loop-take (suc n) smb (x ∷ q) h =
      let (m, h') = pop_refines smb (x ∷ q) h in
      let (s, h'') = send_loop-take n (pop_from_buffer_head smb).1 q h' in
      rw (empty-cons smb x q h, m) (ap (λ l. x ∷ l) s, h'')

  -- One call of `SendMsgToSocket` writes the five oldest messages of the ring, or all if they are
  -- fewer, in the order in which they came, and leaves the others in the ring.
  pub sends_oldest :
      (smb : PwrMsgBuffer A) (q : List A)
      → Holds smb q
      → ((send_msg_to_socket smb).0 ≡ take 5 q) × Holds (send_msg_to_socket smb).1 (drop 5 q)
  unfolding send_msg_to_socket
  sends_oldest smb q h = send_loop-take 5 smb q h
