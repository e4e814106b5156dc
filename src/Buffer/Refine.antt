-- ===== src/Buffer/Refine.antt =====
-- The ring queue behaves as the FIFO of the messages in its window.
use powerapi.Prelude.{
  ℕ, suc, inl, inr, Bool-cases, ◌==◌, ◌+◌, ◌%◌, ◌<◌, ◌≡◌, refl, sym, ap, ◌∙◌, true, false, none,
  some, List, [], ◌∷◌, ◌++◌, map, arith, get_or, set, length, length-set, length-map,
  get_or-set_self, get_or-set_ne,
}
use mathlib.Core.List.{map-append}
use powerapi.Codes.{success}
use powerapi.Buffer.Fifo
use powerapi.Buffer.Fifo.{capacity}
use powerapi.Buffer.Window.{
  window, distance, window-set, window-store, length-window, window_uncons,
}
use powerapi.Buffer.{
  PwrMsgBuffer, init_pwr_msg_buffer, is_empty_buffer, make_room, add_to_buffer_tail,
  pop_from_buffer_head,
}

module _ {A : Type 0} where
  -- The buffer is well formed, and holds the messages of the list, oldest first.
  pub record Holds (smb : PwrMsgBuffer A) (q : List A) : Type 0 where
    pub slots : length smb.msg_list ≡ 64
    pub head_in : smb.head < 64
    pub tail_in : smb.tail < 64
    pub spare : get_or smb.msg_list smb.head none ≡ none
    pub stored : window smb.msg_list ((smb.head + 1) % 64) (distance smb.head smb.tail) ≡ map some q

  pub Holds-init : Holds init_pwr_msg_buffer []
  unfolding init_pwr_msg_buffer
  Holds-init = record {
    slots = refl;
    head_in = omega arith;
    tail_in = omega arith;
    spare = refl;
    stored = refl;
  }

  pub Holds-length :
      (smb : PwrMsgBuffer A) (q : List A) → Holds smb q → length q ≡ distance smb.head smb.tail
  Holds-length smb q h =
      sym (length-map q some)
      ∙ ap length (sym h.stored)
      ∙ length-window smb.msg_list ((smb.head + 1) % 64) (distance smb.head smb.tail)

  -- The slots of a buffer from which the oldest message `x` is taken.
  taken :
      (smb : PwrMsgBuffer A) (x : A) (q : List A)
      → Holds smb (x ∷ q)
      → let t = (smb.head + 1) % 64 in
        (get_or smb.msg_list t none ≡ some x)
        × (is_empty_buffer smb ≡ false)
        × Holds (record smb { head = t; msg_list = set smb.msg_list t none }) q
  unfolding is_empty_buffer
  taken smb x q h =
      let t = (smb.head + 1) % 64 in
      let (m, n_eq, first, rest) =
        window_uncons smb.msg_list t (distance smb.head smb.tail) (some x) (map some q) h.stored in
      let m_eq : m ≡ distance t smb.tail = omega (arith, h.head_in, h.tail_in) in
      (
        first,
        ground (arith, h.head_in, h.tail_in),
        record {
          slots = length-set smb.msg_list t none ∙ h.slots;
          head_in = omega arith;
          tail_in = h.tail_in;
          spare = get_or-set_self smb.msg_list t none none (omega (arith, h.slots));
          stored =
              window-set smb.msg_list ((t + 1) % 64) (distance t smb.tail) t none (omega arith)
                (omega arith) (omega arith)
              ∙ ap (window smb.msg_list ((t + 1) % 64)) (sym m_eq)
              ∙ rest;
        },
      )

  -- Storing a message in a buffer that is not full.
  store :
      (smb : PwrMsgBuffer A) (q : List A) (m : A) (t : ℕ)
      → Holds smb q
      → length q < 63
      → t ≡ (smb.tail + 1) % 64
      → Holds (record smb { tail = t; msg_list = set smb.msg_list t (some m) }) (q ++ m ∷ [])
  store smb q m t h room t_eq =
      let n = distance smb.head smb.tail in
      let fits : n < 63 = rw (Holds-length smb q h) at room in
      let n_eq : distance smb.head t ≡ suc n = omega (arith, h.head_in, h.tail_in) in
      record {
        slots = length-set smb.msg_list t (some m) ∙ h.slots;
        head_in = h.head_in;
        tail_in = omega arith;
        spare =
            get_or-set_ne smb.msg_list t smb.head (some m) none
              (omega (arith, h.head_in, h.tail_in))
            ∙ h.spare;
        stored =
            ap (window (set smb.msg_list t (some m)) ((smb.head + 1) % 64)) n_eq
            ∙ window-store smb.msg_list ((smb.head + 1) % 64) n t (some m) h.slots (omega arith)
                (omega arith) (omega (arith, h.head_in, h.tail_in))
            ∙ ap (λ l. l ++ some m ∷ []) h.stored
            ∙ sym (map-append some q (m ∷ []));
      }

  -- A queue as `make_room` leaves it.
  record Room (smb : PwrMsgBuffer A) (q : List A) : Type 0 where
    holds : Holds (make_room smb).0 (Fifo.trim q).0
    freed : (make_room smb).1 ≡ (Fifo.trim q).1
    same_tail : (make_room smb).0.tail ≡ smb.tail
    free_slot : length (Fifo.trim q).0 < 63

  Room-make : (smb : PwrMsgBuffer A) (q : List A) → Holds smb q → Room smb q
  unfolding make_room Fifo.trim is_empty_buffer
  Room-make smb [] h =
      let full : ((smb.tail + 1) % 64 == smb.head) ≡ false =
        ground (arith, h.head_in, h.tail_in, Holds-length smb [] h) in
      record { holds = rw full h; freed = rw full; same_tail = rw full; free_slot = omega arith }
  Room-make smb (x ∷ q) h = elim (Bool-cases ((smb.tail + 1) % 64 == smb.head)) [
    | inl full ↦
        let n_eq : (suc (length q) == 63) ≡ true =
          ground (arith, h.head_in, h.tail_in, Holds-length smb (x ∷ q) h) in
        let (first, filled, rest) = taken smb x q h in
        record {
          holds = rw (full, n_eq, filled) rest;
          freed = rw (full, n_eq, filled, first);
          same_tail = rw (full, filled);
          free_slot = rw n_eq (ground arith);
        }
    | inr spare ↦
        let n_eq : (suc (length q) == 63) ≡ false =
          ground (arith, h.head_in, h.tail_in, Holds-length smb (x ∷ q) h) in
        record {
          holds = rw (spare, n_eq) h;
          freed = rw (spare, n_eq);
          same_tail = rw spare;
          free_slot = rw n_eq (ground (arith, h.head_in, h.tail_in, Holds-length smb (x ∷ q) h));
        }
  ]

  -- `AddToBufferTail` on a buffer that holds `q` succeeds, leaves it holding what the bounded FIFO
  -- holds after the push, and frees exactly the message that the FIFO drops.
  pub push_refines :
      (smb : PwrMsgBuffer A) (q : List A) (m : A)
      → Holds smb q
      → let (code, smb', freed) = add_to_buffer_tail smb (some m) in
        let (q', dropped) = Fifo.push q m in (code ≡ success) × Holds smb' q' × (freed ≡ dropped)
  unfolding add_to_buffer_tail Fifo.push
  push_refines smb q m h =
      let r = Room-make smb q h in
      (
        refl,
        store (make_room smb).0 (Fifo.trim q).0 m ((smb.tail + 1) % 64) r.holds r.free_slot
            (ap (λ k. (k + 1) % 64) (sym r.same_tail)),
        r.freed,
      )

  -- `PopFromBufferHead` on a buffer that holds `q` returns the oldest message of `q`, or NULL if
  -- there is none, and leaves the buffer holding the rest.
  pub pop_refines :
      (smb : PwrMsgBuffer A) (q : List A)
      → Holds smb q
      → let (m, smb') = pop_from_buffer_head smb in
        let (m', q') = Fifo.pop q in (m ≡ m') × Holds smb' q'
  unfolding pop_from_buffer_head Fifo.pop is_empty_buffer
  pop_refines smb [] h =
      let empty : (smb.head == smb.tail) ≡ true =
        ground (arith, h.head_in, h.tail_in, Holds-length smb [] h) in
      (rw empty, rw empty h)
  pop_refines smb (x ∷ q) h =
      let (first, filled, rest) = taken smb x q h in (rw (filled, first), rw filled rest)
