-- ===== src/Request/Reply.antt =====
-- What a caller gets for a request.
use powerapi.Prelude.{
  ℕ, ◌^◌, ◌≤◌, ◌<◌, ltb, ◌≡◌, refl, Bool, true, false, Option, none, some, List, ◌++◌, arith, ◌==◌,
  take, drop, length, length-take, length-drop, length-append, inl, inr, Bool-cases, Option-cases,
}
use mathlib.Core.Path.{subst}
use powerapi.Codes.{success}
use powerapi.Msg.{PwrMsg, MsgFactory, create_req_msg}
use powerapi.Request.{
  ReqInputParam, RspOutputParam, check_rsp, send_req_msg_and_wait_for_rsp, no_room, deliver,
  complete, copied, send_req_and_wait_for_rsp,
}

-- The payload of a message is as long as its head says.
abbrev pub Sound : Option PwrMsg → Type 0
Sound none = Unit {0}
Sound (some m) = elim m.content [ none ↦ Unit {0} | some bytes ↦ length bytes ≡ m.head.data_len ]

-- What the output points to after a call: as long as before, and filled to at most its size.
abbrev pub Fits : ℕ → List ℕ → RspOutputParam → Type 0
Fits size old output =
    (n : ℕ) × (bytes : List ℕ) × (output ≡ record { rsp_buff_size = some n; rsp_data = some bytes })
    × (n ≤ size)
    × (length bytes ≡ length old)

same-Fits :
    (size : ℕ) (old : List ℕ)
    → Fits size old (record { rsp_buff_size = some size; rsp_data = some old })
same-Fits size old = (size, old, refl, omega arith, refl)

length-fill :
    (n : ℕ) (bytes old : List ℕ)
    → n ≤ length bytes
    → n ≤ length old
    → length (take n bytes ++ drop n old) ≡ length old
length-fill n bytes old hb ho =
    omega (arith, length-append (take n bytes) (drop n old), length-take n bytes, length-drop n old)

deliver-Fits :
    (size : ℕ) (old : List ℕ) (rsp : PwrMsg)
    → size < 2 ^ 31
    → size ≤ length old
    → Sound (some rsp)
    → Fits size old (deliver (record { rsp_buff_size = some size; rsp_data = some old }) rsp).1
unfolding deliver
deliver-Fits size old rsp int room sound = elim (Option-cases rsp.content) [
  | inl nothing ↦ rw nothing (same-Fits size old)
  | inr (bytes, got) ↦
      let n = copied size rsp.head.data_len in
      let sized : length bytes ≡ rsp.head.data_len = ground (arith, sound, got) in
      let whole : ltb n (2 ^ 31) ≡ true = ground (arith, int) in
      rw (got, whole)
        (
          n,
          take n bytes ++ drop n old,
          refl,
          ground arith,
          length-fill n bytes old (ground (arith, sized)) (ground arith),
        )
]

complete-Fits :
    (size : ℕ) (old : List ℕ) (connected : Bool) (send_msg_syn : PwrMsg → ℕ × Option PwrMsg)
    (req : PwrMsg)
    → size < 2 ^ 31
    → size ≤ length old
    → Sound (send_msg_syn req).1
    → Fits size old
        (complete
          (record { rsp_buff_size = some size; rsp_data = some old })
          (send_req_msg_and_wait_for_rsp connected send_msg_syn req)).1
unfolding complete send_req_msg_and_wait_for_rsp check_rsp
complete-Fits size old false syn req int room sound = same-Fits size old
complete-Fits size old true syn req int room sound = elim (Bool-cases ((syn req).0 == success)) [
  | inr bad ↦ rw bad (same-Fits size old)
  | inl good ↦ elim (Option-cases (syn req).1) [
    | inl nothing ↦ rw (good, nothing) (same-Fits size old)
    | inr (rsp, got) ↦ elim (Bool-cases (rsp.head.rsp_code == success)) [
      | inr bad ↦ rw (good, got, bad) (same-Fits size old)
      | inl ok ↦
          rw (good, got, ok) (deliver-Fits size old rsp int room (subst (λ o. Sound o) got sound))
    ]
  ]
]

-- Whatever a request is, and whatever answer it gets whose payload is as long as its head says, if
-- the size given is below 2^31 and the object has that much room, it keeps its length, and the size
-- reported is at most the size given.
pub reply-Fits :
    (malloc connected : Bool) (send_msg_syn : PwrMsg → ℕ × Option PwrMsg) (f : MsgFactory)
    (input : ReqInputParam) (size : ℕ) (old : List ℕ)
    → size < 2 ^ 31
    → size ≤ length old
    → ((req : PwrMsg) → Sound (send_msg_syn req).1)
    → Fits size old
        (send_req_and_wait_for_rsp malloc connected send_msg_syn f input
          (record { rsp_buff_size = some size; rsp_data = some old })).1
unfolding send_req_and_wait_for_rsp no_room create_req_msg
reply-Fits false connected syn f input size old int room sound = elim (Bool-cases (size == 0)) [
  | inl none_given ↦ rw none_given (same-Fits size old)
  | inr given ↦ rw given (same-Fits size old)
]
reply-Fits true connected syn f input size old int room sound = elim (Bool-cases (size == 0)) [
  | inl none_given ↦ rw none_given (same-Fits size old)
  | inr given ↦ rw given (complete-Fits size old connected syn _ int room (sound _))
]
