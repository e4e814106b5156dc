-- ===== src/Msg/Copy.antt =====
-- Copies of messages and answers to them.
use powerapi.Prelude.{
  ℕ, ◌%◌, ◌^◌, ◌<◌, ◌≡◌, refl, sym, ap, ◌∙◌, true, Option, none, some, List, [], ◌∷◌, arith, length,
  take,
}
use powerapi.Codes.{success}
use powerapi.Msg.{
  MsgFactory, MsgHead, PwrMsg, mt_rsp, clone_pwr_msg, create_req_msg, generate_rsp_msg,
}

take-length {ℓ} : {A : Type ℓ} (xs : List A) → take (length xs) xs ≡ xs
take-length [] = refl
take-length (x ∷ xs) = ap (λ l. x ∷ l) (take-length xs)

-- `dataLen` is the length of the payload, if there is one.
abbrev pub Sized : Option (List ℕ) → ℕ → Type 0
Sized none n = Unit {0}
Sized (some bytes) n = length bytes ≡ n

-- `ClonePwrMsg` of a message whose length field fits its payload returns an equal message, if
-- memory can be had.
pub clone_pwr_msg-eq :
    (head : MsgHead) (content : Option (List ℕ))
    → Sized content head.data_len
    → clone_pwr_msg true true (some (record { head = head; content = content }))
      ≡ some (record { head = head; content = content })
unfolding clone_pwr_msg
clone_pwr_msg-eq head none sized = refl
clone_pwr_msg-eq head (some bytes) sized =
    ap (λ l. some (record { head = head; content = some l }))
      (ap (λ n. take n bytes) (sym sized) ∙ take-length bytes)

-- The answer to a request that `CreateReqMsg` made goes to the process that made it, under the
-- request's sequence number and operation, and carries the return code if that fits in 16 bits.
pub generate_rsp_msg-create_req_msg :
    (f : MsgFactory) (opt task len code rsp_len : ℕ) (body rsp_body : Option (List ℕ))
    → opt < 2 ^ 16
    → code < 2 ^ 16
    → (req rsp : PwrMsg) → (create_req_msg true f opt task len body).0 ≡ some req
    → generate_rsp_msg (some req) code rsp_body rsp_len ≡ (success, some rsp)
    → (rsp.head.seq_id ≡ req.head.seq_id)
      × (rsp.head.sys_id ≡ f.pid % 2 ^ 32)
      × (rsp.head.opt_type ≡ opt)
      × (rsp.head.msg_type ≡ mt_rsp)
      × (rsp.head.rsp_code ≡ code)
      × (rsp.content ≡ rsp_body)
unfolding create_req_msg generate_rsp_msg
generate_rsp_msg-create_req_msg f opt task len code rsp_len body rsp_body ho hc req rsp e e' =
    ground arith
