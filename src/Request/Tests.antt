-- ===== src/Request/Tests.antt =====
-- A request for eight bytes that gets three.
use powerapi.Prelude.{ℕ, refl, true, Option, none, some, List, [], ◌∷◌, arith}
use powerapi.Codes.{success}
use powerapi.Msg.{PwrMsg, MsgFactory, generate_rsp_msg}
use powerapi.Request.{ReqInputParam, send_req_and_wait_for_rsp}
use powerapi.Request.Reply.{Sound, Fits, reply-Fits}

abbrev factory : MsgFactory
factory = record { pid = 4711; seed = 0 }

abbrev input : ReqInputParam
input = record { opt_type = 200; task_no = 0; data_len = 0; content = none }

abbrev old : List ℕ
old = 0 ∷ 0 ∷ 0 ∷ 0 ∷ 0 ∷ 0 ∷ 0 ∷ 0 ∷ []

abbrev daemon : PwrMsg → ℕ × Option PwrMsg
daemon req = (success, (generate_rsp_msg (some req) 0 (some (1 ∷ 2 ∷ 3 ∷ [])) 3).1)

daemon-Sound : (req : PwrMsg) → Sound (daemon req).1
unfolding generate_rsp_msg
daemon-Sound req = refl

reply-Fits_example :
    Fits 8 old
      (send_req_and_wait_for_rsp true true daemon factory input
        (record { rsp_buff_size = some 8; rsp_data = some old })).1
reply-Fits_example =
    reply-Fits true true daemon factory input 8 old (omega arith) (omega arith) daemon-Sound
