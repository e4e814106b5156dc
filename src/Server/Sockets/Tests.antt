-- ===== src/Server/Sockets/Tests.antt =====
-- A daemon that reads a request of its client, and one that answers it.
use powerapi.Prelude.{◌≡◌, refl, true, false, none, some, [], ◌∷◌, arith, replicate, get_or}
use powerapi.Msg.{PwrMsg}
use powerapi.Buffer.{init_pwr_msg_buffer, add_to_buffer_tail}
use powerapi.Buffer.Fifo
use powerapi.Buffer.Refine.{Holds, Holds-init, push_refines}
use powerapi.Clients.{no_client}
use powerapi.Tasks.{max_task_num}
use powerapi.Socket.{got, pieces}
use powerapi.Server.{Server, zero_msg}
use powerapi.Server.Sockets.{
  MsgLayout, returned, process_recv_msg_from_client, process_send_msg_to_client,
}
use powerapi.Server.Sockets.Receiving.{own, request_received}
use powerapi.Server.Sockets.Sending.{Sent, messages_go_out}

-- A head of two bytes, the type and the length.
abbrev layout : MsgLayout
layout = record {
  size = 2;
  bytes_of = λ m. m.head.msg_type ∷ m.head.data_len ∷ [];
  read_head =
      λ bytes. record zero_msg.head { msg_type = get_or bytes 0 0; data_len = get_or bytes 1 0 };
  null_data = λ bytes. true;
}

abbrev answer : PwrMsg
answer = record {
  head = record zero_msg.head { msg_type = 2; data_len = 3; sys_id = 7 };
  content = some (4 ∷ 5 ∷ 6 ∷ []);
}

abbrev daemon : Server
daemon = record {
  clients = record { fd = 5; sys_id = 7 } ∷ no_client ∷ no_client ∷ [];
  auth = record { authed = false; auth_owner = 0 };
  tasks = record { coll_task_list = replicate max_task_num none; task_num = 0; has_inited = true };
  send_buff = (add_to_buffer_tail init_pwr_msg_buffer (some answer)).1;
  recv_buff = init_pwr_msg_buffer;
}

request_received_example :
    (s' : Server) × (process_recv_msg_from_client layout true true daemon 0
        (got (1 ∷ []) ∷ got (3 ∷ []) ∷ got (7 ∷ 8 ∷ []) ∷ got (9 ∷ []) ∷ got (1 ∷ []) ∷ [])
      ≡ returned s' [] [] (got (1 ∷ []) ∷ []))
    × (s' ≡ record daemon { recv_buff = s'.recv_buff })
    × Holds s'.recv_buff (Fifo.push [] (own layout daemon 0 (1 ∷ 3 ∷ []) (7 ∷ 8 ∷ 9 ∷ []))).0
request_received_example =
    request_received layout daemon [] 0 ((1 ∷ []) ∷ (3 ∷ []) ∷ []) ((7 ∷ 8 ∷ []) ∷ (9 ∷ []) ∷ [])
      (got (1 ∷ []) ∷ []) Holds-init (omega arith, (omega arith, tt))
      (omega arith, (omega arith, tt)) refl refl refl (omega arith) (omega arith)

messages_go_out_example :
    Sent layout
      (process_send_msg_to_client layout (λ k n. some 2 ∷ some 3 ∷ []) daemon)
      5
      daemon
      (answer ∷ [])
unfolding Fifo.push Fifo.trim pieces
messages_go_out_example =
    messages_go_out layout (λ k n. some 2 ∷ some 3 ∷ []) daemon (answer ∷ [])
      (push_refines init_pwr_msg_buffer [] answer Holds-init).1
      (
        (omega arith, refl),
        ((2 ∷ 3 ∷ [], [], refl, (omega arith, (omega arith, tt)), refl), tt),
        tt,
      )
