-- ===== src/Server/Metadata/Tests.antt =====
-- Three slots of a task, the first of which is due.
use powerapi.Prelude.{
  ℕ, ◌+◌, ◌*◌, ◌<◌, ◌≤◌, ◌≢◌, ◌≡◌, refl, true, false, none, List, [], ◌∷◌, replicate,
}
use powerapi.Prelude.Int.{pos}
use powerapi.Msg.{MsgFactory}
use powerapi.Buffer.{init_pwr_msg_buffer}
use powerapi.Clients.{no_client}
use powerapi.Tasks.{Timeval, CollDataSubscriber, no_subscriber, max_task_num}
use powerapi.Server.{Server}
use powerapi.Server.Metadata.{get_time_distance, due, Room, send_loop}
use powerapi.Server.Metadata.Delivery.{micro, due_paced, Delivered, targets, send_loop-Delivered}

abbrev start : Timeval
start = record { tv_sec = 10; tv_usec = 0 }

abbrev waits_long : CollDataSubscriber
waits_long = record {
  sys_id = 7;
  interval = pos 1000;
  last_sent = record { tv_sec = 8; tv_usec = 0 };
}

abbrev just_served : CollDataSubscriber
just_served = record {
  sys_id = 8;
  interval = pos 1000;
  last_sent = record { tv_sec = 9; tv_usec = 500_000 };
}

abbrev slots : List CollDataSubscriber
slots = waits_long ∷ just_served ∷ no_subscriber ∷ []

abbrev plenty : ℕ → Room
plenty i = record { copy = true; message = true }

abbrev daemon : Server
daemon = record {
  clients = no_client ∷ no_client ∷ no_client ∷ [];
  auth = record { authed = false; auth_owner = 0 };
  tasks = record { coll_task_list = replicate max_task_num none; task_num = 0; has_inited = true };
  send_buff = init_pwr_msg_buffer;
  recv_buff = init_pwr_msg_buffer;
}

abbrev factory : MsgFactory
factory = record { pid = 1; seed = 0 }

one_target : targets plenty (5 ∷ []) start 0 slots ≡ 7 ∷ []
unfolding due get_time_distance
one_target = refl

due_paced_example :
    (due start waits_long ≡ true → micro waits_long.last_sent + 1000 * 1000 < micro start + 1000)
    × (waits_long.sys_id ≢ 0
        → micro waits_long.last_sent + 1000 * 1000 + 1000 ≤ micro start
        → due start waits_long ≡ true)
due_paced_example = due_paced start waits_long 1000 refl

send_loop-Delivered_example :
    Delivered plenty
      (5 ∷ [])
      start
      0
      slots
      daemon
      (send_loop plenty (5 ∷ []) start 0 slots daemon factory)
send_loop-Delivered_example = send_loop-Delivered plenty (5 ∷ []) start 0 slots daemon factory
