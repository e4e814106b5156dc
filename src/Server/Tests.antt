-- ===== src/Server/Tests.antt =====
-- A daemon with two clients, the second of which holds the control authority.
use powerapi.Prelude.{
  ◌≡◌, ◌≢◌, refl, true, none, some, [], ◌∷◌, arith, ◌==◌, if◌then◌else◌, replicate,
}
use powerapi.Buffer.{init_pwr_msg_buffer}
use powerapi.Clients.{no_client, invalid_fd, get_fd_by_sys_id}
use powerapi.Auth.Holder.{holder}
use powerapi.Tasks.{TaskService, max_task_num}
use powerapi.Tasks.Table.{subscription}
use powerapi.Server.{Server, clean_client_resource}
use powerapi.Server.Gone.{Sane, clean_own_slot}

abbrev no_tasks : TaskService
no_tasks = record { coll_task_list = replicate max_task_num none; task_num = 0; has_inited = true }

abbrev daemon : Server
daemon = record {
  clients = record { fd = 5; sys_id = 7 } ∷ record { fd = 6; sys_id = 8 } ∷ no_client ∷ [];
  auth = record { authed = true; auth_owner = 8 };
  tasks = no_tasks;
  send_buff = init_pwr_msg_buffer;
  recv_buff = init_pwr_msg_buffer;
}

daemon-Sane : Sane daemon
daemon-Sane = record {
  clients_valid = record { size = refl; slots = ground arith };
  tasks_valid = record { size = refl; counted = refl; good = ground arith };
}

clean_own_slot_example :
    let s' = (clean_client_resource daemon 1 (some 1)).0 in
    Sane s'
    × (get_fd_by_sys_id s'.clients 8 ≡ invalid_fd)
    × (holder s'.auth ≢ some 8)
    × (subscription s'.tasks.coll_task_list 1 7
        ≡ (if 8 == 7 then none else subscription daemon.tasks.coll_task_list 1 7))
clean_own_slot_example =
    clean_own_slot daemon 1 1 7 daemon-Sane (omega arith) (omega arith) (omega arith)
