-- ===== src/Server/EndToEnd/Tests.antt =====
-- A client in the first slot of a daemon, while another client holds the authority.
use powerapi.Prelude.{ℕ, true, none, List, [], ◌∷◌, replicate}
use powerapi.Prelude.Int.{pos}
use powerapi.Msg.{MsgFactory}
use powerapi.Buffer.{init_pwr_msg_buffer}
use powerapi.Clients.{no_client}
use powerapi.Tasks.{max_task_num}
use powerapi.Request.Cpu
use powerapi.Server.{Server, Layout, Luck}
use powerapi.Server.Route.{Handler, get_cpuinfo_h, get_cpu_perf_data_h}

abbrev layout : Layout
layout = record {
  info_size = 8;
  type_size = 4;
  read_info = λ bytes. record { data_type = 1; interval = pos 1000 };
  read_type = λ bytes. 1;
}

abbrev luck : Luck
luck = record {
  malloc_rsp = true;
  now = record { tv_sec = 0; tv_usec = 0 };
  malloc_task = true;
  thread = none;
}

abbrev daemon : Server
daemon = record {
  clients = record { fd = 5; sys_id = 7 } ∷ record { fd = 6; sys_id = 8 } ∷ no_client ∷ [];
  auth = record { authed = true; auth_owner = 8 };
  tasks = record { coll_task_list = replicate max_task_num none; task_num = 0; has_inited = true };
  send_buff = init_pwr_msg_buffer;
  recv_buff = init_pwr_msg_buffer;
}

abbrev factory : MsgFactory
factory = record { pid = 7; seed = 0 }

abbrev old : List ℕ
old = 0 ∷ 0 ∷ 0 ∷ 0 ∷ []

abbrev bodies : Handler → List ℕ
bodies get_cpuinfo_h = 1 ∷ 2 ∷ []
bodies get_cpu_perf_data_h = 3 ∷ []
bodies h = []
