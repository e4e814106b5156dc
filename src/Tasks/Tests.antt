-- ===== src/Tasks/Tests.antt =====
-- A table with one task, which two clients subscribe to.
use powerapi.Prelude.{
  ◌≡◌, refl, true, ◌&&◌, none, some, [], ◌∷◌, arith, ◌==◌, if◌then◌else◌, replicate,
}
use powerapi.Prelude.Int.{pos}
use powerapi.Tasks.{
  CollTask, no_subscriber, TaskService, BasicDcTaskInfo, epoch, find_task, is_of_type,
  find_coll_task_by_type, max_task_num,
}
use powerapi.Thread.{init_thread_info, create_thread}
use powerapi.Tasks.Service.{create_task, delete_task, delete_all_task_by_client}
use powerapi.Tasks.Table.{subscription}
use powerapi.Tasks.Valid.{IsValid, Found}
use powerapi.Tasks.Create.{create_task_subscriptions}
use powerapi.Tasks.Delete.{delete_task_subscriptions}
use powerapi.Tasks.DeleteAll.{delete_all_subscriptions}

abbrev info : BasicDcTaskInfo
info = record { data_type = 1; interval = pos 1000 }

abbrev no_tasks : TaskService
no_tasks = record { coll_task_list = replicate max_task_num none; task_num = 0; has_inited = true }

abbrev one_task : TaskService
one_task = (create_task no_tasks info 7 epoch true (some 3)).1

abbrev two_clients : TaskService
two_clients = (create_task one_task info 8 epoch true none).1

no_tasks-IsValid : IsValid no_tasks
no_tasks-IsValid = record { size = refl; counted = refl; good = ground arith }

one_task-IsValid : IsValid one_task
one_task-IsValid =
    (create_task_subscriptions no_tasks info 7 epoch true (some 3) 1 7 no_tasks-IsValid
      (omega arith) (omega arith)).0

two_clients-IsValid : IsValid two_clients
two_clients-IsValid =
    (create_task_subscriptions one_task info 8 epoch true none 1 8 one_task-IsValid (omega arith)
      (omega arith)).0

create_task_subscriptions_example :
    IsValid two_clients
    × (subscription two_clients.coll_task_list 1 8 ≡ (
        if (create_task one_task info 8 epoch true none).0 == 0 && (1 == 1 && 8 == 8)
        then some (pos 1000)
        else subscription one_task.coll_task_list 1 8))
create_task_subscriptions_example =
    create_task_subscriptions one_task info 8 epoch true none 1 8 one_task-IsValid (omega arith)
      (omega arith)

delete_task_subscriptions_example :
    ((delete_task two_clients 1 8).0 ≡ 0)
    × IsValid (delete_task two_clients 1 8).1
    × (subscription (delete_task two_clients 1 8).1.coll_task_list 1 7
        ≡ (if 1 == 1 && 8 == 7 then none else subscription two_clients.coll_task_list 1 7))
delete_task_subscriptions_example =
    delete_task_subscriptions two_clients 1 8 1 7 two_clients-IsValid (omega arith) (omega arith)

delete_all_subscriptions_example :
    IsValid (delete_all_task_by_client two_clients 7).0
    × (subscription (delete_all_task_by_client two_clients 7).0.coll_task_list 1 7
        ≡ (if 7 == 7 then none else subscription two_clients.coll_task_list 1 7))
delete_all_subscriptions_example =
    delete_all_subscriptions two_clients 7 1 7 two_clients-IsValid (omega arith) (omega arith)

abbrev shared : CollTask
shared = record {
  data_type = 1;
  interval = pos 1000;
  sub_num = 2;
  subscriber_list =
      record { sys_id = 7; interval = pos 1000; last_sent = epoch }
      ∷ record { sys_id = 8; interval = pos 1000; last_sent = epoch }
      ∷ no_subscriber
      ∷ [];
  coll_thread = (create_thread init_thread_info (some 3)).1;
}

abbrev sharing : TaskService
sharing = record {
  coll_task_list = some shared ∷ replicate 9 none;
  task_num = 1;
  has_inited = true;
}

shared-Found : Found sharing 1 0 shared
unfolding find_coll_task_by_type find_task is_of_type
shared-Found = record {
  place = record { at = refl; type = refl; within = omega arith };
  hit = refl;
}
