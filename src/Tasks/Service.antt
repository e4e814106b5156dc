-- ===== src/Tasks/Service.antt =====
-- The calls on the table of tasks: `CreateNewTask` and what stands below it in taskservice.c.
-- `malloc` is `true` where it succeeds; `thread` is the answer of `pthread_create`.
use powerapi.Prelude.{
  ℕ, zero, suc, ◌+◌, Bool, true, false, Option, none, some, List, [], ◌∷◌, ◌++◌, ◌==◌,
  if◌then◌else◌, get_or, set, replicate,
}
use powerapi.Codes.{success, err_sys_exception, err_over_max_task_num}
use powerapi.Thread.{init_thread_info, create_thread}
use powerapi.Tasks.{
  CollTask, TaskService, BasicDcTaskInfo, Timeval, max_task_num, no_subscriber,
  find_coll_task_by_type, find_availeble_task_slot, fini_task, add_subscriber, delete_subscriber,
}

unfoldable pub new_task : BasicDcTaskInfo → ℕ → Timeval → Option ℕ → CollTask
new_task info subscriber now thread = record {
  data_type = info.data_type;
  interval = info.interval;
  sub_num = 1;
  subscriber_list =
      record { sys_id = subscriber; interval = info.interval; last_sent = now }
      ∷ no_subscriber
      ∷ no_subscriber
      ∷ [];
  coll_thread = (create_thread init_thread_info thread).1;
}

unfoldable pub create_new_task :
    TaskService → BasicDcTaskInfo → ℕ → Timeval → Bool → Option ℕ → ℕ × TaskService
unfolding new_task
create_new_task s info subscriber now malloc thread = elim (find_availeble_task_slot s) [
  | none ↦ (err_over_max_task_num, s)
  | some slot ↦
      let code = (create_thread init_thread_info thread).0 in
      if malloc
      then (if code == success
          then (
            code,
            record s {
              coll_task_list =
                  set s.coll_task_list slot (some (new_task info subscriber now thread));
              task_num = s.task_num + 1;
            },
          )
          else (code, s))
      else (err_sys_exception, s)
]

unfoldable pub create_task :
    TaskService → BasicDcTaskInfo → ℕ → Timeval → Bool → Option ℕ → ℕ × TaskService
create_task s info subscriber now malloc thread = elim (find_coll_task_by_type s info.data_type) [
  | some index ↦ add_subscriber s index info subscriber now
  | none ↦ create_new_task s info subscriber now malloc thread
]

-- The return code, the service afterwards, and the threads joined.
unfoldable pub delete_task : TaskService → ℕ → ℕ → ℕ × TaskService × List ℕ
delete_task s data_type subscriber = elim (find_coll_task_by_type s data_type) [
  | some index ↦
      let (code, s', joined) = delete_subscriber s index subscriber in (success, s', joined)
  | none ↦ (success, s, [])
]

-- `if (g_collTaskList[i]) body(i);`
unfoldable pub visit :
    (TaskService → ℕ → TaskService × List ℕ)
    → Option CollTask
    → TaskService
    → ℕ
    → TaskService × List ℕ
visit body none s i = (s, [])
visit body (some task) s i = body s i

-- `for (i = first; i < first + rounds; i++) if (g_collTaskList[i]) body(i);`
unfoldable pub for_tasks :
    ℕ → ℕ → (TaskService → ℕ → TaskService × List ℕ) → TaskService → TaskService × List ℕ
unfolding visit
for_tasks zero first body s = (s, [])
for_tasks (suc rounds) first body s =
    let (s', joined) = visit body (get_or s.coll_task_list first none) s first in
    let (s'', more) = for_tasks rounds (suc first) body s' in (s'', joined ++ more)

abbrev pub delete_round : ℕ → TaskService → ℕ → TaskService × List ℕ
delete_round subscriber s index =
    let (code, s', joined) = delete_subscriber s index subscriber in (s', joined)

-- Also `CleanDataCollTaskByClient`.
unfoldable pub delete_all_task_by_client : TaskService → ℕ → TaskService × List ℕ
unfolding for_tasks
delete_all_task_by_client s subscriber =
    let run = for_tasks max_task_num 0 (delete_round subscriber) s in
    if s.task_num == 0 then (s, []) else run

unfoldable pub fini_all_task : TaskService → TaskService × List ℕ
unfolding for_tasks
fini_all_task s = for_tasks max_task_num 0 fini_task s

unfoldable pub init_task_service : TaskService → TaskService
init_task_service s =
    if s.has_inited
    then s
    else record { coll_task_list = replicate max_task_num none; task_num = 0; has_inited = true }

unfoldable pub fini_task_service : TaskService → TaskService × List ℕ
fini_task_service s =
    let (s', joined) = fini_all_task s in (record s' { task_num = 0; has_inited = false }, joined)
