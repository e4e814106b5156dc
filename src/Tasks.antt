-- ===== src/Tasks.antt =====
-- The data collection tasks, pwrapis/src/taskservice.c: one task for each type of data, with the
-- clients that subscribe to it. The mutex makes each call one step. What `malloc`,
-- `pthread_create` and `gettimeofday` answer are arguments; an index is `none` for INVALID_INDEX.
-- `subNum` is decremented only where it is positive, so it is a number.
pub mod Subscribers
pub mod Interval
pub mod One
pub mod Service
pub mod Table
pub mod Valid
pub mod Create
pub mod Delete
pub mod DeleteAll
pub mod Busy
pub mod Tests
use mathlib.Core.Option
use powerapi.Prelude.{
  ℕ, zero, suc, ◌+◌, ◌-◌, Bool, true, false, ◌&&◌, Option, none, some, List, [], ◌∷◌, ◌==◌,
  if◌then◌else◌, leb, get_or, set, replicate, length,
}
use powerapi.Prelude.Int.{ℤ, pos, ltb_ℤ}
use powerapi.Codes.{success, err_sys_exception, err_task_not_exists, err_over_max_task_num}
use powerapi.Thread.{ThreadInfo, init_thread_info, create_thread, fini_thread_info}

-- `struct timeval`
pub record Timeval : Type 0 where
  pub tv_sec : ℕ
  pub tv_usec : ℕ

-- `CollDataSubscriber`; a slot whose id is 0 is free.
pub record CollDataSubscriber : Type 0 where
  pub sys_id : ℕ
  pub interval : ℤ
  pub last_sent : Timeval

pub record CollTask : Type 0 where
  pub data_type : ℕ
  pub interval : ℤ
  pub sub_num : ℕ
  pub subscriber_list : List CollDataSubscriber
  pub coll_thread : ThreadInfo

-- `g_collTaskList`, `g_taskNum` and `g_hasInited`
pub record TaskService : Type 0 where
  pub coll_task_list : List (Option CollTask)
  pub task_num : ℕ
  pub has_inited : Bool

-- `PWR_COM_BasicDcTaskInfo`
pub record BasicDcTaskInfo : Type 0 where
  pub data_type : ℕ
  pub interval : ℤ

abbrev pub max_task_num : ℕ
max_task_num = 10

-- `MAX_CLIENT_NUM`
abbrev pub max_client_num : ℕ
max_client_num = 3

abbrev pub max_dc_interval : ℤ
max_dc_interval = pos 100_000_000

abbrev pub epoch : Timeval
epoch = record { tv_sec = 0; tv_usec = 0 }

-- A slot after `bzero`.
abbrev pub no_subscriber : CollDataSubscriber
no_subscriber = record { sys_id = 0; interval = pos 0; last_sent = epoch }

pub is_of_type : ℕ → Option CollTask → Bool
is_of_type data_type none = false
is_of_type data_type (some task) = task.data_type == data_type

pub is_null : Option CollTask → Bool
is_null none = true
is_null (some task) = false

-- The first slot that passes a test.
pub find_task : (Option CollTask → Bool) → List (Option CollTask) → Option ℕ
find_task test [] = none
find_task test (t ∷ ts) = if test t then some 0 else Option.map suc (find_task test ts)

pub find_coll_task_by_type : TaskService → ℕ → Option ℕ
unfolding is_of_type
find_coll_task_by_type s data_type =
    if s.task_num == 0 then none else find_task (is_of_type data_type) s.coll_task_list

pub find_availeble_task_slot : TaskService → Option ℕ
unfolding is_null
find_availeble_task_slot s = find_task is_null s.coll_task_list

-- The service afterwards, and the threads joined. No caller passes the index of a NULL slot.
pub fini_task : TaskService → ℕ → TaskService × List ℕ
fini_task s index = elim (get_or s.coll_task_list index none) [
  | none ↦ (s, [])
  | some task ↦ (
    record s { coll_task_list = set s.coll_task_list index none; task_num = s.task_num - 1 },
    (fini_thread_info task.coll_thread).1,
  )
]

-- The loop of `UpdataTaskInterval`.
pub min_interval : ℤ → List CollDataSubscriber → ℤ
min_interval interval [] = interval
min_interval interval (c ∷ cs) =
    min_interval (if ltb_ℤ c.interval interval then c.interval else interval) cs

pub updata_task_interval : CollTask → Option ℕ → CollTask
unfolding min_interval
updata_task_interval task (some sub_idx) =
    let wanted : ℤ = (get_or task.subscriber_list sub_idx no_subscriber).interval in
    if ltb_ℤ wanted task.interval then record task { interval = wanted } else task
updata_task_interval task none = record task {
  interval = min_interval max_dc_interval task.subscriber_list;
}

-- The first subscriber slot with the id; id 0 finds a free one.
pub find_subscriber_by_id : List CollDataSubscriber → ℕ → Option ℕ
find_subscriber_by_id [] subscriber = none
find_subscriber_by_id (c ∷ cs) subscriber =
    if c.sys_id == subscriber then some 0 else Option.map suc (find_subscriber_by_id cs subscriber)

-- `AddSubscriber` on the task at the index: the return code and the task.
pub subscribe : CollTask → BasicDcTaskInfo → ℕ → Timeval → ℕ × CollTask
unfolding updata_task_interval
subscribe task info subscriber now =
    let subs = task.subscriber_list in
    elim (find_subscriber_by_id subs subscriber) [
      | some i ↦
          let old = get_or subs i no_subscriber in
          (
            success,
            updata_task_interval
                (record task {
                  subscriber_list = set subs i (record old { interval = info.interval });
                })
                (some i),
          )
      | none ↦ elim (find_subscriber_by_id subs 0) [
        | none ↦ (err_sys_exception, task)
        | some i ↦ (
          success,
          updata_task_interval
              (record task {
                subscriber_list =
                    set subs i
                      (record { sys_id = subscriber; interval = info.interval; last_sent = now });
                sub_num = task.sub_num + 1;
              })
              (some i),
        )
      ]
    ]

pub add_subscriber : TaskService → ℕ → BasicDcTaskInfo → ℕ → Timeval → ℕ × TaskService
add_subscriber s index info subscriber now = elim (get_or s.coll_task_list index none) [
  | none ↦ (err_task_not_exists, s)
  | some task ↦
      let (code, task') = subscribe task info subscriber now in
      (code, record s { coll_task_list = set s.coll_task_list index (some task') })
]

-- The first loop of `DeleteSubscriber`.
pub unsubscribe : CollTask → ℕ → CollTask
unsubscribe task subscriber = elim (find_subscriber_by_id task.subscriber_list subscriber) [
  | none ↦ task
  | some i ↦ record task {
    subscriber_list = set task.subscriber_list i no_subscriber;
    sub_num = task.sub_num - 1;
  }
]

-- The return code, the service afterwards, and the threads joined.
pub delete_subscriber : TaskService → ℕ → ℕ → ℕ × TaskService × List ℕ
unfolding fini_task updata_task_interval
delete_subscriber s index subscriber = elim (get_or s.coll_task_list index none) [
  | none ↦ (err_task_not_exists, s, [])
  | some task ↦
      let task' = unsubscribe task subscriber in
      let s' = record s { coll_task_list = set s.coll_task_list index (some task') } in
      let (ended, joined) = fini_task s' index in
      if task'.sub_num == 0 then (success, ended, joined) else (
        success,
        record s {
          coll_task_list = set s.coll_task_list index (some (updata_task_interval task' none));
        },
        [],
      )
]
