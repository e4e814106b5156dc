-- ===== src/Server/Metadata.antt =====
-- What the thread of a collection task does, pwrapis/src/taskservice.c, with GetTimeDistance of
-- pwrapis/src/utils.c. The readings of the system and the layout of what is sent are arguments.
pub mod Delivery
pub mod Tests
use powerapi.Prelude.{
  ℕ, zero, suc, ◌+◌, ◌*◌, ◌/◌, Bool, true, false, not, ◌&&◌, Option, none, some, List, [], ◌∷◌,
  ◌==◌, if◌then◌else◌, length,
}
use powerapi.Prelude.Int.{ℤ, pos, negsuc, sub_ℕ, ltb_ℤ, ◌+ℤ◌, ◌-ℤ◌}
use powerapi.Msg.{MsgFactory}
use powerapi.Tasks.{Timeval, CollDataSubscriber, CollTask}
use powerapi.Server.{Server, send_metadata_to_client}

-- The division of C by 1000, which cuts off towards 0.
abbrev pub per_thousand : ℤ → ℤ
per_thousand (pos n) = pos (n / 1000)
per_thousand (negsuc n) = sub_ℕ 0 ((n + 1) / 1000)

-- In milliseconds.
unfoldable pub get_time_distance : Timeval → Timeval → ℤ
get_time_distance v1 v2 =
    sub_ℕ (v1.tv_sec * 1000) (v2.tv_sec * 1000) +ℤ per_thousand (sub_ℕ v1.tv_usec v2.tv_usec)

-- Whether it is time to send to a subscriber.
unfoldable pub due : Timeval → CollDataSubscriber → Bool
due start sub =
    not (sub.sys_id == 0) && not (ltb_ℤ (get_time_distance start sub.last_sent) sub.interval)

-- What `malloc` answers for the copy and for the message to a slot.
pub record Room : Type 0 where
  pub copy : Bool
  pub message : Bool

-- The loop, from slot `i` on: the subscribers afterwards, and what became of the rest.
unfoldable pub send_loop :
    (ℕ → Room)
    → List ℕ
    → Timeval
    → ℕ
    → List CollDataSubscriber
    → Server
    → MsgFactory
    → List CollDataSubscriber × Server × MsgFactory
send_loop room bytes start i [] s f = ([], s, f)
send_loop room bytes start i (sub ∷ subs) s f =
    let go = due start sub && (room i).copy in
    let (s', f') =
      if go
      then send_metadata_to_client (room i).message s f sub.sys_id (some bytes) (length bytes)
      else (s, f) in
    let (subs', s'', f'') = send_loop room bytes start (suc i) subs s' f' in
    ((if go then record sub { last_sent = start } else sub) ∷ subs', s'', f'')

unfoldable pub send_metadata_to_subscribers :
    (ℕ → Room) → CollTask → List ℕ → Timeval → Server → MsgFactory → CollTask × Server × MsgFactory
unfolding send_loop
send_metadata_to_subscribers room task bytes start s f =
    let (subs, s', f') = send_loop room bytes start 0 task.subscriber_list s f in
    (record task { subscriber_list = subs }, s', f')

-- `PWR_COM_CallbackData` with what follows it.
pub record CallbackData : Type 0 where
  pub ctime : List ℕ
  pub data_type : ℕ
  pub data_len : ℕ
  pub content : List ℕ

-- The object that is sent; `encode` lays it out, and `content_len` is how much is allocated behind the
-- head.
unfoldable pub create_medata_object : List ℕ → ℕ → ℕ → List ℕ → CallbackData
create_medata_object now content_len data_type content = record {
  ctime = now;
  data_type = data_type;
  data_len = content_len;
  content = content;
}

-- What one round is given: the time as a text, `malloc` for the object, what is read, `none` where that
-- fails, and how much memory is given for it.
pub record Reading : Type 0 where
  pub now : List ℕ
  pub malloc : Bool
  pub content : Option (List ℕ)
  pub content_len : ℕ

pub data Action : Type 0 where
  task_process_cpu_perf task_process_cpu_usage : Action

unfoldable pub get_action_by_data_type : ℕ → Option Action
get_action_by_data_type data_type =
    if data_type == 1
    then some task_process_cpu_perf
    else if data_type == 2
    then some task_process_cpu_usage
    else none

-- One round of `RunDcTaskProcess`: the times before it sleeps and after, and what both readings give.
pub record Round : Type 0 where
  pub after : Timeval
  pub start : Timeval
  pub perf : Reading
  pub cpu_usage : Reading
  pub room : ℕ → Room

-- How long it sleeps, in milliseconds, if the number is above 0.
unfoldable pub sleep_time : CollTask → Timeval → Timeval → ℤ
unfolding get_time_distance
sleep_time task after before = task.interval -ℤ get_time_distance after before

abbrev pub chosen : Action → Round → Reading
chosen task_process_cpu_perf r = r.perf
chosen task_process_cpu_usage r = r.cpu_usage

module _ (encode : CallbackData → List ℕ) where
  -- `TaskProcessCpuPerf` and `TaskProcessCpuUsage`, which differ in what they read.
  unfoldable pub task_process :
      (ℕ → Room)
      → Reading
      → CollTask
      → Timeval
      → Server
      → MsgFactory
      → CollTask × Server × MsgFactory
  unfolding send_metadata_to_subscribers create_medata_object
  task_process room r task start s f = elim r.content [
    | none ↦ (task, s, f)
    | some content ↦
        let object = create_medata_object r.now r.content_len task.data_type content in
        if r.malloc
        then send_metadata_to_subscribers room task (encode object) start s f
        else (task, s, f)
  ]

  -- The rounds until `keepRunning` is cleared; no subscriber comes or goes meanwhile.
  unfoldable pub task_loop :
      Action → List Round → CollTask → Server → MsgFactory → CollTask × Server × MsgFactory
  unfolding task_process
  task_loop action [] task s f = (task, s, f)
  task_loop action (r ∷ rounds) task s f =
      let (task', s', f') = task_process r.room (chosen action r) task r.start s f in
      task_loop action rounds task' s' f'

  unfoldable pub run_dc_task_process :
      List Round → CollTask → Server → MsgFactory → CollTask × Server × MsgFactory
  unfolding get_action_by_data_type task_loop
  run_dc_task_process rounds task s f = elim (get_action_by_data_type task.data_type) [
    | none ↦ (task, s, f)
    | some action ↦ task_loop action rounds task s f
  ]
