-- ===== src/Tasks/Busy.antt =====
-- What `UpdataTaskInterval` makes of a task that a subscriber has left.
use powerapi.Prelude.{ℕ, ◌-◌, ◌<◌, ◌≡◌, false, none, some, arith, ◌==◌, get_or, get_or-set_self}
use powerapi.Prelude.Int.{pos, ◌≤ℤ◌}
use powerapi.Tasks.{
  CollTask, TaskService, max_dc_interval, find_subscriber_by_id, updata_task_interval, unsubscribe,
  delete_subscriber,
}
use powerapi.Tasks.Interval.{min_interval-free}
use powerapi.Tasks.Subscribers.{found-lt}
use powerapi.Tasks.Service.{delete_task}
use powerapi.Tasks.Valid.{Found}

-- When one of several subscribers leaves a task by `DeleteTask`, the task stays, with an interval
-- of at most 0, whatever the subscribers that are left asked for: the slot just freed counts as a
-- subscriber with interval 0.
pub delete_task_interval :
    (s : TaskService) (dt c i k : ℕ) (t : CollTask)
    → Found s dt i t
    → find_subscriber_by_id t.subscriber_list c ≡ some k
    → 1 < t.sub_num
    → (t' : CollTask) × (get_or (delete_task s dt c).1.coll_task_list i none ≡ some t')
      × (t'.interval ≤ℤ pos 0)
unfolding delete_task delete_subscriber unsubscribe updata_task_interval
delete_task_interval s dt c i k t f found several =
    let t' = unsubscribe t c in
    let more : (t.sub_num - 1 == 0) ≡ false = ground arith in
    (
      updata_task_interval t' none,
      rw (f.hit, delete_task, f.at, delete_subscriber, found, unsubscribe, more)
          (get_or-set_self s.coll_task_list i _ none f.within),
      rw (found, unsubscribe)
          (min_interval-free max_dc_interval t.subscriber_list k
            (found-lt c t.subscriber_list k found)),
    )
