-- ===== src/Tasks/Create.antt =====
-- `CreateTask`: a client subscribes to a type of data.
use powerapi.Prelude.{
  ℕ, ◌<◌, ◌≡◌, ◌≢◌, refl, ap, length-set, ◌∙◌, Bool, true, false, ◌&&◌, Option, none, some, arith,
  ◌==◌, if◌then◌else◌, Option-cases, inl, inr,
}
use powerapi.Thread.{create_thread}
use powerapi.Tasks.{
  CollTask, TaskService, BasicDcTaskInfo, Timeval, find_task, is_null, find_availeble_task_slot,
  subscribe, add_subscriber,
}
use powerapi.Tasks.One.{IsTask, subscribe-IsTask, subscribe_lookup, subscribe_fields}
use powerapi.Tasks.Subscribers.{interval_of}
use powerapi.Tasks.Service.{new_task, create_new_task, create_task}
use powerapi.Tasks.Table.{
  TypeAbsent, subscription, subscription-TypeAbsent, found_free, TypeAbsent-cut, write, alone,
  is_some,
}
use powerapi.Tasks.Valid.{IsValid, Effect, Effect-refl, Found, type_cases, put_back}

module _ (s : TaskService) (info : BasicDcTaskInfo) (c : ℕ) (now : Timeval) (v : IsValid s)
    (ne : c ≢ 0) where
  -- The task of the type gets the subscriber.
  join :
      (i : ℕ) (t : CollTask)
      → Found s info.data_type i t
      → let (code, s') = add_subscriber s i info c now in
        Effect s s' info.data_type c (code == 0) (some info.interval)
  unfolding add_subscriber
  join i t f =
      let a = alone s.coll_task_list i t v.good f.at in
      let (ty, more) = subscribe_fields t info c now in
      let t' = (subscribe t info c now).1 in
      let fits : 0 < t'.sub_num = omega (arith, more, a.subscribed) in
      let (v', w) =
        put_back s i info.data_type t (some t') v f.place
          (subscribe-IsTask t info c now a.task ne, fits, ty ∙ f.type) in
      rw (f.at, add_subscriber)
        (record {
          valid = record { size = v'.size; counted = omega (arith, v'.counted); good = v'.good };
          lookup = λ dt' u nu.
              w.lookup dt' u
              ∙ ground (
                arith,
                subscribe_lookup t info c now a.task ne u nu,
                a.lookup u,
                f.type,
                ap (λ d. subscription s.coll_task_list d u) f.type,
              );
        })

  new_task-IsTask : (thread : Option ℕ) → IsTask (new_task info c now thread)
  unfolding new_task
  new_task-IsTask thread = record {
    size = refl;
    counted = ground arith;
    distinct = ground arith;
    frequent = ground arith;
  }

  new_task-kept :
      (thread : Option ℕ)
      → (0 < (new_task info c now thread).sub_num)
        × ((new_task info c now thread).data_type ≡ info.data_type)
  unfolding new_task
  new_task-kept thread = (omega arith, refl)

  new_task-interval_of :
      (thread : Option ℕ) (u : ℕ)
      → u ≢ 0
      → interval_of (new_task info c now thread).subscriber_list u
        ≡ (if c == u then some info.interval else none)
  unfolding new_task
  new_task-interval_of thread u nu = ground arith

  -- The first subscriber of a type.
  start :
      (malloc : Bool) (thread : Option ℕ)
      → TypeAbsent info.data_type s.coll_task_list
      → let (code, s') = create_new_task s info c now malloc thread in
        Effect s s' info.data_type c (code == 0) (some info.interval)
  unfolding create_new_task find_availeble_task_slot create_thread
  start malloc thread a = elim (Option-cases (find_task is_null s.coll_task_list)) [
    | inl full ↦
        rw (full, create_new_task, find_availeble_task_slot)
          (Effect-refl s info.data_type c (some info.interval) v)
    | inr (i, free) ↦ started malloc thread a i free
  ]
    where
      started :
          (malloc : Bool) (thread : Option ℕ)
          → TypeAbsent info.data_type s.coll_task_list
          → (i : ℕ) → find_task is_null s.coll_task_list ≡ some i
          → let (code, s') = create_new_task s info c now malloc thread in
            Effect s s' info.data_type c (code == 0) (some info.interval)
      started false thread a i free =
          rw (free, create_new_task, find_availeble_task_slot)
            (Effect-refl s info.data_type c (some info.interval) v)
      started true none a i free =
          rw (free, create_new_task, find_availeble_task_slot)
            (Effect-refl s info.data_type c (some info.interval) v)
      started true (some tid) a i free =
          let (at, lt) = found_free s.coll_task_list i free in
          let t = new_task info c now (some tid) in
          let (n, w) =
            write s.coll_task_list i info.data_type (some t) lt v.good
              (TypeAbsent-cut info.data_type s.coll_task_list i a) (rw at tt)
              (
                new_task-IsTask (some tid),
                (new_task-kept (some tid)).0,
                (new_task-kept (some tid)).1,
              ) in
          rw (free, create_new_task, find_availeble_task_slot)
            (record {
              valid = record {
                size = length-set s.coll_task_list i (some t) ∙ v.size;
                counted = omega (arith, v.counted, n, ap is_some at);
                good = w.good;
              };
              lookup = λ dt' u nu.
                  w.lookup dt' u
                  ∙ ground (
                    arith,
                    new_task-interval_of (some tid) u nu,
                    subscription-TypeAbsent s.coll_task_list dt' u,
                  );
            })

  create_task-Effect :
      (malloc : Bool) (thread : Option ℕ)
      → let (code, s') = create_task s info c now malloc thread in
        Effect s s' info.data_type c (code == 0) (some info.interval)
  unfolding create_task
  create_task-Effect malloc thread = elim (type_cases s info.data_type v) [
    | inl (missing, a) ↦ rw (missing, create_task) (start malloc thread a)
    | inr (i, t, f) ↦ rw (f.hit, create_task) (join i t f)
  ]

-- `CreateTask` for a client with a proper id keeps the table well formed. If it answers success the
-- client is subscribed to the type with the interval that it asked for; all other subscriptions,
-- and on every error all of them, are as before.
pub create_task_subscriptions :
    (s : TaskService) (info : BasicDcTaskInfo) (c : ℕ) (now : Timeval) (malloc : Bool)
    (thread : Option ℕ) (dt u : ℕ)
    → IsValid s
    → c ≢ 0
    → u ≢ 0
    → let (code, s') = create_task s info c now malloc thread in
      IsValid s'
      × (subscription s'.coll_task_list dt u ≡ (
          if code == 0 && (info.data_type == dt && c == u)
          then some info.interval
          else subscription s.coll_task_list dt u))
create_task_subscriptions s info c now malloc thread dt u v nc nu =
    let e = create_task-Effect s info c now v nc malloc thread in (e.valid, e.lookup dt u nu)
