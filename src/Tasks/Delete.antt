-- ===== src/Tasks/Delete.antt =====
-- `DeleteTask` and `DeleteAllTaskByClient`: a client leaves one type of data, or all.
use mathlib.Core.Path.{subst}
use powerapi.Prelude.{
  ℕ, ◌-◌, ◌<◌, ◌≡◌, ◌≢◌, refl, sym, ap, ◌∙◌, true, ◌&&◌, none, some, List, [], ◌∷◌, arith, ◌==◌,
  if◌then◌else◌, set, length, get_or-set_self, set-set, Bool-cases, inl, inr,
}
use powerapi.Tasks.{
  CollDataSubscriber, CollTask, TaskService, max_dc_interval, fini_task, updata_task_interval,
  unsubscribe, delete_subscriber, min_interval,
}
use powerapi.Tasks.One.{unsubscribe-Left, unsubscribe_lookup}
use powerapi.Tasks.Interval.{min_interval-AtMost}
use powerapi.Tasks.Subscribers.{interval_of, used}
use powerapi.Tasks.Service.{delete_task}
use powerapi.Tasks.Table.{subscription, subscription-TypeAbsent, alone}
use powerapi.Tasks.Valid.{IsValid, Effect, At, type_cases, put_back}

-- Without a subscriber nothing is asked for.
used-none : (cs : List CollDataSubscriber) (u : ℕ) → u ≢ 0 → used cs ≡ 0 → interval_of cs u ≡ none
used-none [] u nu e = refl
used-none (x ∷ cs) u nu e = ground (arith, used-none cs u nu)

-- `FiniTask` on a slot that was just written.
pub fini_written :
    (s : TaskService) (i : ℕ) (t : CollTask)
    → i < length s.coll_task_list
    → (fini_task (record s { coll_task_list = set s.coll_task_list i (some t) }) i).0
      ≡ record s { coll_task_list = set s.coll_task_list i none; task_num = s.task_num - 1 }
unfolding fini_task
fini_written s i t h =
    rw (get_or-set_self s.coll_task_list i (some t) none h, fini_task)
      (ap (λ l. record s { coll_task_list = l; task_num = s.task_num - 1 })
        (set-set s.coll_task_list i (some t) none))

module _ (s : TaskService) (c : ℕ) (v : IsValid s) (ne : c ≢ 0) where
  -- `DeleteSubscriber` on the task at an index.
  pub delete_subscriber-Effect :
      (i dt : ℕ) (t : CollTask) → At s dt i t → Effect s (delete_subscriber s i c).1 dt c true none
  unfolding delete_subscriber fini_task updata_task_interval
  delete_subscriber-Effect i dt t f =
      let a = alone s.coll_task_list i t v.good f.at in
      let left = unsubscribe-Left t c a.task ne in
      let t' = unsubscribe t c in
      elim (Bool-cases (t'.sub_num == 0)) [
        | inl last ↦
            let (v', w) = put_back s i dt t none v f tt in
            rw (f.at, last, delete_subscriber)
              (subst (λ r. Effect s r dt c true none) (sym (fini_written s i t' f.within))
                (record {
                  valid = record {
                    size = v'.size;
                    counted = omega (arith, v'.counted);
                    good = v'.good;
                  };
                  lookup = λ dt' u nu.
                      w.lookup dt' u
                      ∙ ground (
                        arith,
                        a.lookup u,
                        f.type,
                        ap (λ d. subscription s.coll_task_list d u) f.type,
                        unsubscribe_lookup t c a.task ne u nu,
                        used-none t'.subscriber_list u nu (ground (arith, last, left.counted)),
                      );
                }))
        | inr more ↦
            let t'' = record t' { interval = min_interval max_dc_interval t'.subscriber_list } in
            let (v', w) = put_back s i dt t (some t'') v f (
              record {
                size = left.size;
                counted = left.counted;
                distinct = left.distinct;
                frequent = min_interval-AtMost max_dc_interval t'.subscriber_list;
              },
              ground (arith, more),
              left.same_type ∙ f.type,
            ) in
            rw (f.at, more, delete_subscriber)
              (record {
                valid = record {
                  size = v'.size;
                  counted = omega (arith, v'.counted);
                  good = v'.good;
                };
                lookup = λ dt' u nu.
                    w.lookup dt' u
                    ∙ ground (
                      arith,
                      a.lookup u,
                      f.type,
                      ap (λ d. subscription s.coll_task_list d u) f.type,
                      unsubscribe_lookup t c a.task ne u nu,
                    );
              })
      ]

  delete_task-Effect :
      (dt : ℕ) → ((delete_task s dt c).0 ≡ 0) × Effect s (delete_task s dt c).1 dt c true none
  unfolding delete_task
  delete_task-Effect dt = elim (type_cases s dt v) [
    | inl (missing, a) ↦ (
      rw (missing, delete_task),
      rw (missing, delete_task)
          (record {
            valid = v;
            lookup = λ dt' u nu. ground (arith, subscription-TypeAbsent s.coll_task_list dt u a);
          }),
    )
    | inr (i, t, f) ↦
        (rw (f.hit, delete_task), rw (f.hit, delete_task) (delete_subscriber-Effect i dt t f.place))
  ]

-- `DeleteTask` for a client with a proper id answers success, keeps the table well formed, and ends
-- the client's subscription to the type; all other subscriptions are as before.
pub delete_task_subscriptions :
    (s : TaskService) (dt c dt' u : ℕ)
    → IsValid s
    → c ≢ 0
    → u ≢ 0
    → let (code, s', joined) = delete_task s dt c in
      (code ≡ 0)
      × IsValid s'
      × (subscription s'.coll_task_list dt' u
          ≡ (if dt == dt' && c == u then none else subscription s.coll_task_list dt' u))
delete_task_subscriptions s dt c dt' u v nc nu =
    let (code, e) = delete_task-Effect s c v nc dt in (code, e.valid, e.lookup dt' u nu)
