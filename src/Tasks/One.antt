-- ===== src/Tasks/One.antt =====
-- One task with its subscribers.
use powerapi.Prelude.{
  ℕ, ◌+◌, ◌≤◌, ◌<◌, ◌≡◌, ◌≢◌, ◌&&◌, ◌∙◌, refl, sym, ap, Option, get_or-set_self, Bool-cases, none,
  some, arith, ◌==◌, if◌then◌else◌, get_or, set, length, length-set, Option-cases, inl, inr,
}
use mathlib.Core.Path.{subst}
use powerapi.Prelude.Int.{ltb_ℤ}
use powerapi.Tasks.Interval.{AtMost, AtMost-mono, AtMost-set}
use powerapi.Tasks.Subscribers.{
  found-lt, Absent, Distinct, used, interval_of, interval_of-Absent, not_found, resubscribe, enter,
  leave,
}
use powerapi.Tasks.{
  CollDataSubscriber, CollTask, BasicDcTaskInfo, Timeval, no_subscriber, max_client_num,
  find_subscriber_by_id, updata_task_interval, subscribe, unsubscribe,
}

-- The subscribers have different ids, `subNum` counts them, and the task runs at least as often as
-- each of them asked for.
pub record IsTask (t : CollTask) : Type 0 where
  pub size : length t.subscriber_list ≡ max_client_num
  pub counted : t.sub_num ≡ used t.subscriber_list
  pub distinct : Distinct t.subscriber_list
  pub frequent : AtMost t.interval t.subscriber_list

pub updata_fields :
    (t : CollTask) (i : Option ℕ)
    → let t' = updata_task_interval t i in
      (t'.data_type ≡ t.data_type)
      × (t'.sub_num ≡ t.sub_num)
      × (t'.subscriber_list ≡ t.subscriber_list)
unfolding updata_task_interval
updata_fields t none = (refl, refl, refl)
updata_fields t (some i) = ground arith

-- A write to slot `i`, after which the interval is updated for that slot.
updata-AtMost :
    (t : CollTask) (i : ℕ) (c : CollDataSubscriber)
    → i < length t.subscriber_list
    → AtMost t.interval t.subscriber_list
    → (n : ℕ)
    → let t' = record t { subscriber_list = set t.subscriber_list i c; sub_num = n } in
      AtMost (updata_task_interval t' (some i)).interval (set t.subscriber_list i c)
unfolding updata_task_interval
updata-AtMost t i c h a n =
    let at_i = get_or-set_self t.subscriber_list i c no_subscriber h in
    elim (Bool-cases (ltb_ℤ c.interval t.interval)) [
      | inl less ↦
          rw (at_i, less)
            (AtMost-set c.interval t.subscriber_list i c (inr (omega arith))
              (AtMost-mono t.interval c.interval t.subscriber_list (ground (arith, less)) a))
      | inr more ↦
          rw (at_i, more)
            (AtMost-set t.interval t.subscriber_list i c (inr (ground (arith, more))) a)
    ]

written :
    (t : CollTask) (i : ℕ) (c : CollDataSubscriber) (n : ℕ)
    → IsTask t
    → i < length t.subscriber_list
    → n ≡ used (set t.subscriber_list i c)
    → Distinct (set t.subscriber_list i c)
    → IsTask (
        updata_task_interval
          (record t { subscriber_list = set t.subscriber_list i c; sub_num = n })
          (some i))
written t i c n v h e d =
    let t' = record t { subscriber_list = set t.subscriber_list i c; sub_num = n } in
    let (_, num, subs) = updata_fields t' (some i) in
    record {
      size = ap length subs ∙ length-set t.subscriber_list i c ∙ v.size;
      counted = num ∙ e ∙ ap used (sym subs);
      distinct = subst Distinct (sym subs) d;
      frequent =
          subst (AtMost (updata_task_interval t' (some i)).interval) (sym subs)
            (updata-AtMost t i c h v.frequent n);
    }

module _ (t : CollTask) (info : BasicDcTaskInfo) (s : ℕ) (now : Timeval) (v : IsTask t)
    (ne : s ≢ 0) where
  pub subscribe-IsTask : IsTask (subscribe t info s now).1
  unfolding subscribe
  subscribe-IsTask = elim (Option-cases (find_subscriber_by_id t.subscriber_list s)) [
    | inr (i, known) ↦
        let old = get_or t.subscriber_list i no_subscriber in
        let (n, w) = resubscribe t.subscriber_list i s 0 info.interval known v.distinct in
        rw (known, subscribe)
          (written t i (record old { interval = info.interval }) t.sub_num v
            (found-lt s t.subscriber_list i known) (v.counted ∙ sym n) w.distinct)
    | inl fresh ↦ elim (Option-cases (find_subscriber_by_id t.subscriber_list 0)) [
      | inl full ↦ rw (fresh, full, subscribe) v
      | inr (i, free) ↦
          let new : CollDataSubscriber = record {
            sys_id = s;
            interval = info.interval;
            last_sent = now;
          } in
          let (n, w) =
            enter t.subscriber_list i 1 new free ne (omega arith)
              (not_found s t.subscriber_list fresh) v.distinct in
          rw (fresh, free, subscribe)
            (written t i new (t.sub_num + 1) v (found-lt 0 t.subscriber_list i free)
              (omega (arith, v.counted, n)) w.distinct)
    ]
  ]

  pub subscribe_lookup :
      (u : ℕ)
      → u ≢ 0
      → interval_of (subscribe t info s now).1.subscriber_list u ≡ (
          if (subscribe t info s now).0 == 0 && s == u
          then some info.interval
          else interval_of t.subscriber_list u)
  unfolding subscribe
  subscribe_lookup u nu = elim (Option-cases (find_subscriber_by_id t.subscriber_list s)) [
    | inr (i, known) ↦
        let old = get_or t.subscriber_list i no_subscriber in
        let l = set t.subscriber_list i (record old { interval = info.interval }) in
        rw (known, subscribe, (updata_fields (record t { subscriber_list = l }) (some i)).2)
          (resubscribe t.subscriber_list i s u info.interval known v.distinct).1.lookup
    | inl fresh ↦ elim (Option-cases (find_subscriber_by_id t.subscriber_list 0)) [
      | inl full ↦ rw (fresh, full, subscribe)
      | inr (i, free) ↦
          let new : CollDataSubscriber = record {
            sys_id = s;
            interval = info.interval;
            last_sent = now;
          } in
          let l = set t.subscriber_list i new in
          rw
            (
              fresh,
              free,
              subscribe,
              (updata_fields (record t { subscriber_list = l; sub_num = t.sub_num + 1 })
                  (some i)).2,
            )
            (enter t.subscriber_list i u new free ne nu (not_found s t.subscriber_list fresh)
              v.distinct).1.lookup
    ]
  ]

pub subscribe_fields :
    (t : CollTask) (info : BasicDcTaskInfo) (s : ℕ) (now : Timeval)
    → ((subscribe t info s now).1.data_type ≡ t.data_type)
      × (t.sub_num ≤ (subscribe t info s now).1.sub_num)
unfolding subscribe updata_task_interval
subscribe_fields t info s now = ground arith

-- A task that a client has left, before its interval is updated.
pub record Left (t t' : CollTask) (s : ℕ) : Type 0 where
  pub same_type : t'.data_type ≡ t.data_type
  pub size : length t'.subscriber_list ≡ max_client_num
  pub counted : t'.sub_num ≡ used t'.subscriber_list
  pub distinct : Distinct t'.subscriber_list
  pub gone : Absent s t'.subscriber_list

module _ (t : CollTask) (s : ℕ) (v : IsTask t) (ne : s ≢ 0) where
  pub unsubscribe-Left : Left t (unsubscribe t s) s
  unfolding unsubscribe
  unsubscribe-Left = elim (Option-cases (find_subscriber_by_id t.subscriber_list s)) [
    | inl missing ↦
        rw (missing, unsubscribe)
          (record {
            same_type = refl;
            size = v.size;
            counted = v.counted;
            distinct = v.distinct;
            gone = not_found s t.subscriber_list missing;
          })
    | inr (i, found) ↦
        let (n, w, gone) = leave t.subscriber_list i s 1 found ne (omega arith) v.distinct in
        rw (found, unsubscribe)
          (record {
            same_type = refl;
            size = length-set t.subscriber_list i no_subscriber ∙ v.size;
            counted = omega (arith, v.counted, n);
            distinct = w.distinct;
            gone = gone;
          })
  ]

  pub unsubscribe_lookup :
      (u : ℕ)
      → u ≢ 0
      → interval_of (unsubscribe t s).subscriber_list u
        ≡ (if s == u then none else interval_of t.subscriber_list u)
  unfolding unsubscribe
  unsubscribe_lookup u nu = elim (Option-cases (find_subscriber_by_id t.subscriber_list s)) [
    | inl missing ↦ ground (
      arith,
      missing,
      interval_of-Absent s t.subscriber_list (not_found s t.subscriber_list missing),
    )
    | inr (i, found) ↦
        rw (found, unsubscribe) (leave t.subscriber_list i s u found ne nu v.distinct).1.lookup
  ]
