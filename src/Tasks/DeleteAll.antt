-- ===== src/Tasks/DeleteAll.antt =====
-- `DeleteAllTaskByClient`: a client that is gone leaves every task.
use powerapi.Prelude.{
  ℕ, zero, suc, ◌+◌, ◌<◌, ◌≡◌, ◌≢◌, refl, ap, ◌∙◌, Option, none, some, List, [], ◌∷◌, arith, ◌==◌,
  if◌then◌else◌, get_or, set, length, get_or-set_self, get_or-set_ne, Bool-cases, inl, inr,
}
use powerapi.Tasks.{
  CollTask, TaskService, max_task_num, delete_subscriber, unsubscribe, updata_task_interval,
}
use powerapi.Tasks.One.{unsubscribe-Left}
use powerapi.Tasks.Subscribers.{interval_of-Absent, Absent}
use powerapi.Tasks.Service.{visit, for_tasks, delete_round, delete_all_task_by_client}
use powerapi.Tasks.Table.{subscription, subscription-TypeAbsent, none_counted, alone}
use powerapi.Tasks.Valid.{IsValid, At}
use powerapi.Tasks.Delete.{delete_subscriber-Effect, fini_written}

-- The task in a slot, if any, does not have the subscriber.
abbrev Clear : ℕ → Option CollTask → Type 0
Clear c none = Unit {0}
Clear c (some t) = Absent c t.subscriber_list

Clear-none :
    (c dt : ℕ) (ts : List (Option CollTask))
    → ((j : ℕ) → j < length ts → Clear c (get_or ts j none))
    → subscription ts dt c ≡ none
Clear-none c dt [] h = refl
Clear-none c dt (none ∷ ts) h = Clear-none c dt ts (λ j lt. h (suc j) (omega arith))
Clear-none c dt (some t ∷ ts) h = ground (
  arith,
  interval_of-Absent c t.subscriber_list (h 0 (omega arith)),
  Clear-none c dt ts (λ j lt. h (suc j) (omega arith)),
)

-- What is left of the loop's work once the slots below `first` are clear.
record Round (s s' : TaskService) (c first : ℕ) : Type 0 where
  valid : IsValid s'
  others :
      (dt u : ℕ)
      → u ≢ 0
      → u ≢ c
      → subscription s'.coll_task_list dt u ≡ subscription s.coll_task_list dt u
  clear : (j : ℕ) → j < first → Clear c (get_or s'.coll_task_list j none)

Clear-upto :
    (c i j : ℕ) (ts after : List (Option CollTask)) (o : Option CollTask)
    → after ≡ set ts i o
    → Clear c o
    → i < length ts
    → ((k : ℕ) → k < i → Clear c (get_or ts k none))
    → j < suc i
    → Clear c (get_or after j none)
Clear-upto c i j ts after o e clear h before lt = elim (Bool-cases (j == i)) [
  | inl last ↦
      let j_eq : j ≡ i = ground (arith, last) in rw (e, j_eq, get_or-set_self ts i o none h) clear
  | inr earlier ↦
      rw (e, get_or-set_ne ts i j o none (ground (arith, earlier)))
        (before j (ground (arith, earlier)))
]

set_same :
    (ts : List (Option CollTask)) (i : ℕ) (o : Option CollTask)
    → get_or ts i none ≡ o
    → i < length ts
    → ts ≡ set ts i o
set_same [] i o e h = refl
set_same (x ∷ ts) zero o e h = ap (λ y. y ∷ ts) e
set_same (x ∷ ts) (suc i) o e h = ap (λ l. x ∷ l) (set_same ts i o e (omega arith))

module _ (c : ℕ) (ne : c ≢ 0) where
  -- The slots after `DeleteSubscriber` at index `i`.
  slots_after :
      (s : TaskService) (i : ℕ) (t : CollTask)
      → IsValid s
      → At s t.data_type i t
      → (o : Option CollTask) × ((delete_subscriber s i c).1.coll_task_list
          ≡ set s.coll_task_list i o)
        × Clear c o
  unfolding delete_subscriber updata_task_interval
  slots_after s i t v f =
      let a = alone s.coll_task_list i t v.good f.at in
      let left = unsubscribe-Left t c a.task ne in
      elim (Bool-cases ((unsubscribe t c).sub_num == 0)) [
        | inl last ↦ (
          none,
          rw (f.at, last, delete_subscriber)
              (ap (λ r. r.coll_task_list) (fini_written s i (unsubscribe t c) f.within)),
          tt,
        )
        | inr more ↦ (
          some (updata_task_interval (unsubscribe t c) none),
          rw (f.at, more, delete_subscriber),
          left.gone,
        )
      ]

  visit-Round :
      (s : TaskService) (i : ℕ) (o : Option CollTask)
      → get_or s.coll_task_list i none ≡ o
      → i < max_task_num
      → IsValid s
      → ((j : ℕ) → j < i → Clear c (get_or s.coll_task_list j none))
      → Round s (visit (delete_round c) o s i).0 c (suc i)
  unfolding visit
  visit-Round s i none at h v before =
      let lt : i < length s.coll_task_list = omega (arith, v.size) in
      record {
        valid = v;
        others = λ dt u nu nc. refl;
        clear = λ j l.
            Clear-upto c i j s.coll_task_list s.coll_task_list none
              (set_same s.coll_task_list i none at lt) tt lt before l;
      }
  visit-Round s i (some t) at h v before =
      let f : At s t.data_type i t = record {
        at = at;
        type = refl;
        within = omega (arith, v.size);
      } in
      let (o, slots, clear) = slots_after s i t v f in
      let e = delete_subscriber-Effect s c v ne i t.data_type t f in
      record {
        valid = e.valid;
        others = λ dt u nu nc. e.lookup dt u nu ∙ ground arith;
        clear = λ j l. Clear-upto c i j s.coll_task_list _ o slots clear f.within before l;
      }

  rounds-Round :
      (rounds first : ℕ) (s : TaskService)
      → first + rounds ≡ max_task_num
      → IsValid s
      → ((j : ℕ) → j < first → Clear c (get_or s.coll_task_list j none))
      → Round s (for_tasks rounds first (delete_round c) s).0 c max_task_num
  unfolding for_tasks
  rounds-Round zero first s e v before = record {
    valid = v;
    others = λ dt u nu nc. refl;
    clear = λ j l. before j (omega arith);
  }
  rounds-Round (suc rounds) first s e v before =
      let r =
        visit-Round s first (get_or s.coll_task_list first none) refl (omega arith) v before in
      let s' = (visit (delete_round c) (get_or s.coll_task_list first none) s first).0 in
      let r' = rounds-Round rounds (suc first) s' (omega arith) r.valid r.clear in
      record {
        valid = r'.valid;
        others = λ dt u nu nc. r'.others dt u nu nc ∙ r.others dt u nu nc;
        clear = r'.clear;
      }

-- `DeleteAllTaskByClient` for a client with a proper id keeps the table well formed, ends every
-- subscription of that client, and no other.
pub delete_all_subscriptions :
    (s : TaskService) (c dt u : ℕ)
    → IsValid s
    → c ≢ 0
    → u ≢ 0
    → let s' = (delete_all_task_by_client s c).0 in
      IsValid s'
      × (subscription s'.coll_task_list dt u
          ≡ (if c == u then none else subscription s.coll_task_list dt u))
unfolding delete_all_task_by_client
delete_all_subscriptions s c dt u v nc nu = elim (Bool-cases (s.task_num == 0)) [
  | inl nothing ↦ (
    rw nothing v,
    rw nothing (
        ground (
          arith,
          subscription-TypeAbsent s.coll_task_list dt u
              (none_counted s.coll_task_list dt (ground (arith, nothing, v.counted))),
        )),
  )
  | inr something ↦
      let r = rounds-Round c nc max_task_num 0 s refl v (λ j l. absurd (omega arith)) in
      let s' = (for_tasks max_task_num 0 (delete_round c) s).0 in
      let gone =
        Clear-none c dt s'.coll_task_list (λ j l. r.clear j (omega (arith, r.valid.size))) in
      let kept = λ (ne : u ≢ c). r.others dt u nu ne in
      (rw something r.valid, rw something (split c dt u s s' gone kept))
]
  where
    split :
        (c dt u : ℕ) (s s' : TaskService)
        → subscription s'.coll_task_list dt c ≡ none
        → (u ≢ c → subscription s'.coll_task_list dt u ≡ subscription s.coll_task_list dt u)
        → subscription s'.coll_task_list dt u
          ≡ (if c == u then none else subscription s.coll_task_list dt u)
    split c dt u s s' gone kept = elim (Bool-cases (c == u)) [
      | inl same ↦ let e : u ≡ c = ground (arith, same) in rw (same, e) gone
      | inr other ↦ rw other (kept (ground (arith, other)))
    ]
