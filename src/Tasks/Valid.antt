-- ===== src/Tasks/Valid.antt =====
-- Every call keeps the table of tasks well formed, and changes what clients are subscribed for as
-- an update of a map does.
use mathlib.Core.Path.{subst}
use powerapi.Prelude.{
  ℕ, ◌+◌, ◌-◌, ◌<◌, ◌≡◌, ◌≢◌, ◌⊎◌, refl, ap, ◌∙◌, Bool, false, ◌&&◌, Option, none, some, arith,
  ◌==◌, if◌then◌else◌, get_or, set, length, length-set, Option-cases, Bool-cases, inl, inr,
}
use powerapi.Prelude.Int.{ℤ}
use powerapi.Tasks.{
  CollTask, TaskService, max_task_num, find_task, is_of_type, find_coll_task_by_type,
}
use powerapi.Tasks.Table.{
  AllGood, TypeAbsent, GoodOf, count, is_some, subscription, found_type, no_type, none_counted,
  Wrote, write, alone,
}

pub record IsValid (s : TaskService) : Type 0 where
  pub size : length s.coll_task_list ≡ max_task_num
  pub counted : s.task_num ≡ count s.coll_task_list
  pub good : AllGood s.coll_task_list

-- The table is well formed, and differs in what client `c` asked for of type `dt` only, which is
-- `v` now if the call is a hit.
pub record Effect (s s' : TaskService) (dt c : ℕ) (hit : Bool) (v : Option ℤ) : Type 0 where
  pub valid : IsValid s'
  pub lookup :
      (dt' u : ℕ)
      → u ≢ 0
      → subscription s'.coll_task_list dt' u
        ≡ (if hit && (dt == dt' && c == u) then v else subscription s.coll_task_list dt' u)

pub Effect-refl : (s : TaskService) (dt c : ℕ) (v : Option ℤ) → IsValid s → Effect s s dt c false v
Effect-refl s dt c v h = record { valid = h; lookup = λ dt' u nu. refl }

-- The task in a slot.
pub record At (s : TaskService) (dt i : ℕ) (t : CollTask) : Type 0 where
  pub at : get_or s.coll_task_list i none ≡ some t
  pub type : t.data_type ≡ dt
  pub within : i < length s.coll_task_list

-- The task of a type, if there is one.
pub record Found (s : TaskService) (dt i : ℕ) (t : CollTask) : Type 0 where
  pub place : At s dt i t
  pub open place use *
  pub hit : find_coll_task_by_type s dt ≡ some i

pub type_cases :
    (s : TaskService) (dt : ℕ)
    → IsValid s
    → ((find_coll_task_by_type s dt ≡ none) × TypeAbsent dt s.coll_task_list)
      ⊎ ((i : ℕ) × (t : CollTask) × Found s dt i t)
unfolding find_coll_task_by_type
type_cases s dt v = elim (Bool-cases (s.task_num == 0)) [
  | inl nothing ↦
      inl (rw nothing, none_counted s.coll_task_list dt (ground (arith, v.counted, nothing)))
  | inr something ↦ elim (Option-cases (find_task (is_of_type dt) s.coll_task_list)) [
    | inl missing ↦ inl (rw something missing, no_type s.coll_task_list dt missing)
    | inr (i, found) ↦
        let (t, at, ty, lt) = found_type s.coll_task_list dt i found in
        inr (
          i,
          t,
          record { place = record { at = at; type = ty; within = lt }; hit = rw something found },
        )
  ]
]

-- Another state of the task of a type.
pub put_back :
    (s : TaskService) (i dt : ℕ) (t : CollTask) (o : Option CollTask)
    → IsValid s
    → At s dt i t
    → GoodOf dt o
    → IsValid (record s {
      coll_task_list = set s.coll_task_list i o;
      task_num = s.task_num + is_some o - 1;
    })
      × Wrote s.coll_task_list (set s.coll_task_list i o) dt o
put_back s i dt t o v f k =
    let a = alone s.coll_task_list i t v.good f.at in
    let (n, w) =
      write s.coll_task_list i dt o f.within v.good
        (subst (λ d. TypeAbsent d (set s.coll_task_list i none)) f.type a.others) (rw f.at f.type)
        k in
    (
      record {
        size = length-set s.coll_task_list i o ∙ v.size;
        counted = omega (arith, v.counted, n, ap is_some f.at);
        good = w.good;
      },
      w,
    )
