-- ===== src/Tasks/Table.antt =====
-- The table of tasks: its invariant, and the table as a map from a data type and a client to the
-- interval that the client asked for.
use mathlib.Core.Path.{subst}
use powerapi.Prelude.{
  ℕ, zero, suc, ◌+◌, ◌<◌, ◌≡◌, ◌≢◌, refl, ◌∙◌, Bool, true, false, Option, none, some, List, [], ◌∷◌,
  arith, ◌==◌, if◌then◌else◌, get_or, set, length, Option-cases, inl, inr,
}
use powerapi.Prelude.Int.{ℤ}
use powerapi.Tasks.{CollTask, find_task, is_of_type, is_null}
use powerapi.Tasks.Subscribers.{interval_of}
use powerapi.Tasks.One.{IsTask}

abbrev OtherType : ℕ → Option CollTask → Type 0
OtherType dt none = Unit {0}
OtherType dt (some t) = t.data_type ≢ dt

-- No task has the type.
abbrev pub TypeAbsent : ℕ → List (Option CollTask) → Type 0
TypeAbsent dt [] = Unit {0}
TypeAbsent dt (o ∷ ts) = OtherType dt o × TypeAbsent dt ts

abbrev pub Good : Option CollTask → List (Option CollTask) → Type 0
Good none ts = Unit {0}
Good (some t) ts = IsTask t × (0 < t.sub_num) × TypeAbsent t.data_type ts

-- Each task is well formed and has a subscriber, and no two are of one type.
abbrev pub AllGood : List (Option CollTask) → Type 0
AllGood [] = Unit {0}
AllGood (o ∷ ts) = Good o ts × AllGood ts

abbrev pub is_some : Option CollTask → ℕ
is_some none = 0
is_some (some t) = 1

abbrev pub count : List (Option CollTask) → ℕ
count [] = 0
count (o ∷ ts) = is_some o + count ts

abbrev pub asked : Option CollTask → ℕ → ℕ → Option ℤ → Option ℤ
asked none dt u rest = rest
asked (some t) dt u rest = if t.data_type == dt then interval_of t.subscriber_list u else rest

-- The interval that client `u` asked for data of type `dt`, if it subscribes to that.
abbrev pub subscription : List (Option CollTask) → ℕ → ℕ → Option ℤ
subscription [] dt u = none
subscription (o ∷ ts) dt u = asked o dt u (subscription ts dt u)

pub subscription-TypeAbsent :
    (ts : List (Option CollTask)) (dt u : ℕ) → TypeAbsent dt ts → subscription ts dt u ≡ none
subscription-TypeAbsent [] dt u a = refl
subscription-TypeAbsent (none ∷ ts) dt u a = subscription-TypeAbsent ts dt u a.1
subscription-TypeAbsent (some t ∷ ts) dt u a = ground (arith, subscription-TypeAbsent ts dt u a.1)

find_tail :
    (test : Option CollTask → Bool) (o : Option CollTask) (ts : List (Option CollTask)) (i : ℕ)
    → find_task test (o ∷ ts) ≡ some (suc i)
    → (test o ≡ false) × (find_task test ts ≡ some i)
unfolding find_task
find_tail test o ts i e = elim (Option-cases (find_task test ts)) [
  | inl missing ↦ absurd (ground (arith, missing))
  | inr (j, found) ↦ ground (arith, found)
]

find_head :
    (test : Option CollTask → Bool) (o : Option CollTask) (ts : List (Option CollTask))
    → find_task test (o ∷ ts) ≡ some 0
    → test o ≡ true
unfolding find_task
find_head test o ts e = elim (Option-cases (find_task test ts)) [
  | inl missing ↦ ground (arith, missing)
  | inr (j, found) ↦ ground (arith, found)
]

pub found_type :
    (ts : List (Option CollTask)) (dt i : ℕ)
    → find_task (is_of_type dt) ts ≡ some i
    → (t : CollTask) × (get_or ts i none ≡ some t) × (t.data_type ≡ dt) × (i < length ts)
unfolding is_of_type
found_type [] dt i e = unfold find_task in cc
found_type (none ∷ ts) dt zero e = absurd (ground (arith, find_head (is_of_type dt) none ts e))
found_type (some t ∷ ts) dt zero e =
    (t, refl, ground (arith, find_head (is_of_type dt) (some t) ts e), omega arith)
found_type (o ∷ ts) dt (suc i) e =
    let (t, at, ty, lt) = found_type ts dt i (find_tail (is_of_type dt) o ts i e).1 in
    (t, at, ty, omega arith)

pub no_type :
    (ts : List (Option CollTask)) (dt : ℕ) → find_task (is_of_type dt) ts ≡ none → TypeAbsent dt ts
unfolding find_task is_of_type
no_type [] dt e = tt
no_type (none ∷ ts) dt e = elim (Option-cases (find_task (is_of_type dt) ts)) [
  | inl missing ↦ (tt, no_type ts dt missing)
  | inr (i, found) ↦ ground (arith, found)
]
no_type (some t ∷ ts) dt e = elim (Option-cases (find_task (is_of_type dt) ts)) [
  | inl missing ↦ ground (arith, no_type ts dt missing)
  | inr (i, found) ↦ ground (arith, found)
]

TypeAbsent-set :
    (dt : ℕ) (ts : List (Option CollTask)) (i : ℕ) (o : Option CollTask)
    → OtherType dt o
    → TypeAbsent dt ts
    → TypeAbsent dt (set ts i o)
TypeAbsent-set dt [] i o h a = tt
TypeAbsent-set dt (x ∷ ts) zero o h a = (h, a.1)
TypeAbsent-set dt (x ∷ ts) (suc i) o h a = (a.0, TypeAbsent-set dt ts i o h a.1)

-- The slot is empty, or has a task of the type.
abbrev pub OfType : ℕ → Option CollTask → Type 0
OfType dt none = Unit {0}
OfType dt (some t) = t.data_type ≡ dt

-- The slot is empty, or has a well-formed task of the type, with a subscriber.
abbrev pub GoodOf : ℕ → Option CollTask → Type 0
GoodOf dt none = Unit {0}
GoodOf dt (some t) = IsTask t × (0 < t.sub_num) × (t.data_type ≡ dt)

abbrev pub asked_of : Option CollTask → ℕ → Option ℤ
asked_of none u = none
asked_of (some t) u = interval_of t.subscriber_list u

Good-write :
    (dt : ℕ) (o : Option CollTask) (ts : List (Option CollTask))
    → GoodOf dt o
    → TypeAbsent dt ts
    → Good o ts
Good-write dt none ts h a = tt
Good-write dt (some t) ts h a = (h.0, h.1, rw h.2 a)

Good-set :
    (dt : ℕ) (o o' : Option CollTask) (ts : List (Option CollTask)) (i : ℕ)
    → OtherType dt o
    → GoodOf dt o'
    → Good o ts
    → Good o (set ts i o')
Good-set dt none o' ts i h k g = tt
Good-set dt (some t) none ts i h k g = (g.0, g.1, TypeAbsent-set t.data_type ts i none tt g.2)
Good-set dt (some t) (some t') ts i h k g =
    (g.0, g.1, TypeAbsent-set t.data_type ts i (some t') (λ e. h (ground arith)) g.2)

-- What a write to one slot makes of a table in which no other slot has type `dt`.
pub record Wrote (before after : List (Option CollTask)) (dt : ℕ) (o : Option CollTask)
    : Type 0 where
  pub good : AllGood after
  pub lookup :
      (dt' u : ℕ)
      → subscription after dt' u ≡ (if dt == dt' then asked_of o u else subscription before dt' u)

lookup_head :
    (dt dt' u : ℕ) (o o' : Option CollTask) (ts : List (Option CollTask))
    → TypeAbsent dt ts
    → OfType dt o
    → GoodOf dt o'
    → subscription (o' ∷ ts) dt' u
      ≡ (if dt == dt' then asked_of o' u else subscription (o ∷ ts) dt' u)
lookup_head dt dt' u none none ts a h k = ground (arith, subscription-TypeAbsent ts dt u a)
lookup_head dt dt' u (some t) none ts a h k = ground (arith, subscription-TypeAbsent ts dt u a)
lookup_head dt dt' u none (some t') ts a h k = ground (arith, subscription-TypeAbsent ts dt u a)
lookup_head dt dt' u (some t) (some t') ts a h k = ground (arith, subscription-TypeAbsent ts dt u a)

lookup_tail :
    (dt dt' u : ℕ) (o : Option CollTask) (v : Option ℤ) (after before : Option ℤ)
    → OtherType dt o
    → after ≡ (if dt == dt' then v else before)
    → asked o dt' u after ≡ (if dt == dt' then v else asked o dt' u before)
lookup_tail dt dt' u none v after before h e = e
lookup_tail dt dt' u (some t) v after before h e = ground arith

pub write :
    (ts : List (Option CollTask)) (i dt : ℕ) (o : Option CollTask)
    → i < length ts
    → AllGood ts
    → TypeAbsent dt (set ts i none)
    → OfType dt (get_or ts i none)
    → GoodOf dt o
    → (count (set ts i o) + is_some (get_or ts i none) ≡ count ts + is_some o)
      × Wrote ts (set ts i o) dt o
write [] i dt o h g a h' k = absurd (ground arith)
write (x ∷ ts) zero dt o h g a h' k = (
  omega arith,
  record {
    good = (Good-write dt o ts k a.1, g.1);
    lookup = λ dt' u. lookup_head dt dt' u x o ts a.1 h' k;
  },
)
write (x ∷ ts) (suc i) dt o h g a h' k =
    let (n, w) = write ts i dt o (omega arith) g.1 a.1 h' k in
    (
      omega (arith, n),
      record {
        good = (Good-set dt x o ts i a.0 k g.0, w.good);
        lookup = λ dt' u. lookup_tail dt dt' u x (asked_of o u) _ _ a.0 (w.lookup dt' u);
      },
    )

Good-OtherType :
    (o : Option CollTask) (ts : List (Option CollTask)) (i : ℕ) (t : CollTask)
    → Good o ts
    → get_or ts i none ≡ some t
    → OtherType t.data_type o
Good-OtherType none ts i t g at = tt
Good-OtherType (some x) [] i t g at = absurd (cc)
Good-OtherType (some x) (some y ∷ ts) zero t g at = λ e. g.2.0 (cc)
Good-OtherType (some x) (none ∷ ts) zero t g at = absurd (cc)
Good-OtherType (some x) (y ∷ ts) (suc i) t g at =
    Good-OtherType (some x) ts i t (g.0, g.1, g.2.1) at

asked_other : (o : Option CollTask) (dt u : ℕ) (v : Option ℤ) → OtherType dt o → asked o dt u v ≡ v
asked_other none dt u v h = refl
asked_other (some t) dt u v h = ground arith

asked_self :
    (t : CollTask) (u : ℕ) (v : Option ℤ)
    → asked (some t) t.data_type u v ≡ interval_of t.subscriber_list u
asked_self t u v = ground arith

-- A task of a well-formed table is well formed, is the only one of its type, and says what its type
-- is subscribed for.
pub record Alone (ts : List (Option CollTask)) (i : ℕ) (t : CollTask) : Type 0 where
  pub task : IsTask t
  pub subscribed : 0 < t.sub_num
  pub others : TypeAbsent t.data_type (set ts i none)
  pub lookup : (u : ℕ) → subscription ts t.data_type u ≡ interval_of t.subscriber_list u

pub alone :
    (ts : List (Option CollTask)) (i : ℕ) (t : CollTask)
    → AllGood ts
    → get_or ts i none ≡ some t
    → Alone ts i t
alone [] i t g at = absurd (cc)
alone (none ∷ ts) zero t g at = absurd (cc)
alone (some x ∷ ts) zero t g at = subst (Alone (some x ∷ ts) 0) (cc) (record {
  task = g.0.0;
  subscribed = g.0.1;
  others = (tt, g.0.2);
  lookup = λ u. asked_self x u (subscription ts x.data_type u);
})
alone (o ∷ ts) (suc i) t g at =
    let r = alone ts i t g.1 at in
    let other = Good-OtherType o ts i t g.0 at in
    record {
      task = r.task;
      subscribed = r.subscribed;
      others = (other, r.others);
      lookup = λ u. asked_other o t.data_type u _ other ∙ r.lookup u;
    }

pub none_counted : (ts : List (Option CollTask)) (dt : ℕ) → count ts ≡ 0 → TypeAbsent dt ts
none_counted [] dt e = tt
none_counted (none ∷ ts) dt e = (tt, none_counted ts dt (omega (arith, e)))
none_counted (some t ∷ ts) dt e = absurd (omega arith)

pub found_free :
    (ts : List (Option CollTask)) (i : ℕ)
    → find_task is_null ts ≡ some i
    → (get_or ts i none ≡ none) × (i < length ts)
unfolding is_null
found_free [] i e = unfold find_task in cc
found_free (none ∷ ts) zero e = (refl, omega arith)
found_free (some t ∷ ts) zero e = absurd (ground (arith, find_head is_null (some t) ts e))
found_free (o ∷ ts) (suc i) e =
    let (at, lt) = found_free ts i (find_tail is_null o ts i e).1 in (at, omega arith)

pub TypeAbsent-cut :
    (dt : ℕ) (ts : List (Option CollTask)) (i : ℕ)
    → TypeAbsent dt ts
    → TypeAbsent dt (set ts i none)
TypeAbsent-cut dt ts i a = TypeAbsent-set dt ts i none tt a
