-- ===== src/Tasks/Subscribers.antt =====
-- The subscriber slots of one task: which are used, and by whom.
use powerapi.Prelude.{
  ℕ, zero, suc, ◌+◌, ◌<◌, ◌≡◌, ◌≢◌, ◌⊎◌, refl, ap, Option, none, some, List, [], ◌∷◌, arith, ◌==◌,
  if◌then◌else◌, get_or, set, length, Option-cases, inl, inr,
}
use powerapi.Prelude.Int.{ℤ}
use powerapi.Tasks.{CollDataSubscriber, no_subscriber, find_subscriber_by_id}

-- No slot has the id.
abbrev pub Absent : ℕ → List CollDataSubscriber → Type 0
Absent s [] = Unit {0}
Absent s (c ∷ cs) = (c.sys_id ≢ s) × Absent s cs

-- No two used slots have one id.
abbrev pub Distinct : List CollDataSubscriber → Type 0
Distinct [] = Unit {0}
Distinct (c ∷ cs) = ((c.sys_id ≡ 0) ⊎ Absent c.sys_id cs) × Distinct cs

-- How many slots are used.
abbrev pub used : List CollDataSubscriber → ℕ
used [] = 0
used (c ∷ cs) = (if c.sys_id == 0 then 0 else 1) + used cs

-- The interval that a client asked for, if it subscribes.
abbrev pub interval_of : List CollDataSubscriber → ℕ → Option ℤ
interval_of [] s = none
interval_of (c ∷ cs) s = if c.sys_id == s then some c.interval else interval_of cs s

pub not_found :
    (s : ℕ) (cs : List CollDataSubscriber) → find_subscriber_by_id cs s ≡ none → Absent s cs
unfolding find_subscriber_by_id
not_found s [] e = tt
not_found s (c ∷ cs) e = elim (Option-cases (find_subscriber_by_id cs s)) [
  | inl missing ↦ ground (arith, not_found s cs missing)
  | inr (i, found) ↦ ground (arith, found)
]

find_tail :
    (s : ℕ) (c : CollDataSubscriber) (cs : List CollDataSubscriber) (i : ℕ)
    → find_subscriber_by_id (c ∷ cs) s ≡ some (suc i)
    → (c.sys_id ≢ s) × (find_subscriber_by_id cs s ≡ some i)
unfolding find_subscriber_by_id
find_tail s c cs i e = elim (Option-cases (find_subscriber_by_id cs s)) [
  | inl missing ↦ absurd (ground (arith, missing))
  | inr (j, found) ↦ ground (arith, found)
]

find_head :
    (s : ℕ) (c : CollDataSubscriber) (cs : List CollDataSubscriber)
    → find_subscriber_by_id (c ∷ cs) s ≡ some 0
    → c.sys_id ≡ s
unfolding find_subscriber_by_id
find_head s c cs e = elim (Option-cases (find_subscriber_by_id cs s)) [
  | inl missing ↦ ground (arith, missing)
  | inr (j, found) ↦ ground (arith, found)
]

find_nothing : (s i : ℕ) → find_subscriber_by_id [] s ≡ some i → ⊥
unfolding find_subscriber_by_id
find_nothing s i e = cc

pub found-lt :
    (s : ℕ) (cs : List CollDataSubscriber) (i : ℕ)
    → find_subscriber_by_id cs s ≡ some i
    → i < length cs
found-lt s [] i e = absurd (find_nothing s i e)
found-lt s (c ∷ cs) zero e = omega arith
found-lt s (c ∷ cs) (suc i) e = omega (arith, found-lt s cs i (find_tail s c cs i e).1)

pub interval_of-Absent :
    (s : ℕ) (cs : List CollDataSubscriber) → Absent s cs → interval_of cs s ≡ none
interval_of-Absent s [] a = refl
interval_of-Absent s (c ∷ cs) a = ground (arith, interval_of-Absent s cs a.1)

Absent-set :
    (s : ℕ) (cs : List CollDataSubscriber) (i : ℕ) (v : CollDataSubscriber)
    → v.sys_id ≢ s
    → Absent s cs
    → Absent s (set cs i v)
Absent-set s [] i v ne a = tt
Absent-set s (c ∷ cs) zero v ne a = (ne, a.1)
Absent-set s (c ∷ cs) (suc i) v ne a = (a.0, Absent-set s cs i v ne a.1)

Absent-resubscribe :
    (s : ℕ) (cs : List CollDataSubscriber) (i : ℕ) (v : ℤ)
    → Absent s cs
    → Absent s (set cs i (record (get_or cs i no_subscriber) { interval = v }))
Absent-resubscribe s [] i v a = tt
Absent-resubscribe s (c ∷ cs) zero v a = a
Absent-resubscribe s (c ∷ cs) (suc i) v a = (a.0, Absent-resubscribe s cs i v a.1)

-- What a write to one slot leaves.
pub record Wrote (before after : List CollDataSubscriber) (s t : ℕ) (v : Option ℤ) : Type 0 where
  pub distinct : Distinct after
  pub lookup : interval_of after t ≡ (if s == t then v else interval_of before t)

-- A new interval for a subscriber.
pub resubscribe :
    (cs : List CollDataSubscriber) (i s t : ℕ) (v : ℤ)
    → find_subscriber_by_id cs s ≡ some i
    → Distinct cs
    → (used (set cs i (record (get_or cs i no_subscriber) { interval = v })) ≡ used cs)
      × Wrote cs (set cs i (record (get_or cs i no_subscriber) { interval = v })) s t (some v)
resubscribe [] i s t v e d = absurd (find_nothing s i e)
resubscribe (c ∷ cs) zero s t v e d =
    let hit = find_head s c cs e in (refl, record { distinct = d; lookup = ground arith })
resubscribe (c ∷ cs) (suc i) s t v e d =
    let (miss, found) = find_tail s c cs i e in
    let (n, w) = resubscribe cs i s t v found d.1 in
    (
      ap (λ k. (if c.sys_id == 0 then 0 else 1) + k) n,
      record {
        distinct = (ground (arith, Absent-resubscribe c.sys_id cs i v), w.distinct);
        lookup = ground (arith, w.lookup);
      },
    )

-- A subscriber in a free slot.
pub enter :
    (cs : List CollDataSubscriber) (i t : ℕ) (new : CollDataSubscriber)
    → find_subscriber_by_id cs 0 ≡ some i
    → new.sys_id ≢ 0
    → t ≢ 0
    → Absent new.sys_id cs
    → Distinct cs
    → (used (set cs i new) ≡ used cs + 1) × Wrote cs (set cs i new) new.sys_id t (some new.interval)
enter [] i t new e ne nt a d = absurd (find_nothing 0 i e)
enter (c ∷ cs) zero t new e ne nt a d =
    let free = find_head 0 c cs e in
    (ground arith, record { distinct = (inr a.1, d.1); lookup = ground arith })
enter (c ∷ cs) (suc i) t new e ne nt a d =
    let (miss, found) = find_tail 0 c cs i e in
    let (n, w) = enter cs i t new found ne nt a.1 d.1 in
    (
      ground arith,
      record {
        distinct = (ground (arith, Absent-set c.sys_id cs i new), w.distinct);
        lookup = ground (arith, w.lookup);
      },
    )

-- A subscriber that leaves.
pub leave :
    (cs : List CollDataSubscriber) (i s t : ℕ)
    → find_subscriber_by_id cs s ≡ some i
    → s ≢ 0
    → t ≢ 0
    → Distinct cs
    → (used cs ≡ used (set cs i no_subscriber) + 1)
      × Wrote cs (set cs i no_subscriber) s t none
      × Absent s (set cs i no_subscriber)
leave [] i s t e ne nt d = absurd (find_nothing s i e)
leave (c ∷ cs) zero s t e ne nt d =
    let hit = find_head s c cs e in
    (
      ground arith,
      record { distinct = (inl refl, d.1); lookup = ground (arith, interval_of-Absent t cs) },
      ground arith,
    )
leave (c ∷ cs) (suc i) s t e ne nt d =
    let (miss, found) = find_tail s c cs i e in
    let (n, w, gone) = leave cs i s t found ne nt d.1 in
    (
      ground arith,
      record {
        distinct = (ground (arith, Absent-set c.sys_id cs i no_subscriber), w.distinct);
        lookup = ground (arith, w.lookup);
      },
      (miss, gone),
    )
