-- ===== src/Tasks/Interval.antt =====
-- How often a task collects: its interval against those that its subscribers asked for.
use powerapi.Prelude.{
  ℕ, zero, suc, ◌<◌, ◌≡◌, ◌⊎◌, List, [], ◌∷◌, arith, if◌then◌else◌, set, length, inr,
}
use powerapi.Prelude.Int.{ℤ, pos, ltb_ℤ, ◌≤ℤ◌}
use powerapi.Tasks.{CollDataSubscriber, no_subscriber, min_interval}

-- The value is at most the interval of every slot that is used.
abbrev pub AtMost : ℤ → List CollDataSubscriber → Type 0
AtMost v [] = Unit {0}
AtMost v (c ∷ cs) = ((c.sys_id ≡ 0) ⊎ (v ≤ℤ c.interval)) × AtMost v cs

pub AtMost-mono : (v w : ℤ) (cs : List CollDataSubscriber) → w ≤ℤ v → AtMost v cs → AtMost w cs
AtMost-mono v w [] h a = tt
AtMost-mono v w (c ∷ cs) h a = (ground arith, AtMost-mono v w cs h a.1)

pub AtMost-set :
    (v : ℤ) (cs : List CollDataSubscriber) (i : ℕ) (c : CollDataSubscriber)
    → (c.sys_id ≡ 0) ⊎ (v ≤ℤ c.interval)
    → AtMost v cs
    → AtMost v (set cs i c)
AtMost-set v [] i c h a = tt
AtMost-set v (x ∷ cs) zero c h a = (h, a.1)
AtMost-set v (x ∷ cs) (suc i) c h a = (a.0, AtMost-set v cs i c h a.1)

pub min_interval-le : (v : ℤ) (cs : List CollDataSubscriber) → min_interval v cs ≤ℤ v
unfolding min_interval
min_interval-le v [] = omega arith
min_interval-le v (c ∷ cs) =
    ground (arith, min_interval-le (if ltb_ℤ c.interval v then c.interval else v) cs)

pub min_interval-AtMost : (v : ℤ) (cs : List CollDataSubscriber) → AtMost (min_interval v cs) cs
unfolding min_interval
min_interval-AtMost v [] = tt
min_interval-AtMost v (c ∷ cs) =
    let w : ℤ = if ltb_ℤ c.interval v then c.interval else v in
    (inr (ground (arith, min_interval-le w cs)), min_interval-AtMost w cs)

-- A free slot, whose interval is 0, brings the minimum down to 0.
pub min_interval-free :
    (v : ℤ) (cs : List CollDataSubscriber) (i : ℕ)
    → i < length cs
    → min_interval v (set cs i no_subscriber) ≤ℤ pos 0
unfolding min_interval
min_interval-free v [] i h = absurd (ground arith)
min_interval-free v (c ∷ cs) zero h =
    ground (arith, min_interval-le (if ltb_ℤ (pos 0) v then pos 0 else v) cs)
min_interval-free v (c ∷ cs) (suc i) h =
    min_interval-free (if ltb_ℤ c.interval v then c.interval else v) cs i (omega arith)
