-- ===== src/CpuService/Merging.antt =====
-- Which policies `MergeDuplicatePolicys` leaves.
use mathlib.Core.Option
use mathlib.Core.List.{append-nil, append_assoc}
use powerapi.Prelude.{
  ℕ, zero, suc, ◌+◌, ◌≤◌, ◌<◌, ◌≡◌, refl, sym, ap, ap₂, ◌∙◌, ◌⊎◌, Bool, true, false, ◌||◌, none,
  some, List, [], ◌∷◌, ◌++◌, arith, ◌==◌, ==-false, ==-refl, if◌then◌else◌, ltb, length, set, take,
  replicate, Bool-cases, inl, inr, map-eq-some,
}
use powerapi.Prelude.Int.{ℤ, pos, negsuc}
use powerapi.CpuService.{CurFreq, mark_loop, write_id, write_loop, merge_duplicate_policys}

abbrev pub is_id : ℤ → ℕ → Bool
is_id (pos i) k = i == k
is_id (negsuc i) k = false

or-true : (b c : Bool) → (b || (true || c)) ≡ true
or-true true c = refl
or-true false c = refl

or-false : (b : Bool) → (b || false) ≡ b
or-false true = refl
or-false false = refl

ℤ-cases : (z : ℤ) → ((i : ℕ) × (z ≡ pos i)) ⊎ ((i : ℕ) × (z ≡ negsuc i))
ℤ-cases (pos i) = inl (i, refl)
ℤ-cases (negsuc i) = inr (i, refl)

-- How many marks are set, and the numbers from `k` on that are marked.
trues : List Bool → ℕ
trues [] = 0
trues (false ∷ v) = trues v
trues (true ∷ v) = suc (trues v)

marked : List Bool → ℕ → List ℤ
marked [] k = []
marked (false ∷ v) k = marked v (suc k)
marked (true ∷ v) k = pos k ∷ marked v (suc k)

trues-set : (v : List Bool) (i : ℕ) → trues (set v i true) ≤ trues v + 1
unfolding trues
trues-set [] i = omega arith
trues-set (false ∷ v) zero = omega arith
trues-set (true ∷ v) zero = omega arith
trues-set (false ∷ v) (suc i) = omega (arith, trues-set v i)
trues-set (true ∷ v) (suc i) = omega (arith, trues-set v i)

trues-replicate : (n : ℕ) → trues (replicate n false) ≡ 0
unfolding trues
trues-replicate zero = refl
trues-replicate (suc n) = trues-replicate n

module _ {F : Type 0} where
  -- Some entry has this id.
  abbrev pub requested : List (CurFreq F) → ℕ → Bool
  requested [] k = false
  requested (x ∷ l) k = is_id x.policy_id k || requested l k

  -- The numbers from `k` on, `n` of them, that are ids of entries.
  abbrev pub ids_from : List (CurFreq F) → ℕ → ℕ → List ℤ
  ids_from l k zero = []
  ids_from l k (suc n) =
      if requested l k then pos k ∷ ids_from l (suc k) n else ids_from l (suc k) n

  abbrev pub ids : List (CurFreq F) → List ℤ
  ids [] = []
  ids (x ∷ l) = x.policy_id ∷ ids l

  -- What the marks become: those before, and the ids of the entries.
  abbrev marks : List (CurFreq F) → List Bool → ℕ → List Bool
  marks l [] k = []
  marks l (b ∷ v) k = (b || requested l k) ∷ marks l v (suc k)

  marks-beyond :
      (x : CurFreq F) (l : List (CurFreq F)) (v : List Bool) (i k : ℕ)
      → x.policy_id ≡ pos i
      → i < k
      → marks (x ∷ l) v k ≡ marks l v k
  marks-beyond x l [] i k e lt = refl
  marks-beyond x l (b ∷ v) i k e lt =
      rw (e, ==-false i k (λ p. omega arith))
        (ap (λ r. (b || requested l k) ∷ r) (marks-beyond x l v i (suc k) e (omega arith)))

  marks-set :
      (x : CurFreq F) (l : List (CurFreq F)) (v : List Bool) (j k : ℕ)
      → x.policy_id ≡ pos (j + k)
      → marks l (set v j true) k ≡ marks (x ∷ l) v k
  marks-set x l [] j k e = refl
  marks-set x l (b ∷ v) zero k e =
      let e' : x.policy_id ≡ pos k = e ∙ ap pos (omega arith) in
      ap₂ (λ c r. c ∷ r) (sym (rw (e', ==-refl k) (or-true b (requested l k))))
        (sym (marks-beyond x l v k (suc k) e' (omega arith)))
  marks-set x l (b ∷ v) (suc j) k e =
      let e' : x.policy_id ≡ pos (j + suc k) = e ∙ ap pos (omega arith) in
      ap₂ (λ c r. c ∷ r) (sym (rw (e', ==-false (j + suc k) k (λ p. omega arith))))
        (marks-set x l v j (suc k) e')

  marks-past :
      (x : CurFreq F) (l : List (CurFreq F)) (v : List Bool) (i k : ℕ)
      → x.policy_id ≡ pos i
      → length v + k ≤ i
      → marks (x ∷ l) v k ≡ marks l v k
  marks-past x l [] i k e le = refl
  marks-past x l (b ∷ v) i k e le =
      ap₂ (λ c r. c ∷ r) (rw (e, ==-false i k (λ p. omega arith)))
        (marks-past x l v i (suc k) e (omega arith))

  marks-none :
      (l : List (CurFreq F)) (v : List Bool) (k : ℕ)
      → ((i : ℕ) → requested l i ≡ false)
      → marks l v k ≡ v
  marks-none l [] k h = refl
  marks-none l (b ∷ v) k h = ap₂ (λ c r. c ∷ r) (rw (h k) (or-false b)) (marks-none l v (suc k) h)

  mark_loop-marks :
      (l : List (CurFreq F)) (v v' : List Bool)
      → mark_loop l v ≡ some v'
      → (v' ≡ marks l v 0) × (trues v' ≤ trues v + length l)
  unfolding mark_loop
  mark_loop-marks [] v v' e =
      let p = Option.some-injective _ _ e in
      (sym p ∙ sym (marks-none [] v 0 (λ i. refl)), omega (arith, ap trues p))
  mark_loop-marks (x ∷ l) v v' e = elim (ℤ-cases x.policy_id) [
    | inr (i, z) ↦ let e' : none ≡ some v' = rw z at e in absurd (cc)
    | inl (i, z) ↦ elim (Bool-cases (ltb i (length v))) [
      | inl t ↦
          let e' : mark_loop l (set v i true) ≡ some v' = rw (z, t) at e in
          let (p, q) = mark_loop-marks l (set v i true) v' e' in
          (p ∙ marks-set x l v i 0 (z ∙ ap pos (omega arith)), omega (arith, q, trues-set v i))
      | inr t ↦
          let e' : mark_loop l v ≡ some v' = rw (z, t) at e in
          let (p, q) = mark_loop-marks l v v' e' in
          (p ∙ sym (marks-past x l v i 0 z (ground arith)), omega (arith, q))
    ]
  ]

  length-write_id : (l : List (CurFreq F)) (n : ℕ) (z : ℤ) → length (write_id l n z) ≡ length l
  length-write_id [] n z = refl
  length-write_id (x ∷ l) zero z = refl
  length-write_id (x ∷ l) (suc n) z = ap suc (length-write_id l n z)

  take-write_id :
      (l : List (CurFreq F)) (n : ℕ) (z : ℤ)
      → n < length l
      → ids (take (suc n) (write_id l n z)) ≡ ids (take n l) ++ z ∷ []
  take-write_id [] n z h = absurd (omega arith)
  take-write_id (x ∷ l) zero z h = refl
  take-write_id (x ∷ l) (suc n) z h = ap (λ r. x.policy_id ∷ r) (take-write_id l n z (omega arith))

  write_loop_lem :
      (v : List Bool) (k n : ℕ) (l : List (CurFreq F))
      → n + trues v ≤ length l
      → ((write_loop v k n l).1 ≡ n + trues v)
        × (ids (take (n + trues v) (write_loop v k n l).0) ≡ ids (take n l) ++ marked v k)
  unfolding write_loop trues marked
  write_loop_lem [] k n l h =
      (omega arith, ap (λ m. ids (take m l)) (omega arith) ∙ sym (append-nil (ids (take n l))))
  write_loop_lem (false ∷ v) k n l h = write_loop_lem v (suc k) n l h
  write_loop_lem (true ∷ v) k n l h =
      let l' = write_id l n (pos k) in
      let (p, q) =
        write_loop_lem v (suc k) (suc n) l' (omega (arith, length-write_id l n (pos k))) in
      let m = λ (t : ℕ). ids (take t (write_loop v (suc k) (suc n) l').0) in
      let same : n + suc (trues v) ≡ suc n + trues v = omega arith in
      (
        p ∙ sym same,
        ap m same
            ∙ q
            ∙ ap (λ r. r ++ marked v (suc k)) (take-write_id l n (pos k) (omega arith))
            ∙ append_assoc (ids (take n l)) (pos k ∷ []) (marked v (suc k)),
      )

  marked-marks :
      (l : List (CurFreq F)) (n k : ℕ) → marked (marks l (replicate n false) k) k ≡ ids_from l k n
  unfolding marked
  marked-marks l zero k = refl
  marked-marks l (suc n) k = elim (Bool-cases (requested l k)) [
    | inl e ↦ rw e (ap (λ r. pos k ∷ r) (marked-marks l n (suc k)))
    | inr e ↦ rw e (marked-marks l n (suc k))
  ]

  -- Where `malloc` succeeds and no mark is written before the array, `MergeDuplicatePolicys` leaves
  -- at the front of the entries one for each id below the number of CPUs that was requested, in
  -- ascending order, and says how many those are; they are no more than the entries that there were.
  pub merge_duplicate_policys-ids :
      (cpu_num n : ℕ) (l l' : List (CurFreq F))
      → merge_duplicate_policys true cpu_num l ≡ some (l', n)
      → (ids (take n l') ≡ ids_from l 0 cpu_num) × (n ≤ length l)
  unfolding merge_duplicate_policys
  merge_duplicate_policys-ids cpu_num n l l' e =
      let start = replicate cpu_num false in
      let (v, m, w) = map-eq-some (λ v. write_loop v 0 0 l) (mark_loop l start) e in
      let (p, q) = mark_loop-marks l start v m in
      let few : 0 + trues v ≤ length l = omega (arith, q, trues-replicate cpu_num) in
      let (r, s) = write_loop_lem v 0 0 l few in
      let n_eq : n ≡ 0 + trues v = sym (ap (λ t. t.1) w) ∙ r in
      (
        ap₂ (λ t u. ids (take t u)) n_eq (sym (ap (λ t. t.0) w))
            ∙ s
            ∙ ap (λ u. marked u 0) p
            ∙ marked-marks l cpu_num 0,
        omega (arith, n_eq),
      )
