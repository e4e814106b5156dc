-- ===== src/CpuUsage/Cores.antt =====
-- Which usage `CPUUsageRead` reports for which core, though each row of numbers that it stores runs
-- over into the next.
use mathlib.Core.List.{append_assoc}
use powerapi.Prelude.{
  ℕ, suc, ◌+◌, ◌%◌, ◌^◌, ◌≡◌, refl, ap, sym, arith, true, false, some, List, [], ◌∷◌, ◌++◌, ◌==◌,
  length, get_or, set, take, ltb, length-append, ==-false, ==-refl, lt→ltb,
}
use powerapi.Prelude.Int.{pos, negsuc, sub_u64}
use powerapi.Codes.{success}
use powerapi.CpuUsage.{
  CoreUsage, Usage, Paras, write_first, write_second, sum, usage_to_long, calculate_usage,
  usage_loop, cpu_usage_read,
}

module _ (strtoul : List ℕ → ℕ) where
  -- The line with this number shows the core, with its eight numbers.
  abbrev pub Shows : ℕ → ℕ → List ℕ → List ℕ → Type 0
  Shows line core buf v =
      (length v ≡ 8) × ((old : ℕ) → usage_to_long strtoul buf line old ≡ some (pos core, core ∷ v))

  -- The lines show the cores from `core` on, each in the line behind its number.
  abbrev pub ShowCores : ℕ → List (List ℕ) → List (List ℕ) → Type 0
  ShowCores core [] [] = Unit {0}
  ShowCores core [] (v ∷ vs) = ⊥
  ShowCores core (l ∷ ls) [] = ⊥
  ShowCores core (l ∷ ls) (v ∷ vs) = Shows (suc core) core l v × ShowCores (suc core) ls vs

  -- The first line shows all together.
  abbrev pub ShowsAll : List ℕ → List ℕ → Type 0
  ShowsAll buf v =
      (length v ≡ 8) × ((old : ℕ) → usage_to_long strtoul buf 0 old ≡ some (negsuc 0, old ∷ v))

  module _ {F : Type 0} (one_minus : ℕ → ℕ → F) where
    -- The usage between two rows: 1 less the share of the idle time in all seven numbers.
    abbrev pub busy : List ℕ → List ℕ → F
    busy v w =
        one_minus (sub_u64 (get_or w 3 0) (get_or v 3 0))
          (sub_u64 (sum (take 7 w) % 2 ^ 64) (sum (take 7 v) % 2 ^ 64))

    abbrev pub reports : ℕ → List (List ℕ) → List (List ℕ) → List (CoreUsage F)
    reports core [] ws = []
    reports core (v ∷ vs) [] = []
    reports core (v ∷ vs) (w ∷ ws) =
        record { core_no = core; usage = busy v w } ∷ reports (suc core) vs ws

    get_or-take : (v : List ℕ) → get_or (take 7 v) 3 0 ≡ get_or v 3 0
    get_or-take [] = refl
    get_or-take (a ∷ []) = refl
    get_or-take (a ∷ b ∷ []) = refl
    get_or-take (a ∷ b ∷ c ∷ []) = refl
    get_or-take (a ∷ b ∷ c ∷ d ∷ v) = refl

    set-append :
        (xs : List (CoreUsage F)) (c v : CoreUsage F) (ys : List (CoreUsage F))
        → set (xs ++ c ∷ ys) (length xs) v ≡ xs ++ v ∷ ys
    set-append [] c v ys = refl
    set-append (x ∷ xs) c v ys = ap (λ t. x ∷ t) (set-append xs c v ys)

    -- One core: the entry with its number is set.
    calculate-core :
        (u : Usage F) (p : Paras) (v w : List ℕ) (done rest : List (CoreUsage F)) (c : CoreUsage F)
        → u.core_usage ≡ done ++ c ∷ rest
        → calculate_usage strtoul one_minus u
            (write_second (write_first p (length done ∷ v)) (length done ∷ w))
            (suc (length done))
          ≡ some (record u {
            core_usage = done ++ record { core_no = length done; usage = busy v w } ∷ rest;
          })
    unfolding calculate_usage
    calculate-core u p v w done rest c e =
        let later : (suc (length done) == 0) ≡ false =
          ==-false (suc (length done)) 0 (λ z. omega arith) in
        let inside : ltb (length done) (length u.core_usage) ≡ true =
          lt→ltb _ _ (rw e (omega (arith, length-append done (c ∷ rest)))) in
        rw (later, inside, get_or-take v, get_or-take w)
          (ap (λ (l : List (CoreUsage F)). some (record u { core_usage = l }))
            (rw e (set-append done c _ rest)))

    -- The lines from a core on: the entries from its number on are set.
    cores_loop :
        (l1 l2 vs ws : List (List ℕ)) (p : Paras) (u : Usage F) (done rest : List (CoreUsage F))
        → ShowCores (length done) l1 vs
        → ShowCores (length done) l2 ws
        → length vs ≡ length ws
        → length rest ≡ length vs
        → u.core_usage ≡ done ++ rest
        → usage_loop strtoul one_minus (length vs) (suc (length done)) l1 l2 p u
          ≡ some (success, record u { core_usage = done ++ reports (length done) vs ws })
    unfolding usage_loop
    cores_loop [] l2 [] [] p u done [] s1 s2 e er eu =
        ap (λ (l : List (CoreUsage F)). some (success, record u { core_usage = l })) eu
    cores_loop (a ∷ l1) (b ∷ l2) (v ∷ vs) (w ∷ ws) p u done (c ∷ rest) s1 s2 e er eu =
        let entry : CoreUsage F = record { core_no = length done; usage = busy v w } in
        let p' = write_second (write_first p (length done ∷ v)) (length done ∷ w) in
        let one_more : length (done ++ entry ∷ []) ≡ suc (length done) =
          omega (arith, length-append done (entry ∷ [])) in
        let later =
          cores_loop l1 l2 vs ws p' (record u { core_usage = done ++ entry ∷ rest })
            (done ++ entry ∷ []) rest (rw one_more s1.1) (rw one_more s2.1) (omega arith)
            (omega arith) (sym (append_assoc done (entry ∷ []) rest)) in
        rw
          (
            usage_loop,
            s1.0.1 (get_or p.first 0 0),
            s2.0.1 (get_or (write_first p (length done ∷ v)).second 0 0),
            ==-refl (length done),
            calculate-core u p v w done rest c eu,
          )
          (rw (one_more, append_assoc done (entry ∷ []) (reports (suc (length done)) vs ws)) at
            later)
    cores_loop [] l2 [] [] p u done (c ∷ rest) s1 s2 e er eu = absurd (omega arith)
    cores_loop [] l2 [] (w ∷ ws) p u done rest s1 s2 e er eu = absurd (omega arith)
    cores_loop [] l2 (v ∷ vs) ws p u done rest s1 s2 e er eu = absurd s1
    cores_loop (a ∷ l1) l2 [] ws p u done rest s1 s2 e er eu = absurd s1
    cores_loop (a ∷ l1) [] (v ∷ vs) [] p u done rest s1 s2 e er eu = absurd (omega arith)
    cores_loop (a ∷ l1) [] (v ∷ vs) (w ∷ ws) p u done rest s1 s2 e er eu = absurd s2
    cores_loop (a ∷ l1) (b ∷ l2) (v ∷ vs) [] p u done rest s1 s2 e er eu = absurd s2
    cores_loop (a ∷ l1) (b ∷ l2) (v ∷ vs) (w ∷ ws) p u done [] s1 s2 e er eu = absurd (omega arith)

    -- When both readings show all processors together and then each core in its line, from 0 on, and
    -- there is room for as many cores, `CPUUsageRead` succeeds, and reports the usage of all and that of
    -- each core, each from its own rows of the two readings.
    pub cpu_usage_read_cores :
        (a b v w : List ℕ) (l1 l2 vs ws : List (List ℕ)) (junk : Paras) (u : Usage F)
        → ShowsAll a v
        → ShowsAll b w
        → ShowCores 0 l1 vs
        → ShowCores 0 l2 ws
        → length vs ≡ length ws
        → length u.core_usage ≡ length vs
        → cpu_usage_read strtoul one_minus (some (a ∷ l1)) (some (b ∷ l2)) junk u (length vs)
          ≡ some (
            success,
            record { avg_usage = busy v w; core_num = length vs; core_usage = reports 0 vs ws },
          )
    unfolding cpu_usage_read calculate_usage
    cpu_usage_read_cores a b v w l1 l2 vs ws junk u sa sb s1 s2 e room =
        let count : length vs + 1 ≡ suc (length vs) = omega arith in
        rw
          (
            count,
            usage_loop,
            sa.1 (get_or junk.first 0 0),
            sb.1 (get_or (write_first junk (get_or junk.first 0 0 ∷ v)).second 0 0),
            get_or-take v,
            get_or-take w,
          )
          (cores_loop l1 l2 vs ws _
            (record { avg_usage = busy v w; core_num = length vs; core_usage = u.core_usage }) []
            u.core_usage s1 s2 e room refl)
