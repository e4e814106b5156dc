-- ===== src/CpuService/Handlers.antt =====
-- The handlers of pwrapis/src/cpuservice.c: which answer each of them hands to `SendRspToClient`, a
-- code and the data that go with it, `none` where it sends no answer. What is read from the system
-- is an argument. A request is never NULL.
use powerapi.Prelude.{
  ℕ, zero, suc, ◌+◌, ◌*◌, ◌/◌, ◌≡◌, refl, ap, Bool, true, false, Option, none, some, List, [], ◌∷◌,
  arith, if◌then◌else◌, Bool-cases, inl, inr,
}
use powerapi.Codes.{success, err_common}
use powerapi.CpuService.{governor_set}

pub record Reply : Type 0 where
  pub code : ℕ
  pub content : Option (List ℕ)

-- A handler that allocates what it reads into, from the code and the bytes of the reading.
unfoldable pub fetch : Bool → ℕ → List ℕ → Option Reply
fetch false code bytes = none
fetch true code bytes = some (record { code = code; content = some bytes })

unfoldable pub get_cpuinfo : Bool → ℕ → List ℕ → Option Reply
unfolding fetch
get_cpuinfo malloc code bytes = fetch malloc code bytes

unfoldable pub get_cpu_usage : Bool → ℕ → List ℕ → Option Reply
unfolding fetch
get_cpu_usage malloc code bytes = fetch malloc code bytes

unfoldable pub get_cpu_perf_data : Bool → ℕ → List ℕ → Option Reply
unfolding fetch
get_cpu_perf_data malloc code bytes = fetch malloc code bytes

unfoldable pub get_cpu_freq_governor : Bool → ℕ → List ℕ → Option Reply
unfolding fetch
get_cpu_freq_governor malloc code bytes = fetch malloc code bytes

unfoldable pub get_cpu_freq_range : Bool → ℕ → List ℕ → Option Reply
unfolding fetch
get_cpu_freq_range malloc code bytes = fetch malloc code bytes

-- What `GetPolicys` answers is not looked at: the policies are those that it has stored.
unfoldable pub set_cpu_freq_governor :
    (List ℕ → ℕ) → Bool → List Bool → List (List ℕ) → Reply × List (List ℕ)
unfolding governor_set
set_cpu_freq_governor check malloc opens policys =
    let (code, done) = governor_set check malloc opens policys in
    (record { code = code; content = none }, done)

-- `none` where the source divides by zero, since no policy is found; else the answer. `read` gives
-- the reading from the step between two domains.
unfoldable pub get_cpu_freq_ability :
    Bool → ℕ → ℕ → Option ℕ → (ℕ → ℕ × List ℕ) → Option (Option Reply)
unfolding fetch
get_cpu_freq_ability malloc core_num int_size none read =
    some (some (record { code = err_common; content = none }))
get_cpu_freq_ability malloc core_num int_size (some zero) read = none
get_cpu_freq_ability malloc core_num int_size (some (suc n)) read =
    let (code, bytes) = read (core_num / suc n * 5 + int_size) in some (fetch malloc code bytes)

-- One loop of `FreqRangeSet`: whether all files are written, from what `WriteFile` answers for each,
-- and those that are.
unfoldable pub write_each : {V : Type 0} → V → List Bool → List (List ℕ) → Bool × List (List ℕ × V)
write_each v answers [] = (true, [])
write_each v [] (p ∷ policys) = (false, [])
write_each v (false ∷ answers) (p ∷ policys) = (false, [])
write_each v (true ∷ answers) (p ∷ policys) =
    let (all, done) = write_each v answers policys in (all, (p, v) ∷ done)

-- The code, and which policies get which lower and which upper limit.
unfoldable pub freq_range_set :
    {V : Type 0}
    → Option (List (List ℕ))
    → List Bool
    → List Bool
    → V
    → V
    → ℕ × List (List ℕ × V) × List (List ℕ × V)
unfolding write_each
freq_range_set none mins maxs low high = (1, [], [])
freq_range_set (some policys) mins maxs low high =
    let (min_all, min_done) = write_each low mins policys in
    let (max_all, max_done) = write_each high maxs policys in
    if min_all then (if max_all then success else 1, min_done, max_done) else (1, min_done, [])

unfoldable pub set_cpu_freq_range :
    {V : Type 0}
    → Option (List (List ℕ))
    → List Bool
    → List Bool
    → V
    → V
    → Reply × List (List ℕ × V) × List (List ℕ × V)
unfolding freq_range_set
set_cpu_freq_range policys mins maxs low high =
    let (code, min_done, max_done) = freq_range_set policys mins maxs low high in
    (record { code = code; content = none }, min_done, max_done)

abbrev pub each : {V : Type 0} → V → List (List ℕ) → List (List ℕ × V)
each v [] = []
each v (p ∷ policys) = (p, v) ∷ each v policys

write_each_all :
    {V : Type 0} (v : V) (answers : List Bool) (policys : List (List ℕ))
    → (write_each v answers policys).0 ≡ true
    → (write_each v answers policys).1 ≡ each v policys
unfolding write_each
write_each_all v answers [] e = refl
write_each_all v [] (p ∷ policys) e = absurd (cc)
write_each_all v (false ∷ answers) (p ∷ policys) e = absurd (cc)
write_each_all v (true ∷ answers) (p ∷ policys) e =
    ap (λ l. (p, v) ∷ l) (write_each_all v answers policys e)

range_set_all_found :
    {V : Type 0} (policys : List (List ℕ)) (mins maxs : List Bool) (low high : V)
    → (freq_range_set (some policys) mins maxs low high).0 ≡ success
    → ((freq_range_set (some policys) mins maxs low high).1 ≡ each low policys)
      × ((freq_range_set (some policys) mins maxs low high).2 ≡ each high policys)
unfolding freq_range_set
range_set_all_found policys mins maxs low high e =
    elim (Bool-cases (write_each low mins policys).0) [
      | inl p ↦ elim (Bool-cases (write_each high maxs policys).0) [
        | inl q ↦
            (rw p (write_each_all low mins policys p), rw p (write_each_all high maxs policys q))
        | inr q ↦ absurd (omega (arith, rw (p, q) at e))
      ]
      | inr p ↦ absurd (omega (arith, rw p at e))
    ]
