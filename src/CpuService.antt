-- ===== src/CpuService.antt =====
-- Requests about the CPU on the daemon's side, pwrapis/src/cpuservice.c.
-- A policy's id is an int that a client may send, hence an integer. `F` stands for double, with its
-- test for smaller. What the files and commands of the system answer is an argument: the policies
-- that `GetPolicys` finds, as ids or names, `none` where it fails; a code and
-- data for what is read. `snprintf` succeeds.
pub mod Sorting
pub mod Merging
pub mod Deciding
pub mod Handlers
pub mod Readings
pub mod Ability
pub mod Tests
use mathlib.Core.Option
use powerapi.Prelude.{
  ℕ, zero, suc, ◌+◌, ◌-◌, ◌*◌, ◌/◌, Bool, true, false, not, ◌&&◌, ◌||◌, Option, none, some, List,
  [], ◌∷◌, ◌++◌, map, ◌==◌, if◌then◌else◌, ltb, length, get_or, set, replicate, take,
}
use powerapi.Prelude.Int.{ℤ, pos, negsuc, ltb_ℤ}
use powerapi.Codes.{
  success, err_common, err_invalide_param, err_policy_invalide, err_governor_invalide,
  err_freq_not_in_range,
}
use powerapi.Text.{in_int_range}

-- `PWR_CPU_CurFreq`
pub record CurFreq (F : Type 0) : Type 0 where
  pub policy_id : ℤ
  pub cur_freq : F

-- `PWR_CPU_FreqRange`
pub record FreqRange (F : Type 0) : Type 0 where
  pub min_freq : F
  pub max_freq : F

module _ {F : Type 0} where
  -- The inner loop of `FreqSortByPolicy`, with `n` neighbours left to compare.
  unfoldable pub bubble : ℕ → List (CurFreq F) → List (CurFreq F)
  bubble zero l = l
  bubble (suc n) [] = []
  bubble (suc n) (x ∷ []) = x ∷ []
  bubble (suc n) (x ∷ y ∷ l) =
      let swap = ltb_ℤ y.policy_id x.policy_id in
      (if swap then y else x) ∷ bubble n ((if swap then x else y) ∷ l)

  -- The outer loop, with `n` rounds left.
  unfoldable pub sort_loop : ℕ → List (CurFreq F) → List (CurFreq F)
  unfolding bubble
  sort_loop zero l = l
  sort_loop (suc n) l = sort_loop n (bubble n l)

  unfoldable pub freq_sort_by_policy : List (CurFreq F) → List (CurFreq F)
  unfolding sort_loop
  freq_sort_by_policy rst_data = sort_loop (length rst_data) rst_data

  -- The first loop of `MergeDuplicatePolicys`: it marks the ids in `validId`, `none` where it writes
  -- before the array.
  unfoldable pub mark_loop : List (CurFreq F) → List Bool → Option (List Bool)
  mark_loop [] valid_id = some valid_id
  mark_loop (x ∷ target) valid_id = elim x.policy_id [
    | pos i ↦ mark_loop target (if ltb i (length valid_id) then set valid_id i true else valid_id)
    | negsuc i ↦ none
  ]

  -- `target[n].policyId = id`
  abbrev pub write_id : List (CurFreq F) → ℕ → ℤ → List (CurFreq F)
  write_id [] n id = []
  write_id (x ∷ l) zero id = record x { policy_id = id } ∷ l
  write_id (x ∷ l) (suc n) id = x ∷ write_id l n id

  -- The second loop, from index `i` on: the array, and `count`.
  unfoldable pub write_loop : List Bool → ℕ → ℕ → List (CurFreq F) → List (CurFreq F) × ℕ
  write_loop [] i count target = (target, count)
  write_loop (false ∷ valid_id) i count target = write_loop valid_id (suc i) count target
  write_loop (true ∷ valid_id) i count target =
      write_loop valid_id (suc i) (suc count) (write_id target count (pos i))

  -- The array and its length afterwards, `none` where the code writes before `validId`. Whether
  -- `malloc` succeeds comes first.
  unfoldable pub merge_duplicate_policys :
      Bool → ℕ → List (CurFreq F) → Option (List (CurFreq F) × ℕ)
  unfolding mark_loop write_loop
  merge_duplicate_policys false cpu_num target = some (target, length target)
  merge_duplicate_policys true cpu_num target =
      Option.map (λ valid_id. write_loop valid_id 0 0 target)
        (mark_loop target (replicate cpu_num false))

  unfoldable pub check_ids : List ℤ → List (CurFreq F) → ℕ
  unfolding in_int_range
  check_ids policys_id [] = 0
  check_ids policys_id (x ∷ target) =
      let rest = check_ids policys_id target in
      if in_int_range policys_id x.policy_id == 1 then err_invalide_param else rest

  -- From the ids of the policies of the system.
  unfoldable pub check_policys : Option (List ℤ) → List (CurFreq F) → ℕ
  unfolding check_ids
  check_policys none target = 1
  check_policys (some policys_id) target = check_ids policys_id target

  -- The names built, where `name` is what "policy" and `snprintf` of an id make. Each is built from
  -- the id that `target` points to, the first.
  unfoldable pub input_target_policys : (ℤ → List ℕ) → List (CurFreq F) → ℕ → List (List ℕ)
  input_target_policys name target zero = []
  input_target_policys name [] (suc po_num) = []
  input_target_policys name (x ∷ target) (suc po_num) =
      name x.policy_id ∷ input_target_policys name (x ∷ target) po_num

module _ {F : Type 0} (below : F → F → Bool) where
  unfoldable pub check_freq_in_range : List (CurFreq F) → FreqRange F → ℕ
  check_freq_in_range [] freq_range = 0
  check_freq_in_range (x ∷ target) freq_range =
      let rest = check_freq_in_range target freq_range in
      if below x.cur_freq freq_range.min_freq || below freq_range.max_freq x.cur_freq
      then 1
      else rest

  -- The first three tests of `SetCpuFreq`, on whether the governor was read and is "userspace".
  unfoldable pub governor_test : Option Bool → Option (List ℤ) → List (CurFreq F) → ℕ
  unfolding check_policys
  governor_test none policys target = err_common
  governor_test (some userspace) policys target =
      if check_policys policys target == 1
      then err_policy_invalide
      else if not userspace
      then err_governor_invalide
      else 0

  -- The code after all tests of `SetCpuFreq`; the range of the frequency comes last.
  unfoldable pub set_cpu_freq_test :
      Option Bool → Option (List ℤ) → Option (FreqRange F) → List (CurFreq F) → ℕ
  unfolding governor_test check_freq_in_range
  set_cpu_freq_test gov policys none target = err_common
  set_cpu_freq_test gov policys (some freq_range) target =
      if check_freq_in_range target freq_range == 0
      then governor_test gov policys target
      else err_freq_not_in_range

  -- `FreqSet`: the commands given, until one does not start. `khz` is the frequency in a command.
  unfoldable pub freq_set : (F → ℤ) → List Bool → List (CurFreq F) → ℕ × List (ℤ × ℤ)
  freq_set khz opens [] = (success, [])
  freq_set khz [] (x ∷ target) = (err_common, [])
  freq_set khz (false ∷ opens) (x ∷ target) = (err_common, [])
  freq_set khz (true ∷ opens) (x ∷ target) =
      let (code, commands) = freq_set khz opens target in
      (code, (x.policy_id, khz x.cur_freq) ∷ commands)

  -- The code that `SetCpuFreq` answers with, and the commands given.
  unfoldable pub set_cpu_freq :
      (F → ℤ)
      → Option Bool
      → Option (List ℤ)
      → Option (FreqRange F)
      → List Bool
      → List (CurFreq F)
      → ℕ × List (ℤ × ℤ)
  unfolding set_cpu_freq_test freq_set
  set_cpu_freq khz gov policys range opens target =
      let rsp_code = set_cpu_freq_test gov policys range target in
      if rsp_code == 0 then freq_set khz opens target else (rsp_code, [])

-- What `GetCpuFreq` does: it answers with a code and nothing else, or it reads these policies, by
-- their names; `crash` where `MergeDuplicatePolicys` writes before its array.
pub data Reading : Type 0 where
  answers : ℕ → Reading
  reads : List (List ℕ) → Reading
  crash : Reading

-- The policies asked for, once duplicates are merged.
unfoldable pub read_merged :
    {F : Type 0} → (ℤ → List ℕ) → Option (List ℤ) → List (CurFreq F) × ℕ → Reading
unfolding check_policys input_target_policys
read_merged name policys (target, po_num) =
    if check_policys policys (take po_num target) == 0
    then reads (input_target_policys name target po_num)
    else answers err_policy_invalide

-- The payload is `none` where the request has none, while `data_len` is what its head says; `names`
-- are what `GetPolicys` finds.
unfoldable pub get_cpu_freq :
    {F : Type 0}
    → (ℤ → List ℕ)
    → Bool
    → ℕ
    → Option (List ℤ)
    → Option (List (List ℕ))
    → ℕ
    → Option (List (CurFreq F))
    → Reading
unfolding merge_duplicate_policys read_merged
get_cpu_freq name malloc cpu_num policys names zero target = elim names [
  | none ↦ answers err_common
  | some l ↦ reads l
]
get_cpu_freq name malloc cpu_num policys names (suc data_len) none = answers err_invalide_param
get_cpu_freq name malloc cpu_num policys names (suc data_len) (some target) =
    elim (merge_duplicate_policys malloc cpu_num target) [
      | none ↦ crash
      | some m ↦ read_merged name policys m
    ]

-- `GovernorSet`: the codes of `CheckAvailableGovernor` for the policies, whether `malloc` succeeds,
-- and whether each command starts. The code, and the policies whose governor is set.
unfoldable pub all_available : (List ℕ → ℕ) → List (List ℕ) → Bool
all_available check [] = true
all_available check (p ∷ policys) = check p == 0 && all_available check policys

unfoldable pub set_governors : List Bool → List (List ℕ) → ℕ × List (List ℕ)
set_governors opens [] = (success, [])
set_governors [] (p ∷ policys) = (err_common, [])
set_governors (false ∷ opens) (p ∷ policys) = (err_common, [])
set_governors (true ∷ opens) (p ∷ policys) =
    let (code, done) = set_governors opens policys in (code, p ∷ done)

unfoldable pub governor_set : (List ℕ → ℕ) → Bool → List Bool → List (List ℕ) → ℕ × List (List ℕ)
unfolding all_available set_governors
governor_set check malloc opens policys =
    if not (all_available check policys)
    then (err_invalide_param, [])
    else if malloc
    then set_governors opens policys
    else (1, [])
