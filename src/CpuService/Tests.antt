-- ===== src/CpuService/Tests.antt =====
-- Three entries for the policies 3, 0 and 3, with frequencies in MHz.
use mathlib.Core.List.{Perm}
use powerapi.Prelude.{
  ℕ, ◌*◌, ◌≡◌, ◌≢◌, ◌≤◌, refl, Bool, true, Option, none, some, List, [], ◌∷◌, ltb, take, length,
}
use powerapi.Prelude.Int.{ℤ, pos}
use powerapi.CpuService.{
  CurFreq, FreqRange, freq_sort_by_policy, merge_duplicate_policys, get_cpu_freq, reads,
  set_cpu_freq,
}
use powerapi.CpuService.Sorting.{IsSorted, freq_sort_by_policy_sorts}
use powerapi.CpuService.Merging.{ids, ids_from, merge_duplicate_policys-ids}
use powerapi.CpuService.Deciding.{AllIn, commands_allowed}

abbrev entry : ℕ → CurFreq ℕ
entry id = record { policy_id = pos id; cur_freq = 1500 }

abbrev three : List (CurFreq ℕ)
three = entry 3 ∷ entry 0 ∷ entry 3 ∷ []

freq_sort_by_policy_sorts_example :
    IsSorted (freq_sort_by_policy three) × Perm (freq_sort_by_policy three) three
freq_sort_by_policy_sorts_example = freq_sort_by_policy_sorts three

abbrev merged : List (CurFreq ℕ)
merged = entry 0 ∷ entry 3 ∷ entry 3 ∷ []

merges : merge_duplicate_policys true 4 three ≡ some (merged, 2)
unfolding merge_duplicate_policys
merges = refl

merge_duplicate_policys-ids_example :
    (ids (take 2 merged) ≡ ids_from three 0 4) × (2 ≤ length three)
merge_duplicate_policys-ids_example = merge_duplicate_policys-ids 4 2 three merged merges

abbrev name : ℤ → List ℕ
name (pos i) = i ∷ []
name z = []

abbrev policys : Option (List ℤ)
policys = some (pos 0 ∷ pos 3 ∷ [])

reading : get_cpu_freq name true 4 policys none 48 (some three) ≡ reads ((0 ∷ []) ∷ (0 ∷ []) ∷ [])
unfolding get_cpu_freq
reading = refl

abbrev khz : ℕ → ℤ
khz f = pos (f * 1000)

abbrev range : FreqRange ℕ
range = record { min_freq = 1000; max_freq = 2000 }

command : (set_cpu_freq ltb khz (some true) policys (some range) (true ∷ []) (entry 3 ∷ [])).1 ≢ []
unfolding set_cpu_freq
command e = cc e

commands_allowed_example :
    (◌≡◌ {A = Option Bool} (some true) (some true))
    × ((r : FreqRange ℕ) × (some range ≡ some r) × AllIn ltb r (entry 3 ∷ []))
commands_allowed_example =
    commands_allowed ltb khz (some true) policys (some range) (true ∷ []) (entry 3 ∷ []) command
