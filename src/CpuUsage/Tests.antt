-- ===== src/CpuUsage/Tests.antt =====
-- Two readings of the lines of one core, with numbers of one digit.
use powerapi.Prelude.{ℕ, ◌+◌, ◌*◌, ◌%◌, ◌≡◌, refl, some, List, [], ◌∷◌, ◌++◌, get_or, replicate}
use powerapi.Codes.{success}
use powerapi.CpuUsage.{Usage, Paras, blank, cpu_name, usage_to_long, cpu_usage_read}
use powerapi.CpuUsage.Cores.{Shows, ShowsAll, busy, reports, cpu_usage_read_cores}

abbrev digits : List ℕ → List ℕ
digits [] = []
digits (d ∷ ds) = (d + 48) ∷ blank ∷ digits ds

abbrev strtoul : List ℕ → ℕ
strtoul text = get_or text 0 48 % 48

abbrev all_line : List ℕ → List ℕ
all_line ds = cpu_name ++ blank ∷ digits ds

abbrev core_line : List ℕ → List ℕ
core_line ds = cpu_name ++ 48 ∷ blank ∷ digits ds

abbrev early : List ℕ
early = 1 ∷ 0 ∷ 1 ∷ 2 ∷ 0 ∷ 0 ∷ 0 ∷ 9 ∷ []

abbrev late : List ℕ
late = 2 ∷ 0 ∷ 1 ∷ 5 ∷ 0 ∷ 0 ∷ 0 ∷ 9 ∷ []

-- The share of work in percent.
abbrev percent : ℕ → ℕ → ℕ
percent idle all = all * 100 + idle

abbrev junk : Paras
junk = record { first = replicate 8 7; second = replicate 8 7; behind = 7 }

abbrev nothing : Usage ℕ
nothing = record {
  avg_usage = 0;
  core_num = 0;
  core_usage = record { core_no = 0; usage = 0 } ∷ [];
}

early_all : ShowsAll strtoul (all_line early) early
unfolding usage_to_long
early_all = (refl, λ old. refl)

late_all : ShowsAll strtoul (all_line late) late
unfolding usage_to_long
late_all = (refl, λ old. refl)

early_core : Shows strtoul 1 0 (core_line early) early
unfolding usage_to_long
early_core = (refl, λ old. refl)

late_core : Shows strtoul 1 0 (core_line late) late
unfolding usage_to_long
late_core = (refl, λ old. refl)

cpu_usage_read_cores_example :
    cpu_usage_read strtoul percent
      (some (all_line early ∷ core_line early ∷ []))
      (some (all_line late ∷ core_line late ∷ []))
      junk
      nothing
      1
    ≡ some (
      success,
      record {
        avg_usage = busy strtoul percent early late;
        core_num = 1;
        core_usage = reports strtoul percent 0 (early ∷ []) (late ∷ []);
      },
    )
cpu_usage_read_cores_example =
    cpu_usage_read_cores strtoul percent (all_line early) (all_line late) early late
      (core_line early ∷ []) (core_line late ∷ []) (early ∷ []) (late ∷ []) junk nothing early_all
      late_all (early_core, tt) (late_core, tt) refl refl
