-- ===== src/CpuService/Ability.antt =====
-- The limits of the frequency, and what the processor is able to do: `FreqDriverRead`,
-- `FreqRangeRead` and `FreqAbilityRead`, pwrapis/src/cpuservice.c. Each file holds one line,
-- and the numbers are ones that an int holds. The
-- argument `whole` makes an integer the number that is stored.
use powerapi.Prelude.{
  ℕ, ◌-◌, ◌/◌, not, Option, none, some, List, [], ◌++◌, ◌==◌, if◌then◌else◌, length, replicate,
}
use powerapi.Codes.{err_common}
use powerapi.Api.Cpu.{max_element_name_len}
use powerapi.Config.{atoi}
use powerapi.Files.{File, read_file}
use powerapi.CpuService.{FreqRange}
use powerapi.CpuService.Readings.{Domain, all_governors_read, freq_domain_read}

-- It reads the way `ReadFile` does.
unfoldable pub freq_driver_read : File → List ℕ → ℕ → ℕ × List ℕ
unfolding read_file
freq_driver_read file buf buf_len = read_file file buf buf_len

-- A buffer of 32 bytes that holds a text.
abbrev pub holding : List ℕ → List ℕ
holding text = text ++ replicate (max_element_name_len - length text) 0

-- Both files are read into the same buffer, which is not cleared in between.
unfoldable pub freq_range_read :
    {F : Type 0} → (ℕ → F) → File → File → FreqRange F → ℕ × FreqRange F
unfolding read_file
freq_range_read whole min_file max_file rst_data =
    let (min_code, min_buf) = read_file min_file (holding []) max_element_name_len in
    let (max_code, max_buf) = read_file max_file (holding min_buf) max_element_name_len in
    let with_min = record rst_data { min_freq = whole (atoi min_buf / 1000) } in
    if not (min_code == 0)
    then (1, rst_data)
    else if not (max_code == 0)
    then (1, with_min)
    else (0, record with_min { max_freq = whole (atoi max_buf / 1000) })

pub record FreqAbility : Type 0 where
  pub cur_driver : List ℕ
  pub av_gov_list : List (List ℕ)
  pub freq_domain : List Domain

-- The code, and what is stored; the code is `none` at the end of the function, where it has no
-- return statement. The governors are the line that is read, and `affected` what the file of a policy
-- holds; domains stored before an error are left out.
unfoldable pub freq_ability_read :
    File
    → Option (List ℕ)
    → (List ℕ → Option (List ℕ))
    → ℕ
    → List (List ℕ)
    → FreqAbility
    → Option ℕ × FreqAbility
unfolding freq_driver_read all_governors_read freq_domain_read
freq_ability_read driver_file governors affected step policys rst_data =
    let (code, driver) =
      freq_driver_read driver_file (holding rst_data.cur_driver) max_element_name_len in
    let with_driver = record rst_data { cur_driver = driver } in
    if not (code == 0) then (some err_common, rst_data) else elim (all_governors_read governors) [
      | none ↦ (some err_common, with_driver)
      | some gov_list ↦
          let with_govs = record with_driver { av_gov_list = gov_list } in
          elim (freq_domain_read affected step policys) [
            | none ↦ (some err_common, with_govs)
            | some domains ↦ (none, record with_govs { freq_domain = domains })
          ]
    ]
