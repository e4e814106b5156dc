-- ===== src/Api/Cpu.antt =====
-- The calls on the processors, `PWR_CPU_...` of pwrapic/src/powerapi.c.
use powerapi.Prelude.{ℕ, Bool, ◌&&◌, ◌||◌, not, Option, none, some, List, ◌==◌, ltb, leb, length}
use powerapi.Prelude.Int.{ℤ, pos, ltb_ℤ}
use powerapi.Codes.{err_invalide_param, err_null_pointer}
use powerapi.Api.{
  PwrApiStatus, status_registerted, status_authed, Outcome, refused, handed, check_status,
  check_null_pointer, check_param, get_cpu_info, get_cpu_perf_data, get_cpu_freq_range,
  get_cpu_dma_latency, get_cpu_usage, get_cpu_freq_ability, get_cpu_freq_governor,
  set_cpu_freq_range, set_cpu_freq_governor, get_cpu_cur_freq, set_cpu_cur_freq,
  set_cpu_dma_latency,
}

-- `MAX_ELEMENT_NAME_LEN`
abbrev pub max_element_name_len : ℕ
max_element_name_len = 32

abbrev pub max_cpu_dma_latency : ℤ
max_cpu_dma_latency = pos 2_000_000_000

unfoldable pub pwr_cpu_get_info : PwrApiStatus → Bool → Outcome
unfolding check_status check_null_pointer
pwr_cpu_get_info g cpu_info =
    check_status g status_registerted (check_null_pointer cpu_info (handed get_cpu_info))

-- `sizeof(PWR_CPU_Usage)` first.
unfoldable pub pwr_cpu_get_usage : ℕ → PwrApiStatus → Bool → ℕ → Outcome
unfolding check_status check_null_pointer check_param
pwr_cpu_get_usage size g usage buffer_size = check_status g status_registerted (
    check_null_pointer usage
      (check_param (ltb buffer_size size) (handed (get_cpu_usage buffer_size))))

unfoldable pub pwr_cpu_get_perf_data : PwrApiStatus → Bool → Outcome
unfolding check_status check_null_pointer
pwr_cpu_get_perf_data g perf_data =
    check_status g status_registerted (check_null_pointer perf_data (handed get_cpu_perf_data))

-- `sizeof(PWR_CPU_FreqAbility)` first.
unfoldable pub pwr_cpu_get_freq_ability : ℕ → PwrApiStatus → Bool → ℕ → Outcome
unfolding check_status check_null_pointer check_param
pwr_cpu_get_freq_ability size g freq_abi buffer_size = check_status g status_registerted (
    check_null_pointer freq_abi
      (check_param (ltb buffer_size size) (handed (get_cpu_freq_ability buffer_size))))

unfoldable pub pwr_cpu_get_freq_range : PwrApiStatus → Bool → Outcome
unfolding check_status check_null_pointer
pwr_cpu_get_freq_range g freq_range =
    check_status g status_registerted (check_null_pointer freq_range (handed get_cpu_freq_range))

unfoldable pub pwr_cpu_set_freq_range : PwrApiStatus → Bool → Outcome
unfolding check_status check_null_pointer
pwr_cpu_set_freq_range g freq_range =
    check_status g status_authed (check_null_pointer freq_range (handed set_cpu_freq_range))

unfoldable pub pwr_cpu_get_freq_governor : PwrApiStatus → Bool → ℕ → Outcome
unfolding check_status check_null_pointer check_param
pwr_cpu_get_freq_governor g gov size = check_status g status_registerted (
    check_null_pointer gov
      (check_param (ltb size max_element_name_len) (handed (get_cpu_freq_governor size))))

-- The test on the length of a name.
abbrev pub bad_name : List ℕ → Bool
bad_name name = length name == 0 || leb max_element_name_len (length name)

unfoldable pub pwr_cpu_set_freq_governor : PwrApiStatus → Option (List ℕ) → Outcome
unfolding check_status check_param
pwr_cpu_set_freq_governor g none = check_status g status_authed (refused err_null_pointer)
pwr_cpu_set_freq_governor g (some gov) =
    check_status g status_authed (check_param (bad_name gov) (handed (set_cpu_freq_governor gov)))

-- `!len || *len == 0`, before what is done with the length.
unfoldable pub check_len : Option ℕ → (ℕ → Outcome) → Outcome
unfolding check_param
check_len none rest = refused err_invalide_param
check_len (some len) rest = check_param (len == 0) (rest len)

-- `spec != TRUE && spec != FALSE`
abbrev pub bad_spec : ℕ → Bool
bad_spec spec = not (spec == 1) && not (spec == 0)

unfoldable pub pwr_cpu_get_freq : PwrApiStatus → Bool → Option ℕ → ℕ → Outcome
unfolding check_status check_null_pointer check_param check_len
pwr_cpu_get_freq g cur_freq len spec = check_status g status_registerted (
    check_null_pointer cur_freq
      (check_len len λ n. check_param (bad_spec spec) (handed (get_cpu_cur_freq n spec))))

unfoldable pub pwr_cpu_set_freq : PwrApiStatus → Bool → ℕ → Outcome
unfolding check_status check_null_pointer check_param
pwr_cpu_set_freq g cur_freq len =
    check_status g status_authed
      (check_null_pointer cur_freq (check_param (len == 0) (handed (set_cpu_cur_freq len))))

unfoldable pub pwr_cpu_dma_get_latency : PwrApiStatus → Bool → Outcome
unfolding check_status check_null_pointer
pwr_cpu_dma_get_latency g latency =
    check_status g status_registerted (check_null_pointer latency (handed get_cpu_dma_latency))

unfoldable pub pwr_cpu_dma_set_latency : PwrApiStatus → ℤ → Outcome
unfolding check_status check_param
pwr_cpu_dma_set_latency g latency = check_status g status_authed (
    check_param (ltb_ℤ latency (pos 0) || ltb_ℤ max_cpu_dma_latency latency)
      (handed (set_cpu_dma_latency latency)))
