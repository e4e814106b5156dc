-- ===== src/Request/Cpu.antt =====
-- The requests of pwrapic/src/pwrcpu.c, pwrcom.c, pwrtask.c and pwrsys.c. What `sizeof` yields is an
-- argument where no object is there to be measured.
use powerapi.Prelude.{
  ℕ, ◌+◌, ◌-◌, ◌*◌, ◌/◌, ◌%◌, ◌^◌, Option, none, some, List, [], ◌∷◌, ◌==◌, if◌then◌else◌, ltb,
  get_or, set, not, replicate,
}
use powerapi.Codes.{success, err_input_oversize, err_answer_longer_than_size}
use powerapi.Operations.{
  com_create_dc_task, com_delete_dc_task, com_request_control_auth, com_release_control_auth,
  sys_set_power_state, sys_get_rt_power, cpu_get_info, cpu_get_usage, cpu_get_perf_data,
  cpu_get_freq_ability, cpu_get_freq_range, cpu_set_freq_range, cpu_get_freq_governor,
  cpu_set_freq_governor, cpu_get_cur_freq, cpu_set_cur_freq, cpu_get_dma_latency,
  cpu_set_dma_latency,
}
use powerapi.Request.{Transfer, RspOutputParam, ask, ask_about, tell, command, size_of, bytes_of}

-- `MAX_INPUT_NUM`
abbrev pub max_input_num : ℕ
max_input_num = 512

module _ (transfer : Transfer) (task_no : ℕ) where
  unfoldable pub request_control_auth : ℕ
  unfolding command
  request_control_auth = command transfer task_no com_request_control_auth

  unfoldable pub release_control_auth : ℕ
  unfolding command
  release_control_auth = command transfer task_no com_release_control_auth

  unfoldable pub create_dc_task : List ℕ → ℕ
  unfolding tell
  create_dc_task basic_dc_task_info = tell transfer task_no com_create_dc_task basic_dc_task_info

  unfoldable pub delete_dc_task : List ℕ → ℕ
  unfolding tell
  delete_dc_task data_type = tell transfer task_no com_delete_dc_task data_type

  -- "mem" or "disk", and nothing for any other state.
  abbrev pub state_name : ℕ → List ℕ
  state_name power_state =
      if power_state == 1
      then 109 ∷ 101 ∷ 109 ∷ []
      else if power_state == 2
      then 100 ∷ 105 ∷ 115 ∷ 107 ∷ []
      else []

  unfoldable pub set_sys_power_state : ℕ → ℕ
  unfolding tell
  set_sys_power_state power_state =
      tell transfer task_no sys_set_power_state (state_name power_state)

  unfoldable pub get_sys_rt_power_info : ℕ → List ℕ → ℕ × RspOutputParam
  unfolding ask
  get_sys_rt_power_info size power_info = ask transfer task_no sys_get_rt_power size power_info

  unfoldable pub get_cpu_info : ℕ → List ℕ → ℕ × RspOutputParam
  unfolding ask
  get_cpu_info size cpu_info = ask transfer task_no cpu_get_info size cpu_info

  -- `sizeof(PWR_CPU_Usage)` and `sizeof(PWR_CPU_CoreUsage)` first; the last component is the value
  -- written to `coreNum`, where one is. The differences are those of size_t.
  unfoldable pub get_cpu_usage : ℕ → ℕ → List ℕ → ℕ → ℕ × RspOutputParam × Option ℕ
  unfolding ask
  get_cpu_usage usage_size core_size usage buffer_size =
      let (ret, output) = ask transfer task_no cpu_get_usage buffer_size usage in
      if ret == success
      then (success, output, some ((size_of output + 2 ^ 64 - usage_size) % 2 ^ 64 / core_size))
      else (ret, output, none)

  unfoldable pub get_cpu_perf_data : ℕ → List ℕ → ℕ × RspOutputParam
  unfolding ask
  get_cpu_perf_data size perf_data = ask transfer task_no cpu_get_perf_data size perf_data

  -- `sizeof(PWR_CPU_FreqAbility)`, and how to read `freqDomainStep` from the object; the last
  -- component is the value written to `freqDomainNum`, where one is.
  unfoldable pub get_cpu_freq_ability :
      ℕ → (List ℕ → ℕ) → List ℕ → ℕ → ℕ × RspOutputParam × Option ℕ
  unfolding ask
  get_cpu_freq_ability abi_size freq_domain_step freq_abi buffer_size =
      let (ret, output) = ask transfer task_no cpu_get_freq_ability buffer_size freq_abi in
      let step = freq_domain_step (bytes_of output) in
      if ret == success
      then (ret, output, none)
      else if step == 0
      then (ret, output, none)
      else (ret, output, some ((size_of output + 2 ^ 64 - abi_size) % 2 ^ 64 / step))

  unfoldable pub get_cpu_freq_range : ℕ → List ℕ → ℕ × RspOutputParam
  unfolding ask
  get_cpu_freq_range size freq_range = ask transfer task_no cpu_get_freq_range size freq_range

  unfoldable pub set_cpu_freq_range : List ℕ → ℕ
  unfolding tell
  set_cpu_freq_range freq_range = tell transfer task_no cpu_set_freq_range freq_range

  -- The answer overwrites `size` with its own length. A byte outside the buffer counts as 0.
  unfoldable pub get_cpu_freq_governor : ℕ → ℕ × List ℕ
  unfolding ask
  get_cpu_freq_governor size =
      let (ret, output) = ask transfer task_no cpu_get_freq_governor size (replicate size 0) in
      let last = (size_of output + 2 ^ 32 - 1) % 2 ^ 32 in
      if not (ret == success)
      then (ret, bytes_of output)
      else if get_or (bytes_of output) last 0 == 0
      then (ret, bytes_of output)
      else (err_answer_longer_than_size, set (bytes_of output) last 0)

  -- The bytes of the name, its terminator included.
  unfoldable pub set_cpu_freq_governor : List ℕ → ℕ
  unfolding tell
  set_cpu_freq_governor gov = tell transfer task_no cpu_set_freq_governor gov

  -- `sizeof(PWR_CPU_CurFreq)` first; `cur_freq` is the `len` elements at the pointer. The code, the
  -- elements, and the length afterwards.
  unfoldable pub get_cpu_cur_freq : ℕ → List ℕ → ℕ → ℕ → ℕ × RspOutputParam × ℕ
  unfolding ask ask_about
  get_cpu_cur_freq elem_size cur_freq len spec =
      let size = elem_size * len % 2 ^ 32 in
      let (ret, output) =
        if spec == 0
        then ask transfer task_no cpu_get_cur_freq size cur_freq
        else ask_about transfer task_no cpu_get_cur_freq cur_freq size cur_freq in
      if ltb max_input_num len
      then (err_input_oversize, record { rsp_buff_size = none; rsp_data = some cur_freq }, len)
      else (ret, output, size_of output / elem_size)

  unfoldable pub set_cpu_cur_freq : List ℕ → ℕ
  unfolding tell
  set_cpu_cur_freq cur_freq = tell transfer task_no cpu_set_cur_freq cur_freq

  unfoldable pub get_cpu_dma_latency : ℕ → List ℕ → ℕ × RspOutputParam
  unfolding ask
  get_cpu_dma_latency size latency = ask transfer task_no cpu_get_dma_latency size latency

  unfoldable pub set_cpu_dma_latency : List ℕ → ℕ
  unfolding tell
  set_cpu_dma_latency latency = tell transfer task_no cpu_set_dma_latency latency
