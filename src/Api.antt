-- ===== src/Api.antt =====
-- The functions that a program calls, pwrapic/src/powerapi.c: what each checks before it hands the
-- call over to the function that builds and sends the request.
-- A pointer argument is a Boolean, `false` where it is NULL, or an option of what it points to. A C
-- int that is only compared is its bit pattern; a name is the list of its bytes before the
-- terminator. What `sizeof` yields is an argument.
pub mod Cpu
pub mod Devices
pub mod Status
pub mod Authority
pub mod Tests
use powerapi.Prelude.{
  ℕ, Bool, true, false, ◌&&◌, ◌||◌, not, Option, none, some, List, ◌==◌, if◌then◌else◌, ltb,
}
use powerapi.Prelude.Int.{ℤ, pos, ltb_ℤ}
use powerapi.Codes.{
  success, err_common, err_null_pointer, err_invalide_param, err_not_registed, err_not_authed,
  err_callback_function_should_be_set_first,
}

pub data PwrApiStatus : Type 0 where
  status_unregistered status_registerted status_authed : PwrApiStatus

-- The number of a status.
abbrev pub rank : PwrApiStatus → ℕ
rank status_unregistered = 0
rank status_registerted = 1
rank status_authed = 2

-- The function that a call is handed over to.
pub data Handover : Type 0 where
  create_dc_task : ℤ → Handover
  delete_dc_task : ℕ → Handover
  request_control_auth release_control_auth : Handover
  set_sys_power_state : ℕ → Handover
  get_sys_rt_power_info : Handover
  get_cpu_info get_cpu_perf_data get_cpu_freq_range get_cpu_dma_latency : Handover
  get_cpu_usage get_cpu_freq_ability get_cpu_freq_governor : ℕ → Handover
  set_cpu_freq_range : Handover
  set_cpu_freq_governor : List ℕ → Handover
  get_cpu_cur_freq : ℕ → ℕ → Handover
  set_cpu_cur_freq : ℕ → Handover
  set_cpu_dma_latency : ℤ → Handover
  get_disk_list : ℕ → Handover
  get_disk_load get_disk_pwr_level get_disk_scsi_policy : ℕ → ℕ → Handover
  set_disk_pwr_level set_disk_scsi_policy : ℕ → Handover
  get_net_info : ℕ → Handover
  get_net_through get_net_speed_mod : List ℕ → Handover
  set_net_speed_mod : List ℕ → ℕ → Handover
  get_usb_auto_suspend set_usb_auto_suspend : ℕ → Handover

-- A call returns a code at once, or what the function returns that it is handed over to.
pub data Outcome : Type 0 where
  refused : ℕ → Outcome
  handed : Handover → Outcome

-- The macro CHECK_STATUS, before the rest of a function.
unfoldable pub check_status : PwrApiStatus → PwrApiStatus → Outcome → Outcome
check_status g_status s rest =
    if ltb (rank g_status) (rank s)
    then (if rank s == 1 then refused err_not_registed else refused err_not_authed)
    else rest

-- The macro CHECK_NULL_POINTER, before the rest of a function.
unfoldable pub check_null_pointer : Bool → Outcome → Outcome
check_null_pointer p rest = if p then rest else refused err_null_pointer

-- The test that many functions make, before the rest.
unfoldable pub check_param : Bool → Outcome → Outcome
check_param invalid rest = if invalid then refused err_invalide_param else rest

abbrev pub min_dc_interval : ℤ
min_dc_interval = pos 1000

abbrev pub max_dc_interval : ℤ
max_dc_interval = pos 100_000_000

-- `none` where `basicDcTaskInfo` is NULL, else its interval; then whether a callback is set.
unfoldable pub pwr_create_dc_task : PwrApiStatus → Option ℤ → Bool → Outcome
unfolding check_status check_null_pointer check_param
pwr_create_dc_task g none has_callback =
    check_status g status_registerted (refused err_null_pointer)
pwr_create_dc_task g (some interval) has_callback = check_status g status_registerted (
    check_param (ltb_ℤ interval min_dc_interval || ltb_ℤ max_dc_interval interval) (
      if not has_callback
      then refused err_callback_function_should_be_set_first
      else handed (create_dc_task interval)))

unfoldable pub pwr_delete_dc_task : PwrApiStatus → ℕ → Outcome
unfolding check_status
pwr_delete_dc_task g data_type =
    check_status g status_registerted (handed (delete_dc_task data_type))

unfoldable pub pwr_sys_set_power_state : PwrApiStatus → ℕ → Outcome
unfolding check_status check_param
pwr_sys_set_power_state g power_state = check_status g status_authed (
    check_param (not (power_state == 1) && not (power_state == 2))
      (handed (set_sys_power_state power_state)))

unfoldable pub pwr_sys_get_rt_power_info : PwrApiStatus → Bool → Outcome
unfolding check_status check_null_pointer
pwr_sys_get_rt_power_info g power_info =
    check_status g status_registerted (check_null_pointer power_info (handed get_sys_rt_power_info))

-- The return code and the status afterwards; `answer` is what the function called returns.
unfoldable pub pwr_register : PwrApiStatus → ℕ → ℕ × PwrApiStatus
pwr_register g answer =
    if not (answer == success)
    then (err_common, g)
    else if rank g == 0
    then (success, status_registerted)
    else (success, g)

unfoldable pub pwr_un_register : PwrApiStatus → ℕ → ℕ × PwrApiStatus
pwr_un_register g answer = (answer, status_unregistered)

-- What is returned: the code of a call refused, or the answer to the one handed over.
abbrev pub code : Outcome → ℕ → ℕ
code (refused c) answer = c
code (handed h) answer = answer

-- The new status, if the call is handed over and the answer is success.
abbrev pub settle : PwrApiStatus → PwrApiStatus → Outcome → ℕ → PwrApiStatus
settle g next (refused c) answer = g
settle g next (handed h) answer = if answer == success then next else g

unfoldable pub pwr_request_control_auth : PwrApiStatus → ℕ → ℕ × PwrApiStatus
unfolding check_status
pwr_request_control_auth g answer =
    let o = check_status g status_registerted (handed request_control_auth) in
    (code o answer, settle g status_authed o answer)

unfoldable pub pwr_release_control_auth : PwrApiStatus → ℕ → ℕ × PwrApiStatus
unfolding check_status
pwr_release_control_auth g answer =
    let o = check_status g status_authed (handed release_control_auth) in
    (code o answer, settle g status_registerted o answer)
