-- ===== src/Api/Status.antt =====
-- No call goes further than the status of the library allows.
use powerapi.Prelude.{ℕ, ◌<◌, ◌≡◌, ◌↔◌, refl, Bool, true, false, Option, none, some, List, arith}
use powerapi.Prelude.Int.{ℤ, pos, ◌≤ℤ◌}
use powerapi.Codes.{err_not_registed, err_not_authed}
use powerapi.Api.Cpu.{
  pwr_cpu_get_info, pwr_cpu_get_usage, pwr_cpu_get_perf_data, pwr_cpu_get_freq_ability,
  pwr_cpu_get_freq_range, pwr_cpu_set_freq_range, pwr_cpu_get_freq_governor,
  pwr_cpu_set_freq_governor, pwr_cpu_get_freq, pwr_cpu_set_freq, pwr_cpu_dma_get_latency,
  pwr_cpu_dma_set_latency,
}
use powerapi.Api.Devices.{
  pwr_disk_get_list, pwr_disk_get_load, pwr_disk_get_pwr_level, pwr_disk_set_pwr_level,
  pwr_disk_get_scsi_policy, pwr_disk_set_scsi_policy, pwr_net_get_info, pwr_net_get_throuth,
  pwr_net_get_speed_mod, pwr_net_set_speed_mod, pwr_usb_get_auto_suspend, pwr_usb_set_auto_suspend,
}
use powerapi.Api.{
  PwrApiStatus, status_unregistered, status_registerted, status_authed, rank, Outcome, refused,
  handed, check_status, check_param, pwr_create_dc_task, pwr_delete_dc_task,
  pwr_sys_set_power_state, pwr_sys_get_rt_power_info, create_dc_task,
}

-- A call about a value or a setting of the machine, or about a collection task, with its arguments.
-- The calls about the registration and the control authority change the status, and those that only
-- store a path or a pointer look at no status; they are not among these.
pub data ApiCall : Type 0 where
  create_task : Option ℤ → Bool → ApiCall
  delete_task set_power_state : ℕ → ApiCall
  get_rt_power_info cpu_info perf_data freq_range set_range get_latency : Bool → ApiCall
  usage freq_ability net_info : ℕ → Bool → ℕ → ApiCall
  governor set_freq set_pwr_level set_policy set_suspend : Bool → ℕ → ApiCall
  set_governor : Option (List ℕ) → ApiCall
  freq load pwr_level policy : Bool → Option ℕ → ℕ → ApiCall
  set_latency : ℤ → ApiCall
  disk_list suspend : Bool → Option ℕ → ApiCall
  throuth speed_mod : Option (List ℕ) → Bool → ApiCall
  set_speed : Option (List ℕ) → ℕ → ApiCall

unfoldable pub outcome : PwrApiStatus → ApiCall → Outcome
outcome g (create_task info has_callback) = pwr_create_dc_task g info has_callback
outcome g (delete_task data_type) = pwr_delete_dc_task g data_type
outcome g (set_power_state state) = pwr_sys_set_power_state g state
outcome g (get_rt_power_info p) = pwr_sys_get_rt_power_info g p
outcome g (cpu_info p) = pwr_cpu_get_info g p
outcome g (perf_data p) = pwr_cpu_get_perf_data g p
outcome g (freq_range p) = pwr_cpu_get_freq_range g p
outcome g (set_range p) = pwr_cpu_set_freq_range g p
outcome g (get_latency p) = pwr_cpu_dma_get_latency g p
outcome g (usage size p n) = pwr_cpu_get_usage size g p n
outcome g (freq_ability size p n) = pwr_cpu_get_freq_ability size g p n
outcome g (net_info size p n) = pwr_net_get_info size g p n
outcome g (governor p n) = pwr_cpu_get_freq_governor g p n
outcome g (set_freq p n) = pwr_cpu_set_freq g p n
outcome g (set_pwr_level p n) = pwr_disk_set_pwr_level g p n
outcome g (set_policy p n) = pwr_disk_set_scsi_policy g p n
outcome g (set_suspend p n) = pwr_usb_set_auto_suspend g p n
outcome g (set_governor gov) = pwr_cpu_set_freq_governor g gov
outcome g (freq p len spec) = pwr_cpu_get_freq g p len spec
outcome g (load p len spec) = pwr_disk_get_load g p len spec
outcome g (pwr_level p len spec) = pwr_disk_get_pwr_level g p len spec
outcome g (policy p len spec) = pwr_disk_get_scsi_policy g p len spec
outcome g (set_latency v) = pwr_cpu_dma_set_latency g v
outcome g (disk_list p len) = pwr_disk_get_list g p len
outcome g (suspend p len) = pwr_usb_get_auto_suspend g p len
outcome g (throuth name p) = pwr_net_get_throuth g name p
outcome g (speed_mod name p) = pwr_net_get_speed_mod g name p
outcome g (set_speed name v) = pwr_net_set_speed_mod g name v

-- The calls that change a setting of the machine.
unfoldable pub changes : ApiCall → Bool
changes (set_power_state state) = true
changes (set_range p) = true
changes (set_freq p n) = true
changes (set_pwr_level p n) = true
changes (set_policy p n) = true
changes (set_suspend p n) = true
changes (set_governor gov) = true
changes (set_latency v) = true
changes (set_speed name v) = true
changes _ = false

-- What a call with arguments that are all in order comes to, by the status.
abbrev pub gate : PwrApiStatus → Bool → Outcome → Outcome
gate status_unregistered true o = refused err_not_authed
gate status_unregistered false o = refused err_not_registed
gate status_registerted true o = refused err_not_authed
gate status_registerted false o = o
gate status_authed b o = o

registered :
    (g : PwrApiStatus) (rest : Outcome)
    → check_status g status_registerted rest
      ≡ gate g false (check_status status_authed status_registerted rest)
unfolding check_status
registered status_unregistered rest = refl
registered status_registerted rest = refl
registered status_authed rest = refl

authed :
    (g : PwrApiStatus) (rest : Outcome)
    → check_status g status_authed rest
      ≡ gate g true (check_status status_authed status_authed rest)
unfolding check_status
authed status_unregistered rest = refl
authed status_registerted rest = refl
authed status_authed rest = refl

-- Every call that asks for a value of the machine, changes a setting of it, or creates or deletes a
-- collection task is refused as not registered or not authorized exactly by the status that it needs,
-- authorized for one that changes a setting and registered for the others; with that status, it
-- comes to what it does for an authorized program.
pub outcome_gated :
    (g : PwrApiStatus) (c : ApiCall) → outcome g c ≡ gate g (changes c) (outcome status_authed c)
unfolding outcome changes pwr_create_dc_task pwr_delete_dc_task pwr_sys_set_power_state
    pwr_sys_get_rt_power_info pwr_cpu_get_info pwr_cpu_get_usage pwr_cpu_get_perf_data
    pwr_cpu_get_freq_ability pwr_cpu_get_freq_range pwr_cpu_set_freq_range pwr_cpu_get_freq_governor
    pwr_cpu_set_freq_governor pwr_cpu_get_freq pwr_cpu_set_freq pwr_cpu_dma_get_latency
    pwr_cpu_dma_set_latency pwr_disk_get_list pwr_disk_get_load pwr_disk_get_pwr_level
    pwr_disk_set_pwr_level pwr_disk_get_scsi_policy pwr_disk_set_scsi_policy pwr_net_get_info
    pwr_net_get_throuth pwr_net_get_speed_mod pwr_net_set_speed_mod pwr_usb_get_auto_suspend
    pwr_usb_set_auto_suspend
outcome_gated g (create_task none has_callback) = registered g _
outcome_gated g (create_task (some x) has_callback) = registered g _
outcome_gated g (delete_task data_type) = registered g _
outcome_gated g (set_power_state state) = authed g _
outcome_gated g (get_rt_power_info p) = registered g _
outcome_gated g (cpu_info p) = registered g _
outcome_gated g (perf_data p) = registered g _
outcome_gated g (freq_range p) = registered g _
outcome_gated g (set_range p) = authed g _
outcome_gated g (get_latency p) = registered g _
outcome_gated g (usage size p n) = registered g _
outcome_gated g (freq_ability size p n) = registered g _
outcome_gated g (net_info size p n) = registered g _
outcome_gated g (governor p n) = registered g _
outcome_gated g (set_freq p n) = authed g _
outcome_gated g (set_pwr_level p n) = authed g _
outcome_gated g (set_policy p n) = authed g _
outcome_gated g (set_suspend p n) = authed g _
outcome_gated g (set_governor none) = authed g _
outcome_gated g (set_governor (some x)) = authed g _
outcome_gated g (freq p len spec) = registered g _
outcome_gated g (load p len spec) = registered g _
outcome_gated g (pwr_level p len spec) = registered g _
outcome_gated g (policy p len spec) = registered g _
outcome_gated g (set_latency v) = authed g _
outcome_gated g (disk_list p len) = registered g _
outcome_gated g (suspend p len) = registered g _
outcome_gated g (throuth none p) = registered g _
outcome_gated g (throuth (some x) p) = registered g _
outcome_gated g (speed_mod none p) = registered g _
outcome_gated g (speed_mod (some x) p) = registered g _
outcome_gated g (set_speed none v) = authed g _
outcome_gated g (set_speed (some x) v) = authed g _

-- A request for a collection task is handed over exactly if the program is registered, has set a
-- callback, and asks for an interval from 1000 to 100000000.
pub create_task_handed :
    (g : PwrApiStatus) (interval : ℤ) (has_callback : Bool)
    → (pwr_create_dc_task g (some interval) has_callback ≡ handed (create_dc_task interval)) ↔ (
        (0 < rank g)
        × (has_callback ≡ true)
        × (pos 1000 ≤ℤ interval)
        × (interval ≤ℤ pos 100_000_000))
unfolding pwr_create_dc_task check_status check_param
create_task_handed g interval has_callback = ground arith
