-- ===== src/Server/Route.antt =====
-- Which handler a request reaches: `ProcessReqMsg` of pwrapis/src/server.c, and the requests of the
-- client library.
use powerapi.Prelude.{
  ℕ, ◌≤◌, ◌≡◌, refl, Option, none, some, List, arith, ◌==◌, if◌then◌else◌, ltb, false, inl, inr,
  Bool-cases,
}
use powerapi.Msg.{PwrMsg}
use powerapi.Operations.{
  com_create_dc_task, com_delete_dc_task, com_request_control_auth, com_release_control_auth,
  sys_set_power_state, sys_get_rt_power, cpu_get_info, cpu_get_usage, cpu_get_perf_data,
  cpu_get_freq_ability, cpu_get_freq_range, cpu_set_freq_range, cpu_get_freq_governor,
  cpu_set_freq_governor, cpu_get_cur_freq, cpu_set_cur_freq,
}
use powerapi.Request.{Transfer, ask, ask_about, tell, command}
use powerapi.Request.Cpu
use powerapi.Request.Devices
use powerapi.Server.{
  Server, Layout, Luck, request_control_auth, release_control_auth, create_data_coll_task,
  delete_data_coll_task,
}

-- The handlers of `ProcessReqMsg`.
pub data Handler : Type 0 where
  create_data_coll_task_h delete_data_coll_task_h request_control_auth_h release_control_auth_h :
      Handler
  set_sys_power_state_h get_sys_rt_power_info_h : Handler
  get_cpu_usage_h get_cpu_perf_data_h get_cpuinfo_h get_cpu_freq_governor_h : Handler
  set_cpu_freq_governor_h get_cpu_freq_h set_cpu_freq_h get_cpu_freq_ability_h : Handler
  get_cpu_freq_range_h set_cpu_freq_range_h : Handler

-- The switch, `none` for its default.
unfoldable pub route : ℕ → Option Handler
route opt_type =
    if opt_type == com_create_dc_task
    then some create_data_coll_task_h
    else if opt_type == com_delete_dc_task
    then some delete_data_coll_task_h
    else if opt_type == com_request_control_auth
    then some request_control_auth_h
    else if opt_type == com_release_control_auth
    then some release_control_auth_h
    else if opt_type == sys_set_power_state
    then some set_sys_power_state_h
    else if opt_type == sys_get_rt_power
    then some get_sys_rt_power_info_h
    else if opt_type == cpu_get_usage
    then some get_cpu_usage_h
    else if opt_type == cpu_get_perf_data
    then some get_cpu_perf_data_h
    else if opt_type == cpu_get_info
    then some get_cpuinfo_h
    else if opt_type == cpu_get_freq_governor
    then some get_cpu_freq_governor_h
    else if opt_type == cpu_set_freq_governor
    then some set_cpu_freq_governor_h
    else if opt_type == cpu_get_cur_freq
    then some get_cpu_freq_h
    else if opt_type == cpu_set_cur_freq
    then some set_cpu_freq_h
    else if opt_type == cpu_get_freq_ability
    then some get_cpu_freq_ability_h
    else if opt_type == cpu_get_freq_range
    then some get_cpu_freq_range_h
    else if opt_type == cpu_set_freq_range
    then some set_cpu_freq_range_h
    else none

-- The handlers that read and set system values are the argument `rest`.
unfoldable pub serve :
    Layout → Luck → (Handler → Server → PwrMsg → Server) → Server → PwrMsg → Handler → Server
serve layout luck rest s req create_data_coll_task_h = create_data_coll_task layout luck s req
serve layout luck rest s req delete_data_coll_task_h = delete_data_coll_task layout luck s req
serve layout luck rest s req request_control_auth_h = request_control_auth luck.malloc_rsp s req
serve layout luck rest s req release_control_auth_h = release_control_auth luck.malloc_rsp s req
serve layout luck rest s req h = rest h s req

unfoldable pub process_req_msg :
    Layout → Luck → (Handler → Server → PwrMsg → Server) → Server → PwrMsg → Server
unfolding route serve
process_req_msg layout luck rest s req = elim (route req.head.opt_type) [
  | none ↦ s
  | some h ↦ serve layout luck rest s req h
]

-- A transfer that answers with the operation of the request.
abbrev pub spy : Transfer
spy input output = (input.opt_type, output)

-- The requests of pwrcom.c, pwrtask.c and pwrsys.c, and those of pwrcpu.c but for the latency, each
-- reach the daemon's handler for them; a request for current frequencies does if it is for at most
-- 512 of them.
pub requests_routed :
    (t a b len spec : ℕ) (read : List ℕ → ℕ) (bytes : List ℕ)
    → len ≤ 512
    → (route (Cpu.create_dc_task spy t bytes) ≡ some create_data_coll_task_h)
      × (route (Cpu.delete_dc_task spy t bytes) ≡ some delete_data_coll_task_h)
      × (route (Cpu.request_control_auth spy t) ≡ some request_control_auth_h)
      × (route (Cpu.release_control_auth spy t) ≡ some release_control_auth_h)
      × (route (Cpu.set_sys_power_state spy t a) ≡ some set_sys_power_state_h)
      × (route (Cpu.get_sys_rt_power_info spy t a bytes).0 ≡ some get_sys_rt_power_info_h)
      × (route (Cpu.get_cpu_info spy t a bytes).0 ≡ some get_cpuinfo_h)
      × (route (Cpu.get_cpu_usage spy t a b bytes len).0 ≡ some get_cpu_usage_h)
      × (route (Cpu.get_cpu_perf_data spy t a bytes).0 ≡ some get_cpu_perf_data_h)
      × (route (Cpu.get_cpu_freq_range spy t a bytes).0 ≡ some get_cpu_freq_range_h)
      × (route (Cpu.set_cpu_freq_range spy t bytes) ≡ some set_cpu_freq_range_h)
      × (route (Cpu.get_cpu_freq_governor spy t a).0 ≡ some get_cpu_freq_governor_h)
      × (route (Cpu.set_cpu_freq_governor spy t bytes) ≡ some set_cpu_freq_governor_h)
      × (route (Cpu.get_cpu_cur_freq spy t a bytes len spec).0 ≡ some get_cpu_freq_h)
      × (route (Cpu.set_cpu_cur_freq spy t bytes) ≡ some set_cpu_freq_h)
      × (route (Cpu.get_cpu_freq_ability spy t a read bytes len).0 ≡ some get_cpu_freq_ability_h)
unfolding Cpu.get_cpu_freq_ability route Cpu.create_dc_task Cpu.delete_dc_task
    Cpu.request_control_auth Cpu.release_control_auth Cpu.set_sys_power_state
    Cpu.get_sys_rt_power_info Cpu.get_cpu_info Cpu.get_cpu_usage Cpu.get_cpu_perf_data
    Cpu.get_cpu_freq_range Cpu.set_cpu_freq_range Cpu.get_cpu_freq_governor
    Cpu.set_cpu_freq_governor Cpu.get_cpu_cur_freq Cpu.set_cpu_cur_freq ask ask_about tell command
requests_routed t a b len spec read bytes small =
    let fits : ltb 512 len ≡ false = ground arith in
    let current : route (Cpu.get_cpu_cur_freq spy t a bytes len spec).0 ≡ some get_cpu_freq_h =
      elim (Bool-cases (spec == 0)) [ inl e ↦ rw (fits, e) refl | inr e ↦ rw (fits, e) refl ] in
    let ability : route (Cpu.get_cpu_freq_ability spy t a read bytes len).0
        ≡ some get_cpu_freq_ability_h =
      elim (Bool-cases (read bytes == 0)) [ inl e ↦ rw e refl | inr e ↦ rw e refl ] in
    (
      refl, refl, refl, refl, refl, refl, refl, refl, refl, refl, refl, refl, refl, current, refl,
      ability,
    )

-- The requests for the latency of the processors, and all those of pwrdisk.c, reach no handler: the
-- daemon drops them, without an answer.
pub requests_dropped :
    (layout : Layout) (luck : Luck) (rest : Handler → Server → PwrMsg → Server) (s : Server)
    (req : PwrMsg) (t a len spec : ℕ) (bytes : List ℕ)
    → let served = λ (opt_type : ℕ).
      process_req_msg layout luck rest s
        (record req { head = record req.head { opt_type = opt_type } }) in
      (served (Cpu.get_cpu_dma_latency spy t a bytes).0 ≡ s)
      × (served (Cpu.set_cpu_dma_latency spy t bytes) ≡ s)
      × (served (Devices.get_disk_list spy t bytes len).0 ≡ s)
      × (served (Devices.get_disk_load spy t a bytes len spec).0 ≡ s)
      × (served (Devices.get_disk_pwr_level spy t a bytes len spec).0 ≡ s)
      × (served (Devices.set_disk_pwr_level spy t bytes) ≡ s)
      × (served (Devices.get_disk_scsi_policy spy t a bytes len spec).0 ≡ s)
      × (served (Devices.set_disk_scsi_policy spy t bytes) ≡ s)
unfolding process_req_msg route Cpu.get_cpu_dma_latency Cpu.set_cpu_dma_latency
    Devices.get_disk_list Devices.get_disk_load Devices.get_disk_pwr_level
    Devices.set_disk_pwr_level Devices.get_disk_scsi_policy Devices.set_disk_scsi_policy
    Devices.ask_some ask ask_about tell
requests_dropped layout luck rest s req t a len spec bytes = elim (Bool-cases (spec == 0)) [
  | inl e ↦ rw e (refl, refl, refl, refl, refl, refl, refl, refl)
  | inr e ↦ rw e (refl, refl, refl, refl, refl, refl, refl, refl)
]
