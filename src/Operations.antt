-- ===== src/Operations.antt =====
-- `enum OperationType` of common/inc/pwrmsg.h.
use powerapi.Prelude.{ℕ}

abbrev pub com_create_dc_task : ℕ
com_create_dc_task = 10

abbrev pub com_delete_dc_task : ℕ
com_delete_dc_task = 11

abbrev pub com_callback_data : ℕ
com_callback_data = 12

abbrev pub com_request_control_auth : ℕ
com_request_control_auth = 13

abbrev pub com_release_control_auth : ℕ
com_release_control_auth = 14

abbrev pub sys_set_power_state : ℕ
sys_set_power_state = 100

abbrev pub sys_get_rt_power : ℕ
sys_get_rt_power = 101

abbrev pub cpu_get_info : ℕ
cpu_get_info = 200

abbrev pub cpu_get_usage : ℕ
cpu_get_usage = 201

abbrev pub cpu_get_perf_data : ℕ
cpu_get_perf_data = 202

abbrev pub cpu_get_freq_ability : ℕ
cpu_get_freq_ability = 203

abbrev pub cpu_get_freq_range : ℕ
cpu_get_freq_range = 204

abbrev pub cpu_set_freq_range : ℕ
cpu_set_freq_range = 205

abbrev pub cpu_get_freq_governor : ℕ
cpu_get_freq_governor = 206

abbrev pub cpu_set_freq_governor : ℕ
cpu_set_freq_governor = 207

abbrev pub cpu_get_cur_freq : ℕ
cpu_get_cur_freq = 208

abbrev pub cpu_set_cur_freq : ℕ
cpu_set_cur_freq = 209

abbrev pub cpu_get_dma_latency : ℕ
cpu_get_dma_latency = 210

abbrev pub cpu_set_dma_latency : ℕ
cpu_set_dma_latency = 211

abbrev pub disk_get_io_rate : ℕ
disk_get_io_rate = 300

abbrev pub disk_get_list : ℕ
disk_get_list = 301

abbrev pub disk_get_load : ℕ
disk_get_load = 302

abbrev pub disk_get_power_level : ℕ
disk_get_power_level = 303

abbrev pub disk_set_power_level : ℕ
disk_set_power_level = 304

abbrev pub disk_get_scsi_policy : ℕ
disk_get_scsi_policy = 305

abbrev pub disk_set_scsi_policy : ℕ
disk_set_scsi_policy = 306

abbrev pub net_get_info : ℕ
net_get_info = 400

abbrev pub net_get_through : ℕ
net_get_through = 401

abbrev pub net_get_speed_mod : ℕ
net_get_speed_mod = 402

abbrev pub net_set_speed_mod : ℕ
net_set_speed_mod = 403

abbrev pub usb_get_auto_suspend : ℕ
usb_get_auto_suspend = 500

abbrev pub usb_set_auto_suspend : ℕ
usb_set_auto_suspend = 501
