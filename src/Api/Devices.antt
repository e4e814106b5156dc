-- ===== src/Api/Devices.antt =====
-- The calls on disks, network and usb devices, `PWR_DISK_...`, `PWR_NET_...` and `PWR_USB_...` of
-- pwrapic/src/powerapi.c.
use powerapi.Prelude.{ℕ, Bool, Option, none, some, List, ◌==◌, leb}
use powerapi.Codes.{err_null_pointer}
use powerapi.Api.Cpu.{bad_name, bad_spec, check_len}
use powerapi.Api.{
  PwrApiStatus, status_registerted, status_authed, Outcome, refused, handed, check_status,
  check_null_pointer, check_param, get_disk_list, get_disk_load, get_disk_pwr_level,
  get_disk_scsi_policy, set_disk_pwr_level, set_disk_scsi_policy, get_net_info, get_net_through,
  get_net_speed_mod, set_net_speed_mod, get_usb_auto_suspend, set_usb_auto_suspend,
}

unfoldable pub pwr_disk_get_list : PwrApiStatus → Bool → Option ℕ → Outcome
unfolding check_status check_null_pointer check_len
pwr_disk_get_list g disk_list len =
    check_status g status_registerted
      (check_null_pointer disk_list (check_len len λ n. handed (get_disk_list n)))

unfoldable pub pwr_disk_get_load : PwrApiStatus → Bool → Option ℕ → ℕ → Outcome
unfolding check_status check_null_pointer check_param check_len
pwr_disk_get_load g load len spec = check_status g status_registerted (
    check_null_pointer load
      (check_len len λ n. check_param (bad_spec spec) (handed (get_disk_load n spec))))

unfoldable pub pwr_disk_get_pwr_level : PwrApiStatus → Bool → Option ℕ → ℕ → Outcome
unfolding check_status check_null_pointer check_param check_len
pwr_disk_get_pwr_level g pwr_level len spec = check_status g status_registerted (
    check_null_pointer pwr_level
      (check_len len λ n. check_param (bad_spec spec) (handed (get_disk_pwr_level n spec))))

unfoldable pub pwr_disk_set_pwr_level : PwrApiStatus → Bool → ℕ → Outcome
unfolding check_status check_null_pointer check_param
pwr_disk_set_pwr_level g pwr_level len =
    check_status g status_authed
      (check_null_pointer pwr_level (check_param (len == 0) (handed (set_disk_pwr_level len))))

unfoldable pub pwr_disk_get_scsi_policy : PwrApiStatus → Bool → Option ℕ → ℕ → Outcome
unfolding check_status check_null_pointer check_param check_len
pwr_disk_get_scsi_policy g scsi_policy len spec = check_status g status_registerted (
    check_null_pointer scsi_policy
      (check_len len λ n. check_param (bad_spec spec) (handed (get_disk_scsi_policy n spec))))

unfoldable pub pwr_disk_set_scsi_policy : PwrApiStatus → Bool → ℕ → Outcome
unfolding check_status check_null_pointer check_param
pwr_disk_set_scsi_policy g scsi_policy len =
    check_status g status_authed
      (check_null_pointer scsi_policy (check_param (len == 0) (handed (set_disk_scsi_policy len))))

-- `sizeof(PWR_NET_Info)` first; a buffer of just that size is refused.
unfoldable pub pwr_net_get_info : ℕ → PwrApiStatus → Bool → ℕ → Outcome
unfolding check_status check_null_pointer check_param
pwr_net_get_info size g net_info buffer_size = check_status g status_registerted (
    check_null_pointer net_info
      (check_param (leb buffer_size size) (handed (get_net_info buffer_size))))

unfoldable pub pwr_net_get_throuth : PwrApiStatus → Option (List ℕ) → Bool → Outcome
unfolding check_status check_null_pointer check_param
pwr_net_get_throuth g none eth_through =
    check_status g status_registerted (refused err_null_pointer)
pwr_net_get_throuth g (some eth_name) eth_through = check_status g status_registerted (
    check_null_pointer eth_through
      (check_param (bad_name eth_name) (handed (get_net_through eth_name))))

unfoldable pub pwr_net_get_speed_mod : PwrApiStatus → Option (List ℕ) → Bool → Outcome
unfolding check_status check_null_pointer check_param
pwr_net_get_speed_mod g none speed_mod =
    check_status g status_registerted (refused err_null_pointer)
pwr_net_get_speed_mod g (some eth_name) speed_mod = check_status g status_registerted (
    check_null_pointer speed_mod
      (check_param (bad_name eth_name) (handed (get_net_speed_mod eth_name))))

unfoldable pub pwr_net_set_speed_mod : PwrApiStatus → Option (List ℕ) → ℕ → Outcome
unfolding check_status
pwr_net_set_speed_mod g none speed_mod = check_status g status_authed (refused err_null_pointer)
pwr_net_set_speed_mod g (some eth_name) speed_mod =
    check_status g status_authed (handed (set_net_speed_mod eth_name speed_mod))

unfoldable pub pwr_usb_get_auto_suspend : PwrApiStatus → Bool → Option ℕ → Outcome
unfolding check_status check_null_pointer check_len
pwr_usb_get_auto_suspend g usb_ats len =
    check_status g status_registerted
      (check_null_pointer usb_ats (check_len len λ n. handed (get_usb_auto_suspend n)))

unfoldable pub pwr_usb_set_auto_suspend : PwrApiStatus → Bool → ℕ → Outcome
unfolding check_status check_null_pointer check_param
pwr_usb_set_auto_suspend g usb_ats len =
    check_status g status_authed
      (check_null_pointer usb_ats (check_param (len == 0) (handed (set_usb_auto_suspend len))))
