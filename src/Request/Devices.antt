-- ===== src/Request/Devices.antt =====
-- The requests of pwrapic/src/pwrdisk.c. `sizeof` of an element comes first.
use powerapi.Prelude.{ℕ, ◌*◌, ◌/◌, ◌%◌, ◌^◌, List, ◌==◌, if◌then◌else◌}
use powerapi.Codes.{success}
use powerapi.Operations.{
  disk_get_list, disk_get_load, disk_get_power_level, disk_set_power_level, disk_get_scsi_policy,
  disk_set_scsi_policy,
}
use powerapi.Request.{Transfer, RspOutputParam, ask, ask_about, tell, size_of}

-- The length written back on an error; on success it stays.
abbrev pub remediated : ℕ → ℕ × RspOutputParam → ℕ → ℕ × RspOutputParam × ℕ
remediated elem_size r len =
    let (ret, output) = r in
    if ret == success then (ret, output, len) else (ret, output, size_of output / elem_size)

module _ (transfer : Transfer) (task_no : ℕ) where
  -- The elements at the pointer are sent along if they are specified.
  unfoldable pub ask_some : ℕ → ℕ → List ℕ → ℕ → ℕ × RspOutputParam
  unfolding ask ask_about
  ask_some opt_type spec elems size =
      if spec == 0
      then ask transfer task_no opt_type size elems
      else ask_about transfer task_no opt_type elems size elems

  unfoldable pub get_disk_list : List ℕ → ℕ → ℕ × RspOutputParam × ℕ
  unfolding ask
  get_disk_list disk_list len =
      remediated 32 (ask transfer task_no disk_get_list (32 * len % 2 ^ 32) disk_list) len

  unfoldable pub get_disk_load : ℕ → List ℕ → ℕ → ℕ → ℕ × RspOutputParam × ℕ
  unfolding ask_some
  get_disk_load elem_size load len spec =
      remediated elem_size (ask_some disk_get_load spec load (elem_size * len % 2 ^ 32)) len

  unfoldable pub get_disk_pwr_level : ℕ → List ℕ → ℕ → ℕ → ℕ × RspOutputParam × ℕ
  unfolding ask_some
  get_disk_pwr_level elem_size pwr_level len spec =
      remediated elem_size (ask_some disk_get_power_level spec pwr_level (elem_size * len % 2 ^ 32))
        len

  unfoldable pub set_disk_pwr_level : List ℕ → ℕ
  unfolding tell
  set_disk_pwr_level pwr_level = tell transfer task_no disk_set_power_level pwr_level

  unfoldable pub get_disk_scsi_policy : ℕ → List ℕ → ℕ → ℕ → ℕ × RspOutputParam × ℕ
  unfolding ask_some
  get_disk_scsi_policy elem_size scsi_policy len spec =
      remediated elem_size
        (ask_some disk_get_scsi_policy spec scsi_policy (elem_size * len % 2 ^ 32)) len

  unfoldable pub set_disk_scsi_policy : List ℕ → ℕ
  unfolding tell
  set_disk_scsi_policy scsi_policy = tell transfer task_no disk_set_scsi_policy scsi_policy
