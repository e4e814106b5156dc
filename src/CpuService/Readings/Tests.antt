-- ===== src/CpuService/Readings/Tests.antt =====
-- The line of `lscpu` about the processors that are on line, and a governor of another policy.
use powerapi.Prelude.{ℕ, ◌≡◌, refl, true, none, some, List, [], ◌∷◌, ◌++◌, if◌then◌else◌}
use powerapi.Codes.{success}
use powerapi.Config.{codes, same_text, atoi_from}
use powerapi.Text.{ltrim, str_match, delete_char, str_copy}
use powerapi.Text.Fields.{tokens}
use powerapi.CpuService.Readings.{
  CpuInfo, get_cpu_arr_id, line_end, cpu_info_read, check_available_governor, all_governors_read,
}
use powerapi.CpuService.Readings.Attributes.{online_list_unread}

abbrev online_line : List ℕ
online_line = codes "On-line CPU(s) list:  0-3" ++ line_end ∷ []

abbrev cores_line : List ℕ
cores_line = codes "CPU(s):  4" ++ line_end ∷ []

abbrev junk : CpuInfo ℕ
junk = record {
  arch = [];
  model_name = [];
  byte_order = 0;
  core_num = 0;
  online_list = codes "junk";
  threads_per_core = 0;
  coresper_socket = 0;
  max_freq = 0;
  min_freq = 0;
  numa_num = 0;
  numa = [];
}

four_cores :
    cpu_info_read (λ text. 0) (some (online_line ∷ cores_line ∷ [])) junk
    ≡ some (success, record junk { core_num = 4 })
unfolding cpu_info_read ltrim get_cpu_arr_id str_match atoi_from
four_cores = refl

-- What `lscpu` prints in two lines is read, and the list is still what the memory held.
online_list_unread_example : (record junk { core_num = 4 }).online_list ≡ junk.online_list
unfolding ltrim get_cpu_arr_id str_match
online_list_unread_example =
    online_list_unread (λ text. 0) (online_line ∷ cores_line ∷ []) junk
      (record junk { core_num = 4 }) success (λ h. refl, (λ h. refl, tt)) four_cores

governors :
    all_governors_read (some (codes "powersave userspace"))
    ≡ some (codes "powersave" ∷ codes "userspace" ∷ [])
unfolding all_governors_read delete_char tokens str_copy
governors = refl

-- The governor of policy 128 is looked for in the list of policy 12.
cut_off :
    check_available_governor
      (λ path.
        if same_text path
          (codes "cat /sys/devices/system/cpu/cpufreq/policy12/scaling_available_governors")
        then some (codes "ondemand" ++ line_end ∷ [])
        else none)
      true
      (codes "ondemand")
      (codes "policy128")
    ≡ 0
unfolding check_available_governor delete_char tokens
cut_off = refl
