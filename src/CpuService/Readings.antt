-- ===== src/CpuService/Readings.antt =====
-- What pwrapis/src/cpuservice.c reads from the system. The lines that a command prints, or `none` where
-- `popen` fails, are arguments, and so is what `strtoul` and `atof` read. Each line of `lscpu` has a
-- colon behind its first character. Texts fit the buffers that are not tested,
-- and the numbers in them are ones that an int holds.
pub mod Attributes
pub mod Tests
use powerapi.Prelude.{
  ℕ, zero, suc, ◌+◌, ◌-◌, ◌*◌, ◌/◌, ◌%◌, ◌^◌, Bool, true, false, not, ◌&&◌, ◌||◌, Option, none,
  some, List, [], ◌∷◌, ◌++◌, map, ◌==◌, if◌then◌else◌, ltb, length, set, take, drop, replicate,
}
use powerapi.Prelude.Int.{ℤ, pos, negsuc}
use powerapi.Codes.{success, err_common}
use powerapi.Api.Cpu.{max_element_name_len}
use powerapi.Text.{c_str, ltrim, delete_char, delete_substr, str_copy}
use powerapi.Text.Fields.{tokens}
use powerapi.Config.{codes, atoi, same_text}
use powerapi.CpuUsage.{has, blank}
use powerapi.CpuService.{CurFreq, FreqRange, freq_sort_by_policy}

abbrev pub line_end : ℕ
line_end = 10

abbrev pub cpu_attributes : List (List ℕ)
cpu_attributes =
    codes "Architecture"
    ∷ codes "Model name"
    ∷ codes "Byte Order"
    ∷ codes "NUMA node(s)"
    ∷ codes "NUMA node"
    ∷ codes "CPU(s)"
    ∷ codes "On-line CPU"
    ∷ codes "Thread(s) per core"
    ∷ codes "Core(s) per socket"
    ∷ codes "max MHz"
    ∷ codes "min MHz"
    ∷ []

-- The loop of `GetCpuArrId`, from attribute `i` on.
unfoldable pub arr_loop : List ℕ → ℕ → List (List ℕ) → ℕ
arr_loop att i [] = i
arr_loop att i (a ∷ attributes) =
    let rest = arr_loop att (suc i) attributes in if has att a then i else rest

unfoldable pub get_cpu_arr_id : List ℕ → ℕ
unfolding arr_loop
get_cpu_arr_id att = arr_loop att 0 cpu_attributes

-- `DeleteSubstr` on a text that has memory behind it; what that holds does not show.
abbrev pub part_deleted : List ℕ → List ℕ → List ℕ
part_deleted text sub = elim (delete_substr text sub (replicate (length sub) 0)) [
  | none ↦ text
  | some (_, bytes) ↦ c_str bytes
]

-- A text stored by `StrCopy`.
abbrev pub stored : List ℕ → ℕ → List ℕ
stored value size = c_str (str_copy value size)

pub record NumaInfo : Type 0 where
  pub node_no : ℕ
  pub cpu_list : List ℕ

pub record CpuInfo (F : Type 0) : Type 0 where
  pub arch : List ℕ
  pub model_name : List ℕ
  pub byte_order : ℕ
  pub core_num : ℕ
  pub online_list : List ℕ
  pub threads_per_core : ℕ
  pub coresper_socket : ℕ
  pub max_freq : F
  pub min_freq : F
  pub numa_num : ℕ
  pub numa : List NumaInfo

abbrev pub before_colon : List ℕ → List ℕ
before_colon [] = []
before_colon (c ∷ s) = let rest = before_colon s in if c == b':' then [] else c ∷ rest

module _ {F : Type 0} (atof : List ℕ → F) where
  -- `none` where the number of a node is no index.
  unfoldable pub copy_numa : List ℕ → List ℕ → CpuInfo F → Option (CpuInfo F)
  copy_numa att value d =
      let j = atoi (part_deleted (part_deleted att (codes "NUMA node")) (codes " CPU(s)")) in
      let node : NumaInfo = record { node_no = j; cpu_list = stored value 248 } in
      if ltb j (length d.numa) then some (record d { numa = set d.numa j node }) else none

  unfoldable pub cpu_info_copy : List ℕ → List ℕ → CpuInfo F → Option (CpuInfo F)
  unfolding copy_numa
  cpu_info_copy att value d =
      let att_id = get_cpu_arr_id att in
      if att_id == 0
      then some (record d { arch = stored value 32 })
      else if att_id == 1
      then some (record d { model_name = stored value 128 })
      else if att_id == 2
      then some (record d { byte_order = if has value (codes "Little") then 0 else 1 })
      else if att_id == 3
      then some (record d { numa_num = atoi value })
      else if att_id == 4
      then copy_numa att value d
      else if att_id == 5
      then some (if length att == 6 then record d { core_num = atoi value } else d)
      else if att_id == 6
      then some (record d { online_list = stored value 248 })
      else if att_id == 7
      then some (record d { threads_per_core = atoi value })
      else if att_id == 8
      then some (record d { coresper_socket = atoi value })
      else if att_id == 9
      then some (record d { max_freq = atof value })
      else if att_id == 10
      then some (record d { min_freq = atof value })
      else some d

  -- One line: `none` where nothing follows the colon, and the code writes before the value.
  unfoldable pub read_attribute : List ℕ → CpuInfo F → Option (CpuInfo F)
  unfolding cpu_info_copy
  read_attribute buf d =
      let att = before_colon buf in
      let value = ltrim (drop (length att + 1) buf) in
      if length value == 0
      then none
      else cpu_info_copy (ltrim att) (take (length value - 1) value) d

  unfoldable pub read_attributes : List (List ℕ) → CpuInfo F → Option (CpuInfo F)
  unfolding read_attribute
  read_attributes [] d = some d
  read_attributes (buf ∷ lines) d = elim (read_attribute buf d) [
    | none ↦ none
    | some d' ↦ read_attributes lines d'
  ]

  -- The code is 1 where `popen` fails.
  unfoldable pub cpu_info_read : Option (List (List ℕ)) → CpuInfo F → Option (ℕ × CpuInfo F)
  unfolding read_attributes
  cpu_info_read none d = some (1, d)
  cpu_info_read (some lines) d = elim (read_attributes lines d) [
    | none ↦ none
    | some d' ↦ some (success, d')
  ]

  -- `junk` is what the memory holds that `malloc` gives, `none` where it fails.
  unfoldable pub get_arch : Option (CpuInfo F) → Option (List (List ℕ)) → Option ℤ
  unfolding cpu_info_read
  get_arch none lines = some (negsuc 0)
  get_arch (some junk) lines = elim (cpu_info_read lines junk) [
    | none ↦ none
    | some (m, info) ↦ some (
        if not (m == 0)
        then negsuc 0
        else if has info.arch (codes "aarch64")
        then pos 0
        else if has info.arch (codes "x86_64")
        then pos 1
        else negsuc 0)
  ]

-- A line without its line feed and blanks.
abbrev pub plain : List ℕ → List ℕ
plain line = delete_char (delete_char line line_end) blank

pub record Sums : Type 0 where
  pub cache_miss : ℕ
  pub ins : ℕ
  pub cycles : ℕ

module _ (strtoul : List ℕ → ℕ) where
  unfoldable pub add_line : List ℕ → Sums → Sums
  add_line line t =
      let buf = delete_char (plain line) b',' in
      if has buf (codes "r0033") || has buf (codes "LLC-load-misses")
      then record t {
        cache_miss =
            (t.cache_miss
              + strtoul (part_deleted (part_deleted buf (codes "r0033")) (codes "LLC-load-misses")))
            % 2 ^ 64;
      }
      else if has buf (codes "instructions")
      then record t { ins = (t.ins + strtoul (part_deleted buf (codes "instructions"))) % 2 ^ 64 }
      else if has buf (codes "cycles")
      then record t { cycles = (t.cycles + strtoul (part_deleted buf (codes "cycles"))) % 2 ^ 64 }
      else t

  unfoldable pub add_lines : List (List ℕ) → Sums → Sums
  unfolding add_line
  add_lines [] t = t
  add_lines (line ∷ lines) t = add_lines lines (add_line line t)

  -- The code, and `ipc` and `llcMiss` where they are stored; `ratio` divides two counts.
  unfoldable pub perf_data_read :
      {F : Type 0} → (ℕ → ℕ → F) → ℤ → Option (List (List ℕ)) → ℕ × Option (F × F)
  unfolding add_lines
  perf_data_read ratio (negsuc m) lines = (1, none)
  perf_data_read ratio (pos m) none = (1, none)
  perf_data_read ratio (pos m) (some lines) =
      let t = add_lines lines (record { cache_miss = 0; ins = 0; cycles = 0 }) in
      if ltb 1 m
      then (1, none)
      else (success, some (ratio t.ins t.cycles, ratio t.cache_miss t.ins))

-- The names that `ls` prints, `none` where it cannot be started.
unfoldable pub get_policys : Option (List (List ℕ)) → Option (List (List ℕ))
get_policys none = none
get_policys (some lines) =
    some (map (λ line. stored (delete_char line line_end) max_element_name_len) lines)

abbrev pub is_blank : ℕ → Bool
is_blank c = c == blank

-- The pieces that `strtok` gives; `none` where nothing is read.
unfoldable pub all_governors_read : Option (List ℕ) → Option (List (List ℕ))
all_governors_read none = none
all_governors_read (some []) = none
all_governors_read (some (c ∷ s)) = some (
    map (λ temp. stored temp max_element_name_len) (tokens is_blank (delete_char (c ∷ s) line_end)))

-- The first loop of `CheckAvailableGovernor`.
unfoldable pub any_same : List ℕ → List (List ℕ) → Bool
any_same gov [] = false
any_same gov (temp ∷ temps) = same_text (delete_char temp blank) gov || any_same gov temps

-- The path is made with as many characters of the policy's name as the governor's name has.
abbrev pub gov_path : List ℕ → List ℕ → List ℕ
gov_path gov policys =
    codes "cat /sys/devices/system/cpu/cpufreq/"
    ++ (take (length gov) policys ++ codes "/scaling_available_governors")

-- `command` is the line that a command prints, `none` where there is none.
unfoldable pub check_available_governor : (List ℕ → Option (List ℕ)) → Bool → List ℕ → List ℕ → ℕ
unfolding any_same
check_available_governor command malloc gov policys = elim (command (gov_path gov policys)) [
  | none ↦ 1
  | some buf ↦ if malloc && any_same gov (tokens is_blank (delete_char buf line_end)) then 0 else 1
]

unfoldable pub current_governor_read : Option (List ℕ) → ℕ × Option (List ℕ)
current_governor_read none = (1, none)
current_governor_read (some buf) = (success, some (stored (plain buf) max_element_name_len))

module _ {F : Type 0} (strtoul : List ℕ → ℕ) (thousandth : ℕ → F)
    (command : List ℕ → Option (List ℕ)) where
  abbrev pub freq_path : ℤ → List ℕ → List ℕ
  freq_path (pos m) policy =
      codes "cat /sys/devices/system/cpu/cpufreq/"
      ++ (policy
          ++ (if m == 0
              then codes "/cpuinfo_cur_freq"
              else if m == 1
              then codes "/scaling_cur_freq"
              else []))
  freq_path (negsuc m) policy = codes "cat /sys/devices/system/cpu/cpufreq/" ++ policy

  -- The frequencies read before one cannot be read, and whether all were.
  unfoldable pub read_freqs : ℤ → List (List ℕ) → Bool × List (CurFreq F)
  read_freqs m [] = (true, [])
  read_freqs m (policy ∷ policys) =
      let (all, rest) = read_freqs m policys in
      elim (command (freq_path m policy)) [
        | none ↦ (false, [])
        | some buf ↦ (
          all,
          record {
            policy_id = pos (atoi (part_deleted policy (codes "policy")));
            cur_freq = thousandth (strtoul (plain buf));
          }
              ∷ rest,
        )
      ]

  unfoldable pub freq_read : ℤ → List (List ℕ) → ℕ × List (CurFreq F)
  unfolding read_freqs
  freq_read m policys =
      let (all, read) = read_freqs m policys in
      if all then (success, freq_sort_by_policy read) else (err_common, read)

-- One entry of the domains: the number is stored in one byte.
pub record Domain : Type 0 where
  pub number : ℕ
  pub cpus : List ℕ

-- `affected` is what the file of a policy holds, `none` where nothing is read.
unfoldable pub freq_domain_read :
    (List ℕ → Option (List ℕ)) → ℕ → List (List ℕ) → Option (List Domain)
freq_domain_read affected step [] = some []
freq_domain_read affected step (policy ∷ policys) =
    let rest = freq_domain_read affected step policys in
    elim (affected policy) [
      | none ↦ none
      | some bytes ↦ elim rest [
        | none ↦ none
        | some domains ↦ some (
            record {
              number = atoi (part_deleted policy (codes "policy")) % 2 ^ 8;
              cpus = stored (delete_char bytes line_end) (step - 4);
            }
            ∷ domains)
      ]
    ]
