-- ===== src/Disk.antt =====
-- The disks, pwrapis/src/diskservice.c: the list of them, and the values collected about one. What
-- `stat`, `regexec` and `sscanf` answer, and the arithmetic on float and double, are arguments;
-- `sprintf` succeeds. The file is /proc/diskstats, whose lines `getline` reads whole.
pub mod Listing
pub mod Collecting
pub mod Tests
use powerapi.Prelude.{
  ℕ, zero, suc, ◌+◌, ◌-◌, ◌*◌, ◌%◌, ◌^◌, Bool, true, false, not, ◌&&◌, ◌||◌, Option, none, some,
  List, [], ◌∷◌, ◌++◌, ◌==◌, if◌then◌else◌, length, drop, set, get_or,
}
use powerapi.Prelude.Int.{ℤ, pos, negsuc, ◌-ℤ◌}
use powerapi.Codes.{success, err_common, err_null_pointer}
use powerapi.Api.Cpu.{max_element_name_len}
use powerapi.Text.Fields.{get_nth_field}
use powerapi.Files.{File, newline, get_match_n, get_file_lines}
use powerapi.Files.Values.{all_lines}
use powerapi.CpuService.Handlers.{Reply}

abbrev pub blank_or_newline : ℕ → Bool
blank_or_newline c = c == 32 || c == newline

abbrev pub dot : ℕ → Bool
dot c = c == b'.'

abbrev pub max_line_length : ℕ
max_line_length = 256

abbrev pub max_dsk_nm_len : ℕ
max_dsk_nm_len = 128

abbrev pub str_len_for_long : ℕ
str_len_for_long = 22

-- `strncpy` of the name into an entry of the list, without a terminator.
abbrev pub overlay : List ℕ → List ℕ → List ℕ
overlay name old = name ++ drop (length name) old

-- One line read: what the entry holds then.
unfoldable pub put_name : List ℕ → List ℕ → List ℕ
unfolding get_nth_field
put_name line entry = elim (get_nth_field line blank_or_newline 3 (max_element_name_len - 1)) [
  | none ↦ set entry 0 0
  | some name ↦ overlay name entry
]

-- The inner loop of `ReadDiskName`, which reads on to the end of the file.
unfoldable pub put_names : List (List ℕ) → List ℕ → List ℕ
unfolding put_name
put_names [] entry = entry
put_names (line ∷ lines) entry = put_names lines (put_name line entry)

-- The outer loop, with `left` rounds left at entry `i` and the lines not yet read.
unfoldable pub disk_loop : ℕ → ℕ → List (List ℕ) → List (List ℕ) → List (List ℕ)
unfolding put_names
disk_loop zero i lines disklist = disklist
disk_loop (suc left) i lines disklist =
    disk_loop left (suc i) [] (set disklist i (put_names lines (get_or disklist i [])))

unfoldable pub read_disk_name : File → List (List ℕ) → ℕ → ℕ × List (List ℕ)
unfolding disk_loop
read_disk_name file disklist disk_num =
    if not file.accessible
    then (err_common, disklist)
    else if not file.opens
    then (err_null_pointer, disklist)
    else (
      if file.closes then success else err_common,
      disk_loop disk_num 0 (all_lines file.bytes) disklist,
    )

-- The bytes of the entries, one after the other.
abbrev pub flat : List (List ℕ) → List ℕ
flat [] = []
flat (e ∷ es) = e ++ flat es

-- `fresh` is what the memory that `malloc` gives for as many entries holds; `junk` is what `diskNum`
-- holds before `GetFileLines`.
unfoldable pub get_disk_info : Bool → Bool → File → ℕ → (ℕ → List (List ℕ)) → Option Reply
unfolding get_file_lines read_disk_name
get_disk_info malloc malloc_rsp file junk fresh =
    let (_, counted, _) = get_file_lines file (length (all_lines file.bytes)) in
    let disk_num : ℕ = elim counted [ none ↦ junk | some n ↦ n ] in
    let (rsp_code, list) = read_disk_name file (fresh disk_num) disk_num in
    if malloc && malloc_rsp
    then some (record { code = rsp_code; content = some (flat list) })
    else none

abbrev pub fd_head_oft : ℕ
fd_head_oft = 3

-- Which of the handlers of a collected value answers for a name.
pub data Handler : Type 0 where
  disk_rrqm disk_wrqm disk_rs disk_ws disk_rkb disk_wkb : Handler
  disk_avg_rg_sz disk_avg_qu_sz disk_svctm disk_util disk_await : Handler

-- The table `hdArr`, in its order.
abbrev pub hd_arr : List Handler
hd_arr =
    disk_rrqm ∷ disk_wrqm ∷ disk_rs ∷ disk_ws ∷ disk_rkb ∷ disk_wkb ∷ disk_avg_rg_sz
    ∷ disk_avg_qu_sz ∷ disk_svctm ∷ disk_util ∷ disk_await ∷ []

-- The first handler whose expression the name matches.
unfoldable pub hd_loop : (Handler → Bool) → List Handler → Option Handler
hd_loop matches [] = none
hd_loop matches (h ∷ hs) = let rest = hd_loop matches hs in if matches h then some h else rest

unfoldable pub get_col_hdl : (Handler → Bool) → Option Handler
unfolding hd_loop
get_col_hdl matches = hd_loop matches hd_arr

-- A collected value: the period, the name, and the two values kept from the last round.
pub record TimeKeeper : Type 0 where
  pub period : ℕ
  pub data_name : List ℕ
  pub reserv : ℤ
  pub reserv1 : ℕ

pub record Ios : Type 0 where
  pub rd_ios : ℕ
  pub wr_ios : ℕ
  pub dc_ios : ℕ

-- A number stored in an unsigned 64-bit field.
abbrev pub to_u64 : ℤ → ℕ
to_u64 (pos n) = n % 2 ^ 64
to_u64 (negsuc n) = 2 ^ 64 - 1 - n % 2 ^ 64

-- What the system answers about a disk: the numbers of its device, where there is one, whether a line
-- matches the expression made from them and the name, and what `sscanf` leaves in the value, `none`
-- where it is below 0.
pub record System : Type 0 where
  pub stat : List ℕ → Option (ℕ × ℕ)
  pub matches : ℕ × ℕ → List ℕ → List ℕ → Bool
  pub scan : List ℕ → Option ℤ
  pub stat_file : File

module _ (system : System) where
  unfoldable pub get_stat_info : List ℕ → ℕ → Option (List ℕ)
  unfolding get_match_n
  get_stat_info disk_name buf_len = elim (system.stat disk_name) [
    | none ↦ none
    | some numbers ↦ get_match_n (system.matches numbers disk_name) 1 buf_len system.stat_file
  ]

  unfoldable pub get_dsk_nm : List ℕ → Option (List ℕ)
  unfolding get_nth_field
  get_dsk_nm data_nm = get_nth_field data_nm dot 2 (max_dsk_nm_len - 1)

  unfoldable pub is_dsk_existed : List ℕ → Bool
  unfolding get_stat_info
  is_dsk_existed dsk_nm = elim (get_stat_info dsk_nm (max_line_length - 1)) [
    | none ↦ false
    | some line ↦ true
  ]

  unfoldable pub is_dt_dsk_existed : List ℕ → Bool
  unfolding get_dsk_nm is_dsk_existed
  is_dt_dsk_existed data_nm = elim (get_dsk_nm data_nm) [
    | none ↦ false
    | some dsk_nm ↦ is_dsk_existed dsk_nm
  ]

  unfoldable pub get_stat_field : List ℕ → ℕ → ℤ
  unfolding get_nth_field
  get_stat_field stat_line field_idx =
      elim (get_nth_field stat_line blank_or_newline field_idx (str_len_for_long - 1)) [
        | none ↦ negsuc 0
        | some text ↦ elim (system.scan text) [ none ↦ negsuc 0 | some v ↦ v ]
      ]

  unfoldable pub get_fd_val : List ℕ → ℕ → ℤ
  unfolding get_dsk_nm get_stat_info get_stat_field
  get_fd_val data_name fd_idx = elim (get_dsk_nm data_name) [
    | none ↦ pos err_null_pointer
    | some dsk_nm ↦ elim (get_stat_info dsk_nm (max_line_length - 1)) [
      | none ↦ pos err_null_pointer
      | some line ↦ get_stat_field line fd_idx
    ]
  ]

  -- The three counts of `GetIos`, `GetSectors` and `GetTicks`, by their fields. The test of the last
  -- for a negative number is on an unsigned one.
  unfoldable pub get_counts : ℕ → ℕ → ℕ → List ℕ → Ios
  unfolding get_fd_val
  get_counts rd wr dc data_name = record {
    rd_ios = to_u64 (get_fd_val data_name (fd_head_oft + rd));
    wr_ios = to_u64 (get_fd_val data_name (fd_head_oft + wr));
    dc_ios = to_u64 (get_fd_val data_name (fd_head_oft + dc));
  }

  unfoldable pub get_ios : List ℕ → Ios
  unfolding get_counts
  get_ios = get_counts 1 5 12

  unfoldable pub get_sectors : List ℕ → Ios
  unfolding get_counts
  get_sectors = get_counts 3 7 14

  unfoldable pub get_ticks : List ℕ → Ios
  unfolding get_counts
  get_ticks = get_counts 4 8 15

abbrev pub sum_of : Ios → ℕ
sum_of ios = (ios.rd_ios + ios.wr_ios + ios.dc_ios) % 2 ^ 64
