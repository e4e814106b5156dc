-- ===== src/Config.antt =====
-- The configuration of the daemon, pwrapis/src/config.c.
-- A text is the list of its characters. A line comes from `fgets`, with its line feed; its key is
-- shorter than MAX_KEY_LEN and its value than MAX_LINE_LENGTH, the buffers that the source copies
-- them to without a test. Numbers in a file are ints; one that is longer is cut as glibc and a
-- two's complement machine do, where C leaves it open.
-- `sprintf` succeeds. A result is `none` where the source leaves a text: `LRtrim` of a text that is all spaces.
pub mod Dynamic
pub mod Loading
pub mod Reloading
pub mod Tests
use Prim.Native.Char.{code}
use Prim.Native.String.{String}
use mathlib.Core.Option
use powerapi.Prelude.{
  ℕ, zero, suc, ◌+◌, ◌-◌, ◌*◌, ◌%◌, ◌^◌, Bool, true, false, not, ◌&&◌, ◌||◌, Option, none, some,
  List, [], ◌∷◌, ◌==◌, if◌then◌else◌, ltb, leb, length, take,
}
use powerapi.Codes.{success, err_common, err_invalide_param, err_modify_ban_update_attr_currently}
use powerapi.Text.{is_digit, is_num_str, lr_trim}

abbrev pub codes : String → List ℕ
codes String.[] = []
codes (String.◌∷◌ c s) = code c ∷ codes s

-- `strcmp(a, b) == 0`
abbrev pub same_text : List ℕ → List ℕ → Bool
same_text [] [] = true
same_text [] (d ∷ t) = false
same_text (c ∷ s) [] = false
same_text (c ∷ s) (d ∷ t) = c == d && same_text s t

-- `atoi` of a text that begins with digits.
unfoldable pub atoi_from : ℕ → List ℕ → ℕ
atoi_from n [] = n
atoi_from n (c ∷ s) = let rest = atoi_from (n * 10 + (c - b'0')) s in if is_digit c then rest else n

abbrev pub atoi : List ℕ → ℕ
atoi s = atoi_from 0 s

-- The 32 bits of the int that `atoi` makes of it: it reads a long, which is the largest one for a
-- longer text, and cuts that. An int is negative if its bits are 2^31 or more.
abbrev pub int_value : List ℕ → ℕ
int_value s = (if ltb (atoi s) (2 ^ 63) then atoi s else 2 ^ 63 - 1) % 2 ^ 32

pub record LogCfg : Type 0 where
  pub max_file_size : ℕ
  pub max_cmp_cnt : ℕ
  pub log_level : ℕ
  pub log_path : List ℕ
  pub log_bkp : List ℕ
  pub log_pfx : List ℕ

pub record ServCfg : Type 0 where
  pub port : ℕ
  pub sock_file : List ℕ

-- `g_logCfg`, `g_servCfg` and `g_lastMd5`.
pub record Settings : Type 0 where
  pub log : LogCfg
  pub serv : ServCfg
  pub last_md5 : List ℕ

pub data CnfItemType : Type 0 where
  fls cnt lgv lgp bkp pfx svp skf : CnfItemType

-- `none` where the source ends without a return; its callers are taken to find no case for that.
unfoldable pub string_to_enum : List ℕ → Option CnfItemType
string_to_enum str =
    if same_text str (codes "file_size")
    then some fls
    else if same_text str (codes "cmp_cnt")
    then some cnt
    else if same_text str (codes "log_level")
    then some lgv
    else if same_text str (codes "log_path")
    then some lgp
    else if same_text str (codes "bak_log_path")
    then some bkp
    else if same_text str (codes "log_pfx")
    then some pfx
    else if same_text str (codes "port")
    then some svp
    else if same_text str (codes "sock_file")
    then some skf
    else none

-- `actualValue * UNIT_FACTOR - MAX_LINE_LENGTH`, an int, which is then stored in a uint64_t.
unfoldable pub file_size : ℕ → ℕ
file_size mb =
    let bits = (mb * 1_048_576 + 2 ^ 32 - 256) % 2 ^ 32 in
    if ltb bits (2 ^ 31) then bits else 2 ^ 64 - 2 ^ 32 + bits

-- A copy to an array of MAX_PATH_NAME characters, and one to an array of MAX_FILE_NAME.
abbrev pub path_copy : List ℕ → List ℕ
path_copy value = take 127 value

abbrev pub file_copy : List ℕ → List ℕ
file_copy value = take 177 value

-- A number that is wanted: all digits, and `low` at least.
abbrev pub number_ok : ℕ → List ℕ → Bool
number_ok low value =
    is_num_str value && (ltb (int_value value) (2 ^ 31) && leb low (int_value value))

unfoldable pub update_log_cfg : CnfItemType → List ℕ → LogCfg → ℕ × LogCfg
unfolding file_size
update_log_cfg fls value g =
    if number_ok 1 value
    then (success, record g { max_file_size = file_size (int_value value) })
    else (err_invalide_param, g)
update_log_cfg cnt value g =
    if number_ok 1 value
    then (success, record g { max_cmp_cnt = int_value value })
    else (err_invalide_param, g)
update_log_cfg lgv value g =
    if number_ok 0 value
    then (success, record g { log_level = int_value value })
    else (err_invalide_param, g)
update_log_cfg lgp value g = (success, record g { log_path = path_copy value })
update_log_cfg bkp value g = (success, record g { log_bkp = path_copy value })
update_log_cfg pfx value g = (success, record g { log_pfx = path_copy value })
update_log_cfg svp value g = (success, g)
update_log_cfg skf value g = (success, g)

-- `exists` is what `access` answers for the file.
unfoldable pub update_serv_cfg : (List ℕ → Bool) → CnfItemType → List ℕ → ServCfg → ℕ × ServCfg
update_serv_cfg exists svp value g =
    if number_ok 0 value && leb (int_value value) 65_535
    then (success, record g { port = int_value value })
    else (err_invalide_param, g)
update_serv_cfg exists skf value g =
    if exists value
    then (success, record g { sock_file = file_copy value })
    else (err_invalide_param, g)
update_serv_cfg exists type value g = (success, g)

unfoldable pub init_log_cfg : LogCfg
unfolding file_size
init_log_cfg = record {
  max_file_size = file_size 10;
  max_cmp_cnt = 3;
  log_level = 0;
  log_path = codes "/opt/os_data/log";
  log_bkp = codes "/opt/os_data/log/bak";
  log_pfx = codes "papis.log";
}

unfoldable pub init_serv_cfg : ServCfg
init_serv_cfg = record { port = 0; sock_file = codes "pwrserver.sock" }

-- The text before and behind the first '='.
unfoldable pub split_eq : List ℕ → Option (List ℕ × List ℕ)
split_eq [] = none
split_eq (c ∷ s) =
    let rest = Option.map (λ r. (c ∷ r.0, r.1)) (split_eq s) in
    if c == b'=' then some ([], s) else rest

pub data Line : Type 0 where
  skipped faulty : Line
  item : List ℕ → List ℕ → Line

abbrev pub trimmed : Option (List ℕ) → Option (List ℕ) → Line
trimmed none value = faulty
trimmed (some key) none = faulty
trimmed (some key) (some value) =
    if length key == 0 || length value == 0 then skipped else item key value

abbrev pub parts : Option (List ℕ × List ℕ) → Line
parts none = skipped
parts (some (key, value)) = trimmed (lr_trim key) (lr_trim value)

-- What the loops over a file make of one line.
unfoldable pub parse_line : List ℕ → Line
unfolding split_eq
parse_line [] = skipped
parse_line (c ∷ line) =
    if length line == 0 || c == b'#' || c == b'[' then skipped else parts (split_eq (c ∷ line))

-- The switch of `LoadConfigFile`, whose codes are dropped.
abbrev pub load_type : (List ℕ → Bool) → Option CnfItemType → List ℕ → Settings → Settings
load_type exists none value g = g
load_type exists (some svp) value g = record g {
  serv = (update_serv_cfg exists svp value g.serv).1;
}
load_type exists (some skf) value g = record g {
  serv = (update_serv_cfg exists skf value g.serv).1;
}
load_type exists (some type) value g = record g { log = (update_log_cfg type value g.log).1 }

-- Its loop over the lines of the file.
unfoldable pub load_loop : (List ℕ → Bool) → List (List ℕ) → Settings → Option Settings
unfolding parse_line string_to_enum
load_loop exists [] g = some g
load_loop exists (line ∷ lines) g = elim (parse_line line) [
  | skipped ↦ load_loop exists lines g
  | faulty ↦ none
  | item key value ↦ load_loop exists lines (load_type exists (string_to_enum key) value g)
]
