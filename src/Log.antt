-- ===== src/Log.antt =====
-- The log of the daemon, pwrapis/src/log.c, with NormalizeAndVerifyFilepath of pwrapis/src/utils.c.
-- What the system answers is an argument. A result `none` stands for an access outside the memory
-- that the code may use.
pub mod Keeping
pub mod Tests
use powerapi.Prelude.{
  ℕ, zero, suc, ◌+◌, ◌-◌, ◌%◌, ◌^◌, Bool, true, false, not, ◌&&◌, ◌||◌, Option, none, some, List,
  [], ◌∷◌, ◌++◌, ◌==◌, if◌then◌else◌, ltb, get_or, length,
}
use powerapi.Codes.{success, err_common, err_sys_exception}

abbrev pub err_path_verify : ℕ
err_path_verify = 14

-- `realpath` gives `path`, `none` where it fails; the code does not test that before it reads it.
unfoldable pub normalize_and_verify_filepath : Option (List ℕ) → Bool → Option (ℕ × List ℕ)
normalize_and_verify_filepath none exists = none
normalize_and_verify_filepath (some path) exists =
    some (if exists then success else err_path_verify, path)

-- `g_pFile` and `g_curSize`.
pub record Logging : Type 0 where
  pub opened : Bool
  pub cur_size : ℕ

-- What the system answers while the file of the log is opened; `size` is `none` where `stat` fails.
pub record Opening : Type 0 where
  pub path : Option (List ℕ)
  pub exists : Bool
  pub writable : Bool
  pub opens : Bool
  pub size : Option ℕ

-- Whether a file is returned, and the log afterwards.
unfoldable pub open_log_file : Opening → Logging → Option (Bool × Logging)
unfolding normalize_and_verify_filepath
open_log_file o g = elim (normalize_and_verify_filepath o.path o.exists) [
  | none ↦ none
  | some (ret, _) ↦ some (
      if not (ret == success)
      then (false, g)
      else if not o.writable
      then (false, g)
      else elim o.size [
        | none ↦ (false, record g { opened = o.opens })
        | some n ↦ (o.opens, record { opened = o.opens; cur_size = n % 2 ^ 32 })
      ])
]

-- The loop of `SpaceChkAndDel`, with `file_cnt` files left to look at: what it deletes.
-- `unlink` tells whether a file can be deleted; the loop goes on after one that cannot.
unfoldable pub del_loop : (List ℕ → Bool) → ℕ → ℕ → List (List ℕ) → List (List ℕ)
del_loop unlink zero cnt file_list = []
del_loop unlink (suc file_cnt) cnt file_list =
    let rest = del_loop unlink file_cnt cnt file_list in
    let file_name = get_or file_list file_cnt [] in
    if ltb file_cnt cnt && unlink file_name then file_name ∷ rest else rest

-- The files that `scandir` lists, in the order of their names; where it fails, the code reads before
-- the list.
unfoldable pub space_chk_and_del :
    (List ℕ → Bool) → Option (List (List ℕ)) → ℕ → Option (List (List ℕ))
unfolding del_loop
space_chk_and_del unlink none max_cmp_cnt = none
space_chk_and_del unlink (some file_list) max_cmp_cnt =
    let file_cnt = length file_list in
    let cnt = if ltb max_cmp_cnt file_cnt then file_cnt - max_cmp_cnt else 0 in
    some (del_loop unlink file_cnt cnt file_list)

-- Whether the command that compresses the file succeeds, and what follows it. The files deleted come
-- last.
unfoldable pub rotate_file :
    (List ℕ → Bool)
    → Bool
    → Option (List (List ℕ))
    → ℕ
    → Opening
    → Logging
    → Option (ℕ × Logging × List (List ℕ))
unfolding space_chk_and_del open_log_file
rotate_file unlink false files max_cmp_cnt o g =
    some (err_sys_exception, record g { opened = false }, [])
rotate_file unlink true files max_cmp_cnt o g = elim (space_chk_and_del unlink files max_cmp_cnt) [
  | none ↦ none
  | some deleted ↦ elim (open_log_file o (record g { opened = false })) [
    | none ↦ none
    | some (opened, g') ↦ some (if opened then success else err_sys_exception, g', deleted)
  ]
]

-- The numbers of the levels, from DEBUG on.
unfoldable pub get_level_name : ℕ → List ℕ → List ℕ → List ℕ → List ℕ → List ℕ
get_level_name level debug info warning error =
    if level == 0
    then debug
    else if level == 1
    then info
    else if level == 2
    then warning
    else if level == 3
    then error
    else info

-- What the system answers while a line is logged: whether it is printed, and what a rotation meets.
pub record Writing : Type 0 where
  pub printed : Bool
  pub compressed : Bool
  pub files : Option (List (List ℕ))
  pub unlink : List ℕ → Bool
  pub opening : Opening

-- A line of `log_len` characters: the log afterwards, and the files deleted.
unfoldable pub logger : ℕ → ℕ → ℕ → Writing → ℕ → ℕ → Logging → Option (Logging × List (List ℕ))
unfolding rotate_file
logger log_level max_file_size max_cmp_cnt w level log_len g =
    let size = (g.cur_size + log_len) % 2 ^ 32 in
    let g' = record g { cur_size = size } in
    let rotated = rotate_file w.unlink w.compressed w.files max_cmp_cnt w.opening g' in
    if ltb level log_level || not g.opened
    then some (g, [])
    else if not w.printed
    then some (g, [])
    else if ltb max_file_size size
    then elim rotated [ none ↦ none | some (_, g'', deleted) ↦ some (g'', deleted) ]
    else some (g', [])

-- Whether the two directories are there or can be made, and what opening meets.
unfoldable pub init_logger : Bool → Bool → Opening → Logging → Option (ℕ × Logging)
unfolding open_log_file
init_logger log_path_ok log_bkp_ok o g =
    if not (log_path_ok && log_bkp_ok)
    then some (err_sys_exception, g)
    else elim (open_log_file o g) [
      | none ↦ none
      | some (opened, g') ↦ some (if opened then success else err_common, g')
    ]

unfoldable pub clear_logger : Logging → Logging
clear_logger g = record { opened = false; cur_size = 0 }
