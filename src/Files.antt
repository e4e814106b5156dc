-- ===== src/Files.antt =====
-- Reading and writing of files, pwrapis/src/utils.c. A file is what the calls of the system answer
-- about it: whether `access` allows what is asked, whether it can be opened, its bytes, none of
-- them 0, and whether closing it succeeds. No pointer argument is NULL. What `regexec` and `sscanf`
-- answer are arguments, `none` where `sscanf` is below 0.
pub mod Lines
pub mod Matching
pub mod Storing
pub mod Values
pub mod Tests
use mathlib.Core.Option
use powerapi.Prelude.{
  ℕ, zero, suc, ◌+◌, ◌-◌, Bool, true, false, not, ◌&&◌, ◌||◌, Option, none, some, List, [], ◌∷◌,
  ◌++◌, ◌==◌, if◌then◌else◌, ltb, length, take, drop, replicate,
}
use powerapi.Prelude.Int.{ℤ, pos, negsuc}
use powerapi.Codes.{success, err_common, err_null_pointer}
use powerapi.Api.Cpu.{max_element_name_len}
use powerapi.Config.{same_text}
use powerapi.Text.{c_str, delete_char}
use powerapi.Text.Fields.{get_nth_field}

pub record File : Type 0 where
  pub accessible : Bool
  pub opens : Bool
  pub bytes : List ℕ
  pub closes : Bool

abbrev pub max_line_num : ℕ
max_line_num = 3000

abbrev pub max_value : ℕ
max_value = 129

abbrev pub newline : ℕ
newline = 10

-- The characters that `fgets` reads with room for `room` of them, whether it met the end of the
-- file, and the bytes that follow. It answers NULL where it read nothing.
unfoldable pub fgets : ℕ → List ℕ → List ℕ × Bool × List ℕ
fgets zero s = ([], false, s)
fgets (suc room) [] = ([], true, [])
fgets (suc room) (c ∷ s) =
    let (line, eof, rest) = fgets room s in
    if c == newline then (c ∷ [], false, s) else (c ∷ line, eof, rest)

-- The buffer `line[MAX_LINE_NUM]`, with `sizeof(line) - 1` given as its size.
abbrev pub room_of_line : ℕ
room_of_line = max_line_num - 2

-- The loop of `MatchCnt`, on fuel.
unfoldable pub cnt_loop : (List ℕ → Bool) → ℕ → List ℕ → ℕ → ℕ
cnt_loop matches zero s cnt = cnt
cnt_loop matches (suc fuel) s cnt =
    let (line, eof, rest) = fgets room_of_line s in
    let go_on = cnt_loop matches fuel rest (if matches line then cnt + 1 else cnt) in
    if eof then cnt else go_on

-- `none` is FAILED. A file that may be read can be opened.
unfoldable pub match_cnt : (List ℕ → Bool) → File → Option ℕ
unfolding cnt_loop
match_cnt matches file =
    if file.accessible then some (cnt_loop matches (length file.bytes + 1) file.bytes 0) else none

-- The loop of `GetMatchN`, on fuel: `cnt` and the line in the buffer at its end.
unfoldable pub match_loop : (List ℕ → Bool) → ℕ → ℕ → List ℕ → ℕ → List ℕ → ℕ × List ℕ
match_loop matches n zero s cnt line = (cnt, line)
match_loop matches n (suc fuel) s cnt line =
    let (read, eof, rest) = fgets room_of_line s in
    let go_on = match_loop matches n fuel rest (if matches read then cnt + 1 else cnt) read in
    if eof
    then (cnt, if length read == 0 then line else read)
    else if matches read && cnt + 1 == n
    then (cnt + 1, read)
    else go_on

-- The row, where there is one and the buffer has room for it. `bufLen`, which is not negative, is
-- less than nothing for 0, and compared as an unsigned number: then any row is copied.
unfoldable pub get_match_n : (List ℕ → Bool) → ℕ → ℕ → File → Option (List ℕ)
unfolding match_loop
get_match_n matches n buf_len file =
    let (cnt, line) = match_loop matches n (length file.bytes + 1) file.bytes 0 [] in
    if not file.accessible
    then none
    else if not file.closes
    then none
    else if not (cnt == n)
    then none
    else if buf_len == 0
    then some line
    else if ltb (length line) buf_len
    then some line
    else none

-- The loop of `GetNthLine`: the line in the buffer at its end, `none` where the file has ended.
unfoldable pub nth_loop : ℕ → List ℕ → List ℕ → Option (List ℕ)
nth_loop zero s line = some line
nth_loop (suc nth) s line =
    let (read, eof, rest) = fgets room_of_line s in
    let next = nth_loop nth rest read in if length read == 0 then none else next

unfoldable pub get_nth_line : File → ℕ → ℕ → Option (List ℕ)
unfolding nth_loop
get_nth_line file zero buf_len = none
get_nth_line file (suc nth) buf_len =
    elim (if file.accessible && file.opens && file.closes
      then nth_loop (suc nth) file.bytes []
      else none) [ none ↦ none | some line ↦ if ltb buf_len (length line) then none else some line ]

-- Where a field stands: the line, the field and the separators.
pub record FieldLocation : Type 0 where
  pub file : File
  pub line_num : ℕ
  pub field_num : ℕ
  pub sep : ℕ → Bool

unfoldable pub get_val : FieldLocation → ℕ → Option (List ℕ)
unfolding get_nth_line get_nth_field
get_val fd_lt buf_len = elim (get_nth_line fd_lt.file fd_lt.line_num (max_line_num - 1)) [
  | none ↦ none
  | some line ↦ get_nth_field line fd_lt.sep fd_lt.field_num buf_len
]

-- `GetValAsInt`, `GetValAsULong` and `GetValAsFloat`: DEFAULT_VAL where there is no field or no number
-- in it. They differ in what `sscanf` leaves in the result.
unfoldable pub get_val_as {ℓ} : {A : Type ℓ} → (List ℕ → Option A) → A → FieldLocation → A
unfolding get_val
get_val_as scan default_val fd_lt = elim (get_val fd_lt (max_value - 1)) [
  | none ↦ default_val
  | some text ↦ elim (scan text) [ none ↦ default_val | some v ↦ v ]
]

-- The loop of `GetFileLines`, for as many lines as `getline` reads. `*p++` moves the pointer, which
-- is `p` numbers behind where it was.
unfoldable pub lines_loop : ℕ → ℕ → ℕ
lines_loop zero p = p
lines_loop (suc lines) p = lines_loop lines (p + 1)

-- What is returned, and what is stored in `*num`, `none` where nothing is. Where the pointer points at
-- the end is the last component.
unfoldable pub get_file_lines : File → ℕ → ℕ × Option ℕ × ℕ
unfolding lines_loop
get_file_lines file lines =
    if not file.accessible
    then (err_common, none, 0)
    else if not file.opens
    then (err_null_pointer, none, 0)
    else if file.closes
    then (success, some 0, lines_loop lines 0)
    else (err_common, some 0, lines_loop lines 0)

-- `read` over a buffer with `size` bytes of room, and what the buffer holds afterwards.
abbrev pub read_over : ℕ → List ℕ → List ℕ → List ℕ
read_over size bytes buf = take size bytes ++ drop (length (take size bytes)) buf

-- What is returned, and the text in the buffer of `buf_len` bytes.
unfoldable pub read_file : File → List ℕ → ℕ → ℕ × List ℕ
unfolding delete_char
read_file file buf buf_len =
    if not file.opens
    then (1, c_str buf)
    else if length (take (buf_len - 1) file.bytes) == 0
    then (1, c_str buf)
    else (0, delete_char (c_str (read_over (buf_len - 1) file.bytes buf)) newline)

-- The file after `text` was written to it, and what is returned. `store` is what the file then
-- holds; `printed` and `flushed` are what `fprintf` and `fflush` answer.
unfoldable pub write_file : (List ℕ → List ℕ) → Bool → Bool → File → List ℕ → ℕ × File
write_file store printed flushed file text =
    if not (file.accessible && file.opens)
    then (1, file)
    else if printed && flushed
    then (0, record file { bytes = store text })
    else (1, record file { bytes = store text })

unfoldable pub write_file_and_check : (List ℕ → List ℕ) → Bool → Bool → File → List ℕ → ℕ × File
unfolding write_file read_file
write_file_and_check store printed flushed file text =
    let (written, after) = write_file store printed flushed file text in
    let (got, check_buf) =
      read_file after (replicate max_element_name_len 0) max_element_name_len in
    if not (written == 0)
    then (1, after)
    else if not (got == 0)
    then (1, after)
    else if same_text text check_buf
    then (0, after)
    else (1, after)
