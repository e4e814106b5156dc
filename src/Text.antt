-- ===== src/Text.antt =====
-- The text helpers of pwrapis/src/utils.c. A text is the list of its characters before the
-- terminator, none of them 0; where a function works in place, a buffer is a list of bytes and a text
-- in it ends at the first 0. No pointer argument is NULL. What `isdigit` and `isspace` answer are
-- those of the C locale; what `sscanf` reads is an argument.
pub mod Fields
pub mod Edges
pub mod Deleting
pub mod Tests
use mathlib.Core.Option
use powerapi.Prelude.{
  ℕ, zero, suc, ◌+◌, ◌-◌, Bool, true, false, not, ◌&&◌, ◌||◌, Option, none, some, List, [], ◌∷◌,
  ◌++◌, ◌==◌, if◌then◌else◌, ltb, leb, length, get_or, set, take, drop,
}
use powerapi.Prelude.Int.{ℤ, pos, negsuc, ltb_ℤ}

abbrev pub is_digit : ℕ → Bool
is_digit c = leb b'0' c && leb c b'9'

abbrev pub is_space : ℕ → Bool
is_space c = c == 32 || leb 9 c && leb c 13

abbrev pub contains : List ℕ → ℕ → Bool
contains [] c = false
contains (x ∷ xs) c = x == c || contains xs c

abbrev pub same_ℤ : ℤ → ℤ → Bool
same_ℤ (pos a) (pos b) = a == b
same_ℤ (negsuc a) (negsuc b) = a == b
same_ℤ (pos a) (negsuc b) = false
same_ℤ (negsuc a) (pos b) = false

-- The text in a buffer.
abbrev pub c_str : List ℕ → List ℕ
c_str [] = []
c_str (c ∷ buf) = if c == 0 then [] else c ∷ c_str buf

-- 1 where every character is a digit, else 0.
unfoldable pub is_num_str : List ℕ → Bool
is_num_str [] = true
is_num_str (c ∷ s) = is_digit c && is_num_str s

-- `none` is the answer of `sscanf` below 0.
unfoldable pub num_range_chk : (List ℕ → Option ℤ) → List ℕ → ℤ → ℤ → Bool
unfolding is_num_str
num_range_chk scan s min max =
    is_num_str s && elim (scan s) [ none ↦ false | some n ↦ not (ltb_ℤ n min || ltb_ℤ max n) ]

-- 0 where `a` is in the array, else 1.
unfoldable pub in_int_range : List ℤ → ℤ → ℕ
in_int_range [] a = 1
in_int_range (x ∷ range) a = let rest = in_int_range range a in if same_ℤ x a then 0 else rest

-- The text from the first character that is no space.
unfoldable pub ltrim : List ℕ → List ℕ
ltrim [] = []
ltrim (c ∷ s) = let rest = ltrim s in if is_space c then rest else c ∷ s

-- The loop of `Rtrim` from `p` characters on, over the buffer.
unfoldable pub rtrim_loop : ℕ → List ℕ → List ℕ
rtrim_loop zero buf = buf
rtrim_loop (suc p) buf =
    let rest = rtrim_loop p (set buf p 0) in if is_space (get_or buf p 0) then rest else buf

unfoldable pub rtrim : List ℕ → List ℕ
unfolding rtrim_loop
rtrim s = c_str (rtrim_loop (length s) (s ++ 0 ∷ []))

-- The first loop of `LRtrim`: how many spaces the text begins with.
unfoldable pub head_loop : List ℕ → ℕ
head_loop [] = 0
head_loop (c ∷ s) = let rest = head_loop s in if is_space c then suc rest else 0

-- Its second loop, from the character before `tail`: how many characters are left, `none` where it
-- reads before the text.
unfoldable pub tail_loop : ℕ → List ℕ → Option ℕ
tail_loop zero s = none
tail_loop (suc tail) s =
    let rest = tail_loop tail s in if is_space (get_or s tail 0) then rest else some (suc tail)

-- `none` where the code leaves the text; else the text afterwards.
unfoldable pub lr_trim : List ℕ → Option (List ℕ)
unfolding head_loop tail_loop
lr_trim s =
    Option.map (λ tail. take (tail - head_loop s) (drop (head_loop s) s)) (tail_loop (length s) s)

-- The loop of `DeleteChar`, with `n` characters left, over the buffer: the buffer and `point`.
unfoldable pub delete_loop : ℕ → ℕ → ℕ → ℕ → List ℕ → ℕ × List ℕ
delete_loop zero a i point str = (point, str)
delete_loop (suc n) a i point str =
    let skip = delete_loop n a (suc i) point str in
    let keep = delete_loop n a (suc i) (suc point) (set str point (get_or str i 0)) in
    if get_or str i 0 == a then skip else keep

unfoldable pub delete_char : List ℕ → ℕ → List ℕ
unfolding delete_loop
delete_char s a =
    let (point, str) = delete_loop (length s) a 0 0 (s ++ 0 ∷ []) in c_str (set str point 0)

-- Where `want` ends in the text, if the text begins with it.
unfoldable pub str_match : List ℕ → List ℕ → Option (List ℕ)
str_match s [] = some s
str_match [] (b ∷ want) = none
str_match (a ∷ s) (b ∷ want) = let rest = str_match s want in if a == b then rest else none

-- The last loop of `DeleteSubstr`: it overwrites each character of `a` by one read from `next` on.
-- `none` where it reads past the memory.
unfoldable pub shift_loop : List ℕ → List ℕ → Option (List ℕ)
shift_loop [] next = some []
shift_loop (a ∷ s) [] = none
shift_loop (a ∷ s) (b ∷ next) = Option.map (λ r. b ∷ r) (shift_loop s next)

-- What it returns, and the bytes of the text afterwards, where `behind` lies in memory behind the
-- terminator; `none` where it reads past that.
unfoldable pub delete_substr : List ℕ → List ℕ → List ℕ → Option (ℕ × List ℕ)
unfolding str_match shift_loop
delete_substr [] sub behind = some (0, [])
delete_substr (a ∷ s) sub behind =
    let later = Option.map (λ r. (r.0, a ∷ r.1)) (delete_substr s sub behind) in
    elim (str_match (a ∷ s) sub) [
      | none ↦ later
      | some next ↦ Option.map (λ r. (1, r)) (shift_loop (a ∷ s) (next ++ 0 ∷ behind))
    ]

-- What stands in the destination afterwards, up to and with the terminator; `destSize` is not 0.
unfoldable pub str_copy : List ℕ → ℕ → List ℕ
str_copy src dest_size =
    take (if ltb (length src) dest_size then length src else dest_size - 1) src ++ 0 ∷ []
