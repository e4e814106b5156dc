-- ===== src/Crc/Serial.antt =====
-- The checksum bit by bit, and that the table computes the same.
use Prim.Native.Nat.{bit_xor, differ}
use native.Mathlib.Nat.{pow-suc}
use powerapi.Prelude.{
  ◌+◌, false, ℕ, zero, suc, ◌*◌, ◌/◌, ◌%◌, ◌^◌, ◌<◌, ◌≡◌, refl, sym, ap, ◌∙◌, arith, Bool, true,
  ◌&&◌, List, [], length, ◌∷◌, ◌++◌, get_or, ◌==◌, ==_iff, if◌then◌else◌, Bool-cases, inl, inr, ◌≢◌,
  some, map,
}
use powerapi.Crc.{
  crc_table, crc_factor, crc_byte, crc32, get_crc32_val, file_loop, get_file_crc32_val, got,
}
use powerapi.Crc.Bits.{
  differ-zero, xor_half, xor_parity, xor_swap, xor-zero, bit_and-ff, xor_fields,
}

-- The reversed polynomial of CRC-32.
abbrev pub polynomial : ℕ
polynomial = 0xedb88320

-- One step of the register: the polynomial is taken off if a one falls out.
pub shift : ℕ → ℕ
shift x = if x % 2 == 0 then x / 2 else bit_xor (x / 2) polynomial

pub shifts : ℕ → ℕ → ℕ
unfolding shift
shifts zero x = x
shifts (suc n) x = shifts n (shift x)

-- The checksum of bytes, a bit at a time, the lowest bit of a byte first.
pub serial : ℕ → List ℕ → ℕ
unfolding shifts
serial crc [] = crc
serial crc (b ∷ bytes) = serial (shifts 8 (bit_xor crc b)) bytes

abbrev pub Bytes : List ℕ → Type 0
Bytes [] = Unit {0}
Bytes (b ∷ bytes) = (b < 256) × Bytes bytes

-- The digits above the lowest do not change what falls out.
shift-above : (x y : ℕ) → shift (bit_xor x (2 * y)) ≡ bit_xor (shift x) y
unfolding shift
shift-above x y =
    let half : bit_xor x (2 * y) / 2 ≡ bit_xor (x / 2) y =
      xor_half x (2 * y) ∙ ap (bit_xor (x / 2)) (omega arith) in
    let parity : bit_xor x (2 * y) % 2 ≡ x % 2 =
      xor_parity x (2 * y) ∙ ap (differ (x % 2)) (omega arith) ∙ differ-zero (x % 2) in
    rw (half, parity)
      (elim (Bool-cases (x % 2 == 0)) [
        | inl e ↦ rw e
        | inr e ↦ rw e (xor_swap (x / 2) y polynomial)
      ])

shifts-above : (n x y : ℕ) → shifts n (bit_xor x (y * 2 ^ n)) ≡ bit_xor (shifts n x) y
unfolding shifts
shifts-above zero x y = ap (bit_xor x) (omega arith)
shifts-above (suc n) x y =
    let double : y * 2 ^ suc n ≡ 2 * (y * 2 ^ n) =
      omega (arith, ap (λ (t : ℕ). y * t) (pow-suc 2 n)) in
    rw (double, shift-above x (y * 2 ^ n)) (shifts-above n (shift x) y)

-- The entries of a table from index `i` on are eight steps of their indices.
matches_from : List ℕ → ℕ → Bool
matches_from [] i = true
matches_from (t ∷ table) i = t == shifts 8 i && matches_from table (suc i)

crc_table_matches : matches_from crc_table 0 ≡ true
unfolding matches_from shifts
crc_table_matches = refl

entry_matches :
    (table : List ℕ) (i k : ℕ)
    → matches_from table i ≡ true
    → k < length table
    → get_or table k 0 ≡ shifts 8 (k + i)
unfolding matches_from
entry_matches [] i k e lt = absurd (omega arith)
entry_matches (t ∷ table) i zero e lt = elim (Bool-cases (t == shifts 8 i)) [
  | inl p ↦ (==_iff t (shifts 8 i)).0 p ∙ ap (shifts 8) (omega arith)
  | inr p ↦ let e' : false ≡ true = rw p at e in absurd (cc)
]
entry_matches (t ∷ table) i (suc k) e lt = elim (Bool-cases (t == shifts 8 i)) [
  | inl p ↦
      let e' : matches_from table (suc i) ≡ true = rw p at e in
      entry_matches table (suc i) k e' (omega arith) ∙ ap (shifts 8) (omega arith)
  | inr p ↦ let e' : false ≡ true = rw p at e in absurd (cc)
]

table_entry : (i : ℕ) → i < 256 → get_or crc_table i 0 ≡ shifts 8 i
table_entry i h = entry_matches crc_table 0 i crc_table_matches h ∙ ap (shifts 8) (omega arith)

-- A byte does not reach the digits above it.
high_part : (a b : ℕ) → b < 256 → bit_xor a b / 256 ≡ a / 256
high_part a b h =
    let low : b / 2 / 2 / 2 / 2 / 2 / 2 / 2 / 2 ≡ 0 = omega arith in
    omega (
      arith,
      xor_half a b,
      xor_half (a / 2) (b / 2),
      xor_half (a / 2 / 2) (b / 2 / 2),
      xor_half (a / 2 / 2 / 2) (b / 2 / 2 / 2),
      xor_half (a / 2 / 2 / 2 / 2) (b / 2 / 2 / 2 / 2),
      xor_half (a / 2 / 2 / 2 / 2 / 2) (b / 2 / 2 / 2 / 2 / 2),
      xor_half (a / 2 / 2 / 2 / 2 / 2 / 2) (b / 2 / 2 / 2 / 2 / 2 / 2),
      xor_half (a / 2 / 2 / 2 / 2 / 2 / 2 / 2) (b / 2 / 2 / 2 / 2 / 2 / 2 / 2)
          ∙ ap (bit_xor (a / 2 / 2 / 2 / 2 / 2 / 2 / 2 / 2)) low
          ∙ xor-zero (a / 2 / 2 / 2 / 2 / 2 / 2 / 2 / 2),
    )

byte_serial : (crc b : ℕ) → b < 256 → crc_byte crc b ≡ shifts 8 (bit_xor crc b)
unfolding crc_byte
byte_serial crc b h =
    let v = bit_xor crc b in
    let split : bit_xor (v % 256) (v / 256 * 256) ≡ v =
      omega (arith, xor_fields 8 (v / 256) (v % 256) (omega arith)) in
    rw (bit_and-ff v, table_entry (v % 256) (omega arith), ← high_part crc b h)
      (sym (shifts-above 8 (v % 256) (v / 256)) ∙ ap (shifts 8) split)

crc32-eq-serial : (crc : ℕ) (bytes : List ℕ) → Bytes bytes → crc32 crc bytes ≡ serial crc bytes
unfolding crc32 serial
crc32-eq-serial crc [] h = refl
crc32-eq-serial crc (b ∷ bytes) h =
    rw (byte_serial crc b h.0) (crc32-eq-serial (shifts 8 (bit_xor crc b)) bytes h.1)

-- The table-driven checksum of a buffer of bytes is CRC-32, computed bit by bit with the reversed
-- polynomial, from a register of ones and with the result inverted.
pub get_crc32_val-serial :
    (bytes : List ℕ)
    → Bytes bytes
    → get_crc32_val bytes ≡ bit_xor (serial 0xffffffff bytes) 0xffffffff
unfolding get_crc32_val
get_crc32_val-serial bytes h = ap (λ c. bit_xor c crc_factor) (crc32-eq-serial crc_factor bytes h)

crc32-append : (crc : ℕ) (xs ys : List ℕ) → crc32 crc (xs ++ ys) ≡ crc32 (crc32 crc xs) ys
unfolding crc32
crc32-append crc [] ys = refl
crc32-append crc (x ∷ xs) ys = crc32-append (crc_byte crc x) xs ys

abbrev pub file_bytes : List (List ℕ) → List ℕ
file_bytes [] = []
file_bytes (c ∷ cs) = c ++ file_bytes cs

abbrev pub NonEmpty : List (List ℕ) → Type 0
NonEmpty [] = Unit {0}
NonEmpty (c ∷ cs) = (c ≢ []) × NonEmpty cs

file_loop_lem :
    (crc : ℕ) (chunks : List (List ℕ))
    → NonEmpty chunks
    → file_loop crc (map got chunks ++ got [] ∷ []) ≡ some (crc32 crc (file_bytes chunks))
unfolding file_loop
file_loop_lem crc [] h = refl
file_loop_lem crc ([] ∷ chunks) h = absurd (h.0 refl)
file_loop_lem crc ((b ∷ c) ∷ chunks) h =
    file_loop_lem (crc32 crc (b ∷ c)) chunks h.1
    ∙ ap some (sym (crc32-append crc (b ∷ c) (file_bytes chunks)))

-- The checksum of a file does not depend on the pieces in which it is read: from the start value of
-- a buffer it is that of the buffer with the same bytes.
pub get_file_crc32_val_whole :
    (chunks : List (List ℕ))
    → NonEmpty chunks
    → get_file_crc32_val (some crc_factor) true true (map got chunks ++ got [] ∷ [])
      ≡ some (get_crc32_val (file_bytes chunks))
unfolding get_file_crc32_val get_crc32_val
get_file_crc32_val_whole chunks h = rw (file_loop_lem crc_factor chunks h, get_file_crc32_val)
