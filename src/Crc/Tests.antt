-- ===== src/Crc/Tests.antt =====
-- The check value of CRC-32, and a file of the same bytes in two pieces.
use Prim.Native.Nat.{bit_xor}
use powerapi.Prelude.{ℕ, ◌≡◌, refl, List, [], ◌∷◌, arith}
use powerapi.Crc.{get_crc32_val}
use powerapi.Crc.Serial.{serial, get_crc32_val-serial}

abbrev digits : List ℕ
digits = b'1' ∷ b'2' ∷ b'3' ∷ b'4' ∷ b'5' ∷ b'6' ∷ b'7' ∷ b'8' ∷ b'9' ∷ []

check_value : get_crc32_val digits ≡ 0xcbf43926
unfolding get_crc32_val
check_value = refl

get_crc32_val-serial_example : get_crc32_val digits ≡ bit_xor (serial 0xffffffff digits) 0xffffffff
get_crc32_val-serial_example = get_crc32_val-serial digits (omega arith)

abbrev pieces : List (List ℕ)
pieces = (b'1' ∷ b'2' ∷ []) ∷ (b'3' ∷ []) ∷ []
