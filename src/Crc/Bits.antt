-- ===== src/Crc/Bits.antt =====
-- Exclusive or and masks at variables, from the digits that the native operations stand for.
use Prim.Native.Nat.{
  bit_and, bit_xor, digits, bitwise, differ, min, bit_and-bitwise, bit_xor-bitwise,
}
use native.Mathlib.Nat.{pow-suc}
use native.Mathlib.Decide.{ℕ_discrete}
use powerapi.Prelude.{
  ℕ, zero, suc, ◌+◌, ◌*◌, ◌/◌, ◌%◌, ◌^◌, ◌≤◌, ◌<◌, ◌≡◌, refl, sym, ap, ◌∙◌, arith,
}

-- An operation that works digit by digit, `f` on two digits, with `rest` where the first number is 0.
module _ (rest : ℕ → ℕ) (f op : ℕ → ℕ → ℕ) (means : (a b : ℕ) → op a b ≡ bitwise rest f a b)
    (at_zero : (b : ℕ) → rest b ≡ f 0 (b % 2) + 2 * rest (b / 2)) where
  -- One unit of fuel that is not needed.
  spare_unit : (fuel x y : ℕ) → x ≤ fuel → digits rest f (suc fuel) x y ≡ digits rest f fuel x y
  spare_unit fuel zero y le = spare_zero fuel
    where
      spare_zero : (k : ℕ) → digits rest f (suc k) 0 y ≡ digits rest f k 0 y
      spare_zero zero = refl
      spare_zero (suc k) = refl
  spare_unit zero (suc x) y le = absurd (omega arith)
  spare_unit (suc fuel) (suc x) y le =
      ap (λ t. t * 2 + f (suc x % 2) (y % 2)) (spare_unit fuel (suc x / 2) (y / 2) (omega arith))

  spare_units :
      (fuel least x y : ℕ)
      → least ≤ fuel
      → x ≤ least
      → digits rest f fuel x y ≡ digits rest f least x y
  spare_units zero least x y le enough =
      let none_left : 0 ≡ least = omega arith in ap (λ k. digits rest f k x y) none_left
  spare_units (suc fuel) least x y le enough = elim (ℕ_discrete (suc fuel) least) [
    | yes e ↦ ap (λ k. digits rest f k x y) e
    | no ne ↦ spare_unit fuel x y (omega arith) ∙ spare_units fuel least x y (omega arith) enough
  ]

  digit_law : (a b : ℕ) → op a b ≡ f (a % 2) (b % 2) + 2 * op (a / 2) (b / 2)
  digit_law zero b = omega (arith, means 0 b, at_zero b, means 0 (b / 2))
  digit_law (suc x) b =
      let half = suc x / 2 in
      omega (
        arith,
        means (suc x) b,
        means half (b / 2),
        spare_units x half half (b / 2) (omega arith) (omega arith),
      )

pub xor_law : (a b : ℕ) → bit_xor a b ≡ differ (a % 2) (b % 2) + 2 * bit_xor (a / 2) (b / 2)
xor_law = digit_law (λ y. y) differ bit_xor bit_xor-bitwise (λ b. omega arith)

and_law : (a b : ℕ) → bit_and a b ≡ min (a % 2) (b % 2) + 2 * bit_and (a / 2) (b / 2)
and_law = digit_law (λ y. 0) min bit_and bit_and-bitwise (λ b. omega arith)

-- Two digits differ as a digit.
differ-lt : (x y : ℕ) → x < 2 → y < 2 → differ x y < 2
differ-lt zero y h k = k
differ-lt (suc x) zero h k = h
differ-lt (suc zero) (suc zero) h k = omega arith
differ-lt (suc zero) (suc (suc y)) h k = absurd (omega arith)
differ-lt (suc (suc x)) (suc y) h k = absurd (omega arith)

pub differ-zero : (x : ℕ) → differ x 0 ≡ x
differ-zero zero = refl
differ-zero (suc x) = refl

differ_swap : (x y z : ℕ) → x < 2 → y < 2 → z < 2 → differ (differ x y) z ≡ differ (differ x z) y
differ_swap zero zero z h k l = sym (differ-zero z)
differ_swap zero (suc zero) zero h k l = refl
differ_swap zero (suc zero) (suc zero) h k l = refl
differ_swap (suc zero) zero zero h k l = refl
differ_swap (suc zero) zero (suc zero) h k l = refl
differ_swap (suc zero) (suc zero) zero h k l = refl
differ_swap (suc zero) (suc zero) (suc zero) h k l = refl
differ_swap (suc (suc x)) y z h k l = absurd (omega arith)
differ_swap x (suc (suc y)) z h k l = absurd (omega arith)
differ_swap x y (suc (suc z)) h k l = absurd (omega arith)

pub xor_half : (a b : ℕ) → bit_xor a b / 2 ≡ bit_xor (a / 2) (b / 2)
xor_half a b = omega (arith, xor_law a b, differ-lt (a % 2) (b % 2) (omega arith) (omega arith))

pub xor_parity : (a b : ℕ) → bit_xor a b % 2 ≡ differ (a % 2) (b % 2)
xor_parity a b = omega (arith, xor_law a b, differ-lt (a % 2) (b % 2) (omega arith) (omega arith))

xor_swap_fuel :
    (n a b c : ℕ) → a ≤ n → b ≤ n → c ≤ n → bit_xor (bit_xor a b) c ≡ bit_xor (bit_xor a c) b
xor_swap_fuel zero zero zero zero h k l = refl
xor_swap_fuel zero (suc a) b c h k l = absurd (omega arith)
xor_swap_fuel zero a (suc b) c h k l = absurd (omega arith)
xor_swap_fuel zero a b (suc c) h k l = absurd (omega arith)
xor_swap_fuel (suc n) a b c h k l =
    let ih = xor_swap_fuel n (a / 2) (b / 2) (c / 2) (omega arith) (omega arith) (omega arith) in
    let bits = differ_swap (a % 2) (b % 2) (c % 2) (omega arith) (omega arith) (omega arith) in
    xor_law (bit_xor a b) c
    ∙ rw (xor_half a b, xor_parity a b, ih, bits)
        (rw (← xor_half a c, ← xor_parity a c) (sym (xor_law (bit_xor a c) b)))

pub xor_swap : (a b c : ℕ) → bit_xor (bit_xor a b) c ≡ bit_xor (bit_xor a c) b
xor_swap a b c = xor_swap_fuel (a + b + c) a b c (omega arith) (omega arith) (omega arith)

xor_none : (n a : ℕ) → a ≤ n → bit_xor a 0 ≡ a
xor_none zero zero h = refl
xor_none zero (suc a) h = absurd (omega arith)
xor_none (suc n) a h =
    omega (arith, xor_law a 0, differ-zero (a % 2), xor_none n (a / 2) (omega arith))

pub xor-zero : (a : ℕ) → bit_xor a 0 ≡ a
xor-zero a = xor_none a a (omega arith)

pub zero-xor : (a : ℕ) → bit_xor 0 a ≡ a
zero-xor a = bit_xor-bitwise 0 a

and_none : (bound x : ℕ) → x ≤ bound → bit_and x 0 ≡ 0
and_none zero x le = let x_eq : x ≡ 0 = omega arith in ap (λ t. bit_and t 0) x_eq
and_none (suc bound) x le = omega (arith, and_law x 0, and_none bound (x / 2) (omega arith))

-- Masks of one and of two digits, from which the low byte follows.
and_one : (x : ℕ) → bit_and x 1 ≡ x % 2
and_one x = omega (arith, and_law x 1, and_none (x / 2) (x / 2) (omega arith))

and_three : (x : ℕ) → bit_and x 3 ≡ x % 4
and_three x = omega (arith, and_law x 3, and_one (x / 2))

and_fifteen : (x : ℕ) → bit_and x 15 ≡ x % 16
and_fifteen x = omega (arith, and_law x 15, and_law (x / 2) 7, and_three (x / 2 / 2))

and_sixty_three : (x : ℕ) → bit_and x 63 ≡ x % 64
and_sixty_three x = omega (arith, and_law x 63, and_law (x / 2) 31, and_fifteen (x / 2 / 2))

pub bit_and-ff : (x : ℕ) → bit_and x 0xff ≡ x % 256
bit_and-ff x = omega (arith, and_law x 255, and_law (x / 2) 127, and_sixty_three (x / 2 / 2))

-- Numbers with no digit in common.
pub xor_fields : (k q r : ℕ) → r < 2 ^ k → bit_xor r (q * 2 ^ k) ≡ q * 2 ^ k + r
xor_fields zero q r h = ground (arith, zero-xor q)
xor_fields (suc k) q r h =
    let double : q * 2 ^ suc k ≡ 2 * (q * 2 ^ k) =
      omega (arith, ap (λ (t : ℕ). q * t) (pow-suc 2 k)) in
    let ih = xor_fields k q (r / 2) (omega (arith, pow-suc 2 k)) in
    let t = q * 2 ^ k in
    let high : bit_xor (r / 2) (2 * t / 2) ≡ bit_xor (r / 2) t =
      ap (bit_xor (r / 2)) (omega arith) in
    let low : differ (r % 2) (2 * t % 2) ≡ r % 2 =
      ap (differ (r % 2)) (omega arith) ∙ differ-zero (r % 2) in
    rw double (omega (arith, xor_law r (2 * t), ih, high, low))
