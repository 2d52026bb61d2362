-- ===== src/Base/Bits.antt =====
-- Masks and disjoint `|` at the widths of a byte, for the byte-swapping routines.
use Prim.Native.Nat.{bit_and, bit_or, bitwise, digits, bit_and-bitwise, bit_or-bitwise}
use Prim.Native.Nat.{max, min, ◌<◌, ◌≤◌, ◌%◌, ◌/◌, ◌*◌, ◌+◌, suc, zero, ℕ}
use mathlib.Core.Path.{◌≡◌, refl, ap}
use native.Mathlib.Omega.{arith}

-- Any number of digits that is large enough gives the same value.
module _ (low : ℕ → ℕ) (join : ℕ → ℕ → ℕ) where
  digits_enough :
      (k l : ℕ) (x y : ℕ) → x ≤ l → x ≤ k → digits low join l x y ≡ digits low join k x y
  digits_enough zero zero x y small large = refl
  digits_enough zero (suc l) zero y small large = refl
  digits_enough (suc k) zero zero y small large = refl
  digits_enough (suc k) (suc l) zero y small large = refl
  digits_enough zero (suc l) (suc x) y small large = absurd (omega arith)
  digits_enough (suc k) zero (suc x) y small large = absurd (omega arith)
  digits_enough (suc k) (suc l) (suc x) y small large =
      let half = digits_enough k l (suc x / 2) (y / 2) (omega arith) (omega arith) in
      ap (λ high. high * 2 + join (suc x % 2) (y % 2)) half

  split_digit :
      (x y : ℕ)
      → 1 ≤ x
      → join (x % 2) (y % 2) + 2 * bitwise low join (x / 2) (y / 2) ≡ bitwise low join x y
  split_digit zero y positive = absurd (omega arith)
  split_digit (suc x) y positive =
      let half = digits_enough x (suc x / 2) (suc x / 2) (y / 2) (omega arith) (omega arith) in
      omega (arith, half)

and_digit : (v m : ℕ) → min (v % 2) (m % 2) + 2 * bit_and (v / 2) (m / 2) ≡ bit_and v m
and_digit zero m = omega (arith, bit_and-bitwise zero m, bit_and-bitwise zero (m / 2))
and_digit (suc v) m =
    let digit = split_digit (λ _. zero) min (suc v) m (omega arith) in
    omega (arith, digit, bit_and-bitwise (suc v) m, bit_and-bitwise (suc v / 2) (m / 2))

or_digit : (v m : ℕ) → max (v % 2) (m % 2) + 2 * bit_or (v / 2) (m / 2) ≡ bit_or v m
or_digit zero m = omega (arith, bit_or-bitwise zero m, bit_or-bitwise zero (m / 2))
or_digit (suc v) m =
    let digit = split_digit (λ y. y) max (suc v) m (omega arith) in
    omega (arith, digit, bit_or-bitwise (suc v) m, bit_or-bitwise (suc v / 2) (m / 2))

-- A mask whose lowest digit is 0 or 1.
and_even : (v m : ℕ) → bit_and v (m * 2) ≡ bit_and (v / 2) m * 2
and_even v m =
    let e : m * 2 / 2 ≡ m = omega arith in
    omega (arith, and_digit v (m * 2), ap (bit_and (v / 2)) e)

and_odd : (v m : ℕ) → bit_and v (m * 2 + 1) ≡ bit_and (v / 2) m * 2 + v % 2
and_odd v m =
    let e : (m * 2 + 1) / 2 ≡ m = omega arith in
    omega (arith, and_digit v (m * 2 + 1), ap (bit_and (v / 2)) e)

or_even : (x y : ℕ) → bit_or (x * 2) y ≡ bit_or x (y / 2) * 2 + y % 2
or_even x y =
    let e : x * 2 / 2 ≡ x = omega arith in
    omega (arith, or_digit (x * 2) y, ap (λ t. bit_or t (y / 2)) e)

-- A mask of which the lowest digits are 0: doubled up to a byte.
and_shift4 : (v m : ℕ) → bit_and v (m * 4) ≡ bit_and (v / 4) m * 4
and_shift4 v m =
    let p : m * 4 ≡ m * 2 * 2 = omega arith in
    let q : v / 2 / 2 ≡ v / 4 = omega arith in
    rw (p, and_even v (m * 2), and_even (v / 2) m, q) (omega arith)

and_shift16 : (v m : ℕ) → bit_and v (m * 16) ≡ bit_and (v / 16) m * 16
and_shift16 v m =
    let p : m * 16 ≡ m * 4 * 4 = omega arith in
    let q : v / 4 / 4 ≡ v / 16 = omega arith in
    rw (p, and_shift4 v (m * 4), and_shift4 (v / 4) m, q) (omega arith)

pub and_shift : (v m : ℕ) → bit_and v (m * 256) ≡ bit_and (v / 256) m * 256
and_shift v m =
    let p : m * 256 ≡ m * 16 * 16 = omega arith in
    let q : v / 16 / 16 ≡ v / 256 = omega arith in
    rw (p, and_shift16 v (m * 16), and_shift16 (v / 16) m, q) (omega arith)

-- A mask of which the lowest digits are 1.
and_ones4 : (v m : ℕ) → bit_and v (m * 4 + 3) ≡ bit_and (v / 4) m * 4 + v % 4
and_ones4 v m =
    let p : m * 4 + 3 ≡ (m * 2 + 1) * 2 + 1 = omega arith in
    let q : v / 2 / 2 ≡ v / 4 = omega arith in
    rw (p, and_odd v (m * 2 + 1), and_odd (v / 2) m, q) (omega arith)

and_ones16 : (v m : ℕ) → bit_and v (m * 16 + 15) ≡ bit_and (v / 16) m * 16 + v % 16
and_ones16 v m =
    let p : m * 16 + 15 ≡ (m * 4 + 3) * 4 + 3 = omega arith in
    let q : v / 4 / 4 ≡ v / 16 = omega arith in
    rw (p, and_ones4 v (m * 4 + 3), and_ones4 (v / 4) m, q) (omega arith)

pub and_ones : (v m : ℕ) → bit_and v (m * 256 + 255) ≡ bit_and (v / 256) m * 256 + v % 256
and_ones v m =
    let p : m * 256 + 255 ≡ (m * 16 + 15) * 16 + 15 = omega arith in
    let q : v / 16 / 16 ≡ v / 256 = omega arith in
    rw (p, and_ones16 v (m * 16 + 15), and_ones16 (v / 16) m, q) (omega arith)

bit_and-zero_upto : (n a : ℕ) → a ≤ n → bit_and a 0 ≡ 0
bit_and-zero_upto n zero h = refl
bit_and-zero_upto zero (suc a) h = absurd (omega arith)
bit_and-zero_upto (suc n) (suc a) h =
    omega (arith, and_digit (suc a) 0, bit_and-zero_upto n (suc a / 2) (omega arith))

pub bit_and-zero : (a : ℕ) → bit_and a 0 ≡ 0
bit_and-zero a = bit_and-zero_upto a a (omega arith)

pub bit_and_byte : (v : ℕ) → bit_and v 0xff ≡ v % 256
bit_and_byte v = omega (arith, and_ones v 0, bit_and-zero (v / 256))

-- One bit: `v & 4` is 0 or 4.
pub bit_and_bit2 : (v : ℕ) → bit_and v 4 ≡ v / 4 % 2 * 4
bit_and_bit2 v = omega (arith, and_shift4 v 1, and_odd (v / 4) 0, bit_and-zero (v / 4 / 2))

-- `|` under the lowest digits.
or_shift4 : (x y : ℕ) → bit_or (x * 4) y ≡ bit_or x (y / 4) * 4 + y % 4
or_shift4 x y =
    let p : x * 4 ≡ x * 2 * 2 = omega arith in
    let q : y / 2 / 2 ≡ y / 4 = omega arith in
    rw (p, or_even (x * 2) y, or_even x (y / 2), q) (omega arith)

or_shift16 : (x y : ℕ) → bit_or (x * 16) y ≡ bit_or x (y / 16) * 16 + y % 16
or_shift16 x y =
    let p : x * 16 ≡ x * 4 * 4 = omega arith in
    let q : y / 4 / 4 ≡ y / 16 = omega arith in
    rw (p, or_shift4 (x * 4) y, or_shift4 x (y / 4), q) (omega arith)

pub or_shift : (x y : ℕ) → bit_or (x * 256) y ≡ bit_or x (y / 256) * 256 + y % 256
or_shift x y =
    let p : x * 256 ≡ x * 16 * 16 = omega arith in
    let q : y / 16 / 16 ≡ y / 256 = omega arith in
    rw (p, or_shift16 (x * 16) y, or_shift16 x (y / 16), q) (omega arith)

bit_or-zero_upto : (n a : ℕ) → a ≤ n → bit_or a 0 ≡ a
bit_or-zero_upto n zero h = refl
bit_or-zero_upto zero (suc a) h = absurd (omega arith)
bit_or-zero_upto (suc n) (suc a) h =
    omega (arith, or_digit (suc a) 0, bit_or-zero_upto n (suc a / 2) (omega arith))

pub bit_or-zero : (a : ℕ) → bit_or a 0 ≡ a
bit_or-zero a = bit_or-zero_upto a a (omega arith)

-- `|` of two fields, one or more bytes apart.
pub bit_or_byte : (x y : ℕ) → y < 256 → bit_or (x * 256) y ≡ x * 256 + y
bit_or_byte x y h =
    let q : y / 256 ≡ 0 = omega arith in rw (or_shift x y, q, bit_or-zero x) (omega arith)

pub bit_or_both : (x y : ℕ) → bit_or (x * 256) (y * 256) ≡ bit_or x y * 256
bit_or_both x y =
    let q : y * 256 / 256 ≡ y = omega arith in rw (or_shift x (y * 256), q) (omega arith)
