-- ===== src/Wire/Decimal.antt =====
-- `u16tostr` and `strtou32` of EXP/newstructures.h: decimal text, as a list of character codes.
use controller_project.Base.{
  ℕ, zero, suc, ◌+◌, ◌-◌, ◌*◌, ◌/◌, ◌%◌, ◌^◌, ◌≤◌, ◌<◌, ◌≡◌, refl, ap, ◌∙◌, List, [], ◌∷◌, length,
  take, ◌==◌, if◌then◌else◌, length-append, Bool-cases, inl, inr, ==_iff, false, arith,
}
use mathlib.Core.List.{reverse, reverse-cons, reverse-reverse}

-- `while (dat) { temp[i] = dat % 10 + 0x30; i++; dat /= 10; }`: the digits, lowest first. A `__u16`
-- has at most five, the fuel of `u16tostr`.
temp_digits : ℕ → ℕ → List ℕ
temp_digits zero dat = []
temp_digits (suc fuel) dat =
    let rest = (dat % 10 + 0x30) ∷ temp_digits fuel (dat / 10) in if dat == 0 then [] else rest

-- The second loop copies them in reverse order, and writes `0` if there was none.
pub u16tostr : ℕ → List ℕ
unfolding temp_digits
u16tostr dat =
    let digits = temp_digits 5 dat in if length digits == 0 then 0x30 ∷ [] else reverse digits

-- The loop from the last character to the first; `unsigned long` has 64 bits. A character below
-- `0` would make the product negative; it wraps.
strtou32_loop : List ℕ → ℕ → ℕ → ℕ
strtou32_loop [] temp fact = temp
strtou32_loop (c ∷ cs) temp fact =
    strtou32_loop cs ((temp + (c + 2 ^ 64 - 0x30) % 2 ^ 64 * fact) % 2 ^ 64) (fact * 10 % 2 ^ 64)

-- `unsigned char len` keeps the length modulo 256.
pub strtou32 : List ℕ → ℕ
unfolding strtou32_loop
strtou32 str = strtou32_loop (reverse (take (length str % 256) str)) 0 1

-- As many characters come out as were taken down.
length-reverse : (str : List ℕ) → length (reverse str) ≡ length str
length-reverse [] = refl
length-reverse (c ∷ str) =
    let last = ap length (reverse-cons c str) in
    let joined = length-append (reverse str) (c ∷ []) in
    last ∙ joined ∙ omega (arith, length-reverse str)

take-length {ℓ} : {A : Type ℓ} (xs : List A) → take (length xs) xs ≡ xs
take-length [] = refl
take-length (x ∷ xs) = ap (◌∷◌ x) (take-length xs)

length-temp_digits : (fuel dat : ℕ) → length (temp_digits fuel dat) ≤ fuel
unfolding temp_digits
length-temp_digits zero dat = omega arith
length-temp_digits (suc fuel) dat = ground (arith, length-temp_digits fuel (dat / 10))

-- `n` decimal digits hold `dat`, and `n` more factors of ten stay below `2 ^ 64`.
abbrev Holds : ℕ → ℕ → Type 0
Holds zero dat = dat ≡ 0
Holds (suc n) dat = Holds n (dat / 10)

abbrev Fits : ℕ → ℕ → Type 0
Fits zero fact = Unit {0}
Fits (suc n) fact = (fact * 10 < 2 ^ 64) × Fits n (fact * 10)

loop-digit :
    (r : ℕ) (cs : List ℕ) (temp fact : ℕ)
    → r < 10
    → temp + r * fact < 2 ^ 64
    → fact * 10 < 2 ^ 64
    → strtou32_loop ((r + 0x30) ∷ cs) temp fact ≡ strtou32_loop cs (temp + r * fact) (fact * 10)
unfolding strtou32_loop
loop-digit r cs temp fact h small f =
    let c : (r + 0x30 + 2 ^ 64 - 0x30) % 2 ^ 64 ≡ r = omega arith in
    let t : (temp + r * fact) % 2 ^ 64 ≡ temp + r * fact = omega arith in
    let k : fact * 10 % 2 ^ 64 ≡ fact * 10 = omega arith in rw (c, t, k)

loop-temp_digits :
    (n dat temp fact : ℕ)
    → Holds n dat
    → Fits n fact
    → temp + fact * dat < 2 ^ 64
    → strtou32_loop (temp_digits n dat) temp fact ≡ temp + fact * dat
unfolding strtou32_loop temp_digits
loop-temp_digits zero dat temp fact h f small = rw h (omega arith)
loop-temp_digits (suc n) dat temp fact h f small = elim (Bool-cases (dat == 0)) [
  | inl e ↦ let z : dat ≡ 0 = (==_iff dat 0).0 e in rw (e, z) (omega arith)
  | inr e ↦
      let q = dat / 10 in
      let r = dat % 10 in
      let m : fact * dat ≡ fact * (10 * q + r) = ap (λ t. fact * t) (omega arith) in
      let more = loop-temp_digits n q (temp + r * fact) (fact * 10) h f.1 (omega arith) in
      rw e (
        loop-digit r (temp_digits n q) temp fact (omega arith) (omega arith) f.0
        ∙ more
        ∙ omega arith)
]

temp_digits_ne : (dat : ℕ) → (dat == 0) ≡ false → (length (temp_digits 5 dat) == 0) ≡ false
unfolding temp_digits
temp_digits_ne dat e = ground arith

-- Every 16-bit number survives printing and reading back: `strtou32 (u16tostr dat)` is `dat`.
pub strtou32-u16tostr : (dat : ℕ) → dat < 2 ^ 16 → strtou32 (u16tostr dat) ≡ dat
unfolding strtou32 u16tostr
strtou32-u16tostr dat h =
    let ds = temp_digits 5 dat in
    let run = loop-temp_digits 5 dat 0 1 (omega arith) (omega arith) (omega arith) in
    elim (Bool-cases (dat == 0)) [
      | inl e ↦ let z : dat ≡ 0 = (==_iff dat 0).0 e in rw z refl
      | inr e ↦
          let l : length (reverse ds) % 256 ≡ length (reverse ds) =
            omega (arith, length-reverse ds, length-temp_digits 5 dat) in
          rw (temp_digits_ne dat e)
            (rw (l, take-length (reverse ds), reverse-reverse ds, run) (omega arith))
    ]
