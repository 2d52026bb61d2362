-- ===== src/Tree/Text/Digits.antt =====
-- `atoi` reads back the decimal digits of a number.
use controller_project.Base.{
  ℕ, zero, suc, ◌+◌, ◌-◌, ◌*◌, ◌/◌, ◌%◌, ◌^◌, ◌≤◌, ◌<◌, ◌≡◌, refl, ap, ◌∙◌, [], ◌∷◌, ◌++◌, length,
  ltb, if◌then◌else◌, Bool-cases, inl, inr, ltb→lt, length-append, arith,
}
use controller_project.Tree.{Name}
use controller_project.Tree.Text.{atoi_digits, atoi}
use controller_project.Tree.Text.Tokens.{Free, Piece}

-- The digits of `n`, highest first, at most `suc fuel` of them.
abbrev pub digits : ℕ → ℕ → Name
digits zero n = (0x30 + n % 10) ∷ []
digits (suc fuel) n =
    let more = digits fuel (n / 10) in
    if ltb n 10 then (0x30 + n) ∷ [] else more ++ (0x30 + n % 10) ∷ []

-- `%d` of a number of at most 32 bits.
abbrev pub decimal : ℕ → Name
decimal n = digits 9 n

-- Every character is a digit.
abbrev pub AllDigits : Name → Type 0
AllDigits [] = Unit {0}
AllDigits (c ∷ cs) = (0x30 ≤ c) × (c < 0x3a) × AllDigits cs

pub AllDigits-append : (s t : Name) → AllDigits s → AllDigits t → AllDigits (s ++ t)
AllDigits-append [] t h k = k
AllDigits-append (c ∷ s) t h k = (h.0, h.1, AllDigits-append s t h.2 k)

pub AllDigits-digits : (fuel n : ℕ) → AllDigits (digits fuel n)
AllDigits-digits zero n = (omega arith, omega arith, tt)
AllDigits-digits (suc fuel) n = elim (Bool-cases (ltb n 10)) [
  | inl e ↦ let h = ltb→lt n 10 e in rw e (omega arith, omega arith, tt)
  | inr e ↦ rw e (
      AllDigits-append (digits fuel (n / 10)) ((0x30 + n % 10) ∷ [])
        (AllDigits-digits fuel (n / 10)) (omega arith, omega arith, tt))
]

pub atoi_digits-digit :
    (acc c : ℕ) (cs : Name)
    → 0x30 ≤ c
    → c < 0x3a
    → atoi_digits acc (c ∷ cs) ≡ atoi_digits ((acc * 10 + (c - 0x30)) % 2 ^ 32) cs
unfolding atoi_digits
atoi_digits-digit acc c cs h k = ground arith

pub atoi_digits-append :
    (acc : ℕ) (s t : Name)
    → AllDigits s
    → atoi_digits acc (s ++ t) ≡ atoi_digits (atoi_digits acc s) t
unfolding atoi_digits
atoi_digits-append acc [] t h = refl
atoi_digits-append acc (c ∷ s) t h =
    atoi_digits-digit acc c (s ++ t) h.0 h.1
    ∙ atoi_digits-append ((acc * 10 + (c - 0x30)) % 2 ^ 32) s t h.2
    ∙ ap (λ a. atoi_digits a t) (rw (atoi_digits-digit acc c s h.0 h.1) refl)

last_digit :
    (acc d : ℕ) → d < 10 → acc * 10 + d < 2 ^ 32 → atoi_digits acc ((0x30 + d) ∷ []) ≡ acc * 10 + d
last_digit acc d h k =
    atoi_digits-digit acc (0x30 + d) [] (omega arith) (omega arith)
    ∙ (unfold atoi_digits in omega arith)

-- `n` has at most `suc fuel` digits.
abbrev Short : ℕ → ℕ → Type 0
Short zero n = n < 10
Short (suc fuel) n = Short fuel (n / 10)

atoi_digits-digits : (fuel n : ℕ) → Short fuel n → n < 2 ^ 32 → atoi_digits 0 (digits fuel n) ≡ n
atoi_digits-digits zero n h k = last_digit 0 (n % 10) (omega arith) (omega arith) ∙ omega (arith, h)
atoi_digits-digits (suc fuel) n h k = elim (Bool-cases (ltb n 10)) [
  | inl e ↦ let l = ltb→lt n 10 e in rw e (last_digit 0 n l (omega arith) ∙ omega arith)
  | inr e ↦ rw e (
      atoi_digits-append 0 (digits fuel (n / 10)) ((0x30 + n % 10) ∷ [])
        (AllDigits-digits fuel (n / 10))
      ∙ rw (atoi_digits-digits fuel (n / 10) h (omega arith))
          (last_digit (n / 10) (n % 10) (omega arith) (omega arith) ∙ omega arith))
]

pub atoi_first : (c : ℕ) (cs : Name) → 0x30 ≤ c → c < 0x3a → atoi (c ∷ cs) ≡ atoi_digits 0 (c ∷ cs)
unfolding atoi
atoi_first c cs h k = ground arith

atoi-AllDigits : (s : Name) → AllDigits s → atoi s ≡ atoi_digits 0 s
atoi-AllDigits [] h = unfold atoi atoi_digits in refl
atoi-AllDigits (c ∷ s) h = atoi_first c s h.0 h.1

-- A number of at most 32 bits is read back from its digits.
pub atoi-decimal : (n : ℕ) → n < 2 ^ 32 → atoi (decimal n) ≡ n
atoi-decimal n h =
    atoi-AllDigits (decimal n) (AllDigits-digits 9 n) ∙ atoi_digits-digits 9 n (omega arith) h

pub Free-AllDigits : (sep : ℕ) (s : Name) → 0x3a ≤ sep → AllDigits s → Free sep s
Free-AllDigits sep [] d h = tt
Free-AllDigits sep (c ∷ s) d h = (ground (arith, h.1), Free-AllDigits sep s d h.2)

pub Free-AllDigits_low : (sep : ℕ) (s : Name) → sep < 0x30 → AllDigits s → Free sep s
Free-AllDigits_low sep [] d h = tt
Free-AllDigits_low sep (c ∷ s) d h = (ground (arith, h.0), Free-AllDigits_low sep s d h.2)

pub length-digits : (fuel n : ℕ) → 0 < length (digits fuel n)
length-digits zero n = omega arith
length-digits (suc fuel) n = elim (Bool-cases (ltb n 10)) [
  | inl e ↦ rw e (omega arith)
  | inr e ↦ rw e (omega (arith, length-append (digits fuel (n / 10)) ((0x30 + n % 10) ∷ [])))
]

-- The digits are a piece of a text, when the character that separates is no digit.
pub Piece-decimal_above : (sep n : ℕ) → 0x3a ≤ sep → Piece sep (decimal n)
Piece-decimal_above sep n h =
    (length-digits 9 n, Free-AllDigits sep (decimal n) h (AllDigits-digits 9 n))

pub Piece-decimal_below : (sep n : ℕ) → sep < 0x30 → Piece sep (decimal n)
Piece-decimal_below sep n h =
    (length-digits 9 n, Free-AllDigits_low sep (decimal n) h (AllDigits-digits 9 n))
