-- ===== src/Wire/Compare.antt =====
-- `strcmp_lin` (EXP/hash_lin.h), `strcmp_linger` and `strcmp_n` (sendudp/sendudp.c): comparison of
-- a fixed number of bytes, 0 for equal. A byte past the end of a list reads as 0.
use controller_project.Base.{
  ℕ, zero, suc, ◌+◌, ◌≤◌, ◌<◌, ◌≡◌, ◌↔◌, refl, sym, ◌∙◌, List, Bool, true, get_or, ◌==◌,
  if◌then◌else◌, Bool-cases, inl, inr, ==_iff, arith,
}

-- `condition` after the rounds below `n`.
unfoldable pub condition : List ℕ → List ℕ → ℕ → ℕ
condition s t zero = 0
condition s t (suc n) = condition s t n + (if get_or s n 0 == get_or t n 0 then 1 else 0)

unfoldable pub strcmp_n : List ℕ → List ℕ → ℕ → ℕ
strcmp_n s t n = if condition s t n == n then 0 else 1

unfoldable pub strcmp_lin : List ℕ → List ℕ → ℕ
strcmp_lin s t = if condition s t 6 == 6 then 0 else 1

condition-le : (s t : List ℕ) (n : ℕ) → condition s t n ≤ n
unfolding condition
condition-le s t zero = omega arith
condition-le s t (suc n) = ground (arith, condition-le s t n)

condition-all :
    (s t : List ℕ) (n : ℕ) → ((i : ℕ) → i < n → get_or s i 0 ≡ get_or t i 0) → condition s t n ≡ n
unfolding condition
condition-all s t zero h = refl
condition-all s t (suc n) h =
    let rest = condition-all s t n (λ i l. h i (omega arith)) in
    let last = h n (omega arith) in ground (arith, rest, last)

all-condition :
    (s t : List ℕ) (n : ℕ) → condition s t n ≡ n → (i : ℕ) → i < n → get_or s i 0 ≡ get_or t i 0
unfolding condition
all-condition s t zero e i l = elim l [ ]
all-condition s t (suc n) e i l = elim (Bool-cases (i == n)) [
  | inl q ↦ let q' : i ≡ n = (==_iff i n).0 q in rw q' (ground (arith, condition-le s t n))
  | inr q ↦ all-condition s t n (ground (arith, condition-le s t n)) i (ground arith)
]

-- `strcmp_n` returns 0 exactly when the first `n` bytes agree.
pub strcmp_n_iff :
    (s t : List ℕ) (n : ℕ) → (strcmp_n s t n ≡ 0) ↔ ((i : ℕ) → i < n → get_or s i 0 ≡ get_or t i 0)
unfolding strcmp_n
strcmp_n_iff s t n = (
  (λ e. all-condition s t n (ground arith)),
  (λ h. let e = condition-all s t n h in ground (arith, e)),
)

-- The test `strcmp_lin(s, t) == 0`, an equivalence.
unfoldable pub same : List ℕ → List ℕ → Bool
same s t = strcmp_lin s t == 0

pub same_iff : (s t : List ℕ) → (same s t ≡ true) ↔ ((i : ℕ) → i < 6 → get_or s i 0 ≡ get_or t i 0)
unfolding same strcmp_lin
same_iff s t = (
  (λ e. all-condition s t 6 (ground arith)),
  (λ h. let e = condition-all s t 6 h in ground (arith, e)),
)

pub same_refl : (s : List ℕ) → same s s ≡ true
same_refl s = (same_iff s s).1 (λ i l. refl)

pub same_symm : (s t : List ℕ) → same s t ≡ true → same t s ≡ true
same_symm s t e = (same_iff t s).1 (λ i l. sym ((same_iff s t).0 e i l))

pub same_trans : (s t u : List ℕ) → same s t ≡ true → same t u ≡ true → same s u ≡ true
same_trans s t u e f = (same_iff s u).1 (λ i l. (same_iff s t).0 e i l ∙ (same_iff t u).0 f i l)

pub same_comm : (s t : List ℕ) → same s t ≡ same t s
same_comm s t = ground (arith, same_symm s t, same_symm t s)

pub same_congr : (s t j : List ℕ) → same s t ≡ true → same j s ≡ same j t
same_congr s t j e = ground (arith, same_trans j s t, same_trans j t s, same_symm s t)
