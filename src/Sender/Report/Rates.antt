-- ===== src/Sender/Report/Rates.antt =====
-- When the rates of `recv_cb` (sendudp/sendudp.c) are the rates, and what its loop finds.
use controller_project.Base.{
  ℕ, zero, suc, ◌+◌, ◌-◌, ◌*◌, ◌/◌, ◌%◌, ◌^◌, ◌≤◌, ◌<◌, ◌≡◌, refl, ap, ap₂, true, false, ltb, ◌==◌,
  ==_iff, ltb→lt, ltb→le, Bool-cases, inl, inr, ◌⊎◌, arith,
}
use controller_project.Sender.Collect.{apsl, ApStates}
use controller_project.Sender.Report.{
  int_div1000, sign_extend, duration, rate32, rate64, longer, longest, sub_bits, int_sub, times,
}

duration_on :
    (a b : ApStates)
    → int_sub b.sec a.sec ≡ b.sec - a.sec
    → a.sec ≤ b.sec
    → b.sec < a.sec + 2147483
    → b.usec < 1000000
    → a.usec ≤ b.usec
    → duration a b + (a.usec - b.usec) / 1000 ≡ (b.sec - a.sec) * 1000 + (b.usec - a.usec) / 1000
unfolding duration int_div1000
duration_on a b es h1 h2 h5 q =
    let eu : int_sub b.usec a.usec ≡ b.usec - a.usec = omega arith in
    let small : ltb (b.usec - a.usec) (2 ^ 31) ≡ true = ground arith in
    rw (es, eu, small) (omega arith)

duration_back :
    (a b : ApStates)
    → int_sub b.sec a.sec ≡ b.sec - a.sec
    → a.sec ≤ b.sec
    → b.sec < a.sec + 2147483
    → a.usec < 1000000
    → b.usec < 1000000
    → b.usec < a.usec
    → a.sec < b.sec
    → duration a b + (a.usec - b.usec) / 1000 ≡ (b.sec - a.sec) * 1000 + (b.usec - a.usec) / 1000
unfolding duration int_div1000
duration_back a b es h1 h2 h4 h5 q f =
    let x = a.usec - b.usec in
    let eu : int_sub b.usec a.usec ≡ 2 ^ 32 - x = omega arith in
    let small : ltb (2 ^ 32 - x) (2 ^ 31) ≡ false = ground arith in rw (es, eu, small) (omega arith)

-- Between two states whose clock does not go back and that lie less than 2147483 seconds apart,
-- `duration` is the difference of their times in milliseconds, cut to whole milliseconds of the
-- difference of the microseconds (towards zero).
pub duration_lem :
    (a b : ApStates)
    → a.sec ≤ b.sec
    → b.sec < a.sec + 2147483
    → b.sec < 2 ^ 32
    → a.usec < 1000000
    → b.usec < 1000000
    → (a.usec ≤ b.usec) ⊎ (a.sec < b.sec)
    → (duration a b + (a.usec - b.usec) / 1000 ≡ (b.sec - a.sec) * 1000 + (b.usec - a.usec) / 1000)
unfolding duration int_div1000
duration_lem a b h1 h2 h3 h4 h5 h6 =
    let es : int_sub b.sec a.sec ≡ b.sec - a.sec = omega arith in
    elim (Bool-cases (ltb b.usec a.usec)) [
      | inl q ↦
          duration_back a b es h1 h2 h4 h5 (ltb→lt _ _ q)
            (elim h6 [ inl f ↦ absurd (omega (arith, ltb→lt b.usec a.usec q)) | inr f ↦ f ])
      | inr q ↦ duration_on a b es h1 h2 h5 (ltb→le _ _ q)
    ]

-- While a counter of 32 bits grows by less than 4295 between the two states, its rate is the
-- increase times a million over the duration.
pub rate32_lem :
    (a b d : ℕ) → a ≤ b → b < 2 ^ 32 → b - a < 4295 → rate32 a b d ≡ times * (b - a) / d
unfolding rate32
rate32_lem a b d h l e =
    let e32 : times * sub_bits 32 b a % 2 ^ 32 ≡ times * (b - a) = omega arith in
    ap (λ x. x / d) e32

-- While a counter of 64 bits grows by less than 18446744073709 between the two states and the
-- duration is not negative, its rate is the increase times a million over the duration.
pub rate64_lem :
    (a b d : ℕ)
    → a ≤ b
    → b < 2 ^ 64
    → b - a < 18446744073709
    → d < 2 ^ 31
    → rate64 a b d ≡ times * (b - a) / d
unfolding rate64 sign_extend
rate64_lem a b d h l e k =
    let e64 : times * sub_bits 64 b a % 2 ^ 64 ≡ times * (b - a) = omega arith in
    let pos : sign_extend d ≡ d = ground arith in ap₂ (λ x y. x / y) e64 pos

-- An increase by 4295 is already too much: the product does not fit 32 bits.
pub rate32_overflows : (a b d : ℕ) → a ≤ b → b < 2 ^ 32 → b - a ≡ 4295 → rate32 a b d ≡ 32704 / d
unfolding rate32
rate32_overflows a b d h l e =
    let e32 : times * sub_bits 32 b a % 2 ^ 32 ≡ 32704 = omega arith in ap (λ x. x / d) e32

below_suc :
    (ring : ℕ → ApStates) (n bound : ℕ)
    → ((k : ℕ) → k < n → (ring k).q3backlog ≤ bound)
    → (ring n).q3backlog ≤ bound
    → (k : ℕ) → k < suc n
    → (ring k).q3backlog ≤ bound
below_suc ring n bound h g k l = elim (Bool-cases (k == n)) [
  | inl e ↦ rw ((==_iff k n).0 e) g
  | inr e ↦ h k (ground arith)
]

longest_all :
    (ring : ℕ → ApStates) (n : ℕ)
    → n ≤ apsl
    → ((k : ℕ) → k < n → (ring k).q3backlog ≤ (longest ring n).q3maxbacklog)
      × (((longest ring n).q3maxbacklog ≡ 0) × ((longest ring n).q3maxqlen ≡ 0)
          ⊎ (k : ℕ) × (k < n)
            × ((ring k).q3backlog ≡ (longest ring n).q3maxbacklog)
            × ((ring k).q3qlen ≡ (longest ring n).q3maxqlen))
unfolding longest longer
longest_all ring zero h = ((λ k l. elim l [ ]), inl (refl, refl))
longest_all ring (suc n) h =
    let ih = longest_all ring n (omega arith) in
    let m : n % apsl ≡ n = omega arith in
    elim (Bool-cases (ltb (longest ring n).q3maxbacklog (ring n).q3backlog)) [
      | inl e ↦
          let less = ltb→lt (longest ring n).q3maxbacklog (ring n).q3backlog e in
          rw (m, e)
            (
              (λ k l.
                  below_suc ring n (ring n).q3backlog (λ j i. let b = ih.0 j i in omega arith)
                    (omega arith) k l),
              inr (n, omega arith, refl, refl),
            )
      | inr e ↦
          let less = ltb→le (longest ring n).q3maxbacklog (ring n).q3backlog e in
          rw (m, e)
            (
              below_suc ring n (longest ring n).q3maxbacklog ih.0 less,
              elim ih.1 [ inl z ↦ inl z | inr (k, l, b, q) ↦ inr (k, omega arith, b, q) ],
            )
    ]

-- What the loop over the ring finds in the slots below `n`: the backlog of queue 3 in each is at most
-- the one reported, and the reported length and backlog are those of one of the slots, or both 0.
pub longest_lem :
    (ring : ℕ → ApStates) (n k : ℕ)
    → n ≤ apsl
    → k < n
    → ((ring k).q3backlog ≤ (longest ring n).q3maxbacklog)
      × (((longest ring n).q3maxbacklog ≡ 0) × ((longest ring n).q3maxqlen ≡ 0)
          ⊎ (j : ℕ) × (j < n)
            × ((ring j).q3backlog ≡ (longest ring n).q3maxbacklog)
            × ((ring j).q3qlen ≡ (longest ring n).q3maxqlen))
longest_lem ring n k h l = let all = longest_all ring n h in (all.0 k l, all.1)
