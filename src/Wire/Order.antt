-- ===== src/Wire/Order.antt =====
-- The byte-swapping routines: what they compute, and that they undo themselves.
use controller_project.Base.{
  ℕ, zero, suc, ◌+◌, ◌*◌, ◌/◌, ◌%◌, ◌^◌, ◌<◌, bit_and, bit_or, ◌≡◌, ap, ◌∙◌, List, [], ◌∷◌, ◌++◌,
  length, get_or, arith,
}
use controller_project.Base.Bits.{
  and_shift, and_ones, bit_and_byte, or_shift, bit_or-zero, bit_or_byte, bit_or_both,
}
use controller_project.Wire.{
  reversebytes_uint16t, reversebytes_uint32t, reversebytes_uint64t, be16, be32, load16, load32,
}

pub reverse16_value : (v : ℕ) → v < 2 ^ 16 → reversebytes_uint16t v ≡ v % 256 * 256 + v / 256
unfolding reversebytes_uint16t
reverse16_value v h =
    let high : bit_and v 0xff00 ≡ v / 256 % 256 * 256 =
      and_shift v 0xff ∙ ap (λ t. t * 256) (bit_and_byte (v / 256)) in
    let low : v / 256 % 256 * 256 / 256 ≡ v / 256 = omega arith in
    rw (bit_and_byte v, high, low, bit_or_byte (v % 256) (v / 256) (omega arith)) (omega arith)

-- The masks of `reversebytes_uint32t` pick the bytes.
mask1 : (v : ℕ) → bit_and v 0xff00 ≡ v / 256 % 256 * 256
mask1 v = and_shift v 0xff ∙ ap (λ t. t * 256) (bit_and_byte (v / 256))

mask2 : (v : ℕ) → bit_and v 0xff_0000 ≡ v / 256 / 256 % 256 * 256 * 256
mask2 v = and_shift v 0xff00 ∙ ap (λ t. t * 256) (mask1 (v / 256))

mask3 : (v : ℕ) → bit_and v 0xff00_0000 ≡ v / 256 / 256 / 256 % 256 * 256 * 256 * 256
mask3 v = and_shift v 0xff_0000 ∙ ap (λ t. t * 256) (mask2 (v / 256))

join4 :
    (a b c d : ℕ)
    → b < 256
    → c < 256
    → d < 256
    → bit_or (bit_or (bit_or (a * 256 * 256 * 256) (b * 256 * 256)) (c * 256)) d
      ≡ ((a * 256 + b) * 256 + c) * 256 + d
join4 a b c d hb hc hd = rw (
  bit_or_both (a * 256 * 256) (b * 256),
  bit_or_both (a * 256) b,
  bit_or_byte a b hb,
  bit_or_both ((a * 256 + b) * 256) c,
  bit_or_byte (a * 256 + b) c hc,
  bit_or_byte ((a * 256 + b) * 256 + c) d hd,
)

pub reverse32_value :
    (v : ℕ)
    → v < 2 ^ 32
    → reversebytes_uint32t v
      ≡ ((v % 256 * 256 + v / 256 % 256) * 256 + v / 256 / 256 % 256) * 256
        + v / 256 / 256 / 256 % 256
unfolding reversebytes_uint32t
reverse32_value v h =
    let p0 : v % 256 * 2 ^ 24 % 2 ^ 32 ≡ v % 256 * 256 * 256 * 256 = omega arith in
    let p1 : v / 256 % 256 * 256 * 2 ^ 8 % 2 ^ 32 ≡ v / 256 % 256 * 256 * 256 = omega arith in
    let p2 : v / 256 / 256 % 256 * 256 * 256 / 2 ^ 8 ≡ v / 256 / 256 % 256 * 256 = omega arith in
    let p3 : v / 256 / 256 / 256 % 256 * 256 * 256 * 256 / 2 ^ 24 ≡ v / 256 / 256 / 256 % 256 =
      omega arith in
    rw (bit_and_byte v, mask1 v, mask2 v, mask3 v, p0, p1, p2, p3)
      (join4 (v % 256) (v / 256 % 256) (v / 256 / 256 % 256) (v / 256 / 256 / 256 % 256)
        (omega arith) (omega arith) (omega arith))

reverse32-lt : (v : ℕ) → v < 2 ^ 32 → reversebytes_uint32t v < 2 ^ 32
reverse32-lt v h = omega (arith, reverse32_value v h)

mask_low32 : (v : ℕ) → bit_and v 0xffff_ffff ≡ v % 2 ^ 32
mask_low32 v = omega (
  arith,
  and_ones v 0xff_ffff,
  and_ones (v / 256) 0xffff,
  and_ones (v / 256 / 256) 0xff,
  bit_and_byte (v / 256 / 256 / 256),
)

mask_high32 : (v : ℕ) → bit_and v 0xffff_ffff_0000_0000 ≡ v / 2 ^ 32 % 2 ^ 32 * 2 ^ 32
mask_high32 v = omega (
  arith,
  and_shift v 0xffff_ffff_0000_00,
  and_shift (v / 256) 0xffff_ffff_0000,
  and_shift (v / 256 / 256) 0xffff_ffff_00,
  and_shift (v / 256 / 256 / 256) 0xffff_ffff,
  mask_low32 (v / 256 / 256 / 256 / 256),
)

join_words : (x y : ℕ) → y < 2 ^ 32 → bit_or (x * 2 ^ 32) y ≡ x * 2 ^ 32 + y
join_words x y h =
    let p : x * 2 ^ 32 ≡ x * 256 * 256 * 256 * 256 = omega arith in
    let e : y / 256 / 256 / 256 / 256 ≡ 0 = omega arith in
    rw
      (
        p,
        or_shift (x * 256 * 256 * 256) y,
        or_shift (x * 256 * 256) (y / 256),
        or_shift (x * 256) (y / 256 / 256),
        or_shift x (y / 256 / 256 / 256),
        e,
        bit_or-zero x,
      )
      (omega arith)

pub reverse64_value :
    (v : ℕ)
    → v < 2 ^ 64
    → reversebytes_uint64t v
      ≡ reversebytes_uint32t (v % 2 ^ 32) * 2 ^ 32 + reversebytes_uint32t (v / 2 ^ 32)
unfolding reversebytes_uint64t
reverse64_value v h =
    let p : v % 2 ^ 32 % 2 ^ 32 ≡ v % 2 ^ 32 = omega arith in
    let q : v / 2 ^ 32 % 2 ^ 32 * 2 ^ 32 / 2 ^ 32 % 2 ^ 32 ≡ v / 2 ^ 32 = omega arith in
    let low = reversebytes_uint32t (v % 2 ^ 32) in
    let small = reverse32-lt (v % 2 ^ 32) (omega arith) in
    let r : low * 2 ^ 32 % 2 ^ 64 ≡ low * 2 ^ 32 = omega arith in
    rw (mask_low32 v, mask_high32 v, p, q, r)
      (join_words low (reversebytes_uint32t (v / 2 ^ 32)) (reverse32-lt (v / 2 ^ 32) (omega arith)))

twice16 : (v : ℕ) → v < 2 ^ 16 → reversebytes_uint16t (reversebytes_uint16t v) ≡ v
twice16 v h = omega (
  arith,
  reverse16_value v h,
  reverse16_value (reversebytes_uint16t v) (omega (arith, reverse16_value v h)),
)

twice32 : (v : ℕ) → v < 2 ^ 32 → reversebytes_uint32t (reversebytes_uint32t v) ≡ v
twice32 v h = omega (
  arith,
  reverse32_value v h,
  reverse32_value (reversebytes_uint32t v) (omega (arith, reverse32_value v h)),
)

twice64 : (v : ℕ) → v < 2 ^ 64 → reversebytes_uint64t (reversebytes_uint64t v) ≡ v
twice64 v h =
    let hi = reversebytes_uint32t (v % 2 ^ 32) in
    let lo = reversebytes_uint32t (v / 2 ^ 32) in
    let hhi = reverse32-lt (v % 2 ^ 32) (omega arith) in
    let hlo = reverse32-lt (v / 2 ^ 32) (omega arith) in
    let w : reversebytes_uint64t v ≡ hi * 2 ^ 32 + lo = reverse64_value v h in
    let a : (hi * 2 ^ 32 + lo) % 2 ^ 32 ≡ lo = omega arith in
    let b : (hi * 2 ^ 32 + lo) / 2 ^ 32 ≡ hi = omega arith in
    rw
      (
        w,
        reverse64_value (hi * 2 ^ 32 + lo) (omega arith),
        a,
        b,
        twice32 (v / 2 ^ 32) (omega arith),
        twice32 (v % 2 ^ 32) (omega arith),
      )
      (omega arith)

-- Swapping the bytes twice gives the value back, at 16, 32 and 64 bits.
pub reversebytes_involutive :
    (u v w : ℕ)
    → u < 2 ^ 16
    → v < 2 ^ 32
    → w < 2 ^ 64
    → (reversebytes_uint16t (reversebytes_uint16t u) ≡ u)
      × (reversebytes_uint32t (reversebytes_uint32t v) ≡ v)
      × (reversebytes_uint64t (reversebytes_uint64t w) ≡ w)
reversebytes_involutive u v w hu hv hw = (twice16 u hu, twice32 v hv, twice64 w hw)

-- What a decoder reads: `memcpy` of a field that starts the rest of the buffer, then the swap.
get_or-skip {ℓ} :
    {A : Type ℓ} (pre xs : List A) (i k : ℕ) (d : A)
    → i ≡ length pre + k
    → get_or (pre ++ xs) i d ≡ get_or xs k d
get_or-skip [] xs i k d e = ap (λ n. get_or xs n d) (omega arith)
get_or-skip (p ∷ pre) xs zero k d e = absurd (omega arith)
get_or-skip (p ∷ pre) xs (suc i) k d e = get_or-skip pre xs i k d (omega arith)

-- The little-endian reading of big-endian bytes.
abbrev pub swapped16 : ℕ → ℕ
swapped16 v = v / 2 ^ 8 % 256 + v % 256 * 2 ^ 8

abbrev pub swapped32 : ℕ → ℕ
swapped32 v =
    v / 2 ^ 24 % 256 + v / 2 ^ 16 % 256 * 2 ^ 8 + v / 2 ^ 8 % 256 * 2 ^ 16 + v % 256 * 2 ^ 24

pub reverse-swapped16 :
    (v : ℕ) → v < 2 ^ 16 → reversebytes_uint16t (v / 2 ^ 8 % 256 + v % 256 * 2 ^ 8) ≡ v
reverse-swapped16 v h = omega (arith, reverse16_value (swapped16 v) (omega arith))

pub reverse-swapped32 :
    (v : ℕ)
    → v < 2 ^ 32
    → reversebytes_uint32t
        (v / 2 ^ 24 % 256 + v / 2 ^ 16 % 256 * 2 ^ 8 + v / 2 ^ 8 % 256 * 2 ^ 16 + v % 256 * 2 ^ 24)
      ≡ v
reverse-swapped32 v h = omega (arith, reverse32_value (swapped32 v) (omega arith))

pub swapped32-eq-reverse : (v : ℕ) → v < 2 ^ 32 → swapped32 v ≡ reversebytes_uint32t v
swapped32-eq-reverse v h = omega (arith, reverse32_value v h)

pub reverse-swapped64 :
    (hi lo : ℕ)
    → hi < 2 ^ 32
    → lo < 2 ^ 32
    → reversebytes_uint64t (swapped32 hi + swapped32 lo * 2 ^ 32) ≡ hi * 2 ^ 32 + lo
reverse-swapped64 hi lo h l =
    let w = swapped32 hi + swapped32 lo * 2 ^ 32 in
    let p : w % 2 ^ 32 ≡ swapped32 hi = omega arith in
    let q : w / 2 ^ 32 ≡ swapped32 lo = omega arith in
    rw (reverse64_value w (omega arith), p, q, reverse-swapped32 lo l, reverse-swapped32 hi h)

pub load16-be16 :
    (pre post : List ℕ) (v : ℕ)
    → v < 2 ^ 16
    → reversebytes_uint16t (load16 (pre ++ (be16 v ++ post)) (length pre)) ≡ v
unfolding load16 be16
load16-be16 pre post v h =
    let n = length pre in
    let b = be16 v ++ post in
    rw (get_or-skip pre b n 0 0 (omega arith), get_or-skip pre b (n + 1) 1 0 (omega arith))
      (reverse-swapped16 v h)

pub load32-be32 :
    (pre post : List ℕ) (v : ℕ)
    → v < 2 ^ 32
    → reversebytes_uint32t (load32 (pre ++ (be32 v ++ post)) (length pre)) ≡ v
unfolding load32 be32
load32-be32 pre post v h =
    let n = length pre in
    let b = be32 v ++ post in
    rw
      (
        get_or-skip pre b n 0 0 (omega arith),
        get_or-skip pre b (n + 1) 1 0 (omega arith),
        get_or-skip pre b (n + 2) 2 0 (omega arith),
        get_or-skip pre b (n + 3) 3 0 (omega arith),
      )
      (reverse-swapped32 v h)

-- The collector recovers an integer that the access point stored in network byte order: the
-- little-endian read at the field's offset, followed by the swap, gives the value that was stored,
-- whatever stands before and behind the field, at 16 and at 32 bits.
pub load_swapped :
    (pre post : List ℕ) (u v : ℕ)
    → u < 2 ^ 16
    → v < 2 ^ 32
    → (reversebytes_uint16t (load16 (pre ++ (be16 u ++ post)) (length pre)) ≡ u)
      × (reversebytes_uint32t (load32 (pre ++ (be32 v ++ post)) (length pre)) ≡ v)
load_swapped pre post u v hu hv = (load16-be16 pre post u hu, load32-be32 pre post v hv)
