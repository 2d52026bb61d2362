-- ===== src/Wire.antt =====
-- EXP/newstructures.h: byte order and text helpers that every other part uses.
pub mod Order
pub mod Decimal
pub mod Compare
use controller_project.Base.{
  ℕ, zero, suc, ◌+◌, ◌-◌, ◌*◌, ◌/◌, ◌%◌, ◌^◌, bit_and, bit_or, List, [], ◌∷◌, ◌++◌, get_or, length,
  ltb, leb, ◌==◌, if◌then◌else◌,
}

-- `reversebytes_uint16t`. The operands are `int`, the store truncates to 16 bits.
unfoldable pub reversebytes_uint16t : ℕ → ℕ
reversebytes_uint16t value =
    bit_or (bit_and value 0x00ff * 2 ^ 8) (bit_and value 0xff00 / 2 ^ 8) % 2 ^ 16

-- `reversebytes_uint32t`. `reversebytes_sint32t` has the same text over the bit pattern of a
-- `__s32`.
unfoldable pub reversebytes_uint32t : ℕ → ℕ
reversebytes_uint32t value =
    bit_or
      (bit_or
        (bit_or (bit_and value 0x0000_00ff * 2 ^ 24 % 2 ^ 32)
          (bit_and value 0x0000_ff00 * 2 ^ 8 % 2 ^ 32))
        (bit_and value 0x00ff_0000 / 2 ^ 8))
      (bit_and value 0xff00_0000 / 2 ^ 24)

unfoldable pub reversebytes_uint64t : ℕ → ℕ
reversebytes_uint64t value =
    let low = bit_and value 0x0000_0000_ffff_ffff in
    let high = bit_and value 0xffff_ffff_0000_0000 / 2 ^ 32 in
    let low_32 = reversebytes_uint32t (low % 2 ^ 32) in
    let high_32 = reversebytes_uint32t (high % 2 ^ 32) in bit_or (low_32 * 2 ^ 32 % 2 ^ 64) high_32

-- The bytes of a number, highest first: the memory of the access point (big endian).
unfoldable pub be16 : ℕ → List ℕ
be16 v = v / 2 ^ 8 % 256 ∷ v % 256 ∷ []

unfoldable pub be32 : ℕ → List ℕ
be32 v = v / 2 ^ 24 % 256 ∷ v / 2 ^ 16 % 256 ∷ v / 2 ^ 8 % 256 ∷ v % 256 ∷ []

unfoldable pub be64 : ℕ → List ℕ
unfolding be32
be64 v = be32 (v / 2 ^ 32) ++ be32 (v % 2 ^ 32)

-- `memcpy` of a `__u16`, `__u32` or `__u64` out of a buffer at an offset, on the collector (little
-- endian). A byte past the end of the list reads as 0.
unfoldable pub load16 : List ℕ → ℕ → ℕ
load16 b i = get_or b i 0 + get_or b (i + 1) 0 * 2 ^ 8

unfoldable pub load32 : List ℕ → ℕ → ℕ
load32 b i =
    get_or b i 0
    + get_or b (i + 1) 0 * 2 ^ 8
    + get_or b (i + 2) 0 * 2 ^ 16
    + get_or b (i + 3) 0 * 2 ^ 24

unfoldable pub load64 : List ℕ → ℕ → ℕ
unfolding load32
load64 b i = load32 b i + load32 b (i + 4) * 2 ^ 32
