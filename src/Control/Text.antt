-- ===== src/Control/Text.antt =====
-- The texts of createtree.c: `sprintf` of addresses and numbers, and `set_cwnd`, the command for the
-- switch. The memory is that of the access point (big endian).
pub mod Bounds
use Prim.Native.Char.{code}
use Prim.Native.String.{String}
use controller_project.Base.{
  ℕ, zero, suc, ◌+◌, ◌-◌, ◌/◌, ◌%◌, ◌^◌, List, [], ◌∷◌, ◌++◌, Option, none, some, length, take, ltb,
  if◌then◌else◌,
}
use controller_project.Wire.{reversebytes_uint16t}

-- `struct tcp_flow` of createtree.c
pub record TcpFlow : Type 0 where
  pub ip_src : ℕ
  pub ip_dst : ℕ
  pub sourceaddr : ℕ
  pub destination : ℕ
  pub winsize : ℕ
  pub sec : ℕ
  pub usec : ℕ
  pub packets : ℕ

-- The characters of a literal.
abbrev pub codes : String → List ℕ
codes String.[] = []
codes (String.◌∷◌ c s) = code c ∷ codes s

-- The decimal digits of a number below `10 ^ fuel`.
unfoldable pub digits : ℕ → ℕ → List ℕ
digits zero n = []
digits (suc fuel) n =
    let rest = digits fuel (n / 10) in
    if ltb n 10 then (n + 48) ∷ [] else rest ++ (n % 10 + 48) ∷ []

-- `%u` of 32 bits, and `%d` of an `int` by its bit pattern.
unfoldable pub print_u : ℕ → List ℕ
unfolding digits
print_u n = digits 10 n

unfoldable pub print_d : ℕ → List ℕ
unfolding print_u
print_d n = if ltb n (2 ^ 31) then print_u n else 45 ∷ print_u (2 ^ 32 - n)

-- A text with its closing `0` in an array of `size` characters; `none` is a write out of bounds.
unfoldable pub copy : ℕ → List ℕ → Option (List ℕ)
copy size s = if ltb (length s) size then some s else none

-- `"%u.%u.%u.%u"`
unfoldable pub dotted : ℕ → ℕ → ℕ → ℕ → List ℕ
unfolding print_u
dotted a b c d = print_u a ++ (46 ∷ (print_u b ++ (46 ∷ (print_u c ++ (46 ∷ print_u d)))))

-- The byte `ptr_uc[i]` of an address.
abbrev pub byte0 : ℕ → ℕ
byte0 ip = ip / 2 ^ 24 % 256

abbrev pub byte1 : ℕ → ℕ
byte1 ip = ip / 2 ^ 16 % 256

abbrev pub byte2 : ℕ → ℕ
byte2 ip = ip / 2 ^ 8 % 256

abbrev pub byte3 : ℕ → ℕ
byte3 ip = ip % 256

-- `sprintf` into `char ip_src[20]`, from the byte at the lowest place on in `set_cwnd`, from that at
-- the highest one on in `main_linger`.
unfoldable pub dotted_low : ℕ → Option (List ℕ)
unfolding dotted copy
dotted_low ip = copy 20 (dotted (byte0 ip) (byte1 ip) (byte2 ip) (byte3 ip))

unfoldable pub dotted_high : ℕ → Option (List ℕ)
unfolding dotted copy
dotted_high ip = copy 20 (dotted (byte3 ip) (byte2 ip) (byte1 ip) (byte0 ip))

-- The format of `set_cwnd`, with `nw_dst` twice as in the source.
unfoldable pub command_text : List ℕ → List ℕ → ℕ → ℕ → ℕ → List ℕ
unfolding print_d
command_text ip_src ip_dst sourceaddr destination window =
    codes "ovs-ofctl add-flow br0 -O openflow13 tcp,nw_dst="
    ++ (ip_src
        ++ (codes ",nw_dst="
            ++ (ip_dst
                ++ (codes ",tcp_src="
                    ++ (print_d sourceaddr
                        ++ (codes ",tcp_dst="
                            ++ (print_d destination
                                ++ (codes ",actions=mod_tp_dst:" ++ print_d window))))))))

-- What `set_cwnd` leaves in `ret`: `sprintf` into `char buff[200]`, then `strncpy` of `size`
-- characters. The ports are swapped in the flow itself, which the caller does not use again but to
-- print.
unfoldable pub set_cwnd : TcpFlow → ℕ → ℕ → Option (List ℕ)
unfolding dotted_low command_text copy
set_cwnd tflow size window = elim (dotted_low tflow.ip_src) [
  | none ↦ none
  | some ip_src ↦ elim (dotted_low tflow.ip_dst) [
    | none ↦ none
    | some ip_dst ↦
        elim (copy 200 (
          command_text ip_src ip_dst (reversebytes_uint16t tflow.sourceaddr)
            (reversebytes_uint16t tflow.destination) window)) [
              | none ↦ none
              | some buff ↦ some (take size buff)
            ]
  ]
]
