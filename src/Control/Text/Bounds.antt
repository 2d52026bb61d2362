-- ===== src/Control/Text/Bounds.antt =====
-- The texts of createtree.c fit into their arrays.
use controller_project.Base.{
  ℕ, zero, suc, ◌+◌, ◌-◌, ◌/◌, ◌%◌, ◌^◌, ◌≤◌, ◌<◌, ◌≡◌, refl, ap, List, [], ◌∷◌, ◌++◌, some, length,
  take, length-append, lt→ltb, arith,
}
use controller_project.Wire.{reversebytes_uint16t}
use controller_project.Control.Text.{
  TcpFlow, codes, digits, print_u, print_d, copy, dotted, byte0, byte1, byte2, byte3, dotted_low,
  dotted_high, command_text, set_cwnd,
}

length-digits : (fuel n : ℕ) → length (digits fuel n) ≤ fuel
unfolding digits
length-digits zero n = omega arith
length-digits (suc fuel) n =
    ground (
      arith,
      length-digits fuel (n / 10),
      length-append (digits fuel (n / 10)) ((n % 10 + 48) ∷ []),
    )

-- The first digits of a number with at most three.
length-print_u_byte : (n : ℕ) → n < 256 → length (print_u n) ≤ 3
unfolding print_u digits
length-print_u_byte n h = ground arith

length-print_d_port : (n : ℕ) → n < 2 ^ 16 → length (print_d n) ≤ 5
unfolding print_d print_u digits
length-print_d_port n h = ground arith

length-print_d : (n : ℕ) → length (print_d n) ≤ 11
unfolding print_d print_u
length-print_d n = ground (arith, length-digits 10 n, length-digits 10 (2 ^ 32 - n))

length-dotted : (a b c d : ℕ) → a < 256 → b < 256 → c < 256 → d < 256 → length (dotted a b c d) ≤ 15
unfolding dotted
length-dotted a b c d ha hb hc hd =
    let cd = length-append (print_u c) (46 ∷ print_u d) in
    let bcd = length-append (print_u b) (46 ∷ (print_u c ++ (46 ∷ print_u d))) in
    let all =
      length-append (print_u a) (46 ∷ (print_u b ++ (46 ∷ (print_u c ++ (46 ∷ print_u d))))) in
    omega (
      arith,
      cd,
      bcd,
      all,
      length-print_u_byte a ha,
      length-print_u_byte b hb,
      length-print_u_byte c hc,
      length-print_u_byte d hd,
    )

pub copy-fits : (size : ℕ) (s : List ℕ) → length s < size → copy size s ≡ some s
unfolding copy
copy-fits size s h = rw (lt→ltb (length s) size h) refl

-- The text of an address, from the byte at the lowest place on, and from that at the highest.
abbrev pub low : ℕ → List ℕ
low ip = dotted (byte0 ip) (byte1 ip) (byte2 ip) (byte3 ip)

abbrev pub high : ℕ → List ℕ
high ip = dotted (byte3 ip) (byte2 ip) (byte1 ip) (byte0 ip)

pub length-low : (ip : ℕ) → length (low ip) ≤ 15
length-low ip =
    length-dotted (byte0 ip) (byte1 ip) (byte2 ip) (byte3 ip) (omega arith) (omega arith)
      (omega arith) (omega arith)

pub length-high : (ip : ℕ) → length (high ip) ≤ 15
length-high ip =
    length-dotted (byte3 ip) (byte2 ip) (byte1 ip) (byte0 ip) (omega arith) (omega arith)
      (omega arith) (omega arith)

dotted_low_lem : (ip : ℕ) → dotted_low ip ≡ some (low ip)
unfolding dotted_low
dotted_low_lem ip = copy-fits 20 (low ip) (omega (arith, length-low ip))

pub dotted_high_lem : (ip : ℕ) → dotted_high ip ≡ some (high ip)
unfolding dotted_high
dotted_high_lem ip = copy-fits 20 (high ip) (omega (arith, length-high ip))

reversed_lt : (v : ℕ) → reversebytes_uint16t v < 2 ^ 16
unfolding reversebytes_uint16t
reversed_lt v = omega arith

length-command_text :
    (src dst : List ℕ) (sport dport window : ℕ)
    → length src ≤ 15
    → length dst ≤ 15
    → sport < 2 ^ 16
    → dport < 2 ^ 16
    → length (command_text src dst sport dport window) ≤ 149
unfolding command_text
length-command_text src dst sport dport window h k s d =
    let t4 = codes ",actions=mod_tp_dst:" ++ print_d window in
    let t3 = codes ",tcp_dst=" ++ (print_d dport ++ t4) in
    let t2 = codes ",tcp_src=" ++ (print_d sport ++ t3) in
    let t1 = codes ",nw_dst=" ++ (dst ++ t2) in
    omega (
      arith,
      length-append src t1,
      length-append dst t2,
      length-append (print_d sport) t3,
      length-append (print_d dport) t4,
      length-print_d_port sport s,
      length-print_d_port dport d,
      length-print_d window,
    )

take-all : (n : ℕ) (xs : List ℕ) → length xs ≤ n → take n xs ≡ xs
take-all zero [] h = refl
take-all zero (x ∷ xs) h = absurd (omega arith)
take-all (suc n) [] h = refl
take-all (suc n) (x ∷ xs) h = ap (◌∷◌ x) (take-all n xs (omega arith))

-- The command for a flow: its ports are swapped.
abbrev pub command_for : TcpFlow → ℕ → List ℕ
command_for f window =
    command_text (low f.ip_src) (low f.ip_dst) (reversebytes_uint16t f.sourceaddr)
      (reversebytes_uint16t f.destination) window

-- No address and no command is too long for its array, and the command is not cut off.
pub set_cwnd_fits : (f : TcpFlow) (window : ℕ) → set_cwnd f 200 window ≡ some (command_for f window)
unfolding set_cwnd command_text
set_cwnd_fits f window =
    let l =
      length-command_text (low f.ip_src) (low f.ip_dst) (reversebytes_uint16t f.sourceaddr)
        (reversebytes_uint16t f.destination) window (length-low f.ip_src) (length-low f.ip_dst)
        (reversed_lt f.sourceaddr) (reversed_lt f.destination) in
    rw
      (
        set_cwnd,
        dotted_low_lem f.ip_src,
        dotted_low_lem f.ip_dst,
        copy-fits 200 (command_for f window) (omega (arith, l)),
        take-all 200 (command_for f window) (omega (arith, l)),
      )
      refl
