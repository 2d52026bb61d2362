-- ===== src/Datapath/Options/Endings.antt =====
-- The loop over the TCP options in `key_extract` (project/flow.c).
use controller_project.Base.{
  ℕ, zero, suc, ◌+◌, ◌-◌, ◌*◌, ◌≤◌, ◌<◌, ◌≡◌, refl, sym, ap, ap₂, subst, ◌∙◌, List, [], ◌∷◌, ◌++◌,
  length, get_or, false, true, ◌==◌, length-append, append_assoc, lt→ltb, le→ltb, arith,
}
use controller_project.Datapath.{Packet}
use controller_project.Datapath.Options.{
  Scan, running, stopped, scan, scale_at, Scale, hangs, scale, read_scale,
}

-- An option in front of the window scale: a filler byte, or a kind with a length byte and data.
pub data Opt : Type 0 where
  nop : Opt
  other : ℕ → List ℕ → Opt

abbrev pub bytes : List Opt → List ℕ
bytes [] = []
bytes (nop ∷ os) = 1 ∷ bytes os
bytes (other k d ∷ os) = k ∷ (length d + 2) ∷ (d ++ bytes os)

abbrev pub Other : Opt → Type 0
Other nop = Unit {0}
Other (other k d) = ((k == 3) ≡ false) × ((k == 1) ≡ false)

abbrev pub AllOther : List Opt → Type 0
AllOther [] = Unit {0}
AllOther (o ∷ os) = Other o × AllOther os

-- What stands behind them: the window scale with its value, an option whose length byte is zero
-- (the padding `0 0` is one), or the last two bytes of the options.
pub data Ending : Type 0 where
  window_scale : ℕ → Ending
  no_length : ℕ → Ending
  last_two : ℕ → ℕ → Ending

abbrev pub ending_bytes : Ending → List ℕ
ending_bytes (window_scale s) = 3 ∷ 3 ∷ s ∷ []
ending_bytes (no_length k) = k ∷ 0 ∷ []
ending_bytes (last_two a b) = a ∷ b ∷ []

-- `off` is where the ending starts.
abbrev pub Ends : Ending → ℕ → ℕ → Type 0
Ends (window_scale s) off opt_len = off + 2 < opt_len
Ends (no_length k) off opt_len = (off + 2 < opt_len) × ((k == 3) ≡ false) × ((k == 1) ≡ false)
Ends (last_two a b) off opt_len = (off + 2 ≡ opt_len) × ((a == 3) ≡ false)

-- The loop never ends at a length of zero.
abbrev pub result : Ending → ℕ → Scan
result (window_scale s) off = stopped off
result (no_length k) off = running
result (last_two a b) off = stopped off

get_or-length : (pre rest : List ℕ) (x d : ℕ) → get_or (pre ++ x ∷ rest) (length pre) d ≡ x
get_or-length [] rest x d = refl
get_or-length (y ∷ pre) rest x d = get_or-length pre rest x d

get_or-length_suc :
    (pre rest : List ℕ) (x y d : ℕ) → get_or (pre ++ x ∷ y ∷ rest) (length pre + 1) d ≡ y
get_or-length_suc pre rest x y d =
    let e : length pre + 1 ≡ length (pre ++ x ∷ []) = omega (arith, length-append pre (x ∷ [])) in
    rw (e, ← append_assoc pre (x ∷ []) (y ∷ rest)) (get_or-length (pre ++ x ∷ []) rest y d)

module _ (opt_len : ℕ) (opt : List ℕ) where
  scan_three : (fuel off : ℕ) → get_or opt off 0 ≡ 3 → scan (suc fuel) opt opt_len off ≡ stopped off
  unfolding scan
  scan_three fuel off e = rw e refl

  scan_short :
      (fuel off k : ℕ)
      → get_or opt off 0 ≡ k
      → (k == 3) ≡ false
      → off + 2 ≡ opt_len
      → scan (suc fuel) opt opt_len off ≡ stopped off
  unfolding scan
  scan_short fuel off k e n h = rw (e, n, le→ltb (off + 2) opt_len (omega arith)) refl

  scan_nop :
      (fuel off : ℕ)
      → get_or opt off 0 ≡ 1
      → off + 2 < opt_len
      → scan (suc fuel) opt opt_len off ≡ scan fuel opt opt_len (off + 1)
  unfolding scan
  scan_nop fuel off e h = rw (e, lt→ltb (off + 2) opt_len h) refl

  scan_over :
      (fuel off k l : ℕ)
      → get_or opt off 0 ≡ k
      → get_or opt (off + 1) 0 ≡ l
      → off + 2 < opt_len
      → (k == 3) ≡ false
      → (k == 1) ≡ false
      → scan (suc fuel) opt opt_len off ≡ scan fuel opt opt_len (off + l)
  unfolding scan
  scan_over fuel off k l e f h n m = rw (e, n, lt→ltb (off + 2) opt_len h, m, f) refl

  scan_stays :
      (fuel off k : ℕ)
      → get_or opt off 0 ≡ k
      → get_or opt (off + 1) 0 ≡ 0
      → off + 2 < opt_len
      → (k == 3) ≡ false
      → (k == 1) ≡ false
      → scan fuel opt opt_len off ≡ running
  scan_stays zero off k e f h n m = unfold scan in refl
  scan_stays (suc fuel) off k e f h n m =
      let same : off + 0 ≡ off = omega arith in
      scan_over fuel off k 0 e f h n m
      ∙ ap (scan fuel opt opt_len) same
      ∙ scan_stays fuel off k e f h n m

Ends-le : (e : Ending) (end opt_len : ℕ) → Ends e end opt_len → end + 2 ≤ opt_len
Ends-le (window_scale s) end opt_len h = omega arith
Ends-le (no_length k) end opt_len h = omega (arith, h.0)
Ends-le (last_two a b) end opt_len h = omega (arith, h.0)

scan-ending :
    (e : Ending) (pre rest : List ℕ) (fuel opt_len : ℕ)
    → Ends e (length pre) opt_len
    → scan (suc fuel) (pre ++ (ending_bytes e ++ rest)) opt_len (length pre) ≡ result e (length pre)
scan-ending (window_scale s) pre rest fuel opt_len h =
    scan_three opt_len (pre ++ 3 ∷ 3 ∷ s ∷ rest) fuel (length pre)
      (get_or-length pre (3 ∷ s ∷ rest) 3 0)
scan-ending (no_length k) pre rest fuel opt_len h =
    scan_stays opt_len (pre ++ k ∷ 0 ∷ rest) (suc fuel) (length pre) k
      (get_or-length pre (0 ∷ rest) k 0) (get_or-length_suc pre rest k 0 0) h.0 h.1 h.2
scan-ending (last_two a b) pre rest fuel opt_len h =
    scan_short opt_len (pre ++ a ∷ b ∷ rest) fuel (length pre) a (get_or-length pre (b ∷ rest) a 0)
      h.1 h.0

scan-bytes :
    (os : List Opt) (e : Ending) (pre rest : List ℕ) (fuel opt_len end : ℕ)
    → AllOther os
    → end ≡ length pre + length (bytes os)
    → Ends e end opt_len
    → length os < fuel
    → scan fuel (pre ++ (bytes os ++ (ending_bytes e ++ rest))) opt_len (length pre) ≡ result e end
scan-bytes os e pre rest zero opt_len end a q h k = absurd (omega arith)
scan-bytes [] e pre rest (suc fuel) opt_len end a q h k =
    let same : end ≡ length pre = omega arith in
    scan-ending e pre rest fuel opt_len (subst (λ n. Ends e n opt_len) same h)
    ∙ ap (result e) (sym same)
scan-bytes (nop ∷ os) e pre rest (suc fuel) opt_len end a q h k =
    let more = bytes os ++ (ending_bytes e ++ rest) in
    let opt = pre ++ 1 ∷ more in
    let l = length-append pre (1 ∷ []) in
    scan_nop opt_len opt fuel (length pre) (get_or-length pre more 1 0)
      (omega (arith, Ends-le e end opt_len h))
    ∙ ap₂ (λ o n. scan fuel o opt_len n) (sym (append_assoc pre (1 ∷ []) more)) (sym l)
    ∙ scan-bytes os e (pre ++ 1 ∷ []) rest fuel opt_len end a.1 (omega arith) h (omega arith)
scan-bytes (other c d ∷ os) e pre rest (suc fuel) opt_len end a q h k =
    let more = bytes os ++ (ending_bytes e ++ rest) in
    let head = c ∷ (length d + 2) ∷ d in
    let tail = d ++ more in
    let l = length-append pre head in
    let inner = append_assoc d (bytes os) (ending_bytes e ++ rest) in
    let ld = length-append d (bytes os) in
    ap (λ t. scan (suc fuel) (pre ++ c ∷ (length d + 2) ∷ t) opt_len (length pre)) inner
    ∙ scan_over opt_len (pre ++ c ∷ (length d + 2) ∷ tail) fuel (length pre) c (length d + 2)
        (get_or-length pre ((length d + 2) ∷ tail) c 0)
        (get_or-length_suc pre tail c (length d + 2) 0) (omega (arith, Ends-le e end opt_len h))
        a.0.0 a.0.1
    ∙ ap₂ (λ o n. scan fuel o opt_len n) (sym (append_assoc pre head more)) (omega arith)
    ∙ scan-bytes os e (pre ++ head) rest fuel opt_len end a.1 (omega arith) h (omega arith)

-- What `read_scale` makes of the options.
abbrev pub meaning : Ending → Scale
meaning (window_scale s) = scale (3 ∷ 3 ∷ s ∷ [])
meaning (no_length k) = hangs
meaning (last_two a b) = scale (0 ∷ 0 ∷ 0 ∷ [])

get_or-third :
    (pre rest : List ℕ) (x y z d : ℕ) → get_or (pre ++ x ∷ y ∷ z ∷ rest) (length pre + 2) d ≡ z
get_or-third pre rest x y z d =
    let e : length pre + 2 ≡ length (pre ++ x ∷ []) + 1 =
      omega (arith, length-append pre (x ∷ [])) in
    rw (e, ← append_assoc pre (x ∷ []) (y ∷ z ∷ rest))
      (get_or-length_suc (pre ++ x ∷ []) rest y z d)

read_ending : Ending → List ℕ → ℕ → Scale
read_ending (no_length k) opt off = hangs
read_ending e opt off = scale (scale_at opt off)

read_ending-meaning :
    (e : Ending) (pre rest : List ℕ) (opt_len : ℕ)
    → Ends e (length pre) opt_len
    → read_ending e (pre ++ (ending_bytes e ++ rest)) (length pre) ≡ meaning e
unfolding read_ending scale_at
read_ending-meaning (window_scale s) pre rest opt_len h =
    rw
      (
        get_or-length pre (3 ∷ s ∷ rest) 3 0,
        get_or-length_suc pre (s ∷ rest) 3 3 0,
        get_or-third pre rest 3 3 s 0,
      )
      refl
read_ending-meaning (no_length k) pre rest opt_len h = refl
read_ending-meaning (last_two a b) pre rest opt_len h =
    rw (get_or-length pre (b ∷ rest) a 0, h.1) refl

read_scale-scan :
    (e : Ending) (fuel : ℕ) (p : Packet) (off : ℕ)
    → p.syn ≡ true
    → scan fuel p.options (p.doff * 4 - 20) 0 ≡ result e off
    → read_scale fuel p ≡ read_ending e p.options off
unfolding read_scale read_ending
read_scale-scan (window_scale s) fuel p off y h = rw (read_scale, y, h) refl
read_scale-scan (no_length k) fuel p off y h = rw (read_scale, y, h) refl
read_scale-scan (last_two a b) fuel p off y h = rw (read_scale, y, h) refl

-- In a SYN packet whose options are any filler bytes and other options and then an ending, the loop
-- finds the window scale with its value, or stops with none at the last two bytes, after one round
-- more than there are options; at an option with the length zero it runs on for ever.
pub read_scale_lem :
    (p : Packet) (os : List Opt) (e : Ending) (rest : List ℕ) (fuel : ℕ)
    → p.syn ≡ true
    → p.options ≡ bytes os ++ (ending_bytes e ++ rest)
    → AllOther os
    → Ends e (length (bytes os)) (p.doff * 4 - 20)
    → length os < fuel
    → read_scale fuel p ≡ meaning e
read_scale_lem p os e rest fuel y o a h k =
    let opt_len = p.doff * 4 - 20 in
    let off = length (bytes os) in
    read_scale-scan e fuel p off y
      (rw o (scan-bytes os e [] rest fuel opt_len off a (omega arith) h k))
    ∙ rw o (read_ending-meaning e (bytes os) rest opt_len h)
