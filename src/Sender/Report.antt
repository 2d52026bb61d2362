-- ===== src/Sender/Report.antt =====
-- sendudp/sendudp.c: the answer of `recv_cb` to a request `states`, rates over the ring of states.
-- Multiplications and subtractions wrap in the type that C gives them; a negative divisor is
-- converted to an unsigned one.
pub mod Rates
use controller_project.Base.{
  ℕ, zero, suc, ◌+◌, ◌-◌, ◌*◌, ◌/◌, ◌%◌, ◌^◌, Bool, ◌||◌, Option, none, some, ltb, ◌==◌,
  if◌then◌else◌,
}
use controller_project.Sender.Collect.{apsl, ApStates, Collector}

-- The difference of two numbers of `w` bits, as a bit pattern.
abbrev pub sub_bits : ℕ → ℕ → ℕ → ℕ
sub_bits w a b = (a + 2 ^ w - b) % 2 ^ w

-- `(int) a - (int) b` of the low 32 bits.
abbrev pub int_sub : ℕ → ℕ → ℕ
int_sub a b = sub_bits 32 (a % 2 ^ 32) (b % 2 ^ 32)

-- `x / 1000` for an `int`, which truncates towards zero.
unfoldable pub int_div1000 : ℕ → ℕ
int_div1000 x = if ltb x (2 ^ 31) then x / 1000 else (2 ^ 32 - (2 ^ 32 - x) / 1000) % 2 ^ 32

-- An `int` as an operand of `__u64`.
unfoldable pub sign_extend : ℕ → ℕ
sign_extend x = if ltb x (2 ^ 31) then x else x + 2 ^ 64 - 2 ^ 32

abbrev pub times : ℕ
times = 1000000

-- The milliseconds between two states by their clocks.
unfoldable pub duration : ApStates → ApStates → ℕ
unfolding int_div1000
duration tmp1 tmp2 =
    (int_sub tmp2.sec tmp1.sec * 1000 + int_div1000 (int_sub tmp2.usec tmp1.usec)) % 2 ^ 32

-- The milliseconds by the driver's clock.
abbrev pub dur_sur : ApStates → ApStates → ℕ
dur_sur tmp1 tmp2 = int_sub tmp2.time tmp1.time

-- `(times * (b - a)) / d` for `__u32` and for `__u64` counters.
unfoldable pub rate32 : ℕ → ℕ → ℕ → ℕ
rate32 a b d = times * sub_bits 32 b a % 2 ^ 32 / d

unfoldable pub rate64 : ℕ → ℕ → ℕ → ℕ
unfolding sign_extend
rate64 a b d = times * sub_bits 64 b a % 2 ^ 64 / sign_extend d

-- `q3maxqlen`, `qfmaxqlen`, `q3maxbacklog`, `qfmaxbacklog`.
pub record Longest : Type 0 where
  pub q3maxqlen : ℕ
  pub q3maxbacklog : ℕ
  pub qfmaxqlen : ℕ
  pub qfmaxbacklog : ℕ

-- The body of the loop over the ring.
unfoldable pub longer : ApStates → Longest → Longest
longer x l = record {
  q3maxqlen = if ltb l.q3maxbacklog x.q3backlog then x.q3qlen else l.q3maxqlen;
  q3maxbacklog = if ltb l.q3maxbacklog x.q3backlog then x.q3backlog else l.q3maxbacklog;
  qfmaxqlen = if ltb l.qfmaxbacklog x.qfbacklog then x.qfqlen else l.qfmaxqlen;
  qfmaxbacklog = if ltb l.qfmaxbacklog x.qfbacklog then x.qfbacklog else l.qfmaxbacklog;
}

-- The loop over `k`, the rounds below `n`; the index is `k % APSL`, whatever the tail.
unfoldable pub longest : (ℕ → ApStates) → ℕ → Longest
unfolding longer
longest ring zero = record { q3maxqlen = 0; q3maxbacklog = 0; qfmaxqlen = 0; qfmaxbacklog = 0 }
longest ring (suc n) = longer (ring (n % apsl)) (longest ring n)

-- The answer, or `none` for the text `nonedata`. The members that the code does not set are those
-- of the newest state here; in the code they are what the stack holds.
unfoldable pub report : Collector → Option ApStates
unfolding duration rate32 rate64 longest
report c =
    let tmp1 = c.apstates_global c.aps_tail in
    let tmp2 = c.apstates_global ((c.aps_head + apsl - 1) % apsl) in
    let l = longest c.apstates_global ((c.aps_head + apsl - c.aps_tail) % apsl) in
    let d = duration tmp1 tmp2 in
    let s = dur_sur tmp1 tmp2 in
    if (d == 0) || (s == 0)
    then none
    else some (record tmp2 {
      drop_count = rate32 tmp1.drop_count tmp2.drop_count d;
      time_busy = rate64 tmp1.time_busy tmp2.time_busy s;
      time_ext_busy = rate64 tmp1.time_ext_busy tmp2.time_ext_busy s;
      time_rx = rate64 tmp1.time_rx tmp2.time_rx s;
      time_tx = rate64 tmp1.time_tx tmp2.time_tx s;
      time_scan = rate64 tmp1.time_scan tmp2.time_scan s;
      q3packets = rate32 tmp1.q3packets tmp2.q3packets d;
      q3bytes = rate64 tmp1.q3bytes tmp2.q3bytes d;
      q3qlen = l.q3maxqlen;
      q3backlog = l.q3maxbacklog;
      q3drops = rate32 tmp1.q3drops tmp2.q3drops d;
      q3requeues = rate32 tmp1.q3requeues tmp2.q3requeues d;
      q3overlimits = rate32 tmp1.q3overlimits tmp2.q3overlimits d;
      qfpackets = rate32 tmp1.qfpackets tmp2.qfpackets d;
      qfbytes = rate64 tmp1.qfbytes tmp2.qfbytes d;
      qfqlen = l.qfmaxqlen;
      qfbacklog = l.qfmaxbacklog;
      qfdrops = rate32 tmp1.qfdrops tmp2.qfdrops d;
      qfrequeues = rate32 tmp1.qfrequeues tmp2.qfrequeues d;
      qfoverlimits = rate32 tmp1.qfoverlimits tmp2.qfoverlimits d;
    })
