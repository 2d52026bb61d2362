-- ===== src/Datapath/Handle.antt =====
-- The branch of `key_extract` for a TCP packet (project/flow.c). The clock and the address of `br0`
-- are arguments.
use controller_project.Base.{
  ℕ, ◌+◌, ◌-◌, ◌*◌, ◌%◌, ◌^◌, List, ◌++◌, Bool, not, ◌||◌, length, get_or, ltb, leb, ◌==◌,
  if◌then◌else◌,
}
use controller_project.Wire.{be16}
use controller_project.Records.{Mac, mac_bytes, Category, category_code, DataWinsize, winsize_bytes}
use controller_project.Sender.Buffer.{b_s, Out, write_2_public_buffer}
use controller_project.Datapath.{zero_mac, Packet, Clock}
use controller_project.Datapath.Options.{hangs, scale, read_scale}
use controller_project.Datapath.Table.{Flows, track}

-- `wz_linger`; `d_len` is an `int`.
unfoldable pub to_winsize : Packet → Clock → List ℕ → DataWinsize
to_winsize p now w = record {
  ip_src = p.ip_src;
  ip_dst = p.ip_dst;
  sourceaddr = p.source;
  destination = p.dest;
  sequence = p.seq;
  ack_sequence = p.ack_seq;
  flags = p.flags;
  windowsize = p.window;
  sec = now.sec;
  usec = now.usec;
  datalength = (p.tot_len + 2 ^ 32 - (p.doff + p.ihl) * 4) % 2 ^ 32;
  wscale0 = get_or w 0 0;
  wscale1 = get_or w 1 0;
  wscale2 = get_or w 2 0;
}

-- The table, the buffer, and whether `sock_global` is set. A buffer that is sent sets it, and
-- `mac_global` with it; that the socket can be made is taken for granted.
pub record State : Type 0 where
  pub flows : Flows
  pub out : Out
  pub connected : Bool

-- `struct winsize_t`
unfoldable pub message : Mac → Bool → DataWinsize → List ℕ
unfolding be16 winsize_bytes
message br0 connected w =
    be16 (category_code Category.winsize)
    ++ (mac_bytes (if connected then br0 else zero_mac) ++ winsize_bytes w)

unfoldable pub report : Mac → State → Flows → DataWinsize → State
unfolding message
report br0 s flows w =
    let m = message br0 s.connected w in
    record {
      flows = flows;
      out = write_2_public_buffer s.out m;
      connected = s.connected || not (leb (s.out.write_begin + length m) b_s);
    }

-- Whether the packet belongs to the port of the measurement itself.
abbrev pub skipped : Packet → Bool
skipped p = (p.source == 64793) || (p.dest == 64793)

-- `(__u16) wz_linger.wscale[2]`, of a signed `char`.
abbrev pub char16 : ℕ → ℕ
char16 c = if ltb c 128 then c else c + 2 ^ 16 - 256

-- The branch of `key_extract` for a TCP packet. `garbage` is what the stack holds in place of
-- `wz_linger`, which is sent for a skipped packet; the result is `hung` when the loop over the
-- options has not ended.
pub data Handled : Type 0 where
  hung : Handled
  handled : State → Handled

unfoldable pub handle_tcp : ℕ → Mac → DataWinsize → State → Packet → Clock → Clock → Handled
unfolding read_scale track report to_winsize
handle_tcp fuel br0 garbage s p now later =
    if skipped p then Handled.handled (report br0 s s.flows garbage) else elim (read_scale fuel p) [
      | hangs ↦ Handled.hung
      | scale w ↦
          Handled.handled
            (report br0 s (track s.flows p now later (char16 (get_or w 2 0))) (to_winsize p now w))
    ]
