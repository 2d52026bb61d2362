-- ===== src/Sender/Buffer.antt =====
-- sendudp/sendudp.c: the buffer in which messages wait until a datagram is full.
pub mod Framing
use controller_project.Base.{
  ℕ, ◌+◌, List, [], ◌∷◌, ◌++◌, length, take, replicate, blit, leb, if◌then◌else◌,
}

-- `public_buffer` has `B_S` bytes, the datagram of `send_the_buffer` `SEND_SIZE`.
abbrev pub b_s : ℕ
b_s = 1024

-- A buffer after `memset(…, 0, 1024)`.
unfoldable pub cleared : List ℕ
cleared = replicate b_s 0

-- `public_buffer`, `write_begin`, and the datagrams handed to `kernel_sendmsg` so far, oldest
-- first. The result of `kernel_sendmsg` decides only what is logged.
pub record Out : Type 0 where
  pub public_buffer : List ℕ
  pub write_begin : ℕ
  pub sent : List (List ℕ)

-- `send_the_buffer`: the datagram is copied out of the public buffer, sent with `write_begin`
-- bytes, and the buffer is cleared.
pub send_the_buffer : Out → Out
send_the_buffer o = record {
  public_buffer = cleared;
  write_begin = 0;
  sent = o.sent ++ take o.write_begin (blit cleared 0 (take o.write_begin o.public_buffer)) ∷ [];
}

-- `memcpy(public_buffer + write_begin, data, length)` and the new `write_begin`.
put : Out → List ℕ → Out
put o bytes = record o {
  public_buffer = blit o.public_buffer o.write_begin bytes;
  write_begin = o.write_begin + length bytes;
}

pub write_2_public_buffer : Out → List ℕ → Out
unfolding put
write_2_public_buffer o bytes =
    if leb (o.write_begin + length bytes) b_s then put o bytes else put (send_the_buffer o) bytes

-- `write_begin = 0; memset(&public_buffer, 0, B_S)` when the module is loaded.
unfoldable pub init : Out
init = record { public_buffer = cleared; write_begin = 0; sent = [] }
