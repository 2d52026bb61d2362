-- ===== src/Receiver/Pool.antt =====
-- EXP/receive.c: the ring of datagrams between `receive`, `receive1` (the two sockets) and
-- `g_mes_tn_process`. All three change it under `mutex_pool`, so each body is one step.
pub mod Fifo
use controller_project.Base.{
  ℕ, zero, suc, ◌+◌, ◌-◌, ◌%◌, List, [], ◌∷◌, ◌&&◌, Option, none, some, get_or, leb, ltb,
  if◌then◌else◌,
}

abbrev pub send_size : ℕ
send_size = 1024

abbrev pub pool_size : ℕ
pool_size = 10240000

-- `buffer_pool` is its contents by index.
pub record Pool : Type 0 where
  pub buffer_pool : ℕ → ℕ
  pub tail : ℕ
  pub head : ℕ

unfoldable pub tabulate {ℓ} : {A : Type ℓ} → ℕ → (ℕ → A) → List A
tabulate zero f = []
tabulate (suc n) f = f 0 ∷ tabulate n (λ k. f (suc k))

-- `memset(message, 0, SEND_SIZE)` before `recvfrom` fills its beginning.
unfoldable pub padded : List ℕ → List ℕ
unfolding tabulate
padded message = tabulate send_size (λ k. get_or message k 0)

-- `memcpy(buffer_pool + tail, message, SEND_SIZE)`
unfoldable pub store : (ℕ → ℕ) → ℕ → List ℕ → ℕ → ℕ
store pool tail message a =
    if leb tail a && ltb a (tail + send_size) then get_or message (a - tail) 0 else pool a

-- `memcpy(buffer, buffer_pool + head, SEND_SIZE)`
unfoldable pub fetch : (ℕ → ℕ) → ℕ → List ℕ
unfolding tabulate
fetch pool head = tabulate send_size (λ k. pool (head + k))

-- One round of `receive` or `receive1`; `none` is a `recvfrom` that returned no data.
pub receive : Pool → Option (List ℕ) → Pool
receive p none = p
receive p (some message) = record p {
  buffer_pool = store p.buffer_pool p.tail message;
  tail = (p.tail + send_size) % pool_size;
}

abbrev pub ulen : Pool → ℕ
ulen p = (p.tail + pool_size - p.head) % pool_size

-- One round of `g_mes_tn_process`: the datagram that goes to `process`, if there is one. `ulen` is
-- that of the moment. The source tests the one from before its last call of `process`, which differs
-- when datagrams came meanwhile: as long as the pool is never full, what it counted still waits.
pub g_mes_tn_process : Pool → Option (List ℕ) × Pool
g_mes_tn_process p =
    if ltb 1 (ulen p)
    then (some (fetch p.buffer_pool p.head), record p { head = (p.head + send_size) % pool_size })
    else (none, p)

-- What the threads may do, in the order in which they get the lock.
pub data Event : Type 0 where
  receives : Option (List ℕ) → Event
  takes : Event

abbrev pub given : Option (List ℕ) → List (List ℕ) → List (List ℕ)
given none rest = rest
given (some d) rest = d ∷ rest

-- The datagrams that `process` is given.
pub run : Pool → List Event → List (List ℕ)
run p [] = []
run p (receives r ∷ es) = run (receive p r) es
run p (takes ∷ es) = let (d, q) = g_mes_tn_process p in given d (run q es)
