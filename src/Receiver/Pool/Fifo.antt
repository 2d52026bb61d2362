-- ===== src/Receiver/Pool/Fifo.antt =====
-- The pool is a queue of at most 9999 datagrams.
use controller_project.Base.{
  ℕ, zero, suc, ◌+◌, ◌-◌, ◌*◌, ◌/◌, ◌%◌, ◌≤◌, ◌<◌, ◌≡◌, ◌≢◌, refl, ap, ap₂, ◌∙◌, List, [], ◌∷◌,
  ◌++◌, none, some, get_or, ◌⊎◌, ltb, lt→ltb, le→leb, ltb→lt, ltb→le, Option-cases, Bool-cases, inl,
  inr, arith,
}
use controller_project.Receiver.Pool.{
  Pool, Event, receives, takes, send_size, pool_size, tabulate, padded, store, fetch, receive, ulen,
  given, g_mes_tn_process, run,
}

pub record IsValid (p : Pool) : Type 0 where
  pub head_in : p.head < pool_size
  pub tail_in : p.tail < pool_size
  pub head_slot : p.head % send_size ≡ 0
  pub tail_slot : p.tail % send_size ≡ 0

-- The `n` datagrams from index `h` on, going round at the end of the pool.
abbrev pub window : (ℕ → ℕ) → ℕ → ℕ → List (List ℕ)
window pool h zero = []
window pool h (suc n) = fetch pool h ∷ window pool ((h + send_size) % pool_size) n

abbrev pub waiting : Pool → ℕ
waiting p = ulen p / send_size

-- The datagrams that wait, oldest first.
abbrev pub contents : Pool → List (List ℕ)
contents p = window p.buffer_pool p.head (waiting p)

tabulate_congr {ℓ} :
    {A : Type ℓ} (n : ℕ) (f g : ℕ → A) → ((k : ℕ) → k < n → f k ≡ g k) → tabulate n f ≡ tabulate n g
unfolding tabulate
tabulate_congr zero f g h = refl
tabulate_congr (suc n) f g h =
    ap₂ ◌∷◌ (h 0 (omega arith))
      (tabulate_congr n (λ k. f (suc k)) (λ k. g (suc k)) (λ k lt. h (suc k) (omega arith)))

store_inside :
    (pool : ℕ → ℕ) (t k : ℕ) (m : List ℕ) → k < send_size → store pool t m (t + k) ≡ get_or m k 0
unfolding store
store_inside pool t k m h =
    let e : t + k - t ≡ k = omega arith in
    rw (le→leb t (t + k) (omega arith), lt→ltb (t + k) (t + send_size) (omega arith), e)

store_outside :
    (pool : ℕ → ℕ) (t a : ℕ) (m : List ℕ)
    → (a < t) ⊎ (t + send_size ≤ a)
    → store pool t m a ≡ pool a
unfolding store
store_outside pool t a m h = ground arith

fetch-store_self : (pool : ℕ → ℕ) (t : ℕ) (m : List ℕ) → fetch (store pool t m) t ≡ padded m
unfolding fetch padded
fetch-store_self pool t m =
    tabulate_congr send_size (λ k. store pool t m (t + k)) (λ k. get_or m k 0)
      (λ k lt. store_inside pool t k m lt)

fetch-store_ne :
    (pool : ℕ → ℕ) (t h : ℕ) (m : List ℕ)
    → t % send_size ≡ 0
    → h % send_size ≡ 0
    → t ≢ h
    → fetch (store pool t m) h ≡ fetch pool h
unfolding fetch
fetch-store_ne pool t h m a b ne =
    tabulate_congr send_size (λ k. store pool t m (h + k)) (λ k. pool (h + k))
      (λ k lt. store_outside pool t (h + k) m (omega arith))

none-ne-some : {A : Type 0} {a : A} → some a ≡ none → ⊥
none-ne-some e = cc

-- Writing at the slot behind a window extends it by that datagram.
window-store :
    (pool : ℕ → ℕ) (m : List ℕ) (n h t : ℕ)
    → h < pool_size
    → h % send_size ≡ 0
    → t ≡ (h + send_size * n) % pool_size
    → n < 10000
    → window (store pool t m) h (suc n) ≡ window pool h n ++ padded m ∷ []
window-store pool m zero h t a b e l =
    let q : t ≡ h = omega arith in rw q (ap (λ d. d ∷ []) (fetch-store_self pool h m))
window-store pool m (suc n) h t a b e l =
    ap₂ ◌∷◌ (fetch-store_ne pool t h m (omega arith) b (λ q. omega arith)) (
      window-store pool m n ((h + send_size) % pool_size) t (omega arith) (omega arith)
        (omega arith) (omega arith))

-- A datagram that arrives while fewer than 9999 wait joins the end of the queue.
pub receive_appends :
    (p : Pool) (m : List ℕ)
    → IsValid p
    → waiting p < 9999
    → IsValid (receive p (some m)) × (contents (receive p (some m)) ≡ contents p ++ padded m ∷ [])
unfolding receive
receive_appends p m v h =
    let q = receive p (some m) in
    let n : waiting q ≡ suc (waiting p) = omega arith in
    (
      omega arith,
      ap (window q.buffer_pool p.head) n
          ∙ window-store p.buffer_pool m (waiting p) p.head p.tail v.head_in v.head_slot
              (omega arith) (omega arith),
    )

-- With 9999 waiting, one more brings `tail` onto `head`: the `ulen` of the two is 0 then, and by it no
-- datagram waits.
pub receive_overruns :
    (p : Pool) (m : List ℕ)
    → IsValid p
    → waiting p ≡ 9999
    → (ulen (receive p (some m)) ≡ 0)
      × ((receive p (some m)).head ≡ (receive p (some m)).tail)
      × (contents (receive p (some m)) ≡ [])
unfolding receive
receive_overruns p m v h =
    let q = receive p (some m) in
    let n : waiting q ≡ 0 = omega arith in
    (omega arith, omega arith, ap (window q.buffer_pool q.head) n)

window_next :
    (pool : ℕ → ℕ) (h n m : ℕ)
    → n ≡ suc m
    → window pool h n ≡ fetch pool h ∷ window pool ((h + send_size) % pool_size) m
window_next pool h n m e = rw e refl

-- `g_mes_tn_process` hands over the oldest datagram and keeps the others; with none waiting it
-- does nothing.
pub take_pops :
    {p : Pool}
    → IsValid p
    → let (d, q) = g_mes_tn_process p in IsValid q × (contents p ≡ given d (contents q))
unfolding g_mes_tn_process
take_pops {p} v = elim (Bool-cases (ltb 1 (ulen p))) [
  | inl e ↦
      let more = ltb→lt 1 (ulen p) e in
      let q = record p { head = (p.head + send_size) % pool_size } in
      let n : waiting p ≡ suc (waiting q) = omega arith in
      rw e (omega arith, window_next p.buffer_pool p.head (waiting p) (waiting q) n)
  | inr e ↦ let less = ltb→le 1 (ulen p) e in rw e (v, refl)
]

take_none :
    {p : Pool}
    → IsValid p
    → (g_mes_tn_process p).0 ≡ none
    → (contents p ≡ []) × ((g_mes_tn_process p).1 ≡ p)
unfolding g_mes_tn_process
take_none {p} v h = elim (Bool-cases (ltb 1 (ulen p))) [
  | inl e ↦ absurd (none-ne-some (rw e at h))
  | inr e ↦
      let less = ltb→le 1 (ulen p) e in
      let n : waiting p ≡ 0 = omega arith in (ap (window p.buffer_pool p.head) n, rw e refl)
]

-- The abstract queue, and the condition that it is never asked to hold more than 9999.
pub queue_run : List (List ℕ) → List Event → List (List ℕ)
queue_run q [] = []
queue_run q (receives none ∷ es) = queue_run q es
queue_run q (receives (some m) ∷ es) = queue_run (q ++ padded m ∷ []) es
queue_run [] (takes ∷ es) = queue_run [] es
queue_run (d ∷ q) (takes ∷ es) = d ∷ queue_run q es

abbrev pub NeverFull : ℕ → List Event → Type 0
NeverFull n [] = Unit {0}
NeverFull n (receives none ∷ es) = NeverFull n es
NeverFull n (receives (some m) ∷ es) = (n < 9999) × NeverFull (n + 1) es
NeverFull n (takes ∷ es) = NeverFull (n - 1) es

receive-none : (p : Pool) → receive p none ≡ p
unfolding receive
receive-none p = refl

waiting-receive :
    (p : Pool) (m : List ℕ)
    → IsValid p
    → waiting p < 9999
    → waiting (receive p (some m)) ≡ waiting p + 1
unfolding receive
waiting-receive p m v h = omega arith

waiting-take : {p : Pool} → IsValid p → waiting (g_mes_tn_process p).1 ≡ waiting p - 1
unfolding g_mes_tn_process
waiting-take {p} v = elim (Bool-cases (ltb 1 (ulen p))) [
  | inl e ↦ let more = ltb→lt 1 (ulen p) e in rw e (omega arith)
  | inr e ↦ let less = ltb→le 1 (ulen p) e in rw e (omega arith)
]

-- In whatever order the two receiving threads and the processing thread get the lock, `process` is
-- given the datagrams that a first-in first-out queue would give it, each filled up with zeros to
-- 1024 bytes, provided that nothing arrives while 9999 datagrams wait.
pub run_refines :
    (es : List Event) {p : Pool}
    → IsValid p
    → NeverFull (waiting p) es
    → run p es ≡ queue_run (contents p) es
unfolding run queue_run
run_refines [] v h = refl
run_refines (receives none ∷ es) {p} v h = rw (receive-none p) (run_refines es v h)
run_refines (receives (some m) ∷ es) {p} v h =
    let (valid, more) = receive_appends p m v h.0 in
    rw (← more) (run_refines es valid (rw (waiting-receive p m v h.0) h.1))
run_refines (takes ∷ es) {p} v h =
    let (valid, pops) = take_pops v in
    let ih = run_refines es valid (rw (waiting-take v) h) in
    elim (Option-cases (g_mes_tn_process p).0) [
      | inl e ↦ let (empty, same) = take_none v e in rw (e, empty, ih, same, empty) refl
      | inr (d, e) ↦ rw (e, pops, e, ih) refl
    ]
