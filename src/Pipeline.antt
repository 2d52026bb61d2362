-- ===== src/Pipeline.antt =====
-- From the timer of the access point (sendudp/sendudp.c) to the decoders of the collector
-- (EXP/receive.c): the datagrams of one, taken apart by the other.
pub mod Delivery
use controller_project.Base.{
  ℕ, zero, suc, ◌+◌, ◌-◌, ◌≤◌, ◌≡◌, refl, ap, ap₂, subst, sym, ◌∙◌, List, [], ◌∷◌, ◌++◌,
  append_assoc, map, flatten, length, length-take, take, min, get_or, replicate, Option, none, some,
  arith,
}
use controller_project.Wire.{be16, be32, be64}
use controller_project.Records.{
  Category, drops_bytes, iw_bytes, survey_bytes, beacon_bytes, queue_bytes,
}
use controller_project.Sender.Buffer.{b_s, init}
use controller_project.Sender.Buffer.Framing.{AllShort, write_all, write_all_keeps_messages}
use controller_project.Sender.Collect.{
  Message, dp_t, di_t, dq_t, db_t, ds_t, category, body, message_bytes, Collector, Drivers, run,
}
use controller_project.Sender.Collect.Messages.{run_messages, run-run_messages}
use controller_project.Receiver.Pool.{tabulate, padded, send_size}
use controller_project.Receiver.Process.{size_of, Counts, counted, process}
use controller_project.Receiver.Process.Frames.{
  Frame, frames_bytes, AllWhole, handle_all, process_frames,
}

tabulate_nil : (n : ℕ) → tabulate {A = ℕ} n (λ k. get_or [] k 0) ≡ replicate n 0
unfolding tabulate
tabulate_nil zero = refl
tabulate_nil (suc n) = ap (λ t. 0 ∷ t) (tabulate_nil n)

-- A datagram in the receiver's buffer is followed by zeros.
tabulate_zeros :
    (n k : ℕ) (m : List ℕ) → n ≡ length m + k → tabulate n (λ i. get_or m i 0) ≡ m ++ replicate k 0
unfolding tabulate
tabulate_zeros n k [] h = tabulate_nil n ∙ ap (λ t. replicate t 0) (omega (arith, h))
tabulate_zeros zero k (x ∷ m) h = absurd (omega arith)
tabulate_zeros (suc n) k (x ∷ m) h = ap (λ t. x ∷ t) (tabulate_zeros n k m (omega arith))

length-body : (m : Message) → length (body m) ≡ size_of (category m) + 6
unfolding body category drops_bytes iw_bytes survey_bytes beacon_bytes queue_bytes be16 be32 be64
length-body (dp_t mac r) = refl
length-body (di_t mac r) = refl
length-body (dq_t mac r) = refl
length-body (db_t mac r) = refl
length-body (ds_t mac r) = refl

-- The message as the receiver sees it.
abbrev pub frame_of : Message → Frame
frame_of m = record { category = category m; payload = body m }

size-le : (c : Category) → size_of c + 8 ≤ b_s
size-le Category.winsize = omega arith
size-le Category.drops = omega arith
size-le Category.iw = omega arith
size-le Category.queue = omega arith
size-le Category.beacon = omega arith
size-le Category.survey = omega arith

AllShort-messages : (ms : List Message) → AllShort (map message_bytes ms)
unfolding be16
AllShort-messages [] = tt
AllShort-messages (m ∷ ms) =
    (omega (arith, length-body m, size-le (category m)), AllShort-messages ms)

AllWhole-messages : (ms : List Message) → AllWhole (map frame_of ms)
AllWhole-messages [] = tt
AllWhole-messages (m ∷ ms) = (length-body m, AllWhole-messages ms)

frames-flatten :
    (ms : List Message) → frames_bytes (map frame_of ms) ≡ flatten (map message_bytes ms)
unfolding flatten
frames-flatten [] = refl
frames-flatten (m ∷ ms) = ap (λ t. message_bytes m ++ t) (frames-flatten ms)

-- A list of images that is cut in two comes from a list cut in two.
split-map :
    {X Y : Type 0} (f : X → Y) (xs : List X) (ys zs : List Y)
    → ys ++ zs ≡ map f xs
    → (ls : List X) × (bs : List X) × (ls ++ bs ≡ xs) × (map f ls ≡ ys) × (map f bs ≡ zs)
split-map f xs [] zs e = ([], xs, refl, refl, sym e)
split-map f [] (y ∷ ys) zs e = absurd (cc)
split-map f (x ∷ xs) (y ∷ ys) zs e =
    let r = split-map f xs ys zs cc in
    let h : f x ≡ y = cc in (x ∷ r.0, r.1, ap (λ t. x ∷ t) r.2, ap₂ (λ a b. a ∷ b) h r.3, r.4)

-- The same for the groups of the datagrams.
split-groups :
    {X Y : Type 0} (f : X → Y) (xs : List X) (gs : List (List Y)) (zs : List Y)
    → flatten gs ++ zs ≡ map f xs
    → (hs : List (List X)) × (bs : List X) × (flatten hs ++ bs ≡ xs)
      × (map (map f) hs ≡ gs)
      × (map f bs ≡ zs)
unfolding flatten
split-groups f xs [] zs e = ([], xs, refl, refl, sym e)
split-groups f xs (g ∷ gs) zs e =
    let r = split-map f xs g (flatten gs ++ zs) (sym (append_assoc g (flatten gs) zs) ∙ e) in
    let s = split-groups f r.1 gs zs (sym r.4) in
    (
      r.0 ∷ s.0,
      s.1,
      append_assoc r.0 (flatten s.0) s.1 ∙ ap (λ t. r.0 ++ t) s.2 ∙ r.2,
      ap₂ (λ a b. a ∷ b) r.3 s.3,
      s.4,
    )

module _ {S : Type 0} (decode : Category → List ℕ → S → S) where
  -- A decoder reads the address and the structure it is called for and nothing behind them.
  abbrev pub ReadsOwn : Type 0
  ReadsOwn =
      (c : Category) (own rest : List ℕ) (s : S)
      → length own ≡ size_of c + 6
      → decode c (own ++ rest) s ≡ decode c own s

  -- `process (buffer, 1024)` for each datagram that leaves the pool.
  unfoldable pub process_all : List (List ℕ) → S × Counts → Option (S × Counts)
  process_all [] s = some s
  process_all (d ∷ ds) s = elim (process decode d send_size s) [
    | none ↦ none
    | some t ↦ process_all ds t
  ]

  -- The decoder of each message, in order.
  unfoldable pub handle_messages : List Message → S × Counts → S × Counts
  handle_messages [] s = s
  handle_messages (m ∷ ms) s =
      handle_messages ms (decode (category m) (body m) s.0, counted (category m) s.1)

  handle_messages-append :
      (ms ns : List Message) (s : S × Counts)
      → handle_messages (ms ++ ns) s ≡ handle_messages ns (handle_messages ms s)
  unfolding handle_messages
  handle_messages-append [] ns s = refl
  handle_messages-append (m ∷ ms) ns s =
      handle_messages-append ms ns (decode (category m) (body m) s.0, counted (category m) s.1)

  handle_all-messages :
      ReadsOwn
      → (ms : List Message) (pad : List ℕ) (s : S × Counts)
      → handle_all decode (map frame_of ms) pad s ≡ handle_messages ms s
  unfolding handle_messages handle_all
  handle_all-messages own [] pad s = refl
  handle_all-messages own (m ∷ ms) pad s =
      let rest = frames_bytes (map frame_of ms) ++ pad in
      ap (λ t. handle_all decode (map frame_of ms) pad (t, counted (category m) s.1))
        (own (category m) (body m) rest s.0 (length-body m))
      ∙ handle_all-messages own ms pad (decode (category m) (body m) s.0, counted (category m) s.1)

  process_group :
      ReadsOwn
      → (ms : List Message) (s : S × Counts) → length (flatten (map message_bytes ms)) ≤ b_s
      → process decode (padded (flatten (map message_bytes ms))) send_size s
        ≡ some (handle_messages ms s)
  unfolding padded
  process_group own ms s h =
      let bytes = flatten (map message_bytes ms) in
      let e : tabulate send_size (λ k. get_or bytes k 0)
          ≡ frames_bytes (map frame_of ms) ++ replicate (b_s - length bytes) 0 =
        tabulate_zeros send_size (b_s - length bytes) bytes (omega (arith, h))
        ∙ ap (λ t. t ++ replicate (b_s - length bytes) 0) (sym (frames-flatten ms)) in
      ap (λ d. process decode d send_size s) e
      ∙ process_frames decode (map frame_of ms) (b_s - length bytes) send_size s
          (AllWhole-messages ms) (omega (arith, ap length (frames-flatten ms)))
      ∙ ap some (handle_all-messages own ms (replicate (b_s - length bytes) 0) s)

  process_groups :
      ReadsOwn
      → (gs : List (List Message)) (s : S × Counts)
      → AllShort (map flatten (map (map message_bytes) gs))
      → process_all (map padded (map flatten (map (map message_bytes) gs))) s
        ≡ some (handle_messages (flatten gs) s)
  unfolding process_all flatten handle_messages
  process_groups own [] s h = refl
  process_groups own (g ∷ gs) s h =
      rw (process_group own g s h.0, process_all, handle_messages-append g (flatten gs) s)
        (process_groups own gs (handle_messages g s) h.1)

  -- For every number of rounds of `get_information` after the module is loaded and whatever the
  -- drivers return: `process`, run on the datagrams sent, each filled up with zeros to the 1024
  -- bytes of the receiver's buffer, always ends, and has run on each message that was sent, in
  -- order, the decoder of its category on its bytes, and counted it. The messages sent are all
  -- messages of the rounds except a last part of at most 1024 bytes, which waits in the buffer. A
  -- decoder is assumed to read only the structure it is called for.
  pub process_all-run :
      ReadsOwn
      → (c : Collector) (ds : List Drivers) (s : S × Counts) → c.out ≡ init
      → (sent waiting : List Message) × (sent ++ waiting ≡ run_messages c ds)
        × (length (flatten (map message_bytes waiting)) ≤ b_s)
        × (process_all (map padded (run c ds).out.sent) s ≡ some (handle_messages sent s))
  process_all-run own c ds s e =
      let ms = run_messages c ds in
      let h : (run c ds).out ≡ write_all init (map message_bytes ms) =
        run-run_messages c ds ∙ ap (λ o. write_all o (map message_bytes ms)) e in
      let k = write_all_keeps_messages (map message_bytes ms) (AllShort-messages ms) in
      let g = split-groups message_bytes ms k.0.closed k.0.open_ k.1 in
      let left : (run c ds).out.sent ≡ map flatten (map (map message_bytes) g.0) =
        ap (λ o. o.sent) h ∙ k.2 ∙ ap (map flatten) (sym g.3) in
      let short = subst (λ gs. AllShort (map flatten gs)) (sym g.3) k.3 in
      let o = write_all init (map message_bytes ms) in
      let tail : flatten (map message_bytes g.1) ≡ take o.write_begin o.public_buffer =
        ap flatten g.4 ∙ sym k.4 in
      (
        flatten g.0,
        g.1,
        g.2,
        omega (
          arith,
          ap length tail,
          length-take o.write_begin o.public_buffer,
          k.5.storage,
          k.5.inside,
        ),
        ap (λ d. process_all (map padded d) s) left ∙ process_groups own g.0 s short,
      )
