-- ===== src/Sender/Buffer/Framing.antt =====
-- What a receiver of the datagrams can rely on.
use controller_project.Base.{
  ℕ, ◌+◌, ◌≤◌, ◌≡◌, refl, sym, ap, ap₂, subst, ◌∙◌, List, [], ◌∷◌, ◌++◌, map, flatten, append-nil,
  append_assoc, length, take, blit, leb, if◌then◌else◌, length-append, length-blit, length-take,
  length-replicate, take-blit, take-blit-zero, flatten-snoc, map-append, Bool-cases, inl, inr,
  leb→le, arith,
}
use controller_project.Sender.Buffer.{
  Out, b_s, cleared, put, send_the_buffer, write_2_public_buffer, init,
}

-- The bytes written and not sent yet.
abbrev pub pending : Out → List ℕ
pending o = take o.write_begin o.public_buffer

pub record IsValid (o : Out) : Type 0 where
  pub storage : length o.public_buffer ≡ b_s
  pub inside : o.write_begin ≤ b_s

-- The messages of each datagram, and those that still wait.
pub record Packed : Type 0 where
  pub closed : List (List (List ℕ))
  pub open_ : List (List ℕ)

-- The specification: a message joins the waiting ones while 1024 bytes hold them, and
-- otherwise the waiting ones leave as one datagram.
unfoldable pub pack : Packed → List ℕ → Packed
pack p message =
    if leb (length (flatten p.open_) + length message) b_s
    then record p { open_ = p.open_ ++ message ∷ [] }
    else record { closed = p.closed ++ p.open_ ∷ []; open_ = message ∷ [] }

pub record Models (o : Out) (p : Packed) : Type 0 where
  pub valid : IsValid o
  pub waits : pending o ≡ flatten p.open_
  pub begins : o.write_begin ≡ length (flatten p.open_)
  pub left : o.sent ≡ map flatten p.closed

put_lem :
    (o : Out) (bytes : List ℕ)
    → IsValid o
    → o.write_begin + length bytes ≤ b_s
    → IsValid (put o bytes) × (pending (put o bytes) ≡ pending o ++ bytes)
unfolding put
put_lem o bytes v h = (
  record { storage = length-blit o.public_buffer o.write_begin bytes ∙ v.storage; inside = h },
  take-blit o.public_buffer o.write_begin bytes (o.write_begin + length bytes) refl
      (omega (arith, v.storage)),
)

length-cleared : length cleared ≡ b_s
unfolding cleared
length-cleared = length-replicate {A = ℕ} b_s 0

length-pending : (o : Out) → IsValid o → length (pending o) ≡ o.write_begin
length-pending o v = omega (arith, length-take o.write_begin o.public_buffer, v.storage, v.inside)

-- The datagram is what waited, and nothing waits afterwards.
send_lem : (o : Out) → IsValid o → (send_the_buffer o).sent ≡ o.sent ++ pending o ∷ []
unfolding send_the_buffer
send_lem o v =
    let l = length-pending o v in
    ap (λ d. o.sent ++ d ∷ [])
      (subst (λ n. take n (blit cleared 0 (pending o)) ≡ pending o) l
        (take-blit-zero cleared (pending o) (omega (arith, l, v.inside, length-cleared))))

send-IsValid : (o : Out) → IsValid (send_the_buffer o)
unfolding send_the_buffer
send-IsValid o = record { storage = length-cleared; inside = omega arith }

init-Models : Models init (record { closed = []; open_ = [] })
unfolding init flatten
init-Models = record {
  valid = record { storage = length-cleared; inside = omega arith };
  waits = refl;
  begins = refl;
  left = refl;
}

put-Models :
    (o : Out) (p : Packed) (message : List ℕ)
    → Models o p
    → o.write_begin + length message ≤ b_s
    → Models (put o message) (record p { open_ = p.open_ ++ message ∷ [] })
unfolding put
put-Models o p message m h =
    let w = put_lem o message m.valid h in
    let f : flatten (p.open_ ++ message ∷ []) ≡ flatten p.open_ ++ message =
      flatten-snoc p.open_ message in
    record {
      valid = w.0;
      waits = w.1 ∙ ap (λ t. t ++ message) m.waits ∙ sym f;
      begins = omega (arith, m.begins, ap length f, length-append (flatten p.open_) message);
      left = m.left;
    }

send-Models :
    (o : Out) (p : Packed)
    → Models o p
    → Models (send_the_buffer o) (record { closed = p.closed ++ p.open_ ∷ []; open_ = [] })
unfolding send_the_buffer flatten
send-Models o p m = record {
  valid = send-IsValid o;
  waits = refl;
  begins = refl;
  left =
      send_lem o m.valid
      ∙ ap₂ (λ s d. s ++ d ∷ []) m.left m.waits
      ∙ sym (map-append flatten p.closed (p.open_ ∷ []));
}

-- Writing a message that fits a datagram does to the buffer and the datagrams what the
-- specification says: the message is kept whole, and only full datagrams leave, in order.
pub write-Models :
    {o : Out} {p : Packed} (message : List ℕ)
    → Models o p
    → length message ≤ b_s
    → Models (write_2_public_buffer o message) (pack p message)
unfolding write_2_public_buffer pack
write-Models {o} {p} message m h =
    let n = length (flatten p.open_) + length message in
    let e : leb (o.write_begin + length message) b_s ≡ leb n b_s =
      ap (λ k. leb (k + length message) b_s) m.begins in
    elim (Bool-cases (leb n b_s)) [
      | inl fits ↦
          rw (e, fits) (put-Models o p message m (omega (arith, leb→le n b_s fits, m.begins)))
      | inr full ↦
          rw (e, full)
            (put-Models (send_the_buffer o) _ message (send-Models o p m)
              (unfold send_the_buffer in omega arith))
    ]

-- All messages of a state of the specification, oldest first.
abbrev pub messages : Packed → List (List ℕ)
messages p = flatten p.closed ++ p.open_

messages-pack :
    (p : Packed) (message : List ℕ) → messages (pack p message) ≡ messages p ++ message ∷ []
unfolding pack
messages-pack p message = elim (Bool-cases (leb (length (flatten p.open_) + length message) b_s)) [
  | inl fits ↦ rw fits (sym (append_assoc (flatten p.closed) p.open_ (message ∷ [])))
  | inr full ↦ rw full (ap (λ t. t ++ message ∷ []) (flatten-snoc p.closed p.open_))
]

abbrev pub AllShort : List (List ℕ) → Type 0
AllShort [] = Unit {0}
AllShort (m ∷ ms) = (length m ≤ b_s) × AllShort ms

unfoldable pub write_all : Out → List (List ℕ) → Out
write_all o [] = o
write_all o (m ∷ ms) = write_all (write_2_public_buffer o m) ms

pack_all : Packed → List (List ℕ) → Packed
pack_all p [] = p
pack_all p (m ∷ ms) = pack_all (pack p m) ms

write_all-Models :
    (o : Out) (p : Packed) (ms : List (List ℕ))
    → Models o p
    → AllShort ms
    → Models (write_all o ms) (pack_all p ms)
unfolding write_all pack_all
write_all-Models o p [] m h = m
write_all-Models o p (x ∷ xs) m h =
    write_all-Models (write_2_public_buffer o x) (pack p x) xs (write-Models x m h.0) h.1

messages-pack_all : (p : Packed) (ms : List (List ℕ)) → messages (pack_all p ms) ≡ messages p ++ ms
unfolding pack_all
messages-pack_all p [] = sym (append-nil (messages p))
messages-pack_all p (x ∷ xs) =
    messages-pack_all (pack p x) xs
    ∙ ap (λ t. t ++ xs) (messages-pack p x)
    ∙ append_assoc (messages p) (x ∷ []) xs

-- No datagram of the specification is larger than the buffer.
record Fits (p : Packed) : Type 0 where
  closed_fit : AllShort (map flatten p.closed)
  open_fits : length (flatten p.open_) ≤ b_s

AllShort-snoc :
    (ms : List (List ℕ)) (m : List ℕ) → AllShort ms → length m ≤ b_s → AllShort (ms ++ m ∷ [])
AllShort-snoc [] m h l = (l, tt)
AllShort-snoc (x ∷ xs) m h l = (h.0, AllShort-snoc xs m h.1 l)

pack-Fits : (p : Packed) (m : List ℕ) → Fits p → length m ≤ b_s → Fits (pack p m)
unfolding pack flatten
pack-Fits p m f h =
    let n = length (flatten p.open_) + length m in
    elim (Bool-cases (leb n b_s)) [
      | inl e ↦ rw e (record {
        closed_fit = f.closed_fit;
        open_fits =
            rw (flatten-snoc p.open_ m)
              (omega (arith, leb→le n b_s e, length-append (flatten p.open_) m));
      })
      | inr e ↦ rw e (record {
        closed_fit =
            rw (map-append flatten p.closed (p.open_ ∷ []))
              (AllShort-snoc (map flatten p.closed) (flatten p.open_) f.closed_fit f.open_fits);
        open_fits = rw (append-nil m) h;
      })
    ]

pack_all-Fits : (p : Packed) (ms : List (List ℕ)) → Fits p → AllShort ms → Fits (pack_all p ms)
unfolding pack_all
pack_all-Fits p [] f h = f
pack_all-Fits p (m ∷ ms) f h = pack_all-Fits (pack p m) ms (pack-Fits p m f h.0) h.1

init-Fits : Fits (record { closed = []; open_ = [] })
unfolding flatten
init-Fits = record { closed_fit = tt; open_fits = omega arith }

-- However many messages of at most 1024 bytes are written after the module is loaded, none is
-- lost, reordered or split: the datagrams sent are the concatenations of groups of whole
-- messages, none larger than 1024 bytes, the bytes that still wait are a last such group, and the
-- groups together are the messages in the order in which they were written. The buffer is never
-- overrun.
pub write_all_keeps_messages :
    (ms : List (List ℕ))
    → AllShort ms
    → (p : Packed) × (messages p ≡ ms)
      × ((write_all init ms).sent ≡ map flatten p.closed)
      × AllShort (map flatten p.closed)
      × (pending (write_all init ms) ≡ flatten p.open_)
      × IsValid (write_all init ms)
unfolding flatten
write_all_keeps_messages ms h =
    let p0 : Packed = record { closed = []; open_ = [] } in
    let m = write_all-Models init p0 ms init-Models h in
    let f = pack_all-Fits p0 ms init-Fits h in
    (pack_all p0 ms, messages-pack_all p0 ms, m.left, f.closed_fit, m.waits, m.valid)
