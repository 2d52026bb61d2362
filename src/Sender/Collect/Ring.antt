-- ===== src/Sender/Collect/Ring.antt =====
-- The ring `apstates_global` of sendudp/sendudp.c: its closed slots, and how one is closed.
use controller_project.Base.{
  ℕ, zero, suc, ◌+◌, ◌-◌, ◌%◌, ◌<◌, ◌≡◌, ◌≢◌, refl, ap, ap₂, sym, ◌∙◌, List, [], ◌∷◌, ◌++◌, length,
  drop, ◌==◌, if◌then◌else◌, Bool-cases, inl, inr, arith, ==_iff,
}
use controller_project.Sender.Collect.{apsl, ApStates, Collector, close_slot, slot, put_slot}

-- `n` slots from `i` on.
unfoldable pub window : (ℕ → ApStates) → ℕ → ℕ → List ApStates
window ring i zero = []
window ring i (suc n) = ring i ∷ window ring ((i + 1) % apsl) n

abbrev pub used : Collector → ℕ
used c = (c.aps_head + apsl - c.aps_tail) % apsl

-- The closed slots, oldest first.
abbrev pub recent : Collector → List ApStates
recent c = window c.apstates_global c.aps_tail (used c)

pub record IsValid (c : Collector) : Type 0 where
  pub head_in : c.aps_head < apsl
  pub tail_in : c.aps_tail < apsl

-- The ring keeps the last 249 states.
unfoldable pub trim : List ApStates → List ApStates
trim as_ = if length as_ == apsl then drop 1 as_ else as_

-- `d` has the ring of `c` but for the slot at the head, which holds `a`.
pub record Filled (c d : Collector) (a : ApStates) : Type 0 where
  pub head : d.aps_head ≡ c.aps_head
  pub tail : d.aps_tail ≡ c.aps_tail
  pub here : d.apstates_global c.aps_head ≡ a
  pub others : (i : ℕ) → i ≢ c.aps_head → d.apstates_global i ≡ c.apstates_global i

pub Filled-put : (c d : Collector) (a b : ApStates) → Filled c d a → Filled c (put_slot d b) b
Filled-put c d a b f = record {
  head = f.head;
  tail = f.tail;
  here = rw (f.head) (ground arith);
  others = λ i n. rw (f.head) (ground (arith, f.others i));
}

window_eq :
    (f g : ℕ → ApStates) (h i n : ℕ)
    → i < apsl
    → n < apsl
    → (i + n) % apsl ≡ h
    → ((j : ℕ) → j ≢ h → f j ≡ g j)
    → window f i n ≡ window g i n
unfolding window
window_eq f g h i zero u v e o = refl
window_eq f g h i (suc n) u v e o =
    ap₂ (λ x xs. x ∷ xs) (o i (omega arith))
      (window_eq f g h ((i + 1) % apsl) n (omega arith) (omega arith) (omega arith) o)

window_snoc :
    (f : ℕ → ApStates) (i n : ℕ)
    → i < apsl
    → window f i (suc n) ≡ window f i n ++ f ((i + n) % apsl) ∷ []
unfolding window
window_snoc f i zero u = ap (λ k. f k ∷ []) (omega arith)
window_snoc f i (suc n) u =
    ap (λ t. f i ∷ t)
      (window_snoc f ((i + 1) % apsl) n (omega arith)
        ∙ ap (λ k. window f ((i + 1) % apsl) n ++ f k ∷ []) (omega arith))

length-window : (f : ℕ → ApStates) (i n : ℕ) → length (window f i n) ≡ n
unfolding window
length-window f i zero = refl
length-window f i (suc n) = omega (arith, length-window f ((i + 1) % apsl) n)

-- The slot that is closed joins the others.
joined :
    (c e : Collector) (a : ApStates) (ring : ℕ → ApStates)
    → IsValid c
    → Filled c e a
    → ((j : ℕ) → j ≢ c.aps_head → ring j ≡ e.apstates_global j)
    → window ring c.aps_tail (suc (used c)) ≡ recent c ++ ring c.aps_head ∷ []
joined c e a ring v f o =
    let at_head : (c.aps_tail + used c) % apsl ≡ c.aps_head = omega (arith, v.head_in, v.tail_in) in
    window_snoc ring c.aps_tail (used c) v.tail_in
    ∙ ap₂ (λ xs k. xs ++ ring k ∷ [])
        (window_eq ring c.apstates_global c.aps_head c.aps_tail (used c) v.tail_in (omega arith)
          at_head (λ j n. o j n ∙ f.others j n))
        at_head

-- A list of states as the ring keeps it.
trim_full : (a : ApStates) (as_ : List ApStates) → length as_ ≡ 249 → trim (a ∷ as_) ≡ as_
unfolding trim
trim_full a as_ h = rw h refl

trim_short : (as_ : List ApStates) → length as_ ≢ apsl → trim as_ ≡ as_
unfolding trim
trim_short as_ h = ground (arith, h)

close_here :
    (c e : Collector) (a : ApStates) (n : ℕ)
    → Filled c e a
    → (close_slot e n).apstates_global c.aps_head ≡ record a { drop_count = n }
unfolding close_slot
close_here c e a n f =
    let at_head : (close_slot e n).apstates_global e.aps_head ≡ record (slot e) { drop_count = n } =
      ground arith in
    let here : slot e ≡ a = ap e.apstates_global f.head ∙ f.here in
    sym (ap (close_slot e n).apstates_global f.head)
    ∙ at_head
    ∙ ap (λ (b : ApStates). record b { drop_count = n }) here

close_others :
    (c e : Collector) (a : ApStates) (n : ℕ)
    → Filled c e a
    → (j : ℕ) → j ≢ c.aps_head
    → (close_slot e n).apstates_global j ≡ e.apstates_global j
unfolding close_slot
close_others c e a n f j o = ground (arith, f.head)

close_full :
    (c e : Collector) (n : ℕ)
    → IsValid c
    → e.aps_head ≡ c.aps_head
    → e.aps_tail ≡ c.aps_tail
    → (c.aps_head + 1) % apsl ≡ c.aps_tail
    → ((close_slot e n).aps_tail ≡ (c.aps_tail + 1) % apsl)
      × (used (close_slot e n) ≡ 249)
      × (used c ≡ 249)
unfolding close_slot
close_full c e n v h t q =
    (ground (arith, h, t, q), ground (arith, h, t, q), omega (arith, q, v.head_in, v.tail_in))

close_room :
    (c e : Collector) (n : ℕ)
    → IsValid c
    → e.aps_head ≡ c.aps_head
    → e.aps_tail ≡ c.aps_tail
    → (c.aps_head + 1) % apsl ≢ c.aps_tail
    → ((close_slot e n).aps_tail ≡ c.aps_tail)
      × (used (close_slot e n) ≡ suc (used c))
      × (suc (used c) < apsl)
unfolding close_slot
close_room c e n v h t q =
    (ground (arith, h, t, q), ground (arith, h, t, q), omega (arith, q, v.head_in, v.tail_in))

pub close-IsValid :
    (c e : Collector) (n : ℕ) → IsValid c → e.aps_tail ≡ c.aps_tail → IsValid (close_slot e n)
unfolding close_slot
close-IsValid c e n v t = record { head_in = omega arith; tail_in = ground (arith, t, v.tail_in) }

pub close_ring :
    (c e : Collector) (a : ApStates) (n : ℕ)
    → IsValid c
    → Filled c e a
    → recent (close_slot e n) ≡ trim (recent c ++ record a { drop_count = n } ∷ [])
unfolding window
close_ring c e a n v f =
    let ring = (close_slot e n).apstates_global in
    let all : window ring c.aps_tail (suc (used c)) ≡ recent c ++ record a { drop_count = n } ∷ [] =
      joined c e a ring v f (close_others c e a n f)
      ∙ ap (λ x. recent c ++ x ∷ []) (close_here c e a n f) in
    elim (Bool-cases ((c.aps_head + 1) % apsl == c.aps_tail)) [
      | inl q ↦
          let r = close_full c e n v f.head f.tail ((==_iff _ _).0 q) in
          ap₂ (window ring) r.0 r.1
          ∙ sym (
              trim_full (ring c.aps_tail) (window ring ((c.aps_tail + 1) % apsl) 249)
                (length-window ring ((c.aps_tail + 1) % apsl) 249))
          ∙ ap (λ k. trim (window ring c.aps_tail (suc k))) (sym r.2)
          ∙ ap trim all
      | inr q ↦
          let r = close_room c e n v f.head f.tail (ground arith) in
          ap₂ (window ring) r.0 r.1
          ∙ sym (
              trim_short (window ring c.aps_tail (suc (used c)))
                (omega (arith, length-window ring c.aps_tail (suc (used c)), r.2)))
          ∙ ap trim all
    ]
