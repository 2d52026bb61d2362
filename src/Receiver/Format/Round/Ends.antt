-- ===== src/Receiver/Format/Round/Ends.antt =====
-- The loops of `format_data` (EXP/receive.c) over the times of packets end.
use controller_project.Base.{
  ℕ, zero, suc, ◌+◌, ◌-◌, ◌%◌, ◌≤◌, ◌<◌, ◌≡◌, refl, sym, ap, ◌∙◌, [], ◌++◌, Bool, true, false, ◌&&◌,
  ◌||◌, Option, none, some, ltb, ◌==◌, if◌then◌else◌, Bool-cases, inl, inr, arith,
}
use controller_project.Receiver.Flows.{TimeStructure, thundred}
use controller_project.Receiver.Decode.{Collector}
use controller_project.Receiver.Format.Gather.{Local}
use controller_project.Receiver.Format.Round.{
  Keeps, Ended, amount, negative, skip_times, ready, earlier, look_up, missing, complete,
  report_packet, packets_loop,
}

-- As long as the head of the ring lies in it, the number of times that wait is the distance to it,
-- or none.
amount_lem : (head tail : ℕ) → head < thundred → amount head tail ≡ head - tail
unfolding amount
amount_lem head tail h = ground arith

module _ (c : Collector) (h : c.winsize_times.head < thundred) where
  -- What waits behind the next time.
  next_waits :
      (tail : ℕ)
      → tail < c.winsize_times.head
      → amount c.winsize_times.head ((tail + 1) % thundred) ≡ c.winsize_times.head - (tail + 1)
  next_waits tail l =
      let e : (tail + 1) % thundred ≡ tail + 1 = omega arith in
      rw e (amount_lem c.winsize_times.head (tail + 1) h)

  -- What waits at a tail, at most `n`.
  abbrev Waits : ℕ → ℕ × ℕ → Type 0
  Waits n x = (x.1 ≡ c.winsize_times.head - x.0) × (x.1 ≤ n)

  Waits-if :
      (b : Bool) (n : ℕ) (more stop : ℕ × ℕ)
      → (b ≡ true → Waits n more)
      → Waits n stop
      → Waits n (if b then more else stop)
  Waits-if true n more stop f g = f refl
  Waits-if false n more stop f g = g

  pos_of_test : (b : Bool) (n : ℕ) → (b && ltb 0 n) ≡ true → 0 < n
  pos_of_test b n e = ground (arith, e)

  Waits-skip_times :
      (fuel : ℕ) (tmp : TimeStructure) (tail n : ℕ)
      → n ≡ c.winsize_times.head - tail
      → Waits n (skip_times c fuel tmp tail n)
  unfolding skip_times
  Waits-skip_times zero tmp tail n e = (e, omega arith)
  Waits-skip_times (suc fuel) tmp tail n e =
      let next = (tail + 1) % thundred in
      let left = amount c.winsize_times.head next in
      let before = negative (c.winsize_times.times tail) tmp in
      Waits-if (before && ltb 0 n) n (skip_times c fuel tmp next left) (tail, n)
        (λ t.
          let pos = pos_of_test before n t in
          let here : next ≡ tail + 1 = omega arith in
          let l = next_waits tail (omega arith) in
          let w =
            Waits-skip_times fuel tmp next left
              (l ∙ ap (λ t. c.winsize_times.head - t) (sym here)) in
          (w.0, omega (arith, w.1, l)))
        (e, omega arith)

  and_false : (b : Bool) (n : ℕ) → n ≡ 0 → (b && ltb 0 n) ≡ false
  and_false b n e = ground (arith, e)

  -- As many rounds as times wait are enough to skip what is to be skipped.
  skip_times_ends :
      (f g : ℕ) (tmp : TimeStructure) (tail n : ℕ)
      → n ≡ c.winsize_times.head - tail
      → n ≤ f
      → n ≤ g
      → skip_times c f tmp tail n ≡ skip_times c g tmp tail n
  unfolding skip_times
  skip_times_ends zero zero tmp tail n e i j = refl
  skip_times_ends zero (suc g) tmp tail n e i j =
      let z : n ≡ 0 = omega arith in
      let stop = and_false (negative (c.winsize_times.times tail) tmp) n z in rw stop refl
  skip_times_ends (suc f) zero tmp tail n e i j =
      let z : n ≡ 0 = omega arith in
      let stop = and_false (negative (c.winsize_times.times tail) tmp) n z in rw stop refl
  skip_times_ends (suc f) (suc g) tmp tail n e i j =
      let before = negative (c.winsize_times.times tail) tmp in
      elim (Bool-cases (before && ltb 0 n)) [
        | inl t ↦
            let next = (tail + 1) % thundred in
            let left = amount c.winsize_times.head next in
            let pos = pos_of_test before n t in
            let here : next ≡ tail + 1 = omega arith in
            let l = next_waits tail (omega arith) in
            rw t (
              skip_times_ends f g tmp next left (l ∙ ap (λ t. c.winsize_times.head - t) (sym here))
                (omega arith) (omega arith))
        | inr t ↦ rw t refl
      ]

module _ {F : Type 0} (stations drop : ℕ) (stack : Keeps F) (c : Collector) where
  -- What a round makes of the rounds behind it.
  around : ℕ → TimeStructure → Local F → Option (Ended F) → Option (Ended F)
  around n tp s rest =
      let next = c.winsize_times.times s.winsize_tail in
      let advanced = record s { winsize_tail = (s.winsize_tail + 1) % thundred } in
      let (s', left, rows) = report_packet stations drop stack c next advanced (n - 1) in
      if n == 0 then some (record { local = s; rows = []; time_tp = tp }) else elim (ready next s) [
        | none ↦ none
        | some false ↦ some (record { local = s; rows = []; time_tp = next })
        | some true ↦ elim rest [ none ↦ none | some e ↦ some (record e { rows = rows ++ e.rows }) ]
      ]

  packets_step :
      (fuel n : ℕ) (tp : TimeStructure) (s : Local F)
      → let next = c.winsize_times.times s.winsize_tail in
        let advanced : Local F = record s { winsize_tail = (s.winsize_tail + 1) % thundred } in
        let (s', left, rows) = report_packet stations drop stack c next advanced (n - 1) in
        packets_loop stations drop stack c (suc fuel) n tp s
        ≡ around n tp s (packets_loop stations drop stack c fuel left next s')
  unfolding packets_loop around
  packets_step fuel n tp s = refl

  packets_none :
      (fuel n : ℕ) (tp : TimeStructure) (s : Local F)
      → n ≡ 0
      → packets_loop stations drop stack c fuel n tp s
        ≡ some (record { local = s; rows = []; time_tp = tp })
  unfolding packets_loop
  packets_none zero n tp s e = refl
  packets_none (suc fuel) n tp s e = rw e refl

module _ {F : Type 0} (stations drop : ℕ) (stack : Keeps F) (c : Collector)
    (h : c.winsize_times.head < thundred) where
  Waits-report_packet :
      (tp : TimeStructure) (s : Local F) (n : ℕ)
      → n ≡ c.winsize_times.head - s.winsize_tail
      → let (s', left, rows) = report_packet stations drop stack c tp s n in
        Waits c h n (s'.winsize_tail, left)
  unfolding report_packet
  Waits-report_packet tp s n e = elim (Bool-cases ((tp.sec == 0) || missing s)) [
    | inl t ↦ rw t (e, omega arith)
    | inr t ↦ elim (Bool-cases (complete (look_up stations drop stack c tp s))) [
      | inl u ↦
          rw (t, u)
            (Waits-skip_times c h n (earlier (look_up stations drop stack c tp s)) s.winsize_tail n
              e)
      | inr u ↦ rw (t, u) (e, omega arith)
    ]
  ]

  -- While no time is added to the ring, so that its head stays, the loop over the times of packets
  -- ends after as many rounds as times wait, when it starts with their number and the tail is not
  -- behind the head: with more rounds it gives the same.
  pub packets_loop_ends :
      (f g n : ℕ) (tp : TimeStructure) (s : Local F)
      → n ≡ c.winsize_times.head - s.winsize_tail
      → n ≤ f
      → n ≤ g
      → packets_loop stations drop stack c f n tp s ≡ packets_loop stations drop stack c g n tp s
  packets_loop_ends f g zero tp s e i j =
      packets_none stations drop stack c f zero tp s refl
      ∙ sym (packets_none stations drop stack c g zero tp s refl)
  packets_loop_ends zero g (suc n) tp s e i j = absurd (omega arith)
  packets_loop_ends (suc f) zero (suc n) tp s e i j = absurd (omega arith)
  packets_loop_ends (suc f) (suc g) (suc n) tp s e i j =
      let next = c.winsize_times.times s.winsize_tail in
      let advanced : Local F = record s { winsize_tail = (s.winsize_tail + 1) % thundred } in
      let (s', left, rows) = report_packet stations drop stack c next advanced (suc n - 1) in
      let w = Waits-report_packet next advanced (suc n - 1) (omega arith) in
      packets_step stations drop stack c f (suc n) tp s
      ∙ ap (around stations drop stack c (suc n) tp s)
          (packets_loop_ends f g left next s' w.0 (omega (arith, w.1)) (omega (arith, w.1)))
      ∙ sym (packets_step stations drop stack c g (suc n) tp s)
