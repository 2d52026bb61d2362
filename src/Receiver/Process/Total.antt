-- ===== src/Receiver/Process/Total.antt =====
-- `process` returns on every buffer.
use controller_project.Base.{
  ℕ, zero, suc, ◌+◌, ◌-◌, ◌<◌, ◌≡◌, List, drop, some, Option-cases, inl, inr, arith,
}
use controller_project.Records.{Category}
use controller_project.Receiver.Process.{Counts, size_of, message_at, handle, process_loop, process}

message_at-lt :
    (buffer : List ℕ) (offset len : ℕ) (c : Category)
    → message_at buffer offset len ≡ some c
    → offset < len
unfolding message_at
message_at-lt buffer offset len c e = ground arith

module _ {S : Type 0} (decode : Category → List ℕ → S → S) where
  loop_returns :
      (fuel : ℕ) (buffer : List ℕ) (offset len : ℕ) (s : S × Counts)
      → len - offset < fuel
      → (r : S × Counts) × (process_loop decode fuel buffer offset len s ≡ some r)
  unfolding process_loop
  loop_returns zero buffer offset len s h = absurd (omega arith)
  loop_returns (suc fuel) buffer offset len s h =
      elim (Option-cases (message_at buffer offset len)) [
        | inl stop ↦ (s, rw (stop, process_loop))
        | inr (c, go) ↦
            rw (go, process_loop)
              (loop_returns fuel buffer (offset + 2 + (size_of c + 6)) len
                (handle decode c (drop (offset + 2) buffer) s)
                (omega (arith, message_at-lt buffer offset len c go)))
      ]

  -- `process` returns, whatever the buffer holds.
  pub process_returns :
      (buffer : List ℕ) (len : ℕ) (s : S × Counts)
      → (r : S × Counts) × (process decode buffer len s ≡ some r)
  unfolding process
  process_returns buffer len s = loop_returns (suc len) buffer 0 len s (omega arith)
