-- ===== src/Control/Busiest.antt =====
-- The flow that a turn of createtree.c chooses.
use controller_project.Base.{
  ℕ, zero, suc, ◌≤◌, ◌<◌, ◌≡◌, refl, ◌⊎◌, inl, inr, ltb, if◌then◌else◌, Bool-cases, arith,
}
use controller_project.Control.Text.{TcpFlow}
use controller_project.Control.{no_flow, max_flow}

-- The flow with the most packets among the first `n`, with what stands for none.
abbrev pub Busiest : (ℕ → TcpFlow) → ℕ → TcpFlow → Type 0
Busiest flows n f =
    ((i : ℕ) → i < n → (flows i).packets ≤ f.packets)
    × ((f ≡ no_flow) ⊎ ((j : ℕ) × (j < n) × (f ≡ flows j)))

-- One message more.
Busiest-suc :
    (flows : ℕ → TcpFlow) (n : ℕ) (f : TcpFlow)
    → Busiest flows n f
    → Busiest flows (suc n) (if ltb f.packets (flows n).packets then flows n else f)
Busiest-suc flows n f (above, from) = elim (Bool-cases (ltb f.packets (flows n).packets)) [
  | inl t ↦ rw t ((λ i h. ground (arith, above i)), inr (n, omega arith, refl))
  | inr t ↦ rw t (
    (λ i h. ground (arith, above i)),
    elim from [ inl e ↦ inl e | inr (j, l, e) ↦ inr (j, omega arith, e) ],
  )
]

-- The chosen flow has at least as many packets as each of the others, and is one of them unless
-- none has any.
pub max_flow-Busiest : (flows : ℕ → TcpFlow) (n : ℕ) → Busiest flows n (max_flow flows n)
unfolding max_flow
max_flow-Busiest flows zero = ((λ i h. absurd (omega arith)), inl refl)
max_flow-Busiest flows (suc n) = Busiest-suc flows n (max_flow flows n) (max_flow-Busiest flows n)
