-- ===== src/Payment/Machine.antt =====
-- payment-state-machine.ts: the way of a payment through its states.
use surgepay.Common.{none, some}
use surgepay.Payment.{PaymentStatus, pending, processing, completed, failed, transition}
use surgepay.Common.{
  [], inr, inl, Option-cases, arith, length, ◌∷◌, suc, ◌+◌, Option, some, ℕ, ◌≡◌, List,
}

abbrev pub depth : PaymentStatus → ℕ
depth pending = 0
depth processing = 1
depth completed = 2
depth failed = 2

-- Transitions one after the other, `none` from the first that throws on.
abbrev pub follow : PaymentStatus → List PaymentStatus → Option PaymentStatus
follow s [] = some s
follow s (t ∷ ts) = elim (transition s t) [ none ↦ none | some u ↦ follow u ts ]

transition_deeper : (s t u : PaymentStatus) → transition s t ≡ some u → depth u ≡ suc (depth s)
unfolding transition
transition_deeper pending t u h = ground arith
transition_deeper processing t u h = ground arith
transition_deeper completed t u h = ground arith
transition_deeper failed t u h = ground arith

-- Every sequence of transitions that throws nowhere goes one state deeper at each, so a payment passes
-- at most two of them and never leaves COMPLETED or FAILED.
pub follow_deeper :
    (ts : List PaymentStatus) (s u : PaymentStatus)
    → follow s ts ≡ some u
    → depth u ≡ depth s + length ts
follow_deeper [] s u h = ground (arith, h)
follow_deeper (t ∷ ts) s u h = elim (Option-cases (transition s t)) [
  | inl refused ↦ ground (arith, refused)
  | inr (v, passed) ↦ ground (arith, passed, transition_deeper s t v passed, follow_deeper ts v u)
]
