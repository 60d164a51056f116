-- ===== src/Oms/States/Reach.antt =====
-- The transition diagram of states.py as a relation, and what any walk through it can meet.
use nexus_trade_engine.Prelude.{◌≡◌, refl, true, false, arith}
use nexus_trade_engine.Oms.States.{
  OrderStatus, filled, cancelled, rejected, expired, can_transition, is_terminal,
}

-- A walk of allowed transitions.
pub data Walk (s : OrderStatus) : OrderStatus → Type 0 where
  here : Walk s s
  next : {t : OrderStatus} (u : OrderStatus) → Walk s t → can_transition t u ≡ true → Walk s u

-- A status is terminal exactly when no transition leaves it.
pub is_terminal_iff :
    (s : OrderStatus)
    → ((is_terminal s ≡ true) → (t : OrderStatus) → can_transition s t ≡ false)
      × (((t : OrderStatus) → can_transition s t ≡ false) → is_terminal s ≡ true)
unfolding is_terminal can_transition
is_terminal_iff s = (λ h t. ground arith, λ h. ground (arith, h cancelled))

-- From every status the diagram has a walk to a terminal one.
Walk-closes : (s : OrderStatus) → (t : OrderStatus) × Walk s t × (is_terminal t ≡ true)
unfolding is_terminal can_transition
Walk-closes filled = (filled, here, refl)
Walk-closes rejected = (rejected, here, refl)
Walk-closes expired = (expired, here, refl)
Walk-closes cancelled = (cancelled, here, refl)
Walk-closes _ = (cancelled, next cancelled here refl, refl)
