-- ===== src/OrderManager/Accounting.antt =====
-- The books of an order: its history, its fills and the position that they move.
use nexus_trade_engine.Prelude.{
  ℕ, ◌≡◌, ◌≢◌, refl, sym, ap, ◌∙◌, Option, none, some, List, [], ◌∷◌, ◌++◌, arith, if◌then◌else◌,
  string_eq,
}
use nexus_trade_engine.Prelude.Int.{ℤ, pos, ◌+ℤ◌, ◌-ℤ◌, ◌≤ℤ◌, ltb_ℤ}
use nexus_trade_engine.Portfolio.{Portfolio}
use nexus_trade_engine.OrderManager.{
  Desk, Order, Fill, FillResult, Side, buy, sell, hold, OrderStatus, pending, filled,
  partially_filled, Transition, Reason, Failure, portfolio_error, transition, or_zero,
}
use nexus_trade_engine.OrderManager.Reconcile.{apply_fill}
use nexus_trade_engine.OrderManager.Units.{position_units, moved}

-- The transitions lead from one status to another.
abbrev pub IsChained : OrderStatus → List Transition → OrderStatus → Type 0
IsChained s [] t = s ≡ t
IsChained s (x ∷ history) t = (x.source ≡ s) × IsChained x.target history t

IsChained-append :
    (s t : OrderStatus) (history : List Transition) (x : Transition)
    → IsChained s history t
    → x.source ≡ t
    → IsChained s (history ++ x ∷ []) x.target
IsChained-append s t [] x h e = (e ∙ sym h, refl)
IsChained-append s t (y ∷ history) x h e = (h.0, IsChained-append y.target t history x h.1 e)

sum_assoc : (a b c : ℤ) → (a +ℤ b) +ℤ c ≡ a +ℤ (b +ℤ c)
unfolding ◌+ℤ◌
sum_assoc a b c = ground arith

sum_comm : (a b : ℤ) → a +ℤ b ≡ b +ℤ a
unfolding ◌+ℤ◌
sum_comm a b = ground arith

-- A sum that is not below a bound.
reached :
    (new bound : ℤ) → (if ltb_ℤ new bound then partially_filled else filled) ≡ filled → bound ≤ℤ new
reached new bound h = ground (arith, h)

sum_zero : (a : ℤ) → a +ℤ pos 0 ≡ a
unfolding ◌+ℤ◌
sum_zero a = ground arith

difference_sum : (a b c : ℤ) → (a -ℤ b) -ℤ c ≡ a -ℤ (b +ℤ c)
unfolding ◌+ℤ◌ ◌-ℤ◌
difference_sum a b c = ground arith

difference_zero : (a : ℤ) → a -ℤ pos 0 ≡ a
unfolding ◌-ℤ◌
difference_zero a = ground arith

module _ (desk : Desk) where
  open desk use {money, Float, zero}

  -- The shares of the fills.
  abbrev pub filled_shares : List (Fill desk) → ℤ
  filled_shares [] = pos 0
  filled_shares (fill ∷ fills) = fill.quantity +ℤ filled_shares fills

  filled_shares-append :
      (fills : List (Fill desk)) (fill : Fill desk)
      → filled_shares (fills ++ fill ∷ []) ≡ filled_shares fills +ℤ fill.quantity
  filled_shares-append [] fill = sum_comm fill.quantity (pos 0)
  filled_shares-append (x ∷ fills) fill =
      ap (λ s. x.quantity +ℤ s) (filled_shares-append fills fill)
      ∙ sym (sum_assoc x.quantity (filled_shares fills) fill.quantity)

  -- The history leads to the status, the fills sum up to the filled quantity, and an order that is
  -- filled has all its shares.
  pub record IsAccounted (order : Order desk) : Type 0 where
    pub chained : IsChained pending order.status_history order.status
    pub sums : filled_shares order.fills ≡ or_zero order.fill_quantity
    pub done : order.status ≡ filled → order.quantity ≤ℤ or_zero order.fill_quantity

  pub transition-IsAccounted :
      (status : OrderStatus) (reason : Reason) (order : Order desk)
      → IsAccounted order
      → status ≢ filled
      → IsAccounted (transition desk status reason order)
  transition-IsAccounted status reason order accounted other = record {
    chained =
        IsChained-append pending order.status order.status_history
          record { source = order.status; target = status; reason = reason } accounted.chained refl;
    sums = accounted.sums;
    done = λ e. absurd (other e);
  }

  pub apply_fill-IsAccounted :
      (now : ℕ) (fill : FillResult desk) (order : Order desk)
      → IsAccounted order
      → IsAccounted (apply_fill desk now fill order)
  unfolding apply_fill
  apply_fill-IsAccounted now fill order accounted = record {
    chained = IsChained-append pending order.status order.status_history _ accounted.chained refl;
    sums =
        filled_shares-append order.fills
          record { price = fill.price; quantity = fill.quantity; timestamp = now }
        ∙ ap (λ s. s +ℤ fill.quantity) accounted.sums;
    done = reached (or_zero order.fill_quantity +ℤ fill.quantity) order.quantity;
  }

  -- What lies between two states of an order and the portfolio: the position moved by the shares that
  -- were filled.
  abbrev pub Moves : Order desk → Portfolio money → Order desk → Portfolio money → Type 0
  Moves order p order' p' =
      (shares : ℤ) × (or_zero order'.fill_quantity ≡ or_zero order.fill_quantity +ℤ shares)
      × (position_units desk order.symbol p'
          ≡ moved desk order.side (position_units desk order.symbol p) shares)

  pub moved_zero : (side : Side) (held : ℤ) → held ≡ moved desk side held (pos 0)
  moved_zero buy held = sym (sum_zero held)
  moved_zero sell held = sym (difference_zero held)
  moved_zero hold held = refl

  moved_twice :
      (side : Side) (held a b : ℤ)
      → moved desk side (moved desk side held a) b ≡ moved desk side held (a +ℤ b)
  moved_twice buy held a b = sum_assoc held a b
  moved_twice sell held a b = difference_sum held a b
  moved_twice hold held a b = refl

  pub stays-Moves : (order : Order desk) (p : Portfolio money) → Moves order p order p
  stays-Moves order p = (
    pos 0,
    sym (sum_zero (or_zero order.fill_quantity)),
    moved_zero order.side (position_units desk order.symbol p),
  )

  -- The portfolio took every fill.
  abbrev pub IsBooked : Option Failure → Type 0
  IsBooked none = Unit
  IsBooked (some (portfolio_error e)) = ⊥
  IsBooked (some _) = Unit

  -- One fill and then more.
  pub filled-Moves :
      (now : ℕ) (fill : FillResult desk) (order order' : Order desk) (p p1 p' : Portfolio money)
      → position_units desk order.symbol p1
        ≡ moved desk order.side (position_units desk order.symbol p) fill.quantity
      → Moves (apply_fill desk now fill order) p1 order' p'
      → Moves order p order' p'
  unfolding apply_fill
  filled-Moves now fill order order' p p1 p' first (shares, total, units) = (
    fill.quantity +ℤ shares,
    total ∙ sum_assoc (or_zero order.fill_quantity) fill.quantity shares,
    units
        ∙ ap (λ held. moved desk order.side held shares) first
        ∙ moved_twice order.side (position_units desk order.symbol p) fill.quantity shares,
  )
