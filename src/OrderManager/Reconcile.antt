-- ===== src/OrderManager/Reconcile.antt =====
-- engine/core/order_manager.py, `_reconcile_fill`: a fill in the order, and in the portfolio.
use nexus_trade_engine.Prelude.{
  ℕ, String, Option, none, some, [], ◌∷◌, ◌++◌, if◌then◌else◌, Outcome, ok, err,
}
use nexus_trade_engine.Prelude.Int.{pos, ◌+ℤ◌, ltb_ℤ}
use nexus_trade_engine.Portfolio.{PortfolioError, Portfolio, get_or}
use nexus_trade_engine.Portfolio.Trades.{open_position, close_position}
use nexus_trade_engine.OrderManager.{
  Desk, Order, FillResult, CostBreakdown, Side, buy, sell, hold, filled, partially_filled,
  no_reason, transition, or_zero, total,
}

-- What an answer raised.
abbrev pub raised {ℓ} : {E A : Type ℓ} → Outcome E A → Option E
raised (ok a) = none
raised (err e) = some e

module _ (desk : Desk) where
  open desk use {money, Float, of_int, zero, add, sub, mul, div}

  -- The volume-weighted average price with one more fill.
  unfoldable pub next_vwap : Order desk → FillResult desk → Float
  next_vwap order fill =
      let prior_qty = or_zero order.fill_quantity in
      let new_qty = prior_qty +ℤ fill.quantity in
      if ltb_ℤ (pos 0) new_qty
      then div
          (add (mul (get_or order.fill_price zero) (of_int prior_qty))
            (mul fill.price (of_int fill.quantity)))
          (of_int new_qty)
      else fill.price

  -- The order with a fill.
  unfoldable pub apply_fill : ℕ → FillResult desk → Order desk → Order desk
  unfolding next_vwap
  apply_fill now fill order =
      let new_qty = or_zero order.fill_quantity +ℤ fill.quantity in
      let status = if ltb_ℤ new_qty order.quantity then partially_filled else filled in
      transition desk status no_reason record order {
        fill_price = some (next_vwap order fill);
        fill_quantity = some new_qty;
        filled_at = some now;
        fills =
            order.fills
            ++ record { price = fill.price; quantity = fill.quantity; timestamp = now } ∷ [];
      }

  -- The portfolio with a fill of an order, and what it raised.
  unfoldable pub book :
      ℕ
      → String
      → Side
      → String
      → FillResult desk
      → CostBreakdown desk
      → Portfolio money
      → Portfolio money × Option PortfolioError
  book now lot_id buy symbol fill costs p =
      let (p', outcome) =
        open_position money now lot_id symbol fill.quantity fill.price (total desk costs) p in
      (p', raised outcome)
  book now lot_id sell symbol fill costs p =
      let tax = costs.tax_estimate in
      let (p', outcome) =
        close_position money now symbol fill.quantity fill.price (sub (total desk costs) tax) tax
          p in
      (p', raised outcome)
  book now lot_id hold symbol fill costs p = (p, none)
