-- ===== src/Oms/Order.antt =====
-- engine/core/oms/order.py: the order and its state machine. An order is immutable: `apply_event`
-- returns a new one. A quantity or a price is a `Decimal`, taken as a whole number of
-- the smallest unit of its kind, and a notional is counted in the product of the two units, so
-- sums, differences, products and comparisons are exact; `divide` is the context's division of a
-- notional by a quantity, which rounds.
pub mod Steps
pub mod Invariant
pub mod History
pub mod Average
pub mod Signs
use nexus_trade_engine.Prelude.{
  ℕ, String, Option, none, some, Bool, true, false, ◌&&◌, ◌||◌, ◌≡◌, not, if◌then◌else◌, ◌==◌,
  Outcome, ok, err, ◌>>=◌, ◌>>◌, raise_if,
}
use nexus_trade_engine.Prelude.Int.{ℤ, pos, ◌+ℤ◌, ◌-ℤ◌, ◌*ℤ◌, ltb_ℤ, leb_ℤ, int_eq}
use nexus_trade_engine.Prelude.Text.{or_else}
use nexus_trade_engine.Oms.States
use nexus_trade_engine.Oms.States.{
  OrderSide, OrderType, OrderStatus, market, limit, stop, stop_limit, can_transition, status_eq,
}
use nexus_trade_engine.Oms.Events.{
  OrderEvent, submit_event, ack_event, partial_fill_event, fill_event, cancel_event, reject_event,
  expire_event,
}

pub data OmsError : Type 0 where
  illegal_transition : OrderStatus → OrderStatus → OmsError
  over_fill : ℤ → ℤ → OmsError
  bad_quantity bad_limit_price bad_stop_price : OmsError

-- `Order`; `id` is opaque and only compared.
pub record Order : Type 0 where
  pub id : ℕ
  pub symbol : String
  pub side : OrderSide
  pub order_type : OrderType
  pub quantity : ℤ
  pub limit_price : Option ℤ
  pub stop_price : Option ℤ
  pub status : OrderStatus
  pub filled_quantity : ℤ
  pub average_fill_price : Option ℤ
  pub broker_order_id : Option String
  pub reject_reason : Option String
  pub created_at : ℕ
  pub updated_at : ℕ

-- `price is None or price <= 0`
abbrev pub missing_price : Option ℤ → Bool
missing_price none = true
missing_price (some p) = leb_ℤ p (pos 0)

abbrev pub needs_limit : OrderType → Bool
needs_limit limit = true
needs_limit stop_limit = true
needs_limit _ = false

abbrev pub needs_stop : OrderType → Bool
needs_stop stop = true
needs_stop stop_limit = true
needs_stop _ = false

-- `__post_init__`, which the constructor and `dataclasses.replace` both run.
unfoldable pub post_init : Order → Outcome OmsError Order
post_init o = do
  raise_if (leb_ℤ o.quantity (pos 0)) bad_quantity
  raise_if (needs_limit o.order_type && missing_price o.limit_price) bad_limit_price
  raise_if (needs_stop o.order_type && missing_price o.stop_price) bad_stop_price
  ok o

unfoldable remaining_quantity : Order → ℤ
remaining_quantity o = o.quantity -ℤ o.filled_quantity

-- What an event writes besides the status and the time: `**changes` of `_with_status`.
pub data Changes : Type 0 where
  no_change : Changes
  broker_id : Option String → Changes
  fill : ℤ → ℤ → Changes
  rejection : String → Changes

abbrev pub write : Changes → Order → Order
write no_change o = o
write (broker_id b) o = record o { broker_order_id = b }
write (fill filled avg) o = record o { filled_quantity = filled; average_fill_price = some avg }
write (rejection reason) o = record o { reject_reason = some reason }

unfoldable pub with_status : Order → OrderStatus → ℕ → Changes → Outcome OmsError Order
with_status o new_status at changes = do
  raise_if (not (can_transition o.status new_status)) (illegal_transition o.status new_status)
  post_init (write changes (record o { status = new_status; updated_at = at }))

guard_fill : Order → ℤ → Outcome OmsError (Unit {0})
guard_fill o new_filled = raise_if (ltb_ℤ o.quantity new_filled) (over_fill new_filled o.quantity)

-- `self.average_fill_price or Decimal("0")`
abbrev pub prior_average : Order → ℤ
prior_average o = elim (o.average_fill_price) [ none ↦ pos 0 | some p ↦ p ]

module _ (divide : ℤ → ℤ → ℤ) where
  unfoldable pub next_avg : Order → ℤ → ℤ → ℤ
  next_avg o fill_qty fill_price =
      let new_qty = o.filled_quantity +ℤ fill_qty in
      if new_qty == pos 0
      then pos 0
      else divide (prior_average o *ℤ o.filled_quantity +ℤ fill_price *ℤ fill_qty) new_qty

  unfoldable pub apply_event : Order → OrderEvent → Outcome OmsError Order
  unfolding guard_fill
  apply_event o (submit_event at b) =
      with_status o States.submitted at (broker_id (or_else b o.broker_order_id))
  apply_event o (ack_event at b) =
      with_status o States.acknowledged at (broker_id (or_else (some b) o.broker_order_id))
  apply_event o (partial_fill_event at q p fill_id) =
      let new_filled = o.filled_quantity +ℤ q in
      do
        guard_fill o new_filled
        with_status o (if new_filled == o.quantity then States.filled else States.partially_filled)
            at (fill new_filled (next_avg o q p))
  apply_event o (fill_event at q p fill_id) =
      let new_filled = o.filled_quantity +ℤ q in
      do
        guard_fill o new_filled
        raise_if (not (new_filled == o.quantity)) (over_fill new_filled o.quantity)
        with_status o States.filled at (fill new_filled (next_avg o q p))
  apply_event o (cancel_event at requested reason) =
      with_status o (if requested then States.cancel_requested else States.cancelled) at no_change
  apply_event o (reject_event at reason) = with_status o States.rejected at (rejection reason)
  apply_event o (expire_event at) = with_status o States.expired at no_change
