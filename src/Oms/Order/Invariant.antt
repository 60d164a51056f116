-- ===== src/Oms/Order/Invariant.antt =====
-- What every order keeps: the checks of the constructor, and that the filled quantity never passes
-- the ordered one and reaches it exactly in the status `filled`.
use nexus_trade_engine.Prelude.{◌≡◌, ◌≢◌, true, false, ◌&&◌, ok, arith}
use nexus_trade_engine.Prelude.Int.{ℤ, pos, ◌≤ℤ◌, ◌<ℤ◌}
use nexus_trade_engine.Oms.States
use nexus_trade_engine.Oms.States.{OrderStatus, can_transition, status_beq_iff}
use nexus_trade_engine.Oms.Events.{OrderEvent, submit_event, partial_fill_event, fill_event}
use nexus_trade_engine.Oms.Order.{
  Order, missing_price, needs_limit, needs_stop, post_init, with_status, apply_event,
}
use nexus_trade_engine.Oms.Order.Steps.{target, Fits, after, apply_event-ok}

pub record IsValid (o : Order) : Type 0 where
  pub quantity_positive : pos 0 <ℤ o.quantity
  pub limit_present : (needs_limit o.order_type && missing_price o.limit_price) ≡ false
  pub stop_present : (needs_stop o.order_type && missing_price o.stop_price) ≡ false
  pub filled_within : o.filled_quantity ≤ℤ o.quantity
  pub filled_exactly : o.status ≡ States.filled → o.filled_quantity ≡ o.quantity
  pub open_short : o.status ≢ States.filled → o.filled_quantity <ℤ o.quantity

not-from-filled : (s t : OrderStatus) → can_transition s t ≡ true → s ≢ States.filled
unfolding can_transition
not-from-filled s t h = ground arith

module _ (divide : ℤ → ℤ → ℤ) where
  after-IsValid :
      (o : Order) (e : OrderEvent)
      → IsValid o
      → o.status ≢ States.filled
      → Fits o e
      → IsValid (after divide o e)
  after-IsValid o (submit_event at b) v n f = ground (arith, v.open_short n)
  after-IsValid o (partial_fill_event at q p i) v n f = ground (arith, v.open_short n)
  after-IsValid o (fill_event at q p i) v n f = ground (arith, v.open_short n)
  after-IsValid o _ v n f = ground (arith, v.open_short n)

  -- Every event that a valid order accepts leaves a valid order.
  pub apply_event-IsValid :
      (o : Order) (e : OrderEvent) (o' : Order)
      → IsValid o
      → apply_event divide o e ≡ ok o'
      → IsValid o'
  apply_event-IsValid o e o' v h =
      let (allowed, fits, same) = apply_event-ok divide o e o' h in
      rw same (after-IsValid o e v (not-from-filled o.status (target o e) allowed) fits)

  -- On a valid order an event is accepted as soon as the transition that it
  -- asks for is allowed and what it fills fits.
  pub apply_event-accepts :
      (o : Order) (e : OrderEvent)
      → IsValid o
      → can_transition o.status (target o e) ≡ true
      → Fits o e
      → apply_event divide o e ≡ ok (after divide o e)
  unfolding apply_event with_status post_init
  apply_event-accepts o (submit_event at b) v h f = ground arith
  apply_event-accepts o (partial_fill_event at q p i) v h f = ground arith
  apply_event-accepts o (fill_event at q p i) v h f = ground arith
  apply_event-accepts o _ v h f = ground arith
