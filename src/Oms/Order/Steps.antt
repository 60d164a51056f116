-- ===== src/Oms/Order/Steps.antt =====
-- An accepted event in one equation: the status that it asks for, what it writes, and what it
-- checks first.
use nexus_trade_engine.Prelude.{ℕ, ◌≡◌, true, some, ok, arith, if◌then◌else◌, ◌==◌}
use nexus_trade_engine.Prelude.Int.{ℤ, ◌≤ℤ◌, ◌+ℤ◌, int_eq, pos}
use nexus_trade_engine.Prelude.Text.{or_else}
use nexus_trade_engine.Oms.States
use nexus_trade_engine.Oms.States.{OrderStatus, can_transition}
use nexus_trade_engine.Oms.Events.{
  OrderEvent, submit_event, ack_event, partial_fill_event, fill_event, cancel_event, reject_event,
  expire_event,
}
use nexus_trade_engine.Oms.Order.{
  Order, Changes, no_change, broker_id, fill, rejection, write, post_init, with_status, apply_event,
  next_avg,
}

-- The instant of an event.
abbrev pub occurred_at : OrderEvent → ℕ
occurred_at (submit_event at _) = at
occurred_at (ack_event at _) = at
occurred_at (partial_fill_event at _ _ _) = at
occurred_at (fill_event at _ _ _) = at
occurred_at (cancel_event at _ _) = at
occurred_at (reject_event at _) = at
occurred_at (expire_event at) = at

-- How much an event fills.
abbrev pub fill_of : OrderEvent → ℤ
fill_of (partial_fill_event _ q _ _) = q
fill_of (fill_event _ q _ _) = q
fill_of _ = pos 0

-- The status that an event asks for.
abbrev pub target : Order → OrderEvent → OrderStatus
target o (submit_event _ _) = States.submitted
target o (ack_event _ _) = States.acknowledged
target o (partial_fill_event _ q _ _) =
    if o.filled_quantity +ℤ q == o.quantity then States.filled else States.partially_filled
target o (fill_event _ _ _ _) = States.filled
target o (cancel_event _ r _) = if r then States.cancel_requested else States.cancelled
target o (reject_event _ _) = States.rejected
target o (expire_event _) = States.expired

-- What a fill must satisfy before the transition is looked at.
abbrev pub Fits : Order → OrderEvent → Type 0
Fits o (partial_fill_event _ q _ _) = o.filled_quantity +ℤ q ≤ℤ o.quantity
Fits o (fill_event _ q _ _) = o.filled_quantity +ℤ q ≡ o.quantity
Fits o _ = Unit

module _ (divide : ℤ → ℤ → ℤ) where
  abbrev pub changes : Order → OrderEvent → Changes
  changes o (submit_event _ b) = broker_id (or_else b o.broker_order_id)
  changes o (ack_event _ b) = broker_id (or_else (some b) o.broker_order_id)
  changes o (partial_fill_event _ q p _) = fill (o.filled_quantity +ℤ q) (next_avg divide o q p)
  changes o (fill_event _ q p _) = fill (o.filled_quantity +ℤ q) (next_avg divide o q p)
  changes o (cancel_event _ _ _) = no_change
  changes o (reject_event _ m) = rejection m
  changes o (expire_event _) = no_change

  -- The order after an accepted event.
  abbrev pub after : Order → OrderEvent → Order
  after o e = write (changes o e) (record o { status = target o e; updated_at = occurred_at e })

post_init-ok : (o o' : Order) → post_init o ≡ ok o' → o' ≡ o
unfolding post_init
post_init-ok o o' h = ground arith

with_status-ok :
    (o : Order) (s : OrderStatus) (at : ℕ) (c : Changes) (o' : Order)
    → with_status o s at c ≡ ok o'
    → (can_transition o.status s ≡ true) × (o' ≡ write c (record o { status = s; updated_at = at }))
unfolding with_status
with_status-ok o s at c o' h =
    ground (arith, post_init-ok (write c (record o { status = s; updated_at = at })) o')

module _ (divide : ℤ → ℤ → ℤ) where
  -- An accepted event was an allowed transition, fitted, and gave `after`.
  pub apply_event-ok :
      (o : Order) (e : OrderEvent) (o' : Order)
      → apply_event divide o e ≡ ok o'
      → (can_transition o.status (target o e) ≡ true) × Fits o e × (o' ≡ after divide o e)
  unfolding apply_event
  apply_event-ok o (submit_event at b) o' h = ground (
    arith,
    with_status-ok o (target o (submit_event at b)) at (changes divide o (submit_event at b)) o',
  )
  apply_event-ok o (ack_event at b) o' h = ground (
    arith,
    with_status-ok o (target o (ack_event at b)) at (changes divide o (ack_event at b)) o',
  )
  apply_event-ok o (partial_fill_event at q p i) o' h = ground (
    arith,
    with_status-ok o (target o (partial_fill_event at q p i)) at
        (changes divide o (partial_fill_event at q p i)) o',
  )
  apply_event-ok o (fill_event at q p i) o' h = ground (
    arith,
    with_status-ok o (target o (fill_event at q p i)) at (changes divide o (fill_event at q p i))
        o',
  )
  apply_event-ok o (cancel_event at r m) o' h = ground (
    arith,
    with_status-ok o (target o (cancel_event at r m)) at (changes divide o (cancel_event at r m))
        o',
  )
  apply_event-ok o (reject_event at m) o' h = ground (
    arith,
    with_status-ok o (target o (reject_event at m)) at (changes divide o (reject_event at m)) o',
  )
  apply_event-ok o (expire_event at) o' h = ground (
    arith,
    with_status-ok o (target o (expire_event at)) at (changes divide o (expire_event at)) o',
  )
