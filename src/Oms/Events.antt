-- ===== src/Oms/Events.antt =====
-- engine/core/oms/events.py: one external fact about an order. Each event carries `occurred_at`,
-- an instant counted in microseconds; quantities and prices are `Decimal`s.
use nexus_trade_engine.Prelude.{ℕ, String, Option, Bool}
use nexus_trade_engine.Prelude.Int.{ℤ}

pub data OrderEvent : Type 0 where
  submit_event : (occurred_at : ℕ) (broker_order_id : Option String) → OrderEvent
  ack_event : (occurred_at : ℕ) (broker_order_id : String) → OrderEvent
  partial_fill_event :
      (occurred_at : ℕ) (fill_quantity fill_price : ℤ) (fill_id : String) → OrderEvent
  fill_event : (occurred_at : ℕ) (fill_quantity fill_price : ℤ) (fill_id : String) → OrderEvent
  cancel_event : (occurred_at : ℕ) (requested : Bool) (reason : Option String) → OrderEvent
  reject_event : (occurred_at : ℕ) (reason : String) → OrderEvent
  expire_event : (occurred_at : ℕ) → OrderEvent
