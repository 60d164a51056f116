-- ===== src/Oms/Order/Signs.antt =====
-- The sign of fills: `apply_event` does not look at it.
use nexus_trade_engine.Prelude.{ℕ, String, ◌≡◌, true, false, ok, arith, ◌==◌}
use nexus_trade_engine.Prelude.Int.{ℤ, pos, int_eq, ◌<ℤ◌, ◌+ℤ◌, int_laws, +ℤ_parts}
use nexus_trade_engine.Oms.States
use nexus_trade_engine.Oms.States.{can_transition}
use nexus_trade_engine.Oms.Events.{partial_fill_event}
use nexus_trade_engine.Oms.Order.{Order, apply_event}
use nexus_trade_engine.Oms.Order.Steps.{after}
use nexus_trade_engine.Oms.Order.Invariant.{IsValid, apply_event-accepts}

module _ (divide : ℤ → ℤ → ℤ) where
  -- A partial fill of a negative quantity is accepted by every valid order whose status may become
  -- partially filled, and lowers its filled quantity.
  pub negative_fill-accepted :
      (o : Order) (at : ℕ) (q p : ℤ) (i : String)
      → IsValid o
      → can_transition o.status States.partially_filled ≡ true
      → q <ℤ pos 0
      → (o' : Order) × (apply_event divide o (partial_fill_event at q p i) ≡ ok o')
        × (o'.filled_quantity <ℤ o.filled_quantity)
  negative_fill-accepted o at q p i v allowed neg =
      let short : (o.filled_quantity +ℤ q == o.quantity) ≡ false =
        ground (arith, +ℤ_parts o.filled_quantity q) in
      (
        after divide o (partial_fill_event at q p i),
        apply_event-accepts divide o (partial_fill_event at q p i) v (rw short allowed)
            (omega int_laws),
        omega int_laws,
      )
