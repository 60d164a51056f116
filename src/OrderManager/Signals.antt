-- ===== src/OrderManager/Signals.antt =====
-- What a signal leaves of the order, the portfolio and the record of orders.
use nexus_trade_engine.Prelude.{
  ℕ, String, ◌≡◌, ◌≢◌, refl, sym, ap, ◌∙◌, Option, none, some, List, Bool-cases, Option-cases,
  Outcome, ok, err, inl, inr, ◌⊎◌,
}
use nexus_trade_engine.Prelude.Int.{ℤ, ◌+ℤ◌}
use nexus_trade_engine.Portfolio.{Portfolio}
use nexus_trade_engine.OrderManager.{
  Desk, Signal, Order, FillResult, CostBreakdown, OrderStatus, pending, filled, failed, rejected,
  validated, costed, risk_rejected, risk_approved, submitted, no_reason, no_backend, cost_exceeds,
  validation_failed, Reason, backend, Failure, bus_error, portfolio_error, transition, or_zero,
  new_order, order_quantity, validate_order,
}
use nexus_trade_engine.OrderManager.Risk.{check_order}
use nexus_trade_engine.OrderManager.Reconcile.{apply_fill, book}
use nexus_trade_engine.OrderManager.Pipeline.{
  OrderManager, Backend, Bus, BusError, infrastructure, other, escapes, publish_fill_event,
  is_filled, complete, settle, risk_and_execute, too_costly, process_signal, risk_reason,
}
use nexus_trade_engine.OrderManager.Units.{from_none, position_units, moved, book-units}
use nexus_trade_engine.OrderManager.Accounting.{
  IsAccounted, transition-IsAccounted, apply_fill-IsAccounted, moved_zero,
}

module _ (desk : Desk) where
  open desk use {money, Float}

  -- An order that no fill has reached.
  abbrev IsUnfilled : Order desk → Type 0
  IsUnfilled order = IsAccounted desk order × (order.fill_quantity ≡ none)

  transition-IsUnfilled :
      (status : OrderStatus) (reason : Reason) (order : Order desk)
      → IsUnfilled order
      → status ≢ filled
      → IsUnfilled (transition desk status reason order)
  transition-IsUnfilled status reason order (accounted, empty) unequal =
      (transition-IsAccounted desk status reason order accounted unequal, empty)

  -- The order that a call returns is accounted for, and the position in its symbol moved by what was
  -- filled; without a fill the portfolio stays. When the portfolio raised, the completed orders stay.
  abbrev pub IsSound :
      Portfolio money
      → List (Order desk)
      → OrderManager desk × Outcome Failure (Order desk)
      → Type 0
  IsSound p completed (m, ok order) =
      IsAccounted desk order
      × (position_units desk order.symbol m.portfolio
          ≡ moved desk order.side (position_units desk order.symbol p)
              (or_zero order.fill_quantity))
      × (order.fill_quantity ≡ none → m.portfolio ≡ p)
  IsSound p completed (m, err (portfolio_error e)) = m.completed_orders ≡ completed
  IsSound p completed (m, err _) = Unit

  unfilled-IsSound :
      (p : Portfolio money) (completed : List (Order desk)) (m : OrderManager desk)
      (order : Order desk)
      → IsUnfilled order
      → m.portfolio ≡ p
      → IsSound p completed (m, ok order)
  unfilled-IsSound p completed m order (accounted, empty) same = (
    accounted,
    ap (position_units desk order.symbol) same
        ∙ moved_zero desk order.side (position_units desk order.symbol p)
        ∙ ap (λ q. moved desk order.side (position_units desk order.symbol p) (or_zero q))
            (sym empty),
    λ h. same,
  )

  escapes-cases :
      (answer : Option BusError) → (escapes answer ≡ none) ⊎ (escapes answer ≡ some bus_error)
  escapes-cases none = inl refl
  escapes-cases (some infrastructure) = inl refl
  escapes-cases (some other) = inr refl

  publish_fill_event-cases :
      (bus : Option (Bus desk)) (order : Order desk)
      → (publish_fill_event desk bus order ≡ none)
        ⊎ (publish_fill_event desk bus order ≡ some bus_error)
  publish_fill_event-cases none order = inl refl
  publish_fill_event-cases (some bus) order = escapes-cases (bus order)

  -- The record of an order leaves the portfolio, and what publishing raises is no refusal.
  complete-IsSound :
      (p : Portfolio money) (completed : List (Order desk)) (order : Order desk)
      (m : OrderManager desk)
      → IsSound p completed (m, ok order)
      → IsSound p completed (complete desk order m)
  unfolding complete
  complete-IsSound p completed order m sound = elim (Bool-cases (is_filled order.status)) [
    | inr not_done ↦ simp (not_done, complete) sound
    | inl done ↦ elim (publish_fill_event-cases m.event_bus order) [
      | inl published ↦ simp (done, published, complete) sound
      | inr escaped ↦ simp (done, escaped, complete) tt
    ]
  ]

  settle-IsSound :
      (now : ℕ) (lot_id : String) (order : Order desk) (fill : FillResult desk)
      (costs : CostBreakdown desk) (m : OrderManager desk)
      → IsUnfilled order
      → IsSound m.portfolio m.completed_orders (settle desk now lot_id order fill costs m)
  unfolding settle apply_fill
  settle-IsSound now lot_id order fill costs m unfilled =
      let booking = book desk now lot_id order.side order.symbol fill costs m.portfolio in
      elim (Bool-cases fill.success) [
        | inr no_fill ↦
            simp (no_fill, settle)
              (complete-IsSound m.portfolio m.completed_orders
                (transition desk failed (backend fill.reason) order) m
                (unfilled-IsSound m.portfolio m.completed_orders m _
                  (transition-IsUnfilled failed (backend fill.reason) order unfilled (λ e. cc))
                  refl))
        | inl success ↦ elim (Option-cases booking.1) [
          | inr (e, refused) ↦ simp (success, refused, settle) refl
          | inl taken ↦
              let order' = apply_fill desk now fill order in
              let amount : or_zero order'.fill_quantity ≡ fill.quantity =
                ap (λ o. or_zero o +ℤ fill.quantity) unfilled.1 ∙ sym (from_none fill.quantity) in
              simp (success, taken, settle)
                (complete-IsSound m.portfolio m.completed_orders order'
                  record m { portfolio = booking.0 }
                  (
                    apply_fill-IsAccounted desk now fill order unfilled.0,
                    book-units desk now lot_id order.side order.symbol fill costs m.portfolio taken
                        ∙ ap (moved desk order.side (position_units desk order.symbol m.portfolio))
                            (sym amount),
                    λ h.
                        let k : some (or_zero order.fill_quantity +ℤ fill.quantity) ≡ none = h in
                        cc,
                  ))
        ]
      ]

  risk_and_execute-IsSound :
      (now : ℕ) (lot_id : String) (execution_backend : Option (Backend desk)) (market_price : Float)
      (costs : CostBreakdown desk) (order : Order desk) (m : OrderManager desk)
      → IsUnfilled order
      → IsSound m.portfolio m.completed_orders
          (risk_and_execute desk now lot_id execution_backend market_price costs order m)
  unfolding risk_and_execute
  risk_and_execute-IsSound now lot_id execution_backend market_price costs order m unfilled =
      let (engine, result) = check_order desk order m.portfolio market_price m.risk_engine in
      let m1 : OrderManager desk = record m { risk_engine = engine } in
      let approved = transition-IsUnfilled risk_approved no_reason order unfilled (λ e. cc) in
      elim (Bool-cases result.approved) [
        | inr refused ↦
            simp (refused, risk_and_execute)
              (unfilled-IsSound m.portfolio m.completed_orders m1 _
                (transition-IsUnfilled risk_rejected (risk_reason result.reason) order unfilled
                  (λ e. cc))
                refl)
        | inl granted ↦ elim (Option-cases execution_backend) [
          | inl missing ↦
              simp (granted, missing, risk_and_execute)
                (unfilled-IsSound m.portfolio m.completed_orders m1 _
                  (transition-IsUnfilled failed no_backend
                    (transition desk risk_approved no_reason order) approved (λ e. cc))
                  refl)
          | inr (execute, present) ↦
              let sent =
                transition desk submitted no_reason
                  (transition desk risk_approved no_reason order) in
              simp (granted, present, risk_and_execute)
                (settle-IsSound now lot_id sent (execute sent market_price costs) costs m1 (
                  transition-IsUnfilled submitted no_reason
                    (transition desk risk_approved no_reason order) approved (λ e. cc)))
        ]
      ]

  new_order-IsUnfilled :
      (id : String) (quantity : ℤ) (signal : Signal desk)
      → IsUnfilled (new_order desk id quantity signal)
  new_order-IsUnfilled id quantity signal =
      (record { chained = refl; sums = refl; done = λ h. let k : pending ≡ filled = h in cc }, refl)

  -- Whatever comes of a signal, the order that is returned is accounted for: its history leads from
  -- pending to its status, its fills sum up to what is filled, and if it is filled it has all its
  -- shares; the position in its symbol moved by what was filled (not at all for an order to hold,
  -- which no caller hands over), and without a fill the portfolio is as it was. A call that raises because the portfolio refuses the fill adds nothing to the completed
  -- orders.
  pub process_signal-IsSound :
      (now : ℕ) (id lot_id : String) (execution_backend : Option (Backend desk))
      (signal : Signal desk) (market_price : Float) (avg_volume : ℤ) (m : OrderManager desk)
      → IsSound m.portfolio m.completed_orders
          (process_signal desk now id lot_id execution_backend signal market_price avg_volume m)
  unfolding process_signal
  process_signal-IsSound now id lot_id execution_backend signal market_price avg_volume m =
      let quantity = order_quantity desk signal market_price m.portfolio in
      let order = new_order desk id quantity signal in
      let new = new_order-IsUnfilled id quantity signal in
      let costs = m.cost_model order.symbol order.quantity market_price order.side avg_volume in
      let order1 : Order desk =
        transition desk costed no_reason
          record (transition desk validated no_reason order) { cost_breakdown = some costs } in
      let last : (validated ≡ validated) × (costed ≡ costed) = (refl, refl) in
      let new1 : IsUnfilled order1 = (
        record {
          chained = (refl, last);
          sums = refl;
          done = λ h. let k : costed ≡ filled = h in cc;
        },
        refl,
      ) in
      elim (Bool-cases (validate_order desk order market_price m.portfolio)) [
        | inr invalid ↦
            simp (invalid, process_signal)
              (unfilled-IsSound m.portfolio m.completed_orders m _
                (transition-IsUnfilled rejected validation_failed order new (λ e. cc)) refl)
        | inl valid ↦ elim (Bool-cases (too_costly desk signal order1 market_price costs)) [
          | inl costly ↦
              simp (valid, costly, process_signal)
                (unfilled-IsSound m.portfolio m.completed_orders m _
                  (transition-IsUnfilled risk_rejected cost_exceeds order1 new1 (λ e. cc)) refl)
          | inr cheap ↦
              simp (valid, cheap, process_signal)
                (risk_and_execute-IsSound now lot_id execution_backend market_price costs order1 m
                  new1)
        ]
      ]
