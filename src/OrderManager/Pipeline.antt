-- ===== src/OrderManager/Pipeline.antt =====
-- engine/core/order_manager.py: from a signal to an order, and the continuation of an order that is
-- filled in part. The cost model, the backend's answers and the event bus are arguments; an answer of
-- the bus is none, or what it raised.
use nexus_trade_engine.Prelude.{
  ℕ, suc, ◌||◌, String, Option, none, some, Bool, true, false, not, List, [], ◌∷◌, ◌++◌,
  if◌then◌else◌, ◌==◌, string_eq, Outcome, ok, err, Dict, lookup, insert,
}
use nexus_trade_engine.Prelude.Int.{ℤ, pos, pos_part, ◌-ℤ◌, ltb_ℤ, leb_ℤ}
use nexus_trade_engine.Portfolio.{Portfolio, get_or}
use nexus_trade_engine.OrderManager.{
  Desk, Signal, Order, FillResult, CostBreakdown, Side, OrderStatus, validated, costed,
  risk_approved, risk_rejected, submitted, filled, partially_filled, rejected, failed, Reason,
  no_reason, validation_failed, cost_exceeds, no_backend, RiskReason, risk, backend, Failure,
  portfolio_error, bus_error, unknown_order, no_execution_backend, not_partially_filled, transition,
  new_order, order_quantity, validate_order, or_zero, total_without_tax,
}
use nexus_trade_engine.OrderManager.Risk.{RiskEngine, check_order}
use nexus_trade_engine.OrderManager.Reconcile.{apply_fill, book}

-- A ConnectionError, TimeoutError or RuntimeError, or another exception.
pub data BusError : Type 0 where
  infrastructure other : BusError

abbrev pub is_filled : OrderStatus → Bool
is_filled filled = true
is_filled partially_filled = true
is_filled _ = false

abbrev pub risk_reason : Option RiskReason → Reason
risk_reason none = no_reason
risk_reason (some reason) = risk reason

abbrev pub is_partial : OrderStatus → Bool
is_partial partially_filled = true
is_partial _ = false

-- `max(1, max_retries)`
abbrev pub attempts_cap : ℤ → ℕ
attempts_cap max_retries = if ltb_ℤ (pos 1) max_retries then pos_part max_retries else 1

-- The exceptions that are raised again.
abbrev pub escapes : Option BusError → Option Failure
escapes (some other) = some bus_error
escapes _ = none

module _ (desk : Desk) where
  open desk use {money, Float, of_int, zero, mul, div, lt, infinity}

  -- `ICostModel.estimate_total`: symbol, quantity, price, side, average volume.
  abbrev pub CostModel : Type 0
  CostModel = String → ℤ → Float → Side → ℤ → CostBreakdown desk

  -- `ExecutionBackend.execute`
  abbrev pub Backend : Type 0
  Backend = Order desk → Float → CostBreakdown desk → FillResult desk

  abbrev pub Bus : Type 0
  Bus = Order desk → Option BusError

  pub record OrderManager : Type 0 where
    pub cost_model : CostModel
    pub risk_engine : RiskEngine desk
    pub portfolio : Portfolio money
    pub event_bus : Option Bus
    pub pending_orders : Dict String (Order desk)
    pub completed_orders : List (Order desk)

  -- `_publish_fill_event`: what it raises.
  abbrev pub publish_fill_event : Option Bus → Order desk → Option Failure
  publish_fill_event none order = none
  publish_fill_event (some bus) order = escapes (bus order)

  abbrev pub or_raised : Option Failure → Order desk → Outcome Failure (Order desk)
  or_raised none order = ok order
  or_raised (some failure) order = err failure

  -- The end of `process_signal`, when the order is done: it is recorded, and then published.
  unfoldable pub complete : Order desk → OrderManager → OrderManager × Outcome Failure (Order desk)
  complete order m =
      let m' = record m { completed_orders = m.completed_orders ++ order ∷ [] } in
      (
        m',
        if is_filled order.status
            then or_raised (publish_fill_event m.event_bus order) order
            else ok order,
      )

  -- Reconciliation of an answer of the backend.
  unfoldable pub settle :
      ℕ
      → String
      → Order desk
      → FillResult desk
      → CostBreakdown desk
      → OrderManager
      → OrderManager × Outcome Failure (Order desk)
  unfolding complete
  settle now lot_id order fill costs m =
      if fill.success
      then (let (p', raised) =
            book desk now lot_id order.side order.symbol fill costs m.portfolio in
          let m' = record m { portfolio = p' } in
          elim raised [
            | none ↦ complete (apply_fill desk now fill order) m'
            | some e ↦ (m', err (portfolio_error e))
          ])
      else complete (transition desk failed (backend fill.reason) order) m

  -- The steps from the risk checks on.
  unfoldable pub risk_and_execute :
      ℕ
      → String
      → Option Backend
      → Float
      → CostBreakdown desk
      → Order desk
      → OrderManager
      → OrderManager × Outcome Failure (Order desk)
  unfolding settle
  risk_and_execute now lot_id execution_backend market_price costs order m =
      let (engine, result) = check_order desk order m.portfolio market_price m.risk_engine in
      let m1 = record m { risk_engine = engine } in
      if not result.approved
      then (m1, ok (transition desk risk_rejected (risk_reason result.reason) order))
      else (let approved = transition desk risk_approved no_reason order in
          elim execution_backend [
            | none ↦ (m1, ok (transition desk failed no_backend approved))
            | some execute ↦
                let sent = transition desk submitted no_reason approved in
                settle now lot_id sent (execute sent market_price costs) costs m1
          ])

  -- The cost is above what the signal tolerates.
  abbrev pub too_costly : Signal desk → Order desk → Float → CostBreakdown desk → Bool
  too_costly signal order market_price costs = elim signal.max_cost_pct [
    | none ↦ false
    | some max_cost_pct ↦
        let trade_value = mul (of_int order.quantity) market_price in
        let cost_pct =
          if lt zero trade_value
          then div (total_without_tax desk costs) trade_value
          else infinity in
        lt max_cost_pct cost_pct
  ]

  unfoldable pub process_signal :
      ℕ
      → String
      → String
      → Option Backend
      → Signal desk
      → Float
      → ℤ
      → OrderManager
      → OrderManager × Outcome Failure (Order desk)
  unfolding risk_and_execute
  process_signal now id lot_id execution_backend signal market_price avg_volume m =
      let order = new_order desk id (order_quantity desk signal market_price m.portfolio) signal in
      if not (validate_order desk order market_price m.portfolio)
      then (m, ok (transition desk rejected validation_failed order))
      else (let costs =
            m.cost_model order.symbol order.quantity market_price order.side avg_volume in
          let order1 =
            transition desk costed no_reason
              record (transition desk validated no_reason order) { cost_breakdown = some costs } in
          if too_costly signal order1 market_price costs
          then (m, ok (transition desk risk_rejected cost_exceeds order1))
          else risk_and_execute now lot_id execution_backend market_price costs order1 m)

  -- An order, the portfolio, and what was raised.
  abbrev pub Continued : Type 0
  Continued = Order desk × Portfolio money × Option Failure

  -- The loop of `continue_order`, from an attempt on, with what is left of the attempts. At each the
  -- backend answers anew, and a buy draws an identifier for its lot.
  unfoldable pub attempts :
      CostModel
      → Option Bus
      → (ℕ → Backend)
      → (ℕ → String)
      → ℕ
      → Float
      → ℕ
      → ℕ
      → Order desk
      → Portfolio money
      → Continued
  attempts cost_model bus answers lot_ids now price ℕ.zero attempt order p = (order, p, none)
  attempts cost_model bus answers lot_ids now price (suc left) attempt order p =
      let remaining = order.quantity -ℤ or_zero order.fill_quantity in
      let costs = cost_model order.symbol remaining price order.side (pos 0) in
      let fill = answers attempt order price costs in
      let order' = apply_fill desk now fill order in
      let (p', raised) = book desk now (lot_ids attempt) order.side order.symbol fill costs p in
      let rest = attempts cost_model bus answers lot_ids now price left (suc attempt) order' p' in
      if not (is_partial order.status) || leb_ℤ remaining (pos 0)
      then (order, p, none)
      else if not fill.success
      then (transition desk failed (backend fill.reason) order, p, none)
      else elim raised [
        | some e ↦ (order', p', some (portfolio_error e))
        | none ↦ elim (publish_fill_event bus order') [
          | some failure ↦ (order', p', some failure)
          | none ↦ rest
        ]
      ]

  abbrev first_order : String → List (Order desk) → Option (Order desk)
  first_order id [] = none
  first_order id (order ∷ orders) =
      let rest = first_order id orders in if order.id == id then some order else rest

  -- `_find_order`
  unfoldable pub find_order : String → OrderManager → Option (Order desk)
  find_order id m = elim (lookup id m.pending_orders) [
    | some order ↦ some order
    | none ↦ first_order id m.completed_orders
  ]

  abbrev replace_first : String → Order desk → List (Order desk) → List (Order desk)
  replace_first id order' [] = []
  replace_first id order' (order ∷ orders) =
      let rest = replace_first id order' orders in
      if order.id == id then order' ∷ orders else order ∷ rest

  -- The object that `find_order` found is changed in place.
  unfoldable pub put_order : String → Order desk → OrderManager → OrderManager
  put_order id order m = elim (lookup id m.pending_orders) [
    | some _ ↦ record m { pending_orders = insert id order m.pending_orders }
    | none ↦ record m { completed_orders = replace_first id order m.completed_orders }
  ]

  unfoldable pub continue_order :
      ℕ
      → (ℕ → String)
      → Option (ℕ → Backend)
      → String
      → Option Float
      → ℤ
      → OrderManager
      → OrderManager × Outcome Failure (Order desk)
  unfolding attempts find_order put_order
  continue_order now lot_ids execution_backend id market_price max_retries m =
      elim (find_order id m) [
        | none ↦ (m, err unknown_order)
        | some order ↦
            if not (is_partial order.status)
            then (m, err (not_partially_filled order.status))
            else elim execution_backend [
              | none ↦ (m, err no_execution_backend)
              | some answers ↦
                  let price = get_or market_price (get_or order.fill_price zero) in
                  let (order', p', raised) =
                    attempts m.cost_model m.event_bus answers lot_ids now price
                      (attempts_cap max_retries) 0 order m.portfolio in
                  (put_order id order' record m { portfolio = p' }, or_raised raised order')
            ]
      ]
