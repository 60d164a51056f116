-- ===== src/OrderManager/Risk.antt =====
-- engine/core/risk_engine.py: the checks before an order is executed. The reasons of a refusal are
-- constructors, and of the warnings, of which there is one kind, the result tells whether it is given.
use nexus_trade_engine.Prelude.{
  ℕ, suc, Option, none, some, Bool, true, false, not, ◌&&◌, if◌then◌else◌, string_eq, lookup,
  length, leb,
}
use nexus_trade_engine.Portfolio.{Portfolio, Position, total_value, market_value}
use nexus_trade_engine.OrderManager.{
  Desk, Order, Side, buy, RiskReason, breaker_active, breaker_triggered, position_weight,
  order_value, daily_trades,
}

pub record RiskCheckResult : Type 0 where
  pub approved : Bool
  pub reason : Option RiskReason
  pub warns : Bool

abbrev refusal : RiskReason → RiskCheckResult
refusal reason = record { approved = false; reason = some reason; warns = false }

abbrev is_buy : Side → Bool
is_buy buy = true
is_buy _ = false

abbrev pub is_some {ℓ} : {A : Type ℓ} → Option A → Bool
is_some none = false
is_some (some a) = true

module _ (desk : Desk) where
  open desk use {money, Float, of_int, zero, add, sub, mul, div, lt, le, infinity, half}

  pub record RiskEngine : Type 0 where
    pub max_position_pct : Float
    pub max_open_positions : ℕ
    pub circuit_breaker_drawdown_pct : Float
    pub max_daily_trades : ℕ
    pub max_single_order_value : Float
    pub circuit_breaker_active : Bool
    pub daily_trade_count : ℕ

  -- Python's `max(0.0, a)`
  abbrev not_below_zero : Float → Float
  not_below_zero a = if lt zero a then a else zero

  unfoldable pub drawdown : Portfolio money → Float
  drawdown p =
      if le p.initial_cash zero && le zero p.initial_cash
      then zero
      else not_below_zero (div (sub p.initial_cash (total_value money p)) p.initial_cash)

  abbrev pub value_of : Order desk → Float → Float
  value_of order market_price = mul (of_int order.quantity) market_price

  abbrev existing_value : Option (Position money) → Float
  existing_value none = zero
  existing_value (some position) = market_value money position

  -- The four limits, of which each refuses.
  abbrev pub too_many_positions : RiskEngine → Order desk → Portfolio money → Bool
  too_many_positions engine order p =
      is_buy order.side
      && not (is_some (lookup order.symbol p.positions))
      && leb engine.max_open_positions (length p.positions)

  abbrev pub too_heavy : RiskEngine → Order desk → Portfolio money → Float → Bool
  too_heavy engine order p market_price =
      let new_weight =
        div (add (existing_value (lookup order.symbol p.positions)) (value_of order market_price))
          (total_value money p) in
      lt zero (total_value money p) && is_buy order.side && lt engine.max_position_pct new_weight

  abbrev pub too_large : RiskEngine → Order desk → Float → Bool
  too_large engine order market_price =
      lt engine.max_single_order_value (value_of order market_price)

  abbrev large_for_cash : Order desk → Portfolio money → Float → Bool
  large_for_cash order p market_price =
      let cash_usage =
        if lt zero p.cash then div (value_of order market_price) p.cash else infinity in
      is_buy order.side && lt half cash_usage

  -- `check_order`: the engine, with what it remembers, and the result.
  unfoldable pub check_order :
      Order desk → Portfolio money → Float → RiskEngine → RiskEngine × RiskCheckResult
  check_order order p market_price engine =
      if engine.circuit_breaker_active
      then (engine, refusal breaker_active)
      else if le engine.circuit_breaker_drawdown_pct (drawdown p)
      then (record engine { circuit_breaker_active = true }, refusal breaker_triggered)
      else if too_many_positions engine order p
      then (engine, refusal RiskReason.max_open_positions)
      else if too_heavy engine order p market_price
      then (engine, refusal position_weight)
      else if too_large engine order market_price
      then (engine, refusal order_value)
      else if leb engine.max_daily_trades engine.daily_trade_count
      then (engine, refusal daily_trades)
      else (
        record engine { daily_trade_count = suc engine.daily_trade_count },
        record { approved = true; reason = none; warns = large_for_cash order p market_price },
      )

  unfoldable pub reset_daily_counters : RiskEngine → RiskEngine
  reset_daily_counters engine = record engine { daily_trade_count = 0 }

  unfoldable pub reset_circuit_breaker : RiskEngine → RiskEngine
  reset_circuit_breaker engine = record engine { circuit_breaker_active = false }
