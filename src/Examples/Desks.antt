-- ===== src/Examples/Desks.antt =====
-- Signals for a share and an order that is filled in two parts, in whole numbers as floats.
use nexus_trade_engine.Prelude.{
  ◌+◌, ◌≤◌, ◌≡◌, refl, none, some, true, false, [], ◌∷◌, string_eq, arith,
}
use nexus_trade_engine.Prelude.Int.{pos, leb_ℤ, ◌+ℤ◌, ◌-ℤ◌}
use nexus_trade_engine.Portfolio.{total_value}
use nexus_trade_engine.OrderManager.{
  Desk, Signal, Order, CostBreakdown, buy, pending, filled, partially_filled, no_reason,
}
use nexus_trade_engine.OrderManager.Risk.{RiskEngine, drawdown}
use nexus_trade_engine.OrderManager.Daily.{Query, approvals, approvals-daily, check_order-latches}
use nexus_trade_engine.OrderManager.Pipeline.{
  OrderManager, Backend, process_signal, find_order, continue_order,
}
use nexus_trade_engine.OrderManager.Accounting.{IsAccounted}
use nexus_trade_engine.OrderManager.Continue.{IsContinued, continue_order-IsContinued}
use nexus_trade_engine.OrderManager.Signals.{IsSound, process_signal-IsSound}
use nexus_trade_engine.Examples.Orders.{floor_div}
use nexus_trade_engine.Examples.Holdings.{euros, empty}

abbrev pub desk : Desk
desk = record { money = euros; infinity = pos 1_000_000; half = pos 1; floor_quotient = floor_div }

abbrev costs : CostBreakdown desk
costs = record {
  commission = pos 1;
  spread = pos 0;
  slippage = pos 0;
  exchange_fee = pos 0;
  tax_estimate = pos 0;
  currency_conversion = pos 0;
}

-- At most one trade a day, and a loss of less than 200.
abbrev engine : RiskEngine desk
engine = record {
  max_position_pct = pos 1;
  max_open_positions = 3;
  circuit_breaker_drawdown_pct = pos 1;
  max_daily_trades = 1;
  max_single_order_value = pos 500;
  circuit_breaker_active = false;
  daily_trade_count = 0;
}

abbrev manager : OrderManager desk
manager = record {
  cost_model = λ symbol quantity price side avg_volume. costs;
  risk_engine = engine;
  portfolio = empty;
  event_bus = none;
  pending_orders = [];
  completed_orders = [];
}

abbrev pub signal : Signal desk
signal = record {
  id = "signal-1";
  symbol = "AAPL";
  side = buy;
  weight = pos 1;
  quantity = some (pos 10);
  strategy_id = "trend";
  max_cost_pct = none;
}

abbrev half_fills : Backend desk
half_fills order price breakdown = record {
  success = true;
  price = price;
  quantity = pos 5;
  reason = "";
}

process_signal-IsSound_example :
    IsSound desk empty []
      (process_signal desk 10 "order-1" "lot-1" (some half_fills) signal (pos 20) (pos 0) manager)
process_signal-IsSound_example =
    process_signal-IsSound desk 10 "order-1" "lot-1" (some half_fills) signal (pos 20) (pos 0)
      manager

abbrev half_order : Order desk
half_order = record {
  id = "order-1";
  signal_id = "signal-1";
  strategy_id = "trend";
  symbol = "AAPL";
  side = buy;
  quantity = pos 10;
  status = partially_filled;
  status_history = record { source = pending; target = partially_filled; reason = no_reason } ∷ [];
  cost_breakdown = some costs;
  fill_price = some (pos 20);
  fill_quantity = some (pos 5);
  filled_at = some 10;
  fills = record { price = pos 20; quantity = pos 5; timestamp = 10 } ∷ [];
}

half_order-IsAccounted : IsAccounted desk half_order
unfolding ◌+ℤ◌
half_order-IsAccounted = record {
  chained = (refl, refl);
  sums = refl;
  done = λ h. let k : partially_filled ≡ filled = h in cc;
}

abbrev later : OrderManager desk
later = record manager { completed_orders = half_order ∷ [] }

is_found : find_order desk "order-1" later ≡ some half_order
unfolding find_order
is_found = refl

continue_order-IsContinued_example : IsContinued desk half_order empty (
    continue_order desk 20
      (λ attempt. "lot-2")
      (some (λ attempt. half_fills))
      "order-1"
      none
      (pos 3)
      later)
continue_order-IsContinued_example =
    continue_order-IsContinued desk 20 (λ attempt. "lot-2") (some (λ attempt. half_fills)) "order-1"
      none (pos 3) later half_order is_found half_order-IsAccounted

abbrev query : Query desk
query = record { order = half_order; portfolio = empty; market_price = pos 20 }

approvals-daily_example : approvals desk (query ∷ query ∷ []) engine + 0 ≤ 1
approvals-daily_example = approvals-daily desk (query ∷ query ∷ []) engine (omega arith)

abbrev ruined : Query desk
ruined = record query { portfolio = record empty { cash = pos 0 } }

is_ruined : leb_ℤ (pos 1) (drawdown desk ruined.portfolio) ≡ true
unfolding drawdown total_value ◌+ℤ◌ ◌-ℤ◌
is_ruined = refl

check_order-latches_example : approvals desk (ruined ∷ query ∷ []) engine ≡ 0
check_order-latches_example = check_order-latches desk ruined (query ∷ []) engine is_ruined
