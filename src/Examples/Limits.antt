-- ===== src/Examples/Limits.antt =====
-- The risk limits on whole numbers as floats.
use nexus_trade_engine.Prelude.{◌≡◌, refl, some, true, false, List, [], ◌∷◌, arith, ◌≤◌, length}
use nexus_trade_engine.Prelude.Int.{ℤ, pos, negsuc, ◌+ℤ◌, ◌-ℤ◌, ◌*ℤ◌, ltb_ℤ, leb_ℤ, -ℤ_parts}
use nexus_trade_engine.Prelude.Floats.{Floats}
use nexus_trade_engine.RiskLimits.{
  OrderIntent, AccountState, RiskGate, decide, static_breaches, check_breaker, check_single_order,
  check_position, check_concentration, over_concentrated, check, loses_too_much, recent,
}
use nexus_trade_engine.RiskLimits.Breaker.{Query}
use nexus_trade_engine.RiskLimits.Velocity.{Orders, approvals, Ascending, approvals-bound}
use nexus_trade_engine.Examples.Orders.{floor_div}

-- Whole numbers with the operations of a float.
abbrev pub whole : Floats
whole = record {
  Float = ℤ;
  zero = pos 0;
  add = ◌+ℤ◌;
  sub = ◌-ℤ◌;
  mul = ◌*ℤ◌;
  div = floor_div;
  neg = λ a. pos 0 -ℤ a;
  lt = ltb_ℤ;
  le = leb_ℤ;
  is_finite = λ a. true;
}

abbrev intent : OrderIntent whole
intent = record {
  symbol = "AAPL";
  side = "buy";
  notional = pos 500;
  sector = "tech";
  asset_class = "equity";
}

abbrev account : AccountState whole
account = record {
  cash = pos 1000;
  total_value = pos 5000;
  daily_pnl = negsuc 99;
  exposures = ("AAPL", pos 400) ∷ [];
  sector_exposures = [];
  asset_class_exposures = [];
}

-- At most two orders in 60 seconds, 1000 in one symbol, and a loss of less than 200.
abbrev gate : RiskGate whole
gate = record {
  limits = record {
    max_single_order_notional = some (pos 600);
    max_position_notional = ("AAPL", pos 1000) ∷ [];
    max_sector_concentration_pct = ("tech", pos 1) ∷ [];
    max_asset_class_concentration_pct = [];
    max_orders_per_window = some 2;
    velocity_window_seconds = pos 60;
    max_daily_loss = some (pos 200);
  };
  order_timestamps = [];
  circuit_breaker_tripped = false;
}

abbrev at : ℤ → Query whole
at now = record { now = now; intent = intent; account = account }

abbrev queries : List (Query whole)
queries = at (pos 100) ∷ at (pos 110) ∷ at (pos 120) ∷ at (pos 170) ∷ []

whole-Orders : Orders whole (pos 60)
whole-Orders = record {
  le_trans = λ a b c h k. ground arith;
  sub_mono = λ a b h. ground (arith, -ℤ_parts a (pos 60), -ℤ_parts b (pos 60));
}

queries-Ascending : Ascending whole (pos 0) queries
queries-Ascending = (refl, (refl, (refl, (refl, tt))))

approvals-bound_example :
    length (recent whole (pos 180 -ℤ pos 60) (approvals whole queries gate)) ≤ 2
approvals-bound_example =
    approvals-bound whole 2 (pos 60) whole-Orders queries gate (pos 0) (pos 180) refl refl refl
      queries-Ascending refl

-- Four orders: the third is refused.
third_refused : approvals whole queries gate ≡ pos 100 ∷ pos 110 ∷ pos 170 ∷ []
unfolding approvals check decide static_breaches check_breaker loses_too_much ◌-ℤ◌
    check_single_order check_position ◌+ℤ◌ check_concentration over_concentrated
third_refused = refl
