-- ===== src/Oms/Risk.antt =====
-- engine/core/oms/risk.py: the checks that run before an order is sent, and the gate that runs
-- them in order until one rejects. A check that the operator supplies is a function. A limit on
-- notionals is counted in their unit. The text of a `Decimal` in a reason is `decimal_text`; the
-- counters that the gate emits are a list.
pub mod Gate
use Prim.Native.String.{◌++◌}
use nexus_trade_engine.Prelude.{
  String, Option, none, some, Bool, true, false, List, [], ◌∷◌, Outcome, ok, err, ◌>>=◌, ◌>>◌,
  raise_if, if◌then◌else◌,
}
use nexus_trade_engine.Prelude.Int.{ℤ, pos, ◌*ℤ◌, ltb_ℤ, leb_ℤ}
use nexus_trade_engine.Prelude.Text.{or_else}
use nexus_trade_engine.Oms.Order.{Order}
use nexus_trade_engine.Live.KillSwitch.{KillSwitch, is_engaged}

pub data CheckResult : Type 0 where
  approve : CheckResult
  reject : (reason : String) → CheckResult

pub data RiskCheck : Type 0 where
  kill_switch_check : RiskCheck
  max_order_quantity : (limit : ℤ) → RiskCheck
  max_order_notional : (limit : ℤ) → RiskCheck
  custom : (name : String) → (Order → Option ℤ → CheckResult) → RiskCheck

pub data CheckError : Type 0 where
  limit_not_positive : CheckError

-- `MaxOrderQuantity.__post_init__`
unfoldable new_max_order_quantity : ℤ → Outcome CheckError RiskCheck
new_max_order_quantity limit = do
  raise_if (leb_ℤ limit (pos 0)) limit_not_positive
  ok (max_order_quantity limit)

-- `MaxOrderNotional.__post_init__`
unfoldable new_max_order_notional : ℤ → Outcome CheckError RiskCheck
new_max_order_notional limit = do
  raise_if (leb_ℤ limit (pos 0)) limit_not_positive
  ok (max_order_notional limit)

-- `type(check).__name__`
abbrev pub check_name : RiskCheck → String
check_name kill_switch_check = "KillSwitchCheck"
check_name (max_order_quantity _) = "MaxOrderQuantity"
check_name (max_order_notional _) = "MaxOrderNotional"
check_name (custom name _) = name

-- `snap.reason or "no reason recorded"`
abbrev text_or : Option String → String → String
text_or o d = elim (or_else o none) [ none ↦ d | some s ↦ s ]

-- A counter: its name, the check, the symbol and the outcome.
pub data Counter : Type 0 where
  risk_check : (check symbol outcome : String) → Counter
  risk_rejected : (check symbol : String) → Counter
  risk_approved : (symbol : String) → Counter

module _ (decimal_text : ℤ → String) where
  quantity_reason : Order → ℤ → String
  quantity_reason o limit =
      "order quantity "
      ++ decimal_text o.quantity
      ++ " exceeds max "
      ++ decimal_text limit
      ++ " for "
      ++ o.symbol

  notional_reason : Order → ℤ → ℤ → String
  notional_reason o limit price =
      "order notional "
      ++ decimal_text (o.quantity *ℤ price)
      ++ " exceeds max "
      ++ decimal_text limit
      ++ " for "
      ++ o.symbol
      ++ " at price "
      ++ decimal_text price

  check_notional : Order → ℤ → Option ℤ → CheckResult
  check_notional o limit none = approve
  check_notional o limit (some price) =
      if leb_ℤ price (pos 0)
      then approve
      else if ltb_ℤ limit (o.quantity *ℤ price)
      then reject (notional_reason o limit price)
      else approve

  -- A check's `__call__`; the kill switch is the process's.
  unfoldable pub run_check : KillSwitch → RiskCheck → Order → Option ℤ → CheckResult
  unfolding check_notional quantity_reason notional_reason
  run_check switch kill_switch_check o reference_price =
      if is_engaged switch
      then reject ("kill-switch engaged: " ++ text_or switch.reason "no reason recorded")
      else approve
  run_check switch (max_order_quantity limit) o reference_price =
      if ltb_ℤ limit o.quantity then reject (quantity_reason o limit) else approve
  run_check switch (max_order_notional limit) o reference_price =
      check_notional o limit reference_price
  run_check switch (custom name check) o reference_price = check o reference_price

  -- `RiskGate.evaluate`: the result and the counters in the order in which they are emitted.
  unfoldable pub evaluate :
      KillSwitch → List RiskCheck → Order → Option ℤ → CheckResult × List Counter
  evaluate switch [] o reference_price = (approve, risk_approved o.symbol ∷ [])
  evaluate switch (check ∷ checks) o reference_price =
      elim (run_check switch check o reference_price) [
        | reject reason ↦ (
          reject reason,
          risk_check (check_name check) o.symbol "reject"
              ∷ risk_rejected (check_name check) o.symbol
              ∷ [],
        )
        | approve ↦
            let (result, counters) = evaluate switch checks o reference_price in
            (result, risk_check (check_name check) o.symbol "approve" ∷ counters)
      ]
