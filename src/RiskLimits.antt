-- ===== src/RiskLimits.antt =====
-- engine/core/risk_limits.py: the pre-trade gate that reports all breached limits together. A check
-- runs under the gate's lock, so it is one step; the clock is the argument `now`. The names of the
-- breached limits are constructors.
pub mod Breaker
pub mod Velocity
use nexus_trade_engine.Prelude.{
  ℕ, String, Option, none, some, Bool, true, false, not, ◌&&◌, ◌||◌, List, [], ◌∷◌, ◌++◌, Outcome,
  ok, err, ◌>>=◌, ◌>>◌, raise_if, ◌==◌, string_eq, Dict, lookup, length, keep, leb, if◌then◌else◌,
}
use nexus_trade_engine.Prelude.Floats.{Floats}

pub data RiskLimitsError : Type 0 where
  not_finite negative_notional unknown_side negative_total : RiskLimitsError

pub data Breach : Type 0 where
  circuit_breaker daily_loss single_order_notional velocity : Breach
  position_notional sector_concentration asset_class_concentration : (name : String) → Breach

-- `not breaches`
abbrev pub none_of : List Breach → Bool
none_of [] = true
none_of (b ∷ bs) = false

-- `d.get(k, 0.0)`
abbrev pub or_value {ℓ} : {A : Type ℓ} → Option A → A → A
or_value none d = d
or_value (some a) d = a

module _ (floats : Floats) where
  open floats use {Float, zero, add, sub, div, neg, lt, le, is_finite}

  pub record OrderIntent : Type 0 where
    pub symbol : String
    pub side : String
    pub notional : Float
    pub sector : String
    pub asset_class : String

  pub record AccountState : Type 0 where
    pub cash : Float
    pub total_value : Float
    pub daily_pnl : Float
    pub exposures : Dict String Float
    pub sector_exposures : Dict String Float
    pub asset_class_exposures : Dict String Float

  pub record RiskLimits : Type 0 where
    pub max_single_order_notional : Option Float
    pub max_position_notional : Dict String Float
    pub max_sector_concentration_pct : Dict String Float
    pub max_asset_class_concentration_pct : Dict String Float
    pub max_orders_per_window : Option ℕ
    pub velocity_window_seconds : Float
    pub max_daily_loss : Option Float

  -- `RiskGate`: its limits and what it remembers.
  pub record RiskGate : Type 0 where
    pub limits : RiskLimits
    pub order_timestamps : List Float
    pub circuit_breaker_tripped : Bool

  pub record RiskDecision : Type 0 where
    pub approved : Bool
    pub breached_limits : List Breach

  -- `_require_finite`
  require_finite : Float → Outcome RiskLimitsError (Unit {0})
  require_finite value = raise_if (not (is_finite value)) not_finite

  -- The checks of `_freeze_mapping`; the copy that it makes is the value itself.
  freeze_mapping : Dict String Float → Outcome RiskLimitsError (Unit {0})
  unfolding require_finite
  freeze_mapping [] = ok tt
  freeze_mapping ((k, v) ∷ src) = require_finite v >>= λ _. freeze_mapping src

  -- `OrderIntent.__post_init__`
  unfoldable check_intent : OrderIntent → Outcome RiskLimitsError OrderIntent
  unfolding require_finite
  check_intent intent = do
    require_finite intent.notional
    raise_if (lt intent.notional zero) negative_notional
    raise_if (not (intent.side == "buy" || intent.side == "sell")) unknown_side
    ok intent

  -- `AccountState.__post_init__`
  unfoldable check_account : AccountState → Outcome RiskLimitsError AccountState
  unfolding require_finite freeze_mapping
  check_account account = do
    require_finite account.cash
    require_finite account.total_value
    require_finite account.daily_pnl
    raise_if (lt account.total_value zero) negative_total
    freeze_mapping account.exposures
    freeze_mapping account.sector_exposures
    freeze_mapping account.asset_class_exposures
    ok account

  -- `value is not None and test(value)`
  abbrev pub present_and : Option Float → (Float → Bool) → Bool
  present_and none test = false
  present_and (some value) test = test value

  -- Appends the breach if the test says so.
  abbrev pub breach_if : Bool → Breach → List Breach
  breach_if test breach = if test then breach ∷ [] else []

  -- `state.daily_pnl <= -self.limits.max_daily_loss`
  unfoldable pub loses_too_much : RiskLimits → AccountState → Bool
  loses_too_much limits account =
      present_and limits.max_daily_loss (λ loss. le account.daily_pnl (neg loss))

  -- The breaker's part of the check: whether it is tripped afterwards, and the breach.
  unfoldable pub check_breaker : RiskGate → AccountState → Bool × List Breach
  check_breaker gate account =
      if gate.circuit_breaker_tripped
      then (true, circuit_breaker ∷ [])
      else if loses_too_much gate.limits account
      then (true, daily_loss ∷ [])
      else (false, [])

  unfoldable pub check_single_order : RiskLimits → OrderIntent → List Breach
  check_single_order limits intent =
      breach_if (present_and limits.max_single_order_notional (λ cap. lt cap intent.notional))
        single_order_notional

  unfoldable pub check_position : RiskLimits → OrderIntent → AccountState → List Breach
  check_position limits intent account =
      breach_if
        (intent.side == "buy"
          && present_and (lookup intent.symbol limits.max_position_notional) (λ cap.
            lt cap (add (or_value (lookup intent.symbol account.exposures) zero) intent.notional)))
        (position_notional intent.symbol)

  -- `projected / state.total_value > cap` for one bucket, if it has a cap.
  unfoldable pub over_concentrated :
      Dict String Float → Dict String Float → String → Float → Float → Bool
  over_concentrated caps exposures bucket notional total_value =
      present_and (lookup bucket caps)
        (λ cap. lt cap (div (add (or_value (lookup bucket exposures) zero) notional) total_value))

  unfoldable pub check_concentration : RiskLimits → OrderIntent → AccountState → List Breach
  check_concentration limits intent account =
      if lt zero account.total_value
      then breach_if
          (over_concentrated limits.max_sector_concentration_pct account.sector_exposures
            intent.sector intent.notional account.total_value)
          (sector_concentration intent.sector)
        ++ breach_if
            (over_concentrated limits.max_asset_class_concentration_pct
              account.asset_class_exposures intent.asset_class intent.notional account.total_value)
            (asset_class_concentration intent.asset_class)
      else []

  -- All breaches but that of the velocity, in the order in which the source appends them.
  unfoldable pub static_breaches : RiskGate → OrderIntent → AccountState → List Breach
  static_breaches gate intent account =
      (check_breaker gate account).1
      ++ (check_single_order gate.limits intent
          ++ (check_position gate.limits intent account
              ++ check_concentration gate.limits intent account))

  -- `[t for t in self._order_timestamps if t >= window_start]`
  pub recent : Float → List Float → List Float
  recent window_start = keep (λ t. le window_start t)

  -- The velocity's part: it finishes the list of breaches, decides, and keeps the timestamps.
  unfoldable pub decide :
      Option ℕ → Float → Float → List Float → List Breach → RiskDecision × List Float
  unfolding recent
  decide none window now timestamps breaches =
      (record { approved = none_of breaches; breached_limits = breaches }, timestamps)
  decide (some max_orders) window now timestamps breaches =
      let kept = recent (sub now window) timestamps in
      let all_breaches = breaches ++ breach_if (leb max_orders (length kept)) velocity in
      (
        record { approved = none_of all_breaches; breached_limits = all_breaches },
        (if none_of all_breaches then kept ++ now ∷ [] else kept),
      )

  -- `RiskGate.check`
  unfoldable pub check : Float → OrderIntent → AccountState → RiskGate → RiskDecision × RiskGate
  check now intent account gate =
      let (decision, timestamps) =
        decide gate.limits.max_orders_per_window gate.limits.velocity_window_seconds now
          gate.order_timestamps (static_breaches gate intent account) in
      (
        decision,
        record gate {
          order_timestamps = timestamps;
          circuit_breaker_tripped = (check_breaker gate account).0;
        },
      )

  unfoldable reset_circuit_breaker : RiskGate → RiskGate
  reset_circuit_breaker gate = record gate { circuit_breaker_tripped = false }

  -- `RiskLimits.__post_init__`
  unfoldable check_limits : RiskLimits → Outcome RiskLimitsError RiskLimits
  unfolding require_finite freeze_mapping
  check_limits limits = do
    raise_if (present_and limits.max_single_order_notional (λ v. not (is_finite v))) not_finite
    raise_if (present_and limits.max_daily_loss (λ v. not (is_finite v))) not_finite
    require_finite limits.velocity_window_seconds
    freeze_mapping limits.max_position_notional
    freeze_mapping limits.max_sector_concentration_pct
    freeze_mapping limits.max_asset_class_concentration_pct
    ok limits
