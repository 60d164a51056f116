-- ===== src/OrderManager.antt =====
-- engine/core/order_manager.py, its orders, and the signal and fill that it reads. The calls of a
-- manager run one after the other. Timestamps of transitions are left out, and so are the order type
-- and the limit price, which the manager never sets.
pub mod Risk
pub mod Daily
pub mod Reconcile
pub mod Pipeline
pub mod Units
pub mod Accounting
pub mod Continue
pub mod Signals
use nexus_trade_engine.Prelude.{
  ℕ, String, Option, none, some, Bool, true, false, not, ◌&&◌, List, [], ◌∷◌, ◌++◌, if◌then◌else◌,
  ◌==◌, string_eq, Dict, lookup,
}
use nexus_trade_engine.Prelude.Int.{ℤ, pos, ◌+ℤ◌, ltb_ℤ, leb_ℤ, beq_ℤ}
use nexus_trade_engine.Portfolio.{Money, PortfolioError, Portfolio, Position, get_or}

pub data Side : Type 0 where
  buy sell hold : Side

pub data OrderStatus : Type 0 where
  pending validated costed risk_approved risk_rejected submitted filled partially_filled cancelled
        rejected failed :
      OrderStatus

-- Why the risk engine refuses an order.
pub data RiskReason : Type 0 where
  breaker_active breaker_triggered max_open_positions position_weight order_value daily_trades :
      RiskReason

-- The reason of a transition.
pub data Reason : Type 0 where
  no_reason validation_failed cost_exceeds no_backend : Reason
  risk : RiskReason → Reason
  backend : String → Reason

-- What a call raises.
pub data Failure : Type 0 where
  portfolio_error : PortfolioError → Failure
  bus_error unknown_order no_execution_backend : Failure
  not_partially_filled : OrderStatus → Failure

pub record Transition : Type 0 where
  pub source : OrderStatus
  pub target : OrderStatus
  pub reason : Reason

-- `quantity or 0`
abbrev pub or_zero : Option ℤ → ℤ
or_zero none = pos 0
or_zero (some q) = q

-- The floats of the money with infinity, one half, and `int(a // b)`.
pub record Desk : Type 1 where
  pub money : Money
  pub open money use *
  pub infinity : Float
  pub half : Float
  pub floor_quotient : Float → Float → ℤ

module _ (desk : Desk) where
  open desk use {money, Float, of_int, zero, add, sub, mul, div, lt, le, floor_quotient}

  pub record Signal : Type 0 where
    pub id : String
    pub symbol : String
    pub side : Side
    pub weight : Float
    pub quantity : Option ℤ
    pub strategy_id : String
    pub max_cost_pct : Option Float

  -- `CostBreakdown`, in amounts of one currency.
  pub record CostBreakdown : Type 0 where
    pub commission : Float
    pub spread : Float
    pub slippage : Float
    pub exchange_fee : Float
    pub tax_estimate : Float
    pub currency_conversion : Float

  unfoldable pub total : CostBreakdown → Float
  total c =
      add (add (add (add (add c.commission c.spread) c.slippage) c.exchange_fee) c.tax_estimate)
        c.currency_conversion

  abbrev pub total_without_tax : CostBreakdown → Float
  total_without_tax c = sub (total c) c.tax_estimate

  -- `FillResult` of execution/base.py
  pub record FillResult : Type 0 where
    pub success : Bool
    pub price : Float
    pub quantity : ℤ
    pub reason : String

  pub record Fill : Type 0 where
    pub price : Float
    pub quantity : ℤ
    pub timestamp : ℕ

  pub record Order : Type 0 where
    pub id : String
    pub signal_id : String
    pub strategy_id : String
    pub symbol : String
    pub side : Side
    pub quantity : ℤ
    pub status : OrderStatus
    pub status_history : List Transition
    pub cost_breakdown : Option CostBreakdown
    pub fill_price : Option Float
    pub fill_quantity : Option ℤ
    pub filled_at : Option ℕ
    pub fills : List Fill

  abbrev pub transition : OrderStatus → Reason → Order → Order
  transition new_status reason order = record order {
    status_history =
        order.status_history
        ++ record { source = order.status; target = new_status; reason = reason } ∷ [];
    status = new_status;
  }

  abbrev pub new_order : String → ℤ → Signal → Order
  new_order id quantity signal = record {
    id = id;
    signal_id = signal.id;
    strategy_id = signal.strategy_id;
    symbol = signal.symbol;
    side = signal.side;
    quantity = quantity;
    status = pending;
    status_history = [];
    cost_breakdown = none;
    fill_price = none;
    fill_quantity = none;
    filled_at = none;
    fills = [];
  }

  unfoldable pub calculate_quantity : Signal → Float → Portfolio money → ℤ
  calculate_quantity signal price p =
      if le price zero then pos 0 else floor_quotient (mul p.cash signal.weight) price

  -- `signal.quantity or self._calculate_quantity(...)`
  unfoldable pub order_quantity : Signal → Float → Portfolio money → ℤ
  unfolding calculate_quantity
  order_quantity signal price p = elim signal.quantity [
    | none ↦ calculate_quantity signal price p
    | some quantity ↦ if beq_ℤ quantity (pos 0) then calculate_quantity signal price p else quantity
  ]

  abbrev covers : Option (Position money) → ℤ → Bool
  covers none quantity = false
  covers (some position) quantity = leb_ℤ quantity position.quantity

  -- `_validate_order` by the side.
  abbrev pub affordable : Side → Order → Float → Portfolio money → Bool
  affordable buy order price p = not (lt p.cash (mul (of_int order.quantity) price))
  affordable sell order price p = covers (lookup order.symbol p.positions) order.quantity
  affordable hold order price p = true

  unfoldable pub validate_order : Order → Float → Portfolio money → Bool
  validate_order order price p = ltb_ℤ (pos 0) order.quantity && affordable order.side order price p
