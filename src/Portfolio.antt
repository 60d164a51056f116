-- ===== src/Portfolio.antt =====
-- engine/core/portfolio.py: cash, positions and the tax lots behind them. Quantities are Python's
-- integers, prices and amounts its floats, instants microseconds. The clock, where the portfolio
-- has no date of its own, and the identifiers that uuid4 draws are arguments. A method that raises
-- may have changed the portfolio before: it gives the portfolio that it leaves beside its outcome.
-- Lots are objects that the code changes in place; they are told apart by their identifiers.
pub mod Lots
pub mod Trades
pub mod Order
pub mod Consume
pub mod Invariant
pub mod Sale
pub mod Reach
pub mod Oldest
use nexus_trade_engine.Prelude.{
  ℕ, ◌+◌, ◌*◌, String, Option, none, some, Bool, true, false, not, ◌&&◌, List, [], ◌∷◌, ◌++◌, map,
  Outcome, ok, err, if◌then◌else◌, ◌==◌, string_eq, leb, Dict, lookup, insert, erase,
}
use nexus_trade_engine.Prelude.Int.{ℤ, pos, ◌+ℤ◌, ◌-ℤ◌, ltb_ℤ, leb_ℤ, beq_ℤ}
use nexus_trade_engine.Prelude.Floats.{Floats}

pub data TaxMethod : Type 0 where
  fifo lifo specific_lot : TaxMethod

pub data PortfolioError : Type 0 where
  insufficient_cash no_position no_tax_lots zero_division : PortfolioError
  too_many_shares lots_insufficient : ℤ → PortfolioError

pub data TradeSide : Type 0 where
  buy sell : TradeSide

abbrev pub microseconds_per_day : ℕ
microseconds_per_day = 86_400_000_000

-- `min` of two integers.
abbrev pub min_ℤ : ℤ → ℤ → ℤ
min_ℤ a b = if ltb_ℤ b a then b else a

-- `d.get(k, default)`
abbrev pub get_or {ℓ} : {A : Type ℓ} → Option A → A → A
get_or none default = default
get_or (some a) default = a

-- Floats, and the integers among them.
pub record Money : Type 1 where
  pub floats : Floats
  pub open floats use *
  pub of_int : ℤ → Float

module _ (money : Money) where
  open money use {Float, of_int, zero, add, sub, mul, div, neg, lt, le}

  pub record TaxLot : Type 0 where
    pub lot_id : String
    pub symbol : String
    pub quantity : ℤ
    pub purchase_price : Float
    pub purchase_date : ℕ

  pub record Position : Type 0 where
    pub symbol : String
    pub quantity : ℤ
    pub avg_cost : Float
    pub current_price : Float

  pub record TradeRecord : Type 0 where
    pub timestamp : ℕ
    pub side : TradeSide
    pub symbol : String
    pub quantity : ℤ
    pub price : Float
    pub cost : Float
    pub tax : Float
    pub lot_ids : List String

  pub record SellRecord : Type 0 where
    pub symbol : String
    pub sell_date : ℕ
    pub quantity : ℤ
    pub sell_price : Float
    pub cost_basis : Float
    pub gain : Float

  -- A part of a lot that a sale consumed.
  pub record ConsumedLot : Type 0 where
    pub lot_id : String
    pub quantity : ℤ
    pub purchase_price : Float
    pub purchase_date : ℕ
    pub is_long_term : Bool

  -- `Portfolio`; of its cost model it reads the length of the wash-sale window.
  pub record Portfolio : Type 0 where
    pub initial_cash : Float
    pub cash : Float
    pub positions : Dict String Position
    pub tax_lots : Dict String (List TaxLot)
    pub trade_history : List TradeRecord
    pub sell_history : List SellRecord
    pub realized_pnl : Float
    pub tax_method : TaxMethod
    pub wash_sale_window_days : ℕ
    pub transaction_date : Option ℕ

  -- `(as_of - purchase_date).days >= 365`
  unfoldable pub is_long_term : ℕ → TaxLot → Bool
  is_long_term as_of lot = leb (lot.purchase_date + 365 * microseconds_per_day) as_of

  -- The positions' value is that at the last price, or else at cost.
  unfoldable pub market_value : Position → Float
  market_value p =
      mul (of_int p.quantity) (if lt zero p.current_price then p.current_price else p.avg_cost)

  -- `sum(pos.market_value for pos in positions.values())`, from a total so far.
  positions_value : Dict String Position → Float → Float
  unfolding market_value
  positions_value [] total = total
  positions_value ((symbol, p) ∷ positions) total =
      positions_value positions (add total (market_value p))

  unfoldable pub total_value : Portfolio → Float
  unfolding positions_value
  total_value p = add p.cash (positions_value p.positions zero)

  -- `sorted` by the purchase date: a lot goes before the first that does not precede it.
  unfoldable pub insert_lot : (TaxLot → TaxLot → Bool) → TaxLot → List TaxLot → List TaxLot
  insert_lot before lot [] = lot ∷ []
  insert_lot before lot (other ∷ lots) =
      let rest = insert_lot before lot lots in
      if before lot other then lot ∷ other ∷ lots else other ∷ rest

  unfoldable pub sort_lots : (TaxLot → TaxLot → Bool) → List TaxLot → List TaxLot
  unfolding insert_lot
  sort_lots before [] = []
  sort_lots before (lot ∷ lots) = insert_lot before lot (sort_lots before lots)

  abbrev pub older : TaxLot → TaxLot → Bool
  older a b = leb a.purchase_date b.purchase_date

  abbrev pub newer : TaxLot → TaxLot → Bool
  newer a b = leb b.purchase_date a.purchase_date

  -- The order in which a sale goes through the lots.
  unfoldable pub sale_order : TaxMethod → List TaxLot → List TaxLot
  unfolding sort_lots
  sale_order fifo lots = sort_lots older lots
  sale_order lifo lots = sort_lots newer lots
  sale_order specific_lot lots = lots

  -- What a sale leaves of the lots when it takes a quantity of one: `lot.quantity -= quantity`, and
  -- `lots.remove(lot)` when nothing is left.
  unfoldable pub take_from : String → ℤ → List TaxLot → List TaxLot
  take_from lot_id quantity [] = []
  take_from lot_id quantity (lot ∷ lots) =
      let rest = take_from lot_id quantity lots in
      let left = lot.quantity -ℤ quantity in
      if lot.lot_id == lot_id
      then (if leb_ℤ left (pos 0) then lots else record lot { quantity = left } ∷ lots)
      else lot ∷ rest

  pub record Consumption : Type 0 where
    pub remaining : ℤ
    pub consumed : List ConsumedLot
    pub total_cost_basis : Float
    pub lots : List TaxLot

  abbrev pub part_of : ℕ → ℤ → TaxLot → ConsumedLot
  part_of sell_date quantity lot = record {
    lot_id = lot.lot_id;
    quantity = quantity;
    purchase_price = lot.purchase_price;
    purchase_date = lot.purchase_date;
    is_long_term = is_long_term sell_date lot;
  }

  -- One round of the loop of `_consume_lots`.
  unfoldable pub consume_lot : ℕ → TaxLot → Consumption → Consumption
  unfolding take_from
  consume_lot sell_date lot c =
      let quantity = min_ℤ c.remaining lot.quantity in
      record {
        remaining = c.remaining -ℤ quantity;
        consumed = c.consumed ++ part_of sell_date quantity lot ∷ [];
        total_cost_basis = add c.total_cost_basis (mul (of_int quantity) lot.purchase_price);
        lots = take_from lot.lot_id quantity c.lots;
      }

  unfoldable pub consume_sorted : ℕ → List TaxLot → Consumption → Consumption
  unfolding consume_lot
  consume_sorted sell_date [] c = c
  consume_sorted sell_date (lot ∷ sorted_lots) c =
      let rest = consume_sorted sell_date sorted_lots (consume_lot sell_date lot c) in
      if ltb_ℤ (pos 0) c.remaining then rest else c

  -- The loop of `_consume_lots` on the lots of the symbol.
  unfoldable pub consume_lots : TaxMethod → ℕ → ℤ → List TaxLot → Consumption
  unfolding consume_sorted sale_order
  consume_lots method sell_date quantity lots =
      consume_sorted sell_date (sale_order method lots)
        (record { remaining = quantity; consumed = []; total_cost_basis = zero; lots = lots })
