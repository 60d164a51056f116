-- ===== src/Portfolio/Trades.antt =====
-- The methods of the portfolio: buying, selling and pricing.
use nexus_trade_engine.Prelude.{
  ℕ, ◌+◌, ◌*◌, String, none, some, Bool, not, ◌&&◌, List, [], ◌∷◌, ◌++◌, map, Outcome, ok, err,
  if◌then◌else◌, ◌==◌, string_eq, leb, Dict, lookup, insert, erase,
}
use nexus_trade_engine.Prelude.Int.{ℤ, pos, ◌+ℤ◌, ◌-ℤ◌, ltb_ℤ, leb_ℤ, beq_ℤ}
use nexus_trade_engine.Portfolio.{
  Money, TaxMethod, PortfolioError, insufficient_cash, no_position, no_tax_lots, zero_division,
  too_many_shares, lots_insufficient, buy, sell, microseconds_per_day, min_ℤ, get_or, TaxLot,
  Position, TradeRecord, SellRecord, ConsumedLot, Portfolio, Consumption, consume_lots,
}

module _ (money : Money) where
  open money use {Float, of_int, zero, add, sub, mul, div, neg, lt, le}

  -- The loss of a sale that the buy inherits: of the sales of the symbol at a loss in the window.
  abbrev pub is_washed : ℕ → ℕ → String → SellRecord money → Bool
  is_washed window purchase_date symbol sale =
      (sale.symbol == symbol)
      && not (le zero sale.gain)
      && leb purchase_date (sale.sell_date + window * microseconds_per_day)
      && leb sale.sell_date purchase_date

  abbrev absolute : Float → Float
  absolute a = if lt a zero then neg a else a

  -- The loop of `open_position` over the sales, from a total so far.
  unfoldable pub total_adjustment :
      ℕ → ℕ → String → ℤ → List (SellRecord money) → Float → Outcome PortfolioError Float
  total_adjustment window purchase_date symbol quantity [] total = ok total
  total_adjustment window purchase_date symbol quantity (sale ∷ sales) total =
      let per_share = div (absolute sale.gain) (of_int sale.quantity) in
      let applicable = mul (of_int (min_ℤ quantity sale.quantity)) per_share in
      let skipped = total_adjustment window purchase_date symbol quantity sales total in
      let adjusted =
        total_adjustment window purchase_date symbol quantity sales (add total applicable) in
      if is_washed window purchase_date symbol sale
      then (if beq_ℤ sale.quantity (pos 0) then err zero_division else adjusted)
      else skipped

  unfoldable pub adjusted_price : ℤ → Float → Float → Outcome PortfolioError Float
  adjusted_price quantity price adjustment =
      if lt zero adjustment
      then (if beq_ℤ quantity (pos 0)
          then err zero_division
          else ok (add price (div adjustment (of_int quantity))))
      else ok price

  abbrev pub lots_of : String → Dict String (List (TaxLot money)) → List (TaxLot money)
  lots_of symbol tax_lots = get_or (lookup symbol tax_lots) []

  -- The position after a buy.
  unfoldable pub enlarged : ℤ → Float → Position money → Position money
  enlarged quantity price existing =
      let total_qty = existing.quantity +ℤ quantity in
      let total_cost_basis =
        add (mul (of_int existing.quantity) existing.avg_cost) (mul (of_int quantity) price) in
      record existing { avg_cost = div total_cost_basis (of_int total_qty); quantity = total_qty }

  abbrev pub new_position : String → ℤ → Float → Position money
  new_position symbol quantity price = record {
    symbol = symbol;
    quantity = quantity;
    avg_cost = price;
    current_price = zero;
  }

  abbrev pub trade_date : ℕ → Portfolio money → ℕ
  trade_date now p = get_or p.transaction_date now

  abbrev pub new_lot : ℕ → String → String → ℤ → Float → TaxLot money
  new_lot purchase_date lot_id symbol quantity price = record {
    lot_id = lot_id;
    symbol = symbol;
    quantity = quantity;
    purchase_price = price;
    purchase_date = purchase_date;
  }

  -- The cash is paid and the lot is there: what `open_position` has done before the position.
  unfoldable pub paid : ℕ → String → String → ℤ → Float → Float → Portfolio money → Portfolio money
  paid now lot_id symbol quantity total_cost price p =
      let lot = new_lot (trade_date now p) lot_id symbol quantity price in
      record p {
        cash = sub p.cash total_cost;
        tax_lots = insert symbol (lots_of symbol p.tax_lots ++ lot ∷ []) p.tax_lots;
      }

  abbrev pub bought : ℕ → String → String → ℤ → Float → Float → (TradeRecord money)
  bought timestamp lot_id symbol quantity price cost = record {
    timestamp = timestamp;
    side = buy;
    symbol = symbol;
    quantity = quantity;
    price = price;
    cost = cost;
    tax = zero;
    lot_ids = lot_id ∷ [];
  }

  -- A position and a trade are entered.
  abbrev pub booked :
      String → Position money → TradeRecord money → Portfolio money → Portfolio money
  booked symbol position trade p = record p {
    positions = insert symbol position p.positions;
    trade_history = p.trade_history ++ trade ∷ [];
  }

  -- The end of `open_position`: the position and the trade.
  unfoldable pub settle_buy :
      ℕ
      → String
      → String
      → ℤ
      → Float
      → Float
      → Float
      → Portfolio money
      → Portfolio money × Outcome PortfolioError String
  unfolding enlarged
  settle_buy now lot_id symbol quantity price cost lot_price p =
      let trade = bought (trade_date now p) lot_id symbol quantity price cost in
      elim (lookup symbol p.positions) [
        | none ↦ (booked symbol (new_position symbol quantity lot_price) trade p, ok lot_id)
        | some existing ↦
            if beq_ℤ (existing.quantity +ℤ quantity) (pos 0)
            then (p, err zero_division)
            else (booked symbol (enlarged quantity lot_price existing) trade p, ok lot_id)
      ]

  -- The price of the new lot, which the losses of washed sales raise.
  unfoldable pub lot_price : ℕ → String → ℤ → Float → Portfolio money → Outcome PortfolioError Float
  unfolding total_adjustment adjusted_price
  lot_price now symbol quantity price p =
      elim (total_adjustment p.wash_sale_window_days (trade_date now p) symbol quantity
        p.sell_history zero) [
          | err e ↦ err e
          | ok adjustment ↦ adjusted_price quantity price adjustment
        ]

  unfoldable pub open_position :
      ℕ
      → String
      → String
      → ℤ
      → Float
      → Float
      → Portfolio money
      → Portfolio money × Outcome PortfolioError String
  unfolding lot_price paid settle_buy
  open_position now lot_id symbol quantity price cost p =
      let total_cost = add (mul (of_int quantity) price) cost in
      if lt p.cash total_cost
      then (p, err insufficient_cash)
      else (elim (lot_price now symbol quantity price p) [
        | err e ↦ (p, err e)
        | ok adjusted ↦
            settle_buy now lot_id symbol quantity price cost adjusted
              (paid now lot_id symbol quantity total_cost adjusted p)
      ])

  -- The portfolio and the answer after the loop, for the lots that there were.
  unfoldable pub after_loop :
      String
      → Portfolio money
      → Consumption money
      → List (TaxLot money)
      → Portfolio money × Outcome PortfolioError (List (ConsumedLot money) × Float)
  after_loop symbol p c [] = (p, err no_tax_lots)
  after_loop symbol p c (lot ∷ lots) =
      let p' = record p { tax_lots = insert symbol c.lots p.tax_lots } in
      if ltb_ℤ (pos 0) c.remaining
      then (p', err (lots_insufficient c.remaining))
      else (p', ok (c.consumed, c.total_cost_basis))

  -- `_consume_lots`: the portfolio with what is left of the lots, also when they do not suffice.
  unfoldable pub consume :
      ℕ
      → String
      → ℤ
      → Portfolio money
      → Portfolio money × Outcome PortfolioError (List (ConsumedLot money) × Float)
  unfolding consume_lots after_loop
  consume sell_date symbol quantity p =
      let lots = lots_of symbol p.tax_lots in
      after_loop symbol p (consume_lots money p.tax_method sell_date quantity lots) lots

  -- `position.quantity -= quantity`, and the position goes when nothing is left.
  unfoldable pub reduce :
      String → ℤ → Position money → Dict String (Position money) → Dict String (Position money)
  reduce symbol quantity position positions =
      let left = position.quantity -ℤ quantity in
      if leb_ℤ left (pos 0)
      then erase symbol positions
      else insert symbol (record position { quantity = left }) positions

  abbrev sold :
      ℕ → String → ℤ → Float → Float → Float → List (ConsumedLot money) → (TradeRecord money)
  sold timestamp symbol quantity price cost tax consumed = record {
    timestamp = timestamp;
    side = sell;
    symbol = symbol;
    quantity = quantity;
    price = price;
    cost = cost;
    tax = tax;
    lot_ids = map (λ (c : (ConsumedLot money)). c.lot_id) consumed;
  }

  abbrev pub sale_of : ℕ → String → ℤ → Float → Float → Float → Float → SellRecord money
  sale_of sell_date symbol quantity price cost tax cost_basis = record {
    symbol = symbol;
    sell_date = sell_date;
    quantity = quantity;
    sell_price = price;
    cost_basis = cost_basis;
    gain = sub (sub (sub (mul (of_int quantity) price) cost_basis) cost) tax;
  }

  -- The end of `close_position`, when the lots are consumed.
  unfoldable pub settle_sale :
      ℕ
      → String
      → ℤ
      → Float
      → Float
      → Float
      → Position money
      → List (ConsumedLot money)
      → Float
      → Portfolio money
      → Portfolio money
  unfolding reduce
  settle_sale sell_date symbol quantity price cost tax position consumed cost_basis p =
      let sale = sale_of sell_date symbol quantity price cost tax cost_basis in
      record p {
        positions = reduce symbol quantity position p.positions;
        cash = add p.cash (sub (sub (mul (of_int quantity) price) cost) tax);
        realized_pnl = add p.realized_pnl sale.gain;
        sell_history = p.sell_history ++ sale ∷ [];
        trade_history =
            p.trade_history ++ sold sell_date symbol quantity price cost tax consumed ∷ [];
      }

  -- What `close_position` does after `_consume_lots`.
  unfoldable pub finish_sale :
      ℕ
      → String
      → ℤ
      → Float
      → Float
      → Float
      → Position money
      → Portfolio money × Outcome PortfolioError (List (ConsumedLot money) × Float)
      → Portfolio money × Outcome PortfolioError (List (ConsumedLot money))
  unfolding settle_sale
  finish_sale sell_date symbol quantity price cost tax position (p, err e) = (p, err e)
  finish_sale sell_date symbol quantity price cost tax position (p, ok (consumed, cost_basis)) = (
    settle_sale sell_date symbol quantity price cost tax position consumed cost_basis p,
    ok consumed,
  )

  unfoldable pub close_position :
      ℕ
      → String
      → ℤ
      → Float
      → Float
      → Float
      → Portfolio money
      → Portfolio money × Outcome PortfolioError (List (ConsumedLot money))
  unfolding consume finish_sale
  close_position now symbol quantity price cost tax p =
      let date = trade_date now p in
      elim (lookup symbol p.positions) [
        | none ↦ (p, err no_position)
        | some position ↦
            if ltb_ℤ position.quantity quantity
            then (p, err (too_many_shares position.quantity))
            else finish_sale date symbol quantity price cost tax position
                (consume date symbol quantity p)
      ]

  -- One round of `update_prices`: a position that is held takes the new price.
  unfoldable pub reprice : String → Float → Portfolio money → Portfolio money
  reprice symbol price p = elim (lookup symbol p.positions) [
    | none ↦ p
    | some position ↦ record p {
      positions = insert symbol (record position { current_price = price }) p.positions;
    }
  ]

  unfoldable pub update_prices : Dict String Float → Portfolio money → Portfolio money
  unfolding reprice
  update_prices [] p = p
  update_prices ((symbol, price) ∷ prices) p = update_prices prices (reprice symbol price p)

  unfoldable pub set_tax_method : TaxMethod → Portfolio money → Portfolio money
  set_tax_method method p = record p { tax_method = method }

  get_tax_lots : String → Portfolio money → List (TaxLot money)
  get_tax_lots symbol p = lots_of symbol p.tax_lots
