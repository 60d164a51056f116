-- ===== src/Examples/Holdings.antt =====
-- A portfolio that buys twice and sells part of what it holds, in whole numbers as floats.
use nexus_trade_engine.Prelude.{
  ◌∷◌, ◌+◌, ◌≡◌, refl, none, true, false, List, [], ok, err, arith, string_eq, if◌then◌else◌, All,
}
use nexus_trade_engine.Prelude.Int.{pos, ◌+ℤ◌, ◌-ℤ◌, ◌*ℤ◌, ltb_ℤ}
use nexus_trade_engine.Portfolio.{
  TaxLot, consume_lots, Money, Portfolio, ConsumedLot, fifo, insufficient_cash,
}
use nexus_trade_engine.Portfolio.Lots.{held, IsLong, Distinct, IsOther}
use nexus_trade_engine.Portfolio.Consume.{taken}
use nexus_trade_engine.Portfolio.Trades.{
  lots_of, open_position, close_position, lot_price, total_adjustment, adjusted_price, paid,
  settle_buy, enlarged,
}
use nexus_trade_engine.Portfolio.Invariant.{IsValid, open_position_lem}
use nexus_trade_engine.Portfolio.Sale.{close_position-sells}
use nexus_trade_engine.Portfolio.Oldest.{IsOldestFirst, consume_lots-IsOldestFirst}
use nexus_trade_engine.Portfolio.Reach.{Reaches, stays, next, buys, sells, Reaches-IsValid}
use nexus_trade_engine.Examples.Limits.{whole}

abbrev pub euros : Money
euros = record { floats = whole; of_int = λ a. a }

abbrev pub empty : Portfolio euros
empty = record {
  initial_cash = pos 1000;
  cash = pos 1000;
  positions = [];
  tax_lots = [];
  trade_history = [];
  sell_history = [];
  realized_pnl = pos 0;
  tax_method = fifo;
  wash_sale_window_days = 30;
  transaction_date = none;
}

empty-IsValid : IsValid euros empty
empty-IsValid = record {
  distinct = λ s. tt;
  long = λ s. tt;
  backed = λ s. refl;
  opened = λ s. tt;
  sales = tt;
}

abbrev first_buy : Portfolio euros
first_buy = (open_position euros 10 "lot-1" "AAPL" (pos 5) (pos 20) (pos 1) empty).0

abbrev second_buy : Portfolio euros
second_buy = (open_position euros 20 "lot-2" "AAPL" (pos 4) (pos 30) (pos 1) first_buy).0

lot_is_new : All (IsOther euros "lot-2") (lots_of euros "AAPL" first_buy.tax_lots)
unfolding open_position lot_price total_adjustment adjusted_price paid settle_buy ◌*ℤ◌ ◌+ℤ◌
lot_is_new = ((λ e. let h : false ≡ true = (string_eq.same_iff "lot-1" "lot-2").1 e in cc), tt)

second_buy-Reaches : Reaches euros empty second_buy
second_buy-Reaches =
    next _ _ (next _ _ stays (buys 10 "lot-1" "AAPL" (pos 5) (pos 20) (pos 1) (omega arith) tt))
      (buys 20 "lot-2" "AAPL" (pos 4) (pos 30) (pos 1) (omega arith) lot_is_new)

Reaches-IsValid_example :
    IsValid euros (close_position euros 30 "AAPL" (pos 7) (pos 40) (pos 1) (pos 2) second_buy).0
Reaches-IsValid_example =
    Reaches-IsValid euros empty _ empty-IsValid
      (next _ _ second_buy-Reaches (sells 30 7 "AAPL" (pos 40) (pos 1) (pos 2) (omega arith)))

second_buy-IsValid : IsValid euros second_buy
second_buy-IsValid = Reaches-IsValid euros empty second_buy empty-IsValid second_buy-Reaches

close_position-sells_example :
    (p' : Portfolio euros) × (consumed : List (ConsumedLot euros)) × (close_position euros 30 "AAPL"
        (pos 7)
        (pos 40)
        (pos 1)
        (pos 2)
        second_buy
      ≡ (p', ok consumed))
    × (taken euros consumed ≡ 7)
    × (held euros (lots_of euros "AAPL" p'.tax_lots) + 7
        ≡ held euros (lots_of euros "AAPL" second_buy.tax_lots))
    × IsValid euros p'
unfolding open_position lot_price total_adjustment adjusted_price paid settle_buy enlarged ◌*ℤ◌ ◌+ℤ◌
    ◌-ℤ◌
close_position-sells_example =
    close_position-sells euros 30 7 "AAPL" (pos 40) (pos 1) (pos 2) second_buy _ second_buy-IsValid
      (omega arith) refl (omega arith)

open_position_lem_example :
    let (p', outcome) = open_position euros 10 "lot-1" "AAPL" (pos 5) (pos 20) (pos 1) empty in
    IsValid euros p'
    × (outcome ≡ (
        if ltb_ℤ (pos 1000) (pos 5 *ℤ pos 20 +ℤ pos 1) then err insufficient_cash else ok "lot-1"))
    × (ltb_ℤ (pos 1000) (pos 5 *ℤ pos 20 +ℤ pos 1) ≡ true → p' ≡ empty)
open_position_lem_example =
    open_position_lem euros 10 "lot-1" "AAPL" (pos 5) (pos 20) (pos 1) empty empty-IsValid
      (omega arith) tt

abbrev oldest : TaxLot euros
oldest = record {
  lot_id = "lot-1";
  symbol = "AAPL";
  quantity = pos 5;
  purchase_price = pos 20;
  purchase_date = 10;
}

abbrev two_lots : List (TaxLot euros)
two_lots =
    record {
      lot_id = "lot-2";
      symbol = "AAPL";
      quantity = pos 4;
      purchase_price = pos 30;
      purchase_date = 20;
    }
    ∷ oldest
    ∷ []

one_lot-Distinct : Distinct euros (oldest ∷ [])
one_lot-Distinct = (tt, tt)

two_lots-Distinct : Distinct euros two_lots
two_lots-Distinct = (
  ((λ e. let h : false ≡ true = (string_eq.same_iff "lot-1" "lot-2").1 e in cc), tt),
  one_lot-Distinct,
)

oldest-IsLong : All (IsLong euros) (oldest ∷ [])
oldest-IsLong = (omega arith, tt)

consume_lots-IsOldestFirst_example :
    let c = consume_lots euros fifo 30 (pos 7) two_lots in IsOldestFirst euros c.consumed c.lots
consume_lots-IsOldestFirst_example =
    consume_lots-IsOldestFirst euros 30 (pos 7) two_lots two_lots-Distinct
      (omega arith, oldest-IsLong)
