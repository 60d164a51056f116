-- ===== src/Examples/Taxes.antt =====
-- A wash sale, and a year of capital income.
use nexus_trade_engine.Prelude.{
  length, ◌<◌, ℕ, ◌+◌, ◌*◌, ◌/◌, ◌≤◌, ◌≡◌, refl, none, List, [], ◌∷◌, ok, arith, All, true, false,
}
use nexus_trade_engine.Prelude.Int.{pos, negsuc, ◌+ℤ◌, ◌-ℤ◌, ◌≤ℤ◌}
use nexus_trade_engine.Tax.WashSale.{
  Trade, buy, sell, SaleState, BuyState, WashSaleAdjustment, detect_wash_sales, books_of,
  buy_states, match_sale, sorted, match_all, loss_sales, sale_states, book_all, all_lots,
  passed_over, after_match, microseconds_per_day,
}
use nexus_trade_engine.Tax.WashSale.Matching.{matched, available_in, detect_wash_sales-matched}
use nexus_trade_engine.Tax.WashSale.Provenance.{IsWash, detect_wash_sales-IsWash}
use nexus_trade_engine.Tax.Carryback.{
  PriorYearNetGain, CarrybackAbsorption, Section1256Carryback, eligible, absorb,
  apply_section_1256_carryback,
}
use nexus_trade_engine.Tax.Carryback.Recovery.{recovered, apply_section_1256_carryback-recovered}
use nexus_trade_engine.Tax.CapitalLoss.{
  CapitalLossCarryover, CapitalLossApplication, apply_carryover, deduct, split_remaining,
}
use nexus_trade_engine.Tax.CapitalLoss.Ledger.{loss_of, apply_carryover-accounted}
use nexus_trade_engine.Tax.Kest.{
  KestDisposal, equity, other, KestCarryover, KestApplication, apply_kest_carryover, bucket,
  summarize_kest, assess, round_half_even, synthesize, gain_loss, quantize,
}
use nexus_trade_engine.Tax.Kest.Carryover.{equity_after, other_after, apply_kest_carryover-ledger}

-- The first lot, bought dear; its sale at a loss on day 100; and a replacement on day 110.
abbrev first_buy : Trade
first_buy = record {
  trade_id = "t1";
  symbol = "AAPL";
  side = buy;
  quantity = 10;
  price = 50;
  when = 0;
}

abbrev loss_sale : Trade
loss_sale = record {
  trade_id = "t2";
  symbol = "AAPL";
  side = sell;
  quantity = 10;
  price = 40;
  when = 100 * microseconds_per_day;
}

abbrev replacement : Trade
replacement = record {
  trade_id = "t3";
  symbol = "AAPL";
  side = buy;
  quantity = 4;
  price = 42;
  when = 110 * microseconds_per_day;
}

abbrev year : List Trade
year = first_buy ∷ loss_sale ∷ replacement ∷ []

abbrev part_of : ℕ → ℕ → ℕ → ℕ
part_of loss taken quantity = loss * taken / quantity

abbrev washed : List WashSaleAdjustment
washed =
    record {
      sale_trade_id = "t2";
      replacement_trade_id = "t3";
      symbol = "AAPL";
      matched_quantity = 4;
      disallowed_loss = 40;
    }
    ∷ []

year-washed : detect_wash_sales part_of year [] (pos 30) ≡ ok washed
unfolding detect_wash_sales sorted match_all loss_sales sale_states ◌-ℤ◌ books_of book_all
    match_sale buy_states all_lots passed_over after_match
year-washed = refl

detect_wash_sales-matched_example :
    matched replacement.trade_id washed
    ≤ available_in replacement.trade_id (buy_states (books_of year []))
detect_wash_sales-matched_example =
    detect_wash_sales-matched part_of year [] (pos 30) washed year-washed replacement.trade_id

detect_wash_sales-IsWash_example : All (IsWash year (30 * microseconds_per_day)) washed
detect_wash_sales-IsWash_example =
    detect_wash_sales-IsWash part_of year [] (pos 30) washed year-washed

abbrev lots : List BuyState
lots =
    record { trade = first_buy; available_qty = 10 }
    ∷ record { trade = replacement; available_qty = 4 }
    ∷ []

abbrev open_sale : SaleState
open_sale = record {
  trade = loss_sale;
  total_loss = 100;
  remaining_qty = 10;
  remaining_loss = pos 100;
}

-- A gain of 10.00 on equity and a loss of 4.00 on the rest, in cents.
abbrev disposals : List KestDisposal
disposals =
    record {
      description = "shares";
      acquired = 1;
      disposed = 9;
      proceeds = 5000;
      cost = 4000;
      asset_class = equity;
    }
    ∷ record {
      description = "bond";
      acquired = 1;
      disposed = 9;
      proceeds = 1000;
      cost = 1400;
      asset_class = other;
    }
    ∷ []

abbrev no_prior : KestCarryover 1
no_prior = record { equity_loss = pos 0; other_loss = pos 0 }

-- The loss of 4.00 has lowered the base to 6.00, and is carried on in full.
abbrev taxed : KestApplication 1
taxed = record {
  summary = record {
    disposal_count = 2;
    proceeds_total = 1000;
    cost_total = 400;
    equity_net = pos 1000;
    other_net = negsuc 399;
    taxable_income = 600;
    allowance_used = 0;
    kest = 150;
    solidarity_surcharge = 8;
    church_tax = 0;
    total_tax = 158;
  };
  next_year_carryover = record { equity_loss = pos 0; other_loss = pos 400 };
}

year_taxed : apply_kest_carryover 1 disposals no_prior (pos 0) none ≡ ok taxed
unfolding apply_kest_carryover summarize_kest assess ◌-ℤ◌ round_half_even bucket ◌+ℤ◌ synthesize
    gain_loss quantize
year_taxed = refl

apply_kest_carryover-ledger_example :
    (bucket 1 true disposals +ℤ pos 0 ≡ pos 0 +ℤ pos 1000)
    × (bucket 1 false disposals +ℤ pos 400 ≡ pos 0 +ℤ pos 0)
    × (pos 0 ≤ℤ pos 0)
    × (pos 0 ≤ℤ pos 400)
apply_kest_carryover-ledger_example =
    apply_kest_carryover-ledger 1 (omega arith) disposals no_prior (pos 0) none taxed year_taxed

equity_gain : equity_after 1 disposals no_prior ≡ pos 1000
unfolding bucket ◌+ℤ◌ ◌-ℤ◌ gain_loss quantize
equity_gain = refl

other_loss : other_after 1 disposals no_prior ≡ negsuc 399
unfolding bucket ◌+ℤ◌ ◌-ℤ◌ gain_loss quantize
other_loss = refl

-- A short-term loss of 4100.00 after a gain of 100.00 on the rest, with 500.00 carried in.
abbrev loss_carried_in : CapitalLossCarryover
loss_carried_in = record { short_term = pos 50_000; long_term = pos 0 }

abbrev loss_applied : CapitalLossApplication
loss_applied = record {
  current_year_deduction = 300_000;
  next_year_carryover = record { short_term = pos 150_000; long_term = pos 0 };
}

loss_year :
    apply_carryover (negsuc 409_999) (pos 10_000) loss_carried_in (pos 300_000) ≡ ok loss_applied
unfolding apply_carryover deduct split_remaining ◌+ℤ◌ ◌-ℤ◌
loss_year = refl

apply_carryover-accounted_example :
    (pos (300_000 + 150_000 + 0)
      ≡ pos (loss_of (negsuc 409_999 -ℤ pos 50_000) (pos 10_000 -ℤ pos 0)))
    × (pos 300_000 ≤ℤ pos 300_000)
    × (pos 0 ≤ℤ pos 150_000)
    × (pos 0 ≤ℤ pos 0)
apply_carryover-accounted_example =
    apply_carryover-accounted (negsuc 409_999) (pos 10_000) loss_carried_in (pos 300_000)
      loss_applied loss_year

abbrev gains_before : List PriorYearNetGain
gains_before =
    record { year = 2023; net_gain = 30 }
    ∷ record { year = 2020; net_gain = 100 }
    ∷ record { year = 2021; net_gain = 0 }
    ∷ record { year = 2022; net_gain = 50 }
    ∷ []

-- The gain of 2020 is too old.
abbrev carried_back : Section1256Carryback
carried_back = record {
  loss_absorbed = 80;
  per_year = record { year = 2022; amount = 50 } ∷ record { year = 2023; amount = 30 } ∷ [];
  forward_carry = 40;
}

loss_recovered : apply_section_1256_carryback (pos 120) gains_before ≡ ok carried_back
unfolding apply_section_1256_carryback absorb eligible sorted
loss_recovered = refl

apply_section_1256_carryback-recovered_example :
    (pos (80 + 40) ≡ pos 120)
    × (recovered carried_back.per_year ≡ 80)
    × (length carried_back.per_year ≤ 3)
    × All (λ (a : CarrybackAbsorption). 0 < a.amount) carried_back.per_year
apply_section_1256_carryback-recovered_example =
    apply_section_1256_carryback-recovered (pos 120) gains_before carried_back loss_recovered
