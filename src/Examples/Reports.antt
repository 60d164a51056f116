-- ===== src/Examples/Reports.antt =====
-- A French and a British year with losses of earlier years; amounts are cents.
use Prim.Native.Nat.{min}
use nexus_trade_engine.Prelude.{◌+◌, ◌-◌, ◌≡◌, List, [], ◌∷◌, ok, All, ◌⊎◌}
use nexus_trade_engine.Prelude.Int.{pos}
use nexus_trade_engine.Tax.Pfu.{PfuDisposal, PfuLossVintage, total, apply_pfu_carryover}
use nexus_trade_engine.Tax.Pfu.Ledger.{IsFresh, apply_pfu_carryover-accounted}
use nexus_trade_engine.Tax.Cgt.{CgtDisposal, CgtApplication, apply_cgt_carryover}
use nexus_trade_engine.Tax.Cgt.Ledger.{apply_cgt_carryover-accounted}

abbrev vintages : List PfuLossVintage
vintages =
    record { year = 2022; amount = 100_000 }
    ∷ record { year = 2010; amount = 50_000 }
    ∷ record { year = 2020; amount = 30_000 }
    ∷ []

abbrev french_sales : List PfuDisposal
french_sales =
    record {
      description = "shares";
      acquired = 738_000;
      disposed = 739_000;
      proceeds = 170_000;
      cost = 100_000;
    }
    ∷ []

apply_pfu_carryover-accounted_example :
    let a = apply_pfu_carryover 1 french_sales vintages 2024 in
    (total a.expired + a.loss_used + total a.next_year_carryover
      ≡ total vintages + a.summary.net_loss)
    × (a.loss_used ≡ min a.summary.net_gain (total vintages - total a.expired))
    × (a.taxable_gain_after_carryover ≡ pos (a.summary.net_gain - a.loss_used))
    × All (IsFresh 2024) a.next_year_carryover
apply_pfu_carryover-accounted_example = apply_pfu_carryover-accounted 1 french_sales vintages 2024

abbrev british_sales : List CgtDisposal
british_sales =
    record {
      description = "shares";
      acquired = 738_000;
      disposed = 739_000;
      proceeds = 1_000_000;
      cost = 400_000;
    }
    ∷ []

apply_cgt_carryover-accounted_example :
    (a : CgtApplication) × (apply_cgt_carryover 1 british_sales (pos 200_000) (pos 300_000) ≡ ok a)
    × (a.summary.annual_exempt_amount_used + a.carryover_loss_used + a.taxable_gain_after_carryover
        ≡ a.summary.net_gain)
    × (a.carryover_loss_used + a.next_year_loss ≡ 200_000 + a.summary.net_loss)
    × ((a.carryover_loss_used ≡ 0) ⊎ (a.summary.annual_exempt_amount_used ≡ 300_000))
    × ((a.taxable_gain_after_carryover ≡ 0) ⊎ (a.next_year_loss ≡ 0))
apply_cgt_carryover-accounted_example =
    apply_cgt_carryover-accounted 1 british_sales 200_000 300_000
