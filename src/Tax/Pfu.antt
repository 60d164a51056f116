-- ===== src/Tax/Pfu.antt =====
-- engine/core/tax/reports/france_pfu.py and pfu_carryover.py: the French flat tax and the losses
-- that it carries forward for ten years. Proceeds and costs are numbers of units, `per_cent` of
-- them a cent; all other amounts are whole cents, on which `quantize` changes nothing. A date is its
-- ordinal.
pub mod Ledger
use Prim.Native.Nat.{min}
use nexus_trade_engine.Prelude.{
  ℕ, ◌+◌, ◌-◌, ◌*◌, String, Bool, true, false, List, [], ◌∷◌, ◌++◌, keep, Outcome, ok, err, ◌>>=◌,
  ◌>>◌, raise_if, ltb, leb, if◌then◌else◌, length,
}
use nexus_trade_engine.Prelude.Int.{ℤ, pos, pos_part, sub_ℕ, ◌+ℤ◌, ◌-ℤ◌, ◌*ℤ◌, ltb_ℤ, leb_ℤ}
use nexus_trade_engine.Tax.Kest.{round_half_even, quantize}

-- Rates in thousandths.
abbrev pfu_income_tax_rate : ℕ
pfu_income_tax_rate = 128

abbrev pfu_social_charges_rate : ℕ
pfu_social_charges_rate = 172

abbrev pub carry_forward_years : ℕ
carry_forward_years = 10

pub data PfuError : Type 0 where
  dates_reversed negative_proceeds negative_cost negative_vintage : PfuError

-- `PfuDisposal`; its constructor refuses negative amounts, so they are naturals.
pub record PfuDisposal : Type 0 where
  pub description : String
  pub acquired : ℕ
  pub disposed : ℕ
  pub proceeds : ℕ
  pub cost : ℕ

-- The checks of `PfuDisposal.__post_init__`.
new_disposal : String → ℕ → ℕ → ℤ → ℤ → Outcome PfuError PfuDisposal
new_disposal description acquired disposed proceeds cost = do
  raise_if (ltb disposed acquired) dates_reversed
  raise_if (ltb_ℤ proceeds (pos 0)) negative_proceeds
  raise_if (ltb_ℤ cost (pos 0)) negative_cost
  ok (record {
    description = description;
    acquired = acquired;
    disposed = disposed;
    proceeds = pos_part proceeds;
    cost = pos_part cost;
  })

unfoldable pub gain_loss : ℕ → PfuDisposal → ℤ
unfolding quantize
gain_loss per_cent d = quantize per_cent (sub_ℕ d.proceeds d.cost)

pub record PfuSummary : Type 0 where
  pub disposal_count : ℕ
  pub proceeds_total : ℕ
  pub cost_total : ℕ
  pub net_gain : ℕ
  pub net_loss : ℕ
  pub taxable_gain : ℕ
  pub income_tax : ℕ
  pub social_charges : ℕ
  pub total_tax : ℕ

-- What the loop of `summarize_pfu` adds up.
pub record PfuTotals : Type 0 where
  pub proceeds_total : ℕ
  pub cost_total : ℕ
  pub gross_gain : ℤ
  pub gross_loss : ℤ

abbrev no_totals : PfuTotals
no_totals = record { proceeds_total = 0; cost_total = 0; gross_gain = pos 0; gross_loss = pos 0 }

unfoldable add_disposal : ℕ → PfuTotals → PfuDisposal → PfuTotals
unfolding gain_loss
add_disposal per_cent t d =
    let delta = gain_loss per_cent d in
    let gains = leb_ℤ (pos 0) delta in
    record {
      proceeds_total = t.proceeds_total + d.proceeds;
      cost_total = t.cost_total + d.cost;
      gross_gain = if gains then t.gross_gain +ℤ delta else t.gross_gain;
      gross_loss = if gains then t.gross_loss else t.gross_loss +ℤ (pos 0 -ℤ delta);
    }

unfoldable add_disposals : ℕ → PfuTotals → List PfuDisposal → PfuTotals
unfolding add_disposal
add_disposals per_cent t [] = t
add_disposals per_cent t (d ∷ ds) = add_disposals per_cent (add_disposal per_cent t d) ds

-- The end of `summarize_pfu`, on the net of the year.
unfoldable pub summary_of : ℕ → ℕ → PfuTotals → ℤ → PfuSummary
unfolding round_half_even
summary_of per_cent count t net =
    let net_gain = if ltb_ℤ (pos 0) net then pos_part net else 0 in
    let net_loss = if ltb_ℤ (pos 0) net then 0 else pos_part (pos 0 -ℤ net) in
    let income_tax = round_half_even (net_gain * pfu_income_tax_rate) 1000 in
    let social_charges = round_half_even (net_gain * pfu_social_charges_rate) 1000 in
    record {
      disposal_count = count;
      proceeds_total = round_half_even t.proceeds_total per_cent;
      cost_total = round_half_even t.cost_total per_cent;
      net_gain = net_gain;
      net_loss = net_loss;
      taxable_gain = net_gain;
      income_tax = income_tax;
      social_charges = social_charges;
      total_tax = income_tax + social_charges;
    }

pub summarize_pfu : ℕ → List PfuDisposal → PfuSummary
unfolding add_disposals summary_of
summarize_pfu per_cent ds =
    let t = add_disposals per_cent no_totals ds in
    summary_of per_cent (length ds) t (t.gross_gain -ℤ t.gross_loss)

-- `PfuLossVintage`; its constructor refuses a negative amount.
pub record PfuLossVintage : Type 0 where
  pub year : ℕ
  pub amount : ℕ

new_vintage : ℕ → ℤ → Outcome PfuError PfuLossVintage
new_vintage year amount = do
  raise_if (ltb_ℤ amount (pos 0)) negative_vintage
  ok (record { year = year; amount = pos_part amount })

-- `PfuCarryover.total`
abbrev pub total : List PfuLossVintage → ℕ
total [] = 0
total (v ∷ vs) = v.amount + total vs

abbrev is_positive : PfuLossVintage → Bool
is_positive v = ltb 0 v.amount

-- `sorted` by year keeps vintages of one year in their order.
pub insert_vintage : PfuLossVintage → List PfuLossVintage → List PfuLossVintage
insert_vintage v [] = v ∷ []
insert_vintage v (w ∷ ws) =
    let rest = insert_vintage v ws in if leb v.year w.year then v ∷ w ∷ ws else w ∷ rest

pub sort_vintages : List PfuLossVintage → List PfuLossVintage
unfolding insert_vintage
sort_vintages [] = []
sort_vintages (v ∷ vs) = insert_vintage v (sort_vintages vs)

pub normalised : List PfuLossVintage → List PfuLossVintage
unfolding sort_vintages
normalised vintages = sort_vintages (keep is_positive vintages)

-- `current_year - v.year >= CARRY_FORWARD_YEARS`
abbrev pub is_expired : ℕ → PfuLossVintage → Bool
is_expired current_year v = leb (v.year + carry_forward_years) current_year

abbrev is_fresh : ℕ → PfuLossVintage → Bool
is_fresh current_year v = ltb current_year (v.year + carry_forward_years)

-- The loop that absorbs vintages into a gain: what it used, and what survives.
unfoldable pub absorb : ℤ → List PfuLossVintage → ℕ × List PfuLossVintage
absorb remaining_gain [] = (0, [])
absorb remaining_gain (v ∷ vs) =
    let take = min (pos_part remaining_gain) v.amount in
    let left = v.amount - take in
    let kept = absorb remaining_gain vs in
    let (used, surviving) = absorb (remaining_gain -ℤ pos take) vs in
    if leb_ℤ remaining_gain (pos 0) then (kept.0, v ∷ kept.1) else (
      take + used,
      if ltb 0 left then record { year = v.year; amount = left } ∷ surviving else surviving,
    )

pub record PfuApplication : Type 0 where
  pub summary : PfuSummary
  pub loss_used : ℕ
  pub taxable_gain_after_carryover : ℤ
  pub income_tax_after_carryover : ℤ
  pub social_charges_after_carryover : ℤ
  pub total_tax_after_carryover : ℤ
  pub next_year_carryover : List PfuLossVintage
  pub expired : List PfuLossVintage

-- What the year uses of the vintages that have not expired, and what survives.
pub consume_vintages : ℕ → PfuSummary → List PfuLossVintage → ℕ × List PfuLossVintage
unfolding absorb
consume_vintages current_year summary fresh =
    if ltb 0 summary.net_gain
    then absorb (pos summary.net_gain) fresh
    else if ltb 0 summary.net_loss
    then (0, fresh ++ record { year = current_year; amount = summary.net_loss } ∷ [])
    else (0, fresh)

pub apply_pfu_carryover : ℕ → List PfuDisposal → List PfuLossVintage → ℕ → PfuApplication
unfolding normalised summarize_pfu consume_vintages quantize
apply_pfu_carryover per_cent ds prior current_year =
    let vintages = normalised prior in
    let summary = summarize_pfu per_cent ds in
    let fresh = keep (is_fresh current_year) vintages in
    let (used, surviving) = consume_vintages current_year summary fresh in
    let taxable_after = pos summary.net_gain -ℤ pos used in
    let income_tax = quantize 1000 (taxable_after *ℤ pos pfu_income_tax_rate) in
    let social = quantize 1000 (taxable_after *ℤ pos pfu_social_charges_rate) in
    record {
      summary = summary;
      loss_used = used;
      taxable_gain_after_carryover = taxable_after;
      income_tax_after_carryover = income_tax;
      social_charges_after_carryover = social;
      total_tax_after_carryover = income_tax +ℤ social;
      next_year_carryover = normalised surviving;
      expired = keep (is_expired current_year) vintages;
    }
