-- ===== src/Tax/Cgt.antt =====
-- engine/core/tax/reports/hmrc_cgt.py and cgt_carryover.py: the British capital gains of a year and
-- the loss that is carried forward. Proceeds and costs are numbers of units, `per_cent` of them a
-- penny; all other amounts are whole pence, on which `quantize` changes nothing. A date is its
-- ordinal.
pub mod Ledger
use Prim.Native.Nat.{min}
use nexus_trade_engine.Prelude.{
  ℕ, ◌+◌, ◌-◌, ◌*◌, String, List, [], ◌∷◌, Outcome, ok, err, ◌>>=◌, ◌>>◌, raise_if, ltb,
  if◌then◌else◌, length,
}
use nexus_trade_engine.Prelude.Int.{ℤ, pos, pos_part, sub_ℕ, ◌+ℤ◌, ◌-ℤ◌, ltb_ℤ, leb_ℤ}
use nexus_trade_engine.Tax.Kest.{round_half_even, quantize}

pub data CgtError : Type 0 where
  dates_reversed negative_proceeds negative_cost negative_exemption negative_carryover : CgtError

-- `CgtDisposal`; its constructor refuses negative amounts, so they are naturals.
pub record CgtDisposal : Type 0 where
  pub description : String
  pub acquired : ℕ
  pub disposed : ℕ
  pub proceeds : ℕ
  pub cost : ℕ

-- The checks of `CgtDisposal.__post_init__`.
new_disposal : String → ℕ → ℕ → ℤ → ℤ → Outcome CgtError CgtDisposal
new_disposal description acquired disposed proceeds cost = do
  raise_if (ltb disposed acquired) dates_reversed
  raise_if (ltb_ℤ proceeds (pos 0)) negative_proceeds
  raise_if (ltb_ℤ cost (pos 0)) negative_cost
  ok (record {
    description = description;
    acquired = acquired;
    disposed = disposed;
    proceeds = pos_part proceeds;
    cost = pos_part cost;
  })

unfoldable pub gain_loss : ℕ → CgtDisposal → ℤ
unfolding quantize
gain_loss per_cent d = quantize per_cent (sub_ℕ d.proceeds d.cost)

pub record CgtSummary : Type 0 where
  pub disposal_count : ℕ
  pub proceeds_total : ℕ
  pub cost_total : ℕ
  pub net_gain : ℕ
  pub net_loss : ℕ
  pub annual_exempt_amount_used : ℕ
  pub taxable_gain : ℕ

-- What the loop of `summarize_cgt` adds up.
pub record CgtTotals : Type 0 where
  pub proceeds_total : ℕ
  pub cost_total : ℕ
  pub gross_gain : ℤ
  pub gross_loss : ℤ

unfoldable pub add_disposals : ℕ → CgtTotals → List CgtDisposal → CgtTotals
unfolding gain_loss
add_disposals per_cent t [] = t
add_disposals per_cent t (d ∷ ds) =
    let delta = gain_loss per_cent d in
    let gained = leb_ℤ (pos 0) delta in
    let t' : CgtTotals = record {
      proceeds_total = t.proceeds_total + d.proceeds;
      cost_total = t.cost_total + d.cost;
      gross_gain = if gained then t.gross_gain +ℤ delta else t.gross_gain;
      gross_loss = if gained then t.gross_loss else t.gross_loss +ℤ (pos 0 -ℤ delta);
    } in
    add_disposals per_cent t' ds

abbrev pub totals_of : ℕ → List CgtDisposal → CgtTotals
totals_of per_cent ds =
    add_disposals per_cent
      (record { proceeds_total = 0; cost_total = 0; gross_gain = pos 0; gross_loss = pos 0 }) ds

-- The end of `summarize_cgt`, on the net of the year and an exemption that is not negative.
unfoldable pub summary_of : ℕ → ℕ → CgtTotals → ℤ → ℕ → CgtSummary
unfolding round_half_even
summary_of per_cent count t net exempt =
    let net_gain = if ltb_ℤ (pos 0) net then pos_part net else 0 in
    let net_loss = if ltb_ℤ (pos 0) net then 0 else pos_part (pos 0 -ℤ net) in
    let aea_used = min net_gain exempt in
    record {
      disposal_count = count;
      proceeds_total = round_half_even t.proceeds_total per_cent;
      cost_total = round_half_even t.cost_total per_cent;
      net_gain = net_gain;
      net_loss = net_loss;
      annual_exempt_amount_used = aea_used;
      taxable_gain = net_gain - aea_used;
    }

pub summarize_cgt : ℕ → List CgtDisposal → ℤ → Outcome CgtError CgtSummary
unfolding add_disposals summary_of
summarize_cgt per_cent ds annual_exempt_amount =
    let t = totals_of per_cent ds in
    do
      raise_if (ltb_ℤ annual_exempt_amount (pos 0)) negative_exemption
      ok (
          summary_of per_cent (length ds) t (t.gross_gain -ℤ t.gross_loss)
            (pos_part annual_exempt_amount))

-- `CgtCarryover` holds its loss alone.
pub record CgtApplication : Type 0 where
  pub summary : CgtSummary
  pub carryover_loss_used : ℕ
  pub taxable_gain_after_carryover : ℕ
  pub next_year_loss : ℕ

-- What follows the checks of `apply_cgt_carryover`, for a prior loss that is not negative.
pub apply_loss : CgtSummary → ℕ → CgtApplication
apply_loss summary prior_loss =
    let used = min prior_loss summary.taxable_gain in
    record {
      summary = summary;
      carryover_loss_used = used;
      taxable_gain_after_carryover = summary.taxable_gain - used;
      next_year_loss = (prior_loss - used) + summary.net_loss;
    }

pub apply_cgt_carryover : ℕ → List CgtDisposal → ℤ → ℤ → Outcome CgtError CgtApplication
unfolding summarize_cgt apply_loss
apply_cgt_carryover per_cent ds prior_loss annual_exempt_amount = do
  raise_if (ltb_ℤ annual_exempt_amount (pos 0)) negative_exemption
  raise_if (ltb_ℤ prior_loss (pos 0)) negative_carryover
  summary ← summarize_cgt per_cent ds annual_exempt_amount
  ok (apply_loss summary (pos_part prior_loss))

-- `roll_forward`
roll_forward : ℤ → Outcome CgtError ℕ
roll_forward prior_loss = do
  raise_if (ltb_ℤ prior_loss (pos 0)) negative_carryover
  ok (pos_part prior_loss)
