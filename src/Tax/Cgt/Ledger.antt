-- ===== src/Tax/Cgt/Ledger.antt =====
-- Where the British gains and losses of a year go.
use nexus_trade_engine.Prelude.{ℕ, ◌+◌, ◌≤◌, ◌≡◌, refl, false, List, ok, arith, ◌⊎◌, length}
use nexus_trade_engine.Prelude.Int.{ℤ, pos, ◌-ℤ◌, ltb_ℤ}
use nexus_trade_engine.Tax.Cgt.{
  CgtDisposal, CgtSummary, CgtTotals, CgtApplication, totals_of, summary_of, summarize_cgt,
  apply_loss, apply_cgt_carryover,
}

-- The summary of the year for an exemption that is not negative.
abbrev year_summary : ℕ → List CgtDisposal → ℕ → CgtSummary
year_summary per_cent ds exempt =
    let t = totals_of per_cent ds in
    summary_of per_cent (length ds) t (t.gross_gain -ℤ t.gross_loss) exempt

not_negative : (n : ℕ) → ltb_ℤ (pos n) (pos 0) ≡ false
not_negative n = ground arith

-- The year as it is computed when nothing raises.
apply_cgt_carryover_lem :
    (per_cent : ℕ) (ds : List CgtDisposal) (prior exempt : ℕ)
    → apply_cgt_carryover per_cent ds (pos prior) (pos exempt)
      ≡ ok (apply_loss (year_summary per_cent ds exempt) prior)
unfolding apply_cgt_carryover summarize_cgt
apply_cgt_carryover_lem per_cent ds prior exempt =
    rw (apply_cgt_carryover, summarize_cgt, not_negative exempt, not_negative prior) refl

-- A year has a gain or a loss, and the exemption splits its gain.
year_lem :
    (per_cent count : ℕ) (t : CgtTotals) (net : ℤ) (exempt : ℕ)
    → let s = summary_of per_cent count t net exempt in
      (s.annual_exempt_amount_used + s.taxable_gain ≡ s.net_gain)
      × ((s.net_gain ≡ 0) ⊎ (s.net_loss ≡ 0))
      × ((s.taxable_gain ≡ 0) ⊎ (s.annual_exempt_amount_used ≡ exempt))
      × (s.taxable_gain ≤ s.net_gain)
unfolding summary_of ◌-ℤ◌
year_lem per_cent count t net exempt = (ground arith, ground arith, ground arith, ground arith)

-- With an exemption and a prior loss that are not negative the year is computed. Its gain is
-- exempt, set off against the prior loss or taxable, to the penny; the prior loss is used or
-- carried on, together with the year's own. The prior loss is used only on what is above the
-- exemption, and a gain is left to tax only when no prior loss is.
pub apply_cgt_carryover-accounted :
    (per_cent : ℕ) (ds : List CgtDisposal) (prior exempt : ℕ)
    → (a : CgtApplication) × (apply_cgt_carryover per_cent ds (pos prior) (pos exempt) ≡ ok a)
      × (a.summary.annual_exempt_amount_used + a.carryover_loss_used
            + a.taxable_gain_after_carryover
          ≡ a.summary.net_gain)
      × (a.carryover_loss_used + a.next_year_loss ≡ prior + a.summary.net_loss)
      × ((a.carryover_loss_used ≡ 0) ⊎ (a.summary.annual_exempt_amount_used ≡ exempt))
      × ((a.taxable_gain_after_carryover ≡ 0) ⊎ (a.next_year_loss ≡ 0))
unfolding apply_loss
apply_cgt_carryover-accounted per_cent ds prior exempt =
    let t = totals_of per_cent ds in
    let (splits, sided, exhausted, within) =
      year_lem per_cent (length ds) t (t.gross_gain -ℤ t.gross_loss) exempt in
    (
      apply_loss (year_summary per_cent ds exempt) prior,
      apply_cgt_carryover_lem per_cent ds prior exempt,
      omega (arith, splits),
      omega arith,
      ground (arith, exhausted),
      ground (arith, sided, within),
    )
