-- ===== src/Tax/CapitalLoss.antt =====
-- engine/core/tax/reports/carryover.py: the American capital loss carryover. Amounts are whole
-- cents, on which `quantize` changes nothing. Of the `ScheduleDSummary` it reads the gains of the
-- two legs, which are arguments.
pub mod Ledger
use Prim.Native.Nat.{min}
use nexus_trade_engine.Prelude.{
  ℕ, ◌+◌, ◌-◌, ◌||◌, Outcome, ok, err, ◌>>=◌, ◌>>◌, raise_if, ltb, nat_beq, if◌then◌else◌,
}
use nexus_trade_engine.Prelude.Int.{ℤ, pos, pos_part, neg_part, ◌+ℤ◌, ◌-ℤ◌, ltb_ℤ, leb_ℤ}

abbrev deductible_cap_default : ℤ
deductible_cap_default = pos 300_000

abbrev deductible_cap_mfs : ℤ
deductible_cap_mfs = pos 150_000

pub data CarryoverError : Type 0 where
  cap_not_positive negative_leg : CarryoverError

pub record CapitalLossCarryover : Type 0 where
  pub short_term : ℤ
  pub long_term : ℤ

pub record CapitalLossApplication : Type 0 where
  pub current_year_deduction : ℕ
  pub next_year_carryover : CapitalLossCarryover

-- The loss that is left, split into the two legs.
unfoldable pub split_remaining : ℤ → ℤ → ℕ → ℕ → CapitalLossCarryover
split_remaining short_net long_net total_loss deduction =
    let short_loss = neg_part short_net in
    let long_loss = neg_part long_net in
    let remaining = total_loss - deduction in
    let next_short = short_loss - deduction in
    let absorbed_by_short = short_loss - next_short in
    let deduction_after_short = deduction - absorbed_by_short in
    if nat_beq (short_loss + long_loss) total_loss
    then record { short_term = pos next_short; long_term = pos (long_loss - deduction_after_short) }
    else record {
      short_term = if ltb_ℤ short_net (pos 0) then pos remaining else pos 0;
      long_term = if ltb_ℤ long_net (pos 0) then pos remaining else pos 0;
    }

-- What follows the checks, on the nets of the two legs.
unfoldable pub deduct : ℤ → ℤ → ℕ → CapitalLossApplication
unfolding split_remaining
deduct short_net long_net cap =
    let combined = short_net +ℤ long_net in
    let total_loss = neg_part combined in
    let deduction = min total_loss cap in
    if leb_ℤ (pos 0) combined
    then record {
      current_year_deduction = 0;
      next_year_carryover = record { short_term = pos 0; long_term = pos 0 };
    }
    else record {
      current_year_deduction = deduction;
      next_year_carryover = split_remaining short_net long_net total_loss deduction;
    }

unfoldable pub apply_carryover :
    ℤ → ℤ → CapitalLossCarryover → ℤ → Outcome CarryoverError CapitalLossApplication
unfolding deduct
apply_carryover short_gain long_gain prior deductible_cap = do
  raise_if (leb_ℤ deductible_cap (pos 0)) cap_not_positive
  raise_if (ltb_ℤ prior.short_term (pos 0) || ltb_ℤ prior.long_term (pos 0)) negative_leg
  ok (
      deduct (short_gain -ℤ prior.short_term) (long_gain -ℤ prior.long_term)
        (pos_part deductible_cap))
