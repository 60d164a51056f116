-- ===== src/Tax/Carryback.antt =====
-- engine/core/tax/reports/section_1256_carryback.py: a loss that is carried back over at most three
-- years. Amounts are whole cents, on which `quantize` changes nothing; a prior year's gain is not
-- negative, which its constructor checks.
pub mod Recovery
use Prim.Native.Nat.{min}
use nexus_trade_engine.Prelude.{
  ℕ, zero, suc, ◌+◌, ◌-◌, Outcome, ok, err, ◌>>=◌, ◌>>◌, raise_if, ltb, leb, nat_beq, if◌then◌else◌,
  List, [], ◌∷◌, length,
}
use nexus_trade_engine.Prelude.Int.{ℤ, pos, pos_part, ltb_ℤ}
use nexus_trade_engine.Tax.WashSale.{sorted}

abbrev carryback_years : ℕ
carryback_years = 3

pub data CarrybackError : Type 0 where
  negative_gain negative_loss : CarrybackError

pub record PriorYearNetGain : Type 0 where
  pub year : ℕ
  pub net_gain : ℕ

-- `PriorYearNetGain.__post_init__`
unfoldable new_prior_year : ℕ → ℤ → Outcome CarrybackError PriorYearNetGain
new_prior_year year net_gain = do
  raise_if (ltb_ℤ net_gain (pos 0)) negative_gain
  ok (record { year = year; net_gain = pos_part net_gain })

pub record CarrybackAbsorption : Type 0 where
  pub year : ℕ
  pub amount : ℕ

pub record Section1256Carryback : Type 0 where
  pub loss_absorbed : ℕ
  pub per_year : List CarrybackAbsorption
  pub forward_carry : ℕ

abbrev pub drop : ℕ → List PriorYearNetGain → List PriorYearNetGain
drop zero ps = ps
drop (suc n) [] = []
drop (suc n) (p ∷ ps) = drop n ps

-- `sorted_years[-CARRYBACK_YEARS:]`
unfoldable pub eligible : List PriorYearNetGain → List PriorYearNetGain
eligible prior_years =
    let sorted_years = sorted (λ (a b : PriorYearNetGain). leb a.year b.year) prior_years in
    drop (length sorted_years - carryback_years) sorted_years

-- The loop over the years: the absorptions, and what is left of the loss.
unfoldable pub absorb : ℕ → List PriorYearNetGain → List CarrybackAbsorption × ℕ
absorb remaining [] = ([], remaining)
absorb remaining (p ∷ ps) =
    let take = min remaining p.net_gain in
    let (rest, left) = absorb (remaining - take) ps in
    if nat_beq remaining 0
    then ([], remaining)
    else if ltb 0 take
    then (record { year = p.year; amount = take } ∷ rest, left)
    else (rest, left)

unfoldable pub apply_section_1256_carryback :
    ℤ → List PriorYearNetGain → Outcome CarrybackError Section1256Carryback
apply_section_1256_carryback net_loss prior_years =
    let loss = pos_part net_loss in
    let (absorptions, remaining) = absorb loss (eligible prior_years) in
    if ltb_ℤ net_loss (pos 0)
    then err negative_loss
    else if nat_beq loss 0
    then ok (record { loss_absorbed = 0; per_year = []; forward_carry = 0 })
    else ok (record {
      loss_absorbed = loss - remaining;
      per_year = absorptions;
      forward_carry = remaining;
    })
