-- ===== src/Tax/Kest.antt =====
-- engine/core/tax/reports/kest.py and kest_carryover.py: the German tax on capital income and the
-- losses that it carries forward. A `Decimal` amount that need not be whole cents is a number of
-- units, `per_cent` of them a cent; a quantized amount is a number of cents. A rate is a number of
-- millionths. A date is its ordinal
-- (`date.toordinal`).
pub mod Rounding
pub mod Carryover
use Prim.Native.Nat.{min}
use nexus_trade_engine.Prelude.{
  ℕ, suc, ◌+◌, ◌-◌, ◌*◌, ◌/◌, ◌%◌, Option, none, some, Bool, true, false, List, [], ◌∷◌, ◌++◌,
  Outcome, ok, err, ◌>>=◌, ◌>>◌, raise_if, ltb, nat_beq, if◌then◌else◌, length, ◌||◌, String,
}
use nexus_trade_engine.Prelude.Int.{
  ℤ, pos, negsuc, pos_part, neg_part, sub_ℕ, ◌+ℤ◌, ◌-ℤ◌, ltb_ℤ, beq_ℤ,
}

abbrev million : ℕ
million = 1_000_000

abbrev kest_rate : ℕ
kest_rate = 250_000

abbrev solz_rate : ℕ
solz_rate = 55_000

abbrev church_tax_rate_bayern_bw : ℕ
church_tax_rate_bayern_bw = 80_000

abbrev church_tax_rate_other : ℕ
church_tax_rate_other = 90_000

-- `Decimal.quantize` rounds half to even: the nearest whole quotient.
unfoldable pub round_half_even : ℕ → ℕ → ℕ
round_half_even n d =
    let q = n / d in
    let r = n % d in
    if ltb (2 * r) d
    then q
    else if ltb d (2 * r)
    then suc q
    else if nat_beq (q % 2) 0
    then q
    else suc q

-- The rounding of a signed amount, which goes by its magnitude.
unfoldable pub quantize : ℕ → ℤ → ℤ
unfolding round_half_even
quantize per_cent (pos n) = pos (round_half_even n per_cent)
quantize per_cent (negsuc n) = sub_ℕ 0 (round_half_even (suc n) per_cent)

pub data AssetClass : Type 0 where
  equity other : AssetClass

pub data KestError : Type 0 where
  dates_reversed negative_proceeds negative_cost : KestError
  negative_allowance negative_church_rate negative_carryover : KestError

-- `KestDisposal`; its constructor refuses negative amounts, so they are naturals.
pub record KestDisposal : Type 0 where
  pub description : String
  pub acquired : ℕ
  pub disposed : ℕ
  pub proceeds : ℕ
  pub cost : ℕ
  pub asset_class : AssetClass

-- `KestDisposal.__post_init__`
unfoldable new_disposal : String → ℕ → ℕ → ℤ → ℤ → AssetClass → Outcome KestError KestDisposal
new_disposal description acquired disposed proceeds cost asset_class = do
  raise_if (ltb disposed acquired) dates_reversed
  raise_if (ltb_ℤ proceeds (pos 0)) negative_proceeds
  raise_if (ltb_ℤ cost (pos 0)) negative_cost
  ok (record {
    description = description;
    acquired = acquired;
    disposed = disposed;
    proceeds = pos_part proceeds;
    cost = pos_part cost;
    asset_class = asset_class;
  })

pub record KestSummary : Type 0 where
  pub disposal_count : ℕ
  pub proceeds_total : ℕ
  pub cost_total : ℕ
  pub equity_net : ℤ
  pub other_net : ℤ
  pub taxable_income : ℕ
  pub allowance_used : ℕ
  pub kest : ℕ
  pub solidarity_surcharge : ℕ
  pub church_tax : ℕ
  pub total_tax : ℕ

abbrev is_equity : AssetClass → Bool
is_equity equity = true
is_equity other = false

-- `amount * rate`, quantized.
tax_of : ℕ → ℕ → ℕ
tax_of cents rate = round_half_even (cents * rate) million

abbrev church_tax_of : ℕ → Option ℤ → ℕ
church_tax_of kest none = 0
church_tax_of kest (some rate) = tax_of kest (pos_part rate)

abbrev negative_rate : Option ℤ → Bool
negative_rate none = false
negative_rate (some rate) = ltb_ℤ rate (pos 0)

-- The base before the allowance: a loss on equity does not count, one on the rest does.
pub tax_base : ℤ → ℤ → ℕ
tax_base equity_net other_net = pos_part (pos (pos_part equity_net) +ℤ other_net)

module _ (per_cent : ℕ) where
  unfoldable pub gain_loss : KestDisposal → ℤ
  gain_loss d = quantize per_cent (sub_ℕ d.proceeds d.cost)

  -- The sums of the loop over the disposals.
  unfoldable pub bucket : Bool → List KestDisposal → ℤ
  bucket of_equity [] = pos 0
  bucket of_equity (d ∷ disposals) =
      let rest = bucket of_equity disposals in
      if (if is_equity d.asset_class then of_equity else (if of_equity then false else true))
      then gain_loss d +ℤ rest
      else rest

  abbrev pub proceeds_of : List KestDisposal → ℕ
  proceeds_of [] = 0
  proceeds_of (d ∷ disposals) = d.proceeds + proceeds_of disposals

  abbrev pub costs_of : List KestDisposal → ℕ
  costs_of [] = 0
  costs_of (d ∷ disposals) = d.cost + costs_of disposals

  -- `min(base, allowance).quantize(...)`
  pub allowance_for : ℕ → ℕ → ℕ
  allowance_for base allowance = round_half_even (min (base * per_cent) allowance) per_cent

  -- The summary from the sums on.
  unfoldable pub assess : ℕ → ℕ → ℕ → ℤ → ℤ → ℕ → Option ℤ → KestSummary
  unfolding tax_base allowance_for tax_of
  assess count proceeds costs equity_net other_net allowance church_tax_rate =
      let base = tax_base equity_net other_net in
      let used = allowance_for base allowance in
      let income = base - used in
      let kest = tax_of income kest_rate in
      let solz = tax_of kest solz_rate in
      let church = church_tax_of kest church_tax_rate in
      record {
        disposal_count = count;
        proceeds_total = round_half_even proceeds per_cent;
        cost_total = round_half_even costs per_cent;
        equity_net = equity_net;
        other_net = other_net;
        taxable_income = income;
        allowance_used = used;
        kest = kest;
        solidarity_surcharge = solz;
        church_tax = church;
        total_tax = kest + solz + church;
      }

  unfoldable pub summarize_kest : List KestDisposal → ℤ → Option ℤ → Outcome KestError KestSummary
  summarize_kest disposals allowance church_tax_rate = do
    raise_if (ltb_ℤ allowance (pos 0)) negative_allowance
    raise_if (negative_rate church_tax_rate) negative_church_rate
    ok (
        assess (length disposals) (proceeds_of disposals) (costs_of disposals)
          (bucket true disposals) (bucket false disposals) (pos_part allowance) church_tax_rate)

  -- `KestCarryover`; both legs are amounts of loss in cents.
  pub record KestCarryover : Type 0 where
    pub equity_loss : ℤ
    pub other_loss : ℤ

  pub record KestApplication : Type 0 where
    pub summary : KestSummary
    pub next_year_carryover : KestCarryover

  -- The text of a synthetic disposal.
  abbrev description_of : AssetClass → String
  description_of equity = "(carry-adjusted equity bucket)"
  description_of other = "(carry-adjusted other bucket)"

  -- The synthetic disposal of one bucket: its net as proceeds, or as cost.
  abbrev pub synthetic : ℤ → AssetClass → List KestDisposal
  synthetic net asset_class =
      if beq_ℤ net (pos 0)
      then []
      else (record {
        description = description_of asset_class;
        acquired = 738_886;
        disposed = 739_251;
        proceeds = pos_part net * per_cent;
        cost = neg_part net * per_cent;
        asset_class = asset_class;
      }
          ∷ [])

  unfoldable pub synthesize : ℤ → ℤ → List KestDisposal
  synthesize equity_net other_net = synthetic equity_net equity ++ synthetic other_net other

  -- `_with_disposal_count`
  abbrev pub with_disposal_count : KestSummary → ℕ → KestSummary
  with_disposal_count summary count = record summary { disposal_count = count }

  -- What is left of a bucket that ends the year at a loss.
  abbrev pub carried : ℤ → ℤ
  carried net = pos (neg_part net)

  unfoldable pub apply_kest_carryover :
      List KestDisposal → KestCarryover → ℤ → Option ℤ → Outcome KestError KestApplication
  apply_kest_carryover disposals prior allowance church_tax_rate =
      let eq_after = bucket true disposals -ℤ prior.equity_loss in
      let other_after = bucket false disposals -ℤ prior.other_loss in
      do
        raise_if (ltb_ℤ prior.equity_loss (pos 0) || ltb_ℤ prior.other_loss (pos 0))
            negative_carryover
        summary ← summarize_kest (synthesize eq_after other_after) allowance church_tax_rate
        ok (record {
          summary = with_disposal_count summary (length disposals);
          next_year_carryover = record {
            equity_loss = carried eq_after;
            other_loss = carried other_after;
          };
        })
