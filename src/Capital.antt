-- ===== src/Capital.antt =====
-- engine/core/capital_allocation.py: capital split by largest remainders. A finite number becomes a
-- `Decimal`, a whole number of units of which `per_dollar` make a dollar. The raw share of a
-- strategy is a `Decimal` of which `per_cent` units make a cent; `divide total_cents w weight_sum` is
-- `Decimal(total_cents) * w / weight_sum` in those units, as the context rounds it. Amounts are in cents.
pub mod Sum
use Prim.Native.Nat.{Ordering}
use Prim.Native.String.{compare as compare_text}
use nexus_trade_engine.Prelude.{
  ℕ, suc, ◌+◌, ◌-◌, ◌*◌, ◌/◌, ◌%◌, String, Option, none, some, Bool, true, false, ◌&&◌, ◌||◌, List,
  [], ◌∷◌, map, Outcome, ok, err, ◌>>=◌, ◌>>◌, raise_if, ltb, nat_beq, nat_eq, string_eq, ◌==◌,
  Dict, length, take, if◌then◌else◌,
}
use nexus_trade_engine.Prelude.Int.{ℤ, pos, pos_part, ltb_ℤ}

-- What a caller may pass for a number.
pub data Number : Type 0 where
  boolean other_type not_finite : Number
  real : ℤ → Number

pub data CapitalAllocationError : Type 0 where
  bool_value not_a_number infinite negative_capital : CapitalAllocationError
  no_weights no_strategies zero_weights remainder_out_of_range : CapitalAllocationError
  negative_weight : String → CapitalAllocationError

-- `_to_decimal`
to_decimal : Number → Outcome CapitalAllocationError ℤ
to_decimal boolean = err bool_value
to_decimal other_type = err not_a_number
to_decimal not_finite = err infinite
to_decimal (real value) = ok value

-- The loop over the weights.
unfoldable pub read_weights : Dict String Number → Outcome CapitalAllocationError (Dict String ℕ)
unfolding to_decimal
read_weights [] = ok []
read_weights ((sid, w) ∷ weights) =
    let rest = read_weights weights in
    do
      w_dec ← to_decimal w
      raise_if (ltb_ℤ w_dec (pos 0)) (negative_weight sid)
      read ← rest
      ok ((sid, pos_part w_dec) ∷ read)

-- `sum(d.values())`
abbrev pub total : Dict String ℕ → ℕ
total [] = 0
total ((sid, n) ∷ d) = n + total d

-- A strategy with its whole cents and its fraction.
pub record Share : Type 0 where
  pub sid : String
  pub floor_cents : ℕ
  pub frac : ℕ

-- `cents[sid] += 1`
unfoldable pub bump : String → Dict String ℕ → Dict String ℕ
bump sid [] = []
bump sid ((j, n) ∷ d) = if j == sid then (j, suc n) ∷ d else (j, n) ∷ bump sid d

unfoldable pub bump_all : List String → Dict String ℕ → Dict String ℕ
bump_all [] cents = cents
bump_all (sid ∷ sids) cents = bump_all sids (bump sid cents)

-- The key `(-fracs[sid], sid)` of `a` is at most that of `b`.
abbrev text_le : String → String → Bool
text_le s t = elim (compare_text s t) [ Ordering.gt ↦ false | _ ↦ true ]

unfoldable pub ranks_before : Share → Share → Bool
ranks_before a b = ltb b.frac a.frac || (nat_beq a.frac b.frac && text_le a.sid b.sid)

unfoldable pub insert_share : Share → List Share → List Share
unfolding ranks_before
insert_share a [] = a ∷ []
insert_share a (b ∷ bs) = if ranks_before a b then a ∷ b ∷ bs else b ∷ insert_share a bs

-- `sorted`, which is stable: the first of equal items is inserted last.
unfoldable pub sort_shares : List Share → List Share
unfolding insert_share
sort_shares [] = []
sort_shares (a ∷ parts) = insert_share a (sort_shares parts)

abbrev pub floors : List Share → Dict String ℕ
floors [] = []
floors (a ∷ parts) = (a.sid, a.floor_cents) ∷ floors parts

abbrev pub ids : List Share → List String
ids [] = []
ids (a ∷ parts) = a.sid ∷ ids parts

-- From the floors to the cents, with the check of the remainder.
unfoldable pub distribute : ℕ → List Share → Outcome CapitalAllocationError (Dict String ℕ)
distribute total_cents parts =
    let assigned = total (floors parts) in
    let remainder = total_cents - assigned in
    do
      raise_if (ltb total_cents assigned || ltb (length parts) remainder) remainder_out_of_range
      ok (bump_all (take remainder (ids (sort_shares parts))) (floors parts))

module _ (per_dollar per_cent : ℕ) (divide : ℕ → ℕ → ℕ → ℕ) where
  -- The share of one strategy: `raw_cents`, rounded down and its fraction.
  unfoldable pub share : ℕ → ℕ → String → ℕ → Share
  share total_cents weight_sum sid w =
      let raw_cents = divide total_cents w weight_sum in
      record { sid = sid; floor_cents = raw_cents / per_cent; frac = raw_cents % per_cent }

  unfoldable pub shares : ℕ → ℕ → Dict String ℕ → List Share
  unfolding share
  shares total_cents weight_sum [] = []
  shares total_cents weight_sum ((sid, w) ∷ weights) =
      share total_cents weight_sum sid w ∷ shares total_cents weight_sum weights

  -- `int((capital_dec * 100).quantize(_WHOLE, rounding=ROUND_DOWN))`
  abbrev pub whole_cents : ℕ → ℕ
  whole_cents capital = capital * 100 / per_dollar

  -- The part of `allocate_capital` behind the check of empty weights.
  unfoldable pub apportion : ℕ → Dict String Number → Outcome CapitalAllocationError (Dict String ℕ)
  unfolding read_weights shares
  apportion capital strategy_weights = do
    weights ← read_weights strategy_weights
    raise_if (nat_beq (total weights) 0) zero_weights
    distribute (whole_cents capital) (shares (whole_cents capital) (total weights) weights)

  unfoldable pub choose :
      ℕ → Option (Dict String Number) → Outcome CapitalAllocationError (Dict String ℕ)
  unfolding apportion
  choose capital none = err no_weights
  choose capital (some []) = if ltb 0 capital then err no_strategies else ok []
  choose capital (some (w ∷ ws)) = apportion capital (w ∷ ws)

  unfoldable pub allocate_capital :
      Number → Option (Dict String Number) → Outcome CapitalAllocationError (Dict String ℕ)
  unfolding choose to_decimal
  allocate_capital total_capital strategy_weights = do
    capital ← to_decimal total_capital
    raise_if (ltb_ℤ capital (pos 0)) negative_capital
    choose (pos_part capital) strategy_weights

-- `allocation_total`
pub allocation_total : Dict String ℕ → ℕ
allocation_total allocation = total allocation
