-- ===== src/Tax/CapitalLoss/Ledger.antt =====
-- No loss is lost or used twice by the carryover.
use Prim.Native.Nat.{min}
use nexus_trade_engine.Prelude.{ℕ, ◌+◌, ◌≤◌, ◌≡◌, ok, arith}
use nexus_trade_engine.Prelude.Int.{ℤ, pos, pos_part, neg_part, ◌+ℤ◌, ◌-ℤ◌, ◌≤ℤ◌, +ℤ_parts}
use nexus_trade_engine.Tax.CapitalLoss.{
  CapitalLossCarryover, CapitalLossApplication, split_remaining, deduct, apply_carryover,
}

-- The loss of the nets of the two legs together.
abbrev pub loss_of : ℤ → ℤ → ℕ
loss_of short_net long_net = neg_part (short_net +ℤ long_net)

-- What the application deducts and carries on.
abbrev accounted : CapitalLossApplication → ℤ
accounted a = pos (
    a.current_year_deduction
    + pos_part a.next_year_carryover.short_term
    + pos_part a.next_year_carryover.long_term)

split_remaining-sum :
    (s l : ℤ) (d : ℕ)
    → d ≤ loss_of s l
    → let c = split_remaining s l (loss_of s l) d in
      (pos_part c.short_term + pos_part c.long_term + d ≡ loss_of s l)
      × (pos 0 ≤ℤ c.short_term)
      × (pos 0 ≤ℤ c.long_term)
unfolding split_remaining
split_remaining-sum s l d h = ground (arith, +ℤ_parts s l)

deduct-accounted :
    (s l : ℤ) (cap : ℕ)
    → let a = deduct s l cap in
      (accounted a ≡ pos (loss_of s l))
      × (a.current_year_deduction ≤ cap)
      × (pos 0 ≤ℤ a.next_year_carryover.short_term)
      × (pos 0 ≤ℤ a.next_year_carryover.long_term)
unfolding deduct
deduct-accounted s l cap =
    ground (arith, split_remaining-sum s l (min (loss_of s l) cap) (omega arith))

-- Where the carryover succeeds: the loss of the year, with the losses carried in, is exactly the
-- deduction and what is carried on in the two legs together, the deduction is at most the cap, and
-- neither leg that is carried on is negative.
pub apply_carryover-accounted :
    (short_gain long_gain : ℤ) (prior : CapitalLossCarryover) (cap : ℤ) (a : CapitalLossApplication)
    → apply_carryover short_gain long_gain prior cap ≡ ok a
    → (accounted a ≡ pos (loss_of (short_gain -ℤ prior.short_term) (long_gain -ℤ prior.long_term)))
      × (pos a.current_year_deduction ≤ℤ cap)
      × (pos 0 ≤ℤ a.next_year_carryover.short_term)
      × (pos 0 ≤ℤ a.next_year_carryover.long_term)
unfolding apply_carryover
apply_carryover-accounted short_gain long_gain prior cap a h =
    let s = short_gain -ℤ prior.short_term in
    let l = long_gain -ℤ prior.long_term in ground (arith, deduct-accounted s l (pos_part cap))
