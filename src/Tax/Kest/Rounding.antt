-- ===== src/Tax/Kest/Rounding.antt =====
-- Rounding half to even: exact on whole cents, and never past a whole bound.
use nexus_trade_engine.Prelude.{
  ℕ, suc, ◌-◌, ◌*◌, ◌/◌, ◌%◌, ◌≤◌, ◌<◌, ◌≡◌, refl, arith, ◌⊎◌, inl, inr, Bool-cases, ltb,
}
use native.Mathlib.Nat.{mul-div_cancel, mul-mod_left}
use nexus_trade_engine.Prelude.Int.{ℤ, pos, negsuc, pos_part, neg_part, sub_ℕ}
use nexus_trade_engine.Tax.Kest.{round_half_even, quantize}

-- The result is the quotient, or one more where at least half a unit is left over.
round-cases :
    (n d q r : ℕ)
    → n / d ≡ q
    → n % d ≡ r
    → 0 < d
    → (round_half_even n d ≤ suc q) × (r ≡ 0 → round_half_even n d ≡ q)
unfolding round_half_even
round-cases n d q r e e' h = (ground arith, λ z. ground arith)

quotient-lt : (n b d : ℕ) → 0 < d → n < b * d → n / d < b
quotient-lt n b d some h = grind arith

-- Whole units stay what they are.
round-whole : (b d : ℕ) → 0 < d → round_half_even (b * d) d ≡ b
round-whole b d some =
    (round-cases (b * d) d b 0 (mul-div_cancel b some) (mul-mod_left b d) some).1 refl

le-cases : (a b : ℕ) → a ≤ b → (a < b) ⊎ (a ≡ b)
le-cases a b h = elim (Bool-cases (ltb a b)) [
  | inl less ↦ inl (ground arith)
  | inr not_less ↦ inr (ground arith)
]

-- An amount of at most `b` whole units is not rounded above `b`.
pub round-le : (n b d : ℕ) → 0 < d → n ≤ b * d → round_half_even n d ≤ b
round-le n b d some h = elim (le-cases n (b * d) h) [
  | inl less ↦
      omega (arith, (round-cases n d (n / d) (n % d) refl refl some).0, quotient-lt n b d some less)
  | inr whole ↦ rw whole (omega (arith, round-whole b d some))
]

quantize-gain : (d a z : ℕ) → z ≡ 0 → quantize d (sub_ℕ a z) ≡ pos (round_half_even a d)
unfolding quantize
quantize-gain d a z e = let same : sub_ℕ a z ≡ pos a = ground arith in rw same

quantize-loss :
    (d z m : ℕ) → z ≡ 0 → quantize d (sub_ℕ z (suc m)) ≡ sub_ℕ 0 (round_half_even (suc m) d)
unfolding quantize
quantize-loss d z m e = let same : sub_ℕ z (suc m) ≡ negsuc m = ground arith in rw same

-- An amount of whole cents, gain or loss, is kept by the rounding.
pub quantize-whole :
    (d : ℕ) (net : ℤ) → 0 < d → quantize d (sub_ℕ (pos_part net * d) (neg_part net * d)) ≡ net
quantize-whole d (pos n) some =
    rw (quantize-gain d (n * d) (0 * d) (omega arith)) (rw (round-whole n d some))
quantize-whole d (negsuc n) some =
    let e : suc n * d ≡ suc (suc n * d - 1) = grind arith in
    rw e (
      rw (quantize-loss d (0 * d) (suc n * d - 1) (omega arith))
        (rw (← e) (rw (round-whole (suc n) d some) (ground arith))))
