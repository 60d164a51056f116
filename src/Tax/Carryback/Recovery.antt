-- ===== src/Tax/Carryback/Recovery.antt =====
-- The carryback recovers each part of the loss once, from at most three years.
use Prim.Native.Nat.{min}
use nexus_trade_engine.Prelude.{
  ℕ, zero, suc, ◌+◌, ◌-◌, ◌≤◌, ◌<◌, ◌≡◌, refl, ok, ltb, leb, nat_beq, List, [], ◌∷◌, length, All,
  arith, Bool-cases, ◌⊎◌, inl, inr,
}
use nexus_trade_engine.Prelude.Int.{ℤ, pos, pos_part}
use nexus_trade_engine.Tax.Carryback.{
  PriorYearNetGain, CarrybackAbsorption, Section1256Carryback, drop, eligible, absorb,
  apply_section_1256_carryback,
}
use nexus_trade_engine.Tax.WashSale.{sorted}

-- The sum of the absorptions.
abbrev pub recovered : List CarrybackAbsorption → ℕ
recovered [] = 0
recovered (a ∷ rest) = a.amount + recovered rest

absorb-recovered :
    (loss : ℕ) (ps : List PriorYearNetGain)
    → let (found, left) = absorb loss ps in
      (recovered found + left ≡ loss) × (length found ≤ length ps)
unfolding absorb
absorb-recovered loss [] = (omega arith, omega arith)
absorb-recovered loss (p ∷ ps) = ground (arith, absorb-recovered (loss - min loss p.net_gain) ps)

absorb-positive :
    (loss : ℕ) (ps : List PriorYearNetGain)
    → All (λ (a : CarrybackAbsorption). 0 < a.amount) (absorb loss ps).0
unfolding absorb
absorb-positive loss [] = tt
absorb-positive loss (p ∷ ps) =
    let rest = absorb-positive (loss - min loss p.net_gain) ps in
    elim (Bool-cases (nat_beq loss 0)) [
      | inl done ↦ rw done tt
      | inr more ↦ elim (Bool-cases (ltb 0 (min loss p.net_gain))) [
        | inl some_taken ↦ rw (more, some_taken) (ground arith, rest)
        | inr none_taken ↦ rw (more, none_taken) rest
      ]
    ]

length-drop : (n : ℕ) (ps : List PriorYearNetGain) → length (drop n ps) ≡ length ps - n
length-drop zero ps = omega arith
length-drop (suc n) [] = omega arith
length-drop (suc n) (p ∷ ps) = omega (arith, length-drop n ps)

length-eligible : (ps : List PriorYearNetGain) → length (eligible ps) ≤ 3
unfolding eligible
length-eligible ps =
    let years = sorted (λ (a b : PriorYearNetGain). leb a.year b.year) ps in
    omega (arith, length-drop (length years - 3) years)

carryback-ok :
    (net_loss : ℤ) (ps : List PriorYearNetGain) (r : Section1256Carryback)
    → apply_section_1256_carryback net_loss ps ≡ ok r
    → let (found, left) = absorb (pos_part net_loss) (eligible ps) in
      (net_loss ≡ pos (pos_part net_loss))
      × ((net_loss ≡ pos 0) × (r ≡ record { loss_absorbed = 0; per_year = []; forward_carry = 0 })
          ⊎ (r ≡ record {
            loss_absorbed = pos_part net_loss - left;
            per_year = found;
            forward_carry = left;
          }))
unfolding apply_section_1256_carryback
carryback-ok net_loss ps r h = ground arith

-- Where the carryback succeeds: what is absorbed and what is carried forward make up the loss, the
-- absorptions by year add up to what is absorbed, each is positive, and there are at most three.
pub apply_section_1256_carryback-recovered :
    (net_loss : ℤ) (prior_years : List PriorYearNetGain) (r : Section1256Carryback)
    → apply_section_1256_carryback net_loss prior_years ≡ ok r
    → (pos (r.loss_absorbed + r.forward_carry) ≡ net_loss)
      × (recovered r.per_year ≡ r.loss_absorbed)
      × (length r.per_year ≤ 3)
      × All (λ (a : CarrybackAbsorption). 0 < a.amount) r.per_year
apply_section_1256_carryback-recovered net_loss prior_years r h =
    let years = eligible prior_years in
    let (sum, few) = absorb-recovered (pos_part net_loss) years in
    let positive = absorb-positive (pos_part net_loss) years in
    let bound = length-eligible prior_years in
    let (nonneg, result) = carryback-ok net_loss prior_years r h in
    elim result [
      | inl (no_loss, empty) ↦ rw empty (rw no_loss refl, refl, omega arith, tt)
      | inr full ↦ rw full (rw (nonneg) (ground arith), omega arith, omega arith, positive)
    ]
