-- ===== src/Examples/Averages.antt =====
-- The average fill price with a division that rounds down.
use native.Mathlib.Nat.{le-div_iff_mul-le, div-lt_iff_lt-mul}
use nexus_trade_engine.Prelude.{ℕ, suc, ◌<◌, refl, arith}
use nexus_trade_engine.Prelude.Int.{ℤ, pos, negsuc, ◌≤ℤ◌, ◌*ℤ◌}
use nexus_trade_engine.Prelude.Int.Products.{*ℤ_parts}
use nexus_trade_engine.Oms.Order.Average.{Rounds, IsPriced, unfilled, AllBetween, History-IsPriced}
use nexus_trade_engine.Examples.Orders.{floor_div, all_filled, life}

below-floor_div : (lo n : ℤ) (d : ℕ) → 0 < d → lo *ℤ pos d ≤ℤ n → lo ≤ℤ floor_div n (pos d)
below-floor_div (pos l) (pos a) d some h = omega (
  arith,
  (le-div_iff_mul-le {k = d} {x = l} {y = a} some).1 (omega (arith, *ℤ_parts (pos l) (pos d))),
)
below-floor_div (negsuc l) (pos a) d some h = omega arith
below-floor_div (pos l) (negsuc a) d some h = absurd (omega (arith, *ℤ_parts (pos l) (pos d)))
below-floor_div (negsuc l) (negsuc a) d some h = omega (
  arith,
  (div-lt_iff_lt-mul {k = d} {x = a} {y = suc l} some).1
      (omega (arith, *ℤ_parts (negsuc l) (pos d))),
)

above-floor_div : (hi n : ℤ) (d : ℕ) → 0 < d → n ≤ℤ hi *ℤ pos d → floor_div n (pos d) ≤ℤ hi
above-floor_div (pos k) (pos a) d some h = omega (
  arith,
  (div-lt_iff_lt-mul {k = d} {x = a} {y = suc k} some).1 (grind (arith, *ℤ_parts (pos k) (pos d))),
)
above-floor_div (negsuc k) (pos a) d some h = absurd (grind (arith, *ℤ_parts (negsuc k) (pos d)))
above-floor_div (pos k) (negsuc a) d some h = omega arith
above-floor_div (negsuc k) (negsuc a) d some h = omega (
  arith,
  (le-div_iff_mul-le {k = d} {x = k} {y = a} some).1 (grind (arith, *ℤ_parts (negsuc k) (pos d))),
)

floor_div-Rounds : Rounds floor_div
floor_div-Rounds lo hi n d some below above =
    (below-floor_div lo n d some below, above-floor_div hi n d some above)

life-AllBetween : AllBetween floor_div floor_div-Rounds (pos 90) (pos 130) life
unfolding AllBetween
life-AllBetween =
    (((tt, tt), (omega arith, omega arith, omega arith)), (omega arith, omega arith, omega arith))

History-IsPriced_example : IsPriced (pos 90) (pos 130) all_filled
History-IsPriced_example =
    History-IsPriced floor_div floor_div-Rounds (pos 90) (pos 130) life (unfilled refl)
      life-AllBetween
