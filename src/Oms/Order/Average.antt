-- ===== src/Oms/Order/Average.antt =====
-- The average fill price of `_next_avg`: it stays between the prices of the fills.
use nexus_trade_engine.Prelude.{ℕ, zero, suc, ◌+◌, ◌≡◌, refl, subst, ◌<◌, some, arith}
use nexus_trade_engine.Prelude.Int.{ℤ, pos, negsuc, ◌≤ℤ◌, ◌<ℤ◌, ◌+ℤ◌, ◌*ℤ◌, int_laws, int_eq}
use nexus_trade_engine.Prelude.Int.Products.{*ℤ_mono, *ℤ_distrib, *ℤ_zero}
use nexus_trade_engine.Oms.Events.{OrderEvent, submit_event, partial_fill_event, fill_event}
use nexus_trade_engine.Oms.Order.{Order, next_avg, prior_average}
use nexus_trade_engine.Oms.Order.Steps.{after, apply_event-ok}
use nexus_trade_engine.Oms.Order.History.{History, here, next}

-- What the rounding of a `Decimal` division guarantees: a quotient between two representable
-- bounds is not rounded past them.
abbrev pub Rounds : (ℤ → ℤ → ℤ) → Type 0
Rounds divide =
    (lo hi n : ℤ) (d : ℕ)
    → 0 < d
    → lo *ℤ pos d ≤ℤ n
    → n ≤ℤ hi *ℤ pos d
    → (lo ≤ℤ divide n (pos d)) × (divide n (pos d) ≤ℤ hi)

-- An event that fills, fills a positive quantity at a price from `lo` to `hi`.
abbrev FillsBetween : ℤ → ℤ → OrderEvent → Type 0
FillsBetween lo hi (partial_fill_event _ q p _) = (pos 0 <ℤ q) × (lo ≤ℤ p) × (p ≤ℤ hi)
FillsBetween lo hi (fill_event _ q p _) = (pos 0 <ℤ q) × (lo ≤ℤ p) × (p ≤ℤ hi)
FillsBetween lo hi _ = Unit

-- Nothing filled yet, or a positive quantity at an average from `lo` to `hi`.
pub data IsPriced (lo hi : ℤ) (o : Order) : Type 0 where
  unfilled : o.filled_quantity ≡ pos 0 → IsPriced lo hi o
  priced :
      (n : ℕ) (p : ℤ)
      → o.filled_quantity ≡ pos (suc n)
      → o.average_fill_price ≡ some p
      → lo ≤ℤ p
      → p ≤ℤ hi
      → IsPriced lo hi o

weighted :
    (lo hi a p : ℤ) (m n : ℕ)
    → lo ≤ℤ a
    → a ≤ℤ hi
    → lo ≤ℤ p
    → p ≤ℤ hi
    → (lo *ℤ pos (m + n) ≤ℤ a *ℤ pos m +ℤ p *ℤ pos n)
      × (a *ℤ pos m +ℤ p *ℤ pos n ≤ℤ hi *ℤ pos (m + n))
weighted lo hi a p m n la ah lp ph =
    rw (← *ℤ_distrib lo m n, ← *ℤ_distrib hi m n)
      (omega (int_laws, *ℤ_mono lo a m la, *ℤ_mono a hi m ah, *ℤ_mono lo p n lp, *ℤ_mono p hi n ph))

module _ (divide : ℤ → ℤ → ℤ) (rounds : Rounds divide) (lo hi : ℤ) where
  next_avg_lem :
      (o : Order) (q p : ℤ) (m : ℕ)
      → o.filled_quantity +ℤ q ≡ pos (suc m)
      → next_avg divide o q p
        ≡ divide (prior_average o *ℤ o.filled_quantity +ℤ p *ℤ q) (pos (suc m))
  unfolding next_avg
  next_avg_lem o q p m h = rw h (ground arith)

  quotient_between :
      (a p : ℤ) (k n : ℕ)
      → lo ≤ℤ a
      → a ≤ℤ hi
      → lo ≤ℤ p
      → p ≤ℤ hi
      → (lo ≤ℤ divide (a *ℤ pos k +ℤ p *ℤ pos (suc n)) (pos (suc (k + n))))
        × (divide (a *ℤ pos k +ℤ p *ℤ pos (suc n)) (pos (suc (k + n))) ≤ℤ hi)
  quotient_between a p k n la ah lp ph =
      let e : k + suc n ≡ suc (k + n) = omega arith in
      let (below, above) = weighted lo hi a p k (suc n) la ah lp ph in
      rounds lo hi (a *ℤ pos k +ℤ p *ℤ pos (suc n)) (suc (k + n)) (omega arith)
        (subst (λ d. lo *ℤ pos d ≤ℤ a *ℤ pos k +ℤ p *ℤ pos (suc n)) e below)
        (subst (λ d. a *ℤ pos k +ℤ p *ℤ pos (suc n) ≤ℤ hi *ℤ pos d) e above)

  -- The average moves to a value between the bounds, whatever was filled before.
  next_avg-between :
      (o : Order) (n : ℕ) (p : ℤ)
      → IsPriced lo hi o
      → lo ≤ℤ p
      → p ≤ℤ hi
      → (m : ℕ) × (o.filled_quantity +ℤ pos (suc n) ≡ pos (suc m))
        × (lo ≤ℤ next_avg divide o (pos (suc n)) p)
        × (next_avg divide o (pos (suc n)) p ≤ℤ hi)
  next_avg-between o n p (unfilled z) lp ph =
      let e : o.filled_quantity +ℤ pos (suc n) ≡ pos (suc n) = rw z (omega int_laws) in
      let (l, h) = quotient_between p p 0 n lp ph lp ph in
      let same : next_avg divide o (pos (suc n)) p
          ≡ divide (p *ℤ pos 0 +ℤ p *ℤ pos (suc n)) (pos (suc (0 + n))) =
        rw (next_avg_lem o (pos (suc n)) p n e)
          (rw z (rw (*ℤ_zero (prior_average o), *ℤ_zero p) (ground arith))) in
      (n, e, rw same l, rw same h)
  next_avg-between o n p (priced k a f av la ah) lp ph =
      let e : o.filled_quantity +ℤ pos (suc n) ≡ pos (suc (suc k + n)) = rw f (omega int_laws) in
      let (l, h) = quotient_between a p (suc k) n la ah lp ph in
      let same : next_avg divide o (pos (suc n)) p
          ≡ divide (a *ℤ pos (suc k) +ℤ p *ℤ pos (suc n)) (pos (suc (suc k + n))) =
        rw (next_avg_lem o (pos (suc n)) p (suc k + n) e) (rw f (rw av)) in
      (suc k + n, e, rw same l, rw same h)

  after-IsPriced :
      (o : Order) (e : OrderEvent)
      → IsPriced lo hi o
      → FillsBetween lo hi e
      → IsPriced lo hi (after divide o e)
  after-IsPriced o (partial_fill_event at (pos zero) p i) s f = absurd (omega arith)
  after-IsPriced o (partial_fill_event at (pos (suc n)) p i) s f =
      let (m, e, l, h) = next_avg-between o n p s f.1 f.2 in priced m _ e refl l h
  after-IsPriced o (partial_fill_event at (negsuc n) p i) s f = absurd (omega arith)
  after-IsPriced o (fill_event at (pos zero) p i) s f = absurd (omega arith)
  after-IsPriced o (fill_event at (pos (suc n)) p i) s f =
      let (m, e, l, h) = next_avg-between o n p s f.1 f.2 in priced m _ e refl l h
  after-IsPriced o (fill_event at (negsuc n) p i) s f = absurd (omega arith)
  after-IsPriced o (submit_event at b) (unfilled z) f = unfilled z
  after-IsPriced o (submit_event at b) (priced k a z av la ah) f = priced k a z av la ah
  after-IsPriced o _ (unfilled z) f = unfilled z
  after-IsPriced o _ (priced k a z av la ah) f = priced k a z av la ah

  -- Every event of a history fills between the bounds.
  unfoldable pub AllBetween : {o o' : Order} → History divide o o' → Type 0
  AllBetween here = Unit
  AllBetween (next e u past h) = AllBetween past × FillsBetween lo hi e

  -- Where the division rounds no quotient past two bounds: a history of positive fills at prices
  -- from `lo` to `hi`, on an order that is unfilled or has its average between them, leaves an
  -- order that is unfilled or has a positive filled quantity at an average from `lo` to `hi`.
  pub History-IsPriced :
      {o o' : Order} (past : History divide o o')
      → IsPriced lo hi o
      → AllBetween past
      → IsPriced lo hi o'
  unfolding AllBetween
  History-IsPriced here s f = s
  History-IsPriced (next {t} e u past h) s f =
      rw ((apply_event-ok divide t e u h).2) (after-IsPriced t e (History-IsPriced past s f.0) f.1)
