-- ===== src/Tax/WashSale/Matching.antt =====
-- How many shares the matching of sales with replacement buys can use.
use nexus_trade_engine.Prelude.{
  ℕ, ◌+◌, ◌*◌, ◌≤◌, ◌≡◌, refl, true, false, List, [], ◌∷◌, ◌++◌, ok, arith, Bool-cases, inl, inr,
  ◌⊎◌, String, Dict, ◌==◌, string_eq, if◌then◌else◌,
}
use nexus_trade_engine.Prelude.Int.{ℤ, pos_part}
use nexus_trade_engine.Tax.WashSale.{
  Trade, BuyState, SaleState, WashSaleAdjustment, adjust, after_match, spend, exhausted,
  passed_over, match_sale, match_all, sorted, adjustment_before, detect_wash_sales, books_of,
  buy_states, loss_sales, microseconds_per_day,
}
use nexus_trade_engine.Tax.WashSale.Fifo.{sorted-sum}

-- What an adjustment takes from the lots of the trade `k`, and what a lot of that trade still has.
abbrev taken_from : String → WashSaleAdjustment → ℕ
taken_from k a = if a.replacement_trade_id == k then a.matched_quantity else 0

abbrev held_in : String → BuyState → ℕ
held_in k b = if b.trade.trade_id == k then b.available_qty else 0

-- The shares of the lots of the trade `k` that the adjustments match.
abbrev pub matched : String → List WashSaleAdjustment → ℕ
matched k [] = 0
matched k (a ∷ adjustments) = taken_from k a + matched k adjustments

-- The shares that the lots of the trade `k` have.
abbrev pub available_in : String → List BuyState → ℕ
available_in k [] = 0
available_in k (b ∷ buys) = held_in k b + available_in k buys

matched-append :
    (k : String) (xs ys : List WashSaleAdjustment)
    → matched k (xs ++ ys) ≡ matched k xs + matched k ys
matched-append k [] ys = omega arith
matched-append k (x ∷ xs) ys = omega (arith, matched-append k xs ys)

module _ (prorate : ℕ → ℕ → ℕ → ℕ) (window : ℕ) (sale : SaleState) (b : BuyState)
    (buys : List BuyState) where
  -- The three rounds of the inner loop: the buy is passed over, or it is the last one, or another
  -- round follows.
  pub match_sale-past :
      passed_over window sale b ≡ true
      → match_sale prorate window sale (b ∷ buys)
        ≡ ((match_sale prorate window sale buys).0, b ∷ (match_sale prorate window sale buys).1)
  unfolding match_sale
  match_sale-past h = ground arith

  pub match_sale-last :
      passed_over window sale b ≡ false
      → exhausted prorate (after_match prorate sale b) ≡ true
      → match_sale prorate window sale (b ∷ buys)
        ≡ (adjust prorate sale b ∷ [], spend prorate sale b ∷ buys)
  unfolding match_sale
  match_sale-last h e = rw (h, match_sale) (rw (e, match_sale))

  pub match_sale-next :
      passed_over window sale b ≡ false
      → exhausted prorate (after_match prorate sale b) ≡ false
      → match_sale prorate window sale (b ∷ buys) ≡ (
        adjust prorate sale b ∷ (match_sale prorate window (after_match prorate sale b) buys).0,
        spend prorate sale b ∷ (match_sale prorate window (after_match prorate sale b) buys).1,
      )
  unfolding match_sale
  match_sale-next h e = rw (h, match_sale) (rw (e, match_sale))

module _ (prorate : ℕ → ℕ → ℕ → ℕ) where
  -- One match moves its quantity from the lot that the adjustment names, and from no other trade's.
  match-moves :
      (k : String) (sale : SaleState) (b : BuyState)
      → taken_from k (adjust prorate sale b) + held_in k (spend prorate sale b) ≡ held_in k b
  unfolding adjust spend
  match-moves k sale b = elim (Bool-cases (b.trade.trade_id == k)) [
    | inl this ↦ rw this (omega arith)
    | inr other ↦ rw other refl
  ]

  -- One match takes from the sale what it matches.
  pub match-sale :
      (sale : SaleState) (b : BuyState)
      → (adjust prorate sale b).matched_quantity + (after_match prorate sale b).remaining_qty
        ≡ sale.remaining_qty
  unfolding adjust after_match
  match-sale sale b = omega arith

  -- The adjustments of one sale match exactly the shares of a trade that are gone from its lots.
  match_sale-matched :
      (k : String) (window : ℕ) (sale : SaleState) (buys : List BuyState)
      → let (adjustments, buys') = match_sale prorate window sale buys in
        matched k adjustments + available_in k buys' ≡ available_in k buys
  match_sale-matched k window sale [] = unfold match_sale in omega arith
  match_sale-matched k window sale (b ∷ buys) = elim (Bool-cases (passed_over window sale b)) [
    | inl past ↦
        rw (match_sale-past prorate window sale b buys past)
          (omega (arith, match_sale-matched k window sale buys))
    | inr taken ↦ elim (Bool-cases (exhausted prorate (after_match prorate sale b))) [
      | inl done ↦
          rw (match_sale-last prorate window sale b buys taken done)
            (omega (arith, match-moves k sale b))
      | inr more ↦ rw (match_sale-next prorate window sale b buys taken more) (
          omega (
            arith,
            match-moves k sale b,
            match_sale-matched k window (after_match prorate sale b) buys,
          ))
    ]
  ]

  match_all-matched :
      (k : String) (window : ℕ) (sales : List SaleState) (buys : List BuyState)
      → let (adjustments, buys') = match_all prorate window sales buys in
        matched k adjustments + available_in k buys' ≡ available_in k buys
  unfolding match_all
  match_all-matched k window [] buys = omega arith
  match_all-matched k window (sale ∷ sales) buys =
      let (adjustments, buys') = match_sale prorate window sale buys in
      omega (
        arith,
        match_sale-matched k window sale buys,
        match_all-matched k window sales buys',
        matched-append k adjustments (match_all prorate window sales buys').0,
      )

  -- An answer is empty, or the sorted adjustments of all loss sales.
  pub detect_wash_sales-ok :
      (trades : List Trade) (bases : Dict String ℤ) (window_days : ℤ)
      (adjustments : List WashSaleAdjustment)
      → detect_wash_sales prorate trades bases window_days ≡ ok adjustments
      → let books = books_of trades bases in
        (adjustments ≡ [])
        ⊎ (adjustments
            ≡ sorted adjustment_before
                (match_all prorate
                  (pos_part window_days * microseconds_per_day)
                  (loss_sales books trades)
                  (buy_states books)).0)
  unfolding detect_wash_sales
  detect_wash_sales-ok trades bases window_days adjustments h = ground arith

  -- In a run that succeeds, whatever the trade `k`: the adjustments that name it as their
  -- replacement match together no more shares than its lots still have after every sale has
  -- consumed its own. So no replacement share is used twice, by one sale or by several.
  pub detect_wash_sales-matched :
      (trades : List Trade) (bases : Dict String ℤ) (window_days : ℤ)
      (adjustments : List WashSaleAdjustment)
      → detect_wash_sales prorate trades bases window_days ≡ ok adjustments
      → (k : String) → matched k adjustments ≤ available_in k (buy_states (books_of trades bases))
  detect_wash_sales-matched trades bases window_days adjustments h k =
      elim (detect_wash_sales-ok trades bases window_days adjustments h) [
        | inl empty ↦ rw empty (omega arith)
        | inr all ↦
            let books = books_of trades bases in
            let window = pos_part window_days * microseconds_per_day in
            let found = (match_all prorate window (loss_sales books trades) (buy_states books)).0 in
            rw all (
              omega (
                arith,
                sorted-sum adjustment_before (taken_from k) (matched k) (λ a rest. refl) found,
                match_all-matched k window (loss_sales books trades) (buy_states books),
              ))
      ]
