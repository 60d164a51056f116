-- ===== src/Tax/WashSale/Provenance.antt =====
-- Where the adjustments come from: a sale at a loss and a buy of the same symbol in its window.
use Prim.Native.Nat.{min}
use nexus_trade_engine.Prelude.{
  ℕ, ◌+◌, ◌-◌, ◌*◌, ◌≤◌, ◌<◌, ◌≡◌, ◌≢◌, refl, String, Dict, Option, none, some, Bool, false, List,
  [], ◌∷◌, ok, arith, All, All-append, All-keep, All-In, In, Bool-cases, inl, inr, ◌||◌, ◌==◌,
  string_eq, lookup, insert, not,
}
use nexus_trade_engine.Prelude.Int.{ℤ, pos, pos_part, leb_ℤ, ◌-ℤ◌}
use nexus_trade_engine.Tax.WashSale.{
  Trade, TradeSide, buy, sell, BuyState, SaleState, WashSaleAdjustment, consume_fifo, Books,
  or_empty, book, book_all, sale_states, all_lots, passed_over, adjust, after_match, spend,
  exhausted, match_sale, match_all, adjustment_before, detect_wash_sales, books_of, buy_states,
  loss_sales, microseconds_per_day, is_sell, gross, basis_or_zero,
}
use nexus_trade_engine.Tax.WashSale.Fifo.{sorted-All}
use nexus_trade_engine.Tax.WashSale.Matching.{
  match_sale-past, match_sale-last, match_sale-next, match-sale, detect_wash_sales-ok,
}

-- An adjustment pairs a sale and a buy among the trades.
pub record IsWash (trades : List Trade) (window : ℕ) (a : WashSaleAdjustment) : Type 0 where
  pub sale : Trade
  pub replacement : Trade
  pub sale_traded : In trades sale
  pub replacement_traded : In trades replacement
  pub sale_side : sale.side ≡ sell
  pub replacement_side : replacement.side ≡ buy
  pub sale_named : a.sale_trade_id ≡ sale.trade_id
  pub replacement_named : a.replacement_trade_id ≡ replacement.trade_id
  pub same_symbol : (a.symbol ≡ sale.symbol) × (replacement.symbol ≡ sale.symbol)
  pub near : (replacement.when ≤ sale.when + window) × (sale.when ≤ replacement.when + window)
  pub distinct : replacement.trade_id ≢ sale.trade_id
  pub some_matched : 0 < a.matched_quantity
  pub within_sale : a.matched_quantity ≤ sale.quantity

sells : (side : TradeSide) (x : Bool) → (not (is_sell side) || x) ≡ false → side ≡ sell
sells side x h = ground arith

module _ (trades : List Trade) where
  -- A lot of a buy among the trades, and a loss sale among them.
  abbrev LotOf : BuyState → Type 0
  LotOf lot = In trades lot.trade × (lot.trade.side ≡ buy)

  abbrev SaleOf : SaleState → Type 0
  SaleOf s = In trades s.trade × (s.trade.side ≡ sell) × (s.remaining_qty ≤ s.trade.quantity)

  abbrev LotsOf : Dict String (List BuyState) → Type 0
  LotsOf = All (λ (entry : String × List BuyState). All LotOf entry.1)

  LotsOf-lookup :
      (k : String) (d : Dict String (List BuyState)) → LotsOf d → All LotOf (or_empty (lookup k d))
  LotsOf-lookup k [] h = tt
  LotsOf-lookup k ((j, lots) ∷ d) h = elim (Bool-cases (j == k)) [
    | inl e ↦ rw e h.0
    | inr e ↦ rw e (LotsOf-lookup k d h.1)
  ]

  LotsOf-insert :
      (k : String) (lots : List BuyState) (d : Dict String (List BuyState))
      → All LotOf lots
      → LotsOf d
      → LotsOf (insert k lots d)
  LotsOf-insert k lots [] new h = (new, tt)
  LotsOf-insert k lots ((j, old) ∷ d) new h = elim (Bool-cases (j == k)) [
    | inl e ↦ rw e (new, h.1)
    | inr e ↦ rw e (h.0, LotsOf-insert k lots d new h.1)
  ]

  consume_fifo-LotOf :
      (lots : List BuyState) (q : ℕ) → All LotOf lots → All LotOf (consume_fifo lots q).1
  unfolding consume_fifo
  consume_fifo-LotOf [] q h = tt
  consume_fifo-LotOf (lot ∷ lots) q h =
      (h.0, consume_fifo-LotOf lots (q - min lot.available_qty q) h.1)

  replaced-LotsOf :
      (k : String) (lots : List BuyState) (o : Option (List BuyState))
      (d : Dict String (List BuyState))
      → All LotOf lots
      → LotsOf d
      → LotsOf (elim o [ none ↦ d | some _ ↦ insert k lots d ])
  replaced-LotsOf k lots none d new h = h
  replaced-LotsOf k lots (some _) d new h = LotsOf-insert k lots d new h

  book-LotsOf :
      (t : Trade) (side : TradeSide) (books : Books)
      → In trades t
      → t.side ≡ side
      → LotsOf books.fifo_lots
      → LotsOf (book t side books).fifo_lots
  unfolding book
  book-LotsOf t buy books i e h =
      LotsOf-insert t.symbol _ books.fifo_lots
        (All-append LotOf (or_empty (lookup t.symbol books.fifo_lots)) _
          (LotsOf-lookup t.symbol books.fifo_lots h) ((i, e), tt))
        h
  book-LotsOf t sell books i e h =
      replaced-LotsOf t.symbol _ (lookup t.symbol books.fifo_lots) books.fifo_lots
        (consume_fifo-LotOf (or_empty (lookup t.symbol books.fifo_lots)) t.quantity
          (LotsOf-lookup t.symbol books.fifo_lots h))
        h

  book_all-LotsOf :
      (ts : List Trade) (books : Books)
      → All (In trades) ts
      → LotsOf books.fifo_lots
      → LotsOf (book_all ts books).fifo_lots
  unfolding book_all
  book_all-LotsOf [] books i h = h
  book_all-LotsOf (t ∷ ts) books i h =
      book_all-LotsOf ts (book t t.side books) i.1 (book-LotsOf t t.side books i.0 refl h)

  all_lots-LotOf : (d : Dict String (List BuyState)) → LotsOf d → All LotOf (all_lots d)
  unfolding all_lots
  all_lots-LotOf [] h = tt
  all_lots-LotOf ((k, lots) ∷ d) h = All-append LotOf lots (all_lots d) h.0 (all_lots-LotOf d h.1)

  -- The candidates for replacement are lots of buys among the trades.
  buy_states-LotOf : (bases : Dict String ℤ) → All LotOf (buy_states (books_of trades bases))
  unfolding buy_states books_of
  buy_states-LotOf bases = sorted-All _ LotOf _ (
      All-keep LotOf _ _ (
        all_lots-LotOf _
          (book_all-LotsOf _ _ (sorted-All _ (In trades) trades (All-In trades)) tt)))

  sale_states-SaleOf :
      (bases : Dict String ℤ) (ts : List Trade)
      → All (In trades) ts
      → All SaleOf (sale_states bases ts)
  unfolding sale_states
  sale_states-SaleOf bases [] i = tt
  sale_states-SaleOf bases (t ∷ ts) i =
      let loss = basis_or_zero (lookup t.trade_id bases) -ℤ pos (gross t) in
      elim (Bool-cases (not (is_sell t.side) || leb_ℤ loss (pos 0))) [
        | inl skipped ↦ rw skipped (sale_states-SaleOf bases ts i.1)
        | inr kept ↦ rw kept (
          (i.0, sells t.side (leb_ℤ loss (pos 0)) kept, omega arith),
          sale_states-SaleOf bases ts i.1,
        )
      ]

  module _ (prorate : ℕ → ℕ → ℕ → ℕ) (window : ℕ) where
    -- What a match that is not passed over pairs.
    adjust-IsWash :
        (sale : SaleState) (b : BuyState)
        → SaleOf sale
        → LotOf b
        → passed_over window sale b ≡ false
        → IsWash trades window (adjust prorate sale b)
    unfolding adjust passed_over
    adjust-IsWash sale b s l h = record {
      sale = sale.trade;
      replacement = b.trade;
      sale_traded = s.0;
      replacement_traded = l.0;
      sale_side = s.1;
      replacement_side = l.1;
      sale_named = refl;
      replacement_named = refl;
      same_symbol = (refl, ground (arith, string_eq.same_iff b.trade.symbol sale.trade.symbol));
      near = ground arith;
      distinct = ground (arith, string_eq.same_iff b.trade.trade_id sale.trade.trade_id);
      some_matched = ground arith;
      within_sale = omega arith;
    }

    spend-LotOf : (sale : SaleState) (b : BuyState) → LotOf b → LotOf (spend prorate sale b)
    unfolding spend
    spend-LotOf sale b l = l

    after_match-SaleOf :
        (sale : SaleState) (b : BuyState) → SaleOf sale → SaleOf (after_match prorate sale b)
    unfolding after_match
    after_match-SaleOf sale b s = (s.0, s.1, omega (arith, match-sale prorate sale b))

    match_sale-IsWash :
        (sale : SaleState) (buys : List BuyState)
        → SaleOf sale
        → All LotOf buys
        → All (IsWash trades window) (match_sale prorate window sale buys).0
          × All LotOf (match_sale prorate window sale buys).1
    match_sale-IsWash sale [] s l = unfold match_sale in (tt, tt)
    match_sale-IsWash sale (b ∷ buys) s l = elim (Bool-cases (passed_over window sale b)) [
      | inl past ↦
          let (found, left) = match_sale-IsWash sale buys s l.1 in
          rw (match_sale-past prorate window sale b buys past) (found, (l.0, left))
      | inr taken ↦
          let here = adjust-IsWash sale b s l.0 taken in
          elim (Bool-cases (exhausted prorate (after_match prorate sale b))) [
            | inl done ↦
                rw (match_sale-last prorate window sale b buys taken done)
                  ((here, tt), (spend-LotOf sale b l.0, l.1))
            | inr more ↦
                let (found, left) =
                  match_sale-IsWash (after_match prorate sale b) buys (after_match-SaleOf sale b s)
                    l.1 in
                rw (match_sale-next prorate window sale b buys taken more)
                  ((here, found), (spend-LotOf sale b l.0, left))
          ]
    ]

    match_all-IsWash :
        (sales : List SaleState) (buys : List BuyState)
        → All SaleOf sales
        → All LotOf buys
        → All (IsWash trades window) (match_all prorate window sales buys).0
    unfolding match_all
    match_all-IsWash [] buys s l = tt
    match_all-IsWash (sale ∷ sales) buys s l =
        let (found, left) = match_sale-IsWash sale buys s.0 l in
        All-append (IsWash trades window) (match_sale prorate window sale buys).0 _ found
          (match_all-IsWash sales _ s.1 left)

-- Every adjustment that is reported pairs a sale and a buy among the trades: of the same symbol, no
-- further apart than the window, under different ids, with a positive quantity that is at most the
-- quantity of the sale.
pub detect_wash_sales-IsWash :
    (prorate : ℕ → ℕ → ℕ → ℕ) (trades : List Trade) (bases : Dict String ℤ) (window_days : ℤ)
    (adjustments : List WashSaleAdjustment)
    → detect_wash_sales prorate trades bases window_days ≡ ok adjustments
    → All (IsWash trades (pos_part window_days * microseconds_per_day)) adjustments
unfolding loss_sales
detect_wash_sales-IsWash prorate trades bases window_days adjustments h =
    let window = pos_part window_days * microseconds_per_day in
    elim (detect_wash_sales-ok prorate trades bases window_days adjustments h) [
      | inl empty ↦ rw empty tt
      | inr all ↦ rw all (
          sorted-All adjustment_before (IsWash trades window) _ (
            match_all-IsWash trades prorate window _ _
              (sorted-All _ (SaleOf trades) _ (sale_states-SaleOf trades _ trades (All-In trades)))
              (buy_states-LotOf trades bases)))
    ]
