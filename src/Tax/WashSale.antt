-- ===== src/Tax/WashSale.antt =====
-- engine/core/tax/wash_sale.py: the wash-sale detector. Quantities and prices are `Decimal`s, whole
-- numbers of the smallest unit of their kind, and an amount is counted in the product of the two
-- units; the constructor of `Trade` refuses what is not positive (a price may
-- be 0), so a trade holds naturals. Instants are microseconds. `prorate loss matched quantity` is
-- the rounded `(loss * (matched / quantity)).quantize(...)` of the decimal context.
pub mod Fifo
pub mod Matching
pub mod Provenance
use Prim.Native.Nat.{min, Ordering}
use Prim.Native.String.{compare as compare_text}
use nexus_trade_engine.Prelude.{
  ℕ, ◌+◌, ◌-◌, ◌*◌, String, Option, none, some, Bool, true, false, not, ◌&&◌, ◌||◌, List, [], ◌∷◌,
  ◌++◌, Outcome, ok, err, ◌>>=◌, ◌>>◌, raise_if, ltb, leb, nat_beq, ◌==◌, nat_eq, string_eq, Dict,
  lookup, insert, if◌then◌else◌, keep,
}
use nexus_trade_engine.Prelude.Int.{ℤ, pos, pos_part, ◌-ℤ◌, ltb_ℤ, leb_ℤ}

abbrev wash_sale_window_days : ℕ
wash_sale_window_days = 30

pub data TradeSide : Type 0 where
  buy sell : TradeSide

pub record Trade : Type 0 where
  pub trade_id : String
  pub symbol : String
  pub side : TradeSide
  pub quantity : ℕ
  pub price : ℕ
  pub when : ℕ

pub data WashSaleError : Type 0 where
  bad_quantity bad_price negative_window : WashSaleError

-- `Trade.__post_init__`
unfoldable new_trade : String → String → TradeSide → ℤ → ℤ → ℕ → Outcome WashSaleError Trade
new_trade trade_id symbol side quantity price when = do
  raise_if (leb_ℤ quantity (pos 0)) bad_quantity
  raise_if (ltb_ℤ price (pos 0)) bad_price
  ok (record {
    trade_id = trade_id;
    symbol = symbol;
    side = side;
    quantity = pos_part quantity;
    price = pos_part price;
    when = when;
  })

abbrev pub gross : Trade → ℕ
gross t = t.quantity * t.price

pub record WashSaleAdjustment : Type 0 where
  pub sale_trade_id : String
  pub replacement_trade_id : String
  pub symbol : String
  pub matched_quantity : ℕ
  pub disallowed_loss : ℕ

-- `_BuyState`
pub record BuyState : Type 0 where
  pub trade : Trade
  pub available_qty : ℕ

-- `_SaleState`; only sales at a loss have one.
pub record SaleState : Type 0 where
  pub trade : Trade
  pub total_loss : ℕ
  pub remaining_qty : ℕ
  pub remaining_loss : ℤ

-- `sorted(..., key=when)`, which is stable: the first of equal items is inserted last.
module _ {A : Type 0} (before : A → A → Bool) where
  pub insert_sorted : A → List A → List A
  insert_sorted a [] = a ∷ []
  insert_sorted a (b ∷ bs) = if before a b then a ∷ b ∷ bs else b ∷ insert_sorted a bs

  unfoldable pub sorted : List A → List A
  unfolding insert_sorted
  sorted [] = []
  sorted (a ∷ rest) = insert_sorted a (sorted rest)

-- `_consume_fifo`: the basis of what was taken, and the lots afterwards.
pub consume_fifo : List BuyState → ℕ → ℕ × List BuyState
consume_fifo [] remaining = (0, [])
consume_fifo (lot ∷ lots) remaining =
    let take = min lot.available_qty remaining in
    let (basis, lots') = consume_fifo lots (remaining - take) in
    (
      take * lot.trade.price + basis,
      record lot { available_qty = lot.available_qty - take } ∷ lots',
    )

-- The lots of each symbol, and the cost basis of each sale.
pub record Books : Type 0 where
  pub fifo_lots : Dict String (List BuyState)
  pub cost_basis_for : Dict String ℤ

abbrev pub or_empty : Option (List BuyState) → List BuyState
or_empty none = []
or_empty (some lots) = lots

-- `if trade.trade_id not in cost_basis_for: cost_basis_for[trade.trade_id] = basis`
abbrev set_default : String → ℤ → Option ℤ → Dict String ℤ → Dict String ℤ
set_default k v none d = insert k v d
set_default k v (some w) d = d

-- One round of the first loop.
pub book : Trade → TradeSide → Books → Books
unfolding consume_fifo
book t buy books =
    let lots = or_empty (lookup t.symbol books.fifo_lots) in
    record books {
      fifo_lots =
          insert t.symbol (lots ++ record { trade = t; available_qty = t.quantity } ∷ [])
            books.fifo_lots;
    }
book t sell books =
    let (basis, lots') = consume_fifo (or_empty (lookup t.symbol books.fifo_lots)) t.quantity in
    record {
      fifo_lots = (elim (lookup t.symbol books.fifo_lots) [
        | none ↦ books.fifo_lots
        | some _ ↦ insert t.symbol lots' books.fifo_lots
      ]);
      cost_basis_for =
          set_default t.trade_id (pos basis) (lookup t.trade_id books.cost_basis_for)
            books.cost_basis_for;
    }

unfoldable pub book_all : List Trade → Books → Books
unfolding book
book_all [] books = books
book_all (t ∷ trades) books = book_all trades (book t t.side books)

abbrev pub is_sell : TradeSide → Bool
is_sell sell = true
is_sell buy = false

abbrev pub basis_or_zero : Option ℤ → ℤ
basis_or_zero none = pos 0
basis_or_zero (some b) = b

-- The sales at a loss, in the order of the trades.
unfoldable pub sale_states : Dict String ℤ → List Trade → List SaleState
sale_states bases [] = []
sale_states bases (s ∷ trades) =
    let rest = sale_states bases trades in
    let loss = basis_or_zero (lookup s.trade_id bases) -ℤ pos (gross s) in
    if not (is_sell s.side) || leb_ℤ loss (pos 0)
    then rest
    else (record {
      trade = s;
      total_loss = pos_part loss;
      remaining_qty = s.quantity;
      remaining_loss = loss;
    }
        ∷ rest)

-- `lot for lots in fifo_lots.values() for lot in lots`
unfoldable pub all_lots : Dict String (List BuyState) → List BuyState
all_lots [] = []
all_lots ((symbol, lots) ∷ d) = lots ++ all_lots d

-- `abs(a - b) > window`
abbrev farther : ℕ → ℕ → ℕ → Bool
farther window a b = ltb window (a - b) || ltb window (b - a)

-- Whether the inner loop passes a buy over.
unfoldable pub passed_over : ℕ → SaleState → BuyState → Bool
passed_over window sale b =
    leb b.available_qty 0
    || not (b.trade.symbol == sale.trade.symbol)
    || farther window b.trade.when sale.trade.when
    || b.trade.trade_id == sale.trade.trade_id
    || leb (min sale.remaining_qty b.available_qty) 0

module _ (prorate : ℕ → ℕ → ℕ → ℕ) where
  pub adjust : SaleState → BuyState → WashSaleAdjustment
  adjust sale b =
      let matched = min sale.remaining_qty b.available_qty in
      record {
        sale_trade_id = sale.trade.trade_id;
        replacement_trade_id = b.trade.trade_id;
        symbol = sale.trade.symbol;
        matched_quantity = matched;
        disallowed_loss = prorate sale.total_loss matched sale.trade.quantity;
      }

  -- The sale after a match.
  unfoldable pub after_match : SaleState → BuyState → SaleState
  unfolding adjust
  after_match sale b = record sale {
    remaining_qty = sale.remaining_qty - (adjust sale b).matched_quantity;
    remaining_loss = sale.remaining_loss -ℤ pos (adjust sale b).disallowed_loss;
  }

  -- The buy after a match.
  pub spend : SaleState → BuyState → BuyState
  unfolding adjust
  spend sale b = record b { available_qty = b.available_qty - (adjust sale b).matched_quantity }

  -- `sale.remaining_qty <= 0 or sale.remaining_loss <= 0`
  abbrev pub exhausted : SaleState → Bool
  exhausted sale = leb sale.remaining_qty 0 || leb_ℤ sale.remaining_loss (pos 0)

  -- The inner loop: the adjustments of one sale, and the buys afterwards.
  unfoldable pub match_sale :
      ℕ → SaleState → List BuyState → List WashSaleAdjustment × List BuyState
  match_sale window sale [] = ([], [])
  match_sale window sale (b ∷ buys) = elim (passed_over window sale b) [
    | true ↦ let (adjustments, buys') = match_sale window sale buys in (adjustments, b ∷ buys')
    | false ↦ elim (exhausted (after_match sale b)) [
      | true ↦ (adjust sale b ∷ [], spend sale b ∷ buys)
      | false ↦
          let (adjustments, buys') = match_sale window (after_match sale b) buys in
          (adjust sale b ∷ adjustments, spend sale b ∷ buys')
    ]
  ]

  -- The outer loop.
  unfoldable pub match_all :
      ℕ → List SaleState → List BuyState → List WashSaleAdjustment × List BuyState
  match_all window [] buys = ([], buys)
  match_all window (sale ∷ sales) buys =
      let (adjustments, buys') = match_sale window sale buys in
      let (rest, buys'') = match_all window sales buys' in (adjustments ++ rest, buys'')

-- The tuple `(sale_trade_id, replacement_trade_id)` of `a` is at most that of `b`.
abbrev pub adjustment_before : WashSaleAdjustment → WashSaleAdjustment → Bool
adjustment_before a b = elim (compare_text a.sale_trade_id b.sale_trade_id) [
  | Ordering.lt ↦ true
  | Ordering.gt ↦ false
  | Ordering.eq ↦ elim (compare_text a.replacement_trade_id b.replacement_trade_id) [
    | Ordering.gt ↦ false
    | _ ↦ true
  ]
]

abbrev pub microseconds_per_day : ℕ
microseconds_per_day = 86_400_000_000

-- The trades in the order of time, then the books after all of them.
unfoldable pub books_of : List Trade → Dict String ℤ → Books
books_of trades bases =
    book_all (sorted (λ (a b : Trade). leb a.when b.when) trades)
      (record { fifo_lots = []; cost_basis_for = bases })

-- The buys that a sale can be matched with: the lots with shares left, in the order of time.
unfoldable pub buy_states : Books → List BuyState
buy_states books =
    sorted (λ (a b : BuyState). leb a.trade.when b.trade.when)
      (keep (λ (lot : BuyState). ltb 0 lot.available_qty) (all_lots books.fifo_lots))

unfoldable pub loss_sales : Books → List Trade → List SaleState
loss_sales books trades =
    sorted (λ (a b : SaleState). leb a.trade.when b.trade.when)
      (sale_states books.cost_basis_for trades)

module _ (prorate : ℕ → ℕ → ℕ → ℕ) where
  unfoldable pub detect_wash_sales :
      List Trade → Dict String ℤ → ℤ → Outcome WashSaleError (List WashSaleAdjustment)
  detect_wash_sales trades cost_basis_for window_days =
      let books = books_of trades cost_basis_for in
      let window = pos_part window_days * microseconds_per_day in
      if ltb_ℤ window_days (pos 0)
      then err negative_window
      else if nat_beq (pos_part window_days) 0
      then ok []
      else ok (
          sorted adjustment_before
            (match_all prorate window (loss_sales books trades) (buy_states books)).0)

  -- `detect_wash_sales_for_jurisdiction`
  unfoldable detect_for_jurisdiction :
      List Trade → ℤ → Dict String ℤ → Outcome WashSaleError (List WashSaleAdjustment)
  unfolding detect_wash_sales
  detect_for_jurisdiction trades wash_sale_window_days cost_basis_for =
      detect_wash_sales trades cost_basis_for wash_sale_window_days
