-- ===== src/OrderManager/Units.antt =====
-- What a fill does to the position in its symbol.
use nexus_trade_engine.Prelude.{
  ℕ, String, ◌≡◌, refl, none, true, false, List, [], ◌∷◌, arith, Bool-cases, Option-cases,
  Outcome-cases, inl, inr, ==_refl, string_eq, lookup, lookup-insert, Outcome, ok, err,
}
use nexus_trade_engine.Prelude.Int.{ℤ, pos, ◌+ℤ◌, ◌-ℤ◌, ltb_ℤ, leb_ℤ, beq_ℤ}
use nexus_trade_engine.Portfolio.{
  PortfolioError, Portfolio, Position, ConsumedLot, Consumption, TaxLot,
}
use nexus_trade_engine.Portfolio.Trades.{
  open_position, close_position, settle_buy, paid, lot_price, enlarged, trade_date, finish_sale,
  settle_sale, consume, after_loop,
}
use nexus_trade_engine.Portfolio.Invariant.{units}
use nexus_trade_engine.Portfolio.Sale.{lookup-reduce}
use nexus_trade_engine.OrderManager.{Desk, FillResult, CostBreakdown, Side, buy, sell, hold, total}
use nexus_trade_engine.OrderManager.Reconcile.{book, raised}

pub from_none : (q : ℤ) → q ≡ pos 0 +ℤ q
unfolding ◌+ℤ◌
from_none q = ground arith

none_left : (a q : ℤ) → ltb_ℤ a q ≡ false → leb_ℤ (a -ℤ q) (pos 0) ≡ true → pos 0 ≡ a -ℤ q
unfolding ◌-ℤ◌
none_left a q enough gone = ground arith

module _ (desk : Desk) where
  open desk use {money, Float, of_int, zero, add, sub, mul, lt}

  -- The quantity of the position in a symbol.
  abbrev pub position_units : String → Portfolio money → ℤ
  position_units symbol p = units money (lookup symbol p.positions)

  -- A fill adds to the position of a purchase and takes from that of a sale. `_reconcile_fill` books
  -- nothing for an order to hold, which the callers of `process_signal` filter out.
  abbrev pub moved : Side → ℤ → ℤ → ℤ
  moved buy held quantity = held +ℤ quantity
  moved sell held quantity = held -ℤ quantity
  moved hold held quantity = held

  -- What is said when nothing was raised.
  abbrev UnlessRaised {ℓ} :
      {E A : Type ℓ} → (Portfolio money → Type 0) → Portfolio money × Outcome E A → Type 0
  UnlessRaised P (p, ok a) = P p
  UnlessRaised P (p, err e) = Unit

  settle_buy-units :
      (now : ℕ) (lot_id symbol : String) (quantity : ℤ) (price cost adjusted : Float)
      (p : Portfolio money)
      → UnlessRaised
          (λ p'. position_units symbol p' ≡ position_units symbol p +ℤ quantity)
          (settle_buy money now lot_id symbol quantity price cost adjusted p)
  unfolding settle_buy enlarged
  settle_buy-units now lot_id symbol quantity price cost adjusted p =
      elim (Option-cases (lookup symbol p.positions)) [
        | inl e ↦ rw (e, settle_buy) (rw (lookup-insert, ==_refl symbol) (from_none quantity))
        | inr (existing, e) ↦ elim (Bool-cases (beq_ℤ (existing.quantity +ℤ quantity) (pos 0))) [
          | inl nothing ↦ rw (e, settle_buy, nothing) tt
          | inr something ↦ rw (e, settle_buy, something) (rw (lookup-insert, ==_refl symbol) refl)
        ]
      ]

  open_position-units :
      (now : ℕ) (lot_id symbol : String) (quantity : ℤ) (price cost : Float) (p : Portfolio money)
      → UnlessRaised
          (λ p'. position_units symbol p' ≡ position_units symbol p +ℤ quantity)
          (open_position money now lot_id symbol quantity price cost p)
  unfolding open_position paid
  open_position-units now lot_id symbol quantity price cost p =
      elim (Bool-cases (lt p.cash (add (mul (of_int quantity) price) cost))) [
        | inl more ↦ rw (more, open_position) tt
        | inr enough ↦ elim (Outcome-cases (lot_price money now symbol quantity price p)) [
          | inr (raised_error, e) ↦ rw (enough, e, open_position) tt
          | inl (adjusted, e) ↦
              rw (enough, e, open_position)
                (settle_buy-units now lot_id symbol quantity price cost adjusted (
                  paid money now lot_id symbol quantity (add (mul (of_int quantity) price) cost)
                    adjusted p))
        ]
      ]

  -- Consuming lots leaves the positions.
  after_loop-positions :
      (symbol : String) (p : Portfolio money) (c : Consumption money) (lots : List (TaxLot money))
      → (after_loop money symbol p c lots).0.positions ≡ p.positions
  unfolding after_loop
  after_loop-positions symbol p c [] = refl
  after_loop-positions symbol p c (lot ∷ lots) = elim (Bool-cases (ltb_ℤ (pos 0) c.remaining)) [
    | inl e ↦ rw e refl
    | inr e ↦ rw e refl
  ]

  finish_sale-units :
      (date : ℕ) (symbol : String) (quantity : ℤ) (price cost tax : Float)
      (position : Position money)
      (consumed : Portfolio money × Outcome PortfolioError (List (ConsumedLot money) × Float))
      → ltb_ℤ position.quantity quantity ≡ false
      → UnlessRaised
          (λ p'. position_units symbol p' ≡ position.quantity -ℤ quantity)
          (finish_sale money date symbol quantity price cost tax position consumed)
  unfolding finish_sale settle_sale
  finish_sale-units date symbol quantity price cost tax position (p, err e) enough = tt
  finish_sale-units date symbol quantity price cost tax position (p, ok (consumed, cost_basis))
        enough =
      rw (lookup-reduce, ==_refl symbol)
        (elim (Bool-cases (leb_ℤ (position.quantity -ℤ quantity) (pos 0))) [
          | inl gone ↦ rw gone (none_left position.quantity quantity enough gone)
          | inr stays ↦ rw stays refl
        ])

  close_position-units :
      (now : ℕ) (symbol : String) (quantity : ℤ) (price cost tax : Float) (p : Portfolio money)
      → UnlessRaised
          (λ p'. position_units symbol p' ≡ position_units symbol p -ℤ quantity)
          (close_position money now symbol quantity price cost tax p)
  unfolding close_position
  close_position-units now symbol quantity price cost tax p =
      elim (Option-cases (lookup symbol p.positions)) [
        | inl e ↦ rw (e, close_position) tt
        | inr (position, e) ↦ elim (Bool-cases (ltb_ℤ position.quantity quantity)) [
          | inl small ↦ rw (e, close_position, small) tt
          | inr enough ↦
              rw (e, close_position, enough)
                (finish_sale-units (trade_date money now p) symbol quantity price cost tax position
                  (consume money (trade_date money now p) symbol quantity p) enough)
        ]
      ]

  unless_raised :
      {E A : Type 0} (P : Portfolio money → Type 0) (answer : Portfolio money × Outcome E A)
      → UnlessRaised P answer
      → raised answer.1 ≡ none
      → P answer.0
  unless_raised P (p, ok a) h e = h
  unless_raised P (p, err x) h e = cc

  -- A fill that the portfolio takes moves the position by its quantity.
  pub book-units :
      (now : ℕ) (lot_id : String) (side : Side) (symbol : String) (fill : FillResult desk)
      (costs : CostBreakdown desk) (p : Portfolio money)
      → (book desk now lot_id side symbol fill costs p).1 ≡ none
      → position_units symbol (book desk now lot_id side symbol fill costs p).0
        ≡ moved side (position_units symbol p) fill.quantity
  unfolding book
  book-units now lot_id buy symbol fill costs p h =
      unless_raised (λ p'. position_units symbol p' ≡ position_units symbol p +ℤ fill.quantity)
        (open_position money now lot_id symbol fill.quantity fill.price (total desk costs) p)
        (open_position-units now lot_id symbol fill.quantity fill.price (total desk costs) p) h
  book-units now lot_id sell symbol fill costs p h =
      unless_raised (λ p'. position_units symbol p' ≡ position_units symbol p -ℤ fill.quantity)
        (close_position money now symbol fill.quantity fill.price
          (sub (total desk costs) costs.tax_estimate) costs.tax_estimate p)
        (close_position-units now symbol fill.quantity fill.price
          (sub (total desk costs) costs.tax_estimate) costs.tax_estimate p)
        h
  book-units now lot_id hold symbol fill costs p h = refl
