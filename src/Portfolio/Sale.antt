-- ===== src/Portfolio/Sale.antt =====
-- Selling in a valid portfolio: when it succeeds, what it consumes, and what it leaves.
use nexus_trade_engine.Prelude.{
  ℕ, ◌+◌, ◌≤◌, String, ◌≡◌, refl, sym, subst, ap, ◌∙◌, Option, none, some, true, false, List, [],
  ◌∷◌, ◌++◌, arith, All, All-append, Bool-cases, Option-cases, inl, inr, if◌then◌else◌, ◌==◌,
  string_eq, Dict, lookup, insert, lookup-insert, lookup-erase, ==_refl, ok,
}
use nexus_trade_engine.Prelude.Int.{ℤ, pos, ◌-ℤ◌, ◌<ℤ◌, ◌≤ℤ◌, ltb_ℤ, leb_ℤ}
use nexus_trade_engine.Portfolio.{
  Money, TaxLot, Position, SellRecord, Portfolio, ConsumedLot, Consumption, consume_lots,
}
use nexus_trade_engine.Portfolio.Lots.{held, IsLong, Distinct}
use nexus_trade_engine.Portfolio.Consume.{taken, consume_lots_lem}
use nexus_trade_engine.Portfolio.Trades.{
  lots_of, consume, after_loop, reduce, settle_sale, sale_of, finish_sale, close_position,
  trade_date,
}
use nexus_trade_engine.Portfolio.Invariant.{IsValid, IsOpen, IsSale, units}

-- What is left of a position.
left_units :
    (a : ℤ) (h n : ℕ)
    → a ≡ pos (h + n)
    → (leb_ℤ (a -ℤ pos n) (pos 0) ≡ true → h ≡ 0)
      × (a -ℤ pos n ≡ pos h)
      × (leb_ℤ (a -ℤ pos n) (pos 0) ≡ false → pos 0 <ℤ a -ℤ pos n)
unfolding ◌-ℤ◌
left_units a h n e = (λ t. ground arith, ground arith, λ t. ground arith)

module _ (money : Money) where
  open money use {Float, of_int, zero, add, sub, mul, div, neg, lt, le}

  abbrev pub left_position : Position money → ℤ → Option (Position money)
  left_position position quantity =
      let left = position.quantity -ℤ quantity in
      if leb_ℤ left (pos 0) then none else some (record position { quantity = left })

  pub lookup-reduce :
      (symbol s : String) (quantity : ℤ) (position : Position money)
      (positions : Dict String (Position money))
      → lookup s (reduce money symbol quantity position positions)
        ≡ (if symbol == s then left_position position quantity else lookup s positions)
  unfolding reduce
  lookup-reduce symbol s quantity position positions =
      let left = position.quantity -ℤ quantity in
      elim (Bool-cases (leb_ℤ left (pos 0))) [
        | inl gone ↦ rw gone (lookup-erase symbol s positions)
        | inr stays ↦
            rw stays (lookup-insert symbol s (record position { quantity = left }) positions)
      ]

  left_position_lem :
      (position : Position money) (h n : ℕ)
      → position.quantity ≡ pos (h + n)
      → (units money (left_position position (pos n)) ≡ pos h)
        × IsOpen money (left_position position (pos n))
  left_position_lem position h n e =
      let (empty, less, more) = left_units position.quantity h n e in
      elim (Bool-cases (leb_ℤ (position.quantity -ℤ pos n) (pos 0))) [
        | inl gone ↦ rw gone (ap pos (sym (empty gone)), tt)
        | inr stays ↦ rw stays (less, more stays)
      ]

  -- The lots and the position shrink by the same number of units.
  shrunk-IsValid :
      (p p' : Portfolio money) (symbol : String) (n : ℕ) (position : Position money)
      (lots : List (TaxLot money)) (sale : SellRecord money)
      → IsValid money p
      → lookup symbol p.positions ≡ some position
      → held money lots + n ≡ held money (lots_of money symbol p.tax_lots)
      → Distinct money lots
      → All (IsLong money) lots
      → IsSale money sale
      → p'.tax_lots ≡ insert symbol lots p.tax_lots
      → p'.positions ≡ reduce money symbol (pos n) position p.positions
      → p'.sell_history ≡ p.sell_history ++ sale ∷ []
      → IsValid money p'
  unfolding reduce
  shrunk-IsValid p p' symbol n position lots sale valid at_symbol less distinct long positive
        new_lots new_positions sales =
      let quantity : position.quantity ≡ pos (held money lots + n) =
        subst (λ o. units money o ≡ pos (held money lots + n)) at_symbol
          (valid.backed symbol ∙ ap pos (sym less)) in
      let (units_left, open_left) = left_position_lem position (held money lots) n quantity in
      record {
        distinct = λ s.
            rw (new_lots, lookup-insert symbol s lots p.tax_lots)
              (elim (Bool-cases (symbol == s)) [
                | inl e ↦ rw e distinct
                | inr e ↦ rw e (valid.distinct s)
              ]);
        long = λ s.
            rw (new_lots, lookup-insert symbol s lots p.tax_lots)
              (elim (Bool-cases (symbol == s)) [ inl e ↦ rw e long | inr e ↦ rw e (valid.long s) ]);
        backed = λ s.
            rw
              (
                new_lots,
                new_positions,
                lookup-insert symbol s lots p.tax_lots,
                lookup-reduce symbol s (pos n) position p.positions,
              )
              (elim (Bool-cases (symbol == s)) [
                | inl e ↦ rw e units_left
                | inr e ↦ rw e (valid.backed s)
              ]);
        opened = λ s.
            rw (new_positions, lookup-reduce symbol s (pos n) position p.positions)
              (elim (Bool-cases (symbol == s)) [
                | inl e ↦ rw e open_left
                | inr e ↦ rw e (valid.opened s)
              ]);
        sales =
            rw sales
              (All-append (IsSale money) p.sell_history (sale ∷ []) valid.sales (positive, tt));
      }

  after_loop_lem :
      (symbol : String) (p : Portfolio money) (c : Consumption money) (lots : List (TaxLot money))
      → 1 ≤ held money lots
      → c.remaining ≡ pos 0
      → after_loop money symbol p c lots ≡ (
        record p { tax_lots = insert symbol c.lots p.tax_lots },
        ok (c.consumed, c.total_cost_basis),
      )
  unfolding after_loop
  after_loop_lem symbol p c [] some_held done = absurd (omega (arith, some_held))
  after_loop_lem symbol p c (lot ∷ lots) some_held done = rw done refl

  -- A sale of no more than the position goes to the lots.
  close_position-held :
      (now : ℕ) (quantity : ℤ) (symbol : String) (price cost tax : Float) (p : Portfolio money)
      (position : Position money)
      → lookup symbol p.positions ≡ some position
      → ltb_ℤ position.quantity quantity ≡ false
      → let date = trade_date money now p in
        close_position money now symbol quantity price cost tax p
        ≡ finish_sale money date symbol quantity price cost tax position
            (consume money date symbol quantity p)
  unfolding close_position
  close_position-held now quantity symbol price cost tax p position at_symbol test =
      rw (at_symbol, close_position, test) refl

  -- Selling what a valid portfolio holds, or part of it, succeeds, by whichever method: the parts of
  -- lots that it returns add up to the quantity, the lots hold that much less, and the portfolio
  -- stays valid.
  pub close_position-sells :
      (now n : ℕ) (symbol : String) (price cost tax : Float) (p : Portfolio money)
      (position : Position money)
      → IsValid money p
      → 1 ≤ n
      → lookup symbol p.positions ≡ some position
      → pos n ≤ℤ position.quantity
      → (p' : Portfolio money) × (consumed : List (ConsumedLot money)) × (close_position money now
            symbol
            (pos n)
            price
            cost
            tax
            p
          ≡ (p', ok consumed))
        × (taken money consumed ≡ n)
        × (held money (lots_of money symbol p'.tax_lots) + n
            ≡ held money (lots_of money symbol p.tax_lots))
        × IsValid money p'
  unfolding finish_sale settle_sale consume after_loop
  close_position-sells now n symbol price cost tax p position valid some_units at_symbol enough =
      let lots = lots_of money symbol p.tax_lots in
      let quantity : position.quantity ≡ pos (held money lots) =
        subst (λ o. units money o ≡ pos (held money lots)) at_symbol (valid.backed symbol) in
      let bound : n ≤ held money lots = ground (arith, quantity, enough) in
      let test : ltb_ℤ position.quantity (pos n) ≡ false = ground (arith, enough) in
      let date = trade_date money now p in
      let c = consume_lots money p.tax_method date (pos n) lots in
      let (done, sums, less, distinct, long) =
        consume_lots_lem money p.tax_method date n lots (valid.distinct symbol) (valid.long symbol)
          bound in
      let p1 : Portfolio money = record p { tax_lots = insert symbol c.lots p.tax_lots } in
      let consumes : consume money date symbol (pos n) p
          ≡ (p1, ok (c.consumed, c.total_cost_basis)) =
        after_loop_lem symbol p c lots (omega (arith, bound, some_units)) done in
      let p' : Portfolio money =
        settle_sale money date symbol (pos n) price cost tax position c.consumed c.total_cost_basis
          p1 in
      (
        p',
        c.consumed,
        close_position-held now (pos n) symbol price cost tax p position at_symbol test
            ∙ ap (finish_sale money date symbol (pos n) price cost tax position) consumes,
        sums,
        rw (lookup-insert symbol symbol c.lots p.tax_lots, ==_refl symbol) less,
        shrunk-IsValid p p' symbol n position c.lots
            (sale_of money date symbol (pos n) price cost tax c.total_cost_basis) valid at_symbol
            less distinct long (omega (arith, some_units)) refl refl refl,
      )

  pub close_position-IsValid :
      (now n : ℕ) (symbol : String) (price cost tax : Float) (p : Portfolio money)
      → IsValid money p
      → 1 ≤ n
      → IsValid money (close_position money now symbol (pos n) price cost tax p).0
  unfolding close_position
  close_position-IsValid now n symbol price cost tax p valid some_units =
      elim (Option-cases (lookup symbol p.positions)) [
        | inl e ↦ rw (e, close_position) valid
        | inr (position, e) ↦ elim (Bool-cases (ltb_ℤ position.quantity (pos n))) [
          | inl small ↦ rw (e, close_position, small) valid
          | inr enough ↦
              let (p', consumed, same, sums, less, valid') =
                close_position-sells now n symbol price cost tax p position valid some_units e
                  (ground (arith, enough)) in
              rw same valid'
        ]
      ]
