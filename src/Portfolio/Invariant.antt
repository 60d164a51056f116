-- ===== src/Portfolio/Invariant.antt =====
-- A portfolio in which the positions are what the lots hold, and the methods that keep it so.
use nexus_trade_engine.Prelude.{
  ℕ, ◌+◌, String, ◌≡◌, refl, sym, subst, ap, ◌∙◌, Option, none, some, true, false, List, [], ◌∷◌,
  ◌++◌, arith, All, All-append, Bool-cases, Option-cases, inl, inr, if◌then◌else◌, ◌==◌, string_eq,
  lookup, insert, lookup-insert, ok, err,
}
use nexus_trade_engine.Prelude.Int.{ℤ, pos, pos_part, ◌+ℤ◌, ◌<ℤ◌, beq_ℤ}
use nexus_trade_engine.Portfolio.{Money, TaxLot, Position, SellRecord, Portfolio, insufficient_cash}
use nexus_trade_engine.Portfolio.Lots.{held, held-append, IsLong, IsOther, Distinct}
use nexus_trade_engine.Portfolio.Trades.{
  lots_of, total_adjustment, adjusted_price, lot_price, paid, settle_buy, enlarged, open_position,
  trade_date, is_washed, new_lot, booked, bought, new_position,
}

sum_positive :
    (b q : ℤ) (h : ℕ) → b ≡ pos h → pos 0 <ℤ q → (b +ℤ q ≡ pos (h + pos_part q)) × (pos 0 <ℤ b +ℤ q)
unfolding ◌+ℤ◌
sum_positive b q h e positive = (ground arith, ground arith)

from_zero : (q : ℤ) → pos 0 <ℤ q → q ≡ pos 0 +ℤ q
unfolding ◌+ℤ◌
from_zero q positive = ground arith

sum_nonzero : (a b : ℤ) → pos 0 <ℤ a → pos 0 <ℤ b → beq_ℤ (a +ℤ b) (pos 0) ≡ false
unfolding ◌+ℤ◌
sum_nonzero a b ha hb = ground arith

module _ (money : Money) where
  open money use {Float, of_int, zero, add, sub, mul, div, neg, lt, le}

  -- The quantity of the position in a symbol, none being zero.
  abbrev pub units : Option (Position money) → ℤ
  units none = pos 0
  units (some position) = position.quantity

  abbrev pub IsSale : SellRecord money → Type 0
  IsSale sale = pos 0 <ℤ sale.quantity

  abbrev pub IsOpen : Option (Position money) → Type 0
  IsOpen none = Unit
  IsOpen (some position) = pos 0 <ℤ position.quantity

  -- Of every symbol the lots are distinct and not empty, and hold what the position says; positions
  -- and past sales are of a positive quantity.
  pub record IsValid (p : Portfolio money) : Type 0 where
    pub distinct : (s : String) → Distinct money (lots_of money s p.tax_lots)
    pub long : (s : String) → All (IsLong money) (lots_of money s p.tax_lots)
    pub backed :
        (s : String) → units (lookup s p.positions) ≡ pos (held money (lots_of money s p.tax_lots))
    pub opened : (s : String) → IsOpen (lookup s p.positions)
    pub sales : All IsSale p.sell_history

  -- The loss that a buy inherits never divides by zero.
  total_adjustment_lem :
      (window purchase_date : ℕ) (symbol : String) (quantity : ℤ) (sales : List (SellRecord money))
      (total : Float)
      → All IsSale sales
      → (adjustment : Float) × (total_adjustment money window purchase_date symbol quantity sales
            total
          ≡ ok adjustment)
  unfolding total_adjustment
  total_adjustment_lem window purchase_date symbol quantity [] total h = (total, refl)
  total_adjustment_lem window purchase_date symbol quantity (sale ∷ sales) total h =
      let positive : beq_ℤ sale.quantity (pos 0) ≡ false = ground (arith, h.0) in
      elim (Bool-cases (is_washed money window purchase_date symbol sale)) [
        | inl washed ↦
            rw (washed, positive)
              (total_adjustment_lem window purchase_date symbol quantity sales _ h.1)
        | inr other ↦
            rw other (total_adjustment_lem window purchase_date symbol quantity sales total h.1)
      ]

  adjusted_price_lem :
      (quantity : ℤ) (price adjustment : Float)
      → pos 0 <ℤ quantity
      → (adjusted : Float) × (adjusted_price money quantity price adjustment ≡ ok adjusted)
  unfolding adjusted_price
  adjusted_price_lem quantity price adjustment q =
      let positive : beq_ℤ quantity (pos 0) ≡ false = ground (arith, q) in
      elim (Bool-cases (lt zero adjustment)) [
        | inl more ↦ (add price (div adjustment (of_int quantity)), rw (more, positive) refl)
        | inr no_more ↦ (price, rw no_more refl)
      ]

  -- The price of a new lot is a number.
  lot_price_lem :
      (now : ℕ) (symbol : String) (quantity : ℤ) (price : Float) (p : Portfolio money)
      → IsValid p
      → pos 0 <ℤ quantity
      → (adjusted : Float) × (lot_price money now symbol quantity price p ≡ ok adjusted)
  unfolding lot_price
  lot_price_lem now symbol quantity price p valid q =
      let (adjustment, e) =
        total_adjustment_lem p.wash_sale_window_days (trade_date money now p) symbol quantity
          p.sell_history zero valid.sales in
      let (adjusted, e') = adjusted_price_lem quantity price adjustment q in
      (adjusted, rw (e, lot_price) e')

  append-Distinct :
      (lots : List (TaxLot money)) (lot : TaxLot money)
      → Distinct money lots
      → All (IsOther money lot.lot_id) lots
      → Distinct money (lots ++ lot ∷ [])
  append-Distinct [] lot d fresh = (tt, tt)
  append-Distinct (x ∷ lots) lot d fresh = (
    All-append (IsOther money x.lot_id) lots (lot ∷ []) d.0 ((λ e. fresh.0 (sym e)), tt),
    append-Distinct lots lot d.1 fresh.1,
  )

  -- A quantity that grows by a positive one.
  grown_units :
      (a b : ℤ) (lots : List (TaxLot money)) (lot : TaxLot money)
      → IsLong money lot
      → b ≡ pos (held money lots)
      → a ≡ b +ℤ lot.quantity
      → (a ≡ pos (held money (lots ++ lot ∷ []))) × (pos 0 <ℤ a)
  grown_units a b lots lot positive backed sum =
      let (same, more) = sum_positive b lot.quantity (held money lots) backed positive in
      let total : held money lots + pos_part lot.quantity ≡ held money (lots ++ lot ∷ []) =
        omega (arith, held-append money lots (lot ∷ [])) in
      (sum ∙ same ∙ ap pos total, subst (λ x. pos 0 <ℤ x) (sym sum) more)

  -- A lot and a position that grows by it.
  grown-IsValid :
      (p p' : Portfolio money) (lot : TaxLot money) (position : Position money)
      → IsValid p
      → IsLong money lot
      → All (IsOther money lot.lot_id) (lots_of money lot.symbol p.tax_lots)
      → p'.tax_lots ≡ insert lot.symbol (lots_of money lot.symbol p.tax_lots ++ lot ∷ []) p.tax_lots
      → p'.positions ≡ insert lot.symbol position p.positions
      → position.quantity ≡ units (lookup lot.symbol p.positions) +ℤ lot.quantity
      → p'.sell_history ≡ p.sell_history
      → IsValid p'
  grown-IsValid p p' lot position valid positive fresh lots positions quantity sales =
      let held_lots : List (TaxLot money) = lots_of money lot.symbol p.tax_lots in
      let (units_held, more) =
        grown_units position.quantity (units (lookup lot.symbol p.positions)) held_lots lot positive
          (valid.backed lot.symbol) quantity in
      record {
        distinct = λ s.
            rw (lots, lookup-insert lot.symbol s)
              (elim (Bool-cases (lot.symbol == s)) [
                | inl e ↦ rw e (append-Distinct held_lots lot (valid.distinct lot.symbol) fresh)
                | inr e ↦ rw e (valid.distinct s)
              ]);
        long = λ s.
            rw (lots, lookup-insert lot.symbol s)
              (elim (Bool-cases (lot.symbol == s)) [
                | inl e ↦ rw e (
                    All-append (IsLong money) held_lots (lot ∷ []) (valid.long lot.symbol)
                      (positive, tt))
                | inr e ↦ rw e (valid.long s)
              ]);
        backed = λ s.
            rw
              (
                lots,
                positions,
                lookup-insert lot.symbol s position p.positions,
                lookup-insert lot.symbol s (held_lots ++ lot ∷ []) p.tax_lots,
              )
              (elim (Bool-cases (lot.symbol == s)) [
                | inl e ↦ rw e units_held
                | inr e ↦ rw e (valid.backed s)
              ]);
        opened = λ s.
            rw (positions, lookup-insert lot.symbol s)
              (elim (Bool-cases (lot.symbol == s)) [
                | inl e ↦ rw e more
                | inr e ↦ rw e (valid.opened s)
              ]);
        sales = rw sales valid.sales;
      }

  -- The end of a buy, in a valid portfolio that has paid for the lot.
  settle_buy_lem :
      (now : ℕ) (lot_id symbol : String) (quantity : ℤ) (price cost total_cost adjusted : Float)
      (p : Portfolio money)
      → IsValid p
      → pos 0 <ℤ quantity
      → All (IsOther money lot_id) (lots_of money symbol p.tax_lots)
      → (p' : Portfolio money) × (settle_buy money now lot_id symbol quantity price cost adjusted
            (paid money now lot_id symbol quantity total_cost adjusted p)
          ≡ (p', ok lot_id))
        × IsValid p'
  unfolding settle_buy paid enlarged
  settle_buy_lem now lot_id symbol quantity price cost total_cost adjusted p valid positive fresh =
      let p1 : Portfolio money = paid money now lot_id symbol quantity total_cost adjusted p in
      let lot : TaxLot money =
        new_lot money (trade_date money now p) lot_id symbol quantity adjusted in
      let trade = bought money (trade_date money now p1) lot_id symbol quantity price cost in
      elim (Option-cases (lookup symbol p.positions)) [
        | inl e ↦
            let position : Position money = new_position money symbol quantity adjusted in
            let sum : quantity ≡ units (lookup symbol p.positions) +ℤ quantity =
              rw e (from_zero quantity positive) in
            let p' : Portfolio money = booked money symbol position trade p1 in
            (
              p',
              rw (e, settle_buy, paid) refl,
              grown-IsValid p p' lot position valid positive fresh refl refl sum refl,
            )
        | inr (existing, e) ↦
            let position : Position money = enlarged money quantity adjusted existing in
            let sum : existing.quantity +ℤ quantity
                ≡ units (lookup symbol p.positions) +ℤ quantity =
              rw e refl in
            let open_before : pos 0 <ℤ existing.quantity = subst IsOpen e (valid.opened symbol) in
            let nonzero : beq_ℤ (existing.quantity +ℤ quantity) (pos 0) ≡ false =
              sum_nonzero existing.quantity quantity open_before positive in
            let p' : Portfolio money = booked money symbol position trade p1 in
            (
              p',
              rw (e, settle_buy, paid, nonzero) refl,
              grown-IsValid p p' lot position valid positive fresh refl refl sum refl,
            )
      ]

  -- Buying a positive quantity in a valid portfolio raises nothing but insufficient cash, and then
  -- changes nothing; it leaves the portfolio valid.
  pub open_position_lem :
      (now : ℕ) (lot_id symbol : String) (quantity : ℤ) (price cost : Float) (p : Portfolio money)
      → IsValid p
      → pos 0 <ℤ quantity
      → All (IsOther money lot_id) (lots_of money symbol p.tax_lots)
      → let too_much = lt p.cash (add (mul (of_int quantity) price) cost) in
        let (p', outcome) = open_position money now lot_id symbol quantity price cost p in
        IsValid p'
        × (outcome ≡ (if too_much then err insufficient_cash else ok lot_id))
        × (too_much ≡ true → p' ≡ p)
  unfolding open_position
  open_position_lem now lot_id symbol quantity price cost p valid positive fresh =
      let total_cost = add (mul (of_int quantity) price) cost in
      elim (Bool-cases (lt p.cash total_cost)) [
        | inl e ↦ rw e (valid, refl, λ h. refl)
        | inr e ↦
            let (adjusted, quoted) = lot_price_lem now symbol quantity price p valid positive in
            let (p', settled, valid') =
              settle_buy_lem now lot_id symbol quantity price cost total_cost adjusted p valid
                positive fresh in
            rw (e, quoted, settled) (valid', refl, λ h. cc)
      ]
