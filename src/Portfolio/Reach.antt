-- ===== src/Portfolio/Reach.antt =====
-- Every portfolio that trades of positive quantities reach is valid.
use nexus_trade_engine.Prelude.{
  ℕ, ◌≤◌, String, ◌≡◌, some, [], ◌∷◌, All, Bool-cases, Option-cases, inl, inr, ◌==◌, string_eq,
  Dict, lookup, insert, lookup-insert, subst,
}
use nexus_trade_engine.Prelude.Int.{ℤ, pos, ◌<ℤ◌}
use nexus_trade_engine.Portfolio.{Money, TaxMethod, Position, Portfolio}
use nexus_trade_engine.Portfolio.Lots.{held, IsOther}
use nexus_trade_engine.Portfolio.Trades.{
  lots_of, open_position, close_position, reprice, update_prices, set_tax_method,
}
use nexus_trade_engine.Portfolio.Invariant.{IsValid, IsOpen, units, open_position_lem}
use nexus_trade_engine.Portfolio.Sale.{close_position-IsValid}

module _ (money : Money) where
  open money use {Float}

  -- A position with another price.
  repriced-IsValid :
      (p : Portfolio money) (symbol : String) (position : Position money) (price : Float)
      → IsValid money p
      → lookup symbol p.positions ≡ some position
      → IsValid money (record p {
        positions = insert symbol (record position { current_price = price }) p.positions;
      })
  repriced-IsValid p symbol position price valid e =
      let position' : Position money = record position { current_price = price } in
      let backed =
        subst (λ o. units money o ≡ pos (held money (lots_of money symbol p.tax_lots))) e
          (valid.backed symbol) in
      let opened = subst (IsOpen money) e (valid.opened symbol) in
      record {
        distinct = valid.distinct;
        long = valid.long;
        backed = λ s.
            rw (lookup-insert symbol s position' p.positions) (elim (Bool-cases (symbol == s)) [
              | inl hit ↦ rw hit (
                  subst (λ t. position.quantity ≡ pos (held money (lots_of money t p.tax_lots)))
                    ((string_eq.same_iff symbol s).0 hit) backed)
              | inr miss ↦ rw miss (valid.backed s)
            ]);
        opened = λ s.
            rw (lookup-insert symbol s position' p.positions) (elim (Bool-cases (symbol == s)) [
              | inl hit ↦ rw hit opened
              | inr miss ↦ rw miss (valid.opened s)
            ]);
        sales = valid.sales;
      }

  reprice-IsValid :
      (symbol : String) (price : Float) (p : Portfolio money)
      → IsValid money p
      → IsValid money (reprice money symbol price p)
  unfolding reprice
  reprice-IsValid symbol price p valid = elim (Option-cases (lookup symbol p.positions)) [
    | inl e ↦ rw (e, reprice) valid
    | inr (position, e) ↦ rw (e, reprice) (repriced-IsValid p symbol position price valid e)
  ]

  update_prices-IsValid :
      (prices : Dict String Float) (p : Portfolio money)
      → IsValid money p
      → IsValid money (update_prices money prices p)
  unfolding update_prices
  update_prices-IsValid [] p valid = valid
  update_prices-IsValid ((symbol, price) ∷ prices) p valid =
      update_prices-IsValid prices (reprice money symbol price p)
        (reprice-IsValid symbol price p valid)

  -- A method's call and what it leaves; trades are of a positive quantity, and the identifier that
  -- uuid4 draws is that of no lot of the symbol.
  pub data Step (p : Portfolio money) : Portfolio money → Type 0 where
    buys :
        (now : ℕ) (lot_id symbol : String) (quantity : ℤ) (price cost : Float)
        → pos 0 <ℤ quantity
        → All (IsOther money lot_id) (lots_of money symbol p.tax_lots)
        → Step p (open_position money now lot_id symbol quantity price cost p).0
    sells :
        (now n : ℕ) (symbol : String) (price cost tax : Float)
        → 1 ≤ n
        → Step p (close_position money now symbol (pos n) price cost tax p).0
    prices : (quotes : Dict String Float) → Step p (update_prices money quotes p)
    sets_method : (method : TaxMethod) → Step p (set_tax_method money method p)

  pub data Reaches (p : Portfolio money) : Portfolio money → Type 0 where
    stays : Reaches p p
    next : (q r : Portfolio money) → Reaches p q → Step q r → Reaches p r

  Step-IsValid : (p q : Portfolio money) → IsValid money p → Step p q → IsValid money q
  unfolding set_tax_method
  Step-IsValid p _ valid (buys now lot_id symbol quantity price cost positive fresh) =
      (open_position_lem money now lot_id symbol quantity price cost p valid positive fresh).0
  Step-IsValid p _ valid (sells now n symbol price cost tax some_units) =
      close_position-IsValid money now n symbol price cost tax p valid some_units
  Step-IsValid p _ valid (prices quotes) = update_prices-IsValid quotes p valid
  Step-IsValid p _ valid (sets_method method) = record {
    distinct = valid.distinct;
    long = valid.long;
    backed = valid.backed;
    opened = valid.opened;
    sales = valid.sales;
  }

  -- Trades of positive quantities, new prices and changes of the method keep a portfolio valid,
  -- also when a trade raises.
  pub Reaches-IsValid : (p q : Portfolio money) → IsValid money p → Reaches p q → IsValid money q
  Reaches-IsValid p _ valid stays = valid
  Reaches-IsValid p _ valid (next q r before step) =
      Step-IsValid q r (Reaches-IsValid p q valid before) step
