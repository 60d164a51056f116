-- ===== src/Portfolio/Order.antt =====
-- The order of a sale is a rearrangement of the lots, oldest or newest first.
use nexus_trade_engine.Prelude.{
  ◌+◌, ◌≡◌, refl, sym, Bool, List, [], ◌∷◌, arith, All, In, All-In, Bool-cases, inl, inr,
}
use nexus_trade_engine.Prelude.Int.{pos_part}
use nexus_trade_engine.Portfolio.{
  Money, TaxMethod, fifo, lifo, specific_lot, TaxLot, insert_lot, sort_lots, sale_order, older,
  newer,
}
use nexus_trade_engine.Portfolio.Lots.{held, IsOther, Distinct}

module _ (money : Money) where
  module _ (before : TaxLot money → TaxLot money → Bool) where
    held-insert_lot :
        (x : TaxLot money) (xs : List (TaxLot money))
        → held money (insert_lot money before x xs) ≡ pos_part x.quantity + held money xs
    unfolding insert_lot
    held-insert_lot x [] = refl
    held-insert_lot x (y ∷ ys) = ground (arith, held-insert_lot x ys)

    pub All-insert_lot :
        (P : TaxLot money → Type 0) (x : TaxLot money) (xs : List (TaxLot money))
        → P x
        → All P xs
        → All P (insert_lot money before x xs)
    unfolding insert_lot
    All-insert_lot P x [] p h = (p, h)
    All-insert_lot P x (y ∷ ys) p h = elim (Bool-cases (before x y)) [
      | inl e ↦ rw e (p, h)
      | inr e ↦ rw e (h.0, All-insert_lot P x ys p h.1)
    ]

    insert_lot-Distinct :
        (x : TaxLot money) (xs : List (TaxLot money))
        → All (IsOther money x.lot_id) xs
        → Distinct money xs
        → Distinct money (insert_lot money before x xs)
    unfolding insert_lot
    insert_lot-Distinct x [] other d = (tt, tt)
    insert_lot-Distinct x (y ∷ ys) other d = elim (Bool-cases (before x y)) [
      | inl e ↦ rw e (other, d)
      | inr e ↦ rw e (
        All-insert_lot (IsOther money y.lot_id) x ys (λ same. other.0 (sym same)) d.0,
        insert_lot-Distinct x ys other.1 d.1,
      )
    ]

    held-sort_lots :
        (xs : List (TaxLot money)) → held money (sort_lots money before xs) ≡ held money xs
    unfolding sort_lots
    held-sort_lots [] = refl
    held-sort_lots (x ∷ xs) =
        omega (arith, held-insert_lot x (sort_lots money before xs), held-sort_lots xs)

    All-sort_lots :
        (P : TaxLot money → Type 0) (xs : List (TaxLot money))
        → All P xs
        → All P (sort_lots money before xs)
    unfolding sort_lots
    All-sort_lots P [] h = tt
    All-sort_lots P (x ∷ xs) h =
        All-insert_lot P x (sort_lots money before xs) h.0 (All-sort_lots P xs h.1)

    sort_lots-Distinct :
        (xs : List (TaxLot money)) → Distinct money xs → Distinct money (sort_lots money before xs)
    unfolding sort_lots
    sort_lots-Distinct [] d = tt
    sort_lots-Distinct (x ∷ xs) d =
        insert_lot-Distinct x (sort_lots money before xs)
          (All-sort_lots (IsOther money x.lot_id) xs d.0) (sort_lots-Distinct xs d.1)

  -- The order of a sale holds what the lots hold, each lot once.
  pub sale_order_lem :
      (method : TaxMethod) (lots : List (TaxLot money))
      → Distinct money lots
      → (held money (sale_order money method lots) ≡ held money lots)
        × All (In lots) (sale_order money method lots)
        × Distinct money (sale_order money method lots)
  unfolding sale_order
  sale_order_lem fifo lots d = (
    held-sort_lots (older money) lots,
    All-sort_lots (older money) (In lots) lots (All-In lots),
    sort_lots-Distinct (older money) lots d,
  )
  sale_order_lem lifo lots d = (
    held-sort_lots (newer money) lots,
    All-sort_lots (newer money) (In lots) lots (All-In lots),
    sort_lots-Distinct (newer money) lots d,
  )
  sale_order_lem specific_lot lots d = (refl, All-In lots, d)
