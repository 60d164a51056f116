-- ===== src/Portfolio/Oldest.antt =====
-- By the method FIFO a sale takes the oldest lots.
use nexus_trade_engine.Prelude.{
  ℕ, ◌≤◌, String, ◌≡◌, ◌≢◌, refl, sym, subst, ap, true, false, List, [], ◌∷◌, ◌++◌, arith, ◌==◌,
  ==_refl, ==_ne, string_eq, All, All-implies, All-both, All-In, All-In_lem, In, Bool-cases, inl,
  inr,
}
use nexus_trade_engine.Prelude.Int.{ℤ, pos, ◌-ℤ◌, ◌<ℤ◌, leb_ℤ, ltb_ℤ}
use nexus_trade_engine.Portfolio.{
  Money, fifo, TaxLot, ConsumedLot, Consumption, min_ℤ, part_of, older, insert_lot, sort_lots,
  take_from, consume_lot, consume_sorted, consume_lots, sale_order,
}
use nexus_trade_engine.Portfolio.Lots.{IsLong, IsOther, Distinct, All-take_from}
use nexus_trade_engine.Portfolio.Order.{All-insert_lot, sale_order_lem}
use nexus_trade_engine.Portfolio.Consume.{IsReady, consume_lot-Moves}

gone_self : (q : ℤ) → leb_ℤ (q -ℤ q) (pos 0) ≡ true
unfolding ◌-ℤ◌
gone_self q = ground arith

-- A round that leaves something to find takes the whole lot.
whole_lot : (a b : ℤ) → ltb_ℤ (pos 0) (a -ℤ min_ℤ a b) ≡ true → min_ℤ a b ≡ b
unfolding ◌-ℤ◌
whole_lot a b h = ground arith

module _ (money : Money) where
  -- The lot was bought at this date or later.
  abbrev Since : ℕ → TaxLot money → Type 0
  Since date lot = date ≤ lot.purchase_date

  abbrev Ascending : List (TaxLot money) → Type 0
  Ascending [] = Unit
  Ascending (lot ∷ lots) = All (Since lot.purchase_date) lots × Ascending lots

  insert_lot-Ascending :
      (x : TaxLot money) (xs : List (TaxLot money))
      → Ascending xs
      → Ascending (insert_lot money (older money) x xs)
  unfolding insert_lot
  insert_lot-Ascending x [] h = (tt, tt)
  insert_lot-Ascending x (y ∷ ys) h = elim (Bool-cases (older money x y)) [
    | inl e ↦
        let first : x.purchase_date ≤ y.purchase_date = ground (arith, e) in
        let rest : All (Since x.purchase_date) ys =
          All-implies (Since y.purchase_date) (Since x.purchase_date) ys
            (λ z p. omega (arith, first, p)) h.0 in
        let all : All (Since x.purchase_date) (y ∷ ys) = (first, rest) in rw e (all, h)
    | inr e ↦
        let later : y.purchase_date ≤ x.purchase_date = ground (arith, e) in
        rw e (
          All-insert_lot money (older money) (Since y.purchase_date) x ys later h.0,
          insert_lot-Ascending x ys h.1,
        )
  ]

  sort_lots-Ascending : (xs : List (TaxLot money)) → Ascending (sort_lots money (older money) xs)
  unfolding sort_lots
  sort_lots-Ascending [] = tt
  sort_lots-Ascending (x ∷ xs) =
      insert_lot-Ascending x (sort_lots money (older money) xs) (sort_lots-Ascending xs)

  insert_lot-In :
      (x : TaxLot money) (xs : List (TaxLot money)) (y : TaxLot money)
      → In (x ∷ xs) y
      → In (insert_lot money (older money) x xs) y
  unfolding insert_lot
  insert_lot-In x [] y h = h
  insert_lot-In x (z ∷ zs) y h = elim (Bool-cases (older money x z)) [
    | inl e ↦ rw e h
    | inr e ↦ rw e (elim h [
      | inl here ↦ inr (insert_lot-In x zs y (inl here))
      | inr (inl first) ↦ inl first
      | inr (inr later) ↦ inr (insert_lot-In x zs y (inr later))
    ])
  ]

  sort_lots-In :
      (xs : List (TaxLot money)) (y : TaxLot money)
      → In xs y
      → In (sort_lots money (older money) xs) y
  unfolding sort_lots
  sort_lots-In [] y h = h
  sort_lots-In (x ∷ xs) y (inl e) = insert_lot-In x (sort_lots money (older money) xs) y (inl e)
  sort_lots-In (x ∷ xs) y (inr h) =
      insert_lot-In x (sort_lots money (older money) xs) y (inr (sort_lots-In xs y h))

  -- No part that was taken is of a later date than a lot that is left.
  abbrev pub IsOldestFirst : List (ConsumedLot money) → List (TaxLot money) → Type 0
  IsOldestFirst [] lots = Unit
  IsOldestFirst (part ∷ parts) lots = All (Since part.purchase_date) lots × IsOldestFirst parts lots

  IsOldestFirst-take_from :
      (id : String) (quantity : ℤ) (parts : List (ConsumedLot money)) (lots : List (TaxLot money))
      → IsOldestFirst parts lots
      → IsOldestFirst parts (take_from money id quantity lots)
  IsOldestFirst-take_from id quantity [] lots h = tt
  IsOldestFirst-take_from id quantity (part ∷ parts) lots h = (
    All-take_from money (Since part.purchase_date) id quantity lots (λ lot p. p) h.0,
    IsOldestFirst-take_from id quantity parts lots h.1,
  )

  IsOldestFirst-append :
      (parts : List (ConsumedLot money)) (part : ConsumedLot money) (lots : List (TaxLot money))
      → IsOldestFirst parts lots
      → All (Since part.purchase_date) lots
      → IsOldestFirst (parts ++ part ∷ []) lots
  IsOldestFirst-append [] part lots h last = (last, tt)
  IsOldestFirst-append (p ∷ parts) part lots h last =
      (h.0, IsOldestFirst-append parts part lots h.1 last)

  -- Of the lots in an ascending order all are as late as the first.
  first_date :
      (lot : TaxLot money) (sorted lots : List (TaxLot money))
      → Ascending (lot ∷ sorted)
      → All (In (lot ∷ sorted)) lots
      → All (Since lot.purchase_date) lots
  first_date lot sorted lots asc among =
      let all : All (Since lot.purchase_date) (lot ∷ sorted) = (omega arith, asc.0) in
      All-implies (In (lot ∷ sorted)) (Since lot.purchase_date) lots
        (λ x. All-In_lem (Since lot.purchase_date) (lot ∷ sorted) x all) among

  not_first :
      (x y : TaxLot money) (sorted : List (TaxLot money))
      → IsOther money x.lot_id y
      → In (x ∷ sorted) y
      → In sorted y
  not_first x y sorted other (inl e) = absurd (other (ap (λ (z : TaxLot money). z.lot_id) (sym e)))
  not_first x y sorted other (inr h) = h

  -- A lot that is taken as a whole is gone.
  take_from-gone :
      (x : TaxLot money) (sorted lots : List (TaxLot money))
      → Distinct money lots
      → In lots x
      → All (In (x ∷ sorted)) lots
      → All (In sorted) (take_from money x.lot_id x.quantity lots)
  unfolding take_from
  take_from-gone x sorted [] d h among = absurd h
  take_from-gone x sorted (lot ∷ lots) d (inl here) among =
      let hit : (lot.lot_id == x.lot_id) ≡ true =
        subst (λ (y : TaxLot money). (lot.lot_id == y.lot_id) ≡ true) here (==_refl lot.lot_id) in
      let gone : leb_ℤ (lot.quantity -ℤ x.quantity) (pos 0) ≡ true =
        subst (λ (y : TaxLot money). leb_ℤ (lot.quantity -ℤ y.quantity) (pos 0) ≡ true) here
          (gone_self lot.quantity) in
      let others : All (IsOther money x.lot_id) lots =
        subst (λ (y : TaxLot money). All (IsOther money y.lot_id) lots) here d.0 in
      rw (hit, gone)
        (All-implies (λ y. IsOther money x.lot_id y × In (x ∷ sorted) y) (In sorted) lots
          (λ y h. not_first x y sorted h.0 h.1)
          (All-both (IsOther money x.lot_id) (In (x ∷ sorted)) lots others among.1))
  take_from-gone x sorted (lot ∷ lots) d (inr h) among =
      let other : x.lot_id ≢ lot.lot_id = All-In_lem (IsOther money lot.lot_id) lots x d.0 h in
      let miss : (lot.lot_id == x.lot_id) ≡ false =
        ==_ne lot.lot_id x.lot_id (λ e. other (sym e)) in
      rw miss (
        not_first x lot sorted (λ e. other (sym e)) among.0,
        take_from-gone x sorted lots d.1 h among.1,
      )

  consume_sorted-stop :
      (sell_date : ℕ) (sorted : List (TaxLot money)) (c : Consumption money)
      → ltb_ℤ (pos 0) c.remaining ≡ false
      → consume_sorted money sell_date sorted c ≡ c
  unfolding consume_sorted
  consume_sorted-stop sell_date [] c done = refl
  consume_sorted-stop sell_date (lot ∷ sorted) c done = rw done refl

  consume_sorted-IsOldestFirst :
      (sell_date : ℕ) (sorted : List (TaxLot money)) (c : Consumption money)
      → IsReady money sorted c
      → Ascending sorted
      → All (In sorted) c.lots
      → IsOldestFirst c.consumed c.lots
      → let c' = consume_sorted money sell_date sorted c in IsOldestFirst c'.consumed c'.lots
  unfolding consume_sorted consume_lot
  consume_sorted-IsOldestFirst sell_date [] c ready asc among first = first
  consume_sorted-IsOldestFirst sell_date (lot ∷ sorted) c ready asc among first =
      let quantity = min_ℤ c.remaining lot.quantity in
      let part = part_of money sell_date quantity lot in
      let next : Consumption money = consume_lot money sell_date lot c in
      elim (Bool-cases (ltb_ℤ (pos 0) c.remaining)) [
        | inr none_left ↦ rw none_left first
        | inl more ↦
            let positive : pos 0 <ℤ c.remaining = ground (arith, more) in
            let (moves, ready', left) =
              consume_lot-Moves money sell_date lot sorted c ready positive in
            let dated : All (Since part.purchase_date) next.lots =
              All-take_from money (Since lot.purchase_date) lot.lot_id quantity c.lots (λ x p. p)
                (first_date lot sorted c.lots asc among) in
            let first' : IsOldestFirst next.consumed next.lots =
              IsOldestFirst-append c.consumed part next.lots
                (IsOldestFirst-take_from lot.lot_id quantity c.consumed c.lots first) dated in
            elim (Bool-cases (ltb_ℤ (pos 0) next.remaining)) [
              | inr done ↦ rw (more, consume_sorted-stop sell_date sorted next done) first'
              | inl again ↦
                  let whole : quantity ≡ lot.quantity = whole_lot c.remaining lot.quantity again in
                  let among' : All (In sorted) next.lots =
                    subst (λ q. All (In sorted) (take_from money lot.lot_id q c.lots)) (sym whole)
                      (take_from-gone lot sorted c.lots ready.distinct ready.present.0 among) in
                  rw more
                    (consume_sorted-IsOldestFirst sell_date sorted next ready' asc.1 among' first')
            ]
      ]

  -- By FIFO every part that a sale takes was bought no later than any lot that is left.
  pub consume_lots-IsOldestFirst :
      (sell_date : ℕ) (quantity : ℤ) (lots : List (TaxLot money))
      → Distinct money lots
      → All (IsLong money) lots
      → let c = consume_lots money fifo sell_date quantity lots in IsOldestFirst c.consumed c.lots
  unfolding consume_lots sale_order
  consume_lots-IsOldestFirst sell_date quantity lots distinct long =
      let (same, among, once) = sale_order_lem money fifo lots distinct in
      let start : Consumption money = record {
        remaining = quantity;
        consumed = [];
        total_cost_basis = money.zero;
        lots = lots;
      } in
      consume_sorted-IsOldestFirst sell_date (sort_lots money (older money) lots) start
        (record { distinct = distinct; long = long; present = among; once = once })
        (sort_lots-Ascending lots)
        (All-implies (In lots) (In (sort_lots money (older money) lots)) lots
          (λ x. sort_lots-In lots x) (All-In lots))
        tt
