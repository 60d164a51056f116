-- ===== src/Portfolio/Consume.antt =====
-- The loop of `_consume_lots`: nothing is lost, and what is asked for is found where it is held.
use nexus_trade_engine.Prelude.{
  ℕ, ◌+◌, ◌-◌, ◌≤◌, ◌≡◌, refl, List, [], ◌∷◌, ◌++◌, arith, string_eq, All, All-implies, In,
  Bool-cases, inl, inr, All-In_lem, All-both,
}
use nexus_trade_engine.Prelude.Int.{ℤ, pos, pos_part, neg_part, ◌-ℤ◌, ◌<ℤ◌, ltb_ℤ, eq_of_parts}
use nexus_trade_engine.Portfolio.{
  Money, TaxLot, ConsumedLot, Consumption, min_ℤ, take_from, consume_lot, consume_sorted,
  consume_lots, sale_order, TaxMethod,
}
use nexus_trade_engine.Portfolio.Order.{sale_order_lem}
use nexus_trade_engine.Portfolio.Lots.{
  held, IsLong, IsOther, Distinct, take_from-Distinct, take_from-others, held-take_from,
}

-- The smaller of two positive integers is a number of units.
min_ℤ-pos :
    (a b : ℤ)
    → pos 0 <ℤ a
    → pos 0 <ℤ b
    → (n : ℕ) × (min_ℤ a b ≡ pos n)
      × (n ≤ pos_part b)
      × (a -ℤ pos n ≡ pos (pos_part a - pos_part b))
      × (pos_part a ≡ n + (pos_part a - pos_part b))
unfolding ◌-ℤ◌
min_ℤ-pos a b ha hb = elim (Bool-cases (ltb_ℤ b a)) [
  | inl e ↦ (pos_part b, ground (arith, e), ground (arith, e), ground (arith, e), ground (arith, e))
  | inr e ↦ (pos_part a, ground (arith, e), ground (arith, e), ground (arith, e), ground (arith, e))
]

module _ (money : Money) where
  -- How much the parts of a sale add up to.
  abbrev pub taken : List (ConsumedLot money) → ℕ
  taken [] = 0
  taken (part ∷ parts) = pos_part part.quantity + taken parts

  taken-append : (xs ys : List (ConsumedLot money)) → taken (xs ++ ys) ≡ taken xs + taken ys
  taken-append [] ys = omega arith
  taken-append (x ∷ xs) ys = omega (arith, taken-append xs ys)

  -- Between rounds: the lots to come are there, each once and not empty.
  pub record IsReady (sorted : List (TaxLot money)) (c : Consumption money) : Type 0 where
    pub distinct : Distinct money c.lots
    pub long : All (IsLong money) c.lots
    pub present : All (In c.lots) sorted
    pub once : Distinct money sorted

  -- What a round or the loop does: what it takes from the lots it hands out, until it has enough.
  pub record Moves (c c' : Consumption money) : Type 0 where
    pub lots_less :
        held money c'.lots + pos_part c.remaining ≡ held money c.lots + pos_part c'.remaining
    pub parts_more :
        taken c'.consumed + pos_part c'.remaining ≡ taken c.consumed + pos_part c.remaining
    pub distinct : Distinct money c'.lots
    pub long : All (IsLong money) c'.lots
    pub remains : neg_part c'.remaining ≡ 0

  pub consume_lot-Moves :
      (sell_date : ℕ) (lot : TaxLot money) (sorted : List (TaxLot money)) (c : Consumption money)
      → IsReady (lot ∷ sorted) c
      → pos 0 <ℤ c.remaining
      → Moves c (consume_lot money sell_date lot c)
        × IsReady sorted (consume_lot money sell_date lot c)
        × (pos_part (consume_lot money sell_date lot c).remaining
            ≡ pos_part c.remaining - pos_part lot.quantity)
  unfolding consume_lot
  consume_lot-Moves sell_date lot sorted c ready more =
      let lot_long : IsLong money lot =
        All-In_lem (IsLong money) c.lots lot ready.long ready.present.0 in
      let (n, e, within, less, left) = min_ℤ-pos c.remaining lot.quantity more lot_long in
      let (sums, long) =
        held-take_from money lot n c.lots ready.distinct ready.long ready.present.0 within in
      let distinct = take_from-Distinct money lot.lot_id (pos n) c.lots ready.distinct in
      (
        record {
          lots_less = rw (e, less) (omega (arith, sums, left));
          parts_more = rw (e, less, taken-append) (omega (arith, left));
          distinct = rw e distinct;
          long = rw e long;
          remains = rw (e, less) refl;
        },
        record {
          distinct = rw e distinct;
          long = rw e long;
          present = rw e (
              All-implies (λ x. In c.lots x × IsOther money lot.lot_id x)
                (In (take_from money lot.lot_id (pos n) c.lots)) sorted
                (λ x h. take_from-others money lot.lot_id (pos n) x c.lots h.1 h.0)
                (All-both (In c.lots) (IsOther money lot.lot_id) sorted ready.present.1
                  ready.once.0));
          once = ready.once.1;
        },
        rw (e, less) refl,
      )

  Moves-refl :
      (c : Consumption money)
      → Distinct money c.lots
      → All (IsLong money) c.lots
      → neg_part c.remaining ≡ 0
      → Moves c c
  Moves-refl c distinct long sign = record {
    lots_less = refl;
    parts_more = refl;
    distinct = distinct;
    long = long;
    remains = sign;
  }

  Moves-trans : (a b c : Consumption money) → Moves a b → Moves b c → Moves a c
  Moves-trans a b c first second = record {
    lots_less = omega (arith, first.lots_less, second.lots_less);
    parts_more = omega (arith, first.parts_more, second.parts_more);
    distinct = second.distinct;
    long = second.long;
    remains = second.remains;
  }

  -- The loop takes from the lots what it hands out, and ends with nothing left to find when the
  -- lots to come hold enough.
  consume_sorted-Moves :
      (sell_date : ℕ) (sorted : List (TaxLot money)) (c : Consumption money)
      → IsReady sorted c
      → neg_part c.remaining ≡ 0
      → Moves c (consume_sorted money sell_date sorted c)
        × (pos_part c.remaining ≤ held money sorted
            → pos_part (consume_sorted money sell_date sorted c).remaining ≡ 0)
  unfolding consume_sorted
  consume_sorted-Moves sell_date [] c ready sign =
      (Moves-refl c ready.distinct ready.long sign, λ enough. omega (arith, enough))
  consume_sorted-Moves sell_date (lot ∷ sorted) c ready sign =
      elim (Bool-cases (ltb_ℤ (pos 0) c.remaining)) [
        | inl more ↦
            let next : Consumption money = consume_lot money sell_date lot c in
            let positive : pos 0 <ℤ c.remaining = ground (arith, more) in
            let (moves, ready', left) = consume_lot-Moves sell_date lot sorted c ready positive in
            let (rest, ends) = consume_sorted-Moves sell_date sorted next ready' moves.remains in
            rw more (
              Moves-trans c next (consume_sorted money sell_date sorted next) moves rest,
              λ enough. ends (omega (arith, left, enough)),
            )
        | inr none_left ↦
            rw none_left
              (Moves-refl c ready.distinct ready.long sign, λ enough. ground (arith, none_left))
      ]

  -- A sale of no more than the lots hold finds all of it; the lots hold that much less.
  pub consume_lots_lem :
      (method : TaxMethod) (sell_date n : ℕ) (lots : List (TaxLot money))
      → Distinct money lots
      → All (IsLong money) lots
      → n ≤ held money lots
      → let c = consume_lots money method sell_date (pos n) lots in
        (c.remaining ≡ pos 0)
        × (taken c.consumed ≡ n)
        × (held money c.lots + n ≡ held money lots)
        × Distinct money c.lots
        × All (IsLong money) c.lots
  unfolding consume_lots
  consume_lots_lem method sell_date n lots distinct long enough =
      let (same, among, once) = sale_order_lem money method lots distinct in
      let start : Consumption money = record {
        remaining = pos n;
        consumed = [];
        total_cost_basis = money.zero;
        lots = lots;
      } in
      let (moves, ends) =
        consume_sorted-Moves sell_date (sale_order money method lots) start
          (record { distinct = distinct; long = long; present = among; once = once }) refl in
      let done = ends (omega (arith, same, enough)) in
      (
        eq_of_parts _ _ (omega (arith, done, moves.remains)),
        omega (arith, done, moves.parts_more),
        omega (arith, done, moves.lots_less),
        moves.distinct,
        moves.long,
      )
