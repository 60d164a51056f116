-- ===== src/Portfolio/Lots.antt =====
-- The lots of a symbol: how much they hold, and what taking from one of them leaves.
use nexus_trade_engine.Prelude.{
  ℕ, ◌+◌, ◌≤◌, String, ◌≡◌, ◌≢◌, inl, inr, sym, subst, true, false, List, [], ◌∷◌, ◌++◌, arith,
  ◌==◌, ==_refl, ==_ne, string_eq, All, All-In_lem, In, Bool-cases,
}
use nexus_trade_engine.Prelude.Int.{ℤ, pos, pos_part, ◌-ℤ◌, ◌<ℤ◌, leb_ℤ, -ℤ_parts}
use nexus_trade_engine.Portfolio.{Money, TaxLot, take_from}

module _ (money : Money) where
  -- How many units the lots hold.
  abbrev pub held : List (TaxLot money) → ℕ
  held [] = 0
  held (lot ∷ lots) = pos_part lot.quantity + held lots

  abbrev pub IsLong : TaxLot money → Type 0
  IsLong lot = pos 0 <ℤ lot.quantity

  abbrev pub IsOther : String → TaxLot money → Type 0
  IsOther id lot = lot.lot_id ≢ id

  -- No two lots have one identifier.
  abbrev pub Distinct : List (TaxLot money) → Type 0
  Distinct [] = Unit
  Distinct (lot ∷ lots) = All (IsOther lot.lot_id) lots × Distinct lots

  pub held-append : (xs ys : List (TaxLot money)) → held (xs ++ ys) ≡ held xs + held ys
  held-append [] ys = omega arith
  held-append (x ∷ xs) ys = omega (arith, held-append xs ys)

  -- What holds of every lot by its identifier holds of those that are left.
  pub All-take_from :
      (P : TaxLot money → Type 0) (id : String) (quantity : ℤ) (lots : List (TaxLot money))
      → ((lot : TaxLot money) → P lot → P (record lot { quantity = lot.quantity -ℤ quantity }))
      → All P lots
      → All P (take_from money id quantity lots)
  unfolding take_from
  All-take_from P id quantity [] less h = tt
  All-take_from P id quantity (lot ∷ lots) less h = elim (Bool-cases (lot.lot_id == id)) [
    | inl hit ↦ elim (Bool-cases (leb_ℤ (lot.quantity -ℤ quantity) (pos 0))) [
      | inl gone ↦ rw (hit, gone) h.1
      | inr left ↦ rw (hit, left) (less lot h.0, h.1)
    ]
    | inr miss ↦ rw miss (h.0, All-take_from P id quantity lots less h.1)
  ]

  pub take_from-Distinct :
      (id : String) (quantity : ℤ) (lots : List (TaxLot money))
      → Distinct lots
      → Distinct (take_from money id quantity lots)
  unfolding take_from
  take_from-Distinct id quantity [] h = tt
  take_from-Distinct id quantity (lot ∷ lots) h = elim (Bool-cases (lot.lot_id == id)) [
    | inl hit ↦ elim (Bool-cases (leb_ℤ (lot.quantity -ℤ quantity) (pos 0))) [
      | inl gone ↦ rw (hit, gone) h.1
      | inr left ↦ rw (hit, left) h
    ]
    | inr miss ↦ rw miss (
      All-take_from (IsOther lot.lot_id) id quantity lots (λ x p. p) h.0,
      take_from-Distinct id quantity lots h.1,
    )
  ]

  -- The other lots are still there.
  pub take_from-others :
      (id : String) (quantity : ℤ) (x : TaxLot money) (lots : List (TaxLot money))
      → IsOther id x
      → In lots x
      → In (take_from money id quantity lots) x
  unfolding take_from
  take_from-others id quantity x [] other h = absurd h
  take_from-others id quantity x (lot ∷ lots) other (inl here) =
      let miss : (lot.lot_id == id) ≡ false =
        ==_ne lot.lot_id id (subst (IsOther id) (sym here) other) in
      rw miss (inl here)
  take_from-others id quantity x (lot ∷ lots) other (inr h) = elim (Bool-cases (lot.lot_id == id)) [
    | inl hit ↦ elim (Bool-cases (leb_ℤ (lot.quantity -ℤ quantity) (pos 0))) [
      | inl gone ↦ rw (hit, gone) h
      | inr left ↦ rw (hit, left) (inr h)
    ]
    | inr miss ↦ rw miss (inr (take_from-others id quantity x lots other h))
  ]

  -- A lot of the list loses what is taken from it, the others keep what they hold.
  pub held-take_from :
      (x : TaxLot money) (n : ℕ) (lots : List (TaxLot money))
      → Distinct lots
      → All IsLong lots
      → In lots x
      → n ≤ pos_part x.quantity
      → (held (take_from money x.lot_id (pos n) lots) + n ≡ held lots)
        × All IsLong (take_from money x.lot_id (pos n) lots)
  unfolding take_from
  held-take_from x n [] d l h b = absurd h
  held-take_from x n (lot ∷ lots) d l (inl here) b =
      let hit : (lot.lot_id == x.lot_id) ≡ true =
        subst (λ (y : TaxLot money). (lot.lot_id == y.lot_id) ≡ true) here (==_refl lot.lot_id) in
      let bound : n ≤ pos_part lot.quantity =
        subst (λ (y : TaxLot money). n ≤ pos_part y.quantity) (sym here) b in
      let parts = -ℤ_parts lot.quantity (pos n) in
      elim (Bool-cases (leb_ℤ (lot.quantity -ℤ pos n) (pos 0))) [
        | inl gone ↦ rw (hit, gone) (ground (arith, parts, gone, bound, l.0), l.1)
        | inr left ↦
            let lot' : TaxLot money = record lot { quantity = lot.quantity -ℤ pos n } in
            let long : IsLong lot' × All IsLong lots =
              (ground (arith, parts, left, bound, l.0), l.1) in
            rw (hit, left) (ground (arith, parts, left, bound, l.0), long)
      ]
  held-take_from x n (lot ∷ lots) d l (inr h) b =
      let other : x.lot_id ≢ lot.lot_id = All-In_lem (IsOther lot.lot_id) lots x d.0 h in
      let miss : (lot.lot_id == x.lot_id) ≡ false =
        ==_ne lot.lot_id x.lot_id (λ e. other (sym e)) in
      let (sums, long) = held-take_from x n lots d.1 l.1 h b in
      let all_long : IsLong lot × All IsLong (take_from money x.lot_id (pos n) lots) =
        (l.0, long) in
      rw miss (omega (arith, sums), all_long)
