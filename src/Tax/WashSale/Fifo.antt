-- ===== src/Tax/WashSale/Fifo.antt =====
-- What first-in-first-out consumption takes from the lots, and that sorting loses nothing.
use Prim.Native.Nat.{min}
use nexus_trade_engine.Prelude.{
  ℕ, ◌+◌, ◌-◌, ◌≡◌, refl, Bool, List, [], ◌∷◌, arith, All, Bool-cases, inl, inr,
}
use nexus_trade_engine.Tax.WashSale.{BuyState, consume_fifo, insert_sorted, sorted}

-- The shares that the lots still have.
abbrev available : List BuyState → ℕ
available [] = 0
available (lot ∷ lots) = lot.available_qty + available lots

-- Consumption takes exactly what was asked for out of the lots, or all that they have where that is
-- less.
consume_fifo-available :
    (lots : List BuyState) (q : ℕ)
    → available (consume_fifo lots q).1 + min q (available lots) ≡ available lots
unfolding consume_fifo
consume_fifo-available [] q = omega arith
consume_fifo-available (lot ∷ lots) q =
    omega (arith, consume_fifo-available lots (q - min lot.available_qty q))

module _ {A : Type 0} (before : A → A → Bool) where
  insert_sorted-sum :
      (size : A → ℕ) (sum : List A → ℕ)
      → ((x : A) (xs : List A) → sum (x ∷ xs) ≡ size x + sum xs)
      → (a : A) (xs : List A) → sum (insert_sorted before a xs) ≡ size a + sum xs
  unfolding insert_sorted
  insert_sorted-sum size sum cons a [] = cons a []
  insert_sorted-sum size sum cons a (b ∷ bs) = elim (Bool-cases (before a b)) [
    | inl h ↦ rw h (cons a (b ∷ bs))
    | inr h ↦ rw h (
        omega (
          arith,
          cons b (insert_sorted before a bs),
          cons b bs,
          insert_sorted-sum size sum cons a bs,
        ))
  ]

  -- A sum over the items is the same over the sorted items.
  pub sorted-sum :
      (size : A → ℕ) (sum : List A → ℕ)
      → ((x : A) (xs : List A) → sum (x ∷ xs) ≡ size x + sum xs)
      → (xs : List A) → sum (sorted before xs) ≡ sum xs
  unfolding sorted
  sorted-sum size sum cons [] = refl
  sorted-sum size sum cons (x ∷ xs) = omega (
    arith,
    insert_sorted-sum size sum cons x (sorted before xs),
    sorted-sum size sum cons xs,
    cons x xs,
  )

  insert_sorted-All :
      (P : A → Type 0) (a : A) (xs : List A) → P a → All P xs → All P (insert_sorted before a xs)
  unfolding insert_sorted
  insert_sorted-All P a [] h hs = (h, tt)
  insert_sorted-All P a (b ∷ bs) h hs = elim (Bool-cases (before a b)) [
    | inl e ↦ rw e (h, hs)
    | inr e ↦ rw e (hs.0, insert_sorted-All P a bs h hs.1)
  ]

  -- What holds of all items holds of all sorted items.
  pub sorted-All : (P : A → Type 0) (xs : List A) → All P xs → All P (sorted before xs)
  unfolding sorted
  sorted-All P [] h = tt
  sorted-All P (x ∷ xs) h = insert_sorted-All P x (sorted before xs) h.0 (sorted-All P xs h.1)
