-- ===== src/Prelude/Sets.antt =====
-- Python's `set` as a list in which an item stands at most once; its order is never read.
use Prim.Native.Nat.{suc, ◌≤◌}
use mathlib.Core.Path.{◌≡◌}
use mathlib.Core.Bool.{false, ◌||◌}
use mathlib.Core.List.{List, [], ◌∷◌}
use native.Mathlib.Omega.{arith}
use mathlib.Core.Logic.{inl, inr}
use nexus_trade_engine.Prelude.Tests.{if◌then◌else◌, Bool-cases}
use nexus_trade_engine.Prelude.Lists.{length}
use nexus_trade_engine.Prelude.Keys.{Eq, ◌==◌, contains}

module _ {ℓ} {A : Type ℓ} ⦃e : Eq A⦄ where
  -- `s.add(a)`
  abbrev pub add : A → List A → List A
  add a s = if contains s a then s else a ∷ s

  -- `s.discard(a)`
  abbrev pub discard : A → List A → List A
  discard a [] = []
  discard a (x ∷ s) = let rest = discard a s in if a == x then rest else x ∷ rest

  pub contains-add : (a b : A) (s : List A) → contains (add a s) b ≡ ((b == a) || contains s b)
  contains-add a b s = ground (arith, e.same_iff b a)

  pub contains-discard :
      (a b : A) (s : List A) → contains (discard a s) b ≡ (if b == a then false else contains s b)
  contains-discard a b [] = ground arith
  contains-discard a b (x ∷ s) =
      ground (arith, e.same_iff b a, e.same_iff a x, e.same_iff b x, contains-discard a b s)

  pub length-add : (a : A) (s : List A) → length (add a s) ≤ suc (length s)
  length-add a s = ground arith

  pub length-discard : (a : A) (s : List A) → length (discard a s) ≤ length s
  length-discard a [] = omega arith
  length-discard a (x ∷ s) = ground (arith, length-discard a s)

  -- No item stands twice.
  abbrev pub NoTwice : List A → Type 0
  NoTwice [] = Unit
  NoTwice (x ∷ s) = (contains s x ≡ false) × NoTwice s

  pub add-NoTwice : (a : A) (s : List A) → NoTwice s → NoTwice (add a s)
  add-NoTwice a s h = elim (Bool-cases (contains s a)) [ inl e ↦ rw e h | inr e ↦ rw e (e, h) ]

  pub discard-NoTwice : (a : A) (s : List A) → NoTwice s → NoTwice (discard a s)
  discard-NoTwice a [] h = tt
  discard-NoTwice a (x ∷ s) h = elim (Bool-cases (a == x)) [
    | inl e ↦ rw e (discard-NoTwice a s h.1)
    | inr e ↦ rw e (ground (arith, h.0, contains-discard a x s), discard-NoTwice a s h.1)
  ]
