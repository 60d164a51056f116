-- ===== src/Prelude/Lists.antt =====
-- Lists measured by native numbers, predicates on lists, and Boolean filters.
use Prim.Native.Nat.{ℕ, zero, suc, ◌+◌, ◌≤◌}
use mathlib.Core.Path.{◌≡◌, refl, sym, subst}
use mathlib.Core.Logic.{◌⊎◌, inl, inr}
use mathlib.Core.Bool.{Bool, true, false}
use mathlib.Core.List.{List, [], ◌∷◌, ◌++◌}
use native.Mathlib.Omega.{arith}
use nexus_trade_engine.Prelude.Tests.{if◌then◌else◌, Bool-cases}

module _ {ℓ} {A : Type ℓ} where
  abbrev pub length : List A → ℕ
  length [] = 0
  length (x ∷ xs) = suc (length xs)

  abbrev pub take : ℕ → List A → List A
  take zero xs = []
  take (suc n) [] = []
  take (suc n) (x ∷ xs) = x ∷ take n xs

  -- `[x for x in xs if p(x)]`
  abbrev pub keep : (A → Bool) → List A → List A
  keep p [] = []
  keep p (x ∷ xs) = let rest = keep p xs in if p x then x ∷ rest else rest

  abbrev pub all : (A → Bool) → List A → Bool
  all p [] = true
  all p (x ∷ xs) = if p x then all p xs else false

  pub List-cases : (xs : List A) → (xs ≡ []) ⊎ ((x : A) × (rest : List A) × (xs ≡ x ∷ rest))
  List-cases [] = inl refl
  List-cases (x ∷ rest) = inr (x, rest, refl)

  pub length-append : (xs ys : List A) → length (xs ++ ys) ≡ length xs + length ys
  length-append [] ys = omega arith
  length-append (x ∷ xs) ys = omega (arith, length-append xs ys)

  pub length-keep : (p : A → Bool) (xs : List A) → length (keep p xs) ≤ length xs
  length-keep p [] = omega arith
  length-keep p (x ∷ xs) = ground (arith, length-keep p xs)

module _ {ℓ κ} {A : Type ℓ} where
  -- `P` holds of every item.
  abbrev pub All : (A → Type κ) → List A → Type κ
  All P [] = Unit
  All P (x ∷ xs) = P x × All P xs

  pub All-append :
      (P : A → Type κ) (front back : List A) → All P front → All P back → All P (front ++ back)
  All-append P [] back of_front of_back = of_back
  All-append P (x ∷ front) back of_front of_back =
      (of_front.0, All-append P front back of_front.1 of_back)

  pub All-keep : (P : A → Type κ) (p : A → Bool) (xs : List A) → All P xs → All P (keep p xs)
  All-keep P p [] h = tt
  All-keep P p (x ∷ xs) h = elim (Bool-cases (p x)) [
    | inl e ↦ rw e (h.0, All-keep P p xs h.1)
    | inr e ↦ rw e (All-keep P p xs h.1)
  ]

module _ {ℓ} {A : Type ℓ} where
  -- `P` holds of some item.
  abbrev pub Any : (A → Type 0) → List A → Type 0
  Any P [] = ⊥
  Any P (x ∷ xs) = P x ⊎ Any P xs

  pub Any-append : (P : A → Type 0) (xs ys : List A) → Any P xs → Any P (xs ++ ys)
  Any-append P [] ys h = absurd h
  Any-append P (x ∷ xs) ys (inl h) = inl h
  Any-append P (x ∷ xs) ys (inr h) = inr (Any-append P xs ys h)

  pub Any-last : (P : A → Type 0) (xs : List A) (x : A) → P x → Any P (xs ++ x ∷ [])
  Any-last P [] x h = inl h
  Any-last P (y ∷ ys) x h = inr (Any-last P ys x h)

  pub Any-split : (P : A → Type 0) (xs ys : List A) → Any P (xs ++ ys) → Any P xs ⊎ Any P ys
  Any-split P [] ys h = inr h
  Any-split P (x ∷ xs) ys (inl h) = inl (inl h)
  Any-split P (x ∷ xs) ys (inr h) = elim (Any-split P xs ys h) [
    | inl front ↦ inl (inr front)
    | inr back ↦ inr back
  ]

module _ {A : Type 0} where
  -- `x in xs`
  abbrev pub In : List A → A → Type 0
  In xs x = Any (λ y. y ≡ x) xs

  pub All-implies : (P Q : A → Type 0) (xs : List A) → ((x : A) → P x → Q x) → All P xs → All Q xs
  All-implies P Q [] f h = tt
  All-implies P Q (x ∷ xs) f h = (f x h.0, All-implies P Q xs f h.1)

  pub All-both : (P Q : A → Type 0) (xs : List A) → All P xs → All Q xs → All (λ x. P x × Q x) xs
  All-both P Q [] p q = tt
  All-both P Q (x ∷ xs) p q = ((p.0, q.0), All-both P Q xs p.1 q.1)

  pub All-In_lem : (P : A → Type 0) (xs : List A) (x : A) → All P xs → In xs x → P x
  All-In_lem P [] x h l = absurd l
  All-In_lem P (y ∷ ys) x h (inl e) = subst P e h.0
  All-In_lem P (y ∷ ys) x h (inr l) = All-In_lem P ys x h.1 l

  pub All-In : (xs : List A) → All (In xs) xs
  All-In [] = tt
  All-In (x ∷ xs) = (inl refl, All-implies (In xs) (In (x ∷ xs)) xs (λ y h. inr h) (All-In xs))

  pub In-keep : (p : A → Bool) (v : A) (xs : List A) → In (keep p xs) v → In xs v × (p v ≡ true)
  In-keep p v [] = λ h. absurd h
  In-keep p v (w ∷ xs) = elim (Bool-cases (p w)) [
    | inl e ↦ rw e λ h. elim h [
      | inl here ↦ (inl here, subst (λ x. p x ≡ true) here e)
      | inr later ↦ let (among, test) = In-keep p v xs later in (inr among, test)
    ]
    | inr e ↦ rw e λ h. let (among, test) = In-keep p v xs h in (inr among, test)
  ]

  pub keep-In : (p : A → Bool) (v : A) (xs : List A) → In xs v → p v ≡ true → In (keep p xs) v
  keep-In p v [] h test = absurd h
  keep-In p v (w ∷ xs) (inl here) test =
      let e : p w ≡ true = subst (λ x. p x ≡ true) (sym here) test in rw e (inl here)
  keep-In p v (w ∷ xs) (inr later) test = elim (Bool-cases (p w)) [
    | inl e ↦ rw e (inr (keep-In p v xs later test))
    | inr e ↦ rw e (keep-In p v xs later test)
  ]
