-- ===== src/Capital/Sum.antt =====
-- The cents of an allocation add up to the capital, and no strategy gets more than a cent above
-- its share rounded down.
use nexus_trade_engine.Prelude.{
  ℕ, zero, suc, ◌+◌, ◌-◌, ◌≤◌, String, ◌≡◌, refl, ◌⊎◌, inl, inr, Option, none, some, List, [], ◌∷◌,
  ok, arith, Dict, length, take, ◌==◌, string_eq, Bool-cases, All, >>=-eq-ok, raise_if, nat_beq,
}
use nexus_trade_engine.Prelude.Int.{ℤ, pos, pos_part, ltb_ℤ}
use nexus_trade_engine.Capital.{
  Number, real, total, Share, bump, bump_all, insert_share, sort_shares, ranks_before, floors, ids,
  distribute, apportion, choose, allocate_capital, allocation_total, whole_cents, read_weights,
  zero_weights, negative_capital,
}

-- The dict has the key.
abbrev Has : Dict String ℕ → String → Type 0
Has [] sid = ⊥
Has ((j, n) ∷ d) sid = (j ≡ sid) ⊎ Has d sid

total-bump : (sid : String) (d : Dict String ℕ) → Has d sid → total (bump sid d) ≡ suc (total d)
unfolding bump
total-bump sid [] h = absurd h
total-bump sid ((j, n) ∷ d) (inl e) = ground (arith, string_eq.same_iff j sid)
total-bump sid ((j, n) ∷ d) (inr h) = ground (arith, total-bump sid d h)

Has-bump : (sid other : String) (d : Dict String ℕ) → Has d other → Has (bump sid d) other
unfolding bump
Has-bump sid other [] h = h
Has-bump sid other ((j, n) ∷ d) (inl e) = elim (Bool-cases (j == sid)) [
  | inl here ↦ rw here (inl e)
  | inr past ↦ rw past (inl e)
]
Has-bump sid other ((j, n) ∷ d) (inr h) = elim (Bool-cases (j == sid)) [
  | inl here ↦ rw here (inr h)
  | inr past ↦ rw past (inr (Has-bump sid other d h))
]

All-Has-bump :
    (sid : String) (d : Dict String ℕ) (sids : List String)
    → All (Has d) sids
    → All (Has (bump sid d)) sids
All-Has-bump sid d [] h = tt
All-Has-bump sid d (x ∷ xs) h = (Has-bump sid x d h.0, All-Has-bump sid d xs h.1)

total-bump_all :
    (sids : List String) (d : Dict String ℕ)
    → All (Has d) sids
    → total (bump_all sids d) ≡ total d + length sids
unfolding bump_all
total-bump_all [] d h = omega arith
total-bump_all (sid ∷ sids) d h =
    omega
      (arith, total-bump_all sids (bump sid d) (All-Has-bump sid d sids h.1), total-bump sid d h.0)

Has-insert_share :
    (a : Share) (parts : List Share) (d : Dict String ℕ)
    → Has d a.sid
    → All (Has d) (ids parts)
    → All (Has d) (ids (insert_share a parts))
unfolding insert_share
Has-insert_share a [] d h hs = (h, tt)
Has-insert_share a (b ∷ bs) d h hs = elim (Bool-cases (ranks_before a b)) [
  | inl before ↦ rw before (h, hs)
  | inr behind ↦ rw behind (hs.0, Has-insert_share a bs d h hs.1)
]

Has-sort_shares :
    (parts : List Share) (d : Dict String ℕ)
    → All (Has d) (ids parts)
    → All (Has d) (ids (sort_shares parts))
unfolding sort_shares
Has-sort_shares [] d h = tt
Has-sort_shares (a ∷ parts) d h =
    Has-insert_share a (sort_shares parts) d h.0 (Has-sort_shares parts d h.1)

length-insert_share :
    (a : Share) (parts : List Share)
    → length (ids (insert_share a parts)) ≡ suc (length (ids parts))
unfolding insert_share
length-insert_share a [] = refl
length-insert_share a (b ∷ bs) = ground (arith, length-insert_share a bs)

length-sort_shares : (parts : List Share) → length (ids (sort_shares parts)) ≡ length parts
unfolding sort_shares
length-sort_shares [] = refl
length-sort_shares (a ∷ parts) =
    omega (arith, length-insert_share a (sort_shares parts), length-sort_shares parts)

All-Has-cons :
    (j : String) (n : ℕ) (d : Dict String ℕ) (sids : List String)
    → All (Has d) sids
    → All (Has ((j, n) ∷ d)) sids
All-Has-cons j n d [] h = tt
All-Has-cons j n d (x ∷ xs) h = (inr h.0, All-Has-cons j n d xs h.1)

Has-floors : (parts : List Share) → All (Has (floors parts)) (ids parts)
Has-floors [] = tt
Has-floors (a ∷ parts) =
    (inl refl, All-Has-cons a.sid a.floor_cents (floors parts) (ids parts) (Has-floors parts))

All-take :
    (n : ℕ) (d : Dict String ℕ) (sids : List String) → All (Has d) sids → All (Has d) (take n sids)
All-take zero d sids h = tt
All-take (suc n) d [] h = tt
All-take (suc n) d (x ∷ xs) h = (h.0, All-take n d xs h.1)

length-take : (n : ℕ) (sids : List String) → n ≤ length sids → length (take n sids) ≡ n
length-take zero sids h = refl
length-take (suc n) [] h = absurd (omega arith)
length-take (suc n) (x ∷ xs) h = omega (arith, length-take n xs (omega arith))

distribute-ok :
    (cents : ℕ) (parts : List Share) (d : Dict String ℕ)
    → distribute cents parts ≡ ok d
    → let remainder = cents - total (floors parts) in
      (total (floors parts) ≤ cents)
      × (remainder ≤ length parts)
      × (d ≡ bump_all (take remainder (ids (sort_shares parts))) (floors parts))
unfolding distribute
distribute-ok cents parts d h = ground arith

distribute-total :
    (cents : ℕ) (parts : List Share) (d : Dict String ℕ)
    → distribute cents parts ≡ ok d
    → total d ≡ cents
distribute-total cents parts d h =
    let (within, few, same) = distribute-ok cents parts d h in
    let remainder = cents - total (floors parts) in
    let ranking = ids (sort_shares parts) in
    let have =
      All-take remainder (floors parts) ranking
        (Has-sort_shares parts (floors parts) (Has-floors parts)) in
    rw same (
      omega (
        arith,
        total-bump_all (take remainder ranking) (floors parts) have,
        length-take remainder ranking (omega (arith, length-sort_shares parts)),
      ))

module _ (per_dollar per_cent : ℕ) (divide : ℕ → ℕ → ℕ → ℕ) where
  apportion-total :
      (capital : ℕ) (weights : Dict String Number) (d : Dict String ℕ)
      → apportion per_dollar per_cent divide capital weights ≡ ok d
      → total d ≡ whole_cents per_dollar per_cent divide capital
  unfolding apportion
  apportion-total capital weights d h =
      let (read, r, h') = >>=-eq-ok (read_weights weights) _ h in
      let (t, z, h'') = >>=-eq-ok (raise_if (nat_beq (total read) 0) zero_weights) _ h' in
      distribute-total (whole_cents per_dollar per_cent divide capital) _ d h''

  -- However the raw shares are rounded, an allocation that is returned for a finite capital adds up
  -- to it, rounded down to whole cents.
  pub allocate_capital-total :
      (capital : ℤ) (weights : Option (Dict String Number)) (d : Dict String ℕ)
      → allocate_capital per_dollar per_cent divide (real capital) weights ≡ ok d
      → allocation_total d ≡ whole_cents per_dollar per_cent divide (pos_part capital)
  unfolding allocate_capital allocation_total choose
  allocate_capital-total capital none d h = ground arith
  allocate_capital-total capital (some []) d h = ground arith
  allocate_capital-total capital (some (w ∷ ws)) d h =
      let (t, nonneg, h') = >>=-eq-ok (raise_if (ltb_ℤ capital (pos 0)) negative_capital) _ h in
      apportion-total (pos_part capital) (w ∷ ws) d h'
