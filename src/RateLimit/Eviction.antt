-- ===== src/RateLimit/Eviction.antt =====
-- Which buckets are kept.
use nexus_trade_engine.Prelude.{
  ℕ, ◌≤◌, String, ◌≡◌, refl, ap, [], ◌∷◌, ◌++◌, if◌then◌else◌, string_eq, ltb, length,
  length-append, Dict, lookup, erase, arith, Bool-cases, inl, inr, ◌⊎◌,
}
use nexus_trade_engine.Prelude.Int.{ℤ}
use nexus_trade_engine.RateLimit.{Clock, Bucket, Backend, evict, stored, refilled, update}

module _ (clock : Clock) where
  open clock use {Float, sub, one, le}

  -- Where one more is too many, and what is left fits, it is as many as may be.
  evict-full :
      (max_keys : ℕ) (state dropped left : Dict String (Bucket clock))
      → state ≡ dropped ++ left
      → length left ≤ max_keys
      → max_keys ≤ length state
      → (dropped ≡ []) ⊎ (length left ≡ max_keys)
      → length left ≡ max_keys
  evict-full max_keys state dropped left split bound many (inr full) = full
  evict-full max_keys state dropped left split bound many (inl none_dropped) =
      omega
        (arith, bound, many, ap length split, length-append dropped left, ap length none_dropped)

  -- Eviction drops a number of the oldest, and no more than it must.
  evict_lem :
      (max_keys : ℕ) (state : Dict String (Bucket clock))
      → (dropped : Dict String (Bucket clock)) × (state ≡ dropped ++ evict clock max_keys state)
        × (length (evict clock max_keys state) ≤ max_keys)
        × ((dropped ≡ []) ⊎ (length (evict clock max_keys state) ≡ max_keys))
  unfolding evict
  evict_lem max_keys [] = ([], refl, omega arith, inl refl)
  evict_lem max_keys (entry ∷ state) =
      let (dropped, split, bound, least) = evict_lem max_keys state in
      elim (Bool-cases (ltb max_keys (length (entry ∷ state)))) [
        | inl more ↦ rw more (
          entry ∷ dropped,
          ap (λ s. entry ∷ s) split,
          bound,
          inr (
              evict-full max_keys state dropped (evict clock max_keys state) split bound
                (ground (arith, more)) least),
        )
        | inr fits ↦ rw fits ([], refl, ground (arith, fits), inl refl)
      ]

  -- An update takes a token exactly when a whole one is there after the refill. The updated bucket
  -- becomes the latest; of the others the oldest go, no more of them than must, so that the bound on
  -- the number of keys holds whatever the keys are.
  pub update-evicts :
      (key : String) (capacity : ℤ) (refill_per_sec now : Float) (b : Backend clock)
      → let (answer, b') = update clock key capacity refill_per_sec now b in
        let tokens = refilled clock capacity refill_per_sec now (lookup key b.state) in
        (answer.0 ≡ le one tokens)
        × ((left : Float) × (dropped : Dict String (Bucket clock)) × (left
              ≡ (if answer.0 then sub tokens one else tokens))
            × (erase key b.state ++ (key, (left, now)) ∷ [] ≡ dropped ++ b'.state)
            × ((dropped ≡ []) ⊎ (length b'.state ≡ b.max_keys))
            × (length b'.state ≤ b'.max_keys)
            × (b'.max_keys ≡ b.max_keys))
  unfolding update stored
  update-evicts key capacity refill_per_sec now b =
      let tokens = refilled clock capacity refill_per_sec now (lookup key b.state) in
      elim (Bool-cases (le one tokens)) [
        | inl taken ↦
            let (dropped, split, bound, least) =
              evict_lem b.max_keys (erase key b.state ++ (key, (sub tokens one, now)) ∷ []) in
            rw taken (refl, (sub tokens one, dropped, refl, split, least, bound, refl))
        | inr refused ↦
            let (dropped, split, bound, least) =
              evict_lem b.max_keys (erase key b.state ++ (key, (tokens, now)) ∷ []) in
            rw refused (refl, (tokens, dropped, refl, split, least, bound, refl))
      ]
