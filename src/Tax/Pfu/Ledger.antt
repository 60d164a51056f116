-- ===== src/Tax/Pfu/Ledger.antt =====
-- No cent of a carried loss is lost or used twice.
use Prim.Native.Nat.{min}
use nexus_trade_engine.Prelude.{
  ℕ, ◌+◌, ◌-◌, ◌≤◌, ◌<◌, ◌≡◌, refl, List, [], ◌∷◌, ◌++◌, keep, All, All-keep, All-append, arith,
  ltb, leb, Bool-cases, ◌⊎◌, inl, inr,
}
use nexus_trade_engine.Prelude.Int.{ℤ, pos, pos_part, ◌-ℤ◌, leb_ℤ}
use nexus_trade_engine.Tax.Pfu.{
  PfuDisposal, PfuLossVintage, PfuSummary, total, is_positive, insert_vintage, sort_vintages,
  normalised, is_expired, is_fresh, absorb, consume_vintages, summarize_pfu, apply_pfu_carryover,
  carry_forward_years, summary_of,
}

less-pos : (a b : ℕ) → b ≤ a → pos a -ℤ pos b ≡ pos (a - b)
unfolding ◌-ℤ◌
less-pos a b h = ground arith

total-append : (vs ws : List PfuLossVintage) → total (vs ++ ws) ≡ total vs + total ws
total-append [] ws = omega arith
total-append (v ∷ vs) ws = omega (arith, total-append vs ws)

total-keep_positive : (vs : List PfuLossVintage) → total (keep is_positive vs) ≡ total vs
total-keep_positive [] = refl
total-keep_positive (v ∷ vs) = ground (arith, total-keep_positive vs)

total-insert_vintage :
    (v : PfuLossVintage) (vs : List PfuLossVintage)
    → total (insert_vintage v vs) ≡ v.amount + total vs
unfolding insert_vintage
total-insert_vintage v [] = refl
total-insert_vintage v (w ∷ ws) = ground (arith, total-insert_vintage v ws)

total-sort_vintages : (vs : List PfuLossVintage) → total (sort_vintages vs) ≡ total vs
unfolding sort_vintages
total-sort_vintages [] = refl
total-sort_vintages (v ∷ vs) =
    omega (arith, total-insert_vintage v (sort_vintages vs), total-sort_vintages vs)

total-normalised : (vs : List PfuLossVintage) → total (normalised vs) ≡ total vs
unfolding normalised
total-normalised vs =
    omega (arith, total-sort_vintages (keep is_positive vs), total-keep_positive vs)

-- A vintage is expired or fresh.
total_split :
    (year : ℕ) (vs : List PfuLossVintage)
    → total (keep (is_expired year) vs) + total (keep (is_fresh year) vs) ≡ total vs
total_split year [] = refl
total_split year (v ∷ vs) = ground (arith, total_split year vs)

-- A gain uses so much of the vintages, up to its own amount, and leaves the rest; when it leaves
-- any, the whole gain is used.
absorb_lem :
    (gain : ℕ) (vs : List PfuLossVintage)
    → ((absorb (pos gain) vs).0 + total (absorb (pos gain) vs).1 ≡ total vs)
      × ((absorb (pos gain) vs).0 ≡ min gain (total vs))
unfolding absorb ◌-ℤ◌
absorb_lem gain [] = (refl, omega arith)
absorb_lem gain (v ∷ vs) =
    ground (arith, absorb_lem gain vs, absorb_lem (gain - min gain v.amount) vs)

-- A year has a gain or a loss, not both.
one_sided :
    (per_cent : ℕ) (ds : List PfuDisposal)
    → ((summarize_pfu per_cent ds).net_gain ≡ 0) ⊎ ((summarize_pfu per_cent ds).net_loss ≡ 0)
unfolding summarize_pfu summary_of ◌-ℤ◌
one_sided per_cent ds = ground arith

-- What a year does to the vintages that have not expired.
consume_vintages_lem :
    (year : ℕ) (s : PfuSummary) (fresh : List PfuLossVintage)
    → (s.net_gain ≡ 0) ⊎ (s.net_loss ≡ 0)
    → ((consume_vintages year s fresh).0 + total (consume_vintages year s fresh).1
        ≡ total fresh + s.net_loss)
      × ((consume_vintages year s fresh).0 ≡ min s.net_gain (total fresh))
unfolding consume_vintages
consume_vintages_lem year s fresh sided = ground (
  arith,
  absorb_lem s.net_gain fresh,
  sided,
  total-append fresh (record { year = year; amount = s.net_loss } ∷ []),
)

-- The vintage can still be used in this year.
abbrev pub IsFresh : ℕ → PfuLossVintage → Type 0
IsFresh year v = year < v.year + carry_forward_years

All-insert_vintage :
    (P : PfuLossVintage → Type 0) (v : PfuLossVintage) (vs : List PfuLossVintage)
    → P v
    → All P vs
    → All P (insert_vintage v vs)
unfolding insert_vintage
All-insert_vintage P v [] p h = (p, h)
All-insert_vintage P v (w ∷ ws) p h = elim (Bool-cases (leb v.year w.year)) [
  | inl e ↦ rw e (p, h)
  | inr e ↦ rw e (h.0, All-insert_vintage P v ws p h.1)
]

All-sort_vintages :
    (P : PfuLossVintage → Type 0) (vs : List PfuLossVintage) → All P vs → All P (sort_vintages vs)
unfolding sort_vintages
All-sort_vintages P [] h = tt
All-sort_vintages P (v ∷ vs) h =
    All-insert_vintage P v (sort_vintages vs) h.0 (All-sort_vintages P vs h.1)

All-normalised :
    (P : PfuLossVintage → Type 0) (vs : List PfuLossVintage) → All P vs → All P (normalised vs)
unfolding normalised
All-normalised P vs h = All-sort_vintages P (keep is_positive vs) (All-keep P is_positive vs h)

keep-IsFresh : (year : ℕ) (vs : List PfuLossVintage) → All (IsFresh year) (keep (is_fresh year) vs)
keep-IsFresh year [] = tt
keep-IsFresh year (v ∷ vs) = elim (Bool-cases (is_fresh year v)) [
  | inl e ↦ rw e (ground (arith, e), keep-IsFresh year vs)
  | inr e ↦ rw e (keep-IsFresh year vs)
]

absorb-IsFresh :
    (year : ℕ) (gain : ℤ) (vs : List PfuLossVintage)
    → All (IsFresh year) vs
    → All (IsFresh year) (absorb gain vs).1
unfolding absorb
absorb-IsFresh year gain [] h = tt
absorb-IsFresh year gain (v ∷ vs) h =
    let take = min (pos_part gain) v.amount in
    elim (Bool-cases (leb_ℤ gain (pos 0))) [
      | inl e ↦ rw e (h.0, absorb-IsFresh year gain vs h.1)
      | inr e ↦ elim (Bool-cases (ltb 0 (v.amount - take))) [
        | inl some_left ↦ rw (e, some_left) (h.0, absorb-IsFresh year (gain -ℤ pos take) vs h.1)
        | inr none_left ↦ rw (e, none_left) (absorb-IsFresh year (gain -ℤ pos take) vs h.1)
      ]
    ]

consume_vintages-IsFresh :
    (year : ℕ) (s : PfuSummary) (fresh : List PfuLossVintage)
    → All (IsFresh year) fresh
    → All (IsFresh year) (consume_vintages year s fresh).1
unfolding consume_vintages
consume_vintages-IsFresh year s fresh h = elim (Bool-cases (ltb 0 s.net_gain)) [
  | inl gain ↦ rw gain (absorb-IsFresh year (pos s.net_gain) fresh h)
  | inr no_gain ↦ elim (Bool-cases (ltb 0 s.net_loss)) [
    | inl loss ↦ rw (no_gain, loss) (All-append (IsFresh year) fresh _ h (omega arith, tt))
    | inr no_loss ↦ rw (no_gain, no_loss) h
  ]
]

-- A prior loss expires, is used or is carried on, and the year's own loss is carried on, to the
-- cent. What is used is the year's gain, as far as the losses that have not expired go; the gain
-- is taxed without it. No vintage is carried on that has expired: each one is less than ten years
-- older than the tax year.
pub apply_pfu_carryover-accounted :
    (per_cent : ℕ) (ds : List PfuDisposal) (prior : List PfuLossVintage) (year : ℕ)
    → let a = apply_pfu_carryover per_cent ds prior year in
      (total a.expired + a.loss_used + total a.next_year_carryover
        ≡ total prior + a.summary.net_loss)
      × (a.loss_used ≡ min a.summary.net_gain (total prior - total a.expired))
      × (a.taxable_gain_after_carryover ≡ pos (a.summary.net_gain - a.loss_used))
      × All (IsFresh year) a.next_year_carryover
unfolding apply_pfu_carryover
apply_pfu_carryover-accounted per_cent ds prior year =
    let s = summarize_pfu per_cent ds in
    let fresh = keep (is_fresh year) (normalised prior) in
    let (kept, used) = consume_vintages_lem year s fresh (one_sided per_cent ds) in
    let surviving = (consume_vintages year s fresh).1 in
    let split = total_split year (normalised prior) in
    let same = total-normalised prior in
    (
      omega (arith, kept, split, same, total-normalised surviving),
      ground (arith, used, split, same),
      less-pos s.net_gain (consume_vintages year s fresh).0 (omega (arith, used)),
      All-normalised (IsFresh year) surviving
          (consume_vintages-IsFresh year s fresh (keep-IsFresh year (normalised prior))),
    )
