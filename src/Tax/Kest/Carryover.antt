-- ===== src/Tax/Kest/Carryover.antt =====
-- What the carry-forward does with the two buckets of a year.
use Prim.Native.Nat.{min}
use mathlib.Core.List.{append-nil}
use nexus_trade_engine.Prelude.{
  ℕ, suc, ◌+◌, ◌-◌, ◌*◌, ◌<◌, ◌≡◌, refl, ◌∙◌, true, false, List, [], ◌++◌, Option, ok, arith, ap,
  ◌||◌, inl, inr, Bool-cases, >>=-eq-ok, raise_if, length,
}
use nexus_trade_engine.Prelude.Int.{
  ℤ, pos, negsuc, pos_part, beq_ℤ, beq_ℤ_iff, ◌+ℤ◌, ◌-ℤ◌, int_laws, ◌≤ℤ◌, ltb_ℤ,
}
use nexus_trade_engine.Tax.Kest.{
  KestDisposal, equity, other, KestSummary, KestCarryover, KestApplication, gain_loss, bucket,
  assess, summarize_kest, synthetic, synthesize, apply_kest_carryover, tax_base, allowance_for,
  carried, proceeds_of, costs_of, with_disposal_count, negative_carryover,
}
use nexus_trade_engine.Tax.Kest.Rounding.{round-le, quantize-whole}

module _ (per_cent : ℕ) where
  -- The nets of the year after the losses that were carried into it.
  abbrev pub equity_after : List KestDisposal → KestCarryover per_cent → ℤ
  equity_after disposals prior = bucket per_cent true disposals -ℤ prior.equity_loss

  abbrev pub other_after : List KestDisposal → KestCarryover per_cent → ℤ
  other_after disposals prior = bucket per_cent false disposals -ℤ prior.other_loss

module _ (per_cent : ℕ) (some_units : 0 < per_cent) where
  bucket-synthetic_same :
      (net : ℤ) (rest : List KestDisposal)
      → (bucket per_cent true (synthetic per_cent net equity ++ rest)
          ≡ net +ℤ bucket per_cent true rest)
        × (bucket per_cent false (synthetic per_cent net other ++ rest)
            ≡ net +ℤ bucket per_cent false rest)
  unfolding bucket gain_loss
  bucket-synthetic_same net rest = elim (Bool-cases (beq_ℤ net (pos 0))) [
    | inl zero_net ↦
        let e = (beq_ℤ_iff net (pos 0)).0 zero_net in
        rw zero_net (rw e (omega int_laws, omega int_laws))
    | inr some_net ↦ rw some_net (rw (quantize-whole per_cent net some_units) (refl, refl))
  ]

  bucket-synthetic_other :
      (net : ℤ) (rest : List KestDisposal)
      → (bucket per_cent false (synthetic per_cent net equity ++ rest) ≡ bucket per_cent false rest)
        × (bucket per_cent true (synthetic per_cent net other ++ rest) ≡ bucket per_cent true rest)
  unfolding bucket
  bucket-synthetic_other net rest = elim (Bool-cases (beq_ℤ net (pos 0))) [
    | inl zero_net ↦ rw zero_net (refl, refl)
    | inr some_net ↦ rw some_net (refl, refl)
  ]

  -- The synthetic disposals have the nets that they are made for.
  synthesize-buckets :
      (e o : ℤ)
      → (bucket per_cent true (synthesize per_cent e o) ≡ e)
        × (bucket per_cent false (synthesize per_cent e o) ≡ o)
  unfolding synthesize
  synthesize-buckets e o =
      let last = append-nil (synthetic per_cent o other) in
      let (_, empty) = bucket-synthetic_other o [] in
      let (_, own) = bucket-synthetic_same o [] in
      (
        rw ((bucket-synthetic_same e (synthetic per_cent o other)).0)
            (rw (← last) (rw empty (unfold bucket in omega int_laws))),
        rw ((bucket-synthetic_other e (synthetic per_cent o other)).0)
            (rw (← last) (rw own (unfold bucket in omega int_laws))),
      )

  summarize-ok :
      (ds : List KestDisposal) (allowance : ℤ) (church : Option ℤ) (s : KestSummary)
      → summarize_kest per_cent ds allowance church ≡ ok s
      → s
        ≡ assess per_cent
            (length ds)
            (proceeds_of per_cent ds)
            (costs_of per_cent ds)
            (bucket per_cent true ds)
            (bucket per_cent false ds)
            (pos_part allowance)
            church
  unfolding summarize_kest
  summarize-ok ds allowance church s h = ground arith

  -- Only the count depends on the count.
  assess-count :
      (m n p c : ℕ) (e o : ℤ) (allowance : ℕ) (church : Option ℤ)
      → with_disposal_count per_cent (assess per_cent m p c e o allowance church) n
        ≡ assess per_cent n p c e o allowance church
  unfolding assess
  assess-count m n p c e o allowance church = refl

  apply-ok :
      (disposals : List KestDisposal) (prior : KestCarryover per_cent) (allowance : ℤ)
      (church : Option ℤ) (a : KestApplication per_cent)
      → apply_kest_carryover per_cent disposals prior allowance church ≡ ok a
      → let e = equity_after per_cent disposals prior in
        let o = other_after per_cent disposals prior in
        let synthetic_ones = synthesize per_cent e o in
        (pos 0 ≤ℤ prior.equity_loss)
        × (pos 0 ≤ℤ prior.other_loss)
        × (a.summary
            ≡ assess per_cent
                (length disposals)
                (proceeds_of per_cent synthetic_ones)
                (costs_of per_cent synthetic_ones)
                (bucket per_cent true synthetic_ones)
                (bucket per_cent false synthetic_ones)
                (pos_part allowance)
                church)
        × (a.next_year_carryover.equity_loss ≡ carried per_cent e)
        × (a.next_year_carryover.other_loss ≡ carried per_cent o)
  unfolding apply_kest_carryover
  apply-ok disposals prior allowance church a h =
      let e = equity_after per_cent disposals prior in
      let o = other_after per_cent disposals prior in
      let (_, valid, h') =
        >>=-eq-ok
          (raise_if (ltb_ℤ prior.equity_loss (pos 0) || ltb_ℤ prior.other_loss (pos 0))
            negative_carryover)
          _ h in
      let (s, summed, done) =
        >>=-eq-ok (summarize_kest per_cent (synthesize per_cent e o) allowance church) _ h' in
      let same = summarize-ok (synthesize per_cent e o) allowance church s summed in
      let ds = synthesize per_cent e o in
      let counted =
        assess-count (length ds) (length disposals) (proceeds_of per_cent ds) (costs_of per_cent ds)
          (bucket per_cent true ds) (bucket per_cent false ds) (pos_part allowance) church in
      (
        ground arith,
        ground arith,
        cc (done, ap (λ x. with_disposal_count per_cent x (length disposals)) same, counted),
        cc done,
        cc done,
      )

  -- The base of the year is taxed or covered by the allowance.
  assess-split :
      (n p c : ℕ) (e o : ℤ) (allowance : ℕ) (church : Option ℤ)
      → let s = assess per_cent n p c e o allowance church in
        s.taxable_income + s.allowance_used ≡ tax_base e o
  unfolding assess allowance_for
  assess-split n p c e o allowance church = omega (
    arith,
    round-le (min (tax_base e o * per_cent) allowance) (tax_base e o) per_cent some_units
        (omega arith),
  )

  assess-nets :
      (n p c : ℕ) (e o : ℤ) (allowance : ℕ) (church : Option ℤ)
      → let s = assess per_cent n p c e o allowance church in (s.equity_net ≡ e) × (s.other_net ≡ o)
  unfolding assess
  assess-nets n p c e o allowance church = (refl, refl)

  ledger :
      (year prior : ℤ)
      → year +ℤ carried per_cent (year -ℤ prior) ≡ prior +ℤ pos (pos_part (year -ℤ prior))
  ledger year prior = omega int_laws

  net-after :
      (disposals : List KestDisposal) (prior : KestCarryover per_cent) (allowance : ℤ)
      (church : Option ℤ) (a : KestApplication per_cent)
      → apply_kest_carryover per_cent disposals prior allowance church ≡ ok a
      → (a.summary.equity_net ≡ equity_after per_cent disposals prior)
        × (a.summary.other_net ≡ other_after per_cent disposals prior)
  net-after disposals prior allowance church a h =
      let e = equity_after per_cent disposals prior in
      let o = other_after per_cent disposals prior in
      let ds = synthesize per_cent e o in
      let summed = (apply-ok disposals prior allowance church a h).2 in
      let (net_e, net_o) =
        assess-nets (length disposals) (proceeds_of per_cent ds) (costs_of per_cent ds)
          (bucket per_cent true ds) (bucket per_cent false ds) (pos_part allowance) church in
      let (is_e, is_o) = synthesize-buckets e o in
      (rw summed (net_e ∙ is_e), rw summed (net_o ∙ is_o))

  -- Where the application succeeds and a cent has some units, within each bucket every cent is
  -- accounted for: the year's result and the loss that is carried on make up the loss carried in
  -- and the gain that is left, and no negative loss is carried on.
  pub apply_kest_carryover-ledger :
      (disposals : List KestDisposal) (prior : KestCarryover per_cent) (allowance : ℤ)
      (church : Option ℤ) (a : KestApplication per_cent)
      → apply_kest_carryover per_cent disposals prior allowance church ≡ ok a
      → (bucket per_cent true disposals +ℤ a.next_year_carryover.equity_loss
          ≡ prior.equity_loss +ℤ pos (pos_part a.summary.equity_net))
        × (bucket per_cent false disposals +ℤ a.next_year_carryover.other_loss
            ≡ prior.other_loss +ℤ pos (pos_part a.summary.other_net))
        × (pos 0 ≤ℤ a.next_year_carryover.equity_loss)
        × (pos 0 ≤ℤ a.next_year_carryover.other_loss)
  apply_kest_carryover-ledger disposals prior allowance church a h =
      let e = equity_after per_cent disposals prior in
      let o = other_after per_cent disposals prior in
      let (p, q, summed, carried_e, carried_o) = apply-ok disposals prior allowance church a h in
      let (net_e, net_o) = net-after disposals prior allowance church a h in
      (
        rw (carried_e, net_e) (ledger (bucket per_cent true disposals) prior.equity_loss),
        rw (carried_o, net_o) (ledger (bucket per_cent false disposals) prior.other_loss),
        rw carried_e (omega arith),
        rw carried_o (omega arith),
      )

  tax_base-offset : (gain loss : ℕ) → tax_base (pos gain) (negsuc loss) ≡ gain - suc loss
  unfolding tax_base ◌+ℤ◌
  tax_base-offset gain loss = ground arith

  -- Where the application succeeds on a year that ends, after the losses carried in, with an equity
  -- gain and a loss on the rest: the loss lowers the income that is taxed or covered by the
  -- allowance, down to 0, and is carried on in full all the same.
  pub apply_kest_carryover-twice :
      (disposals : List KestDisposal) (prior : KestCarryover per_cent) (allowance : ℤ)
      (church : Option ℤ) (a : KestApplication per_cent) (gain loss : ℕ)
      → apply_kest_carryover per_cent disposals prior allowance church ≡ ok a
      → equity_after per_cent disposals prior ≡ pos gain
      → other_after per_cent disposals prior ≡ negsuc loss
      → (a.summary.taxable_income + a.summary.allowance_used ≡ gain - suc loss)
        × (a.next_year_carryover.other_loss ≡ pos (suc loss))
  apply_kest_carryover-twice disposals prior allowance church a gain loss h g l =
      let e = equity_after per_cent disposals prior in
      let o = other_after per_cent disposals prior in
      let ds = synthesize per_cent e o in
      let (p, q, summed, carried_e, carried_o) = apply-ok disposals prior allowance church a h in
      let split =
        assess-split (length disposals) (proceeds_of per_cent ds) (costs_of per_cent ds)
          (bucket per_cent true ds) (bucket per_cent false ds) (pos_part allowance) church in
      let (is_e, is_o) = synthesize-buckets e o in
      let base : tax_base (bucket per_cent true ds) (bucket per_cent false ds) ≡ gain - suc loss =
        rw (is_e, is_o) (rw (g, l) (tax_base-offset gain loss)) in
      (rw summed (split ∙ base), rw carried_o (rw l refl))
