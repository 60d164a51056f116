-- ===== src/Signals/Consensus.antt =====
-- Strategies that agree have their way.
use nexus_trade_engine.Prelude.{
  String, ◌≡◌, ◌≢◌, refl, sym, ap, ◌∙◌, ◌⊎◌, inl, inr, Option, none, some, true, false, not, List,
  [], ◌∷◌, ◌==◌, ==_refl, ==_ne, string_eq, all, keep, All, Any, Bool-cases, Dict, values,
}
use nexus_trade_engine.OrderManager.{Desk, Signal, Side, hold}
use nexus_trade_engine.Signals.{
  AggregationMethod, unanimous, majority, weighted, priority, independent, Group, side_eq,
  aggregated, is_active, hold_like_first, agree, winner, side_totals, decide_unanimous,
  decide_weighted_with, decide, get_or_zero,
}

module _ (desk : Desk) where
  open desk use {Float, add}

  module _ (side : Side) (acts : side ≢ hold) where
    -- A signal on the side, or none.
    abbrev pub Follows : Signal desk → Type 0
    Follows s = (s.side ≡ hold) ⊎ (s.side ≡ side)

    abbrev pub IsOn : Signal desk → Type 0
    IsOn s = s.side ≡ side

    active_on : (s : Signal desk) → IsOn s → is_active desk s ≡ true
    active_on s e = ap not (==_ne s.side hold (λ h. acts (sym e ∙ h)))

    inactive_on : (s : Signal desk) → s.side ≡ hold → is_active desk s ≡ false
    inactive_on s e = rw e refl

    keep-IsOn :
        (signals : List (Signal desk))
        → All Follows signals
        → All IsOn (keep (is_active desk) signals)
    keep-IsOn [] h = tt
    keep-IsOn (s ∷ signals) h = elim h.0 [
      | inl rests ↦ rw (inactive_on s rests) (keep-IsOn signals h.1)
      | inr on ↦ rw (active_on s on) (on, keep-IsOn signals h.1)
    ]

    all-on :
        (s : Signal desk) (signals : List (Signal desk))
        → IsOn s
        → All IsOn signals
        → all (λ (t : Signal desk). t.side == s.side) signals ≡ true
    all-on s [] e h = refl
    all-on s (t ∷ signals) e h =
        let same : (t.side == s.side) ≡ true = (side_eq.same_iff t.side s.side).1 (h.0 ∙ sym e) in
        rw same (all-on s signals e h.1)

    -- A decision for the side.
    abbrev pub DecidesFor : Option (Signal desk) → Type 0
    DecidesFor o = (s : Signal desk) × (o ≡ some s) × (s.side ≡ side)

    agree-on :
        (active : List (Signal desk)) (otherwise : Option (Signal desk))
        → All IsOn active
        → active ≢ []
        → DecidesFor (agree desk active otherwise)
    agree-on [] otherwise h some_active = absurd (some_active refl)
    agree-on (s ∷ active) otherwise h some_active =
        rw (all-on s active h.0 h.1) (aggregated desk s s.side, refl, h.0)

    keep-some :
        (signals : List (Signal desk)) → Any IsOn signals → keep (is_active desk) signals ≢ []
    keep-some [] on = absurd on
    keep-some (s ∷ signals) (inl here) = rw (active_on s here) (λ e. cc)
    keep-some (s ∷ signals) (inr later) = elim (Bool-cases (is_active desk s)) [
      | inl e ↦ rw e (λ e'. cc)
      | inr e ↦ rw e (keep-some signals later)
    ]

    winner-on :
        (signals : List (Signal desk)) → Any IsOn signals → DecidesFor (winner desk side signals)
    winner-on [] on = absurd on
    winner-on (s ∷ signals) on = elim (Bool-cases (s.side == side)) [
      | inl e ↦ rw e (aggregated desk s side, refl, refl)
      | inr e ↦ rw e (elim on [
        | inl here ↦
            let same : (s.side == side) ≡ true = (side_eq.same_iff s.side side).1 here in cc
        | inr later ↦ winner-on signals later
      ])
    ]

    -- The totals have the side alone.
    totals-on :
        (weight_for : String → Float) (group : Group desk) (total : Float)
        → All Follows (values group)
        → (total' : Float) × (side_totals desk weight_for group ((side, total) ∷ [])
            ≡ (side, total') ∷ [])
    unfolding side_totals
    totals-on weight_for [] total h = (total, refl)
    totals-on weight_for ((sid, s) ∷ group) total h = elim h.0 [
      | inl rests ↦ rw (inactive_on s rests) (totals-on weight_for group total h.1)
      | inr on ↦
          rw (active_on s on, on, ==_refl side)
            (totals-on weight_for group (add total (weight_for sid)) h.1)
    ]

    first_totals-on :
        (weight_for : String → Float) (group : Group desk)
        → All Follows (values group)
        → Any IsOn (values group)
        → (total : Float) × (side_totals desk weight_for group [] ≡ (side, total) ∷ [])
    unfolding side_totals
    first_totals-on weight_for [] h on = absurd on
    first_totals-on weight_for ((sid, s) ∷ group) h on = elim h.0 [
      | inl rests ↦ rw (inactive_on s rests) (
          first_totals-on weight_for group h.1
            (elim on [ inl here ↦ absurd (acts (sym here ∙ rests)) | inr later ↦ later ]))
      | inr here ↦
          rw (active_on s here, here)
            (totals-on weight_for group (add (get_or_zero desk none) (weight_for sid)) h.1)
    ]

    weighted-on :
        (weight_for : String → Float) (group : Group desk)
        → All Follows (values group)
        → Any IsOn (values group)
        → DecidesFor (decide_weighted_with desk weight_for group)
    unfolding decide_weighted_with
    weighted-on weight_for group h on =
        let (total, e) = first_totals-on weight_for group h on in rw e (winner-on (values group) on)

  -- The methods that count votes.
  abbrev pub Counts : AggregationMethod → Type 0
  Counts priority = ⊥
  Counts independent = ⊥
  Counts _ = Unit

  -- Where some strategies want to buy, or some to sell, and the others want nothing, the decision is
  -- theirs: by unanimity, by majority and by weight. By weight this does not depend on the weights: a
  -- side that nobody opposes wins also where its voters weigh nothing together.
  pub decide-DecidesFor :
      (side : Side) (acts : side ≢ hold) (method : AggregationMethod) (weights : Dict String Float)
      (group : Group desk)
      → Counts method
      → All (Follows side acts) (values group)
      → Any (IsOn side acts) (values group)
      → DecidesFor side acts (decide desk method weights group)
  unfolding decide decide_unanimous
  decide-DecidesFor side acts unanimous weights group counts h on =
      agree-on side acts (keep (is_active desk) (values group))
        (hold_like_first desk (values group)) (keep-IsOn side acts (values group) h)
        (keep-some side acts (values group) on)
  decide-DecidesFor side acts majority weights group counts h on =
      weighted-on side acts _ group h on
  decide-DecidesFor side acts weighted weights group counts h on =
      weighted-on side acts _ group h on
  decide-DecidesFor side acts priority weights group counts h on = absurd counts
  decide-DecidesFor side acts independent weights group counts h on = absurd counts
