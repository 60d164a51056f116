-- ===== src/Lifecycle/Gates.antt =====
-- The gates of a promotion, stated on the record that it leaves and not by the tests of the code.
use nexus_trade_engine.Prelude.{
  String, ◌≡◌, ◌≢◌, ◌⊎◌, refl, ◌∙◌, Option, none, some, true, false, ok, arith, inl, inr, contains,
  subst,
}
use nexus_trade_engine.Prelude.Int.{ℤ, ltb_ℤ, ◌≤ℤ◌}
use nexus_trade_engine.Prelude.Floats.{Floats}
use nexus_trade_engine.Prelude.Text.{truthy}
use nexus_trade_engine.Lifecycle.{
  LifecycleStage, draft, backtest, paper, live, retired, Thresholds, LifecycleTransition,
  valid_transitions, gate_backtest_to_paper, gate_paper_to_live, may_promote, not_elapsed,
  absent_or, present_and, stage_eq, min_paper_days, max_plausible_paper_days,
}

module _ (floats : Floats) (limits : Thresholds floats) where
  open floats use {sub, div, lt}
  open limits use {
    min_sharpe_for_paper, max_drawdown_pct_for_paper, min_paper_sharpe, max_plausible_sharpe,
    seconds_per_day, of_days,
  }

  abbrev Transition : Type 0
  Transition = LifecycleTransition floats

  -- The evidence of a backtest, on the record of a promotion to paper trading.
  pub record Backtested (t : Transition) : Type 0 where
    pub to_paper : t.target ≡ paper
    pub backtest_named : (b : String) × (t.evidence.backtest_id ≡ some b) × (truthy b ≡ true)
    pub sharpe_in_range :
        (s : floats.Float) × (t.evidence.sharpe ≡ some s)
        × (lt s min_sharpe_for_paper ≡ false)
        × (lt max_plausible_sharpe s ≡ false)
    pub drawdown_in_range :
        (d : floats.Float) × (t.evidence.max_drawdown_pct ≡ some d)
        × (lt max_drawdown_pct_for_paper d ≡ false)

  -- Where the window has a start, the days have passed at the time of the record.
  abbrev pub HasElapsed : Transition → ℤ → Type 0
  HasElapsed t days =
      (t.evidence.paper_window_start_epoch ≡ none)
      ⊎ ((start : floats.Float) × (t.evidence.paper_window_start_epoch ≡ some start)
          × (lt (div (sub t.at_epoch start) seconds_per_day) (of_days days) ≡ false))

  -- The evidence of paper trading, on the record of a promotion to live trading.
  pub record PaperTraded (t : Transition) : Type 0 where
    pub to_live : t.target ≡ live
    pub days_in_range :
        (n : ℤ) × (t.evidence.paper_days ≡ some n)
        × (min_paper_days ≤ℤ n)
        × (n ≤ℤ max_plausible_paper_days)
        × HasElapsed t n
    pub paper_sharpe_in_range :
        (s : floats.Float) × (t.evidence.paper_sharpe ≡ some s)
        × (lt s min_paper_sharpe ≡ false)
        × (lt max_plausible_sharpe s ≡ false)

  -- The promotions there are: one stage further, with the evidence that the new stage asks for, or
  -- into retirement.
  pub data IsGated (t : Transition) (current target : LifecycleStage) : Type 0 where
    to_backtest : current ≡ draft → target ≡ backtest → IsGated t current target
    to_paper : current ≡ backtest → target ≡ paper → Backtested t → IsGated t current target
    to_live : current ≡ paper → target ≡ live → PaperTraded t → IsGated t current target
    to_retired : current ≢ retired → target ≡ retired → IsGated t current target

  gate-Backtested :
      (t : Transition)
      → may_promote floats limits t.at_epoch (some backtest) paper t.evidence ≡ ok tt
      → t.target ≡ paper
      → Backtested t
  unfolding may_promote gate_backtest_to_paper
  gate-Backtested t h e = ground arith

  elapsed :
      (t : Transition) (n : ℤ)
      → t.evidence.paper_days ≡ some n
      → not_elapsed floats limits t.at_epoch t.evidence ≡ false
      → HasElapsed t n
  elapsed t n days h = ground arith

  days-in_range :
      (days : Option ℤ)
      → absent_or days (λ d. ltb_ℤ d min_paper_days) ≡ false
      → present_and days (λ d. ltb_ℤ max_plausible_paper_days d) ≡ false
      → (n : ℤ) × (days ≡ some n) × (min_paper_days ≤ℤ n) × (n ≤ℤ max_plausible_paper_days)
  days-in_range none long short = cc
  days-in_range (some n) long short = (n, refl, ground arith, ground arith)

  gate-PaperTraded :
      (t : Transition)
      → may_promote floats limits t.at_epoch (some paper) live t.evidence ≡ ok tt
      → t.target ≡ live
      → PaperTraded t
  unfolding may_promote gate_paper_to_live
  gate-PaperTraded t h e =
      let (n, days, long, short) =
        days-in_range t.evidence.paper_days (ground arith) (ground arith) in
      record {
        to_live = e;
        days_in_range = (n, days, long, short, elapsed t n days (ground arith));
        paper_sharpe_in_range = ground arith;
      }

  -- The entries of the transition table.
  valid-cases :
      (s target : LifecycleStage)
      → contains (valid_transitions s) target ≡ true
      → ((s ≡ draft) × (target ≡ backtest))
        ⊎ ((s ≡ backtest) × (target ≡ paper))
        ⊎ ((s ≡ paper) × (target ≡ live))
        ⊎ ((s ≢ retired) × (target ≡ retired))
  unfolding valid_transitions
  valid-cases s target h = ground arith

  allowed :
      (t : Transition) (s target : LifecycleStage)
      → may_promote floats limits t.at_epoch (some s) target t.evidence ≡ ok tt
      → contains (valid_transitions s) target ≡ true
  unfolding may_promote
  allowed t s target h = ground arith

  -- What `may_promote` lets pass is a promotion of the list above.
  pub may_promote-IsGated :
      (t : Transition) (s target : LifecycleStage)
      → may_promote floats limits t.at_epoch (some s) target t.evidence ≡ ok tt
      → t.target ≡ target
      → IsGated t s target
  may_promote-IsGated t s target h e =
      let passes = λ (a b : LifecycleStage).
        may_promote floats limits t.at_epoch (some a) b t.evidence ≡ ok tt in
      elim (valid-cases s target (allowed t s target h)) [
        | inl (p, q) ↦ to_backtest p q
        | inr (inl (p, q)) ↦ to_paper p q (
            gate-Backtested t (subst (passes backtest) q (subst (λ x. passes x target) p h))
              (e ∙ q))
        | inr (inr (inl (p, q))) ↦
            to_live p q (
              gate-PaperTraded t (subst (passes paper) q (subst (λ x. passes x target) p h))
                (e ∙ q))
        | inr (inr (inr (p, q))) ↦ to_retired p q
      ]
