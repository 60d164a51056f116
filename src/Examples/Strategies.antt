-- ===== src/Examples/Strategies.antt =====
-- The life of a strategy, and of capital that is split among strategies.
use nexus_trade_engine.Prelude.{
  ℕ, String, ◌≡◌, refl, ◌*◌, some, List, [], ◌∷◌, ok, string_eq, ◌/◌, Dict,
}
use nexus_trade_engine.Prelude.Int.{ℤ, pos}
use nexus_trade_engine.Lifecycle.{
  set_stage, LifecycleStage, LifecycleEvidence, LifecycleTransition, LifecycleService, Thresholds,
  draft, backtest, paper, live, no_evidence, enter,
}
use nexus_trade_engine.Lifecycle.Earned.{Earned}
use nexus_trade_engine.Capital.{
  Number, real, allocate_capital, allocation_total, choose, apportion, read_weights, shares, share,
  distribute, sort_shares, insert_share, ranks_before, bump, bump_all,
}
use nexus_trade_engine.Capital.Sum.{allocate_capital-total}
use nexus_trade_engine.Examples.Limits.{whole}

-- The limits of the service in hundredths.
abbrev limits : Thresholds whole
limits = record {
  min_sharpe_for_paper = pos 50;
  max_drawdown_pct_for_paper = pos 25;
  min_paper_sharpe = pos 30;
  max_plausible_sharpe = pos 1000;
  seconds_per_day = pos 86400;
  of_days = λ n. n;
}

abbrev tested : LifecycleEvidence whole
tested = record (no_evidence whole) {
  backtest_id = some "bt-1";
  sharpe = some (pos 120);
  max_drawdown_pct = some (pos 10);
}

abbrev traded : LifecycleEvidence whole
traded = record (no_evidence whole) {
  paper_days = some (pos 8);
  paper_sharpe = some (pos 70);
  paper_window_start_epoch = some (pos 1000);
}

abbrev entry : ℤ → LifecycleStage → LifecycleEvidence whole → LifecycleTransition whole
entry at stage evidence = record {
  strategy_id = "s";
  target = stage;
  evidence = evidence;
  at_epoch = at;
}

-- A strategy that went from the draft to paper trading.
abbrev history : List (LifecycleTransition whole)
history =
    entry (pos 1) draft (no_evidence whole)
    ∷ entry (pos 2) backtest (no_evidence whole)
    ∷ entry (pos 3) paper tested
    ∷ []

abbrev service : LifecycleService whole
service = record { stage = ("s", paper) ∷ []; history = ("s", history) ∷ [] }

abbrev later : ℤ
later = pos 900000

-- The same strategy from an empty service on.
abbrev drafted : LifecycleService whole
drafted = (set_stage whole limits (pos 1) "s" draft (record { stage = []; history = [] })).1

abbrev backtested : LifecycleService whole
backtested = (enter whole limits (pos 2) "s" backtest (no_evidence whole) drafted).1

abbrev on_paper : LifecycleService whole
on_paper = (enter whole limits (pos 3) "s" paper tested backtested).1

abbrev on_live : LifecycleService whole
on_live = (enter whole limits later "s" live traded on_paper).1

-- A share is counted in millionths of a cent.
abbrev divide_down : ℕ → ℕ → ℕ → ℕ
divide_down cents w sum = cents * w * 1_000_000 / sum

abbrev thirds : Dict String Number
thirds = ("a", real (pos 1)) ∷ ("b", real (pos 1)) ∷ ("c", real (pos 1)) ∷ []

-- Ten dollars in three equal parts.
thirds_allocated :
    allocate_capital 1 1_000_000 divide_down (real (pos 10)) (some thirds)
    ≡ ok (("a", 334) ∷ ("b", 333) ∷ ("c", 333) ∷ [])
unfolding allocate_capital choose apportion read_weights shares share distribute sort_shares
    insert_share ranks_before bump bump_all
thirds_allocated = refl

allocate_capital-total_example :
    allocation_total (("a", 334) ∷ ("b", 333) ∷ ("c", 333) ∷ []) ≡ 10 * 100 / 1
allocate_capital-total_example =
    allocate_capital-total 1 1_000_000 divide_down (pos 10) (some thirds)
      (("a", 334) ∷ ("b", 333) ∷ ("c", 333) ∷ []) thirds_allocated
