-- ===== src/Lifecycle.antt =====
-- engine/core/strategy_lifecycle.py: the stages of a strategy and their gates. A call holds the
-- strategy's lock from the first read to the last write, so it is one step; the clock is the
-- argument `now`, one reading for the gate and the record. Metrics in the evidence are floats.
pub mod Gates
pub mod Earned
pub mod Reach
use nexus_trade_engine.Prelude.{
  ℕ, String, ◌≡◌, ◌↔◌, Option, none, some, Bool, true, false, not, ◌&&◌, ◌||◌, List, [], ◌∷◌, ◌++◌,
  Outcome, ok, err, ◌>>=◌, ◌>>◌, raise_if, arith, Eq, nat_beq, contains, string_eq, Dict, lookup,
  insert, if◌then◌else◌, ltb, nat_eq,
}
use nexus_trade_engine.Prelude.Int.{ℤ, pos, ltb_ℤ}
use nexus_trade_engine.Prelude.Floats.{Floats}
use nexus_trade_engine.Prelude.Text.{truthy}

pub data LifecycleStage : Type 0 where
  draft backtest paper live retired : LifecycleStage

abbrev stage_index : LifecycleStage → ℕ
stage_index draft = 0
stage_index backtest = 1
stage_index paper = 2
stage_index live = 3
stage_index retired = 4

abbrev pub stage_beq : LifecycleStage → LifecycleStage → Bool
stage_beq a b = nat_beq (stage_index a) (stage_index b)

pub stage_beq_iff : (a b : LifecycleStage) → (stage_beq a b ≡ true) ↔ (a ≡ b)
stage_beq_iff a b = ground arith

instance abbrev pub stage_eq : Eq LifecycleStage
stage_eq = record { same_key = stage_beq; same_iff = stage_beq_iff }

-- The reasons for an `InvalidTransitionError`.
pub data InvalidTransition : Type 0 where
  no_current_stage not_allowed : InvalidTransition
  no_backtest sharpe_too_low sharpe_implausible drawdown_too_high : InvalidTransition
  paper_too_short paper_implausible window_not_elapsed : InvalidTransition
  paper_sharpe_too_low paper_sharpe_implausible : InvalidTransition

-- `_VALID_TRANSITIONS`, which has an entry for every stage.
unfoldable pub valid_transitions : LifecycleStage → List LifecycleStage
valid_transitions draft = backtest ∷ retired ∷ []
valid_transitions backtest = paper ∷ retired ∷ []
valid_transitions paper = live ∷ retired ∷ []
valid_transitions live = retired ∷ []
valid_transitions retired = []

abbrev pub min_paper_days : ℤ
min_paper_days = pos 7

abbrev pub max_plausible_paper_days : ℤ
max_plausible_paper_days = pos 730

-- The float constants of the module, and the conversion of a number of days.
pub record Thresholds (floats : Floats) : Type 0 where
  pub min_sharpe_for_paper : floats.Float
  pub max_drawdown_pct_for_paper : floats.Float
  pub min_paper_sharpe : floats.Float
  pub max_plausible_sharpe : floats.Float
  pub seconds_per_day : floats.Float
  pub of_days : ℤ → floats.Float

-- `value is None or test(value)`
abbrev pub absent_or {ℓ} : {A : Type ℓ} → Option A → (A → Bool) → Bool
absent_or none test = true
absent_or (some value) test = test value

-- `value is not None and test(value)`
abbrev pub present_and {ℓ} : {A : Type ℓ} → Option A → (A → Bool) → Bool
present_and none test = false
present_and (some value) test = test value

module _ (floats : Floats) where
  open floats use {Float, sub, div, lt}

  pub record LifecycleEvidence : Type 0 where
    pub backtest_id : Option String
    pub sharpe : Option Float
    pub max_drawdown_pct : Option Float
    pub paper_days : Option ℤ
    pub paper_sharpe : Option Float
    pub paper_window_start_epoch : Option Float
    pub reason : Option String

  pub record LifecycleTransition : Type 0 where
    pub strategy_id : String
    pub target : LifecycleStage
    pub evidence : LifecycleEvidence
    pub at_epoch : Float

  -- `StrategyLifecycleService`: the stages, and the recorded transitions of each strategy.
  pub record LifecycleService : Type 0 where
    pub stage : Dict String LifecycleStage
    pub history : Dict String (List LifecycleTransition)

  abbrev pub no_evidence : LifecycleEvidence
  no_evidence = record {
    backtest_id = none;
    sharpe = none;
    max_drawdown_pct = none;
    paper_days = none;
    paper_sharpe = none;
    paper_window_start_epoch = none;
    reason = none;
  }

  module _ (limits : Thresholds floats) where
    open limits use {
      min_sharpe_for_paper, max_drawdown_pct_for_paper, min_paper_sharpe, max_plausible_sharpe,
      seconds_per_day, of_days,
    }

    -- `not evidence.backtest_id`
    abbrev no_id : Option String → Bool
    no_id o = absent_or o (λ s. not (truthy s))

    -- `_gate_backtest_to_paper`
    unfoldable pub gate_backtest_to_paper : LifecycleEvidence → Outcome InvalidTransition (Unit {0})
    gate_backtest_to_paper evidence = do
      raise_if (no_id evidence.backtest_id) no_backtest
      raise_if (absent_or evidence.sharpe (λ s. lt s min_sharpe_for_paper)) sharpe_too_low
      raise_if (present_and evidence.sharpe (λ s. lt max_plausible_sharpe s)) sharpe_implausible
      raise_if (absent_or evidence.max_drawdown_pct (λ d. lt max_drawdown_pct_for_paper d))
          drawdown_too_high

    -- Whether the days that the evidence claims have not passed since the start of its window.
    abbrev pub not_elapsed : Float → LifecycleEvidence → Bool
    not_elapsed now evidence = present_and evidence.paper_window_start_epoch (λ start.
        present_and evidence.paper_days
          (λ days. lt (div (sub now start) seconds_per_day) (of_days days)))

    -- `_gate_paper_to_live`
    unfoldable pub gate_paper_to_live :
        Float → LifecycleEvidence → Outcome InvalidTransition (Unit {0})
    gate_paper_to_live now evidence = do
      raise_if (absent_or evidence.paper_days (λ d. ltb_ℤ d min_paper_days)) paper_too_short
      raise_if (present_and evidence.paper_days (λ d. ltb_ℤ max_plausible_paper_days d))
          paper_implausible
      raise_if (not_elapsed now evidence) window_not_elapsed
      raise_if (absent_or evidence.paper_sharpe (λ s. lt s min_paper_sharpe)) paper_sharpe_too_low
      raise_if (present_and evidence.paper_sharpe (λ s. lt max_plausible_sharpe s))
          paper_sharpe_implausible

    -- `_GATES.get((current, target))`, called where there is one.
    unfoldable pub run_gate :
        Float
        → LifecycleStage
        → LifecycleStage
        → LifecycleEvidence
        → Outcome InvalidTransition (Unit {0})
    unfolding gate_backtest_to_paper gate_paper_to_live
    run_gate now backtest paper evidence = gate_backtest_to_paper evidence
    run_gate now paper live evidence = gate_paper_to_live now evidence
    run_gate now current target evidence = ok tt

    -- `self._history[strategy_id]` of a defaultdict.
    abbrev pub recorded : Option (List LifecycleTransition) → List LifecycleTransition
    recorded none = []
    recorded (some ts) = ts

    -- The writes at the end of both operations.
    unfoldable pub enter :
        Float
        → String
        → LifecycleStage
        → LifecycleEvidence
        → LifecycleService
        → LifecycleTransition × LifecycleService
    enter now strategy_id target evidence service =
        let t : LifecycleTransition = record {
          strategy_id = strategy_id;
          target = target;
          evidence = evidence;
          at_epoch = now;
        } in
        (
          t,
          record {
            stage = insert strategy_id target service.stage;
            history =
                insert strategy_id (recorded (lookup strategy_id service.history) ++ t ∷ [])
                  service.history;
          },
        )

    -- `set_stage`, which runs no gate.
    unfoldable pub set_stage :
        Float → String → LifecycleStage → LifecycleService → LifecycleTransition × LifecycleService
    unfolding enter
    set_stage now strategy_id stage service = enter now strategy_id stage no_evidence service

    -- The checks of `promote` on the current stage.
    unfoldable pub may_promote :
        Float
        → Option LifecycleStage
        → LifecycleStage
        → LifecycleEvidence
        → Outcome InvalidTransition (Unit {0})
    unfolding run_gate valid_transitions
    may_promote now none target evidence = err no_current_stage
    may_promote now (some current) target evidence = do
      raise_if (not (contains (valid_transitions current) target)) not_allowed
      run_gate now current target evidence

    -- `promote`: an error leaves the service as it was.
    unfoldable pub promote :
        Float
        → String
        → LifecycleStage
        → LifecycleEvidence
        → LifecycleService
        → Outcome InvalidTransition (LifecycleTransition × LifecycleService)
    unfolding may_promote enter
    promote now strategy_id target evidence service =
        may_promote now (lookup strategy_id service.stage) target evidence >>= λ _.
        ok (enter now strategy_id target evidence service)

  unfoldable current_stage : String → LifecycleService → Option LifecycleStage
  current_stage strategy_id service = lookup strategy_id service.stage
