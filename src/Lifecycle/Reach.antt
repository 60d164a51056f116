-- ===== src/Lifecycle/Reach.antt =====
-- The lifecycle service from its start: strategies are registered as drafts and promoted.
use nexus_trade_engine.Prelude.{String, ◌≡◌, none, [], ok, string_eq, lookup}
use nexus_trade_engine.Prelude.Floats.{Floats}
use nexus_trade_engine.Lifecycle.{
  LifecycleStage, draft, Thresholds, LifecycleEvidence, LifecycleTransition, LifecycleService,
  promote, set_stage,
}
use nexus_trade_engine.Lifecycle.Earned.{Earned, IsEarned}

module _ (floats : Floats) (limits : Thresholds floats) where
  -- The services that registrations of new strategies as drafts and promotions lead to.
  pub data Reached : LifecycleService floats → Type 0 where
    created : Reached (record { stage = []; history = [] })
    set_up :
        (now : floats.Float) (i : String) (service : LifecycleService floats)
        → Reached service
        → lookup i service.stage ≡ none
        → Reached (set_stage floats limits now i draft service).1
    advanced :
        (now : floats.Float) (i : String) (target : LifecycleStage)
        (evidence : LifecycleEvidence floats) (service : LifecycleService floats)
        (r : LifecycleTransition floats × LifecycleService floats)
        → Reached service
        → promote floats limits now i target evidence service ≡ ok r
        → Reached r.1

  -- Every stage is earned, and nothing is on record of a strategy without one.
  record IsTraced (service : LifecycleService floats) : Type 0 where
    earned : IsEarned floats limits service
    unrecorded : (j : String) → lookup j service.stage ≡ none → lookup j service.history ≡ none
