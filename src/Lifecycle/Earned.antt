-- ===== src/Lifecycle/Earned.antt =====
-- No skipping: a stage that was reached by promotions was earned stage by stage, with the evidence
-- that each gate asks for on record.
use nexus_trade_engine.Prelude.{
  String, ◌≡◌, refl, some, List, [], ◌∷◌, ◌++◌, ok, Any, Any-append, Any-last, ◌==◌, string_eq,
  lookup, lookup-insert, if◌then◌else◌, >>=-eq-ok, string_eq,
}
use nexus_trade_engine.Prelude.Floats.{Floats}
use nexus_trade_engine.Lifecycle.{
  LifecycleStage, draft, paper, live, Thresholds, LifecycleEvidence, LifecycleTransition,
  LifecycleService, may_promote, promote, enter, recorded,
}
use nexus_trade_engine.Lifecycle.Gates.{
  Backtested, PaperTraded, IsGated, to_backtest, to_paper, to_live, to_retired,
}

module _ (floats : Floats) (limits : Thresholds floats) where
  abbrev Transition : Type 0
  Transition = LifecycleTransition floats

  -- The history of a strategy that was registered as a draft and then only promoted.
  pub data Earned : List Transition → LifecycleStage → Type 0 where
    registered : (t : Transition) → t.target ≡ draft → Earned (t ∷ []) draft
    promoted :
        {ts : List Transition} {current : LifecycleStage} (us : List Transition)
        (target : LifecycleStage) (t : Transition)
        → Earned ts current
        → IsGated floats limits t current target
        → us ≡ ts ++ t ∷ []
        → t.target ≡ target
        → Earned us target

  -- A strategy in paper trading has a gated backtest on record.
  Earned-paper :
      {ts : List Transition} {s : LifecycleStage}
      → Earned ts s
      → s ≡ paper
      → Any (Backtested floats limits) ts
  Earned-paper (registered t e) p = cc
  Earned-paper (promoted {ts} us target t past gate e r) p = elim gate [
    | to_backtest from to ↦ cc
    | to_paper from to evidence ↦ rw e (Any-last (Backtested floats limits) ts t evidence)
    | to_live from to evidence ↦ cc
    | to_retired from to ↦ cc
  ]

  -- A live strategy has on record a promotion to paper trading with the evidence of a backtest, and
  -- a promotion to live trading with the evidence of paper trading.
  Earned-live :
      {ts : List Transition} {s : LifecycleStage}
      → Earned ts s
      → s ≡ live
      → Any (Backtested floats limits) ts × Any (PaperTraded floats limits) ts
  Earned-live (registered t e) p = cc
  Earned-live (promoted {ts} us target t past gate e r) p = elim gate [
    | to_backtest from to ↦ cc
    | to_paper from to evidence ↦ cc
    | to_live from to evidence ↦ rw e (
      Any-append (Backtested floats limits) ts (t ∷ []) (Earned-paper past from),
      Any-last (PaperTraded floats limits) ts t evidence,
    )
    | to_retired from to ↦ cc
  ]

  -- Every strategy with a stage has earned it.
  abbrev pub IsEarned : LifecycleService floats → Type 0
  IsEarned service =
      (i : String) (s : LifecycleStage)
      → lookup i service.stage ≡ some s
      → (ts : List Transition) × (lookup i service.history ≡ some ts) × Earned ts s

  pub promote-ok :
      (now : floats.Float) (i : String) (target : LifecycleStage)
      (evidence : LifecycleEvidence floats) (service : LifecycleService floats)
      (r : Transition × LifecycleService floats)
      → promote floats limits now i target evidence service ≡ ok r
      → (may_promote floats limits now (lookup i service.stage) target evidence ≡ ok tt)
        × (r ≡ enter floats limits now i target evidence service)
  unfolding promote
  promote-ok now i target evidence service r h =
      let (a, passed, done) =
        >>=-eq-ok (may_promote floats limits now (lookup i service.stage) target evidence)
          (λ _. ok (enter floats limits now i target evidence service)) h in
      (passed, cc)

  -- What `enter` writes for the strategy, and that it leaves the others alone.
  pub enter-lookup :
      (now : floats.Float) (i j : String) (target : LifecycleStage)
      (evidence : LifecycleEvidence floats) (service : LifecycleService floats)
      → let service' = (enter floats limits now i target evidence service).1 in
        (lookup j service'.stage ≡ (if i == j then some target else lookup j service.stage))
        × (lookup j service'.history ≡ (
            if i == j
            then some (
                recorded floats limits (lookup i service.history)
                ++ (enter floats limits now i target evidence service).0 ∷ [])
            else lookup j service.history))
  unfolding enter
  enter-lookup now i j target evidence service = (lookup-insert i j _ _, lookup-insert i j _ _)

  -- Where the stage of every strategy was earned, a live strategy has on record a promotion to
  -- paper trading with the evidence of a backtest and one to live trading with the evidence of
  -- paper trading.
  pub live-on_record :
      (service : LifecycleService floats) (i : String)
      → IsEarned service
      → lookup i service.stage ≡ some live
      → (ts : List Transition) × (lookup i service.history ≡ some ts)
        × Any (Backtested floats limits) ts
        × Any (PaperTraded floats limits) ts
  live-on_record service i earned at =
      let (ts, past, e) = earned i live at in
      let (backtested, traded) = Earned-live e refl in (ts, past, backtested, traded)
