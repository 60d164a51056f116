-- ===== src/OrderManager/Daily.antt =====
-- What the risk engine remembers: the trades of a day and the circuit breaker.
use nexus_trade_engine.Prelude.{
  ℕ, suc, ◌+◌, ◌≤◌, ◌<◌, ◌≡◌, refl, Bool, true, false, List, [], ◌∷◌, if◌then◌else◌, string_eq,
  arith, Bool-cases, inl, inr,
}
use nexus_trade_engine.Portfolio.{Portfolio}
use nexus_trade_engine.OrderManager.{Desk, Order}
use nexus_trade_engine.OrderManager.Risk.{RiskEngine, check_order, drawdown}

module _ (desk : Desk) where
  open desk use {money, Float, le}

  -- A check that is asked for.
  pub record Query : Type 0 where
    pub order : Order desk
    pub portfolio : Portfolio money
    pub market_price : Float

  abbrev pub asked : Query → RiskEngine desk → Bool
  asked q engine = (check_order desk q.order q.portfolio q.market_price engine).1.approved

  abbrev pub after_check : Query → RiskEngine desk → RiskEngine desk
  after_check q engine = (check_order desk q.order q.portfolio q.market_price engine).0

  -- How many of the checks approve.
  unfoldable pub approvals : List Query → RiskEngine desk → ℕ
  approvals [] engine = 0
  approvals (q ∷ qs) engine =
      let rest = approvals qs (after_check q engine) in if asked q engine then suc rest else rest

  -- What a check does to the engine.
  record Remembers (engine engine' : RiskEngine desk) (lost approved : Bool) : Type 0 where
    same_limit : engine'.max_daily_trades ≡ engine.max_daily_trades
    counted :
        engine'.daily_trade_count
        ≡ (if approved then suc engine.daily_trade_count else engine.daily_trade_count)
    below : approved ≡ true → engine.daily_trade_count < engine.max_daily_trades
    trips : lost ≡ true → (approved ≡ false) × (engine'.circuit_breaker_active ≡ true)
    latched :
        engine.circuit_breaker_active ≡ true
        → (approved ≡ false) × (engine'.circuit_breaker_active ≡ true)

  check_order-Remembers :
      (q : Query) (engine : RiskEngine desk)
      → Remembers engine
          (after_check q engine)
          (le engine.circuit_breaker_drawdown_pct (drawdown desk q.portfolio))
          (asked q engine)
  unfolding check_order
  check_order-Remembers q engine = record {
    same_limit = ground arith;
    counted = ground arith;
    below = ground arith;
    trips = λ h. (ground (arith, h), ground (arith, h));
    latched = λ h. (ground (arith, h), ground (arith, h));
  }

  -- The trades of a day that are approved are no more than may be, those before included.
  pub approvals-daily :
      (qs : List Query) (engine : RiskEngine desk)
      → engine.daily_trade_count ≤ engine.max_daily_trades
      → approvals qs engine + engine.daily_trade_count ≤ engine.max_daily_trades
  unfolding approvals
  approvals-daily [] engine h = omega (arith, h)
  approvals-daily (q ∷ qs) engine h =
      let r = check_order-Remembers q engine in
      elim (Bool-cases (asked q engine)) [
        | inl granted ↦
            let count : (after_check q engine).daily_trade_count ≡ suc engine.daily_trade_count =
              rw granted at r.counted in
            let rest =
              approvals-daily qs (after_check q engine)
                (omega (arith, count, r.below granted, r.same_limit)) in
            rw granted (omega (arith, rest, count, r.same_limit))
        | inr denied ↦
            let count : (after_check q engine).daily_trade_count ≡ engine.daily_trade_count =
              rw denied at r.counted in
            let rest =
              approvals-daily qs (after_check q engine) (omega (arith, count, h, r.same_limit)) in
            rw denied (omega (arith, rest, count, r.same_limit))
      ]

  latched_lem :
      (qs : List Query) (engine : RiskEngine desk)
      → engine.circuit_breaker_active ≡ true
      → approvals qs engine ≡ 0
  unfolding approvals
  latched_lem [] engine h = refl
  latched_lem (q ∷ qs) engine h =
      let r = check_order-Remembers q engine in
      let (denied, still) = r.latched h in rw denied (latched_lem qs (after_check q engine) still)

  -- A check on a portfolio that has lost as much as the limit allows, or more, is refused, and so are
  -- all the checks that follow it with no reset of the circuit breaker between them, whatever the
  -- portfolio has become.
  pub check_order-latches :
      (q : Query) (qs : List Query) (engine : RiskEngine desk)
      → le engine.circuit_breaker_drawdown_pct (drawdown desk q.portfolio) ≡ true
      → approvals (q ∷ qs) engine ≡ 0
  unfolding approvals
  check_order-latches q qs engine lost =
      let (denied, tripped) = (check_order-Remembers q engine).trips lost in
      rw denied (latched_lem qs (after_check q engine) tripped)
