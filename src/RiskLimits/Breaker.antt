-- ===== src/RiskLimits/Breaker.antt =====
-- The circuit breaker of the gate: once tripped it refuses everything until it is reset.
use nexus_trade_engine.Prelude.{
  ℕ, ◌≡◌, refl, Option, none, some, true, false, List, [], ◌∷◌, arith, All, ◌↔◌, ◌⊎◌, inl, inr,
  Bool-cases,
}
use nexus_trade_engine.Prelude.Floats.{Floats}
use nexus_trade_engine.RiskLimits.{
  Breach, circuit_breaker, daily_loss, OrderIntent, AccountState, RiskGate, RiskDecision,
  check_breaker, static_breaches, decide, check, loses_too_much,
}

module _ (floats : Floats) where
  open floats use {Float}

  decide-refuses :
      (max_orders : Option ℕ) (window now : Float) (timestamps : List Float) (b : Breach)
      (bs : List Breach)
      → (decide floats max_orders window now timestamps (b ∷ bs)).0.approved ≡ false
  unfolding decide
  decide-refuses none window now timestamps b bs = refl
  decide-refuses (some m) window now timestamps b bs = refl

  check-tripped :
      (now : Float) (intent : OrderIntent floats) (account : AccountState floats)
      (gate : RiskGate floats)
      → gate.circuit_breaker_tripped ≡ true
      → ((check floats now intent account gate).0.approved ≡ false)
        × ((check floats now intent account gate).1.circuit_breaker_tripped ≡ true)
  unfolding check check_breaker static_breaches
  check-tripped now intent account gate t = (rw t (decide-refuses _ _ _ _ circuit_breaker _), rw t)

  -- One check: the clock's reading, the order and the account.
  pub record Query : Type 0 where
    pub now : Float
    pub intent : OrderIntent floats
    pub account : AccountState floats

  -- The decisions on a list of checks, and the gate after them.
  unfoldable pub check_all :
      List Query → RiskGate floats → List (RiskDecision floats) × RiskGate floats
  check_all [] gate = ([], gate)
  check_all (q ∷ qs) gate =
      let (decision, gate') = check floats q.now q.intent q.account gate in
      let (decisions, gate'') = check_all qs gate' in (decision ∷ decisions, gate'')

  -- A gate whose breaker is tripped refuses every order of any sequence of checks, whatever the
  -- accounts say by then, and its breaker stays tripped.
  pub check_all-tripped :
      (qs : List Query) (gate : RiskGate floats)
      → gate.circuit_breaker_tripped ≡ true
      → All (λ (d : RiskDecision floats). d.approved ≡ false) (check_all qs gate).0
        × ((check_all qs gate).1.circuit_breaker_tripped ≡ true)
  unfolding check_all
  check_all-tripped [] gate t = (tt, t)
  check_all-tripped (q ∷ qs) gate t =
      let (refused, still) = check-tripped q.now q.intent q.account gate t in
      let (rest, last) =
        check_all-tripped qs (check floats q.now q.intent q.account gate).1 still in
      ((refused, rest), last)

  breaker-refuses :
      (account : AccountState floats) (gate : RiskGate floats)
      → (check_breaker floats gate account).0 ≡ true
      → (b : Breach) × ((check_breaker floats gate account).1 ≡ b ∷ [])
  unfolding check_breaker
  breaker-refuses account gate h = elim (Bool-cases gate.circuit_breaker_tripped) [
    | inl t ↦ (circuit_breaker, ground arith)
    | inr n ↦ (daily_loss, ground arith)
  ]

  breaker_iff :
      (account : AccountState floats) (gate : RiskGate floats)
      → ((check_breaker floats gate account).0 ≡ true)
        ↔ (gate.circuit_breaker_tripped ≡ true) ⊎ (loses_too_much floats gate.limits account ≡ true)
  unfolding check_breaker
  breaker_iff account gate = (λ h. ground arith, λ h. ground arith)

  -- A check leaves the breaker tripped exactly when it was tripped or the account loses too much,
  -- and then refuses the order.
  check-trips :
      (now : Float) (intent : OrderIntent floats) (account : AccountState floats)
      (gate : RiskGate floats)
      → let (decision, gate') = check floats now intent account gate in
        (gate'.circuit_breaker_tripped ≡ true
          ↔ (gate.circuit_breaker_tripped ≡ true)
            ⊎ (loses_too_much floats gate.limits account ≡ true))
        × (gate'.circuit_breaker_tripped ≡ true → decision.approved ≡ false)
  unfolding check static_breaches
  check-trips now intent account gate = (
    breaker_iff account gate,
    λ h. let (b, e) = breaker-refuses account gate h in rw e (decide-refuses _ _ _ _ b _),
  )
