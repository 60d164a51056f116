-- ===== src/Oms/Risk/Gate.antt =====
-- The gate approves when every check does, and otherwise reports the first that rejects.
use nexus_trade_engine.Prelude.{
  String, ◌≡◌, ◌↔◌, refl, Option, none, some, List, [], ◌∷◌, ◌++◌, map, arith, All, ◌⊎◌, inl, inr,
}
use nexus_trade_engine.Prelude.Int.{ℤ, pos, ◌≤ℤ◌, ◌*ℤ◌}
use nexus_trade_engine.Oms.Order.{Order}
use nexus_trade_engine.Oms.Risk.{
  RiskCheck, CheckResult, approve, reject, kill_switch_check, max_order_quantity,
  max_order_notional, custom, check_name, risk_check, risk_rejected, run_check, evaluate,
}
use nexus_trade_engine.Live.KillSwitch.{KillSwitch, disengaged, is_engaged}

pub result-cases : (r : CheckResult) → (r ≡ approve) ⊎ ((reason : String) × (r ≡ reject reason))
result-cases approve = inl refl
result-cases (reject reason) = inr (reason, refl)

module _ (decimal_text : ℤ → String) (switch : KillSwitch) (o : Order) (price : Option ℤ) where
  -- The check lets the order pass.
  abbrev pub Passes : RiskCheck → Type 0
  Passes check = run_check decimal_text switch check o price ≡ approve

  evaluate-cons :
      (check : RiskCheck) (checks : List RiskCheck)
      → Passes check
      → evaluate decimal_text switch (check ∷ checks) o price ≡ (
        (evaluate decimal_text switch checks o price).0,
        risk_check (check_name check) o.symbol "approve"
            ∷ (evaluate decimal_text switch checks o price).1,
      )
  unfolding evaluate
  evaluate-cons check checks h = ground arith

  evaluate-cons_reject :
      (check : RiskCheck) (checks : List RiskCheck) (reason : String)
      → run_check decimal_text switch check o price ≡ reject reason
      → (evaluate decimal_text switch (check ∷ checks) o price).0 ≡ reject reason
  unfolding evaluate
  evaluate-cons_reject check checks reason h = ground arith

  evaluate-nil : (evaluate decimal_text switch [] o price).0 ≡ approve
  unfolding evaluate
  evaluate-nil = refl

  -- The gate approves an order exactly when every check approves it.
  pub evaluate-approve :
      (checks : List RiskCheck)
      → ((evaluate decimal_text switch checks o price).0 ≡ approve) ↔ All Passes checks
  evaluate-approve [] = (λ h. tt, λ h. evaluate-nil)
  evaluate-approve (check ∷ checks) =
      elim (result-cases (run_check decimal_text switch check o price)) [
        | inl passes ↦
            rw (evaluate-cons check checks passes)
              (λ h. (passes, (evaluate-approve checks).0 h), λ h. (evaluate-approve checks).1 h.1)
        | inr (reason, rejects) ↦
            rw (evaluate-cons_reject check checks reason rejects) (λ h. cc, λ h. cc h.0)
      ]

  -- When the checks before it approve and a check rejects, its reason is the answer: the checks
  -- behind it, whatever they are, are not asked and leave no counter.
  pub evaluate-reject :
      (before after : List RiskCheck) (check : RiskCheck) (reason : String)
      → All Passes before
      → run_check decimal_text switch check o price ≡ reject reason
      → evaluate decimal_text switch (before ++ check ∷ after) o price ≡ (
        reject reason,
        map (λ c. risk_check (check_name c) o.symbol "approve") before
            ++ risk_check (check_name check) o.symbol "reject"
              ∷ risk_rejected (check_name check) o.symbol
              ∷ [],
      )
  unfolding evaluate
  evaluate-reject [] after check reason h r = ground arith
  evaluate-reject (c ∷ before) after check reason h r =
      rw (evaluate-cons c (before ++ check ∷ after) h.0)
        (rw (evaluate-reject before after check reason h.1 r))

-- What the built-in checks ask of an order.
abbrev Within : KillSwitch → Order → Option ℤ → RiskCheck → Type 0
Within switch o price kill_switch_check = switch.state ≡ disengaged
Within switch o price (max_order_quantity limit) = o.quantity ≤ℤ limit
Within switch o none (max_order_notional limit) = Unit
Within switch o (some price) (max_order_notional limit) =
    (price ≤ℤ pos 0) ⊎ (o.quantity *ℤ price ≤ℤ limit)
Within switch o price (custom name check) = check o price ≡ approve

module _ (decimal_text : ℤ → String) (switch : KillSwitch) (o : Order) where
  -- A check approves exactly when what it asks for holds: the switch is disengaged, the quantity is
  -- at most its limit, the notional is at most its limit or there is no positive reference price,
  -- or the supplied function approves.
  pub run_check-approve :
      (price : Option ℤ) (check : RiskCheck)
      → (run_check decimal_text switch check o price ≡ approve) ↔ Within switch o price check
  unfolding run_check is_engaged
  run_check-approve price kill_switch_check = (λ h. ground arith, λ h. ground arith)
  run_check-approve price (max_order_quantity limit) = (λ h. ground arith, λ h. ground arith)
  run_check-approve none (max_order_notional limit) = (λ h. tt, λ h. refl)
  run_check-approve (some p) (max_order_notional limit) = (λ h. ground arith, λ h. ground arith)
  run_check-approve price (custom name check) = (λ h. h, λ h. h)
