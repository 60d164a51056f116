-- ===== src/Live/Loop/Safety.antt =====
-- When an order reaches the broker, and that the kill switch stops it.
use nexus_trade_engine.Prelude.{
  ℕ, String, ◌≡◌, ◌≢◌, refl, subst, Option, none, some, false, List, [], ◌∷◌, Outcome, ok, err,
  arith, All, ◌⊎◌, inl, inr,
}
use nexus_trade_engine.Prelude.Int.{ℤ}
use nexus_trade_engine.Oms.States
use nexus_trade_engine.Oms.States.{can_transition}
use nexus_trade_engine.Oms.Events.{OrderEvent, submit_event}
use nexus_trade_engine.Oms.Order.{Order, OmsError, illegal_transition, apply_event, with_status}
use nexus_trade_engine.Oms.Risk.{RiskCheck, kill_switch_check, approve, reject, evaluate, run_check}
use nexus_trade_engine.Oms.Risk.Gate.{Passes, evaluate-approve, run_check-approve, result-cases}
use nexus_trade_engine.Live.KillSwitch.{KillSwitch, engaged}
use nexus_trade_engine.Live.Loop.{
  LiveLoop, BrokerReply, accepted, auth_error, connection_error, other_error, reject_error,
  oms_error, settle, settle_submitted, after_broker, after_gate, submit, apply_found, apply_known,
  apply_broker_event,
}

-- One of the checks is the kill switch's.
abbrev HasKillSwitch : List RiskCheck → Type 0
HasKillSwitch [] = ⊥
HasKillSwitch (check ∷ checks) = (check ≡ kill_switch_check) ⊎ HasKillSwitch checks

-- What a call leaves alone: the checks, and the broker is not called.
pub record Untouched (loop loop' : LiveLoop) : Type 0 where
  pub checks_same : loop'.checks ≡ loop.checks
  pub sent_same : loop'.sent ≡ loop.sent
  pub switch_same : loop'.kill_switch ≡ loop.kill_switch

settle-Untouched : (r : Outcome OmsError Order) (loop : LiveLoop) → Untouched loop (settle r loop).1
unfolding settle
settle-Untouched (ok u) loop = ground arith
settle-Untouched (err x) loop = ground arith

settle_submitted-sent :
    (r : Outcome OmsError Order) (b : String) (loop : LiveLoop)
    → (settle_submitted r b loop).1.sent ≡ loop.sent
unfolding settle_submitted
settle_submitted-sent (ok u) b loop = refl
settle_submitted-sent (err x) b loop = refl

module _ (divide : ℤ → ℤ → ℤ) where
  after_broker-sent :
      (now : ℕ) (o : Order) (reply : BrokerReply) (loop : LiveLoop)
      → (after_broker divide now o reply loop).1.sent ≡ loop.sent
  unfolding after_broker
  after_broker-sent now o (accepted b) loop = settle_submitted-sent _ b loop
  after_broker-sent now o auth_error loop = refl
  after_broker-sent now o (reject_error m code) loop = (settle-Untouched _ loop).sent_same
  after_broker-sent now o connection_error loop = refl
  after_broker-sent now o other_error loop = refl

  after_gate-sent :
      (now : ℕ) (o : Order) (reply : BrokerReply) (loop : LiveLoop)
      → (after_gate divide approve now o reply loop).1.sent ≡ o ∷ loop.sent
  unfolding after_gate
  after_gate-sent now o reply loop =
      after_broker-sent now o reply (record loop { sent = o ∷ loop.sent })

  after_gate-Untouched :
      (reason : String) (now : ℕ) (o : Order) (reply : BrokerReply) (loop : LiveLoop)
      → Untouched loop (after_gate divide (reject reason) now o reply loop).1
  unfolding after_gate
  after_gate-Untouched reason now o reply loop = settle-Untouched _ loop

not-to-submitted :
    (s : States.OrderStatus) → s ≢ States.new → can_transition s States.submitted ≡ false
unfolding can_transition
not-to-submitted s n = ground arith

submit_event-refused :
    (divide : ℤ → ℤ → ℤ) (o : Order) (now : ℕ) (b : Option String)
    → o.status ≢ States.new
    → apply_event divide o (submit_event now b) ≡ err (illegal_transition o.status States.submitted)
unfolding apply_event with_status
submit_event-refused divide o now b n = rw (not-to-submitted o.status n)

kill_switch-fails :
    (decimal_text : ℤ → String) (switch : KillSwitch) (o : Order) (price : Option ℤ)
    (checks : List RiskCheck)
    → HasKillSwitch checks
    → switch.state ≡ engaged
    → ¬ All (Passes decimal_text switch o price) checks
kill_switch-fails text switch o price [] k e h = k
kill_switch-fails text switch o price (check ∷ checks) (inl same) e h = cc (
    (run_check-approve text switch o price kill_switch_check).0
      (subst (λ c. run_check text switch c o price ≡ approve) same h.0))
kill_switch-fails text switch o price (check ∷ checks) (inr k) e h =
    kill_switch-fails text switch o price checks k e h.1

module _ (divide : ℤ → ℤ → ℤ) (decimal_text : ℤ → String) where
  -- Either every check approves the order, and it is handed to the broker once, or not every check
  -- does, and the broker is not called and the checks and the switch stay as they are.
  pub submit-sent :
      (now : ℕ) (o : Order) (price : Option ℤ) (reply : BrokerReply) (loop : LiveLoop)
      → let loop' = (submit divide decimal_text now o price reply loop).1 in
        All (Passes decimal_text loop.kill_switch o price) loop.checks
          × (loop'.sent ≡ o ∷ loop.sent)
        ⊎ (¬ All (Passes decimal_text loop.kill_switch o price) loop.checks) × Untouched loop loop'
  unfolding submit
  submit-sent now o price reply loop =
      let verdict = (evaluate decimal_text loop.kill_switch loop.checks o price).0 in
      let judged = evaluate-approve decimal_text loop.kill_switch o price loop.checks in
      elim (result-cases verdict) [
        | inl passes ↦ inl (judged.0 passes, rw passes (after_gate-sent divide now o reply loop))
        | inr (reason, rejects) ↦
            inr (
              λ h. cc (judged.1 h),
              rw rejects (after_gate-Untouched divide reason now o reply loop),
            )
      ]

  -- What the loop is asked to do: a submission with the broker's reply, or a broker event.
  pub data Request : Type 0 where
    submission : (now : ℕ) (o : Order) (price : Option ℤ) (reply : BrokerReply) → Request
    broker_event : (event : OrderEvent) (broker_order_id : String) → Request

  handle : Request → LiveLoop → LiveLoop
  handle (submission now o price reply) loop = (submit divide decimal_text now o price reply loop).1
  handle (broker_event event b) loop = (apply_broker_event divide event b loop).1

  pub run : List Request → LiveLoop → LiveLoop
  run [] loop = loop
  run (r ∷ rs) loop = run rs (handle r loop)

  apply_found-Untouched :
      (event : OrderEvent) (i : ℕ) (found : Option Order) (loop : LiveLoop)
      → Untouched loop (apply_found divide event i found loop).1
  unfolding apply_found
  apply_found-Untouched event i none loop = ground arith
  apply_found-Untouched event i (some o) loop = settle-Untouched _ loop

  apply_known-Untouched :
      (event : OrderEvent) (b : String) (known : Option ℕ) (loop : LiveLoop)
      → Untouched loop (apply_known divide event b known loop).1
  unfolding apply_known
  apply_known-Untouched event b none loop = ground arith
  apply_known-Untouched event b (some i) loop = apply_found-Untouched event i _ loop

  handle-Untouched :
      (r : Request) (loop : LiveLoop)
      → HasKillSwitch loop.checks
      → loop.kill_switch.state ≡ engaged
      → Untouched loop (handle r loop)
  unfolding handle apply_broker_event
  handle-Untouched (submission now o price reply) loop k e =
      elim (submit-sent now o price reply loop) [
        | inl (passed, sent) ↦
            absurd (kill_switch-fails decimal_text loop.kill_switch o price loop.checks k e passed)
        | inr (refused, untouched) ↦ untouched
      ]
  handle-Untouched (broker_event event b) loop k e = apply_known-Untouched event b _ loop

  -- While the switch is engaged and its check is among the gate's, no sequence of submissions and
  -- broker events makes the loop call the broker, and none disengages the switch.
  pub run-engaged :
      (rs : List Request) (loop : LiveLoop)
      → HasKillSwitch loop.checks
      → loop.kill_switch.state ≡ engaged
      → Untouched loop (run rs loop)
  unfolding run
  run-engaged [] loop k e = ground arith
  run-engaged (r ∷ rs) loop k e =
      let once = handle-Untouched r loop k e in
      let rest =
        run-engaged rs (handle r loop) (rw (once.checks_same) k) (rw (once.switch_same) e) in
      ground arith

  -- An order that is not `new` and that the checks approve is handed to the broker once more, and
  -- only then refused: the call raises, and the id that the broker accepted it under is lost.
  pub submit-again :
      (now : ℕ) (o : Order) (price : Option ℤ) (b : String) (loop : LiveLoop)
      → All (Passes decimal_text loop.kill_switch o price) loop.checks
      → o.status ≢ States.new
      → (submit divide decimal_text now o price (accepted b) loop) ≡ (
        err (oms_error (illegal_transition o.status States.submitted)),
        record loop { sent = o ∷ loop.sent },
      )
  unfolding submit after_gate
  submit-again now o price b loop h n =
      let judged = evaluate-approve decimal_text loop.kill_switch o price loop.checks in
      rw (judged.1 h)
        (rw (submit_event-refused divide o now (some b) n) (unfold settle_submitted in refl))
