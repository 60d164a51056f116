-- ===== src/Live/Loop.antt =====
-- engine/core/live/loop.py: submission of orders through the risk gate to a broker, and the
-- application of broker events. The broker is outside: what it answers to a submission is an
-- argument, and so is the clock. The loop's record keeps, beside its two dicts, the orders that were
-- sent to the broker and those handed to the persister, in order; a persister that fails is logged
-- and passed over. Metrics and log lines are left out.
pub mod Registry
pub mod Safety
use Prim.Native.String.{◌++◌}
use nexus_trade_engine.Prelude.{
  ℕ, String, Option, none, some, Bool, true, false, not, List, [], ◌∷◌, Outcome, ok, err, ◌==◌,
  nat_eq, string_eq, Dict, lookup, insert, values, keep, length,
}
use nexus_trade_engine.Prelude.Int.{ℤ}
use nexus_trade_engine.Oms.States.{is_terminal}
use nexus_trade_engine.Oms.Events.{OrderEvent, submit_event, reject_event}
use nexus_trade_engine.Oms.Order.{Order, OmsError, apply_event}
use nexus_trade_engine.Oms.Risk.{RiskCheck, CheckResult, approve, reject, evaluate}
use nexus_trade_engine.Live.KillSwitch.{KillSwitch, engage}
use nexus_trade_engine.Live.KillSwitch.Laws.{settled}

-- What `BrokerAdapter.submit` does: it returns the broker's order id, or raises one of the errors
-- of engine/core/brokers/base.py, or another exception.
pub data BrokerReply : Type 0 where
  accepted : (broker_order_id : String) → BrokerReply
  auth_error connection_error other_error : BrokerReply
  reject_error : (message : String) (broker_code : Option String) → BrokerReply

pub data LoopError : Type 0 where
  broker_auth_error broker_connection_error broker_other_error : LoopError
  unknown_order : (broker_order_id : String) → LoopError
  missing_key : ℕ → LoopError
  oms_error : OmsError → LoopError

pub record LiveLoop : Type 0 where
  pub checks : List RiskCheck
  pub has_persister : Bool
  pub kill_switch : KillSwitch
  pub by_oms_id : Dict ℕ Order
  pub broker_to_oms : Dict String ℕ
  pub sent : List Order
  pub persisted : List Order

abbrev persist : Bool → Order → List Order → List Order
persist true o log = o ∷ log
persist false o log = log

-- `_track`
unfoldable pub track : Order → LiveLoop → LiveLoop
track o loop = record loop {
  by_oms_id = insert o.id o loop.by_oms_id;
  persisted = persist loop.has_persister o loop.persisted;
}

-- The result of a call, and the loop that it leaves, also when it raises.
abbrev Reply : Type 0
Reply = Outcome LoopError Order × LiveLoop

-- `updated = order.apply_event(...)`, then `self._track(updated)`; an `OMSError` passes through.
pub settle : Outcome OmsError Order → LiveLoop → Reply
unfolding track
settle (ok updated) loop = (ok updated, track updated loop)
settle (err x) loop = (err (oms_error x), loop)

-- As `settle`, and then `self._broker_to_oms[broker_order_id] = updated.id`.
unfoldable pub settle_submitted : Outcome OmsError Order → String → LiveLoop → Reply
unfolding track
settle_submitted (ok updated) broker_order_id loop =
    let loop' = track updated loop in
    (
      ok updated,
      record loop' { broker_to_oms = insert broker_order_id updated.id loop'.broker_to_oms },
    )
settle_submitted (err x) broker_order_id loop = (err (oms_error x), loop)

-- `f"{code}"`
abbrev code_text : Option String → String
code_text none = "None"
code_text (some code) = code

module _ (divide : ℤ → ℤ → ℤ) where
  -- The part of `submit` behind the call of the broker.
  unfoldable pub after_broker : ℕ → Order → BrokerReply → LiveLoop → Reply
  unfolding settle settle_submitted
  after_broker now o (accepted broker_order_id) loop =
      settle_submitted (apply_event divide o (submit_event now (some broker_order_id)))
        broker_order_id loop
  after_broker now o auth_error loop = (
    err broker_auth_error,
    record loop {
      kill_switch =
          settled loop.kill_switch (engage now "broker_auth_error" "live_loop" loop.kill_switch);
    },
  )
  after_broker now o (reject_error message broker_code) loop =
      settle
        (apply_event divide o (
          reject_event now
            ("broker rejected: " ++ message ++ " (code=" ++ code_text broker_code ++ ")")))
        loop
  after_broker now o connection_error loop = (err broker_connection_error, loop)
  after_broker now o other_error loop = (err broker_other_error, loop)

  -- What follows the gate's answer.
  unfoldable pub after_gate : CheckResult → ℕ → Order → BrokerReply → LiveLoop → Reply
  unfolding after_broker settle
  after_gate (reject reason) now o reply loop =
      settle (apply_event divide o (reject_event now reason)) loop
  after_gate approve now o reply loop =
      after_broker now o reply (record loop { sent = o ∷ loop.sent })

module _ (divide : ℤ → ℤ → ℤ) (decimal_text : ℤ → String) where
  unfoldable pub submit : ℕ → Order → Option ℤ → BrokerReply → LiveLoop → Reply
  unfolding after_gate
  submit now o reference_price reply loop =
      after_gate divide (evaluate decimal_text loop.kill_switch loop.checks o reference_price).0 now
        o reply loop

module _ (divide : ℤ → ℤ → ℤ) where
  -- What `apply_broker_event` does with the order that it finds; a missing one is a `KeyError`.
  pub apply_found : OrderEvent → ℕ → Option Order → LiveLoop → Reply
  unfolding settle
  apply_found event oms_id none loop = (err (missing_key oms_id), loop)
  apply_found event oms_id (some o) loop = settle (apply_event divide o event) loop

  pub apply_known : OrderEvent → String → Option ℕ → LiveLoop → Reply
  unfolding apply_found
  apply_known event broker_order_id none loop = (err (unknown_order broker_order_id), loop)
  apply_known event broker_order_id (some oms_id) loop =
      apply_found event oms_id (lookup oms_id loop.by_oms_id) loop

  pub apply_broker_event : OrderEvent → String → LiveLoop → Reply
  unfolding apply_known
  apply_broker_event event broker_order_id loop =
      apply_known event broker_order_id (lookup broker_order_id loop.broker_to_oms) loop

unfoldable get : ℕ → LiveLoop → Option Order
get oms_id loop = lookup oms_id loop.by_oms_id

unfoldable open_orders : LiveLoop → List Order
open_orders loop = keep (λ (o : Order). not (is_terminal o.status)) (values loop.by_oms_id)

-- `__len__`
unfoldable tracked : LiveLoop → ℕ
tracked loop = length loop.by_oms_id
