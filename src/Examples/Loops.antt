-- ===== src/Examples/Loops.antt =====
-- The live loop on a few submissions and broker events.
use nexus_trade_engine.Prelude.{
  ◌≡◌, refl, ◌⊎◌, inl, none, some, true, [], ◌∷◌, err, All, lookup, string_eq, nat_eq,
}
use nexus_trade_engine.Oms.States.{can_transition}
use nexus_trade_engine.Oms.Order.{Order, apply_event, with_status, post_init}
use nexus_trade_engine.Oms.Risk.{run_check, evaluate}
use nexus_trade_engine.Oms.Risk.Gate.{Passes}
use nexus_trade_engine.Live.KillSwitch.{is_engaged}
use nexus_trade_engine.Live.Loop.{
  LiveLoop, after_gate, after_broker, settle_submitted, track, accepted, unknown_order, settle,
  submit, apply_broker_event,
}
use nexus_trade_engine.Live.Loop.Registry.{
  IsConsistent, submit-IsConsistent, apply_broker_event_lem,
}
use nexus_trade_engine.Live.Loop.Safety.{Untouched, submission, broker_event, run, run-engaged}
use nexus_trade_engine.Examples.Orders.{
  floor_div, amount_text, fresh, sent, fresh-IsValid, idle, gate_checks, first_fill,
}
use nexus_trade_engine.Examples.Switches.{stopped}

-- A loop that tracks nothing yet.
abbrev empty_loop : LiveLoop
empty_loop = record {
  checks = gate_checks;
  has_persister = true;
  kill_switch = idle;
  by_oms_id = [];
  broker_to_oms = [];
  sent = [];
  persisted = [];
}

abbrev stopped_loop : LiveLoop
stopped_loop = record empty_loop { kill_switch = stopped }

empty_loop-IsConsistent : IsConsistent empty_loop
empty_loop-IsConsistent = record { keyed = λ i o h. cc; routed = λ b i h. cc }

submit-IsConsistent_example :
    IsConsistent (submit floor_div amount_text 2 fresh none (accepted "b-1") empty_loop).1
submit-IsConsistent_example =
    submit-IsConsistent floor_div amount_text 2 fresh none (accepted "b-1") empty_loop fresh-IsValid
      empty_loop-IsConsistent

-- The loop after the broker accepted the order.
abbrev tracking_loop : LiveLoop
tracking_loop = record empty_loop {
  by_oms_id = (7, sent) ∷ [];
  broker_to_oms = ("b-1", 7) ∷ [];
  sent = fresh ∷ [];
  persisted = sent ∷ [];
}

tracking_loop-IsConsistent : IsConsistent tracking_loop
unfolding submit after_gate after_broker settle_submitted track apply_event with_status post_init
    can_transition evaluate run_check is_engaged
tracking_loop-IsConsistent =
    submit-IsConsistent floor_div amount_text 2 fresh none (accepted "b-1") empty_loop fresh-IsValid
      empty_loop-IsConsistent

apply_broker_event_lem_example :
    (lookup "b-1" tracking_loop.broker_to_oms ≡ none)
      × (apply_broker_event floor_div first_fill "b-1" tracking_loop
          ≡ (err (unknown_order "b-1"), tracking_loop))
    ⊎ ((o : Order) × (lookup "b-1" tracking_loop.broker_to_oms ≡ some o.id)
        × (lookup o.id tracking_loop.by_oms_id ≡ some o)
        × (apply_broker_event floor_div first_fill "b-1" tracking_loop
            ≡ settle (apply_event floor_div o first_fill) tracking_loop))
apply_broker_event_lem_example =
    apply_broker_event_lem floor_div first_fill "b-1" tracking_loop tracking_loop-IsConsistent

run-engaged_example : Untouched stopped_loop (
    run floor_div amount_text
      (submission 2 fresh none (accepted "b-1") ∷ broker_event first_fill "b-1" ∷ [])
      stopped_loop)
run-engaged_example =
    run-engaged floor_div amount_text
      (submission 2 fresh none (accepted "b-1") ∷ broker_event first_fill "b-1" ∷ []) stopped_loop
      (inl refl) refl

sent-Passes : All (Passes amount_text idle sent none) gate_checks
unfolding run_check is_engaged
sent-Passes = (refl, (refl, tt))
