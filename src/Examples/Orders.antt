-- ===== src/Examples/Orders.antt =====
-- Orders, their events and the checks before them.
use nexus_trade_engine.Prelude.{
  String, ◌≡◌, refl, none, some, true, false, List, [], ◌∷◌, ok, arith, All, ◌/◌,
}
use nexus_trade_engine.Prelude.Int.{ℤ, pos, negsuc, ◌+ℤ◌, ◌*ℤ◌}
use nexus_trade_engine.Oms.States
use nexus_trade_engine.Oms.States.{buy, limit, OrderStatus, can_transition, is_terminal}
use nexus_trade_engine.Oms.States.Reach.{Walk, is_terminal_iff}
use nexus_trade_engine.Oms.Events.{OrderEvent, submit_event, partial_fill_event, fill_event}
use nexus_trade_engine.Oms.Order.{Order, post_init, with_status, next_avg, apply_event}
use nexus_trade_engine.Oms.Order.Invariant.{IsValid, apply_event-IsValid}
use nexus_trade_engine.Oms.Order.History.{
  History, here, next, total_filled, History-filled, History-Walk,
}
use nexus_trade_engine.Oms.Risk.{
  RiskCheck, kill_switch_check, max_order_quantity, max_order_notional, reject, run_check,
}
use nexus_trade_engine.Oms.Risk.Gate.{Passes}
use nexus_trade_engine.Live.KillSwitch.{KillSwitch, disengaged, is_engaged}

-- The quotient rounded down.
abbrev pub floor_div : ℤ → ℤ → ℤ
floor_div n (negsuc d) = pos 0
floor_div (pos n) (pos d) = pos (n / d)
floor_div (negsuc n) (pos d) = negsuc (n / d)

-- A limit order for 10 shares.
abbrev pub fresh : Order
fresh = record {
  id = 7;
  symbol = "AAPL";
  side = buy;
  order_type = limit;
  quantity = pos 10;
  limit_price = some (pos 150);
  stop_price = none;
  status = States.new;
  filled_quantity = pos 0;
  average_fill_price = none;
  broker_order_id = none;
  reject_reason = none;
  created_at = 1;
  updated_at = 1;
}

abbrev pub sent : Order
sent = record fresh { status = States.submitted; broker_order_id = some "b-1"; updated_at = 2 }

abbrev part_filled : Order
part_filled = record sent {
  status = States.partially_filled;
  filled_quantity = pos 4;
  average_fill_price = some (pos 100);
  updated_at = 3;
}

abbrev pub all_filled : Order
all_filled = record part_filled {
  status = States.filled;
  filled_quantity = pos 10;
  average_fill_price = some (pos 112);
  updated_at = 4;
}

abbrev pub submission : OrderEvent
submission = submit_event 2 (some "b-1")

abbrev pub first_fill : OrderEvent
first_fill = partial_fill_event 3 (pos 4) (pos 100) "f-1"

abbrev last_fill : OrderEvent
last_fill = fill_event 4 (pos 6) (pos 120) "f-2"

pub submission_accepted : apply_event floor_div fresh submission ≡ ok sent
unfolding apply_event with_status post_init can_transition
submission_accepted = refl

pub first_fill_accepted : apply_event floor_div sent first_fill ≡ ok part_filled
unfolding apply_event with_status post_init next_avg ◌+ℤ◌ ◌*ℤ◌ can_transition
first_fill_accepted = refl

pub last_fill_accepted : apply_event floor_div part_filled last_fill ≡ ok all_filled
unfolding apply_event with_status post_init next_avg ◌+ℤ◌ ◌*ℤ◌ can_transition
last_fill_accepted = refl

-- From the new order to the filled one.
abbrev pub life : History floor_div fresh all_filled
life =
    next last_fill all_filled
      (next first_fill part_filled (next submission sent here submission_accepted)
        first_fill_accepted)
      last_fill_accepted

pub fresh-IsValid : IsValid fresh
fresh-IsValid = ground arith

part_filled-IsValid : IsValid part_filled
part_filled-IsValid = ground arith

apply_event-IsValid_example : IsValid part_filled
apply_event-IsValid_example =
    apply_event-IsValid floor_div sent first_fill part_filled (ground arith) first_fill_accepted

all_filled_over : is_terminal all_filled.status ≡ true
unfolding is_terminal
all_filled_over = refl

History-filled_example :
    all_filled.filled_quantity ≡ fresh.filled_quantity +ℤ total_filled floor_div life
History-filled_example = History-filled floor_div life

History-Walk_example : Walk States.new States.filled
History-Walk_example = History-Walk floor_div life

part_filled_may_repeat : can_transition part_filled.status States.partially_filled ≡ true
unfolding can_transition
part_filled_may_repeat = refl

is_terminal_iff_example :
    ((is_terminal States.rejected ≡ true)
      → (t : OrderStatus) → can_transition States.rejected t ≡ false)
    × (((t : OrderStatus) → can_transition States.rejected t ≡ false)
        → is_terminal States.rejected ≡ true)
is_terminal_iff_example = is_terminal_iff States.rejected

-- Any text for an amount.
abbrev pub amount_text : ℤ → String
amount_text n = "0"

-- A switch as it is when the process starts.
abbrev pub idle : KillSwitch
idle = record {
  state = disengaged;
  engaged_at = none;
  reason = none;
  actor = none;
  observers = 1 ∷ 2 ∷ [];
}

abbrev pub gate_checks : List RiskCheck
gate_checks = kill_switch_check ∷ max_order_quantity (pos 100) ∷ []

gate-Passes : All (Passes amount_text idle fresh none) gate_checks
unfolding run_check is_engaged
gate-Passes = (refl, (refl, tt))

fresh_too_dear :
    run_check amount_text idle (max_order_notional (pos 100)) fresh (some (pos 150))
    ≡ reject "order notional 0 exceeds max 0 for AAPL at price 0"
unfolding run_check ◌*ℤ◌
fresh_too_dear = refl

switch-Passes : All (Passes amount_text idle fresh (some (pos 150))) (kill_switch_check ∷ [])
unfolding run_check is_engaged
switch-Passes = (refl, tt)
