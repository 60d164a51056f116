-- ===== src/Examples/Switches.antt =====
-- The kill switch on a few calls.
use nexus_trade_engine.Prelude.{◌≡◌, refl, some, List, [], ◌∷◌, false}
use nexus_trade_engine.Prelude.Text.{is_blank}
use nexus_trade_engine.Live.KillSwitch.{KillSwitch, engaged}
use nexus_trade_engine.Live.KillSwitch.Laws.{
  Call, engage_call, disengage_call, add_call, remove_call, calls, calls_keep_engaged,
}
use nexus_trade_engine.Examples.Orders.{idle}

abbrev pub stopped : KillSwitch
stopped = record idle {
  state = engaged;
  engaged_at = some 5;
  reason = some "broker down";
  actor = some "ops";
}

-- A few calls, among them a disengagement with a wrong token.
abbrev few_calls : List Call
few_calls =
    engage_call 9 "again" "ops" ∷ disengage_call "yes" "ops" ∷ remove_call 1 ∷ add_call 4 ∷ []

calls_keep_engaged_example :
    ((calls stopped few_calls).state ≡ engaged)
    × ((calls stopped few_calls).engaged_at ≡ some 5)
    × ((calls stopped few_calls).reason ≡ some "broker down")
    × ((calls stopped few_calls).actor ≡ some "ops")
calls_keep_engaged_example =
    calls_keep_engaged stopped few_calls (refl, (refl, (refl, (refl, tt)))) refl

outage : is_blank "outage" ≡ false
unfolding is_blank
outage = refl

still : is_blank "still out" ≡ false
unfolding is_blank
still = refl
