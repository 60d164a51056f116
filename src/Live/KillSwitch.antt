-- ===== src/Live/KillSwitch.antt =====
-- engine/core/live/kill_switch.py: the switch that stops order submission. An operation runs under
-- the switch's lock up to its notifications, so it is one step of the state; the clock is the
-- argument `now`. What observers are told is a list of deliveries: a failing observer is logged and
-- passed over, so a delivery records only who was called and with what.
pub mod Laws
use nexus_trade_engine.Prelude.{
  ℕ, String, Option, none, some, Bool, true, false, not, List, [], ◌∷◌, ◌++◌, map, Outcome, ok, err,
  ◌>>=◌, ◌>>◌, raise_if, if◌then◌else◌, ◌==◌, nat_eq, string_eq,
}
use nexus_trade_engine.Prelude.Text.{is_blank}

abbrev pub disengage_token : String
disengage_token = "I_UNDERSTAND_THE_RISK"

pub data KillSwitchState : Type 0 where
  disengaged engaged : KillSwitchState

pub record Snapshot : Type 0 where
  pub state : KillSwitchState
  pub engaged_at : Option ℕ
  pub reason : Option String
  pub actor : Option String

-- `KillSwitch`; observers are compared by identity, a number.
pub record KillSwitch : Type 0 where
  pub state : KillSwitchState
  pub engaged_at : Option ℕ
  pub reason : Option String
  pub actor : Option String
  pub observers : List ℕ

pub data SwitchError : Type 0 where
  empty_reason bad_confirmation : SwitchError

-- An observer and the snapshot that it is called with.
abbrev Delivery : Type 0
Delivery = ℕ × Snapshot

-- `KillSwitch.__init__`
pub new : KillSwitch
new = record { state = disengaged; engaged_at = none; reason = none; actor = none; observers = [] }

abbrev state_engaged : KillSwitchState → Bool
state_engaged engaged = true
state_engaged disengaged = false

unfoldable pub is_engaged : KillSwitch → Bool
is_engaged s = state_engaged s.state

pub snapshot : KillSwitch → Snapshot
snapshot s = record {
  state = s.state;
  engaged_at = s.engaged_at;
  reason = s.reason;
  actor = s.actor;
}

-- `_notify`: the observers that were registered when it was called, in order.
notify : KillSwitch → Snapshot → List Delivery
notify s snap = map (λ observer. (observer, snap)) s.observers

-- What a transition returns: whether the state changed, the switch, and the deliveries.
abbrev pub Transition : Type 0
Transition = Outcome SwitchError (Bool × KillSwitch × List Delivery)

pub engage : ℕ → String → String → KillSwitch → Transition
unfolding is_engaged snapshot notify is_blank
engage now reason actor s =
    let s' = record s {
      state = engaged;
      engaged_at = some now;
      reason = some reason;
      actor = some actor;
    } in
    do
      raise_if (is_blank reason) empty_reason
      (if is_engaged s then ok (false, s, []) else ok (true, s', notify s' (snapshot s')))

pub disengage : String → String → KillSwitch → Transition
unfolding is_engaged snapshot notify
disengage confirmation actor s =
    let s' = record s {
      state = disengaged;
      engaged_at = none;
      reason = none;
      actor = some actor;
    } in
    do
      raise_if (not (confirmation == disengage_token)) bad_confirmation
      (if is_engaged s then ok (true, s', notify s' (snapshot s')) else ok (false, s, []))

pub add_observer : ℕ → KillSwitch → KillSwitch
add_observer observer s = record s { observers = s.observers ++ observer ∷ [] }

-- `list.remove`: the first that is equal; where there is none the error is suppressed.
remove_first : ℕ → List ℕ → List ℕ
remove_first observer [] = []
remove_first observer (x ∷ xs) = if x == observer then xs else x ∷ remove_first observer xs

pub remove_observer : ℕ → KillSwitch → KillSwitch
unfolding remove_first
remove_observer observer s = record s { observers = remove_first observer s.observers }

-- `get_kill_switch`, on the module's `_INSTANCE`.
unfoldable get_kill_switch : Option KillSwitch → KillSwitch × Option KillSwitch
unfolding new
get_kill_switch none = (new, some new)
get_kill_switch (some s) = (s, some s)
