-- ===== src/Live/KillSwitch/Laws.antt =====
-- What the kill switch promises its callers, over any sequence of calls.
use nexus_trade_engine.Prelude.{
  ℕ, String, ◌≡◌, ◌≢◌, refl, none, Bool, true, false, List, [], ◌∷◌, ok, err, arith, ◌==◌,
  string_eq, map,
}
use nexus_trade_engine.Prelude.Text.{is_blank}
use nexus_trade_engine.Live.KillSwitch.{
  KillSwitch, Transition, engaged, disengaged, disengage_token, engage, disengage, add_observer,
  remove_observer, snapshot,
}

-- The calls that change the switch.
pub data Call : Type 0 where
  engage_call : (now : ℕ) (reason actor : String) → Call
  disengage_call : (confirmation actor : String) → Call
  add_call remove_call : (observer : ℕ) → Call

-- The switch after a transition: an error leaves it as it was.
abbrev pub settled : KillSwitch → Transition → KillSwitch
settled s (ok (changed, s', told)) = s'
settled s (err x) = s

pub call : KillSwitch → Call → KillSwitch
call s (engage_call now reason actor) = settled s (engage now reason actor s)
call s (disengage_call confirmation actor) = settled s (disengage confirmation actor s)
call s (add_call observer) = add_observer observer s
call s (remove_call observer) = remove_observer observer s

pub calls : KillSwitch → List Call → KillSwitch
calls s [] = s
calls s (c ∷ cs) = calls (call s c) cs

-- An engaged switch knows when, why and by whom; a disengaged one carries no time and no reason.
pub record IsCoherent (s : KillSwitch) : Type 0 where
  pub engaged_known :
      s.state ≡ engaged → (s.engaged_at ≢ none) × (s.reason ≢ none) × (s.actor ≢ none)
  pub disengaged_clear : s.state ≡ disengaged → (s.engaged_at ≡ none) × (s.reason ≡ none)

call-IsCoherent : (s : KillSwitch) (c : Call) → IsCoherent s → IsCoherent (call s c)
unfolding call engage disengage add_observer remove_observer
call-IsCoherent s (engage_call now reason actor) h = ground arith
call-IsCoherent s (disengage_call confirmation actor) h = ground arith
call-IsCoherent s (add_call observer) h = ground arith
call-IsCoherent s (remove_call observer) h = ground arith

-- Every sequence of calls on a coherent switch leaves it coherent: engaged, it has a time, a reason
-- and an actor; disengaged, it has no time and no reason.
calls-IsCoherent : (s : KillSwitch) (cs : List Call) → IsCoherent s → IsCoherent (calls s cs)
unfolding calls
calls-IsCoherent s [] h = h
calls-IsCoherent s (c ∷ cs) h = calls-IsCoherent (call s c) cs (call-IsCoherent s c h)

-- The call carries the confirmation token.
abbrev is_confirmed : Call → Bool
is_confirmed (disengage_call confirmation actor) = confirmation == disengage_token
is_confirmed _ = false

abbrev NoneConfirmed : List Call → Type 0
NoneConfirmed [] = Unit
NoneConfirmed (c ∷ cs) = (is_confirmed c ≡ false) × NoneConfirmed cs

call_keeps_engaged :
    (s : KillSwitch) (c : Call)
    → is_confirmed c ≡ false
    → s.state ≡ engaged
    → ((call s c).state ≡ engaged)
      × ((call s c).engaged_at ≡ s.engaged_at)
      × ((call s c).reason ≡ s.reason)
      × ((call s c).actor ≡ s.actor)
unfolding call engage disengage add_observer remove_observer
call_keeps_engaged s (engage_call now reason actor) n h = ground arith
call_keeps_engaged s (disengage_call confirmation actor) n h = ground arith
call_keeps_engaged s (add_call observer) n h = ground arith
call_keeps_engaged s (remove_call observer) n h = ground arith

-- An engaged switch stays engaged, with the time, reason and actor that it has, through any calls
-- among which no disengagement carries the token.
pub calls_keep_engaged :
    (s : KillSwitch) (cs : List Call)
    → NoneConfirmed cs
    → s.state ≡ engaged
    → ((calls s cs).state ≡ engaged)
      × ((calls s cs).engaged_at ≡ s.engaged_at)
      × ((calls s cs).reason ≡ s.reason)
      × ((calls s cs).actor ≡ s.actor)
unfolding calls
calls_keep_engaged s [] n h = (h, refl, refl, refl)
calls_keep_engaged s (c ∷ cs) n h =
    let (state, at, reason, actor) = call_keeps_engaged s c n.0 h in
    let (state', at', reason', actor') = calls_keep_engaged (call s c) cs n.1 state in
    (state', cc, cc, cc)

-- After one engagement with a reason that is not blank, a second one with such a reason, at
-- whatever time and by whomever, answers that nothing changed, leaves the switch as it is and tells
-- no observer.
engage_twice :
    (now later : ℕ) (reason reason' actor actor' : String) (s : KillSwitch)
    → is_blank reason ≡ false
    → is_blank reason' ≡ false
    → (engage later reason' actor' (settled s (engage now reason actor s)))
      ≡ ok (false, settled s (engage now reason actor s), [])
unfolding engage
engage_twice now later reason reason' actor actor' s h h' = ground arith

-- What a transition owes the observers.
abbrev Told : KillSwitch → Transition → Type 0
Told s (ok (true, s', told)) =
    (told ≡ map (λ observer. (observer, snapshot s')) s.observers) × (s'.state ≢ s.state)
Told s (ok (false, s', told)) = (told ≡ []) × (s' ≡ s)
Told s (err x) = Unit

-- An engagement or disengagement that changes the state tells every observer, in order of
-- registration, the state that it leaves; one that changes nothing tells nobody.
transition-Told :
    (now : ℕ) (reason confirmation actor : String) (s : KillSwitch)
    → Told s (engage now reason actor s) × Told s (disengage confirmation actor s)
unfolding engage disengage
transition-Told now reason confirmation actor s = (ground arith, ground arith)
