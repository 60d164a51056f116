-- ===== src/Ws/Access.antt =====
-- Why a subscription fails, and whom the permissions let in.
use Prim.Native.String.{◌++◌ as ◌<>◌}
use nexus_trade_engine.Prelude.{
  ℕ, ◌+◌, ◌≤◌, String, ◌≡◌, refl, inl, inr, Option, none, some, true, false, List, [], ◌∷◌, arith,
  string_eq, Dict, lookup, In, Option-cases, Bool-cases, contains, length, leb,
}
use nexus_trade_engine.Prelude.Text.{truthy}
use nexus_trade_engine.Ws.{Wire, WsError, ConnectionInfo, ConnectionManager, get_rooms, join_room}
use nexus_trade_engine.Ws.Permissions.{
  check_channel_access, resolve_room_name, channel_permissions, room_param_map, first_room,
}
use nexus_trade_engine.Ws.Channels.{valid_channels, non_user_rooms, enter_room, handle_subscribe}

-- The error codes of a subscription, but for 500.
abbrev pub foreseen : List (Option String)
foreseen = none ∷ some "404" ∷ some "403" ∷ some "400" ∷ some "429" ∷ []

module _ (wire : Wire) (error_text : WsError → String) (max_subscriptions : ℕ) where
  -- The handler's own bound is reached before the manager's.
  enter_room-foreseen :
      (cid room : String) (info : ConnectionInfo wire) (m : ConnectionManager wire)
      → lookup cid m.connections ≡ some info
      → length info.rooms ≤ length (non_user_rooms info.rooms) + 1
      → max_subscriptions ≤ m.max_subscriptions
      → In foreseen (enter_room wire error_text max_subscriptions cid room m).0.error_code
  unfolding enter_room join_room
  enter_room-foreseen cid room info m e own bound =
      let here : get_rooms wire cid m ≡ info.rooms = rw e refl in
      elim (Bool-cases (leb max_subscriptions (length (non_user_rooms info.rooms)))) [
        | inl more ↦ rw (here, more, enter_room) (inr (inr (inr (inr (inl refl)))))
        | inr fits ↦
            let free : leb (m.max_subscriptions + 1) (length info.rooms) ≡ false =
              ground (arith, fits, own, bound) in
            rw (here, fits, e, free, enter_room) (inl refl)
      ]

  -- A connection in at most one room of a user never meets the manager's bound, where the handler's is
  -- no larger: a subscription that fails does so for an unknown channel, for the permissions, for
  -- missing parameters or for the handler's bound.
  pub handle_subscribe-foreseen :
      (cid channel : String) (params : Dict String String) (user_id : String) (scopes : List String)
      (info : ConnectionInfo wire) (m : ConnectionManager wire)
      → lookup cid m.connections ≡ some info
      → length info.rooms ≤ length (non_user_rooms info.rooms) + 1
      → max_subscriptions ≤ m.max_subscriptions
      → In foreseen
          (handle_subscribe wire error_text max_subscriptions cid channel params user_id scopes
            m).0.error_code
  unfolding handle_subscribe
  handle_subscribe-foreseen cid channel params user_id scopes info m e own bound =
      elim (Bool-cases (contains valid_channels channel)) [
        | inr unknown ↦ rw (unknown, handle_subscribe) (inr (inl refl))
        | inl known ↦
            elim (Bool-cases (check_channel_access channel scopes params (some user_id)).0) [
              | inr denied ↦ rw (known, denied, handle_subscribe) (inr (inr (inl refl)))
              | inl allowed ↦ elim (Option-cases (resolve_room_name channel params)) [
                | inl missing ↦
                    rw (known, allowed, missing, handle_subscribe) (inr (inr (inr (inl refl))))
                | inr (room, resolved) ↦
                    rw (known, allowed, resolved, handle_subscribe)
                      (enter_room-foreseen cid room info m e own bound)
              ]
            ]
      ]

-- With the scope for portfolios of one's own alone, anybody is let into the room of any strategy's
-- portfolio: parameters that name no account pass the test of the owner.
pub check_channel_access-unnamed_owner :
    (scopes : List String) (user_id strategy_id : String)
    → contains scopes "read:portfolio" ≡ true
    → truthy strategy_id ≡ true
    → ((check_channel_access "portfolio" scopes
          (("strategy_id", strategy_id) ∷ [])
          (some user_id)).0
        ≡ true)
      × (resolve_room_name "portfolio" (("strategy_id", strategy_id) ∷ [])
          ≡ some ("portfolio:strategy" <> (":" <> strategy_id)))
unfolding check_channel_access resolve_room_name channel_permissions room_param_map first_room
check_channel_access-unnamed_owner scopes user_id strategy_id scope named =
    elim (Bool-cases (contains scopes "read:portfolio:all")) [
      | inl everything ↦ (rw everything refl, rw named refl)
      | inr own ↦ (rw (own, scope) refl, rw named refl)
    ]
