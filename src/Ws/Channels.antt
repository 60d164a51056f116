-- ===== src/Ws/Channels.antt =====
-- engine/api/ws/channels.py: subscribing to a channel's room and leaving it.
use Prim.Native.String.{◌++◌ as ◌<>◌}
use text.Mathlib.Text.{starts_with}
use nexus_trade_engine.Prelude.{
  ℕ, String, Option, none, some, Bool, true, false, not, List, [], ◌∷◌, if◌then◌else◌, string_eq,
  contains, Dict, keep, length, leb, ok, err,
}
use nexus_trade_engine.Ws.{Wire, WsError, ConnectionManager, get_rooms, join_room, leave_room}
use nexus_trade_engine.Ws.Permissions.{check_channel_access, resolve_room_name}

pub record SubscriptionResult : Type 0 where
  pub success : Bool
  pub room : Option String
  pub error_code : Option String
  pub message : Option String

-- `VALID_CHANNELS` of protocol.py
unfoldable pub valid_channels : List String
valid_channels = "portfolio" ∷ "orders" ∷ "strategies" ∷ []

abbrev pub refused : String → String → SubscriptionResult
refused code message = record {
  success = false;
  room = none;
  error_code = some code;
  message = some message;
}

abbrev pub accepted : Option String → SubscriptionResult
accepted room = record { success = true; room = room; error_code = none; message = none }

-- `[r for r in rooms if not r.startswith("user:")]`
abbrev pub non_user_rooms : List String → List String
non_user_rooms = keep λ r. not (starts_with r "user:")

-- `error_text` is `str` of an exception; the handler's bound is `max_subscriptions`.
module _ (wire : Wire) (error_text : WsError → String) (max_subscriptions : ℕ) where
  -- The end of `handle_subscribe`, for a room.
  unfoldable pub enter_room :
      String → String → ConnectionManager wire → SubscriptionResult × ConnectionManager wire
  enter_room cid room m =
      if leb max_subscriptions (length (non_user_rooms (get_rooms wire cid m)))
      then (refused "429" "max subscriptions reached", m)
      else elim (join_room wire cid room m) [
        | ok m' ↦ (accepted (some room), m')
        | err raised ↦ (refused "500" (error_text raised), m)
      ]

  unfoldable pub handle_subscribe :
      String
      → String
      → Dict String String
      → String
      → List String
      → ConnectionManager wire
      → SubscriptionResult × ConnectionManager wire
  unfolding enter_room
  handle_subscribe cid channel params user_id scopes m =
      if not (contains valid_channels channel)
      then (refused "404" ("unknown channel: " <> channel), m)
      else if not (check_channel_access channel scopes params (some user_id)).0
      then (refused "403" "permission denied", m)
      else elim (resolve_room_name channel params) [
        | none ↦ (refused "400" "missing required parameters", m)
        | some room ↦ enter_room cid room m
      ]

module _ (wire : Wire) where
  unfoldable pub handle_unsubscribe :
      String
      → String
      → Dict String String
      → ConnectionManager wire
      → SubscriptionResult × ConnectionManager wire
  handle_unsubscribe cid channel params m = elim (resolve_room_name channel params) [
    | none ↦ (accepted none, m)
    | some room ↦ (
      accepted (some room),
      if contains (get_rooms wire cid m) room then leave_room wire cid room m else m,
    )
  ]
