-- ===== src/Examples/Sockets.antt =====
-- A server for two connections with queues of one message, whole numbers as the clock's floats and
-- texts as messages.
use nexus_trade_engine.Prelude.{
  String, ◌≡◌, refl, none, some, true, false, ◌&&◌, [], ◌∷◌, if◌then◌else◌, ◌==◌, string_eq, Dict,
  lookup, contains, length, In, arith,
}
use nexus_trade_engine.Prelude.Int.{pos}
use nexus_trade_engine.Ws.{
  Wire, WsError, ConnectionInfo, ConnectionManager, get_rooms, room_members, register, enter,
  unregister, vacate, or_erase, send, is_full, join_room,
}
use nexus_trade_engine.Ws.Invariant.{IsValid}
use nexus_trade_engine.Ws.Reach.{new, Served, start, after, registers, touches, Served-IsValid}
use nexus_trade_engine.Ws.Upkeep.{begin_closing, end_closing, close_send, touch}
use nexus_trade_engine.Ws.Fanout.{broadcast, send_one}
use nexus_trade_engine.Ws.Delivery.{offered, broadcast-offered}
use nexus_trade_engine.Ws.Closing.{
  Closing, notifies, meanwhile, removes, finishes, close_all-empties,
}
use nexus_trade_engine.Ws.Permissions.{check_channel_access, channel_permissions, resolve_room_name}
use nexus_trade_engine.Ws.Channels.{valid_channels, handle_subscribe, handle_unsubscribe}
use nexus_trade_engine.Ws.Access.{foreseen, handle_subscribe-foreseen}
use nexus_trade_engine.Ws.Subscriptions.{unsubscribe-subscribe}
use nexus_trade_engine.Examples.Limits.{whole}

abbrev texts : Wire
texts = record {
  floats = whole;
  two = pos 2;
  OutboundMessage = String;
  ack_message = "ack";
  close_message = λ code reason. reason;
}

abbrev empty : ConnectionManager texts
empty = record {
  connections = [];
  rooms = [];
  max_connections = 2;
  send_queue_size = 1;
  max_subscriptions = 2;
  heartbeat_interval = pos 30;
  seq_counters = [];
  shutting_down = false;
}

abbrev info : ConnectionInfo texts
info = record {
  user_id = "u";
  scopes = "read:portfolio" ∷ [];
  rooms = "user:u" ∷ [];
  send_queue = [];
  last_seen = pos 5;
}

abbrev registered : ConnectionManager texts
registered = record empty { connections = ("c1", info) ∷ []; rooms = ("user:u", "c1" ∷ []) ∷ [] }

registered-Served : Served texts registered
unfolding new register enter
registered-Served =
    after empty registered (start 2 1 2 (pos 30))
      (registers (pos 5) "c1" "c1" "u" ("read:portfolio" ∷ []) refl refl)

Served-IsValid_example : IsValid texts registered
Served-IsValid_example = Served-IsValid texts registered registered-Served

broadcast-offered_example :
    let (sent, m') = broadcast texts "user:u" "hello" registered in
    (sent ≡ length (room_members texts "user:u" registered))
    × (m'.rooms ≡ registered.rooms)
    × ((c : String)
        → lookup c m'.connections
          ≡ offered texts
              (contains (room_members texts "user:u" registered) c)
              registered.send_queue_size
              "hello"
              (lookup c registered.connections))
broadcast-offered_example =
    broadcast-offered texts "user:u" "hello" registered
      (Served-IsValid texts registered registered-Served)

abbrev closed : ConnectionManager texts
closed = record empty { shutting_down = true }

closing :
    Closing texts 1000 "bye" none
      (begin_closing texts registered).0
      (begin_closing texts registered).1
      closed
unfolding begin_closing close_send send_one send is_full unregister vacate or_erase touch
closing = notifies "c1" info [] _ closed refl (
    meanwhile (some "c1") [] _ _ closed (touches (pos 9) "c1" refl)
      (removes "c1" [] _ closed (finishes closed)))

close_all-empties_example :
    ((end_closing texts closed).connections ≡ [])
    × ((c r : String) → contains (room_members texts r (end_closing texts closed)) c ≡ false)
    × ((end_closing texts closed).shutting_down ≡ false)
close_all-empties_example =
    close_all-empties texts 1000 "bye" registered closed
      (Served-IsValid texts registered registered-Served) closing

abbrev portfolio_of_s : Dict String String
portfolio_of_s = ("strategy_id", "s") ∷ []

abbrev error_text : WsError → String
error_text e = "error"

handle_subscribe-foreseen_example :
    In foreseen
      (handle_subscribe texts error_text 2 "c1" "portfolio" portfolio_of_s "u" info.scopes
        registered).0.error_code
handle_subscribe-foreseen_example =
    handle_subscribe-foreseen texts error_text 2 "c1" "portfolio" portfolio_of_s "u" info.scopes
      info registered refl (omega arith) (omega arith)

succeeds :
    (handle_subscribe texts error_text 2 "c1" "portfolio" portfolio_of_s "u" info.scopes
      registered).0.success
    ≡ true
unfolding handle_subscribe valid_channels check_channel_access channel_permissions resolve_room_name
    join_room
succeeds = refl

unsubscribe-subscribe_example :
    let m1 =
      (handle_subscribe texts error_text 2 "c1" "portfolio" portfolio_of_s "u" info.scopes
        registered).1 in
    (room : String) × ((handle_subscribe texts error_text 2 "c1" "portfolio" portfolio_of_s "u"
        info.scopes registered).0.room
      ≡ some room)
    × ((c r : String)
        → contains
            (get_rooms texts c (handle_unsubscribe texts "c1" "portfolio" portfolio_of_s m1).1)
            r
          ≡ (if (c == "c1") && (r == room)
              then false
              else contains (get_rooms texts c registered) r))
unsubscribe-subscribe_example =
    unsubscribe-subscribe texts error_text 2 "c1" "portfolio" portfolio_of_s "u" info.scopes info
      registered refl succeeds
