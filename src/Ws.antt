-- ===== src/Ws.antt =====
-- engine/api/ws/connection_manager.py: the WebSocket connections, their rooms and their send queues.
-- A method's body between two suspensions is one step. The messages are those of protocol.py, which
-- the manager passes on; limits are not negative.
pub mod Rooms
pub mod Invariant
pub mod Reach
pub mod Shutdown
pub mod Closing
pub mod Delivery
pub mod Permissions
pub mod Channels
pub mod Subscriptions
pub mod Access
pub mod Fanout
pub mod Upkeep
use nexus_trade_engine.Prelude.{
  ℕ, suc, ◌+◌, String, Option, none, some, Bool, true, false, ◌&&◌, List, [], ◌∷◌, ◌++◌,
  if◌then◌else◌, string_eq, ltb, leb, length, contains, add, discard, Dict, lookup, insert, erase,
  Outcome, ok, err, raise_if, ◌>>=◌, ◌>>◌,
}
use Prim.Native.String.{◌++◌ as ◌<>◌}
use nexus_trade_engine.Prelude.Floats.{Floats}

-- The clock's floats, and the messages that the manager makes itself.
pub record Wire : Type 1 where
  pub floats : Floats
  pub open floats use *
  pub two : Float
  pub OutboundMessage : Type 0
  pub ack_message : OutboundMessage
  pub close_message : ℕ → String → OutboundMessage

-- The errors of exceptions.py, with their close code and reason.
pub data WsError : Type 0 where
  connection_limit_error subscription_limit_error queue_full_error : ℕ → String → WsError

-- `d.setdefault(k, set())`, read.
abbrev pub members_of : String → Dict String (List String) → List String
members_of room rooms = elim (lookup room rooms) [ none ↦ [] | some members ↦ members ]

-- `self._rooms.setdefault(room, set()).add(connection_id)`
unfoldable pub enter : String → String → Dict String (List String) → Dict String (List String)
enter cid room rooms = insert room (add cid (members_of room rooms)) rooms

unfoldable pub or_erase :
    String → List String → Dict String (List String) → Dict String (List String)
or_erase room [] rooms = erase room rooms
or_erase room (member ∷ members) rooms = insert room (member ∷ members) rooms

-- The loop of `unregister`: a room that is left empty is deleted.
unfoldable pub vacate : String → List String → Dict String (List String) → Dict String (List String)
unfolding or_erase
vacate cid [] rooms = rooms
vacate cid (room ∷ joined) rooms = elim (lookup room rooms) [
  | none ↦ vacate cid joined rooms
  | some members ↦ vacate cid joined (or_erase room (discard cid members) rooms)
]

-- The members of `leave_room`, which keeps an empty room.
unfoldable pub quit : String → String → Dict String (List String) → Dict String (List String)
quit cid room rooms = elim (lookup room rooms) [
  | none ↦ rooms
  | some members ↦ insert room (discard cid members) rooms
]

abbrev pub user_room : String → String
user_room user_id = "user:" <> user_id

abbrev pub keys {ℓ} : {K V : Type ℓ} → Dict K V → List K
keys [] = []
keys ((k, v) ∷ d) = k ∷ keys d

module _ (wire : Wire) where
  open wire use {Float, OutboundMessage, two, mul, sub, lt, ack_message, close_message}

  -- `ConnectionInfo`; every queue has the manager's size.
  pub record ConnectionInfo : Type 0 where
    pub user_id : String
    pub scopes : List String
    pub rooms : List String
    pub send_queue : List OutboundMessage
    pub last_seen : Float

  pub record ConnectionManager : Type 0 where
    pub connections : Dict String ConnectionInfo
    pub rooms : Dict String (List String)
    pub max_connections : ℕ
    pub send_queue_size : ℕ
    pub max_subscriptions : ℕ
    pub heartbeat_interval : Float
    pub seq_counters : Dict String ℕ
    pub shutting_down : Bool

  abbrev pub rooms_of : Option ConnectionInfo → List String
  rooms_of none = []
  rooms_of (some info) = info.rooms

  abbrev pub get_rooms : String → ConnectionManager → List String
  get_rooms cid m = rooms_of (lookup cid m.connections)

  abbrev pub room_members : String → ConnectionManager → List String
  room_members room m = members_of room m.rooms

  abbrev pub room_count : ConnectionManager → ℕ
  room_count m = length m.rooms

  -- `register`; `connection_id` is what uuid4 draws.
  unfoldable pub register :
      Float
      → String
      → String
      → List String
      → ConnectionManager
      → Outcome WsError (String × ConnectionManager)
  unfolding enter
  register now connection_id user_id scopes m = do
    raise_if m.shutting_down (connection_limit_error 1011 "server shutting down")
    raise_if (leb m.max_connections (length m.connections))
        (connection_limit_error 1011 "max connections reached")
    ok (
      connection_id,
      record m {
        connections =
            insert connection_id
              record {
                user_id = user_id;
                scopes = scopes;
                rooms = user_room user_id ∷ [];
                send_queue = [];
                last_seen = now;
              }
              m.connections;
        rooms = enter connection_id (user_room user_id) m.rooms;
      },
    )

  unfoldable pub unregister : String → ConnectionManager → ConnectionManager
  unfolding vacate
  unregister cid m = elim (lookup cid m.connections) [
    | none ↦ m
    | some info ↦ record m {
      connections = erase cid m.connections;
      rooms = vacate cid info.rooms m.rooms;
    }
  ]

  unfoldable pub join_room : String → String → ConnectionManager → Outcome WsError ConnectionManager
  unfolding enter
  join_room cid room m = elim (lookup cid m.connections) [
    | none ↦ ok m
    | some info ↦ do
      raise_if (leb (m.max_subscriptions + 1) (length info.rooms))
          (subscription_limit_error 1008 "max subscriptions reached")
      ok record m {
        connections = insert cid record info { rooms = add room info.rooms } m.connections;
        rooms = enter cid room m.rooms;
      }
  ]

  unfoldable pub leave_room : String → String → ConnectionManager → ConnectionManager
  unfolding quit
  leave_room cid room m = elim (lookup cid m.connections) [
    | none ↦ m
    | some info ↦ record m {
      connections = insert cid record info { rooms = discard room info.rooms } m.connections;
      rooms = quit cid room m.rooms;
    }
  ]

  -- `asyncio.Queue.full`; a queue of size zero is unbounded.
  unfoldable pub is_full : ℕ → List OutboundMessage → Bool
  is_full size queue = ltb 0 size && leb size (length queue)

  unfoldable pub send :
      String → OutboundMessage → ConnectionManager → Outcome WsError ConnectionManager
  unfolding is_full
  send cid message m = elim (lookup cid m.connections) [
    | none ↦ ok m
    | some info ↦ do
      raise_if (is_full m.send_queue_size info.send_queue) (queue_full_error 1008 "send queue full")
      ok record m {
        connections =
            insert cid record info { send_queue = info.send_queue ++ message ∷ [] } m.connections;
      }
  ]
