-- ===== src/Ws/Upkeep.antt =====
-- engine/api/ws/connection_manager.py: sequence numbers, heartbeats, the sender task and the shutdown.
use nexus_trade_engine.Prelude.{
  ℕ, ◌+◌, String, Option, none, some, Bool, true, false, List, [], ◌∷◌, if◌then◌else◌, string_eq,
  Dict, lookup, insert,
}
use nexus_trade_engine.Ws.{Wire, ConnectionInfo, ConnectionManager, keys, unregister}
use nexus_trade_engine.Ws.Fanout.{send_one}

-- `d.get(k, 0)`
abbrev or_zero : Option ℕ → ℕ
or_zero none = 0
or_zero (some n) = n

module _ (wire : Wire) where
  open wire use {Float, two, mul, sub, lt, close_message}

  unfoldable pub next_seq : String → ConnectionManager wire → ℕ × ConnectionManager wire
  next_seq room m =
      let seq = or_zero (lookup room m.seq_counters) in
      (seq, record m { seq_counters = insert room (seq + 1) m.seq_counters })

  unfoldable pub touch : Float → String → ConnectionManager wire → ConnectionManager wire
  touch now cid m = elim (lookup cid m.connections) [
    | none ↦ m
    | some info ↦ record m {
      connections = insert cid record info { last_seen = now } m.connections;
    }
  ]

  -- The connections that were not heard of for two intervals.
  unfoldable pub stale : Float → Float → Dict String (ConnectionInfo wire) → List String
  stale now interval [] = []
  stale now interval ((cid, info) ∷ connections) =
      let rest = stale now interval connections in
      if lt (mul interval two) (sub now info.last_seen) then cid ∷ rest else rest

  abbrev pub unregister_all : List String → ConnectionManager wire → ConnectionManager wire
  unregister_all [] m = m
  unregister_all (cid ∷ cids) m = unregister_all cids (unregister wire cid m)

  -- A round of `_heartbeat_loop`.
  unfoldable pub heartbeat : Float → ConnectionManager wire → ConnectionManager wire
  unfolding stale unregister
  heartbeat now m = unregister_all (stale now m.heartbeat_interval m.connections) m

  -- A round of `_sender_loop`, where the socket takes the message or fails; it waits while the queue
  -- is empty.
  unfoldable pub sender_round : Bool → String → ConnectionManager wire → ConnectionManager wire
  unfolding unregister
  sender_round sent cid m = elim (lookup cid m.connections) [
    | none ↦ m
    | some info ↦ elim info.send_queue [
      | [] ↦ m
      | message ∷ queue ↦
          let m' = record m {
            connections = insert cid record info { send_queue = queue } m.connections;
          } in
          if sent then m' else unregister wire cid m'
    ]
  ]

  -- `close_all` before its loop, the body of the loop, and the end.
  unfoldable pub begin_closing : ConnectionManager wire → List String × ConnectionManager wire
  begin_closing m = (keys m.connections, record m { shutting_down = true })

  unfoldable pub close_send : ℕ → String → String → ConnectionManager wire → ConnectionManager wire
  close_send code reason cid m = (send_one wire cid (close_message code reason) m).1

  unfoldable pub end_closing : ConnectionManager wire → ConnectionManager wire
  end_closing m = record m { shutting_down = false }
