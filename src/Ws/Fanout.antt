-- ===== src/Ws/Fanout.antt =====
-- engine/api/ws/connection_manager.py: sending to a connection, to a room and to all. The tasks of a
-- fan-out run one after the other, as they never wait.
use nexus_trade_engine.Prelude.{
  ℕ, suc, String, Option, none, some, Bool, true, false, List, [], ◌∷◌, string_eq, lookup, Outcome,
  ok, err, ◌>>=◌,
}
use nexus_trade_engine.Ws.{Wire, WsError, ConnectionManager, room_members, keys, register, send}

-- `client_id or ""`
abbrev or_empty : Option String → String
or_empty none = ""
or_empty (some s) = s

module _ (wire : Wire) where
  open wire use {Float, OutboundMessage, ack_message}

  -- `_send_one`: what it raises (never) and the state; a full queue drops the message.
  unfoldable pub send_one :
      String → OutboundMessage → ConnectionManager wire → Option WsError × ConnectionManager wire
  send_one cid message m = elim (send wire cid message m) [ ok m' ↦ (none, m') | err _ ↦ (none, m) ]

  -- `asyncio.gather` of a `_send_one` for each connection.
  unfoldable pub send_all :
      List String
      → OutboundMessage
      → ConnectionManager wire
      → List (Option WsError) × ConnectionManager wire
  unfolding send_one
  send_all [] message m = ([], m)
  send_all (cid ∷ cids) message m =
      let (raised, m1) = send_one cid message m in
      let (results, m2) = send_all cids message m1 in (raised ∷ results, m2)

  -- `sum(1 for r in results if r is None)`
  abbrev pub count_none : List (Option WsError) → ℕ
  count_none [] = 0
  count_none (none ∷ results) = suc (count_none results)
  count_none (some _ ∷ results) = count_none results

  unfoldable pub broadcast :
      String → OutboundMessage → ConnectionManager wire → ℕ × ConnectionManager wire
  unfolding send_all
  broadcast room message m =
      let (results, m') = send_all (room_members wire room m) message m in (count_none results, m')

  -- The results that did not raise, for connections that are still there.
  abbrev count_present : List String → List (Option WsError) → ConnectionManager wire → ℕ
  count_present (cid ∷ cids) (none ∷ results) m =
      let rest = count_present cids results m in
      elim (lookup cid m.connections) [ none ↦ rest | some _ ↦ suc rest ]
  count_present (cid ∷ cids) (some _ ∷ results) m = count_present cids results m
  count_present [] results m = 0
  count_present (cid ∷ cids) [] m = 0

  unfoldable pub broadcast_all :
      OutboundMessage → ConnectionManager wire → ℕ × ConnectionManager wire
  unfolding send_all
  broadcast_all message m =
      let snapshot = keys m.connections in
      let (results, m') = send_all snapshot message m in (count_present snapshot results m', m')

  unfoldable pub send_personal :
      String
      → OutboundMessage
      → ConnectionManager wire
      → Outcome WsError (Bool × ConnectionManager wire)
  unfolding send
  send_personal cid message m = elim (lookup cid m.connections) [
    | none ↦ ok (false, m)
    | some _ ↦ do m' ← send wire cid message m; ok (true, m')
  ]

  unfoldable pub connect :
      Float
      → String
      → Option String
      → List String
      → ConnectionManager wire
      → Outcome WsError (String × ConnectionManager wire)
  unfolding register send
  connect now connection_id client_id scopes m = do
    (cid, m1) ← register wire now connection_id (or_empty client_id) scopes m
    m2 ← send wire cid ack_message m1
    ok (cid, m2)
