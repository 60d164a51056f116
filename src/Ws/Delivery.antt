-- ===== src/Ws/Delivery.antt =====
-- What a fan-out puts into the queues.
use nexus_trade_engine.Prelude.{
  ℕ, suc, String, ◌≡◌, refl, ap, ◌∙◌, inl, inr, Option, none, some, Bool, false, not, ◌&&◌, List,
  [], ◌∷◌, ◌++◌, arith, if◌then◌else◌, ◌==◌, string_eq, lookup, lookup-insert, Option-cases,
  Bool-cases, Outcome-cases, contains, length, NoTwice,
}
use nexus_trade_engine.Ws.{Wire, ConnectionInfo, ConnectionManager, is_full, send, room_members}
use nexus_trade_engine.Ws.Invariant.{IsValid}
use nexus_trade_engine.Ws.Fanout.{send_one, send_all, count_none, broadcast}

module _ (wire : Wire) where
  open wire use {OutboundMessage}

  -- A connection after a message was offered to its queue, or not.
  abbrev pub offered :
      Bool → ℕ → OutboundMessage → Option (ConnectionInfo wire) → Option (ConnectionInfo wire)
  offered to size message none = none
  offered to size message (some info) =
      if to && not (is_full wire size info.send_queue)
      then some record info { send_queue = info.send_queue ++ message ∷ [] }
      else some info

  -- What is said of `m'` after a message was offered to the connections that `to` tells.
  record Offers (to : String → Bool) (message : OutboundMessage) (m m' : ConnectionManager wire)
      : Type 0 where
    rooms : m'.rooms ≡ m.rooms
    size : m'.send_queue_size ≡ m.send_queue_size
    each :
        (c : String)
        → lookup c m'.connections
          ≡ offered (to c) m.send_queue_size message (lookup c m.connections)

  send_one-none :
      (cid : String) (message : OutboundMessage) (m : ConnectionManager wire)
      → (send_one wire cid message m).0 ≡ none
  unfolding send_one
  send_one-none cid message m = elim (Outcome-cases (send wire cid message m)) [
    | inl (m', e) ↦ rw (e, send_one) refl
    | inr (raised, e) ↦ rw (e, send_one) refl
  ]

  send_one-Offers :
      (cid : String) (message : OutboundMessage) (m : ConnectionManager wire)
      → Offers (λ c. c == cid) message m (send_one wire cid message m).1
  unfolding send_one send
  send_one-Offers cid message m = elim (Option-cases (lookup cid m.connections)) [
    | inl e ↦
        rw (e, send_one)
          record {
            rooms = refl;
            size = refl;
            each = λ c. ground (arith, e, string_eq.same_iff c cid);
          }
    | inr (info, e) ↦ elim (Bool-cases (is_full wire m.send_queue_size info.send_queue)) [
      | inl full ↦
          rw (e, send_one, full)
            record {
              rooms = refl;
              size = refl;
              each = λ c. ground (arith, e, full, string_eq.same_iff c cid);
            }
      | inr room ↦
          rw (e, send_one, room)
            record {
              rooms = refl;
              size = refl;
              each = λ c. ground (
                arith,
                e,
                room,
                lookup-insert cid c record info { send_queue = info.send_queue ++ message ∷ [] }
                    m.connections,
                string_eq.same_iff c cid,
                string_eq.same_iff cid c,
              );
            }
    ]
  ]

  -- Offers to one connection and then to others.
  offered-offered :
      (cid c : String) (cids : List String) (size : ℕ) (message : OutboundMessage)
      (o : Option (ConnectionInfo wire))
      → contains cids cid ≡ false
      → offered (contains cids c) size message (offered (c == cid) size message o)
        ≡ offered (contains (cid ∷ cids) c) size message o
  offered-offered cid c cids size message o h = ground (arith, h, string_eq.same_iff c cid)

  send_all-Offers :
      (cids : List String) (message : OutboundMessage) (m : ConnectionManager wire)
      → NoTwice cids
      → Offers (contains cids) message m (send_all wire cids message m).1
  unfolding send_all
  send_all-Offers [] message m once = record { rooms = refl; size = refl; each = λ c. ground arith }
  send_all-Offers (cid ∷ cids) message m once =
      let m1 = (send_one wire cid message m).1 in
      let one = send_one-Offers cid message m in
      let rest = send_all-Offers cids message m1 once.1 in
      record {
        rooms = rest.rooms ∙ one.rooms;
        size = rest.size ∙ one.size;
        each = λ c.
            rest.each c
            ∙ ap (λ n. offered (contains cids c) n message (lookup c m1.connections)) one.size
            ∙ ap (offered (contains cids c) m.send_queue_size message) (one.each c)
            ∙ offered-offered cid c cids m.send_queue_size message (lookup c m.connections) once.0;
      }

  count_none-send_all :
      (cids : List String) (message : OutboundMessage) (m : ConnectionManager wire)
      → count_none wire (send_all wire cids message m).0 ≡ length cids
  unfolding send_all
  count_none-send_all [] message m = refl
  count_none-send_all (cid ∷ cids) message m =
      rw send_one-none (ap suc (count_none-send_all cids message (send_one wire cid message m).1))

  -- A broadcast puts the message once at the end of the queue of each member of the room that has
  -- space, and nowhere else; what it returns is the number of members, those included whose queue was
  -- full and that do not get the message.
  pub broadcast-offered :
      (room : String) (message : OutboundMessage) (m : ConnectionManager wire)
      → IsValid wire m
      → let (sent, m') = broadcast wire room message m in
        (sent ≡ length (room_members wire room m))
        × (m'.rooms ≡ m.rooms)
        × ((c : String)
            → lookup c m'.connections
              ≡ offered
                  (contains (room_members wire room m) c)
                  m.send_queue_size
                  message
                  (lookup c m.connections))
  unfolding broadcast
  broadcast-offered room message m valid =
      let offers = send_all-Offers (room_members wire room m) message m (valid.sets room) in
      (count_none-send_all (room_members wire room m) message m, offers.rooms, offers.each)
