-- ===== src/Ws/Invariant.antt =====
-- The two tables agree, the limits hold, and every operation keeps this.
use nexus_trade_engine.Prelude.{
  suc, ◌+◌, ◌≤◌, String, ◌≡◌, refl, sym, ap, subst, none, some, List, [], ◌∷◌, arith, if◌then◌else◌,
  ◌==◌, string_eq, contains, add, discard, contains-add, leb, contains-discard, length, length-add,
  length-discard, Dict, lookup, insert, erase, Option-cases, Bool-cases, inl, inr, Outcome, ok, err,
  ◌>>=◌, ◌++◌,
}
use nexus_trade_engine.Ws.{
  Wire, WsError, is_full, ConnectionInfo, ConnectionManager, members_of, get_rooms, room_members,
  user_room, register, unregister, join_room, leave_room, send, enter, quit,
}
use nexus_trade_engine.Ws.Rooms.{
  AreSets, enter-AreSets, quit-AreSets, vacate-AreSets, contains-enter, contains-quit,
  contains-vacate, rooms-insert, rooms-erase,
}

module _ {A : Type 0} where
  length-insert_new :
      (k : String) (v : A) (d : Dict String A) → length (insert k v d) ≤ suc (length d)
  length-insert_new k v [] = omega arith
  length-insert_new k v ((j, w) ∷ d) = ground (arith, length-insert_new k v d)

  length-insert_known :
      (k : String) (v w : A) (d : Dict String A)
      → lookup k d ≡ some w
      → length (insert k v d) ≡ length d
  length-insert_known k v w [] h = cc
  length-insert_known k v w ((j, x) ∷ d) h = ground (arith, length-insert_known k v w d)

  length-erase : (k : String) (d : Dict String A) → length (erase k d) ≤ length d
  length-erase k [] = omega arith
  length-erase k ((j, w) ∷ d) = ground (arith, length-erase k d)

module _ (wire : Wire) where
  open wire use {Float, OutboundMessage}

  -- A connection is in a room for both tables or for none, and once; there are no more connections than may
  -- be, and none is in more rooms than its subscriptions and the room of its user.
  pub record IsValid (m : ConnectionManager wire) : Type 0 where
    pub agree :
        (c r : String) → contains (get_rooms wire c m) r ≡ contains (room_members wire r m) c
    pub sets : AreSets m.rooms
    pub capacity : length m.connections ≤ m.max_connections
    pub subscriptions : (c : String) → length (get_rooms wire c m) ≤ m.max_subscriptions + 1

  -- A connection whose rooms change to others, within the bound, as the manager's table does.
  changed-IsValid :
      (cid : String) (info info' : ConnectionInfo wire) (m : ConnectionManager wire)
      (rooms : Dict String (List String))
      → IsValid m
      → lookup cid m.connections ≡ some info
      → length info'.rooms ≤ m.max_subscriptions + 1
      → AreSets rooms
      → ((c r : String)
          → contains (members_of r rooms) c
            ≡ (if cid == c then contains info'.rooms r else contains (room_members wire r m) c))
      → IsValid record m { connections = insert cid info' m.connections; rooms = rooms }
  changed-IsValid cid info info' m rooms valid e bound sets change = record {
    sets = sets;
    agree = λ c r.
        ground (arith, rooms-insert wire cid c info' m.connections, change c r, valid.agree c r);
    capacity = omega (arith, length-insert_known cid info' info m.connections e, valid.capacity);
    subscriptions =
        λ c. ground (arith, rooms-insert wire cid c info' m.connections, valid.subscriptions c);
  }

  -- What leaves the rooms alone.
  pub kept-IsValid :
      (cid : String) (info info' : ConnectionInfo wire) (m : ConnectionManager wire)
      → IsValid m
      → lookup cid m.connections ≡ some info
      → info'.rooms ≡ info.rooms
      → IsValid record m { connections = insert cid info' m.connections }
  kept-IsValid cid info info' m valid e same =
      let here : get_rooms wire cid m ≡ info.rooms = rw e refl in
      changed-IsValid cid info info' m m.rooms valid e
        (rw (same, sym here) (valid.subscriptions cid)) valid.sets
        (λ c r. ground (arith, same, here, valid.agree c r, string_eq.same_iff cid c))

  pub unregister-IsValid :
      (cid : String) (m : ConnectionManager wire) → IsValid m → IsValid (unregister wire cid m)
  unfolding unregister
  unregister-IsValid cid m valid = elim (Option-cases (lookup cid m.connections)) [
    | inl e ↦ rw (e, unregister) valid
    | inr (info, e) ↦
        let here : get_rooms wire cid m ≡ info.rooms = rw e refl in
        rw (e, unregister)
          record {
            sets = vacate-AreSets cid info.rooms m.rooms valid.sets;
            agree = λ c r. ground (
              arith,
              rooms-erase wire cid c m.connections,
              contains-vacate cid c r info.rooms m.rooms,
              valid.agree c r,
              here,
              string_eq.same_iff cid c,
              string_eq.same_iff c cid,
            );
            capacity = omega (arith, length-erase cid m.connections, valid.capacity);
            subscriptions =
                λ c. ground (arith, rooms-erase wire cid c m.connections, valid.subscriptions c);
          }
  ]

  -- The state that a call returns, if it does, is valid.
  abbrev Returns : Outcome WsError (ConnectionManager wire) → Type 0
  Returns (ok m) = IsValid m
  Returns (err raised) = Unit

  returned :
      (m' : ConnectionManager wire) (call : Outcome WsError (ConnectionManager wire))
      → call ≡ ok m'
      → Returns call
      → IsValid m'
  returned m' call h valid = subst Returns h valid

  join_room-Returns :
      (cid room : String) (m : ConnectionManager wire)
      → IsValid m
      → Returns (join_room wire cid room m)
  unfolding join_room
  join_room-Returns cid room m valid = elim (Option-cases (lookup cid m.connections)) [
    | inl e ↦ rw (e, join_room) valid
    | inr (info, e) ↦
        let here : get_rooms wire cid m ≡ info.rooms = rw e refl in
        elim (Bool-cases (leb (m.max_subscriptions + 1) (length info.rooms))) [
          | inl more ↦ rw (e, join_room, more) tt
          | inr fits ↦
              rw (e, join_room, fits)
                (changed-IsValid cid info record info { rooms = add room info.rooms } m
                  (enter cid room m.rooms) valid e
                  (ground (arith, fits, length-add room info.rooms))
                  (enter-AreSets cid room m.rooms valid.sets)
                  (λ c r. ground (
                    arith,
                    contains-enter cid room c r m.rooms,
                    contains-add room r info.rooms,
                    here,
                    valid.agree c r,
                    string_eq.same_iff cid c,
                    string_eq.same_iff c cid,
                  )))
        ]
  ]

  pub join_room-IsValid :
      (cid room : String) (m m' : ConnectionManager wire)
      → IsValid m
      → join_room wire cid room m ≡ ok m'
      → IsValid m'
  join_room-IsValid cid room m m' valid h =
      returned m' (join_room wire cid room m) h (join_room-Returns cid room m valid)

  pub leave_room-IsValid :
      (cid room : String) (m : ConnectionManager wire)
      → IsValid m
      → IsValid (leave_room wire cid room m)
  unfolding leave_room
  leave_room-IsValid cid room m valid = elim (Option-cases (lookup cid m.connections)) [
    | inl e ↦ rw (e, leave_room) valid
    | inr (info, e) ↦
        let here : get_rooms wire cid m ≡ info.rooms = rw e refl in
        rw (e, leave_room)
          (changed-IsValid cid info record info { rooms = discard room info.rooms } m
            (quit cid room m.rooms) valid e
            (omega (arith, length-discard room info.rooms, valid.subscriptions cid, ap length here))
            (quit-AreSets cid room m.rooms valid.sets)
            (λ c r. ground (
              arith,
              contains-quit cid room c r m.rooms,
              contains-discard room r info.rooms,
              here,
              valid.agree c r,
              string_eq.same_iff cid c,
              string_eq.same_iff c cid,
            )))
  ]

  send-Returns :
      (cid : String) (message : OutboundMessage) (m : ConnectionManager wire)
      → IsValid m
      → Returns (send wire cid message m)
  unfolding send
  send-Returns cid message m valid = elim (Option-cases (lookup cid m.connections)) [
    | inl e ↦ rw (e, send) valid
    | inr (info, e) ↦ elim (Bool-cases (is_full wire m.send_queue_size info.send_queue)) [
      | inl full ↦ rw (e, send, full) tt
      | inr room ↦
          rw (e, send, room)
            (kept-IsValid cid info record info { send_queue = info.send_queue ++ message ∷ [] } m
              valid e refl)
    ]
  ]

  pub send-IsValid :
      (cid : String) (message : OutboundMessage) (m m' : ConnectionManager wire)
      → IsValid m
      → send wire cid message m ≡ ok m'
      → IsValid m'
  send-IsValid cid message m m' valid h =
      returned m' (send wire cid message m) h (send-Returns cid message m valid)

  -- A new connection, where the table has room and the identifier is not in use.
  registered-IsValid :
      (cid user_id : String) (info : ConnectionInfo wire) (m : ConnectionManager wire)
      → IsValid m
      → lookup cid m.connections ≡ none
      → suc (length m.connections) ≤ m.max_connections
      → info.rooms ≡ user_room user_id ∷ []
      → IsValid record m {
        connections = insert cid info m.connections;
        rooms = enter cid (user_room user_id) m.rooms;
      }
  registered-IsValid cid user_id info m valid fresh space own =
      let none_yet : get_rooms wire cid m ≡ [] = rw fresh refl in
      record {
        sets = enter-AreSets cid (user_room user_id) m.rooms valid.sets;
        agree = λ c r. ground (
          arith,
          rooms-insert wire cid c info m.connections,
          contains-enter cid (user_room user_id) c r m.rooms,
          none_yet,
          own,
          valid.agree c r,
          string_eq.same_iff cid c,
          string_eq.same_iff c cid,
        );
        capacity = omega (arith, length-insert_new cid info m.connections, space);
        subscriptions = λ c. ground (
          arith,
          rooms-insert wire cid c info m.connections,
          ap length own,
          valid.subscriptions c,
        );
      }

  register-Returns :
      (now : Float) (cid user_id : String) (scopes : List String) (m : ConnectionManager wire)
      → IsValid m
      → lookup cid m.connections ≡ none
      → Returns (
          register wire now cid user_id scopes m >>= λ (answer : String × ConnectionManager wire).
          ok answer.1)
  unfolding register
  register-Returns now cid user_id scopes m valid fresh = elim (Bool-cases m.shutting_down) [
    | inl closing ↦ rw (closing, register) tt
    | inr running ↦ elim (Bool-cases (leb m.max_connections (length m.connections))) [
      | inl full ↦ rw (running, full, register) tt
      | inr space ↦
          rw (running, space, register)
            (rw running at (
              registered-IsValid cid user_id
                record {
                  user_id = user_id;
                  scopes = scopes;
                  rooms = user_room user_id ∷ [];
                  send_queue = [];
                  last_seen = now;
                }
                m valid fresh (ground (arith, space)) refl))
    ]
  ]

  pub register-IsValid :
      (now : Float) (cid id user_id : String) (scopes : List String) (m m' : ConnectionManager wire)
      → IsValid m
      → lookup cid m.connections ≡ none
      → register wire now cid user_id scopes m ≡ ok (id, m')
      → IsValid m'
  register-IsValid now cid id user_id scopes m m' valid fresh h =
      returned m' _
        (ap
          (λ (answer : Outcome WsError (String × ConnectionManager wire)).
            answer >>= λ (a : String × ConnectionManager wire). ok a.1)
          h)
        (register-Returns now cid user_id scopes m valid fresh)
