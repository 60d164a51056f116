-- ===== src/Ws/Reach.antt =====
-- The managers that the methods reach, whatever the order in which their bodies run.
use nexus_trade_engine.Prelude.{
  ℕ, List-cases, subst, String, ◌≡◌, refl, none, Bool, false, List, [], ◌∷◌, arith, string_eq,
  lookup, Option-cases, Bool-cases, inl, inr, ok,
}
use nexus_trade_engine.Ws.{
  Wire, ConnectionManager, register, unregister, join_room, leave_room, send,
}
use nexus_trade_engine.Ws.Upkeep.{
  next_seq, touch, heartbeat, unregister_all, sender_round, begin_closing, end_closing, stale,
}
use nexus_trade_engine.Ws.Invariant.{
  IsValid, kept-IsValid, unregister-IsValid, join_room-IsValid, leave_room-IsValid, send-IsValid,
  register-IsValid,
}

module _ (wire : Wire) where
  open wire use {Float, OutboundMessage}

  -- The body of a method that does not raise; an identifier that a registration draws is not in use,
  -- as uuid4 promises.
  pub data Step (m m' : ConnectionManager wire) : Type 0 where
    registers :
        (now : Float) (cid id user_id : String) (scopes : List String)
        → lookup cid m.connections ≡ none
        → register wire now cid user_id scopes m ≡ ok (id, m')
        → Step m m'
    unregisters : (cid : String) → unregister wire cid m ≡ m' → Step m m'
    joins : (cid room : String) → join_room wire cid room m ≡ ok m' → Step m m'
    leaves : (cid room : String) → leave_room wire cid room m ≡ m' → Step m m'
    sends : (cid : String) (message : OutboundMessage) → send wire cid message m ≡ ok m' → Step m m'
    counts : (room : String) → (next_seq wire room m).1 ≡ m' → Step m m'
    touches : (now : Float) (cid : String) → touch wire now cid m ≡ m' → Step m m'
    beats : (now : Float) → heartbeat wire now m ≡ m' → Step m m'
    serves : (sent : Bool) (cid : String) → sender_round wire sent cid m ≡ m' → Step m m'

  -- An empty manager.
  unfoldable pub new : ℕ → ℕ → ℕ → Float → ConnectionManager wire
  new max_connections send_queue_size max_subscriptions heartbeat_interval = record {
    connections = [];
    rooms = [];
    max_connections = max_connections;
    send_queue_size = send_queue_size;
    max_subscriptions = max_subscriptions;
    heartbeat_interval = heartbeat_interval;
    seq_counters = [];
    shutting_down = false;
  }

  pub data Served : ConnectionManager wire → Type 0 where
    start :
        (max_connections send_queue_size max_subscriptions : ℕ) (heartbeat_interval : Float)
        → Served (new max_connections send_queue_size max_subscriptions heartbeat_interval)
    after : (m m' : ConnectionManager wire) → Served m → Step m m' → Served m'
    closing : (m : ConnectionManager wire) → Served m → Served (begin_closing wire m).1
    closed : (m : ConnectionManager wire) → Served m → Served (end_closing wire m)

  touch-IsValid :
      (now : Float) (cid : String) (m : ConnectionManager wire)
      → IsValid wire m
      → IsValid wire (touch wire now cid m)
  unfolding touch
  touch-IsValid now cid m valid = elim (Option-cases (lookup cid m.connections)) [
    | inl e ↦ rw (e, touch) valid
    | inr (info, e) ↦
        rw (e, touch) (kept-IsValid wire cid info record info { last_seen = now } m valid e refl)
  ]

  unregister_all-IsValid :
      (cids : List String) (m : ConnectionManager wire)
      → IsValid wire m
      → IsValid wire (unregister_all wire cids m)
  unregister_all-IsValid [] m valid = valid
  unregister_all-IsValid (cid ∷ cids) m valid =
      unregister_all-IsValid cids (unregister wire cid m) (unregister-IsValid wire cid m valid)

  sender_round-IsValid :
      (sent : Bool) (cid : String) (m : ConnectionManager wire)
      → IsValid wire m
      → IsValid wire (sender_round wire sent cid m)
  unfolding sender_round
  sender_round-IsValid sent cid m valid = elim (Option-cases (lookup cid m.connections)) [
    | inl e ↦ rw (e, sender_round) valid
    | inr (info, e) ↦ elim (List-cases info.send_queue) [
      | inl waits ↦ rw (e, sender_round, waits) valid
      | inr (message, queue, q) ↦
          let kept = kept-IsValid wire cid info record info { send_queue = queue } m valid e refl in
          elim (Bool-cases sent) [
            | inl delivered ↦ rw (e, sender_round, q, delivered) kept
            | inr broken ↦ rw (e, sender_round, q, broken) (unregister-IsValid wire cid _ kept)
          ]
    ]
  ]

  pub Step-IsValid : (m m' : ConnectionManager wire) → IsValid wire m → Step m m' → IsValid wire m'
  unfolding next_seq heartbeat
  Step-IsValid m m' valid (registers now cid id user_id scopes fresh h) =
      register-IsValid wire now cid id user_id scopes m m' valid fresh h
  Step-IsValid m m' valid (unregisters cid h) =
      subst (IsValid wire) h (unregister-IsValid wire cid m valid)
  Step-IsValid m m' valid (joins cid room h) = join_room-IsValid wire cid room m m' valid h
  Step-IsValid m m' valid (leaves cid room h) =
      subst (IsValid wire) h (leave_room-IsValid wire cid room m valid)
  Step-IsValid m m' valid (sends cid message h) = send-IsValid wire cid message m m' valid h
  Step-IsValid m m' valid (counts room h) = subst (IsValid wire) h record {
    sets = valid.sets;
    agree = valid.agree;
    capacity = valid.capacity;
    subscriptions = valid.subscriptions;
  }
  Step-IsValid m m' valid (touches now cid h) =
      subst (IsValid wire) h (touch-IsValid now cid m valid)
  Step-IsValid m m' valid (beats now h) =
      subst (IsValid wire) h
        (unregister_all-IsValid (stale wire now m.heartbeat_interval m.connections) m valid)
  Step-IsValid m m' valid (serves sent cid h) =
      subst (IsValid wire) h (sender_round-IsValid sent cid m valid)

  -- Whatever the order in which the bodies of the methods run, a shutdown among them, the rooms of a
  -- connection and the members of a room agree, there are no more connections than may be, and no
  -- connection is in more rooms than its subscriptions and the room of its user.
  pub Served-IsValid : (m : ConnectionManager wire) → Served m → IsValid wire m
  unfolding begin_closing end_closing new
  Served-IsValid _ (start max_connections send_queue_size max_subscriptions heartbeat_interval) =
      record {
        sets = λ r. tt;
        agree = λ c r. refl;
        capacity = omega arith;
        subscriptions = λ c. omega arith;
      }
  Served-IsValid _ (after m m' before step) = Step-IsValid m m' (Served-IsValid m before) step
  Served-IsValid _ (closing m before) =
      let valid = Served-IsValid m before in
      record {
        sets = valid.sets;
        agree = valid.agree;
        capacity = valid.capacity;
        subscriptions = valid.subscriptions;
      }
  Served-IsValid _ (closed m before) =
      let valid = Served-IsValid m before in
      record {
        sets = valid.sets;
        agree = valid.agree;
        capacity = valid.capacity;
        subscriptions = valid.subscriptions;
      }
