-- ===== src/Ws/Shutdown.antt =====
-- While the server shuts down, every step keeps it so, and none brings a connection.
use nexus_trade_engine.Prelude.{
  ◌+◌, String, ◌≡◌, refl, subst, ◌∙◌, inl, inr, none, some, Bool, true, List, [], ◌∷◌, arith,
  string_eq, Dict, lookup, insert, lookup-insert, lookup-erase, Outcome, ok, err, Option-cases,
  Bool-cases, List-cases, leb, length,
}
use nexus_trade_engine.Ws.{
  Wire, WsError, connection_limit_error, ConnectionInfo, ConnectionManager, register, unregister,
  join_room, leave_room, send, is_full,
}
use nexus_trade_engine.Ws.Upkeep.{next_seq, touch, heartbeat, unregister_all, sender_round, stale}
use nexus_trade_engine.Ws.Reach.{
  Step, registers, unregisters, joins, leaves, sends, counts, touches, beats, serves,
}

module _ {A : Type 0} where
  -- The key of a change that is made only where the key is there.
  insert_known-none :
      (cid c : String) (v w : A) (d : Dict String A)
      → lookup cid d ≡ some w
      → lookup c d ≡ none
      → lookup c (insert cid v d) ≡ none
  insert_known-none cid c v w d known missing =
      ground (arith, lookup-insert cid c v d, string_eq.same_iff cid c)

module _ (wire : Wire) where
  open wire use {Float, OutboundMessage}

  pub record Shrinks (m m' : ConnectionManager wire) : Type 0 where
    pub closing : m'.shutting_down ≡ m.shutting_down
    pub gone : (c : String) → lookup c m.connections ≡ none → lookup c m'.connections ≡ none

  pub same-Shrinks : (m : ConnectionManager wire) → Shrinks m m
  same-Shrinks m = record { closing = refl; gone = λ c h. h }

  both-Shrinks : (m m1 m2 : ConnectionManager wire) → Shrinks m m1 → Shrinks m1 m2 → Shrinks m m2
  both-Shrinks m m1 m2 s t = record {
    closing = t.closing ∙ s.closing;
    gone = λ c h. t.gone c (s.gone c h);
  }

  changed-Shrinks :
      (cid : String) (info info' : ConnectionInfo wire) (rooms : Dict String (List String))
      (m : ConnectionManager wire)
      → lookup cid m.connections ≡ some info
      → Shrinks m record m { connections = insert cid info' m.connections; rooms = rooms }
  changed-Shrinks cid info info' rooms m e = record {
    closing = refl;
    gone = λ c h. insert_known-none cid c info' info m.connections e h;
  }

  pub unregister-Shrinks :
      (cid : String) (m : ConnectionManager wire) → Shrinks m (unregister wire cid m)
  unfolding unregister
  unregister-Shrinks cid m = elim (Option-cases (lookup cid m.connections)) [
    | inl e ↦ rw (e, unregister) (same-Shrinks m)
    | inr (info, e) ↦
        rw (e, unregister)
          record {
            closing = refl;
            gone = λ c h. ground (arith, lookup-erase cid c m.connections, h);
          }
  ]

  abbrev pub IfOk : ConnectionManager wire → Outcome WsError (ConnectionManager wire) → Type 0
  IfOk m (ok m') = Shrinks m m'
  IfOk m (err raised) = Unit

  join_room-IfOk :
      (cid room : String) (m : ConnectionManager wire) → IfOk m (join_room wire cid room m)
  unfolding join_room
  join_room-IfOk cid room m = elim (Option-cases (lookup cid m.connections)) [
    | inl e ↦ rw (e, join_room) (same-Shrinks m)
    | inr (info, e) ↦ elim (Bool-cases (leb (m.max_subscriptions + 1) (length info.rooms))) [
      | inl more ↦ rw (e, join_room, more) tt
      | inr fits ↦ rw (e, join_room, fits) (changed-Shrinks cid info _ _ m e)
    ]
  ]

  leave_room-Shrinks :
      (cid room : String) (m : ConnectionManager wire) → Shrinks m (leave_room wire cid room m)
  unfolding leave_room
  leave_room-Shrinks cid room m = elim (Option-cases (lookup cid m.connections)) [
    | inl e ↦ rw (e, leave_room) (same-Shrinks m)
    | inr (info, e) ↦ rw (e, leave_room) (changed-Shrinks cid info _ _ m e)
  ]

  pub send-IfOk :
      (cid : String) (message : OutboundMessage) (m : ConnectionManager wire)
      → IfOk m (send wire cid message m)
  unfolding send
  send-IfOk cid message m = elim (Option-cases (lookup cid m.connections)) [
    | inl e ↦ rw (e, send) (same-Shrinks m)
    | inr (info, e) ↦ elim (Bool-cases (is_full wire m.send_queue_size info.send_queue)) [
      | inl full ↦ rw (e, send, full) tt
      | inr room ↦ rw (e, send, room) (changed-Shrinks cid info _ m.rooms m e)
    ]
  ]

  touch-Shrinks :
      (now : Float) (cid : String) (m : ConnectionManager wire) → Shrinks m (touch wire now cid m)
  unfolding touch
  touch-Shrinks now cid m = elim (Option-cases (lookup cid m.connections)) [
    | inl e ↦ rw (e, touch) (same-Shrinks m)
    | inr (info, e) ↦ rw (e, touch) (changed-Shrinks cid info _ m.rooms m e)
  ]

  unregister_all-Shrinks :
      (cids : List String) (m : ConnectionManager wire) → Shrinks m (unregister_all wire cids m)
  unregister_all-Shrinks [] m = same-Shrinks m
  unregister_all-Shrinks (cid ∷ cids) m =
      both-Shrinks m (unregister wire cid m) _ (unregister-Shrinks cid m)
        (unregister_all-Shrinks cids (unregister wire cid m))

  sender_round-Shrinks :
      (sent : Bool) (cid : String) (m : ConnectionManager wire)
      → Shrinks m (sender_round wire sent cid m)
  unfolding sender_round
  sender_round-Shrinks sent cid m = elim (Option-cases (lookup cid m.connections)) [
    | inl e ↦ rw (e, sender_round) (same-Shrinks m)
    | inr (info, e) ↦ elim (List-cases info.send_queue) [
      | inl waits ↦ rw (e, sender_round, waits) (same-Shrinks m)
      | inr (message, queue, q) ↦
          let popped = changed-Shrinks cid info record info { send_queue = queue } m.rooms m e in
          elim (Bool-cases sent) [
            | inl delivered ↦ rw (e, sender_round, q, delivered) popped
            | inr broken ↦
                rw (e, sender_round, q, broken)
                  (both-Shrinks m _ _ popped (unregister-Shrinks cid _))
          ]
    ]
  ]

  register-closing :
      (now : Float) (cid user_id : String) (scopes : List String) (m : ConnectionManager wire)
      → m.shutting_down ≡ true
      → register wire now cid user_id scopes m
        ≡ err (connection_limit_error 1011 "server shutting down")
  unfolding register
  register-closing now cid user_id scopes m h = rw h refl

  pub Step-Shrinks :
      (m m' : ConnectionManager wire) → m.shutting_down ≡ true → Step wire m m' → Shrinks m m'
  unfolding next_seq heartbeat
  Step-Shrinks m m' down (registers now cid id user_id scopes fresh h) =
      let e = register-closing now cid user_id scopes m down in cc
  Step-Shrinks m m' down (unregisters cid h) = subst (Shrinks m) h (unregister-Shrinks cid m)
  Step-Shrinks m m' down (joins cid room h) = subst (IfOk m) h (join_room-IfOk cid room m)
  Step-Shrinks m m' down (leaves cid room h) = subst (Shrinks m) h (leave_room-Shrinks cid room m)
  Step-Shrinks m m' down (sends cid message h) = subst (IfOk m) h (send-IfOk cid message m)
  Step-Shrinks m m' down (counts room h) =
      subst (Shrinks m) h record { closing = refl; gone = λ c g. g }
  Step-Shrinks m m' down (touches now cid h) = subst (Shrinks m) h (touch-Shrinks now cid m)
  Step-Shrinks m m' down (beats now h) =
      subst (Shrinks m) h
        (unregister_all-Shrinks (stale wire now m.heartbeat_interval m.connections) m)
  Step-Shrinks m m' down (serves sent cid h) = subst (Shrinks m) h (sender_round-Shrinks sent cid m)
