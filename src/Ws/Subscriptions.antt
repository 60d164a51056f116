-- ===== src/Ws/Subscriptions.antt =====
-- What subscribing and leaving do to the rooms of every connection.
use Prim.Native.String.{◌++◌ as ◌<>◌}
use nexus_trade_engine.Prelude.{
  ℕ, ◌+◌, String, ◌≡◌, refl, subst, inl, inr, Option, none, some, Bool, true, false, ◌&&◌, ◌||◌,
  List, arith, if◌then◌else◌, ◌==◌, string_eq, Dict, lookup, Outcome, ok, err, Option-cases,
  Bool-cases, Outcome-cases, contains, add, discard, contains-add, contains-discard, length, leb,
}
use nexus_trade_engine.Ws.{
  Wire, WsError, ConnectionInfo, ConnectionManager, get_rooms, join_room, leave_room,
}
use nexus_trade_engine.Ws.Rooms.{rooms-insert}
use nexus_trade_engine.Ws.Permissions.{check_channel_access, resolve_room_name}
use nexus_trade_engine.Ws.Channels.{
  valid_channels, refused, SubscriptionResult, non_user_rooms, enter_room, handle_subscribe,
  handle_unsubscribe,
}

module _ (wire : Wire) where
  -- A connection that joins a room has it besides those it had, and the others keep theirs.
  abbrev pub Joined : String → String → ConnectionManager wire → ConnectionManager wire → Type 0
  Joined cid room m m' =
      (c r : String)
      → contains (get_rooms wire c m') r
        ≡ (((c == cid) && (r == room)) || contains (get_rooms wire c m) r)

  abbrev IfJoined :
      String → String → ConnectionManager wire → Outcome WsError (ConnectionManager wire) → Type 0
  IfJoined cid room m (ok m') = Joined cid room m m'
  IfJoined cid room m (err raised) = Unit

  join_room-Joined :
      (cid room : String) (info : ConnectionInfo wire) (m : ConnectionManager wire)
      → lookup cid m.connections ≡ some info
      → IfJoined cid room m (join_room wire cid room m)
  unfolding join_room
  join_room-Joined cid room info m e =
      let here : get_rooms wire cid m ≡ info.rooms = rw e refl in
      elim (Bool-cases (leb (m.max_subscriptions + 1) (length info.rooms))) [
        | inl more ↦ rw (e, join_room, more) tt
        | inr fits ↦
            rw (e, join_room, fits)
              (λ c r. ground (
                arith,
                here,
                rooms-insert wire cid c record info { rooms = add room info.rooms } m.connections,
                contains-add room r info.rooms,
                string_eq.same_iff cid c,
                string_eq.same_iff c cid,
              ))
      ]

  -- A room that a connection leaves is gone from its rooms, and no other is.
  contains-leave_room :
      (cid room : String) (m : ConnectionManager wire) (c r : String)
      → contains (get_rooms wire c (leave_room wire cid room m)) r
        ≡ (if (c == cid) && (r == room) then false else contains (get_rooms wire c m) r)
  unfolding leave_room
  contains-leave_room cid room m c r = elim (Option-cases (lookup cid m.connections)) [
    | inl e ↦ rw (e, leave_room) (ground (arith, e, string_eq.same_iff c cid))
    | inr (info, e) ↦
        let here : get_rooms wire cid m ≡ info.rooms = rw e refl in
        rw (e, leave_room)
          (ground (
            arith,
            here,
            rooms-insert wire cid c record info { rooms = discard room info.rooms } m.connections,
            contains-discard room r info.rooms,
            string_eq.same_iff cid c,
            string_eq.same_iff c cid,
          ))
  ]

module _ (wire : Wire) (error_text : WsError → String) (max_subscriptions : ℕ) where
  -- What a subscription leaves.
  abbrev Leaves :
      String
      → Bool
      → Option String
      → ConnectionManager wire
      → SubscriptionResult × ConnectionManager wire
      → Type 0
  Leaves cid allowed resolved m (result, m') =
      (result.success ≡ false → m' ≡ m)
      × (result.success ≡ true
          → (allowed ≡ true)
            × ((room : String) × (result.room ≡ some room)
                × (resolved ≡ some room)
                × Joined wire cid room m m'))

  refused-Leaves :
      (cid : String) (allowed : Bool) (resolved : Option String) (code message : String)
      (m : ConnectionManager wire)
      → Leaves cid allowed resolved m (refused code message, m)
  refused-Leaves cid allowed resolved code message m =
      ((λ h. refl), (λ h. let k : false ≡ true = h in cc))

  enter_room-Leaves :
      (cid room : String) (info : ConnectionInfo wire) (m : ConnectionManager wire)
      → lookup cid m.connections ≡ some info
      → Leaves cid true (some room) m (enter_room wire error_text max_subscriptions cid room m)
  unfolding enter_room
  enter_room-Leaves cid room info m e =
      elim (Bool-cases (leb max_subscriptions (length (non_user_rooms (get_rooms wire cid m))))) [
        | inl more ↦
            rw (more, enter_room)
              (refused-Leaves cid true (some room) "429" "max subscriptions reached" m)
        | inr fits ↦ elim (Outcome-cases (join_room wire cid room m)) [
          | inl (m', joined) ↦
              rw (fits, joined, enter_room)
                (
                  (λ h. let k : true ≡ false = h in cc),
                  (λ h. (
                    refl,
                    (
                      room,
                      refl,
                      refl,
                      subst (IfJoined wire cid room m) joined
                          (join_room-Joined wire cid room info m e),
                    ),
                  )),
                )
          | inr (raised, refusal) ↦
              rw (fits, refusal, enter_room)
                (refused-Leaves cid true (some room) "500" (error_text raised) m)
        ]
      ]

  -- A subscription of a connection that is refused changes nothing; one that succeeds was allowed by
  -- the permissions, adds its room to those of the connection, and changes no other connection's.
  pub handle_subscribe_lem :
      (cid channel : String) (params : Dict String String) (user_id : String) (scopes : List String)
      (info : ConnectionInfo wire) (m : ConnectionManager wire)
      → lookup cid m.connections ≡ some info
      → let (result, m') =
          handle_subscribe wire error_text max_subscriptions cid channel params user_id scopes m in
        (result.success ≡ false → m' ≡ m)
        × (result.success ≡ true
            → ((check_channel_access channel scopes params (some user_id)).0 ≡ true)
              × ((room : String) × (result.room ≡ some room)
                  × (resolve_room_name channel params ≡ some room)
                  × Joined wire cid room m m'))
  unfolding handle_subscribe
  handle_subscribe_lem cid channel params user_id scopes info m e =
      elim (Bool-cases (contains valid_channels channel)) [
        | inr unknown ↦
            rw (unknown, handle_subscribe)
              (refused-Leaves cid (check_channel_access channel scopes params (some user_id)).0
                (resolve_room_name channel params) "404" ("unknown channel: " <> channel) m)
        | inl known ↦
            elim (Bool-cases (check_channel_access channel scopes params (some user_id)).0) [
              | inr denied ↦
                  rw (known, denied, handle_subscribe)
                    (refused-Leaves cid false (resolve_room_name channel params) "403"
                      "permission denied" m)
              | inl allowed ↦ elim (Option-cases (resolve_room_name channel params)) [
                | inl missing ↦
                    rw (known, allowed, missing, handle_subscribe)
                      (refused-Leaves cid true none "400" "missing required parameters" m)
                | inr (room, resolved) ↦
                    rw (known, allowed, resolved, handle_subscribe)
                      (enter_room-Leaves cid room info m e)
              ]
            ]
      ]

module _ (wire : Wire) where
  -- A connection that is in the room of the parameters.
  unsubscribed :
      (cid channel room : String) (params : Dict String String) (m : ConnectionManager wire)
      → resolve_room_name channel params ≡ some room
      → (c r : String)
      → contains (get_rooms wire c (handle_unsubscribe wire cid channel params m).1) r
        ≡ (if (c == cid) && (r == room) then false else contains (get_rooms wire c m) r)
  unfolding handle_unsubscribe
  unsubscribed cid channel room params m resolved c r =
      elim (Bool-cases (contains (get_rooms wire cid m) room)) [
        | inl there ↦
            rw (resolved, there, handle_unsubscribe) (contains-leave_room wire cid room m c r)
        | inr absent ↦
            rw (resolved, absent, handle_unsubscribe)
              (ground (arith, absent, string_eq.same_iff c cid, string_eq.same_iff r room))
      ]

-- Leaving the room of a subscription that succeeded takes this room from the rooms of the
-- connection. Its other rooms, and the rooms of all other connections, are those that they had before
-- the subscription.
pub unsubscribe-subscribe :
    (wire : Wire) (error_text : WsError → String) (max_subscriptions : ℕ) (cid channel : String)
    (params : Dict String String) (user_id : String) (scopes : List String)
    (info : ConnectionInfo wire) (m : ConnectionManager wire)
    → lookup cid m.connections ≡ some info
    → let (result, m1) =
        handle_subscribe wire error_text max_subscriptions cid channel params user_id scopes m in
      result.success ≡ true
      → (room : String) × (result.room ≡ some room)
        × ((c r : String)
            → contains (get_rooms wire c (handle_unsubscribe wire cid channel params m1).1) r
              ≡ (if (c == cid) && (r == room) then false else contains (get_rooms wire c m) r))
unsubscribe-subscribe wire error_text max_subscriptions cid channel params user_id scopes info m e
      success =
    let m1 =
      (handle_subscribe wire error_text max_subscriptions cid channel params user_id scopes m).1 in
    let subscribed =
      handle_subscribe_lem wire error_text max_subscriptions cid channel params user_id scopes info
        m e in
    let (allowed, (room, named, resolved, joined)) = subscribed.1 success in
    (
      room,
      named,
      λ c r. ground (arith, unsubscribed wire cid channel room params m1 resolved c r, joined c r),
    )
