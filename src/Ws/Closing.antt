-- ===== src/Ws/Closing.antt =====
-- `close_all`, between whose suspensions the bodies of other methods run.
use nexus_trade_engine.Prelude.{
  ℕ, String, ◌≡◌, refl, sym, subst, ap, ◌∙◌, ◌⊎◌, inl, inr, Option, none, some, true, false, List,
  [], ◌∷◌, arith, ◌==◌, string_eq, ==_refl, Dict, lookup, lookup-erase, In, Option-cases,
  Bool-cases, Outcome-cases, contains,
}
use nexus_trade_engine.Ws.{
  Wire, ConnectionInfo, ConnectionManager, keys, unregister, send, room_members,
}
use nexus_trade_engine.Ws.Fanout.{send_one}
use nexus_trade_engine.Ws.Upkeep.{begin_closing, close_send, end_closing}
use nexus_trade_engine.Ws.Invariant.{IsValid, unregister-IsValid, send-IsValid}
use nexus_trade_engine.Ws.Reach.{Step, Step-IsValid}
use nexus_trade_engine.Ws.Shutdown.{
  Shrinks, IfOk, Step-Shrinks, send-IfOk, unregister-Shrinks, same-Shrinks,
}

module _ {A : Type 0} where
  keys-In : (k : String) (v : A) (d : Dict String A) → lookup k d ≡ some v → In (keys d) k
  keys-In k v [] h = cc
  keys-In k v ((j, w) ∷ d) h = elim (Bool-cases (j == k)) [
    | inl e ↦ inl ((string_eq.same_iff j k).0 e)
    | inr e ↦ inr (keys-In k v d (rw e at h))
  ]

  empty_lem : (d : Dict String A) → ((k : String) → lookup k d ≡ none) → d ≡ []
  empty_lem [] h = refl
  empty_lem ((k, v) ∷ d) h =
      let here = h k in
      let same = ==_refl k in let e : some v ≡ none = ground (arith, here, same) in cc

module _ (wire : Wire) where
  open wire use {Float, OutboundMessage, close_message}

  -- `Closing waits cids m m'`: the loop, with these identifiers left of its snapshot, leads from `m` to
  -- `m'`; `waits` is the connection to which the message is sent and which is not removed yet, as the
  -- loop sleeps and closes the socket in between.
  pub data Closing (code : ℕ) (reason : String)
      : Option String → List String → ConnectionManager wire → ConnectionManager wire → Type 0 where
    finishes : (m : ConnectionManager wire) → Closing code reason none [] m m
    meanwhile :
        (waits : Option String) (cids : List String) (m m1 m' : ConnectionManager wire)
        → Step wire m m1
        → Closing code reason waits cids m1 m'
        → Closing code reason waits cids m m'
    skips :
        (cid : String) (cids : List String) (m m' : ConnectionManager wire)
        → lookup cid m.connections ≡ none
        → Closing code reason none cids m m'
        → Closing code reason none (cid ∷ cids) m m'
    notifies :
        (cid : String) (info : ConnectionInfo wire) (cids : List String)
        (m m' : ConnectionManager wire)
        → lookup cid m.connections ≡ some info
        → Closing code reason (some cid) cids (close_send wire code reason cid m) m'
        → Closing code reason none (cid ∷ cids) m m'
    removes :
        (cid : String) (cids : List String) (m m' : ConnectionManager wire)
        → Closing code reason none cids (unregister wire cid m) m'
        → Closing code reason (some cid) cids m m'

  -- Every connection is still to be closed.
  abbrev IsPending : Option String → List String → ConnectionManager wire → Type 0
  IsPending waits cids m =
      (c : String) → (lookup c m.connections ≡ none) ⊎ ((waits ≡ some c) ⊎ In cids c)

  shrunk-IsPending :
      (waits : Option String) (cids : List String) (m m' : ConnectionManager wire)
      → Shrinks wire m m'
      → IsPending waits cids m
      → IsPending waits cids m'
  shrunk-IsPending waits cids m m' s pending =
      λ c. elim (pending c) [ inl missing ↦ inl (s.gone c missing) | inr later ↦ inr later ]

  close_send-Shrinks :
      (code : ℕ) (reason cid : String) (m : ConnectionManager wire)
      → Shrinks wire m (close_send wire code reason cid m)
  unfolding close_send send_one
  close_send-Shrinks code reason cid m =
      elim (Outcome-cases (send wire cid (close_message code reason) m)) [
        | inl (m', e) ↦
            rw (e, close_send)
              (subst (IfOk wire m) e (send-IfOk wire cid (close_message code reason) m))
        | inr (raised, e) ↦ rw (e, close_send) (same-Shrinks wire m)
      ]

  close_send-IsValid :
      (code : ℕ) (reason cid : String) (m : ConnectionManager wire)
      → IsValid wire m
      → IsValid wire (close_send wire code reason cid m)
  unfolding close_send send_one
  close_send-IsValid code reason cid m valid =
      elim (Outcome-cases (send wire cid (close_message code reason) m)) [
        | inl (m', e) ↦
            rw (e, close_send) (send-IsValid wire cid (close_message code reason) m m' valid e)
        | inr (raised, e) ↦ rw (e, close_send) valid
      ]

  unregister-gone :
      (cid : String) (m : ConnectionManager wire)
      → lookup cid (unregister wire cid m).connections ≡ none
  unfolding unregister
  unregister-gone cid m = elim (Option-cases (lookup cid m.connections)) [
    | inl e ↦ rw (e, unregister) e
    | inr (info, e) ↦
        rw (e, unregister) (ground (arith, lookup-erase cid cid m.connections, ==_refl cid))
  ]

  -- What the loop leaves.
  Closing_lem :
      (code : ℕ) (reason : String) (waits : Option String) (cids : List String)
      (m m' : ConnectionManager wire)
      → IsValid wire m
      → m.shutting_down ≡ true
      → IsPending waits cids m
      → Closing code reason waits cids m m'
      → IsValid wire m' × (m'.shutting_down ≡ true) × IsPending none [] m'
  Closing_lem code reason _ _ _ _ valid down pending (finishes m) = (valid, down, pending)
  Closing_lem code reason _ _ _ _ valid down pending (meanwhile waits cids m m1 m' step rest) =
      let s = Step-Shrinks wire m m1 down step in
      Closing_lem code reason waits cids m1 m' (Step-IsValid wire m m1 valid step)
        (s.closing ∙ down) (shrunk-IsPending waits cids m m1 s pending) rest
  Closing_lem code reason _ _ _ _ valid down pending (skips cid cids m m' missing rest) =
      Closing_lem code reason none cids m m' valid down
        (λ c. elim (pending c) [
          | inl gone ↦ inl gone
          | inr later ↦ elim later [
            | inl waits ↦ inr (inl waits)
            | inr listed ↦ elim listed [
              | inl here ↦ inl (subst (λ k. lookup k m.connections ≡ none) here missing)
              | inr among ↦ inr (inr among)
            ]
          ]
        ])
        rest
  Closing_lem code reason _ _ _ _ valid down pending (notifies cid info cids m m' present rest) =
      let m1 = close_send wire code reason cid m in
      let s = close_send-Shrinks code reason cid m in
      Closing_lem code reason (some cid) cids m1 m' (close_send-IsValid code reason cid m valid)
        (s.closing ∙ down)
        (shrunk-IsPending (some cid) cids m m1 s (λ c. elim (pending c) [
          | inl gone ↦ inl gone
          | inr later ↦ elim later [
            | inl waits ↦ let e : none ≡ some c = waits in cc
            | inr listed ↦ elim listed [
              | inl here ↦ inr (inl (ap some here))
              | inr among ↦ inr (inr among)
            ]
          ]
        ]))
        rest
  Closing_lem code reason _ _ _ _ valid down pending (removes cid cids m m' rest) =
      let m1 = unregister wire cid m in
      let s = unregister-Shrinks wire cid m in
      Closing_lem code reason none cids m1 m' (unregister-IsValid wire cid m valid)
        (s.closing ∙ down)
        (λ c. elim (pending c) [
          | inl gone ↦ inl (s.gone c gone)
          | inr later ↦ elim later [
            | inl waits ↦ inl (
                let same : cid ≡ c = cc in
                subst (λ k. lookup k m1.connections ≡ none) same (unregister-gone cid m))
            | inr among ↦ inr (inr among)
          ]
        ])
        rest

  -- A shutdown that begins in a valid manager and ends leaves no connection, and no room with a member,
  -- whatever other methods do between its suspensions, a registration among them.
  pub close_all-empties :
      (code : ℕ) (reason : String) (m m' : ConnectionManager wire)
      → IsValid wire m
      → let (snapshot, m1) = begin_closing wire m in
        Closing code reason none snapshot m1 m'
        → ((end_closing wire m').connections ≡ [])
          × ((c r : String) → contains (room_members wire r (end_closing wire m')) c ≡ false)
          × ((end_closing wire m').shutting_down ≡ false)
  unfolding begin_closing end_closing
  close_all-empties code reason m m' valid run =
      let (valid', down, pending) =
        Closing_lem code reason none (keys m.connections) (begin_closing wire m).1 m'
          record {
            sets = valid.sets;
            agree = valid.agree;
            capacity = valid.capacity;
            subscriptions = valid.subscriptions;
          }
          refl
          (λ c. elim (Option-cases (lookup c m.connections)) [
            | inl missing ↦ inl missing
            | inr (info, e) ↦ inr (inr (keys-In c info m.connections e))
          ])
          run in
      let all_gone : (c : String) → lookup c m'.connections ≡ none = λ c. elim (pending c) [
        | inl gone ↦ gone
        | inr later ↦ elim later [
          | inl waits ↦ (let e : none ≡ some c = waits in cc)
          | inr listed ↦ absurd listed
        ]
      ] in
      (
        empty_lem m'.connections all_gone,
        (λ c r. sym (valid'.agree c r) ∙ rw (all_gone c) refl),
        refl,
      )
