-- ===== src/Live/Loop/Registry.antt =====
-- The two dicts of the loop stay consistent through every call, also through those that raise.
use nexus_trade_engine.Prelude.{
  ℕ, String, ◌≡◌, refl, sym, subst, Option, none, some, ◌∷◌, Outcome, ok, err, arith, ◌==◌, nat_eq,
  string_eq, lookup, lookup-insert, lookup-insert_self, ◌⊎◌, Bool-cases, inl, inr, nat_beq_iff,
  Option-cases,
}
use nexus_trade_engine.Prelude.Int.{ℤ}
use nexus_trade_engine.Oms.Events.{OrderEvent, submit_event, reject_event}
use nexus_trade_engine.Oms.Order.{Order, OmsError, apply_event}
use nexus_trade_engine.Oms.Order.Invariant.{IsValid, apply_event-IsValid}
use nexus_trade_engine.Oms.Risk.{CheckResult, approve, reject, evaluate}
use nexus_trade_engine.Live.Loop.{
  LiveLoop, BrokerReply, accepted, auth_error, connection_error, other_error, reject_error,
  unknown_order, track, settle, settle_submitted, after_broker, after_gate, submit, apply_found,
  apply_known, apply_broker_event,
}

-- Every order stands under its own id and is valid, and every broker id leads to an order.
pub record IsConsistent (loop : LiveLoop) : Type 0 where
  pub keyed : (i : ℕ) (o : Order) → lookup i loop.by_oms_id ≡ some o → (o.id ≡ i) × IsValid o
  pub routed :
      (b : String) (i : ℕ)
      → lookup b loop.broker_to_oms ≡ some i
      → (o : Order) × (lookup i loop.by_oms_id ≡ some o)

module _ (o : Order) (loop : LiveLoop) (v : IsValid o) (c : IsConsistent loop) where
  track-keyed :
      (i : ℕ) (p : Order) → lookup i (track o loop).by_oms_id ≡ some p → (p.id ≡ i) × IsValid p
  unfolding track
  track-keyed i p h = elim (Bool-cases (o.id == i)) [
    | inl same ↦
        let e : o ≡ p = ground (arith, lookup-insert o.id i o loop.by_oms_id) in
        subst (λ (x : Order). (x.id ≡ i) × IsValid x) e ((nat_beq_iff o.id i).0 same, v)
    | inr other ↦ c.keyed i p (ground (arith, lookup-insert o.id i o loop.by_oms_id))
  ]

  -- Whatever was found under an id is found under it after `track`, or has been replaced.
  track-found :
      (i : ℕ) (p : Order)
      → lookup i loop.by_oms_id ≡ some p
      → (q : Order) × (lookup i (track o loop).by_oms_id ≡ some q)
  unfolding track
  track-found i p h = elim (Bool-cases (o.id == i)) [
    | inl same ↦ (o, ground (arith, lookup-insert o.id i o loop.by_oms_id))
    | inr other ↦ (p, ground (arith, lookup-insert o.id i o loop.by_oms_id))
  ]

  track-routes : (track o loop).broker_to_oms ≡ loop.broker_to_oms
  unfolding track
  track-routes = refl

  track-IsConsistent : IsConsistent (track o loop)
  track-IsConsistent = record {
    keyed = track-keyed;
    routed = λ b i h. (let (p, f) = c.routed b i (rw track-routes at h) in track-found i p f);
  }

settle-IsConsistent :
    (r : Outcome OmsError Order) (loop : LiveLoop)
    → ((u : Order) → r ≡ ok u → IsValid u)
    → IsConsistent loop
    → IsConsistent (settle r loop).1
unfolding settle
settle-IsConsistent (ok u) loop v c = track-IsConsistent u loop (v u refl) c
settle-IsConsistent (err x) loop v c = c

-- The broker id of a submitted order leads to it; the other routes are those of before.
module _ (u : Order) (b : String) (loop : LiveLoop) (v : IsValid u) (c : IsConsistent loop) where
  submitted : LiveLoop
  submitted = (settle_submitted (ok u) b loop).1

  submitted-routed :
      (b' : String) (i : ℕ)
      → lookup b' submitted.broker_to_oms ≡ some i
      → (o : Order) × (lookup i submitted.by_oms_id ≡ some o)
  unfolding submitted settle_submitted track
  submitted-routed b' i h = elim (Bool-cases (b == b')) [
    | inl same ↦
        let e : u.id ≡ i = ground (arith, lookup-insert b b' u.id loop.broker_to_oms) in
        (u, rw (← e) (lookup-insert_self u.id u loop.by_oms_id))
    | inr other ↦
        let (p, f) = c.routed b' i (ground (arith, lookup-insert b b' u.id loop.broker_to_oms)) in
        track-found u loop v c i p f
  ]

  submitted-IsConsistent : IsConsistent submitted
  unfolding submitted settle_submitted
  submitted-IsConsistent = record { keyed = track-keyed u loop v c; routed = submitted-routed }

settle_submitted-IsConsistent :
    (r : Outcome OmsError Order) (b : String) (loop : LiveLoop)
    → ((u : Order) → r ≡ ok u → IsValid u)
    → IsConsistent loop
    → IsConsistent (settle_submitted r b loop).1
unfolding settle_submitted submitted
settle_submitted-IsConsistent (ok u) b loop v c = submitted-IsConsistent u b loop (v u refl) c
settle_submitted-IsConsistent (err x) b loop v c = c

module _ (divide : ℤ → ℤ → ℤ) where
  after_broker-IsConsistent :
      (now : ℕ) (o : Order) (reply : BrokerReply) (loop : LiveLoop)
      → IsValid o
      → IsConsistent loop
      → IsConsistent (after_broker divide now o reply loop).1
  unfolding after_broker
  after_broker-IsConsistent now o (accepted b) loop v c =
      settle_submitted-IsConsistent (apply_event divide o (submit_event now (some b))) b loop
        (λ u. apply_event-IsValid divide o _ u v) c
  after_broker-IsConsistent now o auth_error loop v c = record {
    keyed = c.keyed;
    routed = c.routed;
  }
  after_broker-IsConsistent now o (reject_error m code) loop v c =
      settle-IsConsistent _ loop (λ u. apply_event-IsValid divide o _ u v) c
  after_broker-IsConsistent now o connection_error loop v c = c
  after_broker-IsConsistent now o other_error loop v c = c

  after_gate-IsConsistent :
      (result : CheckResult) (now : ℕ) (o : Order) (reply : BrokerReply) (loop : LiveLoop)
      → IsValid o
      → IsConsistent loop
      → IsConsistent (after_gate divide result now o reply loop).1
  unfolding after_gate
  after_gate-IsConsistent (reject reason) now o reply loop v c =
      settle-IsConsistent (apply_event divide o (reject_event now reason)) loop
        (λ u. apply_event-IsValid divide o _ u v) c
  after_gate-IsConsistent approve now o reply loop v c =
      after_broker-IsConsistent now o reply (record loop { sent = o ∷ loop.sent }) v
        (record { keyed = c.keyed; routed = c.routed })

  apply_found-IsConsistent :
      (event : OrderEvent) (i : ℕ) (found : Option Order) (loop : LiveLoop)
      → lookup i loop.by_oms_id ≡ found
      → IsConsistent loop
      → IsConsistent (apply_found divide event i found loop).1
  unfolding apply_found
  apply_found-IsConsistent event i none loop h c = c
  apply_found-IsConsistent event i (some o) loop h c =
      settle-IsConsistent (apply_event divide o event) loop
        (λ u. apply_event-IsValid divide o event u (c.keyed i o h).1) c

  apply_known-IsConsistent :
      (event : OrderEvent) (b : String) (known : Option ℕ) (loop : LiveLoop)
      → IsConsistent loop
      → IsConsistent (apply_known divide event b known loop).1
  unfolding apply_known
  apply_known-IsConsistent event b none loop c = c
  apply_known-IsConsistent event b (some i) loop c =
      apply_found-IsConsistent event i (lookup i loop.by_oms_id) loop refl c

  -- A broker event keeps consistent dicts consistent, also when the call raises.
  pub apply_broker_event-IsConsistent :
      (event : OrderEvent) (b : String) (loop : LiveLoop)
      → IsConsistent loop
      → IsConsistent (apply_broker_event divide event b loop).1
  unfolding apply_broker_event
  apply_broker_event-IsConsistent event b loop c =
      apply_known-IsConsistent event b (lookup b loop.broker_to_oms) loop c

  -- On a consistent loop a broker event with an unknown broker id is refused as such and changes
  -- nothing; with a known one the tracked order's state machine answers, and a missing key is never
  -- met.
  pub apply_broker_event_lem :
      (event : OrderEvent) (b : String) (loop : LiveLoop)
      → IsConsistent loop
      → (lookup b loop.broker_to_oms ≡ none)
          × (apply_broker_event divide event b loop ≡ (err (unknown_order b), loop))
        ⊎ ((o : Order) × (lookup b loop.broker_to_oms ≡ some o.id)
            × (lookup o.id loop.by_oms_id ≡ some o)
            × (apply_broker_event divide event b loop ≡ settle (apply_event divide o event) loop))
  unfolding apply_broker_event
  apply_broker_event_lem event b loop c = elim (Option-cases (lookup b loop.broker_to_oms)) [
    | inl unknown ↦ inl (unknown, rw unknown)
    | inr (i, known) ↦
        let (o, found) = c.routed b i known in
        let same : o.id ≡ i = (c.keyed i o found).0 in
        inr (
          o,
          rw same known,
          subst (λ k. lookup k loop.by_oms_id ≡ some o) (sym same) found,
          rw (known, apply_known) (rw (found, apply_found)),
        )
  ]

module _ (divide : ℤ → ℤ → ℤ) (decimal_text : ℤ → String) where
  -- A submission of a valid order keeps consistent dicts consistent, whatever the gate and the broker
  -- answer, also when it raises.
  pub submit-IsConsistent :
      (now : ℕ) (o : Order) (price : Option ℤ) (reply : BrokerReply) (loop : LiveLoop)
      → IsValid o
      → IsConsistent loop
      → IsConsistent (submit divide decimal_text now o price reply loop).1
  unfolding submit
  submit-IsConsistent now o price reply loop v c =
      after_gate-IsConsistent divide (evaluate decimal_text loop.kill_switch loop.checks o price).0
        now o reply loop v c
