-- ===== src/Signals/Voted.antt =====
-- Every signal that the aggregator emits mirrors one that a strategy emitted.
use nexus_trade_engine.Prelude.{
  String, ◌≡◌, ◌≢◌, refl, sym, subst, ◌⊎◌, inl, inr, Option, none, some, List, [], ◌∷◌, ◌++◌, ◌==◌,
  string_eq, all, keep, All, Any, In, Any-append, All-In, All-keep, All-implies, Bool-cases,
  Option-cases, Dict, values, lookup, insert,
}
use nexus_trade_engine.OrderManager.{Desk, Signal, Side, hold}
use nexus_trade_engine.Signals.{
  AggregationMethod, unanimous, majority, weighted, priority, independent, SignalBatch, Group,
  side_eq, aggregated, hold_like, is_active, hold_like_first, agree, winner, decide_ranked,
  decide_unanimous, decide_weighted_with, decide_priority, decide, group_batch, group_batches,
  decisions, all_signals, aggregate, get_or_empty, weight_or, active_of, top_signals, with_priority,
  get_or_zero, equal,
}

module _ {V : Type 0} (P : V → Type 0) where
  values-insert :
      (k : String) (v : V) (d : Dict String V)
      → P v
      → All P (values d)
      → All P (values (insert k v d))
  values-insert k v [] h g = (h, tt)
  values-insert k v ((j, w) ∷ d) h g = elim (Bool-cases (j == k)) [
    | inl e ↦ rw e (h, g.1)
    | inr e ↦ rw e (g.0, values-insert k v d h g.1)
  ]

  values-lookup :
      (k : String) (v : V) (d : Dict String V) → lookup k d ≡ some v → All P (values d) → P v
  values-lookup k v [] e g = cc
  values-lookup k v ((j, w) ∷ d) e g = elim (Bool-cases (j == k)) [
    | inl here ↦
        let same : some w ≡ some v = rw here at e in subst P (let same' : w ≡ v = cc in same') g.0
    | inr later ↦ values-lookup k v d (rw later at e) g.1
  ]

module _ {A : Type 0} (Q : A → Type 0) where
  Any-back : (front back : List A) → Any Q back → Any Q (front ++ back)
  Any-back [] back h = h
  Any-back (x ∷ front) back h = inr (Any-back front back h)

  In-Any : (x : A) (ys : List A) → Q x → In ys x → Any Q ys
  In-Any x [] q h = h
  In-Any x (y ∷ ys) q (inl here) = inl (subst Q (sym here) q)
  In-Any x (y ∷ ys) q (inr later) = inr (In-Any x ys q later)

  Any-All : (xs ys : List A) → All (In ys) xs → Any Q xs → Any Q ys
  Any-All [] ys among h = absurd h
  Any-All (x ∷ xs) ys among (inl here) = In-Any x ys here among.0
  Any-All (x ∷ xs) ys among (inr later) = Any-All xs ys among.1 later

module _ (desk : Desk) where
  open desk use {Float, of_int, lt}

  -- A signal like another, on its side or on none, in the aggregator's name.
  abbrev pub Mirrors : Signal desk → Signal desk → Type 0
  Mirrors s t =
      (s ≡ record t { side = s.side; strategy_id = "aggregated" })
      × ((s.side ≡ hold) ⊎ (s.side ≡ t.side))

  -- A decision, if there is one, mirrors one of the signals.
  abbrev IsVoted : List (Signal desk) → Option (Signal desk) → Type 0
  IsVoted signals none = Unit
  IsVoted signals (some s) = Any (Mirrors s) signals

  hold_like_first-IsVoted :
      (signals : List (Signal desk)) → IsVoted signals (hold_like_first desk signals)
  hold_like_first-IsVoted [] = tt
  hold_like_first-IsVoted (s ∷ signals) = inl (refl, inl refl)

  winner-IsVoted :
      (side : Side) (signals : List (Signal desk)) → IsVoted signals (winner desk side signals)
  winner-IsVoted side [] = tt
  winner-IsVoted side (s ∷ signals) = elim (Bool-cases (s.side == side)) [
    | inl e ↦ rw e (inl (refl, inr (sym ((side_eq.same_iff s.side side).0 e))))
    | inr e ↦ rw e (later (winner desk side signals) (winner-IsVoted side signals))
  ]
    where
      later : (o : Option (Signal desk)) → IsVoted signals o → IsVoted (s ∷ signals) o
      later none h = tt
      later (some d) h = inr h

  decide_ranked-IsVoted :
      (totals : Dict Side Float) (signals : List (Signal desk))
      → IsVoted signals (decide_ranked desk totals signals)
  decide_ranked-IsVoted [] signals = hold_like_first-IsVoted signals
  decide_ranked-IsVoted ((side, total) ∷ []) signals = winner-IsVoted side signals
  decide_ranked-IsVoted ((a, total) ∷ (b, other) ∷ more) signals =
      elim (Bool-cases (lt total other)) [
        | inl e ↦ rw e (winner-IsVoted b signals)
        | inr e ↦ elim (Bool-cases (lt other total)) [
          | inl e' ↦ rw (e, e') (winner-IsVoted a signals)
          | inr e' ↦ rw (e, e') (hold_like_first-IsVoted signals)
        ]
      ]

  -- Signals that are among others.
  agree-IsVoted :
      (active signals : List (Signal desk)) (otherwise : Option (Signal desk))
      → All (In signals) active
      → IsVoted signals otherwise
      → IsVoted signals (agree desk active otherwise)
  agree-IsVoted [] signals otherwise among h = h
  agree-IsVoted (s ∷ active) signals otherwise among h =
      elim (Bool-cases (all (λ (t : Signal desk). t.side == s.side) active)) [
        | inl e ↦
            rw e (In-Any (Mirrors (aggregated desk s s.side)) s signals (refl, inr refl) among.0)
        | inr e ↦ rw e (In-Any (Mirrors (hold_like desk s)) s signals (refl, inl refl) among.0)
      ]

  active_of-All :
      (P : Signal desk → Type 0) (group : Group desk)
      → All P (values group)
      → All P (values (active_of desk group))
  active_of-All P [] h = tt
  active_of-All P ((sid, s) ∷ group) h = elim (Bool-cases (is_active desk s)) [
    | inl e ↦ rw e (h.0, active_of-All P group h.1)
    | inr e ↦ rw e (active_of-All P group h.1)
  ]

  with_priority-All :
      (P : Signal desk → Type 0) (top : Float) (weights : Dict String Float) (group : Group desk)
      → All P (values group)
      → All P (with_priority desk top weights group)
  with_priority-All P top weights [] h = tt
  with_priority-All P top weights ((sid, s) ∷ group) h =
      elim (Bool-cases (equal desk (weight_or desk (get_or_zero desk none) weights sid) top)) [
        | inl e ↦ rw e (h.0, with_priority-All P top weights group h.1)
        | inr e ↦ rw e (with_priority-All P top weights group h.1)
      ]

  top_signals-All :
      (P : Signal desk → Type 0) (weights : Dict String Float) (active : Group desk)
      → All P (values active)
      → All P (top_signals desk weights active)
  top_signals-All P weights [] h = tt
  top_signals-All P weights ((sid, s) ∷ active) h =
      with_priority-All P _ weights ((sid, s) ∷ active) h

  decide-IsVoted :
      (method : AggregationMethod) (weights : Dict String Float) (group : Group desk)
      → IsVoted (values group) (decide desk method weights group)
  unfolding decide decide_unanimous decide_weighted_with decide_priority
  decide-IsVoted unanimous weights group =
      agree-IsVoted (keep (is_active desk) (values group)) (values group) _
        (All-keep (In (values group)) (is_active desk) (values group) (All-In (values group)))
        (hold_like_first-IsVoted (values group))
  decide-IsVoted majority weights group = decide_ranked-IsVoted _ (values group)
  decide-IsVoted weighted weights group = decide_ranked-IsVoted _ (values group)
  decide-IsVoted priority weights group =
      agree-IsVoted (top_signals desk weights (active_of desk group)) (values group) _
        (top_signals-All (In (values group)) weights (active_of desk group)
          (active_of-All (In (values group)) group (All-In (values group))))
        (hold_like_first-IsVoted (values group))
  decide-IsVoted independent weights group = tt

  -- The groups hold signals of a kind, each under its own symbol.
  abbrev AreOf : (Signal desk → Type 0) → Dict String (Group desk) → Type 0
  AreOf P groups = All (λ (g : Group desk). All P (values g)) (values groups)

  group_batch-AreOf :
      (P : Signal desk → Type 0) (sid : String) (signals : List (Signal desk))
      (groups : Dict String (Group desk))
      → All P signals
      → AreOf P groups
      → AreOf P (group_batch desk sid signals groups)
  unfolding group_batch
  group_batch-AreOf P sid [] groups h g = g
  group_batch-AreOf P sid (s ∷ signals) groups h g = group_batch-AreOf P sid signals _ h.1 (
      values-insert (λ (d : Group desk). All P (values d)) s.symbol _ groups
        (values-insert P sid s (get_or_empty (lookup s.symbol groups)) h.0
          (known (lookup s.symbol groups) refl))
        g)
    where
      known :
          (o : Option (Group desk)) → lookup s.symbol groups ≡ o → All P (values (get_or_empty o))
      known none e = tt
      known (some d) e = values-lookup (λ (d : Group desk). All P (values d)) s.symbol d groups e g

  group_batches-AreOf :
      (P : Signal desk → Type 0) (batches : List (SignalBatch desk))
      (groups : Dict String (Group desk))
      → All (λ (b : SignalBatch desk). All P b.signals) batches
      → AreOf P groups
      → AreOf P (group_batches desk batches groups)
  unfolding group_batches
  group_batches-AreOf P [] groups h g = g
  group_batches-AreOf P (b ∷ batches) groups h g =
      group_batches-AreOf P batches _ h.1 (group_batch-AreOf P b.strategy_id b.signals groups h.0 g)

  all_signals-In :
      (batches : List (SignalBatch desk))
      → All (λ (b : SignalBatch desk). All (In (all_signals desk batches)) b.signals) batches
  all_signals-In [] = tt
  all_signals-In (b ∷ batches) = (
    All-implies (In b.signals) (In (b.signals ++ all_signals desk batches)) b.signals
        (λ s h. Any-append (λ t. t ≡ s) b.signals (all_signals desk batches) h) (All-In b.signals),
    All-implies (λ (c : SignalBatch desk). All (In (all_signals desk batches)) c.signals)
        (λ (c : SignalBatch desk). All (In (b.signals ++ all_signals desk batches)) c.signals)
        batches
        (λ c h.
          All-implies (In (all_signals desk batches)) (In (b.signals ++ all_signals desk batches))
            c.signals (λ s among. Any-back (λ t. t ≡ s) b.signals (all_signals desk batches) among)
            h)
        (all_signals-In batches),
  )

  decisions-IsVoted :
      (signals : List (Signal desk)) (method : AggregationMethod) (weights : Dict String Float)
      (groups : List (Group desk))
      → All (λ (g : Group desk). All (In signals) (values g)) groups
      → All (λ s. Any (Mirrors s) signals) (decisions desk method weights groups)
  decisions-IsVoted signals method weights [] h = tt
  decisions-IsVoted signals method weights (g ∷ groups) h =
      let rest = decisions-IsVoted signals method weights groups h.1 in
      elim (Option-cases (decide desk method weights g)) [
        | inl e ↦ rw (e, decisions) rest
        | inr (s, e) ↦
            rw (e, decisions)
              (
                Any-All (Mirrors s) (values g) signals h.0
                    (subst (IsVoted (values g)) e (decide-IsVoted method weights g)),
                rest,
              )
      ]

  -- Whatever the method and the weights, every signal that the aggregator makes of several strategies'
  -- mirrors one that a strategy emitted: it has its symbol and everything else but for the name of the
  -- strategy, and its side, unless it is to hold.
  pub aggregate-IsVoted :
      (method : AggregationMethod) (weights : Dict String Float) (batches : List (SignalBatch desk))
      → method ≢ independent
      → All
          (λ s. Any (Mirrors s) (all_signals desk batches))
          (aggregate desk method weights batches)
  unfolding aggregate
  aggregate-IsVoted unanimous weights batches grouped =
      decisions-IsVoted _ unanimous weights _
        (group_batches-AreOf (In (all_signals desk batches)) batches [] (all_signals-In batches) tt)
  aggregate-IsVoted majority weights batches grouped =
      decisions-IsVoted _ majority weights _
        (group_batches-AreOf (In (all_signals desk batches)) batches [] (all_signals-In batches) tt)
  aggregate-IsVoted weighted weights batches grouped =
      decisions-IsVoted _ weighted weights _
        (group_batches-AreOf (In (all_signals desk batches)) batches [] (all_signals-In batches) tt)
  aggregate-IsVoted priority weights batches grouped =
      decisions-IsVoted _ priority weights _
        (group_batches-AreOf (In (all_signals desk batches)) batches [] (all_signals-In batches) tt)
  aggregate-IsVoted independent weights batches grouped = absurd (grouped refl)
