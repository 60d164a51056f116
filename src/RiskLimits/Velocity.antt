-- ===== src/RiskLimits/Velocity.antt =====
-- The velocity limit: in any window that ends at a check there are no more approved orders than
-- the limit allows, however the approvals and refusals before it were spread.
use nexus_trade_engine.Prelude.{
  ℕ, sym, ◌≤◌, ◌≡◌, refl, Option, some, Bool, true, false, List, [], ◌∷◌, ◌++◌, arith, length, leb,
  length-append, if◌then◌else◌, Bool-cases, inl, inr, length-keep,
}
use mathlib.Core.List.{append-nil, append_assoc}
use nexus_trade_engine.Prelude.Floats.{Floats}
use nexus_trade_engine.RiskLimits.{
  Breach, velocity, RiskGate, static_breaches, decide, check, recent, none_of,
}
use nexus_trade_engine.RiskLimits.Breaker.{Query, check_all}

-- What the theorem needs of the clock's readings and of a gate's window: comparison is transitive,
-- and a later reading gives a later start of that window.
pub record Orders (floats : Floats) (window : floats.Float) : Type 0 where
  pub le_trans :
      (a b c : floats.Float) → floats.le a b ≡ true → floats.le b c ≡ true → floats.le a c ≡ true
  pub sub_mono :
      (a b : floats.Float)
      → floats.le a b ≡ true
      → floats.le (floats.sub a window) (floats.sub b window) ≡ true

module _ (floats : Floats) where
  open floats use {Float, le, sub}

  -- The times of the approved checks, in order.
  unfoldable pub approvals : List (Query floats) → RiskGate floats → List Float
  approvals [] gate = []
  approvals (q ∷ qs) gate =
      let (decision, gate') = check floats q.now q.intent q.account gate in
      let rest = approvals qs gate' in if decision.approved then q.now ∷ rest else rest

  -- The clock never goes back: not below `start`, and not from one check to the next.
  abbrev pub Ascending : Float → List (Query floats) → Type 0
  Ascending start [] = Unit
  Ascending start (q ∷ qs) = (le start q.now ≡ true) × Ascending q.now qs

  -- The instant of the last check.
  abbrev pub last : Float → List (Query floats) → Float
  last start [] = start
  last start (q ∷ qs) = last q.now qs

  recent-append :
      (s : Float) (xs ys : List Float)
      → recent floats s (xs ++ ys) ≡ recent floats s xs ++ recent floats s ys
  unfolding recent
  recent-append s [] ys = refl
  recent-append s (x ∷ xs) ys = ground (arith, recent-append s xs ys)

  length-recent : (s : Float) (xs : List Float) → length (recent floats s xs) ≤ length xs
  unfolding recent
  length-recent s xs = length-keep (λ (t : Float). le s t) xs

  -- A later window of an earlier one is the later window.
  recent-recent :
      {window : Float} (orders : Orders floats window) (s t : Float) (xs : List Float)
      → le s t ≡ true
      → recent floats t (recent floats s xs) ≡ recent floats t xs
  unfolding recent
  recent-recent orders s t [] h = refl
  recent-recent orders s t (x ∷ xs) h =
      ground (arith, recent-recent orders s t xs h, orders.le_trans s t x h)

regroup {ℓ} :
    {A : Type ℓ} (x : A) (b : Bool) (xs ys : List A)
    → xs ++ (if b then x ∷ ys else ys) ≡ (xs ++ (if b then x ∷ [] else [])) ++ ys
regroup x true xs ys = rw (append_assoc xs (x ∷ []) ys)
regroup x false xs ys = rw (append-nil xs)

none_of-append :
    (bs : List Breach) (t : Bool)
    → none_of (bs ++ (if t then velocity ∷ [] else [])) ≡ true
    → t ≡ false
none_of-append [] t h = ground arith
none_of-append (b ∷ bs) t h = cc

module _ {A : Type 0} (kept : List A) (now : A) where
  stamp_lem :
      (b : Bool) → (if b then kept ++ now ∷ [] else kept) ≡ kept ++ (if b then now ∷ [] else [])
  stamp_lem true = refl
  stamp_lem false = sym (append-nil kept)

  -- A timestamp is added only where there is room for it.
  stamp_bound :
      (m : ℕ) (bs : List Breach)
      → length kept ≤ m
      → length (
          if none_of (bs ++ (if leb m (length kept) then velocity ∷ [] else []))
          then kept ++ now ∷ []
          else kept)
        ≤ m
  stamp_bound m bs h =
      elim (Bool-cases (none_of (bs ++ (if leb m (length kept) then velocity ∷ [] else [])))) [
        | inl free ↦ rw free (
            ground
              (arith, none_of-append bs (leb m (length kept)) free, length-append kept (now ∷ [])))
        | inr full ↦ rw full h
      ]

module _ (floats : Floats) (max_orders : ℕ) (window : floats.Float) where
  open floats use {Float, le, sub}

  -- The timestamps that the gate keeps, and the time that an approved check adds.
  decide-stamps :
      (limit : Option ℕ) (w now : Float) (timestamps : List Float) (bs : List Breach)
      → limit ≡ some max_orders
      → w ≡ window
      → let (decision, kept) = decide floats limit w now timestamps bs in
        kept
        ≡ recent floats (sub now window) timestamps ++ (if decision.approved then now ∷ [] else [])
  unfolding decide
  decide-stamps limit w now timestamps bs e e' =
      rw (e, e') (stamp_lem (recent floats (sub now window) timestamps) now _)

  decide-bound :
      (limit : Option ℕ) (w now : Float) (timestamps : List Float) (bs : List Breach)
      → limit ≡ some max_orders
      → w ≡ window
      → length timestamps ≤ max_orders
      → length (decide floats limit w now timestamps bs).1 ≤ max_orders
  unfolding decide recent
  decide-bound limit w now timestamps bs e e' h =
      rw (e, e')
        (stamp_bound (recent floats (sub now window) timestamps) now max_orders bs
          (omega (arith, length-keep (λ (t : Float). le (sub now window) t) timestamps)))

  -- The gate's timestamps are as good as all approvals so far for every window from `at` on.
  record Covers (gate : RiskGate floats) (history : List Float) (at : Float) : Type 0 where
    limited : gate.limits.max_orders_per_window ≡ some max_orders
    windowed : gate.limits.velocity_window_seconds ≡ window
    bounded : length gate.order_timestamps ≤ max_orders
    covered :
        (s : Float)
        → le (sub at window) s ≡ true
        → recent floats s history ≡ recent floats s gate.order_timestamps

  module _ (orders : Orders floats window) where
    check-Covers :
        (q : Query floats) (gate : RiskGate floats) (history : List Float) (at : Float)
        → le at q.now ≡ true
        → Covers gate history at
        → let (decision, gate') = check floats q.now q.intent q.account gate in
          Covers gate' (history ++ (if decision.approved then q.now ∷ [] else [])) q.now
    unfolding check
    check-Covers q gate history at later c = record {
      limited = c.limited;
      windowed = c.windowed;
      bounded = decide-bound _ _ q.now gate.order_timestamps _ c.limited c.windowed c.bounded;
      covered = λ s h.
          (rw
            (decide-stamps _ _ q.now gate.order_timestamps
              (static_breaches floats gate q.intent q.account) c.limited c.windowed)
            (rw (
              recent-append floats s history _,
              recent-append floats s (recent floats (sub q.now window) gate.order_timestamps) _,
              recent-recent floats orders (sub q.now window) s gate.order_timestamps h,
              c.covered s (
                  orders.le_trans (sub at window) (sub q.now window) s
                    (orders.sub_mono at q.now later) h),
            )));
    }

    check_all-Covers :
        (qs : List (Query floats)) (gate : RiskGate floats) (history : List Float) (at : Float)
        → Ascending floats at qs
        → Covers gate history at
        → Covers
            (check_all floats qs gate).1
            (history ++ approvals floats qs gate)
            (last floats at qs)
    unfolding check_all approvals
    check_all-Covers [] gate history at up c = rw append-nil c
    check_all-Covers (q ∷ qs) gate history at up c =
        let (decision, gate') = check floats q.now q.intent q.account gate in
        rw (regroup q.now decision.approved history (approvals floats qs gate')) (
          check_all-Covers qs gate' (history ++ (if decision.approved then q.now ∷ [] else []))
            q.now up.1 (check-Covers q gate history at up.0 c))

    -- Where the comparison of instants is transitive, and subtracting the gate's window from a later
    -- instant gives a later start: from a gate with a limit on orders and no timestamps, and with a clock that never goes
    -- back, at no instant from the last check on does the window hold more approved orders than the
    -- limit.
    pub approvals-bound :
        (qs : List (Query floats)) (gate : RiskGate floats) (start now : Float)
        → gate.limits.max_orders_per_window ≡ some max_orders
        → gate.limits.velocity_window_seconds ≡ window
        → gate.order_timestamps ≡ []
        → Ascending floats start qs
        → le (last floats start qs) now ≡ true
        → length (recent floats (sub now window) (approvals floats qs gate)) ≤ max_orders
    approvals-bound qs gate start now l w e up later =
        let c = check_all-Covers qs gate [] start up (record {
          limited = l;
          windowed = w;
          bounded = rw e (omega arith);
          covered = λ s h. rw e;
        }) in
        rw (c.covered (sub now window) (orders.sub_mono (last floats start qs) now later)) (
          omega (
            arith,
            length-recent floats (sub now window) (check_all floats qs gate).1.order_timestamps,
            c.bounded,
          ))
