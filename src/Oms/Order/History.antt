-- ===== src/Oms/Order/History.antt =====
-- The life of an order: any sequence of accepted events.
use nexus_trade_engine.Prelude.{◌≡◌, refl, ◌⊎◌, inl, inr, true, Outcome, ok, err, arith}
use nexus_trade_engine.Prelude.Int.{ℤ, pos, ◌+ℤ◌, int_laws}
use nexus_trade_engine.Oms.States.{is_terminal}
use nexus_trade_engine.Oms.States.Reach.{Walk, here as stay, next as walk, is_terminal_iff}
use nexus_trade_engine.Oms.Events.{OrderEvent, submit_event, partial_fill_event, fill_event}
use nexus_trade_engine.Oms.Order.{Order, OmsError, apply_event}
use nexus_trade_engine.Oms.Order.Steps.{target, fill_of, after, apply_event-ok}
use nexus_trade_engine.Oms.Order.Invariant.{IsValid, apply_event-IsValid}

-- What no event may rewrite.
pub record SameTerms (o o' : Order) : Type 0 where
  pub id_same : o'.id ≡ o.id
  pub symbol_same : o'.symbol ≡ o.symbol
  pub side_same : o'.side ≡ o.side
  pub order_type_same : o'.order_type ≡ o.order_type
  pub quantity_same : o'.quantity ≡ o.quantity
  pub limit_price_same : o'.limit_price ≡ o.limit_price
  pub stop_price_same : o'.stop_price ≡ o.stop_price
  pub created_at_same : o'.created_at ≡ o.created_at

Outcome-cases {ℓ} :
    {E A : Type ℓ} (m : Outcome E A) → ((a : A) × (m ≡ ok a)) ⊎ ((e : E) × (m ≡ err e))
Outcome-cases (ok a) = inl (a, refl)
Outcome-cases (err e) = inr (e, refl)

module _ (divide : ℤ → ℤ → ℤ) where
  after-SameTerms : (o : Order) (e : OrderEvent) → SameTerms o (after divide o e)
  after-SameTerms o (submit_event at b) = ground arith
  after-SameTerms o _ = ground arith

  apply_event-SameTerms :
      (o : Order) (e : OrderEvent) (o' : Order) → apply_event divide o e ≡ ok o' → SameTerms o o'
  apply_event-SameTerms o e o' h = rw ((apply_event-ok divide o e o' h).2) (after-SameTerms o e)

  after-filled :
      (o : Order) (e : OrderEvent)
      → (after divide o e).filled_quantity ≡ o.filled_quantity +ℤ fill_of e
  after-filled o (submit_event at b) = omega int_laws
  after-filled o (partial_fill_event at q p i) = refl
  after-filled o (fill_event at q p i) = refl
  after-filled o _ = omega int_laws

  after-status : (o : Order) (e : OrderEvent) → (after divide o e).status ≡ target o e
  after-status o (submit_event at b) = refl
  after-status o _ = refl

  -- An order in a terminal status refuses every event with an error.
  apply_event-terminal :
      (o : Order) (e : OrderEvent)
      → is_terminal o.status ≡ true
      → (x : OmsError) × (apply_event divide o e ≡ err x)
  apply_event-terminal o e t = elim (Outcome-cases (apply_event divide o e)) [
    | inl (o', h) ↦ absurd (
        ground (arith, apply_event-ok divide o e o' h, (is_terminal_iff o.status).0 t (target o e)))
    | inr refused ↦ refused
  ]

  -- A sequence of accepted events from `o`.
  pub data History (o : Order) : Order → Type 0 where
    here : History o o
    next :
        {t : Order} (e : OrderEvent) (u : Order)
        → History o t
        → apply_event divide t e ≡ ok u
        → History o u

  -- The sum of all fills along the way.
  pub total_filled : {o o' : Order} → History o o' → ℤ
  total_filled here = pos 0
  total_filled (next e u past h) = total_filled past +ℤ fill_of e

  -- Every order that a sequence of accepted events makes of a valid one is valid.
  History-IsValid : {o o' : Order} → IsValid o → History o o' → IsValid o'
  History-IsValid v here = v
  History-IsValid v (next {t} e u past h) =
      apply_event-IsValid divide t e u (History-IsValid v past) h

  -- No sequence of accepted events rewrites the identity or the terms of an order.
  History-SameTerms : {o o' : Order} → History o o' → SameTerms o o'
  History-SameTerms here = ground arith
  History-SameTerms (next {t} e u past h) =
      ground (arith, History-SameTerms past, apply_event-SameTerms t e u h)

  -- Along any sequence of accepted events the filled quantity grows by exactly the sum of the fills
  -- that the events carry. The identifier of a fill is not read: a fill that is delivered twice, and
  -- accepted twice, counts twice.
  pub History-filled :
      {o o' : Order} (past : History o o')
      → o'.filled_quantity ≡ o.filled_quantity +ℤ total_filled past
  unfolding total_filled
  History-filled here = omega int_laws
  History-filled {o} (next {t} e u past h) =
      rw ((apply_event-ok divide t e u h).2)
        (rw (after-filled t e) (rw (History-filled past) (omega (int_laws))))

  -- Along any sequence of accepted events the status walks along allowed transitions.
  pub History-Walk : {o o' : Order} → History o o' → Walk o.status o'.status
  History-Walk here = stay
  History-Walk (next {t} e u past h) =
      let (allowed, fits, same) = apply_event-ok divide t e u h in
      rw same (rw (after-status t e) (walk (target t e) (History-Walk past) allowed))
