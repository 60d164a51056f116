-- ===== src/OrderManager/Continue.antt =====
-- `continue_order` keeps the books, however often the backend answers.
use nexus_trade_engine.Prelude.{
  ℕ, suc, String, ◌≡◌, refl, sym, subst, Option, some, not, ◌||◌, Bool-cases, Option-cases, inl,
  inr, Outcome, ok, err, lookup, string_eq,
}
use nexus_trade_engine.Prelude.Int.{ℤ, pos, ◌-ℤ◌, leb_ℤ}
use nexus_trade_engine.Portfolio.{Portfolio, get_or}
use nexus_trade_engine.OrderManager.{Desk, Order, failed, backend, Failure, or_zero}
use nexus_trade_engine.OrderManager.Reconcile.{apply_fill, book}
use nexus_trade_engine.OrderManager.Pipeline.{
  OrderManager, CostModel, Backend, Bus, publish_fill_event, attempts, attempts_cap, is_partial,
  find_order, put_order, continue_order,
}
use nexus_trade_engine.OrderManager.Units.{book-units}
use nexus_trade_engine.OrderManager.Accounting.{
  IsAccounted, transition-IsAccounted, apply_fill-IsAccounted, Moves, stays-Moves, IsBooked,
  filled-Moves,
}

module _ (desk : Desk) where
  open desk use {money, Float, zero}

  -- What the attempts leave.
  abbrev Leaves :
      Order desk → Portfolio money → Order desk × Portfolio money × Option Failure → Type 0
  Leaves order p (order', p', failure) =
      IsAccounted desk order' × (IsBooked desk failure → Moves desk order p order' p')

  -- However often the backend answers and with how much, the order stays accounted for, and the
  -- position moves by what the fills add to it.
  pub attempts_lem :
      (cost_model : CostModel desk) (bus : Option (Bus desk)) (answers : ℕ → Backend desk)
      (lot_ids : ℕ → String) (now : ℕ) (price : Float) (left attempt : ℕ) (order : Order desk)
      (p : Portfolio money)
      → IsAccounted desk order
      → Leaves order p (attempts desk cost_model bus answers lot_ids now price left attempt order p)
  unfolding attempts
  attempts_lem cost_model bus answers lot_ids now price ℕ.zero attempt order p accounted =
      (accounted, λ h. stays-Moves desk order p)
  attempts_lem cost_model bus answers lot_ids now price (suc left) attempt order p accounted =
      let remaining = order.quantity -ℤ or_zero order.fill_quantity in
      let costs = cost_model order.symbol remaining price order.side (pos 0) in
      let fill = answers attempt order price costs in
      let order1 = apply_fill desk now fill order in
      let accounted1 = apply_fill-IsAccounted desk now fill order accounted in
      let booking = book desk now (lot_ids attempt) order.side order.symbol fill costs p in
      elim (Bool-cases (not (is_partial order.status) || leb_ℤ remaining (pos 0))) [
        | inl over ↦ rw (over, attempts) (accounted, λ h. stays-Moves desk order p)
        | inr on ↦ elim (Bool-cases fill.success) [
          | inr no_fill ↦
              simp (on, no_fill, attempts)
                (
                  transition-IsAccounted desk failed (backend fill.reason) order accounted
                      (λ e. cc),
                  λ h. stays-Moves desk order p,
                )
          | inl success ↦ elim (Option-cases booking.1) [
            | inr (e, refused) ↦ simp (on, success, refused, attempts) (accounted1, λ h. absurd h)
            | inl taken ↦
                let first =
                  book-units desk now (lot_ids attempt) order.side order.symbol fill costs p
                    taken in
                let rest =
                  attempts desk cost_model bus answers lot_ids now price left (suc attempt) order1
                    booking.0 in
                let (accounted', moves) =
                  attempts_lem cost_model bus answers lot_ids now price left (suc attempt) order1
                    booking.0 accounted1 in
                elim (Option-cases (publish_fill_event desk bus order1)) [
                  | inr (failure, e) ↦
                      simp (on, success, taken, e, attempts)
                        (
                          accounted1,
                          λ h.
                              filled-Moves desk now fill order order1 p booking.0 booking.0 first
                                (stays-Moves desk order1 booking.0),
                        )
                  | inl published ↦
                      simp (on, success, taken, published, attempts)
                        (
                          accounted',
                          λ h.
                              filled-Moves desk now fill order rest.0 p booking.0 rest.1 first
                                (moves h),
                        )
                ]
          ]
        ]
      ]

  put_order-portfolio :
      (id : String) (order : Order desk) (m : OrderManager desk)
      → (put_order desk id order m).portfolio ≡ m.portfolio
  unfolding put_order
  put_order-portfolio id order m = elim (Option-cases (lookup id m.pending_orders)) [
    | inl e ↦ rw (e, put_order) refl
    | inr (old, e) ↦ rw (e, put_order) refl
  ]

  -- What an order and the portfolio have become in a call that returns.
  abbrev pub IsContinued :
      Order desk → Portfolio money → OrderManager desk × Outcome Failure (Order desk) → Type 0
  IsContinued order p (m, ok order') =
      IsAccounted desk order' × Moves desk order p order' m.portfolio
  IsContinued order p (m, err failure) = Unit

  -- Continuing an order that is filled in part, with whatever the backend answers: the order that is
  -- returned is accounted for, and the position moved by the shares by which its fills grew.
  pub continue_order-IsContinued :
      (now : ℕ) (lot_ids : ℕ → String) (execution_backend : Option (ℕ → Backend desk)) (id : String)
      (market_price : Option Float) (max_retries : ℤ) (m : OrderManager desk) (order : Order desk)
      → find_order desk id m ≡ some order
      → IsAccounted desk order
      → IsContinued order m.portfolio
          (continue_order desk now lot_ids execution_backend id market_price max_retries m)
  unfolding continue_order
  continue_order-IsContinued now lot_ids execution_backend id market_price max_retries m order found
        accounted =
      elim (Bool-cases (is_partial order.status)) [
        | inr over ↦ simp (found, over, continue_order) tt
        | inl on ↦ elim (Option-cases execution_backend) [
          | inl missing ↦ simp (found, on, missing, continue_order) tt
          | inr (answers, present) ↦
              let price = get_or market_price (get_or order.fill_price zero) in
              let run =
                attempts desk m.cost_model m.event_bus answers lot_ids now price
                  (attempts_cap max_retries) 0 order m.portfolio in
              let (accounted', moves) =
                attempts_lem m.cost_model m.event_bus answers lot_ids now price
                  (attempts_cap max_retries) 0 order m.portfolio accounted in
              elim (Option-cases run.2) [
                | inl fine ↦
                    simp (found, on, present, fine, continue_order)
                      (
                        accounted',
                        subst (λ (p' : Portfolio money). Moves desk order m.portfolio run.0 p')
                            (sym (put_order-portfolio id run.0 record m { portfolio = run.1 }))
                            (moves (subst (IsBooked desk) (sym fine) tt)),
                      )
                | inr (failure, e) ↦ simp (found, on, present, e, continue_order) tt
              ]
        ]
      ]
