-- ===== src/Oms/Persistence.antt =====
-- engine/core/oms/persistence.py: the row of an order that the database gets.
use nexus_trade_engine.Prelude.{
  ℕ, String, ◌≡◌, ◌≢◌, ◌↔◌, ap, ◌∙◌, sym, refl, Option, none, some, arith, if◌then◌else◌, ◌==◌,
  string_eq,
}
use nexus_trade_engine.Prelude.Int.{ℤ}
use nexus_trade_engine.Oms.States.{
  OrderStatus, new, submitted, acknowledged, partially_filled, filled, cancel_requested, cancelled,
  rejected, expired, side_value, type_value, status_eq,
}
use nexus_trade_engine.Oms.Order.{Order}

-- `_STATUS_PROJECTION`, which has an entry for every status.
status_projection : OrderStatus → String
status_projection new = "pending"
status_projection submitted = "pending"
status_projection acknowledged = "open"
status_projection partially_filled = "partially_filled"
status_projection filled = "filled"
status_projection cancel_requested = "cancel_pending"
status_projection cancelled = "cancelled"
status_projection rejected = "rejected"
status_projection expired = "expired"

-- The dict that `to_orm_dict` returns.
pub record OrmRow : Type 0 where
  pub id : ℕ
  pub portfolio_id : ℕ
  pub symbol : String
  pub side : String
  pub order_type : String
  pub quantity : ℤ
  pub price : Option ℤ
  pub status : String
  pub filled_at : Option ℕ
  pub created_at : ℕ

-- `order.limit_price`, and where there is none the average fill price.
abbrev effective_price : Option ℤ → Option ℤ → Option ℤ
effective_price none average = average
effective_price (some p) average = some p

to_orm_dict : Order → ℕ → OrmRow
unfolding side_value type_value
to_orm_dict o portfolio_id = record {
  id = o.id;
  portfolio_id = portfolio_id;
  symbol = o.symbol;
  side = side_value o.side;
  order_type = type_value o.order_type;
  quantity = o.quantity;
  price = effective_price o.limit_price o.average_fill_price;
  status = status_projection o.status;
  filled_at = if o.status == filled then some o.updated_at else none;
  created_at = o.created_at;
}

-- What the row still tells of a status: `new` and `submitted` become one.
abbrev merged : OrderStatus → OrderStatus
merged new = submitted
merged s = s

-- Reads a status text back.
read_status : String → OrderStatus
read_status text =
    if text == "pending"
    then submitted
    else if text == "open"
    then acknowledged
    else if text == "partially_filled"
    then partially_filled
    else if text == "filled"
    then filled
    else if text == "cancel_pending"
    then cancel_requested
    else if text == "cancelled"
    then cancelled
    else if text == "rejected"
    then rejected
    else expired

read_status-status_projection : (s : OrderStatus) → read_status (status_projection s) ≡ merged s
unfolding read_status status_projection
read_status-status_projection new = refl
read_status-status_projection _ = refl

status_projection-merged : (s : OrderStatus) → status_projection (merged s) ≡ status_projection s
unfolding status_projection
status_projection-merged new = refl
status_projection-merged _ = refl

-- Two rows have the same status text exactly when the statuses of their orders agree up to `new`
-- and `submitted`, and a row has a time of filling exactly when its order is filled.
to_orm_dict-status :
    (o o' : Order) (portfolio_id : ℕ)
    → ((to_orm_dict o portfolio_id).status ≡ (to_orm_dict o' portfolio_id).status
        ↔ merged o.status ≡ merged o'.status)
      × ((to_orm_dict o portfolio_id).filled_at ≢ none ↔ o.status ≡ filled)
unfolding to_orm_dict
to_orm_dict-status o o' portfolio_id = (
  (
    λ e.
        sym (read_status-status_projection o.status)
        ∙ ap read_status e
        ∙ read_status-status_projection o'.status,
    λ e.
        sym (status_projection-merged o.status)
        ∙ ap status_projection e
        ∙ status_projection-merged o'.status,
  ),
  (λ h. ground arith, λ h. ground arith),
)
