-- ===== src/Oms/States.antt =====
-- engine/core/oms/states.py: the order vocabulary and the allowed transitions.
pub mod Reach
use nexus_trade_engine.Prelude.{
  ◌≡◌, ◌↔◌, Bool, true, false, List, [], ◌∷◌, ℕ, String, arith, Eq, nat_beq, contains,
}

pub data OrderSide : Type 0 where
  buy sell : OrderSide

pub data OrderType : Type 0 where
  market limit stop stop_limit : OrderType

pub data OrderStatus : Type 0 where
  new submitted acknowledged partially_filled filled : OrderStatus
  cancel_requested cancelled rejected expired : OrderStatus

-- The members of the enumerations are compared by their place in it.
abbrev status_index : OrderStatus → ℕ
status_index new = 0
status_index submitted = 1
status_index acknowledged = 2
status_index partially_filled = 3
status_index filled = 4
status_index cancel_requested = 5
status_index cancelled = 6
status_index rejected = 7
status_index expired = 8

abbrev pub status_beq : OrderStatus → OrderStatus → Bool
status_beq a b = nat_beq (status_index a) (status_index b)

pub status_beq_iff : (a b : OrderStatus) → (status_beq a b ≡ true) ↔ (a ≡ b)
status_beq_iff a b = ground arith

instance abbrev pub status_eq : Eq OrderStatus
status_eq = record { same_key = status_beq; same_iff = status_beq_iff }

-- `OrderSide.value`
unfoldable pub side_value : OrderSide → String
side_value buy = "buy"
side_value sell = "sell"

-- `OrderType.value`
unfoldable pub type_value : OrderType → String
type_value market = "market"
type_value limit = "limit"
type_value stop = "stop"
type_value stop_limit = "stop_limit"

abbrev terminal_statuses : List OrderStatus
terminal_statuses = filled ∷ cancelled ∷ rejected ∷ expired ∷ []

unfoldable pub is_terminal : OrderStatus → Bool
is_terminal status = contains terminal_statuses status

-- `VALID_TRANSITIONS`: every status has an entry.
unfoldable pub valid_transitions : OrderStatus → List OrderStatus
valid_transitions new = submitted ∷ rejected ∷ cancelled ∷ []
valid_transitions submitted =
    acknowledged ∷ partially_filled ∷ filled ∷ rejected ∷ cancel_requested ∷ cancelled ∷ expired
    ∷ []
valid_transitions acknowledged =
    partially_filled ∷ filled ∷ cancel_requested ∷ cancelled ∷ expired ∷ rejected ∷ []
valid_transitions partially_filled =
    partially_filled ∷ filled ∷ cancel_requested ∷ cancelled ∷ expired ∷ []
valid_transitions cancel_requested = cancelled ∷ partially_filled ∷ filled ∷ rejected ∷ []
valid_transitions filled = []
valid_transitions cancelled = []
valid_transitions rejected = []
valid_transitions expired = []

unfoldable pub can_transition : OrderStatus → OrderStatus → Bool
unfolding valid_transitions
can_transition from_status to_status = contains (valid_transitions from_status) to_status
