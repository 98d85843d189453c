-- ===== src/Domain/Status.antt =====
-- The enums of src/domain/order.rs: side, time in force and the status machine of an order.
use aegis_oms_rs.Prelude.{ℕ, ◌≡◌, ◌↔◌, Bool, true, false, arith, nat_beq}
use aegis_oms_rs.Prelude.Eq.{Eq}

pub data Side : Type 0 where
  buy sell : Side

pub data TimeInForce : Type 0 where
  gtc ioc fok : TimeInForce

pub data OrderStatus : Type 0 where
  new pending_trigger accepted partially_filled filled cancelled rejected : OrderStatus

unfoldable pub is_open : OrderStatus → Bool
is_open OrderStatus.new = true
is_open OrderStatus.pending_trigger = true
is_open OrderStatus.accepted = true
is_open OrderStatus.partially_filled = true
is_open _ = false

unfoldable pub is_terminal : OrderStatus → Bool
is_terminal OrderStatus.filled = true
is_terminal OrderStatus.cancelled = true
is_terminal OrderStatus.rejected = true
is_terminal _ = false

unfoldable pub can_transition_to : OrderStatus → OrderStatus → Bool
can_transition_to OrderStatus.new OrderStatus.pending_trigger = true
can_transition_to OrderStatus.new OrderStatus.accepted = true
can_transition_to OrderStatus.new OrderStatus.rejected = true
can_transition_to OrderStatus.pending_trigger OrderStatus.accepted = true
can_transition_to OrderStatus.pending_trigger OrderStatus.cancelled = true
can_transition_to OrderStatus.accepted OrderStatus.partially_filled = true
can_transition_to OrderStatus.accepted OrderStatus.filled = true
can_transition_to OrderStatus.accepted OrderStatus.cancelled = true
can_transition_to OrderStatus.partially_filled OrderStatus.partially_filled = true
can_transition_to OrderStatus.partially_filled OrderStatus.filled = true
can_transition_to OrderStatus.partially_filled OrderStatus.cancelled = true
can_transition_to _ _ = false

-- The derived equalities, through the position of a variant.
abbrev pub side_index : Side → ℕ
side_index Side.buy = 0
side_index Side.sell = 1

abbrev pub status_index : OrderStatus → ℕ
status_index OrderStatus.new = 0
status_index OrderStatus.pending_trigger = 1
status_index OrderStatus.accepted = 2
status_index OrderStatus.partially_filled = 3
status_index OrderStatus.filled = 4
status_index OrderStatus.cancelled = 5
status_index OrderStatus.rejected = 6

abbrev pub tif_index : TimeInForce → ℕ
tif_index TimeInForce.gtc = 0
tif_index TimeInForce.ioc = 1
tif_index TimeInForce.fok = 2

pub side_index_iff : (a b : Side) → (nat_beq (side_index a) (side_index b) ≡ true) ↔ (a ≡ b)
side_index_iff a b = ground arith

pub status_index_iff :
    (a b : OrderStatus) → (nat_beq (status_index a) (status_index b) ≡ true) ↔ (a ≡ b)
status_index_iff a b = ground arith

pub tif_index_iff : (a b : TimeInForce) → (nat_beq (tif_index a) (tif_index b) ≡ true) ↔ (a ≡ b)
tif_index_iff a b = ground arith

instance abbrev pub side_eq : Eq Side
side_eq = record { beq = λ a b. nat_beq (side_index a) (side_index b); beq_iff = side_index_iff }

instance abbrev pub status_eq : Eq OrderStatus
status_eq = record {
  beq = λ a b. nat_beq (status_index a) (status_index b);
  beq_iff = status_index_iff;
}

instance abbrev pub tif_eq : Eq TimeInForce
tif_eq = record { beq = λ a b. nat_beq (tif_index a) (tif_index b); beq_iff = tif_index_iff }
