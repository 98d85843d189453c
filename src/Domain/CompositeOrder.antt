-- ===== src/Domain/CompositeOrder.antt =====
-- src/domain/composite_order.rs: If-Done and One-Cancels-Other pairs of orders.
use aegis_oms_rs.Prelude.{ℕ, String, ◌≡◌, ◌↔◌, true, arith, nat_beq}
use aegis_oms_rs.Prelude.Eq.{Eq}
use aegis_oms_rs.Platform.{Platform}
use aegis_oms_rs.Service.OrderService.State.{NewOrderRequest}

pub data CompositeOrderStatus : Type 0 where
  active completed cancelled : CompositeOrderStatus

abbrev pub composite_index : CompositeOrderStatus → ℕ
composite_index CompositeOrderStatus.active = 0
composite_index CompositeOrderStatus.completed = 1
composite_index CompositeOrderStatus.cancelled = 2

pub composite_index_iff :
    (a b : CompositeOrderStatus)
    → (nat_beq (composite_index a) (composite_index b) ≡ true) ↔ (a ≡ b)
composite_index_iff a b = ground arith

instance abbrev pub composite_eq : Eq CompositeOrderStatus
composite_eq = record {
  beq = λ a b. nat_beq (composite_index a) (composite_index b);
  beq_iff = composite_index_iff;
}

module _ ⦃P : Platform⦄ where
  pub record IfdOrder : Type 0 where
    pub id : String
    pub primary_id : P.Ulid
    pub secondary_req : NewOrderRequest
    pub status : CompositeOrderStatus

  pub record OcoOrder : Type 0 where
    pub id : String
    pub order_a_id : P.Ulid
    pub order_b_id : P.Ulid
    pub status : CompositeOrderStatus

  -- `IfdOrder::new` and `OcoOrder::new`, with the fresh identifier that they take.
  unfoldable pub new_ifd : String → P.Ulid → NewOrderRequest → IfdOrder
  new_ifd id primary_id secondary_req = record {
    id = id;
    primary_id = primary_id;
    secondary_req = secondary_req;
    status = CompositeOrderStatus.active;
  }

  unfoldable pub new_oco : String → P.Ulid → P.Ulid → OcoOrder
  new_oco id order_a_id order_b_id = record {
    id = id;
    order_a_id = order_a_id;
    order_b_id = order_b_id;
    status = CompositeOrderStatus.active;
  }
