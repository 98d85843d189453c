-- ===== src/Domain/Order/Fill.antt =====
-- `Order::apply_fill`, branch by branch.
use aegis_oms_rs.Prelude.{◌≡◌, ◌⊎◌, ◌↔◌, arith, false, ◌≤ℤ◌, ◌<ℤ◌, some, if◌then◌else◌}
use aegis_oms_rs.Platform.{Platform}
use aegis_oms_rs.Platform.Decimal.{equal}
use aegis_oms_rs.Domain.Status.{OrderStatus, can_transition_to}
use aegis_oms_rs.Domain.Error.{ok, err, invalid_state_transition, over_fill}
use aegis_oms_rs.Domain.Order.{Order, apply_fill}

-- The statuses in which an order takes fills.
abbrev pub Fillable : OrderStatus → Type 0
Fillable s = (s ≡ OrderStatus.accepted) ⊎ (s ≡ OrderStatus.partially_filled)

module _ ⦃P : Platform⦄ (qty price : P.Decimal) (now : P.Timestamp) (o : Order) where
  -- A fill succeeds exactly if the new total is computed, is at most the quantity, and the order
  -- is Accepted or PartiallyFilled.
  pub apply_fill_succeeds : ((apply_fill qty price now o).0 ≡ ok tt) ↔ (
      Fillable o.status
      × ((c : P.Decimal) × (P.checked_add o.filled_quantity qty ≡ some c)
          × (P.units c ≤ℤ P.units o.quantity)))
  unfolding apply_fill can_transition_to
  apply_fill_succeeds = (λ h. ground arith, λ h. ground arith)

  -- A successful fill stores the new total, sets the status to Filled if the total is the
  -- quantity and to PartiallyFilled if it is less, and changes nothing else but the time.
  pub apply_fill_effect :
      (c : P.Decimal)
      → P.checked_add o.filled_quantity qty ≡ some c
      → (apply_fill qty price now o).0 ≡ ok tt
      → ((apply_fill qty price now o).1 ≡ record o {
        filled_quantity = c;
        status = if equal c o.quantity then OrderStatus.filled else OrderStatus.partially_filled;
        updated_at = now;
      })
  unfolding apply_fill can_transition_to
  apply_fill_effect c e h = ground arith

  -- A fill beyond the quantity changes nothing, and is an over-fill error that reports the
  -- remaining quantity.
  pub apply_fill_over :
      (c r : P.Decimal)
      → P.checked_add o.filled_quantity qty ≡ some c
      → P.units o.quantity <ℤ P.units c
      → P.checked_sub o.quantity o.filled_quantity ≡ some r
      → apply_fill qty price now o ≡ (err (over_fill o.id qty r), o)
  unfolding apply_fill
  apply_fill_over c r e h s = ground arith

  -- A fill within the quantity of an order that takes no fills fails with a transition error, and
  -- still stores the new total: the order's filled quantity moves although nothing was filled.
  pub apply_fill_leaks :
      (c : P.Decimal)
      → P.checked_add o.filled_quantity qty ≡ some c
      → P.units c ≤ℤ P.units o.quantity
      → can_transition_to o.status OrderStatus.filled ≡ false
      → let (r, o') = apply_fill qty price now o in
        ((s : OrderStatus) × (r ≡ err (invalid_state_transition o.id o.status s)))
        × (o' ≡ record o { filled_quantity = c })
  unfolding apply_fill can_transition_to
  apply_fill_leaks c e h n = (
    (if equal c o.quantity then OrderStatus.filled else OrderStatus.partially_filled, ground arith),
    ground arith,
  )

  -- A fill of all that remains fills the order.
  pub fill_whole :
      (c : P.Decimal)
      → Fillable o.status
      → P.checked_add o.filled_quantity qty ≡ some c
      → P.units c ≡ P.units o.quantity
      → apply_fill qty price now o
        ≡ (ok tt, record o { filled_quantity = c; status = OrderStatus.filled; updated_at = now })
  unfolding apply_fill can_transition_to
  fill_whole c f e h = ground arith
