-- ===== src/Tests/Orders.antt =====
-- The theorems on orders at concrete inputs.
use aegis_oms_rs.Prelude.{
  ◌≡◌, refl, arith, ◌≤ℤ◌, ◌↔◌, some, [], ◌∷◌, true, false, ℤ, ◌+ℤ◌, ◌-ℤ◌, negsuc,
}
use aegis_oms_rs.Platform.Whole.{whole}
use aegis_oms_rs.Infra.Repository.Memory.{in_memory_stores}
use aegis_oms_rs.Prelude.Tests.{Has}
use aegis_oms_rs.Domain.Status.{Side, TimeInForce, OrderStatus, can_transition_to, is_terminal}
use aegis_oms_rs.Domain.Error.{ok, err, invalid_state_transition}
use aegis_oms_rs.Domain.Order.{Order, market, stop, new, apply_fill, accept, check_trigger}
use aegis_oms_rs.Domain.Order.Lifecycle.{
  Reach, here, next, fill, accepts, IsConsistent, reachable-IsConsistent, terminal_status_is_final,
}
use aegis_oms_rs.Domain.Order.Fill.{apply_fill_succeeds, apply_fill_leaks, Fillable}
use aegis_oms_rs.Domain.Order.Trigger.{
  IsTrailing, AllBehind, follow, follow_best, check_trigger_trailing,
}
use aegis_oms_rs.Tests.Fixture.{dec, resting, trailing}

abbrev order : Order
order = new 7 0 "BTC" Side.buy market (dec 2) TimeInForce.gtc

abbrev life : Reach order (apply_fill (dec 1) (dec 100) 2 (accept 1 order).1).1
life = next (next here (accepts 1)) (fill (dec 1) (dec 100) 2)

reachable-IsConsistent_example : IsConsistent (apply_fill (dec 1) (dec 100) 2 (accept 1 order).1).1
reachable-IsConsistent_example =
    reachable-IsConsistent 7 0 "BTC" Side.buy market (dec 2) TimeInForce.gtc (omega arith) life
      ((tt, tt), omega arith)

abbrev gone : Order
gone = record resting { status = OrderStatus.cancelled }

gone_is_terminal : is_terminal gone.status ≡ true
unfolding is_terminal
gone_is_terminal = refl

-- A fill of a negative quantity, and a call of accept.
terminal_status_is_final_example :
    (accept 9 (apply_fill (negsuc 0) (dec 100) 8 gone).1).1.status ≡ OrderStatus.cancelled
terminal_status_is_final_example =
    terminal_status_is_final {o = gone} gone_is_terminal
      (next (next here (fill (negsuc 0) (dec 100) 8)) (accepts 9))

apply_fill_succeeds_example :
    ((apply_fill (dec 1) (dec 100) 3 resting).0 ≡ ok tt)
    ↔ (Fillable OrderStatus.accepted × ((c : ℤ) × (some (dec 1) ≡ some c) × (c ≤ℤ dec 2)))
unfolding ◌+ℤ◌
apply_fill_succeeds_example = apply_fill_succeeds (dec 1) (dec 100) 3 resting

resting_fills : (apply_fill (dec 2) (dec 100) 3 resting).0 ≡ ok tt
unfolding apply_fill can_transition_to ◌+ℤ◌
resting_fills = refl

gone_takes_none : can_transition_to gone.status OrderStatus.filled ≡ false
unfolding can_transition_to
gone_takes_none = refl

apply_fill_leaks_example :
    ((s : OrderStatus) × ((apply_fill (dec 1) (dec 100) 3 gone).0
        ≡ err (invalid_state_transition 7 OrderStatus.cancelled s)))
    × ((apply_fill (dec 1) (dec 100) 3 gone).1 ≡ record gone { filled_quantity = dec 1 })
unfolding ◌+ℤ◌
apply_fill_leaks_example =
    apply_fill_leaks (dec 1) (dec 100) 3 gone (dec 1) refl (omega arith) gone_takes_none

follow_best_example :
    (b : ℤ) × IsTrailing (follow (dec 110 ∷ dec 104 ∷ []) trailing) (dec 5) b
    × AllBehind Side.sell b (dec 100 ∷ dec 110 ∷ dec 104 ∷ [])
    × Has b (dec 100 ∷ dec 110 ∷ dec 104 ∷ [])
    × ((follow (dec 110 ∷ dec 104 ∷ []) trailing).side ≡ Side.sell)
follow_best_example =
    follow_best (dec 110 ∷ dec 104 ∷ []) (dec 5) (dec 100) trailing (refl, refl, refl)

check_trigger_trailing_example :
    ((check_trigger (dec 94) 5 trailing).0 ≡ ok (some market)) ↔ (dec 94 ≤ℤ dec 95)
unfolding ◌-ℤ◌
check_trigger_trailing_example =
    check_trigger_trailing (dec 94) (dec 5) (dec 100) (dec 95) 5 trailing (refl, refl, refl) refl

abbrev stopped : Order
stopped = record resting { order_type = stop (dec 110); status = OrderStatus.pending_trigger }
