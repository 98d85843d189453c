-- ===== src/Tests/Reachable.antt =====
-- The theorems on reachable services at concrete inputs.
use aegis_oms_rs.Prelude.{◌≡◌, refl, [], ◌∷◌, ◌+ℤ◌, ◌-ℤ◌, ◌*ℤ◌}
use aegis_oms_rs.Platform.Whole.{whole}
use aegis_oms_rs.Infra.Repository.Memory.{in_memory_stores}
use aegis_oms_rs.Domain.Error.{ok}
use aegis_oms_rs.Domain.Status.{can_transition_to}
use aegis_oms_rs.Domain.Order.{apply_fill, remaining_quantity, transition_to}
use aegis_oms_rs.Domain.Account.{
  unlock_margin, available_balance, apply_realized_pnl, required_margin,
}
use aegis_oms_rs.Domain.Position.{reduce, pnl_of, is_flat, add_fill}
use aegis_oms_rs.Domain.Position
use aegis_oms_rs.Domain.Event.{new_trade}
use aegis_oms_rs.Infra.OrderStore.{get_order, put_order}
use aegis_oms_rs.Infra.EventBus
use aegis_oms_rs.Service.RiskCheck.{default_limits, validate_margin}
use aegis_oms_rs.Service.OrderService.State.{OrderService, new, release_margin}
use aegis_oms_rs.Service.OrderService.Submit.{submit_order}
use aegis_oms_rs.Service.OrderService.Fill.{
  fill_order, settle_fill, book_fill, update_position_with_pnl, close_against, check_fill_margin,
  is_market_order, book_loss, check_loss,
}
use aegis_oms_rs.Service.OrderService.Query.{total_loss}
use aegis_oms_rs.Service.OrderService.Losses.{LossMatches}
use aegis_oms_rs.Service.OrderService.Booked.{fill_order-LossMatches}
use aegis_oms_rs.Infra.TradeStore
use aegis_oms_rs.Service.Composite.Stored.{IsProper}
use aegis_oms_rs.Service.Proper.Reachable.{here, next, submits, fills}
use aegis_oms_rs.Service.Proper.Memory.{reachable-IsProper}
use aegis_oms_rs.Tests.Fixture.{dec, clock, btc, alice, desk, request}

abbrev started : OrderService
started = new alice (btc ∷ []) default_limits EventBus.new

-- An order that is submitted twice under one identifier, and filled.
reachable-IsProper_example :
    IsProper
      ((fill_order 9 clock 8
          (dec 2)
          (dec 100)
          (submit_order 8 clock request (submit_order 8 clock request started).1).1).1
        ).store
reachable-IsProper_example = reachable-IsProper alice (btc ∷ []) default_limits EventBus.new (
    next (next (next here (submits 8 clock request)) (submits 8 clock request))
      (fills 9 clock 8 (dec 2) (dec 100)))

loss_taken : (fill_order 9 clock 7 (dec 2) (dec 130) desk).0 ≡ ok tt
unfolding fill_order settle_fill book_fill update_position_with_pnl close_against check_fill_margin
    is_market_order book_loss check_loss release_margin apply_fill remaining_quantity transition_to
    can_transition_to get_order put_order unlock_margin available_balance apply_realized_pnl
    required_margin reduce pnl_of is_flat add_fill Position.new new_trade EventBus.publish
    TradeStore.save default_limits validate_margin ◌+ℤ◌ ◌-ℤ◌ ◌*ℤ◌
loss_taken = refl

-- Two bought at 130 against a short at 120: a loss of 20, in the trades as in the service.
fill_order-LossMatches_example : LossMatches (fill_order 9 clock 7 (dec 2) (dec 130) desk).1
unfolding total_loss TradeStore.load_all_owned
fill_order-LossMatches_example =
    fill_order-LossMatches 9 clock 7 (dec 2) (dec 130) desk loss_taken (λ t pnl h e z. rw z refl)
      refl
