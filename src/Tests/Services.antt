-- ===== src/Tests/Services.antt =====
-- The theorems on the order service at concrete inputs.
use aegis_oms_rs.Prelude.{ℕ, none, ◌≡◌, refl, arith, ℤ, ◌+ℤ◌, ◌-ℤ◌, ◌*ℤ◌, [], ◌∷◌, ◌≢◌, some, true}
use aegis_oms_rs.Prelude.Eq.{string_eq}
use aegis_oms_rs.Prelude.Map.{get}
use aegis_oms_rs.Platform.Decimal.{IsExact}
use aegis_oms_rs.Platform.Whole.{whole}
use aegis_oms_rs.Infra.Repository.Memory.{in_memory_stores, in_memory-IsMap}
use aegis_oms_rs.Domain.Status.{Side, TimeInForce, OrderStatus, can_transition_to, is_open}
use aegis_oms_rs.Domain.Error.{ok, err, insufficient_funds}
use aegis_oms_rs.Domain.Order.{Order, market, apply_fill}
use aegis_oms_rs.Domain.Account.{required_margin, available_balance}
use aegis_oms_rs.Domain.Position.{Position, add_fill, reduce, is_flat, pnl_of}
use aegis_oms_rs.Domain.Position
use aegis_oms_rs.Domain.Account
use aegis_oms_rs.Domain.Event.{OrderEvent, user_requested}
use aegis_oms_rs.Infra.EventBus
use aegis_oms_rs.Infra.OrderStore.{save, get_order, put_order, find_open_orders, filter}
use aegis_oms_rs.Service.RiskCheck.{
  validate_order, validate_prices, validate_margin, default_limits,
}
use aegis_oms_rs.Service.OrderService.State.{OrderService, NewOrderRequest}
use aegis_oms_rs.Service.OrderService.Submit.{submit_order, cancel_order, new_order}
use aegis_oms_rs.Service.OrderService.Fill.{update_position_with_pnl, close_against, fill_order}
use aegis_oms_rs.Service.OrderService.Exposure.{
  exposure, HeldNonneg, ExactOn, ExactFill, update_position_exposure,
}
use aegis_oms_rs.Service.OrderService.Locks.{LocksMatch, ExactRelease}
use aegis_oms_rs.Service.OrderService.Cancel.{cancel_order_lem}
use aegis_oms_rs.Service.OrderService.Policy.{verdict}
use aegis_oms_rs.Service.OrderService.Killed.{IsKilled, killed_order, submit_fok_never_placed}
use aegis_oms_rs.Service.OrderService.Immediate.{submit_market_ioc, cancelled_order}
use aegis_oms_rs.Service.OrderService.Unchecked.{fill_order_underfunded, announced}
use aegis_oms_rs.Tests.Fixture.{dec, clock, btc, resting, short, desk, request}

five_exact : ExactFill (dec 3) (dec 5)
unfolding ◌+ℤ◌ ◌-ℤ◌
five_exact = ((dec 8, refl), (dec 3 -ℤ dec 5, refl), (dec 2, refl))

short_held : HeldNonneg "BTC" desk
short_held p e = let same : short ≡ p = cc in rw (← same) (omega arith)

short_exact : ExactOn "BTC" (dec 5) desk
short_exact p e = let same : short ≡ p = cc in rw (← same) five_exact

turned : (update_position_with_pnl "BTC" Side.buy (dec 5) (dec 100) desk).0 ≡ ok (some (dec 60))
unfolding update_position_with_pnl close_against reduce pnl_of is_flat ◌-ℤ◌ ◌+ℤ◌ ◌*ℤ◌
    Account.apply_realized_pnl Position.new
turned = refl

-- Five bought against a short of three leave a long of two.
update_position_exposure_example :
    exposure "BTC" (update_position_with_pnl "BTC" Side.buy (dec 5) (dec 100) desk).1
    ≡ exposure "BTC" desk +ℤ dec 5
update_position_exposure_example =
    update_position_exposure "BTC" Side.buy (dec 5) (dec 100) desk (omega arith) short_held
      short_exact turned

desk-LocksMatch : LocksMatch desk
unfolding ◌+ℤ◌
desk-LocksMatch = record { distinct = (refl, tt); positive = (omega arith, tt); matched = refl }

desk-IsExact : IsExact (dec 200 -ℤ dec 200)
unfolding ◌-ℤ◌
desk-IsExact = (dec 0, refl)

release_exact : ExactRelease 7 desk
release_exact m e = let same : dec 200 ≡ m = cc in rw (← same) desk-IsExact

resting_there : get_order 7 desk.store ≡ some resting
unfolding get_order
resting_there = refl

resting_cancellable : can_transition_to resting.status OrderStatus.cancelled ≡ true
unfolding can_transition_to
resting_cancellable = refl

cancel_order_lem_example :
    (c : ℤ) × (c ≡ dec 200 -ℤ dec 200)
    × (cancel_order 7 3 desk ≡ (
      ok tt,
      record desk {
        store =
            put_order 7
              (record resting { status = OrderStatus.cancelled; updated_at = 3 })
              desk.store;
        account = record (desk.account) { locked_margin = c };
        margin_locks = [];
        event_bus = EventBus.publish (OrderEvent.cancelled 7 user_requested) desk.event_bus;
      },
    ))
cancel_order_lem_example =
    cancel_order_lem 7 3 desk resting (dec 200) desk-LocksMatch resting_there resting_cancellable
      refl desk-IsExact

abbrev killed : NewOrderRequest
killed = record request { time_in_force = TimeInForce.fok }

eight_free : get_order 8 desk.store ≡ none
unfolding get_order
eight_free = refl

submit_fok_never_placed_example :
    ((j : ℕ) → (submit_order 8 clock killed desk).0 ≢ ok j)
    × IsKilled 8 (killed_order 8 clock killed desk) desk (submit_order 8 clock killed desk).1
submit_fok_never_placed_example =
    submit_fok_never_placed 8 clock killed desk in_memory-IsMap eight_free refl

abbrev empty_request : NewOrderRequest
empty_request = record request { quantity = dec 0 }

empty_fails : verdict 8 clock empty_request desk ≢ ok tt
unfolding validate_order
empty_fails e = cc

abbrev at_once : NewOrderRequest
at_once = record request { order_type = market; time_in_force = TimeInForce.ioc }

at_once_passes : verdict 8 clock at_once desk ≡ ok tt
unfolding validate_order validate_prices find_open_orders filter is_open default_limits ◌*ℤ◌
at_once_passes = refl

submit_market_ioc_example :
    (r : ℤ) × (r ≡ dec 2)
    × (submit_order 8 clock at_once desk ≡ (
      ok 8,
      record desk {
        store = put_order 8 (cancelled_order 8 clock at_once desk) (
            save
              (record (new_order 8 0 at_once) { status = OrderStatus.accepted; updated_at = 1 })
              desk.store);
        event_bus =
            EventBus.publish
              (OrderEvent.ioc_residual_cancelled 8 r)
              (EventBus.publish (OrderEvent.accepted 8) desk.event_bus);
      },
    ))
submit_market_ioc_example =
    submit_market_ioc 8 clock at_once desk in_memory-IsMap refl btc refl at_once_passes refl refl
      refl (omega arith)

abbrev taker : Order
taker = record resting { order_type = market }

-- A service whose balance does not cover another fill.
abbrev poor : OrderService
poor = record desk {
  store = (7, taker) ∷ [];
  account = record (desk.account) { balance = dec 250 };
}

taker_there : get_order 7 poor.store ≡ some taker
unfolding get_order
taker_there = refl

taker_fills : (apply_fill (dec 2) (dec 100) 0 taker).0 ≡ ok tt
unfolding apply_fill can_transition_to ◌+ℤ◌
taker_fills = refl

taker_type : (apply_fill (dec 2) (dec 100) 0 taker).1.order_type ≡ market
unfolding apply_fill can_transition_to ◌+ℤ◌
taker_type = refl

taker_instrument :
    get (apply_fill (dec 2) (dec 100) 0 taker).1.instrument poor.instruments ≡ some btc
unfolding apply_fill can_transition_to ◌+ℤ◌
taker_instrument = refl

poor_has : available_balance poor.account ≡ ok (dec 50)
unfolding available_balance ◌-ℤ◌
poor_has = refl

short_margin :
    validate_margin (dec 50) (dec 100) (dec 2) (dec 1) ≡ err (insufficient_funds (dec 200) (dec 50))
unfolding validate_margin required_margin ◌*ℤ◌
short_margin = refl

fill_order_underfunded_example : fill_order 9 clock 7 (dec 2) (dec 100) poor ≡ (
  err (insufficient_funds (dec 200) (dec 50)),
  announced 9 clock 7 (dec 2) (dec 100) poor taker taker_there taker_fills,
)
fill_order_underfunded_example =
    fill_order_underfunded 9 clock 7 (dec 2) (dec 100) poor taker taker_there taker_fills btc
      (dec 50) (dec 200) taker_type taker_instrument poor_has short_margin
