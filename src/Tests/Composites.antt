-- ===== src/Tests/Composites.antt =====
-- The theorems on the services around the order service at concrete inputs.
use aegis_oms_rs.Prelude.{◌+◌, ◌≡◌, refl, [], ◌∷◌, true, ◌*ℤ◌, ◌+ℤ◌, ◌-ℤ◌}
use aegis_oms_rs.Prelude.Eq.{string_eq}
use aegis_oms_rs.Platform.Whole.{whole}
use aegis_oms_rs.Infra.Repository.Memory.{in_memory_stores}
use aegis_oms_rs.Domain.Status.{OrderStatus, can_transition_to, is_open}
use aegis_oms_rs.Domain.Error.{ok}
use aegis_oms_rs.Domain.Order.{Order, accept}
use aegis_oms_rs.Domain.Order
use aegis_oms_rs.Domain.Account.{required_margin, lock_margin, available_balance}
use aegis_oms_rs.Domain.CompositeOrder.{CompositeOrderStatus, IfdOrder}
use aegis_oms_rs.Infra.OrderStore.{get_order, find_open_orders, filter}
use aegis_oms_rs.Service.RiskCheck.{
  validate_order, validate_prices, validate_margin, default_limits,
}
use aegis_oms_rs.Service.OrderService.Submit.{
  submit_order, lock_for, place, new_order, submit_price,
}
use aegis_oms_rs.Service.Composite.{Session, handle_ifd, is_filled}
use aegis_oms_rs.Service.Composite.Once.{handle_ifd_once, handle_oco_once}
use aegis_oms_rs.Service.Composite.Prices.{KeepsBooks, on_price_update-KeepsBooks}
use aegis_oms_rs.Service.OrderService.Submit.{cancel_order}
use aegis_oms_rs.Service.OrderService.State.{release_margin, OrderService}
use aegis_oms_rs.Service.Composite.{on_price_update, handle_oco, ignore_transition}
use aegis_oms_rs.Service.MarginMonitor.{force_liquidate}
use aegis_oms_rs.Service.MarginMonitor.Liquidation.{force_liquidate-positions}
use aegis_oms_rs.Domain.CompositeOrder.{OcoOrder}
use aegis_oms_rs.Tests.Fixture.{trailing, short}
use aegis_oms_rs.Tests.Fixture.{dec, clock, resting, desk, request}

abbrev pair : IfdOrder
pair = record {
  id = "I1";
  primary_id = 7;
  secondary_req = request;
  status = CompositeOrderStatus.active;
}

-- A session in which the primary order of the pair is filled.
abbrev session : Session
session = record {
  composite = record {
    ifd_orders = ("I1", pair) ∷ [];
    oco_orders = [];
    order_to_oco = [];
    order_to_ifd = (7, "I1") ∷ [];
  };
  orders = record desk {
    store = (7, record resting { status = OrderStatus.filled; filled_quantity = dec 2 }) ∷ [];
  };
}

primary_filled : is_filled (get_order 7 session.orders.store) ≡ true
unfolding get_order
primary_filled = refl

secondary_taken : (submit_order 8 clock request session.orders).0 ≡ ok 8
unfolding submit_order lock_for place new_order submit_price validate_order validate_prices
    validate_margin required_margin lock_margin available_balance find_open_orders filter is_open
    default_limits accept can_transition_to Order.new Order.is_stop_type ◌*ℤ◌ ◌+ℤ◌ ◌-ℤ◌
secondary_taken = refl

handle_ifd_once_example :
    ((handle_ifd 8 clock 7 session).1.orders ≡ (submit_order 8 clock request session.orders).1)
    × (handle_ifd 9 clock 7 (handle_ifd 8 clock 7 session).1
        ≡ (ok tt, (handle_ifd 8 clock 7 session).1))
handle_ifd_once_example =
    handle_ifd_once 7 "I1" pair session refl refl 8 9 clock clock refl primary_filled
      secondary_taken

-- A desk with a pending trailing order.
abbrev waiting : OrderService
waiting = record desk { store = (7, trailing) ∷ [] }

on_price_update-KeepsBooks_example :
    KeepsBooks waiting (on_price_update "BTC" (dec 94) clock waiting).1
on_price_update-KeepsBooks_example = on_price_update-KeepsBooks "BTC" (dec 94) clock waiting

force_liquidate-positions_example :
    (force_liquidate (λ n. n + 20) (λ n m. m) desk).1.positions ≡ ("BTC", short) ∷ []
force_liquidate-positions_example = force_liquidate-positions (λ n. n + 20) (λ n m. m) desk

abbrev oco : OcoOrder
oco = record { id = "O1"; order_a_id = 7; order_b_id = 8; status = CompositeOrderStatus.active }

-- A session in which order 7 is filled and order 8, of the same pair, is open.
abbrev oco_session : Session
oco_session = record {
  composite = record {
    ifd_orders = [];
    oco_orders = ("O1", oco) ∷ [];
    order_to_oco = (7, "O1") ∷ (8, "O1") ∷ [];
    order_to_ifd = [];
  };
  orders = record desk {
    store =
        (7, record resting { status = OrderStatus.filled; filled_quantity = dec 2 })
        ∷ (8, record resting { id = 8 })
        ∷ [];
    account = record (desk.account) { locked_margin = dec 0 };
    margin_locks = [];
  };
}

other_cancelled : ignore_transition (cancel_order 8 3 oco_session.orders).0 ≡ ok tt
unfolding cancel_order Order.cancel can_transition_to release_margin get_order
other_cancelled = refl

handle_oco_once_example :
    ((handle_oco 3 7 oco_session).1.orders ≡ (cancel_order 8 3 oco_session.orders).1)
    × (handle_oco 4 8 (handle_oco 3 7 oco_session).1 ≡ (ok tt, (handle_oco 3 7 oco_session).1))
handle_oco_once_example =
    handle_oco_once 7 "O1" oco oco_session refl refl 8 3 4 refl refl other_cancelled
