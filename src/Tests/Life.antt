-- ===== src/Tests/Life.antt =====
-- The theorems on the whole life of an order, behind PostgreSQL, at concrete inputs.
use aegis_oms_rs.Prelude.{◌≡◌, refl, ℤ, some, none, [], ◌∷◌, ◌+ℤ◌, ◌-ℤ◌, ◌*ℤ◌, arith}
use aegis_oms_rs.Prelude.Map.{get}
use aegis_oms_rs.Prelude.Eq.{string_eq}
use aegis_oms_rs.Platform.Whole.{whole}
use aegis_oms_rs.Platform.Plain.{plain}
use aegis_oms_rs.Domain.Status.{OrderStatus}
use aegis_oms_rs.Domain.Error.{ok}
use aegis_oms_rs.Domain.Account.{Account, required_margin, available_balance, lock_margin}
use aegis_oms_rs.Domain.Account
use aegis_oms_rs.Infra.EventBus
use aegis_oms_rs.Infra.OrderStore
use aegis_oms_rs.Infra.PgOrder.Repository
use aegis_oms_rs.Infra.PgOrder.Repository.{PgOrderRepository}
use aegis_oms_rs.Infra.PgOrder.Table.{rows_table}
use aegis_oms_rs.Infra.PgTrade.Table.{trade_rows_table}
use aegis_oms_rs.Infra.Repository.{Stores}
use aegis_oms_rs.Infra.Repository.Postgres.{postgres_stores, postgres-IsMap}
use aegis_oms_rs.Service.RiskCheck.{default_limits, validate_order, validate_margin}
use aegis_oms_rs.Service.OrderService.State.{OrderService, with_repos, lock_of}
use aegis_oms_rs.Service.OrderService.Submit.{submit_order, cancel_order, lock_for, new_order}
use aegis_oms_rs.Service.OrderService.Fill.{fill_order}
use aegis_oms_rs.Service.OrderService.Locks.{LocksMatch}
use aegis_oms_rs.Service.OrderService.Policy.{verdict}
use aegis_oms_rs.Service.OrderService.Immediate.{CanStore}
use aegis_oms_rs.Service.OrderService.Life.{IsTaken, IsReleased, cancel_order-submit_order}
use aegis_oms_rs.Service.OrderService.Whole.{filled_whole, fill_order-submit_order}
use aegis_oms_rs.Tests.Fixture.{dec, clock, btc, request}

instance abbrev on_tables : Stores
on_tables = postgres_stores rows_table trade_rows_table

abbrev opened : OrderService
opened =
    with_repos (Account.new 0 "A1" "alice" (dec 1000)) (btc ∷ []) default_limits EventBus.new
      (Repository.new rows_table []) []

opened-LocksMatch : LocksMatch opened
unfolding with_repos Account.new
opened-LocksMatch = record { distinct = tt; positive = tt; matched = refl }

btc_known : get request.instrument opened.instruments ≡ some btc
unfolding with_repos
btc_known = refl

request_passes : verdict 8 clock request opened ≡ ok tt
unfolding validate_order with_repos default_limits ◌*ℤ◌ Repository.find_open_orders
    OrderStore.find_open_orders
request_passes = refl

margin_locks : (lock_for 8 (dec 100) (dec 2) (dec 1) opened).0 ≡ ok tt
unfolding with_repos lock_for available_balance validate_margin required_margin lock_margin ◌-ℤ◌
    ◌*ℤ◌ Account.new
margin_locks = refl

new_lock : lock_of 8 opened ≡ none
unfolding with_repos
new_lock = refl

order_fits : CanStore 8 clock request opened
unfolding Repository.save
order_fits = refl

taken : IsTaken 8 clock request opened btc (dec 100)
taken = record {
  known = btc_known;
  passes = request_passes;
  at_limit = refl;
  till_cancelled = refl;
  positive = omega arith;
  exact = λ m e. (opened.account.locked_margin +ℤ m, refl);
  locks = margin_locks;
  fresh = new_lock;
  stores = order_fits;
}

cancel_order-submit_order_example :
    let (r, t) = submit_order 8 clock request opened in
    let (r', u) = cancel_order 8 5 t in
    (r ≡ ok 8)
    × (r' ≡ ok tt)
    × IsReleased 8 clock request opened u
    × (u.account.balance ≡ opened.account.balance)
    × (u.positions ≡ opened.positions)
    × (on_tables.orders.get_order 8 u.store
        ≡ some (record (new_order 8 0 request) { status = OrderStatus.cancelled; updated_at = 5 }))
cancel_order-submit_order_example =
    cancel_order-submit_order 8 clock request opened btc (dec 100) 5 (postgres-IsMap rows_table)
      opened-LocksMatch taken

-- Filled whole at 90.
fill_order-submit_order_example :
    let (r, t) = submit_order 8 clock request opened in
    let u = (fill_order 9 clock 8 (dec 2) (dec 90) t).1 in
    (r ≡ ok 8)
    × IsReleased 8 clock request opened u
    × ((q : ℤ) × (q ≡ dec 2)
        × (on_tables.orders.get_order 8 u.store ≡ some (filled_whole 8 clock request q 0)))
fill_order-submit_order_example =
    fill_order-submit_order 8 clock request opened btc (dec 100) 9 clock (dec 90)
      (postgres-IsMap rows_table) opened-LocksMatch taken
