-- ===== src/Tests/Failing.antt =====
-- The theorem on an order that the repository turns down, at a table that takes no rows.
use aegis_oms_rs.Prelude.{
  ◌≡◌, ◌≢◌, refl, sym, pos, ℤ, ◌<ℤ◌, none, some, List, [], ◌∷◌, ◌+ℤ◌, ◌-ℤ◌, ◌*ℤ◌, inl, inr, arith,
  String, ◌⊎◌,
}
use aegis_oms_rs.Platform.Whole.{whole}
use aegis_oms_rs.Platform.Plain.{plain}
use aegis_oms_rs.Domain.Status.{TimeInForce}
use aegis_oms_rs.Domain.Error.{ok, err, risk_check_failed, database}
use aegis_oms_rs.Domain.Account.{required_margin, available_balance, lock_margin}
use aegis_oms_rs.Infra.EventBus
use aegis_oms_rs.Infra.Repository.{Stores}
use aegis_oms_rs.Infra.Repository.Postgres.{postgres_stores, postgres-IsMap}
use aegis_oms_rs.Infra.PgOrder.{OrderRow}
use aegis_oms_rs.Infra.PgOrder.Database.{OrderTable, find_row}
use aegis_oms_rs.Infra.PgOrder.Repository.{new, save}
use aegis_oms_rs.Infra.PgOrder.Repository
use aegis_oms_rs.Infra.OrderStore
use aegis_oms_rs.Prelude.Map.{get}
use aegis_oms_rs.Prelude.Eq.{string_eq}
use aegis_oms_rs.Infra.PgOrder.Table.{inr_inj}
use aegis_oms_rs.Infra.PgTrade.Table.{trade_rows_table}
use aegis_oms_rs.Service.RiskCheck.{default_limits, validate_order, validate_margin}
use aegis_oms_rs.Service.OrderService.State.{OrderService, with_repos}
use aegis_oms_rs.Service.OrderService.Submit.{submit_order, lock_for}
use aegis_oms_rs.Service.OrderService.Policy.{verdict}
use aegis_oms_rs.Service.OrderService.Lock.{ExactLock}
use aegis_oms_rs.Service.OrderService.Unstored.{IsStuck, saving, submit_order_unstored}
use aegis_oms_rs.Tests.Fixture.{dec, clock, btc, alice, request}

not_done : {e : String} → ¬ (◌≡◌ {A = String ⊎ Unit {0}} (inl e) (inr tt))
not_done k = cc

abbrev full_table : OrderTable
full_table = record {
  Db = List OrderRow;
  micros = λ t. t;
  insert_order = λ row rows. (inl "disk full", rows);
  select_order = λ id rows. inr (find_row id rows);
  select_orders = λ rows. inr rows;
  select_pending = λ rows. inr [];
  row_at = λ rows id. find_row id rows;
  insert_failed = λ row rows e id k. refl;
  insert_new = λ row rows e n. absurd (not_done e);
  insert_conflict = λ row old rows e h. absurd (not_done e);
  insert_other = λ row rows id n. refl;
  select_lem = λ id rows r e. sym (inr_inj e);
  select_all_lem = λ id rows rs e. rw (inr_inj e) refl;
}

instance abbrev on_full : Stores
on_full = postgres_stores full_table trade_rows_table

abbrev opened : OrderService
opened = with_repos alice (btc ∷ []) default_limits EventBus.new (new full_table []) []

request_passes : verdict 8 clock request opened ≡ ok tt
unfolding validate_order with_repos default_limits ◌*ℤ◌ Repository.find_open_orders
    OrderStore.find_open_orders
request_passes = refl

exact_lock : ExactLock 8 (dec 100) (dec 2) (dec 1) opened
exact_lock m e = (opened.account.locked_margin +ℤ m, refl)

no_fok : request.time_in_force ≢ TimeInForce.fok
no_fok e = cc

btc_known : get request.instrument opened.instruments ≡ some btc
unfolding with_repos
btc_known = refl

locks : (lock_for 8 (dec 100) (dec 2) (dec 1) opened).0 ≡ ok tt
unfolding with_repos lock_for available_balance validate_margin required_margin lock_margin ◌-ℤ◌
    ◌*ℤ◌
locks = refl

new_id : Repository.get_order full_table 8 opened.store ≡ none
unfolding Repository.get_order OrderStore.get_order with_repos
new_id = refl

turned_down : (saving 8 clock request opened).0 ≡ err (risk_check_failed (database "disk full"))
unfolding save
turned_down = refl

-- Of an order for two at 100 that is not stored, 200 stay locked.
submit_order_unstored_example :
    let (r, t) = submit_order 8 clock request opened in
    (m : ℤ) × (required_margin (dec 100) (dec 2) (dec 1) ≡ ok m)
    × (pos 0 <ℤ m)
    × (r ≡ err (risk_check_failed (database "disk full")))
    × IsStuck 8 clock request m opened t
submit_order_unstored_example =
    submit_order_unstored 8 clock request opened btc (dec 100)
      (risk_check_failed (database "disk full")) (postgres-IsMap full_table) btc_known
      request_passes refl no_fok (omega arith) exact_lock locks new_id turned_down
