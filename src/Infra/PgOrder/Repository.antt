-- ===== src/Infra/PgOrder/Repository.antt =====
-- PgOrderRepository: every save goes to the table and to the cache; all else reads the cache.
use aegis_oms_rs.Prelude.{Option, none, some, List, [], ◌∷◌, inl, inr}
use aegis_oms_rs.Platform.{Platform}
use aegis_oms_rs.Platform.Text.{Texts}
use aegis_oms_rs.Domain.Error.{Result, ok, err, panic, Method, risk_check_failed, database}
use aegis_oms_rs.Domain.Order.{Order}
use aegis_oms_rs.Infra.OrderStore.{OrderStore}
use aegis_oms_rs.Infra.OrderStore
use aegis_oms_rs.Infra.PgOrder.{OrderRow, row_to_order, saved_row, ◌>>=◌, or_database}
use aegis_oms_rs.Infra.PgOrder.Database.{OrderTable}

module _ ⦃P : Platform⦄ ⦃T : Texts⦄ (D : OrderTable) where
  pub record PgOrderRepository : Type 0 where
    pub db : D.Db
    pub cache : OrderStore

  -- A repository over the database, with nothing in its cache.
  abbrev pub new : D.Db → PgOrderRepository
  new db = record { db = db; cache = OrderStore.new }

  -- `rows.into_iter().filter_map(row_to_order).collect()`
  unfoldable pub orders_of : List OrderRow → List Order
  orders_of [] = []
  orders_of (r ∷ rows) = elim (row_to_order r) [
    | none ↦ orders_of rows
    | some o ↦ o ∷ orders_of rows
  ]

  unfoldable pub load_order : P.Ulid → PgOrderRepository → Result (Option Order)
  load_order id r = elim (or_database (D.select_order (T.ulid_text id) r.db)) [
    | ok row ↦ ok (row >>= row_to_order)
    | err e ↦ err e
    | panic ↦ panic
  ]

  abbrev loaded : Result (List OrderRow) → Result (List Order)
  loaded (ok rows) = ok (orders_of rows)
  loaded (err e) = err e
  loaded panic = panic

  unfoldable pub load_all_orders : PgOrderRepository → Result (List Order)
  unfolding orders_of
  load_all_orders r = loaded (or_database (D.select_orders r.db))

  unfoldable pub load_pending_trigger_orders : PgOrderRepository → Result (List Order)
  unfolding orders_of
  load_pending_trigger_orders r = loaded (or_database (D.select_pending r.db))

  unfoldable pub save : Order → Method PgOrderRepository (Unit {0})
  save o r =
      let (outcome, db) = D.insert_order (saved_row o) r.db in
      elim outcome [
        | inl e ↦ (err (risk_check_failed (database e)), record r { db = db })
        | inr _ ↦ (ok tt, record r { db = db; cache = OrderStore.save o r.cache })
      ]

  unfoldable pub get_order : P.Ulid → PgOrderRepository → Option Order
  get_order id r = OrderStore.get_order id r.cache

  -- `get_mut`, with the order that is written back.
  unfoldable pub put_order : P.Ulid → Order → PgOrderRepository → PgOrderRepository
  put_order id o r = record r { cache = OrderStore.put_order id o r.cache }

  unfoldable pub find_open_orders : PgOrderRepository → List Order
  find_open_orders r = OrderStore.find_open_orders r.cache

  unfoldable pub find_pending_trigger_orders : PgOrderRepository → List Order
  find_pending_trigger_orders r = OrderStore.find_pending_trigger_orders r.cache

  unfoldable pub all_orders : PgOrderRepository → List Order
  all_orders r = OrderStore.all_orders r.cache

  unfoldable pub load_all_owned : PgOrderRepository → Result (List Order)
  unfolding load_all_orders
  load_all_owned r = load_all_orders r
