-- ===== src/Tests/Restart.antt =====
-- The theorems on the service behind PostgreSQL, and on repositories that fail, at concrete inputs.
use aegis_oms_rs.Prelude.{◌≡◌, refl, Option, none, some, [], ◌∷◌, inl, inr, false}
use aegis_oms_rs.Platform.Whole.{whole}
use aegis_oms_rs.Platform.Plain.{plain}
use aegis_oms_rs.Domain.Status.{can_transition_to}
use aegis_oms_rs.Domain.Error.{ok}
use aegis_oms_rs.Domain.Order.{is_trailing_stop, cancel, transition_to}
use aegis_oms_rs.Domain.Account.{Account}
use aegis_oms_rs.Infra.EventBus
use aegis_oms_rs.Infra.Repository.{Stores}
use aegis_oms_rs.Infra.Repository.Postgres.{postgres_stores}
use aegis_oms_rs.Infra.PgOrder.{saved_row, row_to_order}
use aegis_oms_rs.Infra.PgOrder.Repository.{
  PgOrderRepository, new, save, load_order, get_order, put_order,
}
use aegis_oms_rs.Infra.OrderStore
use aegis_oms_rs.Infra.PgOrder.Saved.{Holds}
use aegis_oms_rs.Infra.PgOrder.Table.{rows_table}
use aegis_oms_rs.Infra.PgTrade.Table.{trade_rows_table}
use aegis_oms_rs.Infra.PgTrade.{AccountRow, row_to_account}
use aegis_oms_rs.Infra.PgTrade.Repository.{AccountTable, load_account, load_all_trades}
use aegis_oms_rs.Infra.PgOrder.Repository.{load_all_owned}
use aegis_oms_rs.Config.{Environment}
use aegis_oms_rs.Cli.Postgres.{PgDatabase, create_pg_service, fresh_service}
use aegis_oms_rs.Cli.Restart.{PgHoldsNoLock, restarted_margin_stuck}
use aegis_oms_rs.Service.OrderService.Query.{restore_from_db, save_all, total_loss}
use aegis_oms_rs.Service.RiskCheck.{default_limits}
use aegis_oms_rs.Service.OrderService.State.{OrderService, with_repos, release_margin}
use aegis_oms_rs.Service.OrderService.Submit.{submit_order, cancel_order}
use aegis_oms_rs.Service.Unwritten.{here, next, cancels, changes_unwritten}
use aegis_oms_rs.Service.Proper.Reachable
use aegis_oms_rs.Service.Proper.Postgres.{reachable-AllListsOnce}
use aegis_oms_rs.Service.Composite.Pending.{AllListsOnce}
use aegis_oms_rs.Tests.Fixture.{resting, dec, clock, btc, alice, request}

instance abbrev on_tables : Stores
on_tables = postgres_stores rows_table trade_rows_table

abbrev empty_table : PgOrderRepository rows_table
empty_table = new rows_table []

abbrev opened : OrderService
opened = with_repos alice (btc ∷ []) default_limits EventBus.new empty_table []

abbrev submitted : OrderService
submitted = (submit_order 8 clock request opened).1

-- A service whose order 7 is in the table and in the cache.
abbrev holding : OrderService
holding = record opened { store = (save rows_table resting empty_table).1 }

row_there : Holds rows_table holding.store.db resting
unfolding save saved_row
row_there = refl

row_stays : (cancel_order 7 3 holding).1.store.db ≡ holding.store.db
unfolding cancel_order cancel release_margin save get_order put_order OrderStore.get_order
    OrderStore.save OrderStore.put_order can_transition_to transition_to with_repos
row_stays = refl

loads_resting : load_order rows_table 7 (cancel_order 7 3 holding).1.store ≡ ok (some resting)
unfolding load_order save saved_row row_to_order
loads_resting = rw row_stays refl

-- The cancelled order is loaded as Accepted.
changes_unwritten_example :
    ((cancel_order 7 3 holding).1.store.db ≡ holding.store.db) × (some resting ≡ some resting)
unfolding is_trailing_stop
changes_unwritten_example =
    changes_unwritten rows_table trade_rows_table resting (some resting) (next here (cancels 7 3))
      row_there refl loads_resting

reachable-AllListsOnce_example : AllListsOnce (cancel_order 8 3 submitted).1.store
reachable-AllListsOnce_example =
    reachable-AllListsOnce rows_table trade_rows_table alice (btc ∷ []) default_limits EventBus.new
      [] []
      (Reachable.next (Reachable.next Reachable.here (Reachable.submits 8 clock request))
        (Reachable.cancels 8 3))

-- The account in a list.
abbrev accounts_table : AccountTable
accounts_table = record {
  Accounts = Option AccountRow;
  insert_account = λ row a. (inr tt, some row);
  select_account = λ id a. inr a;
}

abbrev no_config : Environment
no_config = record {
  var = λ v. none;
  exists = λ path. false;
  read_to_string = λ path. inl "missing";
  toml_from_str = λ text. inl "missing";
}

abbrev database_left : PgDatabase rows_table trade_rows_table accounts_table
database_left = record {
  orders = saved_row resting ∷ [];
  trades = [];
  accounts = some (record {
    id = "acc-001";
    name = "Default";
    balance = dec 1000;
    locked_margin = dec 200;
    created_at = 0;
  });
  positions = inr [];
}

abbrev account_left : Account
account_left = record {
  id = "acc-001";
  name = "Default";
  balance = dec 1000;
  locked_margin = dec 200;
  created_at = 0;
}

abbrev restarted : OrderService
restarted =
    (restore_from_db (ok (some account_left)) []
      (fresh_service rows_table trade_rows_table accounts_table no_config 5 database_left)).1

restarts :
    create_pg_service rows_table trade_rows_table accounts_table no_config 5 (some database_left)
    ≡ ok restarted
unfolding create_pg_service restore_from_db save_all total_loss fresh_service with_repos
    load_all_owned load_all_trades load_account row_to_order saved_row save
restarts = refl

account_loads :
    load_account accounts_table "acc-001" database_left.accounts ≡ ok (some account_left)
unfolding load_account row_to_account
account_loads = refl

-- Cancelling the restored order leaves its 200 locked.
restarted_margin_stuck_example :
    PgHoldsNoLock rows_table trade_rows_table (dec 200) (cancel_order 7 6 restarted).1
restarted_margin_stuck_example =
    restarted_margin_stuck rows_table trade_rows_table accounts_table no_config 5 database_left
      account_left restarted (cancel_order 7 6 restarted).1 restarts account_loads
      (next here (cancels 7 6))
