-- ===== src/Tests/Postgres.antt =====
-- The theorems on the repositories behind PostgreSQL, and on the service under any calls, at
-- concrete inputs.
use aegis_oms_rs.Prelude.{◌≡◌, refl, Option, none, some, [], ◌∷◌, ◌+ℤ◌, ◌-ℤ◌}
use aegis_oms_rs.Platform.Whole.{whole}
use aegis_oms_rs.Platform.Plain.{plain}
use aegis_oms_rs.Domain.Status.{Side}
use aegis_oms_rs.Domain.Order.{Order, is_trailing_stop}
use aegis_oms_rs.Domain.Account
use aegis_oms_rs.Infra.EventBus
use aegis_oms_rs.Domain.Event.{Trade}
use aegis_oms_rs.Prelude.Tests.{Has}
use aegis_oms_rs.Infra.Repository.{Stores, IsMap}
use aegis_oms_rs.Infra.PgTrade.{trade_row, trades_of, row_to_trade}
use aegis_oms_rs.Infra.PgTrade.Repository.{load_all, save_trade, all_trades}
use aegis_oms_rs.Infra.PgTrade.History.{kept_trade, load_all-save_trade}
use aegis_oms_rs.Infra.PgTrade.Table.{trade_rows_table}
use aegis_oms_rs.Infra.Repository.Postgres.{postgres, postgres_stores, postgres-IsMap}
use aegis_oms_rs.Infra.PgOrder.{saved_row, row_to_order}
use aegis_oms_rs.Infra.PgOrder.Repository.{PgOrderRepository, new, save, load_order, get_order}
use aegis_oms_rs.Infra.PgOrder.Saved.{load-save, save_trailing_lost, kept}
use aegis_oms_rs.Infra.PgOrder.Table.{rows_table}
use aegis_oms_rs.Service.RiskCheck.{default_limits}
use aegis_oms_rs.Service.OrderService.Locks.{LocksMatch}
use aegis_oms_rs.Service.OrderService.Submit.{submit_order, cancel_order}
use aegis_oms_rs.Service.Composite.{on_price_update}
use aegis_oms_rs.Service.OrderService.State
use aegis_oms_rs.Service.Reachable.{here, next, submits, cancels, updates, reachable-LocksMatch}
use aegis_oms_rs.Tests.Fixture.{dec, clock, btc, resting, trailing, request}

abbrev empty_table : PgOrderRepository rows_table
empty_table = new rows_table []

-- The resting order comes back from the table.
load-save_example : some resting ≡ some (kept rows_table resting)
unfolding is_trailing_stop save load_order saved_row row_to_order
load-save_example = load-save rows_table resting empty_table (some resting) refl refl refl refl

abbrev no_order : Option Order
no_order = none

-- The trailing stop order does not.
save_trailing_lost_example :
    (get_order rows_table trailing.id (save rows_table trailing empty_table).1 ≡ some trailing)
    × (no_order ≡ none)
unfolding save load_order saved_row row_to_order
save_trailing_lost_example =
    save_trailing_lost rows_table trailing (dec 5) empty_table no_order refl refl refl refl

-- The table in memory behind the repository.
postgres-IsMap_example : IsMap (postgres rows_table)
postgres-IsMap_example = postgres-IsMap rows_table

-- A service on empty tables.
instance abbrev on_tables : Stores
on_tables = postgres_stores rows_table trade_rows_table

abbrev opened : State.OrderService
opened =
    State.with_repos (Account.new 0 "A1" "alice" (dec 1000)) (btc ∷ []) default_limits EventBus.new
      empty_table []

abbrev submitted : State.OrderService
submitted = (submit_order 8 clock request opened).1

-- An order that is submitted and cancelled, and a price update.
reachable-LocksMatch_example :
    LocksMatch (on_price_update "BTC" (dec 90) clock (cancel_order 8 3 submitted).1).1
unfolding State.with_repos Account.new
reachable-LocksMatch_example =
    reachable-LocksMatch 0 "A1" "alice" (dec 1000) (btc ∷ []) default_limits EventBus.new
      empty_table []
      (next
        (next
          (next here
            (submits 8 clock request refl (λ i e m k. (opened.account.locked_margin +ℤ m, refl))))
          (cancels 8 3 (λ m e. (submitted.account.locked_margin -ℤ m, refl))))
        (updates "BTC" (dec 90) clock))

abbrev bought : Trade
bought = record {
  id = 3;
  order_id = 7;
  instrument = "BTC";
  side = Side.buy;
  quantity = dec 2;
  price = dec 100;
  realized_pnl = none;
  executed_at = 5;
}

load_all-save_trade_example :
    Has (kept_trade trade_rows_table bought) (bought ∷ [])
    × (all_trades trade_rows_table (save_trade trade_rows_table bought []).1 ≡ [])
unfolding save_trade load_all trade_row trades_of row_to_trade
load_all-save_trade_example =
    load_all-save_trade trade_rows_table bought [] (bought ∷ []) (λ old h. absurd h) refl refl
