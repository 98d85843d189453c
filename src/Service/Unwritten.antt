-- ===== src/Service/Unwritten.antt =====
-- What the calls that only write orders back leave in the database.
use aegis_oms_rs.Prelude.{ℕ, String, ◌≡◌, ◌∙◌, refl, false, some, Option}
use aegis_oms_rs.Prelude.Map.{HashMap}
use aegis_oms_rs.Platform.{Platform}
use aegis_oms_rs.Platform.Text.{Texts}
use aegis_oms_rs.Domain.Error.{ok}
use aegis_oms_rs.Domain.Order.{Order, is_trailing_stop}
use aegis_oms_rs.Infra.PgOrder.Database.{OrderTable}
use aegis_oms_rs.Infra.PgOrder.Repository.{load_order, put_order}
use aegis_oms_rs.Infra.PgOrder.Saved.{Holds, load_held, row_to_order-saved_row}
use aegis_oms_rs.Infra.PgTrade.Repository.{TradeTable}
use aegis_oms_rs.Infra.Repository.{Stores}
use aegis_oms_rs.Infra.Repository.Postgres.{postgres_stores}
use aegis_oms_rs.Service.OrderService.State.{OrderService}
use aegis_oms_rs.Service.OrderService.Submit.{cancel_order}
use aegis_oms_rs.Service.OrderService.Fill.{fill_order}
use aegis_oms_rs.Service.OrderService.Query.{deposit, withdraw, update_positions_pnl}
use aegis_oms_rs.Service.Composite.{on_price_update}
use aegis_oms_rs.Service.Proper.{PutKeeps}
use aegis_oms_rs.Service.Proper.Calls.{cancel_order-Keeps}
use aegis_oms_rs.Service.Proper.Fills.{fill_order-Keeps, on_price_update-Keeps}

module _ ⦃P : Platform⦄ ⦃S : Stores⦄ where
  -- One call that saves no order, whatever its outcome.
  pub data Change (s : OrderService) : OrderService → Type 0 where
    cancels : (id : P.Ulid) (now : P.Timestamp) → Change s (cancel_order id now s).1
    fills :
        (trade_id : P.Ulid) (clock : ℕ → P.Timestamp) (id : P.Ulid) (qty price : P.Decimal)
        → Change s (fill_order trade_id clock id qty price s).1
    updates :
        (symbol : String) (price : P.Decimal) (clock : ℕ → P.Timestamp)
        → Change s (on_price_update symbol price clock s).1
    deposits : (amount : P.Decimal) → Change s (deposit amount s).1
    withdraws : (amount : P.Decimal) → Change s (withdraw amount s).1
    marks : (prices : HashMap String P.Decimal) → Change s (update_positions_pnl prices s).1

  pub data Changes (s : OrderService) : OrderService → Type 0 where
    here : Changes s s
    next : {t u : OrderService} → Changes s t → Change t u → Changes s u

  module _ (I : S.Orders → Type 0) (put : PutKeeps I) where
    Change-Keeps : {s t : OrderService} → Change s t → I s.store → I t.store
    unfolding deposit withdraw update_positions_pnl
    Change-Keeps {s} (cancels id now) p = cancel_order-Keeps I put id now s p
    Change-Keeps {s} (fills trade_id clock id qty price) p =
        fill_order-Keeps I put trade_id clock id qty price s p
    Change-Keeps {s} (updates symbol price clock) p =
        on_price_update-Keeps I put symbol price clock s p
    Change-Keeps (deposits amount) p = p
    Change-Keeps (withdraws amount) p = p
    Change-Keeps (marks prices) p = p

    Changes-Keeps : {s t : OrderService} → Changes s t → I s.store → I t.store
    Changes-Keeps here p = p
    Changes-Keeps (next c k) p = Change-Keeps k (Changes-Keeps c p)

module _ ⦃P : Platform⦄ ⦃T : Texts⦄ (O : OrderTable) (D : TradeTable) where
  abbrev PgService : Type 0
  PgService = OrderService ⦃S = postgres_stores O D⦄

  abbrev pub PgChanges : PgService → PgService → Type 0
  PgChanges = Changes ⦃S = postgres_stores O D⦄

  same_db : {s t : PgService} → PgChanges s t → t.store.db ≡ s.store.db
  unfolding put_order
  same_db {s} c =
      Changes-Keeps ⦃S = postgres_stores O D⦄ (λ r. r.db ≡ s.store.db) (λ id o o' r f own e. e) c
        refl

  -- Behind PostgreSQL no sequence of cancels, fills, price updates, deposits, withdrawals and
  -- markings reaches the orders in the database: the table is as it was, and an order that it
  -- holds and that is no trailing stop order is loaded, if it can be loaded, as it was saved
  -- before them.
  pub changes_unwritten :
      {s t : PgService} (o : Order) (found : Option Order)
      → PgChanges s t
      → Holds O s.store.db o
      → is_trailing_stop o.order_type ≡ false
      → load_order O o.id t.store ≡ ok found
      → (t.store.db ≡ s.store.db) × (found ≡ some o)
  changes_unwritten {s} {t} o found c held kind e =
      let same = same_db c in
      (same, load_held O o t.store found (rw same held) e ∙ row_to_order-saved_row o kind)
