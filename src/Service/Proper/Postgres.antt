-- ===== src/Service/Proper/Postgres.antt =====
-- Behind PostgreSQL, the cache keeps each order once, under its own identifier.
use aegis_oms_rs.Prelude.{List, inl, inr, Sum-cases, arith}
use aegis_oms_rs.Platform.{Platform}
use aegis_oms_rs.Platform.Text.{Texts}
use aegis_oms_rs.Domain.Account.{Account}
use aegis_oms_rs.Domain.Instrument.{Instrument}
use aegis_oms_rs.Infra.EventBus.{EventBus}
use aegis_oms_rs.Infra.OrderStore
use aegis_oms_rs.Infra.PgOrder.{saved_row}
use aegis_oms_rs.Infra.PgOrder.Database.{OrderTable}
use aegis_oms_rs.Infra.PgOrder.Repository
use aegis_oms_rs.Infra.PgOrder.Repository.{PgOrderRepository}
use aegis_oms_rs.Infra.PgTrade.Repository.{TradeTable}
use aegis_oms_rs.Infra.Repository.Postgres.{postgres_stores}
use aegis_oms_rs.Service.RiskCheck.{RiskLimits}
use aegis_oms_rs.Service.OrderService.State.{OrderService, with_repos}
use aegis_oms_rs.Service.Composite.Pending.{AllListsOnce}
use aegis_oms_rs.Service.Composite.Stored.{IsProper, IsProper-AllListsOnce}
use aegis_oms_rs.Service.Proper.{SaveKeeps}
use aegis_oms_rs.Service.Proper.Memory.{put_found-IsProper, save-IsProper}
use aegis_oms_rs.Service.Proper.Reachable.{Steps, Steps-Keeps}

module _ ⦃P : Platform⦄ ⦃T : Texts⦄ (O : OrderTable) (D : TradeTable) where
  abbrev PgService : Type 0
  PgService = OrderService ⦃S = postgres_stores O D⦄

  abbrev cache-IsProper : PgOrderRepository O → Type 0
  cache-IsProper r = IsProper r.cache

  save-keeps : SaveKeeps ⦃S = postgres_stores O D⦄ cache-IsProper
  unfolding Repository.save
  save-keeps o r proper = elim (Sum-cases (O.insert_order (saved_row o) r.db).0) [
    | inl (e, k) ↦ ground (arith, proper)
    | inr (u, k) ↦ ground (arith, save-IsProper o r.cache proper)
  ]

  cache-AllListsOnce :
      (r : PgOrderRepository O) → IsProper r.cache → AllListsOnce ⦃S = postgres_stores O D⦄ r
  unfolding Repository.get_order Repository.find_pending_trigger_orders Repository.all_orders
      Repository.find_open_orders
  cache-AllListsOnce r proper =
      let every = IsProper-AllListsOnce r.cache proper in
      let lists = every.pending in
      record {
        pending = record { keyed = lists.keyed; once = lists.once; found = lists.found };
        opens = every.opens;
        all = every.all;
      }

  -- A service behind PostgreSQL that is made with any account and a repository whose cache is empty
  -- finds, through any sequence of its calls and whatever their outcomes, a restart included, each
  -- order that it lists under its own identifier and no other, and names none twice in the list of
  -- all orders, in that of the open ones, and in that of the ones that wait for their trigger.
  pub reachable-AllListsOnce :
      (account : Account) (instruments : List Instrument) (limits : RiskLimits) (bus : EventBus)
      (db : O.Db) (trades : D.Db) {s : PgService}
      → Steps ⦃S = postgres_stores O D⦄
          (with_repos ⦃S = postgres_stores O D⦄ account instruments limits bus
            (Repository.new O db)
            trades)
          s
      → AllListsOnce ⦃S = postgres_stores O D⦄ s.store
  unfolding with_repos OrderStore.get_order Repository.put_order Repository.get_order
  reachable-AllListsOnce account instruments limits bus db trades {s} c =
      let kept : IsProper s.store.cache =
        Steps-Keeps ⦃S = postgres_stores O D⦄ cache-IsProper
          (λ id o o' r f own p. put_found-IsProper id o o' r.cache f own p) save-keeps
          (record { distinct = tt; keyed = λ id o h. absurd (cc) }) c in
      cache-AllListsOnce s.store kept
