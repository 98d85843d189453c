-- ===== src/Cli/Restart.antt =====
-- What a restart behind PostgreSQL comes to.
use aegis_oms_rs.Prelude.{◌≡◌, refl, ap, some, List, [], ◌∷◌, String, arith, inl, inr}
use aegis_oms_rs.Platform.{Platform}
use aegis_oms_rs.Platform.Text.{Texts}
use aegis_oms_rs.Domain.Status.{Side}
use aegis_oms_rs.Domain.Error.{Result, ok, err, panic, Result-cases, ◌>>=◌}
use aegis_oms_rs.Domain.Order.{Order}
use aegis_oms_rs.Domain.Account.{Account}
use aegis_oms_rs.Infra.Repository.{Stores}
use aegis_oms_rs.Infra.Repository.Postgres.{postgres_stores}
use aegis_oms_rs.Infra.PgOrder.Database.{OrderTable}
use aegis_oms_rs.Infra.PgTrade.Repository.{TradeTable, AccountTable, load_account}
use aegis_oms_rs.Service.OrderService.State.{OrderService, with_repos}
use aegis_oms_rs.Service.OrderService.Query.{restore_from_db, save_all}
use aegis_oms_rs.Service.OrderService.Stuck.{HoldsNoLock, Changes-HoldsNoLock}
use aegis_oms_rs.Service.Unwritten.{PgChanges}
use aegis_oms_rs.Config.{Environment}
use aegis_oms_rs.Cli.Postgres.{
  PgDatabase, create_pg_service, fresh_service, despite_error, stored_positions, unwrap_or_default,
}

module _ ⦃P : Platform⦄ ⦃S : Stores⦄ where
  -- The account and the margin locks are as before.
  abbrev pub SameMargin : OrderService → OrderService → Type 0
  SameMargin s t = (t.account ≡ s.account) × (t.margin_locks ≡ s.margin_locks)

  save_all-SameMargin : (os : List Order) (s : OrderService) → SameMargin s (save_all os s).1
  unfolding save_all
  save_all-SameMargin [] s = (refl, refl)
  save_all-SameMargin (o ∷ os) s =
      let t = record s { store = (S.orders.save o s.store).1 } in
      elim (Result-cases (S.orders.save o s.store).0) [
        | inl (u, e) ↦ rw (save_all, ◌>>=◌, e) (save_all-SameMargin os t)
        | inr (inl e) ↦ rw (save_all, ◌>>=◌, e) (refl, refl)
        | inr (inr (x, e)) ↦ rw (save_all, ◌>>=◌, e) (refl, refl)
      ]

  -- Whatever its outcome, a restart that finds an account takes it, and leaves the locks.
  pub restore-account :
      (a : Account) (positions : List (String × Side × P.Decimal × P.Decimal)) (s : OrderService)
      → let t = (restore_from_db (ok (some a)) positions s).1 in
        (t.account ≡ a) × (t.margin_locks ≡ s.margin_locks)
  unfolding restore_from_db
  restore-account a positions s =
      let b = record s { account = a } in
      elim (Result-cases (S.orders.load_all_owned s.store)) [
        | inl (os, l) ↦
            let same = save_all-SameMargin os b in
            let t = (save_all os b).1 in
            elim (Result-cases (S.trades.load_all_owned t.trade_store)) [
              | inl (ts, f) ↦ ground arith
              | inr (inl f) ↦ ground arith
              | inr (inr (x, f)) ↦ ground arith
            ]
        | inr (inl l) ↦ ground arith
        | inr (inr (x, l)) ↦ ground arith
      ]

module _ ⦃P : Platform⦄ ⦃T : Texts⦄ (O : OrderTable) (D : TradeTable) where
  abbrev PgService : Type 0
  PgService = OrderService ⦃S = postgres_stores O D⦄

  abbrev pub PgHoldsNoLock : P.Decimal → PgService → Type 0
  PgHoldsNoLock = HoldsNoLock ⦃S = postgres_stores O D⦄

module _ ⦃P : Platform⦄ ⦃T : Texts⦄ (O : OrderTable) (D : TradeTable) (A : AccountTable) where
  made-state :
      (out : Result (Unit {0}) × PgService O D) (svc : PgService O D)
      → despite_error O D A out ≡ ok svc
      → out.1 ≡ svc
  made-state (ok u, s) svc e = ground arith
  made-state (err x, s) svc e = ground arith
  made-state (panic, s) svc e = absurd (ground arith)

  made-HoldsNoLock :
      (env : Environment) (now : P.Timestamp) (db : PgDatabase O D A) (a : Account)
      (svc : PgService O D)
      → create_pg_service O D A env now (some db) ≡ ok svc
      → load_account A "acc-001" db.accounts ≡ ok (some a)
      → PgHoldsNoLock O D a.locked_margin svc
  unfolding create_pg_service fresh_service with_repos
  made-HoldsNoLock env now db a svc made loaded =
      let positions = stored_positions (unwrap_or_default db.positions) in
      let fresh = fresh_service O D A env now db in
      let restore = restore_from_db ⦃S = postgres_stores O D⦄ (ok (some a)) positions fresh in
      let state : restore.1 ≡ svc = made-state restore svc (rw loaded at made) in
      let (account, locks) = restore-account ⦃S = postgres_stores O D⦄ a positions fresh in
      rw (← state) (ap (λ b. b.locked_margin) account, locks)

  -- Where the account "acc-001" is in the database and the program starts, its locked margin is
  -- restored and no lock with it: from then on, no sequence of cancels, fills, price updates,
  -- deposits, withdrawals and markings releases any of that margin.
  pub restarted_margin_stuck :
      (env : Environment) (now : P.Timestamp) (db : PgDatabase O D A) (a : Account)
      (svc t : PgService O D)
      → create_pg_service O D A env now (some db) ≡ ok svc
      → load_account A "acc-001" db.accounts ≡ ok (some a)
      → PgChanges O D svc t
      → PgHoldsNoLock O D a.locked_margin t
  restarted_margin_stuck env now db a svc t made loaded c =
      Changes-HoldsNoLock ⦃S = postgres_stores O D⦄ a.locked_margin c
        (made-HoldsNoLock env now db a svc made loaded)
