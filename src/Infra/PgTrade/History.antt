-- ===== src/Infra/PgTrade/History.antt =====
-- The trades that were saved are loaded again, but the history shows none of them.
use aegis_oms_rs.Prelude.{
  ◌≡◌, ◌≢◌, refl, ap, ◌∙◌, some, List, [], ◌∷◌, inl, inr, arith, Option-cases, Sum-cases,
}
use aegis_oms_rs.Platform.{Platform}
use aegis_oms_rs.Platform.Text.{Texts}
use aegis_oms_rs.Domain.Error.{ok}
use aegis_oms_rs.Domain.Event.{Trade}
use aegis_oms_rs.Prelude.Tests.{Has}
use aegis_oms_rs.Infra.PgOrder.Saved.{side_round}
use aegis_oms_rs.Infra.PgTrade.{TradeRow, row_to_trade, trade_row, trades_of}
use aegis_oms_rs.Infra.PgTrade.Repository.{TradeTable, load_all, save_trade, all_trades}

module _ ⦃P : Platform⦄ ⦃T : Texts⦄ where
  -- The row of a trade is read back as that trade.
  row_to_trade-trade_row : (t : Trade) → row_to_trade (trade_row t) ≡ some t
  unfolding row_to_trade trade_row
  row_to_trade-trade_row t = rw (side_round t.side, T.ulid_lem t.id, T.ulid_lem t.order_id)

  -- A row that can be read is among the trades.
  Has-trades_of :
      (row : TradeRow) (t : Trade) (rows : List TradeRow)
      → row_to_trade row ≡ some t
      → Has row rows
      → Has t (trades_of rows)
  unfolding trades_of
  Has-trades_of row t [] e h = h
  Has-trades_of row t (r ∷ rows) e (inl same) =
      let found : row_to_trade r ≡ some t = ap row_to_trade same ∙ e in
      rw (found, trades_of) (inl refl)
  Has-trades_of row t (r ∷ rows) e (inr h) = elim (Option-cases (row_to_trade r)) [
    | inl k ↦ rw (k, trades_of) (Has-trades_of row t rows e h)
    | inr (x, k) ↦ rw (k, trades_of) (inr (Has-trades_of row t rows e h))
  ]

  module _ (D : TradeTable) where
    -- The trade with the time that the table keeps of it.
    abbrev pub kept_trade : Trade → Trade
    kept_trade t = record t { executed_at = D.micros t.executed_at }

    loaded_row :
        (t : Trade) (db : D.Db) (ts : List Trade)
        → Has (trade_row t) (D.rows db)
        → load_all D db ≡ ok ts
        → Has t ts
    unfolding load_all
    loaded_row t db ts h e = elim (Sum-cases (D.select_trades db)) [
      | inl (x, k) ↦ absurd (ground arith)
      | inr (rs, k) ↦
          let same : trades_of rs ≡ ts = ground arith in
          rw (← same) (
            Has-trades_of (trade_row t) t rs (row_to_trade-trade_row t)
              (D.select_lem db rs (trade_row t) k h))
    ]

    -- A trade whose identifier is not in the table is, once it is saved and if the table can be
    -- read, among the trades that are loaded, with the microseconds of its time; the history of
    -- the repository shows no trade all the same.
    pub load_all-save_trade :
        (t : Trade) (db : D.Db) (ts : List Trade)
        → ((old : TradeRow) → Has old (D.rows db) → old.id ≢ T.ulid_text t.id)
        → (save_trade D t db).0 ≡ ok tt
        → load_all D (save_trade D t db).1 ≡ ok ts
        → Has (kept_trade t) ts × (all_trades D (save_trade D t db).1 ≡ [])
    unfolding save_trade all_trades trade_row
    load_all-save_trade t db ts fresh e l =
        let inserted : (D.insert_trade (trade_row t) db).0 ≡ inr tt = ground arith in
        (
          loaded_row (kept_trade t) (save_trade D t db).1 ts
              (D.insert_new (trade_row t) db inserted fresh) l,
          refl,
        )
