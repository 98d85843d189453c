-- ===== src/Infra/PgTrade/Table.antt =====
-- A table of trades in memory: it shows that the interface's laws can hold together, and the tests
-- run on it.
use aegis_oms_rs.Prelude.{
  String, ◌≡◌, ◌≢◌, refl, List, [], ◌∷◌, inl, inr, Bool, false, ◌||◌, if◌then◌else◌, arith,
  Bool-cases,
}
use aegis_oms_rs.Prelude.Eq.{◌==◌, ==_iff, string_eq}
use aegis_oms_rs.Platform.{Platform}
use aegis_oms_rs.Prelude.Tests.{Has}
use aegis_oms_rs.Infra.PgOrder.Table.{inr_inj}
use aegis_oms_rs.Infra.PgTrade.{TradeRow}
use aegis_oms_rs.Infra.PgTrade.Repository.{TradeTable}

module _ ⦃P : Platform⦄ where
  abbrev pub taken : String → List TradeRow → Bool
  taken id [] = false
  taken id (r ∷ rows) = (r.id == id) || taken id rows

  abbrev pub add_row : TradeRow → List TradeRow → List TradeRow
  add_row row rows = if taken row.id rows then rows else row ∷ rows

  fresh-taken :
      (id : String) (rows : List TradeRow)
      → ((old : TradeRow) → Has old rows → old.id ≢ id)
      → taken id rows ≡ false
  fresh-taken id [] fresh = refl
  fresh-taken id (r ∷ rows) fresh =
      let ahead : r.id ≢ id = fresh r (inl refl) in
      let behind : taken id rows ≡ false = fresh-taken id rows (λ old h. fresh old (inr h)) in
      ground (arith, ==_iff r.id id)

  pub Has-add_row :
      (row : TradeRow) (rows : List TradeRow)
      → ((old : TradeRow) → Has old rows → old.id ≢ row.id)
      → Has row (add_row row rows)
  Has-add_row row rows fresh = rw (fresh-taken row.id rows fresh) (inl refl)

  pub Has-add_row_old :
      (row old : TradeRow) (rows : List TradeRow) → Has old rows → Has old (add_row row rows)
  Has-add_row_old row old rows h = elim (Bool-cases (taken row.id rows)) [
    | inl e ↦ rw e h
    | inr e ↦ rw e (inr h)
  ]

  abbrev pub trade_rows_table : TradeTable
  trade_rows_table = record {
    Db = List TradeRow;
    micros = λ t. t;
    insert_trade = λ row rows. (inr tt, add_row row rows);
    select_trades = λ rows. inr rows;
    rows = λ rows. rows;
    select_lem = λ rows rs row e h. rw (← inr_inj e) h;
    insert_new = λ row rows e fresh. Has-add_row row rows fresh;
    insert_keeps = λ row old rows h. Has-add_row_old row old rows h;
  }
