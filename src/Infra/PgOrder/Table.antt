-- ===== src/Infra/PgOrder/Table.antt =====
-- A table in memory: it shows that the interface's laws can hold together, and the tests run on it.
use aegis_oms_rs.Prelude.{
  String, ◌≡◌, ◌≢◌, refl, sym, none, some, List, [], ◌∷◌, ◌⊎◌, inl, inr, if◌then◌else◌, arith,
}
use aegis_oms_rs.Prelude.Eq.{◌==◌, ==_iff, string_eq}
use aegis_oms_rs.Platform.{Platform}
use aegis_oms_rs.Infra.PgOrder.{OrderRow}
use aegis_oms_rs.Infra.PgOrder.Database.{OrderTable, find_row}

module _ ⦃P : Platform⦄ where
  abbrev pub upsert : OrderRow → List OrderRow → List OrderRow
  upsert row [] = row ∷ []
  upsert row (r ∷ rows) =
      if r.id == row.id
      then record r {
        status = row.status;
        filled_quantity = row.filled_quantity;
        best_price = row.best_price;
        updated_at = row.updated_at;
      }
        ∷ rows
      else r ∷ upsert row rows

  abbrev pub pending_rows : List OrderRow → List OrderRow
  pending_rows [] = []
  pending_rows (r ∷ rows) =
      if r.status == "pending_trigger" then r ∷ pending_rows rows else pending_rows rows

  pub find-upsert_new :
      (row : OrderRow) (rows : List OrderRow)
      → find_row row.id rows ≡ none
      → find_row row.id (upsert row rows) ≡ some row
  find-upsert_new row [] e = ground (arith, ==_iff row.id row.id)
  find-upsert_new row (r ∷ rows) e = ground (arith, find-upsert_new row rows)

  pub find-upsert_old :
      (row old : OrderRow) (rows : List OrderRow)
      → find_row row.id rows ≡ some old
      → find_row row.id (upsert row rows)
        ≡ some (record old {
          status = row.status;
          filled_quantity = row.filled_quantity;
          best_price = row.best_price;
          updated_at = row.updated_at;
        })
  find-upsert_old row old [] e = cc
  find-upsert_old row old (r ∷ rows) e = ground (arith, find-upsert_old row old rows)

  pub find-upsert_other :
      (row : OrderRow) (id : String) (rows : List OrderRow)
      → id ≢ row.id
      → find_row id (upsert row rows) ≡ find_row id rows
  find-upsert_other row id [] n = ground (arith, ==_iff row.id id)
  find-upsert_other row id (r ∷ rows) n =
      ground (arith, ==_iff r.id id, ==_iff r.id row.id, find-upsert_other row id rows)

  pub inr_inj : {A : Type 0} {a b : A} → ◌≡◌ {A = String ⊎ A} (inr a) (inr b) → a ≡ b
  inr_inj e = cc

  pub inr_not_inl : {A : Type 0} {a : A} {e : String} → ¬ (◌≡◌ {A = String ⊎ A} (inr a) (inl e))
  inr_not_inl k = cc

  abbrev pub rows_table : OrderTable
  rows_table = record {
    Db = List OrderRow;
    micros = λ t. t;
    insert_order = λ row rows. (inr tt, upsert row rows);
    select_order = λ id rows. inr (find_row id rows);
    select_orders = λ rows. inr rows;
    select_pending = λ rows. inr (pending_rows rows);
    row_at = λ rows id. find_row id rows;
    insert_failed = λ row rows e id k. absurd (inr_not_inl k);
    insert_new = λ row rows e n. find-upsert_new row rows n;
    insert_conflict = λ row old rows e h. (row.updated_at, find-upsert_old row old rows h);
    insert_other = λ row rows id n. find-upsert_other row id rows n;
    select_lem = λ id rows r e. sym (inr_inj e);
    select_all_lem = λ id rows rs e. rw (inr_inj e) refl;
  }
