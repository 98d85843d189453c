-- ===== src/Infra/PgOrder/Database.antt =====
-- The table `orders` as the statements of src/infra/pg_order_repo.rs see it: PostgreSQL behind
-- sqlx, as an interface. The texts of the statements say which columns a conflict updates; the
-- laws say what PostgreSQL documents of them.
use aegis_oms_rs.Prelude.{
  String, ◌≡◌, ◌≢◌, Option, none, some, List, [], ◌∷◌, ◌⊎◌, inl, inr, if◌then◌else◌,
}
use aegis_oms_rs.Prelude.Eq.{◌==◌, string_eq}
use aegis_oms_rs.Platform.{Platform}
use aegis_oms_rs.Infra.PgOrder.{OrderRow}

module _ ⦃P : Platform⦄ where
  abbrev pub find_row : String → List OrderRow → Option OrderRow
  find_row id [] = none
  find_row id (r ∷ rows) = if r.id == id then some r else find_row id rows

  pub record OrderTable : Type 1 where
    pub Db : Type 0
    -- A TIMESTAMPTZ holds microseconds.
    pub micros : P.Timestamp → P.Timestamp
    -- INSERT INTO orders .. ON CONFLICT (id) DO UPDATE SET status, filled_quantity, best_price,
    -- updated_at: the text of an error, or done.
    pub insert_order : OrderRow → Db → (String ⊎ Unit {0}) × Db
    -- SELECT .. WHERE id = $1
    pub select_order : String → Db → String ⊎ Option OrderRow
    -- SELECT .., and with WHERE status = 'pending_trigger'
    pub select_orders : Db → String ⊎ List OrderRow
    pub select_pending : Db → String ⊎ List OrderRow
    -- The row with a primary key.
    pub row_at : Db → String → Option OrderRow
    -- A statement that fails changes nothing.
    pub insert_failed :
        (row : OrderRow) (db : Db) (e id : String)
        → (insert_order row db).0 ≡ inl e
        → row_at (insert_order row db).1 id ≡ row_at db id
    pub insert_new :
        (row : OrderRow) (db : Db)
        → (insert_order row db).0 ≡ inr tt
        → row_at db row.id ≡ none
        → row_at (insert_order row db).1 row.id
          ≡ some (record row {
            created_at = micros row.created_at;
            updated_at = micros row.updated_at;
          })
    -- A trigger of the table sets updated_at to the time of the update.
    pub insert_conflict :
        (row old : OrderRow) (db : Db)
        → (insert_order row db).0 ≡ inr tt
        → row_at db row.id ≡ some old
        → (now : P.Timestamp) × (row_at (insert_order row db).1 row.id
            ≡ some (record old {
              status = row.status;
              filled_quantity = row.filled_quantity;
              best_price = row.best_price;
              updated_at = now;
            }))
    pub insert_other :
        (row : OrderRow) (db : Db) (id : String)
        → id ≢ row.id
        → row_at (insert_order row db).1 id ≡ row_at db id
    pub select_lem :
        (id : String) (db : Db) (r : Option OrderRow)
        → select_order id db ≡ inr r
        → r ≡ row_at db id
    pub select_all_lem :
        (id : String) (db : Db) (rows : List OrderRow)
        → select_orders db ≡ inr rows
        → find_row id rows ≡ row_at db id
