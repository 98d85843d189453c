-- ===== src/Infra/PgTrade/Repository.antt =====
-- PgTradeRepository and PgAccountRepository over the tables `trades` and `accounts`, which are an
-- interface: PostgreSQL behind sqlx, by the texts of the statements.
use aegis_oms_rs.Prelude.{String, ◌≡◌, ◌≢◌, Option, none, some, List, [], ◌⊎◌, inr}
use aegis_oms_rs.Platform.{Platform}
use aegis_oms_rs.Platform.Text.{Texts}
use aegis_oms_rs.Domain.Error.{Result, ok, Method, bind}
use aegis_oms_rs.Domain.Event.{Trade}
use aegis_oms_rs.Domain.Account.{Account}
use aegis_oms_rs.Prelude.Tests.{Has}
use aegis_oms_rs.Infra.PgOrder.{or_database}
use aegis_oms_rs.Infra.PgTrade.{TradeRow, AccountRow, row_to_account, trade_row, trades_of}

module _ ⦃P : Platform⦄ where
  pub record TradeTable : Type 1 where
    pub Db : Type 0
    -- A TIMESTAMPTZ holds microseconds.
    pub micros : P.Timestamp → P.Timestamp
    -- INSERT INTO trades .. ON CONFLICT (id) DO NOTHING
    pub insert_trade : TradeRow → Db → (String ⊎ Unit {0}) × Db
    -- SELECT .. FROM trades ORDER BY executed_at DESC
    pub select_trades : Db → String ⊎ List TradeRow
    -- The rows of the table, in some order.
    pub rows : Db → List TradeRow
    pub select_lem :
        (db : Db) (rs : List TradeRow) (row : TradeRow)
        → select_trades db ≡ inr rs
        → Has row (rows db)
        → Has row rs
    pub insert_new :
        (row : TradeRow) (db : Db)
        → (insert_trade row db).0 ≡ inr tt
        → ((old : TradeRow) → Has old (rows db) → old.id ≢ row.id)
        → Has (record row { executed_at = micros row.executed_at }) (rows (insert_trade row db).1)
    -- What is in the table stays there.
    pub insert_keeps :
        (row old : TradeRow) (db : Db) → Has old (rows db) → Has old (rows (insert_trade row db).1)

  pub record AccountTable : Type 1 where
    pub Accounts : Type 0
    -- INSERT INTO accounts .. ON CONFLICT (id) DO UPDATE SET balance, locked_margin, updated_at
    pub insert_account : AccountRow → Accounts → (String ⊎ Unit {0}) × Accounts
    -- SELECT .. FROM accounts WHERE id = $1
    pub select_account : String → Accounts → String ⊎ Option AccountRow

  -- `PgAccountRepository` is a pool: the table's state.
  module _ (D : AccountTable) where
    -- The values that the statement binds.
    abbrev account_row : Account → AccountRow
    account_row account = record {
      id = account.id;
      name = account.name;
      balance = account.balance;
      locked_margin = account.locked_margin;
      created_at = account.created_at;
    }

    unfoldable pub save_account : Account → Method D.Accounts (Unit {0})
    save_account account db =
        let (outcome, db') = D.insert_account (account_row account) db in (or_database outcome, db')

    abbrev account_of : Option AccountRow → Option Account
    account_of none = none
    account_of (some row) = some (row_to_account row)

    unfoldable pub load_account : String → D.Accounts → Result (Option Account)
    unfolding row_to_account
    load_account id db = bind (or_database (D.select_account id db)) (λ row. ok (account_of row))

  module _ ⦃T : Texts⦄ (D : TradeTable) where
    -- `PgTradeRepository` is a pool, too.
    unfoldable pub load_all : D.Db → Result (List Trade)
    unfolding trades_of
    load_all db = bind (or_database (D.select_trades db)) (λ rows. ok (trades_of rows))

    unfoldable pub save_trade : Trade → Method D.Db (Unit {0})
    unfolding trade_row
    save_trade trade db =
        let (outcome, db') = D.insert_trade (trade_row trade) db in (or_database outcome, db')

    -- `all` and `by_instrument` warn and give no trades.
    unfoldable pub all_trades : D.Db → List Trade
    all_trades db = []

    unfoldable pub trades_by_instrument : String → D.Db → List Trade
    trades_by_instrument symbol db = []

    unfoldable pub load_all_trades : D.Db → Result (List Trade)
    unfolding load_all
    load_all_trades db = load_all db
