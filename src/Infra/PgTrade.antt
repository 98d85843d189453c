-- ===== src/Infra/PgTrade.antt =====
-- src/infra/pg_trade_repo.rs and pg_account_repo.rs: trades and the account in PostgreSQL.
pub mod Repository
pub mod History
pub mod Table
use aegis_oms_rs.Prelude.{
  String, ◌≡◌, Option, none, some, if◌then◌else◌, List, [], ◌∷◌, ◌⊎◌, inl, inr,
}
use aegis_oms_rs.Prelude.Eq.{◌==◌, string_eq}
use aegis_oms_rs.Platform.{Platform}
use aegis_oms_rs.Platform.Text.{Texts}
use aegis_oms_rs.Domain.Status.{Side}
use aegis_oms_rs.Domain.Error.{Result, ok, err, panic, Method, risk_check_failed, database}
use aegis_oms_rs.Domain.Event.{Trade}
use aegis_oms_rs.Domain.Account.{Account}
use aegis_oms_rs.Infra.PgOrder.{side_to_str, str_to_side, ◌>>=◌, or_database}

module _ ⦃P : Platform⦄ where
  pub record TradeRow : Type 0 where
    pub id : String
    pub order_id : String
    pub instrument : String
    pub side : String
    pub quantity : P.Decimal
    pub price : P.Decimal
    pub realized_pnl : Option P.Decimal
    pub executed_at : P.Timestamp

  pub record AccountRow : Type 0 where
    pub id : String
    pub name : String
    pub balance : P.Decimal
    pub locked_margin : P.Decimal
    pub created_at : P.Timestamp

  unfoldable pub row_to_account : AccountRow → Account
  row_to_account row = record {
    id = row.id;
    name = row.name;
    balance = row.balance;
    locked_margin = row.locked_margin;
    created_at = row.created_at;
  }

  module _ ⦃T : Texts⦄ where
    unfoldable pub row_to_trade : TradeRow → Option Trade
    unfolding str_to_side
    row_to_trade row = do
      side ← str_to_side row.side
      id ← T.ulid_from_string row.id
      order_id ← T.ulid_from_string row.order_id
      some (record {
        id = id;
        order_id = order_id;
        instrument = row.instrument;
        side = side;
        quantity = row.quantity;
        price = row.price;
        realized_pnl = row.realized_pnl;
        executed_at = row.executed_at;
      })

    -- The values that `save` binds.
    unfoldable pub trade_row : Trade → TradeRow
    unfolding side_to_str
    trade_row t = record {
      id = T.ulid_text t.id;
      order_id = T.ulid_text t.order_id;
      instrument = t.instrument;
      side = side_to_str t.side;
      quantity = t.quantity;
      price = t.price;
      realized_pnl = t.realized_pnl;
      executed_at = t.executed_at;
    }

    unfoldable pub trades_of : List TradeRow → List Trade
    trades_of [] = []
    trades_of (r ∷ rows) = elim (row_to_trade r) [
      | none ↦ trades_of rows
      | some t ↦ t ∷ trades_of rows
    ]
