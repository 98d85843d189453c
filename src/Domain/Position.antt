-- ===== src/Domain/Position.antt =====
-- src/domain/position.rs: a netted position in one instrument.
pub mod Reduce
use aegis_oms_rs.Prelude.{String, Bool, not}
use aegis_oms_rs.Platform.{Platform}
use aegis_oms_rs.Platform.Decimal.{min, is_zero}
use aegis_oms_rs.Domain.Status.{Side}
use aegis_oms_rs.Domain.Error.{
  Result, ok, Method, add, sub, mul, div, bind, pure, lift, gets, modify, when, ◌>>=◌, ◌>>◌,
}

module _ ⦃P : Platform⦄ where
  pub record Position : Type 0 where
    pub instrument : String
    pub side : Side
    pub quantity : P.Decimal
    pub avg_price : P.Decimal
    pub unrealized_pnl : P.Decimal

  unfoldable pub new : String → Side → P.Decimal → P.Decimal → Position
  new instrument side quantity price = record {
    instrument = instrument;
    side = side;
    quantity = quantity;
    avg_price = price;
    unrealized_pnl = P.zero_value;
  }

  unfoldable pub is_flat : Position → Bool
  is_flat p = is_zero p.quantity

  -- `Position::add`
  unfoldable pub add_fill : P.Decimal → P.Decimal → Method Position (Unit {0})
  add_fill qty price = do
    p ← gets (λ p. p)
    held ← lift (mul p.avg_price p.quantity)
    bought ← lift (mul price qty)
    total_cost ← lift (add held bought)
    quantity ← lift (add p.quantity qty)
    modify (λ p. record p { quantity = quantity })
    when (not (is_zero quantity)) (do
      avg_price ← lift (div total_cost quantity)
      modify (λ p. record p { avg_price = avg_price }))

  -- The profit of closing `qty` at `price`, by the side of the position.
  unfoldable pub pnl_of : Side → P.Decimal → P.Decimal → P.Decimal → Result P.Decimal
  pnl_of Side.buy price avg_price qty = bind (sub price avg_price) (λ d. mul d qty)
  pnl_of Side.sell price avg_price qty = bind (sub avg_price price) (λ d. mul d qty)

  -- `Position::reduce`, which returns the realized profit.
  unfoldable pub reduce : P.Decimal → P.Decimal → Method Position P.Decimal
  unfolding pnl_of
  reduce qty price = do
    p ← gets (λ p. p)
    let close_qty = min qty p.quantity
    pnl ← lift (pnl_of p.side price p.avg_price close_qty)
    quantity ← lift (sub p.quantity close_qty)
    modify (λ p. record p { quantity = quantity })
    when (is_zero quantity) (modify (λ p. record p { avg_price = P.zero_value }))
    pure pnl

  unfoldable pub update_unrealized_pnl : P.Decimal → Method Position (Unit {0})
  unfolding pnl_of
  update_unrealized_pnl market_price = do
    p ← gets (λ p. p)
    pnl ← lift (pnl_of p.side market_price p.avg_price p.quantity)
    modify (λ p. record p { unrealized_pnl = pnl })
