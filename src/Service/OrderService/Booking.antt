-- ===== src/Service/OrderService/Booking.antt =====
-- The booking of a fill, where it fails behind the position.
use aegis_oms_rs.Prelude.{◌≡◌, pos, ◌+ℤ◌, ◌≤ℤ◌, Option, none, some, arith}
use aegis_oms_rs.Prelude.Eq.{string_eq}
use aegis_oms_rs.Platform.{Platform}
use aegis_oms_rs.Domain.Error.{Result, ok}
use aegis_oms_rs.Domain.Order.{Order}
use aegis_oms_rs.Infra.Repository.{Stores}
use aegis_oms_rs.Service.OrderService.State.{OrderService}
use aegis_oms_rs.Service.OrderService.Fill.{
  update_position_with_pnl, book_fill, book_loss, check_loss,
}
use aegis_oms_rs.Service.OrderService.Exposure.{
  exposure, signed, HeldNonneg, ExactOn, update_position_exposure,
}

module _ ⦃P : Platform⦄ ⦃S : Stores⦄ where
  loss-positions :
      (r : Option P.Decimal) (s : OrderService) → (book_loss r s).1.positions ≡ s.positions
  unfolding book_loss
  loss-positions none s = ground arith
  loss-positions (some x) s = ground arith

  check-positions : (s : OrderService) → (check_loss s).1.positions ≡ s.positions
  unfolding check_loss
  check-positions s = ground arith

  module _ (trade_id : P.Ulid) (now : P.Timestamp) (id : P.Ulid) (qty price : P.Decimal) (o : Order)
      (s : OrderService) where
    -- The update of the position that the booking makes.
    abbrev pub updating : Result (Option P.Decimal) × OrderService
    updating = update_position_with_pnl o.instrument o.side qty price s

    book-positions :
        (r : Option P.Decimal)
        → updating.0 ≡ ok r
        → (book_fill trade_id now id qty price o s).1.positions ≡ updating.1.positions
    unfolding book_fill
    book-positions r e =
        let t = updating.1 in
        let u = (book_loss r t).1 in ground (arith, loss-positions r t, check-positions u)

    -- Where the update of the position succeeds, the booking of a fill moves the exposure in the
    -- order's instrument by exactly its signed quantity, even if it then fails, because the loss
    -- limit is exceeded or the trade repository turns the trade down. The quantities are not
    -- negative, and their sums and differences are represented exactly.
    pub exposure-book_fill :
        (r : Option P.Decimal)
        → pos 0 ≤ℤ P.units qty
        → HeldNonneg o.instrument s
        → ExactOn o.instrument qty s
        → updating.0 ≡ ok r
        → exposure o.instrument (book_fill trade_id now id qty price o s).1
          ≡ exposure o.instrument s +ℤ signed o.side (P.units qty)
    exposure-book_fill r hq held exact e =
        rw (book-positions r e)
          (update_position_exposure o.instrument o.side qty price s hq held exact e)
