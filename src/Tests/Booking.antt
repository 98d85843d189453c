-- ===== src/Tests/Booking.antt =====
-- The theorem on the booking of a fill at a concrete input: the loss limit is exceeded.
use aegis_oms_rs.Prelude.{◌≡◌, refl, some, false, ◌+ℤ◌, ◌-ℤ◌, ◌*ℤ◌, arith}
use aegis_oms_rs.Platform.Whole.{whole}
use aegis_oms_rs.Infra.Repository.{is_ok}
use aegis_oms_rs.Infra.Repository.Memory.{in_memory_stores}
use aegis_oms_rs.Domain.Error.{ok}
use aegis_oms_rs.Domain.Account.{apply_realized_pnl}
use aegis_oms_rs.Domain.Position.{reduce, pnl_of, is_flat}
use aegis_oms_rs.Service.RiskCheck.{default_limits}
use aegis_oms_rs.Service.OrderService.State.{OrderService}
use aegis_oms_rs.Service.OrderService.Fill.{
  update_position_with_pnl, close_against, book_fill, book_loss, check_loss,
}
use aegis_oms_rs.Service.OrderService.Exposure.{exposure, HeldNonneg, ExactOn, ExactFill}
use aegis_oms_rs.Service.OrderService.Booking.{updating, exposure-book_fill}
use aegis_oms_rs.Tests.Fixture.{dec, resting, short, desk}

-- A service that allows losses of ten.
abbrev strict : OrderService
strict = record desk { limits = record default_limits { max_loss = some (dec 10) } }

two_exact : ExactFill (dec 3) (dec 2)
unfolding ◌+ℤ◌ ◌-ℤ◌
two_exact = ((dec 5, refl), (dec 1, refl), (dec 2 -ℤ dec 3, refl))

short_held : HeldNonneg "BTC" strict
short_held p e = let same : short ≡ p = cc in rw (← same) (omega arith)

short_exact : ExactOn "BTC" (dec 2) strict
short_exact p e = let same : short ≡ p = cc in rw (← same) two_exact

shrunk : (updating 9 5 7 (dec 2) (dec 130) resting strict).0 ≡ ok (some (dec 0 -ℤ dec 20))
unfolding update_position_with_pnl close_against reduce pnl_of is_flat ◌-ℤ◌ ◌+ℤ◌ ◌*ℤ◌
    apply_realized_pnl
shrunk = refl

-- The call fails.
too_much : is_ok (book_fill 9 5 7 (dec 2) (dec 130) resting strict).0 ≡ false
unfolding book_fill update_position_with_pnl close_against reduce pnl_of is_flat ◌-ℤ◌ ◌+ℤ◌ ◌*ℤ◌
    apply_realized_pnl book_loss check_loss default_limits
too_much = refl

-- The short of three is a short of one all the same.
exposure-book_fill_example :
    exposure "BTC" (book_fill 9 5 7 (dec 2) (dec 130) resting strict).1
    ≡ exposure "BTC" strict +ℤ dec 2
exposure-book_fill_example =
    exposure-book_fill 9 5 7 (dec 2) (dec 130) resting strict (some (dec 0 -ℤ dec 20)) (omega arith)
      short_held short_exact shrunk
