-- ===== src/Tests/Accounts.antt =====
-- The theorems on the account, the margin and the checks at concrete inputs.
use aegis_oms_rs.Prelude.{
  negsuc, ◌*◌, ◌/◌, ◌-◌, some, ◌≡◌, refl, arith, ◌≤ℤ◌, ◌<ℤ◌, pos, ℤ, ◌+ℤ◌, ◌-ℤ◌, ◌*ℤ◌,
}
use aegis_oms_rs.Platform.{unit}
use aegis_oms_rs.Platform.Whole.{whole}
use aegis_oms_rs.Infra.Repository.Memory.{in_memory_stores}
use aegis_oms_rs.Domain.Status.{Side}
use aegis_oms_rs.Domain.Position.{Position}
use aegis_oms_rs.Domain.RiskEngine.StopOut.{stop_price_nonpos}
use aegis_oms_rs.Domain.Error.{ok}
use aegis_oms_rs.Domain.Account.{available_balance, lock_margin, unlock_margin, required_margin}
use aegis_oms_rs.Domain.Account.Solvency.{withdraws, perform, IsSolvent, perform-IsSolvent}
use aegis_oms_rs.Domain.Account.Margin.{unlock-lock, required_margin_nonneg}
use aegis_oms_rs.Domain.RiskEngine.{stop_price}
use aegis_oms_rs.Tests.Fixture.{dec, alice}

perform-IsSolvent_example : IsSolvent (perform (withdraws (dec 500)) alice).1
unfolding ◌-ℤ◌
perform-IsSolvent_example =
    perform-IsSolvent (withdraws (dec 500)) alice (λ b. b) (dec 800, refl)
      (record { locked_nonneg = omega arith; covered = omega arith })

alice_has : available_balance alice ≡ ok (dec 800)
unfolding available_balance ◌-ℤ◌
alice_has = refl

unlock-lock_example :
    (locked back : ℤ) × (lock_margin (dec 300) alice
      ≡ (ok tt, record alice { locked_margin = locked }))
    × (unlock_margin (dec 300) (record alice { locked_margin = locked })
        ≡ (ok tt, record alice { locked_margin = back }))
    × (locked ≡ dec 200 +ℤ dec 300)
    × (back ≡ dec 200)
unfolding ◌+ℤ◌
unlock-lock_example =
    unlock-lock (dec 300) (dec 800) alice (omega arith) alice_has (omega arith) (omega arith)
      (dec 500, refl)

margin_of_two : required_margin (dec 100) (dec 2) (dec 1) ≡ ok (dec 200)
unfolding required_margin ◌*ℤ◌
margin_of_two = refl

required_margin_nonneg_example : (pos 0 <ℤ dec 1) × (pos 0 ≤ℤ dec 200)
required_margin_nonneg_example =
    required_margin_nonneg (dec 100) (dec 2) (dec 1) (dec 200) (omega arith) (omega arith)
      margin_of_two

-- One bought at 1000 with a leverage of one and an equity of 100, at a stop-out ratio of a half.
abbrev long_one : Position
long_one = record {
  instrument = "BTC";
  side = Side.buy;
  quantity = dec 1;
  avg_price = dec 1000;
  unrealized_pnl = dec 0;
}

abbrev half : ℤ
half = pos (unit / 2)

abbrev minus_half : ℤ
minus_half = negsuc (unit / 2 - 1)

-- The price that is computed.
abbrev minus_1800 : ℤ
minus_1800 = negsuc (1800 * unit - 1)

long_price : stop_price half (dec 1) (dec 100) (dec 0) long_one ≡ ok (some minus_1800)
unfolding stop_price ◌-ℤ◌ ◌+ℤ◌ ◌*ℤ◌
long_price = refl

stop_price_nonpos_example : minus_1800 ≤ℤ pos 0
unfolding ◌-ℤ◌ ◌+ℤ◌ ◌*ℤ◌
stop_price_nonpos_example =
    stop_price_nonpos half (dec 1) (dec 100) (dec 0) half minus_half (dec 0)
      (negsuc (100 * unit - 1)) (dec 1000) (dec 900) minus_half minus_1800 long_one refl refl refl
      refl refl refl refl refl (omega arith) (omega arith) (omega arith) long_price
