-- ===== src/Tests/Watch.antt =====
-- The theorem on the margin monitor at a concrete input.
use aegis_oms_rs.Prelude.{◌≡◌, ◌≢◌, ◌∙◌, refl, sym, ap, ℕ, [], ◌∷◌, ◌+ℤ◌, ◌-ℤ◌, ◌*ℤ◌}
use aegis_oms_rs.Platform.Whole.{whole}
use aegis_oms_rs.Infra.Repository.Memory.{in_memory_stores}
use aegis_oms_rs.Domain.Error.{ok, Result}
use aegis_oms_rs.Domain.RiskEngine.{
  MarginLevel, MarginStatus, Prices, calculate, sum_from, pnl_at, margin_of, ratio_of, notional_of,
  leverage_of, level_of,
}
use aegis_oms_rs.Domain.Position.{pnl_of}
use aegis_oms_rs.Service.OrderService.Query.{get_positions}
use aegis_oms_rs.Service.MarginMonitor.{Watch, check, leverages_of}
use aegis_oms_rs.Service.MarginMonitor
use aegis_oms_rs.Service.MarginMonitor.Latched.{
  IsNotNormal, status_of, here, checks, check_latched, stop_out_latched,
}
use aegis_oms_rs.Tests.Fixture.{dec, clock, desk}

-- A monitor that has reacted to a stop-out.
abbrev watch : Watch
watch = record {
  monitor = record (MarginMonitor.new (dec 100) (dec 50)) { last_level = MarginLevel.stop_out };
  orders = desk;
}

abbrev LevelIs : MarginLevel → Result MarginStatus → Type 0
LevelIs l r = (x : MarginStatus) × (r ≡ ok x) × (x.level ≡ l)

abbrev risen : Prices
risen = ("BTC", dec 300) ∷ []

risen_level : LevelIs MarginLevel.margin_call (status_of risen watch)
unfolding calculate sum_from get_positions pnl_at pnl_of margin_of leverages_of ratio_of notional_of
    leverage_of level_of MarginMonitor.new ◌+ℤ◌ ◌*ℤ◌ ◌-ℤ◌
risen_level = (_, refl, refl)

abbrev fallen : Prices
fallen = ("BTC", dec 600) ∷ []

fallen_level : LevelIs MarginLevel.stop_out (status_of fallen watch)
unfolding calculate sum_from get_positions pnl_at pnl_of margin_of leverages_of ratio_of notional_of
    leverage_of level_of MarginMonitor.new ◌+ℤ◌ ◌*ℤ◌ ◌-ℤ◌
fallen_level = (_, refl, refl)

not_normal :
    (l : MarginLevel) (marks : Prices)
    → l ≢ MarginLevel.normal
    → LevelIs l (status_of marks watch)
    → IsNotNormal marks watch
not_normal l marks n (y, e, k) x f m =
    let same : x ≡ y = cc in n (sym k ∙ ap (λ z. z.level) (sym same) ∙ m)

risen-IsNotNormal : IsNotNormal risen watch
risen-IsNotNormal = not_normal MarginLevel.margin_call risen (λ e. cc) risen_level

abbrev ids : ℕ → ℕ
ids n = n

abbrev clocks : ℕ → ℕ → ℕ
clocks n = clock

-- The level rises from StopOut to MarginCall.
abbrev risen_watch : Watch
risen_watch = (check ids clocks risen watch).1

unmoved : risen_watch ≡ watch
unfolding MarginMonitor.new
unmoved = check_latched ids clocks risen watch refl risen-IsNotNormal

fallen-IsNotNormal : IsNotNormal fallen risen_watch
fallen-IsNotNormal x e =
    not_normal MarginLevel.stop_out fallen (λ e. cc) fallen_level x
      (ap (status_of fallen) (sym unmoved) ∙ e)

-- It falls to StopOut again, and the monitor does nothing.
stop_out_latched_example :
    (risen_watch.monitor ≡ watch.monitor) × ((check ids clocks fallen risen_watch).1 ≡ risen_watch)
unfolding MarginMonitor.new
stop_out_latched_example =
    stop_out_latched ids clocks fallen refl (checks here ids clocks risen risen-IsNotNormal)
      fallen-IsNotNormal
