-- ===== src/Tests/Triggers.antt =====
-- The theorem on what a price update triggers at a concrete input.
use aegis_oms_rs.Prelude.{ℕ, List, ◌⊎◌, ◌≡◌, refl, [], ◌∷◌, some, none, ◌+ℤ◌, ◌-ℤ◌, inl, inr, arith}
use aegis_oms_rs.Prelude.Eq.{string_eq, nat_eq, ==_iff}
use aegis_oms_rs.Platform.Whole.{whole, some_not_none}
use aegis_oms_rs.Infra.Repository.Memory.{in_memory_stores, in_memory-IsMap}
use aegis_oms_rs.Domain.Status.{Side, can_transition_to}
use aegis_oms_rs.Domain.Error.{ok}
use aegis_oms_rs.Domain.Order.{
  Order, stop, check_trigger, update_trailing_best, best_of, is_trailing_stop,
}
use aegis_oms_rs.Infra.OrderStore.{get_order, find_pending_trigger_orders, filter}
use aegis_oms_rs.Service.OrderService.State.{OrderService}
use aegis_oms_rs.Service.OrderService.Query.{find_pending_trigger_orders_for}
use aegis_oms_rs.Service.Composite.{on_price_update, price_loop, publish_all}
use aegis_oms_rs.Service.Composite.Loop.{IsKeyed, NoDup}
use aegis_oms_rs.Service.Composite.Seen.{Seen}
use aegis_oms_rs.Service.Composite.Stored.{IsProper, IsProper-ListsOnce}
use aegis_oms_rs.Service.Composite.Triggers.{on_price_update-Seen}
use aegis_oms_rs.Service.Composite.Returns.{TrailInRange, on_price_update_returns}
use aegis_oms_rs.Prelude.Tests.{Has}
use aegis_oms_rs.Service.Composite.Live.{accepted_at, reached_stop_accepted}
use aegis_oms_rs.Tests.Fixture.{dec, clock, desk, trailing}

side_cases : (s : Side) → (s ≡ Side.buy) ⊎ (s ≡ Side.sell)
side_cases Side.buy = inl refl
side_cases Side.sell = inr refl

-- The trailing stop order waits for a fall by five from 100.
abbrev waiting : OrderService
waiting = record desk { store = (7, trailing) ∷ [] }

waiting-IsKeyed : IsKeyed waiting.store
unfolding get_order
waiting-IsKeyed id o f = ground (arith, ==_iff 7 id)

waiting-IsProper : IsProper waiting.store
waiting-IsProper = record { distinct = (refl, tt); keyed = waiting-IsKeyed }

fallen : (on_price_update "BTC" (dec 94) clock waiting).0 ≡ ok (7 ∷ [])
unfolding on_price_update price_loop find_pending_trigger_orders_for find_pending_trigger_orders
    filter get_order check_trigger update_trailing_best best_of is_trailing_stop can_transition_to
    publish_all ◌+ℤ◌ ◌-ℤ◌
fallen = refl

on_price_update-Seen_example :
    Seen (dec 94) clock 7 trailing (7 ∷ []) (on_price_update "BTC" (dec 94) clock waiting).1
    × NoDup {A = ℕ} (7 ∷ [])
unfolding get_order
on_price_update-Seen_example =
    on_price_update-Seen "BTC" (dec 94) clock waiting (7 ∷ []) 7 trailing in_memory-IsMap
      (IsProper-ListsOnce waiting.store waiting-IsProper) refl refl refl fallen

trail_fits : (id : ℕ) (o : Order) → get_order id waiting.store ≡ some o → TrailInRange (dec 94) o
unfolding get_order best_of
trail_fits id o f trail k n = elim (side_cases o.side) [
  | inl e ↦ absurd (some_not_none (rw e at n))
  | inr e ↦ absurd (some_not_none (rw e at n))
]

on_price_update_returns_example :
    (triggered : List ℕ) × ((on_price_update "BTC" (dec 94) clock waiting).0 ≡ ok triggered)
on_price_update_returns_example =
    on_price_update_returns in_memory-IsMap "BTC" (dec 94) clock waiting
      (IsProper-ListsOnce waiting.store waiting-IsProper)
      (λ id o f pending instrument. trail_fits id o f)

-- A stop order to sell at 95.
abbrev stopping : Order
stopping = record trailing { order_type = stop (dec 95); best_price = none }

abbrev guarded : OrderService
guarded = record desk { store = (7, stopping) ∷ [] }

guarded-IsKeyed : IsKeyed guarded.store
unfolding get_order
guarded-IsKeyed id o f = ground (arith, ==_iff 7 id)

guarded-IsProper : IsProper guarded.store
guarded-IsProper = record { distinct = (refl, tt); keyed = guarded-IsKeyed }

no_trail : (id : ℕ) (o : Order) → get_order id guarded.store ≡ some o → TrailInRange (dec 94) o
unfolding get_order best_of
no_trail id o f trail k n = elim (side_cases o.side) [
  | inl e ↦ absurd (some_not_none (rw e at n))
  | inr e ↦ absurd (some_not_none (rw e at n))
]

reached_stop_accepted_example :
    let (r, t) = on_price_update "BTC" (dec 94) clock guarded in
    (triggered : List ℕ) × (n : ℕ) × (r ≡ ok triggered)
    × Has 7 triggered
    × (get_order 7 t.store ≡ some (accepted_at (clock n) stopping))
unfolding get_order
reached_stop_accepted_example =
    reached_stop_accepted "BTC" (dec 94) clock guarded 7 stopping (dec 95) in_memory-IsMap
      (IsProper-ListsOnce guarded.store guarded-IsProper)
      (λ id o f pending instrument. no_trail id o f) refl refl refl refl (omega arith)
