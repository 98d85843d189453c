-- ===== src/Service/Composite/Prices.antt =====
-- What a price update keeps.
use aegis_oms_rs.Prelude.{
  ℕ, suc, ◌≡◌, refl, ap, List, [], ◌∷◌, none, some, String, arith, inl, inr, Option-cases,
}
use aegis_oms_rs.Platform.{Platform}
use aegis_oms_rs.Infra.Repository.{Stores}
use aegis_oms_rs.Domain.Error.{Result-cases, Method, ◌>>=◌, pure}
use aegis_oms_rs.Domain.Event.{OrderEvent}
use aegis_oms_rs.Domain.Order.{Order, check_trigger, update_trailing_best}
use aegis_oms_rs.Service.OrderService.State.{OrderService}
use aegis_oms_rs.Service.OrderService.Query.{find_pending_trigger_orders_for}
use aegis_oms_rs.Service.Composite.{price_loop, on_price_update, trailing_events}

module _ ⦃P : Platform⦄ ⦃S : Stores⦄ where
  -- All but the orders and the events is as before.
  abbrev pub KeepsBooks : OrderService → OrderService → Type 0
  KeepsBooks s t = record t { store = s.store; event_bus = s.event_bus } ≡ s

  bind-KeepsBooks :
      {A B : Type 0} (g : A → B) (s t : OrderService) (m : Method OrderService A)
      → KeepsBooks s (m t).1
      → KeepsBooks s ((m >>= (λ a. pure (g a))) t).1
  bind-KeepsBooks g s t m k = elim (Result-cases (m t).0) [
    | inl (a, e) ↦ ground arith
    | inr (inl e) ↦ ground arith
    | inr (inr (x, e)) ↦ ground arith
  ]

  -- The order as the loop leaves it in the store.
  seen : P.Decimal → P.Timestamp → P.Ulid → Order → OrderService → OrderService
  seen price now id o s = record s {
    store =
        S.orders.put_order id (check_trigger price now (update_trailing_best price o)).1 s.store;
  }

  seen-KeepsBooks :
      (price : P.Decimal) (now : P.Timestamp) (id : P.Ulid) (o : Order) (s t : OrderService)
      → KeepsBooks (seen price now id o s) t
      → KeepsBooks s t
  unfolding seen
  seen-KeepsBooks price now id o s t k = ap {A = OrderService} (λ u. record u { store = s.store }) k

  loop-KeepsBooks :
      (price : P.Decimal) (clock : ℕ → P.Timestamp) (ids : List P.Ulid) (s : OrderService)
      → KeepsBooks s (price_loop price clock ids s).1
  unfolding price_loop seen
  loop-KeepsBooks price clock [] s = refl
  loop-KeepsBooks price clock (id ∷ ids) s = elim (Option-cases (S.orders.get_order id s.store)) [
    | inl e ↦ rw (e, price_loop) (loop-KeepsBooks price (λ n. clock (suc n)) ids s)
    | inr (o, e) ↦
        let o1 = update_trailing_best price o in
        let t = seen price (clock 0) id o s in
        let loop = price_loop price (λ n. clock (suc n)) ids in
        let rest =
          seen-KeepsBooks price (clock 0) id o s (loop t).1
            (loop-KeepsBooks price (λ n. clock (suc n)) ids t) in
        elim (Result-cases (check_trigger price (clock 0) o1).0) [
          | inl (some x, k) ↦
              rw (e, k, price_loop)
                (bind-KeepsBooks (λ r. (o1.id ∷ r.0, OrderEvent.stop_triggered o1.id price ∷ r.1)) s
                  t loop rest)
          | inl (none, k) ↦
              rw (e, k, price_loop)
                (bind-KeepsBooks (λ r. (r.0, trailing_events o1 r.1)) s t loop rest)
          | inr (inl k) ↦ rw (e, k, price_loop) refl
          | inr (inr (x, k)) ↦ rw (e, k, price_loop) refl
        ]
  ]

  -- Whatever its outcome, a price update changes no more than the orders and what has been
  -- published: account, positions, margin locks, trades and losses are as before.
  pub on_price_update-KeepsBooks :
      (symbol : String) (price : P.Decimal) (clock : ℕ → P.Timestamp) (s : OrderService)
      → KeepsBooks s (on_price_update symbol price clock s).1
  unfolding on_price_update
  on_price_update-KeepsBooks symbol price clock s =
      ground (arith, loop-KeepsBooks price clock (find_pending_trigger_orders_for symbol s) s)
