-- ===== src/Service/Composite/Returns.antt =====
-- A price update returns unless a trailing trigger is out of range.
use aegis_oms_rs.Prelude.{
  ℕ, suc, String, ◌≡◌, ◌≢◌, refl, sym, ◌∙◌, List, [], ◌∷◌, Option, none, some, arith, inl, inr,
  Option-cases,
}
use aegis_oms_rs.Prelude.Eq.{string_eq}
use aegis_oms_rs.Platform.{Platform}
use aegis_oms_rs.Domain.Status.{OrderStatus, status_eq, can_transition_to}
use aegis_oms_rs.Domain.Error.{ok, panic, Result-cases}
use aegis_oms_rs.Domain.Event.{OrderEvent}
use aegis_oms_rs.Domain.Order.{
  Order, OrderType, market, limit, stop, stop_limit, trailing_stop, check_trigger,
  update_trailing_best, best_of, is_trailing_stop,
}
use aegis_oms_rs.Domain.Order.Trigger.{trigger_at}
use aegis_oms_rs.Prelude.Tests.{Has}
use aegis_oms_rs.Infra.Repository.{Stores, IsMap}
use aegis_oms_rs.Service.OrderService.State.{OrderService}
use aegis_oms_rs.Service.OrderService.Query.{find_pending_trigger_orders_for}
use aegis_oms_rs.Service.Composite.{on_price_update, price_loop}
use aegis_oms_rs.Service.Composite.Visit.{visit, visited}
use aegis_oms_rs.Service.Composite.Loop.{NoDup, get-visited_other}
use aegis_oms_rs.Service.Composite.Pending.{ListsOnce, pending_once, listed_pending}

module _ ⦃P : Platform⦄ where
  -- The trigger of a trailing order is a Decimal, once its best price has followed the price.
  abbrev pub TrailInRange : P.Decimal → Order → Type 0
  TrailInRange price o =
      (trail : P.Decimal)
      → o.order_type ≡ trailing_stop trail
      → trigger_at o.side (best_of o.side o.best_price price) trail ≢ none

  abbrev Returns : P.Decimal → Order → Type 0
  Returns price o = (now : P.Timestamp) → (x : Option OrderType) × ((visit price now o).0 ≡ ok x)

  no_panic :
      (price : P.Decimal) (o : Order)
      → o.status ≡ OrderStatus.pending_trigger
      → TrailInRange price o
      → (now : P.Timestamp) (t : OrderType) → o.order_type ≡ t
      → (visit price now o).0 ≢ panic
  unfolding check_trigger update_trailing_best can_transition_to is_trailing_stop
  no_panic price o pending range now market k e = absurd (ground arith)
  no_panic price o pending range now (limit p) k e = absurd (ground arith)
  no_panic price o pending range now (stop trigger) k e = absurd (ground arith)
  no_panic price o pending range now (stop_limit trigger p) k e = absurd (ground arith)
  no_panic price o pending range now (trailing_stop trail) k e =
      let fits = range trail k in
      elim (Option-cases (trigger_at o.side (best_of o.side o.best_price price) trail)) [
        | inl n ↦ absurd (fits n)
        | inr (c, f) ↦ absurd (ground arith)
      ]

  visit-Returns :
      (price : P.Decimal) (o : Order)
      → o.status ≡ OrderStatus.pending_trigger
      → TrailInRange price o
      → Returns price o
  unfolding check_trigger update_trailing_best can_transition_to is_trailing_stop best_of
  visit-Returns price o pending range now = elim (Result-cases (visit price now o).0) [
    | inl (x, e) ↦ (x, e)
    | inr (inl e) ↦ absurd (no_panic price o pending range now o.order_type refl e)
    | inr (inr (y, e)) ↦ absurd (ground arith)
  ]

module _ ⦃P : Platform⦄ ⦃S : Stores⦄ (laws : IsMap S.orders) where
  -- The loop returns where each order that it finds can be visited.
  loop-Returns :
      (price : P.Decimal) (clock : ℕ → P.Timestamp) (ids : List P.Ulid) (s : OrderService)
      → NoDup ids
      → ((id : P.Ulid) (o : Order)
          → Has id ids
          → S.orders.get_order id s.store ≡ some o
          → Returns price o)
      → (out : List P.Ulid × List OrderEvent) × ((price_loop price clock ids s).0 ≡ ok out)
  unfolding price_loop
  loop-Returns price clock [] s once visits = (([], []), refl)
  loop-Returns price clock (id ∷ ids) s once visits =
      elim (Option-cases (S.orders.get_order id s.store)) [
        | inl n ↦
            let (out, e) =
              loop-Returns price (λ m. clock (suc m)) ids s once.1
                (λ j o h f. visits j o (inr h) f) in
            (out, ground arith)
        | inr (o, f) ↦
            let t = visited price (clock 0) id o s in
            let (out, e) =
              loop-Returns price (λ m. clock (suc m)) ids t once.1
                (λ j p h g. visits j p (inr h) (
                  sym (
                    get-visited_other laws price (clock 0) id j o s
                      (λ same. once.0 (rw (← same) at h)))
                  ∙ g)) in
            let (x, k) = visits id o (inl refl) f (clock 0) in
            elim (Result-cases (price_loop price clock (id ∷ ids) s).0) [
              | inl done ↦ done
              | inr (inl l) ↦
                  absurd
                    (elim (Option-cases x) [ inl n ↦ ground arith | inr (y, n) ↦ ground arith ])
              | inr (inr (z, l)) ↦
                  absurd
                    (elim (Option-cases x) [ inl n ↦ ground arith | inr (y, n) ↦ ground arith ])
            ]
      ]

  -- Over a repository that is a map from identifiers to orders, finds each under its own identifier
  -- alone and lists none that waits for its trigger twice, a price update returns if the
  -- trigger of each pending trailing order of its symbol is in range.
  pub on_price_update_returns :
      (symbol : String) (price : P.Decimal) (clock : ℕ → P.Timestamp) (s : OrderService)
      → ListsOnce s.store
      → ((id : P.Ulid) (o : Order)
          → S.orders.get_order id s.store ≡ some o
          → o.status ≡ OrderStatus.pending_trigger
          → o.instrument ≡ symbol
          → TrailInRange price o)
      → (triggered : List P.Ulid) × ((on_price_update symbol price clock s).0 ≡ ok triggered)
  unfolding on_price_update
  on_price_update_returns symbol price clock s lists range =
      let ids = find_pending_trigger_orders_for symbol s in
      let (out, e) = loop-Returns price clock ids s (pending_once laws symbol s lists) (λ id o h f.
        let (pending, instrument) = listed_pending laws symbol s lists id o h f in
        visit-Returns price o pending (range id o f pending instrument)) in
      (out.0, ground arith)
