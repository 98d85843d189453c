-- ===== src/Service/Composite/Visit.antt =====
-- One pass of the loop of `on_price_update`, and what the loop does to each order that it meets.
use aegis_oms_rs.Prelude.{
  ℕ, suc, ◌≡◌, ◌⊎◌, List, ◌∷◌, Option, none, some, arith, inl, inr, Option-cases,
}
use aegis_oms_rs.Platform.{Platform}
use aegis_oms_rs.Infra.Repository.{Stores}
use aegis_oms_rs.Domain.Error.{Result, ok, Result-cases}
use aegis_oms_rs.Domain.Event.{OrderEvent}
use aegis_oms_rs.Domain.Order.{Order, OrderType, check_trigger, update_trailing_best}
use aegis_oms_rs.Service.OrderService.State.{OrderService}
use aegis_oms_rs.Service.Composite.{price_loop}

module _ ⦃P : Platform⦄ where
  -- An order under a price: its best price moves, and its trigger is checked.
  abbrev pub visit : P.Decimal → P.Timestamp → Order → Result (Option OrderType) × Order
  visit price now o = check_trigger price now (update_trailing_best price o)

  pub visit-id :
      (price : P.Decimal) (now : P.Timestamp) (o : Order) → (visit price now o).1.id ≡ o.id
  unfolding check_trigger update_trailing_best
  visit-id price now o = ground arith

module _ ⦃P : Platform⦄ ⦃S : Stores⦄ where
  -- The service with the order as it is left.
  abbrev pub visited : P.Decimal → P.Timestamp → P.Ulid → Order → OrderService → OrderService
  visited price now id o s = record s {
    store = S.orders.put_order id (visit price now o).1 s.store;
  }

  -- The identifier joins the triggered ones.
  abbrev pub joined : Option OrderType → P.Ulid → List P.Ulid → List P.Ulid
  joined none id ids = ids
  joined (some t) id ids = id ∷ ids

  -- A pass that finds its order, and the rest of the loop behind it.
  pub record Pass (price : P.Decimal) (clock : ℕ → P.Timestamp) (id : P.Ulid) (ids : List P.Ulid)
      (s : OrderService) (triggered : List P.Ulid) : Type 0 where
    pub order : Order
    pub found : S.orders.get_order id s.store ≡ some order
    pub exec : Option OrderType
    pub checked : (visit price (clock 0) order).0 ≡ ok exec
    pub later : List P.Ulid
    pub events : List OrderEvent
    pub rest :
        (price_loop price (λ n. clock (suc n)) ids (visited price (clock 0) id order s)).0
        ≡ ok (later, events)
    pub same :
        (price_loop price (λ n. clock (suc n)) ids (visited price (clock 0) id order s)).1
        ≡ (price_loop price clock (id ∷ ids) s).1
    pub list : triggered ≡ joined exec order.id later

  update-id : (price : P.Decimal) (o : Order) → (update_trailing_best price o).id ≡ o.id
  unfolding update_trailing_best
  update-id price o = ground arith

  pub Pass-cases :
      (price : P.Decimal) (clock : ℕ → P.Timestamp) (id : P.Ulid) (ids : List P.Ulid)
      (s : OrderService) (triggered : List P.Ulid) (events : List OrderEvent)
      → (price_loop price clock (id ∷ ids) s).0 ≡ ok (triggered, events)
      → ((S.orders.get_order id s.store ≡ none)
          × (price_loop price (λ n. clock (suc n)) ids s ≡ price_loop price clock (id ∷ ids) s))
        ⊎ Pass price clock id ids s triggered
  unfolding price_loop
  Pass-cases price clock id ids s triggered events e =
      elim (Option-cases (S.orders.get_order id s.store)) [
        | inl n ↦ inl (n, ground arith)
        | inr (o, f) ↦
            let loop = price_loop price (λ n. clock (suc n)) ids in
            let t = visited price (clock 0) id o s in
            elim (Result-cases (visit price (clock 0) o).0) [
              | inl (some x, k) ↦ elim (Result-cases (loop t).0) [
                | inl ((later, es), l) ↦ inr (record {
                  order = o;
                  found = f;
                  exec = some x;
                  checked = k;
                  later = later;
                  events = es;
                  rest = l;
                  same = ground arith;
                  list = ground (arith, update-id price o);
                })
                | inr (inl l) ↦ absurd (ground arith)
                | inr (inr (y, l)) ↦ absurd (ground arith)
              ]
              | inl (none, k) ↦ elim (Result-cases (loop t).0) [
                | inl ((later, es), l) ↦ inr (record {
                  order = o;
                  found = f;
                  exec = none;
                  checked = k;
                  later = later;
                  events = es;
                  rest = l;
                  same = ground arith;
                  list = ground arith;
                })
                | inr (inl l) ↦ absurd (ground arith)
                | inr (inr (y, l)) ↦ absurd (ground arith)
              ]
              | inr (inl k) ↦ absurd (ground arith)
              | inr (inr (y, k)) ↦ absurd (ground arith)
            ]
      ]
