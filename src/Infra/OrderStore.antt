-- ===== src/Infra/OrderStore.antt =====
-- src/infra/order_store.rs: the orders in memory, by identifier.
use aegis_oms_rs.Prelude.{Bool, Option, List, [], ◌∷◌, if◌then◌else◌, String}
use aegis_oms_rs.Prelude.Eq.{◌==◌, string_eq}
use aegis_oms_rs.Prelude.Map.{HashMap, values, get, insert}
use aegis_oms_rs.Platform.{Platform}
use aegis_oms_rs.Domain.Status.{OrderStatus, is_open, status_eq}
use aegis_oms_rs.Domain.Order.{Order}

-- The elements that pass a test, in order.
unfoldable pub filter {ℓ} : {A : Type ℓ} → (A → Bool) → List A → List A
filter p [] = []
filter p (x ∷ xs) = if p x then x ∷ filter p xs else filter p xs

module _ ⦃P : Platform⦄ where
  abbrev pub OrderStore : Type 0
  OrderStore = HashMap P.Ulid Order

  abbrev pub new : OrderStore
  new = []

  unfoldable pub save : Order → OrderStore → OrderStore
  save o store = insert ⦃e = P.ulid_is_eq⦄ o.id o store

  -- `get`, and `get_mut` with the order that is written back.
  unfoldable pub get_order : P.Ulid → OrderStore → Option Order
  get_order id store = get ⦃e = P.ulid_is_eq⦄ id store

  unfoldable pub put_order : P.Ulid → Order → OrderStore → OrderStore
  put_order id o store = insert ⦃e = P.ulid_is_eq⦄ id o store

  unfoldable pub find_by_instrument : String → OrderStore → List Order
  unfolding filter
  find_by_instrument symbol store = filter (λ o. o.instrument == symbol) (values store)

  unfoldable pub find_open_orders : OrderStore → List Order
  unfolding filter
  find_open_orders store = filter (λ o. is_open o.status) (values store)

  unfoldable pub find_pending_trigger_orders : OrderStore → List Order
  unfolding filter
  find_pending_trigger_orders store =
      filter (λ o. o.status == OrderStatus.pending_trigger) (values store)

  unfoldable pub all_orders : OrderStore → List Order
  all_orders store = values store

  unfoldable pub load_all_owned : OrderStore → List Order
  load_all_owned store = values store
