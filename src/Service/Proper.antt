-- ===== src/Service/Proper.antt =====
-- What the calls of the order service keep of its repository of orders: whatever writing back an
-- order that was found, and for a submission also saving one, keeps.
pub mod Calls
pub mod Fills
pub mod Reachable
pub mod Found
pub mod Memory
pub mod Postgres
use aegis_oms_rs.Prelude.{
  ◌≡◌, refl, sym, ap, ◌∙◌, Option, none, some, [], arith, inl, inr, Option-cases, Bool-cases,
  some_inj,
}
use aegis_oms_rs.Prelude.Eq.{==_iff}
use aegis_oms_rs.Prelude.Map.{get-insert}
use aegis_oms_rs.Prelude.Map.Sum.{insert-IsDistinct}
use aegis_oms_rs.Platform.{Platform}
use aegis_oms_rs.Infra.Repository.{Stores}
use aegis_oms_rs.Domain.Error.{Result, Method}
use aegis_oms_rs.Domain.Method.{Leads}
use aegis_oms_rs.Domain.Order.{Order}
use aegis_oms_rs.Infra.OrderStore.{OrderStore, save, get_order, put_order}
use aegis_oms_rs.Service.OrderService.State.{OrderService, on_order}
use aegis_oms_rs.Service.Composite.Loop.{ulid_cases, IsKeyed}
use aegis_oms_rs.Service.Composite.Stored.{IsProper}

module _ ⦃P : Platform⦄ ⦃S : Stores⦄ (I : S.Orders → Type 0) where
  -- Writing back an order that was found, with its identifier, keeps `I`.
  abbrev pub PutKeeps : Type 0
  PutKeeps =
      (id : P.Ulid) (o o' : Order) (r : S.Orders)
      → S.orders.get_order id r ≡ some o
      → o'.id ≡ o.id
      → I r
      → I (S.orders.put_order id o' r)

  -- Saving an order keeps it, whatever the outcome.
  abbrev pub SaveKeeps : Type 0
  SaveKeeps = (o : Order) (r : S.Orders) → I r → I (S.orders.save o r).1

  abbrev pub Keeps : {A : Type 0} → Method OrderService A → Type 0
  Keeps m = Leads (λ s. I s.store) (λ s. I s.store) m

  pub same_store :
      {A : Type 0} (m : Method OrderService A)
      → ((s : OrderService) → (m s).1.store ≡ s.store)
      → Keeps m
  same_store m same s kept = rw (same s) kept
