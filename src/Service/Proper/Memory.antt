-- ===== src/Service/Proper/Memory.antt =====
-- In memory, each order is kept once, under its own identifier.
use aegis_oms_rs.Prelude.{◌≡◌, ◌∙◌, refl, sym, some, some_inj, List, inl, inr, Bool-cases}
use aegis_oms_rs.Prelude.Map.{get-insert}
use aegis_oms_rs.Prelude.Map.Sum.{insert-IsDistinct}
use aegis_oms_rs.Platform.{Platform}
use aegis_oms_rs.Domain.Order.{Order}
use aegis_oms_rs.Domain.Account.{Account}
use aegis_oms_rs.Domain.Instrument.{Instrument}
use aegis_oms_rs.Infra.EventBus.{EventBus}
use aegis_oms_rs.Infra.OrderStore.{OrderStore, save, get_order, put_order}
use aegis_oms_rs.Infra.Repository.Memory.{in_memory_stores}
use aegis_oms_rs.Service.RiskCheck.{RiskLimits}
use aegis_oms_rs.Service.OrderService.State.{OrderService, new, with_repos}
use aegis_oms_rs.Service.Composite.Loop.{IsKeyed}
use aegis_oms_rs.Service.Composite.Stored.{IsProper}
use aegis_oms_rs.Service.Proper.Reachable.{Steps, Steps-Keeps}

module _ ⦃P : Platform⦄ where
  put-IsKeyed :
      (id : P.Ulid) (o : Order) (store : OrderStore)
      → o.id ≡ id
      → IsKeyed store
      → IsKeyed (put_order id o store)
  unfolding get_order put_order
  put-IsKeyed id o store own keyed j p h =
      let found = sym (get-insert ⦃e = P.ulid_is_eq⦄ id j o store) ∙ h in
      elim (Bool-cases (P.ulid_is_eq.beq id j)) [
        | inl e ↦
            let same : o ≡ p = some_inj (rw e at found) in
            rw (← same) (own ∙ (P.ulid_is_eq.beq_iff id j).0 e)
        | inr e ↦ keyed j p (rw e at found)
      ]

  pub put-IsProper :
      (id : P.Ulid) (o : Order) (store : OrderStore)
      → o.id ≡ id
      → IsProper store
      → IsProper (put_order id o store)
  unfolding put_order
  put-IsProper id o store own proper = record {
    distinct = insert-IsDistinct ⦃e = P.ulid_is_eq⦄ id o store proper.distinct;
    keyed = put-IsKeyed id o store own proper.keyed;
  }

  pub save-IsProper : (o : Order) (store : OrderStore) → IsProper store → IsProper (save o store)
  unfolding save put_order
  save-IsProper o store proper = put-IsProper o.id o store refl proper

  pub put_found-IsProper :
      (id : P.Ulid) (o o' : Order) (r : OrderStore)
      → get_order id r ≡ some o
      → o'.id ≡ o.id
      → IsProper r
      → IsProper (put_order id o' r)
  put_found-IsProper id o o' r f own proper =
      put-IsProper id o' r (own ∙ proper.keyed id o f) proper

  -- A service in memory that is made with any account keeps, through any sequence of its calls and whatever
  -- their outcomes, a restart included, each order once and under the order's own identifier.
  pub reachable-IsProper :
      (account : Account) (instruments : List Instrument) (limits : RiskLimits) (bus : EventBus)
      {s : OrderService}
      → Steps (new account instruments limits bus) s
      → IsProper s.store
  unfolding new with_repos get_order
  reachable-IsProper account instruments limits bus c =
      Steps-Keeps IsProper put_found-IsProper save-IsProper
        (record { distinct = tt; keyed = λ id o h. absurd (cc) }) c
