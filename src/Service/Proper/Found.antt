-- ===== src/Service/Proper/Found.antt =====
-- Each order is found under its own identifier.
use aegis_oms_rs.Prelude.{
  ◌≡◌, refl, sym, ◌∙◌, Option, some, some_inj, List, Bool-cases, inl, inr, if◌then◌else◌, ◌&&◌,
}
use aegis_oms_rs.Platform.{Platform}
use aegis_oms_rs.Infra.Repository.{Stores, IsMap, is_ok}
use aegis_oms_rs.Domain.Order.{Order}
use aegis_oms_rs.Domain.Account.{Account}
use aegis_oms_rs.Domain.Instrument.{Instrument}
use aegis_oms_rs.Infra.EventBus.{EventBus}
use aegis_oms_rs.Service.RiskCheck.{RiskLimits}
use aegis_oms_rs.Service.OrderService.State.{OrderService, with_repos}
use aegis_oms_rs.Service.Composite.Loop.{IsKeyed}
use aegis_oms_rs.Service.Proper.{PutKeeps, SaveKeeps}
use aegis_oms_rs.Service.Proper.Reachable.{Steps, Steps-Keeps}

module _ ⦃P : Platform⦄ ⦃S : Stores⦄ where
  set_own :
      (id j : P.Ulid) (o p : Order) (before : Option Order)
      → o.id ≡ id
      → (before ≡ some p → p.id ≡ j)
      → (if P.ulid_is_eq.beq id j then some o else before) ≡ some p
      → p.id ≡ j
  set_own id j o p before own old e = elim (Bool-cases (P.ulid_is_eq.beq id j)) [
    | inl k ↦
        let same : o ≡ p = some_inj (rw k at e) in
        rw (← same) (own ∙ (P.ulid_is_eq.beq_iff id j).0 k)
    | inr k ↦ old (rw k at e)
  ]

  module _ (map : IsMap S.orders) where
    put-IsKeyed : PutKeeps IsKeyed
    put-IsKeyed id o o' r f own finds j p h =
        set_own id j o' p (S.orders.get_order j r) (own ∙ finds id o f) (finds j p)
          (sym (map.put_lem id j o' r) ∙ h)

    save-IsKeyed : SaveKeeps IsKeyed
    save-IsKeyed o r finds j p h = elim (Bool-cases (is_ok (S.orders.save o r).0)) [
      | inl k ↦
          set_own o.id j o p (S.orders.get_order j r) refl (finds j p)
            (rw (k, ◌&&◌) at (sym (map.save_lem o r j) ∙ h))
      | inr k ↦ finds j p (rw (k, ◌&&◌) at (sym (map.save_lem o r j) ∙ h))
    ]

    -- Over any repository that is a map from identifiers to orders, and in which what is found at
    -- the start under an identifier has that identifier, the same holds after any sequence of calls
    -- of the service and whatever their outcomes, a restart included.
    pub reachable-IsKeyed :
        (account : Account) (instruments : List Instrument) (limits : RiskLimits) (bus : EventBus)
        (orders : S.Orders) (trades : S.Trades) {s : OrderService}
        → IsKeyed orders
        → Steps (with_repos account instruments limits bus orders trades) s
        → IsKeyed s.store
    unfolding with_repos
    reachable-IsKeyed account instruments limits bus orders trades finds c =
        Steps-Keeps IsKeyed put-IsKeyed save-IsKeyed finds c
