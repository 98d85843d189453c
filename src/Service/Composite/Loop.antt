-- ===== src/Service/Composite/Loop.antt =====
-- The loop of `on_price_update` visits no order but those of its list.
use aegis_oms_rs.Prelude.{
  ℕ, suc, ◌≡◌, ◌≢◌, ◌↔◌, ◌⊎◌, refl, sym, ap, ◌∙◌, List, [], ◌∷◌, Option, none, some, arith, inl,
  inr, Bool-cases,
}
use aegis_oms_rs.Prelude.Eq.{==_iff}
use aegis_oms_rs.Platform.{Platform}
use aegis_oms_rs.Domain.Error.{Result, ok}
use aegis_oms_rs.Domain.Event.{OrderEvent}
use aegis_oms_rs.Domain.Order.{Order, OrderType}
use aegis_oms_rs.Prelude.Tests.{Has}
use aegis_oms_rs.Infra.Repository.{Stores, IsMap}
use aegis_oms_rs.Service.OrderService.State.{OrderService}
use aegis_oms_rs.Service.Composite.{price_loop}
use aegis_oms_rs.Service.Composite.Visit.{visit, visit-id, visited, joined, Pass-cases}

-- No element stands twice.
abbrev pub NoDup : {A : Type 0} → List A → Type 0
NoDup [] = Unit {0}
NoDup (x ∷ xs) = ¬ (Has x xs) × NoDup xs

module _ ⦃P : Platform⦄ where
  -- Two identifiers are the same or apart.
  pub ulid_cases : (id j : P.Ulid) → (id ≡ j) ⊎ (id ≢ j)
  ulid_cases id j = elim (Bool-cases (P.ulid_is_eq.beq id j)) [
    | inl e ↦ inl ((P.ulid_is_eq.beq_iff id j).0 e)
    | inr e ↦ inr (λ same. absurd (ground (arith, P.ulid_is_eq.beq_iff id j)))
  ]

module _ ⦃P : Platform⦄ ⦃S : Stores⦄ where
  -- What is found under an identifier is an order of that identifier.
  abbrev pub IsKeyed : S.Orders → Type 0
  IsKeyed r = (id : P.Ulid) (o : Order) → S.orders.get_order id r ≡ some o → o.id ≡ id

module _ ⦃P : Platform⦄ ⦃S : Stores⦄ (laws : IsMap S.orders) where
  pub get-visited_self :
      (price : P.Decimal) (now : P.Timestamp) (id : P.Ulid) (o : Order) (s : OrderService)
      → S.orders.get_order id (visited price now id o s).store ≡ some (visit price now o).1
  get-visited_self price now id o s =
      ground (
        arith,
        laws.put_lem id id (visit price now o).1 s.store,
        ==_iff ⦃same = P.ulid_is_eq⦄ id id,
      )

  pub get-visited_other :
      (price : P.Decimal) (now : P.Timestamp) (id j : P.Ulid) (o : Order) (s : OrderService)
      → id ≢ j
      → S.orders.get_order j (visited price now id o s).store ≡ S.orders.get_order j s.store
  get-visited_other price now id j o s apart =
      ground
        (arith, laws.put_lem id j (visit price now o).1 s.store, ==_iff ⦃same = P.ulid_is_eq⦄ id j)

  pub visited-IsKeyed :
      (price : P.Decimal) (now : P.Timestamp) (id : P.Ulid) (o : Order) (s : OrderService)
      → S.orders.get_order id s.store ≡ some o
      → IsKeyed s.store
      → IsKeyed (visited price now id o s).store
  visited-IsKeyed price now id o s f keyed j p h = elim (ulid_cases id j) [
    | inl same ↦
        let there : S.orders.get_order j (visited price now id o s).store
            ≡ some (visit price now o).1 =
          rw (← same) (get-visited_self price now id o s) in
        let own : (visit price now o).1 ≡ p = ground arith in
        rw (← own, visit-id price now o, ← same) (keyed id o f)
    | inr apart ↦ keyed j p (sym (get-visited_other price now id j o s apart) ∙ h)
  ]

  module _ (price : P.Decimal) where
    -- An order that is not in the list is as before.
    pub loop_other :
        (clock : ℕ → P.Timestamp) (ids : List P.Ulid) (s : OrderService) (triggered : List P.Ulid)
        (events : List OrderEvent) (j : P.Ulid)
        → (price_loop price clock ids s).0 ≡ ok (triggered, events)
        → ¬ (Has j ids)
        → S.orders.get_order j (price_loop price clock ids s).1.store ≡ S.orders.get_order j s.store
    unfolding price_loop
    loop_other clock [] s triggered events j e out = refl
    loop_other clock (id ∷ ids) s triggered events j e out =
        elim (Pass-cases price clock id ids s triggered events e) [
          | inl (n, same) ↦
              let rest =
                loop_other (λ n. clock (suc n)) ids s triggered events j (ap (λ r. r.0) same ∙ e)
                  (λ h. out (inr h)) in
              rw (← same) rest
          | inr p ↦
              let t = visited price (clock 0) id p.order s in
              let rest =
                loop_other (λ n. clock (suc n)) ids t p.later p.events j p.rest
                  (λ h. out (inr h)) in
              rw (← p.same)
                (rest ∙ get-visited_other price (clock 0) id j p.order s (λ h. out (inl h)))
        ]

    Has-joined :
        (x : Option OrderType) (id j : P.Ulid) (later : List P.Ulid)
        → Has j (joined x id later)
        → (id ≡ j) ⊎ Has j later
    Has-joined none id j later h = inr h
    Has-joined (some t) id j later h = h

    -- The order that a pass visits is among those returned exactly if it is triggered.
    pub first_listed :
        (x : Option OrderType) (own id : P.Ulid) (later triggered : List P.Ulid)
        (r : Result (Option OrderType))
        → own ≡ id
        → ¬ (Has id later)
        → triggered ≡ joined x own later
        → r ≡ ok x
        → Has id triggered ↔ ((y : OrderType) × (r ≡ ok (some y)))
    first_listed none own id later triggered r same out list e =
        rw (list, e) (λ h. absurd (out h), λ h. absurd (cc))
    first_listed (some y) own id later triggered r same out list e =
        rw (list, e) (λ h. (y, refl), λ h. inl same)

    -- What is returned stood in the list.
    pub loop_listed :
        (clock : ℕ → P.Timestamp) (ids : List P.Ulid) (s : OrderService) (triggered : List P.Ulid)
        (events : List OrderEvent) (j : P.Ulid)
        → IsKeyed s.store
        → (price_loop price clock ids s).0 ≡ ok (triggered, events)
        → Has j triggered
        → Has j ids
    unfolding price_loop
    loop_listed clock [] s triggered events j keyed e h =
        let same : [] ≡ triggered = cc in rw (← same) at h
    loop_listed clock (id ∷ ids) s triggered events j keyed e h =
        elim (Pass-cases price clock id ids s triggered events e) [
          | inl (n, same) ↦ inr (
              loop_listed (λ n. clock (suc n)) ids s triggered events j keyed
                (ap (λ r. r.0) same ∙ e) h)
          | inr p ↦ elim (Has-joined p.exec p.order.id j p.later (rw p.list at h)) [
            | inl own ↦ inl (sym (keyed id p.order p.found) ∙ own)
            | inr r ↦ inr (
                loop_listed (λ n. clock (suc n)) ids (visited price (clock 0) id p.order s) p.later
                  p.events j (visited-IsKeyed price (clock 0) id p.order s p.found keyed) p.rest r)
          ]
        ]
