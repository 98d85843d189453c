-- ===== src/Service/Composite/Seen.antt =====
-- The loop of `on_price_update` visits each order of its list once.
use aegis_oms_rs.Prelude.{
  ℕ, suc, ◌≡◌, ◌≢◌, ◌↔◌, sym, ap, ◌∙◌, List, [], ◌∷◌, Option, none, some, inl, inr, some_inj,
  none_not_some,
}
use aegis_oms_rs.Platform.{Platform}
use aegis_oms_rs.Domain.Error.{ok}
use aegis_oms_rs.Domain.Event.{OrderEvent}
use aegis_oms_rs.Domain.Order.{Order, OrderType}
use aegis_oms_rs.Prelude.Tests.{Has}
use aegis_oms_rs.Infra.Repository.{Stores, IsMap}
use aegis_oms_rs.Service.OrderService.State.{OrderService}
use aegis_oms_rs.Service.Composite.{price_loop}
use aegis_oms_rs.Service.Composite.Visit.{visit, visited, joined, Pass, Pass-cases}
use aegis_oms_rs.Service.Composite.Loop.{
  NoDup, IsKeyed, get-visited_self, get-visited_other, ulid_cases, visited-IsKeyed, loop_other,
  loop_listed, first_listed,
}

module _ ⦃P : Platform⦄ ⦃S : Stores⦄ (price : P.Decimal) where
  -- What the loop leaves of an order, visited at a reading of the clock, and whether it is
  -- among those returned.
  abbrev pub Seen : (ℕ → P.Timestamp) → P.Ulid → Order → List P.Ulid → OrderService → Type 0
  Seen clock id o triggered t =
      (n : ℕ) × (S.orders.get_order id t.store ≡ some (visit price (clock n) o).1)
      × (Has id triggered ↔ ((x : OrderType) × ((visit price (clock n) o).0 ≡ ok (some x))))

module _ ⦃P : Platform⦄ ⦃S : Stores⦄ (laws : IsMap S.orders) (price : P.Decimal) where
  -- The order that a pass visits is not visited by the rest of the loop.
  Pass-first :
      (clock : ℕ → P.Timestamp) (id : P.Ulid) (ids : List P.Ulid) (s : OrderService)
      (triggered : List P.Ulid) (p : Pass price clock id ids s triggered)
      → IsKeyed s.store
      → ¬ (Has id ids)
      → Seen price clock id p.order triggered (price_loop price clock (id ∷ ids) s).1
  Pass-first clock id ids s triggered p keyed once =
      let t = visited price (clock 0) id p.order s in
      let own : p.order.id ≡ id = keyed id p.order p.found in
      let kept = visited-IsKeyed laws price (clock 0) id p.order s p.found keyed in
      let not_later : ¬ (Has id p.later) = λ h.
        once
          (loop_listed laws price (λ n. clock (suc n)) ids t p.later p.events id kept p.rest h) in
      (
        0,
        rw (← p.same) (
            loop_other laws price (λ n. clock (suc n)) ids t p.later p.events id p.rest once
            ∙ get-visited_self laws price (clock 0) id p.order s),
        first_listed laws price p.exec p.order.id id p.later triggered
            (visit price (clock 0) p.order).0 own not_later p.list p.checked,
      )

  later_in : (ids : List P.Ulid) (k id : P.Ulid) → Has id (k ∷ ids) → k ≢ id → Has id ids
  later_in ids k id (inl same) apart = absurd (apart same)
  later_in ids k id (inr h) apart = h

  joined-NoDup :
      (x : Option OrderType) (id : P.Ulid) (later : List P.Ulid)
      → ¬ (Has id later)
      → NoDup later
      → NoDup (joined x id later)
  joined-NoDup none id later out d = d
  joined-NoDup (some y) id later out d = (out, d)

  listed_later :
      (x : Option OrderType) (other id : P.Ulid) (later : List P.Ulid)
      → other ≢ id
      → Has id (joined x other later) ↔ Has id later
  listed_later none other id later apart = (λ h. h, λ h. h)
  listed_later (some y) other id later apart =
      (λ h. elim h [ inl same ↦ absurd (apart same) | inr r ↦ r ], λ h. inr h)

  -- A loop over a list that names no order twice returns none twice.
  pub loop-NoDup :
      (clock : ℕ → P.Timestamp) (ids : List P.Ulid) (s : OrderService) (triggered : List P.Ulid)
      (events : List OrderEvent)
      → IsKeyed s.store
      → NoDup ids
      → (price_loop price clock ids s).0 ≡ ok (triggered, events)
      → NoDup triggered
  unfolding price_loop
  loop-NoDup clock [] s triggered events keyed once e =
      let same : [] ≡ triggered = cc in rw (← same) tt
  loop-NoDup clock (k ∷ ids) s triggered events keyed once e =
      elim (Pass-cases price clock k ids s triggered events e) [
        | inl (n, same) ↦
            loop-NoDup (λ n. clock (suc n)) ids s triggered events keyed once.1
              (ap (λ r. r.0) same ∙ e)
        | inr p ↦
            let t = visited price (clock 0) k p.order s in
            let kept = visited-IsKeyed laws price (clock 0) k p.order s p.found keyed in
            let later = loop-NoDup (λ n. clock (suc n)) ids t p.later p.events kept once.1 p.rest in
            let own : p.order.id ≡ k = keyed k p.order p.found in
            let out : ¬ (Has p.order.id p.later) = λ h. once.0 (
              loop_listed laws price (λ n. clock (suc n)) ids t p.later p.events k kept p.rest
                (rw own at h)) in
            rw p.list (joined-NoDup p.exec p.order.id p.later out later)
      ]

  -- An order of a list that names none twice is visited once.
  pub loop-Seen :
      (clock : ℕ → P.Timestamp) (ids : List P.Ulid) (s : OrderService) (triggered : List P.Ulid)
      (events : List OrderEvent) (id : P.Ulid) (o : Order)
      → IsKeyed s.store
      → NoDup ids
      → (price_loop price clock ids s).0 ≡ ok (triggered, events)
      → Has id ids
      → S.orders.get_order id s.store ≡ some o
      → Seen price clock id o triggered (price_loop price clock ids s).1
  loop-Seen clock [] s triggered events id o keyed once e h f = absurd h
  loop-Seen clock (k ∷ ids) s triggered events id o keyed once e h f =
      elim (Pass-cases price clock k ids s triggered events e) [
        | inl (n, same) ↦
            let apart : k ≢ id = λ ki. none_not_some (sym (rw ki at n) ∙ f) in
            let (m, left, listed) =
              loop-Seen (λ n. clock (suc n)) ids s triggered events id o keyed once.1
                (ap (λ r. r.0) same ∙ e) (later_in ids k id h apart) f in
            (suc m, rw (← same) left, listed)
        | inr p ↦ elim (ulid_cases k id) [
          | inl ki ↦
              let seen = Pass-first clock k ids s triggered p keyed once.0 in
              let own : p.order ≡ o = some_inj (sym p.found ∙ rw (← ki) at f) in
              rw (← ki, ← own) seen
          | inr apart ↦
              let t = visited price (clock 0) k p.order s in
              let (m, left, listed) =
                loop-Seen (λ n. clock (suc n)) ids t p.later p.events id o
                  (visited-IsKeyed laws price (clock 0) k p.order s p.found keyed) once.1 p.rest
                  (later_in ids k id h apart)
                  (get-visited_other laws price (clock 0) k id p.order s apart ∙ f) in
              let other : p.order.id ≢ id = λ same. apart (sym (keyed k p.order p.found) ∙ same) in
              let later = listed_later p.exec p.order.id id p.later other in
              (
                suc m,
                rw (← p.same) left,
                rw p.list (λ x. listed.0 (later.0 x), λ x. later.1 (listed.1 x)),
              )
        ]
      ]
