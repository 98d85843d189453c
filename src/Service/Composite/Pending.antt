-- ===== src/Service/Composite/Pending.antt =====
-- The pending orders of a symbol, over a repository that lists each pending order once.
use aegis_oms_rs.Prelude.{
  String, ◌≡◌, refl, sym, ap, ◌∙◌, List, [], ◌∷◌, map, Bool, some, inl, inr, Bool-cases, some_inj,
}
use aegis_oms_rs.Prelude.Eq.{==_iff, ◌==◌, string_eq}
use aegis_oms_rs.Platform.{Platform}
use aegis_oms_rs.Domain.Status.{OrderStatus, status_eq}
use aegis_oms_rs.Domain.Order.{Order}
use aegis_oms_rs.Infra.OrderStore.{filter}
use aegis_oms_rs.Prelude.Tests.{Has}
use aegis_oms_rs.Infra.Repository.{Stores, IsMap}
use aegis_oms_rs.Infra.Repository.Memory.{Has-filter, Has-of_filter}
use aegis_oms_rs.Service.OrderService.State.{OrderService}
use aegis_oms_rs.Service.OrderService.Query.{find_pending_trigger_orders_for}
use aegis_oms_rs.Service.Composite.Loop.{NoDup, IsKeyed}

module _ {A B : Type 0} (f : A → B) where
  pub Has-map : (a : A) (xs : List A) → Has a xs → Has (f a) (map f xs)
  Has-map a [] h = h
  Has-map a (x ∷ xs) (inl e) = inl (ap f e)
  Has-map a (x ∷ xs) (inr h) = inr (Has-map a xs h)

  pub Has-of_map : (b : B) (xs : List A) → Has b (map f xs) → (a : A) × Has a xs × (f a ≡ b)
  Has-of_map b [] h = absurd h
  Has-of_map b (x ∷ xs) (inl e) = (x, inl refl, e)
  Has-of_map b (x ∷ xs) (inr h) = let (a, there, e) = Has-of_map b xs h in (a, inr there, e)

  Has-map-filter :
      (p : A → Bool) (b : B) (xs : List A) → Has b (map f (filter p xs)) → Has b (map f xs)
  unfolding filter
  Has-map-filter p b [] h = h
  Has-map-filter p b (x ∷ xs) h = elim (Bool-cases (p x)) [
    | inl e ↦ elim (rw (e, filter) at h) [
      | inl same ↦ inl same
      | inr r ↦ inr (Has-map-filter p b xs r)
    ]
    | inr e ↦ inr (Has-map-filter p b xs (rw (e, filter) at h))
  ]

  pub NoDup-filter : (p : A → Bool) (xs : List A) → NoDup (map f xs) → NoDup (map f (filter p xs))
  unfolding filter
  NoDup-filter p [] d = d
  NoDup-filter p (x ∷ xs) d = elim (Bool-cases (p x)) [
    | inl e ↦ rw (e, filter) (λ h. d.0 (Has-map-filter p (f x) xs h), NoDup-filter p xs d.1)
    | inr e ↦ rw (e, filter) (NoDup-filter p xs d.1)
  ]

module _ ⦃P : Platform⦄ where
  abbrev pub id_of : Order → P.Ulid
  id_of o = o.id

module _ ⦃P : Platform⦄ ⦃S : Stores⦄ where
  -- Each order is found under its own identifier alone, and stands once among those that wait for
  -- their trigger.
  pub record ListsOnce (r : S.Orders) : Type 0 where
    pub keyed : IsKeyed r
    pub once : NoDup (map id_of (S.orders.find_pending_trigger_orders r))
    pub found : (o : Order) → Has o (S.orders.all_orders r) → S.orders.get_order o.id r ≡ some o

  -- None of the lists that the repository gives names an order twice.
  pub record AllListsOnce (r : S.Orders) : Type 0 where
    pub pending : ListsOnce r
    pub opens : NoDup (map id_of (S.orders.find_open_orders r))
    pub all : NoDup (map id_of (S.orders.all_orders r))

module _ ⦃P : Platform⦄ ⦃S : Stores⦄ (laws : IsMap S.orders) (symbol : String) (s : OrderService)
    (lists : ListsOnce s.store) where
  -- The list that a price update walks names no order twice, and names the pending ones.
  pub pending_once : NoDup (find_pending_trigger_orders_for symbol s)
  unfolding find_pending_trigger_orders_for
  pending_once =
      NoDup-filter id_of (λ o. o.instrument == symbol)
        (S.orders.find_pending_trigger_orders s.store) lists.once

  pub pending_listed :
      (id : P.Ulid) (o : Order)
      → S.orders.get_order id s.store ≡ some o
      → o.status ≡ OrderStatus.pending_trigger
      → o.instrument ≡ symbol
      → Has id (find_pending_trigger_orders_for symbol s)
  unfolding find_pending_trigger_orders_for
  pending_listed id o f pending instrument =
      let there : Has o (S.orders.all_orders s.store) = rw f at (laws.all_lem id s.store) in
      let waits = (laws.pending_lem o s.store).1 (there, pending) in
      let listed =
        Has-filter (λ o. o.instrument == symbol) o (S.orders.find_pending_trigger_orders s.store)
          waits ((==_iff o.instrument symbol).1 instrument) in
      rw (← lists.keyed id o f) (Has-map id_of o _ listed)

  -- An identifier of the list is that of a pending order of the symbol.
  pub listed_pending :
      (id : P.Ulid) (o : Order)
      → Has id (find_pending_trigger_orders_for symbol s)
      → S.orders.get_order id s.store ≡ some o
      → (o.status ≡ OrderStatus.pending_trigger) × (o.instrument ≡ symbol)
  unfolding find_pending_trigger_orders_for
  listed_pending id o h f =
      let (p, there, own) = Has-of_map id_of id _ h in
      let (waits, on_symbol) = Has-of_filter (λ o. o.instrument == symbol) p _ there in
      let (kept, is_waiting) = (laws.pending_lem p s.store).0 waits in
      let same : p ≡ o = some_inj (sym (lists.found p kept) ∙ rw (← own) at f) in
      rw (← same) (is_waiting, (==_iff p.instrument symbol).0 on_symbol)
