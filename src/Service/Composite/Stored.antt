-- ===== src/Service/Composite/Stored.antt =====
-- The orders in memory, each kept once under its own identifier, are listed once.
use aegis_oms_rs.Prelude.{◌≡◌, sym, ap, ◌∙◌, [], ◌∷◌, map, some, arith, inl, inr, none_not_some}
use aegis_oms_rs.Prelude.Eq.{==_iff, ◌==◌, string_eq}
use aegis_oms_rs.Prelude.Map.{values}
use aegis_oms_rs.Prelude.Map.Sum.{IsDistinct}
use aegis_oms_rs.Platform.{Platform}
use aegis_oms_rs.Infra.Repository.Memory.{in_memory_stores}
use aegis_oms_rs.Domain.Status.{OrderStatus, status_eq, is_open}
use aegis_oms_rs.Domain.Order.{Order}
use aegis_oms_rs.Infra.OrderStore.{
  OrderStore, get_order, find_pending_trigger_orders, find_open_orders, all_orders,
}
use aegis_oms_rs.Prelude.Tests.{Has}
use aegis_oms_rs.Service.Composite.Loop.{NoDup, IsKeyed, ulid_cases}
use aegis_oms_rs.Service.Composite.Pending.{ListsOnce, AllListsOnce, id_of, NoDup-filter}

module _ ⦃P : Platform⦄ where
  -- A store that keeps each order once, under its own identifier.
  pub record IsProper (store : OrderStore) : Type 0 where
    pub distinct : IsDistinct ⦃e = P.ulid_is_eq⦄ store
    pub keyed : IsKeyed store

  tail-IsProper :
      (k : P.Ulid) (o : Order) (m : OrderStore) → IsProper ((k, o) ∷ m) → IsProper m × (o.id ≡ k)
  unfolding get_order
  tail-IsProper k o m proper = (
    record {
      distinct = proper.distinct.1;
      keyed = λ j p h. proper.keyed j p (ground (arith, ==_iff ⦃same = P.ulid_is_eq⦄ k j));
    },
    proper.keyed k o (ground (arith, ==_iff ⦃same = P.ulid_is_eq⦄ k k)),
  )

  -- An identifier of the values is a key.
  ids_kept :
      (j : P.Ulid) (m : OrderStore)
      → IsProper m
      → Has j (map id_of (values m))
      → (o : Order) × (get_order j m ≡ some o)
  unfolding get_order
  ids_kept j [] proper h = absurd h
  ids_kept j ((k, o) ∷ m) proper h =
      let (rest, own) = tail-IsProper k o m proper in
      elim (ulid_cases k j) [
        | inl kj ↦ (o, ground (arith, ==_iff ⦃same = P.ulid_is_eq⦄ k j))
        | inr apart ↦ elim h [
          | inl same ↦ absurd (apart (sym own ∙ same))
          | inr r ↦
              let (p, f) = ids_kept j m rest r in
              (p, ground (arith, ==_iff ⦃same = P.ulid_is_eq⦄ k j))
        ]
      ]

  -- A value is kept under its identifier.
  pub value_kept :
      (p : Order) (m : OrderStore) → IsProper m → Has p (values m) → get_order p.id m ≡ some p
  unfolding get_order
  value_kept p [] proper h = absurd h
  value_kept p ((k, o) ∷ m) proper (inl same) =
      let (rest, own) = tail-IsProper k o m proper in
      let at_key : k ≡ p.id = sym own ∙ ap id_of same in
      ground (arith, ==_iff ⦃same = P.ulid_is_eq⦄ k p.id)
  value_kept p ((k, o) ∷ m) proper (inr h) =
      let (rest, own) = tail-IsProper k o m proper in
      let f = value_kept p m rest h in
      elim (ulid_cases k p.id) [
        | inl kp ↦ absurd (none_not_some (sym (rw kp at proper.distinct.0) ∙ f))
        | inr apart ↦ ground (arith, ==_iff ⦃same = P.ulid_is_eq⦄ k p.id)
      ]

  NoDup-ids : (m : OrderStore) → IsProper m → NoDup (map id_of (values m))
  unfolding get_order
  NoDup-ids [] proper = tt
  NoDup-ids ((k, o) ∷ m) proper =
      let (rest, own) = tail-IsProper k o m proper in
      (
        λ h.
            let (p, f) = ids_kept k m rest (rw own at h) in
            absurd (none_not_some (sym proper.distinct.0 ∙ f)),
        NoDup-ids m rest,
      )

  pub IsProper-ListsOnce : (m : OrderStore) → IsProper m → ListsOnce m
  unfolding find_pending_trigger_orders get_order all_orders
  IsProper-ListsOnce m proper = record {
    keyed = proper.keyed;
    once =
        NoDup-filter id_of (λ o. o.status == OrderStatus.pending_trigger) (values m)
          (NoDup-ids m proper);
    found = λ o h. value_kept o m proper h;
  }

  pub IsProper-AllListsOnce : (m : OrderStore) → IsProper m → AllListsOnce m
  unfolding find_pending_trigger_orders get_order all_orders find_open_orders
  IsProper-AllListsOnce m proper = record {
    pending = IsProper-ListsOnce m proper;
    opens = NoDup-filter id_of (λ o. is_open o.status) (values m) (NoDup-ids m proper);
    all = NoDup-ids m proper;
  }
