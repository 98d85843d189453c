-- ===== src/Infra/Repository/Memory.antt =====
-- The orders in memory implement the interface.
use aegis_oms_rs.Prelude.{
  ◌≡◌, refl, Bool, true, Option, none, some, List, [], ◌∷◌, inl, inr, Bool-cases,
}
use aegis_oms_rs.Prelude.Eq.{◌==◌, ==_iff}
use aegis_oms_rs.Prelude.Map.{get, values, get-insert}
use aegis_oms_rs.Platform.{Platform}
use aegis_oms_rs.Domain.Status.{OrderStatus, is_open, status_eq}
use aegis_oms_rs.Domain.Error.{ok}
use aegis_oms_rs.Domain.Order.{Order}
use aegis_oms_rs.Infra.OrderStore.{
  OrderStore, filter, save, get_order, put_order, find_open_orders, find_pending_trigger_orders,
  all_orders, load_all_owned,
}
use aegis_oms_rs.Infra.TradeStore
use aegis_oms_rs.Infra.TradeStore.{TradeStore}
use aegis_oms_rs.Prelude.Tests.{Has}
use aegis_oms_rs.Infra.Repository.{OrderRepository, TradeRepository, Stores, IsMap, FoundIn}

module _ {A : Type 0} (p : A → Bool) where
  pub Has-filter : (a : A) (xs : List A) → Has a xs → p a ≡ true → Has a (filter p xs)
  unfolding filter
  Has-filter a [] h k = h
  Has-filter a (x ∷ xs) (inl e) k = rw (e, k, filter) (inl refl)
  Has-filter a (x ∷ xs) (inr r) k = elim (Bool-cases (p x)) [
    | inl yes_ ↦ rw (yes_, filter) (inr (Has-filter a xs r k))
    | inr no_ ↦ rw (no_, filter) (Has-filter a xs r k)
  ]

  pub Has-of_filter : (a : A) (xs : List A) → Has a (filter p xs) → Has a xs × (p a ≡ true)
  unfolding filter
  Has-of_filter a [] h = absurd h
  Has-of_filter a (x ∷ xs) h = elim (Bool-cases (p x)) [
    | inl passes ↦ elim (rw (passes, filter) at h) [
      | inl e ↦ (inl e, rw (← e) passes)
      | inr r ↦ let (has, test) = Has-of_filter a xs r in (inr has, test)
    ]
    | inr fails ↦ let (has, test) = Has-of_filter a xs (rw (fails, filter) at h) in (inr has, test)
  ]

module _ ⦃P : Platform⦄ where
  further : (f : Option Order) (o : Order) (os : List Order) → FoundIn f os → FoundIn f (o ∷ os)
  further none o os h = tt
  further (some x) o os h = inr h

  pub FoundIn-values :
      (id : P.Ulid) (m : OrderStore) → FoundIn (get ⦃e = P.ulid_is_eq⦄ id m) (values m)
  FoundIn-values id [] = tt
  FoundIn-values id ((j, w) ∷ m) = elim (Bool-cases (P.ulid_is_eq.beq j id)) [
    | inl same ↦ rw same (inl refl)
    | inr other ↦
        rw other (further (get ⦃e = P.ulid_is_eq⦄ id m) w (values m) (FoundIn-values id m))
  ]

  abbrev pub in_memory : OrderRepository OrderStore
  in_memory = record {
    save = λ o store. (ok tt, save o store);
    get_order = get_order;
    put_order = put_order;
    find_open_orders = find_open_orders;
    find_pending_trigger_orders = find_pending_trigger_orders;
    all_orders = all_orders;
    load_all_owned = λ store. ok (load_all_owned store);
  }

  abbrev pub in_memory_trades : TradeRepository TradeStore
  in_memory_trades = record {
    save = λ t trades. (ok tt, TradeStore.save t trades);
    all = TradeStore.all;
    by_instrument = TradeStore.by_instrument;
    load_all_owned = λ trades. ok (TradeStore.load_all_owned trades);
  }

  -- The stores of `OrderService::new`.
  instance abbrev pub in_memory_stores : Stores
  in_memory_stores = record {
    Orders = OrderStore;
    orders = in_memory;
    Trades = TradeStore;
    trades = in_memory_trades;
  }

  abbrev is_pending : Order → Bool
  is_pending o = o.status == OrderStatus.pending_trigger

  pub in_memory-IsMap : IsMap in_memory
  unfolding save get_order put_order find_open_orders find_pending_trigger_orders all_orders
  in_memory-IsMap = record {
    save_lem = λ o r id. get-insert ⦃e = P.ulid_is_eq⦄ o.id id o r;
    put_lem = λ id j o r. get-insert ⦃e = P.ulid_is_eq⦄ id j o r;
    all_lem = λ id r. FoundIn-values id r;
    open_lem = λ o r. (
      Has-of_filter (λ o. is_open o.status) o (values r),
      λ h. Has-filter (λ o. is_open o.status) o (values r) h.0 h.1,
    );
    pending_lem = λ o r. (
      λ h.
          let (has, test) = Has-of_filter is_pending o (values r) h in
          (has, (==_iff o.status OrderStatus.pending_trigger).0 test),
      λ h.
          Has-filter is_pending o (values r) h.0
            ((==_iff o.status OrderStatus.pending_trigger).1 h.1),
    );
  }
