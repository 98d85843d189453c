-- ===== src/Service/OrderService/Killed.antt =====
-- A Fill-or-Kill request to `submit_order`, and what can become of its order.
use aegis_oms_rs.Prelude.{
  ℕ, ◌≡◌, ◌≢◌, refl, ap, ◌∙◌, ◌&&◌, ◌⊎◌, some, none, arith, inl, inr, Option-cases, Bool-cases,
}
use aegis_oms_rs.Prelude.Eq.{==_iff, string_eq}
use aegis_oms_rs.Prelude.Map.{get}
use aegis_oms_rs.Platform.{Platform}
use aegis_oms_rs.Infra.Repository.{Stores, IsMap, is_ok}
use aegis_oms_rs.Domain.Status.{OrderStatus, TimeInForce, can_transition_to}
use aegis_oms_rs.Domain.Error.{ok, err, panic, Result, OmsError, Result-cases}
use aegis_oms_rs.Domain.Order.{Order, apply_fill, cancel, reject}
use aegis_oms_rs.Domain.Order
use aegis_oms_rs.Domain.Instrument.{Instrument}
use aegis_oms_rs.Service.OrderService.State.{NewOrderRequest, OrderService}
use aegis_oms_rs.Service.OrderService.Submit.{submit_order, cancel_order, new_order}
use aegis_oms_rs.Service.OrderService.Fill.{fill_order}
use aegis_oms_rs.Service.OrderService.Filling.{fill_missing}
use aegis_oms_rs.Service.OrderService.Policy.{
  verdict, rejecting, submit_unknown, submit_order_refused, submit_order_fok, submit_fok_not_stored,
}

module _ ⦃P : Platform⦄ ⦃S : Stores⦄ where
  -- Between the services `s` and `t`, the order `o` has not come to life: it is in the repository
  -- as it is here or not at all, no call fills or cancels it, and nothing else has changed but what
  -- has been published.
  pub record IsKilled (id : P.Ulid) (o : Order) (s t : OrderService) : Type 0 where
    pub stored : (S.orders.get_order id t.store ≡ none) ⊎ (S.orders.get_order id t.store ≡ some o)
    pub others : (j : P.Ulid) → id ≢ j → S.orders.get_order j t.store ≡ S.orders.get_order j s.store
    pub books : t ≡ record s { store = t.store; event_bus = t.event_bus }
    pub no_fill :
        (trade_id : P.Ulid) (clock : ℕ → P.Timestamp) (qty price : P.Decimal)
        → (fill_order trade_id clock id qty price t).0 ≢ ok tt
    pub no_cancel : (now : P.Timestamp) → (cancel_order id now t).0 ≢ ok tt

  rejected_takes_none :
      (qty price : P.Decimal) (now : P.Timestamp) (o : Order)
      → o.status ≡ OrderStatus.rejected
      → (apply_fill qty price now o).0 ≢ ok tt
  unfolding apply_fill can_transition_to
  rejected_takes_none qty price now o e h = ground arith

  missing_no_cancel :
      (id : P.Ulid) (now : P.Timestamp) (t : OrderService)
      → S.orders.get_order id t.store ≡ none
      → (cancel_order id now t).0 ≢ ok tt
  unfolding cancel_order
  missing_no_cancel id now t e h = ground arith

  rejected_no_cancel :
      (id : P.Ulid) (now : P.Timestamp) (o : Order) (t : OrderService)
      → S.orders.get_order id t.store ≡ some o
      → o.status ≡ OrderStatus.rejected
      → (cancel_order id now t).0 ≢ ok tt
  unfolding cancel_order cancel can_transition_to
  rejected_no_cancel id now o t e r h = ground arith

  no_fill_of :
      (id trade_id : P.Ulid) (clock : ℕ → P.Timestamp) (qty price : P.Decimal) (o : Order)
      (t : OrderService)
      → o.status ≡ OrderStatus.rejected
      → (S.orders.get_order id t.store ≡ none) ⊎ (S.orders.get_order id t.store ≡ some o)
      → (fill_order trade_id clock id qty price t).0 ≢ ok tt
  unfolding fill_order
  no_fill_of id trade_id clock qty price o t r (inl e) h =
      let same = fill_missing trade_id clock id qty price t e in ground arith
  no_fill_of id trade_id clock qty price o t r (inr e) h =
      let none_taken = rejected_takes_none qty price (clock 0) o r in ground arith

  IsKilled-rejected :
      (id : P.Ulid) (o : Order) (s t : OrderService)
      → o.status ≡ OrderStatus.rejected
      → (S.orders.get_order id t.store ≡ none) ⊎ (S.orders.get_order id t.store ≡ some o)
      → ((j : P.Ulid) → id ≢ j → S.orders.get_order j t.store ≡ S.orders.get_order j s.store)
      → t ≡ record s { store = t.store; event_bus = t.event_bus }
      → IsKilled id o s t
  IsKilled-rejected id o s t r stored others books = record {
    stored = stored;
    others = others;
    books = books;
    no_fill = λ trade_id clock qty price. no_fill_of id trade_id clock qty price o t r stored;
    no_cancel = λ now. elim stored [
      | inl e ↦ missing_no_cancel id now t e
      | inr e ↦ rejected_no_cancel id now o t e r
    ];
  }

module _ ⦃P : Platform⦄ ⦃S : Stores⦄ (id : P.Ulid) (clock : ℕ → P.Timestamp) (req : NewOrderRequest)
    (s : OrderService) where
  abbrev pub killed_order : Order
  killed_order = record (new_order id (clock 0) req) {
    status = OrderStatus.rejected;
    updated_at = clock 1;
  }

  refused_fails :
      (i : Instrument) (j : P.Ulid)
      → get req.instrument s.instruments ≡ some i
      → verdict id clock req s ≢ ok tt
      → (submit_order id clock req s).0 ≢ ok j
  unfolding submit_order
  refused_fails i j e v h = elim (Result-cases (verdict id clock req s)) [
    | inl (u, k) ↦ v k
    | inr (inl k) ↦ ground arith
    | inr (inr (x, k)) ↦ ground arith
  ]

  unstored_fails :
      (i : Instrument) (j : P.Ulid)
      → get req.instrument s.instruments ≡ some i
      → verdict id clock req s ≡ ok tt
      → req.time_in_force ≡ TimeInForce.fok
      → (rejecting id clock req s).0 ≢ ok tt
      → (submit_order id clock req s).0 ≢ ok j
  unfolding submit_order reject can_transition_to Order.new
  unstored_fails i j e v f w h = elim (Result-cases (rejecting id clock req s).0) [
    | inl (u, k) ↦ w k
    | inr (inl k) ↦ ground arith
    | inr (inr (x, k)) ↦ ground arith
  ]

  module _ (laws : IsMap S.orders) (fresh : S.orders.get_order id s.store ≡ none) where
    -- A submission that changes nothing leaves no order.
    untouched : (t : OrderService) → t ≡ s → IsKilled id killed_order s t
    untouched t same =
        rw same (IsKilled-rejected id killed_order s s refl (inl fresh) (λ j apart. refl) refl)

    saved_or_not :
        (S.orders.get_order id (rejecting id clock req s).1 ≡ none)
        ⊎ (S.orders.get_order id (rejecting id clock req s).1 ≡ some killed_order)
    unfolding new_order Order.new
    saved_or_not =
        elim (Bool-cases (is_ok (rejecting id clock req s).0 && P.ulid_is_eq.beq id id)) [
          | inl e ↦ inr (laws.save_lem killed_order s.store id ∙ rw e refl)
          | inr e ↦ inl (laws.save_lem killed_order s.store id ∙ rw e fresh)
        ]

    others_kept :
        (j : P.Ulid)
        → id ≢ j
        → S.orders.get_order j (rejecting id clock req s).1 ≡ S.orders.get_order j s.store
    unfolding new_order Order.new
    others_kept j apart =
        ground (arith, laws.save_lem killed_order s.store j, ==_iff ⦃same = P.ulid_is_eq⦄ id j)

    -- A submission that leaves the repository as storing the order as Rejected does.
    rejected_there :
        (t : OrderService)
        → t.store ≡ (rejecting id clock req s).1
        → t ≡ record s { store = t.store; event_bus = t.event_bus }
        → IsKilled id killed_order s t
    rejected_there t same books =
        IsKilled-rejected id killed_order s t refl (rw same saved_or_not)
          (λ j apart. rw same (others_kept j apart)) books

    fails : {r : Result (Unit {0})} → (r ≡ panic) ⊎ ((x : OmsError) × (r ≡ err x)) → r ≢ ok tt
    fails (inl e) h = absurd (cc)
    fails (inr (x, e)) h = absurd (cc)

    unstored-IsKilled :
        (i : Instrument)
        → get req.instrument s.instruments ≡ some i
        → req.time_in_force ≡ TimeInForce.fok
        → verdict id clock req s ≡ ok tt
        → (rejecting id clock req s).0 ≢ ok tt
        → ((j : P.Ulid) → (submit_order id clock req s).0 ≢ ok j)
          × IsKilled id killed_order s (submit_order id clock req s).1
    unstored-IsKilled i e f v w =
        let out = submit_fok_not_stored id clock req s i e v f w in
        (λ j. unstored_fails i j e v f w, rw out (rejected_there _ refl refl))

    known :
        (i : Instrument)
        → get req.instrument s.instruments ≡ some i
        → req.time_in_force ≡ TimeInForce.fok
        → ((j : P.Ulid) → (submit_order id clock req s).0 ≢ ok j)
          × IsKilled id killed_order s (submit_order id clock req s).1
    known i e f = elim (Result-cases (verdict id clock req s)) [
      | inl (u, v) ↦ elim (Result-cases (rejecting id clock req s).0) [
        | inl (w, k) ↦
            let out = submit_order_fok id clock req s i e v f k in
            (λ j h. absurd (cc), rw out (rejected_there _ refl refl))
        | inr k ↦ unstored-IsKilled i e f v (λ h. fails k h)
      ]
      | inr k ↦ (
        λ j. refused_fails i j e (fails k),
        untouched _ (submit_order_refused id clock req s i e (fails k)).1,
      )
    ]

    -- Over a repository that is a map from identifiers to orders: a Fill-or-Kill request under an
    -- identifier that no order has is never placed, whatever it asks for, whatever the risk checks
    -- say, and whether or not the repository takes the order. The submission does not succeed. It
    -- leaves a service where the order is not stored at all, or is stored as Rejected, where neither
    -- a fill nor a cancel of it succeeds, and where all other orders are as before, and all else but
    -- what has been published.
    pub submit_fok_never_placed :
        req.time_in_force ≡ TimeInForce.fok
        → ((j : P.Ulid) → (submit_order id clock req s).0 ≢ ok j)
          × IsKilled id killed_order s (submit_order id clock req s).1
    submit_fok_never_placed f = elim (Option-cases (get req.instrument s.instruments)) [
      | inl e ↦
          let out = submit_unknown id clock req s e in
          (λ j h. absurd (cc), untouched _ (ap (λ x. x.1) out))
      | inr (i, e) ↦ known i e f
    ]
