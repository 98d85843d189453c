-- ===== src/Service/Proper/Calls.antt =====
-- The calls, one by one.
use aegis_oms_rs.Prelude.{ℕ, ◌≡◌, some, arith, inl, inr, Option-cases, Bool-cases}
use aegis_oms_rs.Prelude.Eq.{◌==◌, ==_iff, string_eq}
use aegis_oms_rs.Prelude.Map.{get}
use aegis_oms_rs.Platform.{Platform}
use aegis_oms_rs.Infra.Repository.{Stores}
use aegis_oms_rs.Platform.Decimal.{lt}
use aegis_oms_rs.Domain.Status.{OrderStatus, TimeInForce, status_eq, tif_eq, can_transition_to}
use aegis_oms_rs.Domain.Error.{Result, ok, lift, ◌>>◌, Result-cases}
use aegis_oms_rs.Domain.Method.{lift-Leads}
use aegis_oms_rs.Domain.Account.{available_balance, lock_margin}
use aegis_oms_rs.Domain.Instrument.{Instrument}
use aegis_oms_rs.Service.RiskCheck.{validate_margin}
use aegis_oms_rs.Domain.Order.{
  Order, cancel, transition_to, apply_fill, accept, reject, pending_trigger,
}
use aegis_oms_rs.Domain.Order
use aegis_oms_rs.Service.OrderService.State.{OrderService, NewOrderRequest, release_margin}
use aegis_oms_rs.Service.OrderService.Submit.{
  cancel_order, apply_ioc_policy, place, lock_for, submit_order, new_order, submit_price,
}
use aegis_oms_rs.Service.OrderService.Policy.{
  placed, verdict, submit_unknown, submit_order_refused, submit_order_fok, submit_fok_not_stored,
  rejecting, submit_locked, submit_unlocked, locking,
}
use aegis_oms_rs.Service.Proper.{PutKeeps, SaveKeeps, Keeps, same_store}

module _ ⦃P : Platform⦄ where
  cancel-id : (now : P.Timestamp) (o : Order) → (cancel now o).1.id ≡ o.id
  unfolding cancel transition_to
  cancel-id now o = ground arith

module _ ⦃P : Platform⦄ ⦃S : Stores⦄ (I : S.Orders → Type 0) where
  pub release-Keeps : (id : P.Ulid) → Keeps I (release_margin id)
  unfolding release_margin
  release-Keeps id = same_store I (release_margin id) (λ s. ground arith)

  lock_for-Keeps :
      (id : P.Ulid) (price qty leverage : P.Decimal) → Keeps I (lock_for id price qty leverage)
  unfolding lock_for validate_margin lock_margin available_balance
  lock_for-Keeps id price qty leverage =
      same_store I (lock_for id price qty leverage) (λ s. ground arith)

module _ ⦃P : Platform⦄ ⦃S : Stores⦄ where
  -- The service with the order cancelled, if its status allows it.
  abbrev after_cancel : P.Ulid → P.Timestamp → Order → OrderService → OrderService
  after_cancel id now o s = record s { store = S.orders.put_order id (cancel now o).1 s.store }

module _ ⦃P : Platform⦄ ⦃S : Stores⦄ (I : S.Orders → Type 0) (put : PutKeeps I) where
  after_cancel-Keeps :
      (id : P.Ulid) (now : P.Timestamp) (o : Order) (s : OrderService)
      → S.orders.get_order id s.store ≡ some o
      → I s.store
      → I (release_margin id (after_cancel id now o s)).1.store
  after_cancel-Keeps id now o s e kept =
      release-Keeps I id (after_cancel id now o s)
        (put id o (cancel now o).1 s.store e (cancel-id now o) kept)

  pub cancel_order-Keeps : (id : P.Ulid) (now : P.Timestamp) → Keeps I (cancel_order id now)
  unfolding cancel_order
  cancel_order-Keeps id now s kept = elim (Option-cases (S.orders.get_order id s.store)) [
    | inl e ↦ ground arith
    | inr (o, e) ↦ ground (
      arith,
      put id o (cancel now o).1 s.store e (cancel-id now o) kept,
      after_cancel-Keeps id now o s e kept,
    )
  ]

  ioc-Keeps : (id : P.Ulid) (now : P.Timestamp) → Keeps I (apply_ioc_policy id now)
  unfolding apply_ioc_policy
  ioc-Keeps id now s kept = elim (Option-cases (S.orders.get_order id s.store)) [
    | inl e ↦ ground arith
    | inr (o, e) ↦ ground (
      arith,
      put id o (cancel now o).1 s.store e (cancel-id now o) kept,
      after_cancel-Keeps id now o s e kept,
    )
  ]

module _ ⦃P : Platform⦄ ⦃S : Stores⦄ (I : S.Orders → Type 0) (put : PutKeeps I)
    (saves : SaveKeeps I) where
  place-Keeps :
      (id : P.Ulid) (clock : ℕ → P.Timestamp) (req : NewOrderRequest)
      → Keeps I (place clock (new_order id (clock 0) req))
  unfolding place accept pending_trigger can_transition_to new_order Order.new
  place-Keeps id clock req s kept =
      let o = new_order id (clock 0) req in
      let waiting = record o { status = OrderStatus.pending_trigger; updated_at = clock 1 } in
      let open_ = record o { status = OrderStatus.accepted; updated_at = clock 1 } in
      ground (
        arith,
        saves waiting s.store kept,
        ioc-Keeps I put id (clock 2) (placed (clock 1) o s) (saves open_ s.store kept),
        saves open_ s.store kept,
      )

  module _ (id : P.Ulid) (clock : ℕ → P.Timestamp) (req : NewOrderRequest) where
    after_lock :
        (r : Result (Unit {0}))
        → Keeps I (λ s. (lift r >> place clock (new_order id (clock 0) req)) s)
    after_lock r =
        lift-Leads (λ s. I s.store) (λ s. I s.store) r (place clock (new_order id (clock 0) req))
          (λ t p. p) (place-Keeps id clock req)

    fok-Keeps :
        (i : Instrument) (s : OrderService)
        → get req.instrument s.instruments ≡ some i
        → verdict id clock req s ≡ ok tt
        → req.time_in_force ≡ TimeInForce.fok
        → I s.store
        → I (submit_order id clock req s).1.store
    fok-Keeps i s known v f kept =
        let rejected = record (new_order id (clock 0) req) {
          status = OrderStatus.rejected;
          updated_at = clock 1;
        } in
        let held = saves rejected s.store kept in
        elim (Result-cases (rejecting id clock req s).0) [
          | inl (u, e) ↦ rw (submit_order_fok id clock req s i known v f e) held
          | inr (inl e) ↦ rw (submit_fok_not_stored id clock req s i known v f (λ n. cc)) held
          | inr (inr (x, e)) ↦ rw (submit_fok_not_stored id clock req s i known v f (λ n. cc)) held
        ]

    submit_known-Keeps :
        (i : Instrument) (s : OrderService)
        → get req.instrument s.instruments ≡ some i
        → I s.store
        → I (submit_order id clock req s).1.store
    unfolding locking
    submit_known-Keeps i s known kept = elim (Result-cases (verdict id clock req s)) [
      | inr (inl k) ↦ rw (submit_order_refused id clock req s i known (λ v. cc)).1 kept
      | inr (inr (x, k)) ↦ rw (submit_order_refused id clock req s i known (λ v. cc)).1 kept
      | inl (u, v) ↦ elim (Bool-cases (req.time_in_force == TimeInForce.fok)) [
        | inl f ↦ fok-Keeps i s known v ((==_iff _ _).0 f) kept
        | inr f ↦ elim (Bool-cases (lt P.zero_value (submit_price req.order_type))) [
          | inl p ↦
              let t = locking id clock req s i known s in
              rw (submit_locked id clock req s i known v f p) (
                after_lock t.0 t.1 (
                  lock_for-Keeps I id (submit_price req.order_type) req.quantity i.leverage s kept))
          | inr p ↦
              rw (submit_unlocked id clock req s i known v f p) (place-Keeps id clock req s kept)
        ]
      ]
    ]

    pub submit_order-Keeps : Keeps I (submit_order id clock req)
    submit_order-Keeps s kept = elim (Option-cases (get req.instrument s.instruments)) [
      | inl e ↦ rw (submit_unknown id clock req s e) kept
      | inr (i, e) ↦ submit_known-Keeps i s e kept
    ]
