-- ===== src/Service/OrderService/Policy.antt =====
-- `submit_order` by the order's time in force, and what it keeps.
use aegis_oms_rs.Prelude.{
  none_not_some, ℕ, ◌≡◌, sym, ◌∙◌, ◌≢◌, some, none, arith, true, false, inl, inr, Option-cases,
  Bool-cases,
}
use aegis_oms_rs.Prelude.Eq.{◌==◌, ==_iff, string_eq}
use aegis_oms_rs.Prelude.Map.{get, length}
use aegis_oms_rs.Platform.{Platform}
use aegis_oms_rs.Infra.Repository.{Stores}
use aegis_oms_rs.Platform.Decimal.{lt}
use aegis_oms_rs.Domain.Status.{OrderStatus, TimeInForce, tif_eq, can_transition_to}
use aegis_oms_rs.Domain.Error.{
  Result, ok, err, fok_rejected, Result-cases, lift, ◌>>◌, Method, instrument_not_found,
}
use aegis_oms_rs.Domain.Method.{Leads, lift-Leads}
use aegis_oms_rs.Domain.Order.{Order, accept, reject, pending_trigger, cancel}
use aegis_oms_rs.Domain.Order
use aegis_oms_rs.Domain.Event.{OrderEvent}
use aegis_oms_rs.Domain.Instrument.{Instrument}
use aegis_oms_rs.Infra.EventBus
use aegis_oms_rs.Service.RiskCheck.{validate_order}
use aegis_oms_rs.Service.OrderService.State.{NewOrderRequest, OrderService, lock_of}
use aegis_oms_rs.Service.OrderService.Submit.{
  submit_order, new_order, place, apply_ioc_policy, submit_price, lock_for,
}
use aegis_oms_rs.Service.OrderService.Locks.{LocksMatch, ExactRelease, release-LocksMatch}
use aegis_oms_rs.Service.OrderService.Lock.{ExactLock, lock_for-LocksMatch}

module _ ⦃P : Platform⦄ ⦃S : Stores⦄ (id : P.Ulid) (clock : ℕ → P.Timestamp) (req : NewOrderRequest)
    (s : OrderService) where
  -- The verdict of the risk checks on the request.
  abbrev pub verdict : Result (Unit {0})
  verdict =
      validate_order s.limits req.order_type req.quantity
        (length (S.orders.find_open_orders s.store)) (length s.positions)

  -- A request for an unknown instrument is an error that changes nothing.
  pub submit_unknown :
      get req.instrument s.instruments ≡ none
      → submit_order id clock req s ≡ (err (instrument_not_found req.instrument), s)
  unfolding submit_order
  submit_unknown e = rw (e, submit_order)

  -- A request for a known instrument that the risk checks turn down does not return the order's
  -- identifier, and changes nothing.
  pub submit_order_refused :
      (i : Instrument)
      → get req.instrument s.instruments ≡ some i
      → verdict ≢ ok tt
      → ((submit_order id clock req s).0 ≢ ok id) × ((submit_order id clock req s).1 ≡ s)
  unfolding submit_order
  submit_order_refused i e v = elim (Result-cases verdict) [
    | inl (u, k) ↦ absurd (v k)
    | inr (inl k) ↦ (ground arith, ground arith)
    | inr (inr (x, k)) ↦ (ground arith, ground arith)
  ]

  -- The outcome of storing a Fill-or-Kill order as rejected.
  abbrev pub rejecting : Result (Unit {0}) × S.Orders
  rejecting =
      S.orders.save
        (record (new_order id (clock 0) req) {
          status = OrderStatus.rejected;
          updated_at = clock 1;
        })
        s.store

  -- A Fill-or-Kill request for a known instrument that the risk checks let through is never placed.
  -- If the order can be stored then it is stored as Rejected, the rejection is published, and the
  -- call fails.
  pub submit_order_fok :
      (i : Instrument)
      → get req.instrument s.instruments ≡ some i
      → verdict ≡ ok tt
      → req.time_in_force ≡ TimeInForce.fok
      → rejecting.0 ≡ ok tt
      → submit_order id clock req s ≡ (
        err (fok_rejected id P.zero_value req.quantity),
        record s {
          store = rejecting.1;
          event_bus =
              EventBus.publish (OrderEvent.fok_rejected id P.zero_value req.quantity) s.event_bus;
        },
      )
  unfolding submit_order reject can_transition_to Order.new
  submit_order_fok i e v f w = ground arith

  pub submit_fok_not_stored :
      (i : Instrument)
      → get req.instrument s.instruments ≡ some i
      → verdict ≡ ok tt
      → req.time_in_force ≡ TimeInForce.fok
      → rejecting.0 ≢ ok tt
      → (submit_order id clock req s).1 ≡ record s { store = rejecting.1 }
  unfolding submit_order reject can_transition_to Order.new
  submit_fok_not_stored i e v f w = elim (Result-cases rejecting.0) [
    | inl (u, k) ↦ absurd (w k)
    | inr (inl k) ↦ ground arith
    | inr (inr (x, k)) ↦ ground arith
  ]

module _ ⦃P : Platform⦄ ⦃S : Stores⦄ where
  ioc-LocksMatch :
      (id : P.Ulid) (now : P.Timestamp)
      → Leads (λ s. LocksMatch s × ExactRelease id s) LocksMatch (apply_ioc_policy id now)
  unfolding apply_ioc_policy
  ioc-LocksMatch id now s (l, x) = elim (Option-cases (S.orders.get_order id s.store)) [
    | inl e ↦ ground arith
    | inr (o, e) ↦ ground (
      arith,
      release-LocksMatch id (record s { store = S.orders.put_order id (cancel now o).1 s.store })
          (l, x),
    )
  ]

  -- The state after an order has been stored as Accepted and announced.
  abbrev pub placed : P.Timestamp → Order → OrderService → OrderService
  placed now o s = record s {
    store =
        (S.orders.save (record o { status = OrderStatus.accepted; updated_at = now }) s.store).1;
    event_bus = EventBus.publish (OrderEvent.accepted o.id) s.event_bus;
  }

  place-LocksMatch :
      (id : P.Ulid) (clock : ℕ → P.Timestamp) (req : NewOrderRequest)
      → Leads
          (λ s. LocksMatch s × ExactRelease id s)
          LocksMatch
          (place clock (new_order id (clock 0) req))
  unfolding place accept pending_trigger can_transition_to new_order Order.new
  place-LocksMatch id clock req s h =
      ground
        (arith, ioc-LocksMatch id (clock 2) (placed (clock 1) (new_order id (clock 0) req) s) h)

  after_lock :
      (id : P.Ulid) (clock : ℕ → P.Timestamp) (req : NewOrderRequest) (r : Result (Unit {0}))
      → Leads
          (λ s. LocksMatch s × ExactRelease id s)
          LocksMatch
          (λ s. (lift r >> place clock (new_order id (clock 0) req)) s)
  after_lock id clock req r =
      lift-Leads (λ s. LocksMatch s × ExactRelease id s) LocksMatch r
        (place clock (new_order id (clock 0) req)) (λ t h. h.0) (place-LocksMatch id clock req)

  module _ (id : P.Ulid) (clock : ℕ → P.Timestamp) (req : NewOrderRequest) (s : OrderService)
      (i : Instrument) (known : get req.instrument s.instruments ≡ some i) where
    unfoldable pub locking : Method OrderService (Unit {0})
    locking = lock_for id (submit_price req.order_type) req.quantity i.leverage

    -- The parts of a submission behind the checks.
    pub submit_locked :
        verdict id clock req s ≡ ok tt
        → (req.time_in_force == TimeInForce.fok) ≡ false
        → lt P.zero_value (submit_price req.order_type) ≡ true
        → submit_order id clock req s
          ≡ (lift (locking s).0 >> place clock (new_order id (clock 0) req)) (locking s).1
    unfolding submit_order locking
    submit_locked v f p = rw (known, v, f, p, submit_order)

    pub submit_unlocked :
        verdict id clock req s ≡ ok tt
        → (req.time_in_force == TimeInForce.fok) ≡ false
        → lt P.zero_value (submit_price req.order_type) ≡ false
        → submit_order id clock req s ≡ place clock (new_order id (clock 0) req) s
    unfolding submit_order
    submit_unlocked v f p = rw (known, v, f, p, submit_order)

    fok-LocksMatch :
        verdict id clock req s ≡ ok tt
        → req.time_in_force ≡ TimeInForce.fok
        → LocksMatch s
        → LocksMatch (submit_order id clock req s).1
    fok-LocksMatch v f l = elim (Result-cases (rejecting id clock req s).0) [
      | inl (u, e) ↦ rw (submit_order_fok id clock req s i known v f e) l
      | inr (inl e) ↦ rw (submit_fok_not_stored id clock req s i known v f (λ n. cc)) l
      | inr (inr (x, e)) ↦ rw (submit_fok_not_stored id clock req s i known v f (λ n. cc)) l
    ]

    submit_known-LocksMatch :
        LocksMatch s
        → ExactLock id (submit_price req.order_type) req.quantity i.leverage s
        → lock_of id s ≡ none
        → LocksMatch (submit_order id clock req s).1
    unfolding locking
    submit_known-LocksMatch l exact fresh = elim (Result-cases (verdict id clock req s)) [
      | inr (inl k) ↦ rw (submit_order_refused id clock req s i known (λ v. cc)).1 l
      | inr (inr (x, k)) ↦ rw (submit_order_refused id clock req s i known (λ v. cc)).1 l
      | inl (u, v) ↦ elim (Bool-cases (req.time_in_force == TimeInForce.fok)) [
        | inl f ↦ fok-LocksMatch v ((==_iff _ _).0 f) l
        | inr f ↦ elim (Bool-cases (lt P.zero_value (submit_price req.order_type))) [
          | inl p ↦ rw (submit_locked v f p) (
              after_lock id clock req (locking s).0 (locking s).1 (
                lock_for-LocksMatch id (submit_price req.order_type) req.quantity i.leverage s exact
                  fresh l))
          | inr p ↦
              rw (submit_unlocked v f p)
                (place-LocksMatch id clock req s (l, λ m k. absurd (none_not_some (sym fresh ∙ k))))
        ]
      ]
    ]

  -- Whatever its outcome, submitting an order under a fresh identifier keeps the locks and the
  -- account in step, if the margin that it requires is locked exactly.
  pub submit_order-LocksMatch :
      (id : P.Ulid) (clock : ℕ → P.Timestamp) (req : NewOrderRequest) (s : OrderService)
      → lock_of id s ≡ none
      → ((i : Instrument)
          → get req.instrument s.instruments ≡ some i
          → ExactLock id (submit_price req.order_type) req.quantity i.leverage s)
      → LocksMatch s
      → LocksMatch (submit_order id clock req s).1
  submit_order-LocksMatch id clock req s fresh exact l =
      elim (Option-cases (get req.instrument s.instruments)) [
        | inl e ↦ rw (submit_unknown id clock req s e) l
        | inr (i, e) ↦ submit_known-LocksMatch id clock req s i e l (exact i e) fresh
      ]
