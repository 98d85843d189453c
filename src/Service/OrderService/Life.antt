-- ===== src/Service/OrderService/Life.antt =====
-- The whole life of a Limit order: submitted, and cancelled or filled.
use aegis_oms_rs.Prelude.{
  ℕ, ◌≡◌, ◌∙◌, refl, sym, pos, ◌+ℤ◌, ◌-ℤ◌, ◌<ℤ◌, some, none, arith, true, false, inl, inr,
  +ℤ_cancel, some_inj,
}
use aegis_oms_rs.Prelude.Eq.{◌==◌, string_eq}
use aegis_oms_rs.Prelude.Map.{get, get-insert_self, get-remove}
use aegis_oms_rs.Platform.{Platform}
use aegis_oms_rs.Platform.Decimal.{lt, IsExact}
use aegis_oms_rs.Domain.Status.{OrderStatus, TimeInForce, tif_eq, can_transition_to}
use aegis_oms_rs.Domain.Error.{Result, ok}
use aegis_oms_rs.Domain.Order.{Order, limit, accept, is_stop_type}
use aegis_oms_rs.Domain.Order
use aegis_oms_rs.Domain.Account.{required_margin}
use aegis_oms_rs.Domain.Instrument.{Instrument}
use aegis_oms_rs.Infra.Repository.{Stores, IsMap}
use aegis_oms_rs.Service.OrderService.State.{OrderService, NewOrderRequest, lock_of}
use aegis_oms_rs.Service.OrderService.Submit.{
  submit_order, cancel_order, new_order, place, lock_for, submit_price,
}
use aegis_oms_rs.Service.OrderService.Locks.{LocksMatch}
use aegis_oms_rs.Service.OrderService.Lock.{ExactLock, with_lock, lock_for_cases}
use aegis_oms_rs.Service.OrderService.Policy.{
  verdict, locking, submit_locked, placed, submit_order-LocksMatch,
}
use aegis_oms_rs.Service.OrderService.Cancel.{cancel_order_lem}
use aegis_oms_rs.Service.OrderService.Immediate.{accepted_order, CanStore, stored}

module _ ⦃P : Platform⦄ ⦃S : Stores⦄ (id : P.Ulid) (clock : ℕ → P.Timestamp)
    (req : NewOrderRequest) where
  place_stored :
      (s : OrderService) (p : P.Decimal)
      → req.order_type ≡ limit p
      → req.time_in_force ≡ TimeInForce.gtc
      → CanStore id clock req s
      → place clock (new_order id (clock 0) req) s
        ≡ (ok id, placed (clock 1) (new_order id (clock 0) req) s)
  unfolding place accept can_transition_to is_stop_type new_order Order.new
  place_stored s p t g w = ground arith

  -- The margin that a Limit order of the instrument takes at the price.
  abbrev pub margin_of : P.Decimal → Instrument → Result P.Decimal
  margin_of p i = required_margin p req.quantity i.leverage

  -- A request that is taken: a Limit order, good till cancelled, of a known instrument, which
  -- passes the checks, whose margin is there and locked exactly, under a new identifier, and which
  -- the repository stores.
  pub record IsTaken (s : OrderService) (i : Instrument) (p : P.Decimal) : Type 0 where
    pub known : get req.instrument s.instruments ≡ some i
    pub passes : verdict id clock req s ≡ ok tt
    pub at_limit : req.order_type ≡ limit p
    pub till_cancelled : req.time_in_force ≡ TimeInForce.gtc
    pub positive : pos 0 <ℤ P.units p
    pub exact : ExactLock id p req.quantity i.leverage s
    pub locks : (lock_for id p req.quantity i.leverage s).0 ≡ ok tt
    pub fresh : lock_of id s ≡ none
    pub stores : CanStore id clock req s

  -- The service with the margin `m` locked, `c` in all, and the order stored.
  abbrev pub submitted :
      OrderService → Instrument → P.Decimal → P.Decimal → P.Decimal → OrderService
  submitted s i p m c =
      placed (clock 1) (new_order id (clock 0) req) (with_lock id p req.quantity i.leverage s m c)

  pub submit_taken :
      (s : OrderService) (i : Instrument) (p : P.Decimal)
      → IsTaken s i p
      → (m c : P.Decimal) × (margin_of p i ≡ ok m)
        × (pos 0 <ℤ P.units m)
        × (P.units c ≡ P.units s.account.locked_margin +ℤ P.units m)
        × (submit_order id clock req s ≡ (ok id, submitted s i p m c))
  unfolding locking submit_price
  submit_taken s i p h = elim (lock_for_cases id p req.quantity i.leverage s h.exact) [
    | inr (fails, same) ↦ absurd (fails h.locks)
    | inl (m, c, required, above, sum, e) ↦
        let behind = with_lock id p req.quantity i.leverage s m c in
        let no_fok : (req.time_in_force == TimeInForce.fok) ≡ false = rw h.till_cancelled refl in
        let priced : lt P.zero_value (submit_price req.order_type) ≡ true =
          rw (h.at_limit, submit_price) (ground (arith, P.zero_lem, h.positive)) in
        let lock : lock_for id (submit_price req.order_type) req.quantity i.leverage s
            ≡ (ok tt, behind) =
          rw (h.at_limit, submit_price) e in
        let out : submit_order id clock req s ≡ (ok id, submitted s i p m c) =
          submit_locked id clock req s i h.known h.passes no_fok priced
          ∙ rw lock (place_stored behind p h.at_limit h.till_cancelled h.stores) in
        (m, c, required, above, sum, out)
  ]

  -- The service `u` behind the order's life: what is locked is what was in `s`, and the order holds
  -- no lock.
  pub record IsReleased (s u : OrderService) : Type 0 where
    pub unlocked : P.units u.account.locked_margin ≡ P.units s.account.locked_margin
    pub no_lock : lock_of id u ≡ none

  pub submitted-LocksMatch :
      (s : OrderService) (i : Instrument) (p m c : P.Decimal)
      → IsTaken s i p
      → LocksMatch s
      → submit_order id clock req s ≡ (ok id, submitted s i p m c)
      → LocksMatch (submitted s i p m c)
  unfolding submit_price
  submitted-LocksMatch s i p m c h l e =
      let exact : (j : Instrument)
          → get req.instrument s.instruments ≡ some j
          → ExactLock id (submit_price req.order_type) req.quantity j.leverage s =
        λ j k.
          let same : i ≡ j = some_inj (sym h.known ∙ k) in
          rw (h.at_limit, submit_price, ← same) h.exact in
      rw e at (submit_order-LocksMatch id clock req s h.fresh exact l)

  -- Over a repository that is a map from identifiers to orders, and where locks and account are in
  -- step: a Limit order that is taken and then cancelled leaves the account as it was, with nothing
  -- more locked than before, no lock of the order, and the positions as they were; the order is
  -- stored as Cancelled.
  pub cancel_order-submit_order :
      (s : OrderService) (i : Instrument) (p : P.Decimal) (now : P.Timestamp)
      → IsMap S.orders
      → LocksMatch s
      → IsTaken s i p
      → let (r, t) = submit_order id clock req s in
        let (r', u) = cancel_order id now t in
        (r ≡ ok id)
        × (r' ≡ ok tt)
        × IsReleased s u
        × (u.account.balance ≡ s.account.balance)
        × (u.positions ≡ s.positions)
        × (S.orders.get_order id u.store
            ≡ some (record (new_order id (clock 0) req) {
              status = OrderStatus.cancelled;
              updated_at = now;
            }))
  unfolding can_transition_to
  cancel_order-submit_order s i p now map l h =
      let (m, c, required, above, sum, e) = submit_taken s i p h in
      let t = submitted s i p m c in
      let o = accepted_order id clock req s in
      let found : S.orders.get_order id t.store ≡ some o = stored id clock req s map h.stores in
      let back : IsExact (P.units c -ℤ P.units m) =
        (s.account.locked_margin, rw (sum, +ℤ_cancel) refl) in
      let same_id : P.ulid_is_eq.beq id id ≡ true = (P.ulid_is_eq.beq_iff id id).1 refl in
      let held = get-insert_self ⦃e = P.ulid_is_eq⦄ id m s.margin_locks in
      let (d, less, k) =
        cancel_order_lem id now t o m (submitted-LocksMatch s i p m c h l e) found refl held back in
      let o' = record o { status = OrderStatus.cancelled; updated_at = now } in
      rw (e, k)
        (
          refl,
          refl,
          record {
            unlocked = rw (less, sum, +ℤ_cancel) refl;
            no_lock = get-remove ⦃e = P.ulid_is_eq⦄ id id t.margin_locks ∙ rw same_id refl;
          },
          refl,
          refl,
          map.put_lem id id o' t.store ∙ rw (same_id) refl,
        )
