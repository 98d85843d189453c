-- ===== src/Service/OrderService/Unstored.antt =====
-- Orders that the repository turns down.
use aegis_oms_rs.Prelude.{
  ℕ, ◌≡◌, ◌≢◌, ◌∙◌, pos, ◌+ℤ◌, ◌<ℤ◌, some, none, arith, true, false, inl, inr, refl, Bool-cases,
}
use aegis_oms_rs.Prelude.Eq.{◌==◌, ==_iff, string_eq}
use aegis_oms_rs.Prelude.Map.{get, get-insert_self}
use aegis_oms_rs.Platform.{Platform}
use aegis_oms_rs.Platform.Decimal.{lt}
use aegis_oms_rs.Domain.Status.{TimeInForce, tif_eq, can_transition_to}
use aegis_oms_rs.Domain.Error.{Result, ok, err, OmsError, order_not_found}
use aegis_oms_rs.Domain.Order.{Order, limit, accept, is_stop_type}
use aegis_oms_rs.Domain.Order
use aegis_oms_rs.Domain.Account.{required_margin}
use aegis_oms_rs.Domain.Instrument.{Instrument}
use aegis_oms_rs.Infra.Repository.{Stores, IsMap}
use aegis_oms_rs.Service.OrderService.State.{OrderService, NewOrderRequest, lock_of}
use aegis_oms_rs.Service.OrderService.Submit.{
  submit_order, cancel_order, new_order, place, lock_for, submit_price,
}
use aegis_oms_rs.Service.OrderService.Lock.{ExactLock, with_lock, lock_for_cases}
use aegis_oms_rs.Service.OrderService.Policy.{verdict, locking, submit_locked}
use aegis_oms_rs.Service.OrderService.Cancel.{cancel_order_missing}
use aegis_oms_rs.Service.OrderService.Immediate.{accepted_order}

module _ ⦃P : Platform⦄ ⦃S : Stores⦄ (id : P.Ulid) (clock : ℕ → P.Timestamp)
    (req : NewOrderRequest) where
  -- What the repository answers when the order is saved.
  abbrev pub saving : OrderService → Result (Unit {0}) × S.Orders
  saving s = S.orders.save (accepted_order id clock req s) s.store

  place_unstored :
      (s : OrderService) (p : P.Decimal) (x : OmsError)
      → req.order_type ≡ limit p
      → (saving s).0 ≡ err x
      → place clock (new_order id (clock 0) req) s ≡ (err x, record s { store = (saving s).1 })
  unfolding place accept can_transition_to is_stop_type new_order Order.new
  place_unstored s p x t w = ground arith

  -- The margin `m` of an order that is not stored: the account has it locked, the lock is recorded,
  -- and a cancellation finds no order to release it for.
  pub record IsStuck (m : P.Decimal) (s t : OrderService) : Type 0 where
    pub locked : P.units t.account.locked_margin ≡ P.units s.account.locked_margin +ℤ P.units m
    pub recorded : lock_of id t ≡ some m
    pub missing : S.orders.get_order id t.store ≡ none
    pub cancel_fails : (now : P.Timestamp) → cancel_order id now t ≡ (err (order_not_found id), t)

  unsaved_missing :
      (s : OrderService) (x : OmsError)
      → IsMap S.orders
      → S.orders.get_order id s.store ≡ none
      → (saving s).0 ≡ err x
      → S.orders.get_order id (saving s).1 ≡ none
  unsaved_missing s x map n w = map.save_lem (accepted_order id clock req s) s.store id ∙ rw w n

  -- Over a repository that is a map from identifiers to orders: where a Limit request for a known
  -- instrument passes the risk checks, is no Fill-or-Kill, comes under an identifier that no order
  -- has, and its margin is exactly locked, but the repository turns the order down, the submission
  -- fails with the repository's error and no order is stored, but the margin stays locked and
  -- recorded, and cancelling under this identifier fails too.
  pub submit_order_unstored :
      (s : OrderService) (i : Instrument) (p : P.Decimal) (x : OmsError)
      → IsMap S.orders
      → get req.instrument s.instruments ≡ some i
      → verdict id clock req s ≡ ok tt
      → req.order_type ≡ limit p
      → req.time_in_force ≢ TimeInForce.fok
      → pos 0 <ℤ P.units p
      → ExactLock id p req.quantity i.leverage s
      → (lock_for id p req.quantity i.leverage s).0 ≡ ok tt
      → S.orders.get_order id s.store ≡ none
      → (saving s).0 ≡ err x
      → let (r, t) = submit_order id clock req s in
        (m : P.Decimal) × (required_margin p req.quantity i.leverage ≡ ok m)
        × (pos 0 <ℤ P.units m)
        × (r ≡ err x)
        × IsStuck m s t
  unfolding locking submit_price
  submit_order_unstored s i p x map known v t tif positive exact locks n w =
      elim (lock_for_cases id p req.quantity i.leverage s exact) [
        | inr (fails, same) ↦ absurd (fails locks)
        | inl (m, c, required, h, sum, e) ↦
            let no_fok : (req.time_in_force == TimeInForce.fok) ≡ false =
              elim (Bool-cases (req.time_in_force == TimeInForce.fok)) [
                | inl f ↦ absurd (tif ((==_iff _ _).0 f))
                | inr f ↦ f
              ] in
            let priced : lt P.zero_value (submit_price req.order_type) ≡ true =
              rw (t, submit_price) (ground (arith, P.zero_lem)) in
            let behind = with_lock id p req.quantity i.leverage s m c in
            let lock : lock_for id (submit_price req.order_type) req.quantity i.leverage s
                ≡ (ok tt, behind) =
              rw (t, submit_price) e in
            let out : submit_order id clock req s
                ≡ (err x, record behind { store = (saving s).1 }) =
              submit_locked id clock req s i known v no_fok priced
              ∙ rw lock (place_unstored behind p x t w) in
            rw out (
              m,
              required,
              h,
              refl,
              record {
                locked = sum;
                recorded = get-insert_self ⦃e = P.ulid_is_eq⦄ id m s.margin_locks;
                missing = unsaved_missing s x map n w;
                cancel_fails = λ now.
                    cancel_order_missing id now (record behind { store = (saving s).1 })
                      (unsaved_missing s x map n w);
              },
            )
      ]
