-- ===== src/Service/MarginMonitor/Liquidation.antt =====
-- What the forced liquidation does to the positions.
use aegis_oms_rs.Prelude.{
  ℕ, suc, ◌≡◌, refl, ◌∙◌, List, [], ◌∷◌, arith, inl, inr, Option-cases, Bool-cases, some,
}
use aegis_oms_rs.Prelude.Eq.{◌==◌, ==_iff, string_eq}
use aegis_oms_rs.Prelude.Map.{get}
use aegis_oms_rs.Platform.{Platform}
use aegis_oms_rs.Infra.Repository.{Stores}
use aegis_oms_rs.Platform.Decimal.{lt}
use aegis_oms_rs.Domain.Status.{TimeInForce, can_transition_to, tif_eq}
use aegis_oms_rs.Domain.Error.{Result, ok, err, panic, Result-cases, lift, ◌>>◌}
use aegis_oms_rs.Domain.Order.{accept, pending_trigger}
use aegis_oms_rs.Domain.Order
use aegis_oms_rs.Domain.Position.{Position}
use aegis_oms_rs.Domain.Instrument.{Instrument}
use aegis_oms_rs.Service.OrderService.State.{OrderService, NewOrderRequest, release_margin}
use aegis_oms_rs.Service.OrderService.Submit.{
  submit_order, lock_for, place, apply_ioc_policy, new_order, submit_price,
}
use aegis_oms_rs.Service.OrderService.Policy.{
  verdict, placed, locking, submit_unknown, submit_order_refused, submit_order_fok,
  submit_fok_not_stored, rejecting, submit_locked, submit_unlocked,
}
use aegis_oms_rs.Service.OrderService.Query.{get_positions}
use aegis_oms_rs.Service.MarginMonitor.{liquidate, force_liquidate, close_request}

module _ ⦃P : Platform⦄ ⦃S : Stores⦄ where
  lock_for-positions :
      (id : P.Ulid) (price quantity leverage : P.Decimal) (s : OrderService)
      → (lock_for id price quantity leverage s).1.positions ≡ s.positions
  unfolding lock_for
  lock_for-positions id price quantity leverage s = ground arith

  ioc-positions :
      (id : P.Ulid) (now : P.Timestamp) (s : OrderService)
      → (apply_ioc_policy id now s).1.positions ≡ s.positions
  unfolding apply_ioc_policy release_margin
  ioc-positions id now s = ground arith

  place-positions :
      (id : P.Ulid) (clock : ℕ → P.Timestamp) (req : NewOrderRequest) (s : OrderService)
      → (place clock (new_order id (clock 0) req) s).1.positions ≡ s.positions
  unfolding place accept pending_trigger can_transition_to new_order Order.new
  place-positions id clock req s =
      let o = new_order id (clock 0) req in
      ground (arith, ioc-positions id (clock 2) (placed (clock 1) o s))

  after_lock-positions :
      (id : P.Ulid) (clock : ℕ → P.Timestamp) (req : NewOrderRequest) (r : Result (Unit {0}))
      (s : OrderService)
      → ((lift r >> place clock (new_order id (clock 0) req)) s).1.positions ≡ s.positions
  after_lock-positions id clock req (ok u) s = place-positions id clock req s
  after_lock-positions id clock req (err e) s = refl
  after_lock-positions id clock req panic s = refl

  module _ (id : P.Ulid) (clock : ℕ → P.Timestamp) (req : NewOrderRequest) (s : OrderService) where
    known-positions :
        (i : Instrument)
        → get req.instrument s.instruments ≡ some i
        → verdict id clock req s ≡ ok tt
        → (submit_order id clock req s).1.positions ≡ s.positions
    unfolding locking
    known-positions i e v = elim (Bool-cases (req.time_in_force == TimeInForce.fok)) [
      | inl f ↦ elim (Result-cases (rejecting id clock req s).0) [
        | inl (u, k) ↦ rw (submit_order_fok id clock req s i e v ((==_iff _ _).0 f) k) refl
        | inr (inl k) ↦
            rw (submit_fok_not_stored id clock req s i e v ((==_iff _ _).0 f) (λ n. cc)) refl
        | inr (inr (x, k)) ↦
            rw (submit_fok_not_stored id clock req s i e v ((==_iff _ _).0 f) (λ n. cc)) refl
      ]
      | inr f ↦ elim (Bool-cases (lt P.zero_value (submit_price req.order_type))) [
        | inl p ↦
            let t = lock_for id (submit_price req.order_type) req.quantity i.leverage s in
            rw (submit_locked id clock req s i e v f p) (
              after_lock-positions id clock req t.0 t.1
              ∙ lock_for-positions id (submit_price req.order_type) req.quantity i.leverage s)
        | inr p ↦ rw (submit_unlocked id clock req s i e v f p) (place-positions id clock req s)
      ]
    ]

    submit_order-positions : (submit_order id clock req s).1.positions ≡ s.positions
    submit_order-positions = elim (Option-cases (get req.instrument s.instruments)) [
      | inl e ↦ rw (submit_unknown id clock req s e) refl
      | inr (i, e) ↦ elim (Result-cases (verdict id clock req s)) [
        | inl (u, v) ↦ known-positions i e v
        | inr (inl k) ↦ rw (submit_order_refused id clock req s i e (λ v. cc)).1 refl
        | inr (inr (x, k)) ↦ rw (submit_order_refused id clock req s i e (λ v. cc)).1 refl
      ]
    ]

  liquidate-positions :
      (ids : ℕ → P.Ulid) (clock : ℕ → ℕ → P.Timestamp) (ps : List Position) (s : OrderService)
      → (liquidate ids clock ps s).1.positions ≡ s.positions
  unfolding liquidate
  liquidate-positions ids clock [] s = refl
  liquidate-positions ids clock (p ∷ ps) s =
      let t = (submit_order (ids 0) (clock 0) (close_request p) s).1 in
      ground (
        arith,
        submit_order-positions (ids 0) (clock 0) (close_request p) s,
        liquidate-positions (λ n. ids (suc n)) (λ n. clock (suc n)) ps t,
      )

  -- Whatever its outcome, a forced liquidation leaves every position as it was.
  pub force_liquidate-positions :
      (ids : ℕ → P.Ulid) (clock : ℕ → ℕ → P.Timestamp) (s : OrderService)
      → (force_liquidate ids clock s).1.positions ≡ s.positions
  unfolding force_liquidate
  force_liquidate-positions ids clock s =
      ground (arith, liquidate-positions ids clock (get_positions s) s)
