-- ===== src/Service/OrderService/Whole.antt =====
-- A Limit order that is submitted and filled whole.
use aegis_oms_rs.Prelude.{
  ℕ, ◌≡◌, ◌∙◌, refl, sym, ◌+ℤ◌, ◌-ℤ◌, some, arith, true, false, inl, ap, +ℤ_cancel, int_laws,
  eq_of_parts,
}
use aegis_oms_rs.Prelude.Map.{get-insert_self, get-remove, remove}
use aegis_oms_rs.Platform.{Platform}
use aegis_oms_rs.Platform.Decimal.{IsExact, add_exact}
use aegis_oms_rs.Domain.Status.{OrderStatus, status_eq}
use aegis_oms_rs.Domain.Error.{ok}
use aegis_oms_rs.Domain.Order.{Order, limit}
use aegis_oms_rs.Domain.Order
use aegis_oms_rs.Domain.Order.Fill.{fill_whole}
use aegis_oms_rs.Domain.Instrument.{Instrument}
use aegis_oms_rs.Infra.Repository.{Stores, IsMap}
use aegis_oms_rs.Service.OrderService.State.{OrderService, NewOrderRequest, lock_of}
use aegis_oms_rs.Service.OrderService.Submit.{submit_order, new_order}
use aegis_oms_rs.Service.OrderService.Fill.{fill_order, settle_fill, book_fill, is_market_order}
use aegis_oms_rs.Service.OrderService.Locks.{LocksMatch, release_margin_lem}
use aegis_oms_rs.Service.OrderService.Filling.{book_fill-SameLocks}
use aegis_oms_rs.Service.OrderService.Unchecked.{announced, filled_order, fill_order_unchecked}
use aegis_oms_rs.Service.OrderService.Immediate.{accepted_order, stored}
use aegis_oms_rs.Service.OrderService.Life.{
  IsTaken, IsReleased, submitted, submit_taken, submitted-LocksMatch,
}

module _ ⦃P : Platform⦄ ⦃S : Stores⦄ where
  -- Settling the fill of an order that is filled releases its lock, whatever the booking comes to.
  settle_filled :
      (trade_id : P.Ulid) (now : P.Timestamp) (id : P.Ulid) (qty price m : P.Decimal) (o : Order)
      (v : OrderService)
      → o.status ≡ OrderStatus.filled
      → LocksMatch v
      → lock_of id v ≡ some m
      → IsExact (P.units v.account.locked_margin -ℤ P.units m)
      → let u = (settle_fill trade_id now id qty price o v).1 in
        (P.units u.account.locked_margin ≡ P.units v.account.locked_margin -ℤ P.units m)
        × (u.margin_locks ≡ remove ⦃e = P.ulid_is_eq⦄ id v.margin_locks)
        × (u.store ≡ v.store)
  unfolding settle_fill
  settle_filled trade_id now id qty price m o v f l e exact =
      let (c, less, r) = release_margin_lem id m v l e exact in
      let w = record v {
        account = record (v.account) { locked_margin = c };
        margin_locks = remove ⦃e = P.ulid_is_eq⦄ id v.margin_locks;
      } in
      let same = book_fill-SameLocks trade_id now id qty price o w in
      let out : (settle_fill trade_id now id qty price o v).1
          ≡ (book_fill trade_id now id qty price o w).1 =
        ground (arith, f, r) in
      rw out (rw same.0 less, same.1, same.2)

module _ ⦃P : Platform⦄ ⦃S : Stores⦄ (id : P.Ulid) (clock : ℕ → P.Timestamp)
    (req : NewOrderRequest) where
  -- The order as the fill leaves it, with `q` filled.
  abbrev pub filled_whole : P.Decimal → P.Timestamp → Order
  filled_whole q now = record (new_order id (clock 0) req) {
    status = OrderStatus.filled;
    filled_quantity = q;
    updated_at = now;
  }

  zero_more : (q : P.Decimal) → P.units q ≡ P.units P.zero_value +ℤ P.units q
  zero_more q = rw P.zero_lem (eq_of_parts _ _ (omega int_laws))

  -- Over a repository that is a map from identifiers to orders, and where locks and account are in
  -- step: a Limit order that is taken and then filled whole by one fill, at whatever price and
  -- whatever the booking of the fill comes to, is stored as Filled, with its quantity filled, and
  -- nothing more is locked than before the submission, with no lock of the order.
  pub fill_order-submit_order :
      (s : OrderService) (i : Instrument) (p : P.Decimal) (trade_id : P.Ulid)
      (later : ℕ → P.Timestamp) (price : P.Decimal)
      → IsMap S.orders
      → LocksMatch s
      → IsTaken id clock req s i p
      → let (r, t) = submit_order id clock req s in
        let u = (fill_order trade_id later id req.quantity price t).1 in
        (r ≡ ok id)
        × IsReleased id clock req s u
        × ((q : P.Decimal) × (P.units q ≡ P.units req.quantity)
            × (S.orders.get_order id u.store ≡ some (filled_whole q (later 0))))
  unfolding new_order Order.new is_market_order
  fill_order-submit_order s i p trade_id later price map l h =
      let (m, c, required, above, sum, e) = submit_taken id clock req s i p h in
      let t = submitted id clock req s i p m c in
      let o = accepted_order id clock req s in
      let found : S.orders.get_order id t.store ≡ some o = stored id clock req s map h.stores in
      let back : IsExact (P.units c -ℤ P.units m) =
        (s.account.locked_margin, rw (sum, +ℤ_cancel) refl) in
      let same_id : P.ulid_is_eq.beq id id ≡ true = (P.ulid_is_eq.beq_iff id id).1 refl in
      let held = get-insert_self ⦃e = P.ulid_is_eq⦄ id m s.margin_locks in
      let (q, total, v) =
        add_exact P.zero_value req.quantity (req.quantity, zero_more req.quantity) in
      let whole : P.units q ≡ P.units req.quantity = v ∙ sym (zero_more req.quantity) in
      let o' = filled_whole q (later 0) in
      let fills = fill_whole req.quantity price (later 0) o q (inl refl) total whole in
      let taken = ap (λ f. f.0) fills in
      let o'' = filled_order trade_id later id req.quantity price t o found taken in
      let at_limit : is_market_order o''.order_type ≡ false =
        ap (λ f. is_market_order f.1.order_type) fills ∙ rw (h.at_limit, is_market_order) refl in
      let w = announced trade_id later id req.quantity price t o found taken in
      let out =
        fill_order_unchecked trade_id later id req.quantity price t o found taken at_limit in
      let (less, gone, kept) =
        settle_filled trade_id (later 1) id req.quantity price m o'' w (ap (λ f. f.1.status) fills)
          (submitted-LocksMatch id clock req s i p m c h l e) held back in
      rw (e, out)
        (
          refl,
          record {
            unlocked = less ∙ rw (sum, +ℤ_cancel) refl;
            no_lock =
                rw gone (get-remove ⦃e = P.ulid_is_eq⦄ id id t.margin_locks ∙ rw same_id refl);
          },
          (
            q,
            whole,
            rw kept (map.put_lem id id o'' t.store ∙ rw same_id (ap (λ f. some f.1) fills)),
          ),
        )
