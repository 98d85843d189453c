-- ===== src/Infra/PgOrder/Saved.antt =====
-- What comes back of an order that was saved.
use aegis_oms_rs.Prelude.{◌≡◌, refl, ◌∙◌, Option, none, some, arith, false, inl, inr, Sum-cases}
use aegis_oms_rs.Prelude.Eq.{string_eq}
use aegis_oms_rs.Platform.{Platform}
use aegis_oms_rs.Platform.Text.{Texts}
use aegis_oms_rs.Domain.Status.{Side, TimeInForce, OrderStatus}
use aegis_oms_rs.Domain.Error.{ok}
use aegis_oms_rs.Domain.Order.{
  Order, OrderType, market, limit, stop, stop_limit, trailing_stop, is_trailing_stop,
}
use aegis_oms_rs.Infra.PgOrder.Database.{OrderTable}
use aegis_oms_rs.Infra.PgOrder.Repository.{PgOrderRepository, save, load_order, get_order}
use aegis_oms_rs.Infra.OrderStore
use aegis_oms_rs.Prelude.Map.{get-insert_self}
use aegis_oms_rs.Infra.PgOrder.{
  side_to_str, str_to_side, time_in_force_to_str, str_to_time_in_force, status_to_str,
  str_to_status, row_to_order, saved_row, order_type_to_fields, row_to_order_type,
}

pub side_round : (s : Side) → str_to_side (side_to_str s) ≡ some s
unfolding str_to_side side_to_str
side_round Side.buy = refl
side_round Side.sell = refl

tif_round : (t : TimeInForce) → str_to_time_in_force (time_in_force_to_str t) ≡ some t
unfolding str_to_time_in_force time_in_force_to_str
tif_round TimeInForce.gtc = refl
tif_round TimeInForce.ioc = refl
tif_round TimeInForce.fok = refl

status_round : (s : OrderStatus) → str_to_status (status_to_str s) ≡ some s
unfolding str_to_status status_to_str
status_round OrderStatus.new = refl
status_round OrderStatus.pending_trigger = refl
status_round OrderStatus.accepted = refl
status_round OrderStatus.partially_filled = refl
status_round OrderStatus.filled = refl
status_round OrderStatus.cancelled = refl
status_round OrderStatus.rejected = refl

module _ ⦃P : Platform⦄ where
  -- The type as it is read from the columns that it is saved in.
  abbrev type_of : OrderType → Option OrderType
  type_of t =
      let (name, price, trigger, third) = order_type_to_fields t in
      row_to_order_type name price trigger third none

  type_round : (t : OrderType) → is_trailing_stop t ≡ false → type_of t ≡ some t
  unfolding row_to_order_type order_type_to_fields is_trailing_stop
  type_round market e = refl
  type_round (limit price) e = refl
  type_round (stop trigger) e = refl
  type_round (stop_limit trigger price) e = refl
  type_round (trailing_stop trail) e = cc

  module _ ⦃T : Texts⦄ where
    -- The row of an order that is no trailing stop order is read back as that order.
    pub row_to_order-saved_row :
        (o : Order) → is_trailing_stop o.order_type ≡ false → row_to_order (saved_row o) ≡ some o
    unfolding row_to_order saved_row
    row_to_order-saved_row o e = rw (
      side_round o.side,
      type_round o.order_type e,
      tif_round o.time_in_force,
      status_round o.status,
      T.ulid_lem o.id,
    )

    -- Nothing is read back from the row of a trailing stop order.
    trailing_lost :
        (o : Order) (trail : P.Decimal)
        → o.order_type ≡ trailing_stop trail
        → row_to_order (saved_row o) ≡ none
    unfolding row_to_order saved_row
    trailing_lost o trail e = rw (side_round o.side, e)

    module _ (D : OrderTable) where
      -- The table holds the row of the order.
      abbrev pub Holds : D.Db → Order → Type 0
      Holds db o = D.row_at db (T.ulid_text o.id) ≡ some (saved_row o)

      -- The order with the times that the table keeps of it.
      abbrev pub kept : Order → Order
      kept o = record o { created_at = D.micros o.created_at; updated_at = D.micros o.updated_at }

      -- The order with the fields that a second save updates.
      abbrev pub with_progress :
          Order → OrderStatus → P.Decimal → Option P.Decimal → P.Timestamp → Order
      with_progress o status filled best now = record o {
        status = status;
        filled_quantity = filled;
        best_price = best;
        updated_at = now;
      }

      save-table :
          (o : Order) (r : PgOrderRepository D)
          → (save D o r).0 ≡ ok tt
          → ((D.insert_order (saved_row o) r.db).0 ≡ inr tt)
            × ((save D o r).1.db ≡ (D.insert_order (saved_row o) r.db).1)
      unfolding save
      save-table o r e = ground arith

      get-save :
          (o : Order) (r : PgOrderRepository D)
          → (save D o r).0 ≡ ok tt
          → get_order D o.id (save D o r).1 ≡ some o
      unfolding save get_order OrderStore.get_order OrderStore.save
      get-save o r e = ground (arith, get-insert_self ⦃e = P.ulid_is_eq⦄ o.id o r.cache)

      save-Holds :
          (o : Order) (r : PgOrderRepository D)
          → D.row_at r.db (T.ulid_text o.id) ≡ none
          → (save D o r).0 ≡ ok tt
          → Holds (save D o r).1.db (kept o)
      unfolding saved_row
      save-Holds o r n e =
          let (done, same) = save-table o r e in rw same (D.insert_new (saved_row o) r.db done n)

      save_again-Holds :
          (o : Order) (status : OrderStatus) (filled : P.Decimal) (best : Option P.Decimal)
          (u : P.Timestamp) (r : PgOrderRepository D)
          → Holds r.db o
          → (save D (with_progress o status filled best u) r).0 ≡ ok tt
          → (now : P.Timestamp) × Holds
              (save D (with_progress o status filled best u) r).1.db
              (with_progress o status filled best now)
      unfolding saved_row
      save_again-Holds o status filled best u r h e =
          let (done, same) = save-table (with_progress o status filled best u) r e in
          let (now, row) =
            D.insert_conflict (saved_row (with_progress o status filled best u)) (saved_row o) r.db
              done h in
          (now, rw same row)

      pub load_held :
          (o : Order) (r : PgOrderRepository D) (found : Option Order)
          → Holds r.db o
          → load_order D o.id r ≡ ok found
          → found ≡ row_to_order (saved_row o)
      unfolding load_order
      load_held o r found h e = elim (Sum-cases (D.select_order (T.ulid_text o.id) r.db)) [
        | inl (x, k) ↦ absurd (ground arith)
        | inr (row, k) ↦
            let same : row ≡ some (saved_row o) = D.select_lem (T.ulid_text o.id) r.db row k ∙ h in
            ground arith
      ]

      -- An order that is no trailing stop order and was not in the table is, once it is saved and
      -- if it can be loaded, loaded as it was saved, but for the microseconds of its times.
      pub load-save :
          (o : Order) (r : PgOrderRepository D) (found : Option Order)
          → is_trailing_stop o.order_type ≡ false
          → D.row_at r.db (T.ulid_text o.id) ≡ none
          → (save D o r).0 ≡ ok tt
          → load_order D o.id (save D o r).1 ≡ ok found
          → found ≡ some (kept o)
      load-save o r found t n e l =
          load_held (kept o) (save D o r).1 found (save-Holds o r n e) l
          ∙ row_to_order-saved_row (kept o) t

      -- Saving an order again that is in the table, with another status, filled quantity and best
      -- price, and loading it gives the order with these; the time of the update is the database's.
      pub load-save_again :
          (o : Order) (status : OrderStatus) (filled : P.Decimal) (best : Option P.Decimal)
          (u : P.Timestamp) (r : PgOrderRepository D) (found : Option Order)
          → is_trailing_stop o.order_type ≡ false
          → Holds r.db o
          → (save D (with_progress o status filled best u) r).0 ≡ ok tt
          → load_order D o.id (save D (with_progress o status filled best u) r).1 ≡ ok found
          → (now : P.Timestamp) × (found ≡ some (with_progress o status filled best now))
      load-save_again o status filled best u r found t h e l =
          let (now, held) = save_again-Holds o status filled best u r h e in
          let later = with_progress o status filled best now in
          (
            now,
            load_held later (save D (with_progress o status filled best u) r).1 found held l
                ∙ row_to_order-saved_row later t,
          )

      -- A trailing stop order that was not in the table is lost: once it is saved it is in the
      -- cache, but if the row can be read, no order comes of it.
      pub save_trailing_lost :
          (o : Order) (trail : P.Decimal) (r : PgOrderRepository D) (found : Option Order)
          → o.order_type ≡ trailing_stop trail
          → D.row_at r.db (T.ulid_text o.id) ≡ none
          → (save D o r).0 ≡ ok tt
          → load_order D o.id (save D o r).1 ≡ ok found
          → (get_order D o.id (save D o r).1 ≡ some o) × (found ≡ none)
      save_trailing_lost o trail r found t n e l = (
        get-save o r e,
        load_held (kept o) (save D o r).1 found (save-Holds o r n e) l
            ∙ trailing_lost (kept o) trail t,
      )
