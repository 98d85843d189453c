-- ===== src/Service/Proper/Reachable.antt =====
-- The order service under any calls, over any repositories, with no condition on the calls.
use aegis_oms_rs.Prelude.{◌≡◌, ℕ, String, Option, none, some, List, [], ◌∷◌, arith, inl, inr}
use aegis_oms_rs.Prelude.Map.{HashMap}
use aegis_oms_rs.Platform.{Platform}
use aegis_oms_rs.Infra.Repository.{Stores}
use aegis_oms_rs.Domain.Status.{Side}
use aegis_oms_rs.Domain.Error.{Result, Result-cases, ok, err, panic, ◌>>=◌}
use aegis_oms_rs.Domain.Order.{Order}
use aegis_oms_rs.Domain.Account.{Account}
use aegis_oms_rs.Service.OrderService.State.{OrderService, NewOrderRequest}
use aegis_oms_rs.Service.OrderService.Submit.{submit_order, cancel_order}
use aegis_oms_rs.Service.OrderService.Fill.{fill_order}
use aegis_oms_rs.Service.OrderService.Query.{
  deposit, withdraw, update_positions_pnl, restore_from_db, save_all, total_loss,
}
use aegis_oms_rs.Service.Composite.{on_price_update}
use aegis_oms_rs.Service.Proper.{PutKeeps, SaveKeeps, Keeps}
use aegis_oms_rs.Service.Proper.Calls.{submit_order-Keeps, cancel_order-Keeps}
use aegis_oms_rs.Service.Proper.Fills.{fill_order-Keeps, on_price_update-Keeps}

module _ ⦃P : Platform⦄ ⦃S : Stores⦄ where
  -- One call, whatever its outcome.
  pub data Step (s : OrderService) : OrderService → Type 0 where
    submits :
        (id : P.Ulid) (clock : ℕ → P.Timestamp) (req : NewOrderRequest)
        → Step s (submit_order id clock req s).1
    cancels : (id : P.Ulid) (now : P.Timestamp) → Step s (cancel_order id now s).1
    fills :
        (trade_id : P.Ulid) (clock : ℕ → P.Timestamp) (id : P.Ulid) (qty price : P.Decimal)
        → Step s (fill_order trade_id clock id qty price s).1
    deposits : (amount : P.Decimal) → Step s (deposit amount s).1
    withdraws : (amount : P.Decimal) → Step s (withdraw amount s).1
    updates :
        (symbol : String) (price : P.Decimal) (clock : ℕ → P.Timestamp)
        → Step s (on_price_update symbol price clock s).1
    marks : (prices : HashMap String P.Decimal) → Step s (update_positions_pnl prices s).1
    restores :
        (loaded : Result (Option Account))
        (positions : List (String × Side × P.Decimal × P.Decimal))
        → Step s (restore_from_db loaded positions s).1

  pub data Steps (s : OrderService) : OrderService → Type 0 where
    here : Steps s s
    next : {t u : OrderService} → Steps s t → Step t u → Steps s u

module _ ⦃P : Platform⦄ ⦃S : Stores⦄ (I : S.Orders → Type 0) (put : PutKeeps I)
    (saves : SaveKeeps I) where
  save_all-Keeps : (os : List Order) → Keeps I (save_all os)
  unfolding save_all
  save_all-Keeps [] s kept = kept
  save_all-Keeps (o ∷ os) s kept =
      let held = saves o s.store kept in
      let t = record s { store = (S.orders.save o s.store).1 } in
      elim (Result-cases (S.orders.save o s.store).0) [
        | inl (u, e) ↦ rw (save_all, ◌>>=◌, e) (save_all-Keeps os t held)
        | inr (inl e) ↦ rw (save_all, ◌>>=◌, e) held
        | inr (inr (x, e)) ↦ rw (save_all, ◌>>=◌, e) held
      ]

  -- The restart behind the account and the orders.
  rest-Keeps :
      (os : List Order) (positions : List (String × Side × P.Decimal × P.Decimal))
      (s : OrderService)
      → S.orders.load_all_owned s.store ≡ ok os
      → I s.store
      → I (restore_from_db (ok none) positions s).1.store
  unfolding restore_from_db
  rest-Keeps os positions s l kept =
      let t = (save_all os s).1 in
      let saved : I t.store = save_all-Keeps os s kept in
      elim (Result-cases (save_all os s).0) [
        | inl (u, e) ↦ elim (Result-cases (S.trades.load_all_owned t.trade_store)) [
          | inl (ts, f) ↦ elim (Result-cases (total_loss P.zero_value ts)) [
            | inl (loss, k) ↦ ground (arith, saved)
            | inr (inl k) ↦ ground (arith, saved)
            | inr (inr (x, k)) ↦ ground (arith, saved)
          ]
          | inr (inl f) ↦ ground (arith, saved)
          | inr (inr (x, f)) ↦ ground (arith, saved)
        ]
        | inr (inl e) ↦ ground (arith, saved)
        | inr (inr (x, e)) ↦ ground (arith, saved)
      ]

  restored-Keeps :
      (positions : List (String × Side × P.Decimal × P.Decimal))
      → Keeps I (restore_from_db (ok none) positions)
  unfolding restore_from_db
  restored-Keeps positions s kept = elim (Result-cases (S.orders.load_all_owned s.store)) [
    | inl (os, l) ↦ rest-Keeps os positions s l kept
    | inr (inl l) ↦ ground arith
    | inr (inr (x, l)) ↦ ground arith
  ]

  restore-Keeps :
      (loaded : Result (Option Account)) (positions : List (String × Side × P.Decimal × P.Decimal))
      → Keeps I (restore_from_db loaded positions)
  unfolding restore_from_db
  restore-Keeps (ok none) positions s kept = restored-Keeps positions s kept
  restore-Keeps (ok (some a)) positions s kept =
      restored-Keeps positions (record s { account = a }) kept
  restore-Keeps (err x) positions s kept = kept
  restore-Keeps panic positions s kept = kept

  Step-Keeps : {s t : OrderService} → Step s t → I s.store → I t.store
  unfolding deposit withdraw update_positions_pnl
  Step-Keeps {s} (submits id clock req) p = submit_order-Keeps I put saves id clock req s p
  Step-Keeps {s} (cancels id now) p = cancel_order-Keeps I put id now s p
  Step-Keeps {s} (fills trade_id clock id qty price) p =
      fill_order-Keeps I put trade_id clock id qty price s p
  Step-Keeps (deposits amount) p = p
  Step-Keeps (withdraws amount) p = p
  Step-Keeps {s} (updates symbol price clock) p = on_price_update-Keeps I put symbol price clock s p
  Step-Keeps (marks prices) p = p
  Step-Keeps {s} (restores loaded positions) p = restore-Keeps loaded positions s p

  pub Steps-Keeps : {s t : OrderService} → I s.store → Steps s t → I t.store
  Steps-Keeps p here = p
  Steps-Keeps p (next c k) = Step-Keeps k (Steps-Keeps p c)
