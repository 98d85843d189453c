-- ===== src/Service/Reachable.antt =====
-- The order service under any sequence of its calls, price updates included.
use aegis_oms_rs.Prelude.{ℕ, ◌≡◌, ap, none, some, List, String, arith}
use aegis_oms_rs.Prelude.Eq.{string_eq}
use aegis_oms_rs.Prelude.Map.{HashMap, get}
use aegis_oms_rs.Platform.{Platform}
use aegis_oms_rs.Infra.Repository.{Stores}
use aegis_oms_rs.Domain.Account.{Account}
use aegis_oms_rs.Domain.Account
use aegis_oms_rs.Domain.Instrument.{Instrument}
use aegis_oms_rs.Infra.EventBus.{EventBus}
use aegis_oms_rs.Service.RiskCheck.{RiskLimits}
use aegis_oms_rs.Service.OrderService.State.{OrderService, NewOrderRequest, lock_of, with_repos}
use aegis_oms_rs.Service.OrderService.Submit.{submit_order, cancel_order, submit_price}
use aegis_oms_rs.Service.OrderService.Fill.{fill_order}
use aegis_oms_rs.Service.OrderService.Query.{deposit, withdraw, update_positions_pnl}
use aegis_oms_rs.Service.Composite.{on_price_update}
use aegis_oms_rs.Service.Composite.Prices.{KeepsBooks, on_price_update-KeepsBooks}
use aegis_oms_rs.Service.OrderService.Lock.{ExactLock}
use aegis_oms_rs.Service.OrderService.Locks.{LocksMatch, ExactRelease}
use aegis_oms_rs.Service.OrderService.Policy.{submit_order-LocksMatch}
use aegis_oms_rs.Service.OrderService.Filling.{fill_order-LocksMatch}
use aegis_oms_rs.Service.OrderService.Cancel.{cancel_order-LocksMatch}

module _ ⦃P : Platform⦄ ⦃S : Stores⦄ where
  -- One call of the service in operation, whatever its outcome; a restart is none. An order comes under an identifier that holds no lock, and the
  -- locked margin before and after a lock is taken or released is represented exactly.
  pub data Call (s : OrderService) : OrderService → Type 0 where
    submits :
        (id : P.Ulid) (clock : ℕ → P.Timestamp) (req : NewOrderRequest)
        → lock_of id s ≡ none
        → ((i : Instrument)
            → get req.instrument s.instruments ≡ some i
            → ExactLock id (submit_price req.order_type) req.quantity i.leverage s)
        → Call s (submit_order id clock req s).1
    cancels :
        (id : P.Ulid) (now : P.Timestamp) → ExactRelease id s → Call s (cancel_order id now s).1
    fills :
        (trade_id : P.Ulid) (clock : ℕ → P.Timestamp) (id : P.Ulid) (qty price : P.Decimal)
        → ExactRelease id s
        → Call s (fill_order trade_id clock id qty price s).1
    deposits : (amount : P.Decimal) → Call s (deposit amount s).1
    withdraws : (amount : P.Decimal) → Call s (withdraw amount s).1
    updates :
        (symbol : String) (price : P.Decimal) (clock : ℕ → P.Timestamp)
        → Call s (on_price_update symbol price clock s).1
    marks : (prices : HashMap String P.Decimal) → Call s (update_positions_pnl prices s).1

  pub data Calls (s : OrderService) : OrderService → Type 0 where
    here : Calls s s
    next : {t u : OrderService} → Calls s t → Call t u → Calls s u

  KeepsBooks-LocksMatch : (s t : OrderService) → KeepsBooks s t → LocksMatch s → LocksMatch t
  KeepsBooks-LocksMatch s t k l =
      let locked : t.account.locked_margin ≡ s.account.locked_margin =
        ap (λ u. u.account.locked_margin) k in
      let locks : t.margin_locks ≡ s.margin_locks = ap (λ u. u.margin_locks) k in
      rw (locked, locks) l

  Call-LocksMatch : {s t : OrderService} → Call s t → LocksMatch s → LocksMatch t
  unfolding deposit withdraw update_positions_pnl Account.deposit Account.withdraw
  Call-LocksMatch {s} (submits id clock req fresh exact) l =
      submit_order-LocksMatch id clock req s fresh exact l
  Call-LocksMatch {s} (cancels id now exact) l = cancel_order-LocksMatch id now s l exact
  Call-LocksMatch {s} (fills trade_id clock id qty price exact) l =
      fill_order-LocksMatch trade_id clock id qty price s l exact
  Call-LocksMatch (deposits amount) l = ground arith
  Call-LocksMatch (withdraws amount) l = ground arith
  Call-LocksMatch {s} (updates symbol price clock) l =
      KeepsBooks-LocksMatch s (on_price_update symbol price clock s).1
        (on_price_update-KeepsBooks symbol price clock s) l
  Call-LocksMatch (marks prices) l = l

  Calls-LocksMatch : {s t : OrderService} → LocksMatch s → Calls s t → LocksMatch t
  Calls-LocksMatch l here = l
  Calls-LocksMatch l (next c k) = Call-LocksMatch k (Calls-LocksMatch l c)

  -- A service that is made with a new account keeps, over any repositories of orders and trades,
  -- through any sequence of submissions, cancels, fills, price updates, deposits, withdrawals and
  -- markings, with no restart among them, and whatever their outcomes, each order to one lock of a
  -- positive margin, and what the account has locked to the sum of these locks. Orders come under
  -- identifiers that hold no lock, and the sums and differences of locked margins are represented
  -- exactly.
  pub reachable-LocksMatch :
      (now : P.Timestamp) (id name : String) (balance : P.Decimal) (instruments : List Instrument)
      (limits : RiskLimits) (bus : EventBus) (orders : S.Orders) (trades : S.Trades)
      {s : OrderService}
      → Calls (with_repos (Account.new now id name balance) instruments limits bus orders trades) s
      → LocksMatch s
  unfolding with_repos Account.new
  reachable-LocksMatch now id name balance instruments limits bus orders trades c =
      Calls-LocksMatch (record { distinct = tt; positive = tt; matched = P.zero_lem }) c
