-- ===== src/Service/OrderService/Losses.antt =====
-- The loss that the service adds up, and the one that is added up from the trades in memory.
use aegis_oms_rs.Prelude.{
  String, ◌≡◌, ◌≢◌, refl, sym, ap, ◌∙◌, Option, none, some, List, [], ◌∷◌, ◌++◌, true, false, arith,
  inl, inr, Option-cases, Bool-cases, ℤ, pos, negsuc, ltb_ℤ,
}
use aegis_oms_rs.Prelude.Map.{get}
use aegis_oms_rs.Prelude.Eq.{string_eq}
use aegis_oms_rs.Platform.{Platform}
use aegis_oms_rs.Infra.Repository.Memory.{in_memory_stores}
use aegis_oms_rs.Platform.Decimal.{lt}
use aegis_oms_rs.Domain.Status.{Side}
use aegis_oms_rs.Domain.Error.{Result, ok, err, panic, Result-cases, add, OmsError}
use aegis_oms_rs.Domain.Event.{Trade, new_trade}
use aegis_oms_rs.Domain.Order.{Order}
use aegis_oms_rs.Domain.Position.{Position}
use aegis_oms_rs.Domain.Account.{apply_realized_pnl}
use aegis_oms_rs.Infra.TradeStore.{save}
use aegis_oms_rs.Infra.TradeStore
use aegis_oms_rs.Prelude.Tests.{Has}
use aegis_oms_rs.Service.OrderService.State.{OrderService}
use aegis_oms_rs.Service.OrderService.Fill.{
  book_fill, update_position_with_pnl, close_against, book_loss, check_loss,
}
use aegis_oms_rs.Service.OrderService.Query.{total_loss}

zero_of : (a : ℤ) → ltb_ℤ a (pos 0) ≡ false → ltb_ℤ (pos 0) a ≡ false → a ≡ pos 0
zero_of (pos n) h k = let none_ : n ≡ 0 = ground arith in ap pos none_
zero_of (negsuc n) h k = absurd (ground arith)

module _ ⦃P : Platform⦄ where
  -- What restore_from_db adds up from the trades in memory is the loss that the service has added
  -- up.
  abbrev pub LossMatches : OrderService → Type 0
  LossMatches s =
      total_loss P.zero_value (TradeStore.load_all_owned s.trade_store)
      ≡ ok s.cumulative_realized_loss

  -- The loss with the profit of one more trade.
  abbrev with_trade : P.Decimal → Option P.Decimal → Result P.Decimal
  with_trade acc none = ok acc
  with_trade acc (some pnl) = elim (lt pnl P.zero_value) [ false ↦ ok acc | true ↦ add acc pnl ]

  total_loss-append :
      (acc loss : P.Decimal) (ts : List Trade) (t : Trade)
      → total_loss acc ts ≡ ok loss
      → total_loss acc (ts ++ (t ∷ [])) ≡ with_trade loss t.realized_pnl
  unfolding total_loss
  total_loss-append acc loss [] t e = ground arith
  total_loss-append acc loss (x ∷ ts) t e = elim (Option-cases x.realized_pnl) [
    | inl n ↦ ground (arith, total_loss-append acc loss ts t)
    | inr (pnl, n) ↦ elim (Bool-cases (lt pnl P.zero_value)) [
      | inl neg ↦ elim (Result-cases (add acc pnl)) [
        | inl (acc', k) ↦ ground (arith, total_loss-append acc' loss ts t)
        | inr (inl k) ↦ absurd (ground arith)
        | inr (inr (y, k)) ↦ absurd (ground arith)
      ]
      | inr pos_ ↦ ground (arith, total_loss-append acc loss ts t)
    ]
  ]

  -- A zero without a minus sign.
  abbrev pub PlainZero : P.Decimal → Type 0
  PlainZero d = P.units d ≡ pos 0 → P.is_sign_negative d ≡ false

  -- The profits of the trades are no negative zeros.
  abbrev pub PlainZeros : List Trade → Type 0
  PlainZeros trades =
      (t : Trade) (pnl : P.Decimal) → Has t trades → t.realized_pnl ≡ some pnl → PlainZero pnl

  sign_is_lt : (d : P.Decimal) → PlainZero d → P.is_sign_negative d ≡ lt d P.zero_value
  sign_is_lt d plain = rw P.zero_lem (elim (Bool-cases (ltb_ℤ (P.units d) (pos 0))) [
    | inl neg ↦ P.sign_lem d (λ z. ground (arith, z, neg))
    | inr nonneg ↦ elim (Bool-cases (ltb_ℤ (pos 0) (P.units d))) [
      | inl up ↦ P.sign_lem d (λ z. ground (arith, z, up))
      | inr no_up ↦
          let zero_d : P.units d ≡ pos 0 = zero_of (P.units d) nonneg no_up in
          plain zero_d ∙ sym nonneg
    ]
  ])

  book_loss-with_trade :
      (pnl : Option P.Decimal) (s : OrderService)
      → ((d : P.Decimal) → pnl ≡ some d → PlainZero d)
      → (book_loss pnl s).0 ≡ ok tt
      → with_trade s.cumulative_realized_loss pnl ≡ ok (book_loss pnl s).1.cumulative_realized_loss
  unfolding book_loss
  book_loss-with_trade none s plain e = refl
  book_loss-with_trade (some pnl) s plain e =
      let sign = sign_is_lt pnl (plain pnl refl) in
      elim (Bool-cases (P.is_sign_negative pnl)) [
        | inl neg ↦ elim (Result-cases (add s.cumulative_realized_loss pnl)) [
          | inl (x, k) ↦ ground (arith, sign)
          | inr (inl k) ↦ absurd (ground arith)
          | inr (inr (y, k)) ↦ absurd (ground arith)
        ]
        | inr no_loss ↦ ground (arith, sign)
      ]

  abbrev SameBooks : OrderService → OrderService → Type 0
  SameBooks s t =
      (t.trade_store ≡ s.trade_store) × (t.cumulative_realized_loss ≡ s.cumulative_realized_loss)

  close-SameBooks :
      (instrument : String) (side : Side) (qty price : P.Decimal) (p : Position) (s : OrderService)
      → SameBooks s (close_against instrument side qty price p s).1
  unfolding close_against apply_realized_pnl
  close-SameBooks instrument side qty price p s = ground arith

  update-SameBooks :
      (instrument : String) (side : Side) (qty price : P.Decimal) (s : OrderService)
      → SameBooks s (update_position_with_pnl instrument side qty price s).1
  unfolding update_position_with_pnl
  update-SameBooks instrument side qty price s = elim (Option-cases (get instrument s.positions)) [
    | inl e ↦ ground arith
    | inr (p, e) ↦ ground (arith, close-SameBooks instrument side qty price p s)
  ]

  book_loss-trades :
      (pnl : Option P.Decimal) (s : OrderService) → (book_loss pnl s).1.trade_store ≡ s.trade_store
  unfolding book_loss
  book_loss-trades none s = refl
  book_loss-trades (some pnl) s = ground arith

  check_loss-state : (s : OrderService) → (check_loss s).1 ≡ s
  unfolding check_loss
  check_loss-state s = ground arith

  Has-last : {A : Type 0} (a : A) (xs : List A) → Has a (xs ++ (a ∷ []))
  Has-last a [] = inl refl
  Has-last a (x ∷ xs) = inr (Has-last a xs)

  module _ (trade_id : P.Ulid) (now : P.Timestamp) (id : P.Ulid) (qty price : P.Decimal) (o : Order)
      (s : OrderService) where
    -- The trade that a fill books with a profit.
    abbrev booked : Option P.Decimal → Trade
    booked pnl = new_trade trade_id now id o.instrument o.side qty price pnl

    -- What a fill that is booked leaves in the books.
    book_fill-books :
        (pnl : Option P.Decimal)
        → (update_position_with_pnl o.instrument o.side qty price s).0 ≡ ok pnl
        → (book_fill trade_id now id qty price o s).0 ≡ ok tt
        → let u = (update_position_with_pnl o.instrument o.side qty price s).1 in
          ((book_loss pnl u).0 ≡ ok tt)
          × ((book_fill trade_id now id qty price o s).1.trade_store
              ≡ s.trade_store ++ (booked pnl ∷ []))
          × ((book_fill trade_id now id qty price o s).1.cumulative_realized_loss
              ≡ (book_loss pnl u).1.cumulative_realized_loss)
    unfolding book_fill save
    book_fill-books pnl e k =
        let u = (update_position_with_pnl o.instrument o.side qty price s).1 in
        let same = update-SameBooks o.instrument o.side qty price s in
        let trades = book_loss-trades pnl u in
        let state = check_loss-state (book_loss pnl u).1 in
        elim (Result-cases (book_loss pnl u).0) [
          | inl (x, l) ↦ elim (Result-cases (check_loss (book_loss pnl u).1).0) [
            | inl (y, m) ↦ (l, ground arith, ground arith)
            | inr (inl m) ↦ absurd (ground arith)
            | inr (inr (y, m)) ↦ absurd (ground arith)
          ]
          | inr (inl l) ↦ absurd (ground arith)
          | inr (inr (y, l)) ↦ absurd (ground arith)
        ]

    -- A fill whose profit cannot be computed is not booked.
    panics :
        (update_position_with_pnl o.instrument o.side qty price s).0 ≡ panic
        → (book_fill trade_id now id qty price o s).0 ≢ ok tt
    unfolding book_fill
    panics e k = ground arith

    raises :
        (x : OmsError)
        → (update_position_with_pnl o.instrument o.side qty price s).0 ≡ err x
        → (book_fill trade_id now id qty price o s).0 ≢ ok tt
    unfolding book_fill
    raises x e k = ground arith

    pub book_fill-LossMatches :
        (book_fill trade_id now id qty price o s).0 ≡ ok tt
        → PlainZeros (book_fill trade_id now id qty price o s).1.trade_store
        → LossMatches s
        → LossMatches (book_fill trade_id now id qty price o s).1
    unfolding TradeStore.load_all_owned new_trade
    book_fill-LossMatches k plain l =
        let u = (update_position_with_pnl o.instrument o.side qty price s).1 in
        let same = update-SameBooks o.instrument o.side qty price s in
        elim (Result-cases (update_position_with_pnl o.instrument o.side qty price s).0) [
          | inl (pnl, e) ↦
              let (lost, trades, loss) = book_fill-books pnl e k in
              let zero : (d : P.Decimal) → pnl ≡ some d → PlainZero d =
                λ d p. plain (booked pnl) d (rw trades (Has-last (booked pnl) s.trade_store)) p in
              let added = book_loss-with_trade pnl u zero lost in
              let total =
                total_loss-append P.zero_value s.cumulative_realized_loss s.trade_store (booked pnl)
                  l in
              rw (trades, loss) (total ∙ rw same.1 at added)
          | inr (inl e) ↦ absurd (panics e k)
          | inr (inr (y, e)) ↦ absurd (raises y e k)
        ]
