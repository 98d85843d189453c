-- ===== src/Cli/Handlers.antt =====
-- src/cli/handlers.rs: one handler for each command. A handler is a method of the order service
-- that gives the lines it prints; what was printed before a panic is left out.
use aegis_oms_rs.Prelude.{
  ℕ, String, ◌||◌, if◌then◌else◌, Option, none, some, List, [], ◌∷◌, map, ◌⊎◌, inl, inr,
}
use aegis_oms_rs.Prelude.Eq.{◌==◌, string_eq}
use aegis_oms_rs.Prelude.Map.{HashMap, insert}
use aegis_oms_rs.Platform.{Platform}
use aegis_oms_rs.Platform.Text.{Texts}
use aegis_oms_rs.Domain.Status.{Side, TimeInForce}
use aegis_oms_rs.Domain.Error.{ok, err, panic, Method, OmsError, bind}
use aegis_oms_rs.Domain.Order.{Order, OrderType, market, limit}
use aegis_oms_rs.Domain.Account.{Account, available_balance}
use aegis_oms_rs.Domain.Position.{Position}
use aegis_oms_rs.Domain.Event.{Trade}
use aegis_oms_rs.Domain.RiskEngine.{MarginLevel, MarginStatus, calculate}
use aegis_oms_rs.Infra.Repository.{Stores}
use aegis_oms_rs.Service.MarginMonitor.{leverages_of}
use aegis_oms_rs.Service.OrderService.State.{OrderService}
use aegis_oms_rs.Service.OrderService.Submit.{submit_order, cancel_order}
use aegis_oms_rs.Service.OrderService.Fill.{fill_order}
use aegis_oms_rs.Service.OrderService.Query.{
  get_open_orders, get_positions, get_account, get_trade_history, deposit, withdraw,
}
use aegis_oms_rs.Cli.Words.{split_colon}

module _ ⦃P : Platform⦄ where
  -- The lines that are printed, with the values they show.
  pub data Line : Type 0 where
    order_created order_cancelled : P.Ulid → Line
    order_filled : P.Ulid → P.Decimal → P.Decimal → Line
    deposited withdrawn : P.Decimal → P.Decimal → Line
    failed : OmsError → Line
    -- "Invalid side: ..", with the text that is no side, and "Invalid order ID: ..", with the text
    -- of the decode error.
    invalid_side invalid_order_id : String → Line
    -- "Invalid price '..'. Expected a decimal number.", and so on.
    invalid_price invalid_quantity invalid_amount : String → Line
    no_open_orders no_open_positions no_trade_history : Line
    order_header account_header position_header trade_header margin_header : Line
    order_row : Order → Line
    account_row : Account → P.Decimal → Line
    position_row : Position → Line
    trade_row : Trade → Line
    margin_row : MarginStatus → String → Line
    banner help_text unknown_command : Line

  unfoldable pub level_str : MarginLevel → String
  level_str MarginLevel.normal = "Normal"
  level_str MarginLevel.margin_call = "⚠ MarginCall"
  level_str MarginLevel.stop_out = "🚨 StopOut"

module _ ⦃P : Platform⦄ ⦃T : Texts⦄ where
  -- The error is the text that is no side.
  unfoldable pub parse_side : String → String ⊎ Side
  parse_side s =
      let lower = T.to_lowercase s in
      if (lower == "buy") || (lower == "b")
      then inr Side.buy
      else if (lower == "sell") || (lower == "s")
      then inr Side.sell
      else inl s

  unfoldable pub parse_order_type : String → P.Decimal → OrderType
  parse_order_type type_str price =
      let lower = T.to_lowercase type_str in
      if (lower == "market") || (lower == "m") then market else limit price

  -- A text SYMBOL:PRICE with a number behind the first colon.
  unfoldable pub parse_mark_price : String → Option (String × P.Decimal)
  unfolding split_colon
  parse_mark_price s = elim (split_colon s) [
    | none ↦ none
    | some (sym, text) ↦ elim (T.parse_decimal text) [
      | none ↦ none
      | some price ↦ some (sym, price)
    ]
  ]

  abbrev collect_prices : List String → HashMap String P.Decimal → HashMap String P.Decimal
  collect_prices [] m = m
  collect_prices (s ∷ prices) m = elim (parse_mark_price s) [
    | none ↦ collect_prices prices m
    | some (sym, price) ↦ collect_prices prices (insert sym price m)
  ]

  -- A later price of a symbol takes the place of an earlier one.
  unfoldable pub parse_mark_prices : List String → HashMap String P.Decimal
  unfolding parse_mark_price
  parse_mark_prices prices = collect_prices prices []

  -- The error is the text of the decode error.
  abbrev pub parse_order_id : String → String ⊎ P.Ulid
  parse_order_id id_str = elim (T.ulid_from_string id_str) [
    | none ↦ inl (T.ulid_error id_str)
    | some id ↦ inr id
  ]

module _ ⦃P : Platform⦄ ⦃S : Stores⦄ where
  abbrev pub Handler : Type 0
  Handler = Method OrderService (List Line)

  -- `Ok(..) => println!(..), Err(e) => eprintln!("Error: {e}")`, on the state after the call.
  abbrev pub report : {A : Type 0} → (A → OrderService → Line) → Method OrderService A → Handler
  report line call s =
      let (r, s') = call s in
      elim r [
        | ok a ↦ (ok (line a s' ∷ []), s')
        | err e ↦ (ok (failed e ∷ []), s')
        | panic ↦ (panic, s')
      ]

  unfoldable pub handle_list : Handler
  unfolding get_open_orders
  handle_list s = elim (get_open_orders s) [
    | [] ↦ (ok (no_open_orders ∷ []), s)
    | o ∷ orders ↦ (ok (order_header ∷ map order_row (o ∷ orders)), s)
  ]

  unfoldable pub handle_account : Handler
  handle_account s =
      let acc = get_account s in
      (
        bind (available_balance acc)
            (λ available. ok (account_header ∷ account_row acc available ∷ [])),
        s,
      )

  unfoldable pub handle_positions : Handler
  unfolding get_positions
  handle_positions s = elim (get_positions s) [
    | [] ↦ (ok (no_open_positions ∷ []), s)
    | p ∷ positions ↦ (ok (position_header ∷ map position_row (p ∷ positions)), s)
  ]

  unfoldable pub handle_history : Option String → Handler
  unfolding get_trade_history
  handle_history instrument s = elim (get_trade_history instrument s) [
    | [] ↦ (ok (no_trade_history ∷ []), s)
    | t ∷ trades ↦ (ok (trade_header ∷ map trade_row (t ∷ trades)), s)
  ]

  unfoldable pub handle_margin : HashMap String P.Decimal → Handler
  unfolding calculate leverages_of level_str
  handle_margin marks s = (
    bind
        (calculate (get_account s) (get_positions s) marks (leverages_of s.instruments) (P.new 100)
          (P.new 50))
        (λ status. ok (margin_header ∷ margin_row status (level_str status.level) ∷ [])),
    s,
  )

  unfoldable pub handle_deposit : P.Decimal → Handler
  unfolding deposit
  handle_deposit amount = report (λ _ s. deposited amount (get_account s).balance) (deposit amount)

  unfoldable pub handle_withdraw : P.Decimal → Handler
  unfolding withdraw
  handle_withdraw amount =
      report (λ _ s. withdrawn amount (get_account s).balance) (withdraw amount)

  module _ ⦃T : Texts⦄ where
    unfoldable pub handle_submit :
        P.Ulid → (ℕ → P.Timestamp) → String → String → String → P.Decimal → P.Decimal → Handler
    unfolding parse_side parse_order_type submit_order
    handle_submit id clock instrument side_str type_str price qty s = elim (parse_side side_str) [
      | inl text ↦ (ok (invalid_side text ∷ []), s)
      | inr side ↦
          report (λ id _. order_created id)
            (submit_order id clock (record {
              instrument = instrument;
              side = side;
              order_type = parse_order_type type_str price;
              quantity = qty;
              time_in_force = TimeInForce.gtc;
            }))
            s
    ]

    unfoldable pub handle_cancel : P.Timestamp → String → Handler
    unfolding cancel_order
    handle_cancel now id_str s = elim (parse_order_id id_str) [
      | inl text ↦ (ok (invalid_order_id text ∷ []), s)
      | inr id ↦ report (λ _ _. order_cancelled id) (cancel_order id now) s
    ]

    unfoldable pub handle_fill :
        P.Ulid → (ℕ → P.Timestamp) → String → P.Decimal → P.Decimal → Handler
    unfolding fill_order
    handle_fill trade_id clock id_str qty price s = elim (parse_order_id id_str) [
      | inl text ↦ (ok (invalid_order_id text ∷ []), s)
      | inr id ↦
          report (λ _ _. order_filled id qty price) (fill_order trade_id clock id qty price) s
    ]
