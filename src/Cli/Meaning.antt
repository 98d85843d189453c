-- ===== src/Cli/Meaning.antt =====
-- What a line of the interactive mode asks of the order service, read off its words alone, and what
-- a session asks, line by line.
use aegis_oms_rs.Prelude.{ℕ, String, Option, none, some, List, [], ◌∷◌, inl, inr}
use aegis_oms_rs.Platform.{Platform}
use aegis_oms_rs.Platform.Text.{Texts}
use aegis_oms_rs.Domain.Status.{Side, TimeInForce}
use aegis_oms_rs.Infra.PgOrder.{◌>>=◌}
use aegis_oms_rs.Infra.Repository.{Stores}
use aegis_oms_rs.Service.OrderService.State.{OrderService, NewOrderRequest}
use aegis_oms_rs.Service.OrderService.Submit.{submit_order, cancel_order}
use aegis_oms_rs.Service.OrderService.Fill.{fill_order}
use aegis_oms_rs.Service.OrderService.Query.{deposit, withdraw}
use aegis_oms_rs.Cli.Handlers.{parse_side, parse_order_type}
use aegis_oms_rs.Cli.Words.{split_whitespace}
use aegis_oms_rs.Cli.Repl.{Verb, verb, Turn}

module _ ⦃P : Platform⦄ where
  -- A call that changes the service.
  pub data Request : Type 0 where
    submits : NewOrderRequest → Request
    cancels : P.Ulid → Request
    fills : P.Ulid → P.Decimal → P.Decimal → Request
    deposits withdraws : P.Decimal → Request

  -- The end of the session, nothing, or a call.
  pub data Meaning : Type 0 where
    stops nothing : Meaning
    asks : Request → Meaning

  abbrev asking : Option Request → Meaning
  asking none = nothing
  asking (some r) = asks r

module _ ⦃P : Platform⦄ ⦃T : Texts⦄ where
  abbrev pub side_of : String → Option Side
  side_of text = elim (parse_side text) [ inl e ↦ none | inr side ↦ some side ]

  -- The call that the words of a command spell, if they do. An order is good till cancelled.
  abbrev pub request : Verb → List String → Option Request
  request Verb.submit (instrument ∷ side_text ∷ type_text ∷ price_text ∷ qty_text ∷ _) = do
    price ← T.parse_decimal price_text
    qty ← T.parse_decimal qty_text
    side ← side_of side_text
    some (
        submits (record {
          instrument = instrument;
          side = side;
          order_type = parse_order_type type_text price;
          quantity = qty;
          time_in_force = TimeInForce.gtc;
        }))
  request Verb.cancel (id_text ∷ _) = T.ulid_from_string id_text >>= λ id. some (cancels id)
  request Verb.fill (id_text ∷ qty_text ∷ price_text ∷ _) = do
    qty ← T.parse_decimal qty_text
    price ← T.parse_decimal price_text
    id ← T.ulid_from_string id_text
    some (fills id qty price)
  request Verb.deposit (text ∷ _) = T.parse_decimal text >>= λ amount. some (deposits amount)
  request Verb.withdraw (text ∷ _) = T.parse_decimal text >>= λ amount. some (withdraws amount)
  request _ _ = none

  abbrev pub command : Verb → List String → Meaning
  command Verb.quit words = stops
  command v words = asking (request v words)

  abbrev pub of_words : List String → Meaning
  of_words [] = nothing
  of_words (w ∷ words) = command (verb w) words

  -- An empty read is the end of the input.
  abbrev pub of_line : Option String → Meaning
  of_line none = stops
  of_line (some String.[]) = stops
  of_line (some (String.◌∷◌ c text)) = of_words (split_whitespace (String.◌∷◌ c text))

module _ ⦃P : Platform⦄ ⦃S : Stores⦄ where
  -- The service after a call, with the fresh identifier and the clock that the line comes with.
  abbrev pub perform : P.Ulid → (ℕ → P.Timestamp) → Request → OrderService → OrderService
  perform id clock (submits req) s = (submit_order id clock req s).1
  perform id clock (cancels order_id) s = (cancel_order order_id (clock 0) s).1
  perform id clock (fills order_id qty price) s = (fill_order id clock order_id qty price s).1
  perform id clock (deposits amount) s = (deposit amount s).1
  perform id clock (withdraws amount) s = (withdraw amount s).1

  -- The lines of a session, carried out one after the other up to the one that ends it.
  abbrev pub session : ⦃T : Texts⦄ → List Turn → OrderService → OrderService
  session [] s = s
  session (t ∷ turns) s = elim (of_line t.input) [
    | stops ↦ s
    | nothing ↦ session turns s
    | asks r ↦ session turns (perform t.id t.clock r s)
  ]
