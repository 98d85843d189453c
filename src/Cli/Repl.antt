-- ===== src/Cli/Repl.antt =====
-- src/cli/repl.rs: the interactive mode, over the lines that are read. The prompt is left out.
use aegis_oms_rs.Prelude.{ℕ, String, ◌||◌, if◌then◌else◌, Option, none, some, List, [], ◌∷◌, ◌++◌}
use aegis_oms_rs.Prelude.Eq.{◌==◌, string_eq}
use aegis_oms_rs.Platform.{Platform}
use aegis_oms_rs.Platform.Text.{Texts}
use aegis_oms_rs.Domain.Error.{ok, pure, ◌>>=◌}
use aegis_oms_rs.Infra.Repository.{Stores}
use aegis_oms_rs.Cli.Words.{split_whitespace}
use aegis_oms_rs.Cli.Handlers.{
  Handler, Line, invalid_price, invalid_quantity, invalid_amount, help_text, unknown_command,
  banner, handle_submit, handle_list, handle_cancel, handle_fill, handle_account, handle_positions,
  handle_history, handle_margin, handle_deposit, handle_withdraw, parse_mark_prices,
}

-- The first word of a line, by the patterns of the arms.
pub data Verb : Type 0 where
  help submit list cancel fill account positions history margin deposit withdraw quit : Verb
  unknown : Verb

unfoldable pub verb : String → Verb
verb w =
    if (w == "help") || (w == "h")
    then Verb.help
    else if (w == "submit") || (w == "s")
    then Verb.submit
    else if (w == "list") || (w == "l")
    then Verb.list
    else if (w == "cancel") || (w == "c")
    then Verb.cancel
    else if (w == "fill") || (w == "f")
    then Verb.fill
    else if (w == "account") || (w == "a")
    then Verb.account
    else if (w == "positions") || (w == "p")
    then Verb.positions
    else if w == "history"
    then Verb.history
    else if (w == "margin") || (w == "m")
    then Verb.margin
    else if w == "deposit"
    then Verb.deposit
    else if w == "withdraw"
    then Verb.withdraw
    else if (w == "quit") || ((w == "q") || (w == "exit"))
    then Verb.quit
    else Verb.unknown

abbrev pub first : List String → Option String
first [] = none
first (w ∷ words) = some w

module _ ⦃P : Platform⦄ where
  -- One pass of the loop: what `read_line` reads, none where it fails, and the identifier and the
  -- clock that the command uses.
  pub record Turn : Type 0 where
    pub input : Option String
    pub id : P.Ulid
    pub clock : ℕ → P.Timestamp

module _ ⦃P : Platform⦄ ⦃S : Stores⦄ where
  abbrev pub say : Line → Handler
  say line s = (ok (line ∷ []), s)

  module _ ⦃T : Texts⦄ where
    -- `match text.parse() { Ok(v) => v, Err(_) => { eprintln!(..); continue; } }`
    abbrev pub with_decimal : String → (String → Line) → (P.Decimal → Handler) → Handler
    with_decimal text invalid body = elim (T.parse_decimal text) [
      | none ↦ say (invalid text)
      | some v ↦ body v
    ]

    -- The arms, on the words behind the first; none ends the loop. An arm whose guard fails for
    -- want of words is the last one.
    unfoldable pub arm : P.Ulid → (ℕ → P.Timestamp) → Verb → List String → Option Handler
    unfolding handle_submit handle_list handle_cancel handle_fill handle_account handle_positions
        handle_history handle_margin handle_deposit handle_withdraw parse_mark_prices
    arm id clock Verb.help _ = some (say help_text)
    arm id clock Verb.submit (instrument ∷ side ∷ type_str ∷ price_text ∷ qty_text ∷ _) = some (
        with_decimal price_text invalid_price (λ price.
          with_decimal qty_text invalid_quantity
            (λ qty. handle_submit id clock instrument side type_str price qty)))
    arm id clock Verb.list _ = some handle_list
    arm id clock Verb.cancel (id_str ∷ _) = some (handle_cancel (clock 0) id_str)
    arm id clock Verb.fill (id_str ∷ qty_text ∷ price_text ∷ _) = some (
        with_decimal qty_text invalid_quantity (λ qty.
          with_decimal price_text invalid_price (λ price. handle_fill id clock id_str qty price)))
    arm id clock Verb.account _ = some handle_account
    arm id clock Verb.positions _ = some handle_positions
    arm id clock Verb.history words = some (handle_history (first words))
    arm id clock Verb.margin words = some (handle_margin (parse_mark_prices words))
    arm id clock Verb.deposit (text ∷ _) =
        some (with_decimal text invalid_amount (λ amount. handle_deposit amount))
    arm id clock Verb.withdraw (text ∷ _) =
        some (with_decimal text invalid_amount (λ amount. handle_withdraw amount))
    arm id clock Verb.quit _ = none
    arm id clock _ _ = some (say unknown_command)

    -- The loop, from one read to the next. An empty read is the end of the input.
    unfoldable pub repl_loop : List Turn → Handler
    unfolding verb arm split_whitespace
    repl_loop [] s = (ok [], s)
    repl_loop (t ∷ turns) s = elim t.input [
      | none ↦ (ok [], s)
      | some String.[] ↦ (ok [], s)
      | some (String.◌∷◌ c text) ↦ elim (split_whitespace (String.◌∷◌ c text)) [
        | [] ↦ repl_loop turns s
        | w ∷ words ↦ elim (arm t.id t.clock (verb w) words) [
          | none ↦ (ok [], s)
          | some handle ↦ (do lines ← handle; rest ← repl_loop turns; pure (lines ++ rest)) s
        ]
      ]
    ]

    unfoldable pub run_repl : List Turn → Handler
    unfolding repl_loop
    run_repl turns = do lines ← repl_loop turns; pure (banner ∷ lines)
