-- ===== src/Cli/Main.antt =====
-- src/main.rs: a command line is one subcommand on the service, or the interactive mode.
use aegis_oms_rs.Prelude.{ℕ, Option, none, some, List}
use aegis_oms_rs.Platform.{Platform}
use aegis_oms_rs.Platform.Text.{Texts}
use aegis_oms_rs.Infra.Repository.{Stores}
use aegis_oms_rs.Cli.{Commands}
use aegis_oms_rs.Cli.Handlers.{
  Handler, handle_submit, handle_list, handle_cancel, handle_fill, handle_account, handle_positions,
  handle_history, handle_margin, handle_deposit, handle_withdraw, parse_mark_prices,
}
use aegis_oms_rs.Cli.Repl.{Turn, run_repl}

module _ ⦃P : Platform⦄ ⦃S : Stores⦄ ⦃T : Texts⦄ where
  -- The match of `main`, with the identifier and the clock that the subcommand uses, and what the
  -- interactive mode reads.
  unfoldable pub run_command : P.Ulid → (ℕ → P.Timestamp) → List Turn → Option Commands → Handler
  unfolding run_repl handle_submit handle_list handle_cancel handle_fill handle_account
      handle_positions handle_history handle_margin handle_deposit handle_withdraw parse_mark_prices
  run_command id clock turns (some (Commands.submit instrument side type_str price qty)) =
      handle_submit id clock instrument side type_str price qty
  run_command id clock turns (some Commands.list) = handle_list
  run_command id clock turns (some (Commands.cancel id_str)) = handle_cancel (clock 0) id_str
  run_command id clock turns (some (Commands.fill id_str qty price)) =
      handle_fill id clock id_str qty price
  run_command id clock turns (some (Commands.deposit amount)) = handle_deposit amount
  run_command id clock turns (some (Commands.withdraw amount)) = handle_withdraw amount
  run_command id clock turns (some Commands.account) = handle_account
  run_command id clock turns (some Commands.positions) = handle_positions
  run_command id clock turns (some (Commands.history instrument)) = handle_history instrument
  run_command id clock turns (some (Commands.margin prices)) =
      handle_margin (parse_mark_prices prices)
  run_command id clock turns (some Commands.repl) = run_repl turns
  run_command id clock turns none = run_repl turns
