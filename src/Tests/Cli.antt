-- ===== src/Tests/Cli.antt =====
-- The theorems on the command line at concrete inputs.
use aegis_oms_rs.Prelude.{◌≡◌, refl, some, [], ◌∷◌, List, inl}
use aegis_oms_rs.Platform.Whole.{whole}
use aegis_oms_rs.Infra.Repository.Memory.{in_memory_stores}
use aegis_oms_rs.Platform.Plain.{plain}
use aegis_oms_rs.Domain.Error.{ok}
use aegis_oms_rs.Cli.{Commands}
use aegis_oms_rs.Cli.Handlers.{banner}
use aegis_oms_rs.Cli.Words.{split_whitespace}
use aegis_oms_rs.Cli.Repl.{Turn, run_repl, repl_loop}
use aegis_oms_rs.Cli.Main.{run_command}
use aegis_oms_rs.Cli.Session.{CarriesOut, run_repl-CarriesOut, then_loop}
use aegis_oms_rs.Cli.Agreement.{repl-run_command, spells_submit}
use aegis_oms_rs.Tests.Fixture.{dec, clock, desk}

abbrev submit_turn : Turn
submit_turn = record { input = some " submit BTC buy limit 100 2"; id = 8; clock = clock }

abbrev cancel_turn : Turn
cancel_turn = record { input = some "c |||||||"; id = 9; clock = clock }

abbrev lines_read : List Turn
lines_read = submit_turn ∷ cancel_turn ∷ []

words_read :
    split_whitespace " submit BTC buy limit 100 2"
    ≡ "submit" ∷ "BTC" ∷ "buy" ∷ "limit" ∷ "100" ∷ "2" ∷ []
unfolding split_whitespace
words_read = refl

run_repl-CarriesOut_example : CarriesOut lines_read desk (run_repl lines_read desk)
run_repl-CarriesOut_example = run_repl-CarriesOut lines_read desk

repl-run_command_example :
    repl_loop lines_read desk
    ≡ then_loop
        (run_command 8 clock
          (cancel_turn ∷ [])
          (some (Commands.submit "BTC" "buy" "limit" (dec 100) (dec 2))))
        (cancel_turn ∷ [])
        desk
repl-run_command_example =
    repl-run_command submit_turn (cancel_turn ∷ []) " submit BTC buy limit 100 2" "submit"
      ("BTC" ∷ "buy" ∷ "limit" ∷ "100" ∷ "2" ∷ [])
      (Commands.submit "BTC" "buy" "limit" (dec 100) (dec 2)) desk refl words_read
      (spells_submit (inl refl) refl refl)

abbrev quit_turn : Turn
quit_turn = record { input = some "quit"; id = 10; clock = clock }

-- Nothing is read behind a quit.
quit_ends : run_repl (quit_turn ∷ submit_turn ∷ []) desk ≡ (ok (banner ∷ []), desk)
unfolding run_repl
quit_ends = refl
