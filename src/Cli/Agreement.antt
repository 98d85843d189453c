-- ===== src/Cli/Agreement.antt =====
-- The two front ends agree: a line of the interactive mode and the subcommand that it spells.
use aegis_oms_rs.Prelude.{ℕ, String, ◌≡◌, refl, some, List, ◌∷◌, ◌⊎◌, inl, inr}
use aegis_oms_rs.Platform.{Platform}
use aegis_oms_rs.Platform.Text.{Texts}
use aegis_oms_rs.Infra.Repository.{Stores}
use aegis_oms_rs.Service.OrderService.State.{OrderService}
use aegis_oms_rs.Cli.{Commands}
use aegis_oms_rs.Cli.Words.{split_whitespace}
use aegis_oms_rs.Cli.Repl.{Verb, verb, arm, Turn, repl_loop, with_decimal, first}
use aegis_oms_rs.Cli.Main.{run_command}
use aegis_oms_rs.Cli.Session.{then_loop}

abbrev pub EitherOf : String → String → String → Type 0
EitherOf w a b = (w ≡ a) ⊎ (w ≡ b)

verb_either : {w a b : String} (v : Verb) → EitherOf w a b → verb a ≡ v → verb b ≡ v → verb w ≡ v
verb_either v (inl e) h k = rw e h
verb_either v (inr e) h k = rw e k

module _ ⦃P : Platform⦄ ⦃S : Stores⦄ ⦃T : Texts⦄ where
  -- The words of a line spell a subcommand; words behind those that are needed do not matter.
  pub data Spells : String → List String → Commands → Type 0 where
    spells_submit :
        {w instrument side type_str price_text qty_text : String} {more : List String}
        {price qty : P.Decimal}
        → EitherOf w "submit" "s"
        → T.parse_decimal price_text ≡ some price
        → T.parse_decimal qty_text ≡ some qty
        → Spells w
            (instrument ∷ side ∷ type_str ∷ price_text ∷ qty_text ∷ more)
            (Commands.submit instrument side type_str price qty)
    spells_fill :
        {w id qty_text price_text : String} {more : List String} {qty price : P.Decimal}
        → EitherOf w "fill" "f"
        → T.parse_decimal qty_text ≡ some qty
        → T.parse_decimal price_text ≡ some price
        → Spells w (id ∷ qty_text ∷ price_text ∷ more) (Commands.fill id qty price)
    spells_cancel :
        {w id : String} {more : List String}
        → EitherOf w "cancel" "c"
        → Spells w (id ∷ more) (Commands.cancel id)
    spells_deposit :
        {text : String} {more : List String} {amount : P.Decimal}
        → T.parse_decimal text ≡ some amount
        → Spells "deposit" (text ∷ more) (Commands.deposit amount)
    spells_withdraw :
        {text : String} {more : List String} {amount : P.Decimal}
        → T.parse_decimal text ≡ some amount
        → Spells "withdraw" (text ∷ more) (Commands.withdraw amount)
    spells_list :
        {w : String} {more : List String} → EitherOf w "list" "l" → Spells w more Commands.list
    spells_account :
        {w : String} {more : List String}
        → EitherOf w "account" "a"
        → Spells w more Commands.account
    spells_positions :
        {w : String} {more : List String}
        → EitherOf w "positions" "p"
        → Spells w more Commands.positions
    spells_history : {words : List String} → Spells "history" words (Commands.history (first words))
    spells_margin :
        {w : String} {prices : List String}
        → EitherOf w "margin" "m"
        → Spells w prices (Commands.margin prices)

  arm-Spells :
      (id : P.Ulid) (clock : ℕ → P.Timestamp) (turns : List Turn) {w : String} {words : List String}
      {c : Commands}
      → Spells w words c
      → arm id clock (verb w) words ≡ some (run_command id clock turns (some c))
  unfolding arm verb run_command
  arm-Spells id clock turns (spells_submit e p q) =
      rw (verb_either Verb.submit e refl refl, arm, with_decimal, p, q) refl
  arm-Spells id clock turns (spells_fill e q p) =
      rw (verb_either Verb.fill e refl refl, arm, with_decimal, q, p) refl
  arm-Spells id clock turns (spells_cancel e) = rw (verb_either Verb.cancel e refl refl) refl
  arm-Spells id clock turns (spells_deposit p) = rw (arm, verb, with_decimal, p) refl
  arm-Spells id clock turns (spells_withdraw p) = rw (arm, verb, with_decimal, p) refl
  arm-Spells id clock turns (spells_list e) = rw (verb_either Verb.list e refl refl) refl
  arm-Spells id clock turns (spells_account e) = rw (verb_either Verb.account e refl refl) refl
  arm-Spells id clock turns (spells_positions e) = rw (verb_either Verb.positions e refl refl) refl
  arm-Spells id clock turns spells_history = refl
  arm-Spells id clock turns (spells_margin e) = rw (verb_either Verb.margin e refl refl) refl

  -- A line of the interactive mode whose words spell a subcommand does and prints what this
  -- subcommand of the program does and prints, and the session goes on behind it.
  pub repl-run_command :
      (t : Turn) (turns : List Turn) (text w : String) (words : List String) (c : Commands)
      (s : OrderService)
      → t.input ≡ some text
      → split_whitespace text ≡ w ∷ words
      → Spells w words c
      → repl_loop (t ∷ turns) s ≡ then_loop (run_command t.id t.clock turns (some c)) turns s
  unfolding repl_loop split_whitespace
  repl-run_command t turns String.[] w words c s e k spells = absurd (cc)
  repl-run_command t turns (String.◌∷◌ x text) w words c s e k spells =
      rw (repl_loop, e, k, arm-Spells t.id t.clock turns spells) refl
