-- ===== src/Cli.antt =====
-- The command line: src/cli/mod.rs, and the parts of src/cli and src/main.rs.
pub mod Words
pub mod Service
pub mod Postgres
pub mod Handlers
pub mod Repl
pub mod Main
pub mod Program
pub mod Restart
pub mod Meaning
pub mod Follows
pub mod Session
pub mod Agreement
use aegis_oms_rs.Prelude.{String, Option, List}
use aegis_oms_rs.Platform.{Platform}

module _ ⦃P : Platform⦄ where
  -- The subcommands, as clap parses them.
  pub data Commands : Type 0 where
    submit : (instrument side type_str : String) (price qty : P.Decimal) → Commands
    list account positions repl : Commands
    cancel : String → Commands
    history : Option String → Commands
    margin : List String → Commands
    fill : (id : String) (qty price : P.Decimal) → Commands
    deposit withdraw : P.Decimal → Commands
