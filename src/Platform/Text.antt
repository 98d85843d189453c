-- ===== src/Platform/Text.antt =====
-- The texts of identifiers and numbers, by the crates that the program calls: Ulid's Display and
-- from_string, Decimal's FromStr and the macro `dec!`; and the standard library's to_lowercase.
use aegis_oms_rs.Prelude.{ℕ, ◌≡◌, String, Option, some}
use aegis_oms_rs.Platform.{Platform}

pub record Texts ⦃P : Platform⦄ : Type 0 where
  pub ulid_text : P.Ulid → String
  pub ulid_from_string : String → Option P.Ulid
  -- The text of the error of `Ulid::from_string`.
  pub ulid_error : String → String
  -- The text of an identifier is read back as that identifier.
  pub ulid_lem : (id : P.Ulid) → ulid_from_string (ulid_text id) ≡ some id
  -- The literal `dec!` of the number n / 10^scale.
  pub dec_literal : (n scale : ℕ) → P.Decimal
  pub parse_decimal : String → Option P.Decimal
  pub to_lowercase : String → String
