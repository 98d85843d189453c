-- ===== src/Config.antt =====
-- src/config.rs: the configuration, from a file or by default. The environment variables, the file
-- system and the TOML parser are an argument.
use aegis_oms_rs.Prelude.{
  ℕ, ◌+◌, ◌-◌, ◌*◌, String, Option, none, some, ◌⊎◌, inl, inr, Bool, ◌&&◌, leb, if◌then◌else◌,
}
use Prim.Native.Char.{code}
use Prim.Native.String.{◌++◌ as ◌+++◌}
use aegis_oms_rs.Platform.{Platform}
use aegis_oms_rs.Infra.PgOrder.{◌>>=◌}

-- The number that the digits of a text write after those read so far.
abbrev digits_from : ℕ → String → Option ℕ
digits_from n String.[] = some n
digits_from n (String.◌∷◌ c s) =
    let rest = digits_from (10 * n + (code c - 48)) s in
    if leb 48 (code c) && leb (code c) 57 then rest else none

abbrev some_digits : String → Option ℕ
some_digits String.[] = none
some_digits s = digits_from 0 s

abbrev without_plus : String → String
without_plus String.[] = String.[]
without_plus (String.◌∷◌ c s) = if leb 43 (code c) && leb (code c) 43 then s else String.◌∷◌ c s

abbrev in_u16 : Option ℕ → Option ℕ
in_u16 none = none
in_u16 (some n) = if leb n 65535 then some n else none

-- `u16::from_str`
unfoldable pub parse_u16 : String → Option ℕ
parse_u16 s = in_u16 (some_digits (without_plus s))

pub record SmtpConfig : Type 0 where
  pub host : String
  pub port : ℕ
  pub username : String
  pub password : String
  pub from : String
  pub to : String

-- `SmtpConfig::from_env`, by the variables that are set.
unfoldable pub from_env : (String → Option String) → Option SmtpConfig
unfolding parse_u16
from_env var = do
  host ← var "SMTP_HOST"
  port_text ← var "SMTP_PORT"
  port ← parse_u16 port_text
  username ← var "SMTP_USER"
  password ← var "SMTP_PASS"
  from ← var "ALERT_FROM"
  to ← var "ALERT_TO"
  some (record {
    host = host;
    port = port;
    username = username;
    password = password;
    from = from;
    to = to;
  })

module _ ⦃P : Platform⦄ where
  pub record AccountConfig : Type 0 where
    pub initial_balance : P.Decimal

  pub record RiskConfig : Type 0 where
    pub max_order_quantity : P.Decimal
    pub max_open_orders : ℕ
    pub max_open_positions : ℕ
    pub stop_out_ratio : P.Decimal
    pub margin_call_ratio : P.Decimal
    pub max_loss : Option P.Decimal

  -- `RiskConfig::default`
  unfoldable pub default_risk : RiskConfig
  default_risk = record {
    max_order_quantity = P.new 1_000_000;
    max_open_orders = 100;
    max_open_positions = 20;
    stop_out_ratio = P.new 50;
    margin_call_ratio = P.new 100;
    max_loss = none;
  }

  pub record AppConfig : Type 0 where
    pub account : AccountConfig
    pub risk : RiskConfig
    pub smtp : Option SmtpConfig

  -- What the program asks of its surroundings; an error is its text.
  pub record Environment : Type 0 where
    pub var : String → Option String
    pub exists : String → Bool
    pub read_to_string : String → String ⊎ String
    pub toml_from_str : String → String ⊎ AppConfig

  -- `.map_err(|e| format!(..))`
  abbrev map_err : {A : Type 0} → String → String ⊎ A → String ⊎ A
  map_err text (inl e) = inl (text +++ e)
  map_err text (inr a) = inr a

  -- `AppConfig::from_file`, with `?` after the first step.
  unfoldable pub from_file : Environment → String → String ⊎ AppConfig
  from_file env path = elim (map_err "Failed to read config: " (env.read_to_string path)) [
    | inl e ↦ inl e
    | inr content ↦ map_err "Failed to parse config: " (env.toml_from_str content)
  ]

  unfoldable pub default_with_balance : Environment → P.Decimal → AppConfig
  unfolding from_env default_risk
  default_with_balance env balance = record {
    account = record { initial_balance = balance };
    risk = default_risk;
    smtp = from_env env.var;
  }

  abbrev config_path : Environment → String
  config_path env = elim (env.var "AEGIS_CONFIG") [
    | none ↦ "config/default.toml"
    | some path ↦ path
  ]

  abbrev or_default : Environment → String ⊎ AppConfig → AppConfig
  or_default env (inl e) = default_with_balance env (P.new 100_000)
  or_default env (inr config) = config

  -- `AppConfig::load`
  unfoldable pub load : Environment → AppConfig
  unfolding from_file default_with_balance
  load env =
      if env.exists (config_path env)
      then or_default env (from_file env (config_path env))
      else default_with_balance env (P.new 100_000)
