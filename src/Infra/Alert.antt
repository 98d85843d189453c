-- ===== src/Infra/Alert.antt =====
-- src/infra/alert.rs: alerts, and their senders. The mail library lettre is an argument.
use aegis_oms_rs.Prelude.{ℕ, String, Option, none, some, ◌⊎◌, inl, inr, List, [], ◌∷◌, ◌++◌}
use Prim.Native.String.{◌++◌ as ◌+++◌}
use aegis_oms_rs.Platform.{Platform}
use aegis_oms_rs.Domain.Error.{Result, ok, err, panic, Method, alert_failed, bind}
use aegis_oms_rs.Domain.RiskEngine.{MarginLevel}
use aegis_oms_rs.Config.{parse_u16}

module _ ⦃P : Platform⦄ where
  -- The texts of an alert, one constructor for each with the ratio that it prints.
  pub data Message : Type 0 where
    margin_call_text stop_out_text ratio_text : P.Decimal → Message

  pub record Alert : Type 0 where
    pub level : MarginLevel
    pub margin_ratio : P.Decimal
    pub message : Message

  unfoldable pub message_of : MarginLevel → P.Decimal → Message
  message_of MarginLevel.margin_call margin_ratio = margin_call_text margin_ratio
  message_of MarginLevel.stop_out margin_ratio = stop_out_text margin_ratio
  message_of MarginLevel.normal margin_ratio = ratio_text margin_ratio

  -- `Alert::new`
  unfoldable pub new_alert : MarginLevel → P.Decimal → Alert
  unfolding message_of
  new_alert level margin_ratio = record {
    level = level;
    margin_ratio = margin_ratio;
    message = message_of level margin_ratio;
  }

  -- `ConsoleAlertSender::send`, on what has been printed.
  unfoldable pub send_to_console : Alert → Method (List Message) (Unit {0})
  send_to_console alert printed = (ok tt, printed ++ (alert.message ∷ []))

  pub record SmtpAlertSender : Type 0 where
    pub smtp_host : String
    pub smtp_port : ℕ
    pub username : String
    pub password : String
    pub from_addr : String
    pub to_addr : String

  -- What `SmtpAlertSender::from_env` says: a variable is not set, or the port is no number.
  pub data EnvError : Type 0 where
    not_set : String → EnvError
    port_not_a_number : EnvError

  abbrev required : (String → Option String) → String → EnvError ⊎ String
  required var key = elim (var key) [ none ↦ inl (not_set key) | some v ↦ inr v ]

  abbrev port_text : Option String → String
  port_text none = "587"
  port_text (some text) = text

  abbrev port_number : Option ℕ → EnvError ⊎ ℕ
  port_number none = inl port_not_a_number
  port_number (some n) = inr n

  -- The `?` of a chain of results with texts.
  abbrev and_then : {E A B : Type 0} → E ⊎ A → (A → E ⊎ B) → E ⊎ B
  and_then (inl e) f = inl e
  and_then (inr a) f = f a

  -- `SmtpAlertSender::from_env`, by the variables that are set; the port is 587 by default.
  unfoldable pub sender_from_env : (String → Option String) → EnvError ⊎ SmtpAlertSender
  unfolding parse_u16
  sender_from_env var = and_then (required var "SMTP_HOST") (λ smtp_host.
      and_then (port_number (parse_u16 (port_text (var "SMTP_PORT")))) (λ smtp_port.
        and_then (required var "SMTP_USER") (λ username.
          and_then (required var "SMTP_PASS") (λ password.
            and_then (required var "ALERT_FROM") (λ from_addr.
              and_then (required var "ALERT_TO") (λ to_addr. inr (record {
                smtp_host = smtp_host;
                smtp_port = smtp_port;
                username = username;
                password = password;
                from_addr = from_addr;
                to_addr = to_addr;
              })))))))

  unfoldable pub subject : MarginLevel → String
  subject MarginLevel.margin_call = "【Aegis OMS】追証警告"
  subject MarginLevel.stop_out = "【Aegis OMS】ロスカット発動"
  subject MarginLevel.normal = "【Aegis OMS】証拠金通知"

  -- lettre: addresses, mails, relays, and the mails that have been sent. An error is its text.
  pub record Mailer : Type 1 where
    pub Mailbox : Type 0
    pub Mail : Type 0
    pub Relay : Type 0
    pub Sent : Type 0
    pub parse_mailbox : String → String ⊎ Mailbox
    pub build : Mailbox → Mailbox → String → Message → String ⊎ Mail
    pub starttls_relay : String → String ⊎ Relay
    -- The relay at a port, with a name and a password.
    pub transmit : Relay → ℕ → String → String → Mail → Sent → (String ⊎ Unit {0}) × Sent

  module _ (M : Mailer) where
    -- `.map_err(|e| OmsError::AlertFailed { reason: format!(..) })`
    abbrev or_alert_failed : {A : Type 0} → String → String ⊎ A → Result A
    or_alert_failed text (inl e) = err (alert_failed (text +++ e))
    or_alert_failed text (inr a) = ok a

    abbrev mail_of : SmtpAlertSender → Alert → Result (M.Mail × M.Relay)
    mail_of s alert = bind (or_alert_failed "送信元アドレス解析エラー: " (M.parse_mailbox s.from_addr)) (λ from.
        bind (or_alert_failed "送信先アドレス解析エラー: " (M.parse_mailbox s.to_addr)) (λ to.
          bind (or_alert_failed "メール構築エラー: " (M.build from to (subject alert.level) alert.message))
            (λ mail.
              bind (or_alert_failed "SMTP 接続エラー: " (M.starttls_relay s.smtp_host))
                (λ relay. ok (mail, relay)))))

    -- `SmtpAlertSender::send`
    unfoldable pub send_by_mail : SmtpAlertSender → Alert → Method M.Sent (Unit {0})
    unfolding subject
    send_by_mail s alert sent = elim (mail_of s alert) [
      | ok (mail, relay) ↦
          let (r, sent') = M.transmit relay s.smtp_port s.username s.password mail sent in
          (or_alert_failed "SMTP 送信エラー: " r, sent')
      | err e ↦ (err e, sent)
      | panic ↦ (panic, sent)
    ]
