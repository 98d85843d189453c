-- ===== src/Cli/Follows.antt =====
-- What each arm of the interactive mode does to the service: what its words mean.
use aegis_oms_rs.Prelude.{
  ℕ, String, ◌≡◌, refl, Option, none, some, List, [], ◌∷◌, inl, inr, Option-cases, Sum-cases, arith,
}
use aegis_oms_rs.Platform.{Platform}
use aegis_oms_rs.Platform.Text.{Texts}
use aegis_oms_rs.Domain.Error.{Result-cases, Method}
use aegis_oms_rs.Infra.Repository.{Stores}
use aegis_oms_rs.Service.OrderService.State.{OrderService}
use aegis_oms_rs.Cli.Handlers.{
  Handler, Line, report, parse_side, handle_submit, handle_cancel, handle_fill, handle_deposit,
  handle_withdraw, handle_list, handle_positions, handle_history, handle_account, handle_margin,
}
use aegis_oms_rs.Cli.Repl.{Verb, arm, with_decimal, first}
use aegis_oms_rs.Cli.Meaning.{Meaning, stops, nothing, asks, command, perform, side_of}

module _ ⦃P : Platform⦄ ⦃S : Stores⦄ where
  report-state :
      {A : Type 0} (line : A → OrderService → Line) (call : Method OrderService A)
      (s : OrderService)
      → (report line call s).1 ≡ (call s).1
  report-state line call s = elim (Result-cases (call s).0) [
    | inl (a, e) ↦ rw (e, report) refl
    | inr (inl e) ↦ rw (e, report) refl
    | inr (inr (x, e)) ↦ rw (e, report) refl
  ]

  module _ ⦃T : Texts⦄ (id : P.Ulid) (clock : ℕ → P.Timestamp) where
    -- An arm does to the service what its words mean; where there is none, they end the session.
    abbrev pub Follows : Option Handler → Meaning → Type 0
    Follows none stops = Unit {0}
    Follows (some h) nothing = (s : OrderService) → (h s).1 ≡ s
    Follows (some h) (asks r) = (s : OrderService) → (h s).1 ≡ perform id clock r s
    Follows _ _ = ⊥

    submit-Follows :
        (instrument side type_str price qty : String) (more : List String)
        → let words = instrument ∷ side ∷ type_str ∷ price ∷ qty ∷ more in
          Follows (arm id clock Verb.submit words) (command Verb.submit words)
    unfolding arm handle_submit
    submit-Follows instrument side type_str price qty more =
        elim (Option-cases (T.parse_decimal price)) [
          | inl e ↦ rw (e, with_decimal) (λ s. refl)
          | inr (p, e) ↦ elim (Option-cases (T.parse_decimal qty)) [
            | inl k ↦ rw (e, k, with_decimal) (λ s. refl)
            | inr (q, k) ↦ elim (Sum-cases (parse_side side)) [
              | inl (x, n) ↦ rw (e, k, n, with_decimal, handle_submit, side_of) (λ s. refl)
              | inr (d, n) ↦
                  rw (e, k, n, with_decimal, handle_submit, side_of) (λ s. rw report-state refl)
            ]
          ]
        ]

    cancel-Follows :
        (text : String) (more : List String)
        → Follows (arm id clock Verb.cancel (text ∷ more)) (command Verb.cancel (text ∷ more))
    unfolding arm handle_cancel
    cancel-Follows text more = elim (Option-cases (T.ulid_from_string text)) [
      | inl e ↦ rw (e, handle_cancel) (λ s. refl)
      | inr (i, e) ↦ rw (e, handle_cancel) (λ s. rw report-state refl)
    ]

    fill-Follows :
        (text qty price : String) (more : List String)
        → let words = text ∷ qty ∷ price ∷ more in
          Follows (arm id clock Verb.fill words) (command Verb.fill words)
    unfolding arm handle_fill
    fill-Follows text qty price more = elim (Option-cases (T.parse_decimal qty)) [
      | inl e ↦ rw (e, with_decimal) (λ s. refl)
      | inr (q, e) ↦ elim (Option-cases (T.parse_decimal price)) [
        | inl k ↦ rw (e, k, with_decimal) (λ s. refl)
        | inr (p, k) ↦ elim (Option-cases (T.ulid_from_string text)) [
          | inl n ↦ rw (e, k, n, with_decimal, handle_fill) (λ s. refl)
          | inr (i, n) ↦ rw (e, k, n, with_decimal, handle_fill) (λ s. rw report-state refl)
        ]
      ]
    ]

    deposit-Follows :
        (text : String) (more : List String)
        → Follows (arm id clock Verb.deposit (text ∷ more)) (command Verb.deposit (text ∷ more))
    unfolding arm handle_deposit
    deposit-Follows text more = elim (Option-cases (T.parse_decimal text)) [
      | inl e ↦ rw (e, with_decimal) (λ s. refl)
      | inr (a, e) ↦ rw (e, with_decimal) (λ s. rw report-state refl)
    ]

    withdraw-Follows :
        (text : String) (more : List String)
        → Follows (arm id clock Verb.withdraw (text ∷ more)) (command Verb.withdraw (text ∷ more))
    unfolding arm handle_withdraw
    withdraw-Follows text more = elim (Option-cases (T.parse_decimal text)) [
      | inl e ↦ rw (e, with_decimal) (λ s. refl)
      | inr (a, e) ↦ rw (e, with_decimal) (λ s. rw report-state refl)
    ]

    -- The queries leave the service as it is.
    list-state : (s : OrderService) → (handle_list s).1 ≡ s
    unfolding handle_list
    list-state s = ground arith

    positions-state : (s : OrderService) → (handle_positions s).1 ≡ s
    unfolding handle_positions
    positions-state s = ground arith

    history-state :
        (instrument : Option String) (s : OrderService) → (handle_history instrument s).1 ≡ s
    unfolding handle_history
    history-state instrument s = ground arith

    pub arm-Follows :
        (v : Verb) (words : List String) → Follows (arm id clock v words) (command v words)
    unfolding arm handle_account handle_margin
    arm-Follows Verb.help words = λ s. refl
    arm-Follows Verb.submit (instrument ∷ side ∷ type_str ∷ price ∷ qty ∷ more) =
        submit-Follows instrument side type_str price qty more
    arm-Follows Verb.submit (instrument ∷ side ∷ type_str ∷ price ∷ []) = λ s. refl
    arm-Follows Verb.submit (instrument ∷ side ∷ type_str ∷ []) = λ s. refl
    arm-Follows Verb.submit (instrument ∷ side ∷ []) = λ s. refl
    arm-Follows Verb.submit (instrument ∷ []) = λ s. refl
    arm-Follows Verb.submit [] = λ s. refl
    arm-Follows Verb.list words = list-state
    arm-Follows Verb.cancel (text ∷ more) = cancel-Follows text more
    arm-Follows Verb.cancel [] = λ s. refl
    arm-Follows Verb.fill (text ∷ qty ∷ price ∷ more) = fill-Follows text qty price more
    arm-Follows Verb.fill (text ∷ qty ∷ []) = λ s. refl
    arm-Follows Verb.fill (text ∷ []) = λ s. refl
    arm-Follows Verb.fill [] = λ s. refl
    arm-Follows Verb.account words = λ s. refl
    arm-Follows Verb.positions words = positions-state
    arm-Follows Verb.history words = history-state (first words)
    arm-Follows Verb.margin words = λ s. refl
    arm-Follows Verb.deposit (text ∷ more) = deposit-Follows text more
    arm-Follows Verb.deposit [] = λ s. refl
    arm-Follows Verb.withdraw (text ∷ more) = withdraw-Follows text more
    arm-Follows Verb.withdraw [] = λ s. refl
    arm-Follows Verb.quit words = tt
    arm-Follows Verb.unknown words = λ s. refl
