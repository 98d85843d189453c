-- ===== src/Domain/Error.antt =====
-- src/domain/error.rs, and the outcome of a call: a value, an error, or a panic. A method is a
-- function of the object it borrows mutably: what it wrote stays written when it fails.
use aegis_oms_rs.Prelude.{
  ℕ, ◌≡◌, refl, ◌⊎◌, inl, inr, String, Bool, Option, none, some, if◌then◌else◌,
}
use aegis_oms_rs.Platform.{Platform}
use aegis_oms_rs.Domain.Status.{OrderStatus}

module _ ⦃P : Platform⦄ where
  -- `OrderId(pub Ulid)`
  abbrev pub OrderId : Type 0
  OrderId = P.Ulid

  -- The reason texts, one constructor for each message with what it prints.
  pub data Reason : Type 0 where
    leverage_not_positive margin_overflow quantity_not_positive : Reason
    quantity_exceeds_max : P.Decimal → P.Decimal → Reason
    limit_price_not_positive stop_price_not_positive : Reason
    stop_limit_not_positive trail_not_positive : Reason
    open_order_limit open_position_limit : ℕ → Reason
    loss_limit_exceeded : P.Decimal → P.Decimal → Reason
    -- The text of a database error.
    database : String → Reason

  pub data OmsError : Type 0 where
    invalid_state_transition : P.Ulid → OrderStatus → OrderStatus → OmsError
    over_fill : P.Ulid → P.Decimal → P.Decimal → OmsError
    order_not_found : P.Ulid → OmsError
    insufficient_funds : P.Decimal → P.Decimal → OmsError
    invalid_margin_amount : P.Decimal → OmsError
    margin_unlock_exceeded : P.Decimal → P.Decimal → OmsError
    risk_check_failed : Reason → OmsError
    instrument_not_found : String → OmsError
    composite_order_not_found : String → OmsError
    alert_failed : String → OmsError
    withdrawal_exceeds_available : P.Decimal → P.Decimal → OmsError
    ioc_residual_cancelled : P.Ulid → P.Decimal → OmsError
    fok_rejected : P.Ulid → P.Decimal → P.Decimal → OmsError

  pub data Result (A : Type 0) : Type 0 where
    ok : A → Result A
    err : OmsError → Result A
    panic : Result A

  abbrev pub Method : Type 0 → Type 0 → Type 0
  Method S A = S → Result A × S

  -- An operator panics where its checked form has no value.
  abbrev pub or_panic : {A : Type 0} → Option A → Result A
  or_panic none = panic
  or_panic (some a) = ok a

  abbrev pub add : P.Decimal → P.Decimal → Result P.Decimal
  add a b = or_panic (P.checked_add a b)

  abbrev pub sub : P.Decimal → P.Decimal → Result P.Decimal
  sub a b = or_panic (P.checked_sub a b)

  abbrev pub mul : P.Decimal → P.Decimal → Result P.Decimal
  mul a b = or_panic (P.checked_mul a b)

  abbrev pub div : P.Decimal → P.Decimal → Result P.Decimal
  div a b = or_panic (P.checked_div a b)

  abbrev pub or_err : {A : Type 0} → Option A → OmsError → Result A
  or_err none e = err e
  or_err (some a) e = ok a

  -- Chaining results that touch no state.
  abbrev pub bind : {A B : Type 0} → Result A → (A → Result B) → Result B
  bind (ok a) f = f a
  bind (err e) f = err e
  bind panic f = panic

  abbrev pub pure : {S A : Type 0} → A → Method S A
  pure a s = (ok a, s)

  abbrev pub raise : {S A : Type 0} → OmsError → Method S A
  raise e s = (err e, s)

  abbrev pub lift : {S A : Type 0} → Result A → Method S A
  lift r s = (r, s)

  abbrev pub gets : {S A : Type 0} → (S → A) → Method S A
  gets f s = (ok (f s), s)

  abbrev pub modify : {S : Type 0} → (S → S) → Method S (Unit {0})
  modify f s = (ok tt, f s)

  abbrev pub raise_if : {S : Type 0} → Bool → OmsError → Method S (Unit {0})
  raise_if b e s = (if b then err e else ok tt, s)

  abbrev pub when : {S : Type 0} → Bool → Method S (Unit {0}) → Method S (Unit {0})
  when b m s = if b then m s else (ok tt, s)

  infixl 5 ◌>>=◌ ◌>>◌
  abbrev pub ◌>>=◌ : {S A B : Type 0} → Method S A → (A → Method S B) → Method S B
  ◌>>=◌ m f s =
      let (r, s') = m s in elim r [ ok a ↦ f a s' | err e ↦ (err e, s') | panic ↦ (panic, s') ]

  abbrev pub ◌>>◌ : {S A B : Type 0} → Method S A → Method S B → Method S B
  m >> k = m >>= λ _. k

  -- A method of a part, run on the whole.
  abbrev pub zoom : {S T A : Type 0} → (S → T) → (T → S → S) → Method T A → Method S A
  zoom part put m s = let (r, t) = m (part s) in (r, put t s)

  pub Result-cases :
      {A : Type 0} (r : Result A)
      → ((a : A) × (r ≡ ok a)) ⊎ ((r ≡ panic) ⊎ ((e : OmsError) × (r ≡ err e)))
  Result-cases (ok a) = inl (a, refl)
  Result-cases (err e) = inr (inr (e, refl))
  Result-cases panic = inr (inl refl)
