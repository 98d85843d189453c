-- ===== src/Domain/Method.antt =====
-- What a call that stands behind a result keeps, whatever the outcome.
use aegis_oms_rs.Platform.{Platform}
use aegis_oms_rs.Domain.Error.{Result, ok, err, panic, Method, ◌>>◌, lift}

module _ ⦃P : Platform⦄ {S : Type 0} where
  -- From a state where `I` holds, the call ends in one where `J` holds.
  abbrev pub Leads : {A : Type 0} → (S → Type 0) → (S → Type 0) → Method S A → Type 0
  Leads I J m = (s : S) → I s → J (m s).1

  -- `J` holds where the result is no success, too.
  pub lift-Leads :
      {A : Type 0} (I J : S → Type 0) (r : Result (Unit {0})) (m : Method S A)
      → ((t : S) → I t → J t)
      → Leads I J m
      → Leads I J (lift r >> m)
  lift-Leads I J (ok u) m w h s i = h s i
  lift-Leads I J (err e) m w h s i = w s i
  lift-Leads I J panic m w h s i = w s i
