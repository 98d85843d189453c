-- ===== src/Service/OrderService/Locks.antt =====
-- The margin locks of the orders against the margin that the account has locked.
use aegis_oms_rs.Prelude.{
  ◌≡◌, ℤ, pos, ◌+ℤ◌, ◌-ℤ◌, ◌≤ℤ◌, ◌<ℤ◌, Option-cases, inl, inr, some, none, arith, int_laws,
  +ℤ_cancel, sym, ◌∙◌, ap,
}
use aegis_oms_rs.Prelude.Map.{HashMap, remove}
use aegis_oms_rs.Prelude.Map.Sum.{
  IsDistinct, sum_by, AllPositive, remove-IsDistinct, sum_by-remove, AllPositive-remove,
  AllPositive-get, sum_by_nonneg,
}
use aegis_oms_rs.Platform.{Platform}
use aegis_oms_rs.Infra.Repository.{Stores}
use aegis_oms_rs.Platform.Decimal.{IsExact, sub_exact}
use aegis_oms_rs.Domain.Error.{ok}
use aegis_oms_rs.Domain.Account.{Account, unlock_margin}
use aegis_oms_rs.Service.OrderService.State.{OrderService, lock_of, release_margin}

module _ ⦃P : Platform⦄ ⦃S : Stores⦄ where
  -- Each order holds one lock at most, of a positive margin, and their sum is what is locked.
  pub record Match (locked : P.Decimal) (locks : HashMap P.Ulid P.Decimal) : Type 0 where
    pub distinct : IsDistinct ⦃e = P.ulid_is_eq⦄ locks
    pub positive : AllPositive ⦃e = P.ulid_is_eq⦄ P.units locks
    pub matched : P.units locked ≡ sum_by ⦃e = P.ulid_is_eq⦄ P.units locks

  abbrev pub LocksMatch : OrderService → Type 0
  LocksMatch s = Match s.account.locked_margin s.margin_locks

  -- A Decimal represents what is left when the lock of the order is taken off.
  abbrev pub ExactRelease : P.Ulid → OrderService → Type 0
  ExactRelease id s =
      (m : P.Decimal)
      → lock_of id s ≡ some m
      → IsExact (P.units s.account.locked_margin -ℤ P.units m)

  unlock_exact :
      (m : P.Decimal) (a : Account)
      → pos 0 <ℤ P.units m
      → P.units m ≤ℤ P.units a.locked_margin
      → IsExact (P.units a.locked_margin -ℤ P.units m)
      → (c : P.Decimal) × (unlock_margin m a ≡ (ok tt, record a { locked_margin = c }))
        × (P.units c ≡ P.units a.locked_margin -ℤ P.units m)
  unfolding unlock_margin
  unlock_exact m a h le exact =
      let (c, e, v) = sub_exact a.locked_margin m exact in (c, ground (arith, P.zero_lem), v)

  abbrev without : P.Ulid → OrderService → ℤ
  without id s = sum_by ⦃e = P.ulid_is_eq⦄ P.units (remove ⦃e = P.ulid_is_eq⦄ id s.margin_locks)

  locked_split :
      (id : P.Ulid) (m : P.Decimal) (s : OrderService)
      → LocksMatch s
      → lock_of id s ≡ some m
      → P.units s.account.locked_margin ≡ without id s +ℤ P.units m
  locked_split id m s l e =
      l.matched ∙ sym (sum_by-remove ⦃e = P.ulid_is_eq⦄ P.units id m s.margin_locks l.distinct e)

  without_nonneg : (id : P.Ulid) (s : OrderService) → LocksMatch s → pos 0 ≤ℤ without id s
  without_nonneg id s l =
      sum_by_nonneg ⦃e = P.ulid_is_eq⦄ P.units (remove ⦃e = P.ulid_is_eq⦄ id s.margin_locks)
        (AllPositive-remove ⦃e = P.ulid_is_eq⦄ P.units id s.margin_locks l.positive)

  -- Where the locks and the account are in step, and a Decimal represents what is left,
  -- releasing the lock that an order holds succeeds, takes exactly that lock off the account and
  -- from the map, and changes nothing else.
  pub release_margin_lem :
      (id : P.Ulid) (m : P.Decimal) (s : OrderService)
      → LocksMatch s
      → lock_of id s ≡ some m
      → IsExact (P.units s.account.locked_margin -ℤ P.units m)
      → (c : P.Decimal) × (P.units c ≡ P.units s.account.locked_margin -ℤ P.units m)
        × (release_margin id s ≡ (
          ok tt,
          record s {
            account = record (s.account) { locked_margin = c };
            margin_locks = remove ⦃e = P.ulid_is_eq⦄ id s.margin_locks;
          },
        ))
  unfolding release_margin
  release_margin_lem id m s l e exact =
      let rest = without_nonneg id s l in
      let covered : P.units m ≤ℤ P.units s.account.locked_margin =
        rw (locked_split id m s l e) (omega (int_laws, rest)) in
      let positive = AllPositive-get ⦃e = P.ulid_is_eq⦄ P.units id m s.margin_locks l.positive e in
      let (c, u, v) = unlock_exact m s.account positive covered exact in
      (c, v, rw (e, release_margin, u))

  pub release_none :
      (id : P.Ulid) (s : OrderService) → lock_of id s ≡ none → release_margin id s ≡ (ok tt, s)
  unfolding release_margin
  release_none id s e = rw (e, release_margin)

  pub release-LocksMatch :
      (id : P.Ulid) (s : OrderService)
      → LocksMatch s × ExactRelease id s
      → LocksMatch (release_margin id s).1
  release-LocksMatch id s (l, exact) = elim (Option-cases (lock_of id s)) [
    | inl e ↦ rw (release_none id s e) l
    | inr (m, e) ↦
        let (c, v, r) = release_margin_lem id m s l e (exact m e) in
        rw r (record {
          distinct = remove-IsDistinct ⦃e = P.ulid_is_eq⦄ id s.margin_locks l.distinct;
          positive = AllPositive-remove ⦃e = P.ulid_is_eq⦄ P.units id s.margin_locks l.positive;
          matched =
              v
              ∙ ap (λ t. t -ℤ P.units m) (locked_split id m s l e)
              ∙ +ℤ_cancel (without id s) (P.units m);
        })
  ]
