-- ===== src/Domain/Order/Trigger.antt =====
-- Stop orders: `check_trigger` and the trailing price.
use aegis_oms_rs.Prelude.{
  ◌≡◌, refl, subst, ◌↔◌, arith, false, ◌≤ℤ◌, some, Option, List, [], ◌∷◌, ◌∙◌, sym, inl, inr, ◌⊎◌,
  Has, Bool, true, if◌then◌else◌,
}
use aegis_oms_rs.Platform.{Platform}
use aegis_oms_rs.Platform.Decimal.{lt}
use aegis_oms_rs.Domain.Status.{Side, OrderStatus, can_transition_to}
use aegis_oms_rs.Domain.Error.{ok, Result}
use aegis_oms_rs.Domain.Order.{
  OrderType, market, limit, stop, stop_limit, trailing_stop, Order, check_trigger,
  update_trailing_best, is_stop_type, best_of,
}

-- The price is at the trigger or past it: above for a buy, below for a sell.
abbrev pub IsPast : ⦃P : Platform⦄ → Side → P.Decimal → P.Decimal → Type 0
IsPast ⦃P⦄ Side.buy price trigger = P.units trigger ≤ℤ P.units price
IsPast ⦃P⦄ Side.sell price trigger = P.units price ≤ℤ P.units trigger

-- What a check does to an order, by its result.
abbrev pub TriggerEffect :
    ⦃P : Platform⦄ → P.Timestamp → Order → Result (Option OrderType) × Order → Type 0
TriggerEffect now o (ok (some t), o') =
    (is_stop_type t ≡ false)
    × (o.status ≡ OrderStatus.pending_trigger)
    × (o' ≡ record o { status = OrderStatus.accepted; updated_at = now })
TriggerEffect now o (_, o') = o' ≡ o

module _ ⦃P : Platform⦄ (price : P.Decimal) (now : P.Timestamp) (o : Order) where
  -- A pending Stop order triggers exactly at a price at or past its trigger price, and is then
  -- to be executed as a Market order.
  pub check_trigger_stop :
      (trigger : P.Decimal)
      → o.status ≡ OrderStatus.pending_trigger
      → o.order_type ≡ stop trigger
      → ((check_trigger price now o).0 ≡ ok (some market)) ↔ IsPast o.side price trigger
  unfolding check_trigger can_transition_to
  check_trigger_stop trigger e t = (λ h. ground arith, λ h. ground arith)

  -- A pending StopLimit order likewise, as a Limit order at its limit price.
  pub check_trigger_stop_limit :
      (trigger l : P.Decimal)
      → o.status ≡ OrderStatus.pending_trigger
      → o.order_type ≡ stop_limit trigger l
      → ((check_trigger price now o).0 ≡ ok (some (limit l))) ↔ IsPast o.side price trigger
  unfolding check_trigger can_transition_to
  check_trigger_stop_limit trigger l e t = (λ h. ground arith, λ h. ground arith)

  -- A check that triggers finds a pending order, accepts it, and names a type that is no stop
  -- type; one that does not trigger, and an error or a panic, leaves the order as it was.
  pub check_trigger_effect : TriggerEffect now o (check_trigger price now o)
  unfolding check_trigger can_transition_to is_stop_type
  check_trigger_effect = ground arith

-- The best price that a trailing order keeps against a new price: the lower for a buy, the higher
-- for a sell.
abbrev pub IsBest : ⦃P : Platform⦄ → Side → P.Decimal → P.Decimal → Type 0
IsBest ⦃P⦄ Side.buy best price = P.units best ≤ℤ P.units price
IsBest ⦃P⦄ Side.sell best price = P.units price ≤ℤ P.units best

module _ ⦃P : Platform⦄ where
  -- `update_trailing_best` over the prices that the market shows, in order.
  pub follow : List P.Decimal → Order → Order
  follow [] o = o
  follow (m ∷ ms) o = follow ms (update_trailing_best m o)

-- Every price of the list is at the best price or behind it.
abbrev pub AllBehind : ⦃P : Platform⦄ → Side → P.Decimal → List P.Decimal → Type 0
AllBehind side best [] = Unit {0}
AllBehind side best (m ∷ ms) = IsBest side best m × AllBehind side best ms

-- The price at which a trailing order triggers, given its best price.
abbrev pub trigger_at : ⦃P : Platform⦄ → Side → P.Decimal → P.Decimal → Option P.Decimal
trigger_at ⦃P⦄ Side.buy best trail = P.checked_add best trail
trigger_at ⦃P⦄ Side.sell best trail = P.checked_sub best trail

module _ ⦃P : Platform⦄ where
  -- A pending trailing order with a best price.
  abbrev pub IsTrailing : Order → P.Decimal → P.Decimal → Type 0
  IsTrailing o trail b =
      (o.status ≡ OrderStatus.pending_trigger)
      × (o.order_type ≡ trailing_stop trail)
      × (o.best_price ≡ some b)

  if-either : (t : Bool) (a b : P.Decimal) → ((if t then a else b) ≡ b) ⊎ ((if t then a else b) ≡ a)
  if-either true a b = inr refl
  if-either false a b = inl refl

  -- The best price is the one there was, or the new one.
  best-either :
      (s : Side) (b m : P.Decimal) → (best_of s (some b) m ≡ b) ⊎ (best_of s (some b) m ≡ m)
  unfolding best_of
  best-either Side.buy b m = if-either (lt m b) m b
  best-either Side.sell b m = if-either (lt b m) m b

  update-IsTrailing :
      (m trail b : P.Decimal) (o : Order)
      → IsTrailing o trail b
      → (b' : P.Decimal) × IsTrailing (update_trailing_best m o) trail b'
        × IsBest o.side b' b
        × IsBest o.side b' m
        × ((b' ≡ b) ⊎ (b' ≡ m))
        × ((update_trailing_best m o).side ≡ o.side)
  unfolding update_trailing_best
  update-IsTrailing m trail b o h = (
    best_of o.side (some b) m,
    ground arith,
    ground arith,
    ground arith,
    best-either o.side b m,
    ground arith,
  )

  IsBest-trans : (s : Side) (a b c : P.Decimal) → IsBest s a b → IsBest s b c → IsBest s a c
  IsBest-trans Side.buy a b c h k = omega arith
  IsBest-trans Side.sell a b c h k = omega arith

  IsBest-refl : (s : Side) (a : P.Decimal) → IsBest s a a
  IsBest-refl Side.buy a = omega arith
  IsBest-refl Side.sell a = omega arith

  -- Among the best price there is and the prices to come: among the old one, the next and those.
  among_more :
      (b b1 b2 m : P.Decimal) (ms : List P.Decimal)
      → (b1 ≡ b) ⊎ (b1 ≡ m)
      → Has b2 (b1 ∷ ms)
      → Has b2 (b ∷ m ∷ ms)
  among_more b b1 b2 m ms (inl old) (inl e) = inl (sym old ∙ e)
  among_more b b1 b2 m ms (inr new) (inl e) = inr (inl (sym new ∙ e))
  among_more b b1 b2 m ms either (inr h) = inr (inr h)

  -- The best price of a pending trailing order that follows a sequence of prices is one of these
  -- prices or the best price before them, and none of them is beyond it: it is the lowest for a
  -- buy, the highest for a sell. The order stays pending.
  pub follow_best :
      (ms : List P.Decimal) (trail b : P.Decimal) (o : Order)
      → IsTrailing o trail b
      → (b' : P.Decimal) × IsTrailing (follow ms o) trail b'
        × AllBehind o.side b' (b ∷ ms)
        × Has b' (b ∷ ms)
        × ((follow ms o).side ≡ o.side)
  unfolding follow
  follow_best [] trail b o h = (b, h, (IsBest-refl o.side b, tt), inl refl, refl)
  follow_best (m ∷ ms) trail b o h =
      let (b1, t1, old, seen, either, same) = update-IsTrailing m trail b o h in
      let (b2, t2, behind, among, same2) = follow_best ms trail b1 (update_trailing_best m o) t1 in
      let behind' : AllBehind o.side b2 (b1 ∷ ms) =
        subst (λ s. AllBehind s b2 (b1 ∷ ms)) same behind in
      (
        b2,
        t2,
        (
          IsBest-trans o.side b2 b1 b behind'.0 old,
          (IsBest-trans o.side b2 b1 m behind'.0 seen, behind'.1),
        ),
        among_more b b1 b2 m ms either among,
        same2 ∙ same,
      )

  -- A pending trailing order triggers exactly at a price that has come back from its best price
  -- by at least the trail: up for a buy, down for a sell.
  pub check_trigger_trailing :
      (price trail b c : P.Decimal) (now : P.Timestamp) (o : Order)
      → IsTrailing o trail b
      → trigger_at o.side b trail ≡ some c
      → ((check_trigger price now o).0 ≡ ok (some market)) ↔ IsPast o.side price c
  unfolding check_trigger can_transition_to
  check_trigger_trailing price trail b c now o h e = (λ k. ground arith, λ k. ground arith)
