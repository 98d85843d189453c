-- ===== src/Service/OrderService/Exposure.antt =====
-- The net exposure in an instrument, under the fills that `update_position_with_pnl` books.
use aegis_oms_rs.Prelude.{
  String, ◌≡◌, refl, ◌∙◌, sym, ap, ℤ, pos, ◌+ℤ◌, ◌-ℤ◌, ◌≤ℤ◌, some, none, arith, true, false, inl,
  inr, Option, Option-cases, Bool-cases, int_laws, -ℤ_parts, if◌then◌else◌,
}
use aegis_oms_rs.Prelude.Eq.{◌==◌, ==_iff, string_eq}
use aegis_oms_rs.Prelude.Map.{get, insert, remove, get-remove, get-insert_self}
use aegis_oms_rs.Platform.{Platform}
use aegis_oms_rs.Infra.Repository.{Stores}
use aegis_oms_rs.Platform.Decimal.{IsExact, add_exact, sub_exact, lt}
use aegis_oms_rs.Domain.Status.{Side, side_eq}
use aegis_oms_rs.Domain.Error.{ok, Result-cases}
use aegis_oms_rs.Domain.Position.{Position, add_fill, reduce, is_flat}
use aegis_oms_rs.Domain.Position
use aegis_oms_rs.Domain.Position.Reduce.{reduce_effect}
use aegis_oms_rs.Service.OrderService.State.{OrderService}
use aegis_oms_rs.Service.OrderService.Fill.{update_position_with_pnl, close_against}

-- A quantity with the sign of its side.
abbrev pub signed : Side → ℤ → ℤ
signed Side.buy n = n
signed Side.sell n = pos 0 -ℤ n

zero_plus : (n : ℤ) → pos 0 +ℤ n ≡ n
zero_plus n = omega int_laws

module _ ⦃P : Platform⦄ ⦃S : Stores⦄ where
  abbrev pub exposure_of : Option Position → ℤ
  exposure_of none = pos 0
  exposure_of (some p) = signed p.side (P.units p.quantity)

  -- The exposure in an instrument: what is held, positive for long and negative for short.
  abbrev pub exposure : String → OrderService → ℤ
  exposure instrument s = exposure_of (get instrument s.positions)

  add_fill-quantity :
      (qty price : P.Decimal) (p : Position)
      → IsExact (P.units p.quantity +ℤ P.units qty)
      → (add_fill qty price p).0 ≡ ok tt
      → ((add_fill qty price p).1.side ≡ p.side)
        × (P.units (add_fill qty price p).1.quantity ≡ P.units p.quantity +ℤ P.units qty)
  unfolding add_fill
  add_fill-quantity qty price p exact e =
      let (c, ec, v) = add_exact p.quantity qty exact in (ground arith, ground arith)

  reduce-side : (qty price : P.Decimal) (p : Position) → (reduce qty price p).1.side ≡ p.side
  unfolding reduce
  reduce-side qty price p = ground arith

  flip : (a b : Side) (m n : ℤ) → (a == b) ≡ false → signed a (n -ℤ m) ≡ signed b (m -ℤ n)
  flip Side.buy Side.sell m n h = omega int_laws
  flip Side.sell Side.buy m n h = omega int_laws
  flip Side.buy Side.buy m n h = cc
  flip Side.sell Side.sell m n h = cc

  settled :
      (side : Side) (c : P.Decimal)
      → pos 0 ≤ℤ P.units c
      → (if lt P.zero_value c then signed side (P.units c) else pos 0) ≡ signed side (P.units c)
  unfolding ◌-ℤ◌
  settled Side.buy c h = ground (arith, P.zero_lem)
  settled Side.sell c h = ground (arith, P.zero_lem)

  -- The operands of a fill's arithmetic on the position are represented exactly.
  abbrev pub ExactFill : P.Decimal → P.Decimal → Type 0
  ExactFill held qty =
      IsExact (P.units held +ℤ P.units qty)
      × IsExact (P.units held -ℤ P.units qty)
      × IsExact (P.units qty -ℤ P.units held)

  open_exposure :
      (instrument : String) (side : Side) (qty price : P.Decimal) (s : OrderService)
      {r : Option P.Decimal}
      → get instrument s.positions ≡ none
      → (update_position_with_pnl instrument side qty price s).0 ≡ ok r
      → exposure instrument (update_position_with_pnl instrument side qty price s).1
        ≡ signed side (P.units qty)
  unfolding update_position_with_pnl Position.new
  open_exposure instrument side qty price s e h =
      ground
        (arith, get-insert_self instrument (Position.new instrument side qty price) s.positions)

  grow_exposure :
      (instrument : String) (side : Side) (qty price : P.Decimal) (s : OrderService) (p : Position)
      {r : Option P.Decimal}
      → get instrument s.positions ≡ some p
      → (p.side == side) ≡ true
      → ExactFill p.quantity qty
      → (update_position_with_pnl instrument side qty price s).0 ≡ ok r
      → exposure instrument (update_position_with_pnl instrument side qty price s).1
        ≡ signed p.side (P.units p.quantity +ℤ P.units qty)
  unfolding update_position_with_pnl
  grow_exposure instrument side qty price s p e same exact h = ground (
    arith,
    get-insert_self instrument (add_fill qty price p).1 s.positions,
    add_fill-quantity qty price p exact.0,
  )

  module _ (instrument : String) (side : Side) (qty price : P.Decimal) (s : OrderService)
      (p : Position) where
    -- The position that `reduce` leaves.
    abbrev reduced : Position
    reduced = (reduce qty price p).1

    reduce_ok :
        {r : Option P.Decimal}
        → (close_against instrument side qty price p s).0 ≡ ok r
        → (pnl : P.Decimal) × ((reduce qty price p).0 ≡ ok pnl)
    unfolding close_against
    reduce_ok h = elim (Result-cases (reduce qty price p).0) [
      | inl found ↦ found
      | inr (inl e) ↦ absurd (ground arith)
      | inr (inr (x, e)) ↦ absurd (ground arith)
    ]

    close_less :
        {pnl : P.Decimal} {r : Option P.Decimal}
        → (reduce qty price p).0 ≡ ok pnl
        → is_flat reduced ≡ false
        → (close_against instrument side qty price p s).0 ≡ ok r
        → exposure instrument (close_against instrument side qty price p s).1
          ≡ signed reduced.side (P.units reduced.quantity)
    unfolding close_against
    close_less e f h = ground (arith, get-insert_self instrument reduced s.positions)

    close_more :
        {pnl c : P.Decimal} {r : Option P.Decimal}
        → (reduce qty price p).0 ≡ ok pnl
        → is_flat reduced ≡ true
        → P.checked_sub qty p.quantity ≡ some c
        → (close_against instrument side qty price p s).0 ≡ ok r
        → exposure instrument (close_against instrument side qty price p s).1
          ≡ (if lt P.zero_value c then signed side (P.units c) else pos 0)
    unfolding close_against Position.new
    close_more {c = c} e f v h =
        let gone = insert instrument reduced s.positions in
        ground (
          arith,
          get-insert_self instrument (Position.new instrument side c price)
              (remove instrument gone),
          get-remove instrument instrument gone,
          ==_iff instrument instrument,
        )

    -- A fill on the other side leaves the difference, on the side that it falls.
    close_exposure :
        {r : Option P.Decimal}
        → (p.side == side) ≡ false
        → pos 0 ≤ℤ P.units qty
        → pos 0 ≤ℤ P.units p.quantity
        → ExactFill p.quantity qty
        → (close_against instrument side qty price p s).0 ≡ ok r
        → exposure instrument (close_against instrument side qty price p s).1
          ≡ signed side (P.units qty -ℤ P.units p.quantity)
    close_exposure other hq hp exact h =
        let (pnl, e) = reduce_ok h in
        let (c, ec, v) = sub_exact qty p.quantity exact.2 in
        let (less_effect, more_effect) = reduce_effect qty price pnl p hq hp exact.1 e in
        elim (Bool-cases (lt qty p.quantity)) [
          | inl less ↦
              let (q, _, f) = less_effect (ground arith) in
              close_less e f h
              ∙ rw (reduce-side qty price p, q)
                  (flip p.side side (P.units qty) (P.units p.quantity) other)
          | inr more ↦
              let (f, _) = more_effect (ground arith) in
              let nonneg : pos 0 ≤ℤ P.units c =
                rw v (ground (arith, -ℤ_parts (P.units qty) (P.units p.quantity))) in
              close_more e f ec h ∙ settled side c nonneg ∙ ap (signed side) v
        ]

  -- What is held is not negative.
  abbrev pub HeldNonneg : String → OrderService → Type 0
  HeldNonneg instrument s =
      (p : Position) → get instrument s.positions ≡ some p → pos 0 ≤ℤ P.units p.quantity

  abbrev pub ExactOn : String → P.Decimal → OrderService → Type 0
  ExactOn instrument qty s =
      (p : Position) → get instrument s.positions ≡ some p → ExactFill p.quantity qty

  same_sign : (a : Side) (m n : ℤ) → signed a (m +ℤ n) ≡ signed a m +ℤ signed a n
  same_sign Side.buy m n = refl
  same_sign Side.sell m n = omega int_laws

  other_sign :
      (a b : Side) (m n : ℤ) → (a == b) ≡ false → signed b (n -ℤ m) ≡ signed a m +ℤ signed b n
  other_sign Side.buy Side.sell m n h = omega int_laws
  other_sign Side.sell Side.buy m n h = omega int_laws
  other_sign Side.buy Side.buy m n h = cc
  other_sign Side.sell Side.sell m n h = cc

  other_update :
      (instrument : String) (side : Side) (qty price : P.Decimal) (s : OrderService) (p : Position)
      → get instrument s.positions ≡ some p
      → (p.side == side) ≡ false
      → update_position_with_pnl instrument side qty price s
        ≡ close_against instrument side qty price p s
  unfolding update_position_with_pnl
  other_update instrument side qty price s p e o = ground arith

  -- Netting: an update of the position that succeeds moves the exposure in its instrument by
  -- exactly its signed quantity, whether it opens a position, adds to one, shrinks, closes or
  -- turns it. The quantities are not negative, and their sums and differences are represented
  -- exactly.
  pub update_position_exposure :
      (instrument : String) (side : Side) (qty price : P.Decimal) (s : OrderService)
      {r : Option P.Decimal}
      → pos 0 ≤ℤ P.units qty
      → HeldNonneg instrument s
      → ExactOn instrument qty s
      → (update_position_with_pnl instrument side qty price s).0 ≡ ok r
      → exposure instrument (update_position_with_pnl instrument side qty price s).1
        ≡ exposure instrument s +ℤ signed side (P.units qty)
  update_position_exposure instrument side qty price s hq held exact h =
      elim (Option-cases (get instrument s.positions)) [
        | inl e ↦ rw (e, open_exposure instrument side qty price s e h) (sym (zero_plus _))
        | inr (p, e) ↦ elim (Bool-cases (p.side == side)) [
          | inl same ↦
              let at : p.side ≡ side = (==_iff p.side side).0 same in
              rw e (
                grow_exposure instrument side qty price s p e same (exact p e) h
                ∙ same_sign p.side (P.units p.quantity) (P.units qty)
                ∙ ap (λ t. signed p.side (P.units p.quantity) +ℤ signed t (P.units qty)) at)
          | inr other ↦
              let u = other_update instrument side qty price s p e other in
              rw (u, e)
                (close_exposure instrument side qty price s p other hq (held p e) (exact p e)
                    (rw u at h)
                  ∙ other_sign p.side side (P.units p.quantity) (P.units qty) other)
        ]
      ]
