-- ===== src/Domain/Order/Lifecycle.antt =====
-- The life of an order: what any sequence of its methods keeps true of the status and of the
-- filled quantity.
use aegis_oms_rs.Prelude.{
  String, ◌≡◌, refl, ◌∙◌, ◌⊎◌, inl, inr, Option-cases, arith, true, ◌≤ℤ◌, pos,
}
use aegis_oms_rs.Platform.{Platform}
use aegis_oms_rs.Platform.Decimal.{add-le}
use aegis_oms_rs.Domain.Status.{Side, TimeInForce, OrderStatus, can_transition_to, is_terminal}
use aegis_oms_rs.Domain.Order.{
  OrderType, Order, new, apply_fill, cancel, accept, reject, pending_trigger, check_trigger,
  update_trailing_best,
}

module _ ⦃P : Platform⦄ where
  -- One call of a method, whatever its arguments and its outcome.
  pub data Step (o : Order) : Order → Type 0 where
    fill : (qty price : P.Decimal) (now : P.Timestamp) → Step o (apply_fill qty price now o).1
    cancels : (now : P.Timestamp) → Step o (cancel now o).1
    accepts : (now : P.Timestamp) → Step o (accept now o).1
    rejects : (now : P.Timestamp) → Step o (reject now o).1
    parks : (now : P.Timestamp) → Step o (pending_trigger now o).1
    checks : (price : P.Decimal) (now : P.Timestamp) → Step o (check_trigger price now o).1
    trails : (price : P.Decimal) → Step o (update_trailing_best price o)

  pub data Reach (o : Order) : Order → Type 0 where
    here : Reach o o
    next : {p q : Order} → Reach o p → Step p q → Reach o q

  -- A fill is of a quantity that is not negative; the methods do not check this.
  abbrev pub FillsForward : {o p : Order} → Step o p → Type 0
  FillsForward (fill qty price now) = pos 0 ≤ℤ P.units qty
  FillsForward _ = Unit {0}

  abbrev pub AllForward : {o p : Order} → Reach o p → Type 0
  AllForward here = Unit {0}
  AllForward (next r s) = AllForward r × FillsForward s

  -- What a status says of an order: one that is Filled has nothing left to fill.
  abbrev pub WholeAt : OrderStatus → P.Decimal → P.Decimal → Type 0
  WholeAt OrderStatus.filled quantity filled = P.units quantity ≤ℤ P.units filled
  WholeAt _ quantity filled = Unit {0}

  -- No more is filled than was ordered, and a filled order is filled whole.
  pub record IsConsistent (o : Order) : Type 0 where
    pub bounded : P.units o.filled_quantity ≤ℤ P.units o.quantity
    pub whole : WholeAt o.status o.quantity o.filled_quantity

  whole_of :
      (s : OrderStatus) (q f : P.Decimal)
      → (s ≡ OrderStatus.filled → P.units q ≤ℤ P.units f)
      → WholeAt s q f
  whole_of s q f h = ground arith

  of_whole :
      (s : OrderStatus) (q f : P.Decimal)
      → WholeAt s q f
      → s ≡ OrderStatus.filled
      → P.units q ≤ℤ P.units f
  of_whole s q f w h = ground arith

  module _ (qty price : P.Decimal) (now : P.Timestamp) (o : Order) where
    apply_fill_bounded :
        P.units o.filled_quantity ≤ℤ P.units o.quantity
        → P.units (apply_fill qty price now o).1.filled_quantity ≤ℤ P.units o.quantity
    unfolding apply_fill
    apply_fill_bounded h = ground arith

    apply_fill-quantity : (apply_fill qty price now o).1.quantity ≡ o.quantity
    unfolding apply_fill
    apply_fill-quantity = ground arith

    -- An order that is Filled after the call was Filled before it, and has not lost what it had
    -- filled, or is filled whole now.
    apply_fill_done :
        pos 0 ≤ℤ P.units qty
        → (apply_fill qty price now o).1.status ≡ OrderStatus.filled
        → ((o.status ≡ OrderStatus.filled)
            × (P.units o.filled_quantity ≤ℤ P.units (apply_fill qty price now o).1.filled_quantity))
          ⊎ (P.units o.quantity ≤ℤ P.units (apply_fill qty price now o).1.filled_quantity)
    unfolding apply_fill
    apply_fill_done h e = elim (Option-cases (P.checked_add o.filled_quantity qty)) [
      | inl none_sum ↦ ground arith
      | inr (s, sum) ↦ ground (arith, add-le o.filled_quantity qty s sum h)
    ]

    pub apply_fill-IsConsistent :
        pos 0 ≤ℤ P.units qty → IsConsistent o → IsConsistent (apply_fill qty price now o).1
    apply_fill-IsConsistent h c = record {
      bounded = rw apply_fill-quantity (apply_fill_bounded c.bounded);
      whole = whole_of _ _ _ (λ e. rw apply_fill-quantity (elim (apply_fill_done h e) [
        | inl (was, kept) ↦
            omega (arith, of_whole o.status o.quantity o.filled_quantity c.whole was, kept)
        | inr done ↦ done
      ]));
    }

  check_trigger-IsConsistent :
      (price : P.Decimal) (now : P.Timestamp) (o : Order)
      → IsConsistent o
      → IsConsistent (check_trigger price now o).1
  unfolding check_trigger can_transition_to
  check_trigger-IsConsistent price now o c = ground arith

  pub Step-IsConsistent :
      {o p : Order} (s : Step o p) → FillsForward s → IsConsistent o → IsConsistent p
  unfolding cancel accept reject pending_trigger update_trailing_best can_transition_to
  Step-IsConsistent {o} (fill qty price now) h c = apply_fill-IsConsistent qty price now o h c
  Step-IsConsistent (cancels now) h c = ground arith
  Step-IsConsistent (accepts now) h c = ground arith
  Step-IsConsistent (rejects now) h c = ground arith
  Step-IsConsistent (parks now) h c = ground arith
  Step-IsConsistent {o} (checks price now) h c = check_trigger-IsConsistent price now o c
  Step-IsConsistent (trails price) h c = ground arith

  Reach-IsConsistent :
      {o p : Order} → IsConsistent o → (r : Reach o p) → AllForward r → IsConsistent p
  Reach-IsConsistent c here f = c
  Reach-IsConsistent c (next r s) f = Step-IsConsistent s f.1 (Reach-IsConsistent c r f.0)

  -- From a new order of a quantity that is not negative, no sequence of calls of the methods, in
  -- which no fill is of a negative quantity, fills more than the order's quantity, and an order in
  -- status Filled is then filled whole.
  pub reachable-IsConsistent :
      (id : P.Ulid) (now : P.Timestamp) (instrument : String) (side : Side) (type : OrderType)
      (quantity : P.Decimal) (tif : TimeInForce)
      → pos 0 ≤ℤ P.units quantity
      → {o : Order} (r : Reach (new id now instrument side type quantity tif) o) → AllForward r
      → IsConsistent o
  unfolding new
  reachable-IsConsistent id now instrument side type quantity tif h r f =
      Reach-IsConsistent (ground (arith, P.zero_lem)) r f

  check_trigger-status :
      (price : P.Decimal) (now : P.Timestamp) (o : Order)
      → let o' = (check_trigger price now o).1 in
        (o'.status ≡ o.status) ⊎ (can_transition_to o.status o'.status ≡ true)
  unfolding check_trigger can_transition_to
  check_trigger-status price now o = ground arith

  -- Every call leaves the status alone or moves it along an edge of the status machine.
  pub Step-status :
      {o p : Order}
      → Step o p
      → (p.status ≡ o.status) ⊎ (can_transition_to o.status p.status ≡ true)
  unfolding apply_fill cancel accept reject pending_trigger update_trailing_best can_transition_to
  Step-status (fill qty price now) = ground arith
  Step-status (cancels now) = ground arith
  Step-status (accepts now) = ground arith
  Step-status (rejects now) = ground arith
  Step-status (parks now) = ground arith
  Step-status {o} (checks price now) = check_trigger-status price now o
  Step-status (trails price) = ground arith

  terminal-stays :
      (s t : OrderStatus) → is_terminal s ≡ true → (t ≡ s) ⊎ (can_transition_to s t ≡ true) → t ≡ s
  unfolding is_terminal can_transition_to
  terminal-stays s t h e = ground arith

  -- An order in a terminal status keeps that status through every sequence of calls of its
  -- methods, whatever their arguments and outcomes.
  pub terminal_status_is_final :
      {o p : Order} → is_terminal o.status ≡ true → Reach o p → p.status ≡ o.status
  terminal_status_is_final h here = refl
  terminal_status_is_final {o} h (next {p = p} {q = q} r s) =
      let e = terminal_status_is_final h r in
      terminal-stays p.status q.status (rw e h) (Step-status s) ∙ e
