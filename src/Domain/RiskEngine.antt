-- ===== src/Domain/RiskEngine.antt =====
-- src/domain/risk_engine.rs: margin status and stop-out prices.
pub mod Level
pub mod StopOut
use aegis_oms_rs.Prelude.{
  ℕ, String, Bool, true, false, not, ◌||◌, if◌then◌else◌, Option, none, some, List, [], ◌∷◌, ◌≡◌,
  ◌↔◌, arith, nat_beq,
}
use aegis_oms_rs.Prelude.Eq.{Eq, ◌==◌, string_eq}
use aegis_oms_rs.Prelude.Map.{HashMap, get}
use aegis_oms_rs.Platform.{Platform}
use aegis_oms_rs.Platform.Decimal.{lt, le, is_zero}
use aegis_oms_rs.Domain.Status.{Side}
use aegis_oms_rs.Domain.Error.{Result, ok, err, panic, add, sub, mul, div, bind}
use aegis_oms_rs.Domain.Order.{unwrap_or}
use aegis_oms_rs.Domain.Account.{Account}
use aegis_oms_rs.Domain.Position.{Position, pnl_of}
use aegis_oms_rs.Infra.OrderStore.{filter}

pub data MarginLevel : Type 0 where
  normal margin_call stop_out : MarginLevel

abbrev pub level_index : MarginLevel → ℕ
level_index MarginLevel.normal = 0
level_index MarginLevel.margin_call = 1
level_index MarginLevel.stop_out = 2

pub level_index_iff :
    (a b : MarginLevel) → (nat_beq (level_index a) (level_index b) ≡ true) ↔ (a ≡ b)
level_index_iff a b = ground arith

instance abbrev pub level_eq : Eq MarginLevel
level_eq = record {
  beq = λ a b. nat_beq (level_index a) (level_index b);
  beq_iff = level_index_iff;
}

module _ ⦃P : Platform⦄ where
  pub record MarginStatus : Type 0 where
    pub equity : P.Decimal
    pub used_margin : P.Decimal
    pub free_margin : P.Decimal
    pub margin_ratio : P.Decimal
    pub effective_leverage : P.Decimal
    pub level : MarginLevel

  pub record StopOutPrice : Type 0 where
    pub instrument : String
    pub price : P.Decimal

  abbrev pub Prices : Type 0
  Prices = HashMap String P.Decimal

  -- `.iter().map(f).sum()`: the terms added up from zero, from the left.
  unfoldable pub sum_from :
      P.Decimal → (Position → Result P.Decimal) → List Position → Result P.Decimal
  sum_from acc f [] = ok acc
  sum_from acc f (p ∷ ps) = bind (f p) (λ x. bind (add acc x) (λ acc'. sum_from acc' f ps))

  -- The unrealized profit at the mark price, or as last stored where there is no mark price.
  unfoldable pub pnl_at : Prices → Position → Result P.Decimal
  pnl_at marks p = elim (get p.instrument marks) [
    | none ↦ ok p.unrealized_pnl
    | some mp ↦ pnl_of p.side mp p.avg_price p.quantity
  ]

  abbrev pub mark_of : Prices → Position → P.Decimal
  mark_of marks p = unwrap_or (get p.instrument marks) p.avg_price

  unfoldable pub notional_of : Prices → Position → Result P.Decimal
  notional_of marks p = mul (mark_of marks p) p.quantity

  unfoldable pub margin_of : Prices → Prices → Position → Result P.Decimal
  margin_of marks leverages p =
      let lev = unwrap_or (get p.instrument leverages) P.one_value in
      if is_zero lev
      then ok P.zero_value
      else bind (mul (mark_of marks p) p.quantity) (λ m. div m lev)

  unfoldable pub ratio_of : P.Decimal → P.Decimal → Result P.Decimal
  ratio_of equity used_margin =
      if is_zero used_margin
      then ok P.max_value
      else bind (div equity used_margin) (λ r. mul r (P.new 100))

  unfoldable pub leverage_of : P.Decimal → P.Decimal → Result P.Decimal
  leverage_of equity total_notional =
      if is_zero equity || P.is_sign_negative equity
      then ok P.max_value
      else div total_notional equity

  unfoldable pub level_of : P.Decimal → P.Decimal → P.Decimal → MarginLevel
  level_of margin_ratio margin_call_ratio stop_out_ratio =
      if le margin_ratio stop_out_ratio
      then MarginLevel.stop_out
      else if le margin_ratio margin_call_ratio
      then MarginLevel.margin_call
      else MarginLevel.normal

  -- `MarginStatus::calculate`
  unfoldable pub calculate :
      Account → List Position → Prices → Prices → P.Decimal → P.Decimal → Result MarginStatus
  calculate account positions marks leverages margin_call_ratio stop_out_ratio =
      bind (sum_from P.zero_value (pnl_at marks) positions) (λ unrealized_total.
        bind (add account.balance unrealized_total) (λ equity.
          bind (sum_from P.zero_value (margin_of marks leverages) positions) (λ used_margin.
            bind (sub equity used_margin) (λ free_margin.
              bind (ratio_of equity used_margin) (λ margin_ratio.
                bind (sum_from P.zero_value (notional_of marks) positions) (λ total_notional.
                  bind (leverage_of equity total_notional) (λ effective_leverage. ok (record {
                    equity = equity;
                    used_margin = used_margin;
                    free_margin = free_margin;
                    margin_ratio = margin_ratio;
                    effective_leverage = effective_leverage;
                    level = level_of margin_ratio margin_call_ratio stop_out_ratio;
                  }))))))))

  -- The other positions: those in another instrument.
  unfoldable pub others : Position → List Position → List Position
  unfolding filter
  others p = filter (λ other. not (other.instrument == p.instrument))

  -- The price that solves the linear equation for a long or a short position; none where its
  -- coefficient is zero.
  unfoldable pub stop_price :
      P.Decimal → P.Decimal → P.Decimal → P.Decimal → Position → Result (Option P.Decimal)
  stop_price r lev base_equity base_margin p = elim p.side [
    | Side.buy ↦ bind (div r lev) (λ q. bind (sub q P.one_value) (λ coeff.
        if is_zero coeff
        then ok none
        else bind (mul base_margin r) (λ m. bind (sub m base_equity) (λ d.
          bind (mul p.avg_price p.quantity) (λ c. bind (add d c) (λ top.
            bind (mul coeff p.quantity) (λ bottom. bind (div top bottom) (λ x. ok (some x)))))))))
    | Side.sell ↦ bind (div r lev) (λ q. bind (add P.one_value q) (λ coeff.
        if is_zero coeff
        then ok none
        else bind (mul p.avg_price p.quantity) (λ c. bind (add base_equity c) (λ d.
          bind (mul base_margin r) (λ m. bind (sub d m) (λ top.
            bind (mul coeff p.quantity) (λ bottom. bind (div top bottom) (λ x. ok (some x)))))))))
  ]

  -- Whether the stop-out price still lies ahead of the market.
  abbrev pub meaningful : Side → P.Decimal → P.Decimal → Bool
  meaningful Side.buy price mp = lt price mp
  meaningful Side.sell price mp = lt mp price

  unfoldable pub stop_out_price :
      Account
      → List Position
      → Prices
      → Prices
      → P.Decimal
      → Position
      → Result (Option StopOutPrice)
  unfolding sum_from pnl_at margin_of others stop_price
  stop_out_price account positions marks leverages stop_out_ratio p =
      elim (get p.instrument leverages) [
        | none ↦ ok none
        | some lev ↦
            if is_zero lev || is_zero p.quantity
            then ok none
            else bind (sum_from P.zero_value (pnl_at marks) (others p positions)) (λ other_pnl.
              bind (sum_from P.zero_value (margin_of marks leverages) (others p positions))
                (λ other_margin. bind (div stop_out_ratio (P.new 100)) (λ r.
                  bind (add account.balance other_pnl) (λ base_equity.
                    bind (stop_price r lev base_equity other_margin p) (λ found. ok (elim found [
                      | none ↦ none
                      | some price ↦
                          if meaningful p.side price (mark_of marks p)
                          then some (record { instrument = p.instrument; price = price })
                          else none
                    ]))))))
      ]

  -- The loop of `filter_map(..).collect()`.
  unfoldable pub stop_out_prices_of :
      (Position → Result (Option StopOutPrice)) → List Position → Result (List StopOutPrice)
  stop_out_prices_of f [] = ok []
  stop_out_prices_of f (p ∷ ps) = bind (f p) (λ found.
      bind (stop_out_prices_of f ps) (λ rest. ok (elim found [ none ↦ rest | some x ↦ x ∷ rest ])))

  unfoldable pub calculate_stop_out_prices :
      Account → List Position → Prices → Prices → P.Decimal → Result (List StopOutPrice)
  unfolding stop_out_price stop_out_prices_of
  calculate_stop_out_prices account positions marks leverages stop_out_ratio =
      stop_out_prices_of (stop_out_price account positions marks leverages stop_out_ratio) positions
