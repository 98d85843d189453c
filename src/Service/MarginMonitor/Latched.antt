-- ===== src/Service/MarginMonitor/Latched.antt =====
-- The monitor once it has reacted to a stop-out.
use aegis_oms_rs.Prelude.{ℕ, ◌≡◌, ◌≢◌, ◌∙◌, refl, ap, arith, inl, inr}
use aegis_oms_rs.Platform.{Platform}
use aegis_oms_rs.Domain.Error.{Result, ok, Result-cases}
use aegis_oms_rs.Domain.RiskEngine.{MarginLevel, MarginStatus, Prices, calculate}
use aegis_oms_rs.Infra.Repository.{Stores}
use aegis_oms_rs.Service.OrderService.State.{OrderService}
use aegis_oms_rs.Service.OrderService.Query.{get_positions, get_account, get_instruments}
use aegis_oms_rs.Service.MarginMonitor.{Watch, check, react, leverages_of}

module _ ⦃P : Platform⦄ ⦃S : Stores⦄ where
  -- The margin status that a check computes.
  abbrev pub status_of : Prices → Watch → Result MarginStatus
  status_of marks w =
      calculate (get_account w.orders) (get_positions w.orders) marks
        (leverages_of (get_instruments w.orders)) w.monitor.margin_call_ratio
        w.monitor.stop_out_ratio

  abbrev pub IsNotNormal : Prices → Watch → Type 0
  IsNotNormal marks w = (x : MarginStatus) → status_of marks w ≡ ok x → x.level ≢ MarginLevel.normal

  react_latched :
      (ids : ℕ → P.Ulid) (clock : ℕ → ℕ → P.Timestamp) (level : MarginLevel) (ratio : P.Decimal)
      (w : Watch)
      → level ≢ MarginLevel.normal
      → react ids clock level ratio MarginLevel.stop_out w ≡ (ok tt, w)
  unfolding react
  react_latched ids clock MarginLevel.normal ratio w n = absurd (n refl)
  react_latched ids clock MarginLevel.margin_call ratio w n = refl
  react_latched ids clock MarginLevel.stop_out ratio w n = refl

  pub check_latched :
      (ids : ℕ → P.Ulid) (clock : ℕ → ℕ → P.Timestamp) (marks : Prices) (w : Watch)
      → w.monitor.last_level ≡ MarginLevel.stop_out
      → IsNotNormal marks w
      → (check ids clock marks w).1 ≡ w
  unfolding check
  check_latched ids clock marks w l n = elim (Result-cases (status_of marks w)) [
    | inl (x, e) ↦
        let quiet = react_latched ids clock x.level x.margin_ratio w (n x e) in ground arith
    | inr (inl e) ↦ ground arith
    | inr (inr (y, e)) ↦ ground arith
  ]

  -- Checks that find another level than Normal or fail, and between them any changes of the service
  -- by others.
  pub data Watching (w : Watch) : Watch → Type 0 where
    here : Watching w w
    trades : {u : Watch} → Watching w u → (s : OrderService) → Watching w (record u { orders = s })
    checks :
        {u : Watch}
        → Watching w u
        → (ids : ℕ → P.Ulid) (clock : ℕ → ℕ → P.Timestamp) (marks : Prices) → IsNotNormal marks u
        → Watching w (check ids clock marks u).1

  Watching-monitor :
      {w u : Watch}
      → w.monitor.last_level ≡ MarginLevel.stop_out
      → Watching w u
      → u.monitor ≡ w.monitor
  Watching-monitor l here = refl
  Watching-monitor l (trades c s) = Watching-monitor l c
  Watching-monitor l (checks {u} c ids clock marks n) =
      let same = Watching-monitor l c in
      let latched : u.monitor.last_level ≡ MarginLevel.stop_out = ap (λ m. m.last_level) same ∙ l in
      ap (λ v. v.monitor) (check_latched ids clock marks u latched n) ∙ same

  -- Once the monitor has reacted to a stop-out, and until a check finds the level Normal, it sends
  -- no alert and liquidates nothing, whatever the service does between the checks: not even if the
  -- level rises to MarginCall and falls to StopOut again.
  pub stop_out_latched :
      {w u : Watch} (ids : ℕ → P.Ulid) (clock : ℕ → ℕ → P.Timestamp) (marks : Prices)
      → w.monitor.last_level ≡ MarginLevel.stop_out
      → Watching w u
      → IsNotNormal marks u
      → (u.monitor ≡ w.monitor) × ((check ids clock marks u).1 ≡ u)
  stop_out_latched {w} {u} ids clock marks l c n =
      let same = Watching-monitor l c in
      (same, check_latched ids clock marks u (ap (λ m. m.last_level) same ∙ l) n)
