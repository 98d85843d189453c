-- ===== src/Infra/TradeStore.antt =====
-- src/infra/trade_store.rs: the trades in memory, oldest first, shown newest first.
use aegis_oms_rs.Prelude.{String, List, [], ◌∷◌, ◌++◌, reverse}
use aegis_oms_rs.Prelude.Eq.{◌==◌, string_eq}
use aegis_oms_rs.Platform.{Platform}
use aegis_oms_rs.Domain.Event.{Trade}
use aegis_oms_rs.Infra.OrderStore.{filter}

module _ ⦃P : Platform⦄ where
  abbrev pub TradeStore : Type 0
  TradeStore = List Trade

  abbrev pub new : TradeStore
  new = []

  unfoldable pub save : Trade → TradeStore → TradeStore
  save t trades = trades ++ (t ∷ [])

  unfoldable pub all : TradeStore → List Trade
  all trades = reverse trades

  unfoldable pub by_instrument : String → TradeStore → List Trade
  unfolding filter
  by_instrument symbol trades = filter (λ t. t.instrument == symbol) (reverse trades)

  unfoldable pub load_all_owned : TradeStore → List Trade
  load_all_owned trades = trades
