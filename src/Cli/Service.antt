-- ===== src/Cli/Service.antt =====
-- `create_service` of src/cli/mod.rs: the service in memory.
use aegis_oms_rs.Prelude.{List, [], ◌∷◌}
use aegis_oms_rs.Platform.{Platform}
use aegis_oms_rs.Infra.Repository.Memory.{in_memory_stores}
use aegis_oms_rs.Platform.Text.{Texts}
use aegis_oms_rs.Domain.Account
use aegis_oms_rs.Domain.Instrument.{Instrument, AssetClass}
use aegis_oms_rs.Infra.EventBus
use aegis_oms_rs.Service.RiskCheck.{RiskLimits}
use aegis_oms_rs.Service.OrderService.State.{OrderService}
use aegis_oms_rs.Service.OrderService.State
use aegis_oms_rs.Config.{Environment, RiskConfig, load}

module _ ⦃P : Platform⦄ where
  -- `RiskLimits { max_order_quantity: cfg.risk.max_order_quantity, .. }`
  unfoldable pub limits_of : RiskConfig → RiskLimits
  limits_of risk = record {
    max_order_quantity = risk.max_order_quantity;
    max_open_orders = risk.max_open_orders;
    stop_out_ratio = risk.stop_out_ratio;
    margin_call_ratio = risk.margin_call_ratio;
    max_open_positions = risk.max_open_positions;
    max_loss = risk.max_loss;
  }

  module _ ⦃T : Texts⦄ where
    unfoldable pub default_instruments : List Instrument
    default_instruments =
        record {
          symbol = "USD/JPY";
          asset_class = AssetClass.fx;
          tick_size = T.dec_literal 1 3;
          lot_size = T.dec_literal 1000 0;
          leverage = T.dec_literal 25 0;
        }
        ∷ record {
          symbol = "EUR/USD";
          asset_class = AssetClass.fx;
          tick_size = T.dec_literal 1 5;
          lot_size = T.dec_literal 1000 0;
          leverage = T.dec_literal 25 0;
        }
        ∷ record {
          symbol = "BTC/USD";
          asset_class = AssetClass.crypto;
          tick_size = T.dec_literal 1 2;
          lot_size = T.dec_literal 1 3;
          leverage = T.dec_literal 2 0;
        }
        ∷ record {
          symbol = "ETH/USD";
          asset_class = AssetClass.crypto;
          tick_size = T.dec_literal 1 2;
          lot_size = T.dec_literal 1 2;
          leverage = T.dec_literal 2 0;
        }
        ∷ []

    -- The account is created at `now`.
    unfoldable pub create_service : Environment → P.Timestamp → OrderService
    unfolding load default_instruments limits_of
    create_service env now =
        let cfg = load env in
        State.new (Account.new now "acc-001" "Default" cfg.account.initial_balance)
          default_instruments (limits_of cfg.risk) EventBus.new
