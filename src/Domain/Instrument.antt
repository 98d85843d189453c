-- ===== src/Domain/Instrument.antt =====
-- src/domain/instrument.rs: the master data of an instrument.
use aegis_oms_rs.Prelude.{String}
use aegis_oms_rs.Platform.{Platform}

pub data AssetClass : Type 0 where
  fx crypto : AssetClass

module _ ⦃P : Platform⦄ where
  pub record Instrument : Type 0 where
    pub symbol : String
    pub asset_class : AssetClass
    pub tick_size : P.Decimal
    pub lot_size : P.Decimal
    pub leverage : P.Decimal
