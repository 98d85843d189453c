-- ===== src/Infra/Repository.antt =====
-- src/domain/repository.rs: the trait OrderRepository, what the services rely on of it, and the
-- two implementations.
pub mod Memory
pub mod Postgres
use aegis_oms_rs.Prelude.{
  Has, String, ◌≡◌, ◌⊎◌, ◌↔◌, ◌&&◌, Bool, true, false, Option, none, some, List, [], ◌∷◌,
  if◌then◌else◌,
}
use aegis_oms_rs.Platform.{Platform}
use aegis_oms_rs.Domain.Status.{OrderStatus, is_open}
use aegis_oms_rs.Domain.Error.{Result, ok, Method}
use aegis_oms_rs.Domain.Order.{Order}
use aegis_oms_rs.Domain.Event.{Trade}
use aegis_oms_rs.Domain.Account.{Account}

module _ ⦃P : Platform⦄ where
  -- `put_order` stands for `get_mut`: the order that is written back.
  pub record OrderRepository (Repo : Type 0) : Type 0 where
    pub save : Order → Method Repo (Unit {0})
    pub get_order : P.Ulid → Repo → Option Order
    pub put_order : P.Ulid → Order → Repo → Repo
    pub find_open_orders : Repo → List Order
    pub find_pending_trigger_orders : Repo → List Order
    pub all_orders : Repo → List Order
    pub load_all_owned : Repo → Result (List Order)

  pub record TradeRepository (Repo : Type 0) : Type 0 where
    pub save : Trade → Method Repo (Unit {0})
    pub all : Repo → List Trade
    pub by_instrument : String → Repo → List Trade
    pub load_all_owned : Repo → Result (List Trade)

  pub record AccountRepository (Repo : Type 0) : Type 0 where
    pub save : Account → Method Repo (Unit {0})
    pub load : String → Repo → Result (Option Account)

  -- The two repositories that an OrderService is made with.
  pub record Stores : Type 1 where
    pub Orders : Type 0
    pub orders : OrderRepository Orders
    pub Trades : Type 0
    pub trades : TradeRepository Trades

  abbrev pub is_ok : {A : Type 0} → Result A → Bool
  is_ok (ok a) = true
  is_ok _ = false

  -- What a look-up finds stands in the list.
  abbrev pub FoundIn : Option Order → List Order → Type 0
  FoundIn none os = Unit {0}
  FoundIn (some o) os = Has o os

  -- A repository is a map from identifiers to orders, as `get_order` shows it: saving an order sets
  -- it or, where it fails, changes nothing; writing back sets the order; the list of all orders
  -- leaves out none, and the two others hold those of its orders that they are for.
  pub record IsMap {Repo : Type 0} (R : OrderRepository Repo) : Type 0 where
    pub save_lem :
        (o : Order) (r : Repo) (id : P.Ulid)
        → R.get_order id (R.save o r).1
          ≡ (if is_ok (R.save o r).0 && P.ulid_is_eq.beq o.id id then some o else R.get_order id r)
    pub put_lem :
        (id j : P.Ulid) (o : Order) (r : Repo)
        → R.get_order j (R.put_order id o r)
          ≡ (if P.ulid_is_eq.beq id j then some o else R.get_order j r)
    pub all_lem : (id : P.Ulid) (r : Repo) → FoundIn (R.get_order id r) (R.all_orders r)
    pub open_lem :
        (o : Order) (r : Repo)
        → Has o (R.find_open_orders r) ↔ (Has o (R.all_orders r) × (is_open o.status ≡ true))
    pub pending_lem :
        (o : Order) (r : Repo)
        → Has o (R.find_pending_trigger_orders r)
          ↔ (Has o (R.all_orders r) × (o.status ≡ OrderStatus.pending_trigger))
