-- ===== src/Infra/AsyncEventBus.antt =====
-- src/infra/async_event_bus.rs: the event bus over tokio's broadcast channel.
pub mod Channel
pub mod Delivery
pub mod Queues
use aegis_oms_rs.Prelude.{ℕ, Option, none, some}
use aegis_oms_rs.Platform.{Platform}
use aegis_oms_rs.Domain.Error.{Result, ok, panic}
use aegis_oms_rs.Domain.Event.{OrderEvent}
use aegis_oms_rs.Infra.AsyncEventBus.Channel.{Broadcast}

module _ ⦃P : Platform⦄ ⦃B : Broadcast⦄ where
  -- The sender, as the state of the channel that it is a handle of.
  pub record AsyncEventBus : Type 0 where
    pub sender : B.Channel

  -- The first receiver is dropped.
  abbrev pub without_receiver : B.Channel × B.Receiver → AsyncEventBus
  without_receiver c = record { sender = B.drop c.1 c.0 }

  unfoldable pub new : ℕ → Result AsyncEventBus
  new capacity = elim (B.channel capacity) [ none ↦ panic | some c ↦ ok (without_receiver c) ]

  unfoldable pub subscribe : AsyncEventBus → AsyncEventBus × B.Receiver
  subscribe bus = let c = B.subscribe bus.sender in (record { sender = c.0 }, c.1)

  -- Whether anyone received the event is ignored.
  unfoldable pub publish : OrderEvent → AsyncEventBus → AsyncEventBus
  publish event bus = record { sender = (B.send event bus.sender).1 }

  unfoldable pub subscriber_count : AsyncEventBus → ℕ
  subscriber_count bus = B.receiver_count bus.sender

  unfoldable pub default : Result AsyncEventBus
  default = new 256
