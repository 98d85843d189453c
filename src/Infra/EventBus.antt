-- ===== src/Infra/EventBus.antt =====
-- src/infra/event_bus.rs: the handlers, named by numbers, and what each has been handed, in order.
use aegis_oms_rs.Prelude.{ℕ, List, [], ◌∷◌, ◌++◌, map}
use aegis_oms_rs.Platform.{Platform}
use aegis_oms_rs.Domain.Event.{OrderEvent}

module _ ⦃P : Platform⦄ where
  pub record EventBus : Type 0 where
    pub handlers : List ℕ
    pub handled : List (ℕ × OrderEvent)

  abbrev pub new : EventBus
  new = record { handlers = []; handled = [] }

  unfoldable pub register : ℕ → EventBus → EventBus
  register h bus = record bus { handlers = bus.handlers ++ (h ∷ []) }

  -- `handler.handle(event)` for each handler in the order of registration.
  unfoldable pub publish : OrderEvent → EventBus → EventBus
  publish e bus = record bus { handled = bus.handled ++ map (λ h. (h, e)) bus.handlers }
