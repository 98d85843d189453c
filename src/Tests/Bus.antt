-- ===== src/Tests/Bus.antt =====
-- The theorem on the asynchronous event bus at a concrete input.
use aegis_oms_rs.Prelude.{◌+◌, ◌≡◌, ◌≤◌, refl, none, some, List, [], ◌∷◌}
use aegis_oms_rs.Platform.Whole.{whole}
use aegis_oms_rs.Domain.Error.{ok}
use aegis_oms_rs.Domain.Event.{OrderEvent}
use aegis_oms_rs.Infra.AsyncEventBus.{AsyncEventBus, new, subscribe, publish, subscriber_count}
use aegis_oms_rs.Infra.AsyncEventBus.Channel.{latest}
use aegis_oms_rs.Infra.AsyncEventBus.Queues.{queues}
use aegis_oms_rs.Infra.AsyncEventBus.Delivery.{
  BusCall, publishing, subscribing, run, published, subscriptions, waiting-run,
}

abbrev small : AsyncEventBus
small = record { sender = (2, none ∷ []) }

small_made : new 2 ≡ ok small
unfolding new
small_made = refl

-- One event before the subscription, and three after it, one more than the channel holds.
abbrev before : List BusCall
before = publishing (OrderEvent.created 1) ∷ subscribing ∷ []

abbrev after : List BusCall
after =
    publishing (OrderEvent.accepted 1)
    ∷ publishing (OrderEvent.created 2)
    ∷ publishing (OrderEvent.accepted 2)
    ∷ []

received :
    queues.waiting
      (subscribe (run before small)).1
      (run after (subscribe (run before small)).0).sender
    ≡ some (OrderEvent.created 2 ∷ OrderEvent.accepted 2 ∷ [])
unfolding subscribe publish
received = refl

waiting-run_example :
    (queues.waiting
        (subscribe (run before small)).1
        (run after (subscribe (run before small)).0).sender
      ≡ some (latest 2 (published after)))
    × (2 ≤ 2)
    × (subscriber_count (run after (subscribe (run before small)).0)
        ≡ subscriptions before + 1 + subscriptions after)
waiting-run_example = waiting-run 2 small before after small_made
