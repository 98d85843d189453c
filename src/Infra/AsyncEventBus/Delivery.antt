-- ===== src/Infra/AsyncEventBus/Delivery.antt =====
-- What a subscriber of the bus of src/infra/async_event_bus.rs receives.
use aegis_oms_rs.Prelude.{
  ℕ, suc, ◌+◌, ◌-◌, ◌≤◌, ◌≡◌, ◌∙◌, refl, sym, ap, some, List, [], ◌∷◌, ◌++◌, arith, Option-cases,
  inl, inr,
}
use mathlib.Core.List.{append-nil, append_assoc}
use aegis_oms_rs.Platform.{Platform}
use aegis_oms_rs.Domain.Error.{ok}
use aegis_oms_rs.Domain.Event.{OrderEvent}
use aegis_oms_rs.Infra.AsyncEventBus.Channel.{Broadcast, latest, latest-append, drop_nil}
use aegis_oms_rs.Infra.AsyncEventBus.{
  AsyncEventBus, new, without_receiver, subscribe, publish, subscriber_count,
}

module _ ⦃P : Platform⦄ where
  -- The calls that share a bus, in the order in which they happen.
  pub data BusCall : Type 0 where
    publishing : OrderEvent → BusCall
    subscribing : BusCall

  abbrev pub published : List BusCall → List OrderEvent
  published [] = []
  published (publishing e ∷ calls) = e ∷ published calls
  published (subscribing ∷ calls) = published calls

  abbrev pub subscriptions : List BusCall → ℕ
  subscriptions [] = 0
  subscriptions (publishing e ∷ calls) = subscriptions calls
  subscriptions (subscribing ∷ calls) = suc (subscriptions calls)

  module _ ⦃B : Broadcast⦄ where
    abbrev pub run : List BusCall → AsyncEventBus → AsyncEventBus
    run [] bus = bus
    run (publishing e ∷ calls) bus = run calls (publish e bus)
    run (subscribing ∷ calls) bus = run calls (subscribe bus).0

    run-capacity :
        (calls : List BusCall) (bus : AsyncEventBus)
        → B.capacity (run calls bus).sender ≡ B.capacity bus.sender
    unfolding publish subscribe
    run-capacity [] bus = refl
    run-capacity (publishing e ∷ calls) bus =
        run-capacity calls (publish e bus) ∙ B.send-capacity e bus.sender
    run-capacity (subscribing ∷ calls) bus =
        run-capacity calls (subscribe bus).0 ∙ B.subscribe-capacity bus.sender

    run-subscriber_count :
        (calls : List BusCall) (bus : AsyncEventBus)
        → subscriber_count (run calls bus) ≡ subscriber_count bus + subscriptions calls
    unfolding publish subscribe subscriber_count
    run-subscriber_count [] bus = omega arith
    run-subscriber_count (publishing e ∷ calls) bus =
        let later = run-subscriber_count calls (publish e bus) in
        let same = B.send-receiver_count e bus.sender in omega arith
    run-subscriber_count (subscribing ∷ calls) bus =
        let later = run-subscriber_count calls (subscribe bus).0 in
        let one = B.subscribe-receiver_count bus.sender in omega arith

    -- A queue that holds the latest of some events holds the latest of them and what follows.
    run-waiting :
        (n : ℕ) (calls : List BusCall) (bus : AsyncEventBus) (r : B.Receiver) (es : List OrderEvent)
        → B.capacity bus.sender ≡ n
        → B.waiting r bus.sender ≡ some (latest n es)
        → B.waiting r (run calls bus).sender ≡ some (latest n (es ++ published calls))
    unfolding publish subscribe
    run-waiting n [] bus r es c h = rw (append-nil es) h
    run-waiting n (publishing e ∷ calls) bus r es c h =
        let next : B.waiting r (publish e bus).sender ≡ some (latest n (es ++ (e ∷ []))) =
          B.send-waiting e r bus.sender (latest n es) h
          ∙ ap some (ap (λ m. latest m (latest n es ++ (e ∷ []))) c ∙ latest-append n es e) in
        rw (← append_assoc es (e ∷ []) (published calls)) (
          run-waiting n calls (publish e bus) r (es ++ (e ∷ [])) (B.send-capacity e bus.sender ∙ c)
            next)
    run-waiting n (subscribing ∷ calls) bus r es c h =
        run-waiting n calls (subscribe bus).0 r es (B.subscribe-capacity bus.sender ∙ c)
          (B.subscribe-waiting_other r bus.sender (latest n es) h)

    new-sender :
        (n : ℕ) (bus : AsyncEventBus)
        → new n ≡ ok bus
        → (c : B.Channel × B.Receiver) × (B.channel n ≡ some c) × (B.drop c.1 c.0 ≡ bus.sender)
    unfolding new
    new-sender n bus e = elim (Option-cases (B.channel n)) [
      | inl f ↦ absurd (ground arith)
      | inr (c, f) ↦
          let made : new n ≡ ok (without_receiver c) = rw (new, f) refl in
          let same : without_receiver c ≡ bus = cc in (c, f, ap (λ b. b.sender) same)
    ]

    -- A receiver of a new bus has waiting for it the latest events that were published after it
    -- subscribed, in order, as many as the capacity of the channel, which is at least what was asked
    -- for. The subscribers are those that subscribed.
    pub waiting-run :
        (n : ℕ) (bus : AsyncEventBus) (before after : List BusCall)
        → new n ≡ ok bus
        → (B.waiting
              (subscribe (run before bus)).1
              (run after (subscribe (run before bus)).0).sender
            ≡ some (latest (B.capacity bus.sender) (published after)))
          × (n ≤ B.capacity bus.sender)
          × (subscriber_count (run after (subscribe (run before bus)).0)
              ≡ subscriptions before + 1 + subscriptions after)
    unfolding subscribe subscriber_count
    waiting-run n bus before after e =
        let (c, made, first) = new-sender n bus e in
        let asked = B.channel-capacity n c made in
        let none_yet = B.channel-receiver_count n c made in
        let same = B.drop-capacity c.1 c.0 in
        let whole : B.capacity (subscribe (run before bus)).0.sender ≡ B.capacity bus.sender =
          B.subscribe-capacity (run before bus).sender ∙ run-capacity before bus in
        let one = B.subscribe-receiver_count (run before bus).sender in
        let early = run-subscriber_count before bus in
        let late = run-subscriber_count after (subscribe (run before bus)).0 in
        let empty = B.subscribe-waiting (run before bus).sender in
        let count0 : B.receiver_count bus.sender ≡ 0 = rw (← first) none_yet in
        let room : n ≤ B.capacity bus.sender = rw (← first, same) asked in
        let start : B.waiting (subscribe (run before bus)).1 (subscribe (run before bus)).0.sender
            ≡ some (latest (B.capacity bus.sender) []) =
          empty ∙ ap some (sym (drop_nil (0 - B.capacity bus.sender))) in
        (
          run-waiting (B.capacity bus.sender) after (subscribe (run before bus)).0
              (subscribe (run before bus)).1 [] whole start,
          room,
          omega arith,
        )
