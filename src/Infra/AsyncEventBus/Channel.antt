-- ===== src/Infra/AsyncEventBus/Channel.antt =====
-- The broadcast channel of tokio that src/infra/async_event_bus.rs is made of: an interface, with
-- what its documentation says. A receiver is a key of the channel's state.
use aegis_oms_rs.Prelude.{
  ℕ, zero, suc, ◌+◌, ◌-◌, ◌≤◌, ◌<◌, ◌≡◌, ◌≢◌, ◌∙◌, refl, sym, ap, Option, none, some, List, [], ◌∷◌,
  ◌++◌, arith,
}
use aegis_oms_rs.Prelude.Map.{length}
use aegis_oms_rs.Platform.{Platform}
use aegis_oms_rs.Domain.Event.{OrderEvent}

module _ {ℓ} {A : Type ℓ} where
  abbrev pub drop : ℕ → List A → List A
  drop zero xs = xs
  drop (suc n) [] = []
  drop (suc n) (x ∷ xs) = drop n xs

  -- The last `n` of a list.
  abbrev pub latest : ℕ → List A → List A
  latest n xs = drop (length xs - n) xs

  pub length-append : (xs : List A) (x : A) → length (xs ++ (x ∷ [])) ≡ suc (length xs)
  length-append [] x = refl
  length-append (y ∷ xs) x = ground (arith, length-append xs x)

  length-drop : (k : ℕ) (xs : List A) → length (drop k xs) ≡ length xs - k
  length-drop zero xs = omega arith
  length-drop (suc k) [] = omega arith
  length-drop (suc k) (x ∷ xs) = ground (arith, length-drop k xs)

  drop-append :
      (k : ℕ) (xs : List A) (x : A)
      → k ≤ length xs
      → drop k (xs ++ (x ∷ [])) ≡ drop k xs ++ (x ∷ [])
  drop-append zero xs x h = refl
  drop-append (suc k) [] x h = absurd (omega arith)
  drop-append (suc k) (y ∷ xs) x h = drop-append k xs x (omega arith)

  pub drop_nil : (k : ℕ) → drop k [] ≡ []
  drop_nil zero = refl
  drop_nil (suc k) = refl

  drop-drop : (j k : ℕ) (xs : List A) → drop j (drop k xs) ≡ drop (k + j) xs
  drop-drop j zero xs = ap (λ m. drop m xs) (omega arith)
  drop-drop j (suc k) [] = drop_nil j ∙ sym (drop_nil (suc k + j))
  drop-drop j (suc k) (x ∷ xs) =
      let same : suc (k + j) ≡ suc k + j = omega arith in
      drop-drop j k xs ∙ ap (λ m. drop m (x ∷ xs)) same

  -- A queue of the last `n` stays one when the next element is put in.
  pub latest-append :
      (n : ℕ) (xs : List A) (x : A) → latest n (latest n xs ++ (x ∷ [])) ≡ latest n (xs ++ (x ∷ []))
  latest-append n xs x =
      let ys = xs ++ (x ∷ []) in
      let k = length xs - n in
      let more = length-append xs x in
      rw
        (
          ← drop-append k xs x (omega arith),
          drop-drop (length (drop k ys) - n) k ys,
          length-drop k ys,
        )
        (ap (λ m. drop m ys) (omega arith))

module _ ⦃P : Platform⦄ where
  pub record Broadcast : Type 1 where
    -- The state of a channel, which its handles share.
    pub Channel : Type 0
    pub Receiver : Type 0
    -- `broadcast::channel`: none where it panics.
    pub channel : ℕ → Option (Channel × Receiver)
    pub drop : Receiver → Channel → Channel
    -- `Sender::subscribe`
    pub subscribe : Channel → Channel × Receiver
    -- `Sender::send`: to how many receivers the event went, none where there was none.
    pub send : OrderEvent → Channel → Option ℕ × Channel
    -- `Sender::receiver_count`
    pub receiver_count : Channel → ℕ
    -- How many events the channel holds for a receiver.
    pub capacity : Channel → ℕ
    -- The events that a receiver has not yet taken, the oldest first; none once it is dropped.
    pub waiting : Receiver → Channel → Option (List OrderEvent)
    -- A capacity of 0 panics, one that is at most usize::MAX / 2 does not. The capacity may be
    -- more than what was asked for.
    pub channel_zero : channel 0 ≡ none
    pub channel_some : (n : ℕ) → 0 < n → n ≤ 9223372036854775807 → channel n ≢ none
    pub channel-capacity : (n : ℕ) (c : Channel × Receiver) → channel n ≡ some c → n ≤ capacity c.0
    pub channel-receiver_count :
        (n : ℕ) (c : Channel × Receiver) → channel n ≡ some c → receiver_count (drop c.1 c.0) ≡ 0
    pub drop-capacity : (r : Receiver) (c : Channel) → capacity (drop r c) ≡ capacity c
    -- A new receiver gets what is sent after it was made.
    pub subscribe-capacity : (c : Channel) → capacity (subscribe c).0 ≡ capacity c
    pub subscribe-receiver_count :
        (c : Channel) → receiver_count (subscribe c).0 ≡ suc (receiver_count c)
    pub subscribe-waiting : (c : Channel) → waiting (subscribe c).1 (subscribe c).0 ≡ some []
    pub subscribe-waiting_other :
        (r : Receiver) (c : Channel) (es : List OrderEvent)
        → waiting r c ≡ some es
        → waiting r (subscribe c).0 ≡ some es
    -- An event goes to each receiver; where the capacity is exceeded, the oldest are dropped.
    pub send-capacity : (e : OrderEvent) (c : Channel) → capacity (send e c).1 ≡ capacity c
    pub send-receiver_count :
        (e : OrderEvent) (c : Channel) → receiver_count (send e c).1 ≡ receiver_count c
    pub send-waiting :
        (e : OrderEvent) (r : Receiver) (c : Channel) (es : List OrderEvent)
        → waiting r c ≡ some es
        → waiting r (send e c).1 ≡ some (latest (capacity c) (es ++ (e ∷ [])))
