-- ===== src/Infra/AsyncEventBus/Queues.antt =====
-- A broadcast channel as one queue for each receiver: it shows that the interface's laws can hold
-- together, and the tests run on it.
use aegis_oms_rs.Prelude.{
  ℕ, zero, suc, ◌+◌, ◌≤◌, ◌<◌, ◌≡◌, ◌≢◌, refl, Option, none, some, List, [], ◌∷◌, ◌++◌, arith,
  if◌then◌else◌, leb, Bool-cases, inl, inr,
}
use aegis_oms_rs.Prelude.Map.{length}
use aegis_oms_rs.Platform.{Platform}
use aegis_oms_rs.Domain.Event.{OrderEvent}
use aegis_oms_rs.Infra.AsyncEventBus.Channel.{Broadcast, latest}

module _ ⦃P : Platform⦄ where
  -- The receivers are numbered from 0; a dropped one has no queue.
  abbrev Queues : Type 0
  Queues = List (Option (List OrderEvent))

  abbrev queue : ℕ → Queues → Option (List OrderEvent)
  queue r [] = none
  queue zero (q ∷ qs) = q
  queue (suc r) (q ∷ qs) = queue r qs

  abbrev drop_queue : ℕ → Queues → Queues
  drop_queue r [] = []
  drop_queue zero (q ∷ qs) = none ∷ qs
  drop_queue (suc r) (q ∷ qs) = q ∷ drop_queue r qs

  abbrev put : ℕ → OrderEvent → Option (List OrderEvent) → Option (List OrderEvent)
  put n e none = none
  put n e (some es) = some (latest n (es ++ (e ∷ [])))

  abbrev send_all : ℕ → OrderEvent → Queues → Queues
  send_all n e [] = []
  send_all n e (q ∷ qs) = put n e q ∷ send_all n e qs

  abbrev live : Option (List OrderEvent) → ℕ
  live none = 0
  live (some es) = 1

  abbrev receivers : Queues → ℕ
  receivers [] = 0
  receivers (q ∷ qs) = live q + receivers qs

  pub receivers-append : (qs : Queues) → receivers (qs ++ (some [] ∷ [])) ≡ suc (receivers qs)
  receivers-append [] = refl
  receivers-append (q ∷ qs) = let rest = receivers-append qs in omega arith

  pub receivers-send_all :
      (n : ℕ) (e : OrderEvent) (qs : Queues) → receivers (send_all n e qs) ≡ receivers qs
  receivers-send_all n e [] = refl
  receivers-send_all n e (none ∷ qs) = let rest = receivers-send_all n e qs in omega arith
  receivers-send_all n e (some es ∷ qs) = let rest = receivers-send_all n e qs in omega arith

  pub queue-append :
      (r : ℕ) (qs : Queues) (q : Option (List OrderEvent)) (es : List OrderEvent)
      → queue r qs ≡ some es
      → queue r (qs ++ (q ∷ [])) ≡ some es
  queue-append r [] q es h = absurd (ground arith)
  queue-append zero (p ∷ qs) q es h = h
  queue-append (suc r) (p ∷ qs) q es h = queue-append r qs q es h

  pub queue-append_last :
      (qs : Queues) (q : Option (List OrderEvent)) → queue (length qs) (qs ++ (q ∷ [])) ≡ q
  queue-append_last [] q = refl
  queue-append_last (p ∷ qs) q = queue-append_last qs q

  pub queue-send_all :
      (n : ℕ) (e : OrderEvent) (r : ℕ) (qs : Queues) (es : List OrderEvent)
      → queue r qs ≡ some es
      → queue r (send_all n e qs) ≡ some (latest n (es ++ (e ∷ [])))
  queue-send_all n e r [] es h = absurd (ground arith)
  queue-send_all n e zero (q ∷ qs) es h = rw h refl
  queue-send_all n e (suc r) (q ∷ qs) es h = queue-send_all n e r qs es h

  abbrev reached : ℕ → Option ℕ
  reached zero = none
  reached (suc n) = some (suc n)

  abbrev make : ℕ → Option ((ℕ × Queues) × ℕ)
  make zero = none
  make (suc n) = if leb (suc n) 9223372036854775807 then some ((suc n, some [] ∷ []), 0) else none

  pub make_some : (n : ℕ) → 0 < n → n ≤ 9223372036854775807 → make n ≢ none
  make_some zero h k = absurd (omega arith)
  make_some (suc n) h k = ground arith

  pub make_lem :
      (n : ℕ) (c : (ℕ × Queues) × ℕ)
      → make n ≡ some c
      → (n ≤ c.0.0) × (receivers (drop_queue c.1 c.0.1) ≡ 0)
  make_lem zero c h = absurd (ground arith)
  make_lem (suc n) c h = elim (Bool-cases (leb (suc n) 9223372036854775807)) [
    | inl t ↦
        let made : make (suc n) ≡ some ((suc n, some [] ∷ []), 0) = rw t refl in
        let same : ((suc n, some [] ∷ []), 0) ≡ c = cc in rw (← same) (omega arith, refl)
    | inr f ↦ let failed : make (suc n) ≡ none = rw f refl in absurd (ground arith)
  ]

  instance abbrev pub queues : Broadcast
  queues = record {
    Channel = ℕ × Queues;
    Receiver = ℕ;
    channel = make;
    drop = λ r c. (c.0, drop_queue r c.1);
    subscribe = λ c. ((c.0, c.1 ++ (some [] ∷ [])), length c.1);
    send = λ e c. (reached (receivers c.1), (c.0, send_all c.0 e c.1));
    receiver_count = λ c. receivers c.1;
    capacity = λ c. c.0;
    waiting = λ r c. queue r c.1;
    channel_zero = refl;
    channel_some = make_some;
    channel-capacity = λ n c h. (make_lem n c h).0;
    channel-receiver_count = λ n c h. (make_lem n c h).1;
    drop-capacity = λ r c. refl;
    subscribe-capacity = λ c. refl;
    subscribe-receiver_count = λ c. receivers-append c.1;
    subscribe-waiting = λ c. queue-append_last c.1 (some []);
    subscribe-waiting_other = λ r c es h. queue-append r c.1 (some []) es h;
    send-capacity = λ e c. refl;
    send-receiver_count = λ e c. receivers-send_all c.0 e c.1;
    send-waiting = λ e r c es h. queue-send_all c.0 e r c.1 es h;
  }
