-- ===== src/Tests/Events.antt =====
-- Concrete histories for backend/app/metrics/events.py.
use meshtastic_lab.Base.{
  ℕ, ◌+◌, ◌≡◌, ◌<◌, ◌↔◌, refl, inr, true, false, List, [], ◌∷◌, ◌++◌, none, arith, length, drop,
  max, if◌then◌else◌,
}
use mathlib.Core.List.{Sublist}
use meshtastic_lab.Metrics.Events.{
  PacketEvent, EventType, EventBroker, EventSubscription, packet_event, init, changed, history_page,
}
use meshtastic_lab.Metrics.Events.History.{
  IsRetained, run-IsRetained, Command, publishes, subscribes, run, IsPage, history_page-IsPage,
  history_gap_iff,
}
use meshtastic_lab.Metrics.Events.Subscription.{
  IsBounded, offer_all, overflow, offer_all-newest, Action, offers, reads, serve, published,
  serve_accounts,
}

abbrev sent : ℕ → PacketEvent
sent now = packet_event now EventType.traffic

-- Three events in a history of two, with a subscriber.
abbrev commands : List Command
commands = subscribes 1 ∷ publishes (sent 5) ∷ publishes (sent 6) ∷ publishes (sent 7) ∷ []

run-IsRetained_example : IsRetained (run (init 2 4 "s") commands)
run-IsRetained_example = run-IsRetained 2 4 "s" commands

abbrev broker : EventBroker
broker = record {
  history =
      record (sent 6) { sequence = 2; stream_id = "s" }
      ∷ record (sent 7) { sequence = 3; stream_id = "s" }
      ∷ [];
  history_size = 2;
  subscribers = [];
  stream_id = "s";
  last_sequence = 3;
  history_evictions = 1;
  subscriber_buffer_size = 4;
}

broker-IsRetained : IsRetained broker
broker-IsRetained = record {
  bounded = omega arith;
  counted = refl;
  evicted_when_full = inr refl;
  numbered = (refl, refl, (refl, refl, tt));
}

history_page-IsPage_example :
    IsPage broker
      (max (if changed none broker.stream_id then 0 else 2) broker.history_evictions)
      10
      (history_page 2 10 none broker)
history_page-IsPage_example = history_page-IsPage 2 10 none broker broker-IsRetained

history_gap_iff_example :
    ((history_page 2 10 none broker).history_gap ≡ true)
    ↔ ((changed none broker.stream_id ≡ false) × (0 < 2) × (2 < broker.history_evictions))
history_gap_iff_example = history_gap_iff 2 10 none broker broker-IsRetained (omega arith)

abbrev client : EventSubscription
client = record {
  identity = 1;
  queue = [];
  maxsize = 2;
  stream_id = "s";
  dropped = 0;
  delivered_drop_notice_last = false;
}

abbrev three : List PacketEvent
three = sent 5 ∷ sent 6 ∷ sent 7 ∷ []

client-IsBounded : IsBounded client
client-IsBounded = record { positive = omega arith; within = omega arith }

offer_all-newest_example :
    ((offer_all three client).queue ≡ drop (overflow client three) (client.queue ++ three))
    × ((offer_all three client).dropped ≡ client.dropped + overflow client three)
offer_all-newest_example = offer_all-newest client three client-IsBounded

abbrev actions : List Action
actions = offers (sent 5) ∷ offers (sent 6) ∷ offers (sent 7) ∷ reads 8 ∷ reads 9 ∷ []

serve_accounts_example :
    Sublist ((serve client actions).events ++ (serve client actions).left.queue) (published actions)
    × ((serve client actions).reported
          + (serve client actions).left.dropped
          + length ((serve client actions).events ++ (serve client actions).left.queue)
        ≡ length (published actions))
serve_accounts_example = serve_accounts client actions refl refl
