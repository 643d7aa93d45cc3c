-- ===== src/Http/EventStream.antt =====
-- The event stream of a client: `event_stream` of backend/app/main.py, with what reaches the client's
-- subscription. The subscription is one of the broker's; it is kept apart here. A message from the
-- client changes nothing, and its disconnection ends the stream.
pub mod Joined
pub mod Rising
use meshtastic_lab.Base.{
  ℕ, max, Bool, true, false, ◌&&◌, String, str_eq, List, [], ◌∷◌, ◌++◌, Option, none, some, ltb,
  leb, if◌then◌else◌,
}
use meshtastic_lab.Metrics.Events.{
  PacketEvent, EventType, Detail, packet_event, EventSubscription, EventBroker, EventHistoryPage,
  offer, restart, next, publish, sequenced, clear, history_page,
}

-- What the client was sent, and the cursor of the loop.
pub record EventStream : Type 0 where
  pub sent : List PacketEvent
  pub sent_stream_id : String
  pub sent_sequence : ℕ

abbrev pub replay_limit : ℕ
replay_limit = 5000

abbrev pub restarted_notice : ℕ → String → PacketEvent
restarted_notice now stream = record (packet_event now EventType.ui_events_dropped) {
  stream_id = stream;
  result = some "stream-reset";
  detail = some (Detail.text "the event stream restarted; replaying retained history");
}

abbrev pub gap_notice : ℕ → EventHistoryPage → PacketEvent
gap_notice now page = record (packet_event now EventType.ui_events_dropped) {
  stream_id = page.stream_id;
  result = some "history-gap";
  detail = some (Detail.history_before page.first_available_sequence);
}

-- The notice before the replay, if there is one.
abbrev pub replay_notice : ℕ → EventHistoryPage → List PacketEvent
replay_notice now page =
    if page.stream_changed
    then restarted_notice now page.stream_id ∷ []
    else if page.history_gap
    then gap_notice now page ∷ []
    else []

-- The stream when its loop begins.
unfoldable pub open_stream : ℕ → ℕ → Option String → EventBroker → EventStream
open_stream now after_sequence stream b =
    let page = history_page after_sequence replay_limit stream b in
    record {
      sent = replay_notice now page ++ page.events;
      sent_stream_id = page.stream_id;
      sent_sequence = page.latest_sequence;
    }

-- The loop's cursor where an event of another stream comes.
abbrev pub follow : PacketEvent → EventStream → EventStream
follow event s =
    if str_eq event.stream_id s.sent_stream_id
    then s
    else record s { sent_stream_id = event.stream_id; sent_sequence = 0 }

-- A turn of the loop with an event.
unfoldable pub send_event : PacketEvent → EventStream → EventStream
send_event event s =
    let followed = follow event s in
    if ltb 0 event.sequence && leb event.sequence followed.sent_sequence
    then followed
    else record followed {
      sent = followed.sent ++ (event ∷ []);
      sent_sequence = max followed.sent_sequence event.sequence;
    }

-- A client's connection.
pub record Connection : Type 0 where
  pub broker : EventBroker
  pub subscription : EventSubscription
  pub stream : EventStream

pub data StreamStep : Type 0 where
  publishes : PacketEvent → StreamStep
  clears : ℕ → String → StreamStep
  reads : ℕ → StreamStep

-- The events that the loop takes from the subscription.
abbrev pub taken : Option (PacketEvent × EventSubscription) → List PacketEvent
taken none = []
taken (some (event, rest)) = event ∷ []

abbrev pub read_step : Option (PacketEvent × EventSubscription) → Connection → Connection
read_step none c = c
read_step (some (event, rest)) c = record c {
  subscription = rest;
  stream = send_event event c.stream;
}

unfoldable pub stream_step : StreamStep → Connection → Connection
stream_step (publishes event) c = record c {
  broker = (publish event c.broker).0;
  subscription = offer (sequenced event c.broker) c.subscription;
}
stream_step (clears now fresh) c = record c {
  broker = clear now fresh c.broker;
  subscription = restart now fresh c.subscription;
}
stream_step (reads now) c = read_step (next now c.subscription) c

unfoldable pub stream_steps : List StreamStep → Connection → Connection
stream_steps [] c = c
stream_steps (step ∷ steps) c = stream_steps steps (stream_step step c)

abbrev pub step_events : StreamStep → Connection → List PacketEvent
step_events (publishes event) c = []
step_events (clears now fresh) c = []
step_events (reads now) c = taken (next now c.subscription)

-- What the subscription gives over a sequence of steps.
unfoldable pub read_events : List StreamStep → Connection → List PacketEvent
read_events [] c = []
read_events (step ∷ steps) c = step_events step c ++ read_events steps (stream_step step c)

-- The connection of a client that subscribes: `event_stream` up to its loop.
abbrev pub connect_client : ℕ → ℕ → Option String → EventBroker → Connection
connect_client now after_sequence stream b = record {
  broker = b;
  subscription = record {
    identity = 0;
    queue = [];
    maxsize = b.subscriber_buffer_size;
    stream_id = b.stream_id;
    dropped = 0;
    delivered_drop_notice_last = false;
  };
  stream = open_stream now after_sequence stream b;
}
