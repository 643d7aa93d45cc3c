-- ===== src/Metrics/Events.antt =====
-- The event history and the UI subscriptions: backend/app/metrics/events.py.
-- An asyncio queue and a deque are lists, oldest first. The clock and a fresh stream id are
-- arguments. Times are ticks of the monotonic clock; decibels are in the unit of their last digit.
-- The schema version and the UTC stamp of an event are left out.
pub mod History
pub mod Subscription
use mathlib.Core.List.{reverse}
use meshtastic_lab.Metrics.Calculations.{Percentile}
use meshtastic_lab.Base.{
  ℕ, zero, suc, ◌+◌, ◌-◌, Bool, true, false, not, ◌&&◌, ◌||◌, String, List, [], ◌∷◌, ◌++◌, map,
  Option, none, some, ltb, ◌==◌, str_eq, if◌then◌else◌, length, take, drop, is_empty, ℤ,
}

pub data EventType : Type 0 where
  rf_transmit link_disabled rx_injected application_receive acknowledgment : EventType
  routing_error link_updated collision node_state lifecycle traffic metrics : EventType
  ui_events_dropped : EventType

-- A value of `metricUpdate`.
pub data MetricValue : Type 0 where
  count : ℕ → MetricValue
  counts : List (String × ℕ) → MetricValue
  ratio : Option (ℕ × ℕ) → MetricValue
  latency : Percentile → MetricValue
  missing : MetricValue

-- The formatted texts of `detail` are kept as what they format.
pub data Detail : Type 0 where
  text : String → Detail
  events_dropped : ℕ → Detail
  history_before : Option ℕ → Detail
  nodes_running : ℕ → Option (ℕ × ℕ) → Detail

pub record PacketEvent : Type 0 where
  pub stream_id : String
  pub sequence : ℕ
  pub monotonic_seconds : ℕ
  pub event_type : EventType
  pub transmitter : Option String
  pub intended_destination : Option String
  pub receiver : Option String
  pub receiver_set : List String
  pub mesh_packet_id : Option ℕ
  pub traffic_run_id : Option String
  pub traffic_sequence : Option ℕ
  pub hop_limit : Option ℕ
  pub hop_start : Option ℕ
  pub rssi_dbm : Option ℤ
  pub snr_db : Option ℤ
  pub port_number : Option ℕ
  pub packet_length : Option ℕ
  pub airtime_ms : Option ℕ
  pub metric_update : List (String × MetricValue)
  pub result : Option String
  pub detail : Option Detail

-- An event with the model's defaults.
abbrev pub packet_event : ℕ → EventType → PacketEvent
packet_event now kind = record {
  stream_id = "";
  sequence = 0;
  monotonic_seconds = now;
  event_type = kind;
  transmitter = none;
  intended_destination = none;
  receiver = none;
  receiver_set = [];
  mesh_packet_id = none;
  traffic_run_id = none;
  traffic_sequence = none;
  hop_limit = none;
  hop_start = none;
  rssi_dbm = none;
  snr_db = none;
  port_number = none;
  packet_length = none;
  airtime_ms = none;
  metric_update = [];
  result = none;
  detail = none;
}

-- `identity` tells two subscription objects apart in the set of subscribers.
pub record EventSubscription : Type 0 where
  pub identity : ℕ
  pub queue : List PacketEvent
  pub maxsize : ℕ
  pub stream_id : String
  pub dropped : ℕ
  pub delivered_drop_notice_last : Bool

-- `Queue.full`: a queue of size 0 has no limit.
abbrev pub full : EventSubscription → Bool
full s = ltb 0 s.maxsize && not (ltb (length s.queue) s.maxsize)

-- `EventSubscription.publish`: where the queue is full, its oldest event makes room.
unfoldable pub offer : PacketEvent → EventSubscription → EventSubscription
offer event s =
    if full s
    then record s { dropped = s.dropped + 1; queue = drop 1 s.queue ++ (event ∷ []) }
    else record s { queue = s.queue ++ (event ∷ []) }

abbrev pub reset_notice : ℕ → String → PacketEvent
reset_notice now stream = record (packet_event now EventType.ui_events_dropped) {
  stream_id = stream;
  result = some "stream-reset";
  detail = some (Detail.text "packet evidence was cleared by simulation reset");
}

unfoldable pub restart : ℕ → String → EventSubscription → EventSubscription
restart now stream s = record s {
  queue = reset_notice now stream ∷ [];
  stream_id = stream;
  dropped = 0;
  delivered_drop_notice_last = false;
}

abbrev pub drop_notice : ℕ → EventSubscription → PacketEvent
drop_notice now s = record (packet_event now EventType.ui_events_dropped) {
  stream_id = s.stream_id;
  result = some "dropped";
  detail = some (Detail.events_dropped s.dropped);
}

-- `EventSubscription.next`; `none` is a reader that waits on the empty queue.
unfoldable pub next : ℕ → EventSubscription → Option (PacketEvent × EventSubscription)
next now s =
    if ltb 0 s.dropped && not s.delivered_drop_notice_last
    then some (drop_notice now s, record s { dropped = 0; delivered_drop_notice_last = true })
    else elim s.queue [
      | [] ↦ none
      | event ∷ rest ↦ some (event, record s { queue = rest; delivered_drop_notice_last = false })
    ]

pub record EventBroker : Type 0 where
  pub history : List PacketEvent
  pub history_size : ℕ
  pub subscribers : List EventSubscription
  pub stream_id : String
  pub last_sequence : ℕ
  pub history_evictions : ℕ
  pub subscriber_buffer_size : ℕ

unfoldable pub init : ℕ → ℕ → String → EventBroker
init history_size buffer_size stream = record {
  history = [];
  history_size = history_size;
  subscribers = [];
  stream_id = stream;
  last_sequence = 0;
  history_evictions = 0;
  subscriber_buffer_size = buffer_size;
}

-- `deque.append` on a deque with `maxlen`.
unfoldable pub append_bounded : ℕ → List PacketEvent → PacketEvent → List PacketEvent
append_bounded maxlen xs x = if length xs == maxlen then drop 1 (xs ++ (x ∷ [])) else xs ++ (x ∷ [])

abbrev pub sequenced : PacketEvent → EventBroker → PacketEvent
sequenced event b = record event { sequence = b.last_sequence + 1; stream_id = b.stream_id }

-- `EventBroker.publish`: the new broker, and the event as it was numbered.
unfoldable pub publish : PacketEvent → EventBroker → EventBroker × PacketEvent
unfolding append_bounded
publish event b = (
  record b {
    last_sequence = b.last_sequence + 1;
    history_evictions =
        if length b.history == b.history_size then b.history_evictions + 1 else b.history_evictions;
    history = append_bounded b.history_size b.history (sequenced event b);
    subscribers = map (offer (sequenced event b)) b.subscribers;
  },
  sequenced event b,
)

-- `EventBroker.clear`, with the new stream id.
unfoldable pub clear : ℕ → String → EventBroker → EventBroker
clear now fresh b = record b {
  history = [];
  last_sequence = 0;
  history_evictions = 0;
  stream_id = fresh;
  subscribers = map (restart now fresh) b.subscribers;
}

opt_eq : String → Option String → Bool
opt_eq a none = false
opt_eq a (some b) = str_eq a b

contains : String → List String → Bool
contains a [] = false
contains a (b ∷ r) = str_eq a b || contains a r

type_eq : EventType → EventType → Bool
type_eq a b = type_index a == type_index b
  where
    type_index : EventType → ℕ
    type_index EventType.rf_transmit = 0
    type_index EventType.link_disabled = 1
    type_index EventType.rx_injected = 2
    type_index EventType.application_receive = 3
    type_index EventType.acknowledgment = 4
    type_index EventType.routing_error = 5
    type_index EventType.link_updated = 6
    type_index EventType.collision = 7
    type_index EventType.node_state = 8
    type_index EventType.lifecycle = 9
    type_index EventType.traffic = 10
    type_index EventType.metrics = 11
    type_index EventType.ui_events_dropped = 12

-- The two filters of `recent`; a filter that is `none` passes everything.
pub selects : Option String → Option EventType → PacketEvent → Bool
unfolding opt_eq contains type_eq
selects node kind e = by_node node && by_kind kind
  where
    by_node : Option String → Bool
    by_node none = true
    by_node (some n) = opt_eq n e.transmitter || (opt_eq n e.receiver || contains n e.receiver_set)

    by_kind : Option EventType → Bool
    by_kind none = true
    by_kind (some t) = type_eq e.event_type t

-- The loop of `recent` over the reversed history; `result` grows at the end.
pub recent_loop : ℕ → (PacketEvent → Bool) → List PacketEvent → List PacketEvent → List PacketEvent
recent_loop limit keep [] result = result
recent_loop limit keep (e ∷ es) result =
    let taken = result ++ (e ∷ []) in
    let skipped = recent_loop limit keep es result in
    let more = recent_loop limit keep es taken in
    if keep e then (if length taken == limit then taken else more) else skipped

pub recent : ℕ → Option String → Option EventType → EventBroker → List PacketEvent
recent limit node kind b = reverse (recent_loop limit (selects node kind) (reverse b.history) [])

pub record EventHistoryPage : Type 0 where
  pub stream_id : String
  pub stream_changed : Bool
  pub events : List PacketEvent
  pub first_available_sequence : Option ℕ
  pub latest_sequence : ℕ
  pub history_gap : Bool
  pub has_more : Bool

pub first_sequence : List PacketEvent → Option ℕ
first_sequence [] = none
first_sequence (e ∷ es) = some e.sequence

-- The events of a list behind a cursor.
pub after_cursor : ℕ → List PacketEvent → List PacketEvent
after_cursor cursor [] = []
after_cursor cursor (e ∷ es) =
    if ltb cursor e.sequence then e ∷ after_cursor cursor es else after_cursor cursor es

-- `bool(events) and events[-1].sequence < latest`
pub ends_before : ℕ → List PacketEvent → Bool
ends_before latest [] = false
ends_before latest (e ∷ []) = ltb e.sequence latest
ends_before latest (e ∷ f ∷ es) = ends_before latest (f ∷ es)

abbrev pub changed : Option String → String → Bool
changed none current = false
changed (some s) current = not (str_eq s current)

abbrev behind : ℕ → Option ℕ → Bool
behind cursor none = false
behind cursor (some first) = ltb cursor (first - 1)

unfoldable pub history_page : ℕ → ℕ → Option String → EventBroker → EventHistoryPage
history_page after_sequence limit stream b =
    let stream_changed = changed stream b.stream_id in
    let cursor = if stream_changed then 0 else after_sequence in
    let events = take limit (after_cursor cursor b.history) in
    record {
      stream_id = b.stream_id;
      stream_changed = stream_changed;
      events = events;
      first_available_sequence = first_sequence b.history;
      latest_sequence = b.last_sequence;
      history_gap =
          not stream_changed
          && (ltb 0 after_sequence && behind after_sequence (first_sequence b.history));
      has_more = ends_before b.last_sequence events;
    }

-- Entering and leaving the context of `subscribe`.
unfoldable pub subscribe : ℕ → EventBroker → EventBroker
subscribe identity b = record b {
  subscribers =
      record {
        identity = identity;
        queue = [];
        maxsize = b.subscriber_buffer_size;
        stream_id = b.stream_id;
        dropped = 0;
        delivered_drop_notice_last = false;
      }
      ∷ b.subscribers;
}

discard : ℕ → List EventSubscription → List EventSubscription
discard identity [] = []
discard identity (s ∷ ss) =
    if s.identity == identity then discard identity ss else s ∷ discard identity ss

unfoldable pub unsubscribe : ℕ → EventBroker → EventBroker
unfolding discard
unsubscribe identity b = record b { subscribers = discard identity b.subscribers }
