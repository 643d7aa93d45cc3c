-- ===== src/Tests/Http.antt =====
-- A concrete connection for backend/app/main.py.
use meshtastic_lab.Base.{◌≡◌, ◌++◌, refl, List, [], ◌∷◌, some}
use meshtastic_lab.Http.EventStream.{
  StreamStep, publishes, clears, reads, open_stream, send_event, stream_step, stream_steps,
  read_events, connect_client,
}
use meshtastic_lab.Http.EventStream.Joined.{NoneAgain, AreFresh, stream_steps-connect_client}
use meshtastic_lab.Metrics.Events.{
  EventBroker, EventType, PacketEvent, packet_event, init, publish, offer, next, clear, restart,
  history_page,
}

abbrev event : PacketEvent
event = packet_event 5 EventType.traffic

abbrev broker : EventBroker
broker = (publish event (publish event (init 10 2 "s")).0).0

abbrev steps : List StreamStep
steps =
    publishes event
    ∷ reads 6
    ∷ clears 7 "t"
    ∷ publishes event
    ∷ publishes event
    ∷ reads 8
    ∷ reads 9
    ∷ []

steps-AreFresh : AreFresh steps (connect_client 5 1 (some "s") broker)
unfolding stream_step send_event open_stream history_page publish offer next init clear restart
steps-AreFresh = (tt, (tt, (refl, (tt, (tt, (tt, (tt, tt)))))))

stream_steps-connect_client_example :
    ((stream_steps steps (connect_client 5 1 (some "s") broker)).stream.sent
      ≡ (open_stream 5 1 (some "s") broker).sent
        ++ read_events steps (connect_client 5 1 (some "s") broker))
    × NoneAgain broker.stream_id broker.last_sequence
        (read_events steps (connect_client 5 1 (some "s") broker))
stream_steps-connect_client_example =
    stream_steps-connect_client 5 1 (some "s") broker steps steps-AreFresh
