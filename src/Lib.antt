-- ===== src/Lib.antt =====
-- Meshtastic Lab: the core of the backend, modelled and verified.
--
-- The program runs a mesh of simulated radio nodes. Every node's firmware talks a framed byte
-- stream to a gateway; the gateway passes radio frames to the medium, which forwards each along the
-- enabled links of a scenario's directed graph; a traffic controller sends generated messages
-- through the gateways and counts what the gateways and the medium report back; and all of them
-- publish events to a broker, whose history and subscriptions feed the user interface.
--
-- Files, and the code that each models:
--   Gateway/Framing        backend/app/gateway/framing.py: `FrameParser.feed` as `feed`, one turn of
--                          its loop as `turn`, the read loops of node_gateway.py as `feed_all`
--     Scan                 a reference reading of a byte stream, with no parser state
--     Turns, Stream, Chunks, Roundtrip, Bounds    the parser against the reference
--   Gateway/Multiplexer    backend/app/gateway/node_gateway.py: what each task of `NodeGateway` does
--                          between two waits
--     Bounded, Invariant, Delivery    its queues and states; what the connected client gets
--   Metrics/Events         backend/app/metrics/events.py: `EventBroker` and `EventSubscription`, an
--                          operation of the same name for each method
--     History, Subscription    the retained history and its pages; what a slow client loses
--   Metrics/Calculations   backend/app/metrics/calculations.py; Percentiles, Tallies are about its parts
--   Metrics/Packet         the packet functions of backend/app/metrics/airtime.py
--   Models/Scenario        backend/app/models/scenario.py; Graph is about `validate_graph`,
--                          Generated and Presets about `generate_links` and the presets,
--                          Defaults about `default_scenario`
--   Simulator/Medium       backend/app/simulator/medium.py: `update_link`, `apply_links`, `transmit`
--     Links, Transmit      the link table; who gets a transmission
--   Simulator/Service      backend/app/simulator/service.py: the state of `SimulatorService` and how
--                          resources are given up
--     Lifecycle            `start`, `stop`, `reset`, `replace_scenario`, the cleanup of a failure
--     Topology, Runs       `update_links`, `apply_topology`; `start_traffic` and the results of runs
--     Reports, Radio       `_on_gateway_event`, `_sample_local_stats`; `_on_from_radio`
--     Commands, Outcome    any sequence of commands and reports; how a start ends
--     Invariant, Starting, Stopping, Running, Reported, History    what holds between commands
--   Traffic/Model          the data of backend/app/traffic/controller.py
--   Traffic/Controller     its correlation of packets with messages, with the handlers in
--     Submission, Radio    what `_submit` and the medium report
--     Receipts, Receive    what the nodes' clients report
--     Store, Ledger, Handlers, Answers, History    the counters against the messages
--     Accounts             the accounts kept along the way against the lists of transmissions
--   Traffic/Schedule       `start`, the checks of a request and the choice of destinations
--   Traffic/Timetable      when messages are due: the tables of `_run` and its loop over the sources
--     Tables, Plan, Order  what they hold at first; which turns the loop takes, and when
--   Traffic/Generator      the loop with the messages that it sends, up to the drain; Turns is about it
--   Traffic/Identifiers    `_allocate_packet_id` and the quarantine of packet ids
--     Queue, Invariant, Retire, Reuse    when a source gets an id again
--   Traffic/Drain          the wait for the last messages of a run
--   Traffic/Results        `_final_metrics`, `_live_metrics_snapshot` and the results of a run
--     Agreement            the live metrics against the final ones
--   Traffic/Sampling       `_sample_final_failed_receptions`
--   Traffic/Init           a new traffic controller
--   Traffic/Runner         `stop`, `fail`, `_finish` and `summary`
--     Late, Sampled, Finish    late reports; how a run ends
--   Runtime/LogFile        backend/app/runtime/processes.py: `_BoundedLogWriter`
--   Runtime/Processes      `NativeProcessSupervisor` of that file: starts, stops, exits and output
--                          lines
--     Identities, Search, Launches     hardware ids, the search for them, and how a start ends
--     Table, Starting, Supervised      the records, during a start and between operations
--   Http/EventStream       backend/app/main.py: `event_stream`; Rising and Joined are about the replay
--                          and the live events together
--   Base                   lists, dictionaries, membership and tests on numbers and texts
--   Tests                  runs on small inputs, and a concrete case of each theorem
--
-- State is passed explicitly: a method of an object takes the record of its fields and returns the
-- new one. A method that may raise returns an Option, or a type of its own errors. Dictionaries are
-- association lists in insertion order, sets are lists with a membership test. A generated message is
-- one shared object in the code; here the message list holds the objects, the dictionaries hold their
-- sequence numbers, and a write replaces the object in the list. Clock readings, random choices, fresh
-- identifiers and floating-point airtimes are arguments.
--
-- Bounds: the loop of `feed` gets one more unit of fuel than it has bytes, which is enough since every
-- turn that goes on drops a byte; the digits of a sequence number get 20, which is enough for the
-- 10 000 messages that a run can have. The loop that sends a run's messages gets as much fuel as
-- `_maximum_sequence` counts, which is enough since every turn sends one. The drain's loop runs over
-- the list of its wake-ups, none of which comes later than the wait before it was asked to last. The
-- search for a hardware id looks at a given count of salts, which is enough if it is two more than
-- there are nodes and a node's digests differ.
--
-- Not modelled: the protobuf library, which is a record of parameters; asyncio's scheduling: a command
-- on the life cycle is one step, with the outcomes of its waits as arguments, except for the start
-- of a gateway and for the end of a run, whose waits other tasks can use; the airtime formulas in
-- floating point; the files of results; the directories and subprocess calls of the node processes;
-- the conversation that configures a node; and the HTTP interface except for the event stream.
pub mod Base
pub mod Models
pub mod Metrics
pub mod Gateway
pub mod Simulator
pub mod Traffic
pub mod Runtime
pub mod Http
pub mod Tests
