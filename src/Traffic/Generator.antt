-- ===== src/Traffic/Generator.antt =====
-- The loop that sends the messages of a run: `_run` of backend/app/traffic/controller.py up to its
-- drain. What the random generators draw, the clock, the gateways' answers and the reports that come
-- while the loop waits are the inputs of its turns.
pub mod Turns
use meshtastic_lab.Base.{ℕ, ◌+◌, String, List, [], ◌∷◌, Option, none, some}
use meshtastic_lab.Base.Dict
use meshtastic_lab.Metrics.Packet.{Protobuf}
use meshtastic_lab.Models.Scenario.{texts, numbers}
use meshtastic_lab.Traffic.Model.{
  TrafficController, TrafficFlow, TrafficRunRequest, TrafficRunPhase,
}
use meshtastic_lab.Traffic.Controller.History.{Command, perform}
use meshtastic_lab.Traffic.Controller.Submission.{submit}
use meshtastic_lab.Traffic.Identifiers.{SourceIds, no_ids, allocate_packet_id}
use meshtastic_lab.Traffic.Schedule.{
  choose_destination, marker_size, nth, scheduling_flows, maximum_sequence,
}
use meshtastic_lab.Traffic.Timetable.{
  SlotKey, first_ticks, schedule_loop, Looped, ended, raised, exhausted,
}

-- The inputs of a turn.
pub record TurnInput : Type 0 where
  pub reports : List (ℕ × Command)
  pub now : ℕ
  pub choice : List String → Option String
  pub draws : List ℕ
  pub airtime : ℕ
  pub delay : ℕ
  pub refused : Option String

-- What the loop changes: the controller, the ids of its sources, and the indices of `round_robin` by
-- the flow's index; `turns` are those that it has taken.
pub record Generator : Type 0 where
  pub controller : TrafficController
  pub packet_ids : List (String × SourceIds)
  pub round_robin : List (ℕ × List (String × ℕ))
  pub turns : ℕ

abbrev pub ids_of : String → List (String × SourceIds) → SourceIds
ids_of source ids = elim (Dict.get texts source ids) [ none ↦ no_ids | some s ↦ s ]

abbrev pub indices_of : ℕ → List (ℕ × List (String × ℕ)) → List (String × ℕ)
indices_of flow_index indices = elim (Dict.get numbers flow_index indices) [
  | none ↦ []
  | some d ↦ d
]

-- `dict.fromkeys(flow.source_nodes, 0)`
unfoldable pub first_indices : List String → List (String × ℕ) → List (String × ℕ)
first_indices [] indices = indices
first_indices (source ∷ sources) indices = first_indices sources (Dict.put texts source 0 indices)

-- `round_robin`
unfoldable pub first_round_robin : ℕ → List TrafficFlow → List (ℕ × List (String × ℕ))
first_round_robin flow_index [] = []
first_round_robin flow_index (flow ∷ flows) =
    (flow_index, first_indices flow.source_nodes []) ∷ first_round_robin (flow_index + 1) flows

module _ (pb : Protobuf) (parse_identifier : List ℕ → Option (String × ℕ)) where
  -- A report while the loop waits; one whose handling raises changes nothing here.
  unfoldable pub hear_reports : List (ℕ × Command) → TrafficController → TrafficController
  hear_reports [] c = c
  hear_reports ((now, report) ∷ reports) c =
      hear_reports reports
        (elim (perform pb parse_identifier now report c) [ none ↦ c | some later ↦ later ])

  -- `_submit` with its packet id; `none` is an exception, or draws that bring no free id.
  unfoldable pub send : TurnInput → TrafficFlow → String → String → Generator → Option Generator
  send input flow source destination g =
      elim (allocate_packet_id input.now input.draws (ids_of source g.packet_ids)) [
        | none ↦ none
        | some (packet_id, ids) ↦
            elim (submit pb input.now flow.name source destination packet_id input.airtime
              input.delay (marker_size (g.controller.last_sequence + 1)) input.refused
              g.controller) [
                | none ↦ none
                | some c ↦ some (record g {
                  controller = c;
                  packet_ids = Dict.put texts source ids g.packet_ids;
                })
              ]
      ]

  module _ (world : ℕ → TurnInput) (request : TrafficRunRequest) where
    -- A turn for a flow: the wait, the destination and the message.
    unfoldable pub take_turn : ℕ → TrafficFlow → String → Generator → Option Generator
    take_turn flow_index flow source g =
        let input = world g.turns in
        let c = hear_reports input.reports g.controller in
        elim (choose_destination input.choice request.kind flow.destination_strategy
          flow.fixed_destination source c.node_ids (indices_of flow_index g.round_robin)) [
            | none ↦ none
            | some (destination, indices) ↦ send input flow source destination (record g {
              controller = c;
              round_robin = Dict.put numbers flow_index indices g.round_robin;
              turns = g.turns + 1;
            })
          ]

    abbrev pub source_turn : SlotKey → ℕ → Generator → Option Generator
    source_turn k tick g = elim (nth k.0 (scheduling_flows request)) [
      | none ↦ none
      | some flow ↦ take_turn k.0 flow k.1 g
    ]

    -- The generator when the loop begins.
    abbrev pub first_generator : List (String × SourceIds) → TrafficController → Generator
    first_generator packet_ids c = record {
      controller = c;
      packet_ids = packet_ids;
      round_robin = first_round_robin 0 (scheduling_flows request);
      turns = 0;
    }

    -- The phase behind the loop.
    abbrev pub begin_drain : Looped Generator → Looped Generator
    begin_drain (ended g) =
        ended (record g { controller = record (g.controller) { phase = TrafficRunPhase.draining } })
    begin_drain raised = raised
    begin_drain exhausted = exhausted

    -- `_run` up to its drain, from the generator that it begins with.
    unfoldable pub generate : (ℕ → String → ℕ) → Generator → Looped Generator
    generate phases g = begin_drain (
        schedule_loop request.duration_seconds phases (scheduling_flows request) source_turn
          (maximum_sequence request) (first_ticks (scheduling_flows request)) g)
