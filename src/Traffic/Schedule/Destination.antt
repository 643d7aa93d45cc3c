-- ===== src/Traffic/Schedule/Destination.antt =====
-- Where `_choose_destination` of backend/app/traffic/controller.py can send a message.
use meshtastic_lab.Base.{
  ℕ, zero, suc, ◌%◌, ◌≡◌, ◌≢◌, refl, inl, inr, ap, true, false, not, String, str_eq, eq_iff, List,
  [], ◌∷◌, Option, none, some, arith, if◌then◌else◌, length, Option-cases, Bool-cases,
}
use meshtastic_lab.Base.Dict
use meshtastic_lab.Base.Members.{member}
use meshtastic_lab.Models.Scenario.{texts}
use meshtastic_lab.Traffic.Model.{
  TrafficFlow, direct_text, DestinationStrategy, fixed, round_robin, deterministic_random,
}
use meshtastic_lab.Traffic.Schedule.{
  check_destination, check_flow, candidates, nth, next_in_turn, choose_destination,
}

-- A node of the scenario that is not the source.
pub record IsTarget (source : String) (nodes : List String) (destination : String) : Type 0 where
  pub known : member texts destination nodes ≡ true
  pub not_source : destination ≢ source

candidates-IsTarget :
    (source destination : String) (nodes : List String)
    → member texts destination (candidates source nodes) ≡ true
    → IsTarget source nodes destination
unfolding candidates member
candidates-IsTarget source destination [] h = absurd (false_true h)
  where
    false_true : false ≡ true → ⊥
    false_true e = cc
candidates-IsTarget source destination (node ∷ nodes) h = elim (Bool-cases (str_eq node source)) [
  | inl same ↦
      let later = candidates-IsTarget source destination nodes (ground arith) in
      record { known = ground (arith, later.known); not_source = later.not_source }
  | inr other ↦ elim (Bool-cases (str_eq destination node)) [
    | inl here ↦ record {
      known = ground arith;
      not_source = ground (arith, eq_iff destination node, eq_iff node source);
    }
    | inr past ↦
        let later = candidates-IsTarget source destination nodes (ground arith) in
        record { known = ground (arith, later.known); not_source = later.not_source }
  ]
]

nth-member : (n : ℕ) (xs : List String) (x : String) → nth n xs ≡ some x → member texts x xs ≡ true
unfolding nth member
nth-member n [] x h = cc
nth-member zero (y ∷ ys) x h = ground (arith, eq_iff x y)
nth-member (suc n) (y ∷ ys) x h = ground (arith, nth-member n ys x h)

next_in_turn-member :
    (source : String) (nodes : List String) (turns turns' : List (String × ℕ))
    (destination : String)
    → next_in_turn source nodes turns ≡ some (destination, turns')
    → member texts destination nodes ≡ true
unfolding next_in_turn
next_in_turn-member source nodes turns turns' destination h =
    elim (Option-cases (Dict.get texts source turns)) [
      | inl e ↦ ground arith
      | inr (index, e) ↦ elim (Option-cases (nth (index % length nodes) nodes)) [
        | inl f ↦ ground arith
        | inr (d, f) ↦
            let same : d ≡ destination = ground arith in
            nth-member (index % length nodes) nodes destination (ground arith)
      ]
    ]

fixed-IsTarget :
    (source destination : String) (known : List String) (flow : TrafficFlow)
    → (if not (member texts destination known)
        then false
        else not (member texts destination flow.source_nodes))
      ≡ true
    → member texts source flow.source_nodes ≡ true
    → IsTarget source known destination
fixed-IsTarget source destination known flow ok sends = record {
  known = ground arith;
  not_source = λ e. ground (arith, ap (λ x. member texts x flow.source_nodes) e);
}

module _ (choice : List String → Option String)
    (chosen : (xs : List String) (x : String) → choice xs ≡ some x → member texts x xs ≡ true) where
  by_strategy :
      (flow : TrafficFlow) (source : String) (nodes : List String)
      (turns turns' : List (String × ℕ)) (destination : String) (strategy : DestinationStrategy)
      (target : Option String)
      → flow.destination_strategy ≡ strategy
      → flow.fixed_destination ≡ target
      → check_flow direct_text nodes flow ≡ none
      → member texts source flow.source_nodes ≡ true
      → choose_destination choice direct_text strategy target source nodes turns
        ≡ some (destination, turns')
      → IsTarget source nodes destination
  unfolding choose_destination check_flow check_destination
  by_strategy flow source nodes turns turns' destination fixed none s t ok sends e =
      absurd (ground arith)
  by_strategy flow source nodes turns turns' destination fixed (some d) s t ok sends e =
      let same : d ≡ destination = ground arith in
      fixed-IsTarget source destination nodes flow (ground arith) sends
  by_strategy flow source nodes turns turns' destination round_robin target s t ok sends e =
      candidates-IsTarget source destination nodes
        (next_in_turn-member source (candidates source nodes) turns turns' destination e)
  by_strategy flow source nodes turns turns' destination deterministic_random target s t ok sends
        e =
      elim (Option-cases (choice (candidates source nodes))) [
        | inl f ↦ absurd (ground arith)
        | inr (d, f) ↦
            candidates-IsTarget source destination nodes
              (chosen (candidates source nodes) destination (ground arith))
      ]

  -- Of a flow that passed the checks, every direct message goes to a node of the scenario other
  -- than its source, whatever the strategy, if `random.choice` returns an element of its list.
  pub choose_destination-IsTarget :
      (flow : TrafficFlow) (source : String) (nodes : List String)
      (turns turns' : List (String × ℕ)) (destination : String)
      → check_flow direct_text nodes flow ≡ none
      → member texts source flow.source_nodes ≡ true
      → choose_destination choice direct_text flow.destination_strategy flow.fixed_destination
          source nodes turns
        ≡ some (destination, turns')
      → IsTarget source nodes destination
  choose_destination-IsTarget flow source nodes turns turns' destination ok sends h =
      by_strategy flow source nodes turns turns' destination flow.destination_strategy
        flow.fixed_destination refl refl ok sends h
