-- ===== src/Metrics/Calculations.antt =====
-- The metrics of a run: backend/app/metrics/calculations.py.
-- A ratio is kept as the pair of numbers that the code divides, and none where it gives None. A
-- percentile is in hundredths of a millisecond, and its proportion in hundredths, so that the
-- interpolation is exact; the code computes with floats.
pub mod Percentiles
pub mod Tallies
use mathlib.Core.List.{foldl}
use meshtastic_lab.Base.{
  ℕ, zero, suc, ◌+◌, ◌-◌, ◌*◌, ◌/◌, ◌%◌, Bool, true, false, not, String, List, [], ◌∷◌, Option,
  none, some, ltb, leb, ◌==◌, if◌then◌else◌, length,
}
use meshtastic_lab.Base.Dict
use meshtastic_lab.Models.Scenario.{texts}

-- `sorted`
unfoldable pub insert_sorted : ℕ → List ℕ → List ℕ
insert_sorted x [] = x ∷ []
insert_sorted x (y ∷ ys) = let rest = insert_sorted x ys in if leb x y then x ∷ y ∷ ys else y ∷ rest

unfoldable pub sorted : List ℕ → List ℕ
sorted [] = []
sorted (x ∷ xs) = insert_sorted x (sorted xs)

-- `ordered[n]`, at an index within the list.
unfoldable pub at_index : ℕ → List ℕ → ℕ
at_index n [] = 0
at_index zero (x ∷ xs) = x
at_index (suc n) (x ∷ xs) = at_index n xs

-- The value at a position in hundredths of an index.
unfoldable pub interpolate : ℕ → List ℕ → ℕ
interpolate position ordered =
    let lower = position / 100 in
    let upper = (position + 99) / 100 in
    let low = at_index lower ordered in
    if lower == upper
    then low * 100
    else low * 100 + (at_index upper ordered - low) * (position % 100)

-- What a percentile gives: None of a sample that is too small, a ValueError, or a value.
pub data Percentile : Type 0 where
  no_value bad_proportion : Percentile
  value : ℕ → Percentile

-- `_percentile_ordered`
unfoldable pub percentile_ordered : List ℕ → ℕ → ℕ → Percentile
percentile_ordered ordered proportion minimum_samples =
    if ltb (length ordered) minimum_samples
    then no_value
    else if ltb 100 proportion
    then bad_proportion
    else if length ordered == 1
    then value (at_index 0 ordered * 100)
    else value (interpolate ((length ordered - 1) * proportion) ordered)

-- `percentile`
unfoldable pub percentile : List ℕ → ℕ → ℕ → Percentile
percentile values proportion minimum_samples =
    if ltb (length values) minimum_samples
    then no_value
    else percentile_ordered (sorted values) proportion 0

-- What the code divides, if the divisor is not 0.
abbrev pub Ratio : Type 0
Ratio = Option (ℕ × ℕ)

abbrev pub ratio : ℕ → ℕ → Ratio
ratio n d = if d == 0 then none else some (n, d)

pub record MetricsSnapshot : Type 0 where
  pub generated_application_messages : ℕ
  pub unique_application_messages_delivered : ℕ
  pub delivery_ratio : Ratio
  pub receiver_deliveries : ℕ
  pub receiver_delivery_ratio : Ratio
  pub acknowledgment_success_ratio : Ratio
  pub median_latency : Percentile
  pub p95_latency : Percentile
  pub p99_latency : Percentile
  pub rf_transmissions : ℕ
  pub rf_transmissions_per_delivery : Ratio
  pub relay_transmissions : ℕ
  pub duplicate_receptions : ℕ
  pub failed_receptions : ℕ
  pub drops_by_reason : List (String × ℕ)
  pub observed_airtime_ms : ℕ
  pub per_node_transmit_counts : List (String × ℕ)
  pub per_node_airtime_ms : List (String × ℕ)
  pub event_loop_lag_ms : Option ℕ
  pub receivers_per_broadcast : List (ℕ × ℕ)

-- The keyword arguments of `calculate_metrics`. `delivered` is the number of `delivered_ids`.
pub record MetricsInput : Type 0 where
  pub generated : ℕ
  pub delivered : ℕ
  pub delivered_count : Option ℕ
  pub acknowledged : ℕ
  pub acknowledgment_expected : ℕ
  pub latencies_ms : List ℕ
  pub rf_transmitters : List String
  pub relay_transmissions : ℕ
  pub duplicate_receptions : ℕ
  pub failed_receptions : ℕ
  pub drop_reasons : List String
  pub airtimes_ms : List ℕ
  pub event_loop_lag_ms : Option ℕ
  pub receiver_deliveries : Option ℕ
  pub receiver_delivery_opportunities : Option ℕ
  pub receivers_per_broadcast : List (ℕ × ℕ)
  pub rf_transmission_count : Option ℕ
  pub observed_airtime_ms : Option ℕ
  pub per_node_transmit_counts : Option (List (String × ℕ))
  pub per_node_airtime_ms : Option (List (String × ℕ))
  pub drops_by_reason : Option (List (String × ℕ))

abbrev pub or_else {ℓ} : {A : Type ℓ} → Option A → A → A
or_else none a = a
or_else (some b) a = b

-- `Counter`
unfoldable pub tally : List String → List (String × ℕ)
tally = foldl (λ d x. Dict.add_to texts x 1 d) []

-- The loop over the pairs of transmitters and airtimes; `none` is the ValueError of `zip` on
-- lists of different lengths.
unfoldable pub tally_airtimes :
    List (String × ℕ) → List String → List ℕ → Option (List (String × ℕ))
tally_airtimes d [] [] = some d
tally_airtimes d [] (t ∷ ts) = none
tally_airtimes d (x ∷ xs) [] = none
tally_airtimes d (x ∷ xs) (t ∷ ts) = tally_airtimes (Dict.add_to texts x t d) xs ts

unfoldable pub sum : List ℕ → ℕ
sum = foldl (λ n x. n + x) 0

abbrev pub airtime_by_transmitter : MetricsInput → Option (List (String × ℕ))
airtime_by_transmitter i = elim i.per_node_airtime_ms [
  | some given ↦ some given
  | none ↦ tally_airtimes [] i.rf_transmitters i.airtimes_ms
]

-- The result with the airtimes per node.
abbrev pub snapshot_of : MetricsInput → List (String × ℕ) → MetricsSnapshot
snapshot_of i airtimes =
    let delivered = or_else i.delivered_count i.delivered in
    let receivers = or_else i.receiver_deliveries delivered in
    let opportunities = or_else i.receiver_delivery_opportunities i.generated in
    let rf_count = or_else i.rf_transmission_count (length i.rf_transmitters) in
    let latencies = sorted i.latencies_ms in
    record {
      generated_application_messages = i.generated;
      unique_application_messages_delivered = delivered;
      delivery_ratio = ratio delivered i.generated;
      receiver_deliveries = receivers;
      receiver_delivery_ratio = ratio receivers opportunities;
      acknowledgment_success_ratio = ratio i.acknowledged i.acknowledgment_expected;
      median_latency = percentile_ordered latencies 50 1;
      p95_latency = percentile_ordered latencies 95 20;
      p99_latency = percentile_ordered latencies 99 100;
      rf_transmissions = rf_count;
      rf_transmissions_per_delivery = ratio rf_count delivered;
      relay_transmissions = i.relay_transmissions;
      duplicate_receptions = i.duplicate_receptions;
      failed_receptions = i.failed_receptions;
      drops_by_reason = or_else i.drops_by_reason (tally i.drop_reasons);
      observed_airtime_ms = or_else i.observed_airtime_ms (sum i.airtimes_ms);
      per_node_transmit_counts = or_else i.per_node_transmit_counts (tally i.rf_transmitters);
      per_node_airtime_ms = airtimes;
      event_loop_lag_ms = i.event_loop_lag_ms;
      receivers_per_broadcast = i.receivers_per_broadcast;
    }

-- `calculate_metrics`; `none` is the ValueError of the lists of transmissions.
unfoldable pub calculate_metrics : MetricsInput → Option MetricsSnapshot
calculate_metrics i = elim (airtime_by_transmitter i) [
  | none ↦ none
  | some airtimes ↦ some (snapshot_of i airtimes)
]
