-- ===== src/Traffic/Identifiers.antt =====
-- The packet ids of backend/app/traffic/controller.py: `_allocate_packet_id`, `_retire_packet_ids`
-- and `_purge_packet_id_quarantine`. The three dictionaries by source are one, of records; a source
-- that has no id in use is not in `_packet_ids_by_source`. Times are thousandths of a second, and
-- what the random generator draws is an argument.
pub mod Queue
pub mod Invariant
pub mod Retire
pub mod Reuse
use meshtastic_lab.Base.{
  ℕ, ◌+◌, Bool, true, false, ◌||◌, String, List, [], ◌∷◌, ◌++◌, Option, none, some, ltb, leb,
  if◌then◌else◌, length, is_empty, map,
}
use meshtastic_lab.Base.Dict
use meshtastic_lab.Base.Members
use meshtastic_lab.Models.Scenario.{texts, numbers}
use meshtastic_lab.Traffic.Controller.Submission.{is_some}

abbrev pub packet_id_quarantine : ℕ
packet_id_quarantine = 300_000

abbrev pub max_quarantined_packet_ids_per_source : ℕ
max_quarantined_packet_ids_per_source = 36_000

-- A source's ids: those in use with the time of their allocation, the quarantine's queue of expiries
-- and ids, and the set of the ids in it.
pub record SourceIds : Type 0 where
  pub in_use : List (ℕ × ℕ)
  pub quarantine : List (ℕ × ℕ)
  pub quarantined : List ℕ

abbrev pub no_ids : SourceIds
no_ids = record { in_use = []; quarantine = []; quarantined = [] }

-- `set.discard`
unfoldable pub discard : ℕ → List ℕ → List ℕ
discard n [] = []
discard n (x ∷ xs) = let rest = discard n xs in if numbers.same x n then rest else x ∷ rest

-- The loop of `_purge_packet_id_quarantine`.
unfoldable pub purge : ℕ → List (ℕ × ℕ) → List ℕ → List (ℕ × ℕ) × List ℕ
purge now [] set = ([], set)
purge now ((expiry, id) ∷ queue) set =
    if leb expiry now then purge now queue (discard id set) else ((expiry, id) ∷ queue, set)

abbrev pub purge_quarantine : ℕ → SourceIds → SourceIds
purge_quarantine now s =
    let (queue, set) = purge now s.quarantine s.quarantined in
    record s { quarantine = queue; quarantined = set }

abbrev pub is_taken : SourceIds → ℕ → Bool
is_taken s id = is_some (Dict.get numbers id s.in_use) || Members.member numbers id s.quarantined

-- The loop of `_allocate_packet_id`; `none` is a loop that still draws.
unfoldable pub draw_id : SourceIds → List ℕ → Option ℕ
draw_id s [] = none
draw_id s (id ∷ draws) = let rest = draw_id s draws in if is_taken s id then rest else some id

-- `_allocate_packet_id`
unfoldable pub allocate_packet_id : ℕ → List ℕ → SourceIds → Option (ℕ × SourceIds)
allocate_packet_id now draws s =
    let purged = purge_quarantine now s in
    elim (draw_id purged draws) [
      | none ↦ none
      | some id ↦ some (id, record purged { in_use = Dict.put numbers id now purged.in_use })
    ]

-- `retained`
unfoldable pub retained : ℕ → List (ℕ × ℕ) → List (ℕ × ℕ)
retained now [] = []
retained now ((id, allocated_at) ∷ ids) =
    let rest = retained now ids in
    if ltb now (allocated_at + packet_id_quarantine)
    then (allocated_at + packet_id_quarantine, id) ∷ rest
    else rest

abbrev pub id_of : ℕ × ℕ → ℕ
id_of entry = entry.1

-- `none` is the PacketIdQuarantineCapacityError.
unfoldable pub quarantine_ids : ℕ → SourceIds → Option SourceIds
quarantine_ids now s =
    let purged = purge_quarantine now s in
    let kept = retained now s.in_use in
    if ltb max_quarantined_packet_ids_per_source (length purged.quarantine + length kept)
    then none
    else some (record purged {
      quarantine = purged.quarantine ++ kept;
      quarantined = map id_of kept ++ purged.quarantined;
    })

-- `_packet_ids_by_source.clear()` for one source.
abbrev pub clear_ids : SourceIds → SourceIds
clear_ids s = record s { in_use = [] }

-- How `_retire_packet_ids` ends: an error leaves the sources before it quarantined, and all ids in
-- use.
pub data Retired : Type 0 where
  retired capacity_error : List (String × SourceIds) → Retired

unfoldable pub with_source : String × SourceIds → Retired → Retired
with_source entry (retired ids) = retired (entry ∷ ids)
with_source entry (capacity_error ids) = capacity_error (entry ∷ ids)

-- The loop of `_retire_packet_ids`.
unfoldable pub retire_each : ℕ → List (String × SourceIds) → Retired
retire_each now [] = retired []
retire_each now ((source, s) ∷ ids) =
    let rest = retire_each now ids in
    if is_empty s.in_use then with_source (source, s) rest else elim (quarantine_ids now s) [
      | none ↦ capacity_error ((source, purge_quarantine now s) ∷ ids)
      | some s' ↦ with_source (source, s') rest
    ]

abbrev pub clear_source : String × SourceIds → String × SourceIds
clear_source entry = (entry.0, clear_ids entry.1)

-- `_retire_packet_ids`
unfoldable pub retire_packet_ids : ℕ → List (String × SourceIds) → Retired
retire_packet_ids now ids = elim (retire_each now ids) [
  | retired quarantined ↦ retired (map clear_source quarantined)
  | capacity_error left ↦ capacity_error left
]
