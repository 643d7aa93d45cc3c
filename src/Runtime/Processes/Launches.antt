-- ===== src/Runtime/Processes/Launches.antt =====
-- How a start ends: `_start_unlocked` of backend/app/runtime/processes.py.
use meshtastic_lab.Base.{
  ℕ, ◌+◌, ◌≤◌, ◌<◌, ◌≡◌, refl, ap, subst, inl, inr, true, false, ◌||◌, String, List, [], ◌∷◌, some,
  arith, Bool-cases, Option-cases, ◌∙◌, length, is_some, is_empty,
}
use meshtastic_lab.Base.Dict
use meshtastic_lab.Base.Members.{member}
use meshtastic_lab.Models.Scenario.{texts}
use meshtastic_lab.Runtime.Processes.{
  ProcessRecord, Records, Supervisor, Output, Spawn, launched, change, exited, monitor_exit,
  monitor_exits, with_line, drain_line, drain_lines, is_up, record_for, start_nodes, start_unlocked,
}
use meshtastic_lab.Runtime.Processes.Search.{hardware_ids_for-Finds}

has_record-change :
    (f : ProcessRecord → ProcessRecord) (node j : String) (d : Records)
    → is_some (Dict.get texts j (change node f d)) ≡ is_some (Dict.get texts j d)
has_record-change f node j d = elim (Option-cases (Dict.get texts node d)) [
  | inl absent ↦ rw (absent, change) refl
  | inr (r, found) ↦ elim (Bool-cases (texts.same node j)) [
    | inl here ↦
        rw (found, change)
          (ground (
            arith,
            texts.same_iff node j,
            Dict.get-put texts node j (f r) d,
            found,
            ap is_some
                (subst (λ k. Dict.get texts k d ≡ some r) ((texts.same_iff node j).0 here) found),
          ))
    | inr other ↦ rw (found, change) (ground (arith, Dict.get-put texts node j (f r) d))
  ]
]

has_record-monitor_exits :
    (nodes : List String) (j : String) (s : Supervisor)
    → is_some (Dict.get texts j (monitor_exits nodes s).records)
      ≡ is_some (Dict.get texts j s.records)
unfolding monitor_exits monitor_exit
has_record-monitor_exits [] j s = refl
has_record-monitor_exits (node ∷ nodes) j s =
    has_record-monitor_exits nodes j (monitor_exit node s)
    ∙ has_record-change (exited s.is_stopping) node j s.records

module _ (decoded : List ℕ → List ℕ) where
  has_record-drain_lines :
      (lines : List Output) (j : String) (s : Supervisor)
      → is_some (Dict.get texts j (drain_lines decoded lines s).records)
        ≡ is_some (Dict.get texts j s.records)
  unfolding drain_lines drain_line
  has_record-drain_lines [] j s = refl
  has_record-drain_lines (o ∷ lines) j s =
      has_record-drain_lines lines j (drain_line decoded o s)
      ∙ has_record-change (with_line decoded o.on_stderr o) o.node j s.records

  module _ (spawn : String → Spawn) (outputs : List Output)
      (calm : (node : String) → (spawn node).raises ≡ false) where
    start_nodes-Launches :
        (index : ℕ) (nodes : List String) (ids : List (String × ℕ)) (s : Supervisor)
        → ((j : String) → member texts j nodes ≡ true → is_some (Dict.get texts j ids) ≡ true)
        → (t : Supervisor) × (start_nodes decoded spawn outputs index nodes ids s ≡ launched t)
          × ((j : String)
              → (member texts j nodes || is_some (Dict.get texts j s.records)) ≡ true
              → is_some (Dict.get texts j t.records) ≡ true)
    unfolding start_nodes member
    start_nodes-Launches index [] ids s given = (s, refl, λ j e. e)
    start_nodes-Launches index (node ∷ nodes) ids s given =
        elim (Option-cases (Dict.get texts node ids)) [
          | inl lost ↦
              absurd (ground (arith, given node, texts.same_iff node node, ap is_some lost))
          | inr (id, found) ↦
              let up =
                is_up s.log_max_bytes (spawn node) (record_for (s.internal_port_base + index) id) in
              let begun = record s { records = Dict.put texts node up s.records } in
              let drained = drain_lines decoded (spawn node).prints begun in
              let later = monitor_exits (spawn node).exits drained in
              let (t, goes, kept) =
                start_nodes-Launches (index + 1) nodes ids later
                  (λ j e. given j (ground (arith, e))) in
              (
                t,
                rw (start_nodes, found, calm node) goes,
                λ j e. kept j (
                    ground (
                      arith,
                      texts.same_iff j node,
                      texts.same_iff node j,
                      e,
                      has_record-monitor_exits (spawn node).exits j drained,
                      has_record-drain_lines (spawn node).prints j begun,
                      Dict.get-put texts node j up s.records,
                    )),
              )
        ]

    module _ (digest : String → ℕ → ℕ) (tries : ℕ)
        (apart : (node : String) (j k : ℕ)
          → j < tries
          → k < tries
          → digest node j ≡ digest node k
          → j ≡ k) where
      -- Where no node's start raises and a node's digests of the first `tries` salts are different, a
      -- start of a supervisor without records, for at most `tries - 2` nodes and with the binary in
      -- its place, finds hardware ids for all of them and returns, and every node has a record.
      pub start_unlocked-Launches :
          (nodes : List String) (s : Supervisor)
          → is_empty s.records ≡ true
          → length nodes + 2 ≤ tries
          → (t : Supervisor) × (start_unlocked decoded digest tries true spawn outputs nodes s
              ≡ launched t)
            × ((j : String)
                → member texts j nodes ≡ true
                → is_some (Dict.get texts j t.records) ≡ true)
      unfolding start_unlocked
      start_unlocked-Launches nodes s idle enough =
          let (ids, found, given) = hardware_ids_for-Finds digest tries apart nodes enough in
          let (t, goes, kept) =
            start_nodes-Launches 0 nodes ids (record s { archived_logs = []; is_stopping = false })
              given in
          (t, rw (start_unlocked, idle, found) goes, λ j e. kept j (ground (arith, e)))
