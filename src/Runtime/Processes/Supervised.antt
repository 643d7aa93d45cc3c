-- ===== src/Runtime/Processes/Supervised.antt =====
-- What holds of the supervisor between its operations: backend/app/runtime/processes.py.
use meshtastic_lab.Base.{
  none, ℕ, ◌+◌, ◌≤◌, ◌≡◌, refl, inl, inr, Bool, true, false, not, String, List, [], ◌∷◌, Option,
  some, length, is_empty, Bool-cases, Option-cases,
}
use meshtastic_lab.Base.Dict
use meshtastic_lab.Models.Scenario.{texts}
use meshtastic_lab.Runtime.LogFile.{LogWriter, write_line-IsLog}
use meshtastic_lab.Runtime.Processes.{
  drain_lines, ProcessRecord, Records, Supervisor, hardware_ids_for, Output, with_line, logged,
  drain_line, stop_unlocked, Spawn, start_nodes, start_unlocked, SupervisorStep, starts, stops,
  exits, prints, after_launch, supervise, supervise_all,
}
use meshtastic_lab.Runtime.Processes.Identities.{AreIdentities, hardware_ids_for-AreIdentities}
use meshtastic_lab.Runtime.Processes.Table.{
  IsLogged, IsProcess, AreRecords, IsSupervised, Keeps, append_line-length, change-AreRecords,
}
use meshtastic_lab.Runtime.Processes.Starting.{
  change_known, IsUnderway, monitor_exit-IsSupervised, monitor_exits-IsUnderway, no_records,
  no_entry, put-AreRecords, known_behind,
}

module _ (decoded : List ℕ → List ℕ)
    (shortens : (bytes : List ℕ) → length (decoded bytes) ≤ length bytes) where
  logged-IsLogged :
      (o : Output) (log : Option LogWriter) → IsLogged log → IsLogged (logged decoded o log)
  logged-IsLogged o none v = tt
  logged-IsLogged o (some w) v = elim (Bool-cases o.write_fails) [
    | inl fails ↦ rw fails tt
    | inr written ↦ rw written (write_line-IsLog decoded shortens o.bytes w v)
  ]

  with_line-IsProcess :
      (b : Bool) (o : Output) (r : ProcessRecord)
      → IsProcess r
      → IsProcess (with_line decoded b o r)
  with_line-IsProcess true o r v = record {
    valid = v.valid;
    live = v.live;
    few_stdout = v.few_stdout;
    few_stderr = append_line-length o.text r.stderr_lines v.few_stderr;
    stdout_logged = v.stdout_logged;
    stderr_logged = logged-IsLogged o r.stderr_log v.stderr_logged;
  }
  with_line-IsProcess false o r v = record {
    valid = v.valid;
    live = v.live;
    few_stdout = append_line-length o.text r.stdout_lines v.few_stdout;
    few_stderr = v.few_stderr;
    stdout_logged = logged-IsLogged o r.stdout_log v.stdout_logged;
    stderr_logged = v.stderr_logged;
  }

  with_line-Keeps : (b : Bool) (o : Output) → Keeps (with_line decoded b o)
  with_line-Keeps true o = record {
    process = with_line-IsProcess true o;
    hardware = λ r. refl;
    port = λ r. refl;
  }
  with_line-Keeps false o = record {
    process = with_line-IsProcess false o;
    hardware = λ r. refl;
    port = λ r. refl;
  }

  -- A stop leaves nothing that is running, from whatever records.
  stop-IsSupervised :
      (outputs : List Output) (s : Supervisor)
      → s.is_stopping ≡ false
      → IsSupervised (stop_unlocked decoded outputs s)
  unfolding stop_unlocked
  stop-IsSupervised outputs s settled = elim (Bool-cases (is_empty s.records)) [
    | inl none_left ↦
        rw (stop_unlocked, none_left)
          (record { records = empty s.records none_left; settled = settled })
    | inr some_left ↦
        rw (stop_unlocked, some_left) (record { records = no_records; settled = refl })
  ]
    where
      empty : (d : Records) → is_empty d ≡ true → AreRecords d
      empty [] e = no_records
      empty (x ∷ d) e = cc

  drain_line-IsSupervised :
      (o : Output) (s : Supervisor) → IsSupervised s → IsSupervised (drain_line decoded o s)
  unfolding drain_line
  drain_line-IsSupervised o s v = record {
    records =
        change-AreRecords (with_line decoded o.on_stderr o) o.node s.records
          (with_line-Keeps o.on_stderr o) v.records;
    settled = v.settled;
  }

  drain_lines-IsUnderway :
      (ids : List (String × ℕ)) (index : ℕ) (lines : List Output) (s : Supervisor)
      → IsUnderway ids index s
      → IsUnderway ids index (drain_lines decoded lines s)
  unfolding drain_lines drain_line
  drain_lines-IsUnderway ids index [] s v = v
  drain_lines-IsUnderway ids index (o ∷ lines) s v =
      drain_lines-IsUnderway ids index lines (drain_line decoded o s) (record {
        supervised = drain_line-IsSupervised o s v.supervised;
        known = λ k r e.
            change_known (with_line decoded o.on_stderr o) ids index o.node k r s
              (with_line-Keeps o.on_stderr o) v e;
      })

  start_nodes-IsSupervised :
      (ids : List (String × ℕ)) (spawn : String → Spawn) (outputs : List Output) (index : ℕ)
      (nodes : List String) (s : Supervisor)
      → AreIdentities ids
      → IsUnderway ids index s
      → IsSupervised (after_launch (start_nodes decoded spawn outputs index nodes ids s))
  unfolding start_nodes
  start_nodes-IsSupervised ids spawn outputs index [] s identities v = v.supervised
  start_nodes-IsSupervised ids spawn outputs index (node ∷ nodes) s identities v =
      elim (Option-cases (Dict.get texts node ids)) [
        | inl missing ↦ rw (start_nodes, missing) (stop-IsSupervised outputs s v.supervised.settled)
        | inr (id, at_node) ↦ elim (Bool-cases (spawn node).raises) [
          | inl fails ↦
              rw (start_nodes, at_node, fails) (stop-IsSupervised outputs _ v.supervised.settled)
          | inr up ↦
              rw (start_nodes, at_node, up)
                (start_nodes-IsSupervised ids spawn outputs (index + 1) nodes _ identities (
                  monitor_exits-IsUnderway ids (index + 1) (spawn node).exits _ (
                    drain_lines-IsUnderway ids (index + 1) (spawn node).prints _ (record {
                      supervised = record {
                        records =
                            put-AreRecords ids identities (spawn node) node id index s at_node v;
                        settled = v.supervised.settled;
                      };
                      known = known_behind ids identities (spawn node) node id index s at_node v;
                    }))))
        ]
      ]

  start-IsSupervised :
      (digest : String → ℕ → ℕ) (tries : ℕ) (has_binary : Bool) (spawn : String → Spawn)
      (outputs : List Output) (nodes : List String) (s : Supervisor)
      → IsSupervised s
      → IsSupervised
          (after_launch (start_unlocked decoded digest tries has_binary spawn outputs nodes s))
  unfolding start_unlocked
  start-IsSupervised digest tries has_binary spawn outputs nodes s v =
      elim (Bool-cases (not (is_empty s.records))) [
        | inl busy ↦ rw (start_unlocked, busy) v
        | inr idle ↦ elim (Bool-cases (not has_binary)) [
          | inl absent ↦
              rw (start_unlocked, idle, absent)
                (record { records = v.records; settled = v.settled })
          | inr there ↦ elim (Option-cases (hardware_ids_for digest tries nodes)) [
            | inl lost ↦
                rw (start_unlocked, idle, there, lost)
                  (record { records = v.records; settled = refl })
            | inr (ids, given) ↦
                rw (start_unlocked, idle, there, given)
                  (start_nodes-IsSupervised ids spawn outputs 0 nodes _
                    (hardware_ids_for-AreIdentities digest tries nodes ids given)
                    (record {
                      supervised = record { records = v.records; settled = refl };
                      known = λ k r e. absurd (none_there s.records idle k r e);
                    }))
          ]
        ]
      ]
    where
      none_there :
          (d : Records)
          → not (is_empty d) ≡ false
          → (k : String) (r : ProcessRecord) → Dict.get texts k d ≡ some r
          → ⊥
      none_there [] e k r g = no_entry k r g
      none_there (x ∷ d) e k r g = cc

  supervise-IsSupervised :
      (step : SupervisorStep) (s : Supervisor)
      → IsSupervised s
      → IsSupervised (supervise decoded step s)
  unfolding supervise
  supervise-IsSupervised (starts digest tries has_binary spawn outputs nodes) s v =
      start-IsSupervised digest tries has_binary spawn outputs nodes s v
  supervise-IsSupervised (stops outputs) s v = stop-IsSupervised outputs s v.settled
  supervise-IsSupervised (exits node) s v = monitor_exit-IsSupervised node s v
  supervise-IsSupervised (prints output) s v = drain_line-IsSupervised output s v

  -- With a decoding that lengthens nothing, through any starts, stops, exits and lines of output the
  -- supervisor keeps: every record is RUNNING with a process that is alive, or FAILED with one that
  -- has ended; its hardware id is neither 0 nor 0xFFFFFFFF; at most 250 lines of each stream are kept,
  -- and a log file that is open is as long as its size says and within its bound; no two nodes have
  -- the same hardware id or port; and no stop is in progress.
  pub supervise_all-IsSupervised :
      (steps : List SupervisorStep) (s : Supervisor)
      → IsSupervised s
      → IsSupervised (supervise_all decoded steps s)
  unfolding supervise_all
  supervise_all-IsSupervised [] s v = v
  supervise_all-IsSupervised (step ∷ steps) s v =
      supervise_all-IsSupervised steps (supervise decoded step s) (supervise-IsSupervised step s v)
