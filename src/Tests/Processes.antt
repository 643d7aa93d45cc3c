-- ===== src/Tests/Processes.antt =====
-- A concrete supervisor for backend/app/runtime/processes.py.
use meshtastic_lab.Base.{
  is_some, ℕ, ◌+◌, ◌≡◌, refl, true, false, String, List, [], ◌∷◌, none, some, arith,
}
use meshtastic_lab.Base.Dict
use meshtastic_lab.Base.Members
use meshtastic_lab.Models.Scenario.{texts}
use meshtastic_lab.Runtime.LogFile.{LogWriter, open_log, write_line, behind_newline}
use meshtastic_lab.Runtime.Processes.{
  Supervisor, Spawn, Output, SupervisorStep, starts, stops, exits, prints, hardware_ids_for,
  find_hardware_id, allocate_ids, sorted_texts, insert_text, supervise_all, start_unlocked,
  launched,
}
use meshtastic_lab.Runtime.Processes.Launches.{start_unlocked-Launches}
use meshtastic_lab.Runtime.Processes.Supervised.{supervise_all-IsSupervised}
use meshtastic_lab.Runtime.Processes.Table.{IsSupervised}

abbrev idle : Supervisor
idle = record {
  internal_port_base = 46001;
  log_max_bytes = 8;
  records = [];
  archived_logs = [];
  is_stopping = false;
}

idle-IsSupervised : IsSupervised idle
unfolding Dict.get
idle-IsSupervised = record {
  records = record { each = λ k r e. cc; apart = λ j k r t e g h. cc };
  settled = refl;
}

-- Both nodes' first digest is 1.
abbrev digest : String → ℕ → ℕ
digest node salt = salt + 1

hardware_ids : hardware_ids_for digest 9 ("b" ∷ "a" ∷ []) ≡ some (("a", 1) ∷ ("b", 2) ∷ [])
unfolding find_hardware_id allocate_ids sorted_texts insert_text Dict.put Members.member
hardware_ids = refl

-- The old log is cut behind its first newline within the bound, and the third line rotates it.
abbrev writer : LogWriter
writer = open_log 8 (1 ∷ 2 ∷ 3 ∷ 4 ∷ 10 ∷ 5 ∷ 6 ∷ 7 ∷ 8 ∷ []) none

rotated :
    write_line (λ bytes. bytes) (1 ∷ 2 ∷ []) (write_line (λ bytes. bytes) (9 ∷ []) writer)
    ≡ record {
      content = 1 ∷ 2 ∷ 10 ∷ [];
      backup = some (5 ∷ 6 ∷ 7 ∷ 8 ∷ 9 ∷ 10 ∷ []);
      max_bytes = 8;
      size = 3;
    }
unfolding open_log write_line behind_newline
rotated = refl

abbrev line : Output
line = record {
  node = "a";
  on_stderr = false;
  text = "up";
  bytes = 117 ∷ 112 ∷ [];
  write_fails = false;
}

abbrev calm : String → Spawn
calm node = record {
  raises = false;
  prints = line ∷ [];
  exits = [];
  stdout_file = some ([], none);
  stderr_file = none;
}

abbrev steps : List SupervisorStep
steps =
    starts digest 9 true calm [] ("a" ∷ "b" ∷ [])
    ∷ prints line
    ∷ exits "b"
    ∷ stops (line ∷ [])
    ∷ starts digest 9 true calm [] ("b" ∷ "a" ∷ [])
    ∷ []

supervise_all-IsSupervised_example : IsSupervised (supervise_all (λ bytes. bytes) steps idle)
supervise_all-IsSupervised_example =
    supervise_all-IsSupervised (λ bytes. bytes) (λ bytes. omega arith) steps idle idle-IsSupervised

start_unlocked-Launches_example :
    (t : Supervisor) × (start_unlocked (λ bytes. bytes) digest 9 true calm [] ("a" ∷ "b" ∷ []) idle
      ≡ launched t)
    × ((j : String)
        → Members.member texts j ("a" ∷ "b" ∷ []) ≡ true
        → is_some (Dict.get texts j t.records) ≡ true)
start_unlocked-Launches_example =
    start_unlocked-Launches (λ bytes. bytes) calm [] (λ node. refl) digest 9
      (λ node j k a b e. omega arith) ("a" ∷ "b" ∷ []) idle refl (omega arith)
