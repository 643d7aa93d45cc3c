-- ===== src/Runtime/Processes.antt =====
-- The supervisor of the firmware's processes: `NativeProcessSupervisor` of
-- backend/app/runtime/processes.py. How a process starts, what it prints and when it exits, and the
-- first four bytes of a SHA-256 digest, are arguments. Directories and tasks are left out.
pub mod Identities
pub mod Launches
pub mod Search
pub mod Starting
pub mod Supervised
pub mod Table
use Prim.Native.Nat.{Ordering}
use Prim.Native.String.{compare}
use meshtastic_lab.Base.{
  ℕ, zero, suc, ◌+◌, ◌-◌, ◌^◌, Bool, true, false, not, ◌&&◌, ◌||◌, String, str_eq, List, [], ◌∷◌,
  ◌++◌, Option, none, some, ◌==◌, if◌then◌else◌, length, drop, is_empty, is_some,
}
use meshtastic_lab.Base.Dict
use meshtastic_lab.Base.Members.{member}
use meshtastic_lab.Models.Scenario.{texts, numbers}
use meshtastic_lab.Runtime.LogFile.{LogWriter, open_log, write_line}

pub data NodeProcessState : Type 0 where
  stopped starting running stopping failed : NodeProcessState

-- A child with no return code yet, or with one.
pub data Child : Type 0 where
  alive ended : Child

-- A stream's log is none where the file could not be opened, or a write failed.
pub record ProcessRecord : Type 0 where
  pub hardware_id : ℕ
  pub internal_port : ℕ
  pub state : NodeProcessState
  pub process : Option Child
  pub stdout_lines : List String
  pub stderr_lines : List String
  pub stdout_log : Option LogWriter
  pub stderr_log : Option LogWriter

pub record ArchivedProcessLogs : Type 0 where
  pub archived_stdout : List String
  pub archived_stderr : List String

abbrev pub Records : Type 0
Records = List (String × ProcessRecord)

pub record Supervisor : Type 0 where
  pub internal_port_base : ℕ
  pub log_max_bytes : ℕ
  pub records : Records
  pub archived_logs : List (String × ArchivedProcessLogs)
  pub is_stopping : Bool

abbrev pub recent_lines : ℕ
recent_lines = 250

-- `deque(maxlen=250).append`
unfoldable pub append_line : String → List String → List String
append_line text lines =
    if length lines == recent_lines then drop 1 (lines ++ (text ∷ [])) else lines ++ (text ∷ [])

abbrev pub comes_before : String → String → Bool
comes_before a b = elim (compare a b) [ Ordering.lt ↦ true | _ ↦ false ]

-- `sorted`
unfoldable pub insert_text : String → List String → List String
insert_text x [] = x ∷ []
insert_text x (y ∷ ys) = if comes_before x y then x ∷ y ∷ ys else y ∷ insert_text x ys

unfoldable pub sorted_texts : List String → List String
sorted_texts [] = []
sorted_texts (x ∷ xs) = insert_text x (sorted_texts xs)

abbrev pub is_free : List ℕ → ℕ → Bool
is_free used id = (not (id == 0) && not (id == 0xFFFFFFFF)) && not (member numbers id used)

-- The loop over the salts; `none` is a loop that still searches after so many of them.
unfoldable pub find_hardware_id : (String → ℕ → ℕ) → ℕ → ℕ → String → List ℕ → Option ℕ
find_hardware_id digest zero salt node used = none
find_hardware_id digest (suc left) salt node used =
    let rest = find_hardware_id digest left (salt + 1) node used in
    if is_free used (digest node salt) then some (digest node salt) else rest

module _ (digest : String → ℕ → ℕ) (tries : ℕ) where
  unfoldable pub allocate_ids :
      List String → List (String × ℕ) → List ℕ → Option (List (String × ℕ))
  allocate_ids [] ids used = some ids
  allocate_ids (node ∷ nodes) ids used = elim (find_hardware_id digest tries 0 node used) [
    | none ↦ none
    | some id ↦ allocate_ids nodes (Dict.put texts node id ids) (id ∷ used)
  ]

  -- `_hardware_ids_for`
  abbrev pub hardware_ids_for : List String → Option (List (String × ℕ))
  hardware_ids_for node_ids = allocate_ids (sorted_texts node_ids) [] []

-- `_record_for`, with the state that `_start_one` sets first.
abbrev pub record_for : ℕ → ℕ → ProcessRecord
record_for port hardware_id = record {
  hardware_id = hardware_id;
  internal_port = port;
  state = starting;
  process = none;
  stdout_lines = [];
  stderr_lines = [];
  stdout_log = none;
  stderr_log = none;
}

abbrev pub change : String → (ProcessRecord → ProcessRecord) → Records → Records
change node f records = elim (Dict.get texts node records) [
  | none ↦ records
  | some r ↦ Dict.put texts node (f r) records
]

abbrev pub exited : Bool → ProcessRecord → ProcessRecord
exited is_stopping r = elim r.process [
  | none ↦ r
  | some child ↦
      if is_stopping
      then record r { process = some ended }
      else record r { process = some ended; state = failed }
]

-- `_monitor_exit`
unfoldable pub monitor_exit : String → Supervisor → Supervisor
monitor_exit node s = record s { records = change node (exited s.is_stopping) s.records }

unfoldable pub monitor_exits : List String → Supervisor → Supervisor
monitor_exits [] s = s
monitor_exits (node ∷ nodes) s = monitor_exits nodes (monitor_exit node s)

-- A line that a process prints: its node, whether it is on stderr, the text with its encoding, and
-- whether the write to the log fails.
pub record Output : Type 0 where
  pub node : String
  pub on_stderr : Bool
  pub text : String
  pub bytes : List ℕ
  pub write_fails : Bool

module _ (decoded : List ℕ → List ℕ) where
  abbrev pub logged : Output → Option LogWriter → Option LogWriter
  logged o none = none
  logged o (some w) = if o.write_fails then none else some (write_line decoded o.bytes w)

  abbrev pub with_line : Bool → Output → ProcessRecord → ProcessRecord
  with_line true o r = record r {
    stderr_lines = append_line o.text r.stderr_lines;
    stderr_log = logged o r.stderr_log;
  }
  with_line false o r = record r {
    stdout_lines = append_line o.text r.stdout_lines;
    stdout_log = logged o r.stdout_log;
  }

  -- `_drain_output` for one line.
  unfoldable pub drain_line : Output → Supervisor → Supervisor
  drain_line o s = record s { records = change o.node (with_line o.on_stderr o) s.records }

  unfoldable pub drain_lines : List Output → Supervisor → Supervisor
  drain_lines [] s = s
  drain_lines (o ∷ outputs) s = drain_lines outputs (drain_line o s)

abbrev pub terminated : ProcessRecord → ProcessRecord
terminated r = elim r.process [
  | none ↦ r
  | some child ↦ elim child [ alive ↦ record r { state = stopping } | ended ↦ r ]
]

unfoldable pub terminate_all : Records → Records
terminate_all [] = []
terminate_all ((node, r) ∷ records) = (node, terminated r) ∷ terminate_all records

unfoldable pub archive_all :
    Records → List (String × ArchivedProcessLogs) → List (String × ArchivedProcessLogs)
archive_all [] logs = logs
archive_all ((node, r) ∷ records) logs = archive_all records (
    Dict.put texts node
      (record { archived_stdout = r.stdout_lines; archived_stderr = r.stderr_lines }) logs)

-- `_stop_unlocked`; `outputs` are the lines that come until the processes have ended, by themselves
-- or killed. The states that the records have then are those of records that nobody holds.
unfoldable pub stop_unlocked : (List ℕ → List ℕ) → List Output → Supervisor → Supervisor
stop_unlocked decoded outputs s =
    let waiting =
      drain_lines decoded outputs
        (record s { is_stopping = true; records = terminate_all s.records }) in
    if is_empty s.records then s else record waiting {
      archived_logs = archive_all waiting.records waiting.archived_logs;
      records = [];
      is_stopping = false;
    }

-- How `start` ends: it returns, raises, or still searches for an id.
pub data Launch : Type 0 where
  launched rejected searching : Supervisor → Launch

-- What the start of a node brings: whether it raises, the lines that are printed and the nodes that
-- exit until the next start, and the log files with their backups that it finds, if they can be
-- opened.
pub record Spawn : Type 0 where
  pub raises : Bool
  pub prints : List Output
  pub exits : List String
  pub stdout_file : Option (List ℕ × Option (List ℕ))
  pub stderr_file : Option (List ℕ × Option (List ℕ))

abbrev pub log_of : ℕ → Option (List ℕ × Option (List ℕ)) → Option LogWriter
log_of max_bytes none = none
log_of max_bytes (some (content, backup)) = some (open_log max_bytes content backup)

-- The end of `_start_one`.
abbrev pub is_up : ℕ → Spawn → ProcessRecord → ProcessRecord
is_up max_bytes spawned r = record r {
  state = running;
  process = some alive;
  stdout_log = log_of max_bytes spawned.stdout_file;
  stderr_log = log_of max_bytes spawned.stderr_file;
}

-- The loop of `_start_unlocked` with `_start_one`; what follows an exception is the stop.
unfoldable pub start_nodes :
    (List ℕ → List ℕ)
    → (String → Spawn)
    → List Output
    → ℕ
    → List String
    → List (String × ℕ)
    → Supervisor
    → Launch
start_nodes decoded spawn outputs index [] ids s = launched s
start_nodes decoded spawn outputs index (node ∷ nodes) ids s = elim (Dict.get texts node ids) [
  | none ↦ rejected (stop_unlocked decoded outputs s)
  | some id ↦
      let r = record_for (s.internal_port_base + index) id in
      let rest = start_nodes decoded spawn outputs (index + 1) nodes ids (
        monitor_exits (spawn node).exits (
          drain_lines decoded (spawn node).prints (record s {
            records = Dict.put texts node (is_up s.log_max_bytes (spawn node) r) s.records;
          }))) in
      if (spawn node).raises
      then rejected
          (stop_unlocked decoded outputs (record s { records = Dict.put texts node r s.records }))
      else rest
]

-- `_start_unlocked`
unfoldable pub start_unlocked :
    (List ℕ → List ℕ)
    → (String → ℕ → ℕ)
    → ℕ
    → Bool
    → (String → Spawn)
    → List Output
    → List String
    → Supervisor
    → Launch
start_unlocked decoded digest tries has_binary spawn outputs nodes s =
    let cleared = record s { archived_logs = [] } in
    if not (is_empty s.records)
    then rejected s
    else if not has_binary
    then rejected cleared
    else elim (hardware_ids_for digest tries nodes) [
      | none ↦ searching (record cleared { is_stopping = false })
      | some ids ↦
          start_nodes decoded spawn outputs 0 nodes ids (record cleared { is_stopping = false })
    ]

-- `list(lines)[-limit:]`
abbrev pub last_lines : ℕ → List String → List String
last_lines limit lines = if limit == 0 then lines else drop (length lines - limit) lines

-- `recent_logs`; `none` is a KeyError.
unfoldable pub recent_logs : String → Bool → ℕ → Supervisor → Option (List String)
recent_logs node on_stderr limit s = elim (Dict.get texts node s.records) [
  | some r ↦ some (last_lines limit (if on_stderr then r.stderr_lines else r.stdout_lines))
  | none ↦ elim (Dict.get texts node s.archived_logs) [
    | none ↦ none
    | some a ↦ some (last_lines limit (if on_stderr then a.archived_stderr else a.archived_stdout))
  ]
]

-- `has_logs`
unfoldable pub has_logs : String → Supervisor → Bool
has_logs node s =
    is_some (Dict.get texts node s.records) || is_some (Dict.get texts node s.archived_logs)

pub data SupervisorStep : Type 0 where
  starts :
      (String → ℕ → ℕ) → ℕ → Bool → (String → Spawn) → List Output → List String → SupervisorStep
  stops : List Output → SupervisorStep
  exits : String → SupervisorStep
  prints : Output → SupervisorStep

abbrev pub after_launch : Launch → Supervisor
after_launch (launched s) = s
after_launch (rejected s) = s
after_launch (searching s) = s

unfoldable pub supervise : (List ℕ → List ℕ) → SupervisorStep → Supervisor → Supervisor
supervise decoded (starts digest tries has_binary spawn outputs nodes) s =
    after_launch (start_unlocked decoded digest tries has_binary spawn outputs nodes s)
supervise decoded (stops outputs) s = stop_unlocked decoded outputs s
supervise decoded (exits node) s = monitor_exit node s
supervise decoded (prints output) s = drain_line decoded output s

unfoldable pub supervise_all : (List ℕ → List ℕ) → List SupervisorStep → Supervisor → Supervisor
supervise_all decoded [] s = s
supervise_all decoded (step ∷ steps) s = supervise_all decoded steps (supervise decoded step s)
