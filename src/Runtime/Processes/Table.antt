-- ===== src/Runtime/Processes/Table.antt =====
-- What holds of the records of the processes, and what a change of one record keeps:
-- backend/app/runtime/processes.py.
use meshtastic_lab.Base.{
  none, ℕ, ◌≤◌, ◌≡◌, ◌⊎◌, refl, sym, ap, subst, inl, inr, false, ◌||◌, String, List, [], ◌∷◌, ◌++◌,
  Option, some, arith, ◌==◌, length, length-append, length-drop, Option-cases, ◌∙◌,
}
use meshtastic_lab.Base.Dict
use meshtastic_lab.Models.Scenario.{texts}
use meshtastic_lab.Runtime.LogFile.{LogWriter, IsLog, open_log-IsLog}
use meshtastic_lab.Runtime.Processes.{
  NodeProcessState, running, failed, Child, alive, ended, ProcessRecord, Records, Supervisor,
  recent_lines, append_line, change, exited, log_of,
}

-- A record is RUNNING with a process that is alive, or FAILED with one that has ended.
abbrev pub IsLive : NodeProcessState → Option Child → Type 0
IsLive running process = process ≡ some alive
IsLive failed process = process ≡ some ended
IsLive other process = ⊥

abbrev pub IsLogged : Option LogWriter → Type 0
IsLogged none = Unit
IsLogged (some w) = IsLog w

pub record IsProcess (r : ProcessRecord) : Type 0 where
  pub valid : (r.hardware_id == 0 || r.hardware_id == 0xFFFFFFFF) ≡ false
  pub live : IsLive r.state r.process
  pub few_stdout : length r.stdout_lines ≤ recent_lines
  pub few_stderr : length r.stderr_lines ≤ recent_lines
  pub stdout_logged : IsLogged r.stdout_log
  pub stderr_logged : IsLogged r.stderr_log

-- No two nodes have one hardware id, or one port.
pub record AreRecords (d : Records) : Type 0 where
  pub each : (k : String) (r : ProcessRecord) → Dict.get texts k d ≡ some r → IsProcess r
  pub apart :
      (j k : String) (r t : ProcessRecord)
      → Dict.get texts j d ≡ some r
      → Dict.get texts k d ≡ some t
      → (r.hardware_id ≡ t.hardware_id) ⊎ (r.internal_port ≡ t.internal_port)
      → j ≡ k

pub record IsSupervised (s : Supervisor) : Type 0 where
  pub records : AreRecords s.records
  pub settled : s.is_stopping ≡ false

pub append_line-length :
    (text : String) (lines : List String)
    → length lines ≤ recent_lines
    → length (append_line text lines) ≤ recent_lines
unfolding append_line
append_line-length text lines h =
    ground (arith, length-append lines (text ∷ []), length-drop 1 (lines ++ (text ∷ [])))

pub log_of-IsLogged :
    (max_bytes : ℕ) (file : Option (List ℕ × Option (List ℕ))) → IsLogged (log_of max_bytes file)
log_of-IsLogged max_bytes none = tt
log_of-IsLogged max_bytes (some (content, backup)) = open_log-IsLog max_bytes content backup

exited-IsProcess : (r : ProcessRecord) → IsProcess r → IsProcess (exited false r)
exited-IsProcess r v = elim (Option-cases r.process) [
  | inl absent ↦ rw absent (subst (λ p. IsProcess (record r { process = p })) absent v)
  | inr (child, held) ↦ rw held (record {
    valid = v.valid;
    live = refl;
    few_stdout = v.few_stdout;
    few_stderr = v.few_stderr;
    stdout_logged = v.stdout_logged;
    stderr_logged = v.stderr_logged;
  })
]

-- What a change leaves alone.
pub record Keeps (f : ProcessRecord → ProcessRecord) : Type 0 where
  pub process : (r : ProcessRecord) → IsProcess r → IsProcess (f r)
  pub hardware : (r : ProcessRecord) → (f r).hardware_id ≡ r.hardware_id
  pub port : (r : ProcessRecord) → (f r).internal_port ≡ r.internal_port

pub exited-Keeps : Keeps (exited false)
exited-Keeps = record {
  process = exited-IsProcess;
  hardware = λ r. elim (Option-cases r.process) [
    | inl absent ↦ rw absent refl
    | inr (child, held) ↦ rw held refl
  ];
  port = λ r. elim (Option-cases r.process) [
    | inl absent ↦ rw absent refl
    | inr (child, held) ↦ rw held refl
  ];
}

-- The record that one behind a change comes from.
pub record Origin (f : ProcessRecord → ProcessRecord) (d : Records) (j : String) (r : ProcessRecord)
    : Type 0 where
  pub before : ProcessRecord
  pub found : Dict.get texts j d ≡ some before
  pub hardware : r.hardware_id ≡ before.hardware_id
  pub port : r.internal_port ≡ before.internal_port
  pub kept : IsProcess before → IsProcess r

pub change-Origin :
    (f : ProcessRecord → ProcessRecord) (node j : String) (d : Records) (r : ProcessRecord)
    → Keeps f
    → Dict.get texts j (change node f d) ≡ some r
    → Origin f d j r
change-Origin f node j d r keeps e = elim (Option-cases (Dict.get texts node d)) [
  | inl none_there ↦ record {
    before = r;
    found = rw (none_there, change) at e;
    hardware = refl;
    port = refl;
    kept = λ v. v;
  }
  | inr (old, found) ↦
      elim (Dict.get-put_cases texts node j (f old) r d (rw (found, change) at e)) [
        | inl here ↦ record {
          before = old;
          found = subst (λ k. Dict.get texts k d ≡ some old) here.0 found;
          hardware = ap (λ x. x.hardware_id) here.1 ∙ keeps.hardware old;
          port = ap (λ x. x.internal_port) here.1 ∙ keeps.port old;
          kept = λ v. subst IsProcess (sym here.1) (keeps.process old v);
        }
        | inr other ↦ record {
          before = r;
          found = other.1;
          hardware = refl;
          port = refl;
          kept = λ v. v;
        }
      ]
]

pub change-AreRecords :
    (f : ProcessRecord → ProcessRecord) (node : String) (d : Records)
    → Keeps f
    → AreRecords d
    → AreRecords (change node f d)
change-AreRecords f node d keeps v = record {
  each = λ k r e. let o = change-Origin f node k d r keeps e in o.kept (v.each k o.before o.found);
  apart = λ j k r t e g same.
      let o = change-Origin f node j d r keeps e in
      let p = change-Origin f node k d t keeps g in
      v.apart j k o.before p.before o.found p.found (elim same [
        | inl h ↦ inl (sym o.hardware ∙ h ∙ p.hardware)
        | inr h ↦ inr (sym o.port ∙ h ∙ p.port)
      ]);
}
