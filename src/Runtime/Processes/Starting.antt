-- ===== src/Runtime/Processes/Starting.antt =====
-- The records while processes are started: `_start_unlocked` of backend/app/runtime/processes.py.
use meshtastic_lab.Base.{
  ℕ, ◌+◌, ◌<◌, ◌≡◌, ◌⊎◌, refl, sym, ap, subst, inl, inr, false, String, List, [], ◌∷◌, some, arith,
  ◌∙◌,
}
use meshtastic_lab.Base.Dict
use meshtastic_lab.Models.Scenario.{texts}
use meshtastic_lab.Runtime.Processes.{
  ProcessRecord, Supervisor, record_for, change, exited, monitor_exit, monitor_exits, Spawn, is_up,
}
use meshtastic_lab.Runtime.Processes.Identities.{AreIdentities}
use meshtastic_lab.Runtime.Processes.Table.{
  Keeps, IsProcess, AreRecords, IsSupervised, log_of-IsLogged, exited-Keeps, change-Origin,
  change-AreRecords,
}

-- A start on its way: every record has its node's id, and a port that was given out before.
pub record IsUnderway (ids : List (String × ℕ)) (index : ℕ) (s : Supervisor) : Type 0 where
  pub supervised : IsSupervised s
  pub known :
      (k : String) (r : ProcessRecord)
      → Dict.get texts k s.records ≡ some r
      → (Dict.get texts k ids ≡ some r.hardware_id)
        × (r.internal_port < s.internal_port_base + index)

pub monitor_exit-IsSupervised :
    (node : String) (s : Supervisor) → IsSupervised s → IsSupervised (monitor_exit node s)
unfolding monitor_exit
monitor_exit-IsSupervised node s v = record {
  records =
      subst (λ b. AreRecords (change node (exited b) s.records)) (sym v.settled)
        (change-AreRecords (exited false) node s.records exited-Keeps v.records);
  settled = v.settled;
}

pub change_known :
    (f : ProcessRecord → ProcessRecord) (ids : List (String × ℕ)) (index : ℕ) (node k : String)
    (r : ProcessRecord) (s : Supervisor)
    → Keeps f
    → IsUnderway ids index s
    → Dict.get texts k (change node f s.records) ≡ some r
    → (Dict.get texts k ids ≡ some r.hardware_id) × (r.internal_port < s.internal_port_base + index)
change_known f ids index node k r s keeps v e =
    let o = change-Origin f node k s.records r keeps e in
    let (id, port) = v.known k o.before o.found in
    (id ∙ ap some (sym o.hardware), omega (arith, port, o.port))

monitor_exit-IsUnderway :
    (ids : List (String × ℕ)) (index : ℕ) (node : String) (s : Supervisor)
    → IsUnderway ids index s
    → IsUnderway ids index (monitor_exit node s)
unfolding monitor_exit
monitor_exit-IsUnderway ids index node s v = record {
  supervised = monitor_exit-IsSupervised node s v.supervised;
  known = λ k r e. change_known (exited false) ids index node k r s exited-Keeps v (
      subst (λ b. Dict.get texts k (change node (exited b) s.records) ≡ some r) v.supervised.settled
        e);
}

pub monitor_exits-IsUnderway :
    (ids : List (String × ℕ)) (index : ℕ) (nodes : List String) (s : Supervisor)
    → IsUnderway ids index s
    → IsUnderway ids index (monitor_exits nodes s)
unfolding monitor_exits
monitor_exits-IsUnderway ids index [] s v = v
monitor_exits-IsUnderway ids index (node ∷ nodes) s v =
    monitor_exits-IsUnderway ids index nodes (monitor_exit node s)
      (monitor_exit-IsUnderway ids index node s v)

pub no_records : AreRecords []
unfolding Dict.get
no_records = record { each = λ k r e. cc; apart = λ j k r t e g h. cc }

pub no_entry :
    (k : String) (r : ProcessRecord) → Dict.get {V = ProcessRecord} texts k [] ≡ some r → ⊥
unfolding Dict.get
no_entry k r e = cc

abbrev Shares : ProcessRecord → ProcessRecord → Type 0
Shares r t = (r.hardware_id ≡ t.hardware_id) ⊎ (r.internal_port ≡ t.internal_port)

turned : (r t : ProcessRecord) → Shares r t → Shares t r
turned r t (inl h) = inl (sym h)
turned r t (inr h) = inr (sym h)

moved :
    (r t : ProcessRecord) (id port : ℕ)
    → r.hardware_id ≡ id
    → r.internal_port ≡ port
    → Shares r t
    → (id ≡ t.hardware_id) ⊎ (port ≡ t.internal_port)
moved r t id port e g (inl h) = inl (sym e ∙ h)
moved r t id port e g (inr h) = inr (sym g ∙ h)

module _ (ids : List (String × ℕ)) (identities : AreIdentities ids) where
  pub put-AreRecords :
      (spawned : Spawn) (node : String) (id index : ℕ) (s : Supervisor)
      → Dict.get texts node ids ≡ some id
      → IsUnderway ids index s
      → AreRecords (
          Dict.put texts node
            (is_up s.log_max_bytes spawned (record_for (s.internal_port_base + index) id))
            s.records)
  put-AreRecords spawned node id index s at_node v =
      let new = is_up s.log_max_bytes spawned (record_for (s.internal_port_base + index) id) in
      let cases_of =
        λ (j : String) (r : ProcessRecord)
            (e : Dict.get texts j (Dict.put texts node new s.records) ≡ some r).
          Dict.get-put_cases texts node j new r s.records e in
      record {
        each = λ k r e. elim (cases_of k r e) [
          | inl here ↦ subst IsProcess (sym here.1) (record {
            valid = identities.valid node id at_node;
            live = refl;
            few_stdout = omega arith;
            few_stderr = omega arith;
            stdout_logged = log_of-IsLogged s.log_max_bytes spawned.stdout_file;
            stderr_logged = log_of-IsLogged s.log_max_bytes spawned.stderr_file;
          })
          | inr old ↦ v.supervised.records.each k r old.1
        ];
        apart = λ j k r t e g same. elim (cases_of j r e) [
          | inl here ↦ elim (cases_of k t g) [
            | inl there ↦ sym here.0 ∙ there.0
            | inr old ↦
                sym here.0
                ∙ meets k t old.1 (
                    moved r t id (s.internal_port_base + index) (ap (λ x. x.hardware_id) here.1)
                      (ap (λ x. x.internal_port) here.1) same)
          ]
          | inr old ↦ elim (cases_of k t g) [
            | inl there ↦
                sym (
                  meets j r old.1 (
                    moved t r id (s.internal_port_base + index) (ap (λ x. x.hardware_id) there.1)
                      (ap (λ x. x.internal_port) there.1) (turned r t same)))
                ∙ there.0
            | inr older ↦ v.supervised.records.apart j k r t old.1 older.1 same
          ]
        ];
      }
    where
      meets :
          (k : String) (t : ProcessRecord)
          → Dict.get texts k s.records ≡ some t
          → (id ≡ t.hardware_id) ⊎ (s.internal_port_base + index ≡ t.internal_port)
          → node ≡ k
      meets k t e (inl h) = identities.apart node k id at_node ((v.known k t e).0 ∙ ap some (sym h))
      meets k t e (inr h) = let below = (v.known k t e).1 in absurd (omega arith)

  pub known_behind :
      (spawned : Spawn) (node : String) (id index : ℕ) (s : Supervisor)
      → Dict.get texts node ids ≡ some id
      → IsUnderway ids index s
      → (k : String) (r : ProcessRecord)
      → Dict.get texts k (
          Dict.put texts node
            (is_up s.log_max_bytes spawned (record_for (s.internal_port_base + index) id))
            s.records)
        ≡ some r
      → (Dict.get texts k ids ≡ some r.hardware_id)
        × (r.internal_port < s.internal_port_base + (index + 1))
  known_behind spawned node id index s at_node v k r e =
      let new = is_up s.log_max_bytes spawned (record_for (s.internal_port_base + index) id) in
      elim (Dict.get-put_cases texts node k new r s.records e) [
        | inl here ↦
            let port = ap (λ x. x.internal_port) here.1 in
            (
              subst (λ x. Dict.get texts x ids ≡ some id) here.0 at_node
                  ∙ ap some (sym (ap (λ x. x.hardware_id) here.1)),
              omega (arith, port),
            )
        | inr old ↦ let (same, below) = v.known k r old.1 in (same, omega (arith, below))
      ]
