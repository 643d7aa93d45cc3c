-- ===== src/Traffic/Identifiers/Reuse.antt =====
-- When a source gets a packet id again: backend/app/traffic/controller.py.
use meshtastic_lab.Base.{
  ℕ, ◌+◌, ◌≤◌, ◌≡◌, ◌∙◌, refl, sym, ap, subst, inl, inr, true, false, List, [], ◌∷◌, Option, none,
  some, arith, ltb, All, Bool-cases, Option-cases, length,
}
use meshtastic_lab.Base.Dict
use meshtastic_lab.Base.Members
use meshtastic_lab.Models.Scenario.{numbers}
use meshtastic_lab.Traffic.Identifiers.{
  SourceIds, no_ids, purge_quarantine, is_taken, draw_id, allocate_packet_id, retained,
  quarantine_ids, clear_ids, packet_id_quarantine, max_quarantined_packet_ids_per_source,
}
use meshtastic_lab.Traffic.Identifiers.Queue.{queued, used, member-queued, member-used}
use meshtastic_lab.Traffic.Identifiers.Invariant.{
  IsQuarantine, Covered, purge_quarantine-IsQuarantine, purge_quarantine-Covered, draw_id-free,
  put-here, put-keeps, allocated-IsQuarantine,
}
use meshtastic_lab.Traffic.Identifiers.Retire.{
  quarantined_with-IsQuarantine, quarantined_with-Covered,
}

-- What happens to a source's ids: a message gets one, or a run that begins retires those of the run
-- before.
pub data IdStep : Type 0 where
  allocates : List ℕ → IdStep
  retires : IdStep

-- The ids of a source, and all its allocations, the latest first.
abbrev pub Ids : Type 0
Ids = SourceIds × List (ℕ × ℕ)

-- `none` is a draw that goes on, or the error of a full quarantine.
unfoldable pub id_step : ℕ → IdStep → Ids → Option Ids
id_step now (allocates draws) (s, given) = elim (allocate_packet_id now draws s) [
  | none ↦ none
  | some r ↦ some (r.1, (r.0, now) ∷ given)
]
id_step now retires (s, given) = elim (quarantine_ids now s) [
  | none ↦ none
  | some s' ↦ some (clear_ids s', given)
]

-- Every step comes some time after the one before.
unfoldable pub id_steps : ℕ → List (ℕ × IdStep) → Ids → Option Ids
id_steps now [] r = some r
id_steps now ((elapsed, step) ∷ steps) r = elim (id_step (now + elapsed) step r) [
  | none ↦ none
  | some r' ↦ id_steps (now + elapsed) steps r'
]

-- An allocation of the same id is at least the quarantine older.
abbrev pub IsApart : ℕ × ℕ → ℕ × ℕ → Type 0
IsApart later earlier = earlier.0 ≡ later.0 → earlier.1 + packet_id_quarantine ≤ later.1

abbrev pub AreApart : List (ℕ × ℕ) → Type 0
AreApart [] = Unit
AreApart (later ∷ given) = All (IsApart later) given × AreApart given

abbrev pub ApartIfReturned : Option Ids → Type 0
ApartIfReturned none = Unit
ApartIfReturned (some r) = AreApart r.1

record IsHistory (now : ℕ) (s : SourceIds) (given : List (ℕ × ℕ)) : Type 0 where
  quarantine : IsQuarantine s
  covered : All (Covered now s) given
  apart : AreApart given

-- A free id was not given within the quarantine.
free-IsApart :
    (now id : ℕ) (s : SourceIds) (given : List (ℕ × ℕ))
    → is_taken s id ≡ false
    → IsQuarantine s
    → All (Covered now s) given
    → All (IsApart (id, now)) given
free-IsApart now id s [] free v a = tt
free-IsApart now id s ((j, t) ∷ given) free v a = (
  λ same. elim (Bool-cases (ltb now (t + packet_id_quarantine))) [
    | inr old ↦ ground arith
    | inl young ↦ absurd (elim (a.0 (ground arith)) [
      | inl h ↦
          let in_use : used id s.in_use ≡ true =
            ap (λ i. used i s.in_use) (sym same) ∙ member-used j t s.in_use h in
          ground arith
      | inr h ↦
          let is_queued : queued id s.quarantine ≡ true =
            ap (λ i. queued i s.quarantine) (sym same)
            ∙ member-queued (t + packet_id_quarantine) j s.quarantine h in
          ground (arith, v.matches id)
    ])
  ],
  free-IsApart now id s given free v a.1,
)

put-Covered :
    (now id : ℕ) (s : SourceIds) (given : List (ℕ × ℕ))
    → used id s.in_use ≡ false
    → All (Covered now s) given
    → All (Covered now (record s { in_use = Dict.put numbers id now s.in_use })) given
put-Covered now id s [] free a = tt
put-Covered now id s ((j, t) ∷ given) free a = (
  λ young. elim (a.0 young) [ inl h ↦ inl (put-keeps id now j t s.in_use free h) | inr h ↦ inr h ],
  put-Covered now id s given free a.1,
)

-- A step keeps the history, where it returns.
abbrev Continues : ℕ → Option Ids → Type 0
Continues now none = Unit
Continues now (some r) = IsHistory now r.0 r.1

allocates-Continues :
    (now : ℕ) (draws : List ℕ) (s : SourceIds) (given : List (ℕ × ℕ))
    → IsHistory now (purge_quarantine now s) given
    → Continues now (id_step now (allocates draws) (s, given))
unfolding id_step allocate_packet_id
allocates-Continues now draws s given v =
    let purged = purge_quarantine now s in
    elim (Option-cases (draw_id purged draws)) [
      | inl e ↦ rw (id_step, allocate_packet_id, e) tt
      | inr (id, e) ↦
          let free = draw_id-free purged draws id e in
          rw (id_step, allocate_packet_id, e)
            (record {
              quarantine = allocated-IsQuarantine now id purged free v.quarantine;
              covered = (
                λ young. inl (put-here id now purged.in_use),
                put-Covered now id purged given (ground arith) v.covered,
              );
              apart = (free-IsApart now id purged given free v.quarantine v.covered, v.apart);
            })
    ]

retires-Continues :
    (now : ℕ) (s : SourceIds) (given : List (ℕ × ℕ))
    → IsHistory now (purge_quarantine now s) given
    → Continues now (id_step now retires (s, given))
unfolding id_step quarantine_ids
retires-Continues now s given v =
    let purged = purge_quarantine now s in
    elim (Bool-cases (
      ltb max_quarantined_packet_ids_per_source
        (length purged.quarantine + length (retained now s.in_use)))) [
          | inl e ↦ rw (id_step, quarantine_ids, e) tt
          | inr e ↦
              rw (id_step, quarantine_ids, e)
                (record {
                  quarantine = quarantined_with-IsQuarantine now purged v.quarantine;
                  covered = quarantined_with-Covered now purged given v.covered;
                  apart = v.apart;
                })
        ]

step-Continues :
    (earlier now : ℕ) (step : IdStep) (s : SourceIds) (given : List (ℕ × ℕ))
    → earlier ≤ now
    → IsHistory earlier s given
    → Continues now (id_step now step (s, given))
step-Continues earlier now step s given le v =
    let purged : IsHistory now (purge_quarantine now s) given = record {
      quarantine = purge_quarantine-IsQuarantine now s v.quarantine;
      covered = purge_quarantine-Covered earlier now s given le v.covered;
      apart = v.apart;
    } in
    elim step as (λ k. Continues now (id_step now k (s, given))) [
      | allocates draws ↦ allocates-Continues now draws s given purged
      | retires ↦ retires-Continues now s given purged
    ]

steps-Continue :
    (now : ℕ) (steps : List (ℕ × IdStep)) (s : SourceIds) (given : List (ℕ × ℕ))
    → IsHistory now s given
    → ApartIfReturned (id_steps now steps (s, given))
unfolding id_steps
steps-Continue now [] s given v = v.apart
steps-Continue now ((elapsed, step) ∷ steps) s given v =
    let kept = step-Continues now (now + elapsed) step s given (omega arith) v in
    elim (Option-cases (id_step (now + elapsed) step (s, given))) [
      | inl e ↦ rw (id_steps, e) tt
      | inr (r, e) ↦
          rw (id_steps, e)
            (steps-Continue (now + elapsed) steps r.0 r.1
              (subst (Continues (now + elapsed)) e kept))
    ]

-- A source that starts with no ids never gets the same packet id twice within the quarantine of
-- five minutes, through all allocations and all retirements at the beginnings of runs in which no
-- retirement raises the error of a full quarantine.
pub id_steps-ApartIfReturned :
    (now : ℕ) (steps : List (ℕ × IdStep)) → ApartIfReturned (id_steps now steps (no_ids, []))
unfolding queued Members.member
id_steps-ApartIfReturned now steps = steps-Continue now steps no_ids [] (record {
  quarantine = record { once = tt; matches = λ i. refl; used_once = tt; apart = tt };
  covered = tt;
  apart = tt;
})
