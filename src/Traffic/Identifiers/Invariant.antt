-- ===== src/Traffic/Identifiers/Invariant.antt =====
-- What holds of a source's packet ids: backend/app/traffic/controller.py.
use meshtastic_lab.Base.{
  ℕ, ◌+◌, ◌≤◌, ◌<◌, ◌≡◌, ◌∙◌, refl, sym, inl, inr, ◌⊎◌, true, false, List, [], ◌∷◌, some, arith,
  ◌==◌, All, Bool-cases,
}
use meshtastic_lab.Base.Dict
use meshtastic_lab.Base.Members
use meshtastic_lab.Models.Scenario.{numbers}
use meshtastic_lab.Traffic.Controller.{identities}
use meshtastic_lab.Traffic.Identifiers.{
  SourceIds, purge, purge_quarantine, is_taken, draw_id, packet_id_quarantine,
}
use meshtastic_lab.Traffic.Identifiers.Queue.{
  queued, used, Once, UsedOnce, Matches, purge-Once, purge-Matches, purge-queued, purge-keeps,
}

-- No id is in use twice, none is queued twice, none is both, and the set is that of the queue.
pub record IsQuarantine (s : SourceIds) : Type 0 where
  pub once : Once s.quarantine
  pub matches : Matches s.quarantine s.quarantined
  pub used_once : UsedOnce s.in_use
  pub apart : All (λ u. queued u.0 s.quarantine ≡ false) s.in_use

-- An allocation that is younger than the quarantine is in use or queued.
abbrev pub Covered : ℕ → SourceIds → ℕ × ℕ → Type 0
Covered now s (id, allocated_at) =
    now < allocated_at + packet_id_quarantine
    → (Members.member identities (id, allocated_at) s.in_use ≡ true)
      ⊎ (Members.member identities (allocated_at + packet_id_quarantine, id) s.quarantine ≡ true)

All-purged :
    (now : ℕ) (queue : List (ℕ × ℕ)) (set : List ℕ) (ids : List (ℕ × ℕ))
    → All (λ u. queued u.0 queue ≡ false) ids
    → All (λ u. queued u.0 (purge now queue set).0 ≡ false) ids
All-purged now queue set [] a = tt
All-purged now queue set ((id, t) ∷ ids) a =
    (purge-queued now id queue set a.0, All-purged now queue set ids a.1)

pub purge_quarantine-IsQuarantine :
    (now : ℕ) (s : SourceIds) → IsQuarantine s → IsQuarantine (purge_quarantine now s)
purge_quarantine-IsQuarantine now s v = record {
  once = purge-Once now s.quarantine s.quarantined v.once;
  matches = purge-Matches now s.quarantine s.quarantined v.once v.matches;
  used_once = v.used_once;
  apart = All-purged now s.quarantine s.quarantined s.in_use v.apart;
}

-- Time passes, and the quarantine is purged.
pub purge_quarantine-Covered :
    (earlier now : ℕ) (s : SourceIds) (given : List (ℕ × ℕ))
    → earlier ≤ now
    → All (Covered earlier s) given
    → All (Covered now (purge_quarantine now s)) given
purge_quarantine-Covered earlier now s [] le a = tt
purge_quarantine-Covered earlier now s ((id, t) ∷ given) le a = (
  λ young. elim (a.0 (omega (arith, young))) [
    | inl h ↦ inl h
    | inr h ↦ inr (purge-keeps now (t + packet_id_quarantine) id s.quarantine s.quarantined young h)
  ],
  purge_quarantine-Covered earlier now s given le a.1,
)

pub draw_id-free :
    (s : SourceIds) (draws : List ℕ) (id : ℕ) → draw_id s draws ≡ some id → is_taken s id ≡ false
unfolding draw_id
draw_id-free s [] id e = cc
draw_id-free s (d ∷ draws) id e = ground (arith, draw_id-free s draws id)

put-used :
    (id t j : ℕ) (ids : List (ℕ × ℕ))
    → (j == id) ≡ false
    → used j ids ≡ false
    → used j (Dict.put numbers id t ids) ≡ false
unfolding Dict.put Dict.get
put-used id t j [] other h = ground arith
put-used id t j ((k, s) ∷ ids) other h = ground (arith, put-used id t j ids)

put-UsedOnce :
    (id t : ℕ) (ids : List (ℕ × ℕ))
    → used id ids ≡ false
    → UsedOnce ids
    → UsedOnce (Dict.put numbers id t ids)
unfolding Dict.put Dict.get
put-UsedOnce id t [] h o = (refl, tt)
put-UsedOnce id t ((j, s) ∷ ids) h o = elim (Bool-cases (j == id)) [
  | inl e ↦ rw (Dict.put, e) o
  | inr e ↦ rw (Dict.put, e) (put-used id t j ids e o.0, put-UsedOnce id t ids (ground arith) o.1)
]

put-All :
    (queue : List (ℕ × ℕ)) (id t : ℕ) (ids : List (ℕ × ℕ))
    → queued id queue ≡ false
    → All (λ u. queued u.0 queue ≡ false) ids
    → All (λ u. queued u.0 queue ≡ false) (Dict.put numbers id t ids)
unfolding Dict.put
put-All queue id t [] h a = (h, tt)
put-All queue id t ((j, s) ∷ ids) h a = elim (Bool-cases (j == id)) [
  | inl e ↦ rw (Dict.put, e) a
  | inr e ↦ rw (Dict.put, e) (a.0, put-All queue id t ids h a.1)
]

pub put-here :
    (id t : ℕ) (ids : List (ℕ × ℕ))
    → Members.member identities (id, t) (Dict.put numbers id t ids) ≡ true
unfolding Dict.put Members.member
put-here id t [] = ground arith
put-here id t ((j, s) ∷ ids) = ground (arith, put-here id t ids)

pub put-keeps :
    (id t i u : ℕ) (ids : List (ℕ × ℕ))
    → used id ids ≡ false
    → Members.member identities (i, u) ids ≡ true
    → Members.member identities (i, u) (Dict.put numbers id t ids) ≡ true
unfolding Dict.put Members.member Dict.get
put-keeps id t i u [] free h = cc
put-keeps id t i u ((j, s) ∷ ids) free h = ground (arith, put-keeps id t i u ids)

-- Past every id that a source gets, the quarantine is as it was before.
pub allocated-IsQuarantine :
    (now id : ℕ) (s : SourceIds)
    → is_taken s id ≡ false
    → IsQuarantine s
    → IsQuarantine (record s { in_use = Dict.put numbers id now s.in_use })
allocated-IsQuarantine now id s free v =
    let not_used : used id s.in_use ≡ false = ground arith in
    let not_queued : queued id s.quarantine ≡ false = sym (v.matches id) ∙ (ground arith) in
    record {
      once = v.once;
      matches = v.matches;
      used_once = put-UsedOnce id now s.in_use not_used v.used_once;
      apart = put-All s.quarantine id now s.in_use not_queued v.apart;
    }
