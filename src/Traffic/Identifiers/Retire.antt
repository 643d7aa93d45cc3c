-- ===== src/Traffic/Identifiers/Retire.antt =====
-- The ids that a source keeps out of use: `_retire_packet_ids` of
-- backend/app/traffic/controller.py.
use meshtastic_lab.Base.{
  ℕ, ◌+◌, ◌<◌, ◌≡◌, ◌∙◌, refl, sym, ap, inl, inr, true, false, ◌||◌, List, [], ◌∷◌, ◌++◌, arith,
  ltb, ◌==◌, ==_iff, All, Bool-cases, map,
}
use meshtastic_lab.Base.Dict
use meshtastic_lab.Base.Members
use meshtastic_lab.Models.Scenario.{numbers}
use meshtastic_lab.Traffic.Controller.{identities}
use meshtastic_lab.Traffic.Identifiers.{SourceIds, retained, packet_id_quarantine, id_of}
use meshtastic_lab.Traffic.Identifiers.Queue.{queued, used, Once, UsedOnce}
use meshtastic_lab.Traffic.Identifiers.Invariant.{IsQuarantine, Covered}

retained-used :
    (now i : ℕ) (ids : List (ℕ × ℕ)) → used i ids ≡ false → queued i (retained now ids) ≡ false
unfolding retained queued Dict.get
retained-used now i [] h = refl
retained-used now i ((id, t) ∷ ids) h = ground (arith, retained-used now i ids)

retained-Once : (now : ℕ) (ids : List (ℕ × ℕ)) → UsedOnce ids → Once (retained now ids)
unfolding retained
retained-Once now [] o = tt
retained-Once now ((id, t) ∷ ids) o = elim (Bool-cases (ltb now (t + packet_id_quarantine))) [
  | inl e ↦ rw (retained, e) (retained-used now id ids o.0, retained-Once now ids o.1)
  | inr e ↦ rw (retained, e) (retained-Once now ids o.1)
]

queued-append : (i : ℕ) (q r : List (ℕ × ℕ)) → queued i (q ++ r) ≡ (queued i q || queued i r)
unfolding queued
queued-append i [] r = refl
queued-append i ((e, id) ∷ q) r = ground (arith, queued-append i q r)

-- An id that is queued is not in use.
queued-unused :
    (i : ℕ) (queue ids : List (ℕ × ℕ))
    → All (λ u. queued u.0 queue ≡ false) ids
    → queued i queue ≡ true
    → used i ids ≡ false
unfolding Dict.get
queued-unused i queue [] a h = refl
queued-unused i queue ((id, t) ∷ ids) a h = elim (Bool-cases (id == i)) [
  | inl e ↦ absurd (
      let here : queued i queue ≡ false =
        ap (λ j. queued j queue) (sym ((==_iff id i).0 e)) ∙ a.0 in
      ground arith)
  | inr e ↦ ground (arith, queued-unused i queue ids a.1 h)
]

append-Once :
    (q r : List (ℕ × ℕ))
    → Once q
    → Once r
    → ((i : ℕ) → queued i q ≡ true → queued i r ≡ false)
    → Once (q ++ r)
unfolding queued
append-Once [] r o p apart = p
append-Once ((e, id) ∷ q) r o p apart = (
  queued-append id q r ∙ ground (arith, o.0, apart id),
  append-Once q r o.1 p (λ i h. apart i (ground arith)),
)

member-ids :
    (i : ℕ) (r : List (ℕ × ℕ)) (set : List ℕ)
    → Members.member numbers i (map id_of r ++ set) ≡ (queued i r || Members.member numbers i set)
unfolding Members.member queued
member-ids i [] set = refl
member-ids i ((e, id) ∷ r) set = ground (arith, member-ids i r set)

retained-member :
    (now i t : ℕ) (ids : List (ℕ × ℕ))
    → now < t + packet_id_quarantine
    → Members.member identities (i, t) ids ≡ true
    → Members.member identities (t + packet_id_quarantine, i) (retained now ids) ≡ true
unfolding retained Members.member
retained-member now i t [] young h = cc
retained-member now i t ((id, s) ∷ ids) young h = ground (arith, retained-member now i t ids young)

-- A source's ids after a retirement that raises no error.
abbrev pub quarantined_with : ℕ → SourceIds → SourceIds
quarantined_with now s = record s {
  in_use = [];
  quarantine = s.quarantine ++ retained now s.in_use;
  quarantined = map id_of (retained now s.in_use) ++ s.quarantined;
}

pub quarantined_with-IsQuarantine :
    (now : ℕ) (s : SourceIds) → IsQuarantine s → IsQuarantine (quarantined_with now s)
quarantined_with-IsQuarantine now s v = record {
  once =
      append-Once s.quarantine (retained now s.in_use) v.once
        (retained-Once now s.in_use v.used_once)
        (λ i h. retained-used now i s.in_use (queued-unused i s.quarantine s.in_use v.apart h));
  matches = λ i.
      member-ids i (retained now s.in_use) s.quarantined
      ∙ ground (arith, v.matches i, queued-append i s.quarantine (retained now s.in_use));
  used_once = tt;
  apart = tt;
}

pub quarantined_with-Covered :
    (now : ℕ) (s : SourceIds) (given : List (ℕ × ℕ))
    → All (Covered now s) given
    → All (Covered now (quarantined_with now s)) given
quarantined_with-Covered now s [] a = tt
quarantined_with-Covered now s ((id, t) ∷ given) a = (
  λ young. inr (elim (a.0 young) [
    | inl h ↦ ground (
      arith,
      Members.member-append identities (t + packet_id_quarantine, id) s.quarantine
          (retained now s.in_use),
      retained-member now id t s.in_use young h,
    )
    | inr h ↦ ground (
      arith,
      Members.member-append identities (t + packet_id_quarantine, id) s.quarantine
          (retained now s.in_use),
    )
  ]),
  quarantined_with-Covered now s given a.1,
)
