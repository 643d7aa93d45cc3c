-- ===== src/Traffic/Identifiers/Queue.antt =====
-- The queue of a source's quarantine: backend/app/traffic/controller.py.
use meshtastic_lab.Base.{
  ℕ, ◌<◌, ◌≡◌, ◌∙◌, refl, ap, inl, inr, Bool, true, false, not, ◌&&◌, ◌||◌, List, [], ◌∷◌, arith,
  leb, ◌==◌, ==_iff, Bool-cases,
}
use meshtastic_lab.Base.Dict
use meshtastic_lab.Base.Members
use meshtastic_lab.Models.Scenario.{numbers}
use meshtastic_lab.Traffic.Controller.{identities}
use meshtastic_lab.Traffic.Controller.Submission.{is_some}
use meshtastic_lab.Traffic.Identifiers.{purge, discard}

-- The id has an entry in the quarantine's queue.
unfoldable pub queued : ℕ → List (ℕ × ℕ) → Bool
queued i [] = false
queued i ((expiry, id) ∷ queue) = (id == i) || queued i queue

abbrev pub used : ℕ → List (ℕ × ℕ) → Bool
used i ids = is_some (Dict.get numbers i ids)

-- Every id has one entry.
abbrev pub Once : List (ℕ × ℕ) → Type 0
Once [] = Unit
Once ((expiry, id) ∷ queue) = (queued id queue ≡ false) × Once queue

abbrev pub UsedOnce : List (ℕ × ℕ) → Type 0
UsedOnce [] = Unit
UsedOnce ((id, allocated_at) ∷ ids) = (used id ids ≡ false) × UsedOnce ids

-- The set is that of the queue's ids.
abbrev pub Matches : List (ℕ × ℕ) → List ℕ → Type 0
Matches queue set = (i : ℕ) → Members.member numbers i set ≡ queued i queue

member-discard :
    (i n : ℕ) (xs : List ℕ)
    → Members.member numbers i (discard n xs) ≡ Members.member numbers i xs && not (i == n)
unfolding discard Members.member
member-discard i n [] = refl
member-discard i n (x ∷ xs) = ground (arith, member-discard i n xs)

pub purge-Once :
    (now : ℕ) (queue : List (ℕ × ℕ)) (set : List ℕ) → Once queue → Once (purge now queue set).0
unfolding purge
purge-Once now [] set o = tt
purge-Once now ((expiry, id) ∷ queue) set o = elim (Bool-cases (leb expiry now)) [
  | inl e ↦ rw (purge, e) (purge-Once now queue (discard id set) o.1)
  | inr e ↦ rw (purge, e) o
]

discard-Matches :
    (expiry id : ℕ) (queue : List (ℕ × ℕ)) (set : List ℕ)
    → queued id queue ≡ false
    → Matches ((expiry, id) ∷ queue) set
    → Matches queue (discard id set)
unfolding queued
discard-Matches expiry id queue set fresh same i = elim (Bool-cases (i == id)) [
  | inl e ↦
      let at_id : queued i queue ≡ false = ap (λ j. queued j queue) ((==_iff i id).0 e) ∙ fresh in
      ground (arith, member-discard i id set, at_id)
  | inr e ↦ ground (arith, member-discard i id set, same i)
]

pub purge-Matches :
    (now : ℕ) (queue : List (ℕ × ℕ)) (set : List ℕ)
    → Once queue
    → Matches queue set
    → Matches (purge now queue set).0 (purge now queue set).1
unfolding purge queued
purge-Matches now [] set o same i = same i
purge-Matches now ((expiry, id) ∷ queue) set o same i = elim (Bool-cases (leb expiry now)) [
  | inl e ↦
      rw (purge, e)
        (purge-Matches now queue (discard id set) o.1 (discard-Matches expiry id queue set o.0 same)
          i)
  | inr e ↦ rw (purge, e) (same i)
]

-- What is purged is not queued any more, and nothing else is new.
pub purge-queued :
    (now i : ℕ) (queue : List (ℕ × ℕ)) (set : List ℕ)
    → queued i queue ≡ false
    → queued i (purge now queue set).0 ≡ false
unfolding purge queued
purge-queued now i [] set h = h
purge-queued now i ((expiry, id) ∷ queue) set h = elim (Bool-cases (leb expiry now)) [
  | inl e ↦ rw (purge, e) (purge-queued now i queue (discard id set) (ground arith))
  | inr e ↦ rw (purge, e) h
]

pub purge-keeps :
    (now expiry i : ℕ) (queue : List (ℕ × ℕ)) (set : List ℕ)
    → now < expiry
    → Members.member identities (expiry, i) queue ≡ true
    → Members.member identities (expiry, i) (purge now queue set).0 ≡ true
unfolding purge Members.member
purge-keeps now expiry i [] set later h = cc
purge-keeps now expiry i ((first, id) ∷ queue) set later h = elim (Bool-cases (leb first now)) [
  | inl e ↦ rw (purge, e) (purge-keeps now expiry i queue (discard id set) later (ground arith))
  | inr e ↦ rw (purge, e) h
]

pub member-queued :
    (expiry i : ℕ) (queue : List (ℕ × ℕ))
    → Members.member identities (expiry, i) queue ≡ true
    → queued i queue ≡ true
unfolding Members.member queued
member-queued expiry i [] h = cc
member-queued expiry i ((first, id) ∷ queue) h = ground (arith, member-queued expiry i queue)

pub member-used :
    (i t : ℕ) (ids : List (ℕ × ℕ)) → Members.member identities (i, t) ids ≡ true → used i ids ≡ true
unfolding Members.member Dict.get
member-used i t [] h = cc
member-used i t ((id, s) ∷ ids) h = ground (arith, member-used i t ids)
