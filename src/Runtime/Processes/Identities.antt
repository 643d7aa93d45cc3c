-- ===== src/Runtime/Processes/Identities.antt =====
-- The hardware ids that `_hardware_ids_for` of backend/app/runtime/processes.py gives to nodes.
use meshtastic_lab.Base.{
  ℕ, zero, suc, ◌+◌, ◌≡◌, sym, ap, subst, inl, inr, true, false, ◌||◌, String, List, [], ◌∷◌, none,
  some, arith, ◌==◌, Bool-cases, Option-cases, ◌∙◌,
}
use meshtastic_lab.Base.Dict
use meshtastic_lab.Base.Members.{member}
use meshtastic_lab.Models.Scenario.{texts, numbers}
use meshtastic_lab.Runtime.Processes.{
  is_free, find_hardware_id, allocate_ids, hardware_ids_for, sorted_texts,
}

-- Ids that are not reserved, one for each node, and all of them used.
pub record AreIdentities (ids : List (String × ℕ)) : Type 0 where
  pub valid :
      (j : String) (h : ℕ) → Dict.get texts j ids ≡ some h → (h == 0 || h == 0xFFFFFFFF) ≡ false
  pub apart :
      (j k : String) (h : ℕ) → Dict.get texts j ids ≡ some h → Dict.get texts k ids ≡ some h → j ≡ k

abbrev AllUsed : List (String × ℕ) → List ℕ → Type 0
AllUsed ids used =
    (j : String) (h : ℕ) → Dict.get texts j ids ≡ some h → member numbers h used ≡ true

find_hardware_id-free :
    (digest : String → ℕ → ℕ) (left salt : ℕ) (node : String) (used : List ℕ) (id : ℕ)
    → find_hardware_id digest left salt node used ≡ some id
    → is_free used id ≡ true
unfolding find_hardware_id
find_hardware_id-free digest zero salt node used id e = cc
find_hardware_id-free digest (suc left) salt node used id e =
    elim (Bool-cases (is_free used (digest node salt))) [
      | inl free ↦
          let same : digest node salt ≡ id = ground arith in
          subst (λ x. is_free used x ≡ true) same free
      | inr taken ↦ find_hardware_id-free digest left (salt + 1) node used id (rw taken at e)
    ]

module _ (node : String) (id : ℕ) (ids : List (String × ℕ)) (used : List ℕ)
    (free : is_free used id ≡ true) where
  put-AllUsed : AllUsed ids used → AllUsed (Dict.put texts node id ids) (id ∷ used)
  unfolding member
  put-AllUsed v j h e = elim (Dict.get-put_cases texts node j id h ids e) [
    | inl here ↦ rw (here.1) (ground arith)
    | inr old ↦ ground (arith, v j h old.1)
  ]

  put-AreIdentities :
      AllUsed ids used → AreIdentities ids → AreIdentities (Dict.put texts node id ids)
  put-AreIdentities v w = record {
    valid = λ j h e. elim (Dict.get-put_cases texts node j id h ids e) [
      | inl here ↦ rw (here.1) (ground arith)
      | inr old ↦ w.valid j h old.1
    ];
    apart = λ j k h e f. elim (Dict.get-put_cases texts node j id h ids e) [
      | inl here ↦ elim (Dict.get-put_cases texts node k id h ids f) [
        | inl there ↦ sym here.0 ∙ there.0
        | inr old ↦ absurd (taken k h here.1 old.1)
      ]
      | inr old ↦ elim (Dict.get-put_cases texts node k id h ids f) [
        | inl there ↦ absurd (taken j h there.1 old.1)
        | inr older ↦ w.apart j k h old.1 older.1
      ]
    ];
  }
    where
      taken : (k : String) (h : ℕ) → h ≡ id → Dict.get texts k ids ≡ some h → ⊥
      taken k h same old = ground (arith, v k h old, ap (λ x. member numbers x used) same)

allocate_ids-AreIdentities :
    (digest : String → ℕ → ℕ) (tries : ℕ) (nodes : List String) (ids given : List (String × ℕ))
    (used : List ℕ)
    → allocate_ids digest tries nodes ids used ≡ some given
    → AllUsed ids used
    → AreIdentities ids
    → AreIdentities given
unfolding allocate_ids
allocate_ids-AreIdentities digest tries [] ids given used e v w =
    subst AreIdentities (ground arith) w
allocate_ids-AreIdentities digest tries (node ∷ nodes) ids given used e v w =
    elim (Option-cases (find_hardware_id digest tries 0 node used)) [
      | inl lost ↦
          let stuck : allocate_ids digest tries (node ∷ nodes) ids used ≡ none =
            simp (allocate_ids, lost) in
          absurd (ground arith)
      | inr (id, found) ↦
          let free = find_hardware_id-free digest tries 0 node used id found in
          let goes : allocate_ids digest tries (node ∷ nodes) ids used
              ≡ allocate_ids digest tries nodes (Dict.put texts node id ids) (id ∷ used) =
            simp (allocate_ids, found) in
          allocate_ids-AreIdentities digest tries nodes (Dict.put texts node id ids) given
            (id ∷ used) (sym goes ∙ e) (put-AllUsed node id ids used free v)
            (put-AreIdentities node id ids used free v w)
    ]

pub hardware_ids_for-AreIdentities :
    (digest : String → ℕ → ℕ) (tries : ℕ) (nodes : List String) (ids : List (String × ℕ))
    → hardware_ids_for digest tries nodes ≡ some ids
    → AreIdentities ids
unfolding Dict.get
hardware_ids_for-AreIdentities digest tries nodes ids e =
    allocate_ids-AreIdentities digest tries (sorted_texts nodes) [] ids [] e (λ j h f. cc)
      (record { valid = λ j h f. cc; apart = λ j k h f g. cc })
