-- ===== src/Runtime/Processes/Search.antt =====
-- The search for hardware ids ends: `_hardware_ids_for` of backend/app/runtime/processes.py.
use meshtastic_lab.Base.{
  ℕ, zero, suc, ◌+◌, ◌≤◌, ◌<◌, ◌≡◌, refl, ap, inl, inr, true, false, ◌||◌, String, List, [], ◌∷◌,
  some, arith, ◌==◌, Bool-cases, Option-cases, ◌∙◌, length, if◌then◌else◌, is_some,
}
use meshtastic_lab.Base.Dict
use meshtastic_lab.Base.Members.{member}
use meshtastic_lab.Models.Scenario.{texts, numbers}
use meshtastic_lab.Runtime.Processes.{
  is_free, find_hardware_id, allocate_ids, hardware_ids_for, sorted_texts, insert_text,
}

-- The ids without one of them.
unfoldable without : ℕ → List ℕ → List ℕ
without x [] = []
without x (y ∷ ys) = let rest = without x ys in if y == x then rest else y ∷ rest

length-without-le : (x : ℕ) (ys : List ℕ) → length (without x ys) ≤ length ys
unfolding without
length-without-le x [] = omega arith
length-without-le x (y ∷ ys) = ground (arith, length-without-le x ys)

length-without :
    (x : ℕ) (ys : List ℕ) → member numbers x ys ≡ true → length (without x ys) < length ys
unfolding without member
length-without x [] e = cc
length-without x (y ∷ ys) e = ground (arith, length-without-le x ys, length-without x ys)

member-without :
    (x z : ℕ) (ys : List ℕ)
    → (z == x) ≡ false
    → member numbers z ys ≡ true
    → member numbers z (without x ys) ≡ true
unfolding without member
member-without x z [] apart e = cc
member-without x z (y ∷ ys) apart e = ground (arith, member-without x z ys apart)

module _ (digest : String → ℕ → ℕ) (tries limit : ℕ) (node : String) (used : List ℕ)
    (apart : (j k : ℕ) → j < limit → k < limit → digest node j ≡ digest node k → j ≡ k) where
  find_hardware_id-finds :
      (left salt : ℕ) (bad : List ℕ)
      → length bad < left
      → left + salt ≤ limit
      → ((k : ℕ)
          → salt ≤ k
          → k < limit
          → is_free used (digest node k) ≡ false
          → member numbers (digest node k) bad ≡ true)
      → is_some (find_hardware_id digest left salt node used) ≡ true
  unfolding find_hardware_id
  find_hardware_id-finds zero salt bad short within hits = absurd (omega arith)
  find_hardware_id-finds (suc left) salt bad short within hits =
      elim (Bool-cases (is_free used (digest node salt))) [
        | inl free ↦ simp (find_hardware_id, free)
        | inr taken ↦
            let hit = hits salt (omega arith) (omega arith) taken in
            let shorter = length-without (digest node salt) bad hit in
            let rest =
              find_hardware_id-finds left (salt + 1) (without (digest node salt) bad)
                (omega (arith, shorter, short)) (omega (arith, within))
                (λ k above below failed.
                  member-without (digest node salt) (digest node k) bad
                    (ground (arith, above, within, apart k salt below))
                    (hits k (omega (arith, above)) below failed)) in
            simp (find_hardware_id, taken, rest)
      ]

  find_hardware_id-Finds :
      length used + 2 < tries
      → tries ≤ limit
      → is_some (find_hardware_id digest tries 0 node used) ≡ true
  unfolding member
  find_hardware_id-Finds enough within =
      find_hardware_id-finds tries 0 (0 ∷ 0xFFFFFFFF ∷ used) (omega arith) (omega arith)
        (λ k above below failed. ground arith)

-- The ids that are given so far, and those of the nodes that wait.
abbrev Covers : List String → List (String × ℕ) → List (String × ℕ) → Type 0
Covers nodes ids given =
    (j : String)
    → (member texts j nodes || is_some (Dict.get texts j ids)) ≡ true
    → is_some (Dict.get texts j given) ≡ true

insert_text-member :
    (j x : String) (xs : List String)
    → member texts j (insert_text x xs) ≡ (texts.same j x || member texts j xs)
unfolding insert_text member
insert_text-member j x [] = refl
insert_text-member j x (y ∷ ys) = ground (arith, insert_text-member j x ys)

length-insert_text : (x : String) (xs : List String) → length (insert_text x xs) ≡ suc (length xs)
unfolding insert_text
length-insert_text x [] = refl
length-insert_text x (y ∷ ys) = ground (arith, length-insert_text x ys)

sorted_texts-member :
    (j : String) (xs : List String) → member texts j (sorted_texts xs) ≡ member texts j xs
unfolding sorted_texts member
sorted_texts-member j [] = refl
sorted_texts-member j (x ∷ xs) =
    insert_text-member j x (sorted_texts xs)
    ∙ ap (λ b. texts.same j x || b) (sorted_texts-member j xs)

length-sorted_texts : (xs : List String) → length (sorted_texts xs) ≡ length xs
unfolding sorted_texts
length-sorted_texts [] = refl
length-sorted_texts (x ∷ xs) =
    omega (arith, length-insert_text x (sorted_texts xs), length-sorted_texts xs)

module _ (digest : String → ℕ → ℕ) (tries : ℕ)
    (apart : (node : String) (j k : ℕ)
      → j < tries
      → k < tries
      → digest node j ≡ digest node k
      → j ≡ k) where
  allocate_ids-Covers :
      (nodes : List String) (ids : List (String × ℕ)) (used : List ℕ)
      → length used + length nodes + 2 ≤ tries
      → (given : List (String × ℕ)) × (allocate_ids digest tries nodes ids used ≡ some given)
        × Covers nodes ids given
  unfolding allocate_ids member
  allocate_ids-Covers [] ids used enough = (ids, refl, λ j e. e)
  allocate_ids-Covers (node ∷ nodes) ids used enough =
      elim (Option-cases (find_hardware_id digest tries 0 node used)) [
        | inl lost ↦ absurd (
            ground (
              arith,
              find_hardware_id-Finds digest tries tries node used (apart node)
                  (omega (arith, enough)) (omega arith),
              ap is_some lost,
            ))
        | inr (id, found) ↦
            let (given, goes, covers) =
              allocate_ids-Covers nodes (Dict.put texts node id ids) (id ∷ used)
                (omega (arith, enough)) in
            (
              given,
              simp (allocate_ids, found, goes),
              λ j e. covers j (
                  ground (
                    arith,
                    texts.same_iff j node,
                    texts.same_iff node j,
                    Dict.get-put texts node j id ids,
                  )),
            )
      ]

  pub hardware_ids_for-Finds :
      (nodes : List String)
      → length nodes + 2 ≤ tries
      → (ids : List (String × ℕ)) × (hardware_ids_for digest tries nodes ≡ some ids)
        × ((j : String) → member texts j nodes ≡ true → is_some (Dict.get texts j ids) ≡ true)
  hardware_ids_for-Finds nodes enough =
      let (ids, found, covers) =
        allocate_ids-Covers (sorted_texts nodes) [] []
          (omega (arith, length-sorted_texts nodes, enough)) in
      (ids, found, λ j e. covers j (ground (arith, sorted_texts-member j nodes, e)))
