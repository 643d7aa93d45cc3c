-- ===== src/Traffic/Timetable/Plan.antt =====
-- The turns of the loop in `_run` of backend/app/traffic/controller.py, in their order.
use meshtastic_lab.Base.{
  ℕ, zero, suc, ◌+◌, ◌-◌, ◌≤◌, ◌<◌, ◌≡◌, ◌⊎◌, refl, sym, subst, inl, inr, Bool, true, false, String,
  List, [], ◌∷◌, Option, none, some, arith, ◌==◌, if◌then◌else◌, ==_iff, Bool-cases, Option-cases,
}
use meshtastic_lab.Base.Dict
use meshtastic_lab.Base.Dict.{HasUniqueKeys}
use meshtastic_lab.Traffic.Model.{TrafficFlow}
use meshtastic_lab.Traffic.Timetable.{
  SlotKey, slot_keys, quota, precedes, earliest, advance, Looped, ended, raised, schedule_loop,
}

abbrev pub Slots : Type 0
Slots = List (SlotKey × ℕ)

-- `n` numbers from `t` on.
pub count_up : ℕ → ℕ → List ℕ
count_up t zero = []
count_up t (suc n) = t ∷ count_up (t + 1) n

-- The ticks of a key among turns.
unfoldable pub ticks_of : SlotKey → Slots → List ℕ
ticks_of k [] = []
ticks_of k ((j, t) ∷ turns) =
    let rest = ticks_of k turns in if slot_keys.same j k then t ∷ rest else rest

-- The turns one after another, up to the first exception.
unfoldable pub take_turns : {S : Type 0} → (SlotKey → ℕ → S → Option S) → Slots → S → Looped S
take_turns turn [] s = ended s
take_turns turn ((k, tick) ∷ turns) s = elim (turn k tick s) [
  | none ↦ raised
  | some later ↦ take_turns turn turns later
]

module _ (duration : ℕ) (phases : ℕ → String → ℕ) (flows : List TrafficFlow) where
  abbrev pub limit : SlotKey → ℕ
  limit k = quota duration phases flows k

  abbrev pub first : SlotKey × ℕ → Slots → SlotKey × ℕ
  first slot slots = earliest duration phases flows slot slots

  abbrev pub later : SlotKey → ℕ → Slots → Slots
  later k tick slots = advance duration phases flows k tick slots

  -- Every tick is below its key's number of messages.
  abbrev pub IsWithin : Slots → Type 0
  IsWithin [] = Unit
  IsWithin ((k, t) ∷ slots) = (t < limit k) × IsWithin slots

  pub record IsTable (slots : Slots) : Type 0 where
    pub unique_keys : HasUniqueKeys slot_keys slots
    pub within : IsWithin slots

  -- The messages that are still to be sent.
  unfoldable pub remaining : Slots → ℕ
  remaining [] = 0
  remaining ((k, t) ∷ slots) = (limit k - t) + remaining slots

  -- The order in which the loop takes the keys, with their ticks.
  unfoldable pub plan : ℕ → Slots → Slots
  plan zero slots = []
  plan (suc fuel) [] = []
  plan (suc fuel) (slot ∷ slots) =
      let (k, t) = first slot slots in (k, t) ∷ plan fuel (later k t (slot ∷ slots))

  -- The ticks that a key still has to send.
  abbrev pub open_ticks : SlotKey → Option ℕ → List ℕ
  open_ticks k none = []
  open_ticks k (some t) = count_up t (limit k - t)

  get-IsWithin :
      (k : SlotKey) (t : ℕ) (slots : Slots)
      → Dict.get slot_keys k slots ≡ some t
      → IsWithin slots
      → t < limit k
  unfolding Dict.get
  get-IsWithin k t [] e w = cc
  get-IsWithin k t ((j, u) ∷ slots) e w =
      ground (arith, slot_keys.same_iff j k, get-IsWithin k t slots)

  put-IsWithin :
      (k : SlotKey) (t : ℕ) (slots : Slots)
      → t < limit k
      → IsWithin slots
      → IsWithin (Dict.put slot_keys k t slots)
  unfolding Dict.put
  put-IsWithin k t [] h w = (h, tt)
  put-IsWithin k t ((j, u) ∷ slots) h w =
      ground (arith, slot_keys.same_iff j k, put-IsWithin k t slots h w.1)

  delete-IsWithin :
      (k : SlotKey) (slots : Slots) → IsWithin slots → IsWithin (Dict.delete slot_keys k slots)
  unfolding Dict.delete
  delete-IsWithin k [] w = tt
  delete-IsWithin k ((j, u) ∷ slots) w = ground (arith, delete-IsWithin k slots w.1)

  remaining-put :
      (k : SlotKey) (t : ℕ) (slots : Slots)
      → Dict.get slot_keys k slots ≡ some t
      → t < limit k
      → remaining (Dict.put slot_keys k (t + 1) slots) + 1 ≡ remaining slots
  unfolding remaining Dict.put Dict.get
  remaining-put k t [] e h = cc
  remaining-put k t ((j, u) ∷ slots) e h =
      ground (arith, slot_keys.same_iff j k, remaining-put k t slots)

  remaining-delete :
      (k : SlotKey) (t : ℕ) (slots : Slots)
      → Dict.get slot_keys k slots ≡ some t
      → t + 1 ≡ limit k
      → remaining (Dict.delete slot_keys k slots) + 1 ≡ remaining slots
  unfolding remaining Dict.delete Dict.get
  remaining-delete k t [] e h = cc
  remaining-delete k t ((j, u) ∷ slots) e h =
      ground (arith, slot_keys.same_iff j k, remaining-delete k t slots)

  abbrev IsEntry : Slots → SlotKey × ℕ → Type 0
  IsEntry slots x = Dict.get slot_keys x.0 slots ≡ some x.1

  IsEntry-behind :
      (slot x : SlotKey × ℕ) (slots : Slots)
      → Dict.get slot_keys slot.0 slots ≡ none
      → IsEntry slots x
      → IsEntry (slot ∷ slots) x
  unfolding Dict.get
  IsEntry-behind (j, t) (k, v) slots fresh found = ground (arith, slot_keys.same_iff j k)

  IsEntry-first : (slot x : SlotKey × ℕ) (slots : Slots) → x ≡ slot → IsEntry (slot ∷ slots) x
  unfolding Dict.get
  IsEntry-first (j, t) (k, v) slots e = ground (arith, slot_keys.same_iff j k)

  -- What is chosen between an entry and the best so far.
  chosen :
      (b : Bool) (slot best x : SlotKey × ℕ) (slots : Slots)
      → Dict.get slot_keys slot.0 slots ≡ none
      → (x ≡ (if b then slot else best)) ⊎ IsEntry slots x
      → (x ≡ best) ⊎ IsEntry (slot ∷ slots) x
  chosen true slot best x slots fresh (inl same) = inr (IsEntry-first slot x slots same)
  chosen false slot best x slots fresh (inl same) = inl same
  chosen b slot best x slots fresh (inr found) = inr (IsEntry-behind slot x slots fresh found)

  earliest_cases :
      (best : SlotKey × ℕ) (slots : Slots)
      → HasUniqueKeys slot_keys slots
      → (first best slots ≡ best) ⊎ IsEntry slots (first best slots)
  unfolding earliest
  earliest_cases best [] u = inl refl
  earliest_cases best (slot ∷ slots) u =
      chosen (precedes duration phases flows slot best) slot best _ slots u.0
        (earliest_cases (if precedes duration phases flows slot best then slot else best) slots u.1)

  first-IsEntry :
      (slot : SlotKey × ℕ) (slots : Slots)
      → HasUniqueKeys slot_keys (slot ∷ slots)
      → IsEntry (slot ∷ slots) (first slot slots)
  first-IsEntry slot slots u = elim (earliest_cases slot slots u.1) [
    | inl same ↦ IsEntry-first slot _ slots same
    | inr found ↦ IsEntry-behind slot _ slots u.0 found
  ]

  advance-IsTable :
      (k : SlotKey) (t : ℕ) (slots : Slots)
      → IsEntry slots (k, t)
      → IsTable slots
      → IsTable (later k t slots)
  unfolding advance
  advance-IsTable k t slots e v =
      let below = get-IsWithin k t slots e v.within in
      elim (Bool-cases (t + 1 == limit k)) [
        | inl done ↦
            rw (advance, done)
              (record {
                unique_keys = Dict.delete-HasUniqueKeys slot_keys k slots v.unique_keys;
                within = delete-IsWithin k slots v.within;
              })
        | inr more ↦
            rw (advance, more)
              (record {
                unique_keys = Dict.put-HasUniqueKeys slot_keys k (t + 1) slots v.unique_keys;
                within = put-IsWithin k (t + 1) slots (ground arith) v.within;
              })
      ]

  remaining-advance :
      (k : SlotKey) (t : ℕ) (slots : Slots)
      → IsEntry slots (k, t)
      → IsTable slots
      → remaining (later k t slots) + 1 ≡ remaining slots
  unfolding advance
  remaining-advance k t slots e v =
      let below = get-IsWithin k t slots e v.within in
      elim (Bool-cases (t + 1 == limit k)) [
        | inl done ↦ rw (advance, done) (remaining-delete k t slots e (ground arith))
        | inr more ↦ rw (advance, more) (remaining-put k t slots e (ground arith))
      ]

  get-advance :
      (j k : SlotKey) (t : ℕ) (slots : Slots)
      → IsTable slots
      → Dict.get slot_keys j (later k t slots) ≡ (
          if slot_keys.same k j
          then if t + 1 == limit k then none else some (t + 1)
          else Dict.get slot_keys j slots)
  unfolding advance
  get-advance j k t slots v = elim (Bool-cases (t + 1 == limit k)) [
    | inr more ↦ rw (advance, more) (Dict.get-put slot_keys k j (t + 1) slots)
    | inl done ↦ elim (Bool-cases (slot_keys.same k j)) [
      | inl same ↦
          rw (advance, done, same, (slot_keys.same_iff k j).0 same)
            (Dict.get-delete_self slot_keys j slots v.unique_keys)
      | inr other ↦ rw (advance, done, other) (Dict.get-delete_other slot_keys k j slots other)
    ]
  ]

  remaining_pos :
      (slot : SlotKey × ℕ) (slots : Slots) → IsTable (slot ∷ slots) → 0 < remaining (slot ∷ slots)
  unfolding remaining
  remaining_pos (k, t) slots v = omega (arith, v.within.0)

  count_up_step : (t n : ℕ) → t < n → count_up t (n - t) ≡ t ∷ count_up (t + 1) (n - (t + 1))
  unfolding count_up
  count_up_step t n h = let e : n - t ≡ suc (n - (t + 1)) = omega arith in rw e

  count_up_last : (t n : ℕ) → t + 1 ≡ n → count_up t (n - t) ≡ t ∷ []
  unfolding count_up
  count_up_last t n h = let e : n - t ≡ 1 = omega arith in rw e

  -- The ticks that are open before a turn are that turn's and those that are open behind it.
  open_ticks-advance :
      (j k : SlotKey) (t : ℕ) (slots : Slots)
      → IsEntry slots (k, t)
      → IsTable slots
      → (if slot_keys.same k j
          then t ∷ open_ticks j (Dict.get slot_keys j (later k t slots))
          else open_ticks j (Dict.get slot_keys j (later k t slots)))
        ≡ open_ticks j (Dict.get slot_keys j slots)
  open_ticks-advance j k t slots e v =
      let below = get-IsWithin k t slots e v.within in
      elim (Bool-cases (slot_keys.same k j)) [
        | inr other ↦ simp (get-advance j k t slots v, other)
        | inl same ↦
            let kj = (slot_keys.same_iff k j).0 same in
            let at_j : t < limit j = subst (λ x. t < limit x) kj below in
            let here : Dict.get slot_keys j slots ≡ some t =
              subst (λ x. Dict.get slot_keys x slots ≡ some t) kj e in
            elim (Bool-cases (t + 1 == limit k)) [
              | inl done ↦
                  simp (get-advance j k t slots v, same, done, here)
                    (sym (
                      count_up_last t (limit j)
                        (subst (λ x. t + 1 ≡ limit x) kj ((==_iff (t + 1) (limit k)).0 done))))
              | inr more ↦
                  simp (get-advance j k t slots v, same, more, here)
                    (sym (count_up_step t (limit j) at_j))
            ]
      ]

  -- Enough fuel: a plan has all open ticks of a key, in their order.
  pub ticks_of-plan :
      (j : SlotKey) (fuel : ℕ) (slots : Slots)
      → IsTable slots
      → remaining slots ≤ fuel
      → ticks_of j (plan fuel slots) ≡ open_ticks j (Dict.get slot_keys j slots)
  unfolding plan ticks_of Dict.get
  ticks_of-plan j zero [] v enough = refl
  ticks_of-plan j (suc fuel) [] v enough = refl
  ticks_of-plan j zero (slot ∷ slots) v enough = absurd (omega (arith, remaining_pos slot slots v))
  ticks_of-plan j (suc fuel) (slot ∷ slots) v enough =
      let (k, t) = first slot slots in
      let e = first-IsEntry slot slots v.unique_keys in
      let rest =
        ticks_of-plan j fuel (later k t (slot ∷ slots)) (advance-IsTable k t (slot ∷ slots) e v)
          (omega (arith, remaining-advance k t (slot ∷ slots) e v)) in
      rw rest (open_ticks-advance j k t (slot ∷ slots) e v)

  -- Enough fuel: the loop takes the turns of its plan.
  pub schedule_loop-plan :
      {S : Type 0} (turn : SlotKey → ℕ → S → Option S) (fuel : ℕ) (slots : Slots) (s : S)
      → IsTable slots
      → remaining slots ≤ fuel
      → schedule_loop duration phases flows turn fuel slots s ≡ take_turns turn (plan fuel slots) s
  unfolding schedule_loop take_turns plan
  schedule_loop-plan turn zero [] s v enough = refl
  schedule_loop-plan turn (suc fuel) [] s v enough = refl
  schedule_loop-plan turn zero (slot ∷ slots) s v enough =
      absurd (omega (arith, remaining_pos slot slots v))
  schedule_loop-plan turn (suc fuel) (slot ∷ slots) s v enough =
      let (k, t) = first slot slots in
      let e = first-IsEntry slot slots v.unique_keys in
      elim (Option-cases (turn k t s)) [
        | inl fails ↦ simp (schedule_loop, take_turns, plan, fails)
        | inr (next, goes) ↦
            rw (schedule_loop, take_turns, plan, goes)
              (schedule_loop-plan turn fuel (later k t (slot ∷ slots)) next
                (advance-IsTable k t (slot ∷ slots) e v)
                (omega (arith, remaining-advance k t (slot ∷ slots) e v)))
      ]
