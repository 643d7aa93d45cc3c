-- ===== src/Traffic/Timetable/Order.antt =====
-- The times of the turns of the loop in `_run` of backend/app/traffic/controller.py.
use meshtastic_lab.Base.{
  ℕ, zero, suc, ◌+◌, ◌≤◌, ◌≡◌, inl, inr, Bool, true, false, String, List, [], ◌∷◌, arith, ◌==◌,
  if◌then◌else◌, Bool-cases, Option-cases,
}
use meshtastic_lab.Base.Dict
use meshtastic_lab.Traffic.Model.{TrafficFlow}
use meshtastic_lab.Traffic.Schedule.{nth}
use meshtastic_lab.Traffic.Timetable.{SlotKey, slot_keys, quota, due, precedes, earliest, advance}
use meshtastic_lab.Traffic.Timetable.Plan.{Slots, first, later, plan}

module _ (duration : ℕ) (phases : ℕ → String → ℕ) (flows : List TrafficFlow) where
  abbrev time : SlotKey × ℕ → ℕ
  time x = due duration phases flows x.0 x.1

  -- The times of turns never go back.
  abbrev pub InTime : ℕ → Slots → Type 0
  InTime from [] = Unit
  InTime from (x ∷ turns) = (from ≤ time x) × InTime (time x) turns

  abbrev NotBefore : ℕ → Slots → Type 0
  NotBefore from [] = Unit
  NotBefore from (x ∷ slots) = (from ≤ time x) × NotBefore from slots

  due_mono :
      (k : SlotKey) (t : ℕ) → due duration phases flows k t ≤ due duration phases flows k (t + 1)
  unfolding due
  due_mono k t = elim (Option-cases (nth k.0 flows)) [
    | inl e ↦ rw (due, e) (omega arith)
    | inr (flow, e) ↦ rw (due, e) (grind arith)
  ]

  precedes-le : (x y : SlotKey × ℕ) → precedes duration phases flows x y ≡ true → time x ≤ time y
  unfolding precedes
  precedes-le x y h = ground arith

  not_precedes-le :
      (x y : SlotKey × ℕ) → precedes duration phases flows x y ≡ false → time y ≤ time x
  unfolding precedes
  not_precedes-le x y h = ground arith

  better : SlotKey × ℕ → SlotKey × ℕ → SlotKey × ℕ
  better x y = if precedes duration phases flows x y then x else y

  better-le : (x y : SlotKey × ℕ) → (time (better x y) ≤ time x) × (time (better x y) ≤ time y)
  unfolding better
  better-le x y = elim (Bool-cases (precedes duration phases flows x y)) [
    | inl e ↦ rw e (omega arith, precedes-le x y e)
    | inr e ↦ rw e (not_precedes-le x y e, omega arith)
  ]

  earliest-NotBefore :
      (best : SlotKey × ℕ) (slots : Slots)
      → (time (first duration phases flows best slots) ≤ time best)
        × NotBefore (time (first duration phases flows best slots)) slots
  unfolding earliest better
  earliest-NotBefore best [] = (omega arith, tt)
  earliest-NotBefore best (x ∷ slots) =
      let (low, rest) = earliest-NotBefore (better x best) slots in
      let (a, b) = better-le x best in (omega (arith, low, b), (omega (arith, low, a), rest))

  from-le-earliest :
      (from : ℕ) (best : SlotKey × ℕ) (slots : Slots)
      → from ≤ time best
      → NotBefore from slots
      → from ≤ time (first duration phases flows best slots)
  unfolding earliest better
  from-le-earliest from best [] h v = h
  from-le-earliest from best (x ∷ slots) h v =
      from-le-earliest from (better x best) slots
        (from-le-better (precedes duration phases flows x best)) v.1
    where
      from-le-better : (b : Bool) → from ≤ time (if b then x else best)
      from-le-better true = v.0
      from-le-better false = h

  put-NotBefore :
      (from : ℕ) (k : SlotKey) (t : ℕ) (slots : Slots)
      → from ≤ due duration phases flows k t
      → NotBefore from slots
      → NotBefore from (Dict.put slot_keys k t slots)
  unfolding Dict.put
  put-NotBefore from k t [] h v = (h, tt)
  put-NotBefore from k t ((j, u) ∷ slots) h v =
      ground (arith, slot_keys.same_iff j k, put-NotBefore from k t slots h v.1)

  delete-NotBefore :
      (from : ℕ) (k : SlotKey) (slots : Slots)
      → NotBefore from slots
      → NotBefore from (Dict.delete slot_keys k slots)
  unfolding Dict.delete
  delete-NotBefore from k [] v = tt
  delete-NotBefore from k ((j, u) ∷ slots) v = ground (arith, delete-NotBefore from k slots v.1)

  advance-NotBefore :
      (k : SlotKey) (t : ℕ) (slots : Slots)
      → NotBefore (due duration phases flows k t) slots
      → NotBefore (due duration phases flows k t) (later duration phases flows k t slots)
  unfolding advance
  advance-NotBefore k t slots v = elim (Bool-cases (t + 1 == quota duration phases flows k)) [
    | inl done ↦ rw (advance, done) (delete-NotBefore _ k slots v)
    | inr more ↦ rw (advance, more) (put-NotBefore _ k (t + 1) slots (due_mono k t) v)
  ]

  -- The loop takes its turns in the order of their times.
  pub plan-InTime :
      (from fuel : ℕ) (slots : Slots)
      → NotBefore from slots
      → InTime from (plan duration phases flows fuel slots)
  unfolding plan
  plan-InTime from zero slots v = tt
  plan-InTime from (suc fuel) [] v = tt
  plan-InTime from (suc fuel) (slot ∷ slots) v =
      let (k, t) = first duration phases flows slot slots in
      let (low, rest) = earliest-NotBefore slot slots in
      (
        from-le-earliest from slot slots v.0 v.1,
        plan-InTime (due duration phases flows k t) fuel
            (later duration phases flows k t (slot ∷ slots))
            (advance-NotBefore k t (slot ∷ slots) (low, rest)),
      )

  pub NotBefore-start : (slots : Slots) → NotBefore 0 slots
  NotBefore-start [] = tt
  NotBefore-start (x ∷ slots) = (omega arith, NotBefore-start slots)
