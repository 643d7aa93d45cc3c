-- ===== src/Traffic/Drain/Settled.antt =====
-- The pending submissions at the end of a run: backend/app/traffic/controller.py.
use meshtastic_lab.Base.{
  subst, min, max, ◌-◌, sym, false, ◌==◌, if◌then◌else◌, ℕ, ◌+◌, ◌≤◌, ◌≡◌, ◌∙◌, refl, inl, inr, ap,
  Bool, true, ◌&&◌, ◌||◌, String, List, [], ◌∷◌, ◌++◌, Option, none, some, arith, Bool-cases,
  Option-cases, leb, is_empty,
}
use meshtastic_lab.Metrics.Packet.{Protobuf}
use meshtastic_lab.Traffic.Model.{TrafficController, TrafficRun, GeneratedMessage}
use meshtastic_lab.Traffic.Controller.{find_message, store_message}
use meshtastic_lab.Traffic.Controller.Store.{
  find_message-store_other, find_message-store_same, sequence-find_message,
}
use meshtastic_lab.Traffic.Controller.Submission.{
  is_some, settle, resolve_submission, finalize_each, finalize_pending_submissions,
}
use meshtastic_lab.Traffic.Drain.{
  drain, drain_windows, DrainTurn, waits, drain_loop, drain_turn, ready_to_settle,
}

-- What the finalization makes of a pending message: one that the firmware has neither taken nor
-- refused gets the error of a queue admission that timed out.
abbrev pub expired : GeneratedMessage → GeneratedMessage
expired m =
    if m.submitted || is_some m.submission_error
    then m
    else record m { submission_error = some "firmware queue admission timed out" }

abbrev pub expired_if : Bool → Option GeneratedMessage → Option GeneratedMessage
expired_if b none = none
expired_if b (some m) = some (if b then expired m else m)

-- A pending submission refers to the message of this number.
unfoldable pub is_pending : ℕ → List ((String × ℕ) × ℕ) → Bool
is_pending n [] = false
is_pending n ((owner, ref) ∷ entries) = ref == n || is_pending n entries

expired_twice :
    (a b : Bool) (o : Option GeneratedMessage)
    → expired_if b (expired_if a o) ≡ expired_if (a || b) o
expired_twice a b none = refl
expired_twice true b (some m) = ground arith
expired_twice false b (some m) = refl

module _ (pb : Protobuf) (now : ℕ) where
  abbrev timed_out : String → ℕ → TrafficController → TrafficController
  timed_out source ref c =
      resolve_submission pb now source ref (some "firmware queue admission timed out") c

  -- What one resolution does.
  record Resolved (ref : ℕ) (before : TrafficController) (c' : TrafficController) : Type 0 where
    messages :
        (n : ℕ)
        → find_message n c'.messages ≡ expired_if (ref == n) (find_message n before.messages)
    runs : (run' : TrafficRun) × (c'.current ≡ some run')

  expired_not : (o : Option GeneratedMessage) → o ≡ expired_if false o
  expired_not none = refl
  expired_not (some m) = refl

  kept-messages :
      (ref n : ℕ) (o : Option GeneratedMessage) (c : TrafficController)
      → find_message ref c.messages ≡ o
      → ((m : GeneratedMessage) → o ≡ some m → expired m ≡ m)
      → find_message n c.messages ≡ expired_if (ref == n) (find_message n c.messages)
  kept-messages ref n o c found same = elim (Bool-cases (ref == n)) [
    | inl here ↦
        let at : ref ≡ n = ground arith in
        rw here
          (go (find_message n c.messages) (sym (ap (λ k. find_message k c.messages) at) ∙ found))
    | inr other ↦ rw other (expired_not (find_message n c.messages))
  ]
    where
      go : (p : Option GeneratedMessage) → p ≡ o → p ≡ expired_if true p
      go none e = refl
      go (some m) e = ap some (sym (same m (sym e)))

  settle-messages :
      (ref n : ℕ) (m : GeneratedMessage) (ms : List GeneratedMessage)
      → find_message ref ms ≡ some m
      → (m.submitted || is_some m.submission_error) ≡ false
      → find_message n (
          store_message
            (record m { submission_error = some "firmware queue admission timed out" })
            ms)
        ≡ expired_if (ref == n) (find_message n ms)
  settle-messages ref n m ms found is_open = elim (Bool-cases (ref == n)) [
    | inl here ↦
        let at : ref ≡ n = ground arith in
        let k = record m { submission_error = some "firmware queue admission timed out" } in
        let stored =
          find_message-store_same ref m k ms found (sequence-find_message ref m ms found) in
        rw here (
          sym (ap (λ i. find_message i (store_message k ms)) at)
          ∙ stored
          ∙ sym (
              ap (expired_if true) (sym (ap (λ i. find_message i ms) at) ∙ found) ∙ (simp is_open)))
    | inr other ↦ rw other (
        find_message-store_other n _ ms (ground (arith, sequence-find_message ref m ms found))
        ∙ expired_not (find_message n ms))
  ]

  resolve_submission-Resolved :
      (source : String) (ref : ℕ) (run : TrafficRun) (c : TrafficController)
      → c.current ≡ some run
      → Resolved ref c (timed_out source ref c)
  unfolding resolve_submission settle
  resolve_submission-Resolved source ref run c at_run =
      elim (Option-cases (find_message ref c.messages)) [
        | inl missing ↦
            rw (at_run, resolve_submission, missing)
              (record {
                messages = λ n. kept-messages ref n none c missing (λ m e. cc);
                runs = (run, at_run);
              })
        | inr (m, found) ↦ elim (Bool-cases (m.submitted || is_some m.submission_error)) [
          | inl done ↦
              rw (at_run, resolve_submission, found, done)
                (record {
                  messages = λ n. kept-messages ref n (some m) c found (λ k e. ground arith);
                  runs = (run, at_run);
                })
          | inr open_message ↦
              rw (at_run, resolve_submission, found, open_message)
                (record {
                  messages = λ n. settle-messages ref n m c.messages found open_message;
                  runs = (_, refl);
                })
        ]
      ]

  finalize_each-messages :
      (entries : List ((String × ℕ) × ℕ)) (run : TrafficRun) (c : TrafficController)
      → c.current ≡ some run
      → ((n : ℕ)
          → find_message n (finalize_each pb now entries c).messages
            ≡ expired_if (is_pending n entries) (find_message n c.messages))
        × ((run' : TrafficRun) × ((finalize_each pb now entries c).current ≡ some run'))
  unfolding finalize_each is_pending
  finalize_each-messages [] run c at_run =
      (λ n. expired_not (find_message n c.messages), (run, at_run))
  finalize_each-messages (((source, packet_id), ref) ∷ entries) run c at_run =
      let r = resolve_submission-Resolved source ref run c at_run in
      let rest = finalize_each-messages entries r.runs.0 (timed_out source ref c) r.runs.1 in
      (
        λ n.
            rest.0 n
            ∙ ap (expired_if (is_pending n entries)) (r.messages n)
            ∙ expired_twice (ref == n) (is_pending n entries) (find_message n c.messages),
        rest.1,
      )

  -- The finalization keeps a run.
  pub finalize_pending_submissions-runs :
      (run : TrafficRun) (c : TrafficController)
      → c.current ≡ some run
      → (run' : TrafficRun) × ((finalize_pending_submissions pb now c).current ≡ some run')
  unfolding finalize_pending_submissions
  finalize_pending_submissions-runs run c at_run =
      (finalize_each-messages c.pending_submissions run c at_run).1

  -- The finalization of a run leaves nothing pending, and of every message it changes at most this:
  -- one that was pending, and that the firmware had neither taken nor refused, gets the error that
  -- its queue admission timed out.
  pub finalize_pending_submissions-settles :
      (run : TrafficRun) (c : TrafficController)
      → c.current ≡ some run
      → ((finalize_pending_submissions pb now c).pending_submissions ≡ [])
        × ((n : ℕ)
            → find_message n (finalize_pending_submissions pb now c).messages
              ≡ expired_if (is_pending n c.pending_submissions) (find_message n c.messages))
  unfolding finalize_pending_submissions
  finalize_pending_submissions-settles run c at_run =
      (refl, (finalize_each-messages c.pending_submissions run c at_run).0)

-- A wake comes at the latest when the wait before it is over.
abbrev pub IsWoken : DrainTurn → ℕ → List (ℕ × TrafficController) → Type 0
IsWoken (waits duration) now ((next, d) ∷ later) = next ≤ now + duration
IsWoken other now later = Unit

abbrev pub AreInTime : ℕ → ℕ → List (ℕ × TrafficController) → Type 0
AreInTime quiet deadline [] = Unit
AreInTime quiet deadline ((now, c) ∷ later) =
    IsWoken (drain_turn quiet deadline now c) now later × AreInTime quiet deadline later

-- The loop ends, at the latest at a time, and then nothing is pending.
pub record Drains (latest : ℕ) (ended : Option (ℕ × TrafficController)) : Type 0 where
  pub time : ℕ
  pub end : TrafficController
  pub returns : ended ≡ some (time, end)
  pub in_time : time ≤ latest
  pub cleared : end.pending_submissions ≡ []

module _ (pb : Protobuf) (quiet deadline : ℕ) where
  is_empty-nil : (entries : List ((String × ℕ) × ℕ)) → is_empty entries ≡ true → entries ≡ []
  is_empty-nil [] h = refl
  is_empty-nil (e ∷ es) h = cc

  -- The wait of a turn ends at the latest at the deadline.
  wait_le :
      (now : ℕ) (c : TrafficController)
      → leb deadline now ≡ false
      → (min (deadline - now) (max (c.last_activity_monotonic + quiet - now) 1) ≤ deadline - now)
  wait_le now c early = omega arith

  turned :
      (now : ℕ) (c : TrafficController) (later : List (ℕ × TrafficController))
      → now ≤ deadline
      → ((ready_to_settle c && leb (c.last_activity_monotonic + quiet) now) ≡ false
          → leb deadline now ≡ false
          → Drains deadline (drain_loop pb quiet deadline later))
      → Drains deadline (drain_loop pb quiet deadline ((now, c) ∷ later))
  unfolding drain_loop drain_turn ready_to_settle finalize_pending_submissions
  turned now c later within rest =
      elim (Bool-cases (ready_to_settle c && leb (c.last_activity_monotonic + quiet) now)) [
        | inl done ↦ record {
          time = now;
          end = c;
          returns = rw (drain_loop, drain_turn, done) refl;
          in_time = within;
          cleared = is_empty-nil c.pending_submissions (ground arith);
        }
        | inr more ↦ elim (Bool-cases (leb deadline now)) [
          | inl due ↦ record {
            time = now;
            end = finalize_pending_submissions pb now c;
            returns = rw (drain_loop, drain_turn, more, due) refl;
            in_time = within;
            cleared = refl;
          }
          | inr early ↦
              let d = rest more early in
              record {
                time = d.time;
                end = d.end;
                returns = rw (drain_loop, drain_turn, more, early) d.returns;
                in_time = d.in_time;
                cleared = d.cleared;
              }
        ]
      ]

  woken :
      (now next : ℕ) (c d : TrafficController) (later : List (ℕ × TrafficController))
      → (ready_to_settle c && leb (c.last_activity_monotonic + quiet) now) ≡ false
      → leb deadline now ≡ false
      → IsWoken (drain_turn quiet deadline now c) now ((next, d) ∷ later)
      → next ≤ deadline
  unfolding drain_turn
  woken now next c d later more early h = elim (Bool-cases (ready_to_settle c)) [
    | inl ready ↦
        let w : next
            ≤ now + min (deadline - now) (max (c.last_activity_monotonic + quiet - now) 1) =
          rw (more, early, ready, drain_turn) at h in
        ground (arith, w, early)
    | inr unready ↦
        let w : next ≤ now + (deadline - now) = rw (more, early, unready, drain_turn) at h in
        ground (arith, w, early)
  ]

  -- Where the loop begins by its deadline, no wake comes later than the wait that was asked for, and
  -- the wakes go on until the deadline, the drain ends, at the latest at its deadline, and then no
  -- submission is pending, whether it settled or timed out.
  drain_loop-returns :
      (now : ℕ) (c : TrafficController) (later : List (ℕ × TrafficController)) (last : ℕ)
      (d : TrafficController)
      → now ≤ deadline
      → deadline ≤ last
      → AreInTime quiet deadline ((now, c) ∷ (later ++ ((last, d) ∷ [])))
      → Drains deadline (drain_loop pb quiet deadline ((now, c) ∷ (later ++ ((last, d) ∷ []))))
  unfolding drain_loop
  drain_loop-returns now c [] last d within late h =
      turned now c ((last, d) ∷ []) within (λ more early.
        turned last d [] (woken now last c d [] more early h.0)
          (λ more' early'. absurd (ground (arith, early', late))))
  drain_loop-returns now c ((next, e) ∷ later) last d within late h =
      turned now c ((next, e) ∷ (later ++ ((last, d) ∷ []))) within (λ more early.
        drain_loop-returns next e later last d
          (woken now next c e (later ++ ((last, d) ∷ [])) more early h.0) late h.1)

-- A drain of a run by `_drain_windows`, whose wakes come no later than the waits that were asked for
-- and go on until its deadline, ends, at the latest at that deadline, and then no submission is
-- pending.
pub drain-returns :
    (pb : Protobuf) (hop_limit now : ℕ) (run : TrafficRun) (c : TrafficController)
    (later : List (ℕ × TrafficController)) (last : ℕ) (d : TrafficController)
    → c.current ≡ some run
    → now + (drain_windows hop_limit c).1 ≤ last
    → AreInTime
        (drain_windows hop_limit c).0
        (now + (drain_windows hop_limit c).1)
        ((now, c) ∷ (later ++ ((last, d) ∷ [])))
    → Drains
        (now + (drain_windows hop_limit c).1)
        (drain pb hop_limit none now c (later ++ ((last, d) ∷ [])))
unfolding drain
drain-returns pb hop_limit now run c later last d at_run late h =
    subst (Drains (now + (drain_windows hop_limit c).1)) (sym opened) (
      drain_loop-returns pb (drain_windows hop_limit c).0 (now + (drain_windows hop_limit c).1) now
        c later last d (omega arith) late h)
  where
    opened :
        drain pb hop_limit none now c (later ++ ((last, d) ∷ []))
        ≡ drain_loop pb
            (drain_windows hop_limit c).0
            (now + (drain_windows hop_limit c).1)
            ((now, c) ∷ (later ++ ((last, d) ∷ [])))
    opened = simp (drain, at_run)
