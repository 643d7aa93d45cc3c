-- ===== src/Traffic/Controller/Ledger.antt =====
-- The counters of backend/app/traffic/controller.py against the message objects.
use meshtastic_lab.Base.{
  ℕ, ◌+◌, ◌≡◌, ◌∙◌, refl, inl, inr, true, false, not, ◌&&◌, ◌||◌, String, List, Option, none, some,
  arith, length, All, Bool-cases, Option-cases, subst,
}
use meshtastic_lab.Metrics.Packet.{Protobuf}
use meshtastic_lab.Traffic.Model.{TrafficController, TrafficRun, GeneratedMessage}
use meshtastic_lab.Traffic.Controller.{find_message, store_message}
use meshtastic_lab.Traffic.Controller.Submission.{is_some, settle, resolve_submission, reject}
use meshtastic_lab.Traffic.Controller.Store.{
  sum_of, bit, length-store_message, sequence-find_message, All-find_message, sum_of-store_message,
  All-store_message,
}

abbrev pub submitted_bit : GeneratedMessage → ℕ
submitted_bit m = bit m.submitted

abbrev pub failed_bit : GeneratedMessage → ℕ
failed_bit m = bit (is_some m.submission_error)

abbrev pub transmitted_bit : GeneratedMessage → ℕ
transmitted_bit m = bit m.transmitted

abbrev pub acknowledged_bit : GeneratedMessage → ℕ
acknowledged_bit m = bit m.acknowledged

abbrev pub receivers : GeneratedMessage → ℕ
receivers m = length m.delivered_to

-- A message is not both submitted and failed, and only a submitted one is transmitted.
pub record IsSound (m : GeneratedMessage) : Type 0 where
  pub one_outcome : (m.submitted && is_some m.submission_error) ≡ false
  pub sent_if_transmitted : (m.transmitted && not m.submitted) ≡ false

-- The run shows the controller's counters.
abbrev Mirrors : Option TrafficRun → ℕ → ℕ → ℕ → Type 0
Mirrors none generated submitted failed = Unit
Mirrors (some run) generated submitted failed =
    (run.requested ≡ generated) × (run.submitted ≡ submitted) × (run.submission_failed ≡ failed)

pub record Ledger (current : Option TrafficRun) (messages : List GeneratedMessage)
    (generated submitted failed transmitted acknowledged delivered : ℕ) : Type 0 where
  pub all_generated : generated ≡ length messages
  pub all_submitted : submitted ≡ sum_of submitted_bit messages
  pub all_failed : failed ≡ sum_of failed_bit messages
  pub all_transmitted : transmitted ≡ sum_of transmitted_bit messages
  pub all_acknowledged : acknowledged ≡ sum_of acknowledged_bit messages
  pub all_delivered : delivered ≡ sum_of receivers messages
  pub mirrored : Mirrors current generated submitted failed
  pub sound : All IsSound messages

-- Every counter is the sum that it stands for.
abbrev pub IsLedger : TrafficController → Type 0
IsLedger c =
    Ledger c.current c.messages c.generated_count c.submitted_count c.submission_failed_count
      c.transmitted_count c.acknowledgments c.receiver_deliveries

-- A write to one message keeps the ledger if each counter moves as the message does.
pub Ledger-store :
    (ref : ℕ) (m k : GeneratedMessage) (current current' : Option TrafficRun)
    (messages : List GeneratedMessage) (g s f t a d s' f' t' a' d' : ℕ)
    → find_message ref messages ≡ some m
    → k.sequence ≡ m.sequence
    → IsSound k
    → Mirrors current' g s' f'
    → s' + submitted_bit m ≡ s + submitted_bit k
    → f' + failed_bit m ≡ f + failed_bit k
    → t' + transmitted_bit m ≡ t + transmitted_bit k
    → a' + acknowledged_bit m ≡ a + acknowledged_bit k
    → d' + receivers m ≡ d + receivers k
    → Ledger current messages g s f t a d
    → Ledger current' (store_message k messages) g s' f' t' a' d'
Ledger-store ref m k current current' messages g s f t a d s' f' t' a' d' found same sound mirror es
      ef et ea ed v =
    let moves : (weight : GeneratedMessage → ℕ)
        → sum_of weight (store_message k messages) + weight m ≡ sum_of weight messages + weight k =
      λ weight.
        sum_of-store_message ref m weight k messages found
          (same ∙ sequence-find_message ref m messages found) in
    record {
      all_generated = omega (arith, v.all_generated, length-store_message k messages);
      all_submitted = omega (arith, v.all_submitted, moves submitted_bit, es);
      all_failed = omega (arith, v.all_failed, moves failed_bit, ef);
      all_transmitted = omega (arith, v.all_transmitted, moves transmitted_bit, et);
      all_acknowledged = omega (arith, v.all_acknowledged, moves acknowledged_bit, ea);
      all_delivered = omega (arith, v.all_delivered, moves receivers, ed);
      mirrored = mirror;
      sound = All-store_message IsSound k messages sound v.sound;
    }

-- The run in force shows the counters.
pub Mirrors-run :
    (c : TrafficController) (run : TrafficRun)
    → c.current ≡ some run
    → IsLedger c
    → Mirrors (some run) c.generated_count c.submitted_count c.submission_failed_count
Mirrors-run c run at_run v =
    subst (λ r. Mirrors r c.generated_count c.submitted_count c.submission_failed_count) at_run
      v.mirrored

-- A change of the run that keeps what it shows.
pub current-IsLedger :
    (run run' : TrafficRun) (c : TrafficController)
    → c.current ≡ some run
    → run'.requested ≡ run.requested
    → run'.submitted ≡ run.submitted
    → run'.submission_failed ≡ run.submission_failed
    → IsLedger c
    → IsLedger (record c { current = some run' })
current-IsLedger run run' c at_run er es ef v =
    let mirror = Mirrors-run c run at_run v in
    record {
      all_generated = v.all_generated;
      all_submitted = v.all_submitted;
      all_failed = v.all_failed;
      all_transmitted = v.all_transmitted;
      all_acknowledged = v.all_acknowledged;
      all_delivered = v.all_delivered;
      mirrored = (er ∙ mirror.0, es ∙ mirror.1, ef ∙ mirror.2);
      sound = v.sound;
    }

module _ (pb : Protobuf) (now : ℕ) (source : String) (run : TrafficRun) (ref : ℕ)
    (m : GeneratedMessage) (c : TrafficController) (at_run : c.current ≡ some run)
    (found : find_message ref c.messages ≡ some m) (v : IsLedger c) where
  IsSound-message : IsSound m
  IsSound-message = All-find_message ref m IsSound c.messages found v.sound

  mirror : Mirrors (some run) c.generated_count c.submitted_count c.submission_failed_count
  mirror = Mirrors-run c run at_run v

  settle-IsLedger :
      (error : Option String)
      → (m.submitted || is_some m.submission_error) ≡ false
      → IsLedger (settle pb now source error run m c)
  unfolding settle
  settle-IsLedger none is_open =
      Ledger-store ref m (record m { submitted = true }) _ _ c.messages _ _ _ _ _ _ _ _ _ _ _ found
        refl (ground (arith, IsSound-message)) (mirror.0, refl, mirror.2) (ground arith) refl refl
        refl refl v
  settle-IsLedger (some error) is_open =
      Ledger-store ref m (record m { submission_error = some error }) _ _ c.messages _ _ _ _ _ _ _ _
        _ _ _ found refl (ground (arith, IsSound-message)) (mirror.0, mirror.1, refl) refl
        (ground arith) refl refl refl v

  -- A rejected message had not failed before, and was not transmitted.
  pub reject-IsLedger :
      (reason : String)
      → is_some m.submission_error ≡ false
      → m.transmitted ≡ false
      → IsLedger (reject pb now source reason run m c)
  unfolding reject
  reject-IsLedger reason unfailed unsent =
      Ledger-store ref m (record m { submitted = false; submission_error = some reason }) _ _
        c.messages _ _ _ _ _ _ _ _ _ _ _ found refl (ground arith)
        (mirror.0, ground (arith, mirror.1), refl)
        (ground (
          arith,
          v.all_submitted,
          sum_of-store_message ref m submitted_bit
              (record m { submitted = false; submission_error = some reason }) c.messages found
              (sequence-find_message ref m c.messages found),
        ))
        (ground arith) refl refl refl v

module _ (pb : Protobuf) (now : ℕ) (source : String) (ref : ℕ) where
  pub resolve_submission-IsLedger :
      (error : Option String) (c : TrafficController)
      → IsLedger c
      → IsLedger (resolve_submission pb now source ref error c)
  unfolding resolve_submission
  resolve_submission-IsLedger error c v = elim (Option-cases c.current) [
    | inl e ↦ rw (e, resolve_submission) v
    | inr (run, at_run) ↦ elim (Option-cases (find_message ref c.messages)) [
      | inl e ↦ rw (at_run, resolve_submission, e) v
      | inr (m, found) ↦ elim (Bool-cases (m.submitted || is_some m.submission_error)) [
        | inl e ↦ rw (at_run, resolve_submission, found, e) v
        | inr e ↦
            rw (at_run, resolve_submission, found, e)
              (settle-IsLedger pb now source run ref m c at_run found v error e)
      ]
    ]
  ]
