-- ===== src/Http/EventStream/Joined.antt =====
-- The replay and the live events together: `event_stream` of backend/app/main.py.
use mathlib.Core.List.{append_assoc, append-nil}
use meshtastic_lab.Base.{
  ℕ, ◌<◌, ◌≡◌, ◌⊎◌, ◌∙◌, refl, sym, ap, subst, inl, inr, max, true, false, not, ◌&&◌, String,
  str_eq, eq_iff, List, [], ◌∷◌, ◌++◌, Option, none, some, arith, ltb, leb, Bool-cases,
}
use meshtastic_lab.Metrics.Events.{PacketEvent, EventSubscription, EventBroker, next, history_page}
use meshtastic_lab.Http.EventStream.{
  EventStream, open_stream, send_event, Connection, StreamStep, publishes, clears, reads, taken,
  read_step, stream_step, stream_steps, step_events, read_events, connect_client,
}
use meshtastic_lab.Http.EventStream.Rising.{
  Rises, floor_in, IsJoined, Rises-lower, publish-IsJoined, clear-IsJoined,
}

-- The numbers of what a client gets rise in each stream, from its place on; a notice has none.
abbrev pub NoneAgain : String → ℕ → List PacketEvent → Type 0
NoneAgain id sequence [] = Unit
NoneAgain id sequence (e ∷ events) =
    ((e.sequence ≡ 0) ⊎ (floor_in e.stream_id id sequence < e.sequence))
    × NoneAgain e.stream_id (max (floor_in e.stream_id id sequence) e.sequence) events

-- What a turn of the loop leaves behind an event that rises above the client's place.
record Sends (stream : String) (e : PacketEvent) (s later : EventStream) : Type 0 where
  appended : later.sent ≡ s.sent ++ (e ∷ [])
  place :
      floor_in stream later.sent_stream_id later.sent_sequence
      ≡ max (floor_in stream s.sent_stream_id s.sent_sequence) e.sequence
  stream_of : later.sent_stream_id ≡ e.stream_id
  sequence_of :
      later.sent_sequence ≡ max (floor_in stream s.sent_stream_id s.sent_sequence) e.sequence

above : (floor n : ℕ) → (n ≡ 0) ⊎ (floor < n) → (ltb 0 n && leb n floor) ≡ false
above floor n (inl z) = ground arith
above floor n (inr l) = ground arith

send_event-Sends :
    (stream : String) (e : PacketEvent) (s : EventStream)
    → e.stream_id ≡ stream
    → (e.sequence ≡ 0) ⊎ (floor_in stream s.sent_stream_id s.sent_sequence < e.sequence)
    → Sends stream e s (send_event e s)
unfolding send_event
send_event-Sends stream e s same rises = elim (Bool-cases (str_eq stream s.sent_stream_id)) [
  | inl known ↦
      let known_event : str_eq e.stream_id s.sent_stream_id ≡ true = rw same known in
      let kept = above s.sent_sequence e.sequence (rw known at rises) in
      simp (send_event, known_event, kept)
        (record {
          appended = refl;
          place = rw known refl;
          stream_of = sym ((eq_iff stream s.sent_stream_id).0 known) ∙ sym same;
          sequence_of = rw known refl;
        })
  | inr new ↦
      let new_event : str_eq e.stream_id s.sent_stream_id ≡ false = rw same new in
      let kept = above 0 e.sequence (rw new at rises) in
      let here : str_eq stream e.stream_id ≡ true = (eq_iff stream e.stream_id).1 (sym same) in
      simp (send_event, new_event, kept)
        (record {
          appended = refl;
          place = rw (here, new) refl;
          stream_of = refl;
          sequence_of = rw new refl;
        })
]

-- A turn of the loop with what a read brought.
record Reads (c : Connection) (events : List PacketEvent) (later : Connection) : Type 0 where
  joined : IsJoined later
  appended : later.stream.sent ≡ c.stream.sent ++ events
  none_again :
      (more : List PacketEvent)
      → NoneAgain later.stream.sent_stream_id later.stream.sent_sequence more
      → NoneAgain c.stream.sent_stream_id c.stream.sent_sequence (events ++ more)

sends_event :
    (e : PacketEvent) (rest : EventSubscription) (c : Connection)
    → rest.stream_id ≡ c.broker.stream_id
    → Rises c.broker.stream_id
        (floor_in c.broker.stream_id c.stream.sent_stream_id c.stream.sent_sequence)
        c.broker.last_sequence
        (e ∷ rest.queue)
    → Reads c (e ∷ []) (record c { subscription = rest; stream = send_event e c.stream })
sends_event e rest c same v =
    let sends = send_event-Sends c.broker.stream_id e c.stream v.0 v.1 in
    record {
      joined = record { same_stream = same; rising = rw (sends.place) v.2 };
      appended = sends.appended;
      none_again = λ more h. (
        subst
            (λ k.
              (e.sequence ≡ 0)
              ⊎ (floor_in k c.stream.sent_stream_id c.stream.sent_sequence < e.sequence))
            (sym v.0) v.1,
        subst (λ n. NoneAgain e.stream_id n more)
            (sends.sequence_of
              ∙ ap (λ k. max (floor_in k c.stream.sent_stream_id c.stream.sent_sequence) e.sequence)
                  (sym v.0))
            (subst (λ k. NoneAgain k (send_event e c.stream).sent_sequence more) sends.stream_of h),
      );
    }

read-Reads :
    (now : ℕ) (c : Connection)
    → IsJoined c
    → Reads c (taken (next now c.subscription)) (read_step (next now c.subscription) c)
unfolding next
read-Reads now c v =
    elim (Bool-cases
      (ltb 0 c.subscription.dropped && not c.subscription.delivered_drop_notice_last)) [
        | inl notice ↦
            rw (next, notice)
              (sends_event _ _ c v.same_stream
                (v.same_stream, inl refl, Rises-lower _ _ _ _ _ (omega arith) v.rising))
        | inr plain ↦ rw (next, plain) (from_queue c.subscription.queue refl)
      ]
  where
    from_queue :
        (q : List PacketEvent)
        → c.subscription.queue ≡ q
        → Reads c
            (taken (elim q [
              | [] ↦ none
              | event ∷ rest ↦ some (
                event,
                record c.subscription { queue = rest; delivered_drop_notice_last = false },
              )
            ]))
            (read_step
              (elim q [
                | [] ↦ none
                | event ∷ rest ↦ some (
                  event,
                  record c.subscription { queue = rest; delivered_drop_notice_last = false },
                )
              ])
              c)
    from_queue [] e = record {
      joined = v;
      appended = sym (append-nil c.stream.sent);
      none_again = λ more h. h;
    }
    from_queue (event ∷ rest) e = sends_event event _ c v.same_stream (
        subst
          (λ q.
            Rises c.broker.stream_id
              (floor_in c.broker.stream_id c.stream.sent_stream_id c.stream.sent_sequence)
              c.broker.last_sequence q)
          e v.rising)

-- Every stream id that a clear brings is one that the client does not know.
abbrev pub IsFresh : StreamStep → Connection → Type 0
IsFresh (publishes event) c = Unit
IsFresh (clears now fresh) c = str_eq fresh c.stream.sent_stream_id ≡ false
IsFresh (reads now) c = Unit

abbrev pub AreFresh : List StreamStep → Connection → Type 0
AreFresh [] c = Unit
AreFresh (step ∷ steps) c = IsFresh step c × AreFresh steps (stream_step step c)

step-Reads :
    (step : StreamStep) (c : Connection)
    → IsFresh step c
    → IsJoined c
    → Reads c (step_events step c) (stream_step step c)
unfolding stream_step
step-Reads (publishes event) c fresh v = record {
  joined = publish-IsJoined event c v;
  appended = sym (append-nil c.stream.sent);
  none_again = λ more h. h;
}
step-Reads (clears now id) c fresh v = record {
  joined = clear-IsJoined now id c fresh;
  appended = sym (append-nil c.stream.sent);
  none_again = λ more h. h;
}
step-Reads (reads now) c fresh v = read-Reads now c v

steps-Reads :
    (steps : List StreamStep) (c : Connection)
    → AreFresh steps c
    → IsJoined c
    → ((stream_steps steps c).stream.sent ≡ c.stream.sent ++ read_events steps c)
      × NoneAgain c.stream.sent_stream_id c.stream.sent_sequence (read_events steps c)
unfolding stream_steps read_events
steps-Reads [] c fresh v = (sym (append-nil c.stream.sent), tt)
steps-Reads (step ∷ steps) c fresh v =
    let r = step-Reads step c fresh.0 v in
    let (sent, rises) = steps-Reads steps (stream_step step c) fresh.1 r.joined in
    (
      sent
          ∙ ap (λ l. l ++ read_events steps (stream_step step c)) r.appended
          ∙ append_assoc c.stream.sent (step_events step c) _,
      r.none_again _ rises,
    )

-- A client that subscribes to a broker and then reads, while events are published and the broker
-- is cleared with ids that the client does not know: behind the notice and the replayed history it
-- is sent every event that its subscription gives, in their order, and their numbers rise from the
-- replay's last one on in each stream, so that none is sent again.
pub stream_steps-connect_client :
    (now after_sequence : ℕ) (stream : Option String) (b : EventBroker) (steps : List StreamStep)
    → AreFresh steps (connect_client now after_sequence stream b)
    → ((stream_steps steps (connect_client now after_sequence stream b)).stream.sent
        ≡ (open_stream now after_sequence stream b).sent
          ++ read_events steps (connect_client now after_sequence stream b))
      × NoneAgain b.stream_id b.last_sequence
          (read_events steps (connect_client now after_sequence stream b))
unfolding open_stream history_page
stream_steps-connect_client now after_sequence stream b steps fresh =
    steps-Reads steps (connect_client now after_sequence stream b) fresh (record {
      same_stream = refl;
      rising =
          let here : str_eq b.stream_id b.stream_id ≡ true =
            (eq_iff b.stream_id b.stream_id).1 refl in
          rw here (omega arith);
    })
