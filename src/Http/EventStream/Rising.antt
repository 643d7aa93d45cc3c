-- ===== src/Http/EventStream/Rising.antt =====
-- The numbers of the events between a broker and its client: `event_stream` of backend/app/main.py.
use meshtastic_lab.Base.{
  ℕ, ◌+◌, ◌≤◌, ◌<◌, ◌≡◌, ◌⊎◌, ◌∙◌, refl, inl, inr, max, false, String, str_eq, List, [], ◌∷◌, ◌++◌,
  arith, if◌then◌else◌, Bool-cases, drop,
}
use meshtastic_lab.Metrics.Events.{
  PacketEvent, EventSubscription, full, offer, restart, publish, sequenced, clear,
}
use meshtastic_lab.Http.EventStream.{Connection, publishes, clears, stream_step}

-- The numbers of a queue's events rise from `low` to `high`; a notice has none. All are of a stream.
abbrev pub Rises : String → ℕ → ℕ → List PacketEvent → Type 0
Rises stream low high [] = low ≤ high
Rises stream low high (e ∷ q) =
    (e.stream_id ≡ stream)
    × ((e.sequence ≡ 0) ⊎ (low < e.sequence))
    × Rises stream (max low e.sequence) high q

-- Where the client stands in a stream.
abbrev pub floor_in : String → String → ℕ → ℕ
floor_in stream id sequence = if str_eq stream id then sequence else 0

pub record IsJoined (c : Connection) : Type 0 where
  pub same_stream : c.subscription.stream_id ≡ c.broker.stream_id
  pub rising :
      Rises c.broker.stream_id
        (floor_in c.broker.stream_id c.stream.sent_stream_id c.stream.sent_sequence)
        c.broker.last_sequence
        c.subscription.queue

pub Rises-lower :
    (stream : String) (a b high : ℕ) (q : List PacketEvent)
    → a ≤ b
    → Rises stream b high q
    → Rises stream a high q
Rises-lower stream a b high [] h v = omega (arith, v)
Rises-lower stream a b high (e ∷ q) h v = (
  v.0,
  weaker v.1,
  Rises-lower stream (max a e.sequence) (max b e.sequence) high q (ground arith) v.2,
)
  where
    weaker : (e.sequence ≡ 0) ⊎ (b < e.sequence) → (e.sequence ≡ 0) ⊎ (a < e.sequence)
    weaker (inl z) = inl z
    weaker (inr l) = inr (omega arith)

Rises-append :
    (stream : String) (low high : ℕ) (q : List PacketEvent) (e : PacketEvent)
    → e.stream_id ≡ stream
    → e.sequence ≡ high + 1
    → Rises stream low high q
    → Rises stream low (high + 1) (q ++ (e ∷ []))
Rises-append stream low high [] e same number v =
    (same, inr (omega (arith, v, number)), ground (arith, v, number))
Rises-append stream low high (x ∷ q) e same number v =
    (v.0, v.1, Rises-append stream (max low x.sequence) high q e same number v.2)

Rises-drop :
    (stream : String) (low high : ℕ) (q : List PacketEvent)
    → Rises stream low high q
    → Rises stream low high (drop 1 q)
Rises-drop stream low high [] v = v
Rises-drop stream low high (x ∷ q) v =
    Rises-lower stream low (max low x.sequence) high q (ground arith) v.2

offer_queue :
    (e : PacketEvent) (s : EventSubscription) (stream : String) (low high : ℕ)
    → e.stream_id ≡ stream
    → e.sequence ≡ high + 1
    → Rises stream low high s.queue
    → Rises stream low (high + 1) (offer e s).queue
unfolding offer
offer_queue e s stream low high same number v = elim (Bool-cases (full s)) [
  | inl at_bound ↦
      rw (offer, at_bound)
        (Rises-append stream low high (drop 1 s.queue) e same number
          (Rises-drop stream low high s.queue v))
  | inr room ↦ rw (offer, room) (Rises-append stream low high s.queue e same number v)
]

offer_stream : (e : PacketEvent) (s : EventSubscription) → (offer e s).stream_id ≡ s.stream_id
unfolding offer
offer_stream e s = ground arith

pub publish-IsJoined :
    (e : PacketEvent) (c : Connection) → IsJoined c → IsJoined (stream_step (publishes e) c)
unfolding stream_step publish
publish-IsJoined e c v = record {
  same_stream = offer_stream _ c.subscription ∙ v.same_stream;
  rising =
      offer_queue (sequenced e c.broker) c.subscription c.broker.stream_id _ _ refl refl v.rising;
}

-- A fresh stream id, none that the client knows.
pub clear-IsJoined :
    (now : ℕ) (fresh : String) (c : Connection)
    → str_eq fresh c.stream.sent_stream_id ≡ false
    → IsJoined (stream_step (clears now fresh) c)
unfolding stream_step clear restart
clear-IsJoined now fresh c other = record {
  same_stream = refl;
  rising = (refl, inl refl, rw other (omega arith));
}
