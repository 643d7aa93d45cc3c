-- ===== src/Metrics/Events/History.antt =====
-- The retained history of backend/app/metrics/events.py and its pages.
use meshtastic_lab.Base.{
  ℕ, zero, suc, ◌+◌, ◌-◌, ◌≤◌, ◌<◌, ◌≡◌, ◌↔◌, ◌⊎◌, inl, inr, refl, sym, ap, Bool, true, false, not,
  ◌&&◌, String, List, [], ◌∷◌, ◌++◌, min, max, Option, none, some, arith, ltb, ◌==◌, if◌then◌else◌,
  length, take, drop, Bool-cases, length-append, length-take, length-drop,
}
use meshtastic_lab.Metrics.Events.{
  PacketEvent, EventBroker, EventHistoryPage, init, publish, sequenced, clear, subscribe,
  unsubscribe, first_sequence, after_cursor, ends_before, history_page, changed, behind,
}

-- Events numbered without a gap from `n` on, all of one stream.
abbrev pub Consecutive : ℕ → String → List PacketEvent → Type 0
Consecutive n stream [] = Unit
Consecutive n stream (e ∷ es) =
    (e.sequence ≡ n) × (e.stream_id ≡ stream) × Consecutive (suc n) stream es

pub record IsRetained (b : EventBroker) : Type 0 where
  pub bounded : length b.history ≤ b.history_size
  pub counted : b.history_evictions + length b.history ≡ b.last_sequence
  pub evicted_when_full : (b.history_evictions ≡ 0) ⊎ (length b.history ≡ b.history_size)
  pub numbered : Consecutive (suc b.history_evictions) b.stream_id b.history

Consecutive-snoc :
    (n : ℕ) (stream : String) (xs : List PacketEvent) (e : PacketEvent)
    → Consecutive n stream xs
    → e.sequence ≡ n + length xs
    → e.stream_id ≡ stream
    → Consecutive n stream (xs ++ (e ∷ []))
Consecutive-snoc n stream [] e h number same = (omega arith, same, tt)
Consecutive-snoc n stream (x ∷ xs) e h number same =
    (h.0, h.1, Consecutive-snoc (suc n) stream xs e h.2 (omega arith) same)

Consecutive-drop :
    (k n m : ℕ) (stream : String) (xs : List PacketEvent)
    → Consecutive n stream xs
    → m ≡ k + n
    → Consecutive m stream (drop k xs)
Consecutive-drop zero n m stream xs h e = let same : m ≡ n = omega arith in rw same h
Consecutive-drop (suc k) n m stream [] h e = tt
Consecutive-drop (suc k) n m stream (x ∷ xs) h e =
    Consecutive-drop k (suc n) m stream xs h.2 (omega arith)

Consecutive-take :
    (k n : ℕ) (stream : String) (xs : List PacketEvent)
    → Consecutive n stream xs
    → Consecutive n stream (take k xs)
Consecutive-take zero n stream xs h = tt
Consecutive-take (suc k) n stream [] h = tt
Consecutive-take (suc k) n stream (x ∷ xs) h = (h.0, h.1, Consecutive-take k (suc n) stream xs h.2)

publish-IsRetained :
    (event : PacketEvent) (b : EventBroker) → IsRetained b → IsRetained (publish event b).0
unfolding publish
publish-IsRetained event b v = elim (Bool-cases (length b.history == b.history_size)) [
  | inl full ↦
      rw (full, publish)
        (record {
          bounded = ground (arith, length-drop 1 grown, size);
          counted = ground (arith, length-drop 1 grown, size);
          evicted_when_full = inr (ground (arith, length-drop 1 grown, size));
          numbered =
              Consecutive-drop 1 (suc b.history_evictions) _ b.stream_id grown next (omega arith);
        })
  | inr room ↦
      rw (room, publish)
        (record {
          bounded = ground (arith, v.bounded, size);
          counted = omega (arith, v.counted, size);
          evicted_when_full = ground (arith, v.evicted_when_full);
          numbered = next;
        })
]
  where
    grown : List PacketEvent
    grown = b.history ++ (sequenced event b ∷ [])

    size : length grown ≡ length b.history + 1
    size = length-append b.history (sequenced event b ∷ [])

    next : Consecutive (suc b.history_evictions) b.stream_id grown
    next =
        Consecutive-snoc _ b.stream_id b.history (sequenced event b) v.numbered
          (omega (arith, v.counted)) refl

init-IsRetained : (size buffer : ℕ) (stream : String) → IsRetained (init size buffer stream)
unfolding init
init-IsRetained size buffer stream = record {
  bounded = omega arith;
  counted = refl;
  evicted_when_full = inl refl;
  numbered = tt;
}

-- The operations that a broker sees.
pub data Command : Type 0 where
  publishes : PacketEvent → Command
  clears : ℕ → String → Command
  subscribes unsubscribes : ℕ → Command

unfoldable pub step : EventBroker → Command → EventBroker
step b (publishes event) = (publish event b).0
step b (clears now fresh) = clear now fresh b
step b (subscribes identity) = subscribe identity b
step b (unsubscribes identity) = unsubscribe identity b

unfoldable pub run : EventBroker → List Command → EventBroker
run b [] = b
run b (c ∷ cs) = run (step b c) cs

step-IsRetained : (b : EventBroker) (c : Command) → IsRetained b → IsRetained (step b c)
unfolding step clear subscribe unsubscribe
step-IsRetained b (publishes event) v = publish-IsRetained event b v
step-IsRetained b (clears now fresh) v = record {
  bounded = omega arith;
  counted = refl;
  evicted_when_full = inl refl;
  numbered = tt;
}
step-IsRetained b (subscribes identity) v = record {
  bounded = v.bounded;
  counted = v.counted;
  evicted_when_full = v.evicted_when_full;
  numbered = v.numbered;
}
step-IsRetained b (unsubscribes identity) v = record {
  bounded = v.bounded;
  counted = v.counted;
  evicted_when_full = v.evicted_when_full;
  numbered = v.numbered;
}

run-IsRetained_from : (b : EventBroker) (cs : List Command) → IsRetained b → IsRetained (run b cs)
unfolding run
run-IsRetained_from b [] v = v
run-IsRetained_from b (c ∷ cs) v = run-IsRetained_from (step b c) cs (step-IsRetained b c v)

-- After any sequence of publications, resets and subscriptions of a new broker, the history holds
-- at most `history_size` events; they are numbered without a gap up to the latest sequence and
-- carry the current stream id; what is missing before them is counted in `history_evictions`; and
-- nothing was evicted unless the history is full.
pub run-IsRetained :
    (size buffer : ℕ) (stream : String) (cs : List Command)
    → IsRetained (run (init size buffer stream) cs)
run-IsRetained size buffer stream cs =
    run-IsRetained_from (init size buffer stream) cs (init-IsRetained size buffer stream)

drop_nil : (k : ℕ) → drop {A = PacketEvent} k [] ≡ []
drop_nil zero = refl
drop_nil (suc k) = refl

after_cursor-drop :
    (cursor n : ℕ) (stream : String) (xs : List PacketEvent)
    → Consecutive n stream xs
    → after_cursor cursor xs ≡ drop (suc cursor - n) xs
unfolding after_cursor
after_cursor-drop cursor n stream [] h = sym (drop_nil (suc cursor - n))
after_cursor-drop cursor n stream (x ∷ xs) h =
    let later = after_cursor-drop cursor (suc n) stream xs h.2 in
    elim (Bool-cases (ltb cursor x.sequence)) [
      | inl ahead ↦
          let none_left : suc cursor - n ≡ 0 = ground (arith, h.0) in
          let none_later : suc cursor - suc n ≡ 0 = omega arith in
          rw (ahead, none_left, later, none_later) refl
      | inr behind ↦
          let one : suc cursor - n ≡ suc (suc cursor - suc n) = ground (arith, h.0) in
          rw (behind, one) later
    ]

ends_before-lem :
    (latest n : ℕ) (stream : String) (xs : List PacketEvent)
    → Consecutive n stream xs
    → (ends_before latest xs ≡ true) ↔ ((0 < length xs) × (n + length xs ≤ latest))
unfolding ends_before
ends_before-lem latest n stream [] h = (λ e. cc, λ e. absurd (omega (arith, e.0)))
ends_before-lem latest n stream (x ∷ []) h = ground (arith, h.0)
ends_before-lem latest n stream (x ∷ y ∷ xs) h =
    let (to, back) = ends_before-lem latest (suc n) stream (y ∷ xs) h.2 in
    (λ e. (omega arith, omega (arith, (to e).1)), λ e. back (omega arith, omega (arith, e.1)))

-- A page that starts behind the event numbered `start`.
pub record IsPage (b : EventBroker) (start limit : ℕ) (page : EventHistoryPage) : Type 0 where
  pub numbered : Consecutive (suc start) b.stream_id page.events
  pub counted : length page.events ≡ min limit (b.last_sequence - start)
  pub continues :
      (page.has_more ≡ true)
      ↔ ((0 < length page.events) × (start + length page.events < b.last_sequence))

gap_iff :
    (other : Bool) (cursor evicted : ℕ) (first : Option ℕ)
    → (first ≡ some (suc evicted)) ⊎ ((first ≡ none) × (evicted ≡ 0))
    → ((not other && (ltb 0 cursor && behind cursor first)) ≡ true)
      ↔ ((other ≡ false) × (0 < cursor) × (cursor < evicted))
gap_iff other cursor evicted (some first) h = ground arith
gap_iff other cursor evicted none h = ground arith

first_retained :
    (b : EventBroker)
    → IsRetained b
    → 0 < b.history_size
    → (first_sequence b.history ≡ some (suc b.history_evictions))
      ⊎ ((first_sequence b.history ≡ none) × (b.history_evictions ≡ 0))
unfolding first_sequence
first_retained b v positive = go b.history refl v.numbered
  where
    go :
        (xs : List PacketEvent)
        → b.history ≡ xs
        → Consecutive (suc b.history_evictions) b.stream_id xs
        → (first_sequence xs ≡ some (suc b.history_evictions))
          ⊎ ((first_sequence xs ≡ none) × (b.history_evictions ≡ 0))
    go [] e h = inr (refl, omega (arith, ap length e, v.evicted_when_full))
    go (x ∷ xs) e h = inl (ap some h.0)

module _ (after_sequence limit : ℕ) (stream : Option String) (b : EventBroker)
    (v : IsRetained b) where
  -- Of a broker whose history is retained as above, the page holds exactly the next `limit` events
  -- of the current stream behind the cursor, or behind the evicted events where the cursor is
  -- older (a cursor of another stream counts as 0), and `has_more` tells exactly when a page that
  -- is not empty stops short of the latest event.
  pub history_page-IsPage :
      IsPage b
        (max (if changed stream b.stream_id then 0 else after_sequence) b.history_evictions)
        limit
        (history_page after_sequence limit stream b)
  unfolding history_page
  history_page-IsPage =
      let cursor = if changed stream b.stream_id then 0 else after_sequence in
      let evicted = b.history_evictions in
      let rest = drop (suc cursor - suc evicted) b.history in
      let numbers : Consecutive (suc (max cursor evicted)) b.stream_id (take limit rest) =
        Consecutive-take limit _ b.stream_id rest (
          Consecutive-drop (suc cursor - suc evicted) (suc evicted) _ b.stream_id b.history
            v.numbered (omega arith)) in
      let (to, back) = ends_before-lem b.last_sequence _ b.stream_id _ numbers in
      rw (after_cursor-drop cursor (suc evicted) b.stream_id b.history v.numbered) (record {
        numbered = numbers;
        counted = omega (
          arith,
          length-take limit rest,
          length-drop (suc cursor - suc evicted) b.history,
          v.counted,
        );
        continues = (
          λ e. (omega (arith, (to e).0), omega (arith, (to e).1)),
          λ e. back (omega (arith, e.0), omega (arith, e.1)),
        );
      })

  -- Of a broker whose history is retained as above and has a positive size, a gap is reported
  -- exactly when a cursor of the current stream, not the beginning, lies before an event that was
  -- evicted.
  pub history_gap_iff :
      0 < b.history_size
      → ((history_page after_sequence limit stream b).history_gap ≡ true) ↔ (
          (changed stream b.stream_id ≡ false)
          × (0 < after_sequence)
          × (after_sequence < b.history_evictions))
  unfolding history_page
  history_gap_iff positive =
      gap_iff (changed stream b.stream_id) after_sequence b.history_evictions
        (first_sequence b.history) (first_retained b v positive)
