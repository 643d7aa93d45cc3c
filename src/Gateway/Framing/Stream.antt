-- ===== src/Gateway/Framing/Stream.antt =====
-- The parser of backend/app/gateway/framing.py against the reference reading of `Scan`.
use mathlib.Core.Option
use meshtastic_lab.Base.{
  ℕ, zero, suc, ◌<◌, ◌≡◌, refl, inl, inr, true, false, List, [], ◌∷◌, ◌++◌, Option, none, some,
  arith, length, is_empty, Bool-cases,
}
use meshtastic_lab.Gateway.Framing.{
  Frame, FrameParser, Turn, stop, again, emit, turn, feed_loop, feed,
}
use meshtastic_lab.Gateway.Framing.Scan.{rests}
use meshtastic_lab.Gateway.Framing.Turns.{Reads, Turned, turn-Turned}

abbrev Result : FrameParser → Option (FrameParser × List Frame) → Type 0
Result p none = ⊥
Result p (some (p', frames)) = Reads p p' frames

after_again :
    (p q : FrameParser) (o : Option (FrameParser × List Frame))
    → ((r : FrameParser) (fs : List Frame) → Reads q r fs → Reads p r fs)
    → Result q o
    → Result p o
after_again p q none extend h = h
after_again p q (some (r, fs)) extend h = extend r fs h

after_emit :
    (p q : FrameParser) (f : Frame) (o : Option (FrameParser × List Frame))
    → ((r : FrameParser) (fs : List Frame) → Reads q r fs → Reads p r (f ∷ fs))
    → Result q o
    → Result p (Option.map (λ r. (r.0, f ∷ r.1)) o)
after_emit p q f none extend h = h
after_emit p q f (some (r, fs)) extend h = extend r fs h

empty-Reads : (p : FrameParser) → is_empty p.buffer ≡ true → Reads p p []
empty-Reads p e = record {
  noise_bytes = 0;
  rejected = 0;
  scanned = rests (ground arith);
  same_limit = refl;
  discarded = omega arith;
  oversize = omega arith;
}

feed_loop-Result :
    (fuel : ℕ) (p : FrameParser) → length p.buffer < fuel → Result p (feed_loop fuel p)
unfolding feed_loop
feed_loop-Result zero p h = absurd (omega arith)
feed_loop-Result (suc fuel) p h = elim (Bool-cases (is_empty p.buffer)) [
  | inl e ↦ rw (e, feed_loop) (empty-Reads p e)
  | inr e ↦ go e (turn p) refl (turn-Turned p) (feed_loop-Result fuel)
]
  where
    go :
        is_empty p.buffer ≡ false
        → (t : Turn) → turn p ≡ t
        → Turned p t
        → ((q : FrameParser) → length q.buffer < fuel → Result q (feed_loop fuel q))
        → Result p (feed_loop (suc fuel) p)
    go e (stop q) eq h rec = rw (e, eq, feed_loop) h
    go e (again q) eq (small, extend) rec =
        rw (e, eq, feed_loop) (after_again p q (feed_loop fuel q) extend (rec q (omega arith)))
    go e (emit f q) eq (small, extend) rec =
        rw (e, eq, feed_loop) (after_emit p q f (feed_loop fuel q) extend (rec q (omega arith)))

Result-total :
    (p : FrameParser) (o : Option (FrameParser × List Frame))
    → Result p o
    → (p' : FrameParser) × (fs : List Frame) × (o ≡ some (p', fs)) × Reads p p' fs
Result-total p none h = absurd h
Result-total p (some (p', fs)) h = (p', fs, refl, h)

-- `feed` returns on every input and from every state, and what it returns, its counters and the
-- bytes it keeps are those of the reference reading of the buffered bytes and the new chunk.
pub feed-Reads :
    (p : FrameParser) (chunk : List ℕ)
    → (p' : FrameParser) × (frames : List Frame) × (feed p chunk ≡ some (p', frames))
      × Reads (record p { buffer = p.buffer ++ chunk }) p' frames
unfolding feed
feed-Reads p chunk =
    Result-total _ _ (feed_loop-Result _ (record p { buffer = p.buffer ++ chunk }) (omega arith))
