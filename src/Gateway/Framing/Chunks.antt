-- ===== src/Gateway/Framing/Chunks.antt =====
-- The frames of a stream do not depend on how its bytes were cut into reads:
-- backend/app/gateway/framing.py, and the read loops of backend/app/gateway/node_gateway.py.
use mathlib.Core.Path.{ap₂}
use native.Mathlib.Nat.{zero-add, suc-add}
use mathlib.Core.List.{flatten, append_assoc, append-nil}
use meshtastic_lab.Base.{
  ℕ, suc, ◌+◌, ◌≡◌, refl, sym, ap, subst, ◌≢◌, ◌∙◌, List, [], ◌∷◌, ◌++◌, Option, some, arith, ◌≤◌,
  ◌*◌, ltb, ◌==◌, ◌&&◌, length, Bool-cases, inl, inr, length-append, take-append, drop-append,
}
use meshtastic_lab.Gateway.Framing.{magic_first, magic_second, Frame, FrameParser, feed, feed_all}
use meshtastic_lab.Gateway.Framing.Scan.{
  Verdict, waiting, complete, classify, classify_body, Scans, rests, skips, rejects, takes,
}
use meshtastic_lab.Gateway.Framing.Stream.{feed-Reads}
use meshtastic_lab.Gateway.Framing.Turns.{Reads}

-- A verdict when more bytes follow.
abbrev grows : Verdict → List ℕ → Verdict
grows (complete f rest) t = complete f (rest ++ t)
grows v t = v

same_rest :
    {f g : Frame} {t u : List ℕ} {v : Verdict}
    → v ≡ complete f t
    → v ≡ complete g u
    → (f ≡ g) × (t ≡ u)
same_rest p q = ground arith

-- A reading is determined by the stream.
pub Scans-unique :
    {limit d e o u : ℕ} {s r t : List ℕ} {fs gs : List Frame}
    → Scans limit s fs d o r
    → Scans limit s gs e u t
    → (fs ≡ gs) × (d ≡ e) × (o ≡ u) × (r ≡ t)
Scans-unique (rests p) (rests q) = (refl, refl, refl, refl)
Scans-unique (rests p) (skips q b) = cc
Scans-unique (rests p) (rejects q b) = cc
Scans-unique (rests p) (takes q b) = cc
Scans-unique (skips p a) (rests q) = cc
Scans-unique (skips p a) (skips q b) = let (f, d, o, r) = Scans-unique a b in (f, ap suc d, o, r)
Scans-unique (skips p a) (rejects q b) = cc
Scans-unique (skips p a) (takes q b) = cc
Scans-unique (rejects p a) (rests q) = cc
Scans-unique (rejects p a) (skips q b) = cc
Scans-unique (rejects p a) (rejects q b) =
    let (f, d, o, r) = Scans-unique a b in (f, ap suc d, ap suc o, r)
Scans-unique (rejects p a) (takes q b) = cc
Scans-unique (takes p a) (rests q) = cc
Scans-unique (takes p a) (skips q b) = cc
Scans-unique (takes p a) (rejects q b) = cc
Scans-unique {limit} {e} {u} {t} (takes p a) (takes {fs = gs} q b) =
    let (same, rest) = same_rest p q in
    let (f, d, o, r) = Scans-unique a (subst (λ x. Scans limit x gs e u t) (sym rest) b) in
    (ap₂ ◌∷◌ same f, d, o, r)

classify_body-append :
    (limit hi lo : ℕ) (s t : List ℕ)
    → classify_body limit hi lo s ≢ waiting
    → classify_body limit hi lo (s ++ t) ≡ grows (classify_body limit hi lo s) t
classify_body-append limit hi lo s t h =
    let n = hi * 256 + lo in
    elim (Bool-cases (ltb (length s) n)) [
      | inl short ↦ ground (arith, length-append s t)
      | inr full ↦
          let fits : n ≤ length s = ground arith in
          rw (take-append n s t fits, drop-append n s t fits) (ground (arith, length-append s t))
    ]

-- Bytes that arrive later change no verdict but `waiting`.
classify-append :
    (limit : ℕ) (s t : List ℕ)
    → classify limit s ≢ waiting
    → classify limit (s ++ t) ≡ grows (classify limit s) t
classify-append limit [] t h = absurd (h refl)
classify-append limit (a ∷ []) [] h = ground arith
classify-append limit (a ∷ []) (b ∷ t) h = ground arith
classify-append limit (a ∷ b ∷ []) t h = ground arith
classify-append limit (a ∷ b ∷ hi ∷ []) t h = ground arith
classify-append limit (a ∷ b ∷ hi ∷ lo ∷ s) t h =
    elim (Bool-cases (a == magic_first && b == magic_second)) [
      | inl e ↦ rw (e) (classify_body-append limit hi lo s t (ground arith))
      | inr e ↦ rw (e) refl
    ]

keep_verdict :
    (limit : ℕ) (s : List ℕ) {v : Verdict} (t : List ℕ)
    → v ≢ waiting
    → classify limit s ≡ v
    → classify limit (s ++ t) ≡ grows v t
keep_verdict limit s t other e =
    classify-append limit s t (λ w. other (sym e ∙ w)) ∙ ap (λ v. grows v t) e

module _ {limit e u : ℕ} (t : List ℕ) {q : List ℕ} {gs : List Frame} where
  -- A reading of a stream goes on where it rested when more bytes come.
  pub Scans-append :
      {d o : ℕ} {s r : List ℕ} {fs : List Frame}
      → Scans limit s fs d o r
      → Scans limit (r ++ t) gs e u q
      → Scans limit (s ++ t) (fs ++ gs) (d + e) (o + u) q
  Scans-append (rests p) b = simp zero-add b
  Scans-append (skips {b = x} {s = s'} p a) b =
      rw suc-add (skips (keep_verdict limit (x ∷ s') t (λ w. cc) p) (Scans-append a b))
  Scans-append (rejects {b = x} {s = s'} p a) b =
      simp suc-add (rejects (keep_verdict limit (x ∷ s') t (λ w. cc) p) (Scans-append a b))
  Scans-append (takes {s = s'} p a) b =
      takes (keep_verdict limit s' t (λ w. cc) p) (Scans-append a b)

Scans-rest :
    {limit d o : ℕ} {s r : List ℕ} {fs : List Frame}
    → Scans limit s fs d o r
    → classify limit r ≡ waiting
Scans-rest (rests p) = p
Scans-rest (skips p a) = Scans-rest a
Scans-rest (rejects p a) = Scans-rest a
Scans-rest (takes p a) = Scans-rest a

-- Between two calls the buffer holds only the beginning of a frame.
abbrev pub IsSettled : FrameParser → Type 0
IsSettled p = classify p.maximum_payload_size p.buffer ≡ waiting

same_parser :
    (p q : FrameParser)
    → p.buffer ≡ q.buffer
    → p.maximum_payload_size ≡ q.maximum_payload_size
    → p.discarded_bytes ≡ q.discarded_bytes
    → p.oversized_frames ≡ q.oversized_frames
    → p ≡ q
same_parser p q a b c d = ground arith

some_result :
    {p q : FrameParser} {fs gs : List Frame} {o : Option (FrameParser × List Frame)}
    → o ≡ some (p, fs)
    → p ≡ q
    → fs ≡ gs
    → o ≡ some (q, gs)
some_result h e f = cc

-- Two readings of one buffer end in the same parser, with the same frames.
Reads-unique :
    (p q r : FrameParser) (fs gs : List Frame) → Reads p q fs → Reads p r gs → (q ≡ r) × (fs ≡ gs)
Reads-unique p q r fs gs a b =
    let (f, d, o, rest) = Scans-unique a.scanned b.scanned in
    (
      same_parser q r rest (omega (arith, a.same_limit, b.same_limit))
          (omega (arith, a.discarded, b.discarded, d)) (omega (arith, a.oversize, b.oversize, o)),
      f,
    )

-- A result of `feed` is the reading.
pub feed-eq_Reads :
    (p q : FrameParser) (chunk : List ℕ) (fs : List Frame)
    → Reads (record p { buffer = p.buffer ++ chunk }) q fs
    → feed p chunk ≡ some (q, fs)
feed-eq_Reads p q chunk fs h =
    let (r, gs, e, k) = feed-Reads p chunk in
    let (same, frames) = Reads-unique _ r q gs fs k h in some_result e same frames

pub feed-eq_some :
    (p q : FrameParser) (chunk : List ℕ) (fs : List Frame)
    → feed p chunk ≡ some (q, fs)
    → Reads (record p { buffer = p.buffer ++ chunk }) q fs
feed-eq_some p q chunk fs e =
    let (r, gs, f, k) = feed-Reads p chunk in
    let same : r ≡ q = ground arith in
    let frames : gs ≡ fs = ground arith in
    let joined : FrameParser = record p { buffer = p.buffer ++ chunk } in
    subst (λ x. Reads joined x fs) same (subst (Reads joined r) frames k)

-- A second chunk is read on from where the first left the parser.
Reads-append :
    (p q r : FrameParser) (a b : List ℕ) (fs gs : List Frame)
    → Reads (record p { buffer = p.buffer ++ a }) q fs
    → Reads (record q { buffer = q.buffer ++ b }) r gs
    → Reads (record p { buffer = p.buffer ++ (a ++ b) }) r (fs ++ gs)
Reads-append p q r a b fs gs h k = record {
  noise_bytes = h.noise_bytes + k.noise_bytes;
  rejected = h.rejected + k.rejected;
  scanned =
      subst
        (λ s.
          Scans p.maximum_payload_size s (fs ++ gs) (h.noise_bytes + k.noise_bytes)
            (h.rejected + k.rejected) r.buffer)
        (append_assoc p.buffer a b)
        (Scans-append b h.scanned (
          subst (λ n. Scans n (q.buffer ++ b) gs k.noise_bytes k.rejected r.buffer) h.same_limit
            k.scanned));
  same_limit = k.same_limit ∙ h.same_limit;
  discarded = omega (arith, h.discarded, k.discarded);
  oversize = omega (arith, h.oversize, k.oversize);
}

-- Feeding two chunks one after the other is feeding them joined: the same frames in the same
-- order, and the same parser, counters included.
pub feed-append :
    (p q r : FrameParser) (a b : List ℕ) (fs gs : List Frame)
    → feed p a ≡ some (q, fs)
    → feed q b ≡ some (r, gs)
    → feed p (a ++ b) ≡ some (r, fs ++ gs)
feed-append p q r a b fs gs e f =
    feed-eq_Reads p r (a ++ b) (fs ++ gs)
      (Reads-append p q r a b fs gs (feed-eq_some p q a fs e) (feed-eq_some q r b gs f))

settled-Reads : (p : FrameParser) → IsSettled p → Reads (record p { buffer = p.buffer ++ [] }) p []
settled-Reads p h = rw (append-nil p.buffer) (record {
  noise_bytes = 0;
  rejected = 0;
  scanned = rests h;
  same_limit = refl;
  discarded = omega arith;
  oversize = omega arith;
})

feed-IsSettled :
    (p q : FrameParser) (a : List ℕ) (fs : List Frame) → feed p a ≡ some (q, fs) → IsSettled q
feed-IsSettled p q a fs e =
    let h = feed-eq_some p q a fs e in rw (h.same_limit) (Scans-rest h.scanned)

-- From a parser that only waits for more bytes, as a new one does: however a stream is cut into
-- reads, the gateway's read loop returns, and its frames and the parser it ends in are those of
-- one read of the whole stream.
pub feed_all-flatten :
    (p : FrameParser) (chunks : List (List ℕ))
    → IsSettled p
    → feed_all p chunks ≡ feed p (flatten chunks)
unfolding feed_all flatten
feed_all-flatten p [] h = sym (feed-eq_Reads p p [] [] (settled-Reads p h))
feed_all-flatten p (c ∷ cs) h =
    let (q, fs, e, _) = feed-Reads p c in
    let (r, gs, f, _) = feed-Reads q (flatten cs) in
    rw (e, feed_all, feed_all-flatten q cs (feed-IsSettled p q c fs e), f)
      (sym (feed-append p q r c (flatten cs) fs gs e f))
