-- ===== src/Gateway/Framing/Bounds.antt =====
-- What every run of the parser keeps: no byte is lost, the buffer stays bounded, and each frame
-- is one that `encode_frame` would write. backend/app/gateway/framing.py.
use meshtastic_lab.Base.{
  ℕ, ◌+◌, ◌*◌, ◌/◌, ◌%◌, ◌≤◌, ◌<◌, ◌≡◌, refl, sym, List, [], ◌∷◌, ◌++◌, ◌&&◌, some, arith, ltb,
  ◌==◌, length, All, All-append, take-append-drop, ap, subst, ◌∙◌, Bool-cases, inl, inr,
  length-append, length-take,
}
use meshtastic_lab.Gateway.Framing.{
  Frame, FrameParser, feed, encode_frame, magic_first, magic_second, max_protobuf_size,
}
use meshtastic_lab.Gateway.Framing.Scan.{
  Verdict, waiting, noise, oversized, complete, classify, classify_body, Scans, rests, skips,
  rejects, takes,
}
use meshtastic_lab.Gateway.Framing.Chunks.{feed-eq_some}

-- The bytes of some frames, on the wire.
abbrev pub wire_length : List Frame → ℕ
wire_length [] = 0
wire_length (f ∷ fs) = length f.raw + wire_length fs

-- What a verdict says of the bytes that it was made on.
abbrev Fits : ℕ → List ℕ → Verdict → Type 0
Fits limit s waiting = length s ≤ limit + 3
Fits limit s noise = Unit
Fits limit s oversized = Unit
Fits limit s (complete f rest) =
    (hi : ℕ) × (lo : ℕ) × (s ≡ f.raw ++ rest)
    × (f.raw ≡ magic_first ∷ magic_second ∷ hi ∷ lo ∷ f.payload)
    × (hi * 256 + lo ≡ length f.payload)
    × (length f.payload ≤ limit)

classify_body-Fits :
    (limit hi lo : ℕ) (body : List ℕ)
    → Fits limit (magic_first ∷ magic_second ∷ hi ∷ lo ∷ body) (classify_body limit hi lo body)
classify_body-Fits limit hi lo body = elim (Bool-cases (ltb limit (hi * 256 + lo))) [
  | inl large ↦ rw large tt
  | inr fits ↦ rw fits (elim (Bool-cases (ltb (length body) (hi * 256 + lo))) [
    | inl short ↦ rw short (ground arith)
    | inr full ↦ rw full (
      hi,
      lo,
      ap (λ x. magic_first ∷ magic_second ∷ hi ∷ lo ∷ x)
          (sym (take-append-drop (hi * 256 + lo) body)),
      refl,
      ground (arith, length-take (hi * 256 + lo) body),
      ground (arith, length-take (hi * 256 + lo) body),
    )
  ])
]

classify-Fits : (limit : ℕ) (s : List ℕ) → Fits limit s (classify limit s)
classify-Fits limit [] = omega arith
classify-Fits limit (a ∷ []) = ground arith
classify-Fits limit (a ∷ b ∷ s) = elim (Bool-cases (a == magic_first && b == magic_second)) [
  | inl e ↦ rw e (
      let first : a ≡ magic_first = ground arith in
      let second : b ≡ magic_second = ground arith in rw (first, second) (header s))
  | inr e ↦ rw e tt
]
  where
    header :
        (r : List ℕ)
        → Fits limit
            (magic_first ∷ magic_second ∷ r)
            (classify limit (magic_first ∷ magic_second ∷ r))
    header [] = omega arith
    header (hi ∷ []) = omega arith
    header (hi ∷ lo ∷ body) = classify_body-Fits limit hi lo body

verdict-Fits : (limit : ℕ) (s : List ℕ) (v : Verdict) → classify limit s ≡ v → Fits limit s v
verdict-Fits limit s v e = subst (Fits limit s) e (classify-Fits limit s)

-- No byte of a stream is lost: each is in a frame, counted as discarded, or still buffered.
pub Scans-conserves :
    {limit d o : ℕ} {s r : List ℕ} {fs : List Frame}
    → Scans limit s fs d o r
    → d + (wire_length fs + length r) ≡ length s
Scans-conserves (rests p) = omega arith
Scans-conserves (skips p a) = omega (arith, Scans-conserves a)
Scans-conserves (rejects p a) = omega (arith, Scans-conserves a)
Scans-conserves {limit} (takes {f} {s} {t} p a) =
    let (hi, lo, split, _, _, _) = verdict-Fits limit s (complete f t) p in
    omega (arith, Scans-conserves a, ap length split, length-append f.raw t)

Scans-rest-le :
    {limit d o : ℕ} {s r : List ℕ} {fs : List Frame} → Scans limit s fs d o r → length r ≤ limit + 3
Scans-rest-le {limit} {s} (rests p) = verdict-Fits limit s waiting p
Scans-rest-le (skips p a) = Scans-rest-le a
Scans-rest-le (rejects p a) = Scans-rest-le a
Scans-rest-le (takes p a) = Scans-rest-le a

-- The bytes are accounted for: what a call of `feed` gets, with what was buffered, is what it
-- returns in frames, what it adds to `discarded_bytes` and what it keeps buffered; and it keeps at
-- most the header and a payload of the maximum size, less a byte.
pub feed_conserves :
    (p q : FrameParser) (chunk : List ℕ) (frames : List Frame)
    → feed p chunk ≡ some (q, frames)
    → (q.discarded_bytes + wire_length frames + length q.buffer
        ≡ p.discarded_bytes + length p.buffer + length chunk)
      × (length q.buffer ≤ p.maximum_payload_size + 3)
feed_conserves p q chunk frames e =
    let h = feed-eq_some p q chunk frames e in
    (
      omega (arith, h.discarded, Scans-conserves h.scanned, length-append p.buffer chunk),
      Scans-rest-le h.scanned,
    )

abbrev pub IsByte : ℕ → Type 0
IsByte b = b < 256

-- The frame is what `encode_frame` writes for its payload.
abbrev pub IsEncoded : Frame → Type 0
IsEncoded f = encode_frame f.payload ≡ some f.raw

IsEncoded-frame :
    (hi lo : ℕ) (f : Frame)
    → f.raw ≡ magic_first ∷ magic_second ∷ hi ∷ lo ∷ f.payload
    → hi * 256 + lo ≡ length f.payload
    → lo < 256
    → length f.payload ≤ max_protobuf_size
    → IsEncoded f
unfolding encode_frame
IsEncoded-frame hi lo f e size byte fits =
    let high : length f.payload / 256 ≡ hi = omega arith in
    let low : length f.payload % 256 ≡ lo = omega arith in rw (e, high, low) (ground arith)

All-append_right : {A : Type 0} (P : A → Type 0) (xs ys : List A) → All P (xs ++ ys) → All P ys
All-append_right P [] ys h = h
All-append_right P (x ∷ xs) ys h = All-append_right P xs ys h.1

Scans-IsEncoded :
    {limit d o : ℕ} {s r : List ℕ} {fs : List Frame}
    → limit ≤ max_protobuf_size
    → Scans limit s fs d o r
    → All IsByte s
    → All IsEncoded fs
Scans-IsEncoded small (rests p) h = tt
Scans-IsEncoded small (skips p a) h = Scans-IsEncoded small a h.1
Scans-IsEncoded small (rejects p a) h = Scans-IsEncoded small a h.1
Scans-IsEncoded {limit} small (takes {f} {s} {t} p a) h =
    let (hi, lo, split, raw, size, fits) = verdict-Fits limit s (complete f t) p in
    let bytes = subst (All IsByte) (split ∙ ap (λ x. x ++ t) raw) h in
    (
      IsEncoded-frame hi lo f raw size bytes.1.1.1.0 (omega arith),
      Scans-IsEncoded small a (All-append_right IsByte f.raw t (subst (All IsByte) split h)),
    )

-- On bytes, and for a parser whose maximum is at most the encoder's, every frame that `feed`
-- returns is what `encode_frame` writes for its payload.
pub feed-IsEncoded :
    (p q : FrameParser) (chunk : List ℕ) (frames : List Frame)
    → p.maximum_payload_size ≤ max_protobuf_size
    → All IsByte p.buffer
    → All IsByte chunk
    → feed p chunk ≡ some (q, frames)
    → All IsEncoded frames
feed-IsEncoded p q chunk frames small kept new e =
    Scans-IsEncoded small (feed-eq_some p q chunk frames e).scanned
      (All-append IsByte p.buffer chunk kept new)
