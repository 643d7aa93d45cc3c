-- ===== src/Gateway/Framing/Roundtrip.antt =====
-- Frames written by `encode_frame` are read back: backend/app/gateway/framing.py.
use meshtastic_lab.Base.{
  ℕ, ◌+◌, ◌*◌, ◌/◌, ◌%◌, ◌≤◌, ◌≡◌, refl, List, [], ◌∷◌, ◌++◌, Option, none, some, arith, length,
  Option-cases, inl, inr, length-append, take-length_append, drop-length_append, map,
}
use mathlib.Core.Option
use meshtastic_lab.Gateway.Framing.{
  Frame, FrameParser, feed, encode_frame, magic_first, magic_second, max_protobuf_size,
}
use meshtastic_lab.Gateway.Framing.Scan.{complete, classify, Scans, rests, takes}
use meshtastic_lab.Gateway.Framing.Chunks.{feed-eq_Reads}

-- The wire bytes of some payloads, sent one after the other.
unfoldable pub encode_all : List (List ℕ) → Option (List ℕ)
encode_all [] = some []
encode_all (m ∷ ms) = elim (encode_frame m) [
  | none ↦ none
  | some w ↦ Option.map (λ ws. w ++ ws) (encode_all ms)
]

abbrev pub frame_of : List ℕ → Frame
frame_of m = record {
  raw = magic_first ∷ magic_second ∷ (length m / 256) ∷ (length m % 256) ∷ m;
  payload = m;
}

encode_frame-eq_some :
    (m w : List ℕ)
    → encode_frame m ≡ some w
    → (w ≡ (frame_of m).raw) × (length m ≤ max_protobuf_size)
unfolding encode_frame
encode_frame-eq_some m w e = ground arith

classify-frame :
    (limit : ℕ) (m t : List ℕ)
    → length m ≤ limit
    → classify limit ((frame_of m).raw ++ t) ≡ complete (frame_of m) t
classify-frame limit m t fits =
    let size : length m / 256 * 256 + length m % 256 ≡ length m = omega arith in
    rw (size, take-length_append m t, drop-length_append m t) (ground (arith, length-append m t))

encode_all-cons :
    (m : List ℕ) (ms : List (List ℕ)) (w : List ℕ)
    → encode_all (m ∷ ms) ≡ some w
    → (ws : List ℕ) × (encode_all ms ≡ some ws)
      × (w ≡ (frame_of m).raw ++ ws)
      × (length m ≤ max_protobuf_size)
unfolding encode_all
encode_all-cons m ms w e = elim (Option-cases (encode_frame m)) [
  | inl fails ↦ ground arith
  | inr (v, sent) ↦
      let (same, fits) = encode_frame-eq_some m v sent in
      elim (Option-cases (encode_all ms)) [
        | inl fails ↦ ground arith
        | inr (ws, rest) ↦ (ws, rest, ground arith, fits)
      ]
]

Scans-frames :
    (limit : ℕ) (ms : List (List ℕ)) (w : List ℕ)
    → max_protobuf_size ≤ limit
    → encode_all ms ≡ some w
    → Scans limit w (map frame_of ms) 0 0 []
unfolding encode_all
Scans-frames limit [] w room e = let empty : w ≡ [] = ground arith in rw empty (rests refl)
Scans-frames limit (m ∷ ms) w room e =
    let (ws, rest, split, fits) = encode_all-cons m ms w e in
    rw split (takes (classify-frame limit m ws (omega arith)) (Scans-frames limit ms ws room rest))

-- What `encode_frame` writes for some payloads, one after the other, a parser at a frame boundary
-- whose maximum is at least the encoder's reads back as just those payloads in order, with no byte
-- discarded or left over.
pub feed-encode_all :
    (p : FrameParser) (ms : List (List ℕ)) (w : List ℕ)
    → p.buffer ≡ []
    → max_protobuf_size ≤ p.maximum_payload_size
    → encode_all ms ≡ some w
    → feed p w ≡ some (p, map frame_of ms)
feed-encode_all p ms w empty room e = feed-eq_Reads p p w (map frame_of ms) (
    rw empty (record {
      noise_bytes = 0;
      rejected = 0;
      scanned = Scans-frames p.maximum_payload_size ms w room e;
      same_limit = refl;
      discarded = omega arith;
      oversize = omega arith;
    }))
