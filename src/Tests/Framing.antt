-- ===== src/Tests/Framing.antt =====
-- Concrete streams for backend/app/gateway/framing.py.
use meshtastic_lab.Base.{ℕ, ◌+◌, ◌≡◌, ◌≤◌, refl, List, [], ◌∷◌, ◌++◌, map, some, arith, length, All}
use mathlib.Core.List.{flatten}
use meshtastic_lab.Gateway.Framing.{
  Frame, FrameParser, feed, feed_all, encode_frame, feed_loop, turn, read_frame, find_magic,
  keep_tail, from_big_endian,
}
use meshtastic_lab.Gateway.Framing.Stream.{feed-Reads}
use meshtastic_lab.Gateway.Framing.Turns.{Reads}
use meshtastic_lab.Gateway.Framing.Chunks.{IsSettled, feed_all-flatten}
use meshtastic_lab.Gateway.Framing.Bounds.{
  feed_conserves, feed-IsEncoded, wire_length, IsByte, IsEncoded,
}
use meshtastic_lab.Gateway.Framing.Roundtrip.{encode_all, frame_of, feed-encode_all}

abbrev fresh : FrameParser
fresh = record {
  buffer = [];
  maximum_payload_size = 512;
  discarded_bytes = 0;
  oversized_frames = 0;
}

-- A byte of noise, a frame of two bytes, and the beginning of another.
abbrev noisy : List ℕ
noisy = 1 ∷ 0x94 ∷ 0xc3 ∷ 0 ∷ 2 ∷ 7 ∷ 8 ∷ 0x94 ∷ []

abbrev halves : List (List ℕ)
halves = (1 ∷ 0x94 ∷ []) ∷ (0xc3 ∷ 0 ∷ 2 ∷ 7 ∷ 8 ∷ 0x94 ∷ []) ∷ []

abbrev payloads : List (List ℕ)
payloads = (7 ∷ 8 ∷ []) ∷ [] ∷ []

abbrev wire : List ℕ
wire = 0x94 ∷ 0xc3 ∷ 0 ∷ 2 ∷ 7 ∷ 8 ∷ 0x94 ∷ 0xc3 ∷ 0 ∷ 0 ∷ []

abbrev after_noisy : FrameParser
after_noisy = record {
  buffer = 0x94 ∷ [];
  maximum_payload_size = 512;
  discarded_bytes = 1;
  oversized_frames = 0;
}

feed-noisy : feed fresh noisy ≡ some (after_noisy, frame_of (7 ∷ 8 ∷ []) ∷ [])
unfolding feed feed_loop turn read_frame find_magic keep_tail from_big_endian
feed-noisy = refl

feed-Reads_example :
    (p' : FrameParser) × (frames : List Frame) × (feed fresh noisy ≡ some (p', frames))
    × Reads (record fresh { buffer = fresh.buffer ++ noisy }) p' frames
feed-Reads_example = feed-Reads fresh noisy

fresh-IsSettled : IsSettled fresh
fresh-IsSettled = refl

feed_all-flatten_example : feed_all fresh halves ≡ feed fresh (flatten halves)
feed_all-flatten_example = feed_all-flatten fresh halves fresh-IsSettled

encoded : encode_all payloads ≡ some wire
unfolding encode_all encode_frame
encoded = refl

feed-encode_all_example : feed fresh wire ≡ some (fresh, map frame_of payloads)
feed-encode_all_example = feed-encode_all fresh payloads wire refl (omega arith) encoded

feed_conserves_example :
    (after_noisy.discarded_bytes
        + wire_length (frame_of (7 ∷ 8 ∷ []) ∷ [])
        + length after_noisy.buffer
      ≡ fresh.discarded_bytes + length fresh.buffer + length noisy)
    × (length after_noisy.buffer ≤ fresh.maximum_payload_size + 3)
feed_conserves_example =
    feed_conserves fresh after_noisy noisy (frame_of (7 ∷ 8 ∷ []) ∷ []) feed-noisy

noisy_bytes : All IsByte noisy
noisy_bytes = (
  omega arith,
  (
    omega arith,
    (omega arith, (omega arith, (omega arith, (omega arith, (omega arith, (omega arith, tt)))))),
  ),
)

feed-IsEncoded_example : All IsEncoded (frame_of (7 ∷ 8 ∷ []) ∷ [])
feed-IsEncoded_example =
    feed-IsEncoded fresh after_noisy noisy (frame_of (7 ∷ 8 ∷ []) ∷ []) (omega arith) tt noisy_bytes
      feed-noisy
