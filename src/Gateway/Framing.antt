-- ===== src/Gateway/Framing.antt =====
-- Stream framing: backend/app/gateway/framing.py.
-- Bytes are numbers, a bytearray is a list of them. One turn of the `while` loop of
-- `FrameParser.feed` is `turn`; the loop runs on fuel, one more than the buffered bytes.
pub mod Scan
pub mod Stream
pub mod Turns
pub mod Chunks
pub mod Bounds
pub mod Roundtrip
use mathlib.Core.Option
use meshtastic_lab.Base.{
  ℕ, zero, suc, ◌+◌, ◌-◌, ◌*◌, ◌/◌, ◌%◌, Bool, true, false, ◌&&◌, List, [], ◌∷◌, ◌++◌, Option, none,
  some, ltb, ◌==◌, if◌then◌else◌, length, take, drop, is_empty,
}

-- The two bytes of `MAGIC`.
abbrev pub magic_first : ℕ
magic_first = 0x94

abbrev pub magic_second : ℕ
magic_second = 0xc3

abbrev pub header_size : ℕ
header_size = 4

abbrev pub max_protobuf_size : ℕ
max_protobuf_size = 512

pub record Frame : Type 0 where
  pub raw : List ℕ
  pub payload : List ℕ

pub record FrameParser : Type 0 where
  pub buffer : List ℕ
  pub maximum_payload_size : ℕ
  pub discarded_bytes : ℕ
  pub oversized_frames : ℕ

pub init : ℕ → FrameParser
init maximum = record {
  buffer = [];
  maximum_payload_size = maximum;
  discarded_bytes = 0;
  oversized_frames = 0;
}

-- `bytearray.find(MAGIC)`: the first position where the two bytes stand.
unfoldable pub find_magic : List ℕ → Option ℕ
find_magic [] = none
find_magic (a ∷ []) = none
find_magic (a ∷ b ∷ r) =
    if a == magic_first && b == magic_second then some 0 else Option.map suc (find_magic (b ∷ r))

-- The bytes kept where no magic stands in the buffer: the last one, if it may begin a magic.
unfoldable pub keep_tail : List ℕ → List ℕ
keep_tail [] = []
keep_tail (a ∷ []) = if a == magic_first then a ∷ [] else []
keep_tail (a ∷ b ∷ r) = keep_tail (b ∷ r)

-- `int.from_bytes(…, byteorder="big")`
unfoldable pub from_big_endian : ℕ → List ℕ → ℕ
from_big_endian acc [] = acc
from_big_endian acc (b ∷ bs) = from_big_endian (acc * 256 + b) bs

-- How one turn of the loop ends: `break`, `continue`, or a frame appended.
pub data Turn : Type 0 where
  stop again : FrameParser → Turn
  emit : Frame → FrameParser → Turn

-- The part of a turn behind the alignment on the magic.
unfoldable pub read_frame : FrameParser → Turn
unfolding from_big_endian
read_frame p =
    let payload_size = from_big_endian 0 (take 2 (drop 2 p.buffer)) in
    let frame_size = header_size + payload_size in
    let raw = take frame_size p.buffer in
    if ltb (length p.buffer) header_size
    then stop p
    else if ltb p.maximum_payload_size payload_size
    then again (record p {
      buffer = drop 1 p.buffer;
      discarded_bytes = p.discarded_bytes + 1;
      oversized_frames = p.oversized_frames + 1;
    })
    else if ltb (length p.buffer) frame_size
    then stop p
    else emit (record { raw = raw; payload = drop header_size raw })
        (record p { buffer = drop frame_size p.buffer })

unfoldable pub turn : FrameParser → Turn
turn p = elim (find_magic p.buffer) [
  | none ↦
      let kept = keep_tail p.buffer in
      stop (record p {
        buffer = kept;
        discarded_bytes = p.discarded_bytes + (length p.buffer - length kept);
      })
  | some start ↦
      read_frame
        (record p { buffer = drop start p.buffer; discarded_bytes = p.discarded_bytes + start })
]

-- `while self._buffer`; `none` means that the fuel ran out.
unfoldable pub feed_loop : ℕ → FrameParser → Option (FrameParser × List Frame)
feed_loop zero p = none
feed_loop (suc fuel) p = elim (is_empty p.buffer) [
  | true ↦ some (p, [])
  | false ↦ elim (turn p) [
    | stop p' ↦ some (p', [])
    | again p' ↦ feed_loop fuel p'
    | emit frame p' ↦ Option.map (λ r. (r.0, frame ∷ r.1)) (feed_loop fuel p')
  ]
]

unfoldable pub feed : FrameParser → List ℕ → Option (FrameParser × List Frame)
feed p chunk =
    let received = p.buffer ++ chunk in
    feed_loop (suc (length received)) (record p { buffer = received })

-- The read loops of the gateway: every chunk that `read` returns is fed to one parser, and the
-- frames are handed on in order.
unfoldable pub feed_all : FrameParser → List (List ℕ) → Option (FrameParser × List Frame)
feed_all p [] = some (p, [])
feed_all p (chunk ∷ chunks) = elim (feed p chunk) [
  | none ↦ none
  | some (q, frames) ↦ Option.map (λ r. (r.0, frames ++ r.1)) (feed_all q chunks)
]

-- `none` is the ValueError of a payload that is too long.
unfoldable pub encode_frame : List ℕ → Option (List ℕ)
encode_frame payload =
    if ltb max_protobuf_size (length payload)
    then none
    else some
        (magic_first ∷ magic_second ∷ (length payload / 256) ∷ (length payload % 256) ∷ payload)
