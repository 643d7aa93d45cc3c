-- ===== src/Gateway/Framing/Scan.antt =====
-- A reference reading of a byte stream, byte by byte and with no parser state, for
-- backend/app/gateway/framing.py. It says what a stream means, whatever the reads were.
use meshtastic_lab.Base.{
  ℕ, suc, ◌+◌, ◌*◌, ◌≡◌, List, [], ◌∷◌, ◌&&◌, ltb, ◌==◌, if◌then◌else◌, length, take, drop,
}
use meshtastic_lab.Gateway.Framing.{Frame, magic_first, magic_second}

-- What the first bytes of a stream are.
pub data Verdict : Type 0 where
  waiting noise oversized : Verdict
  complete : Frame → List ℕ → Verdict

abbrev pub classify_body : ℕ → ℕ → ℕ → List ℕ → Verdict
classify_body limit hi lo body =
    let size = hi * 256 + lo in
    if ltb limit size
    then oversized
    else if ltb (length body) size
    then waiting
    else complete
        (record {
          raw = magic_first ∷ magic_second ∷ hi ∷ lo ∷ take size body;
          payload = take size body;
        })
        (drop size body)

abbrev pub classify_header : ℕ → List ℕ → Verdict
classify_header limit [] = waiting
classify_header limit (hi ∷ []) = waiting
classify_header limit (hi ∷ lo ∷ body) = classify_body limit hi lo body

abbrev pub classify : ℕ → List ℕ → Verdict
classify limit [] = waiting
classify limit (a ∷ []) = if a == magic_first then waiting else noise
classify limit (a ∷ b ∷ rest) =
    if a == magic_first && b == magic_second then classify_header limit rest else noise

-- `Scans limit s frames discarded oversize rest`: the stream `s` holds these frames, so many
-- bytes outside them and oversized headers, and ends in the unfinished `rest`.
pub data Scans (limit : ℕ) : List ℕ → List Frame → ℕ → ℕ → List ℕ → Type 0 where
  rests : {s : List ℕ} → classify limit s ≡ waiting → Scans limit s [] 0 0 s
  skips :
      {b d o : ℕ} {s r : List ℕ} {fs : List Frame}
      → classify limit (b ∷ s) ≡ noise
      → Scans limit s fs d o r
      → Scans limit (b ∷ s) fs (suc d) o r
  rejects :
      {b d o : ℕ} {s r : List ℕ} {fs : List Frame}
      → classify limit (b ∷ s) ≡ oversized
      → Scans limit s fs d o r
      → Scans limit (b ∷ s) fs (suc d) (suc o) r
  takes :
      {d o : ℕ} {f : Frame} {s t r : List ℕ} {fs : List Frame}
      → classify limit s ≡ complete f t
      → Scans limit t fs d o r
      → Scans limit s (f ∷ fs) d o r
