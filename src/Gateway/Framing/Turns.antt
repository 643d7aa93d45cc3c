-- ===== src/Gateway/Framing/Turns.antt =====
-- A turn of the loop against the stream that it reads: backend/app/gateway/framing.py.
use meshtastic_lab.Base.{
  ℕ, zero, suc, ◌+◌, ◌*◌, ◌≤◌, ◌<◌, ◌≡◌, refl, sym, ap, subst, inl, inr, List, [], ◌∷◌, none, some,
  arith, ltb, ◌==◌, length, drop, Bool-cases, Option-cases, length-drop,
}
use meshtastic_lab.Gateway.Framing.{
  Frame, FrameParser, Turn, stop, again, emit, magic_first, magic_second, find_magic, keep_tail,
  read_frame, turn, from_big_endian,
}
use meshtastic_lab.Gateway.Framing.Scan.{
  Verdict, waiting, noise, oversized, complete, classify, Scans, rests, skips, rejects, takes,
}

-- No magic anywhere: all but a possible first half of one is noise.
skip_all :
    (limit : ℕ) (s : List ℕ)
    → find_magic s ≡ none
    → (d : ℕ) × (d + length (keep_tail s) ≡ length s) × Scans limit s [] d 0 (keep_tail s)
unfolding find_magic keep_tail
skip_all limit [] h = (0, refl, rests refl)
skip_all limit (a ∷ []) h = elim (Bool-cases (a == magic_first)) [
  | inl e ↦ rw (e, keep_tail) (0, refl, rests (rw e))
  | inr e ↦ rw (e, keep_tail) (1, refl, skips (rw e) (rests refl))
]
skip_all limit (a ∷ b ∷ s) h =
    let (d, counted, rest) = skip_all limit (b ∷ s) (ground arith) in
    (suc d, omega arith, skips (ground arith) rest)

-- The bytes before the first magic are noise.
skip_to :
    (limit k : ℕ) (s : List ℕ) {d o : ℕ} {fs : List Frame} {r : List ℕ}
    → find_magic s ≡ some k
    → Scans limit (drop k s) fs d o r
    → (e : ℕ) × (e ≡ k + d) × Scans limit s fs e o r
unfolding find_magic
skip_to limit k [] h sc = cc
skip_to limit k (a ∷ []) h sc = cc
skip_to limit zero (a ∷ b ∷ s) {d} h sc = (d, omega arith, sc)
skip_to limit (suc k) (a ∷ b ∷ s) h sc =
    let (e, counted, rest) = skip_to limit k (b ∷ s) (ground arith) sc in
    (suc e, omega arith, skips (ground arith) rest)

aligned :
    (k : ℕ) (s : List ℕ)
    → find_magic s ≡ some k
    → (r : List ℕ) × (drop k s ≡ magic_first ∷ magic_second ∷ r) × (k ≤ length s)
unfolding find_magic
aligned k [] h = cc
aligned k (a ∷ []) h = cc
aligned zero (a ∷ b ∷ s) h = (s, ground arith, omega arith)
aligned (suc k) (a ∷ b ∷ s) h =
    let (r, e, bound) = aligned k (b ∷ s) (ground arith) in (r, e, omega arith)

-- What one turn on an aligned buffer does is what the reference says of its first bytes.
abbrev Follows : FrameParser → List ℕ → Verdict → Turn → Type 0
Follows p r waiting t = t ≡ stop p
Follows p r noise t = ⊥
Follows p r oversized t =
    t
    ≡ again (record p {
      buffer = magic_second ∷ r;
      discarded_bytes = p.discarded_bytes + 1;
      oversized_frames = p.oversized_frames + 1;
    })
Follows p r (complete f rest) t =
    (t ≡ emit f (record p { buffer = rest })) × (length rest ≤ length r)

big_endian_pair : (hi lo : ℕ) → from_big_endian 0 (hi ∷ lo ∷ []) ≡ hi * 256 + lo
unfolding from_big_endian
big_endian_pair hi lo = omega arith

add_header : (n : ℕ) → 4 + n ≡ suc (suc (suc (suc n)))
add_header n = omega arith

length-drop-le : (n : ℕ) (xs : List ℕ) → length (drop n xs) ≤ length xs
length-drop-le n xs = omega (arith, length-drop n xs)

abbrev magic_then : FrameParser → List ℕ → FrameParser
magic_then p r = record p { buffer = magic_first ∷ magic_second ∷ r }

read_frame-Follows :
    (p : FrameParser) (r : List ℕ)
    → Follows
        (magic_then p r)
        r
        (classify p.maximum_payload_size (magic_first ∷ magic_second ∷ r))
        (read_frame (magic_then p r))
unfolding read_frame
read_frame-Follows p [] = refl
read_frame-Follows p (hi ∷ []) = refl
read_frame-Follows p (hi ∷ lo ∷ body) =
    rw (big_endian_pair hi lo, add_header (hi * 256 + lo))
      (elim (Bool-cases (ltb p.maximum_payload_size (hi * 256 + lo))) [
        | inl large ↦ rw (large) (ground arith)
        | inr fits ↦ rw (fits) (elim (Bool-cases (ltb (length body) (hi * 256 + lo))) [
          | inl short ↦ rw short (ground arith)
          | inr full ↦ rw full (ground arith, omega (arith, length-drop-le (hi * 256 + lo) body))
        ])
      ])

-- What a run of the loop has read, counted from the state before it.
pub record Reads (p p' : FrameParser) (frames : List Frame) : Type 0 where
  pub noise_bytes : ℕ
  pub rejected : ℕ
  pub scanned : Scans p.maximum_payload_size p.buffer frames noise_bytes rejected p'.buffer
  pub same_limit : p'.maximum_payload_size ≡ p.maximum_payload_size
  pub discarded : p'.discarded_bytes ≡ p.discarded_bytes + noise_bytes
  pub oversize : p'.oversized_frames ≡ p.oversized_frames + rejected

-- What one turn leaves to do, and how the readings of the rest extend.
abbrev pub Turned : FrameParser → Turn → Type 0
Turned p (stop q) = Reads p q []
Turned p (again q) =
    (length q.buffer < length p.buffer)
    × ((r : FrameParser) (fs : List Frame) → Reads q r fs → Reads p r fs)
Turned p (emit f q) =
    (length q.buffer < length p.buffer)
    × ((r : FrameParser) (fs : List Frame) → Reads q r fs → Reads p r (f ∷ fs))

module _ (p : FrameParser) (k : ℕ) (r : List ℕ) (found : find_magic p.buffer ≡ some k)
    (at_magic : drop k p.buffer ≡ magic_first ∷ magic_second ∷ r)
    (inside : k ≤ length p.buffer) where
  abbrev synced : FrameParser
  synced = magic_then (record p { discarded_bytes = p.discarded_bytes + k }) r

  shorter : length p.buffer ≡ k + suc (suc (length r))
  shorter = omega (arith, length-drop k p.buffer, ap length at_magic)

  from_sync :
      {d o : ℕ} {fs : List Frame} {rest : List ℕ}
      → Scans p.maximum_payload_size (magic_first ∷ magic_second ∷ r) fs d o rest
      → (e : ℕ) × (e ≡ k + d) × Scans p.maximum_payload_size p.buffer fs e o rest
  from_sync {d} {o} {fs} {rest} sc =
      skip_to p.maximum_payload_size k p.buffer found
        (subst (λ s. Scans p.maximum_payload_size s fs d o rest) (sym at_magic) sc)

  synced-Turned :
      (v : Verdict) (t : Turn)
      → classify p.maximum_payload_size (magic_first ∷ magic_second ∷ r) ≡ v
      → Follows synced r v t
      → Turned p t
  synced-Turned waiting t e f = rw f (
      let (d, counted, sc) = from_sync (rests e) in
      record {
        noise_bytes = d;
        rejected = 0;
        scanned = sc;
        same_limit = refl;
        discarded = omega arith;
        oversize = omega arith;
      })
  synced-Turned noise t e f = absurd f
  synced-Turned oversized t e f = rw f (
    omega (arith, shorter),
    λ q fs h.
        let (d, counted, sc) = from_sync (rejects e h.scanned) in
        record {
          noise_bytes = d;
          rejected = suc h.rejected;
          scanned = sc;
          same_limit = h.same_limit;
          discarded = omega (arith, h.discarded);
          oversize = omega (arith, h.oversize);
        },
  )
  synced-Turned (complete frame rest) t e f = rw f.0 (
    omega (arith, shorter, f.1),
    λ q fs h.
        let (d, counted, sc) = from_sync (takes e h.scanned) in
        record {
          noise_bytes = d;
          rejected = h.rejected;
          scanned = sc;
          same_limit = h.same_limit;
          discarded = omega (arith, h.discarded);
          oversize = h.oversize;
        },
  )

pub turn-Turned : (p : FrameParser) → Turned p (turn p)
unfolding turn
turn-Turned p = elim (Option-cases (find_magic p.buffer)) [
  | inl e ↦
      let (d, counted, sc) = skip_all p.maximum_payload_size p.buffer e in
      rw (e, turn)
        (record {
          noise_bytes = d;
          rejected = 0;
          scanned = sc;
          same_limit = refl;
          discarded = omega arith;
          oversize = omega arith;
        })
  | inr (k, e) ↦
      let (r, at_magic, inside) = aligned k p.buffer e in
      rw (e, turn, at_magic)
        (synced-Turned p k r e at_magic inside _ _ refl
          (read_frame-Follows (record p { discarded_bytes = p.discarded_bytes + k }) r))
]
