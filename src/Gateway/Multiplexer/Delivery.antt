-- ===== src/Gateway/Multiplexer/Delivery.antt =====
-- What the connected client gets of the radio's frames: `_handle_downstream_frame` of
-- backend/app/gateway/node_gateway.py.
use mathlib.Core.List.{append_assoc, append-nil}
use meshtastic_lab.Base.{
  take, zero, suc, ◌≤◌, ◌<◌, ℕ, ◌+◌, ◌≡◌, ◌∙◌, refl, sym, inl, inr, Bool, true, false, List, [],
  ◌∷◌, ◌++◌, Option, none, some, arith, length, length-append, Bool-cases, if◌then◌else◌, subst, ap,
  not,
}
use meshtastic_lab.Gateway.Framing.{Frame}
use meshtastic_lab.Metrics.Packet.{Protobuf}
use meshtastic_lab.Gateway.Multiplexer.{
  NodeGateway, RadioMessage, config_complete, mesh_packet, other_variant, is_full, forward_to,
  is_simulated_packet, handle_message, handle_downstream_frame, handle_frames, resolve_waiter,
}

take-take : {A : Type 0} (n : ℕ) (xs ys : List A) → take n (take n xs ++ ys) ≡ take n (xs ++ ys)
take-take zero xs ys = refl
take-take (suc n) [] ys = refl
take-take (suc n) (x ∷ xs) ys = ap (◌∷◌ x) (take-take n xs ys)

take-all : {A : Type 0} (n : ℕ) (xs : List A) → length xs ≤ n → take n xs ≡ xs
take-all zero [] h = refl
take-all zero (x ∷ xs) h = absurd (omega (arith, h))
take-all (suc n) [] h = refl
take-all (suc n) (x ∷ xs) h = ap (◌∷◌ x) (take-all n xs (omega (arith, h)))

take-full : {A : Type 0} (xs ys : List A) → take (length xs) (xs ++ ys) ≡ xs
take-full [] ys = refl
take-full (x ∷ xs) ys = ap (◌∷◌ x) (take-full xs ys)

-- A step that adds some frames for the client: the queue keeps the first that fit.
record Delivered (g : NodeGateway) (raws : List (List ℕ)) (h : NodeGateway) : Type 0 where
  same_client : h.client_writer ≡ g.client_writer
  same_size : h.queue_size ≡ g.queue_size
  kept : h.external_writes ≡ take g.queue_size (g.external_writes ++ raws)
  counted :
      length h.external_writes + h.dropped_external_frames
      ≡ length g.external_writes + g.dropped_external_frames + length raws
  fits : length h.external_writes ≤ g.queue_size

unchanged :
    (g h : NodeGateway)
    → h.client_writer ≡ g.client_writer
    → h.queue_size ≡ g.queue_size
    → h.external_writes ≡ g.external_writes
    → h.dropped_external_frames ≡ g.dropped_external_frames
    → length g.external_writes ≤ g.queue_size
    → Delivered g [] h
unchanged g h client size writes dropped room = record {
  same_client = client;
  same_size = size;
  kept =
      writes
      ∙ sym (
          ap (take g.queue_size) (append-nil g.external_writes)
          ∙ take-all g.queue_size g.external_writes room);
  counted = omega (arith, ap length writes, dropped);
  fits = omega (arith, ap length writes, room);
}

Delivered-trans :
    (g h k : NodeGateway) (xs ys : List (List ℕ))
    → Delivered g xs h
    → Delivered h ys k
    → Delivered g (xs ++ ys) k
Delivered-trans g h k xs ys a b = record {
  same_client = b.same_client ∙ a.same_client;
  same_size = b.same_size ∙ a.same_size;
  kept =
      b.kept
      ∙ ap (λ n. take n (h.external_writes ++ ys)) a.same_size
      ∙ ap (λ q. take g.queue_size (q ++ ys)) a.kept
      ∙ take-take g.queue_size (g.external_writes ++ xs) ys
      ∙ ap (take g.queue_size) (append_assoc g.external_writes xs ys);
  counted = omega (arith, a.counted, b.counted, length-append xs ys);
  fits = omega (arith, b.fits, a.same_size);
}

forward_to-Delivered :
    (client : Option ℕ) (writer : ℕ) (raw : List ℕ) (g : NodeGateway)
    → client ≡ some writer
    → 0 < g.queue_size
    → length g.external_writes ≤ g.queue_size
    → Delivered g (raw ∷ []) (forward_to client raw g)
forward_to-Delivered none writer raw g e limited room = absurd (ground arith)
forward_to-Delivered (some w) writer raw g e limited room =
    elim (Bool-cases (is_full g.queue_size g.external_writes)) [
      | inl full ↦
          let at_bound : g.queue_size ≡ length g.external_writes = ground (arith, full, room) in
          rw full (record {
            same_client = refl;
            same_size = refl;
            kept = sym (
                ap (λ n. take n (g.external_writes ++ (raw ∷ []))) at_bound
                ∙ take-full g.external_writes (raw ∷ []));
            counted = omega arith;
            fits = room;
          })
      | inr free ↦
          let longer = length-append g.external_writes (raw ∷ []) in
          let below : length g.external_writes + 1 ≤ g.queue_size = ground (arith, free, limited) in
          rw free (record {
            same_client = refl;
            same_size = refl;
            kept = sym (
                take-all g.queue_size (g.external_writes ++ (raw ∷ []))
                  (omega (arith, longer, below)));
            counted = omega (arith, longer);
            fits = omega (arith, longer, below);
          })
    ]

module _ (pb : Protobuf) (parse_from_radio : List ℕ → Option RadioMessage) where
  -- The frames that are for the client: those that parse and are no simulated radio packet.
  abbrev pub is_ordinary : Option RadioMessage → Bool
  is_ordinary none = false
  is_ordinary (some (config_complete nonce)) = true
  is_ordinary (some other_variant) = true
  is_ordinary (some (mesh_packet p)) = not (is_simulated_packet pb parse_from_radio p)

  abbrev pub ordinary : List Frame → List (List ℕ)
  ordinary [] = []
  ordinary (frame ∷ frames) =
      let rest = ordinary frames in
      if is_ordinary (parse_from_radio frame.payload) then frame.raw ∷ rest else rest

  abbrev ordinary_part : Option RadioMessage → List ℕ → List (List ℕ)
  ordinary_part o raw = if is_ordinary o then raw ∷ [] else []

  forward_message-Delivered :
      (message : RadioMessage) (raw : List ℕ) (writer : ℕ) (g : NodeGateway)
      → g.client_writer ≡ some writer
      → 0 < g.queue_size
      → length g.external_writes ≤ g.queue_size
      → Delivered g (raw ∷ []) (
          forward_to g.client_writer raw (record g {
            handled = g.handled ++ (message ∷ []);
            config_waiters = resolve_waiter message g.config_waiters;
          }))
  forward_message-Delivered message raw writer g e limited room =
      let d =
        forward_to-Delivered g.client_writer writer raw
          (record g {
            handled = g.handled ++ (message ∷ []);
            config_waiters = resolve_waiter message g.config_waiters;
          })
          e limited room in
      record {
        same_client = d.same_client;
        same_size = d.same_size;
        kept = d.kept;
        counted = d.counted;
        fits = d.fits;
      }

  handle_message-Delivered :
      (o : Option RadioMessage) (raw : List ℕ) (writer : ℕ) (g : NodeGateway)
      → g.client_writer ≡ some writer
      → 0 < g.queue_size
      → length g.external_writes ≤ g.queue_size
      → Delivered g (ordinary_part o raw) (handle_message pb parse_from_radio o raw g)
  handle_message-Delivered none raw writer g e limited room = unchanged g _ refl refl refl refl room
  handle_message-Delivered (some (config_complete nonce)) raw writer g e limited room =
      forward_message-Delivered (config_complete nonce) raw writer g e limited room
  handle_message-Delivered (some other_variant) raw writer g e limited room =
      forward_message-Delivered other_variant raw writer g e limited room
  handle_message-Delivered (some (mesh_packet p)) raw writer g e limited room =
      elim (Bool-cases (is_simulated_packet pb parse_from_radio p)) [
        | inl sim ↦ rw sim (elim (Bool-cases (is_full g.queue_size g.rf_frames)) [
          | inl full ↦ rw full (unchanged g _ refl refl refl refl room)
          | inr free ↦ rw free (unchanged g _ refl refl refl refl room)
        ])
        | inr plain ↦
            rw plain (forward_message-Delivered (mesh_packet p) raw writer g e limited room)
      ]

  ordinary_part-append :
      (frame : Frame) (frames : List Frame)
      → ordinary_part (parse_from_radio frame.payload) frame.raw ++ ordinary frames
        ≡ ordinary (frame ∷ frames)
  ordinary_part-append frame frames =
      elim (Bool-cases (is_ordinary (parse_from_radio frame.payload))) [
        | inl e ↦ rw e refl
        | inr e ↦ rw e refl
      ]

  frames-Delivered :
      (frames : List Frame) (writer : ℕ) (g : NodeGateway)
      → g.client_writer ≡ some writer
      → 0 < g.queue_size
      → length g.external_writes ≤ g.queue_size
      → Delivered g (ordinary frames) (handle_frames pb parse_from_radio frames g)
  unfolding handle_frames handle_downstream_frame
  frames-Delivered [] writer g e limited room = unchanged g g refl refl refl refl room
  frames-Delivered (frame ∷ frames) writer g e limited room =
      let o = parse_from_radio frame.payload in
      let h = handle_message pb parse_from_radio o frame.raw g in
      let first = handle_message-Delivered o frame.raw writer g e limited room in
      subst (λ raws. Delivered g raws (handle_frames pb parse_from_radio frames h))
        (ordinary_part-append frame frames)
        (Delivered-trans g h (handle_frames pb parse_from_radio frames h) _ (ordinary frames) first
          (frames-Delivered frames writer h (first.same_client ∙ e)
            (omega (arith, first.same_size, limited)) (omega (arith, first.fits, first.same_size))))

  -- While a client is connected and reads nothing, and its queue is within its positive bound, the
  -- queue gets exactly the radio's ordinary frames (those that parse and are no simulated radio
  -- packet), unchanged and in order, as many as fit, and each of the others is counted as dropped.
  pub handle_frames_accounts :
      (frames : List Frame) (writer : ℕ) (g : NodeGateway)
      → g.client_writer ≡ some writer
      → 0 < g.queue_size
      → length g.external_writes ≤ g.queue_size
      → ((handle_frames pb parse_from_radio frames g).external_writes
          ≡ take g.queue_size (g.external_writes ++ ordinary frames))
        × (length (handle_frames pb parse_from_radio frames g).external_writes
              + (handle_frames pb parse_from_radio frames g).dropped_external_frames
            ≡ length g.external_writes + g.dropped_external_frames + length (ordinary frames))
  handle_frames_accounts frames writer g e limited room =
      let d = frames-Delivered frames writer g e limited room in (d.kept, d.counted)
